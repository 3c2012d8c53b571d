-- ===== src/Store/Keeps.antt =====
-- How calls change what `view` sees of the world, such as the content of the store: a call stays within a relation `R` if, however it ends,
-- what is seen before and after is related, and the world stays valid. One rule for each
-- way to build a call.
use omemo_go.Base.{Bool, true, false, ◌≡◌, refl, ◌∙◌, ap}
use omemo_go.Base.{if◌then◌else◌}
use omemo_go.Errors.{Context, Error}
use omemo_go.Exec.{Result, ok, err, Exec, pure, raise, lift, continue, wrapping, ◌>>=◌}
use omemo_go.Store.View.{View}
use omemo_go.Store.Contract.{Meets, Ends}

-- A relation that a sequence of steps keeps.
pub record IsFrame {V : Type 0} (R : V → V → Type 0) : Type 0 where
  pub same : (v : V) → R v v
  pub chain : (u v w : V) → R u v → R v w → R u w

-- Nothing has changed.
abbrev pub Unchanged : {V : Type 0} → V → V → Type 0
Unchanged v v' = v' ≡ v

pub Unchanged-IsFrame : {V : Type 0} → IsFrame (Unchanged {V = V})
Unchanged-IsFrame = record { same = λ v. refl; chain = λ u v w p q. q ∙ p }

module _ {V W : Type 0} (view : W → V) (IsValid : W → Type 0) where
  pub record Within (R : V → V → Type 0) {A : Type 0} (m : Exec W A) : Type 0 where
    pub at : (w : W) → IsValid w → IsValid (m w).1 × R (view w) (view (m w).1)

  abbrev pub Quiet : {A : Type 0} → Exec W A → Type 0
  Quiet m = Within Unchanged m

  module _ {R : V → V → Type 0} (frame : IsFrame R) where
    pub Within-pure : {A : Type 0} (a : A) → Within R (pure a)
    Within-pure a = record { at = λ w v. (v, frame.same (view w)) }

    pub Within-raise : {A : Type 0} (e : Error) → Within R (raise {A = A} e)
    Within-raise e = record { at = λ w v. (v, frame.same (view w)) }

    pub Within-lift : {A : Type 0} (r : Result A) → Within R (lift r)
    Within-lift r = record { at = λ w v. (v, frame.same (view w)) }

    pub Within-quiet : {A : Type 0} {m : Exec W A} → Quiet m → Within R m
    Within-quiet {m} q = record {
      at = λ w v. let (v', same) = q.at w v in (v', rw same (frame.same (view w)));
    }

    continue-Within :
        {A B : Type 0} (r : Result A) (f : A → Exec W B)
        → ((a : A) → Within R (f a))
        → Within R (continue r f)
    continue-Within (ok a) f kf = kf a
    continue-Within (err e) f kf = Within-raise e

    pub Within-bind :
        {A B : Type 0} (m : Exec W A) (f : A → Exec W B)
        → Within R m
        → ((a : A) → Within R (f a))
        → Within R (m >>= f)
    Within-bind m f km kf = record {
      at = λ w v.
          let (v', first) = km.at w v in
          let (v'', rest) = (continue-Within (m w).0 f kf).at (m w).1 v' in
          (v'', frame.chain _ _ _ first rest);
    }

  module _ (R : V → V → Type 0) where
    pub Within-wrapping :
        {A : Type 0} (c : Context) (m : Exec W A) → Within R m → Within R (wrapping c m)
    Within-wrapping c m k = record { at = k.at }

    pub Within-if :
        {A : Type 0} (b : Bool) (m n : Exec W A)
        → Within R m
        → Within R n
        → Within R (if b then m else n)
    Within-if true m n km kn = km
    Within-if false m n km kn = kn

module _ {W : Type 0} (view : W → View) (IsValid : W → Type 0) (R : View → View → Type 0) where
  -- A method of the contract stays within `R` if its abstract method does.
  pub Ends-Within :
      {A : Type 0} (spec : Exec View A) (w : W) (r : Result A) (w' : W)
      → R (view w) (view w)
      → R (view w) (spec (view w)).1
      → Ends view IsValid spec w (r, w')
      → IsValid w' × R (view w) (view w')
  Ends-Within {A} spec w (ok a) w' same step (v', e) =
      (v', rw (ap (λ (p : Result A × View). p.1) e) at step)
  Ends-Within spec w (err x) w' same step (v', e) = (v', rw e same)

  pub Within-method :
      {A : Type 0} (spec : Exec View A) (m : Exec W A)
      → Meets view IsValid spec m
      → ((v : View) → R v v)
      → ((v : View) → R v (spec v).1)
      → Within view IsValid R m
  Within-method spec m law same step = record {
    at = λ w v. Ends-Within spec w (m w).0 (m w).1 (same (view w)) (step (view w)) (law w v);
  }

-- Nothing is said of the content: only that the world stays valid.
abbrev pub Anything : {V : Type 0} → V → V → Type 0
Anything v v' = Unit {0}

pub Anything-IsFrame : {V : Type 0} → IsFrame (Anything {V = V})
Anything-IsFrame = record { same = λ v. tt; chain = λ u v w p q. tt }
