-- ===== src/Exec/Steps.antt =====
-- Reading a run of a block of calls backwards: what its steps did, from how it ended.
use omemo_go.Base.{◌≡◌, refl, ap}
use omemo_go.Errors.{Context, Error, wrap}
use omemo_go.Exec.{Result, ok, err, Exec, wrapping, wrapped_result, continue, ◌>>=◌}

module _ {W A B : Type 0} where
  -- A block that succeeded: its first call did, and then the rest.
  pub continue-eq-ok :
      (r : Result A) (f : A → Exec W B) {w w'' : W} {b : B}
      → continue r f w ≡ (ok b, w'')
      → (a : A) × (r ≡ ok a) × (f a w ≡ (ok b, w''))
  continue-eq-ok (ok a) f h = (a, refl, h)
  continue-eq-ok (err e) f h = cc (ap (λ (p : Result B × W). p.0) h)

  pub >>=-eq-ok :
      (m : Exec W A) (f : A → Exec W B) {w w'' : W} {b : B}
      → (m >>= f) w ≡ (ok b, w'')
      → (a : A) × (w' : W) × (m w ≡ (ok a, w')) × (f a w' ≡ (ok b, w''))
  >>=-eq-ok m f {w} h =
      let (a, p, q) = continue-eq-ok (m w).0 f h in (a, (m w).1, λ i. (p i, (m w).1), q)

pub wrapped-eq-ok :
    {A : Type 0} (c : Context) (r : Result A) {a : A} → wrapped_result c r ≡ ok a → r ≡ ok a
wrapped-eq-ok c (ok a) h = h
wrapped-eq-ok c (err e) h = cc

module _ {W A : Type 0} where
  pub wrapping-eq-ok :
      (c : Context) (m : Exec W A) {w w' : W} {a : A}
      → wrapping c m w ≡ (ok a, w')
      → m w ≡ (ok a, w')
  wrapping-eq-ok c m {w} h =
      let p = wrapped-eq-ok c (m w).0 (ap (λ (q : Result A × W). q.0) h) in
      λ i. (p i, (ap (λ (q : Result A × W). q.1) h) i)

-- A block whose first call is wrapped.
pub wrapping-bind-eq-ok :
    {W A B : Type 0} (c : Context) (m : Exec W A) (f : A → Exec W B) {w w'' : W} {b : B}
    → (wrapping c m >>= f) w ≡ (ok b, w'')
    → (a : A) × (w' : W) × (m w ≡ (ok a, w')) × (f a w' ≡ (ok b, w''))
wrapping-bind-eq-ok c m f h =
    let (a, w', p, q) = >>=-eq-ok (wrapping c m) f h in (a, w', wrapping-eq-ok c m p, q)

-- A block whose first step is a wrapped result that was at hand.
pub wrapped-bind-eq-ok :
    {W A B : Type 0} (c : Context) (r : Result A) (f : A → Exec W B) {w w'' : W} {b : B}
    → continue (wrapped_result c r) f w ≡ (ok b, w'')
    → (a : A) × (r ≡ ok a) × (f a w ≡ (ok b, w''))
wrapped-bind-eq-ok c r f h =
    let (a, p, q) = continue-eq-ok (wrapped_result c r) f h in (a, wrapped-eq-ok c r p, q)

-- Equal successful ends.
pub ok-eq-ok :
    {W A : Type 0} {a b : A} {w w' : W}
    → ◌≡◌ {A = Result A × W} (ok a, w) (ok b, w')
    → (a ≡ b) × (w ≡ w')
ok-eq-ok {W} {A} {a} h = (
  ap (λ (q : Result A × W). elim q.0 [ ok x ↦ x | err e ↦ a ]) h,
  ap (λ (q : Result A × W). q.1) h,
)

-- A block run forwards: its wrapped first call succeeds, or fails.
module _ {W A B : Type 0} (c : Context) (m : Exec W A) (f : A → Exec W B) {w w' : W} where
  pub wrapping-bind-ok : {a : A} → m w ≡ (ok a, w') → (wrapping c m >>= f) w ≡ f a w'
  wrapping-bind-ok e = ap (λ (p : Result A × W). continue (wrapped_result c p.0) f p.1) e

  pub wrapping-bind-err :
      {e : Error} → m w ≡ (err e, w') → (wrapping c m >>= f) w ≡ (err (wrap c e), w')
  wrapping-bind-err e = ap (λ (p : Result A × W). continue (wrapped_result c p.0) f p.1) e

module _ {W A B : Type 0} (f : A → Exec W B) where
  pub >>=-ok : (m : Exec W A) {w w' : W} {a : A} → m w ≡ (ok a, w') → (m >>= f) w ≡ f a w'
  >>=-ok m e = ap (λ (p : Result A × W). continue p.0 f p.1) e

  pub wrapped-bind-ok :
      (c : Context) {r : Result A} (w : W) {a : A}
      → r ≡ ok a
      → continue (wrapped_result c r) f w ≡ f a w
  wrapped-bind-ok c w e = ap (λ x. continue (wrapped_result c x) f w) e
