-- ===== src/Exec.antt =====
-- A Go call that may fail and that changes the world: what was changed before an error stays so.
pub mod Steps
use omemo_go.Base.{◌≡◌, refl, Bool, true, false, Option, none, some}
use omemo_go.Errors.{Context, Error, wrap}

pub data Result {ℓ} (A : Type ℓ) : Type ℓ where
  ok : A → Result A
  err : Error → Result A

abbrev pub ⊤ : Type 0
⊤ = Unit {0}

abbrev pub Exec : Type 0 → Type 0 → Type 0
Exec W A = W → Result A × W

-- `if err != nil { return fmt.Errorf("...: %w", err) }` around a result.
abbrev pub wrapped_result {ℓ} : {A : Type ℓ} → Context → Result A → Result A
wrapped_result c (ok a) = ok a
wrapped_result c (err e) = err (wrap c e)

module _ {W : Type 0} where
  abbrev pub pure : {A : Type 0} → A → Exec W A
  pure a w = (ok a, w)

  abbrev pub raise : {A : Type 0} → Error → Exec W A
  raise e w = (err e, w)

  abbrev pub lift : {A : Type 0} → Result A → Exec W A
  lift r w = (r, w)

  abbrev pub continue : {A B : Type 0} → Result A → (A → Exec W B) → Exec W B
  continue (ok a) f w = f a w
  continue (err e) f w = (err e, w)

  infixl 5 ◌>>=◌ ◌>>◌
  abbrev pub ◌>>=◌ : {A B : Type 0} → Exec W A → (A → Exec W B) → Exec W B
  ◌>>=◌ m f w = let (r, w') = m w in continue r f w'

  abbrev pub ◌>>◌ : {A B : Type 0} → Exec W A → Exec W B → Exec W B
  m >> n = m >>= λ _. n

  -- The call `m`, its error wrapped.
  abbrev pub wrapping : {A : Type 0} → Context → Exec W A → Exec W A
  wrapping c m w = let (r, w') = m w in (wrapped_result c r, w')

-- A part `S` of the world, and a call on that part as a call on the world.
pub record Lens (W S : Type 0) : Type 0 where
  pub get : W → S
  pub put : S → W → W
  pub get-put : (s : S) (w : W) → get (put s w) ≡ s

unfoldable pub through : {W S A : Type 0} → Lens W S → Exec S A → Exec W A
through part m w = let (r, s) = m (part.get w) in (r, part.put s w)
