-- ===== src/Store/Contract/Use.antt =====
-- What a successful call of a lawful method tells its caller.
use omemo_go.Base.{◌≡◌, sym, ap}
use omemo_go.Exec.{⊤, Result, ok, err, Exec}
use omemo_go.Store.View.{View, reads, writes}
use omemo_go.Store.Contract.{Meets}

abbrev value_or : {A : Type 0} → A → Result A → A
value_or d (ok a) = a
value_or d (err e) = d

module _ {W : Type 0} (view : W → View) (IsValid : W → Type 0) where
  pub Meets-ok :
      {A : Type 0} (spec : Exec View A) (m : Exec W A)
      → Meets view IsValid spec m
      → {w w' : W} {a : A} → IsValid w
      → m w ≡ (ok a, w')
      → IsValid w' × (spec (view w) ≡ (ok a, view w'))
  Meets-ok spec m law {w} v e = rw e at (law w v)

  -- A read: the content is as it was, and the value is the content's.
  pub reads-ok :
      {A : Type 0} (f : View → A) (m : Exec W A)
      → Meets view IsValid (reads f) m
      → {w w' : W} {a : A} → IsValid w
      → m w ≡ (ok a, w')
      → IsValid w' × (view w' ≡ view w) × (a ≡ f (view w))
  reads-ok {A} f m law {w} v e =
      let (v', q) = Meets-ok (reads f) m law v e in
      (
        v',
        ap (λ (p : Result A × View). p.1) (sym q),
        ap (λ (p : Result A × View). value_or (f (view w)) p.0) (sym q),
      )

  pub writes-ok :
      (f : View → View) (m : Exec W ⊤)
      → Meets view IsValid (writes f) m
      → {w w' : W} {a : ⊤} → IsValid w
      → m w ≡ (ok a, w')
      → IsValid w' × (view w' ≡ f (view w))
  writes-ok f m law v e =
      let (v', q) = Meets-ok (writes f) m law v e in (v', ap (λ (p : Result ⊤ × View). p.1) (sym q))
