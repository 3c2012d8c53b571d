-- ===== src/Manager/Concurrent/Exclusion.antt =====
-- What the mutexes achieve: one goroutine at a time in the section of a device.
use omemo_go.Base.{ℕ, ◌≡◌, sym, ◌∙◌, ap, subst, Option, some, nat_eq}
use omemo_go.Base.GoMap.{lookup}
use omemo_go.Types.{Slice, Device, device_eq}
use omemo_go.Manager.Concurrent.{Place, System, Steps, start}
use omemo_go.Manager.Concurrent.Invariant.{Fits, IsValid}
use omemo_go.Manager.Concurrent.Preserved.{Steps-IsValid}

module _ {s : System} (v : IsValid s) where
  -- The mutex of a goroutine in a section is recorded for its device.
  recorded :
      (i : ℕ) {d : Device} {l : ℕ}
      → s.places i ≡ Place.inside d l
      → lookup d s.table.mutexes ≡ some l
  recorded i {d} {l} at =
      let f : Fits s.table (Place.inside d l) = subst (Fits s.table) at (v.fits i) in f.0

  one_inside :
      (i j : ℕ) (d : Device) (l k : ℕ)
      → s.places i ≡ Place.inside d l
      → s.places j ≡ Place.inside d k
      → i ≡ j
  one_inside i j d l k p q =
      let same : l ≡ k = cc (sym (recorded i p) ∙ recorded j q) in
      v.unique i j d d l p (q ∙ ap (Place.inside d) (sym same))

module _ (sessions keys : Device → Option Slice) {s : System}
    (run : Steps (start sessions keys) s) where
  -- In every state that goroutines on a new manager reach: two goroutines that are inside the
  -- section of the same device are the same goroutine.
  pub mutual_exclusion :
      (i j : ℕ) {d : Device} {l k : ℕ}
      → s.places i ≡ Place.inside d l
      → s.places j ≡ Place.inside d k
      → i ≡ j
  mutual_exclusion i j {d} {l} {k} p q = one_inside (Steps-IsValid sessions keys run) i j d l k p q
