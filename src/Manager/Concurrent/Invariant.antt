-- ===== src/Manager/Concurrent/Invariant.antt =====
-- What holds in every state that the goroutines reach.
use omemo_go.Base.{
  ℕ, ◌≡◌, refl, ◌≢◌, ◌⊎◌, inl, inr, true, false, arith, some, List, [], ◌∷◌, ◌==◌, nat_eq,
  if◌then◌else◌, Bool-cases,
}
use omemo_go.Base.GoMap.{lookup}
use omemo_go.Types.{Device, device_eq}
use omemo_go.Store.View.{update}
use omemo_go.Manager.Locks.{LockTable, holds, released, lock, unlock}
use omemo_go.Manager.Locks.Unique.{IsOrderly}
use omemo_go.Manager.Concurrent.{Place, System}

-- The mutexes in a list, each once.
abbrev pub NoRepeat : List ℕ → Type 0
NoRepeat [] = Unit {0}
NoRepeat (l ∷ ls) = (holds ls l ≡ false) × NoRepeat ls

pub holds-released :
    (ls : List ℕ) (l k : ℕ)
    → NoRepeat ls
    → holds (released ls l) k ≡ (if k == l then false else holds ls k)
unfolding holds released
holds-released [] l k u = ground arith
holds-released (x ∷ ls) l k (new, u) = ground (arith, holds-released ls l k u)

pub released-NoRepeat : (ls : List ℕ) (l : ℕ) → NoRepeat ls → NoRepeat (released ls l)
unfolding holds released
released-NoRepeat [] l u = tt
released-NoRepeat (x ∷ ls) l (new, u) =
    ground (arith, released-NoRepeat ls l u, holds-released ls l x u)

-- What a place says of the table: a goroutine waits for, or holds, the mutex of its device.
abbrev pub Fits : LockTable → Place → Type 0
Fits t Place.outside = Unit {0}
Fits t (Place.waiting dev l) = lookup dev t.mutexes ≡ some l
Fits t (Place.inside dev l) = (lookup dev t.mutexes ≡ some l) × (holds t.held l ≡ true)

pub record IsValid (s : System) : Type 0 where
  pub orderly : IsOrderly s.table
  pub running : s.table.stuck ≡ false
  pub once : NoRepeat s.table.held
  pub fits : (i : ℕ) → Fits s.table (s.places i)
  pub unique :
      (i j : ℕ) (d e : Device) (l : ℕ)
      → s.places i ≡ Place.inside d l
      → s.places j ≡ Place.inside e l
      → i ≡ j
  pub holder :
      (l : ℕ)
      → holds s.table.held l ≡ true
      → (i : ℕ) × (d : Device) × (s.places i ≡ Place.inside d l)

pub different : {i j : ℕ} → (j == i) ≡ false → j ≢ i
different h = ground arith

pub equal : {i j : ℕ} → (j == i) ≡ true → j ≡ i
equal h = ground arith

-- After goroutine `i` has moved to `p`, a property of all places.
pub update-all :
    (P : Place → Type 0) (i : ℕ) (p : Place) (f : ℕ → Place)
    → P p
    → ((j : ℕ) → j ≢ i → P (f j))
    → (j : ℕ) → P (update i p f j)
update-all P i p f new old j = elim (Bool-cases (j == i)) [
  | inl same ↦ rw same new
  | inr other ↦ rw other (old j (different other))
]

-- Who is inside after the move.
pub update-cases :
    (i : ℕ) (p : Place) (f : ℕ → Place) (j : ℕ) {q : Place}
    → update i p f j ≡ q
    → ((j ≡ i) × (p ≡ q)) ⊎ ((j ≢ i) × (f j ≡ q))
update-cases i p f j h = elim (Bool-cases (j == i)) [
  | inl same ↦ inl (equal same, rw same at h)
  | inr other ↦ inr (different other, rw other at h)
]

pub update_self : (i : ℕ) (p : Place) (f : ℕ → Place) → update i p f i ≡ p
update_self i p f = ground arith

pub update-other : (i : ℕ) (p : Place) (f : ℕ → Place) (j : ℕ) → j ≢ i → update i p f j ≡ f j
update-other i p f j ne = ground arith

pub Fits-mono :
    (t t' : LockTable) (p : Place)
    → ((d : Device) (l : ℕ) → lookup d t.mutexes ≡ some l → lookup d t'.mutexes ≡ some l)
    → ((l : ℕ) → holds t.held l ≡ true → holds t'.held l ≡ true)
    → Fits t p
    → Fits t' p
Fits-mono t t' Place.outside keeps kept f = tt
Fits-mono t t' (Place.waiting d l) keeps kept f = keeps d l f
Fits-mono t t' (Place.inside d l) keeps kept (f, g) = (keeps d l f, kept l g)

-- What `Lock` does to a mutex that is free, and `Unlock` to one that is held.
pub lock-held :
    (l : ℕ) (t : LockTable) → holds t.held l ≡ false → lock l t ≡ record t { held = l ∷ t.held }
unfolding lock
lock-held l t h = rw h

pub unlock-held :
    (l : ℕ) (t : LockTable)
    → holds t.held l ≡ true
    → unlock l t ≡ record t { held = released t.held l }
unfolding unlock
unlock-held l t h = rw h

pub holds-cons : (l k : ℕ) (ls : List ℕ) → holds (l ∷ ls) k ≡ (if k == l then true else holds ls k)
unfolding holds
holds-cons l k ls = refl
