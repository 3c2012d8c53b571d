-- ===== src/Manager/Concurrent.antt =====
-- Several goroutines on one Manager: the doc comment of `Manager` promises that it "is safe for
-- concurrent use" and that session state "is guarded per remote device". A goroutine that encrypts,
-- decrypts or resets for a device calls `deviceLock`, waits in `Lock` until the mutex is free, reads
-- and writes what the store has for that device, and calls `Unlock` on every way out. The goroutines
-- interleave at these points; `LockTable.held` has the mutexes that any of them holds.
pub mod Invariant
pub mod Preserved
pub mod Exclusion
pub mod Guarded
pub mod Refines
use omemo_go.Base.{ℕ, ◌≡◌, false, Option, none, nat_eq, List, [], ◌∷◌}
use omemo_go.Types.{Slice, Device, device_eq}
use omemo_go.Store.View.{update}
use omemo_go.Manager.Locks.{LockTable, no_locks, device_lock, holds, lock, unlock}

-- Where a goroutine is: outside of the guarded sections, with the mutex of a device and waiting for
-- it, or in the section of the device.
pub data Place : Type 0 where
  outside : Place
  waiting inside : Device → ℕ → Place

pub record System : Type 0 where
  pub table : LockTable
  pub places : ℕ → Place
  pub session_of : Device → Option Slice
  pub remote_key_of : Device → Option Slice

abbrev pub move : ℕ → Place → System → System
move i p s = record s { places = update i p s.places }

-- What one goroutine may do next.
pub data Step (s : System) : System → Type 0 where
  ask :
      (i : ℕ) (dev : Device)
      → s.places i ≡ Place.outside
      → Step s (
          move i
            (Place.waiting dev (device_lock dev s.table).0)
            (record s { table = (device_lock dev s.table).1 }))
  enter :
      (i : ℕ) {dev : Device} {l : ℕ}
      → s.places i ≡ Place.waiting dev l
      → holds s.table.held l ≡ false
      → Step s (move i (Place.inside dev l) (record s { table = lock l s.table }))
  write_session :
      (i : ℕ) {dev : Device} {l : ℕ} (blob : Option Slice)
      → s.places i ≡ Place.inside dev l
      → Step s (record s { session_of = update dev blob s.session_of })
  write_key :
      (i : ℕ) {dev : Device} {l : ℕ} (key : Option Slice)
      → s.places i ≡ Place.inside dev l
      → Step s (record s { remote_key_of = update dev key s.remote_key_of })
  leave :
      (i : ℕ) {dev : Device} {l : ℕ}
      → s.places i ≡ Place.inside dev l
      → Step s (move i Place.outside (record s { table = unlock l s.table }))

-- What a step does, without the states.
pub data Action : Type 0 where
  asks : Device → Action
  enters : Action
  writes_session writes_key : Option Slice → Action
  leaves : Action

-- The goroutine that moves, and what it does.
abbrev pub label : {s t : System} → Step s t → ℕ × Action
label (ask i dev e) = (i, asks dev)
label (enter i e f) = (i, enters)
label (write_session i blob e) = (i, writes_session blob)
label (write_key i key e) = (i, writes_key key)
label (leave i e) = (i, leaves)

-- Steps of the goroutine `i` alone, with what they do.
pub data Runs (i : ℕ) : List Action → System → System → Type 0 where
  idle : {s : System} → Runs i [] s s
  moves :
      {a : Action} {acts : List Action} {s t u : System} (st : Step s t)
      → label st ≡ (i, a)
      → Runs i acts t u
      → Runs i (a ∷ acts) s u

pub data Steps (s : System) : System → Type 0 where
  here : Steps s s
  later : {t u : System} → Steps s t → Step t u → Steps s u

-- A new manager: no mutex yet, and no goroutine in a section.
abbrev pub start : (Device → Option Slice) → (Device → Option Slice) → System
start sessions keys = record {
  table = no_locks;
  places = λ i. Place.outside;
  session_of = sessions;
  remote_key_of = keys;
}
