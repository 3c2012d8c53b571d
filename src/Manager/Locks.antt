-- ===== src/Manager/Locks.antt =====
-- The per-device mutexes (`deviceLock` of manager.go, and `Lock`/`Unlock` of sync.Mutex). A mutex is
-- the number under which it was created. `stuck` records what would stop the program: locking a
-- mutex that this run holds already, or unlocking one that it does not hold.
pub mod Unique
pub mod Apart
pub mod Balanced
use omemo_go.Base.{
  ℕ, ◌+◌, Bool, true, false, Option, none, some, List, [], ◌∷◌, if◌then◌else◌, ◌==◌, nat_eq,
}
use omemo_go.Base.GoMap.{GoMap, lookup, insert}
use omemo_go.Types.{Device, device_eq}

pub record LockTable : Type 0 where
  pub mutexes : GoMap Device ℕ
  pub created : ℕ
  pub held : List ℕ
  pub stuck : Bool

abbrev pub no_locks : LockTable
no_locks = record { mutexes = []; created = 0; held = []; stuck = false }

unfoldable pub found_lock : Device → Option ℕ → LockTable → ℕ × LockTable
found_lock dev (some l) t = (l, t)
found_lock dev none t =
    (t.created, record t { mutexes = insert dev t.created t.mutexes; created = t.created + 1 })

-- deviceLock
unfoldable pub device_lock : Device → LockTable → ℕ × LockTable
unfolding found_lock
device_lock dev t = found_lock dev (lookup dev t.mutexes) t

unfoldable pub holds : List ℕ → ℕ → Bool
holds [] l = false
holds (x ∷ xs) l = if l == x then true else holds xs l

unfoldable pub released : List ℕ → ℕ → List ℕ
released [] l = []
released (x ∷ xs) l = if l == x then xs else x ∷ released xs l

-- Mutex.Lock
unfoldable pub lock : ℕ → LockTable → LockTable
unfolding holds
lock l t = if holds t.held l then record t { stuck = true } else record t { held = l ∷ t.held }

-- Mutex.Unlock
unfoldable pub unlock : ℕ → LockTable → LockTable
unfolding holds released
unlock l t =
    if holds t.held l then record t { held = released t.held l } else record t { stuck = true }
