-- ===== src/Manager/State.antt =====
-- The struct `Manager`, its options, and the bracket `lock.Lock(); defer lock.Unlock()`.
use omemo_go.Base.{Option}
use omemo_go.Types.{Slice, Protocol, Device}
use omemo_go.Exec.{Exec, Lens}
use omemo_go.Store.{Store, Transport, TrustResolver}
use omemo_go.Manager.Locks.{LockTable, device_lock, lock, unlock}

-- A nil `trustResolver` is `none`.
pub record Manager (W : Type 0) : Type 0 where
  pub store : Store W
  pub transport : Transport W
  pub protocol : Protocol
  pub identity_key : Slice
  pub local_device : Device
  pub trust_resolver : Option (TrustResolver W)
  pub locks : Lens W LockTable

-- Option
abbrev pub ManagerOption : Type 0 → Type 0
ManagerOption W = Manager W → Manager W

-- WithTrustResolver; `none` is nil.
unfoldable pub with_trust_resolver : {W : Type 0} → Option (TrustResolver W) → ManagerOption W
with_trust_resolver r m = record m { trust_resolver = r }

-- The lock of `dev` is held while `body` runs, and is released however it ends.
unfoldable pub with_device_lock : {W A : Type 0} → Manager W → Device → Exec W A → Exec W A
with_device_lock m dev body w =
    let (l, t) = device_lock dev (m.locks.get w) in
    let (r, w') = body (m.locks.put (lock l t) w) in (r, m.locks.put (unlock l (m.locks.get w')) w')

-- Manager.LocalDevice
unfoldable pub local_device : {W : Type 0} → Manager W → Device
local_device m = m.local_device
