-- ===== src/Tests/Locking.antt =====
-- The mutexes of two devices.
use omemo_go.Manager.Locks.{LockTable, no_locks, device_lock}
use omemo_go.Manager.Locks.Unique.{IsOrderly, IsLockOf, no_locks-IsOrderly, device_lock-IsLockOf}
use omemo_go.Tests.World.{alice, bob}

abbrev one_lock : LockTable
one_lock = (device_lock bob no_locks).1

one_lock-IsOrderly : IsOrderly one_lock
one_lock-IsOrderly = (device_lock-IsLockOf bob no_locks no_locks-IsOrderly).0

device_lock-IsLockOf_example :
    let (l, t) = device_lock alice one_lock in IsOrderly t × IsLockOf alice one_lock l t
device_lock-IsLockOf_example = device_lock-IsLockOf alice one_lock one_lock-IsOrderly
