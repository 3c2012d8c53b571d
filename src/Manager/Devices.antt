-- ===== src/Manager/Devices.antt =====
-- Device lists (manager.go): which devices a message goes to.
pub mod Frame
pub mod Lists
use omemo_go.Base.{ℕ, String, Bool, List, [], ◌∷◌, ◌++◌, map, if◌then◌else◌, ◌==◌, string_eq}
use omemo_go.Types.{Device, DeviceList}
use omemo_go.Errors.{Context}
use omemo_go.Exec.{⊤, Result, ok, err, Exec, pure, wrapping, ◌>>=◌, ◌>>◌}
use omemo_go.Manager.State.{Manager}

unfoldable pub device_of : String → ℕ → Device
device_of jid id = record { jid = jid; id = id }

module _ {W : Type 0} (m : Manager W) where
  -- Manager.SyncDevices
  unfoldable pub sync_devices : String → Exec W ⊤
  sync_devices jid = do
    list ← wrapping (Context.fetch_device_list jid) (m.transport.fetch_device_list jid)
    m.store.set_devices jid list.devices

  -- What `devicesFor` does with the devices that it has loaded.
  unfoldable pub known_devices : String → List ℕ → Exec W (List ℕ)
  known_devices jid (id ∷ ids) = pure (id ∷ ids)
  known_devices jid [] = do sync_devices jid; m.store.devices jid

  -- devicesFor
  unfoldable pub devices_for : String → Exec W (List ℕ)
  unfolding known_devices sync_devices
  devices_for jid = do
    ids ← wrapping (Context.load_devices jid) (m.store.devices jid)
    known_devices jid ids

  -- A failure to learn the own devices is ignored.
  unfoldable pub with_own_devices : List Device → Result (List ℕ) → List Device
  with_own_devices devs (err e) = devs
  with_own_devices devs (ok own) = devs ++ map (device_of m.local_device.jid) own

  unfoldable pub add_own_devices : List Device → Exec W (List Device)
  unfolding with_own_devices
  add_own_devices devs w =
      let (r, w') = devices_for m.local_device.jid w in (ok (with_own_devices devs r), w')

  -- recipientDevices
  unfoldable pub recipient_devices : String → Exec W (List Device)
  unfolding add_own_devices
  recipient_devices jid = do
    ids ← devices_for jid
    let devs = map (device_of jid) ids
    if jid == m.local_device.jid then pure devs else add_own_devices devs
