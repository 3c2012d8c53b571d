-- ===== src/Manager/Devices/Frame.antt =====
-- What finding the recipients may change in the store: device lists, if they have to be fetched.
use omemo_go.Base.{ℕ, String, List, [], ◌∷◌, map, ◌==◌, string_eq}
use omemo_go.Types.{Device}
use omemo_go.Errors.{Context}
use omemo_go.Exec.{Exec, wrapping, ◌>>=◌}
use omemo_go.Store.View.{View, store_devices}
use omemo_go.Store.Keeps.{
  IsFrame, Within, Quiet, Within-pure, Within-bind, Within-wrapping, Within-quiet, Within-if,
}
use omemo_go.Store.Methods.{devices-Quiet, set_devices-Within}
use omemo_go.Signal.Library.{Library}
use omemo_go.Manager.State.{Manager}
use omemo_go.Manager.Devices.{
  device_of, sync_devices, known_devices, devices_for, add_own_devices, recipient_devices,
}
use omemo_go.Manager.Sound.{IsSound}

module _ {W DR LS LX : Type 0} (lib : Library W DR LS LX) (m : Manager W) (view : W → View)
    (IsValid : W → Type 0) (sound : IsSound lib m view IsValid) (R : View → View → Type 0)
    (frame : IsFrame R) where
  -- The step that storing a device list of the account is.
  abbrev pub Step : String → Type 0
  Step jid = (ids : List ℕ) (v : View) → R v (store_devices jid ids v)

  abbrev quiet : {A : Type 0} {c : Exec W A} → Quiet view IsValid c → Within view IsValid R c
  quiet = Within-quiet view IsValid frame

  abbrev bind :
      {A B : Type 0} {c : Exec W A} {f : A → Exec W B}
      → Within view IsValid R c
      → ((a : A) → Within view IsValid R (f a))
      → Within view IsValid R (c >>= f)
  bind {c} {f} = Within-bind view IsValid frame c f

  abbrev wrapped :
      {A : Type 0} {c : Exec W A} (x : Context)
      → Within view IsValid R c
      → Within view IsValid R (wrapping x c)
  wrapped {c} x = Within-wrapping view IsValid R x c

  pub sync_devices-Within : (jid : String) → Step jid → Within view IsValid R (sync_devices m jid)
  unfolding sync_devices
  sync_devices-Within jid step =
      bind (wrapped (Context.fetch_device_list jid) (quiet (sound.fetch_device_list jid))) λ list.
        set_devices-Within view IsValid sound.lawful frame jid list.devices (step list.devices)

  known_devices-Within :
      (jid : String) (ids : List ℕ) → Step jid → Within view IsValid R (known_devices m jid ids)
  unfolding known_devices
  known_devices-Within jid (id ∷ ids) step = Within-pure view IsValid frame (id ∷ ids)
  known_devices-Within jid [] step =
      bind (sync_devices-Within jid step) λ _. quiet (devices-Quiet view IsValid sound.lawful jid)

  pub devices_for-Within : (jid : String) → Step jid → Within view IsValid R (devices_for m jid)
  unfolding devices_for
  devices_for-Within jid step =
      bind
        (wrapped (Context.load_devices jid) (quiet (devices-Quiet view IsValid sound.lawful jid)))
        λ ids. known_devices-Within jid ids step

  pub add_own_devices-Within :
      (devs : List Device)
      → Step m.local_device.jid
      → Within view IsValid R (add_own_devices m devs)
  unfolding add_own_devices
  add_own_devices-Within devs step = record { at = (devices_for-Within m.local_device.jid step).at }

  pub recipient_devices-Within :
      ((jid : String) → Step jid) → (jid : String) → Within view IsValid R (recipient_devices m jid)
  unfolding recipient_devices
  recipient_devices-Within step jid = bind (devices_for-Within jid (step jid)) λ ids.
      Within-if view IsValid R (jid == m.local_device.jid) _ _ (Within-pure view IsValid frame _)
        (add_own_devices-Within (map (device_of jid) ids) (step m.local_device.jid))
