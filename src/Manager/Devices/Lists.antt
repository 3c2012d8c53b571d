-- ===== src/Manager/Devices/Lists.antt =====
-- Which devices a message goes to, against the device lists in the store.
use omemo_go.Base.{
  ℕ, String, ◌≡◌, refl, sym, ◌∙◌, ap, subst, ◌≢◌, inl, inr, arith, false, Bool-cases, List, [], ◌∷◌,
  ◌++◌, map, ◌==◌, string_eq,
}
use omemo_go.Types.{Device}
use omemo_go.Errors.{Context, Error}
use omemo_go.Exec.{Result, ok, err}
use omemo_go.Exec.Steps.{>>=-eq-ok, ok-eq-ok, wrapping-bind-eq-ok}
use omemo_go.Store.View.{View, store_devices}
use omemo_go.Store.Keeps.{IsFrame, Anything, Anything-IsFrame}
use omemo_go.Store.Methods.{devices-reads}
use omemo_go.Signal.Library.{Library}
use omemo_go.Manager.State.{Manager}
use omemo_go.Manager.Devices.{
  device_of, sync_devices, known_devices, devices_for, with_own_devices, add_own_devices,
  recipient_devices,
}
use omemo_go.Manager.Devices.Frame.{sync_devices-Within, devices_for-Within}
use omemo_go.Manager.Sound.{IsSound}

-- The devices that the store has listed for an account.
abbrev pub listed : String → View → List Device
listed jid v = map (device_of jid) (v.devices_of jid)

-- The recipients of a message. For the own account: its devices. For another account: its devices
-- followed by the own ones, and without the own ones only when the lookup of these has failed.
pub data Reaches {W : Type 0} (m : Manager W) (view : W → View) (jid : String) (w w' : W)
    (devs : List Device) : Type 0 where
  own_account :
      jid ≡ m.local_device.jid → devs ≡ listed jid (view w') → Reaches m view jid w w' devs
  with_own :
      (ids own : List ℕ) (w1 : W)
      → jid ≢ m.local_device.jid
      → devices_for m jid w ≡ (ok ids, w1)
      → devices_for m m.local_device.jid w1 ≡ (ok own, w')
      → devs ≡ listed jid (view w') ++ listed m.local_device.jid (view w')
      → Reaches m view jid w w' devs
  without_own :
      (ids : List ℕ) (w1 : W) (e : Error)
      → jid ≢ m.local_device.jid
      → devices_for m jid w ≡ (ok ids, w1)
      → devices_for m m.local_device.jid w1 ≡ (err e, w')
      → devs ≡ listed jid (view w')
      → Reaches m view jid w w' devs

different : {a b : String} → (a == b) ≡ false → a ≢ b
different h = ground arith

-- Storing the list of another account.
abbrev SameList : String → View → View → Type 0
SameList jid v v' = v'.devices_of jid ≡ v.devices_of jid

SameList-IsFrame : (jid : String) → IsFrame (SameList jid)
SameList-IsFrame jid = record { same = λ v. refl; chain = λ u v w p q. q ∙ p }

store_devices-SameList :
    (jid own : String)
    → jid ≢ own
    → (ids : List ℕ) (v : View) → SameList jid v (store_devices own ids v)
store_devices-SameList jid own ne ids v = ground arith

module _ {W DR LS LX : Type 0} (lib : Library W DR LS LX) (m : Manager W) (view : W → View)
    (IsValid : W → Type 0) (sound : IsSound lib m view IsValid) where
  known_devices-eq-ok :
      (jid : String) (ids : List ℕ) {w w' : W} {x : List ℕ}
      → IsValid w
      → ids ≡ (view w).devices_of jid
      → known_devices m jid ids w ≡ (ok x, w')
      → IsValid w' × (x ≡ (view w').devices_of jid)
  unfolding known_devices
  known_devices-eq-ok jid (id ∷ ids) {w} v is h =
      let (is_x, is_end) = ok-eq-ok h in
      (subst IsValid is_end v, sym is_x ∙ (is ∙ ap (λ u. (view u).devices_of jid) is_end))
  known_devices-eq-ok jid [] {w} {w'} v is h =
      let (u, w1, e1, h1) = >>=-eq-ok (sync_devices m jid) _ h in
      let (v1, any) = rw e1 at (
        (sync_devices-Within lib m view IsValid sound Anything Anything-IsFrame jid (λ i x. tt)).at
          w v) in
      let (v', same, is_x) = devices-reads view IsValid sound.lawful jid v1 h1 in
      (v', is_x ∙ ap (λ (x : View). x.devices_of jid) (sym same))

  -- What `devicesFor` returns is what the store lists for the account at the end.
  devices_for-eq-ok :
      (jid : String) {w w' : W} {x : List ℕ}
      → IsValid w
      → devices_for m jid w ≡ (ok x, w')
      → IsValid w' × (x ≡ (view w').devices_of jid)
  unfolding devices_for
  devices_for-eq-ok jid {w} v h =
      let (ids, w1, e1, h1) =
        wrapping-bind-eq-ok (Context.load_devices jid) (m.store.devices jid) (known_devices m jid)
          h in
      let (v1, same, is_ids) = devices-reads view IsValid sound.lawful jid v e1 in
      known_devices-eq-ok jid ids v1 (is_ids ∙ ap (λ (x : View). x.devices_of jid) (sym same)) h1

  -- What adding the own devices does to the list of another account: nothing.
  kept_list :
      (jid : String) (w : W)
      → jid ≢ m.local_device.jid
      → IsValid w
      → let (r, w1) = devices_for m m.local_device.jid w in
        listed jid (view w1) ≡ listed jid (view w)
  kept_list jid w ne v =
      ap (map (device_of jid))
        ((devices_for-Within lib m view IsValid sound (SameList jid) (SameList-IsFrame jid)
            m.local_device.jid (store_devices-SameList jid m.local_device.jid ne)).at
          w v).1

  with_own_devices-Reaches :
      (jid : String) {w0 w : W} (ids : List ℕ) (r : Result (List ℕ)) (w1 : W)
      → jid ≢ m.local_device.jid
      → devices_for m jid w0 ≡ (ok ids, w)
      → IsValid w
      → map (device_of jid) ids ≡ listed jid (view w1)
      → devices_for m m.local_device.jid w ≡ (r, w1)
      → Reaches m view jid w0 w1 (with_own_devices m (map (device_of jid) ids) r)
  unfolding with_own_devices
  with_own_devices-Reaches jid {w0} {w} ids (err e) w1 ne first v is run =
      without_own ids w e ne first run is
  with_own_devices-Reaches jid {w0} {w} ids (ok own) w1 ne first v is run =
      let (v1, is_own) = devices_for-eq-ok m.local_device.jid v run in
      with_own ids own w ne first run (λ i. is i ++ map (device_of m.local_device.jid) (is_own i))

  add_own_devices-Reaches :
      (jid : String) {w0 : W} (ids : List ℕ) (w : W) {w' : W} {out : List Device}
      → jid ≢ m.local_device.jid
      → devices_for m jid w0 ≡ (ok ids, w)
      → IsValid w
      → map (device_of jid) ids ≡ listed jid (view w)
      → add_own_devices m (map (device_of jid) ids) w ≡ (ok out, w')
      → Reaches m view jid w0 w' out
  unfolding add_own_devices
  add_own_devices-Reaches jid {w0} ids w {w'} {out} ne first v is h =
      let (r, w1) = devices_for m m.local_device.jid w in
      let (is_out, is_end) = ok-eq-ok h in
      let reached =
        with_own_devices-Reaches jid ids r w1 ne first v (is ∙ sym (kept_list jid w ne v)) refl in
      subst (λ x. Reaches m view jid w0 x out) is_end
        (subst (Reaches m view jid w0 w1) is_out reached)

  -- For a sound manager and a valid world, when `recipientDevices` returns devices: for the own
  -- account they are those that the store lists for it at the end of the call; for another account
  -- the devices of the account were found, and the own devices were then looked up: when this
  -- succeeded, the result is the devices that the store lists at the end for the account, followed
  -- by those that it then lists for the own account, each in its order; when it failed, the result
  -- is those of the account alone.
  pub recipient_devices-Reaches :
      (jid : String) {w w' : W} {devs : List Device}
      → IsValid w
      → recipient_devices m jid w ≡ (ok devs, w')
      → Reaches m view jid w w' devs
  unfolding recipient_devices
  recipient_devices-Reaches jid {w} {w'} {devs} v h =
      let (ids, w1, e1, h1) = >>=-eq-ok (devices_for m jid) _ h in
      let (v1, is_ids) = devices_for-eq-ok jid v e1 in
      let named : map (device_of jid) ids ≡ listed jid (view w1) =
        ap (map (device_of jid)) is_ids in
      elim (Bool-cases (jid == m.local_device.jid)) [
        | inl same ↦
            let (is_devs, is_end) = ok-eq-ok (rw same at h1) in
            own_account (ground arith)
              (sym is_devs ∙ (named ∙ ap (λ x. listed jid (view x)) is_end))
        | inr differ ↦
            add_own_devices-Reaches jid ids w1 (different differ) e1 v1 named (rw differ at h1)
      ]
