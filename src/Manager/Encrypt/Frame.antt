-- ===== src/Manager/Encrypt/Frame.antt =====
-- What sending a message may change in the store: device lists, sessions, recorded identity keys and
-- trust decisions, in whatever order the loop makes the changes and wherever it fails.
use omemo_go.Base.{ℕ, String, ◌≢◌, Option, List, [], ◌∷◌, ◌==◌, Bool-cases, inl, inr}
use omemo_go.Types.{Slice, Device, device_eq, TrustState}
use omemo_go.Exec.{Result, ok, err}
use omemo_go.Store.View.{View, store_devices, store_session, store_trust, store_remote_key}
use omemo_go.Store.Keeps.{IsFrame, Within-quiet}
use omemo_go.Signal.Library.{Library}
use omemo_go.Signal.Payload.{EncryptedPayload}
use omemo_go.Signal.Quiet.{encrypt_payload-Quiet}
use omemo_go.Manager.State.{Manager}
use omemo_go.Manager.Trust.Frame.{trust_at}
use omemo_go.Manager.Devices.Frame.{recipient_devices-Within}
use omemo_go.Manager.Devices.{recipient_devices}
use omemo_go.Manager.Outgoing.{encrypt_for_device}
use omemo_go.Manager.Outgoing.Frame.{encrypt_for_device-Within}
use omemo_go.Manager.Encrypt.{
  Tally, encrypt_round, encrypt_each, encrypt_to, after_payload, after_devices, encrypt,
}
use omemo_go.Manager.Sound.{IsSound}

-- The steps that sending takes, allowed by `R` for every device and key.
pub record AllowsSending (R : View → View → Type 0) : Type 0 where
  pub frame : IsFrame R
  pub devices_step : (jid : String) (ids : List ℕ) (v : View) → R v (store_devices jid ids v)
  pub remote_step : (dev : Device) (key : Slice) (v : View) → R v (store_remote_key dev key v)
  pub session_step : (dev : Device) (o : Option Slice) (v : View) → R v (store_session dev o v)
  pub trust_step :
      (v : View) (key : Slice)
      → trust_at key v ≢ TrustState.untrusted
      → R v (store_trust key TrustState.trusted v)

module _ {W DR LS LX : Type 0} (lib : Library W DR LS LX) (m : Manager W) (view : W → View)
    (IsValid : W → Type 0) (sound : IsSound lib m view IsValid) (R : View → View → Type 0)
    (allows : AllowsSending R) where
  abbrev StaysIn : {A : Type 0} → W → A × W → Type 0
  StaysIn w (_, w') = IsValid w' × R (view w) (view w')

  sent-StaysIn :
      (key_material : Slice) (dev : Device) (w : W)
      → IsValid w
      → StaysIn w (encrypt_for_device lib m dev key_material w)
  sent-StaysIn key_material dev w v =
      (encrypt_for_device-Within lib m view IsValid sound R allows.frame dev
          (allows.remote_step dev) (allows.session_step dev) allows.trust_step key_material).at
        w v

  encrypt_round-StaysIn :
      (key_material : Slice) (dev : Device) (t : Tally) (w : W)
      → IsValid w
      → StaysIn w (encrypt_round lib m key_material dev t w)
  unfolding encrypt_round
  encrypt_round-StaysIn key_material dev t w v = elim (Bool-cases (dev == m.local_device)) [
    | inl own ↦ rw own (v, allows.frame.same (view w))
    | inr peer ↦ rw peer (sent-StaysIn key_material dev w v)
  ]

  encrypt_each-StaysIn :
      (key_material : Slice) (devs : List Device) (t : Tally) (w : W)
      → IsValid w
      → StaysIn w (encrypt_each lib m key_material devs t w)
  unfolding encrypt_each
  encrypt_each-StaysIn key_material [] t w v = (v, allows.frame.same (view w))
  encrypt_each-StaysIn key_material (dev ∷ devs) t w v =
      let (v1, step) = encrypt_round-StaysIn key_material dev t w v in
      let (t', w') = encrypt_round lib m key_material dev t w in
      let (v2, rest) = encrypt_each-StaysIn key_material devs t' w' v1 in
      (v2, allows.frame.chain _ _ _ step rest)

  after_payload-StaysIn :
      (devs : List Device) (plaintext : Slice) (r : Result EncryptedPayload) (w : W)
      → IsValid w
      → StaysIn w (after_payload lib m devs plaintext r w)
  unfolding after_payload encrypt_to
  after_payload-StaysIn devs plaintext (err e) w v = (v, allows.frame.same (view w))
  after_payload-StaysIn devs plaintext (ok p) w v = encrypt_each-StaysIn p.key_material devs _ w v

  after_devices-StaysIn :
      (plaintext : Slice) (r : Result (List Device)) (w : W)
      → IsValid w
      → StaysIn w (after_devices lib m plaintext r w)
  unfolding after_devices
  after_devices-StaysIn plaintext (err e) w v = (v, allows.frame.same (view w))
  after_devices-StaysIn plaintext (ok devs) w v =
      let (v1, step) =
        (Within-quiet view IsValid allows.frame
            (encrypt_payload-Quiet lib view IsValid sound.library m.protocol plaintext)).at
          w v in
      let (v2, rest) = after_payload-StaysIn devs plaintext _ _ v1 in
      (v2, allows.frame.chain _ _ _ step rest)

  pub encrypt-StaysIn :
      (jid : String) (plaintext : Slice) (w : W)
      → IsValid w
      → IsValid (encrypt lib m jid plaintext w).1
        × R (view w) (view (encrypt lib m jid plaintext w).1)
  unfolding encrypt
  encrypt-StaysIn jid plaintext w v =
      let (v1, step) =
        (recipient_devices-Within lib m view IsValid sound R allows.frame allows.devices_step
            jid).at
          w v in
      let (v2, rest) =
        after_devices-StaysIn plaintext (recipient_devices m jid w).0 (recipient_devices m jid w).1
          v1 in
      (v2, allows.frame.chain _ _ _ step rest)
