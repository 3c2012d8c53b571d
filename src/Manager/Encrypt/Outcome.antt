-- ===== src/Manager/Encrypt/Outcome.antt =====
-- How a call of `encrypt` can end: with an error before the loop, with nothing sent to anybody, or
-- with a message.
use omemo_go.Base.{String, ◌≡◌, refl, none, some, List, [], ◌∷◌}
use mathlib.Core.Path.{subst₂}
use omemo_go.Types.{Slice, Device, RecipientKey}
use omemo_go.Errors.{Context, Error, Sentinel, sentinel, wrap, DeviceError}
use omemo_go.Exec.{Result, ok, err, wrapped_result}
use omemo_go.Store.View.{View}
use omemo_go.Store.Keeps.{Anything, Anything-IsFrame}
use omemo_go.Signal.Library.{Library}
use omemo_go.Signal.Payload
use omemo_go.Signal.Payload.{EncryptedPayload}
use omemo_go.Signal.Quiet.{encrypt_payload-Quiet}
use omemo_go.Manager.State.{Manager}
use omemo_go.Manager.Devices.{recipient_devices}
use omemo_go.Manager.Devices.Frame.{recipient_devices-Within}
use omemo_go.Manager.Encrypt.{
  Tally, Sent, envelope, finish, failed, encrypt_each, encrypt_to, after_payload, after_devices,
  encrypt,
}
use omemo_go.Manager.Encrypt.Fanout.{FannedOut, encrypt_each-FannedOut}
use omemo_go.Manager.Sound.{IsSound}

-- The results for the keys and the errors that the loop has yielded.
abbrev pub Reports :
    Device → Slice → EncryptedPayload → List RecipientKey → List DeviceError → Sent → Type 0
Reports own plaintext p [] errors s =
    (s.message ≡ none)
    × (s.device_errors ≡ errors)
    × (s.error ≡ some (sentinel Sentinel.no_recipients))
Reports own plaintext p (key ∷ keys) errors s =
    (s.message ≡ some (envelope own plaintext p (key ∷ keys)))
    × (s.device_errors ≡ errors)
    × (s.error ≡ none)

pub data Outcome {W DR LS LX : Type 0} (lib : Library W DR LS LX) (m : Manager W) (view : W → View)
    (jid : String) (plaintext : Slice) (w : W) (s : Sent) (w' : W) : Type 0 where
  no_devices :
      (e : Error)
      → recipient_devices m jid w ≡ (err e, w')
      → s ≡ failed e
      → Outcome lib m view jid plaintext w s w'
  no_payload :
      (devs : List Device) (w1 : W) (e : Error)
      → recipient_devices m jid w ≡ (ok devs, w1)
      → Payload.encrypt_payload lib m.protocol plaintext w1 ≡ (err e, w')
      → s ≡ failed (wrap Context.encrypt_payload e)
      → Outcome lib m view jid plaintext w s w'
  ran :
      (devs : List Device) (w1 w2 : W) (p : EncryptedPayload) (keys : List RecipientKey)
      (errors : List DeviceError)
      → recipient_devices m jid w ≡ (ok devs, w1)
      → Payload.encrypt_payload lib m.protocol plaintext w1 ≡ (ok p, w2)
      → FannedOut lib m view p.key_material w' w2 devs keys errors
      → Reports m.local_device plaintext p keys errors s
      → Outcome lib m view jid plaintext w s w'

finish-Reports :
    (own : Device) (plaintext : Slice) (p : EncryptedPayload) (keys : List RecipientKey)
    (errors : List DeviceError)
    → Reports own plaintext p keys errors (finish (envelope own plaintext p) keys errors)
unfolding finish
finish-Reports own plaintext p [] errors = (refl, refl, refl)
finish-Reports own plaintext p (key ∷ keys) errors = (refl, refl, refl)

module _ {W DR LS LX : Type 0} (lib : Library W DR LS LX) (m : Manager W) (view : W → View)
    (IsValid : W → Type 0) (sound : IsSound lib m view IsValid) (jid : String)
    (plaintext : Slice) where
  abbrev Ends : W → Sent × W → Type 0
  Ends w (s, w') = Outcome lib m view jid plaintext w s w'

  after_payload-Outcome :
      (devs : List Device) {w w1 : W} (r : Result EncryptedPayload) (w2 : W)
      → recipient_devices m jid w ≡ (ok devs, w1)
      → IsValid w2
      → Payload.encrypt_payload lib m.protocol plaintext w1 ≡ (r, w2)
      → Ends w (after_payload lib m devs plaintext (wrapped_result Context.encrypt_payload r) w2)
  unfolding after_payload encrypt_to
  after_payload-Outcome devs {w} {w1} (err e) w2 d v q = no_payload devs w1 e d q refl
  after_payload-Outcome devs (ok p) w2 d v q =
      let start : Tally = record { keys = []; errors = [] } in
      let (keys, errors, run, ks, es) =
        encrypt_each-FannedOut lib m view IsValid sound p.key_material devs start w2 v in
      let (t, w') = encrypt_each lib m p.key_material devs start w2 in
      ran devs _ w2 p keys errors d q run (
        subst₂
          (λ k e.
            Reports m.local_device plaintext p k e
              (finish (envelope m.local_device plaintext p) t.keys t.errors))
          ks es (finish-Reports m.local_device plaintext p t.keys t.errors))

  after_devices-Outcome :
      {w : W} (r : Result (List Device)) (w1 : W)
      → IsValid w1
      → recipient_devices m jid w ≡ (r, w1)
      → Ends w (after_devices lib m plaintext r w1)
  unfolding after_devices
  after_devices-Outcome (err e) w1 v d = no_devices e d refl
  after_devices-Outcome (ok devs) w1 v d =
      let (r, w2) = Payload.encrypt_payload lib m.protocol plaintext w1 in
      let (v2, same) =
        (encrypt_payload-Quiet lib view IsValid sound.library m.protocol plaintext).at w1 v in
      after_payload-Outcome devs r w2 d v2 refl

  -- For a sound manager and a valid world, every call of `encrypt` ends in one of three ways:
  -- `recipientDevices` failed, and the call returns its error and nothing else, in the world that
  -- it left; or the recipients were found, the encryption of the payload failed, and the call
  -- returns that error, wrapped, and nothing else, in the world that this left; or the recipients
  -- were found, the payload was encrypted, the loop ran over the recipients as `FannedOut` says,
  -- and the call returns what `Reports` says of the keys and errors of that run: without any key
  -- `ErrNoRecipients` and no message, otherwise a message with these keys and no error, and the
  -- device errors in both cases.
  pub encrypt-Outcome :
      (w : W)
      → IsValid w
      → let (s, w') = encrypt lib m jid plaintext w in Outcome lib m view jid plaintext w s w'
  unfolding encrypt
  encrypt-Outcome w v =
      let (r, w1) = recipient_devices m jid w in
      let (v1, any) =
        (recipient_devices-Within lib m view IsValid sound Anything Anything-IsFrame (λ j ids x. tt)
            jid).at
          w v in
      after_devices-Outcome r w1 v1 refl
