-- ===== src/Manager/Encrypt.antt =====
-- EncryptMessage and EncryptKeyTransport (manager.go): one payload, and a wrapped key for every
-- recipient device.
pub mod Frame
pub mod Fanout
pub mod Outcome
pub mod Safety
use omemo_go.Base.{String, Bool, Option, none, some, List, [], ◌∷◌, ◌++◌, if◌then◌else◌, ◌==◌}
use omemo_go.Types.{Slice, Device, device_eq, RecipientKey, EncryptedMessage}
use omemo_go.Errors.{Context, Error, Sentinel, sentinel, DeviceError}
use omemo_go.Exec.{Result, ok, err, wrapping}
use omemo_go.Signal.Library.{Library}
use omemo_go.Signal.Payload
use omemo_go.Signal.Payload.{EncryptedPayload}
use omemo_go.Manager.State.{Manager}
use omemo_go.Manager.Devices.{recipient_devices}
use omemo_go.Manager.Outgoing.{encrypt_for_device}

-- What the loop has gathered: `msg.Keys` and `deviceErrs`.
pub record Tally : Type 0 where
  pub keys : List RecipientKey
  pub errors : List DeviceError

-- The three results of `encrypt`.
pub record Sent : Type 0 where
  pub message : Option EncryptedMessage
  pub device_errors : List DeviceError
  pub error : Option Error

unfoldable pub tally_result : Device → Result RecipientKey → Tally → Tally
tally_result dev (ok key) t = record t { keys = t.keys ++ key ∷ [] }
tally_result dev (err e) t = record t {
  errors = t.errors ++ (record { device = dev; err = e }) ∷ [];
}

-- A key-transport message carries neither ciphertext nor iv.
unfoldable pub envelope : Device → Slice → EncryptedPayload → List RecipientKey → EncryptedMessage
envelope sender none p keys = record { sender = sender; keys = keys; payload = none; iv = none }
envelope sender (some text) p keys = record {
  sender = sender;
  keys = keys;
  payload = p.ciphertext;
  iv = p.iv;
}

-- The end of `encrypt`: without any key there is no message.
unfoldable pub finish :
    (List RecipientKey → EncryptedMessage) → List RecipientKey → List DeviceError → Sent
finish build [] errors = record {
  message = none;
  device_errors = errors;
  error = some (sentinel Sentinel.no_recipients);
}
finish build (key ∷ keys) errors = record {
  message = some (build (key ∷ keys));
  device_errors = errors;
  error = none;
}

unfoldable pub failed : Error → Sent
failed e = record { message = none; device_errors = []; error = some e }

module _ {W DR LS LX : Type 0} (lib : Library W DR LS LX) (m : Manager W) where
  -- One round of the loop: the local device is passed over.
  unfoldable pub encrypt_round : Slice → Device → Tally → W → Tally × W
  unfolding tally_result
  encrypt_round key_material dev t w =
      if dev == m.local_device
      then (t, w)
      else let (r, w') = encrypt_for_device lib m dev key_material w in (tally_result dev r t, w')

  unfoldable pub encrypt_each : Slice → List Device → Tally → W → Tally × W
  unfolding encrypt_round
  encrypt_each key_material [] t w = (t, w)
  encrypt_each key_material (dev ∷ devs) t w =
      let (t', w') = encrypt_round key_material dev t w in encrypt_each key_material devs t' w'

  -- The part after `recipientDevices` and `EncryptPayload`.
  unfoldable pub encrypt_to : List Device → Slice → EncryptedPayload → W → Sent × W
  unfolding encrypt_each finish
  encrypt_to devs plaintext p w =
      let (t, w') = encrypt_each p.key_material devs (record { keys = []; errors = [] }) w in
      (finish (envelope m.local_device plaintext p) t.keys t.errors, w')

  unfoldable pub after_payload : List Device → Slice → Result EncryptedPayload → W → Sent × W
  unfolding failed
  after_payload devs plaintext (err e) w = (failed e, w)
  after_payload devs plaintext (ok p) w = encrypt_to devs plaintext p w

  unfoldable pub after_devices : Slice → Result (List Device) → W → Sent × W
  unfolding failed after_payload
  after_devices plaintext (err e) w = (failed e, w)
  after_devices plaintext (ok devs) w =
      let (r, w') =
        wrapping Context.encrypt_payload (Payload.encrypt_payload lib m.protocol plaintext) w in
      after_payload devs plaintext r w'

  -- Manager.encrypt
  unfoldable pub encrypt : String → Slice → W → Sent × W
  unfolding after_devices
  encrypt jid plaintext w = let (r, w') = recipient_devices m jid w in after_devices plaintext r w'

  -- Manager.EncryptMessage
  unfoldable pub encrypt_message : String → Slice → W → Sent × W
  unfolding encrypt
  encrypt_message jid plaintext = encrypt jid plaintext

  -- Manager.EncryptKeyTransport
  unfoldable pub encrypt_key_transport : String → W → Sent × W
  unfolding encrypt
  encrypt_key_transport jid = encrypt jid none
