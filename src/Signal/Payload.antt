-- ===== src/Signal/Payload.antt =====
-- The message body (internal/signal/signal.go).
use omemo_go.Base.{none}
use omemo_go.Types.{Slice, Protocol, v1}
use omemo_go.Exec.{Result, Exec, pure, ◌>>=◌}
use omemo_go.Signal.Library.{Library}

pub record EncryptedPayload : Type 0 where
  pub key_material : Slice
  pub iv : Slice
  pub ciphertext : Slice

module _ {W DR LS LX : Type 0} (lib : Library W DR LS LX) where
  unfoldable pub encrypt_payload : Protocol → Slice → Exec W EncryptedPayload
  encrypt_payload v1 plaintext = do
    (key_material, iv, ciphertext) ← lib.encrypt_payload_v1 plaintext
    pure (record { key_material = key_material; iv = iv; ciphertext = ciphertext })
  encrypt_payload _ plaintext = do
    (key_material, ciphertext) ← lib.encrypt_payload plaintext
    pure (record { key_material = key_material; iv = none; ciphertext = ciphertext })

  unfoldable pub decrypt_payload : Protocol → Slice → Slice → Slice → Result Slice
  decrypt_payload v1 key_material iv ciphertext = lib.decrypt_payload_v1 key_material iv ciphertext
  decrypt_payload _ key_material iv ciphertext = lib.decrypt_payload key_material ciphertext
