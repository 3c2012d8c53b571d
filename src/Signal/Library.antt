-- ===== src/Signal/Library.antt =====
-- What internal/signal/signal.go calls: the module github.com/jim-ww/xochimilco (its packages x3dh,
-- doubleratchet and legacysignal) and the key generation of crypto/ecdh, crypto/ed25519 and
-- crypto/rand. None of it is under the repository, so it is a parameter: its ratchet types and
-- its functions. A function that draws random bytes, or advances a ratchet, changes the world `W`.
use omemo_go.Base.{ℕ}
use omemo_go.Types.{Slice}
use omemo_go.Exec.{Result, Exec}

-- The fields of a parsed PreKeyWhisperMessage that the package reads.
pub record PreKeyMessage : Type 0 where
  pub signed_prekey_id : ℕ
  pub prekey_id : ℕ
  pub identity_key : Slice
  pub base_key : Slice
  pub message : Slice

pub record SignedKeyPair : Type 0 where
  pub public : Slice
  pub private : Slice
  pub signature : Slice

pub record KeyPair : Type 0 where
  pub public : Slice
  pub private : Slice

-- What x3dh.CreateInitialMessage returns.
pub record InitialMessage : Type 0 where
  pub session_key : Slice
  pub associated_data : Slice
  pub ephemeral_key : Slice

-- What x3dh.ReceiveInitialMessage returns.
pub record ReceivedMessage : Type 0 where
  pub session_key : Slice
  pub associated_data : Slice

-- `DR` is doubleratchet.DoubleRatchet, `LS` is legacysignal.Session, and `LX` is the X3DH state that
-- legacysignal hands from its X3DH to its sessions.
pub record Library (W DR LS LX : Type 0) : Type 0 where
  -- crypto/ecdh and crypto/ed25519
  pub x25519_generate_key : Exec W Slice
  pub x25519_public_key : Slice → Result Slice
  pub ed25519_generate_key : Exec W Slice
  -- x3dh
  pub create_new_spk : Slice → Exec W SignedKeyPair
  pub create_new_opk : Exec W KeyPair
  pub create_initial_message : Slice → Slice → Slice → Slice → Slice → Exec W InitialMessage
  pub receive_initial_message : Slice → Slice → Slice → Slice → Slice → Result ReceivedMessage
  -- doubleratchet
  pub create_active : Slice → Slice → Slice → Exec W DR
  pub create_passive : Slice → Slice → Slice → Slice → Exec W DR
  pub dr_marshal : DR → Result Slice
  pub dr_unmarshal : Slice → Result DR
  pub dr_encrypt : DR → Slice → Exec W (Slice × DR)
  pub dr_decrypt : DR → Slice → Exec W (Slice × DR)
  -- legacysignal
  pub legacy_create_new_spk : Slice → Exec W SignedKeyPair
  pub legacy_create_initial_message : Slice → Slice → Slice → Slice → Slice → Exec W (LX × Slice)
  pub legacy_receive_initial_message : Slice → Slice → Slice → Slice → Slice → Slice → Result LX
  pub legacy_new_active_session : Slice → Slice → LX → Exec W LS
  pub legacy_new_passive_session : Slice → Slice → LX → Exec W LS
  pub parse_prekey_message : Slice → Result PreKeyMessage
  pub ls_marshal : LS → Result Slice
  pub ls_unmarshal : Slice → Result LS
  pub encrypt_prekey_whisper_message : LS → Slice → Slice → ℕ → ℕ → ℕ → Exec W (Slice × LS)
  pub encrypt_whisper_message : LS → Slice → Exec W (Slice × LS)
  pub decrypt_whisper_message : LS → Slice → Exec W (Slice × LS)
  -- xochimilco: key material and ciphertext; version 1 has an explicit iv between the two
  pub encrypt_payload : Slice → Exec W (Slice × Slice)
  pub encrypt_payload_v1 : Slice → Exec W (Slice × Slice × Slice)
  pub decrypt_payload : Slice → Slice → Result Slice
  pub decrypt_payload_v1 : Slice → Slice → Slice → Result Slice
