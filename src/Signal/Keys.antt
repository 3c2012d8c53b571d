-- ===== src/Signal/Keys.antt =====
-- Identity keys and prekeys (internal/signal/signal.go).
use omemo_go.Base.{ℕ, some, length, drop, if◌then◌else◌, ◌==◌, nat_eq}
use omemo_go.Types.{Slice, content, Protocol, v1}
use omemo_go.Errors.{Context, ed25519_key_size}
use omemo_go.Exec.{Result, ok, err, wrapped_result, Exec}
use omemo_go.Signal.Library.{Library, SignedKeyPair, KeyPair}

-- ed25519.PrivateKeySize
abbrev pub private_key_size : ℕ
private_key_size = 64

-- `PrivateKey.Public` of crypto/ed25519: a copy of the bytes from 32 on.
abbrev pub ed25519_public : Slice → Slice
ed25519_public priv = some (drop 32 (content priv))

module _ {W DR LS LX : Type 0} (lib : Library W DR LS LX) where
  unfoldable pub generate_identity_key : Protocol → Exec W Slice
  generate_identity_key v1 = lib.x25519_generate_key
  generate_identity_key _ = lib.ed25519_generate_key

  unfoldable pub identity_public_key : Protocol → Slice → Result Slice
  identity_public_key v1 priv =
      wrapped_result Context.parse_curve25519_private_key (lib.x25519_public_key priv)
  identity_public_key _ priv =
      if length (content priv) == private_key_size
      then ok (ed25519_public priv)
      else err ed25519_key_size

  unfoldable pub generate_signed_prekey : Protocol → Slice → Exec W SignedKeyPair
  generate_signed_prekey v1 id_key = lib.legacy_create_new_spk id_key
  generate_signed_prekey _ id_key = lib.create_new_spk id_key

  unfoldable pub generate_one_time_prekey : Exec W KeyPair
  generate_one_time_prekey = lib.create_new_opk
