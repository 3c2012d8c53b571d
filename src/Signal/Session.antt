-- ===== src/Signal/Session.antt =====
-- Sessions (internal/signal/signal.go). The fields of the struct are private to the package, which
-- builds it in two ways only: with `dr` under ProtocolV2, and with `ls` under ProtocolV1.
use omemo_go.Base.{ℕ, Option, none, some}
use omemo_go.Types.{Slice, Protocol, v1}
use omemo_go.Errors
use omemo_go.Errors.{Context}
use omemo_go.Exec.{Result, ok, err, wrapped_result, Exec, pure, lift, wrapping, ◌>>=◌}
use omemo_go.Signal.Library.{Library, PreKeyMessage}

-- What the first message of a ProtocolV1 session has to carry.
pub record LegacyPendingPreKey : Type 0 where
  pub ephemeral_key : Slice
  pub prekey_id : ℕ
  pub signed_prekey_id : ℕ
  pub registration_id : ℕ

pub data Session (DR LS : Type 0) : Type 0 where
  v2_session : DR → Session DR LS
  v1_session : LS → Option LegacyPendingPreKey → Session DR LS

-- A peer's published key material, as `NewActiveSession` takes it.
pub record PeerBundle : Type 0 where
  pub identity_key : Slice
  pub spk_public : Slice
  pub spk_signature : Slice
  pub opk_public : Slice
  pub signed_prekey_id : ℕ
  pub prekey_id : ℕ

-- What `NewPassiveSessionFromPreKeyBlob` returns.
pub record PassiveSession (DR LS : Type 0) : Type 0 where
  pub session : Session DR LS
  pub peer_identity_key : Slice
  pub inner : Slice

abbrev pub peeked : Result PreKeyMessage → Result (ℕ × ℕ)
peeked (ok pm) = ok (pm.signed_prekey_id, pm.prekey_id)
peeked (err e) = err e

module _ {W DR LS LX : Type 0} (lib : Library W DR LS LX) where
  -- The session and the ephemeral public key.
  unfoldable pub new_active_session :
      Protocol → Slice → PeerBundle → ℕ → Exec W (Session DR LS × Slice)
  new_active_session v1 id_key peer registration_id = do
    (x3dh_session, ek) ← wrapping Context.x3dh_initial_message (
        lib.legacy_create_initial_message id_key peer.identity_key peer.spk_public
          peer.spk_signature peer.opk_public)
    ls ←
        wrapping Context.create_active_session
          (lib.legacy_new_active_session id_key peer.identity_key x3dh_session)
    pure (
      v1_session ls (
          some (record {
            ephemeral_key = ek;
            prekey_id = peer.prekey_id;
            signed_prekey_id = peer.signed_prekey_id;
            registration_id = registration_id;
          })),
      ek,
    )
  new_active_session _ id_key peer registration_id = do
    initial ← wrapping Context.x3dh_initial_message (
        lib.create_initial_message id_key peer.identity_key peer.spk_public peer.spk_signature
          peer.opk_public)
    dr ←
        wrapping Context.create_active_ratchet
          (lib.create_active initial.session_key initial.associated_data peer.spk_public)
    pure (v2_session dr, initial.ephemeral_key)

  unfoldable pub new_passive_session :
      Slice → Slice → Slice → Slice → Slice → Slice → Exec W (Session DR LS)
  new_passive_session id_key peer_key spk_public spk_private opk_private ek = do
    received ← lift (
        wrapped_result Context.x3dh_receive_initial_message
          (lib.receive_initial_message id_key peer_key spk_private opk_private ek))
    dr ←
        wrapping Context.create_passive_ratchet
          (lib.create_passive received.session_key received.associated_data spk_public spk_private)
    pure (v2_session dr)

  -- The ids of the signed prekey and of the one-time prekey.
  unfoldable pub peek_legacy_prekey_ids : Slice → Result (ℕ × ℕ)
  peek_legacy_prekey_ids blob = peeked (lib.parse_prekey_message blob)

  unfoldable pub new_passive_session_from_prekey_blob :
      Slice → Slice → Slice → Slice → Slice → Exec W (PassiveSession DR LS)
  new_passive_session_from_prekey_blob id_key spk_public spk_private opk_private blob = do
    pm ← lift (wrapped_result Context.parse_legacy_prekey_message (lib.parse_prekey_message blob))
    x3dh_session ← lift (
        wrapped_result Context.x3dh_receive_initial_message (
          lib.legacy_receive_initial_message id_key pm.identity_key spk_public spk_private
            opk_private pm.base_key))
    ls ←
        wrapping Context.create_passive_session
          (lib.legacy_new_passive_session id_key pm.identity_key x3dh_session)
    pure (record {
      session = v1_session ls none;
      peer_identity_key = pm.identity_key;
      inner = pm.message;
    })

  abbrev pub restored_v1 : Result LS → Result (Session DR LS)
  restored_v1 (ok ls) = ok (v1_session ls none)
  restored_v1 (err e) = err (Errors.wrap Context.restore_legacy_session_state e)

  abbrev pub restored_v2 : Result DR → Result (Session DR LS)
  restored_v2 (ok dr) = ok (v2_session dr)
  restored_v2 (err e) = err (Errors.wrap Context.restore_ratchet_state e)

  unfoldable pub load_session : Protocol → Slice → Result (Session DR LS)
  load_session v1 blob = restored_v1 (lib.ls_unmarshal blob)
  load_session _ blob = restored_v2 (lib.dr_unmarshal blob)

  -- Session.Marshal
  unfoldable pub marshal : Session DR LS → Result Slice
  marshal (v1_session ls pending) = lib.ls_marshal ls
  marshal (v2_session dr) = lib.dr_marshal dr

  -- Session.Encrypt: the wrapped key, and the session after it.
  unfoldable pub encrypt : Session DR LS → Slice → Exec W (Slice × Session DR LS)
  encrypt (v1_session ls (some p)) key_material = do
    (out, ls') ←
        lib.encrypt_prekey_whisper_message ls key_material p.ephemeral_key p.prekey_id
          p.signed_prekey_id p.registration_id
    pure (out, v1_session ls' none)
  encrypt (v1_session ls none) key_material = do
    (out, ls') ← lib.encrypt_whisper_message ls key_material
    pure (out, v1_session ls' none)
  encrypt (v2_session dr) key_material = do
    (out, dr') ← lib.dr_encrypt dr key_material
    pure (out, v2_session dr')

  -- Session.Decrypt: the key material, and the session after it.
  unfoldable pub decrypt : Session DR LS → Slice → Exec W (Slice × Session DR LS)
  decrypt (v1_session ls pending) wrapped = do
    (out, ls') ← lib.decrypt_whisper_message ls wrapped
    pure (out, v1_session ls' pending)
  decrypt (v2_session dr) wrapped = do
    (out, dr') ← lib.dr_decrypt dr wrapped
    pure (out, v2_session dr')
