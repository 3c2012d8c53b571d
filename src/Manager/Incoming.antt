-- ===== src/Manager/Incoming.antt =====
-- DecryptMessage (manager.go), and the session that an incoming message is read with.
pub mod Frame
pub mod Used
pub mod Replay
pub mod Safety
pub mod Failure
pub mod Lookup
pub mod Shadowed
pub mod Opened
pub mod Delivered
use omemo_go.Base.{ℕ, Bool, Option, none, some, List, [], ◌∷◌, if◌then◌else◌, ◌==◌, nat_eq}
use omemo_go.Types.{
  Slice, Protocol, v1, Device, SignedPreKeyRecord, PreKeyRecord, KeyExchange, RecipientKey,
  EncryptedMessage,
}
use omemo_go.Errors.{Context, Sentinel, sentinel, unknown_signed_prekey}
use omemo_go.Exec.{Exec, pure, raise, lift, wrapping, wrapped_result, ◌>>=◌, ◌>>◌}
use omemo_go.Signal.Library.{Library}
use omemo_go.Signal.Payload
use omemo_go.Signal.Session as Signal
use omemo_go.Signal.Session.{Session, PassiveSession}
use omemo_go.Manager.State.{Manager, with_device_lock}
use omemo_go.Manager.Outgoing.{put_session}

-- The first key of the message that is for the device.
unfoldable pub find_key : ℕ → List RecipientKey → Option RecipientKey
find_key id [] = none
find_key id (key ∷ keys) = if key.device == id then some key else find_key id keys

module _ {W : Type 0} (m : Manager W) where
  unfoldable pub stale_by_id : ℕ → Option SignedPreKeyRecord → Exec W SignedPreKeyRecord
  stale_by_id id none = raise (unknown_signed_prekey id)
  stale_by_id id (some stale) =
      if stale.id == id then pure stale else raise (unknown_signed_prekey id)

  -- signedPreKeyByID
  unfoldable pub signed_prekey_by_id : ℕ → Exec W SignedPreKeyRecord
  unfolding stale_by_id
  signed_prekey_by_id id = do
    cur ← wrapping Context.load_signed_prekey m.store.current_signed_prekey
    if cur.id == id then pure cur else do
      stale ← wrapping Context.load_stale_signed_prekey m.store.stale_signed_prekey
      stale_by_id id stale

module _ {W DR LS LX : Type 0} (lib : Library W DR LS LX) (m : Manager W) where
  -- The part for a message that carries no key exchange.
  unfoldable pub session_from_store : Option Slice → Slice → Exec W (Session DR LS × Slice)
  session_from_store none wrapped = raise (sentinel Sentinel.unknown_session)
  session_from_store (some blob) wrapped = do
    sess ← lift (Signal.load_session lib m.protocol blob)
    pure (sess, wrapped)

  -- The part for ProtocolV1: the parameters are inside the message.
  unfoldable pub session_from_blob : Device → Slice → Exec W (Session DR LS × Slice)
  session_from_blob sender wrapped = do
    (spk_id, prekey_id) ← lift (
        wrapped_result Context.parse_legacy_prekey_message
          (Signal.peek_legacy_prekey_ids lib wrapped))
    spk ← signed_prekey_by_id m spk_id
    prekey ← wrapping (Context.consume_one_time_prekey prekey_id) (m.store.consume_prekey prekey_id)
    passive ← wrapping Context.x3dh (
        Signal.new_passive_session_from_prekey_blob lib m.identity_key spk.public spk.private
          prekey.private wrapped)
    wrapping Context.store_identity_key
        (m.store.put_remote_identity_key sender passive.peer_identity_key)
    pure (passive.session, passive.inner)

  -- The part for a key exchange that stands beside the message.
  unfoldable pub session_from_exchange :
      Device → Slice → KeyExchange → Exec W (Session DR LS × Slice)
  session_from_exchange sender wrapped kx = do
    spk ← signed_prekey_by_id m kx.signed_prekey_id
    prekey ←
        wrapping (Context.consume_one_time_prekey kx.prekey_id)
          (m.store.consume_prekey kx.prekey_id)
    sess ← wrapping Context.x3dh (
        Signal.new_passive_session lib m.identity_key kx.identity_key spk.public spk.private
          prekey.private kx.ephemeral_key)
    wrapping Context.store_identity_key (m.store.put_remote_identity_key sender kx.identity_key)
    pure (sess, wrapped)

  unfoldable pub session_for_exchange :
      Protocol → Device → Slice → KeyExchange → Exec W (Session DR LS × Slice)
  unfolding session_from_blob session_from_exchange
  session_for_exchange v1 sender wrapped kx = session_from_blob sender wrapped
  session_for_exchange _ sender wrapped kx = session_from_exchange sender wrapped kx

  unfoldable pub session_for_key :
      Device → Slice → Option KeyExchange → Exec W (Session DR LS × Slice)
  unfolding session_from_store session_for_exchange
  session_for_key sender wrapped none = do
    stored ← wrapping Context.load_session (m.store.session sender)
    session_from_store stored wrapped
  session_for_key sender wrapped (some kx) = session_for_exchange m.protocol sender wrapped kx

  -- getOrCreateSessionForIncoming: the session and the bytes to decrypt.
  unfoldable pub get_or_create_session_for_incoming :
      Device → RecipientKey → Exec W (Session DR LS × Slice)
  unfolding session_for_key
  get_or_create_session_for_incoming sender key =
      session_for_key sender key.wrapped key.key_exchange

  -- A key-transport message has no payload, and a nil plaintext.
  unfoldable pub open_payload : Slice → Slice → Slice → Exec W Slice
  open_payload key_material iv none = pure none
  open_payload key_material iv (some ciphertext) = lift (
      wrapped_result Context.decrypt_payload
        (Payload.decrypt_payload lib m.protocol key_material iv (some ciphertext)))

  -- The body of `DecryptMessage`, under the sender's lock.
  unfoldable pub decrypt_locked : EncryptedMessage → RecipientKey → Exec W Slice
  unfolding open_payload
  decrypt_locked msg key = do
    (sess, wrapped) ←
        wrapping Context.establish_session (get_or_create_session_for_incoming msg.sender key)
    (key_material, sess') ← wrapping Context.ratchet_decrypt (Signal.decrypt lib sess wrapped)
    put_session lib m msg.sender sess'
    open_payload key_material msg.iv msg.payload

  unfoldable pub decrypt_with : EncryptedMessage → Option RecipientKey → Exec W Slice
  decrypt_with msg none = raise (sentinel Sentinel.own_device_key_missing)
  decrypt_with msg (some key) = with_device_lock m msg.sender (decrypt_locked msg key)

  -- Manager.DecryptMessage
  unfoldable pub decrypt_message : EncryptedMessage → Exec W Slice
  unfolding find_key decrypt_with
  decrypt_message msg = decrypt_with msg (find_key m.local_device.id msg.keys)
