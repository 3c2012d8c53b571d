-- ===== src/Manager/Outgoing.antt =====
-- Sessions for sending (manager.go): getOrCreateActiveSession, putSession, encryptForDevice and
-- ResetSession.
pub mod Frame
pub mod Safety
pub mod Exchange
pub mod First
pub mod Next
use omemo_go.Base.{ℕ, Option, none, some, List, [], ◌∷◌}
use omemo_go.Types.{Slice, Device, Bundle, PreKey, KeyExchange, RecipientKey}
use omemo_go.Errors.{Context, no_prekeys_available, no_known_identity_key}
use omemo_go.Exec.{⊤, Exec, pure, raise, lift, wrapping, wrapped_result, ◌>>=◌, ◌>>◌}
use omemo_go.Signal.Library.{Library}
use omemo_go.Signal.Keys
use omemo_go.Signal.Session as Signal
use omemo_go.Signal.Session.{Session, PeerBundle}
use omemo_go.Manager.State.{Manager, with_device_lock}
use omemo_go.Manager.Trust.{check_trust}

-- The peer's material in the bundle, with the one-time prekey chosen.
unfoldable pub peer_of : Bundle → PreKey → PeerBundle
peer_of b prekey = record {
  identity_key = b.identity_key;
  spk_public = b.signed_prekey.public;
  spk_signature = b.signed_prekey.signature;
  opk_public = prekey.public;
  signed_prekey_id = b.signed_prekey.id;
  prekey_id = prekey.id;
}

-- The bundle's first one-time prekey.
unfoldable pub first_prekey : {W : Type 0} → List PreKey → Exec W PreKey
first_prekey [] = raise no_prekeys_available
first_prekey (prekey ∷ rest) = pure prekey

unfoldable pub known_key : {W : Type 0} → Option Slice → Exec W Slice
known_key none = raise no_known_identity_key
known_key (some key) = pure key

module _ {W DR LS LX : Type 0} (lib : Library W DR LS LX) (m : Manager W) where
  -- The part of `getOrCreateActiveSession` that is reached without a stored session.
  unfoldable pub create_active_session : Device → Exec W (Session DR LS × Option KeyExchange)
  unfolding first_prekey peer_of
  create_active_session dev = do
    b ← wrapping Context.fetch_bundle (m.transport.fetch_bundle dev)
    prekey ← first_prekey b.prekeys
    (sess, ek) ← wrapping Context.x3dh (
        Signal.new_active_session lib m.protocol m.identity_key (peer_of b prekey)
          m.local_device.id)
    wrapping Context.store_identity_key (m.store.put_remote_identity_key dev b.identity_key)
    own ← lift (
        wrapped_result Context.derive_identity_public_key
          (Keys.identity_public_key lib m.protocol m.identity_key))
    pure (
      sess,
      some (record {
        identity_key = own;
        ephemeral_key = ek;
        signed_prekey_id = b.signed_prekey.id;
        prekey_id = prekey.id;
      }),
    )

  unfoldable pub stored_or_new : Device → Option Slice → Exec W (Session DR LS × Option KeyExchange)
  unfolding create_active_session
  stored_or_new dev none = create_active_session dev
  stored_or_new dev (some blob) = do
    sess ← lift (Signal.load_session lib m.protocol blob)
    pure (sess, none)

  -- getOrCreateActiveSession
  unfoldable pub get_or_create_active_session : Device → Exec W (Session DR LS × Option KeyExchange)
  unfolding stored_or_new
  get_or_create_active_session dev = do
    stored ← wrapping Context.load_session (m.store.session dev)
    stored_or_new dev stored

  -- putSession
  unfoldable pub put_session : Device → Session DR LS → Exec W ⊤
  put_session dev sess = do
    blob ← lift (wrapped_result Context.marshal_session (Signal.marshal lib sess))
    wrapping Context.store_session (m.store.put_session dev blob)

  -- The body of `encryptForDevice`, under the device's lock.
  unfoldable pub encrypt_locked : Device → Slice → Exec W RecipientKey
  unfolding known_key
  encrypt_locked dev key_material = do
    (sess, kx) ← wrapping Context.establish_session (get_or_create_active_session dev)
    found ← wrapping Context.load_identity_key (m.store.remote_identity_key dev)
    id_key ← known_key found
    check_trust m dev id_key
    (wrapped, sess') ← wrapping Context.ratchet_encrypt (Signal.encrypt lib sess key_material)
    put_session dev sess'
    pure (record { device = dev.id; wrapped = wrapped; key_exchange = kx })

  -- encryptForDevice
  unfoldable pub encrypt_for_device : Device → Slice → Exec W RecipientKey
  encrypt_for_device dev key_material = with_device_lock m dev (encrypt_locked dev key_material)

-- Manager.ResetSession
unfoldable pub reset_session : {W : Type 0} → Manager W → Device → Exec W ⊤
reset_session m dev =
    with_device_lock m dev (wrapping (Context.reset_session dev) (m.store.delete_session dev))
