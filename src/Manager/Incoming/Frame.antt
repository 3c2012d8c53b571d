-- ===== src/Manager/Incoming/Frame.antt =====
-- What reading an incoming message may change in the store, for every relation that allows the
-- steps: a one-time prekey is consumed, the sender's identity key and session are recorded.
use omemo_go.Base.{ℕ, ◌==◌, nat_eq, ◌≡◌, Option, none, some}
use omemo_go.Types.{
  Slice, Device, Protocol, v1, KeyExchange, RecipientKey, EncryptedMessage, SignedPreKeyRecord,
}
use omemo_go.Errors.{Context}
use omemo_go.Exec.{Exec, wrapping, ◌>>=◌}
use omemo_go.Store.View.{View, store_session, store_remote_key, consume}
use omemo_go.Store.Keeps.{
  IsFrame, Within, Quiet, Within-pure, Within-raise, Within-lift, Within-bind, Within-wrapping,
  Within-quiet, Within-if,
}
use omemo_go.Store.Methods.{
  current_signed_prekey-Quiet, stale_signed_prekey-Quiet, session-Quiet, consume_prekey-Within,
  put_remote_identity_key-Within,
}
use omemo_go.Signal.Library.{Library}
use omemo_go.Signal.Quiet.{
  new_passive_session-Quiet, new_passive_session_from_prekey_blob-Quiet, decrypt-Quiet,
}
use omemo_go.Manager.State.{Manager}
use omemo_go.Manager.Outgoing.Frame.{put_session-StaysIn}
use omemo_go.Manager.Incoming.{
  stale_by_id, signed_prekey_by_id, session_from_store, session_from_blob, session_from_exchange,
  session_for_exchange, session_for_key, open_payload, decrypt_locked, decrypt_with, find_key,
  get_or_create_session_for_incoming, decrypt_message,
}
use omemo_go.Manager.Sound.{IsSound, with_device_lock-Within}

module _ {W DR LS LX : Type 0} (lib : Library W DR LS LX) (m : Manager W) (view : W → View)
    (IsValid : W → Type 0) (sound : IsSound lib m view IsValid) (R : View → View → Type 0)
    (frame : IsFrame R) where
  abbrev quiet : {A : Type 0} {c : Exec W A} → Quiet view IsValid c → Within view IsValid R c
  quiet = Within-quiet view IsValid frame

  abbrev bind :
      {A B : Type 0} {c : Exec W A} {f : A → Exec W B}
      → Within view IsValid R c
      → ((a : A) → Within view IsValid R (f a))
      → Within view IsValid R (c >>= f)
  bind {c} {f} = Within-bind view IsValid frame c f

  abbrev wrapped :
      {A : Type 0} {c : Exec W A} (x : Context)
      → Within view IsValid R c
      → Within view IsValid R (wrapping x c)
  wrapped {c} x = Within-wrapping view IsValid R x c

  stale_by_id-Within :
      (id : ℕ) (o : Option SignedPreKeyRecord) → Within view IsValid R (stale_by_id m id o)
  unfolding stale_by_id
  stale_by_id-Within id none = Within-raise view IsValid frame _
  stale_by_id-Within id (some stale) =
      Within-if view IsValid R (stale.id == id) _ _ (Within-pure view IsValid frame _)
        (Within-raise view IsValid frame _)

  pub signed_prekey_by_id-Within : (id : ℕ) → Within view IsValid R (signed_prekey_by_id m id)
  unfolding signed_prekey_by_id
  signed_prekey_by_id-Within id =
      bind
        (wrapped Context.load_signed_prekey
          (quiet (current_signed_prekey-Quiet view IsValid sound.lawful)))
        λ cur. Within-if view IsValid R (cur.id == id) _ _ (Within-pure view IsValid frame _) (
          bind
            (wrapped Context.load_stale_signed_prekey
              (quiet (stale_signed_prekey-Quiet view IsValid sound.lawful)))
            λ stale. stale_by_id-Within id stale)

  session_from_store-Within :
      (o : Option Slice) (wrapped_key : Slice)
      → Within view IsValid R (session_from_store lib m o wrapped_key)
  unfolding session_from_store
  session_from_store-Within none wrapped_key = Within-raise view IsValid frame _
  session_from_store-Within (some blob) wrapped_key =
      bind (Within-lift view IsValid frame _) λ sess. Within-pure view IsValid frame _

  open_payload-Within :
      (key_material iv payload : Slice)
      → Within view IsValid R (open_payload lib m key_material iv payload)
  unfolding open_payload
  open_payload-Within key_material iv none = Within-pure view IsValid frame none
  open_payload-Within key_material iv (some c) = Within-lift view IsValid frame _

  module _ (consume_step : (id : ℕ) (v : View) → R v (consume id v).1) (sender : Device)
      (remote_step : (key : Slice) (v : View) → R v (store_remote_key sender key v))
      (session_step : (o : Option Slice) (v : View) → R v (store_session sender o v)) where
    session_from_blob-Within :
        (wrapped_key : Slice) → Within view IsValid R (session_from_blob lib m sender wrapped_key)
    unfolding session_from_blob
    session_from_blob-Within wrapped_key =
        bind (Within-lift view IsValid frame _) λ (spk_id, prekey_id).
          bind (signed_prekey_by_id-Within spk_id) λ spk.
            bind
              (wrapped (Context.consume_one_time_prekey prekey_id) (
                consume_prekey-Within view IsValid sound.lawful frame prekey_id
                  (consume_step prekey_id)))
              λ prekey.
                bind
                  (wrapped Context.x3dh (
                    quiet (
                      new_passive_session_from_prekey_blob-Quiet lib view IsValid sound.library
                        m.identity_key spk.public spk.private prekey.private wrapped_key)))
                  λ passive.
                    bind
                      (wrapped Context.store_identity_key (
                        put_remote_identity_key-Within view IsValid sound.lawful frame sender
                          passive.peer_identity_key (remote_step passive.peer_identity_key)))
                      λ _. Within-pure view IsValid frame _

    session_from_exchange-Within :
        (wrapped_key : Slice) (kx : KeyExchange)
        → Within view IsValid R (session_from_exchange lib m sender wrapped_key kx)
    unfolding session_from_exchange
    session_from_exchange-Within wrapped_key kx =
        bind (signed_prekey_by_id-Within kx.signed_prekey_id) λ spk.
          bind
            (wrapped (Context.consume_one_time_prekey kx.prekey_id) (
              consume_prekey-Within view IsValid sound.lawful frame kx.prekey_id
                (consume_step kx.prekey_id)))
            λ prekey.
              bind
                (wrapped Context.x3dh (
                  quiet (
                    new_passive_session-Quiet lib view IsValid sound.library m.identity_key
                      kx.identity_key spk.public spk.private prekey.private kx.ephemeral_key)))
                λ sess.
                  bind
                    (wrapped Context.store_identity_key (
                      put_remote_identity_key-Within view IsValid sound.lawful frame sender
                        kx.identity_key (remote_step kx.identity_key)))
                    λ _. Within-pure view IsValid frame _

    session_for_exchange-Within :
        (p : Protocol) (wrapped_key : Slice) (kx : KeyExchange)
        → Within view IsValid R (session_for_exchange lib m p sender wrapped_key kx)
    unfolding session_for_exchange
    session_for_exchange-Within v1 wrapped_key kx = session_from_blob-Within wrapped_key
    session_for_exchange-Within _ wrapped_key kx = session_from_exchange-Within wrapped_key kx

    session_for_key-Within :
        (wrapped_key : Slice) (o : Option KeyExchange)
        → Within view IsValid R (session_for_key lib m sender wrapped_key o)
    unfolding session_for_key
    session_for_key-Within wrapped_key none =
        bind (wrapped Context.load_session (quiet (session-Quiet view IsValid sound.lawful sender)))
          λ stored. session_from_store-Within stored wrapped_key
    session_for_key-Within wrapped_key (some kx) =
        session_for_exchange-Within m.protocol wrapped_key kx

    pub decrypt_locked-Within :
        (msg : EncryptedMessage)
        → msg.sender ≡ sender
        → (key : RecipientKey) → Within view IsValid R (decrypt_locked lib m msg key)
    unfolding decrypt_locked get_or_create_session_for_incoming
    decrypt_locked-Within msg is_sender key =
        bind
          (wrapped Context.establish_session
            (rw is_sender (session_for_key-Within key.wrapped key.key_exchange)))
          λ (sess, wrapped_key).
            bind
              (wrapped Context.ratchet_decrypt
                (quiet (decrypt-Quiet lib view IsValid sound.library sess wrapped_key)))
              λ (key_material, sess').
                bind
                  (rw is_sender (
                    put_session-StaysIn lib m view IsValid sound R frame sender session_step sess'))
                  λ _. open_payload-Within key_material msg.iv msg.payload

    decrypt_with-Within :
        (msg : EncryptedMessage)
        → msg.sender ≡ sender
        → (o : Option RecipientKey) → Within view IsValid R (decrypt_with lib m msg o)
    unfolding decrypt_with
    decrypt_with-Within msg is_sender none = Within-raise view IsValid frame _
    decrypt_with-Within msg is_sender (some key) =
        with_device_lock-Within lib m view IsValid sound R msg.sender _
          (decrypt_locked-Within msg is_sender key)

    pub decrypt_message-Within :
        (msg : EncryptedMessage)
        → msg.sender ≡ sender
        → Within view IsValid R (decrypt_message lib m msg)
    unfolding decrypt_message
    decrypt_message-Within msg is_sender =
        decrypt_with-Within msg is_sender (find_key m.local_device.id msg.keys)
