-- ===== src/Manager/Outgoing/Frame.antt =====
-- What preparing and storing a session for sending may change in the store, for every relation that
-- allows the steps: the device's session, its recorded identity key, and a trust decision.
use omemo_go.Base.{◌≢◌, Option, none, some, List, [], ◌∷◌}
use omemo_go.Types.{Slice, Device, PreKey, TrustState}
use omemo_go.Errors.{Context}
use omemo_go.Exec.{Exec, wrapping, ◌>>=◌}
use omemo_go.Store.View.{View, store_session, store_trust, store_remote_key}
use omemo_go.Store.Keeps.{
  IsFrame, Within, Quiet, Within-pure, Within-raise, Within-lift, Within-bind, Within-wrapping,
  Within-quiet,
}
use omemo_go.Store.Methods.{
  session-Quiet, remote_identity_key-Quiet, put_session-Within, put_remote_identity_key-Within,
  delete_session-Within,
}
use omemo_go.Signal.Library.{Library}
use omemo_go.Signal.Session.{Session}
use omemo_go.Signal.Quiet.{new_active_session-Quiet, encrypt-Quiet}
use omemo_go.Manager.State.{Manager}
use omemo_go.Manager.Trust.Frame.{trust_at, check_trust-Within}
use omemo_go.Manager.Outgoing.{
  first_prekey, peer_of, known_key, create_active_session, stored_or_new,
  get_or_create_active_session, put_session, encrypt_locked, encrypt_for_device, reset_session,
}
use omemo_go.Manager.Sound.{IsSound, with_device_lock-Within}

module _ {W DR LS LX : Type 0} (lib : Library W DR LS LX) (m : Manager W) (view : W → View)
    (IsValid : W → Type 0) (sound : IsSound lib m view IsValid) (R : View → View → Type 0)
    (frame : IsFrame R) where
  abbrev quiet : {A : Type 0} {c : Exec W A} → Quiet view IsValid c → Within view IsValid R c
  quiet = Within-quiet view IsValid frame

  abbrev bind :
      {A B : Type 0} {c : Exec W A} {f : A → Exec W B}
      → Within view IsValid R c
      → ((a : A) → Within view IsValid R (f a))
      → Within view IsValid R (c >>= f)
  bind {c} {f} = Within-bind view IsValid frame c f

  abbrev wrapped :
      {A : Type 0} {c : Exec W A} (x : Context)
      → Within view IsValid R c
      → Within view IsValid R (wrapping x c)
  wrapped {c} x = Within-wrapping view IsValid R x c

  first_prekey-Within : (l : List PreKey) → Within view IsValid R (first_prekey l)
  unfolding first_prekey
  first_prekey-Within [] = Within-raise view IsValid frame _
  first_prekey-Within (p ∷ l) = Within-pure view IsValid frame p

  known_key-Within : (o : Option Slice) → Within view IsValid R (known_key o)
  unfolding known_key
  known_key-Within none = Within-raise view IsValid frame _
  known_key-Within (some key) = Within-pure view IsValid frame key

  module _ (dev : Device)
      (remote_step : (key : Slice) (v : View) → R v (store_remote_key dev key v)) where
    create_active_session-Within : Within view IsValid R (create_active_session lib m dev)
    unfolding create_active_session
    create_active_session-Within =
        bind (wrapped Context.fetch_bundle (quiet (sound.fetch_bundle dev))) λ b.
          bind (first_prekey-Within b.prekeys) λ prekey.
            bind
              (wrapped Context.x3dh (
                quiet (
                  new_active_session-Quiet lib view IsValid sound.library m.protocol m.identity_key
                    (peer_of b prekey) m.local_device.id)))
              λ (sess, ek).
                bind
                  (wrapped Context.store_identity_key (
                    put_remote_identity_key-Within view IsValid sound.lawful frame dev
                      b.identity_key (remote_step b.identity_key)))
                  λ _.
                    bind (Within-lift view IsValid frame _) λ own. Within-pure view IsValid frame _

    stored_or_new-Within : (o : Option Slice) → Within view IsValid R (stored_or_new lib m dev o)
    unfolding stored_or_new
    stored_or_new-Within none = create_active_session-Within
    stored_or_new-Within (some blob) =
        bind (Within-lift view IsValid frame _) λ sess. Within-pure view IsValid frame _

    pub get_or_create_active_session-Within :
        Within view IsValid R (get_or_create_active_session lib m dev)
    unfolding get_or_create_active_session
    get_or_create_active_session-Within =
        bind (wrapped Context.load_session (quiet (session-Quiet view IsValid sound.lawful dev)))
          λ stored. stored_or_new-Within stored

  module _ (dev : Device)
      (session_step : (o : Option Slice) (v : View) → R v (store_session dev o v)) where
    pub put_session-StaysIn :
        (sess : Session DR LS) → Within view IsValid R (put_session lib m dev sess)
    unfolding put_session
    put_session-StaysIn sess = bind (Within-lift view IsValid frame _) λ blob.
        wrapped Context.store_session
          (put_session-Within view IsValid sound.lawful frame dev blob (session_step (some blob)))

    pub reset_session-Within : Within view IsValid R (reset_session m dev)
    unfolding reset_session
    reset_session-Within = with_device_lock-Within lib m view IsValid sound R dev _ (
        wrapped (Context.reset_session dev)
          (delete_session-Within view IsValid sound.lawful frame dev (session_step none)))

  module _ (dev : Device)
      (remote_step : (key : Slice) (v : View) → R v (store_remote_key dev key v))
      (session_step : (o : Option Slice) (v : View) → R v (store_session dev o v))
      (trusting : (v : View) (key : Slice)
        → trust_at key v ≢ TrustState.untrusted
        → R v (store_trust key TrustState.trusted v)) where
    pub encrypt_locked-Within :
        (key_material : Slice) → Within view IsValid R (encrypt_locked lib m dev key_material)
    unfolding encrypt_locked
    encrypt_locked-Within key_material =
        bind
          (wrapped Context.establish_session (get_or_create_active_session-Within dev remote_step))
          λ (sess, kx).
            bind
              (wrapped Context.load_identity_key
                (quiet (remote_identity_key-Quiet view IsValid sound.lawful dev)))
              λ found. bind (known_key-Within found) λ key.
                bind
                  (check_trust-Within lib m view IsValid sound R frame key (λ v. trusting v key)
                    dev)
                  λ _.
                    bind
                      (wrapped Context.ratchet_encrypt
                        (quiet (encrypt-Quiet lib view IsValid sound.library sess key_material)))
                      λ (wrapped_key, sess').
                        bind (put_session-StaysIn dev session_step sess')
                          λ _. Within-pure view IsValid frame _

    pub encrypt_for_device-Within :
        (key_material : Slice) → Within view IsValid R (encrypt_for_device lib m dev key_material)
    unfolding encrypt_for_device
    encrypt_for_device-Within key_material =
        with_device_lock-Within lib m view IsValid sound R dev _
          (encrypt_locked-Within key_material)
