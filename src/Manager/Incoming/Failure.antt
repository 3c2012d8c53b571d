-- ===== src/Manager/Incoming/Failure.antt =====
-- Two ways in which reading a message fails, and what each leaves in the store.
use omemo_go.Base.{◌≡◌, refl, sym, ◌∙◌, ap, subst, ◌⊎◌, inl, inr, arith, true, Option, none, some}
use omemo_go.Types.{Slice, v2, Device, device_eq, KeyExchange, RecipientKey, EncryptedMessage}
use omemo_go.Errors.{Context, Error, wrap, Sentinel, sentinel_eq, is}
use omemo_go.Exec.{Result, ok, err, wrapping, ◌>>=◌}
use omemo_go.Exec.Steps.{
  >>=-eq-ok, ok-eq-ok, wrapping-bind-eq-ok, wrapping-bind-ok, wrapping-bind-err,
}
use omemo_go.Store.View.{View, reads, consume_found}
use omemo_go.Store.Contract.{Ends}
use omemo_go.Store.Keeps.{IsFrame}
use omemo_go.Store.Methods.{put_remote_identity_key-writes}
use omemo_go.Signal.Library.{Library}
use omemo_go.Signal.Session as Signal
use omemo_go.Signal.Session.{Session}
use omemo_go.Signal.Quiet.{new_passive_session-Quiet, decrypt-Quiet}
use omemo_go.Manager.State.{Manager, with_device_lock}
use omemo_go.Manager.Locks.{device_lock, lock, unlock}
use omemo_go.Manager.Incoming.{
  find_key, signed_prekey_by_id, session_from_exchange, session_for_exchange, session_for_key,
  session_from_store, get_or_create_session_for_incoming, decrypt_locked, decrypt_with,
  decrypt_message,
}
use omemo_go.Manager.Incoming.Frame.{signed_prekey_by_id-Within}
use omemo_go.Store.Methods.{consume_prekey-Within}
use omemo_go.Manager.Sound.{IsSound}

-- The sessions are as before.
abbrev SameSessions : View → View → Type 0
SameSessions v v' = v'.session_of ≡ v.session_of

SameSessions-IsFrame : IsFrame SameSessions
SameSessions-IsFrame = record { same = λ v. refl; chain = λ u v w p q. q ∙ p }

consume_found-SameSessions :
    (id : _) (o : Option _) (v : View) → SameSessions v (consume_found id o v).1
consume_found-SameSessions id none v = refl
consume_found-SameSessions id (some r) v = refl

module _ {W DR LS LX : Type 0} (lib : Library W DR LS LX) (m : Manager W) (view : W → View)
    (IsValid : W → Type 0) (sound : IsSound lib m view IsValid) where
  session_from_exchange-records :
      (sender : Device) (wrapped : Slice) (kx : KeyExchange) {w w' : W} {x : Session DR LS × Slice}
      → IsValid w
      → session_from_exchange lib m sender wrapped kx w ≡ (ok x, w')
      → IsValid w'
        × ((view w').remote_key_of sender ≡ some kx.identity_key)
        × SameSessions (view w) (view w')
  unfolding session_from_exchange
  session_from_exchange-records sender wrapped kx {w} v h =
      let (spk, w1, e1, h1) = >>=-eq-ok (signed_prekey_by_id m kx.signed_prekey_id) _ h in
      let (valid1, same1) = rw e1 at (
        (signed_prekey_by_id-Within lib m view IsValid sound SameSessions SameSessions-IsFrame
            kx.signed_prekey_id).at
          w v) in
      let (prekey, w2, e2, h2) =
        wrapping-bind-eq-ok (Context.consume_one_time_prekey kx.prekey_id)
          (m.store.consume_prekey kx.prekey_id) _ h1 in
      let (valid2, same2) = rw e2 at (
        (consume_prekey-Within view IsValid sound.lawful SameSessions-IsFrame kx.prekey_id
            (λ u. consume_found-SameSessions kx.prekey_id (u.pool kx.prekey_id) u)).at
          w1 valid1) in
      let passive =
        Signal.new_passive_session lib m.identity_key kx.identity_key spk.public spk.private
          prekey.private kx.ephemeral_key in
      let (sess, w3, e3, h3) = wrapping-bind-eq-ok Context.x3dh passive _ h2 in
      let (valid3, same3) = rw e3 at (
        (new_passive_session-Quiet lib view IsValid sound.library m.identity_key kx.identity_key
            spk.public spk.private prekey.private kx.ephemeral_key).at
          w2 valid2) in
      let (u, w4, e4, h4) =
        wrapping-bind-eq-ok Context.store_identity_key
          (m.store.put_remote_identity_key sender kx.identity_key) _ h3 in
      let (valid4, step) =
        put_remote_identity_key-writes view IsValid sound.lawful sender kx.identity_key valid3 e4 in
      let (is_x, is_end) = ok-eq-ok h4 in
      subst
        (λ z.
          IsValid z
          × ((view z).remote_key_of sender ≡ some kx.identity_key)
          × SameSessions (view w) (view z))
        is_end
        (
          valid4,
          ap (λ (y : View). y.remote_key_of sender) step ∙ ground arith,
          ap (λ (y : View). y.session_of) step
              ∙ (ap (λ (y : View). y.session_of) same3 ∙ (same2 ∙ same1)),
        )

  -- For a sound manager of ProtocolV2 and a valid world: when the key exchange of a message is
  -- accepted and the ratchet then refuses the message, the reading fails and the sessions are as
  -- before, and the sender's recorded identity key is the one of the message.
  pub decrypt_locked-failed_ratchet :
      (msg : EncryptedMessage) (key : RecipientKey) (kx : KeyExchange) {w w1 w2 : W}
      {sess : Session DR LS} {inner : Slice} {e : Error}
      → m.protocol ≡ v2
      → key.key_exchange ≡ some kx
      → IsValid w
      → get_or_create_session_for_incoming lib m msg.sender key w ≡ (ok (sess, inner), w1)
      → Signal.decrypt lib sess inner w1 ≡ (err e, w2)
      → (decrypt_locked lib m msg key w ≡ (err (wrap Context.ratchet_decrypt e), w2))
        × ((view w2).remote_key_of msg.sender ≡ some kx.identity_key)
        × ((view w2).session_of ≡ (view w).session_of)
  unfolding decrypt_locked get_or_create_session_for_incoming session_for_key
  decrypt_locked-failed_ratchet msg key kx {w} {w1} {w2} {sess} {inner} is_v2 has_kx v got failed =
      let got' = ap (λ o. session_for_key lib m msg.sender key.wrapped o w) (sym has_kx) ∙ got in
      let got'' =
        ap (λ p. session_for_exchange lib m p msg.sender key.wrapped kx w) (sym is_v2) ∙ got' in
      let (valid1, recorded, kept) =
        session_from_exchange-records msg.sender key.wrapped kx v got'' in
      let (valid2, same) =
        rw failed at ((decrypt-Quiet lib view IsValid sound.library sess inner).at w1 valid1) in
      (
        wrapping-bind-ok Context.establish_session
              (get_or_create_session_for_incoming lib m msg.sender key) _ got
            ∙ wrapping-bind-err Context.ratchet_decrypt (Signal.decrypt lib sess inner) _ failed,
        ap (λ (y : View). y.remote_key_of msg.sender) same ∙ recorded,
        ap (λ (y : View). y.session_of) same ∙ kept,
      )

  -- The error of reading a message without a session: the sentinel, unless the store failed.
  abbrev IsUnknownSession : Device → Error → Type 0
  IsUnknownSession dev e =
      (is e Sentinel.unknown_session ≡ true)
      ⊎ ((cause : Error) × (w : W) × ((m.store.session dev w).0 ≡ err cause)
          × (e ≡ wrap Context.establish_session (wrap Context.load_session cause)))

  abbrev Unread : EncryptedMessage → RecipientKey → W → W → Type 0
  Unread msg key w w1 =
      (e : Error) × (decrypt_locked lib m msg key w ≡ (err e, w1))
      × IsUnknownSession msg.sender e
      × IsValid w1
      × (view w1 ≡ view w)

  not_loaded :
      (msg : EncryptedMessage) (key : RecipientKey) (w : W) {w1 : W} {e : Error}
      → get_or_create_session_for_incoming lib m msg.sender key w ≡ (err e, w1)
      → decrypt_locked lib m msg key w ≡ (err (wrap Context.establish_session e), w1)
  unfolding decrypt_locked
  not_loaded msg key w got =
      wrapping-bind-err Context.establish_session
        (get_or_create_session_for_incoming lib m msg.sender key) _ got

  without_exchange :
      (msg : EncryptedMessage) (key : RecipientKey) (w : W)
      → key.key_exchange ≡ none
      → get_or_create_session_for_incoming lib m msg.sender key w
        ≡ (wrapping Context.load_session (m.store.session msg.sender) >>= λ stored.
              session_from_store lib m stored key.wrapped)
            w
  unfolding get_or_create_session_for_incoming session_for_key
  without_exchange msg key w no_kx =
      ap (λ o. session_for_key lib m msg.sender key.wrapped o w) no_kx

  no_session :
      (msg : EncryptedMessage) (key : RecipientKey) {w : W} (r : Result (Option Slice)) (w1 : W)
      → key.key_exchange ≡ none
      → (view w).session_of msg.sender ≡ none
      → m.store.session msg.sender w ≡ (r, w1)
      → Ends view IsValid (reads λ v. v.session_of msg.sender) w (r, w1)
      → Unread msg key w w1
  unfolding is session_from_store
  no_session msg key {w} (err cause) w1 no_kx missing read (v1, same) = (
    _,
    not_loaded msg key w (
        without_exchange msg key w no_kx
        ∙ wrapping-bind-err Context.load_session (m.store.session msg.sender) _ read),
    inr (cause, w, ap (λ (p : Result (Option Slice) × W). p.0) read, refl),
    v1,
    same,
  )
  no_session msg key {w} (ok o) w1 no_kx missing read (v1, found) =
      let (is_o, same) = ok-eq-ok found in
      (
        _,
        not_loaded msg key w (
            without_exchange msg key w no_kx
            ∙ wrapping-bind-ok Context.load_session (m.store.session msg.sender) _ read
            ∙ ap (λ x. session_from_store lib m x key.wrapped w1) (sym is_o ∙ missing)),
        inl refl,
        v1,
        sym same,
      )

  -- For a sound manager and a valid world without a session for the sender: a message whose first
  -- key for this device has no key exchange is not read; the error is `ErrUnknownSession` for
  -- `errors.Is`, or it wraps an error that the store reports when it loads the sender's session;
  -- the world stays valid and the content of the store as it was.
  pub decrypt_message-IsUnknownSession :
      (msg : EncryptedMessage) (key : RecipientKey) (w : W)
      → find_key m.local_device.id msg.keys ≡ some key
      → key.key_exchange ≡ none
      → IsValid w
      → (view w).session_of msg.sender ≡ none
      → let (r, w') = decrypt_message lib m msg w in
        (e : Error) × (r ≡ err e) × IsUnknownSession msg.sender e × IsValid w' × (view w' ≡ view w)
  unfolding decrypt_message decrypt_with with_device_lock
  decrypt_message-IsUnknownSession msg key w found no_kx v missing =
      let (l, t) = device_lock msg.sender (m.locks.get w) in
      let w1 = m.locks.put (lock l t) w in
      let (valid1, same1) = sound.locks (lock l t) w v in
      let (r, w2) = m.store.session msg.sender w1 in
      let (e, ran, unknown, valid2, same2) =
        no_session msg key r w2 no_kx (ap (λ (y : View). y.session_of msg.sender) same1 ∙ missing)
          refl (sound.lawful.session msg.sender w1 valid1) in
      let w3 = (decrypt_locked lib m msg key w1).1 in
      let is_end = ap (λ (p : Result Slice × W). p.1) ran in
      let (valid3, same3) =
        sound.locks (unlock l (m.locks.get w3)) w3 (subst IsValid (sym is_end) valid2) in
      rw found (
        e,
        ap (λ (p : Result Slice × W). p.0) ran,
        unknown,
        valid3,
        same3 ∙ (ap view is_end ∙ (same2 ∙ same1)),
      )
