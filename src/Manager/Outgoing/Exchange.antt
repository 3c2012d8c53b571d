-- ===== src/Manager/Outgoing/Exchange.antt =====
-- When a key that `encryptForDevice` returns carries a key exchange: for a device without a session.
use omemo_go.Base.{◌≡◌, refl, sym, ◌∙◌, ap, subst, ◌≢◌, arith, Option, none, some}
use omemo_go.Types.{Slice, Device, device_eq, RecipientKey, KeyExchange}
use omemo_go.Errors.{Context}
use omemo_go.Exec.{⊤, ok, wrapping}
use omemo_go.Exec.Steps.{
  >>=-eq-ok, continue-eq-ok, wrapping-eq-ok, ok-eq-ok, wrapping-bind-eq-ok, wrapped-bind-eq-ok,
}
use omemo_go.Store.View.{View, store_session}
use omemo_go.Store.Methods.{session-reads, delete_session-writes}
use omemo_go.Signal.Library.{Library}
use omemo_go.Signal.Keys
use omemo_go.Signal.Session as Signal
use omemo_go.Signal.Session.{Session}
use omemo_go.Manager.State.{Manager}
use omemo_go.Manager.Trust.{check_trust}
use omemo_go.Manager.Outgoing.{
  peer_of, first_prekey, create_active_session, stored_or_new, get_or_create_active_session,
  put_session, encrypt_locked, encrypt_for_device, reset_session,
}
use omemo_go.Manager.Outgoing.Safety.{known_key-bind-eq-ok, seal, encrypt_for_device-IsCleared}
use omemo_go.Manager.Sound.{IsSound, with_device_lock-eq-ok}

-- A key exchange is there exactly when there was no session.
abbrev pub Fits : Option Slice → Option KeyExchange → Type 0
Fits none kx = kx ≢ none
Fits (some blob) kx = kx ≡ none

module _ {W DR LS LX : Type 0} (lib : Library W DR LS LX) (m : Manager W) where
  create_active_session-exchange :
      (dev : Device) (w : W) {w' : W} {x : Session DR LS × Option KeyExchange}
      → create_active_session lib m dev w ≡ (ok x, w')
      → x.1 ≢ none
  unfolding create_active_session
  create_active_session-exchange dev w h =
      let (b, w1, e1, h1) =
        wrapping-bind-eq-ok Context.fetch_bundle (m.transport.fetch_bundle dev) _ h in
      let (prekey, w2, e2, h2) = >>=-eq-ok (first_prekey b.prekeys) _ h1 in
      let ((sess, ek), w3, e3, h3) =
        wrapping-bind-eq-ok Context.x3dh
          (Signal.new_active_session lib m.protocol m.identity_key (peer_of b prekey)
            m.local_device.id)
          _ h2 in
      let (u, w4, e4, h4) =
        wrapping-bind-eq-ok Context.store_identity_key
          (m.store.put_remote_identity_key dev b.identity_key) _ h3 in
      let (own, e5, h5) =
        wrapped-bind-eq-ok Context.derive_identity_public_key
          (Keys.identity_public_key lib m.protocol m.identity_key) _ h4 in
      λ gone. cc (ap (λ (x : Session DR LS × Option KeyExchange). x.1) (ok-eq-ok h5).0 ∙ gone)

  stored_or_new-Fits :
      (dev : Device) (o : Option Slice) (w : W) {w' : W} {x : Session DR LS × Option KeyExchange}
      → stored_or_new lib m dev o w ≡ (ok x, w')
      → Fits o x.1
  unfolding stored_or_new
  stored_or_new-Fits dev none w h = create_active_session-exchange dev w h
  stored_or_new-Fits dev (some blob) w h =
      let (sess, e, h1) = continue-eq-ok (Signal.load_session lib m.protocol blob) _ h in
      ap (λ (x : Session DR LS × Option KeyExchange). x.1) (sym (ok-eq-ok h1).0)

  pub seal-exchange :
      (dev : Device) (key_material : Slice) (sess : Session DR LS) (kx : Option KeyExchange)
      (id_key : Slice) (w : W) {w' : W} {key : RecipientKey}
      → seal lib m dev key_material sess kx id_key w ≡ (ok key, w')
      → key.key_exchange ≡ kx
  seal-exchange dev key_material sess kx id_key w h =
      let (u, w1, e1, h1) = >>=-eq-ok (check_trust m dev id_key) _ h in
      let ((out, sess'), w2, e2, h2) =
        wrapping-bind-eq-ok Context.ratchet_encrypt (Signal.encrypt lib sess key_material) _ h1 in
      let (v, w3, e3, h3) = >>=-eq-ok (put_session lib m dev sess') _ h2 in
      ap (λ (k : RecipientKey). k.key_exchange) (sym (ok-eq-ok h3).0)

module _ {W DR LS LX : Type 0} (lib : Library W DR LS LX) (m : Manager W) (view : W → View)
    (IsValid : W → Type 0) (sound : IsSound lib m view IsValid) where
  encrypt_locked-Fits :
      (dev : Device) (key_material : Slice) (w : W) {w' : W} {key : RecipientKey}
      → IsValid w
      → encrypt_locked lib m dev key_material w ≡ (ok key, w')
      → Fits ((view w).session_of dev) key.key_exchange
  unfolding encrypt_locked get_or_create_active_session
  encrypt_locked-Fits dev key_material w v h =
      let ((sess, kx), w1, e1, h1) =
        wrapping-bind-eq-ok Context.establish_session (get_or_create_active_session lib m dev) _
          h in
      let (stored, w0, e0, h0) =
        wrapping-bind-eq-ok Context.load_session (m.store.session dev) (stored_or_new lib m dev)
          e1 in
      let (v0, same, is_stored) = session-reads view IsValid sound.lawful dev v e0 in
      let (found, w2, e2, h2) =
        wrapping-bind-eq-ok Context.load_identity_key (m.store.remote_identity_key dev) _ h1 in
      let (id_key, known, h3) =
        known_key-bind-eq-ok found (seal lib m dev key_material sess kx) h2 in
      subst (Fits ((view w).session_of dev))
        (sym (seal-exchange lib m dev key_material sess kx id_key w2 h3))
        (subst (λ o. Fits o kx) is_stored (stored_or_new-Fits lib m dev stored w0 h0))

  -- For a sound manager and a valid world: the key that `encryptForDevice` returns carries a key
  -- exchange if the device had no session when the call began, and carries none if it had one.
  pub encrypt_for_device-Fits :
      (dev : Device) (key_material : Slice) {w w' : W} {key : RecipientKey}
      → IsValid w
      → encrypt_for_device lib m dev key_material w ≡ (ok key, w')
      → Fits ((view w).session_of dev) key.key_exchange
  unfolding encrypt_for_device
  encrypt_for_device-Fits dev key_material {w} {w'} {key} v h =
      let (w1, w2, v1, same, run, rest) =
        with_device_lock-eq-ok lib m view IsValid sound dev (encrypt_locked lib m dev key_material)
          v h in
      subst (λ (x : View). Fits (x.session_of dev) key.key_exchange) same
        (encrypt_locked-Fits dev key_material w1 v1 run)

  -- A device with a session.
  no_exchange : (o : Option Slice) {kx : Option KeyExchange} → o ≢ none → Fits o kx → kx ≡ none
  no_exchange none there f = absurd (there refl)
  no_exchange (some blob) there f = f

  -- For a sound manager and a valid world: after `encryptForDevice` has returned a key for a
  -- device, the key that a second call returns for the same device in the world that is left
  -- carries no key exchange.
  pub encrypt_for_device-again :
      (dev : Device) (first second : Slice) {w w1 w2 : W} {key again : RecipientKey}
      → IsValid w
      → encrypt_for_device lib m dev first w ≡ (ok key, w1)
      → encrypt_for_device lib m dev second w1 ≡ (ok again, w2)
      → again.key_exchange ≡ none
  encrypt_for_device-again dev first second v h h' =
      let (v1, cleared, named) =
        encrypt_for_device-IsCleared lib m view IsValid sound dev first v h in
      no_exchange _ cleared.has_session (encrypt_for_device-Fits dev second v1 h')

  pub reset_session-eq-ok :
      (dev : Device) {w w' : W} {u : ⊤}
      → IsValid w
      → reset_session m dev w ≡ (ok u, w')
      → IsValid w' × (view w' ≡ store_session dev none (view w))
  unfolding reset_session
  reset_session-eq-ok dev v h =
      let body = wrapping (Context.reset_session dev) (m.store.delete_session dev) in
      let (w1, w2, v1, same, run, rest) =
        with_device_lock-eq-ok lib m view IsValid sound dev body v h in
      let (v2, step) =
        delete_session-writes view IsValid sound.lawful dev v1
          (wrapping-eq-ok (Context.reset_session dev) (m.store.delete_session dev) run) in
      let (v', same') = rest v2 in (v', same' ∙ (step ∙ ap (store_session dev none) same))

  -- For a sound manager and a valid world: a successful `ResetSession` takes the session of the
  -- device out of the store and changes nothing else, and the key that `encryptForDevice` then
  -- returns for the device carries a key exchange.
  pub reset_session-encrypt_for_device :
      (dev : Device) (key_material : Slice) {w w1 w2 : W} {u : ⊤} {key : RecipientKey}
      → IsValid w
      → reset_session m dev w ≡ (ok u, w1)
      → encrypt_for_device lib m dev key_material w1 ≡ (ok key, w2)
      → (view w1 ≡ store_session dev none (view w)) × (key.key_exchange ≢ none)
  reset_session-encrypt_for_device dev key_material {w} {w1} {w2} {u} {key} v h h' =
      let (v1, step) = reset_session-eq-ok dev v h in
      let gone : (view w1).session_of dev ≡ none =
        ap (λ (x : View). x.session_of dev) step ∙ ground arith in
      (
        step,
        subst (λ o. Fits o key.key_exchange) gone (encrypt_for_device-Fits dev key_material v1 h'),
      )
