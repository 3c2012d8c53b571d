-- ===== src/Manager/Incoming/Replay.antt =====
-- A one-time prekey serves one incoming key exchange.
use omemo_go.Base.{ℕ, ◌≡◌, refl, sym, ◌∙◌, ap, subst, none, some, nat_eq}
use omemo_go.Types.{Slice, Protocol, v1, v2, other, KeyExchange, RecipientKey, EncryptedMessage}
use omemo_go.Errors.{Context}
use omemo_go.Exec.{Result, ok}
use omemo_go.Exec.Steps.{>>=-eq-ok, wrapping-bind-eq-ok}
use omemo_go.Store.View.{View}
use omemo_go.Signal.Library.{Library, PreKeyMessage}
use omemo_go.Signal.Session as Signal
use omemo_go.Signal.Session.{Session}
use omemo_go.Signal.Quiet.{decrypt-Quiet}
use omemo_go.Manager.State.{Manager}
use omemo_go.Manager.Outgoing.{put_session}
use omemo_go.Manager.Outgoing.Safety.{put_session-eq-ok}
use omemo_go.Manager.Incoming.{
  find_key, session_for_key, get_or_create_session_for_incoming, open_payload, decrypt_locked,
  decrypt_with, decrypt_message,
}
use omemo_go.Manager.Sound.{IsSound, with_device_lock-eq-ok}
use omemo_go.Manager.Incoming.Used.{
  NamesPrekey, Used, Used-after, session_for_exchange-Used, ok-injective,
}

module _ {W DR LS LX : Type 0} (lib : Library W DR LS LX) (m : Manager W) (view : W → View)
    (IsValid : W → Type 0) (sound : IsSound lib m view IsValid) where
  -- What opens the payload leaves the world alone.
  open_payload-same :
      (key_material iv payload : Slice) {w w' : W} {text : Slice}
      → open_payload lib m key_material iv payload w ≡ (ok text, w')
      → w ≡ w'
  unfolding open_payload
  open_payload-same key_material iv none h = ap (λ (p : Result Slice × W). p.1) h
  open_payload-same key_material iv (some c) h = ap (λ (p : Result Slice × W). p.1) h

  decrypt_locked-Used :
      (msg : EncryptedMessage) (key : RecipientKey) (kx : KeyExchange) {w w' : W} {text : Slice}
      → key.key_exchange ≡ some kx
      → IsValid w
      → decrypt_locked lib m msg key w ≡ (ok text, w')
      → (id : ℕ) × NamesPrekey lib m.protocol key.wrapped kx id
        × Used lib m view IsValid sound id w w'
  unfolding decrypt_locked get_or_create_session_for_incoming session_for_key
  decrypt_locked-Used msg key kx {w} has_kx v h =
      let ((sess, inner), w1, e1, h1) =
        wrapping-bind-eq-ok Context.establish_session
          (session_for_key lib m msg.sender key.wrapped key.key_exchange) _ h in
      let e1' = ap (λ o. session_for_key lib m msg.sender key.wrapped o w) (sym has_kx) ∙ e1 in
      let (id, named, used) =
        session_for_exchange-Used lib m view IsValid sound m.protocol msg.sender key.wrapped kx v
          e1' in
      let ((key_material, sess'), w2, e2, h2) =
        wrapping-bind-eq-ok Context.ratchet_decrypt (Signal.decrypt lib sess inner) _ h1 in
      let (valid2, same2) =
        rw e2 at ((decrypt-Quiet lib view IsValid sound.library sess inner).at w1 used.0) in
      let (u, w3, e3, h3) = >>=-eq-ok (put_session lib m msg.sender sess') _ h2 in
      let (blob, marshalled, valid3, step) =
        put_session-eq-ok lib m view IsValid sound msg.sender sess' valid2 e3 in
      let is_end = open_payload-same key_material msg.iv msg.payload h3 in
      (
        id,
        named,
        subst (Used lib m view IsValid sound id w) is_end (
            Used-after lib m view IsValid sound id refl used valid3
              (ap (λ (x : View). x.pool) step ∙ ap (λ (x : View). x.pool) same2)),
      )

  -- For a sound manager and a valid world: when a message whose first key for this device carries a
  -- key exchange is read with success, then the one-time prekey that the key exchange names was in
  -- the pool and is not in it any more, and the world stays valid.
  pub decrypt_message-Used :
      (msg : EncryptedMessage) (key : RecipientKey) (kx : KeyExchange) {w w' : W} {text : Slice}
      → find_key m.local_device.id msg.keys ≡ some key
      → key.key_exchange ≡ some kx
      → IsValid w
      → decrypt_message lib m msg w ≡ (ok text, w')
      → (id : ℕ) × NamesPrekey lib m.protocol key.wrapped kx id
        × Used lib m view IsValid sound id w w'
  unfolding decrypt_message decrypt_with
  decrypt_message-Used msg key kx {w} found has_kx v h =
      let h' = ap (λ o. decrypt_with lib m msg o w) (sym found) ∙ h in
      let (w1, w2, valid1, same1, e, unlocked) =
        with_device_lock-eq-ok lib m view IsValid sound msg.sender (decrypt_locked lib m msg key) v
          h' in
      let (id, named, used) = decrypt_locked-Used msg key kx has_kx valid1 e in
      let (valid', same) = unlocked used.0 in
      (
        id,
        named,
        Used-after lib m view IsValid sound id same1 used valid' (ap (λ (x : View). x.pool) same),
      )

  NamesPrekey-unique :
      (p : Protocol) (wrapped : Slice) (kx : KeyExchange) {i j : ℕ}
      → NamesPrekey lib p wrapped kx i
      → NamesPrekey lib p wrapped kx j
      → i ≡ j
  NamesPrekey-unique v1 wrapped kx (pm, e, n) (pm', e', n') =
      sym n ∙ (ap (λ (x : PreKeyMessage). x.prekey_id) (ok-injective (sym e ∙ e')) ∙ n')
  NamesPrekey-unique v2 wrapped kx n n' = sym n ∙ n'
  NamesPrekey-unique (other k) wrapped kx n n' = sym n ∙ n'

  -- For a sound manager and a valid world: when a message whose first key for this device carries a
  -- key exchange has been read with success, then reading it again in the world that this has left
  -- does not succeed.
  pub decrypt_message-replay :
      (msg : EncryptedMessage) (key : RecipientKey) (kx : KeyExchange) {w w' : W} {text : Slice}
      → find_key m.local_device.id msg.keys ≡ some key
      → key.key_exchange ≡ some kx
      → IsValid w
      → decrypt_message lib m msg w ≡ (ok text, w')
      → ¬ ((again : Slice) × (w'' : W) × (decrypt_message lib m msg w' ≡ (ok again, w'')))
  decrypt_message-replay msg key kx found has_kx v h (again, w'', h') =
      let (id, named, (v', was, is)) = decrypt_message-Used msg key kx found has_kx v h in
      let (id', named', (_, was', _)) = decrypt_message-Used msg key kx found has_kx v' h' in
      was' (ap (view _).pool (NamesPrekey-unique m.protocol key.wrapped kx named' named) ∙ is)
