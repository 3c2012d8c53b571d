-- ===== src/Manager/Incoming/Used.antt =====
-- The one-time prekey that a session for an incoming message is made with.
use omemo_go.Base.{ℕ, ◌≡◌, refl, sym, ◌∙◌, ap, subst, ◌≢◌, arith, Option, none, some, nat_eq}
use omemo_go.Types.{Slice, Protocol, v1, v2, other, Device, KeyExchange, PreKeyRecord}
use omemo_go.Errors.{Context}
use omemo_go.Exec.{Result, ok, err}
use omemo_go.Exec.Steps.{>>=-eq-ok, ok-eq-ok, wrapping-bind-eq-ok, wrapped-bind-eq-ok}
use omemo_go.Store.View.{View, consume, consume_found}
use omemo_go.Store.Contract.Use.{Meets-ok}
use omemo_go.Store.Keeps.{Unchanged, Unchanged-IsFrame}
use omemo_go.Store.Methods.{put_remote_identity_key-writes}
use omemo_go.Signal.Library.{Library, PreKeyMessage}
use omemo_go.Signal.Session as Signal
use omemo_go.Signal.Session.{Session}
use omemo_go.Signal.Quiet.{new_passive_session-Quiet, new_passive_session_from_prekey_blob-Quiet}
use omemo_go.Manager.State.{Manager}
use omemo_go.Manager.Incoming.{
  signed_prekey_by_id, session_from_blob, session_from_exchange, session_for_exchange,
}
use omemo_go.Manager.Incoming.Frame.{signed_prekey_by_id-Within}
use omemo_go.Manager.Sound.{IsSound}

-- A successful consumption: the prekey was there, and is there no more.
consume_found-eq-ok :
    (id : ℕ) (o : Option PreKeyRecord) (v : View) {v' : View} {r : PreKeyRecord}
    → consume_found id o v ≡ (ok r, v')
    → (o ≢ none) × (v'.pool id ≡ none)
consume_found-eq-ok id none v h = cc (ap (λ (p : Result PreKeyRecord × View). p.0) h)
consume_found-eq-ok id (some r) v h =
    (λ e. cc e, ap (λ (p : Result PreKeyRecord × View). p.1.pool id) (sym h) ∙ ground arith)

pub ok-injective : {A : Type 0} {a b : A} → ◌≡◌ {A = Result A} (ok a) (ok b) → a ≡ b
ok-injective {a} e = ap (elim [ ok x ↦ x | err y ↦ a ]) e

peeked-eq-ok :
    (r : Result PreKeyMessage) {i j : ℕ}
    → Signal.peeked r ≡ ok (i, j)
    → (pm : PreKeyMessage) × (r ≡ ok pm) × (pm.prekey_id ≡ j)
peeked-eq-ok (err e) h = cc h
peeked-eq-ok (ok pm) h = (pm, refl, ap (λ (p : ℕ × ℕ). p.1) (ok-injective h))

module _ {W DR LS LX : Type 0} (lib : Library W DR LS LX) where
  peeked_prekey :
      (wrapped : Slice) {i j : ℕ}
      → Signal.peek_legacy_prekey_ids lib wrapped ≡ ok (i, j)
      → (pm : PreKeyMessage) × (lib.parse_prekey_message wrapped ≡ ok pm) × (pm.prekey_id ≡ j)
  unfolding Signal.peek_legacy_prekey_ids
  peeked_prekey wrapped h = peeked-eq-ok (lib.parse_prekey_message wrapped) h

  -- The one-time prekey that a key exchange names: beside the message, or under ProtocolV1 inside it.
  abbrev pub NamesPrekey : Protocol → Slice → KeyExchange → ℕ → Type 0
  NamesPrekey v1 wrapped kx id =
      (pm : PreKeyMessage) × (lib.parse_prekey_message wrapped ≡ ok pm) × (pm.prekey_id ≡ id)
  NamesPrekey _ wrapped kx id = kx.prekey_id ≡ id

module _ {W DR LS LX : Type 0} (lib : Library W DR LS LX) (m : Manager W) (view : W → View)
    (IsValid : W → Type 0) (sound : IsSound lib m view IsValid) where
  -- The prekey `id` was in the pool, and is not in the pool any more.
  abbrev pub Used : ℕ → W → W → Type 0
  Used id w w' = IsValid w' × ((view w).pool id ≢ none) × ((view w').pool id ≡ none)

  consume-Used :
      (id : ℕ) {w w' : W} {r : PreKeyRecord}
      → IsValid w
      → m.store.consume_prekey id w ≡ (ok r, w')
      → Used id w w'
  consume-Used id {w} v h =
      let (v', e) =
        Meets-ok view IsValid (consume id) (m.store.consume_prekey id)
          (sound.lawful.consume_prekey id) v h in
      let (was, is) = consume_found-eq-ok id ((view w).pool id) (view w) e in (v', was, is)

  -- Steps before and after that leave the pool alone.
  pub Used-after :
      (id : ℕ) {w w1 w2 w3 : W}
      → view w1 ≡ view w
      → Used id w1 w2
      → IsValid w3
      → (view w3).pool ≡ (view w2).pool
      → Used id w w3
  Used-after id before (v, was, is) v3 after = (
    v3,
    subst (λ (x : View). x.pool id ≢ none) before was,
    ap (λ (f : ℕ → Option PreKeyRecord). f id) after ∙ is,
  )

  session_from_exchange-Used :
      (sender : Device) (wrapped : Slice) (kx : KeyExchange) {w w' : W} {x : Session DR LS × Slice}
      → IsValid w
      → session_from_exchange lib m sender wrapped kx w ≡ (ok x, w')
      → Used kx.prekey_id w w'
  unfolding session_from_exchange
  session_from_exchange-Used sender wrapped kx {w} v h =
      let (spk, w1, e1, h1) = >>=-eq-ok (signed_prekey_by_id m kx.signed_prekey_id) _ h in
      let (valid1, same1) = rw e1 at (
        (signed_prekey_by_id-Within lib m view IsValid sound Unchanged Unchanged-IsFrame
            kx.signed_prekey_id).at
          w v) in
      let (prekey, w2, e2, h2) =
        wrapping-bind-eq-ok (Context.consume_one_time_prekey kx.prekey_id)
          (m.store.consume_prekey kx.prekey_id) _ h1 in
      let used = consume-Used kx.prekey_id valid1 e2 in
      let passive =
        Signal.new_passive_session lib m.identity_key kx.identity_key spk.public spk.private
          prekey.private kx.ephemeral_key in
      let (sess, w3, e3, h3) = wrapping-bind-eq-ok Context.x3dh passive _ h2 in
      let (valid3, same3) = rw e3 at (
        (new_passive_session-Quiet lib view IsValid sound.library m.identity_key kx.identity_key
            spk.public spk.private prekey.private kx.ephemeral_key).at
          w2 used.0) in
      let (u, w4, e4, h4) =
        wrapping-bind-eq-ok Context.store_identity_key
          (m.store.put_remote_identity_key sender kx.identity_key) _ h3 in
      let (valid4, step) =
        put_remote_identity_key-writes view IsValid sound.lawful sender kx.identity_key valid3 e4 in
      let (is_x, is_end) = ok-eq-ok h4 in
      subst (Used kx.prekey_id w) is_end (
        Used-after kx.prekey_id same1 used valid4
          (ap (λ (x : View). x.pool) step ∙ ap (λ (x : View). x.pool) same3))

  session_from_blob-Used :
      (sender : Device) (wrapped : Slice) {w w' : W} {x : Session DR LS × Slice}
      → IsValid w
      → session_from_blob lib m sender wrapped w ≡ (ok x, w')
      → (id : ℕ) × ((pm : PreKeyMessage) × (lib.parse_prekey_message wrapped ≡ ok pm)
          × (pm.prekey_id ≡ id))
        × Used id w w'
  unfolding session_from_blob
  session_from_blob-Used sender wrapped {w} v h =
      let ((spk_id, prekey_id), peeked, h0) =
        wrapped-bind-eq-ok Context.parse_legacy_prekey_message
          (Signal.peek_legacy_prekey_ids lib wrapped) _ h in
      let (spk, w1, e1, h1) = >>=-eq-ok (signed_prekey_by_id m spk_id) _ h0 in
      let (valid1, same1) = rw e1 at (
        (signed_prekey_by_id-Within lib m view IsValid sound Unchanged Unchanged-IsFrame spk_id).at
          w v) in
      let (prekey, w2, e2, h2) =
        wrapping-bind-eq-ok (Context.consume_one_time_prekey prekey_id)
          (m.store.consume_prekey prekey_id) _ h1 in
      let used = consume-Used prekey_id valid1 e2 in
      let blob =
        Signal.new_passive_session_from_prekey_blob lib m.identity_key spk.public spk.private
          prekey.private wrapped in
      let (passive, w3, e3, h3) = wrapping-bind-eq-ok Context.x3dh blob _ h2 in
      let (valid3, same3) = rw e3 at (
        (new_passive_session_from_prekey_blob-Quiet lib view IsValid sound.library m.identity_key
            spk.public spk.private prekey.private wrapped).at
          w2 used.0) in
      let (u, w4, e4, h4) =
        wrapping-bind-eq-ok Context.store_identity_key
          (m.store.put_remote_identity_key sender passive.peer_identity_key) _ h3 in
      let (valid4, step) =
        put_remote_identity_key-writes view IsValid sound.lawful sender passive.peer_identity_key
          valid3 e4 in
      let (is_x, is_end) = ok-eq-ok h4 in
      (
        prekey_id,
        peeked_prekey lib wrapped peeked,
        subst (Used prekey_id w) is_end (
            Used-after prekey_id same1 used valid4
              (ap (λ (x : View). x.pool) step ∙ ap (λ (x : View). x.pool) same3)),
      )

  pub session_for_exchange-Used :
      (p : Protocol) (sender : Device) (wrapped : Slice) (kx : KeyExchange) {w w' : W}
      {x : Session DR LS × Slice}
      → IsValid w
      → session_for_exchange lib m p sender wrapped kx w ≡ (ok x, w')
      → (id : ℕ) × NamesPrekey lib p wrapped kx id × Used id w w'
  unfolding session_for_exchange
  session_for_exchange-Used v1 sender wrapped kx v h = session_from_blob-Used sender wrapped v h
  session_for_exchange-Used v2 sender wrapped kx v h =
      (kx.prekey_id, refl, session_from_exchange-Used sender wrapped kx v h)
  session_for_exchange-Used (other n) sender wrapped kx v h =
      (kx.prekey_id, refl, session_from_exchange-Used sender wrapped kx v h)
