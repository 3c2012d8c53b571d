-- ===== src/Manager/Incoming/Opened.antt =====
-- Reading the first message of a session under ProtocolV2, run forwards: with a store that does not
-- fail and that serves the bundle which the sender has used, the message is read.
use omemo_go.Base.{
  ℕ, ◌≡◌, sym, ◌∙◌, ap, subst, arith, Option, none, some, List, ◌∷◌, inl, inr, ◌==◌, nat_eq,
  if◌then◌else◌, Bool-cases, true, false,
}
use omemo_go.Types.{Slice, v2, Device, Bundle, PreKey, SignedPreKeyRecord, PreKeyRecord}
use omemo_go.Errors.{Context}
use omemo_go.Exec.{⊤, ok, Exec, wrapping, pure, ◌>>=◌}
use omemo_go.Exec.Steps.{ok-eq-ok, wrapping-bind-ok, wrapped-bind-ok}
use omemo_go.Store.View.{View, consume, consume_found}
use omemo_go.Store.Contract.Use.{Meets-ok}
use omemo_go.Store.Reliable.{IsReliable}
use omemo_go.Store.Methods.{
  current_signed_prekey-reads, stale_signed_prekey-reads, put_remote_identity_key-writes,
}
use omemo_go.Signal.Library.{Library, InitialMessage}
use omemo_go.Signal.Agreement.{Agrees}
use omemo_go.Signal.Session as Signal
use omemo_go.Signal.Session.{Session, v2_session}
use omemo_go.Manager.Outgoing.{peer_of}
use omemo_go.Manager.Outgoing.First.{IsAgreed}
use omemo_go.Signal.Keys.{identity_public_key}
use omemo_go.Manager.State.{Manager}
use omemo_go.Manager.Incoming.{signed_prekey_by_id, stale_by_id}
use omemo_go.Manager.Incoming.Lookup.{held, held_of, held_stale}
use omemo_go.Manager.Sound.{IsSound}

-- The bundle is one that the store can answer for: the identity key is the manager's, and the private
-- parts of the signed prekey and of the first one-time prekey are at hand.
pub record Serves {W DR LS LX : Type 0} (lib : Library W DR LS LX) (IsPair : Slice → Slice → Type 0)
    (id_key : Slice) (v : View) (b : Bundle) : Type 0 where
  pub identity : identity_public_key lib v2 id_key ≡ ok b.identity_key
  pub spk : SignedPreKeyRecord
  pub is_held : held v b.signed_prekey.id ≡ some spk
  pub spk_pair : IsPair b.signed_prekey.public spk.private
  pub spk_public : spk.public ≡ b.signed_prekey.public
  pub prekey :
      (p : PreKey) (rest : List PreKey)
      → b.prekeys ≡ p ∷ rest
      → (r : PreKeyRecord) × (v.pool p.id ≡ some r) × IsPair p.public r.private

module _ {W DR LS LX : Type 0} (lib : Library W DR LS LX) (m : Manager W) (view : W → View)
    (IsValid : W → Type 0) (sound : IsSound lib m view IsValid)
    (reliable : IsReliable view IsValid m.store) where
  -- The call gives the value and leaves the content of the store.
  abbrev Gets : {A : Type 0} → Exec W A → W → A → Type 0
  Gets c w a = (w' : W) × (c w ≡ (ok a, w')) × IsValid w' × (view w' ≡ view w)

  stale_by_id-held :
      (id : ℕ) (o : Option SignedPreKeyRecord) (w : W) {spk : SignedPreKeyRecord}
      → held_stale id o ≡ some spk
      → stale_by_id m id o w ≡ (ok spk, w)
  unfolding stale_by_id
  stale_by_id-held id none w h = cc
  stale_by_id-held id (some stale) w h = ground arith

  -- `signedPreKeyByID`, once the current signed prekey is loaded.
  abbrev after_current : ℕ → SignedPreKeyRecord → Exec W SignedPreKeyRecord
  after_current id cur = if cur.id == id then pure cur else do
    stale ← wrapping Context.load_stale_signed_prekey m.store.stale_signed_prekey
    stale_by_id m id stale

  held_first :
      (id : ℕ) (cur : SignedPreKeyRecord) (o : Option SignedPreKeyRecord) (w : W)
      {spk : SignedPreKeyRecord}
      → (cur.id == id) ≡ true
      → held_of cur o id ≡ some spk
      → after_current id cur w ≡ (ok spk, w)
  held_first id cur o w is_id h = ground arith

  held_second :
      (id : ℕ) (cur : SignedPreKeyRecord) (o : Option SignedPreKeyRecord) (w w' : W)
      {spk : SignedPreKeyRecord}
      → (cur.id == id) ≡ false
      → m.store.stale_signed_prekey w ≡ (ok o, w')
      → held_of cur o id ≡ some spk
      → after_current id cur w ≡ (ok spk, w')
  held_second id cur o w w' {spk} not_id e h = rw not_id (
      wrapping-bind-ok Context.load_stale_signed_prekey m.store.stale_signed_prekey
        (stale_by_id m id) e
      ∙ stale_by_id-held id o w' (rw not_id at h))

  -- What the store holds under the id, `signedPreKeyByID` finds.
  pub signed_prekey_by_id-held :
      (id : ℕ) (w : W) {spk : SignedPreKeyRecord}
      → IsValid w
      → held (view w) id ≡ some spk
      → Gets (signed_prekey_by_id m id) w spk
  unfolding signed_prekey_by_id
  signed_prekey_by_id-held id w {spk} v h =
      let (cur, w1, e1) = reliable.current_signed_prekey w v in
      let (v1, same1, is_cur) = current_signed_prekey-reads view IsValid sound.lawful v e1 in
      let (o, w2, e2) = reliable.stale_signed_prekey w1 v1 in
      let (valid2, same2, is_o) = stale_signed_prekey-reads view IsValid sound.lawful v1 e2 in
      let is_stale : o ≡ (view w).stale = is_o ∙ ap (λ (x : View). x.stale) same1 in
      let found : held_of cur o id ≡ some spk = rw (is_cur, is_stale) h in
      let run =
        wrapping-bind-ok Context.load_signed_prekey m.store.current_signed_prekey (after_current id)
          e1 in
      elim (Bool-cases (cur.id == id)) [
        | inl is_id ↦ (w1, run ∙ held_first id cur o w1 is_id found, v1, same1)
        | inr not_id ↦ (w2, run ∙ held_second id cur o w1 w2 not_id e2 found, valid2, same2 ∙ same1)
      ]

  pub consume_prekey-held :
      (id : ℕ) (w : W) {r : PreKeyRecord}
      → IsValid w
      → (view w).pool id ≡ some r
      → (w' : W) × (m.store.consume_prekey id w ≡ (ok r, w')) × IsValid w'
  consume_prekey-held id w {r} v held_r =
      let (x, w1, e) = reliable.consume_prekey id w v (λ gone. cc) in
      let (v1, consumed) =
        Meets-ok view IsValid (consume id) (m.store.consume_prekey id)
          (sound.lawful.consume_prekey id) v e in
      let same : r ≡ x =
        (ok-eq-ok (ap (λ o. consume_found id o (view w)) (sym held_r) ∙ consumed)).0 in
      (w1, subst (λ y. m.store.consume_prekey id w ≡ (ok y, w1)) (sym same) e, v1)

  pub put_remote_identity_key-works :
      (dev : Device) (key : Slice) (w : W)
      → IsValid w
      → (u : ⊤) × (w' : W) × (m.store.put_remote_identity_key dev key w ≡ (ok u, w')) × IsValid w'
  put_remote_identity_key-works dev key w v =
      let (u, w1, e) = reliable.put_remote_identity_key dev key w v in
      let (v1, step) = put_remote_identity_key-writes view IsValid sound.lawful dev key v e in
      (u, w1, e, v1)

module _ {W DR LS LX : Type 0} (lib : Library W DR LS LX) (IsOwn : Slice → Type 0)
    (IsPair : Slice → Slice → Type 0) (Paired : DR → DR → Type 0)
    (agrees : Agrees lib IsOwn IsPair Paired) where
  -- The two ends of X3DH make paired ratchets.
  pub new_passive_session-Paired :
      (a_key b_key own : Slice) (b : Bundle) (prekey : PreKey) (initial : InitialMessage)
      (ratchet : DR) (spk_public spk_private opk_private : Slice)
      → IsOwn a_key
      → IsOwn b_key
      → identity_public_key lib v2 a_key ≡ ok own
      → identity_public_key lib v2 b_key ≡ ok b.identity_key
      → IsAgreed lib a_key (peer_of b prekey) initial ratchet
      → spk_public ≡ b.signed_prekey.public
      → IsPair b.signed_prekey.public spk_private
      → IsPair prekey.public opk_private
      → (w : W)
      → (x : DR) × (w' : W) × (Signal.new_passive_session lib b_key own spk_public spk_private
            opk_private initial.ephemeral_key w
          ≡ (ok (v2_session x), w'))
        × Paired ratchet x
  unfolding Signal.new_passive_session peer_of
  new_passive_session-Paired a_key b_key own b prekey initial ratchet spk_public spk_private
        opk_private own_a own_b is_own is_peer agreed is_spk spk_pair opk_pair w =
      let received =
        agrees.x3dh a_key b_key own b.identity_key b.signed_prekey.public spk_private
          b.signed_prekey.signature prekey.public opk_private agreed.before agreed.between initial
          own_a own_b is_own is_peer spk_pair opk_pair agreed.agreed in
      let (x, (w1, e1), paired) =
        agrees.ratchet initial.session_key initial.associated_data b.signed_prekey.public
          spk_private agreed.next agreed.after ratchet spk_pair agreed.created w in
      (
        x,
        w1,
        wrapped-bind-ok _ Context.x3dh_receive_initial_message w received
            ∙ wrapping-bind-ok Context.create_passive_ratchet
                (lib.create_passive initial.session_key initial.associated_data spk_public
                  spk_private)
                _ (rw is_spk e1),
        paired,
      )
