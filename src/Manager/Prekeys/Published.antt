-- ===== src/Manager/Prekeys/Published.antt =====
-- What `Bundle` publishes from an in-memory store, the store can answer for.
use omemo_go.Base.{
  ℕ, ◌≡◌, refl, sym, ◌∙◌, ap, subst, inl, arith, Option, some, List, [], ◌∷◌, map, nat_eq,
}
use omemo_go.Base.GoMap.{lookup}
use omemo_go.Types.{Slice, Bundle, PreKey, PreKeyRecord, SignedPreKey, SignedPreKeyRecord, v2}
use omemo_go.Errors.{Context}
use omemo_go.Exec.{ok, Lens, through}
use omemo_go.Exec.Steps.{ok-eq-ok, wrapping-bind-eq-ok, wrapped-bind-eq-ok}
use omemo_go.Memstore
use omemo_go.Memstore.{MemStore, entry_value}
use omemo_go.Memstore.Listing.{Among, listed-lookup}
use omemo_go.Memstore.Interface.{memory_store}
use omemo_go.Memstore.Validity.{IsValid}
use omemo_go.Memstore.Refines.{view, world_view}
use omemo_go.Signal.Library.{Library}
use omemo_go.Signal.Keys
use omemo_go.Store.{Store}
use omemo_go.Manager.State.{Manager}
use omemo_go.Manager.Prekeys.{bundle, public_prekey, public_signed_prekey}
use omemo_go.Manager.Incoming.Lookup.{held, held_of}
use omemo_go.Manager.Incoming.Opened.{Serves}

-- The halves of every prekey in the store belong together.
pub record IsMatched (IsPair : Slice → Slice → Type 0) (s : MemStore) : Type 0 where
  pub signed : IsPair s.current_spk.public s.current_spk.private
  pub one_time :
      (k : ℕ) (r : PreKeyRecord) → lookup k s.prekeys ≡ some r → IsPair r.public r.private

pub held-current :
    (cur : SignedPreKeyRecord) (stale : Option SignedPreKeyRecord)
    → held_of cur stale cur.id ≡ some cur
held-current cur stale = ground arith

first-of-map :
    (l : List PreKeyRecord) {p : PreKey} {rest : List PreKey}
    → map public_prekey l ≡ p ∷ rest
    → (r : PreKeyRecord) × (public_prekey r ≡ p) × Among r l
first-of-map [] h = cc
first-of-map (r ∷ l) {p} h =
    (r, ap (λ (q : List PreKey). elim q [ [] ↦ public_prekey r | y ∷ ys ↦ y ]) h, inl refl)

module _ {W DR LS LX : Type 0} (lib : Library W DR LS LX) (m : Manager W) (part : Lens W MemStore)
    (order : List PreKeyRecord → List PreKeyRecord)
    (permutes : (l : List PreKeyRecord) (r : PreKeyRecord) → Among r (order l) → Among r l)
    (IsPair : Slice → Slice → Type 0) where
  -- What a bundle is made of.
  bundle-eq-ok :
      (w : W) {w' : W} {b : Bundle}
      → m.store ≡ memory_store part order
      → bundle lib m w ≡ (ok b, w')
      → let s = part.get w in
        (b.prekeys ≡ map public_prekey (order (map entry_value s.prekeys)))
        × (b.signed_prekey ≡ public_signed_prekey s.current_spk)
        × (Keys.identity_public_key lib m.protocol m.identity_key ≡ ok b.identity_key)
        × (part.get w' ≡ s)
  unfolding bundle memory_store through Memstore.current_signed_prekey Memstore.prekeys
  bundle-eq-ok w is_memory h =
      let (spk, w1, e1, h1) =
        wrapping-bind-eq-ok Context.load_signed_prekey m.store.current_signed_prekey _ h in
      let (is_spk, at_w1) =
        ok-eq-ok (subst (λ (S : Store W). S.current_signed_prekey w ≡ (ok spk, w1)) is_memory e1) in
      let same1 = ap part.get (sym at_w1) ∙ part.get-put (part.get w) w in
      let (recs, w2, e2, h2) = wrapping-bind-eq-ok Context.load_prekeys m.store.prekeys _ h1 in
      let (is_recs, at_w2) =
        ok-eq-ok (subst (λ (S : Store W). S.prekeys w1 ≡ (ok recs, w2)) is_memory e2) in
      let same2 = ap part.get (sym at_w2) ∙ (part.get-put (part.get w1) w1 ∙ same1) in
      let (public, e3, h3) =
        wrapped-bind-eq-ok Context.derive_identity_public_key
          (Keys.identity_public_key lib m.protocol m.identity_key) _ h2 in
      let (is_b, at_end) = ok-eq-ok h3 in
      (
        ap (λ (x : Bundle). x.prekeys) (sym is_b)
            ∙ (ap (map public_prekey) (sym is_recs)
                ∙ ap (λ (x : MemStore). map public_prekey (order (map entry_value x.prekeys)))
                    same1),
        ap (λ (x : Bundle). x.signed_prekey) (sym is_b) ∙ ap public_signed_prekey (sym is_spk),
        e3 ∙ ap (λ (x : Bundle). ok x.identity_key) is_b,
        ap part.get (sym at_end) ∙ same2,
      )

  -- For a manager of ProtocolV2 on an in-memory store that lists only prekeys which it holds, in a
  -- well-formed state in which the two halves of every prekey belong together: what `Bundle`
  -- returns, the store can answer for, as it is after the call: the identity key is the manager's,
  -- the signed prekey is held, and the first one-time prekey is in the pool, both with the private
  -- halves.
  pub bundle-Serves :
      (w : W) {w' : W} {b : Bundle}
      → m.store ≡ memory_store part order
      → m.protocol ≡ v2
      → IsValid (part.get w)
      → IsMatched IsPair (part.get w)
      → bundle lib m w ≡ (ok b, w')
      → Serves lib IsPair m.identity_key (world_view part w') b
  unfolding public_signed_prekey public_prekey
  bundle-Serves w {w'} {b} is_memory is_v2 valid matched h =
      let (is_prekeys, is_signed, is_identity, same) = bundle-eq-ok w is_memory h in
      let s = part.get w in
      subst (λ (x : MemStore). Serves lib IsPair m.identity_key (view x) b) (sym same)
        (record {
          identity =
              subst (λ p. Keys.identity_public_key lib p m.identity_key ≡ ok b.identity_key) is_v2
                is_identity;
          spk = s.current_spk;
          is_held =
              subst (λ (k : SignedPreKey). held (view s) k.id ≡ some s.current_spk) (sym is_signed)
                (held-current s.current_spk s.stale_spk);
          spk_pair =
              subst (λ (k : SignedPreKey). IsPair k.public s.current_spk.private) (sym is_signed)
                matched.signed;
          spk_public = ap (λ (k : SignedPreKey). k.public) (sym is_signed);
          prekey = λ p rest e.
              let (r, is_p, among) =
                first-of-map (order (map entry_value s.prekeys)) (sym is_prekeys ∙ e) in
              let (k, found) = listed-lookup r s.prekeys valid.prekeys (permutes _ r among) in
              let is_k = valid.keyed k r found in
              let is_id : k ≡ p.id = sym is_k ∙ ap (λ (q : PreKey). q.id) is_p in
              (
                r,
                subst (λ j. lookup j s.prekeys ≡ some r) is_id found,
                subst (λ (q : PreKey). IsPair q.public r.private) is_p (matched.one_time k r found),
              );
        })
