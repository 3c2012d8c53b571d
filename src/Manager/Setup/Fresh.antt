-- ===== src/Manager/Setup/Fresh.antt =====
-- What `InitIdentity` leaves in a new in-memory store.
use omemo_go.Base.{
  ℕ, String, ◌≡◌, refl, sym, ◌∙◌, ap, subst, ◌+◌, ◌≤◌, ◌<◌, inl, inr, ◌≢◌, arith, none, some, List,
  [], ◌∷◌, All, ◌==◌, Bool-cases, length, nat_eq,
}
use omemo_go.Base.GoMap.{GoMap, lookup, insert, lookup-insert, lookup-nil}
use mathlib.Core.Option.{some-injective}
use omemo_go.Types.{Slice, Protocol, v1, v2, other, Device, SignedPreKeyRecord, PreKeyRecord}
use omemo_go.Errors.{Context}
use omemo_go.Exec.{Result, ok, Exec, Lens, through}
use omemo_go.Exec.Steps.{wrapping-bind-eq-ok}
use omemo_go.Memstore
use omemo_go.Memstore.{MemStore}
use omemo_go.Memstore.Interface.{memory_store}
use omemo_go.Memstore.Pool.{Consecutive, IsExtended, put_all-IsExtended}
use omemo_go.Signal.Library.{Library, SignedKeyPair}
use omemo_go.Signal.Keys
use omemo_go.Manager.Prekeys.{generate_prekeys, signed_prekey_record, default_prekey_count}
use omemo_go.Manager.Prekeys.Generation.{IsMade, generate_prekeys-state}
use omemo_go.Manager.Setup.{init_identity}

-- A device's first state: the identity key that the library makes in `w`, its name, the signed
-- prekey 1 and no other, the one-time prekeys 1 to 100 and no others, all from the library, and
-- nothing about other devices.
pub record IsFresh {W DR LS LX : Type 0} (lib : Library W DR LS LX) (p : Protocol) (w : W)
    (jid : String) (id : ℕ) (s : MemStore) : Type 0 where
  pub identity : (w1 : W) × (Keys.generate_identity_key lib p w ≡ (ok s.identity_key, w1))
  pub signed :
      (pair : SignedKeyPair) × (w1 : W) × (w2 : W) × (Keys.generate_signed_prekey lib p
          s.identity_key w1
        ≡ (ok pair, w2))
      × (s.current_spk ≡ signed_prekey_record lib 1 pair)
  pub made : (k : ℕ) (r : PreKeyRecord) → lookup k s.prekeys ≡ some r → (r.id ≡ k) × IsMade lib r
  pub local_device : s.local_device ≡ record { jid = jid; id = id }
  pub no_stale : s.stale_spk ≡ none
  pub counter : s.next_id ≡ 100
  pub count : length s.prekeys ≡ 100
  pub held : (k : ℕ) → 0 < k → k ≤ 100 → lookup k s.prekeys ≢ none
  pub no_other : (k : ℕ) → 100 < k → lookup k s.prekeys ≡ none
  pub no_zero : lookup 0 s.prekeys ≡ none
  pub no_session : s.sessions ≡ []
  pub no_trust : s.trust ≡ []
  pub no_device_list : s.devices ≡ []
  pub no_remote_key : s.remote_id ≡ []

-- The generators of the library leave the store alone.
pub record IsAside {W DR LS LX : Type 0} (lib : Library W DR LS LX) (part : Lens W MemStore)
    : Type 0 where
  pub ed25519 : (w : W) → part.get (lib.ed25519_generate_key w).1 ≡ part.get w
  pub x25519 : (w : W) → part.get (lib.x25519_generate_key w).1 ≡ part.get w
  pub spk : (key : Slice) (w : W) → part.get (lib.create_new_spk key w).1 ≡ part.get w
  pub legacy_spk : (key : Slice) (w : W) → part.get (lib.legacy_create_new_spk key w).1 ≡ part.get w
  pub opk : (w : W) → part.get (lib.create_new_opk w).1 ≡ part.get w

-- Every entry of the pool stands under its own id and has the property.
put_all-All :
    (P : PreKeyRecord → Type 0) (recs : List PreKeyRecord) (pool : GoMap ℕ PreKeyRecord)
    → All P recs
    → ((k : ℕ) (r : PreKeyRecord) → lookup k pool ≡ some r → (r.id ≡ k) × P r)
    → (k : ℕ) (r : PreKeyRecord) → lookup k (Memstore.put_all recs pool) ≡ some r
    → (r.id ≡ k) × P r
unfolding Memstore.put_all
put_all-All P [] pool all old k r h = old k r h
put_all-All P (q ∷ recs) pool (p, all) old k r h =
    put_all-All P recs (insert q.id q pool) all
      (λ j x e. elim (Bool-cases (j == q.id)) [
        | inl same ↦
            let is_q : q ≡ x =
              some-injective q x (rw same at (sym (lookup-insert j q.id q pool) ∙ e)) in
            subst (λ y. (y.id ≡ j) × P y) is_q (ground (arith, same), p)
        | inr differs ↦ old j x (rw differs at (sym (lookup-insert j q.id q pool) ∙ e))
      ])
      k r h

module _ {W DR LS LX : Type 0} (lib : Library W DR LS LX) (part : Lens W MemStore)
    (order : List PreKeyRecord → List PreKeyRecord) (aside : IsAside lib part) where
  identity_key-aside :
      (p : Protocol) (w : W) → part.get (Keys.generate_identity_key lib p w).1 ≡ part.get w
  unfolding Keys.generate_identity_key
  identity_key-aside v1 w = aside.x25519 w
  identity_key-aside v2 w = aside.ed25519 w
  identity_key-aside (other n) w = aside.ed25519 w

  signed_prekey-aside :
      (p : Protocol) (key : Slice) (w : W)
      → part.get (Keys.generate_signed_prekey lib p key w).1 ≡ part.get w
  unfolding Keys.generate_signed_prekey
  signed_prekey-aside v1 key w = aside.legacy_spk key w
  signed_prekey-aside v2 key w = aside.spk key w
  signed_prekey-aside (other n) key w = aside.spk key w

  -- The content after a call that left it alone, and after a method of the store.
  after_aside :
      {A : Type 0} (c : Exec W A) {w w' : W} {r : Result A}
      → part.get (c w).1 ≡ part.get w
      → c w ≡ (r, w')
      → part.get w' ≡ part.get w
  after_aside {A} c same e = ap (λ (p : Result A × W). part.get p.1) (sym e) ∙ same

  after_method :
      {A : Type 0} (c : Exec MemStore A) {w w' : W} {r : Result A} {s : MemStore}
      → part.get w ≡ s
      → through part c w ≡ (r, w')
      → part.get w' ≡ (c s).1
  unfolding through
  after_method {A} c {w} is_s e =
      ap (λ (p : Result A × W). part.get p.1) (sym e)
      ∙ (part.get-put (c (part.get w)).1 w ∙ ap (λ s. (c s).1) is_s)

  abbrev named : String → ℕ → Slice → SignedPreKeyRecord → MemStore
  named jid id key spk = record Memstore.new {
    identity_key = key;
    local_device = record { jid = jid; id = id };
    current_spk = spk;
  }

  -- The keys that the store then has were made by the library.
  abbrev Makes : Protocol → W → Slice → SignedKeyPair → Type 0
  Makes p w key pair =
      ((w1 : W) × (Keys.generate_identity_key lib p w ≡ (ok key, w1)))
      × ((w1 : W) × (w2 : W) × (Keys.generate_signed_prekey lib p key w1 ≡ (ok pair, w2)))

  -- Before the one-time prekeys are made.
  init_identity-named :
      (jid : String) (id : ℕ) (p : Protocol) {w w' : W}
      → part.get w ≡ Memstore.new
      → init_identity lib (memory_store part order) jid id p w ≡ (ok tt, w')
      → (key : Slice) × (pair : SignedKeyPair) × (u : W) × Makes p w key pair
        × (part.get u ≡ named jid id key (signed_prekey_record lib 1 pair))
        × (generate_prekeys lib (memory_store part order) default_prekey_count u ≡ (ok tt, w'))
  unfolding init_identity memory_store Memstore.set_identity_key_pair Memstore.set_local_device
      Memstore.rotate_signed_prekey Memstore.new Memstore.demoted
  init_identity-named jid id p new h =
      let S = memory_store part order in
      let dev : Device = record { jid = jid; id = id } in
      let (key, w1, e1, h1) =
        wrapping-bind-eq-ok Context.generate_identity_key (Keys.generate_identity_key lib p) _ h in
      let s1 = after_aside (Keys.generate_identity_key lib p) (identity_key-aside p _) e1 ∙ new in
      let (u2, w2, e2, h2) =
        wrapping-bind-eq-ok Context.store_identity_key (S.set_identity_key_pair key) _ h1 in
      let s2 = after_method (Memstore.set_identity_key_pair key) s1 e2 in
      let (u3, w3, e3, h3) =
        wrapping-bind-eq-ok Context.store_local_device (S.set_local_device dev) _ h2 in
      let s3 = after_method (Memstore.set_local_device dev) s2 e3 in
      let (pair, w4, e4, h4) =
        wrapping-bind-eq-ok Context.generate_signed_prekey (Keys.generate_signed_prekey lib p key) _
          h3 in
      let s4 =
        after_aside (Keys.generate_signed_prekey lib p key) (signed_prekey-aside p key w3) e4
        ∙ s3 in
      let spk = signed_prekey_record lib 1 pair in
      let (u5, w5, e5, h5) =
        wrapping-bind-eq-ok Context.store_signed_prekey (S.rotate_signed_prekey spk) _ h4 in
      (
        key,
        pair,
        w5,
        ((w1, e1), (w3, w4, e4)),
        after_method (Memstore.rotate_signed_prekey spk) s4 e5,
        h5,
      )

  filled :
      (p : Protocol) (w : W) (jid : String) (id : ℕ) (key : Slice) (pair : SignedKeyPair)
      (new : List PreKeyRecord)
      → IsExtended 0 (0 + length new) [] (Memstore.put_all new []) (length new)
      → length new ≡ 100
      → Makes p w key pair
      → All (IsMade lib) new
      → IsFresh lib p w jid id (record (named jid id key (signed_prekey_record lib 1 pair)) {
        next_id = 0 + 100;
        prekeys = Memstore.put_all new [];
      })
  unfolding Memstore.new signed_prekey_record lookup
  filled p w jid id key pair new extended count (made_key, (w1, w2, made_pair)) made = record {
    identity = made_key;
    signed = (pair, w1, w2, made_pair, refl);
    made = put_all-All (IsMade lib) new [] made (λ k r h. cc h);
    local_device = refl;
    no_stale = refl;
    counter = refl;
    count = omega (arith, extended.grown, count);
    held = λ k low high. elim (extended.added k) [
      | inl le ↦ absurd (omega arith)
      | inr (inl above) ↦ absurd (omega (arith, count))
      | inr (inr there) ↦ there
    ];
    no_other = λ k above. elim (extended.below k) [
      | inl le ↦ absurd (omega (arith, count))
      | inr gone ↦ gone
    ];
    no_zero = elim (extended.kept 0) [ inl above ↦ absurd (omega arith) | inr same ↦ same ];
    no_session = refl;
    no_trust = refl;
    no_device_list = refl;
    no_remote_key = refl;
  }

  -- For a library whose generators leave the store alone: a successful `InitIdentity` on a new
  -- in-memory store leaves as identity key the one that the library makes in the world at the
  -- start; the device that it was given; as current signed prekey, with the id 1, what the library
  -- has made for that identity key, and no stale one; one hundred one-time prekeys, under the ids 1
  -- to 100, each with its own id and with halves that the library has made; the counter of ids at
  -- 100; and no session, trust decision, device list or identity key of another device.
  pub init_identity-IsFresh :
      (jid : String) (id : ℕ) (p : Protocol) {w w' : W}
      → part.get w ≡ Memstore.new
      → init_identity lib (memory_store part order) jid id p w ≡ (ok tt, w')
      → IsFresh lib p w jid id (part.get w')
  unfolding Memstore.new
  init_identity-IsFresh jid id p {w} new h =
      let (key, pair, u, makes, is_named, run) = init_identity-named jid id p new h in
      let is_top : (part.get u).next_id ≡ 0 = ap (λ (s : MemStore). s.next_id) is_named in
      let (recs, ids, count, made, is_state) =
        generate_prekeys-state lib part order aside.opk default_prekey_count
          (rw is_top (omega arith)) run in
      let extended =
        put_all-IsExtended recs 0 [] (λ k. inr (lookup-nil k))
          (subst (λ n. Consecutive n recs) is_top ids) in
      let is_end =
        is_state
        ∙ ap
            (λ (s : MemStore). record s {
              next_id = s.next_id + 100;
              prekeys = Memstore.put_all recs s.prekeys;
            })
            is_named in
      subst (IsFresh lib p w jid id) (sym is_end)
        (filled p w jid id key pair recs extended count makes made)
