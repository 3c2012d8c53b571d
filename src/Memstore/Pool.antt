-- ===== src/Memstore/Pool.antt =====
-- The pool of one-time prekeys of the in-memory store: consumption, and the insertion of records under
-- fresh ids.
use omemo_go.Base.{
  ℕ, suc, ◌+◌, ◌≤◌, ◌<◌, ◌≡◌, refl, sym, ◌∙◌, ap, subst, ◌≢◌, ◌⊎◌, false, arith, Option, none, some,
  List, [], ◌∷◌, length, ◌==◌, nat_eq, if◌then◌else◌, inl, inr,
}
use omemo_go.Base.GoMap.{
  GoMap, lookup, insert, erase, lookup-insert, lookup-erase, length-insert_new,
}
use native.Mathlib.Decide.{dec_le, dec_lt}
use omemo_go.Types.{PreKeyRecord}
use omemo_go.Errors.{Error, one_time_prekey_missing, Sentinel, is, sentinel_eq}
use omemo_go.Exec.{Result, ok, err}
use omemo_go.Exec.Steps.{ok-eq-ok}
use omemo_go.Memstore.{MemStore, consume_found, consume_prekey, put_all}
use omemo_go.Memstore.Validity.{IsValid}

-- One entry less.
length-erase :
    (id : ℕ) (pool : GoMap ℕ PreKeyRecord)
    → lookup id pool ≢ none
    → length (erase id pool) + 1 ≡ length pool
unfolding lookup erase
length-erase id [] h = absurd (h refl)
length-erase id (x ∷ pool) h = ground (arith, length-erase id pool)

consume_prekey-missing :
    (id : ℕ) (s : MemStore)
    → lookup id s.prekeys ≡ none
    → consume_prekey id s ≡ (err (one_time_prekey_missing id), s)
unfolding consume_prekey consume_found
consume_prekey-missing id s e = ap (λ o. consume_found id o s) e

-- The state after a successful consumption, and the record.
consume_prekey-eq-ok :
    (id : ℕ) (s : MemStore) (o : Option PreKeyRecord) {r : PreKeyRecord} {s' : MemStore}
    → lookup id s.prekeys ≡ o
    → consume_prekey id s ≡ (ok r, s')
    → (lookup id s.prekeys ≡ some r) × (s' ≡ record s { prekeys = erase id s.prekeys })
unfolding consume_prekey consume_found
consume_prekey-eq-ok id s none e h =
    cc (
      ap (λ (p : Result PreKeyRecord × MemStore). p.0) (sym (ap (λ o. consume_found id o s) e) ∙ h))
consume_prekey-eq-ok id s (some q) e h =
    let (same, is_end) = ok-eq-ok (sym (ap (λ o. consume_found id o s) e) ∙ h) in
    (e ∙ ap some same, sym is_end)

abbrev pub HandedOut : ℕ → MemStore → PreKeyRecord → MemStore → Type 0
HandedOut id s r s' =
    (r.id ≡ id)
    × (consume_prekey id s' ≡ (err (one_time_prekey_missing id), s'))
    × ((j : ℕ) → lookup j s'.prekeys ≡ (if j == id then none else lookup j s.prekeys))
    × (length s'.prekeys + 1 ≡ length s.prekeys)

-- In a well-formed in-memory store, when `ConsumePreKey` returns a record: the record has the id,
-- the same call then fails and changes nothing, every other prekey is as it was, and the pool has
-- one entry less.
pub consume_prekey-HandedOut :
    (id : ℕ) (s : MemStore) {r : PreKeyRecord} {s' : MemStore}
    → IsValid s
    → consume_prekey id s ≡ (ok r, s')
    → HandedOut id s r s'
consume_prekey-HandedOut id s {r} v h =
    let (found, is_end) = consume_prekey-eq-ok id s (lookup id s.prekeys) refl h in
    let after : MemStore = record s { prekeys = erase id s.prekeys } in
    subst (HandedOut id s r) (sym is_end) (
      v.keyed id r found,
      consume_prekey-missing id after (lookup-erase id id s.prekeys v.prekeys ∙ ground arith),
      λ j. lookup-erase j id s.prekeys v.prekeys,
      length-erase id s.prekeys (λ e. cc (sym found ∙ e)),
    )

error_of : Result PreKeyRecord → Error
error_of (ok r) = one_time_prekey_missing 0
error_of (err e) = e

found-no_sentinel :
    (id : ℕ) (o : Option PreKeyRecord) (s : MemStore) (t : Sentinel) {e : Error} {s' : MemStore}
    → consume_found id o s ≡ (err e, s')
    → is e t ≡ false
unfolding consume_found is error_of
found-no_sentinel id none s t h =
    ap (λ (p : Result PreKeyRecord × MemStore). is (error_of p.0) t) (sym h)
found-no_sentinel id (some r) s t h = cc (ap (λ (p : Result PreKeyRecord × MemStore). p.0) h)

-- When `ConsumePreKey` of the in-memory store returns an error, `errors.Is` finds none of the
-- sentinel errors in it, `ErrPreKeyNotFound` included.
pub consume_prekey-no_sentinel :
    (id : ℕ) (s : MemStore) (t : Sentinel) {e : Error} {s' : MemStore}
    → consume_prekey id s ≡ (err e, s')
    → is e t ≡ false
unfolding consume_prekey
consume_prekey-no_sentinel id s t h = found-no_sentinel id (lookup id s.prekeys) s t h

-- No key above `n`.
abbrev pub IsBelow : ℕ → GoMap ℕ PreKeyRecord → Type 0
IsBelow n pool = (k : ℕ) → (k ≤ n) ⊎ (lookup k pool ≡ none)

-- Records with the ids that follow `n`.
abbrev pub Consecutive : ℕ → List PreKeyRecord → Type 0
Consecutive n [] = Unit
Consecutive n (r ∷ recs) = (r.id ≡ n + 1) × Consecutive (n + 1) recs

-- A pool with `count` records more, one under each id above `n` and up to `top`; what it had is
-- untouched, and all ids are up to `top`.
pub record IsExtended (n top : ℕ) (pool pool' : GoMap ℕ PreKeyRecord) (count : ℕ) : Type 0 where
  pub grown : length pool' ≡ length pool + count
  pub kept : (k : ℕ) → (n < k) ⊎ (lookup k pool' ≡ lookup k pool)
  pub added : (k : ℕ) → (k ≤ n) ⊎ ((top < k) ⊎ (lookup k pool' ≢ none))
  pub below : IsBelow top pool'

insert-IsBelow :
    (n : ℕ) (r : PreKeyRecord) (pool : GoMap ℕ PreKeyRecord)
    → IsBelow n pool
    → r.id ≡ n + 1
    → IsBelow (n + 1) (insert r.id r pool)
insert-IsBelow n r pool b e k = elim (b k) [
  | inl h ↦ inl (omega arith)
  | inr h ↦ elim (dec_le k (n + 1)) [
    | yes le ↦ inl le
    | no above ↦ inr (lookup-insert k r.id r pool ∙ ground arith)
  ]
]

insert-kept :
    (n : ℕ) (r : PreKeyRecord) (pool : GoMap ℕ PreKeyRecord) (k : ℕ)
    → r.id ≡ n + 1
    → (n < k) ⊎ (lookup k (insert r.id r pool) ≡ lookup k pool)
insert-kept n r pool k e = elim (dec_lt n k) [
  | yes above ↦ inl above
  | no below ↦ inr (lookup-insert k r.id r pool ∙ ground arith)
]

either_kept :
    {n k : ℕ} {a b c : Option PreKeyRecord}
    → (n < k) ⊎ (b ≡ a)
    → (n + 1 < k) ⊎ (c ≡ b)
    → (n < k) ⊎ (c ≡ a)
either_kept (inl h) q = inl h
either_kept (inr e) (inl h) = inl (omega arith)
either_kept (inr e) (inr f) = inr (f ∙ e)

absent_above : {n k : ℕ} {o : Option PreKeyRecord} → (k ≤ n) ⊎ (o ≡ none) → n < k → o ≡ none
absent_above (inl le) h = absurd (omega arith)
absent_above (inr e) h = e

-- A record under the next id is there after the others are stored too.
next_added :
    {n k top : ℕ} {o : Option PreKeyRecord} {a : Option PreKeyRecord} {r : PreKeyRecord}
    → (k ≡ n + 1 → a ≡ some r)
    → (n + 1 < k) ⊎ (o ≡ a)
    → (k ≤ n + 1) ⊎ ((top < k) ⊎ (o ≢ none))
    → (k ≤ n) ⊎ ((top < k) ⊎ (o ≢ none))
next_added first kept (inr q) = inr q
next_added {n} {k} first (inl above) (inl le) = absurd (omega arith)
next_added {n} {k} first (inr same) (inl le) = elim (dec_le k n) [
  | yes low ↦ inl low
  | no high ↦ inr (inr (λ e. let f = first (omega arith) in cc (sym f ∙ (sym same ∙ e))))
]

-- Storing records with fresh ids extends the pool.
pub put_all-IsExtended :
    (recs : List PreKeyRecord) (n : ℕ) (pool : GoMap ℕ PreKeyRecord)
    → IsBelow n pool
    → Consecutive n recs
    → IsExtended n (n + length recs) pool (put_all recs pool) (length recs)
unfolding put_all
put_all-IsExtended [] n pool b c = record {
  grown = omega arith;
  kept = λ k. inr refl;
  added = λ k. elim (dec_le k n) [ yes le ↦ inl le | no above ↦ inr (inl (omega arith)) ];
  below = λ k. elim (b k) [ inl le ↦ inl (omega arith) | inr e ↦ inr e ];
}
put_all-IsExtended (r ∷ recs) n pool b (e, c) =
    let rest =
      put_all-IsExtended recs (n + 1) (insert r.id r pool) (insert-IsBelow n r pool b e) c in
    let is_top : n + 1 + length recs ≡ n + suc (length recs) = omega arith in
    record {
      grown =
          omega (
            arith,
            rest.grown,
            length-insert_new r.id r pool (absent_above (b r.id) (omega arith)),
          );
      kept = λ k. either_kept (insert-kept n r pool k e) (rest.kept k);
      added = λ k.
          subst (λ t. (k ≤ n) ⊎ ((t < k) ⊎ (lookup k (put_all recs (insert r.id r pool)) ≢ none)))
            is_top
            (next_added {r = r} (λ is. lookup-insert k r.id r pool ∙ ground arith) (rest.kept k)
              (rest.added k));
      below = subst (λ t. IsBelow t (put_all recs (insert r.id r pool))) is_top rest.below;
    }
