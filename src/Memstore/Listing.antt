-- ===== src/Memstore/Listing.antt =====
-- The pool of one-time prekeys of the in-memory store, listed and counted.
use omemo_go.Base.{
  ℕ, suc, ◌≡◌, refl, ◌∙◌, ap, ◌⊎◌, inl, inr, arith, some, List, [], ◌∷◌, map, length, ◌==◌, nat_eq,
  Bool-cases,
}
use omemo_go.Base.GoMap.{GoMap, NodupKeys, lookup}
use omemo_go.Types.{PreKeyRecord}
use omemo_go.Exec.{ok}
use omemo_go.Memstore.{MemStore, entry_value, prekeys, prekey_count}
use omemo_go.Memstore.Validity.{IsValid}

abbrev pub Among : PreKeyRecord → List PreKeyRecord → Type 0
Among r [] = ⊥
Among r (x ∷ l) = (x ≡ r) ⊎ Among r l

-- What the map lists is in the map.
pub listed-lookup :
    (r : PreKeyRecord) (m : GoMap ℕ PreKeyRecord)
    → NodupKeys m
    → Among r (map entry_value m)
    → (k : ℕ) × (lookup k m ≡ some r)
unfolding lookup
listed-lookup r [] u a = absurd a
listed-lookup r (x ∷ m) u (inl e) = (x.0, ground (arith, e))
listed-lookup r (x ∷ m) u (inr a) =
    let (k, found) = listed-lookup r m u.1 a in (k, ground (arith, found, u.0))

-- What is in the map is listed.
lookup-listed :
    (k : ℕ) (r : PreKeyRecord) (m : GoMap ℕ PreKeyRecord)
    → lookup k m ≡ some r
    → Among r (map entry_value m)
unfolding lookup
lookup-listed k r [] h = cc
lookup-listed k r (x ∷ m) h = elim (Bool-cases (k == x.0)) [
  | inl same ↦ inl (ground (arith, same, h))
  | inr other ↦ inr (lookup-listed k r m (rw other at h))
]

length-values : (m : GoMap ℕ PreKeyRecord) → length (map entry_value m) ≡ length m
length-values [] = refl
length-values (x ∷ m) = ap suc (length-values m)

-- The list has exactly the prekeys of the store, and is as long as the count.
pub record IsListing (s : MemStore) (recs : List PreKeyRecord) (n : ℕ) : Type 0 where
  pub counted : length recs ≡ n
  pub held : (r : PreKeyRecord) → Among r recs → lookup r.id s.prekeys ≡ some r
  pub complete : (k : ℕ) (r : PreKeyRecord) → lookup k s.prekeys ≡ some r → Among r recs

module _ (order : List PreKeyRecord → List PreKeyRecord)
    (forth : (l : List PreKeyRecord) (r : PreKeyRecord) → Among r (order l) → Among r l)
    (back : (l : List PreKeyRecord) (r : PreKeyRecord) → Among r l → Among r (order l))
    (as_long : (l : List PreKeyRecord) → length (order l) ≡ length l) where
  -- In a well-formed in-memory store, for an order of the listing that loses, adds and repeats no
  -- record: `PreKeys` returns a list of exactly the prekeys that the store holds, each under its
  -- own id, `PreKeyCount` returns its length, and both leave the store as it is.
  pub prekeys-IsListing :
      (s : MemStore)
      → IsValid s
      → (recs : List PreKeyRecord) × (n : ℕ) × (prekeys order s ≡ (ok recs, s))
        × (prekey_count s ≡ (ok n, s))
        × IsListing s recs n
  unfolding prekeys prekey_count
  prekeys-IsListing s v =
      let listed = map entry_value s.prekeys in
      (
        order listed,
        length s.prekeys,
        refl,
        refl,
        record {
          counted = as_long listed ∙ length-values s.prekeys;
          held = λ r among.
              let (k, found) = listed-lookup r s.prekeys v.prekeys (forth listed r among) in
              ap (λ j. lookup j s.prekeys) (v.keyed k r found) ∙ found;
          complete = λ k r found. back listed r (lookup-listed k r s.prekeys found);
        },
      )
