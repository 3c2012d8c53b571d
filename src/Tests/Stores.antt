-- ===== src/Tests/Stores.antt =====
-- The in-memory store, its pool of prekeys, and the serialised session.
use omemo_go.Base.{ℕ, ◌+◌, ◌<◌, ◌≡◌, refl, false, arith, inr, none, some, List, [], ◌∷◌}
use omemo_go.Types.{PreKeyRecord, u32_mod, v1}
use omemo_go.Errors.{one_time_prekey_missing, Sentinel, is}
use omemo_go.Exec.{ok, err}
use omemo_go.Store.Contract.{IsLawful}
use omemo_go.Memstore.{MemStore, consume_prekey, prekeys, prekey_count}
use omemo_go.Memstore.Listing.{IsListing, prekeys-IsListing}
use omemo_go.Memstore.Interface.{memory_store}
use omemo_go.Memstore.Refines.{memory_store-IsLawful}
use omemo_go.Memstore.Pool.{
  HandedOut, IsBelow, IsExtended, consume_prekey-HandedOut, consume_prekey-no_sentinel,
}
use omemo_go.Signal.Session as Signal
use omemo_go.Signal.Session.{Session, v1_session, LegacyPendingPreKey}
use omemo_go.Signal.Roundtrip.{encrypt-marshal-load_session}
use omemo_go.Manager.Prekeys.{generate_prekeys}
use omemo_go.Manager.Prekeys.Generation.{generate_prekeys-IsExtended}
use omemo_go.Tests.Toy.{World, toy, mem_part, toy-ReadsBack}
use omemo_go.Tests.World.{see, IsGood, alice_world, bob_world, bob_world-IsGood, runs}

memory_store-IsLawful_example : IsLawful see IsGood (memory_store mem_part (λ recs. recs))
memory_store-IsLawful_example = memory_store-IsLawful mem_part (λ recs. recs)

abbrev ninth : PreKeyRecord
ninth = record { id = 5; public = some (9 ∷ []); private = some (9 ∷ []) }

abbrev bob_drained : MemStore
bob_drained = record bob_world.mem { prekeys = [] }

consumed : consume_prekey 5 bob_world.mem ≡ (ok ninth, bob_drained)
unfolding runs
consumed = refl

consume_prekey-HandedOut_example : HandedOut 5 bob_world.mem ninth bob_drained
consume_prekey-HandedOut_example =
    consume_prekey-HandedOut 5 bob_world.mem bob_world-IsGood consumed

refused : consume_prekey 6 bob_world.mem ≡ (err (one_time_prekey_missing 6), bob_world.mem)
unfolding runs
refused = refl

consume_prekey-no_sentinel_example :
    is (one_time_prekey_missing 6) Sentinel.prekey_not_found ≡ false
consume_prekey-no_sentinel_example =
    consume_prekey-no_sentinel 6 bob_world.mem Sentinel.prekey_not_found refused

abbrev after_generation : World
after_generation = (generate_prekeys toy (memory_store mem_part (λ recs. recs)) 3 alice_world).1

generated :
    generate_prekeys toy (memory_store mem_part (λ recs. recs)) 3 alice_world
    ≡ (ok tt, after_generation)
unfolding runs
generated = refl

alice_world-IsBelow : IsBelow alice_world.mem.next_id alice_world.mem.prekeys
unfolding runs
alice_world-IsBelow k = inr refl

small : alice_world.mem.next_id + 3 < u32_mod
unfolding runs
small = omega arith

generate_prekeys-IsExtended_example :
    (after_generation.mem.next_id ≡ alice_world.mem.next_id + 3)
    × IsExtended alice_world.mem.next_id after_generation.mem.next_id alice_world.mem.prekeys
        after_generation.mem.prekeys 3
generate_prekeys-IsExtended_example =
    generate_prekeys-IsExtended toy mem_part (λ recs. recs) (λ w. refl) 3 small alice_world-IsBelow
      generated

abbrev fresh_session : Session (List ℕ) (List ℕ)
fresh_session = v1_session (1 ∷ 2 ∷ []) (
    some (record {
      ephemeral_key = some (3 ∷ []);
      prekey_id = 4;
      signed_prekey_id = 5;
      registration_id = 6;
    }))

abbrev after_first : World
after_first = (Signal.encrypt toy fresh_session (some (8 ∷ [])) alice_world).1

first_whisper :
    Signal.encrypt toy fresh_session (some (8 ∷ [])) alice_world
    ≡ (ok (some (5 ∷ 4 ∷ 1 ∷ 2 ∷ 8 ∷ []), v1_session (1 ∷ 2 ∷ []) none), after_first)
unfolding runs
first_whisper = refl

written : Signal.marshal toy (v1_session (1 ∷ 2 ∷ []) none) ≡ ok (some (1 ∷ 2 ∷ []))
unfolding runs
written = refl

encrypt-marshal-load_session_example :
    Signal.load_session toy v1 (some (1 ∷ 2 ∷ [])) ≡ ok (v1_session (1 ∷ 2 ∷ []) none)
encrypt-marshal-load_session_example =
    encrypt-marshal-load_session toy v1 fresh_session (some (8 ∷ [])) alice_world toy-ReadsBack tt
      first_whisper written

prekeys-IsListing_example :
    (recs : List PreKeyRecord) × (n : ℕ) × (prekeys (λ l. l) bob_world.mem
      ≡ (ok recs, bob_world.mem))
    × (prekey_count bob_world.mem ≡ (ok n, bob_world.mem))
    × IsListing bob_world.mem recs n
prekeys-IsListing_example =
    prekeys-IsListing (λ l. l) (λ l r a. a) (λ l r a. a) (λ l. refl) bob_world.mem bob_world-IsGood
