-- ===== src/Tests/Starting.antt =====
-- A device's first start, the ids of its prekeys, and a message with two keys for one id.
use omemo_go.Base.{◌≡◌, ◌≢◌, ◌<◌, ◌+◌, refl, arith, some, none, [], ◌∷◌}
use omemo_go.Types.{Slice, v2, u32_mod, RecipientKey}
use omemo_go.Exec.{ok}
use omemo_go.Memstore
use omemo_go.Memstore.Ids.{nth_id, next_prekey_id-repeats}
use omemo_go.Manager.Incoming.{decrypt_message}
use omemo_go.Manager.Incoming.Shadowed.{decrypt_message-shadowed}
use omemo_go.Manager.Setup.{init_identity}
use omemo_go.Manager.Setup.Fresh.{IsFresh, IsAside, init_identity-IsFresh}
use omemo_go.Memstore.Interface.{memory_store}
use omemo_go.Manager.State.{Manager}
use omemo_go.Manager.Prekeys.{bundle}
use omemo_go.Manager.Prekeys.Published.{IsMatched, bundle-Serves}
use omemo_go.Manager.Incoming.Opened.{Serves}
use omemo_go.Tests.Toy.{World, mem_part, toy}
use omemo_go.Tests.World.{
  bob_bundle, bob_world-IsGood, see, manager, bob, alice_world, bob_world, runs,
}
use omemo_go.Tests.Sending.{hello_message, hello_key}

abbrev blank_world : World
blank_world = record alice_world { mem = Memstore.new }

toy-IsAside : IsAside toy mem_part
toy-IsAside = record {
  ed25519 = λ w. refl;
  x25519 = λ w. refl;
  spk = λ key w. refl;
  legacy_spk = λ key w. refl;
  opk = λ w. refl;
}

abbrev started : World
started = (init_identity toy (memory_store mem_part (λ recs. recs)) "alice" 1 v2 blank_world).1

start_run :
    init_identity toy (memory_store mem_part (λ recs. recs)) "alice" 1 v2 blank_world
    ≡ (ok tt, started)
unfolding runs
start_run = refl

init_identity-IsFresh_example : IsFresh toy v2 blank_world "alice" 1 started.mem
init_identity-IsFresh_example =
    init_identity-IsFresh toy mem_part (λ recs. recs) toy-IsAside "alice" 1 v2 refl start_run

next_prekey_id-repeats_example :
    (nth_id 0 Memstore.new ≢ nth_id 99 Memstore.new)
    × (nth_id 0 Memstore.new < u32_mod)
    × (nth_id 99 Memstore.new < u32_mod)
    × (nth_id (0 + u32_mod) Memstore.new ≡ nth_id 0 Memstore.new)
next_prekey_id-repeats_example =
    next_prekey_id-repeats 0 99 Memstore.new (omega arith) (omega arith)

-- A second key for the id 2, as a device of another account would have.
abbrev other_key : RecipientKey
other_key = record { device = 2; wrapped = some (1 ∷ []); key_exchange = none }

decrypt_message-shadowed_example :
    decrypt_message toy
      (manager v2 bob none)
      (record hello_message { keys = hello_key ∷ other_key ∷ [] })
      bob_world
    ≡ decrypt_message toy
        (manager v2 bob none)
        (record hello_message { keys = hello_key ∷ [] })
        bob_world
decrypt_message-shadowed_example =
    decrypt_message-shadowed toy (manager v2 bob none) hello_message hello_key other_key [] [] []
      bob_world refl

-- Bob's bundle, published from his store.
abbrev receiver : Manager World
receiver = manager v2 bob none

abbrev pub SameHalf : Slice → Slice → Type 0
SameHalf a b = a ≡ b

abbrev after_bundle : World
after_bundle = (bundle toy receiver bob_world).1

made : bundle toy receiver bob_world ≡ (ok bob_bundle, after_bundle)
unfolding runs
made = refl

bob_world-IsMatched : IsMatched SameHalf bob_world.mem
unfolding runs
bob_world-IsMatched = record { signed = refl; one_time = λ k r h. ground (arith, h) }

bundle-Serves_example : Serves toy SameHalf receiver.identity_key (see after_bundle) bob_bundle
bundle-Serves_example =
    bundle-Serves toy receiver mem_part (λ recs. recs) (λ l r a. a) SameHalf bob_world refl refl
      bob_world-IsGood bob_world-IsMatched made
