-- ===== src/Tests/Concurrency.antt =====
-- Goroutines on one manager, and the mutexes that a run gives back.
use omemo_go.Base.{ℕ, nat_eq, ◌≡◌, refl, none, some, [], ◌∷◌, Option}
use omemo_go.Types.{Slice, v2, Device, device_eq}
use omemo_go.Exec.{through}
use omemo_go.Memstore.Interface.{memory_store}
use omemo_go.Signal.Quiet.{IsQuietLibrary}
use omemo_go.Manager.Locks.{no_locks, device_lock, lock}
use omemo_go.Manager.Locks.Apart.{IsApart, Always}
use omemo_go.Manager.Locks.Balanced.{IsFree, encrypt_message-IsFree, decrypt_message-IsFree}
use omemo_go.Manager.Encrypt.{encrypt_message}
use omemo_go.Manager.Incoming.{find_key, decrypt_locked, decrypt_message}
use omemo_go.Manager.Outgoing.{encrypt_locked, encrypt_for_device}
use omemo_go.Manager.Concurrent.{Place, System, ask, enter, Steps, here, later, start, move}
use omemo_go.Manager.Concurrent.Guarded.{IsUnlocked, IsGuarded}
use omemo_go.Manager.Concurrent.Refines.{
  IsReset, encrypt_for_device-IsGuarded, decrypt_message-IsGuarded, reset_session-IsReset,
}
use omemo_go.Tests.Exchange.{sender, after_first, after_reset, reset_run, after_first-IsGood}
use omemo_go.Manager.Concurrent.Exclusion.{mutual_exclusion}
use omemo_go.Tests.Toy.{World, lock_part, toy, opened-Quiet}
use omemo_go.Tests.World.{
  see, IsGood, manager-IsSound, manager, alice, bob, alice_world, alice_world-IsGood, bob_world,
  bob_world-IsGood, runs,
}
use omemo_go.Tests.Sending.{hello, hello_message, hello_key}

abbrev empty : Device → Option Slice
empty dev = none

abbrev asked : ℕ → Device → System → System
asked i dev s =
    move i (Place.waiting dev (device_lock dev s.table).0)
      (record s { table = (device_lock dev s.table).1 })

abbrev entered : ℕ → Device → ℕ → System → System
entered i dev l s = move i (Place.inside dev l) (record s { table = lock l s.table })

-- Goroutine 0 is in the section of Bob's device.
abbrev fresh : System
fresh = start empty empty

abbrev first_asked : System
first_asked = asked 0 bob fresh

abbrev first_inside : System
first_inside = entered 0 bob 0 first_asked

to_first_asked : Steps fresh first_asked
to_first_asked = later here (ask 0 bob refl)

to_first_inside : Steps fresh first_inside
unfolding runs
to_first_inside = later to_first_asked (enter 0 refl refl)

first_holds : first_inside.places 0 ≡ Place.inside bob 0
unfolding runs
first_holds = refl

mutual_exclusion_example : ◌≡◌ {A = ℕ} 0 0
mutual_exclusion_example = mutual_exclusion empty empty to_first_inside 0 0 first_holds first_holds

toy-spares : IsQuietLibrary toy (λ w. w.table) Always
toy-spares = record {
  x25519_generate_key = record { at = λ w v. (v, refl) };
  ed25519_generate_key = record { at = λ w v. (v, refl) };
  create_new_spk = λ a. record { at = λ w v. (v, refl) };
  create_new_opk = record { at = λ w v. (v, refl) };
  create_initial_message = λ a b c d e. record { at = λ w v. (v, refl) };
  create_active = λ a b c. record { at = λ w v. (v, refl) };
  create_passive = λ a b c d. record { at = λ w v. (v, refl) };
  dr_encrypt = λ s k. record { at = λ w v. (v, refl) };
  dr_decrypt = opened-Quiet (λ w. w.table) Always (λ w v. v) (λ w. refl);
  legacy_create_new_spk = λ a. record { at = λ w v. (v, refl) };
  legacy_create_initial_message = λ a b c d e. record { at = λ w v. (v, refl) };
  legacy_new_active_session = λ a b x. record { at = λ w v. (v, refl) };
  legacy_new_passive_session = λ a b x. record { at = λ w v. (v, refl) };
  encrypt_prekey_whisper_message = λ s k e i j r. record { at = λ w v. (v, refl) };
  encrypt_whisper_message = λ s k. record { at = λ w v. (v, refl) };
  decrypt_whisper_message = λ s k. record { at = λ w v. (v, refl) };
  encrypt_payload = λ p. record { at = λ w v. (v, refl) };
  encrypt_payload_v1 = λ p. record { at = λ w v. (v, refl) };
}

manager-IsApart : (dev : Device) → IsApart toy (manager v2 dev none)
unfolding memory_store through
manager-IsApart dev = record {
  library = toy-spares;
  fetch_device_list = λ jid. record { at = λ w v. (v, refl) };
  fetch_bundle = λ d. record { at = λ w v. (v, refl) };
  resolver = λ r e. absurd (cc e);
  current_signed_prekey = record { at = λ w v. (v, refl) };
  stale_signed_prekey = record { at = λ w v. (v, refl) };
  consume_prekey = λ id. record { at = λ w v. (v, refl) };
  session = λ d. record { at = λ w v. (v, refl) };
  put_session = λ d blob. record { at = λ w v. (v, refl) };
  delete_session = λ d. record { at = λ w v. (v, refl) };
  trust = λ key. record { at = λ w v. (v, refl) };
  set_trust = λ key t. record { at = λ w v. (v, refl) };
  devices = λ jid. record { at = λ w v. (v, refl) };
  set_devices = λ jid ids. record { at = λ w v. (v, refl) };
  remote_identity_key = λ d. record { at = λ w v. (v, refl) };
  put_remote_identity_key = λ d key. record { at = λ w v. (v, refl) };
}

no_locks-IsFree : IsFree no_locks
no_locks-IsFree = record { none_held = refl; running = refl }

encrypt_message-IsFree_example :
    IsFree (World.table (encrypt_message toy (manager v2 alice none) "bob" hello alice_world).1)
encrypt_message-IsFree_example =
    encrypt_message-IsFree toy (manager v2 alice none) (manager-IsApart alice) "bob" hello
      alice_world no_locks-IsFree

decrypt_message-IsFree_example :
    IsFree (World.table (decrypt_message toy (manager v2 bob none) hello_message bob_world).1)
decrypt_message-IsFree_example =
    decrypt_message-IsFree toy (manager v2 bob none) (manager-IsApart bob) hello_message bob_world
      no_locks-IsFree

-- Goroutine 0 of Alice's manager resets the session with Bob's device.
abbrev all_outside : ℕ → Place
all_outside i = Place.outside

bob_free : IsUnlocked bob (lock_part.get after_first)
unfolding runs
bob_free = refl

reset_session-IsReset_example :
    IsReset toy sender see IsGood
      (manager-IsSound v2 alice)
      (manager-IsApart alice)
      0
      all_outside
      refl
      bob
      after_first
      after_reset
reset_session-IsReset_example =
    reset_session-IsReset toy sender see IsGood (manager-IsSound v2 alice) (manager-IsApart alice) 0
      all_outside refl bob after_first bob_free after_first-IsGood reset_run

free_at_first : IsUnlocked bob (lock_part.get alice_world)
unfolding runs
free_at_first = refl

encrypt_for_device-IsGuarded_example :
    let (r, w') = encrypt_for_device toy (manager v2 alice none) bob (some (30 ∷ [])) alice_world in
    IsGuarded
      (manager v2 alice none)
      see
      0
      bob
      (encrypt_locked toy (manager v2 alice none) bob (some (30 ∷ [])))
      all_outside
      alice_world
      r
      w'
encrypt_for_device-IsGuarded_example =
    encrypt_for_device-IsGuarded toy (manager v2 alice none) see IsGood (manager-IsSound v2 alice)
      (manager-IsApart alice) 0 all_outside refl bob (some (30 ∷ [])) alice_world free_at_first
      alice_world-IsGood

has_key : find_key (Device.id bob) hello_message.keys ≡ some hello_key
unfolding runs
has_key = refl

free_for_alice : IsUnlocked alice (lock_part.get bob_world)
unfolding runs
free_for_alice = refl

decrypt_message-IsGuarded_example :
    let (r, w') = decrypt_message toy (manager v2 bob none) hello_message bob_world in
    IsGuarded
      (manager v2 bob none)
      see
      0
      alice
      (decrypt_locked toy (manager v2 bob none) hello_message hello_key)
      all_outside
      bob_world
      r
      w'
decrypt_message-IsGuarded_example =
    decrypt_message-IsGuarded toy (manager v2 bob none) see IsGood (manager-IsSound v2 bob)
      (manager-IsApart bob) 0 all_outside refl hello_message bob_world has_key free_for_alice
      bob_world-IsGood
