-- ===== src/Tests/World.antt =====
-- A transport, managers and two stores for the tests.
use omemo_go.Base.{
  ℕ, zero, suc, ◌+◌, String, ◌≡◌, refl, ap, sym, Option, none, some, List, [], ◌∷◌, ◌++◌, length,
  drop, string_eq,
}
use omemo_go.Base.GoMap.{GoMap, lookup, insert}
use omemo_go.Types.{
  Bytes, Slice, content, Device, device_eq, Bundle, DeviceList, Protocol, TrustState,
}
use omemo_go.Errors.{Error, external}
use omemo_go.Exec.{⊤, Result, ok, err, Exec, raise, Lens, through}
use omemo_go.Store.{Transport, TrustResolver}
use omemo_go.Store.View.{View}
use omemo_go.Memstore
use omemo_go.Memstore.{MemStore}
use omemo_go.Memstore.Validity.{single-IsKeyed}
use omemo_go.Memstore.Interface.{memory_store}
use omemo_go.Memstore.Refines.{world_view, WorldIsValid, memory_store-IsLawful}
use omemo_go.Signal.Quiet.{IsQuietLibrary}
use omemo_go.Manager.Locks.{LockTable, no_locks}
use omemo_go.Manager.State.{Manager}
use omemo_go.Manager.Sound.{IsSound}
use omemo_go.Tests.Toy.{World, mem_part, lock_part, replicate, or_external, opened-Quiet, toy}

abbrev listed : String → Option (List ℕ) → Result DeviceList
listed jid none = err (external 3)
listed jid (some ids) = ok (record { jid = jid; devices = ids })

-- The transport serves what the world holds and forgets what is published.
abbrev pub served : Transport World
served = record {
  fetch_device_list = λ jid w. (listed jid (lookup jid w.lists), w);
  publish_device_list = λ list w. (ok tt, w);
  fetch_bundle = λ dev w. (or_external (lookup dev w.bundles), w);
  publish_bundle = λ b w. (ok tt, w);
}

abbrev pub alice : Device
alice = record { jid = "alice"; id = 1 }

abbrev pub bob : Device
bob = record { jid = "bob"; id = 2 }

abbrev pub manager : Protocol → Device → Option (TrustResolver World) → Manager World
manager p dev resolver = record {
  store = memory_store mem_part (λ recs. recs);
  transport = served;
  protocol = p;
  identity_key = some (replicate 64 dev.id);
  local_device = dev;
  trust_resolver = resolver;
  locks = lock_part;
}

abbrev pub see : World → View
see = world_view mem_part

abbrev pub IsGood : World → Type 0
IsGood = WorldIsValid mem_part

pub toy-IsQuiet : IsQuietLibrary toy see IsGood
toy-IsQuiet = record {
  x25519_generate_key = record { at = λ w v. (v, refl) };
  ed25519_generate_key = record { at = λ w v. (v, refl) };
  create_new_spk = λ a. record { at = λ w v. (v, refl) };
  create_new_opk = record { at = λ w v. (v, refl) };
  create_initial_message = λ a b c d e. record { at = λ w v. (v, refl) };
  create_active = λ a b c. record { at = λ w v. (v, refl) };
  create_passive = λ a b c d. record { at = λ w v. (v, refl) };
  dr_encrypt = λ s k. record { at = λ w v. (v, refl) };
  dr_decrypt = opened-Quiet see IsGood (λ w v. v) (λ w. refl);
  legacy_create_new_spk = λ a. record { at = λ w v. (v, refl) };
  legacy_create_initial_message = λ a b c d e. record { at = λ w v. (v, refl) };
  legacy_new_active_session = λ a b x. record { at = λ w v. (v, refl) };
  legacy_new_passive_session = λ a b x. record { at = λ w v. (v, refl) };
  encrypt_prekey_whisper_message = λ s k e i j r. record { at = λ w v. (v, refl) };
  encrypt_whisper_message = λ s k. record { at = λ w v. (v, refl) };
  decrypt_whisper_message = λ s k. record { at = λ w v. (v, refl) };
  encrypt_payload = λ p. record { at = λ w v. (v, refl) };
  encrypt_payload_v1 = λ p. record { at = λ w v. (v, refl) };
}

-- The hypotheses of the theorems hold in this world, for a manager without a resolver.
pub manager-IsSound : (p : Protocol) (dev : Device) → IsSound toy (manager p dev none) see IsGood
manager-IsSound p dev = record {
  lawful = memory_store-IsLawful mem_part (λ recs. recs);
  library = toy-IsQuiet;
  fetch_device_list = λ jid. record { at = λ w v. (v, refl) };
  fetch_bundle = λ d. record { at = λ w v. (v, refl) };
  publish_bundle = λ b. record { at = λ w v. (v, refl) };
  resolver = λ r e. absurd (cc e);
  locks = λ t w v. (v, refl);
}

-- Bob's store: a signed prekey, and one one-time prekey under the id 5.
abbrev pub bob_world : World
bob_world = record {
  mem = record Memstore.new {
    identity_key = some (replicate 64 2);
    local_device = bob;
    current_spk = record {
      id = 1;
      public = some (7 ∷ []);
      private = some (7 ∷ []);
      signature = none;
    };
    prekeys = (5, record { id = 5; public = some (9 ∷ []); private = some (9 ∷ []) }) ∷ [];
  };
  table = no_locks;
  seed = 50;
  bundles = [];
  lists = [];
}

abbrev pub bob_bundle : Bundle
bob_bundle = record {
  device = bob;
  identity_key = some (replicate 32 2);
  signed_prekey = record { id = 1; public = some (7 ∷ []); signature = none };
  prekeys = (record { id = 5; public = some (9 ∷ []) }) ∷ [];
}

-- Alice knows of Bob's device 2 and of a device 3 that has no bundle; Bob's key is trusted.
abbrev pub alice_world : World
alice_world = record {
  mem = record Memstore.new {
    identity_key = some (replicate 64 1);
    local_device = alice;
    trust = (replicate 32 2, TrustState.trusted) ∷ [];
  };
  table = no_locks;
  seed = 30;
  bundles = (bob, bob_bundle) ∷ [];
  lists = ("bob", 2 ∷ 3 ∷ []) ∷ ("alice", 1 ∷ []) ∷ [];
}

-- What a run by computation has to see through: a test unfolds this name.
unfoldable pub runs : Unit {0}
unfolding native.Mathlib.Decide.ℕ_discrete omemo_go.Base.GoMap.erase omemo_go.Base.GoMap.insert
    omemo_go.Base.GoMap.lookup omemo_go.Base.bytes_dec omemo_go.Base.bytes_eq omemo_go.Base.nat_eq
    omemo_go.Base.string_dec omemo_go.Base.string_eq omemo_go.Errors.Text.decimal
    omemo_go.Errors.Text.digits_before omemo_go.Errors.Text.error_text omemo_go.Errors.is
    omemo_go.Errors.sentinel_dec omemo_go.Errors.sentinel_eq omemo_go.Exec.through
    omemo_go.Manager.Devices.add_own_devices omemo_go.Manager.Devices.device_of
    omemo_go.Manager.Devices.devices_for omemo_go.Manager.Devices.known_devices
    omemo_go.Manager.Devices.recipient_devices omemo_go.Manager.Devices.sync_devices
    omemo_go.Manager.Devices.with_own_devices omemo_go.Manager.Encrypt.after_devices
    omemo_go.Manager.Encrypt.after_payload omemo_go.Manager.Encrypt.encrypt
    omemo_go.Manager.Encrypt.encrypt_each omemo_go.Manager.Encrypt.encrypt_key_transport
    omemo_go.Manager.Encrypt.encrypt_message omemo_go.Manager.Encrypt.encrypt_round
    omemo_go.Manager.Encrypt.encrypt_to omemo_go.Manager.Encrypt.envelope
    omemo_go.Manager.Encrypt.failed omemo_go.Manager.Encrypt.finish
    omemo_go.Manager.Encrypt.tally_result omemo_go.Manager.Incoming.decrypt_locked
    omemo_go.Manager.Incoming.decrypt_message omemo_go.Manager.Incoming.decrypt_with
    omemo_go.Manager.Incoming.find_key omemo_go.Manager.Incoming.get_or_create_session_for_incoming
    omemo_go.Manager.Incoming.open_payload omemo_go.Manager.Incoming.session_for_exchange
    omemo_go.Manager.Incoming.session_for_key omemo_go.Manager.Incoming.session_from_blob
    omemo_go.Manager.Incoming.session_from_exchange omemo_go.Manager.Incoming.session_from_store
    omemo_go.Manager.Incoming.signed_prekey_by_id omemo_go.Manager.Incoming.stale_by_id
    omemo_go.Manager.Locks.device_lock omemo_go.Manager.Locks.found_lock
    omemo_go.Manager.Locks.holds omemo_go.Manager.Locks.lock omemo_go.Manager.Locks.released
    omemo_go.Manager.Locks.unlock omemo_go.Manager.Outgoing.create_active_session
    omemo_go.Manager.Outgoing.encrypt_for_device omemo_go.Manager.Outgoing.encrypt_locked
    omemo_go.Manager.Outgoing.first_prekey omemo_go.Manager.Outgoing.get_or_create_active_session
    omemo_go.Manager.Outgoing.known_key omemo_go.Manager.Outgoing.peer_of
    omemo_go.Manager.Outgoing.put_session omemo_go.Manager.Outgoing.reset_session
    omemo_go.Manager.Outgoing.stored_or_new omemo_go.Manager.Prekeys.bundle
    omemo_go.Manager.Prekeys.generate_one_time_prekeys omemo_go.Manager.Prekeys.generate_prekeys
    omemo_go.Manager.Prekeys.generate_records omemo_go.Manager.Prekeys.needs_more_prekeys
    omemo_go.Manager.Prekeys.next_signed_prekey_id omemo_go.Manager.Prekeys.public_prekey
    omemo_go.Manager.Prekeys.public_signed_prekey omemo_go.Manager.Prekeys.publish_bundle
    omemo_go.Manager.Prekeys.rotate_signed_prekey omemo_go.Manager.Prekeys.signed_prekey_record
    omemo_go.Manager.Setup.init_identity omemo_go.Manager.Setup.new_manager
    omemo_go.Manager.State.local_device omemo_go.Manager.State.with_device_lock
    omemo_go.Manager.State.with_trust_resolver omemo_go.Manager.Trust.check_trust
    omemo_go.Manager.Trust.consult omemo_go.Manager.Trust.decide_trust
    omemo_go.Memstore.Ids.after_calls omemo_go.Memstore.Interface.memory_store
    omemo_go.Memstore.consume_found omemo_go.Memstore.consume_prekey
    omemo_go.Memstore.current_signed_prekey omemo_go.Memstore.delete_session
    omemo_go.Memstore.demoted omemo_go.Memstore.devices omemo_go.Memstore.identity_key_pair
    omemo_go.Memstore.local_device omemo_go.Memstore.new omemo_go.Memstore.next_prekey_id
    omemo_go.Memstore.prekey_count omemo_go.Memstore.prekeys omemo_go.Memstore.put_all
    omemo_go.Memstore.put_prekeys omemo_go.Memstore.put_remote_identity_key
    omemo_go.Memstore.put_session omemo_go.Memstore.remote_identity_key
    omemo_go.Memstore.rotate_signed_prekey omemo_go.Memstore.session omemo_go.Memstore.set_devices
    omemo_go.Memstore.set_identity_key_pair omemo_go.Memstore.set_local_device
    omemo_go.Memstore.set_trust omemo_go.Memstore.stale_signed_prekey omemo_go.Memstore.trust
    omemo_go.Signal.Keys.generate_identity_key omemo_go.Signal.Keys.generate_one_time_prekey
    omemo_go.Signal.Keys.generate_signed_prekey omemo_go.Signal.Keys.identity_public_key
    omemo_go.Signal.Payload.decrypt_payload omemo_go.Signal.Payload.encrypt_payload
    omemo_go.Signal.Session.decrypt omemo_go.Signal.Session.encrypt
    omemo_go.Signal.Session.load_session omemo_go.Signal.Session.marshal
    omemo_go.Signal.Session.new_active_session omemo_go.Signal.Session.new_passive_session
    omemo_go.Signal.Session.new_passive_session_from_prekey_blob
    omemo_go.Signal.Session.peek_legacy_prekey_ids omemo_go.Types.device_dec
    omemo_go.Types.device_eq
runs = tt

pub alice_world-IsGood : IsGood alice_world
unfolding runs
alice_world-IsGood = record {
  prekeys = tt;
  keyed = λ k r h. cc;
  sessions = tt;
  trust = (refl, tt);
  devices = tt;
  remote_id = tt;
}

pub bob_world-IsGood : IsGood bob_world
unfolding runs
bob_world-IsGood = record {
  prekeys = (refl, tt);
  keyed = single-IsKeyed _;
  sessions = tt;
  trust = tt;
  devices = tt;
  remote_id = tt;
}
