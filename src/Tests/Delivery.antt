-- ===== src/Tests/Delivery.antt =====
-- Bob's device reads the first message that Alice's has made for it.
use omemo_go.Base.{
  ◌≡◌, refl, ap, subst, Option, if◌then◌else◌, ◌==◌, Bool-cases, inl, inr, none, some, nat_eq,
  arith, All, List, [], ◌∷◌,
}
use omemo_go.Types.{
  Bytes, v2, Device, device_eq, Bundle, PreKey, PreKeyRecord, RecipientKey, KeyExchange,
}
use omemo_go.Exec.{Result, ok, err}
use omemo_go.Exec.Steps.{ok-eq-ok}
use omemo_go.Memstore.Reliable.{memory_store-IsReliable}
use omemo_go.Manager.State.{Manager}
use omemo_go.Manager.Incoming.Opened.{Serves}
use omemo_go.Manager.Delivery.FirstMessage.{
  Reads, IsSingle, ServesAll, encrypt_message-decrypt_message,
}
use omemo_go.Tests.Toy.{World, mem_part, toy, or_external, replicate}
use omemo_go.Tests.World.{
  manager, manager-IsSound, served, see, IsGood, alice, bob, alice_world, alice_world-IsGood,
  bob_world, bob_world-IsGood, bob_bundle, runs,
}
use omemo_go.Tests.Sending.{hello, hello_message, hello_key}
use omemo_go.Manager.Encrypt.{encrypt_message, envelope}
use omemo_go.Manager.Devices.{recipient_devices}
use omemo_go.Manager.Outgoing.{encrypt_for_device}
use omemo_go.Signal.Payload
use omemo_go.Signal.Payload.{EncryptedPayload}
use omemo_go.Manager.Delivery.NextMessage.{
  ReadsOn, IsJoined, encrypt_for_device-IsJoined, encrypt_for_device-decrypt_message,
}
use omemo_go.Manager.Incoming.{find_key, decrypt_message}
use omemo_go.Manager.Incoming.Safety.{decrypt_message-IsReceiving}
use omemo_go.Manager.Outgoing.Safety.{encrypt_for_device-IsCleared}
use omemo_go.Manager.Sound.{IsSound}
use omemo_go.Tests.Agreeing.{IsKey, Same, toy-Agrees}

-- A transport that has one bundle, and never another.
abbrev of_bob : (dev : Device) → Option Bundle
of_bob dev = if dev == bob then some bob_bundle else none

abbrev sender : Manager World
sender = record (manager v2 alice none) {
  transport = record served { fetch_bundle = λ dev w. (or_external (of_bob dev), w) };
}

abbrev receiver : Manager World
receiver = manager v2 bob none

sender-IsSound : IsSound toy sender see IsGood
sender-IsSound =
    let sound = manager-IsSound v2 alice in
    record {
      lawful = sound.lawful;
      library = sound.library;
      fetch_device_list = sound.fetch_device_list;
      fetch_bundle = λ d. record { at = λ w v. (v, refl) };
      publish_bundle = sound.publish_bundle;
      resolver = sound.resolver;
      locks = sound.locks;
    }

is_bobs :
    (dev : Device) {w w' : World} {bundle : Bundle}
    → sender.transport.fetch_bundle dev w ≡ (ok bundle, w')
    → bob_bundle ≡ bundle
is_bobs dev h = elim (Bool-cases (dev == bob)) [
  | inl is_bob ↦ (ok-eq-ok (rw is_bob at h)).0
  | inr not_bob ↦ cc (ap (λ (x : Result Bundle × World). x.0) (rw not_bob at h))
]

first_of : PreKey → List PreKey → PreKey
first_of p [] = p
first_of p (q ∷ rest) = q

pub bob_bundle-Serves : Serves toy Same receiver.identity_key (see bob_world) bob_bundle
unfolding runs first_of
bob_bundle-Serves = record {
  identity = refl;
  spk = bob_world.mem.current_spk;
  is_held = refl;
  spk_pair = refl;
  spk_public = refl;
  prekey = λ p rest h.
      subst
        (λ q. (r : PreKeyRecord) × ((see bob_world).pool q.id ≡ some r) × Same q.public r.private)
        (ap (first_of p) h)
        (record { id = 5; public = some (9 ∷ []); private = some (9 ∷ []) }, refl, refl);
}

bob_world-ServesAll :
    ServesAll toy IsKey Same Same toy-Agrees sender receiver see see IsGood IsGood sender-IsSound
      (manager-IsSound v2 bob)
      (memory_store-IsReliable mem_part (λ recs. recs))
      (see bob_world)
bob_world-ServesAll w w' bundle v h =
    subst (Serves toy Same receiver.identity_key (see bob_world)) (is_bobs bob h) bob_bundle-Serves

sent : (encrypt_message toy sender "bob" hello alice_world).0.message ≡ some hello_message
unfolding runs
sent = refl

has_key : find_key bob.id hello_message.keys ≡ some hello_key
unfolding runs
has_key = refl

abbrev recipients : List Device
recipients = bob ∷ (record { jid = "bob"; id = 3 }) ∷ alice ∷ []

bob_listed :
    recipient_devices sender "bob" alice_world
    ≡ (ok recipients, (recipient_devices sender "bob" alice_world).1)
unfolding runs
bob_listed = refl

only_bob :
    All
      (IsSingle toy IsKey Same Same toy-Agrees sender receiver see see IsGood IsGood sender-IsSound
        (manager-IsSound v2 bob)
        (memory_store-IsReliable mem_part (λ recs. recs)))
      recipients
only_bob =
    (λ ne same. refl, (λ ne same. absurd (omega (arith, same)), (λ ne same. absurd (ne refl), tt)))

encrypt_message-decrypt_message_example :
    Reads toy IsKey Same Same toy-Agrees sender receiver see see IsGood IsGood sender-IsSound
      (manager-IsSound v2 bob)
      (memory_store-IsReliable mem_part (λ recs. recs))
      hello_message
      hello
      bob_world
encrypt_message-decrypt_message_example =
    encrypt_message-decrypt_message toy IsKey Same Same toy-Agrees sender receiver see see IsGood
      IsGood sender-IsSound (manager-IsSound v2 bob)
      (memory_store-IsReliable mem_part (λ recs. recs)) "bob" hello alice_world bob_world refl refl
      refl refl alice_world-IsGood bob_listed only_bob sent has_key refl bob_world-IsGood
      bob_world-ServesAll

abbrev body : EncryptedPayload
body = record { key_material = some (30 ∷ []); iv = none; ciphertext = some (30 ∷ 104 ∷ 105 ∷ []) }

abbrev after_body : World
after_body = (Payload.encrypt_payload toy v2 hello alice_world).1

body_closed : Payload.encrypt_payload toy v2 hello alice_world ≡ (ok body, after_body)
unfolding runs
body_closed = refl

abbrev first_key : RecipientKey
first_key = (elim (encrypt_for_device toy sender bob body.key_material alice_world).0 [
  | ok key ↦ key
  | err e ↦ hello_key
])

abbrev after_first : World
after_first = (encrypt_for_device toy sender bob body.key_material alice_world).1

first_sent :
    encrypt_for_device toy sender bob body.key_material alice_world ≡ (ok first_key, after_first)
unfolding runs
first_sent = refl

abbrev first_exchange : KeyExchange
first_exchange = record {
  identity_key = some (replicate 32 1);
  ephemeral_key = some (30 ∷ []);
  signed_prekey_id = 1;
  prekey_id = 5;
}

has_exchange : first_key.key_exchange ≡ some first_exchange
unfolding runs
has_exchange = refl

first_found : find_key bob.id (first_key ∷ []) ≡ some first_key
unfolding runs
first_found = refl

encrypt_for_device-IsJoined_example :
    ReadsOn toy IsKey Same Same toy-Agrees sender receiver see see IsGood IsGood sender-IsSound
      (manager-IsSound v2 bob)
      (memory_store-IsReliable mem_part (λ recs. recs))
      (envelope alice hello body (first_key ∷ []))
      hello
      after_first
      bob_world
encrypt_for_device-IsJoined_example =
    encrypt_for_device-IsJoined toy IsKey Same Same toy-Agrees sender receiver see see IsGood IsGood
      sender-IsSound (manager-IsSound v2 bob) (memory_store-IsReliable mem_part (λ recs. recs))
      hello body (first_key ∷ []) alice_world alice_world bob_world refl refl refl refl
      alice_world-IsGood bob_world-IsGood body_closed first_sent has_exchange first_found
      bob_world-ServesAll

-- Both stores after the first message: each holds the same toy ratchet.
abbrev after_reading : World
after_reading =
    (decrypt_message toy receiver (envelope alice hello body (first_key ∷ [])) bob_world).1

abbrev ratchet : Bytes
ratchet = 7 ∷ 9 ∷ []

joined :
    IsJoined toy IsKey Same Same toy-Agrees sender receiver see see IsGood IsGood sender-IsSound
      (manager-IsSound v2 bob)
      (memory_store-IsReliable mem_part (λ recs. recs))
      after_first
      after_reading
unfolding runs
joined = record {
  here = ratchet;
  there = ratchet;
  sends = record { blob = some ratchet; stored = refl; restored = refl };
  reads = record { blob = some ratchet; stored = refl; restored = refl };
  paired = refl;
}

after_first-IsGood : IsGood after_first
after_first-IsGood =
    let (good, cleared, named) =
      encrypt_for_device-IsCleared toy sender see IsGood sender-IsSound bob body.key_material
        alice_world-IsGood first_sent in
    good

after_reading-IsGood : IsGood after_reading
after_reading-IsGood =
    (decrypt_message-IsReceiving toy receiver see IsGood (manager-IsSound v2 bob)
      (envelope alice hello body (first_key ∷ [])) bob_world bob_world-IsGood).0

abbrev second_key : RecipientKey
second_key = record { device = 2; wrapped = some (7 ∷ 9 ∷ 30 ∷ []); key_exchange = none }

abbrev after_second : World
after_second = (encrypt_for_device toy sender bob body.key_material after_first).1

second_sent :
    encrypt_for_device toy sender bob body.key_material after_first ≡ (ok second_key, after_second)
unfolding runs
second_sent = refl

second_found : find_key bob.id (second_key ∷ []) ≡ some second_key
unfolding runs
second_found = refl

encrypt_for_device-decrypt_message_example :
    ReadsOn toy IsKey Same Same toy-Agrees sender receiver see see IsGood IsGood sender-IsSound
      (manager-IsSound v2 bob)
      (memory_store-IsReliable mem_part (λ recs. recs))
      (envelope alice hello body (second_key ∷ []))
      hello
      after_second
      after_reading
encrypt_for_device-decrypt_message_example =
    encrypt_for_device-decrypt_message toy IsKey Same Same toy-Agrees sender receiver see see IsGood
      IsGood sender-IsSound (manager-IsSound v2 bob)
      (memory_store-IsReliable mem_part (λ recs. recs)) hello body (second_key ∷ []) alice_world
      after_first after_reading refl refl after_first-IsGood after_reading-IsGood joined body_closed
      second_sent second_found
