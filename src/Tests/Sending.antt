-- ===== src/Tests/Sending.antt =====
-- Sending from Alice to Bob, whose device 3 has no bundle.
use omemo_go.Base.{◌≡◌, refl, none, some, List, [], ◌∷◌}
use omemo_go.Types.{Slice, v2, Device, TrustState, RecipientKey, EncryptedMessage}
use omemo_go.Exec.{ok}
use omemo_go.Manager.State.{Manager}
use omemo_go.Manager.Outgoing.{encrypt_for_device}
use omemo_go.Manager.Outgoing.Safety.{IsCleared, encrypt_for_device-IsCleared}
use omemo_go.Manager.Devices.{recipient_devices}
use omemo_go.Manager.Devices.Lists.{Reaches, recipient_devices-Reaches}
use omemo_go.Manager.Trust.{check_trust}
use omemo_go.Manager.Trust.Safety.{check_trust-trusted, check_trust-blocked}
use omemo_go.Manager.Encrypt.{Sent, encrypt, encrypt_message}
use omemo_go.Manager.Encrypt.Outcome.{Outcome, encrypt-Outcome}
use omemo_go.Manager.Encrypt.Safety.{
  IsSending, encrypt_message-IsSending, Accounts, encrypt_message-Accounts,
}
use omemo_go.Tests.Toy.{World, toy, replicate}
use omemo_go.Tests.World.{
  manager, manager-IsSound, see, IsGood, alice, bob, alice_world, alice_world-IsGood, runs,
}

abbrev sender : Manager World
sender = manager v2 alice none

abbrev pub hello : Slice
hello = some (104 ∷ 105 ∷ [])

abbrev bob_key : RecipientKey
bob_key = record {
  device = 2;
  wrapped = some (7 ∷ 9 ∷ 30 ∷ []);
  key_exchange = some (record {
    identity_key = some (replicate 32 1);
    ephemeral_key = some (30 ∷ []);
    signed_prekey_id = 1;
    prekey_id = 5;
  });
}

abbrev after_bob : World
after_bob = (encrypt_for_device toy sender bob (some (30 ∷ [])) alice_world).1

for_bob : encrypt_for_device toy sender bob (some (30 ∷ [])) alice_world ≡ (ok bob_key, after_bob)
unfolding runs
for_bob = refl

encrypt_for_device-IsCleared_example :
    IsGood after_bob × IsCleared bob (see after_bob) × (bob_key.device ≡ bob.id)
encrypt_for_device-IsCleared_example =
    encrypt_for_device-IsCleared toy sender see IsGood (manager-IsSound v2 alice) bob
      (some (30 ∷ [])) alice_world-IsGood for_bob

abbrev after_hello : World
after_hello = (encrypt_message toy sender "bob" hello alice_world).1

abbrev hello_result : Sent
hello_result = (encrypt_message toy sender "bob" hello alice_world).0

abbrev pub hello_key : RecipientKey
hello_key = record bob_key {
  wrapped = some (7 ∷ 9 ∷ 30 ∷ []);
  key_exchange = some (record {
    identity_key = some (replicate 32 1);
    ephemeral_key = some (31 ∷ []);
    signed_prekey_id = 1;
    prekey_id = 5;
  });
}

abbrev pub hello_message : EncryptedMessage
hello_message = record {
  sender = alice;
  keys = hello_key ∷ [];
  iv = none;
  payload = some (30 ∷ 104 ∷ 105 ∷ []);
}

abbrev bob_devices : List Device
bob_devices = bob ∷ (record { jid = "bob"; id = 3 }) ∷ alice ∷ []

abbrev after_listing : World
after_listing = (recipient_devices sender "bob" alice_world).1

bob_listed : recipient_devices sender "bob" alice_world ≡ (ok bob_devices, after_listing)
unfolding runs
bob_listed = refl

hello_sent : (encrypt_message toy sender "bob" hello alice_world).0.message ≡ some hello_message
unfolding runs
hello_sent = refl

encrypt_message-Accounts_example :
    Accounts toy sender see IsGood
      (manager-IsSound v2 alice)
      bob_devices
      hello
      hello_result
      hello_message
encrypt_message-Accounts_example =
    encrypt_message-Accounts toy sender see IsGood (manager-IsSound v2 alice) "bob" hello
      alice_world-IsGood bob_listed hello_sent

encrypt_message-IsSending_example :
    IsGood after_hello × IsSending (see alice_world) (see after_hello)
encrypt_message-IsSending_example =
    encrypt_message-IsSending toy sender see IsGood (manager-IsSound v2 alice) "bob" hello
      alice_world alice_world-IsGood

encrypt-Outcome_example :
    let (s, w') = encrypt toy sender "bob" hello alice_world in
    Outcome toy sender see "bob" hello alice_world s w'
encrypt-Outcome_example =
    encrypt-Outcome toy sender see IsGood (manager-IsSound v2 alice) "bob" hello alice_world
      alice_world-IsGood

abbrev bob_identity : Slice
bob_identity = some (replicate 32 2)

passed : check_trust sender bob bob_identity alice_world ≡ (ok tt, alice_world)
unfolding runs
passed = refl

check_trust-trusted_example :
    IsGood alice_world × ((see alice_world).trust_of (replicate 32 2) ≡ TrustState.trusted)
check_trust-trusted_example =
    check_trust-trusted toy sender see IsGood (manager-IsSound v2 alice) bob bob_identity
      alice_world-IsGood passed

-- Alice's store once Bob's key is blocked.
abbrev blocking_world : World
blocking_world = record alice_world {
  mem = record alice_world.mem { trust = (replicate 32 2, TrustState.untrusted) ∷ [] };
}

blocking_world-IsGood : IsGood blocking_world
unfolding runs
blocking_world-IsGood = record {
  prekeys = tt;
  keyed = λ k r h. cc;
  sessions = tt;
  trust = (refl, tt);
  devices = tt;
  remote_id = tt;
}

is_blocked : (see blocking_world).trust_of (replicate 32 2) ≡ TrustState.untrusted
unfolding runs
is_blocked = refl

check_trust-blocked_example :
    (see (check_trust sender bob bob_identity blocking_world).1 ≡ see blocking_world)
    × ¬ ((w' : World) × (check_trust sender bob bob_identity blocking_world ≡ (ok tt, w')))
check_trust-blocked_example =
    check_trust-blocked toy sender see IsGood (manager-IsSound v2 alice) bob bob_identity
      blocking_world blocking_world-IsGood is_blocked

recipient_devices-Reaches_example : Reaches sender see "bob" alice_world after_listing bob_devices
recipient_devices-Reaches_example =
    recipient_devices-Reaches toy sender see IsGood (manager-IsSound v2 alice) "bob"
      alice_world-IsGood bob_listed
