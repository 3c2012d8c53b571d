-- ===== src/Tests/Exchange.antt =====
-- Alice encrypts for Bob's device twice, and resets the session in between or not.
use omemo_go.Base.{◌≡◌, refl, ◌≢◌, none, some, [], ◌∷◌}
use omemo_go.Types.{Slice, v2, RecipientKey}
use omemo_go.Exec.{ok}
use omemo_go.Store.View.{store_session}
use omemo_go.Manager.State.{Manager}
use omemo_go.Manager.Outgoing.{encrypt_for_device, reset_session}
use omemo_go.Manager.Outgoing.Safety.{encrypt_for_device-IsCleared}
use omemo_go.Manager.Outgoing.Exchange.{
  Fits, encrypt_for_device-Fits, encrypt_for_device-again, reset_session-encrypt_for_device,
}
use omemo_go.Tests.Toy.{World, toy, replicate}
use omemo_go.Tests.World.{
  manager, manager-IsSound, see, IsGood, alice, bob, alice_world, alice_world-IsGood, runs,
}

abbrev pub sender : Manager World
sender = manager v2 alice none

abbrev material : Slice
material = some (30 ∷ [])

abbrev first_key : RecipientKey
first_key = record {
  device = 2;
  wrapped = some (7 ∷ 9 ∷ 30 ∷ []);
  key_exchange = some (record {
    identity_key = some (replicate 32 1);
    ephemeral_key = some (30 ∷ []);
    signed_prekey_id = 1;
    prekey_id = 5;
  });
}

abbrev second_key : RecipientKey
second_key = record { device = 2; wrapped = some (7 ∷ 9 ∷ 30 ∷ []); key_exchange = none }

abbrev pub after_first : World
after_first = (encrypt_for_device toy sender bob material alice_world).1

abbrev after_second : World
after_second = (encrypt_for_device toy sender bob material after_first).1

first_run : encrypt_for_device toy sender bob material alice_world ≡ (ok first_key, after_first)
unfolding runs
first_run = refl

second_run : encrypt_for_device toy sender bob material after_first ≡ (ok second_key, after_second)
unfolding runs
second_run = refl

encrypt_for_device-Fits_example : Fits ((see alice_world).session_of bob) first_key.key_exchange
encrypt_for_device-Fits_example =
    encrypt_for_device-Fits toy sender see IsGood (manager-IsSound v2 alice) bob material
      alice_world-IsGood first_run

encrypt_for_device-again_example : second_key.key_exchange ≡ none
encrypt_for_device-again_example =
    encrypt_for_device-again toy sender see IsGood (manager-IsSound v2 alice) bob material material
      alice_world-IsGood first_run second_run

pub after_first-IsGood : IsGood after_first
after_first-IsGood =
    let (good, cleared, named) =
      encrypt_for_device-IsCleared toy sender see IsGood (manager-IsSound v2 alice) bob material
        alice_world-IsGood first_run in
    good

abbrev restart_key : RecipientKey
restart_key = record {
  device = 2;
  wrapped = some (7 ∷ 9 ∷ 30 ∷ []);
  key_exchange = some (record {
    identity_key = some (replicate 32 1);
    ephemeral_key = some (33 ∷ []);
    signed_prekey_id = 1;
    prekey_id = 5;
  });
}

abbrev pub after_reset : World
after_reset = (reset_session sender bob after_first).1

abbrev after_restart : World
after_restart = (encrypt_for_device toy sender bob material after_reset).1

pub reset_run : reset_session sender bob after_first ≡ (ok tt, after_reset)
unfolding runs
reset_run = refl

restart_run :
    encrypt_for_device toy sender bob material after_reset ≡ (ok restart_key, after_restart)
unfolding runs
restart_run = refl

reset_session-encrypt_for_device_example :
    (see after_reset ≡ store_session bob none (see after_first)) × (restart_key.key_exchange ≢ none)
reset_session-encrypt_for_device_example =
    reset_session-encrypt_for_device toy sender see IsGood (manager-IsSound v2 alice) bob material
      after_first-IsGood reset_run restart_run
