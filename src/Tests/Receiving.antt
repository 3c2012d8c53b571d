-- ===== src/Tests/Receiving.antt =====
-- Bob's device reads the message that Alice's has made for it, gets it again, and gets one that names
-- no key exchange.
use omemo_go.Base.{ℕ, ◌≡◌, refl, ◌≢◌, ◌⊎◌, true, none, some, [], ◌∷◌}
use omemo_go.Types.{Slice, v2, RecipientKey, KeyExchange, EncryptedMessage}
use omemo_go.Errors.{Context, Error, external, wrap, is, Sentinel}
use omemo_go.Exec.{ok, err}
use omemo_go.Manager.State.{Manager}
use omemo_go.Signal.Session as Signal
use omemo_go.Signal.Session.{v2_session}
use omemo_go.Manager.Incoming.{
  find_key, get_or_create_session_for_incoming, decrypt_locked, decrypt_message,
}
use omemo_go.Manager.Incoming.Safety.{IsReceiving, decrypt_message-IsReceiving}
use omemo_go.Manager.Incoming.Failure.{
  decrypt_locked-failed_ratchet, decrypt_message-IsUnknownSession,
}
use omemo_go.Manager.Incoming.Used.{NamesPrekey}
use omemo_go.Manager.Incoming.Replay.{decrypt_message-Used, decrypt_message-replay}
use omemo_go.Tests.Toy.{World, toy, replicate}
use omemo_go.Tests.World.{
  manager, manager-IsSound, see, IsGood, alice, bob, bob_world, bob_world-IsGood, runs,
}

abbrev receiver : Manager World
receiver = manager v2 bob none

abbrev pub exchange : KeyExchange
exchange = record {
  identity_key = some (replicate 32 1);
  ephemeral_key = some (30 ∷ []);
  signed_prekey_id = 1;
  prekey_id = 5;
}

abbrev pub bob_key : RecipientKey
bob_key = record { device = 2; wrapped = some (7 ∷ 9 ∷ 30 ∷ []); key_exchange = some exchange }

abbrev pub greeting : EncryptedMessage
greeting = record {
  sender = alice;
  keys = bob_key ∷ [];
  iv = none;
  payload = some (30 ∷ 104 ∷ 105 ∷ []);
}

abbrev after_reading : World
after_reading = (decrypt_message toy receiver greeting bob_world).1

read_once :
    decrypt_message toy receiver greeting bob_world ≡ (ok (some (104 ∷ 105 ∷ [])), after_reading)
unfolding runs
read_once = refl

pub own_key : find_key bob.id greeting.keys ≡ some bob_key
unfolding runs
own_key = refl

decrypt_message-replay_example : ¬ (
    (again : Slice) × (w'' : World) × (decrypt_message toy receiver greeting after_reading
      ≡ (ok again, w'')))
decrypt_message-replay_example =
    decrypt_message-replay toy receiver see IsGood (manager-IsSound v2 bob) greeting bob_key
      exchange own_key refl bob_world-IsGood read_once

decrypt_message-Used_example :
    (id : ℕ) × NamesPrekey toy v2 bob_key.wrapped exchange id
    × (IsGood after_reading
        × ((see bob_world).pool id ≢ none)
        × ((see after_reading).pool id ≡ none))
decrypt_message-Used_example =
    decrypt_message-Used toy receiver see IsGood (manager-IsSound v2 bob) greeting bob_key exchange
      own_key refl bob_world-IsGood read_once

decrypt_message-IsReceiving_example :
    IsGood after_reading × IsReceiving alice (see bob_world) (see after_reading)
decrypt_message-IsReceiving_example =
    decrypt_message-IsReceiving toy receiver see IsGood (manager-IsSound v2 bob) greeting bob_world
      bob_world-IsGood

-- The same message without its key exchange.
abbrev bare_key : RecipientKey
bare_key = record bob_key { key_exchange = none }

abbrev bare : EncryptedMessage
bare = record greeting { keys = bare_key ∷ [] }

bare_own_key : find_key bob.id bare.keys ≡ some bare_key
unfolding runs
bare_own_key = refl

no_session : (see bob_world).session_of alice ≡ none
unfolding runs
no_session = refl

decrypt_message-IsUnknownSession_example :
    let (r, w') = decrypt_message toy receiver bare bob_world in
    (e : Error) × (r ≡ err e)
    × ((is e Sentinel.unknown_session ≡ true)
        ⊎ ((cause : Error) × (w : World) × ((receiver.store.session alice w).0 ≡ err cause)
            × (e ≡ wrap Context.establish_session (wrap Context.load_session cause))))
    × IsGood w'
    × (see w' ≡ see bob_world)
decrypt_message-IsUnknownSession_example =
    decrypt_message-IsUnknownSession toy receiver see IsGood (manager-IsSound v2 bob) bare bare_key
      bob_world bare_own_key refl bob_world-IsGood no_session

-- The message with an empty key, which the ratchet refuses.
abbrev broken_key : RecipientKey
broken_key = record bob_key { wrapped = none }

abbrev broken : EncryptedMessage
broken = record greeting { keys = broken_key ∷ [] }

abbrev after_exchange : World
after_exchange = (get_or_create_session_for_incoming toy receiver alice broken_key bob_world).1

exchanged :
    get_or_create_session_for_incoming toy receiver alice broken_key bob_world
    ≡ (ok (v2_session (7 ∷ 9 ∷ []), none), after_exchange)
unfolding runs
exchanged = refl

ratchet_refused :
    Signal.decrypt toy (v2_session (7 ∷ 9 ∷ [])) none after_exchange
    ≡ (err (external 4), after_exchange)
unfolding runs
ratchet_refused = refl

decrypt_locked-failed_ratchet_example :
    (decrypt_locked toy receiver broken broken_key bob_world
      ≡ (err (wrap Context.ratchet_decrypt (external 4)), after_exchange))
    × ((see after_exchange).remote_key_of alice ≡ some exchange.identity_key)
    × ((see after_exchange).session_of ≡ (see bob_world).session_of)
decrypt_locked-failed_ratchet_example =
    decrypt_locked-failed_ratchet toy receiver see IsGood (manager-IsSound v2 bob) broken broken_key
      exchange refl refl bob_world-IsGood exchanged ratchet_refused
