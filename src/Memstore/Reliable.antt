-- ===== src/Memstore/Reliable.antt =====
-- The in-memory store does not fail: of the methods that reading a message needs, only the
-- consumption of an unknown one-time prekey reports an error.
use omemo_go.Base.{ℕ, ◌≢◌, refl, Option, none, some, List, nat_eq}
use omemo_go.Types.{PreKeyRecord}
use omemo_go.Exec.{Lens, through}
use omemo_go.Store.Reliable.{IsReliable, Succeeds}
use omemo_go.Memstore
use omemo_go.Memstore.{MemStore}
use omemo_go.Memstore.Interface.{memory_store}
use omemo_go.Memstore.Refines.{world_view, WorldIsValid}

module _ {W : Type 0} (part : Lens W MemStore) (order : List PreKeyRecord → List PreKeyRecord) where
  consume_found-Succeeds :
      (id : ℕ) (o : Option PreKeyRecord) (w : W)
      → o ≢ none
      → Succeeds
          (world_view part)
          (WorldIsValid part)
          (through part (Memstore.consume_found id o))
          w
  unfolding through Memstore.consume_found
  consume_found-Succeeds id none w there = absurd (there refl)
  consume_found-Succeeds id (some r) w there = (r, _, refl)

  -- From a well-formed state the in-memory store reports no error when it reads a signed prekey or
  -- a session, when it stores a session or an identity key, and when it consumes a one-time prekey
  -- that it holds.
  pub memory_store-IsReliable :
      IsReliable (world_view part) (WorldIsValid part) (memory_store part order)
  unfolding memory_store through Memstore.current_signed_prekey Memstore.stale_signed_prekey
      Memstore.consume_prekey Memstore.session Memstore.put_session Memstore.put_remote_identity_key
  memory_store-IsReliable = record {
    current_signed_prekey = λ w v. (_, _, refl);
    stale_signed_prekey = λ w v. (_, _, refl);
    consume_prekey = λ id w v there. consume_found-Succeeds id _ w there;
    session = λ dev w v. (_, _, refl);
    put_session = λ dev blob w v. (_, _, refl);
    put_remote_identity_key = λ dev key w v. (_, _, refl);
  }
