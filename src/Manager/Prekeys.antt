-- ===== src/Manager/Prekeys.antt =====
-- Bundles, the rotation of the signed prekey and the pool of one-time prekeys (manager.go).
pub mod Rotation
pub mod Published
pub mod Grace
pub mod Generation
use omemo_go.Base.{
  ℕ, zero, suc, ◌+◌, ◌%◌, Bool, Option, none, some, List, [], ◌∷◌, ◌++◌, map, length, leb,
}
use omemo_go.Types.{
  Slice, u32_mod, Protocol, SignedPreKey, SignedPreKeyRecord, PreKey, PreKeyRecord, Bundle,
}
use omemo_go.Errors.{Context}
use omemo_go.Exec.{⊤, Exec, pure, lift, wrapping, wrapped_result, ◌>>=◌, ◌>>◌}
use omemo_go.Store.{Store}
use omemo_go.Signal.Library.{Library, SignedKeyPair}
use omemo_go.Signal.Keys
use omemo_go.Manager.State.{Manager}

abbrev pub default_prekey_count : ℕ
default_prekey_count = 100

abbrev pub min_prekey_count : ℕ
min_prekey_count = 25

-- The public half of a record, as a bundle has it.
unfoldable pub public_prekey : PreKeyRecord → PreKey
public_prekey r = record { id = r.id; public = r.public }

unfoldable pub public_signed_prekey : SignedPreKeyRecord → SignedPreKey
public_signed_prekey spk = record { id = spk.id; public = spk.public; signature = spk.signature }

-- The `n` of `GenerateOneTimePreKeys`, an int: `negsuc n` is -(n + 1).
pub data ℤ : Type 0 where
  pos : ℕ → ℤ
  negsuc : ℕ → ℤ

module _ {W DR LS LX : Type 0} (lib : Library W DR LS LX) where
  -- The loop of `generateOneTimePreKeys` with `n` rounds left.
  unfoldable pub generate_records : Store W → ℕ → List PreKeyRecord → Exec W (List PreKeyRecord)
  generate_records store zero recs = pure recs
  generate_records store (suc n) recs = do
    id ← wrapping Context.allocate_prekey_id store.next_prekey_id
    pair ← wrapping Context.generate_one_time_prekey (Keys.generate_one_time_prekey lib)
    generate_records store n
        (recs ++ (record { id = id; public = pair.public; private = pair.private }) ∷ [])

  unfoldable pub generate_prekeys : Store W → ℕ → Exec W ⊤
  unfolding generate_records
  generate_prekeys store n = do recs ← generate_records store n []; store.put_prekeys recs

  unfoldable pub signed_prekey_record : ℕ → SignedKeyPair → SignedPreKeyRecord
  signed_prekey_record id pair = record {
    id = id;
    public = pair.public;
    private = pair.private;
    signature = pair.signature;
  }

  module _ (m : Manager W) where
    -- Manager.Bundle
    unfoldable pub bundle : Exec W Bundle
    bundle = do
      spk ← wrapping Context.load_signed_prekey m.store.current_signed_prekey
      recs ← wrapping Context.load_prekeys m.store.prekeys
      public ← lift (
          wrapped_result Context.derive_identity_public_key
            (Keys.identity_public_key lib m.protocol m.identity_key))
      pure (record {
        device = m.local_device;
        identity_key = public;
        signed_prekey = public_signed_prekey spk;
        prekeys = map public_prekey recs;
      })

    -- Manager.PublishBundle
    unfoldable pub publish_bundle : Exec W ⊤
    publish_bundle = do b ← bundle; m.transport.publish_bundle b

    -- nextSignedPreKeyID, `cur.ID + 1` on a uint32
    unfoldable pub next_signed_prekey_id : Exec W ℕ
    next_signed_prekey_id = do
      cur ← wrapping Context.load_signed_prekey m.store.current_signed_prekey
      pure ((cur.id + 1) % u32_mod)

    -- Manager.RotateSignedPreKey
    unfoldable pub rotate_signed_prekey : Exec W ⊤
    unfolding next_signed_prekey_id signed_prekey_record
    rotate_signed_prekey = do
      next_id ← next_signed_prekey_id
      pair ←
          wrapping Context.generate_signed_prekey
            (Keys.generate_signed_prekey lib m.protocol m.identity_key)
      m.store.rotate_signed_prekey (signed_prekey_record next_id pair)

    -- Manager.GenerateOneTimePreKeys; `none` is the panic of `make` at a negative capacity.
    unfoldable pub generate_one_time_prekeys : ℤ → Option (Exec W ⊤)
    generate_one_time_prekeys (pos n) = some (generate_prekeys m.store n)
    generate_one_time_prekeys (negsuc n) = none

    -- Manager.NeedsMorePreKeys
    unfoldable pub needs_more_prekeys : Exec W Bool
    needs_more_prekeys = do
      count ← wrapping Context.count_prekeys m.store.prekey_count
      pure (leb count min_prekey_count)
