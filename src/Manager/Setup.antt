-- ===== src/Manager/Setup.antt =====
-- `NewManager` and `InitIdentity` (manager.go).
pub mod Fresh
use omemo_go.Base.{ℕ, String, none, List, foldl}
use omemo_go.Types.{Protocol}
use omemo_go.Errors.{Context}
use omemo_go.Exec.{⊤, Exec, Lens, pure, wrapping, ◌>>=◌, ◌>>◌}
use omemo_go.Store.{Store, Transport}
use omemo_go.Signal.Library.{Library}
use omemo_go.Signal.Keys
use omemo_go.Manager.Locks.{LockTable}
use omemo_go.Manager.State.{Manager, ManagerOption}
use omemo_go.Manager.Prekeys.{generate_prekeys, default_prekey_count, signed_prekey_record}

abbrev apply_option : {W : Type 0} → Manager W → ManagerOption W → Manager W
apply_option m opt = opt m

-- `locks` says where the world keeps the new manager's table of locks.
unfoldable pub new_manager :
    {W : Type 0}
    → Store W
    → Transport W
    → Protocol
    → List (ManagerOption W)
    → Lens W LockTable
    → Exec W (Manager W)
new_manager store transport protocol opts locks = do
  id_key ← wrapping Context.load_identity_key store.identity_key_pair
  dev ← wrapping Context.load_local_device store.local_device
  pure (
      foldl apply_option
        (record {
          store = store;
          transport = transport;
          protocol = protocol;
          identity_key = id_key;
          local_device = dev;
          trust_resolver = none;
          locks = locks;
        })
        opts)

unfoldable pub init_identity :
    {W DR LS LX : Type 0} → Library W DR LS LX → Store W → String → ℕ → Protocol → Exec W ⊤
unfolding signed_prekey_record
init_identity lib store jid device_id protocol = do
  id_key ← wrapping Context.generate_identity_key (Keys.generate_identity_key lib protocol)
  wrapping Context.store_identity_key (store.set_identity_key_pair id_key)
  wrapping Context.store_local_device
      (store.set_local_device (record { jid = jid; id = device_id }))
  pair ← wrapping Context.generate_signed_prekey (Keys.generate_signed_prekey lib protocol id_key)
  wrapping Context.store_signed_prekey
      (store.rotate_signed_prekey (signed_prekey_record lib 1 pair))
  generate_prekeys lib store default_prekey_count
