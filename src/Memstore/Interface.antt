-- ===== src/Memstore/Interface.antt =====
-- The in-memory store as a value of the interface (the last line of memstore/memstore.go), in any
-- world that holds one.
use omemo_go.Base.{List}
use omemo_go.Types.{PreKeyRecord}
use omemo_go.Exec.{Lens, through}
use omemo_go.Store.{Store}
use omemo_go.Memstore
use omemo_go.Memstore.{MemStore}

unfoldable pub memory_store :
    {W : Type 0} → Lens W MemStore → (List PreKeyRecord → List PreKeyRecord) → Store W
memory_store part order = record {
  identity_key_pair = through part Memstore.identity_key_pair;
  set_identity_key_pair = λ priv. through part (Memstore.set_identity_key_pair priv);
  local_device = through part Memstore.local_device;
  set_local_device = λ dev. through part (Memstore.set_local_device dev);
  current_signed_prekey = through part Memstore.current_signed_prekey;
  stale_signed_prekey = through part Memstore.stale_signed_prekey;
  rotate_signed_prekey = λ next. through part (Memstore.rotate_signed_prekey next);
  prekey_count = through part Memstore.prekey_count;
  prekeys = through part (Memstore.prekeys order);
  next_prekey_id = through part Memstore.next_prekey_id;
  put_prekeys = λ recs. through part (Memstore.put_prekeys recs);
  consume_prekey = λ id. through part (Memstore.consume_prekey id);
  session = λ dev. through part (Memstore.session dev);
  put_session = λ dev blob. through part (Memstore.put_session dev blob);
  delete_session = λ dev. through part (Memstore.delete_session dev);
  trust = λ key. through part (Memstore.trust key);
  set_trust = λ key state. through part (Memstore.set_trust key state);
  devices = λ jid. through part (Memstore.devices jid);
  set_devices = λ jid ids. through part (Memstore.set_devices jid ids);
  remote_identity_key = λ dev. through part (Memstore.remote_identity_key dev);
  put_remote_identity_key = λ dev key. through part (Memstore.put_remote_identity_key dev key);
}
