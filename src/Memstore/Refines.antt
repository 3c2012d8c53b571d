-- ===== src/Memstore/Refines.antt =====
-- The in-memory store implements the contract of store.go: its abstract content is what its maps
-- hold, and every method but `PreKeyCount`, `PreKeys`, `NextPreKeyID` and `PutPreKeys` has the promised
-- effect on it.
use omemo_go.Base.{
  ℕ, String, ◌≡◌, refl, ap, fun_ext, Option, none, some, List, arith, nat_eq, string_eq, bytes_eq,
  Eq,
}
use omemo_go.Base.GoMap.{
  GoMap, NodupKeys, lookup, insert, erase, insert-NodupKeys, erase-NodupKeys, lookup-insert,
  lookup-erase,
}
use omemo_go.Types.{Slice, Device, device_eq, SignedPreKeyRecord, PreKeyRecord, TrustState, content}
use omemo_go.Exec.{Exec, Lens, through, Result, ok, err}
use omemo_go.Store.View as SpecView
use omemo_go.Store.View.{
  View, update, reads, writes, consume, rotate, store_session, store_trust, store_devices,
  store_remote_key, store_identity_key, store_local_device,
}
use omemo_go.Store.Contract.{IsLawful, Meets, Ends}
use omemo_go.Memstore
use omemo_go.Memstore.{MemStore, trust_or_zero, list_or_nil}
use omemo_go.Memstore.Interface.{memory_store}
use omemo_go.Memstore.Validity.{IsValid, erase-IsKeyed}

-- The content that the maps hold.
abbrev pub view : MemStore → View
view s = record {
  identity_key = s.identity_key;
  local_device = s.local_device;
  current = s.current_spk;
  stale = s.stale_spk;
  pool = λ id. lookup id s.prekeys;
  session_of = λ dev. lookup dev s.sessions;
  trust_of = λ key. trust_or_zero (lookup key s.trust);
  devices_of = λ jid. list_or_nil (lookup jid s.devices);
  remote_key_of = λ dev. lookup dev s.remote_id;
}

module _ {K V : Type 0} ⦃e : Eq K⦄ where
  lookup-insert-update :
      (k : K) (v : V) (m : GoMap K V)
      → update k (some v) (λ j. lookup j m) ≡ (λ j. lookup j (insert k v m))
  lookup-insert-update k v m = fun_ext λ j. rw (lookup-insert j k v m)

  read-insert-update :
      {T : Type 0} (f : Option V → T) (k : K) (v : V) (m : GoMap K V)
      → update k (f (some v)) (λ j. f (lookup j m)) ≡ (λ j. f (lookup j (insert k v m)))
  read-insert-update f k v m = fun_ext λ j. rw (lookup-insert j k v m) (ground arith)

  lookup-erase-update :
      (k : K) (m : GoMap K V)
      → NodupKeys m
      → update k none (λ j. lookup j m) ≡ (λ j. lookup j (erase k m))
  lookup-erase-update k m u = fun_ext λ j. rw (lookup-erase j k m u)

module _ {W : Type 0} (part : Lens W MemStore) where
  abbrev pub world_view : W → View
  world_view w = view (part.get w)

  abbrev pub WorldIsValid : W → Type 0
  WorldIsValid w = IsValid (part.get w)

  Ends-through :
      {A : Type 0} (spec : Exec View A) (w : W) (r : Result A) (s : MemStore)
      → Ends view IsValid spec (part.get w) (r, s)
      → Ends world_view WorldIsValid spec w (r, part.put s w)
  Ends-through spec w (ok a) s h = rw (part.get-put s w) h
  Ends-through spec w (err e) s h = rw (part.get-put s w) h

  -- A method that meets the contract on the store meets it in the world.
  through-Meets :
      {A : Type 0} (spec : Exec View A) (m : Exec MemStore A)
      → Meets view IsValid spec m
      → Meets world_view WorldIsValid spec (through part m)
  unfolding through
  through-Meets spec m h w v =
      let (r, s) = m (part.get w) in Ends-through spec w r s (h (part.get w) v)

-- One lemma for each method that writes; a method that reads meets the contract by computation.
rotate_signed_prekey-Meets :
    (next : SignedPreKeyRecord)
    → Meets view IsValid (writes (rotate next)) (Memstore.rotate_signed_prekey next)
unfolding Memstore.rotate_signed_prekey
rotate_signed_prekey-Meets next s v = (assumption, refl)

put_session-Meets :
    (dev : Device) (blob : Slice)
    → Meets view IsValid (writes (store_session dev (some blob))) (Memstore.put_session dev blob)
unfolding Memstore.put_session
put_session-Meets dev blob s v = (
  assumption (insert-NodupKeys dev blob s.sessions v.sessions),
  ap (λ f. (ok tt, record (view s) { session_of = f })) (lookup-insert-update dev blob s.sessions),
)

delete_session-Meets :
    (dev : Device)
    → Meets view IsValid (writes (store_session dev none)) (Memstore.delete_session dev)
unfolding Memstore.delete_session
delete_session-Meets dev s v = (
  record {
    prekeys = v.prekeys;
    keyed = v.keyed;
    sessions = erase-NodupKeys dev s.sessions v.sessions;
    trust = v.trust;
    devices = v.devices;
    remote_id = v.remote_id;
  },
  ap (λ f. (ok tt, record (view s) { session_of = f }))
      (lookup-erase-update dev s.sessions v.sessions),
)

put_remote_identity_key-Meets :
    (dev : Device) (key : Slice)
    → Meets view IsValid
        (writes (store_remote_key dev key))
        (Memstore.put_remote_identity_key dev key)
unfolding Memstore.put_remote_identity_key
put_remote_identity_key-Meets dev key s v = (
  assumption (insert-NodupKeys dev key s.remote_id v.remote_id),
  ap (λ f. (ok tt, record (view s) { remote_key_of = f }))
      (lookup-insert-update dev key s.remote_id),
)

set_trust-Meets :
    (key : Slice) (state : TrustState)
    → Meets view IsValid (writes (store_trust key state)) (Memstore.set_trust key state)
unfolding Memstore.set_trust
set_trust-Meets key state s v = (
  assumption (insert-NodupKeys (content key) state s.trust v.trust),
  ap (λ f. (ok tt, record (view s) { trust_of = f }))
      (read-insert-update trust_or_zero (content key) state s.trust),
)

set_devices-Meets :
    (jid : String) (ids : List ℕ)
    → Meets view IsValid (writes (store_devices jid ids)) (Memstore.set_devices jid ids)
unfolding Memstore.set_devices
set_devices-Meets jid ids s v = (
  assumption (insert-NodupKeys jid ids s.devices v.devices),
  ap (λ f. (ok tt, record (view s) { devices_of = f }))
      (read-insert-update list_or_nil jid ids s.devices),
)

consume_found-Ends :
    (id : ℕ) (o : Option PreKeyRecord) (s : MemStore)
    → IsValid s
    → Ends view IsValid (SpecView.consume_found id o) s (Memstore.consume_found id o s)
unfolding Memstore.consume_found
consume_found-Ends id none s v = (v, refl)
consume_found-Ends id (some r) s v = (
  assumption (erase-NodupKeys id s.prekeys v.prekeys, erase-IsKeyed id s.prekeys v.prekeys v.keyed),
  ap (λ f. (ok r, record (view s) { pool = f })) (lookup-erase-update id s.prekeys v.prekeys),
)

module _ {W : Type 0} (part : Lens W MemStore) (order : List PreKeyRecord → List PreKeyRecord) where
  -- The in-memory store implements the contract of store.go. Each of its methods other than
  -- `PreKeyCount`, `PreKeys`, `NextPreKeyID` and `PutPreKeys`, called in a well-formed store,
  -- leaves a well-formed store; without an error it returns what the abstract store returns and has
  -- its effect on the content, and with an error it leaves the content as it was.
  pub memory_store-IsLawful :
      IsLawful (world_view part) (WorldIsValid part) (memory_store part order)
  unfolding memory_store Memstore.identity_key_pair Memstore.set_identity_key_pair
      Memstore.local_device Memstore.set_local_device Memstore.current_signed_prekey
      Memstore.stale_signed_prekey Memstore.session Memstore.trust Memstore.devices
      Memstore.remote_identity_key Memstore.consume_prekey
  memory_store-IsLawful = record {
    identity_key_pair =
        through-Meets part (reads λ v. v.identity_key) Memstore.identity_key_pair
          (λ s v. (v, refl));
    set_identity_key_pair = λ priv.
        through-Meets part (writes (store_identity_key priv)) (Memstore.set_identity_key_pair priv)
          (λ s v. (assumption, refl));
    local_device =
        through-Meets part (reads λ v. v.local_device) Memstore.local_device (λ s v. (v, refl));
    set_local_device = λ dev.
        through-Meets part (writes (store_local_device dev)) (Memstore.set_local_device dev)
          (λ s v. (assumption, refl));
    current_signed_prekey =
        through-Meets part (reads λ v. v.current) Memstore.current_signed_prekey (λ s v. (v, refl));
    stale_signed_prekey =
        through-Meets part (reads λ v. v.stale) Memstore.stale_signed_prekey (λ s v. (v, refl));
    rotate_signed_prekey = λ next.
        through-Meets part (writes (rotate next)) (Memstore.rotate_signed_prekey next)
          (rotate_signed_prekey-Meets next);
    consume_prekey = λ id.
        through-Meets part (consume id) (Memstore.consume_prekey id)
          (λ s v. consume_found-Ends id (lookup id s.prekeys) s v);
    session = λ dev.
        through-Meets part (reads λ v. v.session_of dev) (Memstore.session dev) (λ s v. (v, refl));
    put_session = λ dev blob.
        through-Meets part (writes (store_session dev (some blob))) (Memstore.put_session dev blob)
          (put_session-Meets dev blob);
    delete_session = λ dev.
        through-Meets part (writes (store_session dev none)) (Memstore.delete_session dev)
          (delete_session-Meets dev);
    trust = λ key.
        through-Meets part (reads λ v. v.trust_of (content key)) (Memstore.trust key)
          (λ s v. (v, refl));
    set_trust = λ key state.
        through-Meets part (writes (store_trust key state)) (Memstore.set_trust key state)
          (set_trust-Meets key state);
    devices = λ jid.
        through-Meets part (reads λ v. v.devices_of jid) (Memstore.devices jid) (λ s v. (v, refl));
    set_devices = λ jid ids.
        through-Meets part (writes (store_devices jid ids)) (Memstore.set_devices jid ids)
          (set_devices-Meets jid ids);
    remote_identity_key = λ dev.
        through-Meets part (reads λ v. v.remote_key_of dev) (Memstore.remote_identity_key dev)
          (λ s v. (v, refl));
    put_remote_identity_key = λ dev key.
        through-Meets part (writes (store_remote_key dev key))
          (Memstore.put_remote_identity_key dev key) (put_remote_identity_key-Meets dev key);
  }
