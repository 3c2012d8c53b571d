-- ===== src/Manager/Locks/Apart.antt =====
-- What the code around a manager has to leave alone, for its mutexes to be in its own hands: no call
-- of the store, the transport, the resolver or the library touches the table of mutexes.
use omemo_go.Base.{ℕ, String, ◌≡◌, refl, Option, none, some, List, [], ◌∷◌, ◌==◌, nat_eq}
use omemo_go.Types.{
  Slice, Protocol, v1, v2, other, Device, TrustState, PreKey, SignedPreKeyRecord, RecipientKey,
  KeyExchange, EncryptedMessage,
}
use omemo_go.Exec.{Exec}
use omemo_go.Store.{TrustResolver}
use omemo_go.Store.Keeps.{
  Quiet, Unchanged, Unchanged-IsFrame, Within-pure, Within-raise, Within-lift, Within-bind,
  Within-wrapping, Within-if,
}
use omemo_go.Signal.Library.{Library}
use omemo_go.Signal.Session.{Session}
use omemo_go.Signal.Quiet.{
  IsQuietLibrary, new_active_session-Quiet, new_passive_session-Quiet,
  new_passive_session_from_prekey_blob-Quiet, encrypt-Quiet, decrypt-Quiet,
}
use omemo_go.Manager.State.{Manager}
use omemo_go.Manager.Devices.{
  sync_devices, known_devices, devices_for, add_own_devices, recipient_devices,
}
use omemo_go.Manager.Trust.{consult, decide_trust, check_trust}
use omemo_go.Manager.Outgoing.{
  first_prekey, known_key, create_active_session, stored_or_new, get_or_create_active_session,
  put_session, encrypt_locked,
}
use omemo_go.Manager.Incoming.{
  stale_by_id, signed_prekey_by_id, session_from_store, session_from_blob, session_from_exchange,
  session_for_exchange, session_for_key, get_or_create_session_for_incoming, open_payload,
  decrypt_locked,
}

-- Any world.
abbrev pub Always : {W : Type 0} → W → Type 0
Always w = Unit {0}

-- The table of mutexes is the same after the call.
abbrev pub Spares : {W A : Type 0} → Manager W → Exec W A → Type 0
Spares m c = Quiet m.locks.get Always c

pub record IsApart {W DR LS LX : Type 0} (lib : Library W DR LS LX) (m : Manager W) : Type 0 where
  pub library : IsQuietLibrary lib m.locks.get Always
  pub fetch_device_list : (jid : String) → Spares m (m.transport.fetch_device_list jid)
  pub fetch_bundle : (dev : Device) → Spares m (m.transport.fetch_bundle dev)
  pub resolver :
      (r : TrustResolver W)
      → m.trust_resolver ≡ some r
      → (dev : Device) (key : Slice) → Spares m (r dev key)
  pub current_signed_prekey : Spares m m.store.current_signed_prekey
  pub stale_signed_prekey : Spares m m.store.stale_signed_prekey
  pub consume_prekey : (id : ℕ) → Spares m (m.store.consume_prekey id)
  pub session : (dev : Device) → Spares m (m.store.session dev)
  pub put_session : (dev : Device) (blob : Slice) → Spares m (m.store.put_session dev blob)
  pub delete_session : (dev : Device) → Spares m (m.store.delete_session dev)
  pub trust : (key : Slice) → Spares m (m.store.trust key)
  pub set_trust : (key : Slice) (t : TrustState) → Spares m (m.store.set_trust key t)
  pub devices : (jid : String) → Spares m (m.store.devices jid)
  pub set_devices : (jid : String) (ids : List ℕ) → Spares m (m.store.set_devices jid ids)
  pub remote_identity_key : (dev : Device) → Spares m (m.store.remote_identity_key dev)
  pub put_remote_identity_key :
      (dev : Device) (key : Slice) → Spares m (m.store.put_remote_identity_key dev key)

ruleset rules = (
  Unchanged-IsFrame, Within-pure, Within-raise, Within-lift, Within-bind, Within-wrapping,
  Within-if,
)

module _ {W DR LS LX : Type 0} (lib : Library W DR LS LX) (m : Manager W)
    (apart : IsApart lib m) where
  sync_devices-Spares : (jid : String) → Spares m (sync_devices m jid)
  unfolding sync_devices
  sync_devices-Spares jid = search (rules, apart.fetch_device_list, apart.set_devices)

  known_devices-Spares : (jid : String) (ids : List ℕ) → Spares m (known_devices m jid ids)
  unfolding known_devices
  known_devices-Spares jid (id ∷ ids) = search (rules)
  known_devices-Spares jid [] = search (rules, sync_devices-Spares, apart.devices)

  devices_for-Spares : (jid : String) → Spares m (devices_for m jid)
  unfolding devices_for
  devices_for-Spares jid = search (rules, known_devices-Spares, apart.devices)

  add_own_devices-Spares : (devs : List Device) → Spares m (add_own_devices m devs)
  unfolding add_own_devices
  add_own_devices-Spares devs = record { at = (devices_for-Spares m.local_device.jid).at }

  pub recipient_devices-Spares : (jid : String) → Spares m (recipient_devices m jid)
  unfolding recipient_devices
  recipient_devices-Spares jid = search (rules, devices_for-Spares, add_own_devices-Spares)

  consult-Spares :
      (r : Option (TrustResolver W)) (dev : Device) (key : Slice)
      → m.trust_resolver ≡ r
      → Spares m (consult m r dev key)
  unfolding consult
  consult-Spares none dev key e = search (rules)
  consult-Spares (some r) dev key e =
      let asked = apart.resolver r e dev key in search (rules, asked, apart.set_trust)

  decide_trust-Spares :
      (t : TrustState) (dev : Device) (key : Slice) → Spares m (decide_trust m t dev key)
  unfolding decide_trust
  decide_trust-Spares TrustState.trusted dev key = search (rules)
  decide_trust-Spares TrustState.untrusted dev key = search (rules)
  decide_trust-Spares TrustState.undecided dev key = consult-Spares m.trust_resolver dev key refl
  decide_trust-Spares (TrustState.unnamed n) dev key = consult-Spares m.trust_resolver dev key refl

  check_trust-Spares : (dev : Device) (key : Slice) → Spares m (check_trust m dev key)
  unfolding check_trust
  check_trust-Spares dev key = search (rules, apart.trust, decide_trust-Spares)

  put_session-Spares : (dev : Device) (sess : Session DR LS) → Spares m (put_session lib m dev sess)
  unfolding put_session
  put_session-Spares dev sess = search (rules, apart.put_session)

  first_prekey-Spares : (prekeys : List PreKey) → Spares m (first_prekey prekeys)
  unfolding first_prekey
  first_prekey-Spares [] = search (rules)
  first_prekey-Spares (prekey ∷ rest) = search (rules)

  create_active_session-Spares : (dev : Device) → Spares m (create_active_session lib m dev)
  unfolding create_active_session
  create_active_session-Spares dev =
      let started = new_active_session-Quiet lib m.locks.get Always apart.library in
      search
        (rules, apart.fetch_bundle, first_prekey-Spares, started, apart.put_remote_identity_key)
        depth 12

  stored_or_new-Spares : (dev : Device) (o : Option Slice) → Spares m (stored_or_new lib m dev o)
  unfolding stored_or_new
  stored_or_new-Spares dev none = create_active_session-Spares dev
  stored_or_new-Spares dev (some blob) = search (rules)

  get_or_create_active_session-Spares :
      (dev : Device) → Spares m (get_or_create_active_session lib m dev)
  unfolding get_or_create_active_session
  get_or_create_active_session-Spares dev = search (rules, apart.session, stored_or_new-Spares)

  known_key-Spares : (o : Option Slice) → Spares m (known_key o)
  unfolding known_key
  known_key-Spares none = search (rules)
  known_key-Spares (some key) = search (rules)

  pub encrypt_locked-Spares :
      (dev : Device) (key_material : Slice) → Spares m (encrypt_locked lib m dev key_material)
  unfolding encrypt_locked
  encrypt_locked-Spares dev key_material =
      let sealed = encrypt-Quiet lib m.locks.get Always apart.library in
      search
        (
          rules, get_or_create_active_session-Spares, apart.remote_identity_key, known_key-Spares,
          check_trust-Spares, sealed, put_session-Spares,
        )
        depth 14

  stale_by_id-Spares : (id : ℕ) (o : Option SignedPreKeyRecord) → Spares m (stale_by_id m id o)
  unfolding stale_by_id
  stale_by_id-Spares id none = search (rules)
  stale_by_id-Spares id (some stale) = search (rules)

  signed_prekey_by_id-Spares : (id : ℕ) → Spares m (signed_prekey_by_id m id)
  unfolding signed_prekey_by_id
  signed_prekey_by_id-Spares id =
      Within-bind m.locks.get Always Unchanged-IsFrame _ _
        (search (rules, apart.current_signed_prekey))
        λ cur. Within-if m.locks.get Always Unchanged (cur.id == id) _ _ (search (rules)) (
          Within-bind m.locks.get Always Unchanged-IsFrame _ _
            (search (rules, apart.stale_signed_prekey)) λ stale. stale_by_id-Spares id stale)

  session_from_blob-Spares :
      (sender : Device) (wrapped : Slice) → Spares m (session_from_blob lib m sender wrapped)
  unfolding session_from_blob
  session_from_blob-Spares sender wrapped =
      let opened =
        new_passive_session_from_prekey_blob-Quiet lib m.locks.get Always apart.library in
      search
        (
          rules, signed_prekey_by_id-Spares, apart.consume_prekey, opened,
          apart.put_remote_identity_key,
        )
        depth 14

  session_from_exchange-Spares :
      (sender : Device) (wrapped : Slice) (kx : KeyExchange)
      → Spares m (session_from_exchange lib m sender wrapped kx)
  unfolding session_from_exchange
  session_from_exchange-Spares sender wrapped kx =
      let opened = new_passive_session-Quiet lib m.locks.get Always apart.library in
      search
        (
          rules, signed_prekey_by_id-Spares, apart.consume_prekey, opened,
          apart.put_remote_identity_key,
        )
        depth 14

  session_for_exchange-Spares :
      (p : Protocol) (sender : Device) (wrapped : Slice) (kx : KeyExchange)
      → Spares m (session_for_exchange lib m p sender wrapped kx)
  unfolding session_for_exchange
  session_for_exchange-Spares v1 sender wrapped kx = session_from_blob-Spares sender wrapped
  session_for_exchange-Spares v2 sender wrapped kx = session_from_exchange-Spares sender wrapped kx
  session_for_exchange-Spares (other n) sender wrapped kx =
      session_from_exchange-Spares sender wrapped kx

  session_from_store-Spares :
      (o : Option Slice) (wrapped : Slice) → Spares m (session_from_store lib m o wrapped)
  unfolding session_from_store
  session_from_store-Spares none wrapped = search (rules)
  session_from_store-Spares (some blob) wrapped = search (rules)

  session_for_key-Spares :
      (sender : Device) (wrapped : Slice) (kx : Option KeyExchange)
      → Spares m (session_for_key lib m sender wrapped kx)
  unfolding session_for_key
  session_for_key-Spares sender wrapped none =
      search (rules, apart.session, session_from_store-Spares)
  session_for_key-Spares sender wrapped (some kx) =
      session_for_exchange-Spares m.protocol sender wrapped kx

  open_payload-Spares :
      (key_material iv payload : Slice) → Spares m (open_payload lib m key_material iv payload)
  unfolding open_payload
  open_payload-Spares key_material iv none = search (rules)
  open_payload-Spares key_material iv (some ciphertext) = search (rules)

  pub decrypt_locked-Spares :
      (msg : EncryptedMessage) (key : RecipientKey) → Spares m (decrypt_locked lib m msg key)
  unfolding decrypt_locked get_or_create_session_for_incoming
  decrypt_locked-Spares msg key =
      let opened = decrypt-Quiet lib m.locks.get Always apart.library in
      search (rules, session_for_key-Spares, opened, put_session-Spares, open_payload-Spares) depth
        14
