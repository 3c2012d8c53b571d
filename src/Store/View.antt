-- ===== src/Store/View.antt =====
-- What store.go promises: the abstract content of a store, as functions of the keys, and the effect
-- that each method has on it. Trust is bound to the bytes of the identity key. Nothing here lists a
-- map or counts it, so the content has no order.
use omemo_go.Base.{ℕ, String, Option, none, some, List, Eq, ◌==◌, nat_eq, string_eq, bytes_eq}
use omemo_go.Base.{if◌then◌else◌}
use omemo_go.Types.{
  Bytes, Slice, content, Device, device_eq, SignedPreKeyRecord, PreKeyRecord, TrustState,
}
use omemo_go.Errors.{one_time_prekey_missing}
use omemo_go.Exec.{⊤, ok, err, Exec}

pub record View : Type 0 where
  pub identity_key : Slice
  pub local_device : Device
  pub current : SignedPreKeyRecord
  pub stale : Option SignedPreKeyRecord
  pub pool : ℕ → Option PreKeyRecord
  pub session_of : Device → Option Slice
  pub trust_of : Bytes → TrustState
  pub devices_of : String → List ℕ
  pub remote_key_of : Device → Option Slice

-- The function that is `f` but for `v` at `k`.
abbrev pub update {ℓ κ} : {K : Type ℓ} {V : Type κ} ⦃e : Eq K⦄ → K → V → (K → V) → K → V
update k v f j = if j == k then v else f j

-- A method that reads.
abbrev pub reads : {A : Type 0} → (View → A) → Exec View A
reads f v = (ok (f v), v)

-- A method that writes.
abbrev pub writes : (View → View) → Exec View ⊤
writes f v = (ok tt, f v)

abbrev pub store_identity_key : Slice → View → View
store_identity_key priv v = record v { identity_key = priv }

abbrev pub store_local_device : Device → View → View
store_local_device dev v = record v { local_device = dev }

abbrev pub store_pool : (ℕ → Option PreKeyRecord) → View → View
store_pool pool v = record v { pool = pool }

abbrev pub store_session : Device → Option Slice → View → View
store_session dev blob v = record v { session_of = update dev blob v.session_of }

abbrev pub store_trust : Slice → TrustState → View → View
store_trust key state v = record v { trust_of = update (content key) state v.trust_of }

abbrev pub store_devices : String → List ℕ → View → View
store_devices jid ids v = record v { devices_of = update jid ids v.devices_of }

abbrev pub store_remote_key : Device → Slice → View → View
store_remote_key dev key v = record v { remote_key_of = update dev (some key) v.remote_key_of }

-- The new key is current, and the previous one is stale, if there was one.
abbrev pub rotate : SignedPreKeyRecord → View → View
rotate next v = record v {
  stale = elim v.current.public [ none ↦ v.stale | some _ ↦ some v.current ];
  current = next;
}

-- A one-time prekey is handed out and gone; an unknown one is refused.
abbrev pub consume_found : ℕ → Option PreKeyRecord → Exec View PreKeyRecord
consume_found id none v = (err (one_time_prekey_missing id), v)
consume_found id (some rec) v = (ok rec, store_pool (update id none v.pool) v)

abbrev pub consume : ℕ → Exec View PreKeyRecord
consume id v = consume_found id (v.pool id) v
