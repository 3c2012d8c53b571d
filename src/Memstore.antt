-- ===== src/Memstore.antt =====
-- memstore/memstore.go: the in-memory store. Every method takes and releases `s.mu` around its whole
-- body, so it is one step here. Go leaves the order in which `range` visits a map open: it is the
-- argument `order` of `prekeys`. Slices are values here: the store keeps the caller's slice, and a
-- caller that writes into it afterwards is not modelled.
pub mod Interface
pub mod Validity
pub mod Refines
pub mod Reliable
pub mod Ids
pub mod Listing
pub mod Pool
use omemo_go.Base.{
  ℕ, ◌+◌, ◌%◌, String, Bool, Option, none, some, List, [], ◌∷◌, map, length, if◌then◌else◌, nat_eq,
  string_eq, bytes_eq,
}
use omemo_go.Base.GoMap.{GoMap, lookup, insert, erase}
use omemo_go.Types.{
  Bytes, Slice, content, u32_mod, Device, device_eq, SignedPreKeyRecord, PreKeyRecord, TrustState,
}
use omemo_go.Errors.{Error, one_time_prekey_missing}
use omemo_go.Exec.{⊤, Result, ok, err, Exec}

pub record MemStore : Type 0 where
  pub identity_key : Slice
  pub local_device : Device
  pub current_spk : SignedPreKeyRecord
  pub stale_spk : Option SignedPreKeyRecord
  pub prekeys : GoMap ℕ PreKeyRecord
  pub next_id : ℕ
  pub sessions : GoMap Device Slice
  pub trust : GoMap Bytes TrustState
  pub devices : GoMap String (List ℕ)
  pub remote_id : GoMap Device Slice

-- Go's zero values.
abbrev pub zero_device : Device
zero_device = record { jid = ""; id = 0 }

abbrev pub zero_spk : SignedPreKeyRecord
zero_spk = record { id = 0; public = none; private = none; signature = none }

-- New
unfoldable pub new : MemStore
new = record {
  identity_key = none;
  local_device = zero_device;
  current_spk = zero_spk;
  stale_spk = none;
  prekeys = [];
  next_id = 0;
  sessions = [];
  trust = [];
  devices = [];
  remote_id = [];
}

unfoldable pub identity_key_pair : Exec MemStore Slice
identity_key_pair s = (ok s.identity_key, s)

unfoldable pub set_identity_key_pair : Slice → Exec MemStore ⊤
set_identity_key_pair priv s = (ok tt, record s { identity_key = priv })

unfoldable pub local_device : Exec MemStore Device
local_device s = (ok s.local_device, s)

unfoldable pub set_local_device : Device → Exec MemStore ⊤
set_local_device dev s = (ok tt, record s { local_device = dev })

unfoldable pub current_signed_prekey : Exec MemStore SignedPreKeyRecord
current_signed_prekey s = (ok s.current_spk, s)

unfoldable pub stale_signed_prekey : Exec MemStore (Option SignedPreKeyRecord)
stale_signed_prekey s = (ok s.stale_spk, s)

-- The record that becomes stale: the current one, if its public key is not nil.
unfoldable pub demoted : SignedPreKeyRecord → Option SignedPreKeyRecord → Option SignedPreKeyRecord
demoted cur stale = elim cur.public [ none ↦ stale | some _ ↦ some cur ]

unfoldable pub rotate_signed_prekey : SignedPreKeyRecord → Exec MemStore ⊤
unfolding demoted
rotate_signed_prekey next s =
    (ok tt, record s { stale_spk = demoted s.current_spk s.stale_spk; current_spk = next })

unfoldable pub prekey_count : Exec MemStore ℕ
prekey_count s = (ok (length s.prekeys), s)

abbrev pub entry_value : ℕ × PreKeyRecord → PreKeyRecord
entry_value (_, r) = r

unfoldable pub prekeys : (List PreKeyRecord → List PreKeyRecord) → Exec MemStore (List PreKeyRecord)
prekeys order s = (ok (order (map entry_value s.prekeys)), s)

-- `s.nextPreKeyID++` on a uint32.
unfoldable pub next_prekey_id : Exec MemStore ℕ
next_prekey_id s = let id = (s.next_id + 1) % u32_mod in (ok id, record s { next_id = id })

unfoldable pub put_all : List PreKeyRecord → GoMap ℕ PreKeyRecord → GoMap ℕ PreKeyRecord
put_all [] pool = pool
put_all (r ∷ recs) pool = put_all recs (insert r.id r pool)

unfoldable pub put_prekeys : List PreKeyRecord → Exec MemStore ⊤
put_prekeys recs s = (ok tt, record s { prekeys = put_all recs s.prekeys })

-- What `ConsumePreKey` does after its lookup.
unfoldable pub consume_found : ℕ → Option PreKeyRecord → Exec MemStore PreKeyRecord
consume_found id none s = (err (one_time_prekey_missing id), s)
consume_found id (some rec) s = (ok rec, record s { prekeys = erase id s.prekeys })

unfoldable pub consume_prekey : ℕ → Exec MemStore PreKeyRecord
unfolding consume_found
consume_prekey id s = consume_found id (lookup id s.prekeys) s

unfoldable pub session : Device → Exec MemStore (Option Slice)
session dev s = (ok (lookup dev s.sessions), s)

unfoldable pub put_session : Device → Slice → Exec MemStore ⊤
put_session dev blob s = (ok tt, record s { sessions = insert dev blob s.sessions })

unfoldable pub delete_session : Device → Exec MemStore ⊤
delete_session dev s = (ok tt, record s { sessions = erase dev s.sessions })

-- A missing key reads as the zero value.
abbrev pub trust_or_zero : Option TrustState → TrustState
trust_or_zero none = TrustState.undecided
trust_or_zero (some t) = t

abbrev pub list_or_nil : Option (List ℕ) → List ℕ
list_or_nil none = []
list_or_nil (some ids) = ids

unfoldable pub trust : Slice → Exec MemStore TrustState
trust key s = (ok (trust_or_zero (lookup (content key) s.trust)), s)

unfoldable pub set_trust : Slice → TrustState → Exec MemStore ⊤
set_trust key state s = (ok tt, record s { trust = insert (content key) state s.trust })

unfoldable pub devices : String → Exec MemStore (List ℕ)
devices jid s = (ok (list_or_nil (lookup jid s.devices)), s)

unfoldable pub set_devices : String → List ℕ → Exec MemStore ⊤
set_devices jid ids s = (ok tt, record s { devices = insert jid ids s.devices })

unfoldable pub remote_identity_key : Device → Exec MemStore (Option Slice)
remote_identity_key dev s = (ok (lookup dev s.remote_id), s)

unfoldable pub put_remote_identity_key : Device → Slice → Exec MemStore ⊤
put_remote_identity_key dev key s = (ok tt, record s { remote_id = insert dev key s.remote_id })
