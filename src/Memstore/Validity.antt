-- ===== src/Memstore/Validity.antt =====
-- The well-formedness of the in-memory store, kept by every method: no map holds a key twice, and a
-- one-time prekey stands under its own id.
use omemo_go.Base.{ℕ, ◌≡◌, some, List, [], ◌∷◌, arith}
use omemo_go.Base.{nat_eq, string_eq, bytes_eq}
use omemo_go.Base.GoMap.{
  GoMap, NodupKeys, lookup, insert, erase, insert-NodupKeys, lookup-insert, lookup-erase,
}
use omemo_go.Types.{device_eq, PreKeyRecord}
use omemo_go.Memstore
use omemo_go.Memstore.{MemStore}

-- Every prekey stands under its own id.
abbrev pub IsKeyed : GoMap ℕ PreKeyRecord → Type 0
IsKeyed pool = (k : ℕ) (r : PreKeyRecord) → lookup k pool ≡ some r → r.id ≡ k

pub record IsValid (s : MemStore) : Type 0 where
  pub prekeys : NodupKeys s.prekeys
  pub keyed : IsKeyed s.prekeys
  pub sessions : NodupKeys s.sessions
  pub trust : NodupKeys s.trust
  pub devices : NodupKeys s.devices
  pub remote_id : NodupKeys s.remote_id

pub new-IsValid : IsValid Memstore.new
unfolding Memstore.new lookup
new-IsValid = record {
  prekeys = tt;
  keyed = λ k r h. cc;
  sessions = tt;
  trust = tt;
  devices = tt;
  remote_id = tt;
}

insert-IsKeyed :
    (r : PreKeyRecord) (pool : GoMap ℕ PreKeyRecord) → IsKeyed pool → IsKeyed (insert r.id r pool)
insert-IsKeyed r pool h k q e = ground (arith, lookup-insert k r.id r pool, h k q)

pub put_all-NodupKeys :
    (recs : List PreKeyRecord) (pool : GoMap ℕ PreKeyRecord)
    → NodupKeys pool
    → NodupKeys (Memstore.put_all recs pool)
unfolding Memstore.put_all
put_all-NodupKeys [] pool u = u
put_all-NodupKeys (r ∷ recs) pool u =
    put_all-NodupKeys recs (insert r.id r pool) (insert-NodupKeys r.id r pool u)

pub put_all-IsKeyed :
    (recs : List PreKeyRecord) (pool : GoMap ℕ PreKeyRecord)
    → IsKeyed pool
    → IsKeyed (Memstore.put_all recs pool)
unfolding Memstore.put_all
put_all-IsKeyed [] pool u = u
put_all-IsKeyed (r ∷ recs) pool u =
    put_all-IsKeyed recs (insert r.id r pool) (insert-IsKeyed r pool u)

pub erase-IsKeyed :
    (id : ℕ) (pool : GoMap ℕ PreKeyRecord) → NodupKeys pool → IsKeyed pool → IsKeyed (erase id pool)
erase-IsKeyed id pool u h k q e = ground (arith, lookup-erase k id pool u, h k q)

-- A pool of one record.
pub single-IsKeyed : (r : PreKeyRecord) → IsKeyed ((r.id, r) ∷ [])
unfolding lookup
single-IsKeyed r k r' h = ground (arith, h)
