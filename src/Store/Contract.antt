-- ===== src/Store/Contract.antt =====
-- The contract of store.go as laws: whatever a method returns without an error is what the abstract
-- method returns, with its effect on the abstract content; a method that reports an error has
-- changed nothing. Any method may report an error, since a database may.
pub mod Use
use omemo_go.Base.{ℕ, String, Option, some, List, ◌≡◌}
use omemo_go.Types.{Slice, Device, SignedPreKeyRecord, PreKeyRecord, TrustState, content}
use omemo_go.Exec.{⊤, Result, ok, err, Exec}
use omemo_go.Store.{Store}
use omemo_go.Store.View.{
  View, reads, writes, store_identity_key, store_local_device, store_session, store_trust,
  store_devices, store_remote_key, rotate, consume,
}

module _ {W : Type 0} (view : W → View) (IsValid : W → Type 0) where
  -- How a call that began in `w` has ended, against the abstract method.
  abbrev pub Ends : {A : Type 0} → Exec View A → W → Result A × W → Type 0
  Ends spec w (ok a, w') = IsValid w' × (spec (view w) ≡ (ok a, view w'))
  Ends spec w (err e, w') = IsValid w' × (view w' ≡ view w)

  abbrev pub Meets : {A : Type 0} → Exec View A → Exec W A → Type 0
  Meets spec m = (w : W) → IsValid w → Ends spec w (m w)

  pub record IsLawful (S : Store W) : Type 0 where
    pub identity_key_pair : Meets (reads λ v. v.identity_key) S.identity_key_pair
    pub set_identity_key_pair :
        (priv : Slice) → Meets (writes (store_identity_key priv)) (S.set_identity_key_pair priv)
    pub local_device : Meets (reads λ v. v.local_device) S.local_device
    pub set_local_device :
        (dev : Device) → Meets (writes (store_local_device dev)) (S.set_local_device dev)
    pub current_signed_prekey : Meets (reads λ v. v.current) S.current_signed_prekey
    pub stale_signed_prekey : Meets (reads λ v. v.stale) S.stale_signed_prekey
    pub rotate_signed_prekey :
        (next : SignedPreKeyRecord) → Meets (writes (rotate next)) (S.rotate_signed_prekey next)
    pub consume_prekey : (id : ℕ) → Meets (consume id) (S.consume_prekey id)
    pub session : (dev : Device) → Meets (reads λ v. v.session_of dev) (S.session dev)
    pub put_session :
        (dev : Device) (blob : Slice)
        → Meets (writes (store_session dev (some blob))) (S.put_session dev blob)
    pub delete_session :
        (dev : Device) → Meets (writes (store_session dev Option.none)) (S.delete_session dev)
    pub trust : (key : Slice) → Meets (reads λ v. v.trust_of (content key)) (S.trust key)
    pub set_trust :
        (key : Slice) (state : TrustState)
        → Meets (writes (store_trust key state)) (S.set_trust key state)
    pub devices : (jid : String) → Meets (reads λ v. v.devices_of jid) (S.devices jid)
    pub set_devices :
        (jid : String) (ids : List ℕ)
        → Meets (writes (store_devices jid ids)) (S.set_devices jid ids)
    pub remote_identity_key :
        (dev : Device) → Meets (reads λ v. v.remote_key_of dev) (S.remote_identity_key dev)
    pub put_remote_identity_key :
        (dev : Device) (key : Slice)
        → Meets (writes (store_remote_key dev key)) (S.put_remote_identity_key dev key)
