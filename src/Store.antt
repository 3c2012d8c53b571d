-- ===== src/Store.antt =====
-- The interfaces of store.go and transport.go, over a type `W` of states of the world: each method
-- may fail and may change the world. `Callback` is the type `TrustResolver` of errors.go.
pub mod View
pub mod Contract
pub mod Keeps
pub mod Methods
pub mod Reliable
use omemo_go.Base.{ℕ, String, Bool, Option, List}
use omemo_go.Types.{Slice, Device, SignedPreKeyRecord, PreKeyRecord, TrustState, DeviceList, Bundle}
use omemo_go.Exec.{⊤, Exec}

-- The `ok` of a lookup is folded into an `Option`.
pub record Store (W : Type 0) : Type 0 where
  pub identity_key_pair : Exec W Slice
  pub set_identity_key_pair : Slice → Exec W ⊤
  pub local_device : Exec W Device
  pub set_local_device : Device → Exec W ⊤
  pub current_signed_prekey : Exec W SignedPreKeyRecord
  pub stale_signed_prekey : Exec W (Option SignedPreKeyRecord)
  pub rotate_signed_prekey : SignedPreKeyRecord → Exec W ⊤
  pub prekey_count : Exec W ℕ
  pub prekeys : Exec W (List PreKeyRecord)
  pub next_prekey_id : Exec W ℕ
  pub put_prekeys : List PreKeyRecord → Exec W ⊤
  pub consume_prekey : ℕ → Exec W PreKeyRecord
  pub session : Device → Exec W (Option Slice)
  pub put_session : Device → Slice → Exec W ⊤
  pub delete_session : Device → Exec W ⊤
  pub trust : Slice → Exec W TrustState
  pub set_trust : Slice → TrustState → Exec W ⊤
  pub devices : String → Exec W (List ℕ)
  pub set_devices : String → List ℕ → Exec W ⊤
  pub remote_identity_key : Device → Exec W (Option Slice)
  pub put_remote_identity_key : Device → Slice → Exec W ⊤

pub record Transport (W : Type 0) : Type 0 where
  pub fetch_device_list : String → Exec W DeviceList
  pub publish_device_list : DeviceList → Exec W ⊤
  pub fetch_bundle : Device → Exec W Bundle
  pub publish_bundle : Bundle → Exec W ⊤

-- Returning without an error trusts the device.
abbrev pub TrustResolver : Type 0 → Type 0
TrustResolver W = Device → Slice → Exec W ⊤
