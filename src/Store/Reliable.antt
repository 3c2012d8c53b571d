-- ===== src/Store/Reliable.antt =====
-- A store that does not fail, such as one in memory: every method that reading a message needs
-- succeeds in a valid world, the consumption of a one-time prekey if it is there.
use omemo_go.Base.{ℕ, ◌≢◌, none}
use omemo_go.Types.{Slice, Device}
use omemo_go.Base.{◌≡◌}
use omemo_go.Exec.{ok, Exec}
use omemo_go.Store.{Store}
use omemo_go.Store.View.{View}

module _ {W : Type 0} (view : W → View) (IsValid : W → Type 0) where
  abbrev pub Succeeds : {A : Type 0} → Exec W A → W → Type 0
  Succeeds {A} m w = (a : A) × (w' : W) × (m w ≡ (ok a, w'))

  abbrev pub Works : {A : Type 0} → Exec W A → Type 0
  Works m = (w : W) → IsValid w → Succeeds m w

  pub record IsReliable (S : Store W) : Type 0 where
    pub current_signed_prekey : Works S.current_signed_prekey
    pub stale_signed_prekey : Works S.stale_signed_prekey
    pub consume_prekey :
        (id : ℕ) (w : W) → IsValid w → (view w).pool id ≢ none → Succeeds (S.consume_prekey id) w
    pub session : (dev : Device) → Works (S.session dev)
    pub put_session : (dev : Device) (blob : Slice) → Works (S.put_session dev blob)
    pub put_remote_identity_key :
        (dev : Device) (key : Slice) → Works (S.put_remote_identity_key dev key)
