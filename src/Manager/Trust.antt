-- ===== src/Manager/Trust.antt =====
-- checkTrust (manager.go).
pub mod Safety
pub mod Frame
use omemo_go.Base.{Option, none, some}
use omemo_go.Types.{Slice, Device, TrustState}
use omemo_go.Errors.{Context, Sentinel, sentinel}
use omemo_go.Exec.{⊤, Exec, pure, raise, wrapping, ◌>>=◌, ◌>>◌}
use omemo_go.Store.{TrustResolver}
use omemo_go.Manager.State.{Manager}

module _ {W : Type 0} (m : Manager W) where
  -- The last part, for a key that is neither trusted nor untrusted.
  unfoldable pub consult : Option (TrustResolver W) → Device → Slice → Exec W ⊤
  consult none dev key = raise (sentinel Sentinel.untrusted_device)
  consult (some resolver) dev key = do resolver dev key; m.store.set_trust key TrustState.trusted

  unfoldable pub decide_trust : TrustState → Device → Slice → Exec W ⊤
  unfolding consult
  decide_trust TrustState.trusted dev key = pure tt
  decide_trust TrustState.untrusted dev key = raise (sentinel Sentinel.blocked_device)
  decide_trust _ dev key = consult m.trust_resolver dev key

  unfoldable pub check_trust : Device → Slice → Exec W ⊤
  unfolding decide_trust
  check_trust dev key = do
    state ← wrapping Context.load_trust_state (m.store.trust key)
    decide_trust state dev key
