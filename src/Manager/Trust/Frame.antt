-- ===== src/Manager/Trust/Frame.antt =====
-- What `checkTrust` may change in the store, for every relation that allows one step: to record trust
-- in a key that the store does not have as untrusted.
use omemo_go.Base.{◌≡◌, refl, sym, ◌∙◌, ap, ◌≢◌, Option, none, some}
use omemo_go.Types.{Slice, content, Device, TrustState}
use omemo_go.Errors.{Context}
use omemo_go.Exec.{⊤, Result, ok, err, continue, wrapped_result}
use omemo_go.Store.{TrustResolver}
use omemo_go.Store.View.{View, reads, writes, store_trust}
use omemo_go.Store.Contract.{Ends}
use omemo_go.Store.Keeps.{IsFrame, Within, Ends-Within}
use omemo_go.Signal.Library.{Library}
use omemo_go.Manager.State.{Manager}
use omemo_go.Manager.Trust.{consult, decide_trust, check_trust}
use omemo_go.Manager.Sound.{IsSound}

abbrev pub trust_at : Slice → View → TrustState
trust_at key v = v.trust_of (content key)

module _ {W DR LS LX : Type 0} (lib : Library W DR LS LX) (m : Manager W) (view : W → View)
    (IsValid : W → Type 0) (sound : IsSound lib m view IsValid) (R : View → View → Type 0)
    (frame : IsFrame R) (key : Slice)
    (trusting : (v : View)
      → trust_at key v ≢ TrustState.untrusted
      → R v (store_trust key TrustState.trusted v)) where
  -- The world after a step, against the world before it.
  abbrev StaysIn : {A : Type 0} → W → Result A × W → Type 0
  StaysIn w (r, w') = IsValid w' × R (view w) (view w')

  record_trust-StaysIn :
      (r : Result ⊤) {w w1 : W}
      → trust_at key (view w) ≢ TrustState.untrusted
      → IsValid w1
      → view w1 ≡ view w
      → StaysIn w (continue r (λ _. m.store.set_trust key TrustState.trusted) w1)
  record_trust-StaysIn (err e) {w} ne v1 same = (v1, rw same (frame.same (view w)))
  record_trust-StaysIn (ok u) {w} {w1} ne v1 same =
      let allowed = trusting (view w1) (λ p. ne (ap (trust_at key) (sym same) ∙ p)) in
      let (v2, step) =
        Ends-Within view IsValid R (writes (store_trust key TrustState.trusted)) w1
          (m.store.set_trust key TrustState.trusted w1).0
          (m.store.set_trust key TrustState.trusted w1).1 (frame.same (view w1)) allowed
          (sound.lawful.set_trust key TrustState.trusted w1 v1) in
      (v2, rw (← same) step)

  consult-StaysIn :
      (o : Option (TrustResolver W)) (dev : Device) {w : W}
      → m.trust_resolver ≡ o
      → IsValid w
      → trust_at key (view w) ≢ TrustState.untrusted
      → StaysIn w (consult m o dev key w)
  unfolding consult
  consult-StaysIn none dev {w} c v ne = (v, frame.same (view w))
  consult-StaysIn (some resolver) dev {w} c v ne =
      let (v1, same) = (sound.resolver resolver c dev key).at w v in
      record_trust-StaysIn (resolver dev key w).0 ne v1 same

  decide_trust-StaysIn :
      (t : TrustState) (dev : Device) {w : W}
      → IsValid w
      → t ≡ trust_at key (view w)
      → StaysIn w (decide_trust m t dev key w)
  unfolding decide_trust
  decide_trust-StaysIn TrustState.trusted dev {w} v e = (v, frame.same (view w))
  decide_trust-StaysIn TrustState.untrusted dev {w} v e = (v, frame.same (view w))
  decide_trust-StaysIn TrustState.undecided dev v e =
      consult-StaysIn m.trust_resolver dev refl v (λ p. cc (e ∙ p))
  decide_trust-StaysIn (TrustState.unnamed n) dev v e =
      consult-StaysIn m.trust_resolver dev refl v (λ p. cc (e ∙ p))

  verdict-StaysIn :
      (r : Result TrustState) (dev : Device) {w : W} (w1 : W)
      → Ends view IsValid (reads (trust_at key)) w (r, w1)
      → StaysIn w
          (continue (wrapped_result Context.load_trust_state r) (λ t. decide_trust m t dev key) w1)
  verdict-StaysIn (err e) dev {w} w1 (v1, same) = (v1, rw same (frame.same (view w)))
  verdict-StaysIn (ok t) dev {w} w1 (v1, e) =
      let same = ap (λ (p : Result TrustState × View). p.1) e in
      let t_is = ap (λ (p : Result TrustState × View). elim p.0 [ ok s ↦ s | err x ↦ t ]) e in
      let (v2, step) = decide_trust-StaysIn t dev v1 (sym t_is ∙ ap (trust_at key) same) in
      (v2, rw same step)

  pub check_trust-Within : (dev : Device) → Within view IsValid R (check_trust m dev key)
  unfolding check_trust
  check_trust-Within dev = record {
    at = λ w v.
        verdict-StaysIn (m.store.trust key w).0 dev (m.store.trust key w).1
          (sound.lawful.trust key w v);
  }
