-- ===== src/Manager/Trust/Safety.antt =====
-- What `checkTrust` guarantees, on every path.
use omemo_go.Base.{◌≡◌, refl, sym, ◌∙◌, ap, Option, none, some, arith, bytes_eq}
use omemo_go.Types.{Slice, content, Device, TrustState}
use omemo_go.Errors.{Context}
use omemo_go.Exec.{⊤, Result, ok, wrapping}
use omemo_go.Exec.Steps.{>>=-eq-ok, wrapping-eq-ok}
use omemo_go.Store.{TrustResolver}
use omemo_go.Store.View.{View, store_trust}
use omemo_go.Store.Methods.{set_trust-writes, trust-reads}
use omemo_go.Store.Keeps.{IsFrame}
use omemo_go.Manager.Trust.Frame.{trust_at, check_trust-Within}
use omemo_go.Signal.Library.{Library}
use omemo_go.Manager.State.{Manager}
use omemo_go.Manager.Trust.{consult, decide_trust, check_trust}
use omemo_go.Manager.Sound.{IsSound}

-- While the key is blocked, nothing changes.
abbrev KeepsBlocked : Slice → View → View → Type 0
KeepsBlocked key v v' = trust_at key v ≡ TrustState.untrusted → v' ≡ v

KeepsBlocked-IsFrame : (key : Slice) → IsFrame (KeepsBlocked key)
KeepsBlocked-IsFrame key = record {
  same = λ v b. refl;
  chain = λ u v w p q b. q (ap (trust_at key) (p b) ∙ b) ∙ p b;
}

module _ {W DR LS LX : Type 0} (lib : Library W DR LS LX) (m : Manager W) (view : W → View)
    (IsValid : W → Type 0) (sound : IsSound lib m view IsValid) where
  -- The trust that the store has for an identity key.
  abbrev trust_in : W → Slice → TrustState
  trust_in w key = (view w).trust_of (content key)

  store_trust_self :
      (v : View) (key : Slice) (t : TrustState) → (store_trust key t v).trust_of (content key) ≡ t
  store_trust_self v key t = ground arith

  consult-trusted :
      (r : Option (TrustResolver W)) (dev : Device) (key : Slice) {w w' : W}
      → m.trust_resolver ≡ r
      → IsValid w
      → consult m r dev key w ≡ (ok tt, w')
      → IsValid w' × (trust_in w' key ≡ TrustState.trusted)
  unfolding consult
  consult-trusted none dev key c v h = cc h
  consult-trusted (some resolver) dev key {w} {w'} c v h =
      let (u, w1, e1, e2) =
        >>=-eq-ok (resolver dev key) (λ _. m.store.set_trust key TrustState.trusted) h in
      let (v1, same) = rw e1 at ((sound.resolver resolver c dev key).at w v) in
      let (v2, step) = set_trust-writes view IsValid sound.lawful key TrustState.trusted v1 e2 in
      (v2, ap (trust_at key) step ∙ store_trust_self (view w1) key TrustState.trusted)

  decide_trust-trusted :
      (t : TrustState) (dev : Device) (key : Slice) {w w' : W}
      → IsValid w
      → t ≡ trust_in w key
      → decide_trust m t dev key w ≡ (ok tt, w')
      → IsValid w' × (trust_in w' key ≡ TrustState.trusted)
  unfolding decide_trust
  decide_trust-trusted TrustState.trusted dev key {w} {w'} v e h =
      let same = ap (λ (p : Result ⊤ × W). p.1) h in rw (← same) (v, sym e)
  decide_trust-trusted TrustState.untrusted dev key v e h = cc h
  decide_trust-trusted TrustState.undecided dev key v e h =
      consult-trusted m.trust_resolver dev key refl v h
  decide_trust-trusted (TrustState.unnamed n) dev key v e h =
      consult-trusted m.trust_resolver dev key refl v h

  -- For a sound manager and a valid world: when `checkTrust` returns nil for an identity key, the
  -- store has that key as trusted in the world at the end, which is valid.
  pub check_trust-trusted :
      (dev : Device) (key : Slice) {w w' : W}
      → IsValid w
      → check_trust m dev key w ≡ (ok tt, w')
      → IsValid w' × (trust_in w' key ≡ TrustState.trusted)
  unfolding check_trust
  check_trust-trusted dev key {w} {w'} v h =
      let (t, w1, e1, e2) =
        >>=-eq-ok (wrapping Context.load_trust_state (m.store.trust key))
          (λ t. decide_trust m t dev key) h in
      let (v1, same, t_is) =
        trust-reads view IsValid sound.lawful key v
          (wrapping-eq-ok Context.load_trust_state (m.store.trust key) e1) in
      decide_trust-trusted t dev key v1 (t_is ∙ ap (trust_at key) (sym same)) e2

  -- For a sound manager and a valid world in which the store has the identity key as untrusted:
  -- `checkTrust` does not return nil, with a resolver or without, and the content of the store
  -- stays as it was.
  pub check_trust-blocked :
      (dev : Device) (key : Slice) (w : W)
      → IsValid w
      → trust_in w key ≡ TrustState.untrusted
      → (view (check_trust m dev key w).1 ≡ view w)
        × ¬ ((w' : W) × (check_trust m dev key w ≡ (ok tt, w')))
  check_trust-blocked dev key w v blocked =
      let stays =
        (check_trust-Within lib m view IsValid sound (KeepsBlocked key) (KeepsBlocked-IsFrame key)
            key (λ u ne b. absurd (ne b)) dev).at
          w v in
      (
        stays.1 blocked,
        λ (w', h).
            let (v', trusted) = check_trust-trusted dev key v h in
            let same = ap view (ap (λ (p : Result ⊤ × W). p.1) (sym h)) ∙ stays.1 blocked in
            cc (sym trusted ∙ (ap (trust_at key) same ∙ blocked)),
      )
