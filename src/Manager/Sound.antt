-- ===== src/Manager/Sound.antt =====
-- What the theorems about a manager assume of the code around it: its store keeps the contract of
-- store.go, and nothing else touches the content of the store, the trust resolver included.
use omemo_go.Base.{String, ◌≡◌, ap, subst, some}
use omemo_go.Types.{Slice, Device, Bundle}
use omemo_go.Exec.{Result, ok, Exec}
use omemo_go.Store.{TrustResolver}
use omemo_go.Store.View.{View}
use omemo_go.Store.Contract.{IsLawful}
use omemo_go.Store.Keeps.{Quiet, Within}
use omemo_go.Signal.Library.{Library}
use omemo_go.Signal.Quiet.{IsQuietLibrary}
use omemo_go.Manager.Locks.{LockTable, device_lock, lock, unlock}
use omemo_go.Manager.State.{Manager, with_device_lock}

pub record IsSound {W DR LS LX : Type 0} (lib : Library W DR LS LX) (m : Manager W)
    (view : W → View) (IsValid : W → Type 0) : Type 0 where
  pub lawful : IsLawful view IsValid m.store
  pub library : IsQuietLibrary lib view IsValid
  pub fetch_device_list : (jid : String) → Quiet view IsValid (m.transport.fetch_device_list jid)
  pub fetch_bundle : (dev : Device) → Quiet view IsValid (m.transport.fetch_bundle dev)
  pub publish_bundle : (b : Bundle) → Quiet view IsValid (m.transport.publish_bundle b)
  pub resolver :
      (r : TrustResolver W)
      → m.trust_resolver ≡ some r
      → (dev : Device) (key : Slice) → Quiet view IsValid (r dev key)
  pub locks :
      (t : LockTable) (w : W)
      → IsValid w
      → IsValid (m.locks.put t w) × (view (m.locks.put t w) ≡ view w)

module _ {W DR LS LX : Type 0} (lib : Library W DR LS LX) (m : Manager W) (view : W → View)
    (IsValid : W → Type 0) (sound : IsSound lib m view IsValid) where
  -- The bracket of the lock adds nothing to what its body does to the store.
  pub with_device_lock-Within :
      (R : View → View → Type 0) {A : Type 0} (dev : Device) (body : Exec W A)
      → Within view IsValid R body
      → Within view IsValid R (with_device_lock m dev body)
  unfolding with_device_lock
  with_device_lock-Within R dev body k = record {
    at = λ w v.
        let (l, t) = device_lock dev (m.locks.get w) in
        let (v1, e1) = sound.locks (lock l t) w v in
        let (v2, step) = k.at (m.locks.put (lock l t) w) v1 in
        let (r, w2) = body (m.locks.put (lock l t) w) in
        let (v3, e3) = sound.locks (unlock l (m.locks.get w2)) w2 v2 in (v3, rw (e3, ← e1) step);
  }

  -- A successful call under the lock: its body ran in a world with the same content, and the world
  -- at the end has the content that the body left.
  pub with_device_lock-eq-ok :
      {A : Type 0} (dev : Device) (body : Exec W A) {w w' : W} {a : A}
      → IsValid w
      → with_device_lock m dev body w ≡ (ok a, w')
      → (w1 w2 : W) × IsValid w1
        × (view w1 ≡ view w)
        × (body w1 ≡ (ok a, w2))
        × (IsValid w2 → IsValid w' × (view w' ≡ view w2))
  unfolding with_device_lock
  with_device_lock-eq-ok {A} dev body {w} v h =
      let (l, t) = device_lock dev (m.locks.get w) in
      let w1 = m.locks.put (lock l t) w in
      let (v1, same1) = sound.locks (lock l t) w v in
      let (r, w2) = body w1 in
      let e = ap (λ (p : Result A × W). p.0) h in
      let is_end = ap (λ (p : Result A × W). p.1) h in
      (
        w1,
        w2,
        v1,
        same1,
        λ i. (e i, w2),
        λ v2.
            subst (λ x. IsValid x × (view x ≡ view w2)) is_end
              (sound.locks (unlock l (m.locks.get w2)) w2 v2),
      )
