-- ===== src/Manager/Outgoing/Safety.antt =====
-- What a key that `encryptForDevice` returns tells of the device that it is for.
use omemo_go.Base.{◌≡◌, refl, sym, ◌∙◌, ap, subst, ◌≢◌, arith, Option, none, some}
use omemo_go.Types.{Slice, Device, device_eq, TrustState, RecipientKey, KeyExchange}
use omemo_go.Errors.{Context}
use omemo_go.Exec.{⊤, Result, ok, Exec, wrapping, pure, ◌>>=◌, ◌>>◌}
use omemo_go.Exec.Steps.{
  >>=-eq-ok, wrapping-eq-ok, ok-eq-ok, wrapping-bind-eq-ok, wrapped-bind-eq-ok,
}
use omemo_go.Store.View.{View, store_session}
use omemo_go.Store.Keeps.{IsFrame, Anything, Anything-IsFrame}
use omemo_go.Store.Methods.{put_session-writes, remote_identity_key-reads}
use omemo_go.Signal.Library.{Library}
use omemo_go.Signal.Session as Signal
use omemo_go.Signal.Session.{Session}
use omemo_go.Signal.Quiet.{encrypt-Quiet}
use omemo_go.Manager.State.{Manager, with_device_lock}
use omemo_go.Manager.Locks.{lock, unlock, device_lock}
use omemo_go.Manager.Trust.{check_trust}
use omemo_go.Manager.Trust.Frame.{trust_at, check_trust-Within}
use omemo_go.Manager.Trust.Safety.{check_trust-trusted}
use omemo_go.Manager.Outgoing.{
  known_key, get_or_create_active_session, put_session, encrypt_locked, encrypt_for_device,
}
use omemo_go.Manager.Outgoing.Frame.{get_or_create_active_session-Within}
use omemo_go.Manager.Sound.{IsSound}

-- The store has an identity key for the device, trusts that key, and has a session.
pub record IsCleared (dev : Device) (v : View) : Type 0 where
  pub key : Slice
  pub recorded : v.remote_key_of dev ≡ some key
  pub trusted : trust_at key v ≡ TrustState.trusted
  pub has_session : v.session_of dev ≢ none

abbrev SameKeys : View → View → Type 0
SameKeys v v' = v'.remote_key_of ≡ v.remote_key_of

SameKeys-IsFrame : IsFrame SameKeys
SameKeys-IsFrame = record { same = λ v. refl; chain = λ u v w p q. q ∙ p }

pub known_key-bind-eq-ok :
    {W B : Type 0} (o : Option Slice) (f : Slice → Exec W B) {w w' : W} {b : B}
    → (known_key o >>= f) w ≡ (ok b, w')
    → (key : Slice) × (o ≡ some key) × (f key w ≡ (ok b, w'))
unfolding known_key
known_key-bind-eq-ok {B} none f h = cc (ap (λ (q : Result B × _). q.0) h)
known_key-bind-eq-ok (some key) f h = (key, refl, h)

module _ {W DR LS LX : Type 0} (lib : Library W DR LS LX) (m : Manager W) where
  -- The key for a device, once its identity key is known.
  abbrev pub seal :
      Device → Slice → Session DR LS → Option KeyExchange → Slice → Exec W RecipientKey
  seal dev key_material sess kx id_key = do
    check_trust m dev id_key
    (out, sess') ← wrapping Context.ratchet_encrypt (Signal.encrypt lib sess key_material)
    put_session lib m dev sess'
    pure (record { device = dev.id; wrapped = out; key_exchange = kx })

module _ {W DR LS LX : Type 0} (lib : Library W DR LS LX) (m : Manager W) (view : W → View)
    (IsValid : W → Type 0) (sound : IsSound lib m view IsValid) where
  -- A stored session is in the store, and nothing else has changed.
  pub put_session-eq-ok :
      (dev : Device) (sess : Session DR LS) {w w' : W} {u : ⊤}
      → IsValid w
      → put_session lib m dev sess w ≡ (ok u, w')
      → (blob : Slice) × (Signal.marshal lib sess ≡ ok blob)
        × IsValid w'
        × (view w' ≡ store_session dev (some blob) (view w))
  unfolding put_session
  put_session-eq-ok dev sess v h =
      let (blob, marshalled, e) =
        wrapped-bind-eq-ok Context.marshal_session (Signal.marshal lib sess)
          (λ blob. wrapping Context.store_session (m.store.put_session dev blob)) h in
      let (v', step) =
        put_session-writes view IsValid sound.lawful dev blob v
          (wrapping-eq-ok Context.store_session (m.store.put_session dev blob) e) in
      (blob, marshalled, v', step)

  stored-IsCleared :
      (dev : Device) (id_key blob : Slice) (v : View)
      → v.remote_key_of dev ≡ some id_key
      → trust_at id_key v ≡ TrustState.trusted
      → IsCleared dev (store_session dev (some blob) v)
  stored-IsCleared dev id_key blob v recorded trusted = record {
    key = id_key;
    recorded = recorded;
    trusted = trusted;
    has_session = ground arith;
  }

  seal-IsCleared :
      (dev : Device) (key_material : Slice) (sess : Session DR LS) (kx : Option KeyExchange)
      (id_key : Slice) {w w' : W} {key : RecipientKey}
      → IsValid w
      → (view w).remote_key_of dev ≡ some id_key
      → seal lib m dev key_material sess kx id_key w ≡ (ok key, w')
      → IsValid w' × IsCleared dev (view w') × (key.device ≡ dev.id)
  seal-IsCleared dev key_material sess kx id_key {w} v recorded h =
      let (u, w1, e1, h1) = >>=-eq-ok (check_trust m dev id_key) _ h in
      let (v1, trusted) = check_trust-trusted lib m view IsValid sound dev id_key v e1 in
      let kept = rw e1 at (
        (check_trust-Within lib m view IsValid sound SameKeys SameKeys-IsFrame id_key (λ v ne. refl)
            dev).at
          w v) in
      let ((out, sess'), w2, e2, h2) =
        wrapping-bind-eq-ok Context.ratchet_encrypt (Signal.encrypt lib sess key_material) _ h1 in
      let (v2, same) =
        rw e2 at ((encrypt-Quiet lib view IsValid sound.library sess key_material).at w1 v1) in
      let (u3, w3, e3, h3) = >>=-eq-ok (put_session lib m dev sess') _ h2 in
      let (blob, marshalled, v3, step) = put_session-eq-ok dev sess' v2 e3 in
      let (is_key, is_end) = ok-eq-ok h3 in
      let cleared =
        stored-IsCleared dev id_key blob (view w2)
          (ap (λ (x : View). x.remote_key_of dev) same
            ∙ (ap (λ (f : Device → Option Slice). f dev) kept.1 ∙ recorded))
          (ap (trust_at id_key) same ∙ trusted) in
      (
        subst IsValid is_end v3,
        subst (λ x. IsCleared dev (view x)) is_end (subst (IsCleared dev) (sym step) cleared),
        ap (λ (k : RecipientKey). k.device) (sym is_key),
      )

  encrypt_locked-IsCleared :
      (dev : Device) (key_material : Slice) {w w' : W} {key : RecipientKey}
      → IsValid w
      → encrypt_locked lib m dev key_material w ≡ (ok key, w')
      → IsValid w' × IsCleared dev (view w') × (key.device ≡ dev.id)
  unfolding encrypt_locked
  encrypt_locked-IsCleared dev key_material {w} v h =
      let ((sess, kx), w1, e1, h1) =
        wrapping-bind-eq-ok Context.establish_session (get_or_create_active_session lib m dev) _
          h in
      let (v1, any) = rw e1 at (
        (get_or_create_active_session-Within lib m view IsValid sound Anything Anything-IsFrame dev
            (λ key v. tt)).at
          w v) in
      let (found, w2, e2, h2) =
        wrapping-bind-eq-ok Context.load_identity_key (m.store.remote_identity_key dev) _ h1 in
      let (v2, same, is_found) = remote_identity_key-reads view IsValid sound.lawful dev v1 e2 in
      let (id_key, known, h3) =
        known_key-bind-eq-ok found (seal lib m dev key_material sess kx) h2 in
      seal-IsCleared dev key_material sess kx id_key v2
        (ap (λ (x : View). x.remote_key_of dev) same ∙ (sym is_found ∙ known)) h3

  -- For a sound manager and a valid world: when `encryptForDevice` returns a key, the key names the
  -- device, and in the world at the end, which is valid, the device has a recorded identity key
  -- that the store has as trusted, and a stored session.
  pub encrypt_for_device-IsCleared :
      (dev : Device) (key_material : Slice) {w w' : W} {key : RecipientKey}
      → IsValid w
      → encrypt_for_device lib m dev key_material w ≡ (ok key, w')
      → IsValid w' × IsCleared dev (view w') × (key.device ≡ dev.id)
  unfolding encrypt_for_device with_device_lock
  encrypt_for_device-IsCleared dev key_material {w} v h =
      let (l, t) = device_lock dev (m.locks.get w) in
      let w1 = m.locks.put (lock l t) w in
      let (v1, same1) = sound.locks (lock l t) w v in
      let (r, w2) = encrypt_locked lib m dev key_material w1 in
      let e = ap (λ (p : Result RecipientKey × W). p.0) h in
      let (v2, cleared, named) = encrypt_locked-IsCleared dev key_material v1 (λ i. (e i, w2)) in
      let (v3, same3) = sound.locks (unlock l (m.locks.get w2)) w2 v2 in
      let is_end = ap (λ (p : Result RecipientKey × W). p.1) h in
      (
        subst IsValid is_end v3,
        subst (λ x. IsCleared dev (view x)) is_end (subst (IsCleared dev) (sym same3) cleared),
        named,
      )
