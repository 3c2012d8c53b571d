-- ===== src/Store/Methods.antt =====
-- The methods of a lawful store one by one: what a successful call tells its caller, and within
-- which relation a call stays.
use omemo_go.Base.{ℕ, String, ◌≡◌, refl, Option, none, some, List}
use omemo_go.Types.{Slice, content, Device, SignedPreKeyRecord, TrustState}
use omemo_go.Exec.{⊤, ok}
use omemo_go.Store.{Store}
use omemo_go.Store.View.{
  View, reads, writes, store_session, store_trust, store_devices, store_remote_key, rotate, consume,
}
use omemo_go.Store.Contract.{IsLawful}
use omemo_go.Store.Contract.Use.{reads-ok, writes-ok}
use omemo_go.Store.Keeps.{Within, Quiet, IsFrame, Within-method}

module _ {W : Type 0} (view : W → View) (IsValid : W → Type 0) {S : Store W}
    (law : IsLawful view IsValid S) where
  pub identity_key_pair-reads :
      {w w' : W} {x : Slice}
      → IsValid w
      → S.identity_key_pair w ≡ (ok x, w')
      → IsValid w' × (view w' ≡ view w) × (let v = view w in x ≡ v.identity_key)
  identity_key_pair-reads =
      reads-ok view IsValid (λ v. v.identity_key) S.identity_key_pair law.identity_key_pair

  pub identity_key_pair-Quiet : Quiet view IsValid S.identity_key_pair
  identity_key_pair-Quiet =
      Within-method view IsValid _ (reads λ v. v.identity_key) S.identity_key_pair
        law.identity_key_pair (λ v. refl) (λ v. refl)

  pub local_device-reads :
      {w w' : W} {x : Device}
      → IsValid w
      → S.local_device w ≡ (ok x, w')
      → IsValid w' × (view w' ≡ view w) × (let v = view w in x ≡ v.local_device)
  local_device-reads = reads-ok view IsValid (λ v. v.local_device) S.local_device law.local_device

  pub local_device-Quiet : Quiet view IsValid S.local_device
  local_device-Quiet =
      Within-method view IsValid _ (reads λ v. v.local_device) S.local_device law.local_device
        (λ v. refl) (λ v. refl)

  pub current_signed_prekey-reads :
      {w w' : W} {x : SignedPreKeyRecord}
      → IsValid w
      → S.current_signed_prekey w ≡ (ok x, w')
      → IsValid w' × (view w' ≡ view w) × (let v = view w in x ≡ v.current)
  current_signed_prekey-reads =
      reads-ok view IsValid (λ v. v.current) S.current_signed_prekey law.current_signed_prekey

  pub current_signed_prekey-Quiet : Quiet view IsValid S.current_signed_prekey
  current_signed_prekey-Quiet =
      Within-method view IsValid _ (reads λ v. v.current) S.current_signed_prekey
        law.current_signed_prekey (λ v. refl) (λ v. refl)

  pub stale_signed_prekey-reads :
      {w w' : W} {x : Option SignedPreKeyRecord}
      → IsValid w
      → S.stale_signed_prekey w ≡ (ok x, w')
      → IsValid w' × (view w' ≡ view w) × (let v = view w in x ≡ v.stale)
  stale_signed_prekey-reads =
      reads-ok view IsValid (λ v. v.stale) S.stale_signed_prekey law.stale_signed_prekey

  pub stale_signed_prekey-Quiet : Quiet view IsValid S.stale_signed_prekey
  stale_signed_prekey-Quiet =
      Within-method view IsValid _ (reads λ v. v.stale) S.stale_signed_prekey
        law.stale_signed_prekey (λ v. refl) (λ v. refl)

  pub session-reads :
      (dev : Device) {w w' : W} {x : Option Slice}
      → IsValid w
      → S.session dev w ≡ (ok x, w')
      → IsValid w' × (view w' ≡ view w) × (let v = view w in x ≡ v.session_of dev)
  session-reads dev =
      reads-ok view IsValid (λ v. v.session_of dev) (S.session dev) (law.session dev)

  pub session-Quiet : (dev : Device) → Quiet view IsValid (S.session dev)
  session-Quiet dev =
      Within-method view IsValid _ (reads λ v. v.session_of dev) (S.session dev) (law.session dev)
        (λ v. refl) (λ v. refl)

  pub trust-reads :
      (key : Slice) {w w' : W} {x : TrustState}
      → IsValid w
      → S.trust key w ≡ (ok x, w')
      → IsValid w' × (view w' ≡ view w) × (let v = view w in x ≡ v.trust_of (content key))
  trust-reads key =
      reads-ok view IsValid (λ v. v.trust_of (content key)) (S.trust key) (law.trust key)

  pub trust-Quiet : (key : Slice) → Quiet view IsValid (S.trust key)
  trust-Quiet key =
      Within-method view IsValid _ (reads λ v. v.trust_of (content key)) (S.trust key)
        (law.trust key) (λ v. refl) (λ v. refl)

  pub devices-reads :
      (jid : String) {w w' : W} {x : List ℕ}
      → IsValid w
      → S.devices jid w ≡ (ok x, w')
      → IsValid w' × (view w' ≡ view w) × (let v = view w in x ≡ v.devices_of jid)
  devices-reads jid =
      reads-ok view IsValid (λ v. v.devices_of jid) (S.devices jid) (law.devices jid)

  pub devices-Quiet : (jid : String) → Quiet view IsValid (S.devices jid)
  devices-Quiet jid =
      Within-method view IsValid _ (reads λ v. v.devices_of jid) (S.devices jid) (law.devices jid)
        (λ v. refl) (λ v. refl)

  pub remote_identity_key-reads :
      (dev : Device) {w w' : W} {x : Option Slice}
      → IsValid w
      → S.remote_identity_key dev w ≡ (ok x, w')
      → IsValid w' × (view w' ≡ view w) × (let v = view w in x ≡ v.remote_key_of dev)
  remote_identity_key-reads dev =
      reads-ok view IsValid (λ v. v.remote_key_of dev) (S.remote_identity_key dev)
        (law.remote_identity_key dev)

  pub remote_identity_key-Quiet : (dev : Device) → Quiet view IsValid (S.remote_identity_key dev)
  remote_identity_key-Quiet dev =
      Within-method view IsValid _ (reads λ v. v.remote_key_of dev) (S.remote_identity_key dev)
        (law.remote_identity_key dev) (λ v. refl) (λ v. refl)

  pub rotate_signed_prekey-writes :
      (next : SignedPreKeyRecord) {w w' : W} {x : ⊤}
      → IsValid w
      → S.rotate_signed_prekey next w ≡ (ok x, w')
      → IsValid w' × (view w' ≡ rotate next (view w))
  rotate_signed_prekey-writes next =
      writes-ok view IsValid (rotate next) (S.rotate_signed_prekey next)
        (law.rotate_signed_prekey next)

  pub rotate_signed_prekey-Within :
      {R : View → View → Type 0}
      → IsFrame R
      → (next : SignedPreKeyRecord) → ((v : View) → R v (rotate next v))
      → Within view IsValid R (S.rotate_signed_prekey next)
  rotate_signed_prekey-Within frame next step =
      Within-method view IsValid _ (writes (rotate next)) (S.rotate_signed_prekey next)
        (law.rotate_signed_prekey next) frame.same step

  pub put_session-writes :
      (dev : Device) (blob : Slice) {w w' : W} {x : ⊤}
      → IsValid w
      → S.put_session dev blob w ≡ (ok x, w')
      → IsValid w' × (view w' ≡ store_session dev (some blob) (view w))
  put_session-writes dev blob =
      writes-ok view IsValid (store_session dev (some blob)) (S.put_session dev blob)
        (law.put_session dev blob)

  pub put_session-Within :
      {R : View → View → Type 0}
      → IsFrame R
      → (dev : Device) (blob : Slice) → ((v : View) → R v (store_session dev (some blob) v))
      → Within view IsValid R (S.put_session dev blob)
  put_session-Within frame dev blob step =
      Within-method view IsValid _ (writes (store_session dev (some blob))) (S.put_session dev blob)
        (law.put_session dev blob) frame.same step

  pub delete_session-writes :
      (dev : Device) {w w' : W} {x : ⊤}
      → IsValid w
      → S.delete_session dev w ≡ (ok x, w')
      → IsValid w' × (view w' ≡ store_session dev none (view w))
  delete_session-writes dev =
      writes-ok view IsValid (store_session dev none) (S.delete_session dev)
        (law.delete_session dev)

  pub delete_session-Within :
      {R : View → View → Type 0}
      → IsFrame R
      → (dev : Device) → ((v : View) → R v (store_session dev none v))
      → Within view IsValid R (S.delete_session dev)
  delete_session-Within frame dev step =
      Within-method view IsValid _ (writes (store_session dev none)) (S.delete_session dev)
        (law.delete_session dev) frame.same step

  pub set_trust-writes :
      (key : Slice) (t : TrustState) {w w' : W} {x : ⊤}
      → IsValid w
      → S.set_trust key t w ≡ (ok x, w')
      → IsValid w' × (view w' ≡ store_trust key t (view w))
  set_trust-writes key t =
      writes-ok view IsValid (store_trust key t) (S.set_trust key t) (law.set_trust key t)

  pub set_trust-Within :
      {R : View → View → Type 0}
      → IsFrame R
      → (key : Slice) (t : TrustState) → ((v : View) → R v (store_trust key t v))
      → Within view IsValid R (S.set_trust key t)
  set_trust-Within frame key t step =
      Within-method view IsValid _ (writes (store_trust key t)) (S.set_trust key t)
        (law.set_trust key t) frame.same step

  pub set_devices-writes :
      (jid : String) (ids : List ℕ) {w w' : W} {x : ⊤}
      → IsValid w
      → S.set_devices jid ids w ≡ (ok x, w')
      → IsValid w' × (view w' ≡ store_devices jid ids (view w))
  set_devices-writes jid ids =
      writes-ok view IsValid (store_devices jid ids) (S.set_devices jid ids)
        (law.set_devices jid ids)

  pub set_devices-Within :
      {R : View → View → Type 0}
      → IsFrame R
      → (jid : String) (ids : List ℕ) → ((v : View) → R v (store_devices jid ids v))
      → Within view IsValid R (S.set_devices jid ids)
  set_devices-Within frame jid ids step =
      Within-method view IsValid _ (writes (store_devices jid ids)) (S.set_devices jid ids)
        (law.set_devices jid ids) frame.same step

  pub put_remote_identity_key-writes :
      (dev : Device) (key : Slice) {w w' : W} {x : ⊤}
      → IsValid w
      → S.put_remote_identity_key dev key w ≡ (ok x, w')
      → IsValid w' × (view w' ≡ store_remote_key dev key (view w))
  put_remote_identity_key-writes dev key =
      writes-ok view IsValid (store_remote_key dev key) (S.put_remote_identity_key dev key)
        (law.put_remote_identity_key dev key)

  pub put_remote_identity_key-Within :
      {R : View → View → Type 0}
      → IsFrame R
      → (dev : Device) (key : Slice) → ((v : View) → R v (store_remote_key dev key v))
      → Within view IsValid R (S.put_remote_identity_key dev key)
  put_remote_identity_key-Within frame dev key step =
      Within-method view IsValid _ (writes (store_remote_key dev key))
        (S.put_remote_identity_key dev key) (law.put_remote_identity_key dev key) frame.same step

  pub consume_prekey-Within :
      {R : View → View → Type 0}
      → IsFrame R
      → (id : ℕ) → ((v : View) → R v (consume id v).1)
      → Within view IsValid R (S.consume_prekey id)
  consume_prekey-Within frame id step =
      Within-method view IsValid _ (consume id) (S.consume_prekey id) (law.consume_prekey id)
        frame.same step
