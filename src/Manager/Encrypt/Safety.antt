-- ===== src/Manager/Encrypt/Safety.antt =====
-- What sending a message never does to the store, and the account of its recipients.
use omemo_go.Base.{
  ◌+◌, String, ◌≡◌, refl, sym, ◌∙◌, ap, subst, ◌≢◌, arith, none, some, List, [], ◌∷◌, length, ◌==◌,
  bytes_eq, true, Bool-cases, inl, inr,
}
use omemo_go.Types.{Bytes, Slice, content, Device, TrustState, RecipientKey, EncryptedMessage}
use omemo_go.Errors.{DeviceError}
use omemo_go.Exec.{ok}
use omemo_go.Exec.Steps.{ok-eq-ok}
use omemo_go.Signal.Payload.{EncryptedPayload}
use mathlib.Core.Option.{some-injective}
use omemo_go.Store.View.{View, store_trust}
use omemo_go.Signal.Library.{Library}
use omemo_go.Manager.State.{Manager}
use omemo_go.Manager.Trust.Frame.{trust_at}
use omemo_go.Manager.Devices.{recipient_devices}
use omemo_go.Manager.Encrypt.{Sent, encrypt_message, envelope, failed}
use omemo_go.Manager.Encrypt.Frame.{AllowsSending, encrypt-StaysIn}
use omemo_go.Manager.Encrypt.Fanout.{others, FannedOut-length}
use omemo_go.Manager.Encrypt.Outcome.{Outcome, no_devices, no_payload, ran, encrypt-Outcome}
use omemo_go.Manager.Sound.{IsSound}

-- A verdict stays: only a key without one may get another.
abbrev pub Kept : TrustState → TrustState → Type 0
Kept TrustState.untrusted t = t ≡ TrustState.untrusted
Kept TrustState.trusted t = t ≡ TrustState.trusted
Kept _ t = Unit

Kept-refl : (t : TrustState) → Kept t t
Kept-refl TrustState.untrusted = refl
Kept-refl TrustState.trusted = refl
Kept-refl TrustState.undecided = tt
Kept-refl (TrustState.unnamed n) = tt

Kept-trans : (a b c : TrustState) → Kept a b → Kept b c → Kept a c
Kept-trans TrustState.untrusted b c p q = subst (λ t. Kept t c) p q
Kept-trans TrustState.trusted b c p q = subst (λ t. Kept t c) p q
Kept-trans TrustState.undecided b c p q = tt
Kept-trans (TrustState.unnamed n) b c p q = tt

Kept-trusted : (t : TrustState) → t ≢ TrustState.untrusted → Kept t TrustState.trusted
Kept-trusted TrustState.untrusted ne = absurd (ne refl)
Kept-trusted TrustState.trusted ne = refl
Kept-trusted TrustState.undecided ne = tt
Kept-trusted (TrustState.unnamed n) ne = tt

-- The own identity and all prekeys are as before; a key that was blocked is still blocked, and a
-- trusted key is still trusted.
pub record IsSending (v v' : View) : Type 0 where
  pub identity_key : v'.identity_key ≡ v.identity_key
  pub local_device : v'.local_device ≡ v.local_device
  pub current : v'.current ≡ v.current
  pub stale : v'.stale ≡ v.stale
  pub pool : v'.pool ≡ v.pool
  pub verdict : (k : Bytes) → Kept (v.trust_of k) (v'.trust_of k)

IsSending-same : (v : View) → IsSending v v
IsSending-same v = record {
  identity_key = refl;
  local_device = refl;
  current = refl;
  stale = refl;
  pool = refl;
  verdict = λ k. Kept-refl (v.trust_of k);
}

IsSending-chain : (u v w : View) → IsSending u v → IsSending v w → IsSending u w
IsSending-chain u v w p q = record {
  identity_key = q.identity_key ∙ p.identity_key;
  local_device = q.local_device ∙ p.local_device;
  current = q.current ∙ p.current;
  stale = q.stale ∙ p.stale;
  pool = q.pool ∙ p.pool;
  verdict =
      λ k. Kept-trans (u.trust_of k) (v.trust_of k) (w.trust_of k) (p.verdict k) (q.verdict k);
}

key_eq : (k j : Bytes) → (k == j) ≡ true → j ≡ k
key_eq k j h = ground arith

-- Trusting a key that is not blocked lifts no block.
IsSending-trust :
    (v : View) (key : Slice)
    → trust_at key v ≢ TrustState.untrusted
    → IsSending v (store_trust key TrustState.trusted v)
IsSending-trust v key ne = record {
  identity_key = refl;
  local_device = refl;
  current = refl;
  stale = refl;
  pool = refl;
  verdict = λ k. elim (Bool-cases (k == content key)) [
    | inl same ↦
        rw same
          (Kept-trusted (v.trust_of k) (λ p. ne (ap v.trust_of (key_eq k (content key) same) ∙ p)))
    | inr other ↦ rw other (Kept-refl (v.trust_of k))
  ];
}

IsSending-steps : AllowsSending IsSending
IsSending-steps = record {
  frame = record { same = IsSending-same; chain = IsSending-chain };
  devices_step = λ jid ids v. record {
    identity_key = refl;
    local_device = refl;
    current = refl;
    stale = refl;
    pool = refl;
    verdict = λ k. Kept-refl (v.trust_of k);
  };
  remote_step = λ dev key v. record {
    identity_key = refl;
    local_device = refl;
    current = refl;
    stale = refl;
    pool = refl;
    verdict = λ k. Kept-refl (v.trust_of k);
  };
  session_step = λ dev o v. record {
    identity_key = refl;
    local_device = refl;
    current = refl;
    stale = refl;
    pool = refl;
    verdict = λ k. Kept-refl (v.trust_of k);
  };
  trust_step = IsSending-trust;
}

module _ {W DR LS LX : Type 0} (lib : Library W DR LS LX) (m : Manager W) (view : W → View)
    (IsValid : W → Type 0) (sound : IsSound lib m view IsValid) where
  -- For a sound manager and a valid world: `EncryptMessage`, whether it returns a message or an
  -- error, leaves the world valid, the own identity and every prekey as they were, a blocked key
  -- blocked and a trusted key trusted.
  pub encrypt_message-IsSending :
      (jid : String) (plaintext : Slice) (w : W)
      → IsValid w
      → let (s, w') = encrypt_message lib m jid plaintext w in
        IsValid w' × IsSending (view w) (view w')
  unfolding encrypt_message
  encrypt_message-IsSending jid plaintext w v =
      encrypt-StaysIn lib m view IsValid sound IsSending IsSending-steps jid plaintext w v

  -- Without a plaintext there is no payload and no iv.
  abbrev pub Carries : Slice → EncryptedMessage → Type 0
  Carries none msg = (msg.payload ≡ none) × (msg.iv ≡ none)
  Carries (some text) msg = Unit

  -- A message against the recipients that it was made for.
  abbrev pub Accounts : List Device → Slice → Sent → EncryptedMessage → Type 0
  Accounts devs plaintext s msg =
      (s.error ≡ none)
      × (msg.keys ≢ [])
      × (msg.sender ≡ m.local_device)
      × (length msg.keys + length s.device_errors ≡ others m.local_device devs)
      × Carries plaintext msg

  envelope-Accounts :
      (devs : List Device) (plaintext : Slice) (p : EncryptedPayload) (key : RecipientKey)
      (keys : List RecipientKey) (s : Sent)
      → s.error ≡ none
      → length (key ∷ keys) + length s.device_errors ≡ others m.local_device devs
      → Accounts devs plaintext s (envelope m.local_device plaintext p (key ∷ keys))
  unfolding envelope
  envelope-Accounts devs none p key keys s e n = (e, λ h. cc h, refl, n, (refl, refl))
  envelope-Accounts devs (some text) p key keys s e n = (e, λ h. cc h, refl, n, tt)

  Outcome-Accounts :
      {devs : List Device} {jid : String} {plaintext : Slice} {w w1 w' : W} {s : Sent}
      {msg : EncryptedMessage}
      → recipient_devices m jid w ≡ (ok devs, w1)
      → Outcome lib m view jid plaintext w s w'
      → s.message ≡ some msg
      → Accounts devs plaintext s msg
  unfolding failed
  Outcome-Accounts d (no_devices e n q) h = cc (sym h ∙ ap (λ (x : Sent). x.message) q)
  Outcome-Accounts d (no_payload devs' w2 e d' n q) h = cc (sym h ∙ ap (λ (x : Sent). x.message) q)
  Outcome-Accounts d (ran devs' w1 w2 p [] errors d' q run r) h = cc (sym r.0 ∙ h)
  Outcome-Accounts {devs} {plaintext} {s} {msg} d
        (ran devs' w1' w2 p (key ∷ keys) errors d' q run r) h =
      let same_devs = (ok-eq-ok (sym d' ∙ d)).0 in
      let is_msg = some-injective _ msg (sym r.0 ∙ h) in
      let counted = FannedOut-length lib m view IsValid sound p.key_material run in
      subst (Accounts devs plaintext s) is_msg (
        envelope-Accounts devs plaintext p key keys s r.2 (
          ap (λ (e : List DeviceError). length (key ∷ keys) + length e) r.1
          ∙ (counted ∙ ap (others m.local_device) same_devs)))

  -- For a sound manager and a valid world in which `recipientDevices` returns `devs`: when
  -- `EncryptMessage` returns a message, then there is no error, the message names the local device
  -- and has at least one key, its keys and the device errors together are as many as the members of
  -- `devs` other than the local device, and without a plaintext the message has neither payload nor
  -- iv.
  pub encrypt_message-Accounts :
      (jid : String) (plaintext : Slice) {w w1 : W} {devs : List Device} {msg : EncryptedMessage}
      → IsValid w
      → recipient_devices m jid w ≡ (ok devs, w1)
      → (encrypt_message lib m jid plaintext w).0.message ≡ some msg
      → Accounts devs plaintext (encrypt_message lib m jid plaintext w).0 msg
  unfolding encrypt_message
  encrypt_message-Accounts jid plaintext {w} v d h =
      Outcome-Accounts d (encrypt-Outcome lib m view IsValid sound jid plaintext w v) h
