-- ===== src/Manager/Incoming/Safety.antt =====
-- What reading a message may change in the store, whether it succeeds or fails.
use omemo_go.Base.{ℕ, ◌≡◌, refl, ◌∙◌, ◌⊎◌, inl, inr, arith, Option, none, some, nat_eq}
use omemo_go.Types.{Slice, Device, device_eq, PreKeyRecord, EncryptedMessage}
use omemo_go.Store.View.{View, consume_found, store_remote_key, store_session}
use omemo_go.Signal.Library.{Library}
use omemo_go.Manager.State.{Manager}
use omemo_go.Manager.Incoming.{decrypt_message}
use omemo_go.Manager.Incoming.Frame.{decrypt_message-Within}
use omemo_go.Manager.Sound.{IsSound}

-- The own identity, the signed prekeys, all trust decisions and all device lists are as before; a
-- one-time prekey is as before or gone; and of the sessions and the recorded identity keys only those
-- of the sender may differ.
pub record IsReceiving (sender : Device) (v v' : View) : Type 0 where
  pub identity_key : v'.identity_key ≡ v.identity_key
  pub local_device : v'.local_device ≡ v.local_device
  pub current : v'.current ≡ v.current
  pub stale : v'.stale ≡ v.stale
  pub trust : v'.trust_of ≡ v.trust_of
  pub devices : v'.devices_of ≡ v.devices_of
  pub pool : (id : ℕ) → (v'.pool id ≡ v.pool id) ⊎ (v'.pool id ≡ none)
  pub sessions : (dev : Device) → (dev ≡ sender) ⊎ (v'.session_of dev ≡ v.session_of dev)
  pub remote_keys : (dev : Device) → (dev ≡ sender) ⊎ (v'.remote_key_of dev ≡ v.remote_key_of dev)

or_chain : {A : Type 0} {P : Type 0} {a b c : A} → P ⊎ (b ≡ a) → P ⊎ (c ≡ b) → P ⊎ (c ≡ a)
or_chain (inl p) q = inl p
or_chain (inr e) (inl p) = inl p
or_chain (inr e) (inr f) = inr (f ∙ e)

pool_chain :
    {a b c : Option PreKeyRecord}
    → (b ≡ a) ⊎ (b ≡ none)
    → (c ≡ b) ⊎ (c ≡ none)
    → (c ≡ a) ⊎ (c ≡ none)
pool_chain p (inr gone) = inr gone
pool_chain (inl e) (inl f) = inl (f ∙ e)
pool_chain (inr gone) (inl f) = inr (f ∙ gone)

module _ (sender : Device) where
  IsReceiving-same : (v : View) → IsReceiving sender v v
  IsReceiving-same v = record {
    identity_key = refl;
    local_device = refl;
    current = refl;
    stale = refl;
    trust = refl;
    devices = refl;
    pool = λ id. inl refl;
    sessions = λ dev. inr refl;
    remote_keys = λ dev. inr refl;
  }

  IsReceiving-chain :
      (u v w : View) → IsReceiving sender u v → IsReceiving sender v w → IsReceiving sender u w
  IsReceiving-chain u v w p q = record {
    identity_key = q.identity_key ∙ p.identity_key;
    local_device = q.local_device ∙ p.local_device;
    current = q.current ∙ p.current;
    stale = q.stale ∙ p.stale;
    trust = q.trust ∙ p.trust;
    devices = q.devices ∙ p.devices;
    pool = λ id. pool_chain (p.pool id) (q.pool id);
    sessions = λ dev. or_chain (p.sessions dev) (q.sessions dev);
    remote_keys = λ dev. or_chain (p.remote_keys dev) (q.remote_keys dev);
  }

  consume_found-IsReceiving :
      (id : ℕ) (o : Option PreKeyRecord) (v : View) → IsReceiving sender v (consume_found id o v).1
  consume_found-IsReceiving id none v = IsReceiving-same v
  consume_found-IsReceiving id (some r) v = record {
    identity_key = refl;
    local_device = refl;
    current = refl;
    stale = refl;
    trust = refl;
    devices = refl;
    pool = λ j. ground arith;
    sessions = λ dev. inr refl;
    remote_keys = λ dev. inr refl;
  }

  store_session-IsReceiving :
      (o : Option Slice) (v : View) → IsReceiving sender v (store_session sender o v)
  store_session-IsReceiving o v = record {
    identity_key = refl;
    local_device = refl;
    current = refl;
    stale = refl;
    trust = refl;
    devices = refl;
    pool = λ id. inl refl;
    sessions = λ dev. ground arith;
    remote_keys = λ dev. inr refl;
  }

  store_remote_key-IsReceiving :
      (key : Slice) (v : View) → IsReceiving sender v (store_remote_key sender key v)
  store_remote_key-IsReceiving key v = record {
    identity_key = refl;
    local_device = refl;
    current = refl;
    stale = refl;
    trust = refl;
    devices = refl;
    pool = λ id. inl refl;
    sessions = λ dev. inr refl;
    remote_keys = λ dev. ground arith;
  }

module _ {W DR LS LX : Type 0} (lib : Library W DR LS LX) (m : Manager W) (view : W → View)
    (IsValid : W → Type 0) (sound : IsSound lib m view IsValid) where
  -- For a sound manager and a valid world: `DecryptMessage`, whether it succeeds or fails, leaves
  -- the world valid and changes no trust decision, no device list, no signed prekey and nothing of
  -- the own identity; it adds or changes no one-time prekey; and of the sessions and recorded
  -- identity keys it changes those of the sender alone.
  pub decrypt_message-IsReceiving :
      (msg : EncryptedMessage) (w : W)
      → IsValid w
      → let (r, w') = decrypt_message lib m msg w in
        IsValid w' × IsReceiving msg.sender (view w) (view w')
  decrypt_message-IsReceiving msg w v =
      (decrypt_message-Within lib m view IsValid sound (IsReceiving msg.sender)
          (record { same = IsReceiving-same msg.sender; chain = IsReceiving-chain msg.sender })
          (λ id u. consume_found-IsReceiving msg.sender id (u.pool id) u) msg.sender
          (store_remote_key-IsReceiving msg.sender) (store_session-IsReceiving msg.sender) msg
          refl).at
        w v
