-- ===== src/Manager/Locks/Balanced.antt =====
-- `EncryptMessage` and `DecryptMessage` give back the mutexes that they take, and never wait for one
-- that the run holds.
use omemo_go.Base.{
  ℕ, String, ◌≡◌, sym, ◌∙◌, ap, subst, false, Bool-cases, inl, inr, arith, List, [], ◌∷◌, Option,
  none, some, ◌==◌, nat_eq,
}
use omemo_go.Base.GoMap.{lookup}
use omemo_go.Types.{Slice, Device, device_eq, RecipientKey, EncryptedMessage}
use omemo_go.Errors.{Context}
use omemo_go.Exec.{Result, ok, err, Exec, wrapping}
use omemo_go.Store.Keeps.{Within, IsFrame, Unchanged, Within-wrapping}
use omemo_go.Signal.Library.{Library}
use omemo_go.Signal.Payload
use omemo_go.Signal.Payload.{EncryptedPayload}
use omemo_go.Signal.Quiet.{encrypt_payload-Quiet}
use omemo_go.Manager.Locks.{LockTable, found_lock, device_lock, holds, released, lock, unlock}
use omemo_go.Manager.Locks.Apart.{
  Always, Spares, IsApart, recipient_devices-Spares, encrypt_locked-Spares, decrypt_locked-Spares,
}
use omemo_go.Manager.State.{Manager, with_device_lock}
use omemo_go.Manager.Outgoing.{encrypt_locked, encrypt_for_device}
use omemo_go.Manager.Devices.{recipient_devices}
use omemo_go.Manager.Encrypt.{
  Tally, encrypt_round, encrypt_each, encrypt_to, after_payload, after_devices, encrypt,
  encrypt_message,
}
use omemo_go.Manager.Incoming.{find_key, decrypt_locked, decrypt_with, decrypt_message}

-- This run holds no mutex, and nothing has stopped it.
pub record IsFree (t : LockTable) : Type 0 where
  pub none_held : t.held ≡ []
  pub running : t.stuck ≡ false

abbrev KeepsFree : LockTable → LockTable → Type 0
KeepsFree t t' = IsFree t → IsFree t'

KeepsFree-IsFrame : IsFrame KeepsFree
KeepsFree-IsFrame = record { same = λ t f. f; chain = λ s t u p q f. q (p f) }

found_lock-IsFree :
    (dev : Device) (o : Option ℕ) (t : LockTable) → IsFree t → IsFree (found_lock dev o t).1
unfolding found_lock
found_lock-IsFree dev (some l) t f = f
found_lock-IsFree dev none t f = record { none_held = f.none_held; running = f.running }

lock-free :
    (l : ℕ) (t : LockTable) → IsFree t → ((lock l t).held ≡ l ∷ []) × ((lock l t).stuck ≡ false)
unfolding lock holds
lock-free l t f = ground arith

unlock-IsFree : (l : ℕ) (t : LockTable) → t.held ≡ l ∷ [] → t.stuck ≡ false → IsFree (unlock l t)
unfolding unlock holds released
unlock-IsFree l t held running = ground arith

module _ {W : Type 0} (m : Manager W) where
  with_device_lock-KeepsFree :
      {A : Type 0} (dev : Device) (body : Exec W A)
      → Spares m body
      → Within m.locks.get Always KeepsFree (with_device_lock m dev body)
  unfolding with_device_lock device_lock
  with_device_lock-KeepsFree dev body spares = record {
    at = λ w v.
        let (l, t) = device_lock dev (m.locks.get w) in
        let w1 = m.locks.put (lock l t) w in
        let (v2, same) = spares.at w1 tt in
        let w2 = (body w1).1 in
        (
          tt,
          λ free.
              let (held, running) =
                lock-free l t (
                  found_lock-IsFree dev (lookup dev (m.locks.get w).mutexes) (m.locks.get w)
                    free) in
              let is_table = same ∙ m.locks.get-put (lock l t) w in
              subst IsFree (sym (m.locks.get-put (unlock l (m.locks.get w2)) w2)) (
                unlock-IsFree l (m.locks.get w2) (ap (λ (x : LockTable). x.held) is_table ∙ held)
                  (ap (λ (x : LockTable). x.stuck) is_table ∙ running)),
        );
  }

module _ {W DR LS LX : Type 0} (lib : Library W DR LS LX) (m : Manager W)
    (apart : IsApart lib m) where
  -- Whether this run holds no mutex.
  abbrev FreeIn : W → Type 0
  FreeIn w = IsFree (m.locks.get w)

  spared : {A : Type 0} (c : Exec W A) → Spares m c → (w : W) → FreeIn w → FreeIn (c w).1
  spared c s w f = subst IsFree (sym (s.at w tt).1) f

  encrypt_for_device-IsFree :
      (dev : Device) (key_material : Slice) (w : W)
      → FreeIn w
      → FreeIn (encrypt_for_device lib m dev key_material w).1
  unfolding encrypt_for_device
  encrypt_for_device-IsFree dev key_material w =
      ((with_device_lock-KeepsFree m dev (encrypt_locked lib m dev key_material)
          (encrypt_locked-Spares lib m apart dev key_material)).at
        w tt).1

  encrypt_round-IsFree :
      (key_material : Slice) (dev : Device) (t : Tally) (w : W)
      → FreeIn w
      → FreeIn (encrypt_round lib m key_material dev t w).1
  unfolding encrypt_round
  encrypt_round-IsFree key_material dev t w f = elim (Bool-cases (dev == m.local_device)) [
    | inl own ↦ rw own f
    | inr peer ↦ rw peer (encrypt_for_device-IsFree dev key_material w f)
  ]

  encrypt_each-IsFree :
      (key_material : Slice) (devs : List Device) (t : Tally) (w : W)
      → FreeIn w
      → FreeIn (encrypt_each lib m key_material devs t w).1
  unfolding encrypt_each
  encrypt_each-IsFree key_material [] t w f = f
  encrypt_each-IsFree key_material (dev ∷ devs) t w f =
      let (t', w') = encrypt_round lib m key_material dev t w in
      encrypt_each-IsFree key_material devs t' w' (encrypt_round-IsFree key_material dev t w f)

  after_payload-IsFree :
      (devs : List Device) (plaintext : Slice) (r : Result EncryptedPayload) (w : W)
      → FreeIn w
      → FreeIn (after_payload lib m devs plaintext r w).1
  unfolding after_payload encrypt_to
  after_payload-IsFree devs plaintext (err e) w f = f
  after_payload-IsFree devs plaintext (ok p) w f =
      encrypt_each-IsFree p.key_material devs (record { keys = []; errors = [] }) w f

  after_devices-IsFree :
      (plaintext : Slice) (r : Result (List Device)) (w : W)
      → FreeIn w
      → FreeIn (after_devices lib m plaintext r w).1
  unfolding after_devices
  after_devices-IsFree plaintext (err e) w f = f
  after_devices-IsFree plaintext (ok devs) w f =
      let c = wrapping Context.encrypt_payload (Payload.encrypt_payload lib m.protocol plaintext) in
      let quiet =
        Within-wrapping m.locks.get Always Unchanged Context.encrypt_payload _
          (encrypt_payload-Quiet lib m.locks.get Always apart.library m.protocol plaintext) in
      after_payload-IsFree devs plaintext (c w).0 (c w).1 (spared c quiet w f)

  -- For a library, a transport, a resolver and a store that leave the table of mutexes alone: a
  -- call of `EncryptMessage` that begins with no mutex held by its run ends, with a message or an
  -- error, with none held, and the run has locked no mutex that it held and unlocked none that it
  -- did not hold.
  pub encrypt_message-IsFree :
      (jid : String) (plaintext : Slice) (w : W)
      → IsFree (m.locks.get w)
      → IsFree (m.locks.get (encrypt_message lib m jid plaintext w).1)
  unfolding encrypt_message encrypt
  encrypt_message-IsFree jid plaintext w f =
      let (r, w') = recipient_devices m jid w in
      after_devices-IsFree plaintext r w'
        (spared (recipient_devices m jid) (recipient_devices-Spares lib m apart jid) w f)

  decrypt_with-IsFree :
      (msg : EncryptedMessage) (o : Option RecipientKey) (w : W)
      → FreeIn w
      → FreeIn (decrypt_with lib m msg o w).1
  unfolding decrypt_with
  decrypt_with-IsFree msg none w f = f
  decrypt_with-IsFree msg (some key) w f =
      ((with_device_lock-KeepsFree m msg.sender (decrypt_locked lib m msg key)
            (decrypt_locked-Spares lib m apart msg key)).at
          w tt).1
        f

  -- For a library, a transport, a resolver and a store that leave the table of mutexes alone: a
  -- call of `DecryptMessage` that begins with no mutex held by its run ends, with a plaintext or an
  -- error, with none held, and the run has locked no mutex that it held and unlocked none that it
  -- did not hold.
  pub decrypt_message-IsFree :
      (msg : EncryptedMessage) (w : W)
      → IsFree (m.locks.get w)
      → IsFree (m.locks.get (decrypt_message lib m msg w).1)
  unfolding decrypt_message
  decrypt_message-IsFree msg w f = decrypt_with-IsFree msg (find_key m.local_device.id msg.keys) w f
