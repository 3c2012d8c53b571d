-- ===== src/Manager/Concurrent/Refines.antt =====
-- `encryptForDevice`, `DecryptMessage` and `ResetSession` as goroutines of `System`: each is a section
-- of its device.
use omemo_go.Base.{ℕ, ◌≡◌, refl, sym, ◌∙◌, subst, none, some, nat_eq}
use omemo_go.Types.{Slice, Device, device_eq, RecipientKey, EncryptedMessage}
use omemo_go.Errors.{Context}
use omemo_go.Exec.{⊤, Result, ok, Exec, wrapping}
use omemo_go.Store.View.{View, store_session}
use omemo_go.Store.Keeps.{Within-wrapping}
use omemo_go.Store.Methods.{delete_session-Within}
use omemo_go.Signal.Library.{Library}
use omemo_go.Manager.Locks.Apart.{Always, IsApart, encrypt_locked-Spares, decrypt_locked-Spares}
use omemo_go.Manager.State.{Manager}
use omemo_go.Manager.Sound.{IsSound}
use omemo_go.Manager.Outgoing.{encrypt_locked, encrypt_for_device, reset_session}
use omemo_go.Manager.Outgoing.Frame.{encrypt_locked-Within}
use omemo_go.Manager.Outgoing.Exchange.{reset_session-eq-ok}
use omemo_go.Manager.Incoming.{find_key, decrypt_locked, decrypt_with, decrypt_message}
use omemo_go.Manager.Incoming.Frame.{decrypt_locked-Within}
use omemo_go.Manager.Concurrent.{Place}
use omemo_go.Manager.Concurrent.Guarded.{
  IsGuarded, IsUnlocked, OnlyAt, OnlyAt-IsFrame, store_session-OnlyAt, store_remote_key-OnlyAt,
  consume_found-OnlyAt, with_device_lock-IsGuarded,
}

module _ {W DR LS LX : Type 0} (lib : Library W DR LS LX) (m : Manager W) (view : W → View)
    (IsValid : W → Type 0) (sound : IsSound lib m view IsValid) (apart : IsApart lib m) (i : ℕ)
    (places : ℕ → Place) (out : places i ≡ Place.outside) where
  -- For a sound manager and a valid world, a library, a transport, a resolver and a store that
  -- leave the table of mutexes alone, and a goroutine in no section while nobody holds the mutex of
  -- the device: `encryptForDevice`, whether it succeeds or fails, is a run of that goroutine in the
  -- step relation. It asks for the mutex and enters, which leaves the content of the store as it
  -- is; `encrypt_locked` runs from the world at that point, and what it does to the sessions and
  -- recorded identity keys is a write of the session and one of the key of that device; then the
  -- goroutine leaves, which leaves the content as it is too, and is in no section.
  pub encrypt_for_device-IsGuarded :
      (dev : Device) (key_material : Slice) (w : W)
      → IsUnlocked dev (m.locks.get w)
      → IsValid w
      → let (r, w') = encrypt_for_device lib m dev key_material w in
        IsGuarded m view i dev (encrypt_locked lib m dev key_material) places w r w'
  unfolding encrypt_for_device
  encrypt_for_device-IsGuarded dev key_material w free v =
      with_device_lock-IsGuarded lib m view IsValid sound i dev
        (encrypt_locked lib m dev key_material) places w
        (encrypt_locked-Spares lib m apart dev key_material)
        (encrypt_locked-Within lib m view IsValid sound (OnlyAt dev) (OnlyAt-IsFrame dev) dev
          (store_remote_key-OnlyAt dev) (store_session-OnlyAt dev)
          (λ u key ne. record { session = λ d other. refl; key = λ d other. refl }) key_material)
        out free v

  decrypt_with-IsGuarded :
      (msg : EncryptedMessage) (key : RecipientKey) (w : W)
      → IsUnlocked msg.sender (m.locks.get w)
      → IsValid w
      → let (r, w') = decrypt_with lib m msg (some key) w in
        IsGuarded m view i msg.sender (decrypt_locked lib m msg key) places w r w'
  unfolding decrypt_with
  decrypt_with-IsGuarded msg key w free v =
      let dev = msg.sender in
      with_device_lock-IsGuarded lib m view IsValid sound i dev (decrypt_locked lib m msg key)
        places w (decrypt_locked-Spares lib m apart msg key)
        (decrypt_locked-Within lib m view IsValid sound (OnlyAt dev) (OnlyAt-IsFrame dev)
          (λ id u. consume_found-OnlyAt dev id (u.pool id) u) dev (store_remote_key-OnlyAt dev)
          (store_session-OnlyAt dev) msg refl key)
        out free v

  -- For a sound manager and a valid world, a library, a transport, a resolver and a store that
  -- leave the table of mutexes alone, and a goroutine in no section while nobody holds the mutex of
  -- the sender: `DecryptMessage` of a message with a key for this device, whether it succeeds or
  -- fails, is a run of that goroutine in the step relation. It asks for the mutex of the sender and
  -- enters, which leaves the content of the store as it is; `decrypt_locked` runs from the world at
  -- that point with the first such key, and what it does to the sessions and recorded identity keys
  -- is a write of the session and one of the key of the sender; then the goroutine leaves, which
  -- leaves the content as it is too, and is in no section.
  pub decrypt_message-IsGuarded :
      (msg : EncryptedMessage) {key : RecipientKey} (w : W)
      → find_key m.local_device.id msg.keys ≡ some key
      → IsUnlocked msg.sender (m.locks.get w)
      → IsValid w
      → let (r, w') = decrypt_message lib m msg w in
        IsGuarded m view i msg.sender (decrypt_locked lib m msg key) places w r w'
  unfolding decrypt_message
  decrypt_message-IsGuarded msg {key} w found free v =
      subst
        (λ o.
          let (r, w') = decrypt_with lib m msg o w in
          IsGuarded m view i msg.sender (decrypt_locked lib m msg key) places w r w')
        (sym found) (decrypt_with-IsGuarded msg key w free v)

  -- The body of `ResetSession`.
  abbrev pub deletes : Device → Exec W ⊤
  deletes dev = wrapping (Context.reset_session dev) (m.store.delete_session dev)

  -- The section whose body takes the session of the device out of the store and changes nothing
  -- else.
  abbrev pub IsReset : Device → W → W → Type 0
  IsReset dev w w' =
      (g : IsGuarded m view i dev (deletes dev) places w (ok tt) w') × (view g.left
        ≡ store_session dev none (view w))

  reset_session-IsGuarded :
      (dev : Device) (w : W)
      → IsUnlocked dev (m.locks.get w)
      → IsValid w
      → let (r, w') = reset_session m dev w in IsGuarded m view i dev (deletes dev) places w r w'
  unfolding reset_session
  reset_session-IsGuarded dev w free v =
      with_device_lock-IsGuarded lib m view IsValid sound i dev (deletes dev) places w
        (Within-wrapping m.locks.get Always _ (Context.reset_session dev) _
          (apart.delete_session dev))
        (Within-wrapping view IsValid (OnlyAt dev) (Context.reset_session dev) _ (
          delete_session-Within view IsValid sound.lawful (OnlyAt-IsFrame dev) dev
            (store_session-OnlyAt dev none)))
        out free v

  -- For a sound manager and a valid world, a library, a transport, a resolver and a store that
  -- leave the table of mutexes alone, and a goroutine in no section while nobody holds the mutex of
  -- the device: a successful `ResetSession` is a run of that goroutine in the step relation. It
  -- asks for the mutex and enters, which leaves the content of the store as it is; the deletion
  -- runs, which takes the session of the device out of the store and changes nothing else of its
  -- content; then the goroutine leaves, which leaves the content as it is too, and is in no
  -- section.
  pub reset_session-IsReset :
      (dev : Device) (w : W) {w' : W}
      → IsUnlocked dev (m.locks.get w)
      → IsValid w
      → reset_session m dev w ≡ (ok tt, w')
      → IsReset dev w w'
  reset_session-IsReset dev w {w'} free v h =
      let g : IsGuarded m view i dev (deletes dev) places w (ok tt) w' =
        subst (λ (p : Result ⊤ × W). IsGuarded m view i dev (deletes dev) places w p.0 p.1) h
          (reset_session-IsGuarded dev w free v) in
      (g, sym g.keeps ∙ (reset_session-eq-ok lib m view IsValid sound dev v h).1)
