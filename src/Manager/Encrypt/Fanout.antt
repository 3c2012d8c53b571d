-- ===== src/Manager/Encrypt/Fanout.antt =====
-- The best-effort loop of `encrypt`: which devices get a key and which an error.
use omemo_go.Base.{
  ℕ, suc, ◌+◌, true, false, ◌≡◌, refl, sym, ◌∙◌, ◌≢◌, arith, List, [], ◌∷◌, ◌++◌, length, ◌==◌,
  if◌then◌else◌, Bool-cases, inl, inr,
}
use mathlib.Core.List.{append-nil, append_assoc}
use omemo_go.Types.{Slice, Device, device_eq, RecipientKey}
use omemo_go.Errors.{Error, DeviceError}
use omemo_go.Exec.{Result, ok, err}
use omemo_go.Store.View.{View}
use omemo_go.Signal.Library.{Library}
use omemo_go.Manager.State.{Manager}
use omemo_go.Manager.Outgoing.{encrypt_for_device}
use omemo_go.Manager.Outgoing.Safety.{IsCleared, encrypt_for_device-IsCleared}
use omemo_go.Manager.Outgoing.Frame.{encrypt_for_device-Within}
use omemo_go.Manager.Encrypt.{Tally, tally_result, encrypt_round, encrypt_each}
use omemo_go.Manager.Sound.{IsSound}
use omemo_go.Store.Keeps.{Anything, Anything-IsFrame}

-- A run of the loop over the devices from the world `w` to `w'`. The local device is passed over; any
-- other device adds a key, and is cleared in the store at that moment, or adds its error; whatever
-- happens for one device, the run goes on with the next in the world that is left.
pub data FannedOut {W DR LS LX : Type 0} (lib : Library W DR LS LX) (m : Manager W)
    (view : W → View) (key_material : Slice) (w' : W)
    : W → List Device → List RecipientKey → List DeviceError → Type 0 where
  done : FannedOut lib m view key_material w' w' [] [] []
  own :
      {w : W} {dev : Device} {devs : List Device} {keys : List RecipientKey}
      {errors : List DeviceError}
      → dev ≡ m.local_device
      → FannedOut lib m view key_material w' w devs keys errors
      → FannedOut lib m view key_material w' w (dev ∷ devs) keys errors
  sent :
      {w w1 : W} {dev : Device} {devs : List Device} {key : RecipientKey} {keys : List RecipientKey}
      {errors : List DeviceError}
      → dev ≢ m.local_device
      → encrypt_for_device lib m dev key_material w ≡ (ok key, w1)
      → IsCleared dev (view w1)
      → key.device ≡ dev.id
      → FannedOut lib m view key_material w' w1 devs keys errors
      → FannedOut lib m view key_material w' w (dev ∷ devs) (key ∷ keys) errors
  refused :
      {w w1 : W} {dev : Device} {devs : List Device} {e : Error} {keys : List RecipientKey}
      {errors : List DeviceError}
      → dev ≢ m.local_device
      → encrypt_for_device lib m dev key_material w ≡ (err e, w1)
      → FannedOut lib m view key_material w' w1 devs keys errors
      → FannedOut lib m view key_material w' w
          (dev ∷ devs)
          keys
          ((record { device = dev; err = e }) ∷ errors)

-- How many devices are not the local one.
abbrev pub others : Device → List Device → ℕ
others here [] = 0
others here (dev ∷ devs) = let n = others here devs in if dev == here then n else suc n

module _ {W DR LS LX : Type 0} (lib : Library W DR LS LX) (m : Manager W) (view : W → View)
    (IsValid : W → Type 0) (sound : IsSound lib m view IsValid) (key_material : Slice) where
  abbrev Fans : W → List Device → Tally → Tally × W → Type 0
  Fans w devs t (t', w') =
      (keys : List RecipientKey) × (errors : List DeviceError) × FannedOut lib m view key_material
        w' w devs keys errors
      × (t'.keys ≡ t.keys ++ keys)
      × (t'.errors ≡ t.errors ++ errors)

  different : {dev : Device} → (dev == m.local_device) ≡ false → dev ≢ m.local_device
  different h = ground arith

  after_device :
      (dev : Device) (devs : List Device) (t : Tally) {w : W} (r : Result RecipientKey) (w1 : W)
      (end : Tally × W)
      → IsValid w
      → dev ≢ m.local_device
      → encrypt_for_device lib m dev key_material w ≡ (r, w1)
      → Fans w1 devs (tally_result dev r t) end
      → Fans w (dev ∷ devs) t end
  unfolding tally_result
  after_device dev devs t (ok key) w1 end v ne e (keys, errors, run, ks, es) =
      let (v1, cleared, named) =
        encrypt_for_device-IsCleared lib m view IsValid sound dev key_material v e in
      (
        key ∷ keys,
        errors,
        sent ne e cleared named run,
        ks ∙ append_assoc t.keys (key ∷ []) keys,
        es,
      )
  after_device dev devs t (err x) w1 end v ne e (keys, errors, run, ks, es) = (
    keys,
    _,
    refused ne e run,
    ks,
    es ∙ append_assoc t.errors (record { device = dev; err = x } ∷ []) errors,
  )

  still_valid :
      (dev : Device) (w : W) → IsValid w → IsValid (encrypt_for_device lib m dev key_material w).1
  still_valid dev w v =
      ((encrypt_for_device-Within lib m view IsValid sound Anything Anything-IsFrame dev (λ k x. tt)
          (λ o x. tt) (λ x k ne. tt) key_material).at
        w v).0

  encrypt_each-own :
      (dev : Device) (devs : List Device) (t : Tally) (w : W)
      → (dev == m.local_device) ≡ true
      → encrypt_each lib m key_material (dev ∷ devs) t w ≡ encrypt_each lib m key_material devs t w
  unfolding encrypt_each encrypt_round
  encrypt_each-own dev devs t w h = rw (h, encrypt_each, encrypt_round)

  encrypt_each-peer :
      (dev : Device) (devs : List Device) (t : Tally) (w : W)
      → (dev == m.local_device) ≡ false
      → let (r, w1) = encrypt_for_device lib m dev key_material w in
        encrypt_each lib m key_material (dev ∷ devs) t w
        ≡ encrypt_each lib m key_material devs (tally_result dev r t) w1
  unfolding encrypt_each encrypt_round
  encrypt_each-peer dev devs t w h = rw (h, encrypt_each, encrypt_round)

  -- From any tally, the loop runs as `FannedOut` says and appends what the run yields.
  pub encrypt_each-FannedOut :
      (devs : List Device) (t : Tally) (w : W)
      → IsValid w
      → Fans w devs t (encrypt_each lib m key_material devs t w)
  encrypt_each-FannedOut [] t w v =
      unfold encrypt_each in ([], [], done, sym (append-nil t.keys), sym (append-nil t.errors))
  encrypt_each-FannedOut (dev ∷ devs) t w v = elim (Bool-cases (dev == m.local_device)) [
    | inl is_own ↦
        let (keys, errors, run, ks, es) = encrypt_each-FannedOut devs t w v in
        rw (encrypt_each-own dev devs t w is_own) (keys, errors, own (ground arith) run, ks, es)
    | inr peer ↦
        let (r, w1) = encrypt_for_device lib m dev key_material w in
        rw (encrypt_each-peer dev devs t w peer) (
          after_device dev devs t r w1 _ v (different peer) refl
            (encrypt_each-FannedOut devs (tally_result dev r t) w1 (still_valid dev w v)))
  ]

  -- Every other device is accounted for once: by a key or by an error.
  pub FannedOut-length :
      {w' w : W} {devs : List Device} {keys : List RecipientKey} {errors : List DeviceError}
      → FannedOut lib m view key_material w' w devs keys errors
      → length keys + length errors ≡ others m.local_device devs
  FannedOut-length done = omega arith
  FannedOut-length (own is_own run) = ground (arith, FannedOut-length run)
  FannedOut-length (sent ne e cleared named run) = ground (arith, FannedOut-length run)
  FannedOut-length (refused ne e run) = ground (arith, FannedOut-length run)
