-- ===== src/Manager/Delivery/Source.antt =====
-- The call of `encryptForDevice` that a key of a message came from.
use omemo_go.Base.{
  ℕ, ◌≡◌, sym, ◌∙◌, ap, subst, ◌≢◌, arith, some, List, ◌==◌, nat_eq, All, inl, inr, Bool-cases,
}
use omemo_go.Types.{Slice, v2, Device, KeyExchange, RecipientKey}
use omemo_go.Errors.{DeviceError}
use omemo_go.Exec.{Result, ok}
use omemo_go.Store.View.{View}
use omemo_go.Signal.Library.{Library}
use omemo_go.Manager.State.{Manager}
use omemo_go.Manager.Sound.{IsSound, with_device_lock-eq-ok}
use omemo_go.Manager.Outgoing.Frame.{encrypt_for_device-Within}
use omemo_go.Store.Keeps.{Anything, Anything-IsFrame}
use omemo_go.Manager.Outgoing.{encrypt_locked, encrypt_for_device}
use omemo_go.Manager.Outgoing.First.{IsFirst, encrypt_locked-IsFirst}
use omemo_go.Manager.Outgoing.Next.{IsNext-same}
use omemo_go.Signal.Roundtrip.{ReadsBack}
use omemo_go.Manager.Encrypt.Fanout.{FannedOut, done, own, sent, refused}
use omemo_go.Manager.Incoming.{find_key}

module _ {W DR LS LX : Type 0} (lib : Library W DR LS LX) (a : Manager W) (view : W → View)
    (IsValid : W → Type 0) (sound : IsSound lib a view IsValid) where
  -- The call of `encryptForDevice` that a key of the loop came from.
  abbrev pub CameFrom : (Device → Type 0) → Slice → ℕ → RecipientKey → Type 0
  CameFrom P key_material id key =
      (dev : Device) × (w : W) × (w' : W) × (dev.id ≡ id)
      × P dev
      × (dev ≢ a.local_device)
      × IsValid w
      × (encrypt_for_device lib a dev key_material w ≡ (ok key, w'))

  after-IsValid :
      (dev : Device) (key_material : Slice) {w w' : W} {r : Result RecipientKey}
      → IsValid w
      → encrypt_for_device lib a dev key_material w ≡ (r, w')
      → IsValid w'
  after-IsValid dev key_material {w} {w'} {r} v e =
      subst IsValid (ap (λ (p : Result RecipientKey × W). p.1) e)
        ((encrypt_for_device-Within lib a view IsValid sound Anything Anything-IsFrame dev
            (λ k x. tt) (λ o x. tt) (λ x k ne. tt) key_material).at
          w v).0

  pub find_key-CameFrom :
      (P : Device → Type 0) (key_material : Slice) (id : ℕ) {k : RecipientKey} {w' w : W}
      {devs : List Device} {keys : List RecipientKey} {errors : List DeviceError}
      → FannedOut lib a view key_material w' w devs keys errors
      → IsValid w
      → All P devs
      → find_key id keys ≡ some k
      → CameFrom P key_material id k
  unfolding find_key
  find_key-CameFrom P key_material id done v all found = cc
  find_key-CameFrom P key_material id (own is_own run) v (p, all) found =
      find_key-CameFrom P key_material id run v all found
  find_key-CameFrom P key_material id (refused {w} {w1} {dev} ne e run) v (p, all) found =
      find_key-CameFrom P key_material id run (after-IsValid dev key_material v e) all found
  find_key-CameFrom P key_material id {k} (sent {w} {w1} {dev} {key} ne e cleared named run) v
        (p, all) found =
      elim (Bool-cases (key.device == id)) [
        | inl is_id ↦
            let same : key ≡ k = ground arith in
            (
              dev,
              w,
              w1,
              sym named ∙ ground arith,
              p,
              ne,
              v,
              subst (λ x. encrypt_for_device lib a dev key_material w ≡ (ok x, w1)) same e,
            )
        | inr not_id ↦
            find_key-CameFrom P key_material id run (after-IsValid dev key_material v e) all
              (rw not_id at found)
      ]

  -- A call of `encryptForDevice` that gave a key with a key exchange.
  pub encrypt_for_device-IsFirst :
      (back : ReadsBack lib) (dev : Device) (key_material : Slice) {w w' : W} {key : RecipientKey}
      {kx : KeyExchange}
      → a.protocol ≡ v2
      → key.key_exchange ≡ some kx
      → IsValid w
      → encrypt_for_device lib a dev key_material w ≡ (ok key, w')
      → IsFirst lib a view IsValid sound back dev key_material key kx w'
  unfolding encrypt_for_device
  encrypt_for_device-IsFirst back dev key_material {w} {w'} {key} is_v2 has_kx v run =
      let (w1, w2, v1, same, e, rest) =
        with_device_lock-eq-ok lib a view IsValid sound dev (encrypt_locked lib a dev key_material)
          v run in
      let first =
        encrypt_locked-IsFirst lib a view IsValid sound back dev key_material w1 is_v2 has_kx v1
          e in
      let sealed = first.sealed in
      let (v', same') = rest sealed.valid in
      record {
        ratchet = first.ratchet;
        started = first.started;
        sealed =
            IsNext-same lib a view IsValid sound back dev first.ratchet key_material key v' same'
              sealed;
      }
