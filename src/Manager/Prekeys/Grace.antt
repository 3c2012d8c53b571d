-- ===== src/Manager/Prekeys/Grace.antt =====
-- The grace period of a signed prekey: a bundle that was published before a rotation still serves.
use omemo_go.Base.{◌≡◌, sym, ◌∙◌, ap, some}
use omemo_go.Types.{Bytes, Slice, Bundle}
use omemo_go.Exec.{ok}
use omemo_go.Store.View.{View}
use omemo_go.Signal.Library.{Library}
use omemo_go.Manager.State.{Manager}
use omemo_go.Manager.Sound.{IsSound}
use omemo_go.Manager.Prekeys.{rotate_signed_prekey}
use omemo_go.Manager.Prekeys.Published.{held-current}
use omemo_go.Manager.Prekeys.Rotation.{rotate_signed_prekey-rotates, rotate_signed_prekey-held}
use omemo_go.Manager.Incoming.Lookup.{held}
use omemo_go.Manager.Incoming.Opened.{Serves}

module _ {W DR LS LX : Type 0} (lib : Library W DR LS LX) (m : Manager W) (view : W → View)
    (IsValid : W → Type 0) (sound : IsSound lib m view IsValid)
    (IsPair : Slice → Slice → Type 0) where
  -- For a sound manager and a valid world whose current signed prekey has a public half: a bundle
  -- that names the current signed prekey, and that the store can answer for, is one that the store
  -- can still answer for after a successful `RotateSignedPreKey`.
  pub rotate_signed_prekey-Serves :
      (b : Bundle) {w w' : W} {k : Bytes}
      → IsValid w
      → (view w).current.public ≡ some k
      → b.signed_prekey.id ≡ (view w).current.id
      → Serves lib IsPair m.identity_key (view w) b
      → rotate_signed_prekey lib m w ≡ (ok tt, w')
      → Serves lib IsPair m.identity_key (view w') b
  rotate_signed_prekey-Serves b {w} {w'} v is_set is_id serves h =
      let (next, next_id, v', step) = rotate_signed_prekey-rotates lib m view IsValid sound v h in
      let (valid, old_held, new_held) =
        rotate_signed_prekey-held lib m view IsValid sound v is_set h in
      let cur = (view w).current in
      let is_spk : some cur ≡ some serves.spk =
        sym (held-current cur (view w).stale) ∙ (ap (held (view w)) (sym is_id) ∙ serves.is_held) in
      record {
        identity = serves.identity;
        spk = serves.spk;
        is_held = ap (held (view w')) is_id ∙ (old_held ∙ is_spk);
        spk_pair = serves.spk_pair;
        spk_public = serves.spk_public;
        prekey = λ p rest e.
            let (r, in_pool, pair) = serves.prekey p rest e in
            (r, ap (λ (x : View). x.pool p.id) step ∙ in_pool, pair);
      }
