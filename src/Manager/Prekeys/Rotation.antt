-- ===== src/Manager/Prekeys/Rotation.antt =====
-- The rotation of the signed prekey: which ids `signedPreKeyByID` answers for afterwards.
use omemo_go.Base.{ℕ, ◌+◌, ◌%◌, ◌≡◌, sym, ◌∙◌, ap, subst, ◌≢◌, arith, none, some, nat_eq}
use omemo_go.Types.{Bytes, u32_mod, SignedPreKeyRecord}
use omemo_go.Errors.{Context}
use omemo_go.Exec.{ok}
use omemo_go.Exec.Steps.{>>=-eq-ok, ok-eq-ok, wrapping-bind-eq-ok}
use omemo_go.Store.View.{View, rotate}
use omemo_go.Store.Methods.{rotate_signed_prekey-writes, current_signed_prekey-reads}
use omemo_go.Signal.Library.{Library}
use omemo_go.Signal.Keys
use omemo_go.Signal.Quiet.{generate_signed_prekey-Quiet}
use omemo_go.Manager.State.{Manager}
use omemo_go.Manager.Prekeys.{next_signed_prekey_id, rotate_signed_prekey, signed_prekey_record}
use omemo_go.Manager.Incoming.Lookup.{held}
use omemo_go.Manager.Sound.{IsSound}

-- The id after `id`, on a uint32.
abbrev pub id_after : ℕ → ℕ
id_after id = (id + 1) % u32_mod

id_after-ne : (id : ℕ) → id_after id ≢ id
id_after-ne id = omega arith

id_after-id_after-ne : (id : ℕ) → id_after (id_after id) ≢ id
id_after-id_after-ne id = omega arith

-- After one rotation the new key and the one before it are held.
held-rotate :
    (next : SignedPreKeyRecord) (v : View) {k : Bytes}
    → v.current.public ≡ some k
    → next.id ≡ id_after v.current.id
    → (held (rotate next v) v.current.id ≡ some v.current)
      × (held (rotate next v) (id_after v.current.id) ≡ some next)
held-rotate next v is_set e = (ground (arith, id_after-ne v.current.id), ground arith)

-- No other id is held after it.
held-rotate_ne :
    (next : SignedPreKeyRecord) (v : View) (id : ℕ) {k : Bytes}
    → v.current.public ≡ some k
    → v.current.id ≢ id
    → next.id ≢ id
    → held (rotate next v) id ≡ none
held-rotate_ne next v id is_set ne ne' = ground arith

module _ {W DR LS LX : Type 0} (lib : Library W DR LS LX) (m : Manager W) (view : W → View)
    (IsValid : W → Type 0) (sound : IsSound lib m view IsValid) where
  next_signed_prekey_id-eq-ok :
      {w w' : W} {id : ℕ}
      → IsValid w
      → next_signed_prekey_id lib m w ≡ (ok id, w')
      → (id ≡ id_after (view w).current.id) × IsValid w' × (view w' ≡ view w)
  unfolding next_signed_prekey_id
  next_signed_prekey_id-eq-ok {w} v h =
      let (cur, w1, e1, h1) =
        wrapping-bind-eq-ok Context.load_signed_prekey m.store.current_signed_prekey _ h in
      let (valid1, same, is_cur) = current_signed_prekey-reads view IsValid sound.lawful v e1 in
      let (is_id, is_end) = ok-eq-ok h1 in
      (
        sym is_id ∙ ap (λ (r : SignedPreKeyRecord). id_after r.id) is_cur,
        subst IsValid is_end valid1,
        ap view (sym is_end) ∙ same,
      )

  -- A rotation that succeeds has made a key with the next id current, and the previous key stale.
  pub rotate_signed_prekey-rotates :
      {w w' : W}
      → IsValid w
      → rotate_signed_prekey lib m w ≡ (ok tt, w')
      → (next : SignedPreKeyRecord) × (next.id ≡ id_after (view w).current.id)
        × IsValid w'
        × (view w' ≡ rotate next (view w))
  unfolding rotate_signed_prekey
  rotate_signed_prekey-rotates {w} v h =
      let (id, w1, e1, h1) = >>=-eq-ok (next_signed_prekey_id lib m) _ h in
      let (is_id, valid1, same1) = next_signed_prekey_id-eq-ok v e1 in
      let (pair, w2, e2, h2) =
        wrapping-bind-eq-ok Context.generate_signed_prekey
          (Keys.generate_signed_prekey lib m.protocol m.identity_key) _ h1 in
      let (valid2, same2) = rw e2 at (
        (generate_signed_prekey-Quiet lib view IsValid sound.library m.protocol m.identity_key).at
          w1 valid1) in
      let next = signed_prekey_record lib id pair in
      let (valid3, step) = rotate_signed_prekey-writes view IsValid sound.lawful next valid2 h2 in
      (next, is_id, valid3, step ∙ ap (rotate next) (same2 ∙ same1))

  -- For a sound manager and a valid world whose current signed prekey has a public half: after a
  -- successful `RotateSignedPreKey` the world is valid, the store still holds that prekey under its
  -- id, and it holds the new current one under the next id of a uint32.
  pub rotate_signed_prekey-held :
      {w w' : W} {k : Bytes}
      → IsValid w
      → (view w).current.public ≡ some k
      → rotate_signed_prekey lib m w ≡ (ok tt, w')
      → let old = (view w).current in
        IsValid w'
        × (held (view w') old.id ≡ some old)
        × (held (view w') (id_after old.id) ≡ some (view w').current)
  rotate_signed_prekey-held {w} v is_set h =
      let (next, is_id, v', step) = rotate_signed_prekey-rotates v h in
      let (old_held, new_held) = held-rotate next (view w) is_set is_id in
      (
        v',
        ap (λ u. held u (view w).current.id) step ∙ old_held,
        ap (λ u. held u (id_after (view w).current.id)) step
            ∙ (new_held ∙ ap (λ (u : View). some u.current) (sym step)),
      )

  -- For a sound manager and a valid world: after two successful calls of `RotateSignedPreKey`, the
  -- store holds no signed prekey under the id of the first, provided that the current one between
  -- them has a public half.
  pub rotate_signed_prekey-forgets :
      {w w1 w2 : W} {k : Bytes}
      → IsValid w
      → rotate_signed_prekey lib m w ≡ (ok tt, w1)
      → (view w1).current.public ≡ some k
      → rotate_signed_prekey lib m w1 ≡ (ok tt, w2)
      → held (view w2) (view w).current.id ≡ none
  rotate_signed_prekey-forgets {w} v h is_set h' =
      let (next, is_id, valid1, step) = rotate_signed_prekey-rotates v h in
      let (next', is_id', valid2, step') = rotate_signed_prekey-rotates valid1 h' in
      let is_next = ap (λ (u : View). u.current) step in
      ap (λ u. held u (view w).current.id) step'
      ∙ held-rotate_ne next' (view _) (view w).current.id is_set
          (λ e.
            id_after-ne (view w).current.id
              (sym is_id ∙ (ap (λ (r : SignedPreKeyRecord). r.id) (sym is_next) ∙ e)))
          (λ e. id_after-id_after-ne (view w).current.id (
            ap id_after (sym is_id)
            ∙ (ap (λ (r : SignedPreKeyRecord). id_after r.id) (sym is_next) ∙ (sym is_id' ∙ e))))
