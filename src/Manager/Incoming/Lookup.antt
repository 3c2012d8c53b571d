-- ===== src/Manager/Incoming/Lookup.antt =====
-- `signedPreKeyByID` answers for the current signed prekey and for the stale one, and for no other.
use omemo_go.Base.{
  ℕ, ◌≡◌, refl, sym, ◌∙◌, ap, subst, ◌⊎◌, inl, inr, Option, none, some, ◌==◌, nat_eq, if◌then◌else◌,
  Bool-cases,
}
use omemo_go.Types.{SignedPreKeyRecord}
use omemo_go.Errors.{Context, Error, wrap, unknown_signed_prekey}
use omemo_go.Exec.{Result, ok, err, Exec, wrapping, continue, wrapped_result, pure, ◌>>=◌}
use omemo_go.Exec.Steps.{ok-eq-ok}
use mathlib.Core.Path.{subst₂}
use omemo_go.Store.{Store}
use omemo_go.Store.View.{View, reads}
use omemo_go.Store.Contract.{Ends}
use omemo_go.Signal.Library.{Library}
use omemo_go.Manager.State.{Manager}
use omemo_go.Manager.Incoming.{signed_prekey_by_id, stale_by_id}
use omemo_go.Manager.Sound.{IsSound}

abbrev pub held_stale : ℕ → Option SignedPreKeyRecord → Option SignedPreKeyRecord
held_stale id none = none
held_stale id (some stale) = if stale.id == id then some stale else none

-- The signed prekey that the store holds under the id: the current one first.
abbrev pub held_of : SignedPreKeyRecord → Option SignedPreKeyRecord → ℕ → Option SignedPreKeyRecord
held_of cur stale id = if cur.id == id then some cur else held_stale id stale

abbrev pub held : View → ℕ → Option SignedPreKeyRecord
held v = held_of v.current v.stale

abbrev pub answer : ℕ → Option SignedPreKeyRecord → Result SignedPreKeyRecord
answer id none = err (unknown_signed_prekey id)
answer id (some spk) = ok spk

-- A reading of a signed prekey in which the store reports the error.
abbrev pub StoreFails : {W : Type 0} → Store W → Error → Type 0
StoreFails {W} S e =
    (w : W) × (((S.current_signed_prekey w).0 ≡ err e) ⊎ ((S.stale_signed_prekey w).0 ≡ err e))

-- A call that gives the answer `a`, or passes on an error of the store; the content stays as it is.
abbrev pub Gives :
    {W : Type 0} → Store W → Result SignedPreKeyRecord → Result SignedPreKeyRecord → Type 0
Gives S a r =
    (r ≡ a) ⊎ ((c : Context) × (cause : Error) × StoreFails S cause × (r ≡ err (wrap c cause)))

abbrev pub Answers :
    {W : Type 0} (S : Store W) (view : W → View)
    → W
    → Result SignedPreKeyRecord
    → Result SignedPreKeyRecord × W
    → Type 0
Answers S view w a (r, w') = Gives S a r × (view w' ≡ view w)

module _ {W DR LS LX : Type 0} (lib : Library W DR LS LX) (m : Manager W) (view : W → View)
    (IsValid : W → Type 0) (sound : IsSound lib m view IsValid) (id : ℕ) where
  stale_by_id-Answers :
      (o : Option SignedPreKeyRecord) (w : W)
      → Answers m.store view w (answer id (held_stale id o)) (stale_by_id m id o w)
  unfolding stale_by_id
  stale_by_id-Answers none w = (inl refl, refl)
  stale_by_id-Answers (some stale) w = elim (Bool-cases (stale.id == id)) [
    | inl same ↦ rw same (inl refl, refl)
    | inr differ ↦ rw differ (inl refl, refl)
  ]

  abbrev after_stale : Result (Option SignedPreKeyRecord) → Exec W SignedPreKeyRecord
  after_stale r = continue (wrapped_result Context.load_stale_signed_prekey r) (stale_by_id m id)

  after_stale-Answers :
      (r : Result (Option SignedPreKeyRecord)) {w : W} (w1 : W)
      → ((e : Error) → r ≡ err e → StoreFails m.store e)
      → Ends view IsValid (reads λ v. v.stale) w (r, w1)
      → Answers m.store view w (answer id (held_stale id (view w).stale)) (after_stale r w1)
  after_stale-Answers (err e) w1 fails (v1, same) =
      (inr (Context.load_stale_signed_prekey, e, fails e refl, refl), same)
  after_stale-Answers (ok o) {w} w1 fails (v1, found) =
      let (is_o, same) = ok-eq-ok found in
      let (gives, still) = stale_by_id-Answers o w1 in
      (
        subst (λ x. Gives m.store (answer id (held_stale id x)) (stale_by_id m id o w1).0)
            (sym is_o) gives,
        still ∙ sym same,
      )

  -- What follows the reading of the current signed prekey.
  abbrev after_current : SignedPreKeyRecord → Exec W SignedPreKeyRecord
  after_current cur = if cur.id == id then pure cur else do
    stale ← wrapping Context.load_stale_signed_prekey m.store.stale_signed_prekey
    stale_by_id m id stale

  after_current-Answers :
      (cur : SignedPreKeyRecord) (w : W)
      → IsValid w
      → Answers m.store view w (answer id (held_of cur (view w).stale id)) (after_current cur w)
  after_current-Answers cur w v = elim (Bool-cases (cur.id == id)) [
    | inl same ↦ rw same (inl refl, refl)
    | inr differ ↦ rw differ (
        after_stale-Answers (m.store.stale_signed_prekey w).0 (m.store.stale_signed_prekey w).1
          (λ e h. (w, inr h)) (sound.lawful.stale_signed_prekey w v))
  ]

  by_result :
      (r : Result SignedPreKeyRecord) {w : W} (w1 : W)
      → ((e : Error) → r ≡ err e → StoreFails m.store e)
      → Ends view IsValid (reads λ v. v.current) w (r, w1)
      → Answers m.store view w
          (answer id (held (view w) id))
          (continue (wrapped_result Context.load_signed_prekey r) after_current w1)
  by_result (err e) w1 fails (v1, same) =
      (inr (Context.load_signed_prekey, e, fails e refl, refl), same)
  by_result (ok cur) {w} w1 fails (v1, found) =
      let (is_cur, same) = ok-eq-ok found in
      let (gives, still) = after_current-Answers cur w1 v1 in
      (
        subst₂ (λ c s. Gives m.store (answer id (held_of c s id)) (after_current cur w1).0)
            (sym is_cur) (ap (λ (x : View). x.stale) (sym same)) gives,
        still ∙ sym same,
      )

  -- For a sound manager and a valid world: `signedPreKeyByID` returns the current signed prekey if
  -- it has the id, else the stale one if there is one and it has the id, else the error for an
  -- unknown id; or it wraps an error that the store reports when it reads a signed prekey; and the
  -- content of the store stays as it was.
  pub signed_prekey_by_id-Answers :
      (w : W)
      → IsValid w
      → Answers m.store view w (answer id (held (view w) id)) (signed_prekey_by_id m id w)
  unfolding signed_prekey_by_id
  signed_prekey_by_id-Answers w v =
      by_result (m.store.current_signed_prekey w).0 (m.store.current_signed_prekey w).1
        (λ e h. (w, inl h)) (sound.lawful.current_signed_prekey w v)
