-- ===== src/Manager/Prekeys/Generation.antt =====
-- `generateOneTimePreKeys` over the in-memory store.
use omemo_go.Base.{
  ℕ, zero, suc, ◌+◌, ◌%◌, ◌<◌, ◌≡◌, refl, sym, ◌∙◌, ap, subst, arith, List, [], ◌∷◌, ◌++◌, length,
  All, All-append,
}
use mathlib.Core.List.{append-nil, append_assoc}
use omemo_go.Types.{u32_mod, PreKeyRecord}
use omemo_go.Errors.{Context}
use omemo_go.Exec.{Result, ok, Lens, through}
use omemo_go.Exec.Steps.{>>=-eq-ok, ok-eq-ok, wrapping-bind-eq-ok}
use omemo_go.Memstore
use omemo_go.Memstore.{MemStore}
use omemo_go.Memstore.Interface.{memory_store}
use omemo_go.Memstore.Pool.{IsBelow, Consecutive, IsExtended, put_all-IsExtended}
use omemo_go.Signal.Library.{Library, KeyPair}
use omemo_go.Signal.Keys
use omemo_go.Store.{Store}
use omemo_go.Manager.Prekeys.{generate_records, generate_prekeys}

-- The halves of the record came from a call of the library.
abbrev pub IsMade : {W DR LS LX : Type 0} → Library W DR LS LX → PreKeyRecord → Type 0
IsMade {W} lib r =
    (pair : KeyPair) × (w : W) × (w' : W) × (lib.create_new_opk w ≡ (ok pair, w'))
    × (r.public ≡ pair.public)
    × (r.private ≡ pair.private)

-- The loop makes every record that it adds.
generate_records-IsMade :
    {W DR LS LX : Type 0} (lib : Library W DR LS LX) (store : Store W) (n : ℕ)
    (recs : List PreKeyRecord) (w : W) {w' : W} {out : List PreKeyRecord}
    → All (IsMade lib) recs
    → generate_records lib store n recs w ≡ (ok out, w')
    → All (IsMade lib) out
unfolding generate_records Keys.generate_one_time_prekey
generate_records-IsMade lib store zero recs w made h = subst (All (IsMade lib)) (ok-eq-ok h).0 made
generate_records-IsMade lib store (suc n) recs w made h =
    let (id, w1, e1, h1) =
      wrapping-bind-eq-ok Context.allocate_prekey_id store.next_prekey_id _ h in
    let (pair, w2, e2, h2) =
      wrapping-bind-eq-ok Context.generate_one_time_prekey lib.create_new_opk _ h1 in
    let rec : PreKeyRecord = record { id = id; public = pair.public; private = pair.private } in
    generate_records-IsMade lib store n (recs ++ rec ∷ []) w2
      (All-append (IsMade lib) recs (rec ∷ []) made ((pair, w1, w2, e2, refl, refl), tt)) h2

module _ {W DR LS LX : Type 0} (lib : Library W DR LS LX) (part : Lens W MemStore)
    (order : List PreKeyRecord → List PreKeyRecord)
    (undisturbed : (w : W) → part.get (lib.create_new_opk w).1 ≡ part.get w) where
  abbrev S : Store W
  S = memory_store part order

  abbrev top : W → ℕ
  top w = (part.get w).next_id

  -- The counter has advanced by `n`, and nothing else has changed.
  abbrev Advanced : ℕ → W → W → Type 0
  Advanced n w w' = part.get w' ≡ record (part.get w) { next_id = top w + n }

  next_prekey_id-eq-ok :
      {w w' : W} {id : ℕ}
      → top w + 1 < u32_mod
      → S.next_prekey_id w ≡ (ok id, w')
      → (id ≡ top w + 1) × Advanced 1 w w'
  unfolding memory_store through Memstore.next_prekey_id
  next_prekey_id-eq-ok {w} small h =
      let fits : (top w + 1) % u32_mod ≡ top w + 1 = omega arith in
      let (is_id, is_end) = ok-eq-ok h in
      (
        sym is_id ∙ fits,
        ap part.get (sym is_end)
            ∙ (part.get-put _ w ∙ ap (λ k. record (part.get w) { next_id = k }) fits),
      )

  -- What the loop has added.
  abbrev Adds : ℕ → List PreKeyRecord → List PreKeyRecord → W → W → Type 0
  Adds n recs out w w' =
      (new : List PreKeyRecord) × (out ≡ recs ++ new)
      × Consecutive (top w) new
      × (length new ≡ n)
      × Advanced n w w'

  generate_records-Adds :
      (n : ℕ) (recs : List PreKeyRecord) {w w' : W} {out : List PreKeyRecord}
      → top w + n < u32_mod
      → generate_records lib S n recs w ≡ (ok out, w')
      → Adds n recs out w w'
  unfolding generate_records Keys.generate_one_time_prekey
  generate_records-Adds zero recs {w} small h =
      let (is_out, is_end) = ok-eq-ok h in
      (
        [],
        sym is_out ∙ sym (append-nil recs),
        tt,
        refl,
        ap part.get (sym is_end)
            ∙ ap (λ k. record (part.get w) { next_id = k })
                (let e : top w ≡ top w + 0 = omega arith in e),
      )
  generate_records-Adds (suc n) recs {w} {w'} {out} small h =
      let (id, w1, e1, h1) = wrapping-bind-eq-ok Context.allocate_prekey_id S.next_prekey_id _ h in
      let (is_id, adv1) = next_prekey_id-eq-ok (omega arith) e1 in
      let (pair, w2, e2, h2) =
        wrapping-bind-eq-ok Context.generate_one_time_prekey lib.create_new_opk _ h1 in
      let same2 =
        ap (λ (p : Result KeyPair × W). part.get p.1) (sym e2) ∙ (undisturbed w1 ∙ adv1) in
      let is_top = ap (λ (s : MemStore). s.next_id) same2 in
      let rec : PreKeyRecord = record { id = id; public = pair.public; private = pair.private } in
      let (new, is_out, ids, count, adv) =
        generate_records-Adds n (recs ++ rec ∷ []) (omega arith) h2 in
      (
        rec ∷ new,
        is_out ∙ append_assoc recs (rec ∷ []) new,
        (is_id, subst (λ k. Consecutive k new) is_top ids),
        ap suc count,
        adv
            ∙ (ap (λ (s : MemStore). record s { next_id = s.next_id + n }) same2
                ∙ ap (λ k. record (part.get w) { next_id = k })
                    (let e : top w + 1 + n ≡ top w + suc n = omega arith in e)),
      )

  -- The state after a generation: the counter and the pool have changed.
  pub generate_prekeys-state :
      (n : ℕ) {w w' : W}
      → top w + n < u32_mod
      → generate_prekeys lib S n w ≡ (ok tt, w')
      → (new : List PreKeyRecord) × Consecutive (top w) new
        × (length new ≡ n)
        × All (IsMade lib) new
        × (part.get w' ≡ record (part.get w) {
          next_id = top w + n;
          prekeys = Memstore.put_all new (part.get w).prekeys;
        })
  unfolding generate_prekeys memory_store through Memstore.put_prekeys
  generate_prekeys-state n {w} small h =
      let (recs, w1, e1, h1) = >>=-eq-ok (generate_records lib S n []) _ h in
      let (new, is_new, ids, count, adv) = generate_records-Adds n [] small e1 in
      (
        new,
        ids,
        count,
        subst (All (IsMade lib)) is_new (generate_records-IsMade lib S n [] w tt e1),
        ap part.get (sym (ok-eq-ok h1).1)
            ∙ (part.get-put _ w1
                ∙ (ap
                      (λ r. record (part.get w1) {
                        prekeys = Memstore.put_all r (part.get w1).prekeys;
                      })
                      is_new
                    ∙ ap (λ (s : MemStore). record s { prekeys = Memstore.put_all new s.prekeys })
                        adv)),
      )

  -- Over the in-memory store, with a library that leaves the store alone, no id of the pool above
  -- the counter, and the counter plus `n` below 2 ^ 32: a successful `generateOneTimePreKeys`
  -- advances the counter by `n`; the pool has `n` entries more, with an entry under each id that
  -- the counter has passed, none above the counter, and every entry up to the old counter as it
  -- was.
  pub generate_prekeys-IsExtended :
      (n : ℕ) {w w' : W}
      → top w + n < u32_mod
      → IsBelow (top w) (part.get w).prekeys
      → generate_prekeys lib S n w ≡ (ok tt, w')
      → (top w' ≡ top w + n)
        × IsExtended (top w) (top w') (part.get w).prekeys (part.get w').prekeys n
  generate_prekeys-IsExtended n {w} {w'} small below h =
      let (new, ids, count, made, is_state) = generate_prekeys-state n small h in
      let pool = (part.get w).prekeys in
      let is_top = ap (λ (s : MemStore). s.next_id) is_state in
      let is_pool = ap (λ (s : MemStore). s.prekeys) is_state in
      let extended = put_all-IsExtended new (top w) pool below ids in
      (
        is_top,
        subst (λ t. IsExtended (top w) t pool (part.get w').prekeys n) (sym is_top)
            (subst (λ p. IsExtended (top w) (top w + n) pool p n) (sym is_pool)
              (subst (λ c. IsExtended (top w) (top w + c) pool (Memstore.put_all new pool) c) count
                extended)),
      )
