-- ===== src/Memstore/Ids.antt =====
-- The ids that `NextPreKeyID` of the in-memory store hands out, call after call.
use omemo_go.Base.{ℕ, zero, suc, ◌+◌, ◌%◌, ◌<◌, ◌≡◌, ap, ◌≢◌, arith}
use omemo_go.Types.{u32_mod}
use omemo_go.Exec.{Result, ok, err}
use omemo_go.Memstore.{MemStore, next_prekey_id}

abbrev pub value : Result ℕ → ℕ
value (ok id) = id
value (err e) = 0

-- The store after `n` calls.
unfoldable pub after_calls : ℕ → MemStore → MemStore
after_calls zero s = s
after_calls (suc n) s = (next_prekey_id (after_calls n s)).1

-- The id that the call after `n` calls returns.
abbrev pub nth_id : ℕ → MemStore → ℕ
nth_id n s = value (next_prekey_id (after_calls n s)).0

nth_id-eq : (n : ℕ) (s : MemStore) → nth_id n s ≡ (s.next_id + n + 1) % u32_mod
unfolding after_calls next_prekey_id
nth_id-eq zero s = ap (λ k. k % u32_mod) (omega arith)
nth_id-eq (suc n) s = omega (arith, nth_id-eq n s)

-- Two calls of `NextPreKeyID` of the in-memory store of which the second is fewer than 2 ^ 32 calls
-- after the first return different ids, both below 2 ^ 32; the call that comes 2 ^ 32 calls after
-- the first returns the first id again.
pub next_prekey_id-repeats :
    (i j : ℕ) (s : MemStore)
    → i < j
    → j < i + u32_mod
    → (nth_id i s ≢ nth_id j s)
      × (nth_id i s < u32_mod)
      × (nth_id j s < u32_mod)
      × (nth_id (i + u32_mod) s ≡ nth_id i s)
next_prekey_id-repeats i j s later near =
    let a = nth_id-eq i s in
    let b = nth_id-eq j s in
    let c = nth_id-eq (i + u32_mod) s in
    (λ e. omega (arith, a, b, e), omega (arith, a), omega (arith, b), omega (arith, a, c))
