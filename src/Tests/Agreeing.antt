-- ===== src/Tests/Agreeing.antt =====
-- The two ends of the toy cryptography agree.
use omemo_go.Base.{
  ◌≡◌, refl, ap, subst, ◌==◌, Bool-cases, inl, inr, ◌+◌, sym, ◌∙◌, some, nat_eq, [], ◌∷◌, ◌++◌,
  length, drop,
}
use omemo_go.Types.{Bytes, Slice, content, v2, device_eq}
use omemo_go.Exec.{Result, ok}
use omemo_go.Exec.Steps.{ok-eq-ok}
use omemo_go.Signal.Keys.{ed25519_public, identity_public_key, private_key_size}
use omemo_go.Signal.Library.{InitialMessage, ReceivedMessage}
use omemo_go.Signal.Agreement.{Agrees}
use omemo_go.Tests.Toy.{toy, seed_of, toy-ReadsBack}

-- The public half of a toy identity key is its seed.
abbrev pub IsKey : Slice → Type 0
IsKey key = ed25519_public key ≡ some (seed_of key)

own_key :
    (key : Slice) {own : Slice}
    → IsKey key
    → identity_public_key toy v2 key ≡ ok own
    → some (seed_of key) ≡ own
unfolding identity_public_key
own_key key is_own h = elim (Bool-cases (length (content key) == private_key_size)) [
  | inl fits ↦ cc (is_own, rw fits at h)
  | inr short ↦ cc (rw short at h)
]

-- A toy key pair is twice the same slice, and toy ratchets are paired when they are the same.
abbrev pub Same : {A : Type 0} → A → A → Type 0
Same a b = a ≡ b

drop-length-append : (a b : Bytes) → drop (length a) (a ++ b) ≡ b
drop-length-append [] b = refl
drop-length-append (x ∷ a) b = drop-length-append a b

abbrev received : Slice → Slice → Result ReceivedMessage
received key ad = ok (record { session_key = key; associated_data = ad })

pub toy-Agrees : Agrees toy IsKey Same Same
toy-Agrees = record {
  x3dh = λ a b own peer sp ss sig op os w w' initial own_a own_b is_a is_b same_s same_o h.
      let same_a = sym (own_key a own_a is_a) in
      let same_b = own_key b own_b is_b in
      (λ i.
        received (some (content (sym same_s i) ++ content (sym same_o i)))
          (some (content (same_a i) ++ content (same_b i))))
      ∙ ap (λ (i : InitialMessage). received i.session_key i.associated_data) (ok-eq-ok h).0;
  ratchet = λ key ad sp ss w w' a same h v. (content key, (_, refl), sym (ok-eq-ok h).0);
  message = λ a a' b k out w w' same h v.
      let e = (ok-eq-ok h).0 in
      let is_out = ap (λ (x : Slice × Bytes). x.0) e in
      let is_next = ap (λ (x : Slice × Bytes). x.1) e in
      let got = some (drop (length b) (a ++ content k)) in
      let after = record v { seed = v.seed + 1 } in
      (
        b,
        got,
        (after, subst (λ o. toy.dr_decrypt b o v ≡ (ok (got, b), after)) is_out refl),
        rw same (drop-length-append b (content k)),
        sym is_next ∙ same,
      );
  marshalled = λ d. (some d, refl);
  reads_back = toy-ReadsBack;
  payload = λ text key ciphertext w w' h.
      let e = (ok-eq-ok h).0 in
      let is_ct = ap (λ (x : Slice × Slice). x.1) e in
      (
        λ gone. cc (is_ct ∙ gone),
        λ got same. (_, refl, ap (λ (c : Slice). drop 1 (content c)) (sym is_ct)),
      );
}
