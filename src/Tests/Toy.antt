-- ===== src/Tests/Toy.antt =====
-- The world of the tests: an in-memory store, the lock table, what the transport serves, and a number
-- from which toy keys are drawn. The toy cryptography has no security, but its two ends agree.
use omemo_go.Base.{
  ℕ, zero, suc, ◌+◌, String, ◌≡◌, refl, ap, sym, Option, none, some, List, [], ◌∷◌, ◌++◌, length,
  drop, string_eq,
}
use omemo_go.Base.GoMap.{GoMap}
use omemo_go.Types.{Bytes, Slice, content, Device, device_eq, Bundle}
use omemo_go.Errors.{external}
use omemo_go.Exec.{Result, ok, err, Exec, raise, Lens}
use omemo_go.Store.Keeps.{Quiet}
use omemo_go.Memstore.{MemStore}
use omemo_go.Signal.Library.{Library, PreKeyMessage}
use omemo_go.Signal.Roundtrip.{ReadsBack}
use omemo_go.Manager.Locks.{LockTable}

pub record World : Type 0 where
  pub mem : MemStore
  pub table : LockTable
  pub seed : ℕ
  pub bundles : GoMap Device Bundle
  pub lists : GoMap String (List ℕ)

abbrev pub mem_part : Lens World MemStore
mem_part = record { get = λ w. w.mem; put = λ s w. record w { mem = s }; get-put = λ s w. refl }

abbrev pub lock_part : Lens World LockTable
lock_part = record {
  get = λ w. w.table;
  put = λ t w. record w { table = t };
  get-put = λ t w. refl;
}

abbrev pub replicate : ℕ → ℕ → Bytes
replicate zero x = []
replicate (suc n) x = x ∷ replicate n x

-- The first half of an identity key, where Ed25519 keeps the seed.
abbrev first_bytes : ℕ → Bytes → Bytes
first_bytes zero xs = []
first_bytes (suc n) [] = []
first_bytes (suc n) (x ∷ xs) = x ∷ first_bytes n xs

abbrev pub seed_of : Slice → Bytes
seed_of key = first_bytes 32 (content key)

-- The next number.
abbrev pub draw : {A : Type 0} → (ℕ → A) → Exec World A
draw f w = (ok (f w.seed), record w { seed = w.seed + 1 })

abbrev pub or_external : {A : Type 0} → Option A → Result A
or_external none = err (external 1)
or_external (some a) = ok a

read_again :
    (d : Bytes) {blob : Slice}
    → ◌≡◌ {A = Result Slice} (ok (some d)) (ok blob)
    → or_external blob ≡ ok d
read_again d {blob} h =
    ap or_external (sym (ap (λ (r : Result Slice). elim r [ ok x ↦ x | err e ↦ blob ]) h))

-- What the toy envelope of ProtocolV1 is: the two ids, one byte each, and the message.
abbrev parse : Bytes → Result PreKeyMessage
parse (s ∷ p ∷ rest) = ok (record {
  signed_prekey_id = s;
  prekey_id = p;
  identity_key = some (s ∷ []);
  base_key = some (p ∷ []);
  message = some rest;
})
parse _ = err (external 2)

-- The toy ratchet refuses only the nil slice.
abbrev opened : Bytes → Slice → Exec World (Slice × Bytes)
opened dr none = raise (external 4)
opened dr (some k) = draw (λ n. (some (drop (length dr) k), dr))

pub opened-Quiet :
    {V : Type 0} (view : World → V) (IsValid : World → Type 0)
    → ((w : World) → IsValid w → IsValid (record w { seed = w.seed + 1 }))
    → ((w : World) → view (record w { seed = w.seed + 1 }) ≡ view w)
    → (dr : Bytes) (k : Slice) → Quiet view IsValid (opened dr k)
opened-Quiet view IsValid valid same dr none = record { at = λ w v. (v, refl) }
opened-Quiet view IsValid valid same dr (some k) = record { at = λ w v. (valid w v, same w) }

-- A ratchet is its key; what it encrypts is the key in front of the text.
abbrev pub toy : Library World Bytes Bytes Bytes
toy = record {
  x25519_generate_key = draw (λ n. some (replicate 32 n));
  x25519_public_key = λ priv. ok priv;
  ed25519_generate_key = draw (λ n. some (replicate 64 n));
  create_new_spk =
      λ id. draw (λ n. record { public = some (n ∷ []); private = some (n ∷ []); signature = id });
  create_new_opk = draw (λ n. record { public = some (n ∷ []); private = some (n ∷ []) });
  create_initial_message = λ id peer spk sig opk. draw (λ n. record {
    session_key = some (content spk ++ content opk);
    associated_data = some (seed_of id ++ content peer);
    ephemeral_key = some (n ∷ []);
  });
  receive_initial_message = λ id peer spk opk ek. ok (record {
    session_key = some (content spk ++ content opk);
    associated_data = some (content peer ++ seed_of id);
  });
  create_active = λ key ad spk. draw (λ n. content key);
  create_passive = λ key ad spk priv. draw (λ n. content key);
  dr_marshal = λ dr. ok (some dr);
  dr_unmarshal = or_external;
  dr_encrypt = λ dr k. draw (λ n. (some (dr ++ content k), dr));
  dr_decrypt = opened;
  legacy_create_new_spk =
      λ id. draw (λ n. record { public = some (n ∷ []); private = some (n ∷ []); signature = id });
  legacy_create_initial_message =
      λ id peer spk sig opk. draw (λ n. (content spk ++ content opk, some (n ∷ [])));
  legacy_receive_initial_message = λ id peer spub spk opk base. ok (content spk ++ content opk);
  legacy_new_active_session = λ id peer x. draw (λ n. x);
  legacy_new_passive_session = λ id peer x. draw (λ n. x);
  parse_prekey_message = λ blob. parse (content blob);
  ls_marshal = λ ls. ok (some ls);
  ls_unmarshal = or_external;
  encrypt_prekey_whisper_message =
      λ ls k ek opk spk reg. draw (λ n. (some (spk ∷ opk ∷ ls ++ content k), ls));
  encrypt_whisper_message = λ ls k. draw (λ n. (some (ls ++ content k), ls));
  decrypt_whisper_message = λ ls k. draw (λ n. (some (drop (length ls) (content k)), ls));
  encrypt_payload = λ text. draw (λ n. (some (n ∷ []), some (n ∷ content text)));
  encrypt_payload_v1 = λ text. draw (λ n. (some (n ∷ []), some (n ∷ []), some (n ∷ content text)));
  decrypt_payload = λ key c. ok (some (drop 1 (content c)));
  decrypt_payload_v1 = λ key iv c. ok (some (drop 1 (content c)));
}

pub toy-ReadsBack : ReadsBack toy
toy-ReadsBack = record { dr = λ d blob h. read_again d h; ls = λ l blob h. read_again l h }
