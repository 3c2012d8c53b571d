-- ===== src/Signal/Agreement.antt =====
-- What the two ends of the cryptographic library promise each other under ProtocolV2: X3DH gives both
-- ends the same key, a passive ratchet is made for every active one, and what one ratchet wraps the
-- paired one unwraps, message after message. What comes out has the bytes of what went in; whether no
-- bytes come out as nil or as an empty slice is left open.
use omemo_go.Base.{◌≡◌, ◌≢◌, none}
use omemo_go.Types.{Slice, content, v2}
use omemo_go.Exec.{ok, Exec}
use omemo_go.Signal.Library.{Library, InitialMessage}
use omemo_go.Signal.Keys.{identity_public_key}
use omemo_go.Signal.Roundtrip.{ReadsBack}

-- The call returns a value.
abbrev pub Returns : {W A : Type 0} → Exec W A → W → A → Type 0
Returns {W} c w a = (w' : W) × (c w ≡ (ok a, w'))

-- `IsOwn key` says of an identity private key that its second half is the Ed25519 public key of the
-- seed in its first, `IsPair public private` of two slices that they are a Curve25519 key pair, and
-- `Paired a b` that the ratchet `b` can read the next message of the ratchet `a`.
pub record Agrees {W DR LS LX : Type 0} (lib : Library W DR LS LX) (IsOwn : Slice → Type 0)
    (IsPair : Slice → Slice → Type 0) (Paired : DR → DR → Type 0) : Type 0 where
  pub x3dh :
      (a b own peer spk_public spk_private sig opk_public opk_private : Slice) (w w' : W)
      (initial : InitialMessage)
      → IsOwn a
      → IsOwn b
      → identity_public_key lib v2 a ≡ ok own
      → identity_public_key lib v2 b ≡ ok peer
      → IsPair spk_public spk_private
      → IsPair opk_public opk_private
      → lib.create_initial_message a peer spk_public sig opk_public w ≡ (ok initial, w')
      → lib.receive_initial_message b own spk_private opk_private initial.ephemeral_key
        ≡ ok (record {
          session_key = initial.session_key;
          associated_data = initial.associated_data;
        })
  pub ratchet :
      (key ad spk_public spk_private : Slice) (w w' : W) (a : DR)
      → IsPair spk_public spk_private
      → lib.create_active key ad spk_public w ≡ (ok a, w')
      → (v : W)
      → (b : DR) × Returns (lib.create_passive key ad spk_public spk_private) v b × Paired a b
  pub message :
      (a a' b : DR) (key_material out : Slice) (w w' : W)
      → Paired a b
      → lib.dr_encrypt a key_material w ≡ (ok (out, a'), w')
      → (v : W)
      → (b' : DR) × (got : Slice) × Returns (lib.dr_decrypt b out) v (got, b')
        × (content got ≡ content key_material)
        × Paired a' b'
  pub marshalled : (d : DR) → (blob : Slice) × (lib.dr_marshal d ≡ ok blob)
  pub reads_back : ReadsBack lib
  -- A body is opened with the key that it was closed with, and its ciphertext is not nil.
  pub payload :
      (text key ciphertext : Slice) (w w' : W)
      → lib.encrypt_payload text w ≡ (ok (key, ciphertext), w')
      → (ciphertext ≢ none)
        × ((got : Slice)
            → content got ≡ content key
            → (out : Slice) × (lib.decrypt_payload got ciphertext ≡ ok out)
              × (content out ≡ content text))
