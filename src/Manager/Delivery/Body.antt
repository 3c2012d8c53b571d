-- ===== src/Manager/Delivery/Body.antt =====
-- The payload of a message, opened with the key material that the ratchet has carried.
use omemo_go.Base.{◌≡◌, ◌≢◌, refl, subst, none, some, List, nat_eq}
use omemo_go.Types.{Slice, content, v2, Device, RecipientKey, EncryptedMessage}
use omemo_go.Exec.{ok}
use omemo_go.Exec.Steps.{>>=-eq-ok, ok-eq-ok}
use omemo_go.Signal.Library.{Library}
use omemo_go.Signal.Agreement.{Agrees}
use omemo_go.Signal.Payload
use omemo_go.Signal.Payload.{EncryptedPayload}
use omemo_go.Manager.State.{Manager}
use omemo_go.Manager.Encrypt.{envelope}
use omemo_go.Manager.Incoming.{open_payload}

module _ {W DR LS LX : Type 0} (lib : Library W DR LS LX) (IsOwn : Slice → Type 0)
    (IsPair : Slice → Slice → Type 0) (Paired : DR → DR → Type 0)
    (agrees : Agrees lib IsOwn IsPair Paired) (m : Manager W) where
  -- The payload is opened with the bytes of the key material that it was closed with.
  abbrev pub Closes : Slice → EncryptedPayload → Type 0
  Closes text p =
      (p.ciphertext ≢ none)
      × ((got : Slice)
          → content got ≡ content p.key_material
          → (out : Slice) × (lib.decrypt_payload got p.ciphertext ≡ ok out)
            × (content out ≡ content text))

  pub encrypt_payload-Closes :
      (text : Slice) (w : W) {w' : W} {p : EncryptedPayload}
      → Payload.encrypt_payload lib v2 text w ≡ (ok p, w')
      → Closes text p
  unfolding Payload.encrypt_payload
  encrypt_payload-Closes text w h =
      let ((key, ciphertext), w1, e, h1) = >>=-eq-ok (lib.encrypt_payload text) _ h in
      subst (Closes text) (ok-eq-ok h1).0 (agrees.payload text key ciphertext w w1 e)

  open_payload-some :
      (key iv ciphertext text : Slice) (w : W)
      → m.protocol ≡ v2
      → ciphertext ≢ none
      → lib.decrypt_payload key ciphertext ≡ ok text
      → open_payload lib m key iv ciphertext w ≡ (ok text, w)
  unfolding open_payload Payload.decrypt_payload
  open_payload-some key iv none text w is_v2 there e = absurd (there refl)
  open_payload-some key iv (some c) text w is_v2 there e = rw (is_v2, e) refl

  -- The message opens to the plaintext, in every world.
  abbrev pub OpensTo : EncryptedMessage → Slice → Slice → Type 0
  OpensTo msg got plaintext =
      (out : Slice) × ((w : W) → open_payload lib m got msg.iv msg.payload w ≡ (ok out, w))
      × (content out ≡ content plaintext)

  pub envelope-OpensTo :
      (sender : Device) (plaintext : Slice) (p : EncryptedPayload) (keys : List RecipientKey)
      (got : Slice)
      → m.protocol ≡ v2
      → Closes plaintext p
      → content got ≡ content p.key_material
      → OpensTo (envelope sender plaintext p keys) got plaintext
  unfolding envelope open_payload
  envelope-OpensTo sender none p keys got is_v2 closes same = (none, λ w. refl, refl)
  envelope-OpensTo sender (some text) p keys got is_v2 (there, opens) same =
      let (out, e, is_text) = opens got same in
      (out, λ w. open_payload-some got p.iv p.ciphertext out w is_v2 there e, is_text)
