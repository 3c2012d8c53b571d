-- ===== src/Signal/Roundtrip.antt =====
-- Storing a session and loading it again, and the first message of a ProtocolV1 session.
use omemo_go.Base.{◌≡◌, refl, ◌∙◌, subst, ap, Option, none, some}
use omemo_go.Types.{Slice, Protocol, v1, v2, other}
use omemo_go.Exec.{ok}
use omemo_go.Exec.Steps.{>>=-eq-ok, ok-eq-ok}
use omemo_go.Signal.Library.{Library}
use omemo_go.Signal.Session.{
  Session, v1_session, v2_session, LegacyPendingPreKey, load_session, marshal, encrypt, restored_v1,
  restored_v2,
}

-- What the serialisation of the library promises: what it writes, it reads back.
pub record ReadsBack {W DR LS LX : Type 0} (lib : Library W DR LS LX) : Type 0 where
  pub dr : (d : DR) (blob : Slice) → lib.dr_marshal d ≡ ok blob → lib.dr_unmarshal blob ≡ ok d
  pub ls : (l : LS) (blob : Slice) → lib.ls_marshal l ≡ ok blob → lib.ls_unmarshal blob ≡ ok l

-- The kind of session that a protocol has.
abbrev pub Speaks : {DR LS : Type 0} → Protocol → Session DR LS → Type 0
Speaks v1 (v1_session ls pending) = Unit {0}
Speaks v1 (v2_session dr) = ⊥
Speaks v2 (v1_session ls pending) = ⊥
Speaks v2 (v2_session dr) = Unit {0}
Speaks (other n) (v1_session ls pending) = ⊥
Speaks (other n) (v2_session dr) = Unit {0}

-- The session without what was pending.
abbrev pub settled : {DR LS : Type 0} → Session DR LS → Session DR LS
settled (v1_session ls pending) = v1_session ls none
settled (v2_session dr) = v2_session dr

Speaks-v2 :
    {DR : Type 0} (LS : Type 0) (p : Protocol) (d d' : DR)
    → Speaks {LS = LS} p (v2_session d)
    → Speaks {LS = LS} p (v2_session d')
Speaks-v2 LS v1 d d' sp = sp
Speaks-v2 LS v2 d d' sp = sp
Speaks-v2 LS (other n) d d' sp = sp

Speaks-v1 :
    {LS : Type 0} (DR : Type 0) (p : Protocol) (l l' : LS) (o o' : Option LegacyPendingPreKey)
    → Speaks {DR = DR} p (v1_session l o)
    → Speaks {DR = DR} p (v1_session l' o')
Speaks-v1 DR v1 l l' o o' sp = sp
Speaks-v1 DR v2 l l' o o' sp = sp
Speaks-v1 DR (other n) l l' o o' sp = sp

module _ {W DR LS LX : Type 0} (lib : Library W DR LS LX) where
  -- Under the protocol of the session, what `Marshal` writes `LoadSession` reads back as the session
  -- without its pending prekey.
  pub load_session-marshal :
      (p : Protocol) (s : Session DR LS) {blob : Slice}
      → ReadsBack lib
      → Speaks p s
      → marshal lib s ≡ ok blob
      → load_session lib p blob ≡ ok (settled s)
  unfolding load_session marshal
  load_session-marshal v1 (v1_session ls pending) {blob} back sp h =
      ap (restored_v1 lib) (back.ls ls blob h)
  load_session-marshal v1 (v2_session dr) back sp h = absurd sp
  load_session-marshal v2 (v1_session ls pending) back sp h = absurd sp
  load_session-marshal v2 (v2_session dr) {blob} back sp h =
      ap (restored_v2 lib) (back.dr dr blob h)
  load_session-marshal (other n) (v1_session ls pending) back sp h = absurd sp
  load_session-marshal (other n) (v2_session dr) {blob} back sp h =
      ap (restored_v2 lib) (back.dr dr blob h)

  -- What encrypting returns: a session of the same kind, with nothing pending.
  encrypt-settled :
      (p : Protocol) (s : Session DR LS) (key_material : Slice) (w : W) {w' : W} {out : Slice}
      {s' : Session DR LS}
      → encrypt lib s key_material w ≡ (ok (out, s'), w')
      → Speaks p s
      → Speaks p s' × (settled s' ≡ s')
  unfolding encrypt
  encrypt-settled p (v2_session dr) key_material w h sp =
      let ((o, dr'), w1, ran, rest) = >>=-eq-ok (lib.dr_encrypt dr key_material) _ h in
      subst (λ x. Speaks p x × (settled x ≡ x)) (ap (λ q. q.1) (ok-eq-ok rest).0)
        (Speaks-v2 LS p dr dr' sp, refl)
  encrypt-settled p (v1_session ls none) key_material w h sp =
      let ((o, ls'), w1, ran, rest) = >>=-eq-ok (lib.encrypt_whisper_message ls key_material) _ h in
      subst (λ x. Speaks p x × (settled x ≡ x)) (ap (λ q. q.1) (ok-eq-ok rest).0)
        (Speaks-v1 DR p ls ls' none none sp, refl)
  encrypt-settled p (v1_session ls (some k)) key_material w h sp =
      let ((o, ls'), w1, ran, rest) =
        >>=-eq-ok
          (lib.encrypt_prekey_whisper_message ls key_material k.ephemeral_key k.prekey_id
            k.signed_prekey_id k.registration_id)
          _ h in
      subst (λ x. Speaks p x × (settled x ≡ x)) (ap (λ q. q.1) (ok-eq-ok rest).0)
        (Speaks-v1 DR p ls ls' (some k) none sp, refl)

  -- When the ratchets of the library read back what they write: a session that has encrypted under
  -- its own protocol, and is then written with `Marshal`, is read back by `LoadSession` as exactly
  -- the session that encrypting has left.
  pub encrypt-marshal-load_session :
      (p : Protocol) (s : Session DR LS) (key_material : Slice) (w : W) {w' : W} {out blob : Slice}
      {s' : Session DR LS}
      → ReadsBack lib
      → Speaks p s
      → encrypt lib s key_material w ≡ (ok (out, s'), w')
      → marshal lib s' ≡ ok blob
      → load_session lib p blob ≡ ok s'
  encrypt-marshal-load_session p s key_material w {w'} {out} {blob} {s'} back sp h written =
      let (sp', same) = encrypt-settled p s key_material w h sp in
      load_session-marshal p s' back sp' written ∙ ap ok same
