-- ===== src/Signal/Quiet.antt =====
-- The calls of internal/signal/signal.go leave the store alone, if the cryptographic library does.
use omemo_go.Base.{ℕ, none, some}
use omemo_go.Types.{Slice, Protocol, v1}
use omemo_go.Store.Keeps.{
  Quiet, Unchanged-IsFrame, Within-pure, Within-lift, Within-bind, Within-wrapping,
}
use omemo_go.Signal.Library.{Library}
use omemo_go.Signal.Keys
use omemo_go.Signal.Session
use omemo_go.Signal.Session.{Session, v1_session, v2_session, PeerBundle}
use omemo_go.Signal.Payload

-- No function of the library touches the content of the store: it draws random bytes at most.
pub record IsQuietLibrary {V W DR LS LX : Type 0} (lib : Library W DR LS LX) (view : W → V)
    (IsValid : W → Type 0) : Type 0 where
  pub x25519_generate_key : Quiet view IsValid lib.x25519_generate_key
  pub ed25519_generate_key : Quiet view IsValid lib.ed25519_generate_key
  pub create_new_spk : (a : Slice) → Quiet view IsValid (lib.create_new_spk a)
  pub create_new_opk : Quiet view IsValid lib.create_new_opk
  pub create_initial_message :
      (a b c d e : Slice) → Quiet view IsValid (lib.create_initial_message a b c d e)
  pub create_active : (a b c : Slice) → Quiet view IsValid (lib.create_active a b c)
  pub create_passive : (a b c d : Slice) → Quiet view IsValid (lib.create_passive a b c d)
  pub dr_encrypt : (s : DR) (k : Slice) → Quiet view IsValid (lib.dr_encrypt s k)
  pub dr_decrypt : (s : DR) (k : Slice) → Quiet view IsValid (lib.dr_decrypt s k)
  pub legacy_create_new_spk : (a : Slice) → Quiet view IsValid (lib.legacy_create_new_spk a)
  pub legacy_create_initial_message :
      (a b c d e : Slice) → Quiet view IsValid (lib.legacy_create_initial_message a b c d e)
  pub legacy_new_active_session :
      (a b : Slice) (x : LX) → Quiet view IsValid (lib.legacy_new_active_session a b x)
  pub legacy_new_passive_session :
      (a b : Slice) (x : LX) → Quiet view IsValid (lib.legacy_new_passive_session a b x)
  pub encrypt_prekey_whisper_message :
      (s : LS) (k e : Slice) (i j r : ℕ)
      → Quiet view IsValid (lib.encrypt_prekey_whisper_message s k e i j r)
  pub encrypt_whisper_message :
      (s : LS) (k : Slice) → Quiet view IsValid (lib.encrypt_whisper_message s k)
  pub decrypt_whisper_message :
      (s : LS) (k : Slice) → Quiet view IsValid (lib.decrypt_whisper_message s k)
  pub encrypt_payload : (p : Slice) → Quiet view IsValid (lib.encrypt_payload p)
  pub encrypt_payload_v1 : (p : Slice) → Quiet view IsValid (lib.encrypt_payload_v1 p)

ruleset quiet_rules = (Unchanged-IsFrame, Within-pure, Within-lift, Within-bind, Within-wrapping)

module _ {V W DR LS LX : Type 0} (lib : Library W DR LS LX) (view : W → V) (IsValid : W → Type 0)
    (quiet : IsQuietLibrary lib view IsValid) where
  pub new_active_session-Quiet :
      (p : Protocol) (id_key : Slice) (peer : PeerBundle) (reg : ℕ)
      → Quiet view IsValid (Session.new_active_session lib p id_key peer reg)
  unfolding Session.new_active_session
  new_active_session-Quiet v1 id_key peer reg =
      search (quiet_rules, quiet.legacy_create_initial_message, quiet.legacy_new_active_session)
  new_active_session-Quiet _ id_key peer reg =
      search (quiet_rules, quiet.create_initial_message, quiet.create_active)

  pub new_passive_session-Quiet :
      (id_key peer_key spk_public spk_private opk_private ek : Slice)
      → Quiet view IsValid
          (Session.new_passive_session lib id_key peer_key spk_public spk_private opk_private ek)
  unfolding Session.new_passive_session
  new_passive_session-Quiet id_key peer_key spk_public spk_private opk_private ek =
      search (quiet_rules, quiet.create_passive)

  pub new_passive_session_from_prekey_blob-Quiet :
      (id_key spk_public spk_private opk_private blob : Slice)
      → Quiet view IsValid (
          Session.new_passive_session_from_prekey_blob lib id_key spk_public spk_private opk_private
            blob)
  unfolding Session.new_passive_session_from_prekey_blob
  new_passive_session_from_prekey_blob-Quiet id_key spk_public spk_private opk_private blob =
      search (quiet_rules, quiet.legacy_new_passive_session) depth 8

  pub encrypt-Quiet :
      (sess : Session DR LS) (key_material : Slice)
      → Quiet view IsValid (Session.encrypt lib sess key_material)
  unfolding Session.encrypt
  encrypt-Quiet (v1_session ls (some p)) key_material =
      search (quiet_rules, quiet.encrypt_prekey_whisper_message)
  encrypt-Quiet (v1_session ls none) key_material =
      search (quiet_rules, quiet.encrypt_whisper_message)
  encrypt-Quiet (v2_session dr) key_material = search (quiet_rules, quiet.dr_encrypt)

  pub decrypt-Quiet :
      (sess : Session DR LS) (wrapped : Slice)
      → Quiet view IsValid (Session.decrypt lib sess wrapped)
  unfolding Session.decrypt
  decrypt-Quiet (v1_session ls pending) wrapped =
      search (quiet_rules, quiet.decrypt_whisper_message)
  decrypt-Quiet (v2_session dr) wrapped = search (quiet_rules, quiet.dr_decrypt)

  pub encrypt_payload-Quiet :
      (p : Protocol) (plaintext : Slice)
      → Quiet view IsValid (Payload.encrypt_payload lib p plaintext)
  unfolding Payload.encrypt_payload
  encrypt_payload-Quiet v1 plaintext = search (quiet_rules, quiet.encrypt_payload_v1)
  encrypt_payload-Quiet _ plaintext = search (quiet_rules, quiet.encrypt_payload)

  pub generate_signed_prekey-Quiet :
      (p : Protocol) (id_key : Slice)
      → Quiet view IsValid (Keys.generate_signed_prekey lib p id_key)
  unfolding Keys.generate_signed_prekey
  generate_signed_prekey-Quiet v1 id_key = quiet.legacy_create_new_spk id_key
  generate_signed_prekey-Quiet _ id_key = quiet.create_new_spk id_key
