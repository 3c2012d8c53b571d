-- ===== src/Manager/Outgoing/Next.antt =====
-- What is in the key for a device with a session, under ProtocolV2: the next message of the stored
-- ratchet, which is stored again.
use omemo_go.Base.{◌≡◌, sym, ◌∙◌, ap, subst, arith, Option, some}
use omemo_go.Types.{Slice, v2, Device, device_eq, RecipientKey, KeyExchange}
use omemo_go.Errors.{Context}
use omemo_go.Exec.{ok}
use omemo_go.Exec.Steps.{>>=-eq-ok, ok-eq-ok, wrapping-bind-eq-ok}
use omemo_go.Store.View.{View}
use omemo_go.Store.Keeps.{Anything, Anything-IsFrame}
use omemo_go.Store.Methods.{session-reads, remote_identity_key-reads}
use omemo_go.Signal.Library.{Library}
use omemo_go.Signal.Quiet.{encrypt-Quiet}
use omemo_go.Signal.Roundtrip.{ReadsBack}
use omemo_go.Signal.Session as Signal
use omemo_go.Signal.Session.{Session, v2_session, restored_v2}
use omemo_go.Manager.State.{Manager}
use omemo_go.Manager.Trust.{check_trust}
use omemo_go.Manager.Trust.Frame.{check_trust-Within}
use omemo_go.Manager.Outgoing.{
  stored_or_new, get_or_create_active_session, put_session, encrypt_locked,
}
use omemo_go.Manager.Outgoing.Frame.{get_or_create_active_session-Within}
use omemo_go.Manager.Outgoing.Safety.{known_key-bind-eq-ok, seal, put_session-eq-ok}
use omemo_go.Manager.Sound.{IsSound}

module _ {W DR LS LX : Type 0} (lib : Library W DR LS LX) (view : W → View) where
  -- The ratchet is stored for the device.
  pub record HasRatchet (dev : Device) (ratchet : DR) (w : W) : Type 0 where
    pub blob : Slice
    pub stored : (view w).session_of dev ≡ some blob
    pub restored : lib.dr_unmarshal blob ≡ ok ratchet

module _ {W DR LS LX : Type 0} (lib : Library W DR LS LX) (m : Manager W) (view : W → View)
    (IsValid : W → Type 0) (sound : IsSound lib m view IsValid) (back : ReadsBack lib) where
  -- The key is what the ratchet made of the key material, and the ratchet after it is stored.
  pub record IsNext (dev : Device) (ratchet : DR) (key_material : Slice) (key : RecipientKey)
      (w' : W) : Type 0 where
    pub next : DR
    pub before : W
    pub after : W
    pub encrypted : lib.dr_encrypt ratchet key_material before ≡ (ok (key.wrapped, next), after)
    pub valid : IsValid w'
    pub has_ratchet : HasRatchet lib view dev next w'

  pub IsNext-same :
      (dev : Device) (ratchet : DR) (key_material : Slice) (key : RecipientKey) {w w' : W}
      → IsValid w'
      → view w' ≡ view w
      → IsNext dev ratchet key_material key w
      → IsNext dev ratchet key_material key w'
  IsNext-same dev ratchet key_material key v same is_next =
      let kept = is_next.has_ratchet in
      record {
        next = is_next.next;
        before = is_next.before;
        after = is_next.after;
        encrypted = is_next.encrypted;
        valid = v;
        has_ratchet = record {
          blob = kept.blob;
          stored = ap (λ (x : View). x.session_of dev) same ∙ kept.stored;
          restored = kept.restored;
        };
      }

  encrypt-next :
      (ratchet : DR) (key_material : Slice) (w : W) {w' : W} {out : Slice} {sess : Session DR LS}
      → Signal.encrypt lib (v2_session ratchet) key_material w ≡ (ok (out, sess), w')
      → (next : DR) × (lib.dr_encrypt ratchet key_material w ≡ (ok (out, next), w'))
        × (sess ≡ v2_session next)
  unfolding Signal.encrypt
  encrypt-next ratchet key_material w {w'} h =
      let ((o, next), w1, e1, h1) = >>=-eq-ok (lib.dr_encrypt ratchet key_material) _ h in
      let (same, at_end) = ok-eq-ok h1 in
      (
        next,
        subst (λ x. lib.dr_encrypt ratchet key_material w ≡ (ok (x, next), w'))
            (ap (λ (q : Slice × Session DR LS). q.0) same)
            (subst (λ x. lib.dr_encrypt ratchet key_material w ≡ (ok (o, next), x)) at_end e1),
        ap (λ (q : Slice × Session DR LS). q.1) (sym same),
      )

  pub seal-IsNext :
      (dev : Device) (key_material : Slice) (ratchet : DR) (kx : Option KeyExchange)
      (id_key : Slice) (w : W) {w' : W} {key : RecipientKey}
      → IsValid w
      → seal lib m dev key_material (v2_session ratchet) kx id_key w ≡ (ok key, w')
      → IsNext dev ratchet key_material key w'
  unfolding Signal.marshal
  seal-IsNext dev key_material ratchet kx id_key w {w'} {key} v h =
      let (u, w1, e1, h1) = >>=-eq-ok (check_trust m dev id_key) _ h in
      let (valid1, any) = rw e1 at (
        (check_trust-Within lib m view IsValid sound Anything Anything-IsFrame id_key (λ x ne. tt)
            dev).at
          w v) in
      let ((out, sess), w2, e2, h2) =
        wrapping-bind-eq-ok Context.ratchet_encrypt
          (Signal.encrypt lib (v2_session ratchet) key_material) _ h1 in
      let (valid2, same) = rw e2 at (
        (encrypt-Quiet lib view IsValid sound.library (v2_session ratchet) key_material).at w1
          valid1) in
      let (next, e, is_sess) = encrypt-next ratchet key_material w1 e2 in
      let (u3, w3, e3, h3) = >>=-eq-ok (put_session lib m dev sess) _ h2 in
      let (blob, marshalled, valid3, step) =
        put_session-eq-ok lib m view IsValid sound dev sess valid2 e3 in
      let (is_key, is_end) = ok-eq-ok h3 in
      let written : lib.dr_marshal next ≡ ok blob =
        sym (ap (Signal.marshal lib) is_sess) ∙ marshalled in
      record {
        next = next;
        before = w1;
        after = w2;
        encrypted =
            subst (λ x. lib.dr_encrypt ratchet key_material w1 ≡ (ok (x, next), w2))
              (ap (λ (k : RecipientKey). k.wrapped) is_key) e;
        valid = subst IsValid is_end valid3;
        has_ratchet = subst (HasRatchet lib view dev next) is_end (record {
          blob = blob;
          stored = ap (λ (y : View). y.session_of dev) step ∙ ground arith;
          restored = back.dr next blob written;
        });
      }

  stored_or_new-restored :
      (dev : Device) (blob : Slice) (ratchet : DR) (w : W) {w' : W} {sess : Session DR LS}
      {kx : Option KeyExchange}
      → m.protocol ≡ v2
      → lib.dr_unmarshal blob ≡ ok ratchet
      → stored_or_new lib m dev (some blob) w ≡ (ok (sess, kx), w')
      → sess ≡ v2_session ratchet
  unfolding stored_or_new Signal.load_session
  stored_or_new-restored dev blob ratchet w {w'} {sess} {kx} is_v2 restored h =
      let run = rw (is_v2, restored) at h in
      ap (λ (x : Session DR LS × Option KeyExchange). x.0) (sym (ok-eq-ok run).0)

  pub encrypt_locked-IsNext :
      (dev : Device) (key_material : Slice) (ratchet : DR) (w : W) {w' : W} {key : RecipientKey}
      → m.protocol ≡ v2
      → IsValid w
      → HasRatchet lib view dev ratchet w
      → encrypt_locked lib m dev key_material w ≡ (ok key, w')
      → IsNext dev ratchet key_material key w'
  unfolding encrypt_locked get_or_create_active_session
  encrypt_locked-IsNext dev key_material ratchet w {w'} {key} is_v2 v has h =
      let ((sess, kx), w1, e1, h1) =
        wrapping-bind-eq-ok Context.establish_session (get_or_create_active_session lib m dev) _
          h in
      let (valid1, any) = rw e1 at (
        (get_or_create_active_session-Within lib m view IsValid sound Anything Anything-IsFrame dev
            (λ k x. tt)).at
          w v) in
      let (stored, w0, e0, h0) =
        wrapping-bind-eq-ok Context.load_session (m.store.session dev) (stored_or_new lib m dev)
          e1 in
      let (valid0, same, is_stored) = session-reads view IsValid sound.lawful dev v e0 in
      let is_sess = stored_or_new-restored dev has.blob ratchet w0 is_v2 has.restored (
        subst (λ o. stored_or_new lib m dev o w0 ≡ (ok (sess, kx), w1)) (is_stored ∙ has.stored)
          h0) in
      let (found, w2, e2, h2) =
        wrapping-bind-eq-ok Context.load_identity_key (m.store.remote_identity_key dev) _ h1 in
      let (valid2, same2, is_found) =
        remote_identity_key-reads view IsValid sound.lawful dev valid1 e2 in
      let (id_key, known, h3) =
        known_key-bind-eq-ok found (seal lib m dev key_material sess kx) h2 in
      seal-IsNext dev key_material ratchet kx id_key w2 valid2
        (subst (λ s. seal lib m dev key_material s kx id_key w2 ≡ (ok key, w')) is_sess h3)
