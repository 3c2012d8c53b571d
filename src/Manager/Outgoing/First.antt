-- ===== src/Manager/Outgoing/First.antt =====
-- What is in the key for a device without a session: under ProtocolV2, the first message of a session
-- that was made from the device's bundle.
use omemo_go.Base.{◌≡◌, refl, sym, ◌∙◌, ap, subst, Option, none, some, List, [], ◌∷◌}
use omemo_go.Types.{Slice, v2, Device, RecipientKey, KeyExchange, PreKey, Bundle}
use omemo_go.Errors.{Context}
use omemo_go.Exec.{Result, ok}
use omemo_go.Exec.Steps.{
  >>=-eq-ok, continue-eq-ok, ok-eq-ok, wrapping-bind-eq-ok, wrapped-bind-eq-ok,
}
use omemo_go.Store.View.{View}
use omemo_go.Store.Methods.{session-reads, remote_identity_key-reads}
use omemo_go.Store.Keeps.{Anything, Anything-IsFrame}
use omemo_go.Signal.Roundtrip.{ReadsBack}
use omemo_go.Manager.Outgoing.Frame.{get_or_create_active_session-Within}
use omemo_go.Manager.Outgoing.Next.{IsNext, seal-IsNext}
use omemo_go.Manager.Sound.{IsSound}
use omemo_go.Signal.Library.{Library, InitialMessage}
use omemo_go.Signal.Keys
use omemo_go.Signal.Keys.{identity_public_key}
use omemo_go.Signal.Session as Signal
use omemo_go.Signal.Session.{Session, v2_session, PeerBundle}
use omemo_go.Manager.State.{Manager}
use omemo_go.Manager.Outgoing.{
  peer_of, first_prekey, create_active_session, stored_or_new, get_or_create_active_session,
  encrypt_locked,
}
use omemo_go.Manager.Outgoing.Safety.{known_key-bind-eq-ok, seal}
use omemo_go.Manager.Outgoing.Exchange.{seal-exchange}

abbrev pub exchange_of : Slice → InitialMessage → Bundle → PreKey → KeyExchange
exchange_of own initial b prekey = record {
  identity_key = own;
  ephemeral_key = initial.ephemeral_key;
  signed_prekey_id = b.signed_prekey.id;
  prekey_id = prekey.id;
}

module _ {W DR LS LX : Type 0} (lib : Library W DR LS LX) where
  -- X3DH with a peer's material, and the ratchet made from what it gives.
  pub record IsAgreed (id_key : Slice) (peer : PeerBundle) (initial : InitialMessage) (ratchet : DR)
      : Type 0 where
    pub before : W
    pub between : W
    pub next : W
    pub after : W
    pub agreed :
        lib.create_initial_message id_key peer.identity_key peer.spk_public peer.spk_signature
          peer.opk_public before
        ≡ (ok initial, between)
    pub created :
        lib.create_active initial.session_key initial.associated_data peer.spk_public next
        ≡ (ok ratchet, after)

  new_active_session-eq-ok :
      (id_key : Slice) (peer : PeerBundle) (reg : _) (w : W) {w' : W} {sess : Session DR LS}
      {ek : Slice}
      → Signal.new_active_session lib v2 id_key peer reg w ≡ (ok (sess, ek), w')
      → (initial : InitialMessage) × (ratchet : DR) × IsAgreed id_key peer initial ratchet
        × (sess ≡ v2_session ratchet)
        × (ek ≡ initial.ephemeral_key)
  unfolding Signal.new_active_session
  new_active_session-eq-ok id_key peer reg w h =
      let (initial, w1, e1, h1) =
        wrapping-bind-eq-ok Context.x3dh_initial_message
          (lib.create_initial_message id_key peer.identity_key peer.spk_public peer.spk_signature
            peer.opk_public)
          _ h in
      let (ratchet, w2, e2, h2) =
        wrapping-bind-eq-ok Context.create_active_ratchet
          (lib.create_active initial.session_key initial.associated_data peer.spk_public) _ h1 in
      let (same, at_end) = ok-eq-ok h2 in
      (
        initial,
        ratchet,
        record { before = w; between = w1; next = w1; after = w2; agreed = e1; created = e2 },
        ap (λ (x : Session DR LS × Slice). x.0) (sym same),
        ap (λ (x : Session DR LS × Slice). x.1) (sym same),
      )

first_prekey-eq-ok :
    {W : Type 0} (l : List PreKey) (w : W) {w' : W} {prekey : PreKey}
    → first_prekey l w ≡ (ok prekey, w')
    → (rest : List PreKey) × (l ≡ prekey ∷ rest)
unfolding first_prekey
first_prekey-eq-ok [] w h = cc (ap (λ (q : Result PreKey × _). q.0) h)
first_prekey-eq-ok (p ∷ rest) w h = (rest, ap (λ x. x ∷ rest) (ok-eq-ok h).0)

module _ {W DR LS LX : Type 0} (lib : Library W DR LS LX) (m : Manager W)
    (IsValid : W → Type 0) where
  -- A session with the device: the bundle that was fetched for it, its first one-time prekey, and
  -- the key exchange that tells the device of them.
  pub record IsStarted (dev : Device) (ratchet : DR) (kx : KeyExchange) : Type 0 where
    pub bundle : Bundle
    pub before : W
    pub after : W
    pub valid : IsValid before
    pub fetched : m.transport.fetch_bundle dev before ≡ (ok bundle, after)
    pub prekey : PreKey
    pub rest : List PreKey
    pub first : bundle.prekeys ≡ prekey ∷ rest
    pub own : Slice
    pub is_own : identity_public_key lib v2 m.identity_key ≡ ok own
    pub initial : InitialMessage
    pub agreed : IsAgreed lib m.identity_key (peer_of bundle prekey) initial ratchet
    pub is_exchange : kx ≡ exchange_of own initial bundle prekey

  create_active_session-IsStarted :
      (dev : Device) (w : W) {w' : W} {sess : Session DR LS} {kx : Option KeyExchange}
      → m.protocol ≡ v2
      → IsValid w
      → create_active_session lib m dev w ≡ (ok (sess, kx), w')
      → (ratchet : DR) × (x : KeyExchange) × IsStarted dev ratchet x
        × (sess ≡ v2_session ratchet)
        × (kx ≡ some x)
  unfolding create_active_session
  create_active_session-IsStarted dev w is_v2 valid h =
      let (b, w1, e1, h1) =
        wrapping-bind-eq-ok Context.fetch_bundle (m.transport.fetch_bundle dev) _ h in
      let (prekey, w2, e2, h2) = >>=-eq-ok (first_prekey b.prekeys) _ h1 in
      let (rest, first) = first_prekey-eq-ok b.prekeys w1 e2 in
      let ((sess, ek), w3, e3, h3) =
        wrapping-bind-eq-ok Context.x3dh
          (Signal.new_active_session lib m.protocol m.identity_key (peer_of b prekey)
            m.local_device.id)
          _ h2 in
      let (initial, ratchet, agreed, is_sess, is_ek) =
        new_active_session-eq-ok lib m.identity_key (peer_of b prekey) m.local_device.id w2 (
          subst
            (λ p.
              Signal.new_active_session lib p m.identity_key (peer_of b prekey) m.local_device.id w2
              ≡ (ok (sess, ek), w3))
            is_v2 e3) in
      let (u, w4, e4, h4) =
        wrapping-bind-eq-ok Context.store_identity_key
          (m.store.put_remote_identity_key dev b.identity_key) _ h3 in
      let (own, e5, h5) =
        wrapped-bind-eq-ok Context.derive_identity_public_key
          (Keys.identity_public_key lib m.protocol m.identity_key) _ h4 in
      let (same, at_end) = ok-eq-ok h5 in
      (
        ratchet,
        exchange_of own initial b prekey,
        record {
          bundle = b;
          before = w;
          after = w1;
          valid = valid;
          fetched = e1;
          prekey = prekey;
          rest = rest;
          first = first;
          own = own;
          is_own = subst (λ p. identity_public_key lib p m.identity_key ≡ ok own) is_v2 e5;
          initial = initial;
          agreed = agreed;
          is_exchange = refl;
        },
        ap (λ (x : Session DR LS × Option KeyExchange). x.0) (sym same) ∙ is_sess,
        ap (λ (x : Session DR LS × Option KeyExchange). x.1) (sym same)
            ∙ ap
                (λ ek. some (record {
                  identity_key = own;
                  ephemeral_key = ek;
                  signed_prekey_id = b.signed_prekey.id;
                  prekey_id = prekey.id;
                }))
                is_ek,
      )

  stored_or_new-IsStarted :
      (dev : Device) (o : Option Slice) (w : W) {w' : W} {sess : Session DR LS}
      {kx : Option KeyExchange} {x : KeyExchange}
      → m.protocol ≡ v2
      → kx ≡ some x
      → IsValid w
      → stored_or_new lib m dev o w ≡ (ok (sess, kx), w')
      → (ratchet : DR) × IsStarted dev ratchet x × (sess ≡ v2_session ratchet)
  unfolding stored_or_new
  stored_or_new-IsStarted dev none w {w'} {sess} {kx} {x} is_v2 is_x valid h =
      let (ratchet, y, started, is_sess, is_y) =
        create_active_session-IsStarted dev w is_v2 valid h in
      let same : y ≡ x = cc (is_x, is_y) in
      (ratchet, subst (IsStarted dev ratchet) same started, is_sess)
  stored_or_new-IsStarted dev (some blob) w is_v2 is_x valid h =
      let (sess, e, h1) = continue-eq-ok (Signal.load_session lib m.protocol blob) _ h in
      cc (ap (λ (x : Session DR LS × Option KeyExchange). x.1) (ok-eq-ok h1).0 ∙ is_x)

module _ {W DR LS LX : Type 0} (lib : Library W DR LS LX) (m : Manager W) (view : W → View)
    (IsValid : W → Type 0) (sound : IsSound lib m view IsValid) (back : ReadsBack lib) where
  -- The key for a device is the first message of a ratchet, which is stored.
  pub record IsFirst (dev : Device) (key_material : Slice) (key : RecipientKey) (kx : KeyExchange)
      (w' : W) : Type 0 where
    pub ratchet : DR
    pub started : IsStarted lib m IsValid dev ratchet kx
    pub sealed : IsNext lib m view IsValid sound back dev ratchet key_material key w'

  -- A key with a key exchange is the first message of a session.
  pub encrypt_locked-IsFirst :
      (dev : Device) (key_material : Slice) (w : W) {w' : W} {key : RecipientKey} {kx : KeyExchange}
      → m.protocol ≡ v2
      → key.key_exchange ≡ some kx
      → IsValid w
      → encrypt_locked lib m dev key_material w ≡ (ok key, w')
      → IsFirst dev key_material key kx w'
  unfolding encrypt_locked get_or_create_active_session
  encrypt_locked-IsFirst dev key_material w {w'} {key} {kx} is_v2 has_kx valid h =
      let ((sess, o), w1, e1, h1) =
        wrapping-bind-eq-ok Context.establish_session (get_or_create_active_session lib m dev) _
          h in
      let (valid1, any) = rw e1 at (
        (get_or_create_active_session-Within lib m view IsValid sound Anything Anything-IsFrame dev
            (λ k x. tt)).at
          w valid) in
      let (stored, w0, e0, h0) =
        wrapping-bind-eq-ok Context.load_session (m.store.session dev) (stored_or_new lib m dev)
          e1 in
      let (valid0, same, is_stored) = session-reads view IsValid sound.lawful dev valid e0 in
      let (found, w2, e2, h2) =
        wrapping-bind-eq-ok Context.load_identity_key (m.store.remote_identity_key dev) _ h1 in
      let (valid2, same2, is_found) =
        remote_identity_key-reads view IsValid sound.lawful dev valid1 e2 in
      let (id_key, known, h3) =
        known_key-bind-eq-ok found (seal lib m dev key_material sess o) h2 in
      let is_o = sym (seal-exchange lib m dev key_material sess o id_key w2 h3) ∙ has_kx in
      let (ratchet, started, is_sess) =
        stored_or_new-IsStarted lib m IsValid dev stored w0 is_v2 is_o valid0 h0 in
      record {
        ratchet = ratchet;
        started = started;
        sealed =
            seal-IsNext lib m view IsValid sound back dev key_material ratchet o id_key w2 valid2
              (subst (λ s. seal lib m dev key_material s o id_key w2 ≡ (ok key, w')) is_sess h3);
      }
