-- ===== src/Manager/Incoming/Delivered.antt =====
-- The first message of a session under ProtocolV2, from the sender's `EncryptMessage` to the plaintext
-- that the receiver's `DecryptMessage` returns.
use omemo_go.Base.{◌≡◌, refl, ◌∙◌, ap, arith, some}
use omemo_go.Types.{
  Slice, content, v2, Device, device_eq, KeyExchange, RecipientKey, EncryptedMessage,
}
use omemo_go.Errors.{Context}
use omemo_go.Exec.{⊤, Result, ok, wrapping, wrapped_result}
use omemo_go.Exec.Steps.{wrapping-bind-ok, >>=-ok, wrapped-bind-ok}
use omemo_go.Store.View.{View}
use omemo_go.Store.Reliable.{IsReliable}
use omemo_go.Store.Methods.{put_session-writes}
use omemo_go.Signal.Library.{Library}
use omemo_go.Signal.Agreement.{Agrees}
use omemo_go.Signal.Session as Signal
use omemo_go.Signal.Session.{Session, v2_session}
use omemo_go.Signal.Quiet.{new_passive_session-Quiet, decrypt-Quiet}
use omemo_go.Manager.State.{Manager}
use omemo_go.Manager.Outgoing.{put_session}
use omemo_go.Manager.Outgoing.First.{IsStarted, exchange_of}
use omemo_go.Manager.Incoming.{
  signed_prekey_by_id, session_from_exchange, session_for_exchange, session_for_key,
  get_or_create_session_for_incoming, open_payload, decrypt_locked,
}
use omemo_go.Manager.Incoming.Opened.{
  Serves, signed_prekey_by_id-held, consume_prekey-held, put_remote_identity_key-works,
  new_passive_session-Paired,
}
use omemo_go.Manager.Sound.{IsSound}

module _ {W DR LS LX : Type 0} (lib : Library W DR LS LX) (Paired : DR → DR → Type 0)
    (view : W → View) (IsValid : W → Type 0) where
  -- The receiver has stored a ratchet that can read what the sender's ratchet encrypts next.
  pub record IsLinked (ratchet : DR) (sender : Device) (w : W) : Type 0 where
    pub valid : IsValid w
    pub other_end : DR
    pub blob : Slice
    pub stored : (view w).session_of sender ≡ some blob
    pub restored : lib.dr_unmarshal blob ≡ ok other_end
    pub paired : Paired ratchet other_end

  pub IsLinked-same :
      (ratchet : DR) (sender : Device) {w w' : W}
      → IsValid w'
      → view w' ≡ view w
      → IsLinked ratchet sender w
      → IsLinked ratchet sender w'
  IsLinked-same ratchet sender v same linked = record {
    valid = v;
    other_end = linked.other_end;
    blob = linked.blob;
    stored = ap (λ (y : View). y.session_of sender) same ∙ linked.stored;
    restored = linked.restored;
    paired = linked.paired;
  }

module _ {W DR LS LX : Type 0} (lib : Library W DR LS LX) (IsOwn : Slice → Type 0)
    (IsPair : Slice → Slice → Type 0) (Paired : DR → DR → Type 0)
    (agrees : Agrees lib IsOwn IsPair Paired) (a b : Manager W) (IsValidA : W → Type 0)
    (view : W → View) (IsValid : W → Type 0) (sound : IsSound lib b view IsValid)
    (reliable : IsReliable view IsValid b.store) where
  session_from_exchange-Paired :
      (sender dev : Device) (wrapped : Slice) (ratchet : DR) (kx : KeyExchange)
      (started : IsStarted lib a IsValidA dev ratchet kx) (w : W)
      → IsOwn a.identity_key
      → IsOwn b.identity_key
      → IsValid w
      → Serves lib IsPair b.identity_key (view w) started.bundle
      → (x : DR) × (w' : W) × (session_from_exchange lib b sender wrapped
            (exchange_of started.own started.initial started.bundle started.prekey)
            w
          ≡ (ok (v2_session x, wrapped), w'))
        × IsValid w'
        × Paired ratchet x
  unfolding session_from_exchange
  session_from_exchange-Paired sender dev wrapped ratchet kx started w own_a own_b v serves =
      let bundle = started.bundle in
      let (w1, e1, v1, same1) =
        signed_prekey_by_id-held lib b view IsValid sound reliable bundle.signed_prekey.id w v
          serves.is_held in
      let (rec, in_pool, opk_pair) = serves.prekey started.prekey started.rest started.first in
      let (w2, e2, valid2) =
        consume_prekey-held lib b view IsValid sound reliable started.prekey.id w1 v1
          (ap (λ (y : View). y.pool started.prekey.id) same1 ∙ in_pool) in
      let (x, w3, e3, paired) =
        new_passive_session-Paired lib IsOwn IsPair Paired agrees a.identity_key b.identity_key
          started.own bundle started.prekey started.initial ratchet serves.spk.public
          serves.spk.private rec.private own_a own_b started.is_own serves.identity started.agreed
          serves.spk_public serves.spk_pair opk_pair w2 in
      let (valid3, same3) = rw e3 at (
        (new_passive_session-Quiet lib view IsValid sound.library b.identity_key started.own
            serves.spk.public serves.spk.private rec.private started.initial.ephemeral_key).at
          w2 valid2) in
      let (u, w4, e4, valid4) =
        put_remote_identity_key-works lib b view IsValid sound reliable sender started.own w3
          valid3 in
      (
        x,
        w4,
        >>=-ok _ (signed_prekey_by_id b bundle.signed_prekey.id) e1
            ∙ wrapping-bind-ok (Context.consume_one_time_prekey started.prekey.id)
                (b.store.consume_prekey started.prekey.id) _ e2
            ∙ wrapping-bind-ok Context.x3dh
                (Signal.new_passive_session lib b.identity_key started.own serves.spk.public
                  serves.spk.private rec.private started.initial.ephemeral_key)
                _ e3
            ∙ wrapping-bind-ok Context.store_identity_key
                (b.store.put_remote_identity_key sender started.own) _ e4,
        valid4,
        paired,
      )

  put_session-IsLinked :
      (sender : Device) (ratchet x : DR) (w : W)
      → IsValid w
      → Paired ratchet x
      → (u : ⊤) × (w' : W) × (put_session lib b sender (v2_session x) w ≡ (ok u, w'))
        × IsLinked lib Paired view IsValid ratchet sender w'
  unfolding put_session Signal.marshal
  put_session-IsLinked sender ratchet x w v paired =
      let (blob, written) = agrees.marshalled x in
      let (u, w1, e) = reliable.put_session sender blob w v in
      let (v1, step) = put_session-writes view IsValid sound.lawful sender blob v e in
      (
        u,
        w1,
        wrapped-bind-ok (λ blob. wrapping Context.store_session (b.store.put_session sender blob))
              Context.marshal_session w written
            ∙ ap (λ (p : Result ⊤ × W). (wrapped_result Context.store_session p.0, p.1)) e,
        record {
          valid = v1;
          other_end = x;
          blob = blob;
          stored = ap (λ (y : View). y.session_of sender) step ∙ ground arith;
          restored = agrees.reads_back.dr x blob written;
          paired = paired;
        },
      )

  for_exchange :
      (sender : Device) (key : RecipientKey) {kx kx' : KeyExchange} (w : W)
      → b.protocol ≡ v2
      → key.key_exchange ≡ some kx
      → kx ≡ kx'
      → get_or_create_session_for_incoming lib b sender key w
        ≡ session_from_exchange lib b sender key.wrapped kx' w
  unfolding get_or_create_session_for_incoming session_for_key session_for_exchange
  for_exchange sender key w is_v2 has_kx same = rw (is_v2, has_kx, same) refl

  decrypt-reads :
      (x : DR) (key_material out : Slice) (ratchet next : DR) (w : W) (before after : W)
      → Paired ratchet x
      → lib.dr_encrypt ratchet key_material before ≡ (ok (out, next), after)
      → (y : DR) × (got : Slice) × (w' : W) × (Signal.decrypt lib (v2_session x) out w
          ≡ (ok (got, v2_session y), w'))
        × (content got ≡ content key_material)
        × Paired next y
  unfolding Signal.decrypt
  decrypt-reads x key_material out ratchet next w before after paired encrypted =
      let (y, got, (w1, e1), same, paired') =
        agrees.message ratchet next x key_material out before after paired encrypted w in
      (y, got, w1, >>=-ok _ (lib.dr_decrypt x out) e1, same, paired')

  -- Up to the payload the message is read with the bytes of the key material, and the session is
  -- stored.
  abbrev pub ReadsKey : EncryptedMessage → RecipientKey → Slice → DR → W → Type 0
  ReadsKey msg key key_material next w =
      (got : Slice) × (w' : W) × (decrypt_locked lib b msg key w
        ≡ open_payload lib b got msg.iv msg.payload w')
      × (content got ≡ content key_material)
      × IsLinked lib Paired view IsValid next msg.sender w'

  pub with_session-ReadsKey :
      (msg : EncryptedMessage) (key : RecipientKey) (key_material : Slice) (x ratchet next : DR)
      (before after w : W) {w1 : W}
      → get_or_create_session_for_incoming lib b msg.sender key w
        ≡ (ok (v2_session x, key.wrapped), w1)
      → IsValid w1
      → Paired ratchet x
      → lib.dr_encrypt ratchet key_material before ≡ (ok (key.wrapped, next), after)
      → ReadsKey msg key key_material next w
  unfolding decrypt_locked
  with_session-ReadsKey msg key key_material x ratchet next before after w {w1} e1 v1 paired
        encrypted =
      let (y, got, w2, e2, same_key, paired') =
        decrypt-reads x key_material key.wrapped ratchet next w1 before after paired encrypted in
      let (valid2, same2) =
        rw e2 at
          ((decrypt-Quiet lib view IsValid sound.library (v2_session x) key.wrapped).at w1 v1) in
      let (u, w3, e3, linked) = put_session-IsLinked msg.sender next y w2 valid2 paired' in
      (
        got,
        w3,
        wrapping-bind-ok Context.establish_session
              (get_or_create_session_for_incoming lib b msg.sender key) _ e1
            ∙ wrapping-bind-ok Context.ratchet_decrypt
                (Signal.decrypt lib (v2_session x) key.wrapped) _ e2
            ∙ >>=-ok _ (put_session lib b msg.sender (v2_session y)) e3,
        same_key,
        linked,
      )

  -- The first message of a session.
  pub first-ReadsKey :
      (dev : Device) (msg : EncryptedMessage) (key : RecipientKey) (kx : KeyExchange)
      (key_material : Slice) (ratchet next : DR) (before after : W)
      (started : IsStarted lib a IsValidA dev ratchet kx) (w : W)
      → lib.dr_encrypt ratchet key_material before ≡ (ok (key.wrapped, next), after)
      → b.protocol ≡ v2
      → key.key_exchange ≡ some kx
      → IsOwn a.identity_key
      → IsOwn b.identity_key
      → IsValid w
      → Serves lib IsPair b.identity_key (view w) started.bundle
      → ReadsKey msg key key_material next w
  first-ReadsKey dev msg key kx key_material ratchet next before after started w encrypted is_v2
        has_kx own_a own_b v serves =
      let (x, w1, e1, v1, paired) =
        session_from_exchange-Paired msg.sender dev key.wrapped ratchet kx started w own_a own_b v
          serves in
      with_session-ReadsKey msg key key_material x ratchet next before after w
        (for_exchange msg.sender key w is_v2 has_kx started.is_exchange ∙ e1) v1 paired encrypted
