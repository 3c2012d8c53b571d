-- ===== src/Manager/Delivery/NextMessage.antt =====
-- The messages after the first, under ProtocolV2: as long as the two stores hold paired ratchets, every
-- message is read, and the stores hold paired ratchets again.
use omemo_go.Base.{◌≡◌, refl, sym, ◌∙◌, ap, List, Option, none, some}
use omemo_go.Types.{Slice, content, v2, Device, RecipientKey, KeyExchange, EncryptedMessage}
use omemo_go.Errors.{Context}
use omemo_go.Exec.{ok}
use omemo_go.Exec.Steps.{wrapping-bind-ok}
use omemo_go.Store.View.{View}
use omemo_go.Store.Reliable.{IsReliable}
use omemo_go.Store.Methods.{session-reads}
use omemo_go.Signal.Library.{Library}
use omemo_go.Signal.Agreement.{Agrees}
use omemo_go.Signal.Payload
use omemo_go.Signal.Payload.{EncryptedPayload}
use omemo_go.Signal.Session as Signal
use omemo_go.Signal.Session.{Session, v2_session}
use omemo_go.Manager.State.{Manager}
use omemo_go.Manager.Sound.{IsSound, with_device_lock-eq-ok}
use omemo_go.Manager.Outgoing.{encrypt_locked, encrypt_for_device}
use omemo_go.Manager.Outgoing.Exchange.{Fits, encrypt_for_device-Fits}
use omemo_go.Manager.Outgoing.Next.{HasRatchet, IsNext, IsNext-same, encrypt_locked-IsNext}
use omemo_go.Manager.Encrypt.{envelope}
use omemo_go.Manager.Incoming.{
  find_key, session_from_store, session_for_key, get_or_create_session_for_incoming,
  decrypt_message,
}
use omemo_go.Manager.Incoming.Delivered.{IsLinked, with_session-ReadsKey}
use omemo_go.Manager.Delivery.Body.{encrypt_payload-Closes, envelope-OpensTo}
use omemo_go.Manager.Delivery.FirstMessage.{
  envelope-parts, decrypt_message-opens, ServesAll, first-opens,
}
use omemo_go.Manager.Delivery.Source.{encrypt_for_device-IsFirst}

module _ {W DR LS LX : Type 0} (lib : Library W DR LS LX) (b : Manager W) (view : W → View)
    (IsValid : W → Type 0) (sound : IsSound lib b view IsValid)
    (reliable : IsReliable view IsValid b.store) where
  -- The stored session is loaded for a key without a key exchange.
  session-restored :
      (sender : Device) (key : RecipientKey) (ratchet : DR) (w : W)
      → b.protocol ≡ v2
      → key.key_exchange ≡ none
      → IsValid w
      → HasRatchet lib view sender ratchet w
      → (w1 : W) × IsValid w1
        × (get_or_create_session_for_incoming lib b sender key w
            ≡ (ok (v2_session ratchet, key.wrapped), w1))
  unfolding get_or_create_session_for_incoming session_for_key session_from_store
      Signal.load_session
  session-restored sender key ratchet w is_v2 no_kx v has =
      let (o, w1, e) = reliable.session sender w v in
      let (v1, same, is_o) = session-reads view IsValid sound.lawful sender v e in
      (
        w1,
        v1,
        rw no_kx (
            wrapping-bind-ok Context.load_session (b.store.session sender) _ e
            ∙ ap (λ x. session_from_store lib b x key.wrapped w1) (is_o ∙ has.stored)
            ∙ rw (is_v2, has.restored) refl),
      )

no_exchange :
    (o : Option Slice) {blob : Slice} {kx : Option KeyExchange}
    → o ≡ some blob
    → Fits o kx
    → kx ≡ none
no_exchange none h f = cc
no_exchange (some blob) h f = f

module _ {W DR LS LX : Type 0} (lib : Library W DR LS LX) (IsOwn : Slice → Type 0)
    (IsPair : Slice → Slice → Type 0) (Paired : DR → DR → Type 0)
    (agrees : Agrees lib IsOwn IsPair Paired) (a b : Manager W) (view_a view_b : W → View)
    (IsValidA IsValidB : W → Type 0) (sound_a : IsSound lib a view_a IsValidA)
    (sound_b : IsSound lib b view_b IsValidB) (reliable : IsReliable view_b IsValidB b.store) where
  -- The sender's store has a session with the receiver, the receiver's store one with the sender,
  -- and the second ratchet can read the next message of the first.
  pub record IsJoined (w wb : W) : Type 0 where
    pub here : DR
    pub there : DR
    pub sends : HasRatchet lib view_a b.local_device here w
    pub reads : HasRatchet lib view_b a.local_device there wb
    pub paired : Paired here there

  -- Both ends have stored their side.
  IsLinked-IsJoined :
      {ratchet : DR} {sender : Device} {w wb : W}
      → HasRatchet lib view_a b.local_device ratchet w
      → (view_b wb).session_of a.local_device ≡ (view_b wb).session_of sender
      → IsLinked lib Paired view_b IsValidB ratchet sender wb
      → IsJoined w wb
  IsLinked-IsJoined {ratchet} sends same linked = record {
    here = ratchet;
    there = linked.other_end;
    sends = sends;
    reads = record {
      blob = linked.blob;
      stored = same ∙ linked.stored;
      restored = linked.restored;
    };
    paired = linked.paired;
  }

  encrypt_for_device-IsNext :
      (key_material : Slice) (ratchet : DR) (w : W) {w' : W} {key : RecipientKey}
      → a.protocol ≡ v2
      → IsValidA w
      → HasRatchet lib view_a b.local_device ratchet w
      → encrypt_for_device lib a b.local_device key_material w ≡ (ok key, w')
      → IsNext lib a view_a IsValidA sound_a agrees.reads_back b.local_device ratchet key_material
          key w'
  unfolding encrypt_for_device
  encrypt_for_device-IsNext key_material ratchet w {w'} {key} is_v2 v has h =
      let (w1, w2, v1, same, run, rest) =
        with_device_lock-eq-ok lib a view_a IsValidA sound_a b.local_device
          (encrypt_locked lib a b.local_device key_material) v h in
      let next =
        encrypt_locked-IsNext lib a view_a IsValidA sound_a agrees.reads_back b.local_device
          key_material ratchet w1 is_v2 v1
          (record {
            blob = has.blob;
            stored = ap (λ (x : View). x.session_of b.local_device) same ∙ has.stored;
            restored = has.restored;
          })
          run in
      let (v', same') = rest next.valid in
      IsNext-same lib a view_a IsValidA sound_a agrees.reads_back b.local_device ratchet
        key_material key v' same' next

  -- The receiver reads the plaintext, and the stores are joined again.
  abbrev pub ReadsOn : EncryptedMessage → Slice → W → W → Type 0
  ReadsOn msg plaintext w' wb =
      (out : Slice) × (wb' : W) × (decrypt_message lib b msg wb ≡ (ok out, wb'))
      × (content out ≡ content plaintext)
      × IsValidA w'
      × IsValidB wb'
      × IsJoined w' wb'

  -- For a library whose two ends agree, under ProtocolV2, with a sender and a receiver that are
  -- sound and a receiver's store that does not fail, from valid worlds whose stores hold paired
  -- ratchets: when the sender encrypts a payload, and `encryptForDevice` returns a key for the
  -- receiver's device, then the receiver's `DecryptMessage` of an envelope in which that key is the
  -- first for its id returns a slice with the bytes of the plaintext; both worlds are valid
  -- afterwards and their stores hold paired ratchets again, so that the same is true of the next
  -- message.
  pub encrypt_for_device-decrypt_message :
      (plaintext : Slice) (p : EncryptedPayload) (keys : List RecipientKey) (u w wb : W) {u' w' : W}
      {key : RecipientKey}
      → a.protocol ≡ v2
      → b.protocol ≡ v2
      → IsValidA w
      → IsValidB wb
      → IsJoined w wb
      → Payload.encrypt_payload lib v2 plaintext u ≡ (ok p, u')
      → encrypt_for_device lib a b.local_device p.key_material w ≡ (ok key, w')
      → find_key b.local_device.id keys ≡ some key
      → ReadsOn (envelope a.local_device plaintext p keys) plaintext w' wb
  encrypt_for_device-decrypt_message plaintext p keys u w wb {u'} {w'} {key} a_v2 b_v2 v vb joined
        closed sent found =
      let msg = envelope a.local_device plaintext p keys in
      let (is_keys, is_sender) = envelope-parts a.local_device plaintext p keys in
      let next = encrypt_for_device-IsNext p.key_material joined.here w a_v2 v joined.sends sent in
      let no_kx = no_exchange ((view_a w).session_of b.local_device) joined.sends.stored (
        encrypt_for_device-Fits lib a view_a IsValidA sound_a b.local_device p.key_material v
          sent) in
      let (out, wb', run, is_text, linked) =
        decrypt_message-opens lib IsOwn IsPair Paired agrees a b IsValidA view_b IsValidB sound_b
          reliable msg key p.key_material plaintext next.next wb
          (ap (find_key b.local_device.id) is_keys ∙ found)
          (λ got same.
            envelope-OpensTo lib IsOwn IsPair Paired agrees b a.local_device plaintext p keys got
              b_v2 (encrypt_payload-Closes lib IsOwn IsPair Paired agrees b plaintext u closed)
              same)
          vb
          (λ w1 v1 same.
            let (w2, v2', e) =
              session-restored lib b view_b IsValidB sound_b reliable msg.sender key joined.there w1
                b_v2 no_kx v1
                (record {
                  blob = joined.reads.blob;
                  stored =
                      ap (λ (x : View). x.session_of msg.sender) same
                      ∙ (ap (view_b wb).session_of is_sender ∙ joined.reads.stored);
                  restored = joined.reads.restored;
                }) in
            with_session-ReadsKey lib IsOwn IsPair Paired agrees a b IsValidA view_b IsValidB
              sound_b reliable msg key p.key_material joined.there joined.here next.next next.before
              next.after w1 e v2' joined.paired next.encrypted) in
      (
        out,
        wb',
        run,
        is_text,
        next.valid,
        linked.valid,
        IsLinked-IsJoined next.has_ratchet (ap (view_b wb').session_of (sym is_sender)) linked,
      )

  -- For a library whose two ends agree, under ProtocolV2, with a sender and a receiver that are
  -- sound and whose identity keys hold the public key of their seed, and a receiver's store that
  -- does not fail and can answer for every bundle that the sender's transport gives, in a valid
  -- world, for the receiver's device: when the sender encrypts a payload, and `encryptForDevice`,
  -- from a valid world, returns a key with a key exchange for the receiver's device, then the
  -- receiver's `DecryptMessage`, in a valid world, of an envelope in which that key is the first
  -- for its id returns a slice with the bytes of the plaintext; both worlds are valid afterwards
  -- and their stores hold paired ratchets.
  pub encrypt_for_device-IsJoined :
      (plaintext : Slice) (p : EncryptedPayload) (keys : List RecipientKey) (u w wb : W) {u' w' : W}
      {key : RecipientKey} {kx : KeyExchange}
      → IsOwn a.identity_key
      → IsOwn b.identity_key
      → a.protocol ≡ v2
      → b.protocol ≡ v2
      → IsValidA w
      → IsValidB wb
      → Payload.encrypt_payload lib v2 plaintext u ≡ (ok p, u')
      → encrypt_for_device lib a b.local_device p.key_material w ≡ (ok key, w')
      → key.key_exchange ≡ some kx
      → find_key b.local_device.id keys ≡ some key
      → ServesAll lib IsOwn IsPair Paired agrees a b view_a view_b IsValidA IsValidB sound_a sound_b
          reliable
          (view_b wb)
      → ReadsOn (envelope a.local_device plaintext p keys) plaintext w' wb
  encrypt_for_device-IsJoined plaintext p keys u w wb {u'} {w'} {key} {kx} own_a own_b a_v2 b_v2 v
        vb closed sent has_kx found serves =
      let first =
        encrypt_for_device-IsFirst lib a view_a IsValidA sound_a agrees.reads_back b.local_device
          p.key_material a_v2 has_kx v sent in
      let (out, wb', run, is_text, linked) =
        first-opens lib IsOwn IsPair Paired agrees a b view_a view_b IsValidA IsValidB sound_a
          sound_b reliable plaintext p keys key kx u wb first own_a own_b a_v2 b_v2 closed found
          has_kx vb serves in
      let sealed = first.sealed in
      let is_sender = (envelope-parts a.local_device plaintext p keys).1 in
      (
        out,
        wb',
        run,
        is_text,
        sealed.valid,
        linked.valid,
        IsLinked-IsJoined sealed.has_ratchet (ap (view_b wb').session_of (sym is_sender)) linked,
      )
