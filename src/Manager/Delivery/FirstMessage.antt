-- ===== src/Manager/Delivery/FirstMessage.antt =====
-- The first message of a session under ProtocolV2, from `EncryptMessage` to `DecryptMessage`.
use omemo_go.Base.{
  ◌≡◌, ◌≢◌, refl, sym, ◌∙◌, ap, subst, String, none, some, List, All, [], ◌∷◌, nat_eq,
}
use mathlib.Core.Option.{some-injective}
use omemo_go.Types.{Slice, content, v2, Device, Bundle, KeyExchange, RecipientKey, EncryptedMessage}
use omemo_go.Exec.{Result, ok}
use omemo_go.Exec.Steps.{ok-eq-ok}
use omemo_go.Store.View.{View}
use omemo_go.Store.Reliable.{IsReliable}
use omemo_go.Signal.Library.{Library}
use omemo_go.Signal.Agreement.{Agrees}
use omemo_go.Signal.Payload
use omemo_go.Signal.Payload.{EncryptedPayload}
use omemo_go.Manager.State.{Manager, with_device_lock}
use omemo_go.Manager.Locks.{device_lock, lock, unlock}
use omemo_go.Manager.Sound.{IsSound}
use omemo_go.Manager.Outgoing.{encrypt_for_device}
use omemo_go.Manager.Outgoing.First.{IsFirst}
use omemo_go.Manager.Encrypt.{Sent, encrypt_message, envelope, failed}
use omemo_go.Manager.Encrypt.Outcome.{Outcome, no_devices, no_payload, ran, encrypt-Outcome}
use omemo_go.Manager.Incoming.{find_key, decrypt_with, decrypt_message}
use omemo_go.Manager.Incoming.Opened.{Serves}
use omemo_go.Manager.Incoming.Delivered.{IsLinked, IsLinked-same, ReadsKey, first-ReadsKey}
use omemo_go.Manager.Delivery.Source.{find_key-CameFrom, encrypt_for_device-IsFirst}
use omemo_go.Manager.Devices.{recipient_devices}
use omemo_go.Manager.Devices.Frame.{recipient_devices-Within}
use omemo_go.Signal.Quiet.{encrypt_payload-Quiet}
use omemo_go.Store.Keeps.{Anything, Anything-IsFrame}
use omemo_go.Manager.Delivery.Body.{OpensTo, encrypt_payload-Closes, envelope-OpensTo}

module _ {W DR LS LX : Type 0} (lib : Library W DR LS LX) (IsOwn : Slice → Type 0)
    (IsPair : Slice → Slice → Type 0) (Paired : DR → DR → Type 0)
    (agrees : Agrees lib IsOwn IsPair Paired) (a b : Manager W) (IsValidA : W → Type 0)
    (view : W → View) (IsValid : W → Type 0) (sound : IsSound lib b view IsValid)
    (reliable : IsReliable view IsValid b.store) where
  -- The message is opened in any world with the content of `w`.
  pub decrypt_message-opens :
      (msg : EncryptedMessage) (key : RecipientKey) (key_material plaintext : Slice) (next : DR)
      (w : W)
      → find_key b.local_device.id msg.keys ≡ some key
      → ((got : Slice)
          → content got ≡ content key_material
          → OpensTo lib IsOwn IsPair Paired agrees b msg got plaintext)
      → IsValid w
      → ((w1 : W)
          → IsValid w1
          → view w1 ≡ view w
          → ReadsKey lib IsOwn IsPair Paired agrees a b IsValidA view IsValid sound reliable msg key
              key_material next w1)
      → (out : Slice) × (w' : W) × (decrypt_message lib b msg w ≡ (ok out, w'))
        × (content out ≡ content plaintext)
        × IsLinked lib Paired view IsValid next msg.sender w'
  unfolding decrypt_message decrypt_with with_device_lock
  decrypt_message-opens msg key key_material plaintext next w found opens v reads_key =
      let (l, t) = device_lock msg.sender (b.locks.get w) in
      let w1 = b.locks.put (lock l t) w in
      let (v1, same1) = sound.locks (lock l t) w v in
      let (got, w2, run, same_key, linked) = reads_key w1 v1 same1 in
      let (out, opened, is_text) = opens got same_key in
      let (v3, same3) = sound.locks (unlock l (b.locks.get w2)) w2 linked.valid in
      (
        out,
        b.locks.put (unlock l (b.locks.get w2)) w2,
        rw found (
            ap (λ (p : Result Slice × W). (p.0, b.locks.put (unlock l (b.locks.get p.1)) p.1))
              (run ∙ opened w2)),
        is_text,
        IsLinked-same lib Paired view IsValid next msg.sender v3 same3 linked,
      )

pub envelope-parts :
    (sender : Device) (plaintext : Slice) (p : EncryptedPayload) (keys : List RecipientKey)
    → let msg = envelope sender plaintext p keys in (msg.keys ≡ keys) × (msg.sender ≡ sender)
unfolding envelope
envelope-parts sender none p keys = (refl, refl)
envelope-parts sender (some text) p keys = (refl, refl)

module _ {W DR LS LX : Type 0} (lib : Library W DR LS LX) (IsOwn : Slice → Type 0)
    (IsPair : Slice → Slice → Type 0) (Paired : DR → DR → Type 0)
    (agrees : Agrees lib IsOwn IsPair Paired) (a b : Manager W) (view_a view_b : W → View)
    (IsValidA IsValidB : W → Type 0) (sound_a : IsSound lib a view_a IsValidA)
    (sound_b : IsSound lib b view_b IsValidB) (reliable : IsReliable view_b IsValidB b.store) where
  -- Whatever bundle the transport gives the sender for the receiver's device, the receiver's store
  -- can answer for.
  abbrev pub ServesAll : View → Type 0
  ServesAll v =
      (w w' : W) (bundle : Bundle)
      → IsValidA w
      → a.transport.fetch_bundle b.local_device w ≡ (ok bundle, w')
      → Serves lib IsPair b.identity_key v bundle

  -- Unless it is the sender's, a device with the receiver's id is the receiver's.
  abbrev pub IsSingle : Device → Type 0
  IsSingle dev = dev ≢ a.local_device → dev.id ≡ b.local_device.id → dev ≡ b.local_device

  -- The receiver reads the plaintext, and has then a session with the sender.
  abbrev pub Reads : EncryptedMessage → Slice → W → Type 0
  Reads msg plaintext w =
      (out : Slice) × (w' : W) × (decrypt_message lib b msg w ≡ (ok out, w'))
      × (content out ≡ content plaintext)
      × IsValidB w'
      × ((view_b w').session_of a.local_device ≢ none)

  -- The first message of a session with the receiver's device, read.
  pub first-opens :
      (plaintext : Slice) (p : EncryptedPayload) (keys : List RecipientKey) (key : RecipientKey)
      (kx : KeyExchange) (u wb : W) {u' w' : W}
      (first : IsFirst lib a view_a IsValidA sound_a agrees.reads_back b.local_device p.key_material
        key kx w')
      → IsOwn a.identity_key
      → IsOwn b.identity_key
      → a.protocol ≡ v2
      → b.protocol ≡ v2
      → Payload.encrypt_payload lib v2 plaintext u ≡ (ok p, u')
      → find_key b.local_device.id keys ≡ some key
      → key.key_exchange ≡ some kx
      → IsValidB wb
      → ServesAll (view_b wb)
      → let msg = envelope a.local_device plaintext p keys in
        (out : Slice) × (wb' : W) × (decrypt_message lib b msg wb ≡ (ok out, wb'))
        × (content out ≡ content plaintext)
        × IsLinked lib Paired view_b IsValidB first.sealed.next msg.sender wb'
  first-opens plaintext p keys key kx u wb first own_a own_b a_v2 b_v2 closed found has_kx v
        serves =
      let msg = envelope a.local_device plaintext p keys in
      let (is_keys, is_sender) = envelope-parts a.local_device plaintext p keys in
      let started = first.started in
      let sealed = first.sealed in
      decrypt_message-opens lib IsOwn IsPair Paired agrees a b IsValidA view_b IsValidB sound_b
        reliable msg key p.key_material plaintext sealed.next wb
        (ap (find_key b.local_device.id) is_keys ∙ found)
        (λ got same.
          envelope-OpensTo lib IsOwn IsPair Paired agrees b a.local_device plaintext p keys got b_v2
            (encrypt_payload-Closes lib IsOwn IsPair Paired agrees b plaintext u closed) same)
        v
        (λ w1 v1 same.
          first-ReadsKey lib IsOwn IsPair Paired agrees a b IsValidA view_b IsValidB sound_b
            reliable b.local_device msg key kx p.key_material first.ratchet sealed.next
            sealed.before sealed.after started w1 sealed.encrypted b_v2 has_kx own_a own_b v1
            (subst (λ y. Serves lib IsPair b.identity_key y started.bundle) (sym same)
              (serves started.before started.after started.bundle started.valid started.fetched)))

  -- The world in which the loop over the devices begins.
  loop-IsValid :
      (jid : String) (plaintext : Slice) {w w1 w2 : W} {r : Result (List Device)}
      {x : Result EncryptedPayload}
      → IsValidA w
      → recipient_devices a jid w ≡ (r, w1)
      → Payload.encrypt_payload lib a.protocol plaintext w1 ≡ (x, w2)
      → IsValidA w2
  loop-IsValid jid plaintext {w} {w1} {w2} {r} {x} v d q =
      let v1 =
        subst IsValidA (ap (λ (p : Result (List Device) × W). p.1) d)
          ((recipient_devices-Within lib a view_a IsValidA sound_a Anything Anything-IsFrame
              (λ j ids y. tt) jid).at
            w v).0 in
      subst IsValidA (ap (λ (p : Result EncryptedPayload × W). p.1) q)
        ((encrypt_payload-Quiet lib view_a IsValidA sound_a.library a.protocol plaintext).at w1
          v1).0

  Outcome-Reads :
      (jid : String) (plaintext : Slice) {w w0 w' : W} {s : Sent} {among : List Device} (wb : W)
      {msg : EncryptedMessage} {key : RecipientKey} {kx : KeyExchange}
      → IsOwn a.identity_key
      → IsOwn b.identity_key
      → a.protocol ≡ v2
      → b.protocol ≡ v2
      → IsValidA w
      → recipient_devices a jid w ≡ (ok among, w0)
      → All IsSingle among
      → Outcome lib a view_a jid plaintext w s w'
      → s.message ≡ some msg
      → find_key b.local_device.id msg.keys ≡ some key
      → key.key_exchange ≡ some kx
      → IsValidB wb
      → ServesAll (view_b wb)
      → Reads msg plaintext wb
  unfolding failed
  Outcome-Reads jid plaintext wb own_a own_b a_v2 b_v2 va listed single (no_devices e n q) h found
        has_kx v serves =
      cc (sym h ∙ ap (λ (x : Sent). x.message) q)
  Outcome-Reads jid plaintext wb own_a own_b a_v2 b_v2 va listed single (no_payload devs w1 e d n q)
        h found has_kx v serves =
      cc (sym h ∙ ap (λ (x : Sent). x.message) q)
  Outcome-Reads jid plaintext wb own_a own_b a_v2 b_v2 va listed single
        (ran devs w1 w2 p [] errors d q run r) h found has_kx v serves =
      cc (sym r.0 ∙ h)
  Outcome-Reads jid plaintext wb {msg} {key} own_a own_b a_v2 b_v2 va listed single
        (ran devs w1 w2 p (k ∷ keys) errors d q run r) h found has_kx v serves =
      let is_msg = some-injective _ msg (sym r.0 ∙ h) in
      let found' =
        ap (find_key b.local_device.id) (
          sym (envelope-parts a.local_device plaintext p (k ∷ keys)).0
          ∙ ap (λ (x : EncryptedMessage). x.keys) is_msg)
        ∙ found in
      let same_devs = (ok-eq-ok (sym d ∙ listed)).0 in
      let (dev, w3, w4, is_id, is_single, ne, v3, run) =
        find_key-CameFrom lib a view_a IsValidA sound_a IsSingle p.key_material b.local_device.id
          run (loop-IsValid jid plaintext va d q) (subst (All IsSingle) (sym same_devs) single)
          found' in
      let is_b = is_single ne is_id in
      let run = subst (λ x. encrypt_for_device lib a x p.key_material w3 ≡ (ok key, w4)) is_b run in
      let first =
        encrypt_for_device-IsFirst lib a view_a IsValidA sound_a agrees.reads_back b.local_device
          p.key_material a_v2 has_kx v3 run in
      let closed = subst (λ x. Payload.encrypt_payload lib x plaintext w1 ≡ (ok p, w2)) a_v2 q in
      let (out, wb', read, is_text, linked) =
        first-opens plaintext p (k ∷ keys) _ _ w1 wb first own_a own_b a_v2 b_v2 closed found'
          has_kx v serves in
      let is_sender = (envelope-parts a.local_device plaintext p (k ∷ keys)).1 in
      subst (λ x. Reads x plaintext wb) is_msg
        (out, wb', read, is_text, linked.valid, λ gone. cc (gone, linked.stored, is_sender))

  -- For a library whose two ends agree, under ProtocolV2, with a sender and a receiver that are
  -- sound and whose identity keys hold the public key of their seed, and a receiver's store that
  -- does not fail: when `recipientDevices` of the sender, in a valid world, returns devices of
  -- which only the receiver's has the receiver's id, the sender's own device aside, and
  -- `EncryptMessage` from that world returned a message whose first key for the receiver's id
  -- carries a key exchange, and the receiver's store can answer for every bundle that the sender's
  -- transport gives, in a valid world, for the receiver's device, then the receiver's
  -- `DecryptMessage`, in a valid world with that store, returns a slice with the bytes of the
  -- plaintext and leaves a valid world in which the store has a session with the sender.
  pub encrypt_message-decrypt_message :
      (jid : String) (plaintext : Slice) (w wb : W) {w1 : W} {devs : List Device}
      {msg : EncryptedMessage} {key : RecipientKey} {kx : KeyExchange}
      → IsOwn a.identity_key
      → IsOwn b.identity_key
      → a.protocol ≡ v2
      → b.protocol ≡ v2
      → IsValidA w
      → recipient_devices a jid w ≡ (ok devs, w1)
      → All IsSingle devs
      → (encrypt_message lib a jid plaintext w).0.message ≡ some msg
      → find_key b.local_device.id msg.keys ≡ some key
      → key.key_exchange ≡ some kx
      → IsValidB wb
      → ServesAll (view_b wb)
      → Reads msg plaintext wb
  unfolding encrypt_message
  encrypt_message-decrypt_message jid plaintext w wb own_a own_b a_v2 b_v2 v listed single h found
        has_kx vb serves =
      Outcome-Reads jid plaintext wb own_a own_b a_v2 b_v2 v listed single
        (encrypt-Outcome lib a view_a IsValidA sound_a jid plaintext w v) h found has_kx vb serves
