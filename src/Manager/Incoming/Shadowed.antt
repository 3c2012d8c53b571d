-- ===== src/Manager/Incoming/Shadowed.antt =====
-- A key of a message names its recipient by the device id alone: of two keys with the same id, for
-- devices of different accounts, only the first is ever read.
use omemo_go.Base.{ℕ, ◌≡◌, refl, ap, ◌∙◌, arith, Option, none, some, List, [], ◌∷◌, ◌++◌, nat_eq}
use omemo_go.Types.{RecipientKey, EncryptedMessage}
use omemo_go.Signal.Library.{Library}
use omemo_go.Manager.State.{Manager}
use omemo_go.Manager.Incoming.{find_key, decrypt_locked, decrypt_with, decrypt_message}

-- A key behind one with the same device id.
find_key-shadowed :
    (id : ℕ) (first second : RecipientKey) (before between after : List RecipientKey)
    → first.device ≡ second.device
    → find_key id (before ++ first ∷ between ++ second ∷ after)
      ≡ find_key id (before ++ first ∷ between ++ after)
unfolding find_key
find_key-shadowed id first second [] [] after same = ground arith
find_key-shadowed id first second [] (x ∷ between) after same =
    ground (arith, find_key-shadowed id first second [] between after same)
find_key-shadowed id first second (x ∷ before) between after same =
    ground (arith, find_key-shadowed id first second before between after same)

module _ {W DR LS LX : Type 0} (lib : Library W DR LS LX) (m : Manager W) where
  decrypt_with-keys :
      (msg : EncryptedMessage) (a b : List RecipientKey) (o : Option RecipientKey) (w : W)
      → decrypt_with lib m (record msg { keys = a }) o w
        ≡ decrypt_with lib m (record msg { keys = b }) o w
  unfolding decrypt_with decrypt_locked
  decrypt_with-keys msg a b none w = refl
  decrypt_with-keys msg a b (some key) w = refl

  -- `DecryptMessage` does the same with and without a key that stands behind another key with the
  -- same device id: the device of such a key cannot read its copy.
  pub decrypt_message-shadowed :
      (msg : EncryptedMessage) (first second : RecipientKey)
      (before between after : List RecipientKey) (w : W)
      → first.device ≡ second.device
      → decrypt_message lib m (record msg { keys = before ++ first ∷ between ++ second ∷ after }) w
        ≡ decrypt_message lib m (record msg { keys = before ++ first ∷ between ++ after }) w
  unfolding decrypt_message
  decrypt_message-shadowed msg first second before between after w same =
      decrypt_with-keys msg _ (before ++ first ∷ between ++ after) _ w
      ∙ ap (λ o. decrypt_with lib m (record msg { keys = before ++ first ∷ between ++ after }) o w)
          (find_key-shadowed m.local_device.id first second before between after same)
