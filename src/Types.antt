-- ===== src/Types.antt =====
-- The protocol's data (types.go, envelope.go) and the records that a store holds (store.go).
-- A Go `[]byte` is `none` for nil and `some bytes` otherwise: the code tells the two apart. A uint32
-- is a natural number, and arithmetic on it reduces modulo 2 ^ 32 where it is done.
use omemo_go.Base.{ℕ, String, Option, none, some, List, [], ap, Eq, nat_eq, string_eq, ◌^◌}
use mathlib.Core.Logic.{dite}

abbrev pub Bytes : Type 0
Bytes = List ℕ

-- []byte
abbrev pub Slice : Type 0
Slice = Option Bytes

-- `string(b)` and `len` read nil as the empty slice.
abbrev pub content : Slice → Bytes
content none = []
content (some b) = b

abbrev pub u32_mod : ℕ
u32_mod = 2 ^ 32

-- `Protocol` is an int with two named values; `other` is any further one.
pub data Protocol : Type 0 where
  v2 v1 : Protocol
  other : ℕ → Protocol

-- Protocol.String
unfoldable pub protocol_string : Protocol → String
protocol_string v1 = "v1"
protocol_string v2 = "v2"
protocol_string _ = "unknown"

pub record Device : Type 0 where
  pub jid : String
  pub id : ℕ

unfoldable pub device_dec : Discrete Device
unfolding nat_eq string_eq
device_dec c d =
    dite (string_eq.dec c.jid d.jid)
      (λ p.
        dite (nat_eq.dec c.id d.id) (λ q. yes (λ i. record { jid = p i; id = q i }))
          (λ n. no (λ r. n (ap (λ (x : Device). x.id) r))))
      (λ n. no (λ r. n (ap (λ (x : Device). x.jid) r)))

instance unfoldable pub device_eq : Eq Device
unfolding device_dec
device_eq = record { dec = device_dec }

pub record SignedPreKey : Type 0 where
  pub id : ℕ
  pub public : Slice
  pub signature : Slice

pub record PreKey : Type 0 where
  pub id : ℕ
  pub public : Slice

pub record Bundle : Type 0 where
  pub device : Device
  pub identity_key : Slice
  pub signed_prekey : SignedPreKey
  pub prekeys : List PreKey

pub record DeviceList : Type 0 where
  pub jid : String
  pub devices : List ℕ

-- `TrustState` is an int with three named values; `unnamed` is any further one.
pub data TrustState : Type 0 where
  undecided trusted untrusted : TrustState
  unnamed : ℕ → TrustState

-- TrustState.String
unfoldable pub trust_string : TrustState → String
trust_string trusted = "trusted"
trust_string untrusted = "untrusted"
trust_string _ = "undecided"

pub record SignedPreKeyRecord : Type 0 where
  pub id : ℕ
  pub public : Slice
  pub private : Slice
  pub signature : Slice

pub record PreKeyRecord : Type 0 where
  pub id : ℕ
  pub public : Slice
  pub private : Slice

pub record KeyExchange : Type 0 where
  pub identity_key : Slice
  pub ephemeral_key : Slice
  pub signed_prekey_id : ℕ
  pub prekey_id : ℕ

-- `wrapped` is the field `Data`; a nil `KeyExchange` is `none`.
pub record RecipientKey : Type 0 where
  pub device : ℕ
  pub wrapped : Slice
  pub key_exchange : Option KeyExchange

pub record EncryptedMessage : Type 0 where
  pub sender : Device
  pub keys : List RecipientKey
  pub payload : Slice
  pub iv : Slice
