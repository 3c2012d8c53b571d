-- ===== src/Errors.antt =====
-- errors.go: the sentinel errors, wrapping by `fmt.Errorf("...: %w", err)`, and `errors.Is`.
-- A wrapping text is a constructor of `Context`, with the values that the text prints.
pub mod Text
use omemo_go.Base.{ℕ, String, Bool, false, ◌≡◌, refl, Eq, ◌==◌}
use omemo_go.Types.{Device}

pub data Sentinel : Type 0 where
  untrusted_device blocked_device no_recipients : Sentinel
  unknown_session own_device_key_missing prekey_not_found : Sentinel

unfoldable pub sentinel_dec : Discrete Sentinel
sentinel_dec = hlevel

instance unfoldable pub sentinel_eq : Eq Sentinel
unfolding sentinel_dec
sentinel_eq = record { dec = sentinel_dec }

-- The texts in front of `%w`, one for each place that wraps.
pub data Context : Type 0 where
  load_identity_key load_local_device generate_identity_key store_identity_key : Context
  store_local_device generate_signed_prekey store_signed_prekey load_signed_prekey : Context
  load_prekeys derive_identity_public_key allocate_prekey_id generate_one_time_prekey : Context
  count_prekeys encrypt_payload establish_session ratchet_encrypt load_trust_state : Context
  load_session fetch_bundle x3dh marshal_session store_session ratchet_decrypt : Context
  decrypt_payload parse_legacy_prekey_message load_stale_signed_prekey : Context
  parse_curve25519_private_key x3dh_initial_message create_active_session : Context
  create_active_ratchet x3dh_receive_initial_message create_passive_ratchet : Context
  create_passive_session restore_legacy_session_state restore_ratchet_state : Context
  fetch_device_list load_devices : String → Context
  reset_session : Device → Context
  consume_one_time_prekey : ℕ → Context

-- `external n` is an error made by code outside of the repository.
pub data Error : Type 0 where
  sentinel : Sentinel → Error
  external : ℕ → Error
  no_known_identity_key no_prekeys_available ed25519_key_size : Error
  unknown_signed_prekey one_time_prekey_missing : ℕ → Error
  wrap : Context → Error → Error

-- errors.Is(err, target)
unfoldable pub is : Error → Sentinel → Bool
unfolding sentinel_eq
is (sentinel s) t = s == t
is (wrap c e) t = is e t
is _ t = false

pub record DeviceError : Type 0 where
  pub device : Device
  pub err : Error

-- DeviceError.Unwrap
unfoldable pub unwrap : DeviceError → Error
unwrap e = e.err

-- A wrapped error is still recognised by `errors.Is`.
pub is-wrap : (c : Context) (e : Error) (s : Sentinel) → is (wrap c e) s ≡ is e s
unfolding is
is-wrap c e s = refl
