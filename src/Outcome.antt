-- ===== src/Outcome.antt =====
-- src/exit.rs, with the messages of the errors that the modelled modules raise. An `anyhow::Error`
-- is its root message under the contexts and exit codes that wrap it.
pub mod Codes
use link_p2p.Prelude.{ℕ, ◌≡◌, refl, Bool, true, false, Option, none, some, List, [], ◌∷◌}
use mathlib.Core.List.{tail}

-- Which side of the supported versions a control protocol version lies on (tun_ctl.rs).
pub data Mismatch : Type 0 where
  unsupported newer older : Mismatch

-- The message of a root cause or of a context, with the values that the text quotes.
pub data Msg : Type 0 where
  io_error : Msg
  read_control_header read_control_body decode_control_request decode_control_response : Msg
  encode_control_request encode_control_response : Msg
  control_body_too_large bad_control_magic control_frame_truncated : Msg
  control_body_exceeds_max : ℕ → Msg
  control_too_many_peers : ℕ → ℕ → Msg
  json_error : Msg
  stream_protocol_mismatch : ℕ → ℕ → Msg
  protocol_mismatch : Mismatch → ℕ → ℕ → Msg
  roster_entry_truncated invalid_roster_id bad_roster_magic : Msg
  expected_hello : ℕ → Msg
  roster_too_many : ℕ → ℕ → Msg
  unknown_roster_type : ℕ → Msg
  reading_target_header reading_greeting reading_request sending_selection sending_reply : Msg
  domain_too_long : ℕ → Msg
  domain_out_of_range non_utf8_domain utf8_error : Msg
  request_domain_out_of_range non_utf8_request_domain : Msg
  unknown_address_type : ℕ → Msg
  unsupported_socks_version : ℕ → Msg
  no_acceptable_method : Msg
  bad_request_version : ℕ → Msg
  only_connect : ℕ → Msg
  unsupported_address_type : ℕ → Msg
  blocked_target : Msg
  not_in_allow_list unusable_vip bad_vip_magic vip_claimed : Msg
  vip_taken vip_exhausted vip_not_free : Msg
  mtu_too_large : ℕ → Msg
  no_datagrams : Msg
  hub_with_to phone_with_to spoke_without_to invalid_role : Msg
  not_phone_mode call_queue_full : Msg
  invalid_character not_an_endpoint check_mismatch invalid_endpoint : Msg
  invalid_allow os_error invalid_address invalid_contact : Msg
  writing_hello reading_hello finishing_send copying : Msg
  bad_hello : ℕ → ℕ → ℕ → ℕ → Msg
  permission_denied daemon_not_running system_not_running : Msg
  connect_timed_out control_timed_out request_timed_out : Msg
  invalid_pid invalid_started missing_pid missing_session missing_started parse_int_error : Msg
  passphrase_too_short passphrase_too_long identity_not_hex identity_length no_entropy : Msg
  key_derivation encrypting_identity identity_not_encrypted bad_passphrase identity_not_utf8 : Msg
  migrating_identity no_passphrase decrypting_identity identity_unreadable writing_identity
        identity_permissions :
      Msg
  invalid_exe invalid_identity_path invalid_target no_parent_directory writable_directory : Msg
  refused_binary : Msg
  unexpected_response unexpected_status unexpected_peers : Msg

pub data Error : Type 0 where
  root : Msg → Error
  context : Msg → Error → Error
  coded : ℕ → Error → Error

pub data Result {ℓ} (A : Type ℓ) : Type ℓ where
  ok : A → Result A
  err : Error → Result A

infixl 5 ◌>>=◌ ◌>>◌
abbrev pub ◌>>=◌ {ℓ κ} : {A : Type ℓ} {B : Type κ} → Result A → (A → Result B) → Result B
ok a >>= f = f a
err e >>= f = err e

abbrev pub ◌>>◌ {ℓ κ} : {A : Type ℓ} {B : Type κ} → Result A → Result B → Result B
m >> k = m >>= λ _. k

-- `.context(m)` on a result, and on an option whose `None` becomes the error `e`.
abbrev pub with_context {ℓ} : {A : Type ℓ} → Msg → Result A → Result A
with_context m (ok a) = ok a
with_context m (err e) = err (context m e)

abbrev pub or_err {ℓ} : {A : Type ℓ} → Error → Option A → Result A
or_err e (some a) = ok a
or_err e none = err e

abbrev pub exit_other : ℕ
exit_other = 1

abbrev pub exit_usage : ℕ
exit_usage = 2

abbrev pub exit_connect : ℕ
exit_connect = 3

abbrev pub exit_timeout : ℕ
exit_timeout = 4

abbrev pub exit_denied : ℕ
exit_denied = 5

abbrev pub exit_daemon_not_running : ℕ
exit_daemon_not_running = 6

-- The causes in `err.chain()`, outermost first.
unfoldable pub chain : Error → List Error
chain (root m) = root m ∷ []
chain (context m e) = context m e ∷ chain e
-- `CodedError::source` is the source of the wrapped error: the walk passes over its root.
chain (coded c e) = coded c e ∷ tail (chain e)

unfoldable pub has_coded : List Error → Bool
has_coded [] = false
has_coded (coded c e ∷ es) = true
has_coded (_ ∷ es) = has_coded es

-- `exit::coded`: `none` is the panic of its `assert!`, which wants no code in the chain.
unfoldable pub exit_coded : ℕ → Error → Option Error
unfolding has_coded chain
exit_coded code e = elim (has_coded (chain e)) [ true ↦ none | false ↦ some (coded code e) ]

-- `exit::code_from`: the first code that the walk of the chain meets.
first_code : List Error → ℕ
first_code [] = exit_other
first_code (coded c e ∷ es) = c
first_code (_ ∷ es) = first_code es

unfoldable pub code_from : Error → ℕ
unfolding first_code chain
code_from e = first_code (chain e)
