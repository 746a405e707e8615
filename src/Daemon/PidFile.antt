-- ===== src/Daemon/PidFile.antt =====
-- The file `tun.pid` of src/tun_daemon/mod.rs. A text is the list of its code points.
pub mod Reread
use link_p2p.Prelude.{
  ℕ, Bool, true, false, ◌||◌, Option, none, some, List, [], ◌∷◌, ◌++◌, ◌==◌, if◌then◌else◌,
}
use link_p2p.Outcome.{Msg, Result, ok, err, root, context, ◌>>=◌, ◌>>◌, with_context, or_err}
use link_p2p.ShortCode.{Text}
use link_p2p.Contacts.{trim, is_nil}
use link_p2p.Decimal.{to_decimal, parse_decimal}
use link_p2p.Daemon.Client.{PidRecord}

abbrev pub u32_max : ℕ
u32_max = 4294967295

abbrev pub u64_max : ℕ
u64_max = 18446744073709551615

-- "pid="
abbrev pub pid_key : Text
pid_key = b'p' ∷ b'i' ∷ b'd' ∷ b'=' ∷ []

-- "session="
abbrev pub session_key : Text
session_key = b's' ∷ b'e' ∷ b's' ∷ b's' ∷ b'i' ∷ b'o' ∷ b'n' ∷ b'=' ∷ []

-- "started_unix_ms="
abbrev pub started_key : Text
started_key =
    b's' ∷ b't' ∷ b'a' ∷ b'r' ∷ b't' ∷ b'e' ∷ b'd' ∷ b'_' ∷ b'u' ∷ b'n' ∷ b'i' ∷ b'x' ∷ b'_' ∷ b'm'
    ∷ b's' ∷ b'=' ∷ []

abbrev pub line : Text → Text → Text → Text
line key value rest = key ++ (value ++ 10 ∷ rest)

unfoldable pub encode_pid : PidRecord → Text
encode_pid r =
    line pid_key (to_decimal r.pid)
      (line session_key r.session (line started_key (to_decimal r.started_unix_ms) []))

abbrev pub cons_line : ℕ → List Text → List Text
cons_line c [] = (c ∷ []) ∷ []
cons_line c (l ∷ ls) = (c ∷ l) ∷ ls

-- `str::lines`, which also drops a `\r` before the `\n`: here the trim that follows drops it.
unfoldable pub lines : Text → List Text
lines [] = []
lines (c ∷ cs) = let rest = lines cs in if c == 10 then [] ∷ rest else cons_line c rest

unfoldable pub strip_prefix : Text → Text → Option Text
strip_prefix [] s = some s
strip_prefix (p ∷ ps) [] = none
strip_prefix (p ∷ ps) (c ∷ cs) = let rest = strip_prefix ps cs in if p == c then rest else none

-- What the lines so far gave.
pub record Found : Type 0 where
  pub pid : Option ℕ
  pub session : Option Text
  pub started : Option ℕ

abbrev pub is_comment : Text → Bool
is_comment [] = false
is_comment (c ∷ cs) = c == b'#'

abbrev pub parsed : Msg → ℕ → Text → Result ℕ
parsed m limit rest = with_context m (or_err (root Msg.parse_int_error) (parse_decimal limit rest))

-- One line, trimmed.
unfoldable pub read_line : Found → Text → Result Found
unfolding strip_prefix
read_line f l = if is_nil l || is_comment l then ok f else elim (strip_prefix pid_key l) [
  | some rest ↦ parsed Msg.invalid_pid u32_max rest >>= λ n. ok (record f { pid = some n })
  | none ↦ elim (strip_prefix session_key l) [
    | some rest ↦ ok (record f { session = some rest })
    | none ↦ elim (strip_prefix started_key l) [
      | some rest ↦
          parsed Msg.invalid_started u64_max rest >>= λ n. ok (record f { started = some n })
      | none ↦ ok f
    ]
  ]
]

unfoldable pub read_lines : Found → List Text → Result Found
unfolding read_line
read_lines f [] = ok f
read_lines f (l ∷ ls) = read_line f (trim l) >>= λ g. read_lines g ls

-- `option.context(m)?`
abbrev pub required : {A : Type 0} → Msg → Option A → Result A
required m o = or_err (root m) o

unfoldable pub pid_record : Found → Result PidRecord
pid_record f = required Msg.missing_pid f.pid >>= λ pid.
    required Msg.missing_session f.session >>= λ session.
    required Msg.missing_started f.started >>= λ started.
    ok (record { pid = pid; session = session; started_unix_ms = started })

unfoldable pub parse_pid : Text → Result PidRecord
unfolding lines read_lines pid_record
parse_pid text =
    read_lines (record { pid = none; session = none; started = none }) (lines text) >>= pid_record
