-- ===== src/Daemon/Roles.antt =====
-- `resolve_up_role` and `format_uptime` of src/tun_daemon/mod.rs. A text is the list of its code points.
pub mod Resolved
use link_p2p.Prelude.{
  ℕ, ◌+◌, ◌*◌, ◌/◌, ◌%◌, Bool, true, false, Option, none, some, [], ◌∷◌, ◌++◌, ltb, leb, bytes_eq,
  map, ◌&&◌, if◌then◌else◌,
}
use link_p2p.Outcome.{Msg, Result, ok, err, root, coded, exit_usage}
use link_p2p.ShortCode.{Text}
use link_p2p.Decimal.{to_decimal}

abbrev pub hub : Text
hub = b'h' ∷ b'u' ∷ b'b' ∷ []

abbrev pub spoke : Text
spoke = b's' ∷ b'p' ∷ b'o' ∷ b'k' ∷ b'e' ∷ []

abbrev pub phone : Text
phone = b'p' ∷ b'h' ∷ b'o' ∷ b'n' ∷ b'e' ∷ []

abbrev pub to_ascii_lowercase : ℕ → ℕ
to_ascii_lowercase c = if leb b'A' c && leb c b'Z' then c + 32 else c

abbrev pub usage : Msg → Result Text
usage m = err (coded exit_usage (root m))

-- The match on a role in lower case. `to` tells whether `--to` is given: the code never looks at it.
abbrev pub resolved : Option Text → Bool → Result Text
resolved none true = ok spoke
resolved none false = ok hub
resolved (some role) true =
    if bytes_eq role hub
    then usage Msg.hub_with_to
    else if bytes_eq role phone
    then usage Msg.phone_with_to
    else if bytes_eq role spoke
    then ok spoke
    else usage Msg.invalid_role
resolved (some role) false =
    if bytes_eq role spoke
    then usage Msg.spoke_without_to
    else if bytes_eq role hub
    then ok hub
    else if bytes_eq role phone
    then ok phone
    else usage Msg.invalid_role

abbrev pub lowered : Option Text → Option Text
lowered none = none
lowered (some role) = some (map to_ascii_lowercase role)

unfoldable pub resolve_up_role : Option Text → Bool → Result Text
resolve_up_role role to = resolved (lowered role) to

unfoldable pub format_uptime : ℕ → Text
format_uptime secs =
    let h = secs / 3600 in
    let m = secs % 3600 / 60 in
    let s = secs % 60 in
    let seconds = to_decimal s ++ b's' ∷ [] in
    let minutes = to_decimal m ++ b'm' ∷ seconds in
    if ltb 0 h then to_decimal h ++ b'h' ∷ minutes else if ltb 0 m then minutes else seconds
