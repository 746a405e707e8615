-- ===== src/Daemon/PidFile/Reread.antt =====
-- The file `tun.pid` of src/tun_daemon/mod.rs, written and read back.
use link_p2p.Prelude.{
  ℕ, suc, ◌≤◌, ◌≡◌, refl, sym, ◌∙◌, ap, true, false, none, some, List, [], ◌∷◌, ◌++◌, ◌==◌, ==_self,
  All, All-append, arith,
}
use mathlib.Core.List.{append_assoc}
use link_p2p.Outcome.{ok, ◌>>=◌}
use link_p2p.ShortCode.{Text}
use link_p2p.Contacts.{is_whitespace, trim}
use link_p2p.Contacts.Tokens.{IsVisible, trim-visible}
use link_p2p.Decimal.{is_digit, to_decimal, digits-IsDigit, parse_decimal-to_decimal}
use link_p2p.Daemon.Client.{PidRecord}
use link_p2p.Daemon.PidFile.{
  u32_max, u64_max, pid_key, session_key, started_key, line, encode_pid, lines, strip_prefix, Found,
  read_line, read_lines, pid_record, parse_pid,
}

visible_newline : (c : ℕ) → IsVisible c → (c == 10) ≡ false
unfolding is_whitespace
visible_newline c h = ground (arith, h)

digit-IsVisible : (c : ℕ) → is_digit c ≡ true → IsVisible c
unfolding is_whitespace
digit-IsVisible c h = ground (arith, h)

All-IsVisible : (s : Text) → All (λ c. (is_digit c) ≡ true) s → All IsVisible s
All-IsVisible [] h = tt
All-IsVisible (c ∷ s) (hc, hs) = (digit-IsVisible c hc, All-IsVisible s hs)

to_decimal-IsVisible : (n : ℕ) → All IsVisible (to_decimal n)
unfolding to_decimal
to_decimal-IsVisible n = All-IsVisible (to_decimal n) (digits-IsDigit (suc n) n)

lines-visible : (l rest : Text) → All IsVisible l → lines (l ++ 10 ∷ rest) ≡ l ∷ lines rest
unfolding lines
lines-visible [] rest h = refl
lines-visible (c ∷ l) rest (hc, hs) = rw (visible_newline c hc, lines-visible l rest hs) refl

strip_prefix-append : (p s : Text) → strip_prefix p (p ++ s) ≡ some s
unfolding strip_prefix
strip_prefix-append [] s = refl
strip_prefix-append (c ∷ p) s = rw (==_self c) (strip_prefix-append p s)

pid_key-IsVisible : All IsVisible pid_key
unfolding is_whitespace
pid_key-IsVisible = (refl, (refl, (refl, (refl, tt))))

session_key-IsVisible : All IsVisible session_key
unfolding is_whitespace
session_key-IsVisible = ground arith

started_key-IsVisible : All IsVisible started_key
unfolding is_whitespace
started_key-IsVisible = ground arith

lines-line :
    (key value rest : Text)
    → All IsVisible key
    → All IsVisible value
    → lines (line key value rest) ≡ (key ++ value) ∷ lines rest
lines-line key value rest hk hv =
    ap lines (sym (append_assoc key value (10 ∷ rest)))
    ∙ lines-visible (key ++ value) rest (All-append IsVisible key value hk hv)

trimmed :
    (key value : Text)
    → All IsVisible key
    → All IsVisible value
    → trim (key ++ value) ≡ key ++ value
trimmed key value hk hv = trim-visible (key ++ value) (All-append IsVisible key value hk hv)

read_line-pid :
    (f : Found) (n : ℕ)
    → n ≤ u32_max
    → read_line f (pid_key ++ to_decimal n) ≡ ok (record f { pid = some n })
unfolding read_line strip_prefix
read_line-pid f n h = rw (parse_decimal-to_decimal u32_max n h) refl

read_line-session :
    (f : Found) (s : Text) → read_line f (session_key ++ s) ≡ ok (record f { session = some s })
unfolding read_line strip_prefix
read_line-session f s = refl

read_line-started :
    (f : Found) (n : ℕ)
    → n ≤ u64_max
    → read_line f (started_key ++ to_decimal n) ≡ ok (record f { started = some n })
unfolding read_line strip_prefix
read_line-started f n h = rw (parse_decimal-to_decimal u64_max n h) refl

read_lines-line :
    (f g : Found) (key value : Text) (rest : List Text)
    → All IsVisible key
    → All IsVisible value
    → read_line f (key ++ value) ≡ ok g
    → read_lines f ((key ++ value) ∷ rest) ≡ read_lines g rest
unfolding read_lines
read_lines-line f g key value rest hk hv h =
    ap (λ m. m >>= λ found. read_lines found rest) (ap (read_line f) (trimmed key value hk hv) ∙ h)

-- A record with a session that has no white space, within the bounds of a u32 and a u64, is read back
-- from the file as it was written.
pub parse_pid-encode_pid :
    (r : PidRecord)
    → r.pid ≤ u32_max
    → r.started_unix_ms ≤ u64_max
    → All IsVisible r.session
    → parse_pid (encode_pid r) ≡ ok r
unfolding parse_pid encode_pid pid_record read_lines lines
parse_pid-encode_pid r hp hs v =
    let none_yet : Found = record { pid = none; session = none; started = none } in
    let with_pid : Found = record none_yet { pid = some r.pid } in
    let with_session : Found = record with_pid { session = some r.session } in
    let whole : Found = record with_session { started = some r.started_unix_ms } in
    let started_line = line started_key (to_decimal r.started_unix_ms) [] in
    let session_line = line session_key r.session started_line in
    rw
      (
        lines-line pid_key (to_decimal r.pid) session_line pid_key-IsVisible
            (to_decimal-IsVisible r.pid),
        lines-line session_key r.session started_line session_key-IsVisible v,
        lines-line started_key (to_decimal r.started_unix_ms) [] started_key-IsVisible
            (to_decimal-IsVisible r.started_unix_ms),
        read_lines-line none_yet with_pid pid_key (to_decimal r.pid)
            ((session_key ++ r.session) ∷ (started_key ++ to_decimal r.started_unix_ms) ∷ [])
            pid_key-IsVisible (to_decimal-IsVisible r.pid) (read_line-pid none_yet r.pid hp),
        read_lines-line with_pid with_session session_key r.session
            ((started_key ++ to_decimal r.started_unix_ms) ∷ []) session_key-IsVisible v
            (read_line-session with_pid r.session),
        read_lines-line with_session whole started_key (to_decimal r.started_unix_ms) []
            started_key-IsVisible (to_decimal-IsVisible r.started_unix_ms)
            (read_line-started with_session r.started_unix_ms hs),
      )
      refl
