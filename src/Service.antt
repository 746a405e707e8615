-- ===== src/Service.antt =====
-- src/tun_service.rs: the unit and the property list of the installed service, and the paths that it
-- may run a binary from. A text is the list of its code points; a path is its lossy text. The variable
-- HOME and the mode of the binary's directory are arguments.
pub mod Unit
pub mod Plist
pub mod Home
use Prim.Native.Char.{code}
use Prim.Native.String.{String}
use link_p2p.Prelude.{
  ℕ, suc, ◌+◌, Bool, true, false, not, ◌&&◌, ◌||◌, Option, none, some, List, [], ◌∷◌, ◌++◌, leb,
  ◌==◌, bit_and, if◌then◌else◌,
}
use link_p2p.Outcome.{Msg, Result, ok, err, root, coded, exit_usage}
use link_p2p.ShortCode.{Text}

abbrev pub codes : String → List ℕ
codes String.[] = []
codes (String.◌∷◌ c s) = code c ∷ codes s

abbrev pub newline : ℕ
newline = 10

abbrev pub contains_char : ℕ → Text → Bool
contains_char c [] = false
contains_char c (x ∷ xs) = x == c || contains_char c xs

pub record InstallOpts : Type 0 where
  pub role : Text
  pub target : Option Text
  pub identity : Text
  pub service_user : Text

-- A newline or a quote.
abbrev pub is_invalid : Text → Bool
is_invalid t = contains_char newline t || contains_char b'"' t

-- Every line with its newline.
unfoldable pub unlines : List Text → Text
unlines [] = []
unlines (l ∷ ls) = l ++ (newline ∷ unlines ls)

abbrev pub to_option : Option Text → Text
to_option none = []
to_option (some target) = codes " --to " ++ target

unfoldable pub exec_of : Text → InstallOpts → Text
exec_of exe opts =
    exe
    ++ (codes " tun up --foreground --system --role "
        ++ (opts.role ++ (codes " --identity " ++ (opts.identity ++ to_option opts.target))))

abbrev pub unit_head : List Text
unit_head =
    codes
      "# Installed by `link-p2p tun service install` — do not hand-edit; re-run install to change."
    ∷ codes "[Unit]"
    ∷ codes "Description=link-p2p TUN mesh daemon"
    ∷ codes "After=network-online.target"
    ∷ codes "Wants=network-online.target"
    ∷ []
    ∷ codes "[Service]"
    ∷ codes "Type=simple"
    ∷ []

abbrev pub unit_tail : List Text
unit_tail =
    codes "RuntimeDirectory=link-p2p"
    ∷ codes "AmbientCapabilities=CAP_NET_ADMIN"
    ∷ codes "CapabilityBoundingSet=CAP_NET_ADMIN"
    ∷ codes "NoNewPrivileges=true"
    ∷ codes "Restart=on-failure"
    ∷ codes "RestartSec=5"
    ∷ []
    ∷ codes "[Install]"
    ∷ codes "WantedBy=multi-user.target"
    ∷ []

abbrev pub unit_lines : Text → Text → List Text
unit_lines exec user =
    unit_head ++ ((codes "ExecStart=" ++ exec) ∷ (codes "User=" ++ user) ∷ unit_tail)

abbrev pub invalid_target : Option Text → Bool
invalid_target none = false
invalid_target (some target) = is_invalid target

unfoldable pub render_unit : Text → InstallOpts → Result Text
unfolding exec_of unlines
render_unit exe opts =
    if is_invalid exe
    then err (root Msg.invalid_exe)
    else if is_invalid opts.identity
    then err (root Msg.invalid_identity_path)
    else if invalid_target opts.target
    then err (root Msg.invalid_target)
    else ok (unlines (unit_lines (exec_of exe opts) opts.service_user))

-- `str::replace` of one character.
unfoldable pub replace : ℕ → Text → Text → Text
replace c by [] = []
replace c by (x ∷ xs) = if x == c then by ++ replace c by xs else x ∷ replace c by xs

unfoldable pub xml_escape : Text → Text
unfolding replace
xml_escape s =
    replace b'>' (codes "&gt;") (replace b'<' (codes "&lt;") (replace b'&' (codes "&amp;") s))

abbrev pub target_args : Option Text → List Text
unfolding xml_escape
target_args none = []
target_args (some target) = codes "--to" ∷ xml_escape target ∷ []

unfoldable pub plist_args : Text → InstallOpts → List Text
unfolding target_args
plist_args exe opts =
    exe
    ∷ codes "tun"
    ∷ codes "up"
    ∷ codes "--foreground"
    ∷ codes "--system"
    ∷ codes "--role"
    ∷ opts.role
    ∷ codes "--identity"
    ∷ xml_escape opts.identity
    ∷ target_args opts.target

-- The elements of the array, each on a line of its own.
unfoldable pub args_xml : List Text → Text
args_xml [] = []
args_xml (a ∷ args) =
    newline ∷ (codes "        <string>" ++ (a ++ (codes "</string>" ++ args_xml args)))

abbrev pub plist_head : Text
plist_head =
    codes "<?xml version=\"1.0\" encoding=\"UTF-8\"?>\n"
    ++ (codes
          "<!DOCTYPE plist PUBLIC \"-//Apple//DTD PLIST 1.0//EN\" \"http://www.apple.com/DTDs/PropertyList-1.0.dtd\">\n"
        ++ (codes
              "<!-- Installed by `link-p2p tun service install` — re-run install to change. -->\n"
            ++ (codes "<plist version=\"1.0\">\n<dict>\n    <key>Label</key>\n"
                ++ codes
                    "    <string>com.link-p2p.tun</string>\n    <key>ProgramArguments</key>\n    <array>")))

abbrev pub plist_tail : Text
plist_tail =
    codes
      "\n    </array>\n    <key>RunAtLoad</key>\n    <true/>\n    <key>KeepAlive</key>\n    <dict>\n"
    ++ (codes "        <key>SuccessfulExit</key>\n        <false/>\n    </dict>\n"
        ++ (codes "    <key>StandardOutPath</key>\n    <string>/var/log/link-p2p/tun.log</string>\n"
            ++ (codes
                  "    <key>StandardErrorPath</key>\n    <string>/var/log/link-p2p/tun.err.log</string>\n"
                ++ codes "</dict>\n</plist>\n")))

abbrev pub multiline_target : Option Text → Bool
multiline_target none = false
multiline_target (some target) = contains_char newline target

unfoldable pub render_plist : Text → InstallOpts → Result Text
unfolding xml_escape plist_args args_xml
render_plist exe opts =
    if contains_char newline (xml_escape exe)
    then err (root Msg.invalid_exe)
    else if contains_char newline (xml_escape opts.identity)
    then err (root Msg.invalid_identity_path)
    else if multiline_target opts.target
    then err (root Msg.invalid_target)
    else ok (plist_head ++ (args_xml (plist_args (xml_escape exe) opts) ++ plist_tail))

abbrev pub starts_with : Text → Text → Bool
starts_with s [] = true
starts_with [] (p ∷ ps) = false
starts_with (c ∷ cs) (p ∷ ps) = c == p && starts_with cs ps

unfoldable pub contains_text : Text → Text → Bool
contains_text [] p = starts_with [] p
contains_text (c ∷ cs) p = starts_with (c ∷ cs) p || contains_text cs p

abbrev pub lower_char : ℕ → ℕ
lower_char c = if leb b'A' c && leb c b'Z' then c + 32 else c

unfoldable pub to_ascii_lowercase : Text → Text
to_ascii_lowercase [] = []
to_ascii_lowercase (c ∷ cs) = lower_char c ∷ to_ascii_lowercase cs

abbrev pub is_nil : Text → Bool
is_nil [] = true
is_nil (_ ∷ _) = false

-- Where the binary must not be, by its path alone.
unfoldable pub refused_path : Text → Bool
unfolding contains_text to_ascii_lowercase
refused_path path =
    let lower = to_ascii_lowercase path in
    contains_text lower (codes "/target/debug")
    || contains_text lower (codes "/target/release")
    || starts_with lower (codes "/tmp/")
    || starts_with lower (codes "/var/tmp/")
    || starts_with lower (codes "/home/")
    || starts_with lower (codes "/users/")
    || contains_text lower (codes "\\users\\")
    || contains_text lower (codes "\\appdata\\")
    || contains_text lower (codes "/appdata/")

-- The home directory, when the variable is set to more than the empty text.
abbrev pub under_home : Option Text → Text → Bool
under_home none path = false
under_home (some home) path = not (is_nil home) && starts_with path home

-- The mode of the parent directory, if that exists, and whether its metadata can be read.
pub data Parent : Type 0 where
  no_parent absent unreadable : Parent
  mode : ℕ → Parent

abbrev pub refused : Msg → Result (Unit {0})
refused m = err (coded exit_usage (root m))

unfoldable pub check_parent : Parent → Result (Unit {0})
check_parent no_parent = err (root Msg.no_parent_directory)
check_parent absent = ok tt
check_parent unreadable = err (root Msg.io_error)
check_parent (mode m) =
    if not (bit_and (bit_and m 511) 18 == 0) then refused Msg.writable_directory else ok tt

unfoldable pub check_service_binary_path : Option Text → Parent → Text → Result (Unit {0})
unfolding refused_path check_parent
check_service_binary_path home parent path =
    if refused_path path
    then refused Msg.refused_binary
    else if under_home home path
    then refused Msg.refused_binary
    else check_parent parent
