-- ===== src/Service/Unit.antt =====
-- The lines of the unit that src/tun_service.rs writes.
use link_p2p.Prelude.{ℕ, ◌≡◌, false, List, [], ◌∷◌, ◌==◌, if◌then◌else◌}
use link_p2p.ShortCode.{Text}
use link_p2p.Service.{newline, contains_char}

abbrev pub IsLine : Text → Type 0
IsLine t = contains_char newline t ≡ false

abbrev pub push : ℕ → List Text → List Text
push c [] = (c ∷ []) ∷ []
push c (l ∷ ls) = (c ∷ l) ∷ ls

-- The lines of a text, as systemd reads them.
unfoldable pub lines : Text → List Text
lines [] = []
lines (c ∷ cs) = if c == newline then [] ∷ lines cs else push c (lines cs)
