-- ===== src/Outcome/Codes.antt =====
-- The exit codes of src/exit.rs: which code a failure maps to.
use link_p2p.Prelude.{ℕ, ◌≡◌, refl, false, some, List, [], ◌∷◌, arith}
use link_p2p.Outcome.{
  Msg, Error, root, context, coded, exit_other, has_coded, chain, exit_coded, first_code, code_from,
}

-- The contexts `ms` wrapped around an error, the last one outermost.
abbrev pub wrap : List Msg → Error → Error
wrap [] e = e
wrap (m ∷ ms) e = context m (wrap ms e)

-- A code given by `exit::coded` to an error without one is the process exit code, however many
-- contexts are added to it later.
pub code_from-exit_coded :
    (code : ℕ) (e c : Error) (ms : List Msg)
    → exit_coded code e ≡ some c
    → code_from (wrap ms c) ≡ code
unfolding code_from exit_coded
code_from-exit_coded code e c [] h = ground arith
code_from-exit_coded code e c (m ∷ ms) h = code_from-exit_coded code e c ms h

first_code-other : (es : List Error) → has_coded es ≡ false → first_code es ≡ exit_other
unfolding first_code has_coded
first_code-other [] h = refl
first_code-other (root m ∷ es) h = first_code-other es h
first_code-other (context m e ∷ es) h = first_code-other es h
first_code-other (coded c e ∷ es) h = cc

-- `exit::coded` panics on an error that has a code already; an error that it accepts has none, and
-- maps to `OTHER` as it stands.
pub exit_coded-uncoded :
    (code : ℕ) (e c : Error)
    → exit_coded code e ≡ some c
    → (c ≡ coded code e) × (code_from e ≡ exit_other)
unfolding code_from exit_coded
exit_coded-uncoded code e c h = ground (arith, first_code-other (chain e))
