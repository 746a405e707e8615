-- ===== src/Service/Home.antt =====
-- How src/tun_service.rs compares a binary's path with the home directory.
use link_p2p.Prelude.{◌≡◌, refl, true, false, some, [], ◌∷◌, ◌++◌, ==_self, Bool-cases, inl, inr}
use link_p2p.ShortCode.{Text}
use link_p2p.Outcome.{Msg}
use link_p2p.Service.{starts_with, is_nil, refused_path, Parent, refused, check_service_binary_path}

starts_with-append : (p rest : Text) → starts_with (p ++ rest) p ≡ true
starts_with-append [] [] = refl
starts_with-append [] (c ∷ rest) = refl
starts_with-append (c ∷ p) rest = rw (==_self c) (starts_with-append p rest)

-- Every path that begins with the text of HOME is refused, also where HOME ends within a name or is
-- the root directory.
pub check_service_binary_path-home :
    (home rest : Text) (dir : Parent)
    → is_nil home ≡ false
    → check_service_binary_path (some home) dir (home ++ rest) ≡ refused Msg.refused_binary
unfolding check_service_binary_path
check_service_binary_path-home home rest dir h = elim (Bool-cases (refused_path (home ++ rest))) [
  | inl t ↦ rw (check_service_binary_path, t) refl
  | inr t ↦ rw (check_service_binary_path, t, h, starts_with-append home rest) refl
]
