-- ===== src/Daemon/Roles/Resolved.antt =====
-- Which role `tun up` of src/tun_daemon/mod.rs starts with.
use link_p2p.Prelude.{
  ◌≡◌, inl, inr, refl, sym, ◌∙◌, ap, Bool, true, false, Option, none, some, bytes_eq, Bool-cases,
  arith,
}
use mathlib.Core.Path.{subst}
use link_p2p.Outcome.{Result, ok, err}
use link_p2p.ShortCode.{Text}
use link_p2p.Daemon.Roles.{hub, spoke, phone, resolved, lowered, resolve_up_role}

-- The three roles, with whether each dials a hub.
pub data IsRole : Text → Bool → Type 0 where
  is_hub : IsRole hub false
  is_phone : IsRole phone false
  is_spoke : IsRole spoke true

abbrev text_of : Result Text → Text
text_of (ok t) = t
text_of (err e) = hub

subst-IsRole :
    {to : Bool} (role out : Text)
    → IsRole role to
    → (r : Result Text) → r ≡ ok role
    → r ≡ ok out
    → IsRole out to
subst-IsRole {to = to} role out w r e h = subst (λ t. IsRole t to) (ap text_of (sym e ∙ h)) w

resolved-IsRole :
    (role : Option Text) (to : Bool) (out : Text) → resolved role to ≡ ok out → IsRole out to
resolved-IsRole none true out h = subst-IsRole spoke out is_spoke (resolved none true) refl h
resolved-IsRole none false out h = subst-IsRole hub out is_hub (resolved none false) refl h
resolved-IsRole (some role) true out h = elim (Bool-cases (bytes_eq role hub)) [
  | inl t ↦ absurd (ground (arith, h, t))
  | inr a ↦ elim (Bool-cases (bytes_eq role phone)) [
    | inl t ↦ absurd (ground (arith, h, a, t))
    | inr b ↦ elim (Bool-cases (bytes_eq role spoke)) [
      | inl t ↦ subst-IsRole spoke out is_spoke (resolved (some role) true) (rw (a, b, t) refl) h
      | inr t ↦ absurd (ground (arith, h, a, b, t))
    ]
  ]
]
resolved-IsRole (some role) false out h = elim (Bool-cases (bytes_eq role spoke)) [
  | inl t ↦ absurd (ground (arith, h, t))
  | inr a ↦ elim (Bool-cases (bytes_eq role hub)) [
    | inl t ↦ subst-IsRole hub out is_hub (resolved (some role) false) (rw (a, t) refl) h
    | inr b ↦ elim (Bool-cases (bytes_eq role phone)) [
      | inl t ↦ subst-IsRole phone out is_phone (resolved (some role) false) (rw (a, b, t) refl) h
      | inr t ↦ absurd (ground (arith, h, a, b, t))
    ]
  ]
]

-- `tun up` only ever starts as a hub, a phone or a spoke, and as a spoke exactly when `--to` is given.
pub resolve_up_role-IsRole :
    (role : Option Text) (to : Bool) (out : Text) → resolve_up_role role to ≡ ok out → IsRole out to
unfolding resolve_up_role
resolve_up_role-IsRole role to out h = resolved-IsRole (lowered role) to out h
