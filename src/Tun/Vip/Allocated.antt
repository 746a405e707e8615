-- ===== src/Tun/Vip/Allocated.antt =====
-- Which virtual IP src/tun/mod.rs picks.
use link_p2p.Prelude.{
  ℕ, zero, suc, ◌+◌, ◌<◌, ◌≡◌, refl, Option, none, some, All, below, All-below, arith,
}
use native.Mathlib.Nat.{add-zero, zero-add}
use link_p2p.Outcome.{Msg, Error, Result, ok, err, root, coded, exit_usage, code_from}
use link_p2p.Tun.Vip.{vip_alloc_tries, first_free, allocate_vip}

module _ {A : Type 0} (derive : ℕ → A) (ensure_free : A → Result (Unit {0})) where
  abbrev IsFree : A → Type 0
  IsFree a = ensure_free a ≡ ok tt

  abbrev IsTaken : A → Type 0
  IsTaken a = (e : Error) × (ensure_free a ≡ err e)

  -- The first free address from `salt` on, within `tries` rounds.
  abbrev IsFirst : ℕ → ℕ → Option A → Type 0
  IsFirst tries salt (some a) =
      (k : ℕ) × (a ≡ derive (salt + k))
      × (k < tries)
      × IsFree a
      × ((i : ℕ) → i < k → IsTaken (derive (salt + i)))
  IsFirst tries salt none = (i : ℕ) → i < tries → IsTaken (derive (salt + i))

  -- The salts from `salt` on, when the first is taken.
  IsTaken-from :
      (k salt : ℕ)
      → IsTaken (derive salt)
      → ((i : ℕ) → i < k → IsTaken (derive (suc salt + i)))
      → (i : ℕ) → i < suc k
      → IsTaken (derive (salt + i))
  IsTaken-from k salt t h zero lt = rw add-zero t
  IsTaken-from k salt t h (suc i) lt =
      let e : salt + suc i ≡ suc salt + i = omega arith in rw e (h i (omega arith))

  IsFirst-suc :
      (tries salt : ℕ) (o : Option A)
      → IsTaken (derive salt)
      → IsFirst tries (suc salt) o
      → IsFirst (suc tries) salt o
  IsFirst-suc tries salt none t h = IsTaken-from tries salt t h
  IsFirst-suc tries salt (some a) t (k, e, lt, free, before) = (
    suc k,
    (let s : salt + suc k ≡ suc salt + k = omega arith in rw s e),
    omega arith,
    free,
    IsTaken-from k salt t before,
  )

  first_free-IsFirst :
      (tries salt : ℕ) → IsFirst tries salt (first_free derive ensure_free tries salt)
  unfolding first_free
  first_free-IsFirst zero salt = λ i h. absurd (omega arith)
  first_free-IsFirst (suc tries) salt =
      step (ensure_free (derive salt)) refl (first_free-IsFirst tries (suc salt))
    where
      step :
          (r : Result (Unit {0}))
          → ensure_free (derive salt) ≡ r
          → IsFirst tries (suc salt) (first_free derive ensure_free tries (suc salt))
          → IsFirst (suc tries) salt (elim r [
            | ok u ↦ some (derive salt)
            | err e ↦ first_free derive ensure_free tries (suc salt)
          ])
      step (ok u) e ih = (zero, rw add-zero, omega arith, e, λ i h. absurd (omega arith))
      step (err x) e ih = IsFirst-suc tries salt _ (x, e) ih

  -- The outcome of an allocation: a free address, which is the manual one or else the derived one
  -- with the smallest free salt below 64; or an error with exit code 2, and then the manual address
  -- or all 64 derived ones are taken.
  abbrev pub IsAllocation : Option A → Result A → Type 0
  IsAllocation (some manual) (ok a) = (a ≡ manual) × IsFree a
  IsAllocation (some manual) (err e) = (code_from e ≡ exit_usage) × IsTaken manual
  IsAllocation none (ok a) =
      (salt : ℕ) × (a ≡ derive salt)
      × (salt < vip_alloc_tries)
      × IsFree a
      × All (λ i. IsTaken (derive i)) (below salt)
  IsAllocation none (err e) =
      (code_from e ≡ exit_usage) × All (λ i. IsTaken (derive i)) (below vip_alloc_tries)

  auto-IsAllocation :
      (o : Option A)
      → IsFirst vip_alloc_tries 0 o
      → IsAllocation none
          (elim o [ some vip ↦ ok vip | none ↦ err (coded exit_usage (root Msg.vip_exhausted)) ])
  unfolding code_from
  auto-IsAllocation none h =
      (refl, All-below (λ i. IsTaken (derive i)) vip_alloc_tries (λ i lt. rw zero-add at (h i lt)))
  auto-IsAllocation (some a) (k, e, lt, free, before) = (
    k,
    rw zero-add at e,
    lt,
    free,
    All-below (λ i. IsTaken (derive i)) k (λ i l. rw zero-add at (before i l)),
  )

  manual-IsAllocation :
      (vip : A) (r : Result (Unit {0}))
      → ensure_free vip ≡ r
      → IsAllocation
          (some vip)
          (elim r [ ok u ↦ ok vip | err e ↦ err (coded exit_usage (root Msg.vip_taken)) ])
  unfolding code_from
  manual-IsAllocation vip (ok u) h = (refl, h)
  manual-IsAllocation vip (err e) h = (refl, (e, h))

  -- Every allocation ends: with a free address, the manual one or else the derived one of the
  -- smallest free salt below 64, or with an error of exit code 2 when the manual address or all 64
  -- derived ones are taken.
  pub allocate_vip-IsAllocation :
      (manual : Option A) → IsAllocation manual (allocate_vip derive ensure_free manual)
  unfolding allocate_vip
  allocate_vip-IsAllocation none = auto-IsAllocation _ (first_free-IsFirst vip_alloc_tries 0)
  allocate_vip-IsAllocation (some vip) = manual-IsAllocation vip (ensure_free vip) refl
