-- ===== src/Table.antt =====
-- The shared maps of src/tun: std's `HashMap` as an association list with at most one entry that a
-- key finds, and the cell of the arc_swap crate, a parameter.
pub mod Lookups
pub mod Views
use link_p2p.Prelude.{
  ◌≡◌, ◌≢◌, ◌↔◌, refl, Bool, true, false, Option, none, some, List, [], ◌∷◌, if◌then◌else◌,
}

-- `==` on the keys.
pub record Keys (K : Type 0) : Type 0 where
  pub same : K → K → Bool
  pub same_iff : (a b : K) → (same a b ≡ true) ↔ (a ≡ b)

abbrev pub HashMap : Type 0 → Type 0 → Type 0
HashMap K V = List (K × V)

module _ {K V : Type 0} (keys : Keys K) where
  unfoldable pub get : List (K × V) → K → Option V
  get [] k = none
  get ((a, v) ∷ m) k = if keys.same a k then some v else get m k

  unfoldable pub remove : List (K × V) → K → List (K × V)
  remove [] k = []
  remove ((a, v) ∷ m) k = let rest = remove m k in if keys.same a k then rest else (a, v) ∷ rest

  unfoldable pub insert : List (K × V) → K → V → List (K × V)
  insert m k v = (k, v) ∷ remove m k

  abbrev pub contains_key : List (K × V) → K → Bool
  contains_key m k = elim (get m k) [ none ↦ false | some v ↦ true ]

-- `values()`, in the order of the list: std promises none.
unfoldable pub values : {K V : Type 0} → List (K × V) → List V
values [] = []
values ((k, v) ∷ m) = v ∷ values m

-- `load` reads what was stored last. `rcu f` stores `f` of it, as one step however often it was
-- retried, and returns the value from before.
pub record ArcSwap (A : Type 0) : Type 1 where
  pub Cell : Type 0
  pub load : Cell → A
  pub rcu : (A → A) → Cell → A × Cell
  pub rcu-returns : (f : A → A) (c : Cell) → (rcu f c).0 ≡ load c
  pub rcu-stores : (f : A → A) (c : Cell) → load (rcu f c).1 ≡ f (load c)
