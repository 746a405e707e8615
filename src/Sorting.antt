-- ===== src/Sorting.antt =====
-- std's stable `sort_by`, as an insertion sort by the test that puts one item after another.
use link_p2p.Prelude.{
  ℕ, suc, ◌≡◌, refl, ap, ◌∙◌, Bool, true, false, List, [], ◌∷◌, map, All, Bool-cases, inl, inr,
  if◌then◌else◌,
}

abbrev count_if : Bool → ℕ → ℕ
count_if true n = suc n
count_if false n = n

count_if-swap : (b c : Bool) (n : ℕ) → count_if b (count_if c n) ≡ count_if c (count_if b n)
count_if-swap true true n = refl
count_if-swap true false n = refl
count_if-swap false true n = refl
count_if-swap false false n = refl

-- How many of a list pass a test.
abbrev pub count : {A : Type 0} → (A → Bool) → List A → ℕ
count f [] = 0
count f (a ∷ rest) = count_if (f a) (count f rest)

module _ {A : Type 0} (after : A → A → Bool) where
  unfoldable pub put : A → List A → List A
  put a [] = a ∷ []
  put a (b ∷ bs) = let rest = put a bs in if after a b then b ∷ rest else a ∷ b ∷ bs

  unfoldable pub sort : List A → List A
  unfolding put
  sort [] = []
  sort (a ∷ rest) = put a (sort rest)

  -- No item comes after a later one.
  abbrev pub IsSorted : List A → Type 0
  IsSorted [] = Unit
  IsSorted (a ∷ rest) = All (λ b. after a b ≡ false) rest × IsSorted rest

  pub put-All : (P : A → Type 0) (a : A) (bs : List A) → P a → All P bs → All P (put a bs)
  unfolding put
  put-All P a [] h all = (h, tt)
  put-All P a (b ∷ bs) h (k, all) = elim (Bool-cases (after a b)) [
    | inl t ↦ rw t (k, put-All P a bs h all)
    | inr t ↦ rw t (h, (k, all))
  ]

  pub sort-All : (P : A → Type 0) (items : List A) → All P items → All P (sort items)
  unfolding sort
  sort-All P [] h = h
  sort-All P (a ∷ rest) (h, all) = put-All P a (sort rest) h (sort-All P rest all)

  count-put :
      (f : A → Bool) (a : A) (bs : List A) → count f (put a bs) ≡ count_if (f a) (count f bs)
  unfolding put
  count-put f a [] = refl
  count-put f a (b ∷ bs) = elim (Bool-cases (after a b)) [
    | inl t ↦ rw (t, count-put f a bs) (count_if-swap (f b) (f a) (count f bs))
    | inr t ↦ rw t refl
  ]

  -- Every item is kept as often as it was there.
  pub count-sort : (f : A → Bool) (items : List A) → count f (sort items) ≡ count f items
  unfolding sort
  count-sort f [] = refl
  count-sort f (a ∷ rest) = count-put f a (sort rest) ∙ ap (count_if (f a)) (count-sort f rest)

  -- The order is that of the test, if that is one.
  module _ (trans : (a b c : A) → after a b ≡ false → after b c ≡ false → after a c ≡ false)
      (antisym : (a b : A) → after a b ≡ true → after b a ≡ false) where
    after-All :
        (a b : A) (cs : List A)
        → after a b ≡ false
        → All (λ c. after b c ≡ false) cs
        → All (λ c. after a c ≡ false) cs
    after-All a b [] h all = tt
    after-All a b (c ∷ cs) h (k, all) = (trans a b c h k, after-All a b cs h all)

    put-IsSorted : (a : A) (bs : List A) → IsSorted bs → IsSorted (put a bs)
    unfolding put
    put-IsSorted a [] h = (tt, tt)
    put-IsSorted a (b ∷ bs) (all, h) = elim (Bool-cases (after a b)) [
      | inl t ↦
          rw t (put-All (λ c. after b c ≡ false) a bs (antisym a b t) all, put-IsSorted a bs h)
      | inr t ↦ rw t ((t, after-All a b bs t all), (all, h))
    ]

    pub sort-IsSorted : (items : List A) → IsSorted (sort items)
    unfolding sort
    sort-IsSorted [] = tt
    sort-IsSorted (a ∷ rest) = put-IsSorted a (sort rest) (sort-IsSorted rest)

-- A test on what a function gives counts the same before and after `map`.
pub count-map :
    {A B : Type 0} (f : B → Bool) (g : A → B) (items : List A)
    → count f (map g items) ≡ count (λ a. f (g a)) items
count-map f g [] = refl
count-map f g (a ∷ rest) = ap (count_if (f (g a))) (count-map f g rest)
