-- ===== src/Table/Lookups.antt =====
-- What a key finds in a map after an insertion or a removal.
use link_p2p.Prelude.{
  ◌≡◌, ap, refl, sym, true, false, none, some, List, [], ◌∷◌, Bool-cases, All, arith, inl, inr,
}
use link_p2p.Table.{Keys, get, insert, remove, contains_key}

pub same_self : {K : Type 0} (keys : Keys K) (k : K) → keys.same k k ≡ true
same_self keys k = (keys.same_iff k k).1 refl

module _ {K V : Type 0} (keys : Keys K) where
  pub get-remove_same : (m : List (K × V)) (k : K) → get keys (remove keys m k) k ≡ none
  unfolding get remove
  get-remove_same [] k = refl
  get-remove_same ((a, v) ∷ m) k = elim (Bool-cases (keys.same a k)) [
    | inl e ↦ rw e (get-remove_same m k)
    | inr e ↦ ground (arith, get-remove_same m k)
  ]

  pub get-remove_other :
      (m : List (K × V)) (k j : K)
      → keys.same k j ≡ false
      → get keys (remove keys m k) j ≡ get keys m j
  unfolding get remove
  get-remove_other [] k j h = refl
  get-remove_other ((a, v) ∷ m) k j h = elim (Bool-cases (keys.same a k)) [
    | inl e ↦
        let same : a ≡ k = (keys.same_iff a k).0 e in
        let apart : keys.same a j ≡ false = rw same h in rw (e, apart) (get-remove_other m k j h)
    | inr e ↦ ground (arith, get-remove_other m k j h)
  ]

  pub get-insert_same : (m : List (K × V)) (k : K) (v : V) → get keys (insert keys m k v) k ≡ some v
  unfolding get insert
  get-insert_same m k v = rw (same_self keys k) refl

  pub get-insert_other :
      (m : List (K × V)) (k j : K) (v : V)
      → keys.same k j ≡ false
      → get keys (insert keys m k v) j ≡ get keys m j
  unfolding get insert
  get-insert_other m k j v h = rw h (get-remove_other m k j h)

  -- What holds of every entry holds of those that a key finds, and outlives both operations.
  pub get-All :
      (P : K × V → Type 0) (m : List (K × V)) (k : K) (v : V)
      → All P m
      → get keys m k ≡ some v
      → P (k, v)
  unfolding get
  get-All P [] k v h e = absurd (ground arith)
  get-All P ((a, w) ∷ m) k v (h, hs) e = elim (Bool-cases (keys.same a k)) [
    | inl t ↦
        let key : a ≡ k = (keys.same_iff a k).0 t in
        let value : w ≡ v = ground arith in rw (sym key, sym value) h
    | inr t ↦ get-All P m k v hs (ground arith)
  ]

  pub All-remove :
      (P : K × V → Type 0) (m : List (K × V)) (k : K) → All P m → All P (remove keys m k)
  unfolding remove
  All-remove P [] k h = tt
  All-remove P ((a, w) ∷ m) k (h, hs) = elim (Bool-cases (keys.same a k)) [
    | inl t ↦ rw t (All-remove P m k hs)
    | inr t ↦ rw t (h, All-remove P m k hs)
  ]

  pub All-insert :
      (P : K × V → Type 0) (m : List (K × V)) (k : K) (v : V)
      → P (k, v)
      → All P m
      → All P (insert keys m k v)
  unfolding insert
  All-insert P m k v h hs = (h, All-remove P m k hs)

  pub contains_key-some :
      (m : List (K × V)) (k : K) (v : V) → get keys m k ≡ some v → contains_key keys m k ≡ true
  contains_key-some m k v h = ap (λ o. elim o [ none ↦ false | some w ↦ true ]) h

  pub contains_key-none :
      (m : List (K × V)) (k : K) → get keys m k ≡ none → contains_key keys m k ≡ false
  contains_key-none m k h = ap (λ o. elim o [ none ↦ false | some w ↦ true ]) h
