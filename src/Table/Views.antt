-- ===== src/Table/Views.antt =====
-- A map of src/tun seen as the function that looks a key up.
use link_p2p.Prelude.{
  ◌≡◌, refl, sym, fun_ext, false, Option, none, some, List, Bool-cases, inl, inr, if◌then◌else◌,
}
use link_p2p.Table.{Keys, get, insert, remove}
use link_p2p.Table.Lookups.{get-insert_same, get-insert_other, get-remove_same, get-remove_other}

module _ {K V : Type 0} (keys : Keys K) where
  -- The function that differs from `f` at `k` only.
  unfoldable pub update : (K → Option V) → K → Option V → K → Option V
  update f k v j = if keys.same k j then v else f j

  insert_at :
      (m : List (K × V)) (k j : K) (v : V)
      → get keys (insert keys m k v) j ≡ update (get keys m) k (some v) j
  unfolding update
  insert_at m k j v = elim (Bool-cases (keys.same k j)) [
    | inl e ↦
        let key : k ≡ j = (keys.same_iff k j).0 e in
        rw e (rw (sym key) (get-insert_same keys m k v))
    | inr e ↦ rw e (get-insert_other keys m k j v e)
  ]

  remove_at :
      (m : List (K × V)) (k j : K) → get keys (remove keys m k) j ≡ update (get keys m) k none j
  unfolding update
  remove_at m k j = elim (Bool-cases (keys.same k j)) [
    | inl e ↦
        let key : k ≡ j = (keys.same_iff k j).0 e in rw e (rw (sym key) (get-remove_same keys m k))
    | inr e ↦ rw e (get-remove_other keys m k j e)
  ]

  -- What the operations do to a map is an update of the function.
  pub get-insert :
      (m : List (K × V)) (k : K) (v : V)
      → get keys (insert keys m k v) ≡ update (get keys m) k (some v)
  get-insert m k v = fun_ext (λ j. insert_at m k j v)

  pub get-remove :
      (m : List (K × V)) (k : K) → get keys (remove keys m k) ≡ update (get keys m) k none
  get-remove m k = fun_ext (λ j. remove_at m k j)

  -- An update at another key is not seen.
  pub update_other :
      (f : K → Option V) (k j : K) (v : Option V) → keys.same k j ≡ false → update f k v j ≡ f j
  unfolding update
  update_other f k j v h = rw h refl
