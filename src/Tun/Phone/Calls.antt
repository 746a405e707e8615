-- ===== src/Tun/Phone/Calls.antt =====
-- The ringing calls of src/tun/phone.rs.
use link_p2p.Prelude.{
  ◌≡◌, refl, Bool, true, false, Option, none, some, List, [], ◌∷◌, ◌++◌, All, Bool-cases, inl, inr,
  ap,
}
use link_p2p.Tun.Phone.{Ringing, take_ringing}

-- Where the call that was taken stood in the list, and what is left of it.
abbrev pub IsTaken :
    {NodeId : Type 0}
    → (NodeId → Bool)
    → List (Ringing NodeId)
    → Option (Ringing NodeId) × List (Ringing NodeId)
    → Type 0
IsTaken {NodeId = NodeId} matches rs (some r, rest) =
    (front : List (Ringing NodeId)) × (back : List (Ringing NodeId)) × (rs ≡ front ++ r ∷ back)
    × (rest ≡ front ++ back)
    × (matches r.peer ≡ true)
    × All (λ q. matches q.peer ≡ false) front
IsTaken matches rs (none, rest) = (rest ≡ rs) × All (λ q. matches q.peer ≡ false) rs

behind :
    {NodeId : Type 0} (matches : NodeId → Bool) (r : Ringing NodeId) (rs : List (Ringing NodeId))
    (o : Option (Ringing NodeId) × List (Ringing NodeId))
    → matches r.peer ≡ false
    → IsTaken matches rs o
    → IsTaken matches (r ∷ rs) (o.0, r ∷ o.1)
behind matches r rs (some q, rest) e (front, back, whole, left, hit, before) =
    (r ∷ front, back, ap (λ l. r ∷ l) whole, ap (λ l. r ∷ l) left, hit, (e, before))
behind matches r rs (none, rest) e (same, before) = (ap (λ l. r ∷ l) same, (e, before))

-- An accept or a reject takes the first ringing call that matches, and leaves the others in their
-- order; when none matches, it takes none and leaves the list as it was.
pub take_ringing-IsTaken :
    {NodeId : Type 0} (matches : NodeId → Bool) (rs : List (Ringing NodeId))
    → IsTaken matches rs (take_ringing matches rs)
unfolding take_ringing
take_ringing-IsTaken matches [] = (refl, tt)
take_ringing-IsTaken matches (r ∷ rs) = elim (Bool-cases (matches r.peer)) [
  | inl e ↦ rw e ([], rs, refl, refl, e, tt)
  | inr e ↦ rw e (behind matches r rs (take_ringing matches rs) e (take_ringing-IsTaken matches rs))
]
