-- ===== src/Endpoint.antt =====
-- iroh's `EndpointId`, an Ed25519 public key. Its operations are parameters, with the documented
-- laws that the program relies on: 32 bytes that read back, and a strict total order.
pub mod Keys
use link_p2p.Prelude.{ℕ, ◌≡◌, ◌≢◌, ◌↔◌, ◌⊎◌, Bool, true, false, Option, none, some, length}
use link_p2p.Net.{Bytes}

pub record Endpoints (NodeId : Type 0) : Type 0 where
  pub as_bytes : NodeId → Bytes
  pub from_bytes : Bytes → Option NodeId
  pub same : NodeId → NodeId → Bool
  pub less : NodeId → NodeId → Bool
  pub as_bytes_length : (i : NodeId) → length (as_bytes i) ≡ 32
  pub from_as_bytes : (i : NodeId) → from_bytes (as_bytes i) ≡ some i
  pub same_iff : (i j : NodeId) → (same i j ≡ true) ↔ (i ≡ j)
  pub less_self : (i : NodeId) → less i i ≡ false
  pub less_other : (i j : NodeId) → i ≢ j → less i j ≡ true → less j i ≡ false
  pub less_total : (i j : NodeId) → i ≢ j → less i j ≡ false → less j i ≡ true
