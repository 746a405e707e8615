-- ===== src/Tests/Stubs.antt =====
-- Concrete instances of the libraries that the program calls: JSON of some requests and responses, a
-- hash that is always zero, a connection that delivers what is sent, and a cell that holds its value.
use link_p2p.Contacts.{IdText, has_dash}
use link_p2p.ShortCode.{Text}
use link_p2p.Prelude.{
  ℕ, ◌+◌, ◌-◌, ltb, true, if◌then◌else◌, ◌≡◌, refl, Option, none, some, [], ◌∷◌, ◌++◌, arith, ◌==◌,
  ==_iff,
}
use link_p2p.Net.{Bytes, Ipv4Addr, Ipv6Addr, ipv4}
use link_p2p.Wire.Slice.{slice_reader}
use link_p2p.Session.{Tcp}
use link_p2p.Table.{Keys, ArcSwap}
use link_p2p.TunCtl.{Json, CtlRequest, CtlResponse}

abbrev pub write_tun_request : CtlRequest → Option Bytes
write_tun_request CtlRequest.status = some []
write_tun_request (CtlRequest.call to) = some (0 ∷ to)
write_tun_request _ = none

abbrev pub read_tun_request : Bytes → Option CtlRequest
read_tun_request [] = some CtlRequest.status
read_tun_request (b ∷ to) = some (CtlRequest.call to)

pub tun_request_back :
    (a : CtlRequest) (b : Bytes) → write_tun_request a ≡ some b → read_tun_request b ≡ some a
tun_request_back CtlRequest.status [] h = refl
tun_request_back CtlRequest.status (x ∷ b) h = absurd (ground (arith, h))
tun_request_back (CtlRequest.call to) [] h = absurd (ground (arith, h))
tun_request_back (CtlRequest.call to) (x ∷ b) h = ground (arith, h)
tun_request_back CtlRequest.peers b h = absurd (ground (arith, h))
tun_request_back CtlRequest.shutdown b h = absurd (ground (arith, h))
tun_request_back (CtlRequest.accept to) b h = absurd (ground (arith, h))
tun_request_back (CtlRequest.reject to) b h = absurd (ground (arith, h))

abbrev pub tun_requests : Json CtlRequest
tun_requests = record {
  to_vec = write_tun_request;
  from_slice = read_tun_request;
  reads_back = tun_request_back;
}

abbrev pub write_tun_response : CtlResponse → Option Bytes
write_tun_response CtlResponse.done = some (123 ∷ 125 ∷ [])
write_tun_response _ = none

pub tun_response_back :
    (a : CtlResponse) (b : Bytes) → write_tun_response a ≡ some b → some CtlResponse.done ≡ some a
tun_response_back CtlResponse.done b h = refl
tun_response_back (CtlResponse.status_is r) b h = absurd (ground (arith, h))
tun_response_back (CtlResponse.peers_are ps) b h = absurd (ground (arith, h))
tun_response_back (CtlResponse.error c m) b h = absurd (ground (arith, h))

abbrev pub tun_responses : Json CtlResponse
tun_responses = record {
  to_vec = write_tun_response;
  from_slice = λ b. some CtlResponse.done;
  reads_back = tun_response_back;
}

abbrev pub stub_tcp : Tcp
stub_tcp = record {
  reader = slice_reader;
  write_all = λ bs sent. some (sent ++ bs);
  delivers = λ bs sent. refl;
}

abbrev pub plain_swap : (A : Type 0) → ArcSwap A
plain_swap A = record {
  Cell = A;
  load = λ c. c;
  rcu = λ f c. (c, f c);
  rcu-returns = λ f c. refl;
  rcu-stores = λ f c. refl;
}

-- Peers of the mesh: 172.24.0.n and fd24:ac18::n.
abbrev pub mesh4 : ℕ → Ipv4Addr
mesh4 n = ipv4 172 24 0 n

abbrev pub mesh6 : ℕ → Ipv6Addr
mesh6 n = record {
  octets = 0xfd ∷ 0x24 ∷ 0xac ∷ 0x18 ∷ 0 ∷ 0 ∷ 0 ∷ 0 ∷ 0 ∷ 0 ∷ 0 ∷ 0 ∷ 0 ∷ 0 ∷ 0 ∷ n ∷ [];
}

-- The text of the id n is the one code point n + 256.
abbrev pub read_number : Text → Option ℕ
read_number (c ∷ []) = if ltb c 256 then none else some (c - 256)
read_number _ = none

pub number_back : (i : ℕ) → read_number ((i + 256) ∷ []) ≡ some i
number_back i = ground arith

pub number_no_dash : (t : Text) → has_dash t ≡ true → read_number t ≡ none
unfolding has_dash
number_no_dash [] h = refl
number_no_dash (c ∷ []) h = ground (arith, h)
number_no_dash (c ∷ d ∷ t) h = refl

abbrev pub number_texts : IdText ℕ
number_texts = record {
  to_text = λ i. (i + 256) ∷ [];
  from_text = read_number;
  reads_back = number_back;
  no_dash = number_no_dash;
}

abbrev pub numbers : Keys ℕ
numbers = record { same = λ a b. a == b; same_iff = ==_iff }
