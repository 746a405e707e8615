-- ===== src/Pipe/Halves.antt =====
-- How a pipe of src/pipe.rs ends, and the hello that makes its stream visible.
use link_p2p.Prelude.{ℕ, ◌≡◌, ◌∙◌, ap, [], ◌∷◌, ◌++◌, arith}
use link_p2p.Net.{Bytes}
use link_p2p.Outcome.{ok}
use link_p2p.Wire.{Reader}
use link_p2p.Session.{Tcp}
use link_p2p.Pipe.{stream_hello, write_stream_hello, read_stream_hello}

written :
    (tcp : Tcp) (input : Bytes)
    → write_stream_hello tcp (record { input = input; sent = [] })
      ≡ (ok tt, record { input = input; sent = stream_hello })
unfolding write_stream_hello
written tcp input = ground (arith, tcp.delivers stream_hello [])

-- The hello that one side writes is accepted by the other, which is left at the byte behind it.
pub read_stream_hello-write :
    (tcp : Tcp) (r : Reader) (input rest : Bytes)
    → ((write_stream_hello tcp (record { input = input; sent = [] })).0 ≡ ok tt)
      × (read_stream_hello r
            ((write_stream_hello tcp (record { input = input; sent = [] })).1.sent ++ rest)
          ≡ ok (tt, rest))
unfolding read_stream_hello
read_stream_hello-write tcp r input rest =
    let sent = written tcp input in
    (
      ap (λ p. p.0) sent,
      ap (λ p. read_stream_hello r (p.1.sent ++ rest)) sent
          ∙ ground (arith, r.fills stream_hello rest),
    )

-- No other four bytes are accepted.
pub read_stream_hello-only :
    (r : Reader) (a b c d : ℕ) (rest after : Bytes)
    → read_stream_hello r (a ∷ b ∷ c ∷ d ∷ rest) ≡ ok (tt, after)
    → (a ∷ b ∷ c ∷ d ∷ [] ≡ stream_hello) × (after ≡ rest)
unfolding read_stream_hello
read_stream_hello-only r a b c d rest after h = ground (arith, h, r.fills (a ∷ b ∷ c ∷ d ∷ []) rest)
