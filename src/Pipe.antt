-- ===== src/Pipe.antt =====
-- src/pipe.rs: the bytes between a local connection and a QUIC stream. A copy counts the bytes that it
-- moved, or fails.
pub mod Halves
use link_p2p.Prelude.{
  ℕ, Bool, true, false, not, Option, none, some, List, [], ◌∷◌, bytes_eq, get_or, if◌then◌else◌,
}
use link_p2p.Net.{Bytes}
use link_p2p.Outcome.{Msg, Error, Result, ok, err, root, with_context, io_error}
use link_p2p.Wire.{Reader, Read, ◌>>=◌, ◌>>◌, pure, fail, io_context}
use link_p2p.Session.{Tcp, Session, write_context}

-- "LPF1"
abbrev pub stream_hello : Bytes
stream_hello = b'L' ∷ b'P' ∷ b'F' ∷ b'1' ∷ []

unfoldable pub write_stream_hello : Tcp → Session (Unit {0})
write_stream_hello tcp = write_context tcp Msg.writing_hello stream_hello

unfoldable pub read_stream_hello : Reader → Read (Unit {0})
read_stream_hello r = do
  hello ← λ s. io_context Msg.reading_hello (r.read_exact 4 s)
  if bytes_eq hello stream_hello
      then pure tt
      else fail (
          root (
            Msg.bad_hello (get_or hello 0 0) (get_or hello 1 0) (get_or hello 2 0)
              (get_or hello 3 0)))

pub record PipeOutcome : Type 0 where
  pub sent : ℕ
  pub recvd : ℕ
  pub result : Result (Unit {0})

-- What is done to the other direction: nothing, `recv.stop` or `send.reset`.
pub data Teardown : Type 0 where
  nothing stop_recv reset_send : Teardown

abbrev pub count_of : Result ℕ → ℕ
count_of (ok n) = n
count_of (err e) = 0

abbrev pub both : Result ℕ → Result ℕ → Result (Unit {0})
both (ok _) (ok _) = ok tt
both (err e) _ = err e
both (ok _) (err e) = err e

unfoldable pub merge_pipe_results : Result ℕ → Result ℕ → PipeOutcome
merge_pipe_results a b = record { sent = count_of a; recvd = count_of b; result = both a b }

abbrev pub is_err : Result ℕ → Bool
is_err (ok n) = false
is_err (err e) = true

-- A direction that comes to its end: client to remote with the stream finished, or remote to client.
pub data Ended : Type 0 where
  client remote : Result ℕ → Ended

abbrev pub finished : Result ℕ → Result (Unit {0}) → Result ℕ
finished (ok n) (ok _) = ok n
finished (ok n) (err e) = err e
finished (err e) _ = err e

-- The first future: the copy, then `send.finish()`.
unfoldable pub client_to_remote : Result ℕ → Result (Unit {0}) → Result ℕ
client_to_remote copy finish =
    finished (with_context Msg.copying copy) (with_context Msg.finishing_send finish)

abbrev pub Results : Type 0
Results = Option (Result ℕ) × Option (Result ℕ)

-- The `select!` loop, by the ends in the order in which they come: `none` while it still waits. A
-- direction that has ended is not polled again.
unfoldable pub pipe_loop : Results → List Ended → Option Results
pipe_loop (some a, some b) es = some (some a, some b)
pipe_loop (none, b) [] = none
pipe_loop (some a, none) [] = none
pipe_loop (none, b) (client r ∷ es) =
    let rest = pipe_loop (some r, b) es in if is_err r then some (some r, b) else rest
pipe_loop (none, none) (remote r ∷ es) =
    let rest = pipe_loop (none, some r) es in if is_err r then some (none, some r) else rest
pipe_loop (none, some b) (remote r ∷ es) = pipe_loop (none, some b) es
pipe_loop (some a, none) (client r ∷ es) = pipe_loop (some a, none) es
pipe_loop (some a, none) (remote r ∷ es) =
    let rest = pipe_loop (some a, some r) es in if is_err r then some (some a, some r) else rest

abbrev pub alone : Result ℕ → PipeOutcome
alone (ok _) = record { sent = 0; recvd = 0; result = ok tt }
alone (err e) = record { sent = 0; recvd = 0; result = err e }

-- The match behind the loop.
unfoldable pub pipe_outcome : Results → PipeOutcome × Teardown
unfolding merge_pipe_results
pipe_outcome (some a, some b) = (merge_pipe_results a b, nothing)
pipe_outcome (some a, none) = (alone a, stop_recv)
pipe_outcome (none, some b) = (alone b, reset_send)
pipe_outcome (none, none) = (record { sent = 0; recvd = 0; result = ok tt }, nothing)

unfoldable pub pipe_halves : List Ended → Option (PipeOutcome × Teardown)
unfolding pipe_loop pipe_outcome
pipe_halves ends = elim (pipe_loop (none, none) ends) [
  | none ↦ none
  | some rs ↦ some (pipe_outcome rs)
]
