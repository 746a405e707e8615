-- ===== src/Session.antt =====
-- A TCP connection that the program reads and writes: what the client still sends, and what was
-- sent to it. An error leaves what was sent before it.
use link_p2p.Prelude.{◌≡◌, Option, none, some, ◌++◌}
use link_p2p.Net.{Bytes}
use link_p2p.Outcome.{Msg, io_error, Error, Result, ok, err, root, context}
use link_p2p.Wire.{Reader, Read}

pub record Conn : Type 0 where
  pub input : Bytes
  pub sent : Bytes

-- tokio's reader and `write_all` on the connection. `write_all` takes what was sent before and
-- gives what was sent after, `none` on an I/O error; a client that stays connected gets it all.
pub record Tcp : Type 0 where
  pub reader : Reader
  pub write_all : Bytes → Bytes → Option Bytes
  pub delivers : (bs sent : Bytes) → write_all bs sent ≡ some (sent ++ bs)

abbrev pub Session : Type 0 → Type 0
Session A = Conn → Result A × Conn

abbrev pub continue : {A B : Type 0} → Result A × Conn → (A → Session B) → Result B × Conn
continue (ok a, c) f = f a c
continue (err e, c) f = (err e, c)

infixl 5 ◌>>=◌ ◌>>◌
abbrev pub ◌>>=◌ : {A B : Type 0} → Session A → (A → Session B) → Session B
◌>>=◌ m f c = continue (m c) f

abbrev pub ◌>>◌ : {A B : Type 0} → Session A → Session B → Session B
m >> k = m >>= λ _. k

abbrev pub pure : {A : Type 0} → A → Session A
pure a c = (ok a, c)

abbrev pub fail : {A : Type 0} → Error → Session A
fail e c = (err e, c)

abbrev pub after_read : {A : Type 0} → Result (A × Bytes) → Conn → Result A × Conn
after_read (ok (a, rest)) c = (ok a, record c { input = rest })
after_read (err e) c = (err e, c)

abbrev pub reads : {A : Type 0} → Read A → Session A
reads m c = after_read (m c.input) c

-- `write_all(…).await.context(m)?`
abbrev pub write_context : Tcp → Msg → Bytes → Session (Unit {0})
write_context tcp m bs c = elim (tcp.write_all bs c.sent) [
  | none ↦ (err (context m (root io_error)), c)
  | some sent ↦ (ok tt, record c { sent = sent })
]

-- `write_all(…).await.ok()`
abbrev pub write_ok : Tcp → Bytes → Session (Unit {0})
write_ok tcp bs c = elim (tcp.write_all bs c.sent) [
  | none ↦ (ok tt, c)
  | some sent ↦ (ok tt, record c { sent = sent })
]
