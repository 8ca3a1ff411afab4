-- ===== src/Transport/Socket.antt =====
-- What transport/stream.py relies on of Python's socket: `recv` returns what has arrived, at most the
-- bytes asked for, nothing once the peer has closed, or it raises OSError; `send` takes some of the
-- bytes that it is given and says how many, or it raises OSError.
use pyomb.Prelude.{ℕ, List, [], ◌∷◌, ◌++◌, Option, none, some, length, take, drop}
use pyomb.Errors.{ok, err, os_error}
use pyomb.Struct.{Bytes}
use pyomb.Io.{Action}

-- One or more bytes that arrive together, or a call that fails. After the last the peer has closed.
pub data Arrival : Type 0 where
  bytes : ℕ → Bytes → Arrival
  fails : Arrival

abbrev pub Inbox : Type 0
Inbox = List Arrival

-- What a `recv` leaves of the bytes that arrived together.
abbrev pub put_back : Bytes → Inbox → Inbox
put_back [] q = q
put_back (b ∷ t) q = bytes b t ∷ q

unfoldable pub recv : ℕ → Action Inbox Bytes
recv n [] = (ok [], [])
recv n (fails ∷ q) = (err os_error, q)
recv n (bytes b t ∷ q) = (ok (take n (b ∷ t)), put_back (drop n (b ∷ t)) q)

-- What the peer has been sent, and how many bytes at most each next call takes, or that it fails.
-- After the last a call takes all that it is given.
pub record Outbox : Type 0 where
  pub sent : Bytes
  pub room : List (Option ℕ)

unfoldable pub send : Bytes → Action Outbox ℕ
send s o = elim o.room [
  | [] ↦ (ok (length s), record { sent = o.sent ++ s; room = [] })
  | none ∷ room ↦ (err os_error, record { sent = o.sent; room = room })
  | some n ∷ room ↦ (ok (length (take n s)), record { sent = o.sent ++ take n s; room = room })
]

-- The bytes that arrive before a call fails or the peer closes, and what stops them:
abbrev pub held : Inbox → Bytes
held [] = []
held (fails ∷ q) = []
held (bytes b t ∷ q) = (b ∷ t) ++ held q

-- `none` where the peer closes, or what comes after the call that fails.
abbrev pub stop : Inbox → Option Inbox
stop [] = none
stop (fails ∷ q) = some q
stop (bytes b t ∷ q) = stop q

abbrev pub State : Type 0
State = Bytes × Option Inbox

abbrev pub view : Inbox → State
view q = (held q, stop q)
