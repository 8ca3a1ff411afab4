-- ===== src/Transport/TcpStream/Contract.antt =====
-- What `receive` of transport/stream.py promises, with no word on arrivals or on the size to read in:
-- a frame of the length that its header declares, of the bytes held, or an error.
use pyomb.Prelude.{
  ℕ, ◌+◌, ◌-◌, Option, none, some, [], length, take, drop, leb, ◌==◌, if◌then◌else◌,
}
use pyomb.Errors.{Result, ok, err, network_error, packet_error, ◌>>=◌}
use pyomb.Struct.{Bytes}
use pyomb.Adu.Header
use pyomb.Transport.Socket.{Inbox, State, view}

-- The peer closed part way through, or a call failed: a network error either way.
unfoldable pub lost : Option Inbox → Result Bytes × State
lost none = (err network_error, ([], none))
lost (some q) = (err network_error, view q)

-- The bytes of PDU that a header declares.
unfoldable pub declared : Bytes → Result ℕ
declared h = do
  header ← Header.deserialize h
  if header.length == 0 then err packet_error else ok (header.length - 1)

unfoldable pub frame : Result ℕ → State → Result Bytes × State
unfolding lost
frame (err e) (s, q) = (err e, (drop Header.size s, q))
frame (ok n) (s, q) =
    let end = Header.size + n in
    if leb end (length s) then (ok (take end s), (drop end s, q)) else lost q

-- A clean close, where nothing is held and the peer closed.
unfoldable pub no_frame : State → Result Bytes × State
unfolding lost
no_frame ([], none) = (ok [], ([], none))
no_frame (s, q) = lost q

unfoldable pub receives : State → Result Bytes × State
unfolding frame declared no_frame
receives (s, q) =
    if leb Header.size (length s)
    then frame (declared (take Header.size s)) (s, q)
    else no_frame (s, q)
