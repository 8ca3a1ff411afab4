-- ===== src/Transport/TcpStream.antt =====
-- transport/stream.py, class ModbusTcpStream. A fragment size to read in is not negative.
pub mod Reads
pub mod Contract
pub mod Declared
pub mod Refines
pub mod Delivery
pub mod Sends
use pyomb.Prelude.{
  ℕ, zero, suc, ◌+◌, ◌-◌, Bool, List, [], ◌∷◌, ◌++◌, length, ltb, ◌==◌, if◌then◌else◌,
}
use Prim.Native.Nat.{min}
use pyomb.Prelude.Int.{ℤ}
use pyomb.Errors.{Result, ok, err, network_error, packet_error}
use pyomb.Struct.{Bytes}
use pyomb.Io.{Action, ◌>>=◌, ◌>>◌, lift, pure, raise, catch_os}
use pyomb.Adu.Header
use pyomb.Transport.Fragmenter.{fragment, assemble}
use pyomb.Transport.Socket
use pyomb.Transport.Socket.{Inbox, Outbox, recv}

-- `for fragment in fragments: self.sock.send(fragment)`; the count that `send` returns is not read.
unfoldable pub send_fragments : List Bytes → Action Outbox (Unit {0})
unfolding Socket.send
send_fragments [] = pure tt
send_fragments (f ∷ fs) = do sent ← Socket.send f; send_fragments fs

unfoldable pub send : ℤ → Bytes → Action Outbox (Unit {0})
unfolding send_fragments
send frag_size message =
    catch_os do fragments ← lift (fragment message frag_size); send_fragments fragments

-- `if not chunk: break`, or the chunk goes in front of what the next turns read.
unfoldable pub join_chunk : Bytes → Action Inbox Bytes → Action Inbox Bytes
join_chunk [] rest = pure []
join_chunk (b ∷ t) rest = rest >>= λ more. pure ((b ∷ t) ++ more)

-- `_recv_exactly`, with the count as fuel: each turn reads a byte or more, or is the last.
unfoldable pub recv_exactly : ℕ → ℕ → Action Inbox Bytes
unfolding recv join_chunk
recv_exactly zero pending = pure []
recv_exactly (suc n) pending =
    if pending == 0
    then pure []
    else (recv pending >>= λ chunk. join_chunk chunk (recv_exactly n (pending - length chunk)))

-- `_receive_header`, where `if not header_bytes` stands for the clean close.
unfoldable pub receive_header : Action Inbox Bytes
unfolding recv_exactly
receive_header = do
  header_bytes ← recv_exactly Header.size Header.size
  if length header_bytes == 0
      then pure []
      else if ltb (length header_bytes) Header.size
      then raise network_error
      else pure header_bytes

-- `_pdu_length`; the difference is negative exactly where the field is 0.
unfoldable pub pdu_length : Bytes → Action Inbox ℕ
pdu_length header_bytes = do
  header ← lift (Header.deserialize header_bytes)
  if header.length == 0 then raise packet_error else pure (header.length - 1)

-- `min(self.frag_size, pending) if self.frag_size else pending`
abbrev pub chunk_size : ℕ → ℕ → ℕ
chunk_size frag_size pending = if frag_size == 0 then pending else min frag_size pending

-- `_receive_pdu`, with the declared length as fuel.
unfoldable pub receive_pdu : ℕ → ℕ → ℕ → Action Inbox (List Bytes)
unfolding recv_exactly
receive_pdu frag_size zero pending = pure []
receive_pdu frag_size (suc n) pending = if pending == 0 then pure [] else do
  chunk ← recv_exactly (chunk_size frag_size pending) (chunk_size frag_size pending)
  if ltb (length chunk) (chunk_size frag_size pending)
      then raise network_error
      else do fragments ← receive_pdu frag_size n (pending - length chunk); pure (chunk ∷ fragments)

unfoldable pub receive : ℕ → Action Inbox Bytes
unfolding receive_header pdu_length receive_pdu assemble
receive frag_size = catch_os do
  header_bytes ← receive_header
  if length header_bytes == 0 then pure [] else do
    n ← pdu_length header_bytes
    fragments ← receive_pdu frag_size n n
    pure (assemble (header_bytes ∷ fragments))
