-- ===== src/Transport/RtuStream.antt =====
-- transport/rtu.py, class ModbusRtuStream. The registry is the parser's; `receive` runs on fuel, which
-- Transport.RtuStream.Fuel shows to be enough.
pub mod Verified
pub mod Fuel
pub mod Prefixes
pub mod Clean
pub mod Sends
use pyomb.Prelude.{
  ℕ, zero, suc, ◌+◌, ◌-◌, ◌*◌, Bool, true, false, not, ◌&&◌, Option, none, some, List, [], ◌∷◌,
  ◌++◌, length, take, drop, ltb, leb, ◌==◌, if◌then◌else◌,
}
use pyomb.Errors.{Result, ok, err, Error, network_error, packet_error, timeout_error}
use pyomb.Struct.{Bytes}
use pyomb.Io.{Action, ◌>>=◌, ◌>>◌, continue, pure, raise, as_network}
use pyomb.Pdu.Parser.{Registry}
use pyomb.Adu.Rtu.{ModbusRtuPacket, deserialize_packet}
use pyomb.Transport.Port
use pyomb.Transport.Port.{Line, arriving}
use pyomb.Transport.Rtu.{RtuSide, RtuRead, read_rtu_frame, min_rtu_frame}
use pyomb.Transport.Socket
use pyomb.Transport.Socket.{Outbox}

-- MAX_RTU_FRAME
abbrev pub max_rtu_frame : ℕ
max_rtu_frame = 256

-- The attributes, and the two directions of the port.
pub record ModbusRtuStream : Type 0 where
  pub side : RtuSide
  pub echo : Bool
  pub buffer : Bytes
  pub resyncs : ℕ
  pub noise : ℕ
  pub line : Line
  pub outbox : Outbox

abbrev pub with_line : Line → ModbusRtuStream → ModbusRtuStream
with_line line t = record {
  side = t.side;
  echo = t.echo;
  buffer = t.buffer;
  resyncs = t.resyncs;
  noise = t.noise;
  line = line;
  outbox = t.outbox;
}

abbrev pub with_buffer : Bytes → ModbusRtuStream → ModbusRtuStream
with_buffer buffer t = record {
  side = t.side;
  echo = t.echo;
  buffer = buffer;
  resyncs = t.resyncs;
  noise = t.noise;
  line = t.line;
  outbox = t.outbox;
}

abbrev pub with_outbox : Outbox → ModbusRtuStream → ModbusRtuStream
with_outbox outbox t = record {
  side = t.side;
  echo = t.echo;
  buffer = t.buffer;
  resyncs = t.resyncs;
  noise = t.noise;
  line = t.line;
  outbox = outbox;
}

abbrev pub with_noise : ℕ → ModbusRtuStream → ModbusRtuStream
with_noise noise t = record {
  side = t.side;
  echo = t.echo;
  buffer = t.buffer;
  resyncs = t.resyncs;
  noise = noise;
  line = t.line;
  outbox = t.outbox;
}

-- `_read`
unfoldable pub port_read : ℕ → Action ModbusRtuStream Bytes
port_read size t = let (r, left) = Port.read size t.line in (as_network r, with_line left t)

-- `if not chunk: break`, or the chunk goes in front of what the next turns read.
unfoldable pub join_chunk : Bytes → Action ModbusRtuStream Bytes → Action ModbusRtuStream Bytes
join_chunk [] rest = pure []
join_chunk (b ∷ t) rest = rest >>= λ more. pure ((b ∷ t) ++ more)

-- `_read_exactly`, with the count as fuel.
unfoldable pub read_exactly : ℕ → ℕ → Action ModbusRtuStream Bytes
unfolding port_read join_chunk
read_exactly zero pending = pure []
read_exactly (suc n) pending =
    if pending == 0
    then pure []
    else (port_read pending >>= λ chunk. join_chunk chunk (read_exactly n (pending - length chunk)))

-- The loop of `_drain`, on fuel; a turn that goes on takes a byte or more off the line.
unfoldable pub drain_line : ℕ → Action ModbusRtuStream (Unit {0})
unfolding port_read
drain_line zero = pure tt
drain_line (suc n) = do
  chunk ← port_read max_rtu_frame
  if length chunk == 0 then pure tt else drain_line n

unfoldable pub drain : Action ModbusRtuStream (Unit {0})
unfolding drain_line
drain t = continue (λ done u. (ok tt, with_buffer [] u)) (drain_line (suc (arriving t.line)) t)

-- `heard != message`
unfoldable pub same_bytes : Bytes → Bytes → Bool
same_bytes [] [] = true
same_bytes [] (y ∷ ys) = false
same_bytes (x ∷ xs) [] = false
same_bytes (x ∷ xs) (y ∷ ys) = (x == y) && same_bytes xs ys

-- `self.port.write(message)` in its `try`
unfoldable pub port_write : Bytes → Action ModbusRtuStream ℕ
port_write message t =
    let (r, left) = Socket.send message t.outbox in (as_network r, with_outbox left t)

-- What `send` does with the echo that it hears.
unfoldable pub check_echo : Bytes → Bytes → Action ModbusRtuStream (Unit {0})
unfolding same_bytes drain
check_echo message heard =
    if same_bytes heard message then pure tt else (drain >> raise network_error)

unfoldable pub send : Bytes → Action ModbusRtuStream (Unit {0})
unfolding port_write read_exactly check_echo
send message t =
    continue
      (λ written.
        if written == length message
        then if t.echo
          then (read_exactly (length message) (length message) >>= check_echo message)
          else pure tt
        else raise network_error)
      (port_write message t)

-- `_discard`
unfoldable pub discard : ModbusRtuStream → ModbusRtuStream
discard t = record {
  side = t.side;
  echo = t.echo;
  buffer = drop 1 t.buffer;
  resyncs = t.resyncs + 1;
  noise = t.noise + 1;
  line = t.line;
  outbox = t.outbox;
}

-- `_take`
unfoldable pub take_bytes : ℕ → Action ModbusRtuStream Bytes
take_bytes n t = (ok (take n t.buffer), with_buffer (drop n t.buffer) t)

-- The end of `_receive_after_silence`
unfoldable pub give_up : Action ModbusRtuStream Bytes
give_up t = (err packet_error, with_buffer [] t)

-- A turn of its loop: a frame, or the next turn behind one byte less.
unfoldable pub scan_turn :
    RtuRead → Option ModbusRtuPacket → Action ModbusRtuStream Bytes → Action ModbusRtuStream Bytes
unfolding take_bytes discard
scan_turn v (some packet) next t = take_bytes v.length t
scan_turn v none next t = next (discard t)

-- Its loop, with the number of bytes held as fuel.
unfoldable pub scan : ℕ → Registry → Action ModbusRtuStream Bytes
unfolding give_up scan_turn
scan zero r t = give_up t
scan (suc n) r t =
    let v = read_rtu_frame r t.buffer t.side in
    if ltb (length t.buffer) min_rtu_frame then give_up t else scan_turn v v.packet (scan n r) t

unfoldable pub receive_after_silence : Registry → Action ModbusRtuStream Bytes
unfolding scan
receive_after_silence r t =
    if length t.buffer == 0 then (err timeout_error, t) else scan (length t.buffer) r t

-- `self._buffer.extend(chunk)`, or what follows no chunk.
unfoldable pub extend :
    {A : Type 0}
    → Action ModbusRtuStream A
    → Action ModbusRtuStream A
    → Bytes
    → Action ModbusRtuStream A
extend quiet next [] t = quiet t
extend quiet next (b ∷ s) t = next (with_buffer (t.buffer ++ (b ∷ s)) t)

-- The loop of `_receive_by_silence`, which each turn brings a byte or more nearer the largest frame.
unfoldable pub fill : ℕ → Action ModbusRtuStream (Unit {0})
unfolding port_read extend
fill zero t = (ok tt, t)
fill (suc n) t =
    if ltb (length t.buffer) max_rtu_frame
    then continue (extend (pure tt) (fill n)) (port_read (max_rtu_frame - length t.buffer) t)
    else (ok tt, t)

-- The `try` behind the loop.
unfoldable pub adjudicate : Registry → Result ModbusRtuPacket → Action ModbusRtuStream Bytes
unfolding take_bytes receive_after_silence
adjudicate r (ok packet) t = take_bytes (length t.buffer) t
adjudicate r (err e) t = receive_after_silence r t

unfoldable pub receive_by_silence : Registry → Action ModbusRtuStream Bytes
unfolding fill adjudicate
receive_by_silence r t =
    continue (λ done u. adjudicate r (deserialize_packet true u.buffer) u) (fill max_rtu_frame t)

-- A turn of the loop of `receive` on what the buffer reads as.
unfoldable pub receive_turn :
    Registry
    → RtuRead
    → Option ModbusRtuPacket
    → Action ModbusRtuStream Bytes
    → Action ModbusRtuStream Bytes
unfolding take_bytes receive_by_silence discard port_read extend receive_after_silence
receive_turn r v (some packet) next t = take_bytes v.length t
receive_turn r v none next t =
    if not v.sizable && (t.noise == 0)
    then receive_by_silence r t
    else if not v.incomplete
    then next (discard t)
    else continue (extend (receive_after_silence r) next) (port_read v.wanted t)

unfoldable pub receive_loop : ℕ → Registry → Action ModbusRtuStream Bytes
unfolding receive_turn
receive_loop zero r t = (err timeout_error, t)
receive_loop (suc n) r t =
    let v = read_rtu_frame r t.buffer t.side in receive_turn r v v.packet (receive_loop n r) t

-- A turn that goes on drops a byte of the buffer, or moves one or more there from the line.
abbrev pub fuel : ModbusRtuStream → ℕ
fuel t = suc (2 * arriving t.line + length t.buffer)

unfoldable pub receive : Registry → Action ModbusRtuStream Bytes
unfolding receive_loop
receive r t = receive_loop (fuel t) r (with_noise 0 t)
