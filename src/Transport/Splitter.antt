-- ===== src/Transport/Splitter.antt =====
-- transport/rtu.py, class ModbusRtuSplitter: whole frames cut out of the bytes pushed so far.
-- A loop of the code runs on fuel here, the number of bytes held: each turn removes one or more.
pub mod Scan
pub mod Accounts
pub mod Clean
use pyomb.Prelude.{
  ℕ, zero, suc, ◌+◌, Bool, true, false, Option, none, some, List, [], ◌∷◌, ◌++◌, length, drop, ltb,
  if◌then◌else◌,
}
use pyomb.Struct.{Bytes}
use pyomb.Pdu.Parser.{Registry}
use pyomb.Adu.Rtu.{ModbusRtuPacket}
use pyomb.Transport.Rtu.{RtuSide, RtuRead, read_rtu_frame, min_rtu_frame}

pub record ModbusRtuSplitter : Type 0 where
  pub side : RtuSide
  pub buffer : Bytes
  pub resyncs : ℕ

-- `__init__`
unfoldable pub init : RtuSide → ModbusRtuSplitter
init side = record { side = side; buffer = []; resyncs = 0 }

unfoldable pub pending : ModbusRtuSplitter → ℕ
pending t = length t.buffer

unfoldable pub reset : ModbusRtuSplitter → ModbusRtuSplitter
reset t = record { side = t.side; buffer = []; resyncs = 0 }

-- `self._buffer.extend(data)`
abbrev pub extend : Bytes → ModbusRtuSplitter → ModbusRtuSplitter
extend stream t = record { side = t.side; buffer = t.buffer ++ stream; resyncs = t.resyncs }

-- `del self._buffer[:length]`
abbrev pub consume : ℕ → ModbusRtuSplitter → ModbusRtuSplitter
consume n t = record { side = t.side; buffer = drop n t.buffer; resyncs = t.resyncs }

-- `_discard`
abbrev pub discard : ModbusRtuSplitter → ModbusRtuSplitter
discard t = record { side = t.side; buffer = drop 1 t.buffer; resyncs = t.resyncs + 1 }

abbrev pub read : Registry → ModbusRtuSplitter → RtuRead
read r t = read_rtu_frame r t.buffer t.side

-- One turn of the loop of `_take`: what it returns, or what the next turn returns.
unfoldable pub take_turn :
    Option ModbusRtuPacket
    → RtuRead
    → ModbusRtuSplitter
    → Option ModbusRtuPacket × ModbusRtuSplitter
    → Option ModbusRtuPacket × ModbusRtuSplitter
take_turn (some packet) v t rest = (some packet, consume v.length t)
take_turn none v t rest = if v.incomplete then (none, t) else rest

-- `_take`
unfoldable pub take_frame :
    ℕ → Registry → ModbusRtuSplitter → Option ModbusRtuPacket × ModbusRtuSplitter
unfolding take_turn
take_frame zero r t = (none, t)
take_frame (suc n) r t =
    let rest = take_frame n r (discard t) in
    if ltb (length t.buffer) min_rtu_frame
    then (none, t)
    else take_turn (read r t).packet (read r t) t rest

-- `found.append(packet)`, or the end of the loop.
unfoldable pub collect :
    Option ModbusRtuPacket
    → ModbusRtuSplitter
    → List ModbusRtuPacket × ModbusRtuSplitter
    → List ModbusRtuPacket × ModbusRtuSplitter
collect none t rest = ([], t)
collect (some packet) t rest = (packet ∷ rest.0, rest.1)

unfoldable pub push_loop :
    ℕ → Registry → ModbusRtuSplitter → List ModbusRtuPacket × ModbusRtuSplitter
unfolding take_frame collect
push_loop zero r t = ([], t)
push_loop (suc n) r t =
    let taken = take_frame (suc (length t.buffer)) r t in
    collect taken.0 taken.1 (push_loop n r taken.1)

unfoldable pub push :
    Registry → Bytes → ModbusRtuSplitter → List ModbusRtuPacket × ModbusRtuSplitter
unfolding push_loop
push r stream t = push_loop (suc (length (t.buffer ++ stream))) r (extend stream t)
