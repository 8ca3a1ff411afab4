-- ===== src/Transport/RtuStream/Verified.antt =====
-- receive of ModbusRtuStream, transport/rtu.py: what it returns.
use pyomb.Prelude.{
  ℕ, zero, suc, ◌≡◌, refl, sym, ap, ◌∙◌, Bool, true, false, not, ◌&&◌, Option, none, some, [], ◌∷◌,
  length, take, ltb, ◌==◌, if◌then◌else◌, append-nil, take-length,
}
use pyomb.Errors.{Result, ok, err}
use pyomb.Struct.{Bytes}
use pyomb.Io.{Action, continue}
use pyomb.Pdu.Parser.{Registry}
use pyomb.Adu.Rtu.{ModbusRtuPacket, deserialize_packet}
use pyomb.Transport.Rtu.{RtuSide, RtuRead, read_rtu_frame, min_rtu_frame}
use pyomb.Transport.Rtu.Reads.{read_rtu_frame-Framed}
use pyomb.Transport.RtuStream.{
  ModbusRtuStream, with_noise, take_bytes, give_up, discard, scan_turn, scan, receive_after_silence,
  extend, fill, port_read, adjudicate, receive_by_silence, receive_turn, receive_loop, receive,
  fuel, max_rtu_frame,
}

-- A frame that ModbusRtuPacket reads with the checksum verified.
abbrev pub IsVerified : Bytes → Type 0
IsVerified s = (p : ModbusRtuPacket) × (deserialize_packet true s ≡ ok p)

-- An outcome that gives such a frame, or raises.
abbrev pub IsSound : Result Bytes × ModbusRtuStream → Type 0
IsSound (ok s, t) = IsVerified s
IsSound (err e, t) = Unit

-- A reading whose packet, if any, stands in such a frame at the head of the buffer.
abbrev Reads : Bytes → RtuRead → Type 0
Reads s v = (p : ModbusRtuPacket) → v.packet ≡ some p → IsVerified (take v.length s)

read_rtu_frame-Reads :
    (r : Registry) (s : Bytes) (side : RtuSide) → Reads s (read_rtu_frame r s side)
read_rtu_frame-Reads r s side p h = (p, (read_rtu_frame-Framed r s side p h).accepted)

taken-IsSound :
    (t : ModbusRtuStream) (n : ℕ) → IsVerified (take n t.buffer) → IsSound (take_bytes n t)
unfolding take_bytes
taken-IsSound t n h = h

scan_turn-IsSound :
    (v : RtuRead) (q : Option ModbusRtuPacket) (next : Action ModbusRtuStream Bytes)
    (t : ModbusRtuStream)
    → ((p : ModbusRtuPacket) → q ≡ some p → IsVerified (take v.length t.buffer))
    → ((u : ModbusRtuStream) → IsSound (next u))
    → IsSound (scan_turn v q next t)
unfolding scan_turn
scan_turn-IsSound v (some p) next t h g = taken-IsSound t v.length (h p refl)
scan_turn-IsSound v none next t h g = g (discard t)

if-IsSound :
    (b : Bool) (x y : Result Bytes × ModbusRtuStream)
    → IsSound x
    → IsSound y
    → IsSound (if b then x else y)
if-IsSound true x y h g = h
if-IsSound false x y h g = g

scan-IsSound : (n : ℕ) (r : Registry) (t : ModbusRtuStream) → IsSound (scan n r t)
unfolding scan give_up
scan-IsSound zero r t = tt
scan-IsSound (suc n) r t = if-IsSound (ltb (length t.buffer) min_rtu_frame) (give_up t) _ tt (
    scan_turn-IsSound (read_rtu_frame r t.buffer t.side) (read_rtu_frame r t.buffer t.side).packet
      (scan n r) t (read_rtu_frame-Reads r t.buffer t.side) (scan-IsSound n r))

receive_after_silence-IsSound :
    (r : Registry) (t : ModbusRtuStream) → IsSound (receive_after_silence r t)
unfolding receive_after_silence
receive_after_silence-IsSound r t =
    if-IsSound (length t.buffer == 0) _ (scan (length t.buffer) r t) tt
      (scan-IsSound (length t.buffer) r t)

extend-IsSound :
    (quiet next : Action ModbusRtuStream Bytes) (o : Result Bytes × ModbusRtuStream)
    → ((u : ModbusRtuStream) → IsSound (quiet u))
    → ((u : ModbusRtuStream) → IsSound (next u))
    → IsSound (continue (extend quiet next) o)
unfolding extend
extend-IsSound quiet next (err e, t) h g = tt
extend-IsSound quiet next (ok [], t) h g = h t
extend-IsSound quiet next (ok (b ∷ s), t) h g = g _

adjudicate-IsSound :
    (r : Registry) (d : Result ModbusRtuPacket) (t : ModbusRtuStream)
    → deserialize_packet true t.buffer ≡ d
    → IsSound (adjudicate r d t)
unfolding adjudicate
adjudicate-IsSound r (err e) t h = receive_after_silence-IsSound r t
adjudicate-IsSound r (ok p) t h =
    taken-IsSound t (length t.buffer) (p, ap (deserialize_packet true) (whole t.buffer) ∙ h)
  where
    whole : (s : Bytes) → take (length s) s ≡ s
    whole s = ap (take (length s)) (sym (append-nil s)) ∙ take-length s []

by_silence-IsSound :
    (r : Registry) (o : Result (Unit {0}) × ModbusRtuStream)
    → IsSound (continue (λ done u. adjudicate r (deserialize_packet true u.buffer) u) o)
by_silence-IsSound r (err e, t) = tt
by_silence-IsSound r (ok _, t) = adjudicate-IsSound r (deserialize_packet true t.buffer) t refl

receive_turn-IsSound :
    (r : Registry) (v : RtuRead) (q : Option ModbusRtuPacket) (next : Action ModbusRtuStream Bytes)
    (t : ModbusRtuStream)
    → ((p : ModbusRtuPacket) → q ≡ some p → IsVerified (take v.length t.buffer))
    → ((u : ModbusRtuStream) → IsSound (next u))
    → IsSound (receive_turn r v q next t)
unfolding receive_turn receive_by_silence
receive_turn-IsSound r v (some p) next t h g = taken-IsSound t v.length (h p refl)
receive_turn-IsSound r v none next t h g =
    if-IsSound (not v.sizable && (t.noise == 0)) _ _ (by_silence-IsSound r (fill max_rtu_frame t)) (
      if-IsSound (not v.incomplete) _ _ (g (discard t)) (
        extend-IsSound (receive_after_silence r) next (port_read v.wanted t)
          (receive_after_silence-IsSound r) g))

receive_loop-IsSound : (n : ℕ) (r : Registry) (t : ModbusRtuStream) → IsSound (receive_loop n r t)
unfolding receive_loop
receive_loop-IsSound zero r t = tt
receive_loop-IsSound (suc n) r t =
    receive_turn-IsSound r (read_rtu_frame r t.buffer t.side)
      (read_rtu_frame r t.buffer t.side).packet (receive_loop n r) t
      (read_rtu_frame-Reads r t.buffer t.side) (receive_loop-IsSound n r)

-- Whatever the port answers and whatever was held, `receive` of an RTU stream raises, or returns a
-- frame that ModbusRtuPacket reads with the checksum verified.
pub receive-IsSound : (r : Registry) (t : ModbusRtuStream) → IsSound (receive r t)
unfolding receive
receive-IsSound r t = receive_loop-IsSound (fuel t) r (with_noise 0 t)
