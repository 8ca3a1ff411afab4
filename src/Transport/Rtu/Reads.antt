-- ===== src/Transport/Rtu/Reads.antt =====
-- read_rtu_frame of transport/rtu.py: its verdict on the head of a buffer.
use pyomb.Prelude.{
  ℕ, ◌+◌, ◌≤◌, ◌≡◌, ◌≢◌, refl, ap, ◌∙◌, true, false, Option, none, some, ◌++◌, arith, length, take,
  drop, ltb, Bool-cases, inl, inr, take-append, drop-append, length-append,
}
use pyomb.Errors.{Result, ok, err}
use pyomb.Struct.{Bytes}
use pyomb.Pdu.Classes.{byte_at, expected_size}
use pyomb.Pdu.Parser.{Registry}
use pyomb.Pdu.Sizes.Stable.{byte_at-append, expected_size-append}
use pyomb.Adu.Rtu.{ModbusRtuPacket, deserialize_packet}
use pyomb.Transport.Rtu.{RtuSide, RtuRead, pdu_class, accepted, read_sized, read_rtu_frame}

-- What a reading with a packet establishes of the buffer.
pub record Framed (s : Bytes) (read : RtuRead) (p : ModbusRtuPacket) : Type 0 where
  pub positive : 3 ≤ read.length
  pub held : read.length ≤ length s
  pub complete : read.incomplete ≡ false
  pub accepted : deserialize_packet true (take read.length s) ≡ ok p

accepted-Framed :
    (end : ℕ) (s : Bytes) (d : Result ModbusRtuPacket) (p : ModbusRtuPacket)
    → deserialize_packet true (take end s) ≡ d
    → 3 ≤ end
    → end ≤ length s
    → (accepted end d).packet ≡ some p
    → Framed s (accepted end d) p
unfolding accepted
accepted-Framed end s (ok q) p e positive held h = record {
  positive = positive;
  held = held;
  complete = refl;
  accepted = e ∙ ground arith;
}
accepted-Framed end s (err x) p e positive held h = absurd (let h' = h in cc)

read_sized-Framed :
    (v : Result (Option ℕ)) (s : Bytes) (p : ModbusRtuPacket)
    → (read_sized v s).packet ≡ some p
    → Framed s (read_sized v s) p
unfolding read_sized
read_sized-Framed (err e) s p h = absurd (let h' = h in cc)
read_sized-Framed (ok none) s p h = absurd (let h' = h in cc)
read_sized-Framed (ok (some n)) s p h = elim (Bool-cases (ltb (length s) (1 + n + 2))) [
  | inl short ↦ absurd (let h' = rw short at h in cc)
  | inr long ↦ rw long (
      accepted-Framed (1 + n + 2) s (deserialize_packet true (take (1 + n + 2) s)) p refl
        (omega arith) (ground arith) (rw long at h))
]

-- A packet that is read is the verified frame of that length at the head of the buffer.
pub read_rtu_frame-Framed :
    (r : Registry) (s : Bytes) (side : RtuSide) (p : ModbusRtuPacket)
    → (read_rtu_frame r s side).packet ≡ some p
    → Framed s (read_rtu_frame r s side) p
unfolding read_rtu_frame
read_rtu_frame-Framed r s side p h = elim (Bool-cases (ltb (length s) 4)) [
  | inl short ↦ absurd (let h' = rw short at h in cc)
  | inr long ↦ rw long (read_sized-Framed _ s p (rw long at h))
]

read_sized-append :
    (v : Result (Option ℕ)) (s t : Bytes)
    → (read_sized v s).incomplete ≡ false
    → read_sized v (s ++ t) ≡ read_sized v s
unfolding read_sized
read_sized-append (err e) s t h = refl
read_sized-append (ok none) s t h = absurd (let h' = h in cc)
read_sized-append (ok (some n)) s t h = elim (Bool-cases (ltb (length s) (1 + n + 2))) [
  | inl short ↦ absurd (let h' = rw short at h in cc)
  | inr long ↦
      let longer : ltb (length (s ++ t)) (1 + n + 2) ≡ false = ground (arith, length-append s t) in
      rw (long, longer, take-append (1 + n + 2) s t (ground arith)) refl
]

incomplete_none : (s : Bytes) → (read_sized (ok none) s).incomplete ≡ true
unfolding read_sized
incomplete_none s = refl

-- A reading of the head of a buffer that is not incomplete is the same when more bytes follow.
pub read_rtu_frame-append :
    (r : Registry) (s t : Bytes) (side : RtuSide)
    → (read_rtu_frame r s side).incomplete ≡ false
    → read_rtu_frame r (s ++ t) side ≡ read_rtu_frame r s side
unfolding read_rtu_frame
read_rtu_frame-append r s t side h = elim (Bool-cases (ltb (length s) 4)) [
  | inl short ↦ absurd (let h' = rw short at h in cc)
  | inr long ↦
      let longer : ltb (length (s ++ t)) 4 ≡ false = ground (arith, length-append s t) in
      let c = pdu_class r (byte_at s 1) side in
      let v = expected_size c (drop 1 s) in
      let h' : (read_sized v s).incomplete ≡ false = rw long at h in
      let known : v ≢ ok none =
        λ e. let e' = ap (λ w. (read_sized w s).incomplete) e ∙ incomplete_none s in cc in
      let at = byte_at-append s t 1 (ground arith) in
      let rest = drop-append 1 s t (ground arith) in
      let same = expected_size-append c (drop 1 s) t known in
      rw (long, longer, at, rest, same) (read_sized-append v s t h')
]

-- A verdict takes the shortest frame's bytes.
pub read_rtu_frame-long :
    (r : Registry) (s : Bytes) (side : RtuSide)
    → (read_rtu_frame r s side).incomplete ≡ false
    → 4 ≤ length s
unfolding read_rtu_frame
read_rtu_frame-long r s side h = elim (Bool-cases (ltb (length s) 4)) [
  | inl short ↦ absurd (let h' = rw short at h in cc)
  | inr long ↦ ground arith
]

-- A buffer shorter than that waits.
pub read_rtu_frame-short :
    (r : Registry) (s : Bytes) (side : RtuSide)
    → ltb (length s) 4 ≡ true
    → ((read_rtu_frame r s side).packet ≡ none) × ((read_rtu_frame r s side).incomplete ≡ true)
unfolding read_rtu_frame
read_rtu_frame-short r s side h = rw h (refl, refl)
