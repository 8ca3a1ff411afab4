-- ===== src/Transport/RtuStream/Prefixes.antt =====
-- read_rtu_frame of transport/rtu.py on the front of a frame: how many bytes it asks for.
use pyomb.Prelude.{
  ℕ, ◌+◌, ◌-◌, ◌≤◌, ◌≡◌, refl, sym, ap, subst, ◌∙◌, true, false, Option, none, some, ◌++◌, length,
  take, drop, ltb, Bool-cases, inl, inr, arith, length-append, drop-append,
}
use pyomb.Errors.{Result, ok, err}
use pyomb.Struct.{Bytes}
use pyomb.Pdu.Parser.{Registry}
use pyomb.Pdu.Classes.{byte_at, expected_size}
use pyomb.Pdu.Sizes.Stable.{byte_at-append, expected_size-append}
use pyomb.Adu.Rtu.{ModbusRtuPacket, deserialize_packet}
use pyomb.Transport.Rtu.{RtuSide, RtuRead, more, accepted, read_sized, read_rtu_frame, pdu_class}
use pyomb.Transport.Rtu.Reads.{read_rtu_frame-Framed, read_rtu_frame-append, read_rtu_frame-long}

-- A reading that asks for at least one byte and at most so many.
abbrev pub Asks : RtuRead → ℕ → Type 0
Asks v m = (w : ℕ) × (v ≡ more w) × (1 ≤ w) × (w ≤ m)

accepted-length :
    (end m : ℕ) (d : Result ModbusRtuPacket) (g : ModbusRtuPacket)
    → accepted end d ≡ accepted m (ok g)
    → end ≡ m
unfolding accepted
accepted-length end m (ok q) g h = ap (λ v. v.length) h
accepted-length end m (err e) g h = absurd (let bad = ap (λ v. v.packet) h in cc)

-- The size that a whole frame was read with.
read_sized-length :
    (n m : ℕ) (s : Bytes) (g : ModbusRtuPacket)
    → read_sized (ok (some n)) s ≡ accepted m (ok g)
    → 3 + n ≡ m
unfolding read_sized
read_sized-length n m s g h = elim (Bool-cases (ltb (length s) (1 + n + 2))) [
  | inl short ↦ absurd (let bad = ap (λ v. v.incomplete) (rw short at h) in unfold accepted in cc)
  | inr long ↦
      let size =
        accepted-length (1 + n + 2) m (deserialize_packet true (take (1 + n + 2) s)) g
          (rw long at h) in
      omega (arith, size)
]

-- A verdict on the size that waits, against the one on the whole frame.
read_sized-Asks :
    (x : Result (Option ℕ)) (u : Bytes) (m : ℕ)
    → (read_sized x u).incomplete ≡ true
    → 1 ≤ m
    → ((n : ℕ) → x ≡ ok (some n) → 3 + n ≤ length u + m)
    → Asks (read_sized x u) m
unfolding read_sized accepted
read_sized-Asks (err e) u m h some_bytes fits = absurd (let bad = h in cc)
read_sized-Asks (ok none) u m h some_bytes fits = (1, refl, omega arith, some_bytes)
read_sized-Asks (ok (some n)) u m h some_bytes fits =
    elim (Bool-cases (ltb (length u) (1 + n + 2))) [
      | inl short ↦
          let bound = fits n refl in
          (1 + n + 2 - length u, rw short refl, ground arith, omega (arith, bound))
      | inr long ↦ absurd (complete (deserialize_packet true (take (1 + n + 2) u)) (rw long at h))
    ]
  where
    complete : (d : Result ModbusRtuPacket) → (accepted (1 + n + 2) d).incomplete ≡ true → ⊥
    complete (ok q) e = cc
    complete (err x) e = cc

front-incomplete :
    (r : Registry) (side : RtuSide) (u v : Bytes) (g : ModbusRtuPacket)
    → 1 ≤ length v
    → read_rtu_frame r (u ++ v) side ≡ accepted (length (u ++ v)) (ok g)
    → (read_rtu_frame r u side).incomplete ≡ true
front-incomplete r side u v g some_bytes whole =
    elim (Bool-cases (read_rtu_frame r u side).incomplete) [
      | inl waits ↦ waits
      | inr complete ↦
          let same : read_rtu_frame r u side ≡ accepted (length (u ++ v)) (ok g) =
            sym (read_rtu_frame-append r u v side complete) ∙ whole in
          let framed =
            read_rtu_frame-Framed r u side g
              (ap (λ w. w.packet) same ∙ (unfold accepted in refl)) in
          let size : (read_rtu_frame r u side).length ≡ length (u ++ v) =
            ap (λ w. w.length) same ∙ (unfold accepted in refl) in
          absurd (omega (arith, framed.held, size, length-append u v))
    ]

-- What the class of the function code says of the size.
abbrev size_of : Registry → RtuSide → Bytes → Result (Option ℕ)
size_of r side s = expected_size (pdu_class r (byte_at s 1) side) (drop 1 s)

read_rtu_frame-sized :
    (r : Registry) (side : RtuSide) (s : Bytes)
    → ltb (length s) 4 ≡ false
    → read_rtu_frame r s side ≡ read_sized (size_of r side s) s
unfolding read_rtu_frame
read_rtu_frame-sized r side s long = rw long refl

size_of-append :
    (r : Registry) (side : RtuSide) (u v : Bytes) (n : ℕ)
    → 4 ≤ length u
    → size_of r side u ≡ ok (some n)
    → size_of r side (u ++ v) ≡ ok (some n)
size_of-append r side u v n long e =
    let c = pdu_class r (byte_at u 1) side in
    rw (byte_at-append u v 1 (omega arith), drop-append 1 u v (omega arith))
      (expected_size-append c (drop 1 u) v (λ none_yet. absurd (let bad = sym e ∙ none_yet in cc))
        ∙ e)

-- Of the front of a frame, the reading asks for one byte or more, and not beyond the frame.
pub read_rtu_frame-front :
    (r : Registry) (side : RtuSide) (u v : Bytes) (g : ModbusRtuPacket)
    → 1 ≤ length v
    → read_rtu_frame r (u ++ v) side ≡ accepted (length (u ++ v)) (ok g)
    → Asks (read_rtu_frame r u side) (length v)
read_rtu_frame-front r side u v g some_bytes whole =
    let waits = front-incomplete r side u v g some_bytes whole in
    let complete : (read_rtu_frame r (u ++ v) side).incomplete ≡ false =
      ap (λ w. w.incomplete) whole ∙ (unfold accepted in refl) in
    let held = read_rtu_frame-long r (u ++ v) side complete in
    let sum = length-append u v in
    elim (Bool-cases (ltb (length u) 4)) [
      | inl short ↦
          unfold read_rtu_frame in
          (4 - length u, rw short refl, ground arith, omega (arith, held, sum))
      | inr long ↦
          let x = size_of r side u in
          let read = read_rtu_frame-sized r side u long in
          let fits : (n : ℕ) → x ≡ ok (some n) → 3 + n ≤ length u + length v = λ n e.
            let longer : ltb (length (u ++ v)) 4 ≡ false = ground arith in
            let size = read_sized-length n (length (u ++ v)) (u ++ v) g (
              ap (λ y. read_sized y (u ++ v)) (sym (size_of-append r side u v n (ground arith) e))
              ∙ sym (read_rtu_frame-sized r side (u ++ v) longer)
              ∙ whole) in
            omega (arith, size, sum) in
          subst (λ z. Asks z (length v)) (sym read)
            (read_sized-Asks x u (length v) (sym (ap (λ z. z.incomplete) read) ∙ waits) some_bytes
              fits)
    ]
