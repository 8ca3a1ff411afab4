-- ===== src/Transport/Splitter/Clean.antt =====
-- ModbusRtuSplitter of transport/rtu.py on a line without noise.
use pyomb.Prelude.{
  ℕ, ◌+◌, ◌/◌, ◌%◌, ◌≤◌, ◌≡◌, refl, sym, ap, ap₂, subst, ◌∙◌, true, false, List, [], ◌∷◌, ◌++◌,
  arith, length, take, ltb, leb, All, length-append, take-length, drop-length, append-nil,
}
use pyomb.Errors.{ok}
use pyomb.Struct.{Bytes, IsByte}
use pyomb.Pdu.Packet
use pyomb.Pdu.Packet.{Packet}
use pyomb.Pdu.Classes
use pyomb.Pdu.Classes.{PduClass, class_of, pdu_id, byte_at, expected_size}
use pyomb.Pdu.Parser.{default_registry}
use pyomb.Pdu.RoundTrip.{
  IsRequest, IsResponse, serialize-IsByte, serialize-head_request, serialize-head_response,
}
use pyomb.Pdu.Total.{generic_total}
use pyomb.Pdu.Positive.{serialize-positive}
use pyomb.Pdu.Default.{get-default_request, get-default_response}
use pyomb.Pdu.Sizes.Serialized.{Sizable, expected_size-serialize}
use pyomb.Adu.Crc.{calc_crc16}
use pyomb.Adu.Rtu.{ModbusRtuPacket, serialize, deserialize_packet}
use pyomb.Adu.Rtu.Frames.{frame, serialize-eq-ok, deserialize-frame}
use pyomb.Adu.Rtu.RoundTrip.{frame-IsByte}
use pyomb.Adu.Rtu.Transparent.{serialize-deserialize_packet}
use pyomb.Transport.Rtu.{RtuSide, pdu_class, accepted, read_sized, read_rtu_frame}
use pyomb.Transport.Rtu.Reads.{read_rtu_frame-append, read_rtu_frame-short}
use pyomb.Transport.Splitter.{ModbusRtuSplitter, init, push}
use pyomb.Transport.Splitter.Scan.{Scan, Scan-unique, push-Scan}
use pyomb.Transport.Splitter.Accounts.{Wires}

-- A packet that a side sends: of that direction, with fields from which its size can be told.
abbrev pub Direction : RtuSide → Packet → Type 0
Direction RtuSide.request p = IsRequest p
Direction RtuSide.response p = IsResponse p

pdu_class-Direction :
    (side : RtuSide) (p : Packet) (u : Bytes)
    → Direction side p
    → Packet.serialize p ≡ ok u
    → pdu_class default_registry (byte_at u 0) side ≡ class_of p
unfolding pdu_class byte_at
pdu_class-Direction RtuSide.request p u d h =
    let (t, e, _) = serialize-head_request p u d h in
    subst (λ s. pdu_class default_registry (byte_at s 0) RtuSide.request ≡ class_of p) e
      (get-default_request p d)
pdu_class-Direction RtuSide.response p u d h =
    let (x, t, e, id, small) = serialize-head_response p u d h in
    let low : leb 0x80 x ≡ false = ground arith in
    subst (λ s. pdu_class default_registry (byte_at s 0) RtuSide.response ≡ class_of p) e
      (rw (low, id) (get-default_response p d))

byte_at-front : (u v : Bytes) → 1 ≤ length u → byte_at (u ++ v) 0 ≡ byte_at u 0
unfolding byte_at
byte_at-front [] v h = absurd (omega arith)
byte_at-front (b ∷ u) v h = refl

byte_at-next : (x : ℕ) (u : Bytes) → byte_at (x ∷ u) 1 ≡ byte_at u 0
unfolding byte_at
byte_at-next x u = refl

-- A whole frame of that side reads as the generic packet with the same bytes.
read-frame :
    (side : RtuSide) (id : ℕ) (p : Packet) (u : Bytes)
    → Direction side p
    → Sizable p
    → Packet.serialize p ≡ ok u
    → IsByte id
    → (g : ModbusRtuPacket) × (serialize g ≡ ok (frame id u, g))
      × (read_rtu_frame default_registry (frame id u) side ≡ accepted (length (frame id u)) (ok g))
unfolding read_rtu_frame read_sized
read-frame side id p u d z h byte =
    let bytes : All IsByte (id ∷ u) = (byte, serialize-IsByte p u h) in
    let long = serialize-positive p u h in
    let s = frame id u in
    let c = calc_crc16 (id ∷ u) in
    let tail = c % 256 ∷ c / 256 ∷ [] in
    let (b, e) = generic_total u long in
    let g : ModbusRtuPacket = record { slave_id = id; pdu = b; crc = c } in
    let read_back : deserialize_packet true s ≡ ok g =
      deserialize-frame (Classes.deserialize PduClass.generic) true id u b long e bytes in
    let size : length s ≡ 1 + length u + 2 = omega (arith, length-append u tail) in
    let held : ltb (length s) 4 ≡ false = ground arith in
    let fits : ltb (length s) (1 + length u + 2) ≡ false = ground arith in
    let at : byte_at s 1 ≡ byte_at u 0 = byte_at-next id (u ++ tail) ∙ byte_at-front u tail long in
    let class = pdu_class-Direction side p u d h in
    let sized = expected_size-serialize p u tail z h in
    let cut : take (1 + length u + 2) s ≡ s =
      ap (λ n. take n s) (sym size)
      ∙ ap (take (length s)) (sym (append-nil s))
      ∙ take-length s [] in
    (
      g,
      serialize-deserialize_packet s g (frame-IsByte id u bytes) read_back,
      rw (held, at, class, sized, fits, cut, read_back) (ap (λ n. accepted n (ok g)) (sym size)),
    )

-- Packets that a side sends, with the bytes that they serialize to.
abbrev pub Sent : RtuSide → List ModbusRtuPacket → List Bytes → Type 0
Sent side [] [] = Unit
Sent side (p ∷ ps) (b ∷ bs) =
    Direction side p.pdu
    × Sizable p.pdu
    × ((q : ModbusRtuPacket) × (serialize p ≡ ok (b, q)))
    × Sent side ps bs
Sent _ _ _ = ⊥

-- The line: the byte strings one after the other.
abbrev pub joined : List Bytes → Bytes
joined [] = []
joined (b ∷ bs) = b ++ joined bs

pub read-serialize :
    (side : RtuSide) (p q : ModbusRtuPacket) (b : Bytes)
    → Direction side p.pdu
    → Sizable p.pdu
    → serialize p ≡ ok (b, q)
    → (g : ModbusRtuPacket) × (serialize g ≡ ok (b, g))
      × (read_rtu_frame default_registry b side ≡ accepted (length b) (ok g))
read-serialize side p q b d z h =
    let (u, byte, e, written, _) = serialize-eq-ok p q b h in
    subst
      (λ (s : Bytes).
        (g : ModbusRtuPacket) × (serialize g ≡ ok (s, g))
        × (read_rtu_frame default_registry s side ≡ accepted (length s) (ok g)))
      written (read-frame side p.slave_id p.pdu u d z e byte)

Scan-front :
    (side : RtuSide) (n : ℕ) (b s : Bytes) (g : ModbusRtuPacket) (fs : List ModbusRtuPacket)
    (w : ModbusRtuSplitter)
    → read_rtu_frame default_registry b side ≡ accepted (length b) (ok g)
    → Scan default_registry (record { side = side; buffer = s; resyncs = n }) fs w
    → Scan default_registry (record { side = side; buffer = b ++ s; resyncs = n }) (g ∷ fs) w
unfolding accepted
Scan-front side n b s g fs w h next =
    let complete : (read_rtu_frame default_registry b side).incomplete ≡ false = rw h refl in
    let whole : read_rtu_frame default_registry (b ++ s) side ≡ accepted (length b) (ok g) =
      read_rtu_frame-append default_registry b s side complete ∙ h in
    let t : ModbusRtuSplitter = record { side = side; buffer = b ++ s; resyncs = n } in
    Scan.found t w g fs (rw whole refl) (rw (whole, drop-length b s) next)

Scan-joined :
    (side : RtuSide) (n : ℕ) (ps : List ModbusRtuPacket) (bs : List Bytes)
    → Sent side ps bs
    → (gs : List ModbusRtuPacket) × Wires gs bs
      × Scan default_registry
          (record { side = side; buffer = joined bs; resyncs = n })
          gs
          (record { side = side; buffer = []; resyncs = n })
Scan-joined side n [] [] sent =
    let (h, k) = read_rtu_frame-short default_registry [] side refl in
    ([], tt, Scan.quiet (record { side = side; buffer = []; resyncs = n }) h k)
Scan-joined side n (p ∷ ps) (b ∷ bs) (d, z, (q, h), sent) =
    let (g, same, reads) = read-serialize side p q b d z h in
    let (gs, wires, s) = Scan-joined side n ps bs sent in
    (g ∷ gs, (same, wires), Scan-front side n b (joined bs) g gs _ reads s)
Scan-joined side n [] (b ∷ bs) sent = absurd sent
Scan-joined side n (p ∷ ps) [] sent = absurd sent

-- Where a side sends packets of its direction whose sizes can be told from their fields, and each
-- packet serializes, a fresh splitter under the default registry that is pushed the frames joined
-- returns, in order, packets that serialize to the same frames, and holds and has discarded
-- nothing.
pub push-joined :
    (side : RtuSide) (ps : List ModbusRtuPacket) (bs : List Bytes)
    → Sent side ps bs
    → (gs : List ModbusRtuPacket) × Wires gs bs
      × (push default_registry (joined bs) (init side) ≡ (gs, init side))
unfolding init
push-joined side ps bs sent =
    let (gs, wires, s) = Scan-joined side 0 ps bs sent in
    let (e, f) =
      Scan-unique default_registry _ _ _ _ _ (push-Scan default_registry (joined bs) (init side))
        s in
    (gs, wires, ap₂ (λ fs u. (fs, u)) e f)
