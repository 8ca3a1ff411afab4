-- ===== src/Adu/Rtu/RoundTrip.antt =====
-- serialize and deserialize of the RTU frame classes, adu/rtu.py, together.
use pyomb.Prelude.{
  Bool, ℕ, ◌/◌, ◌%◌, ◌≡◌, ◌≢◌, refl, ap, subst, ◌∙◌, [], ◌∷◌, ◌++◌, arith, All, true, lt→ltb,
  All-append,
}
use pyomb.Errors.{Result, ok, err, packet_error}
use pyomb.Struct.{Bytes, IsByte}
use pyomb.Pdu.Packet
use pyomb.Pdu.Packet.{Packet}
use pyomb.Pdu.Parser.{default_registry, parse_request, parse_response}
use pyomb.Pdu.RoundTrip.{IsRequest, IsResponse, serialize-IsByte}
use pyomb.Pdu.Positive.{serialize-positive}
use pyomb.Pdu.Default.{parse_request-serialize_default, parse_response-serialize_default}
use pyomb.Adu.Crc.{calc_crc16, validate_crc, pack_crc}
use pyomb.Adu.Crc.Detects.{calc_crc16-IsWord}
use pyomb.Adu.Crc.Frames.{validate_crc-pack_crc, validate_crc-corrupted}
use pyomb.Adu.Rtu.{
  ModbusRtuPacket, serialize, deserialize, deserialize_request, deserialize_response, set_crc,
}
use pyomb.Adu.Rtu.Frames.{frame, serialize-eq-ok, deserialize-frame}

pub frame-IsByte :
    (slave_id : ℕ) (u : Bytes) → All IsByte (slave_id ∷ u) → All IsByte (frame slave_id u)
frame-IsByte slave_id u h =
    let word = calc_crc16-IsWord (slave_id ∷ u) h in
    All-append IsByte (slave_id ∷ u) _ h (omega arith, (omega arith, tt))

-- A reader whose parser reads the PDU's bytes as the PDU reads the frame as the packet, with its
-- checksum set.
reads_back :
    (parse : Bytes → Result Packet) (verify : Bool) (p q : ModbusRtuPacket) (s : Bytes)
    → ((u : Bytes) → Packet.serialize p.pdu ≡ ok u → parse u ≡ ok p.pdu)
    → serialize p ≡ ok (s, q)
    → deserialize parse verify s ≡ ok q
unfolding set_crc
reads_back parse verify p q s parses h =
    let (u, byte, e, written, left) = serialize-eq-ok p q s h in
    let bytes : All IsByte (p.slave_id ∷ u) = (byte, serialize-IsByte p.pdu u e) in
    subst (λ v. deserialize parse verify v ≡ ok q) written
      (deserialize-frame parse verify p.slave_id u p.pdu (serialize-positive p.pdu u e) (parses u e)
          bytes
        ∙ ap (λ k. ok k) left)

-- What an RTU packet with a request PDU serializes to, ModbusRtuRequest reads back under the
-- default registry, with or without the checksum verified, as the packet that `serialize` left
-- behind.
pub deserialize_request-serialize_rtu :
    (verify : Bool) (p q : ModbusRtuPacket) (s : Bytes)
    → IsRequest p.pdu
    → serialize p ≡ ok (s, q)
    → deserialize_request default_registry verify s ≡ ok q
deserialize_request-serialize_rtu verify p q s i =
    reads_back (parse_request default_registry) verify p q s
      (λ u. parse_request-serialize_default p.pdu u i)

-- What an RTU packet with a response PDU serializes to, ModbusRtuResponse reads back under the
-- default registry, with or without the checksum verified, as the packet that `serialize` left
-- behind.
pub deserialize_response-serialize_rtu :
    (verify : Bool) (p q : ModbusRtuPacket) (s : Bytes)
    → IsResponse p.pdu
    → serialize p ≡ ok (s, q)
    → deserialize_response default_registry verify s ≡ ok q
deserialize_response-serialize_rtu verify p q s i =
    reads_back (parse_response default_registry) verify p q s
      (λ u. parse_response-serialize_default p.pdu u i)

All-split : (s t : Bytes) (b : ℕ) → All IsByte (s ++ b ∷ t) → All IsByte s × IsByte b × All IsByte t
All-split [] t b h = (tt, h.0, h.1)
All-split (x ∷ s) t b h = let (l, m, r) = All-split s t b h.1 in ((h.0, l), m, r)

-- The frame of a packet.
pub serialize-valid :
    (p q : ModbusRtuPacket) (s : Bytes)
    → serialize p ≡ ok (s, q)
    → All IsByte s × (validate_crc s ≡ ok q.crc)
unfolding set_crc
serialize-valid p q s h =
    let (u, byte, e, written, left) = serialize-eq-ok p q s h in
    let bytes : All IsByte (p.slave_id ∷ u) = (byte, serialize-IsByte p.pdu u e) in
    let c = calc_crc16 (p.slave_id ∷ u) in
    let word = calc_crc16-IsWord (p.slave_id ∷ u) bytes in
    let long = serialize-positive p.pdu u e in
    let kept : c ≡ q.crc = ap (λ k. k.crc) left in
    subst (λ v. All IsByte v × (validate_crc v ≡ ok q.crc)) written
      (
        frame-IsByte p.slave_id u bytes,
        validate_crc-pack_crc (p.slave_id ∷ u) (c % 256 ∷ c / 256 ∷ []) (omega arith)
              (unfold pack_crc in rw (lt→ltb c 65536 word) refl)
            ∙ ap (λ k. ok k) kept,
      )

-- An RTU frame that `serialize` wrote, with any one of its bytes changed to another byte, is
-- refused with a packet error by a reader that verifies the checksum, whatever its parser.
pub deserialize-corrupted :
    (parse : Bytes → Result Packet) (p q : ModbusRtuPacket) (s t : Bytes) (b d : ℕ)
    → serialize p ≡ ok (s ++ b ∷ t, q)
    → IsByte d
    → b ≢ d
    → deserialize parse true (s ++ d ∷ t) ≡ err packet_error
unfolding deserialize
deserialize-corrupted parse p q s t b d h hd ne =
    let (bytes, valid) = serialize-valid p q _ h in
    let (hs, hb, ht) = All-split s t b bytes in
    rw (validate_crc-corrupted s t b d q.crc hs ht hb hd ne valid) refl
