-- ===== src/Adu/Rtu/Frames.antt =====
-- The bytes of an RTU frame, from the serializer's side and from the reader's.
use pyomb.Prelude.{
  Bool, ℕ, ◌+◌, ◌*◌, ◌/◌, ◌%◌, ◌<◌, ◌≤◌, ◌≡◌, refl, [], ◌∷◌, ◌++◌, arith, length, ltb, All,
  Bool-cases, inl, inr, true, false, lt→ltb,
}
use pyomb.Errors.{Result, ok, >>=-eq-ok, catch_struct-eq-ok, catch_packet-eq-ok}
use pyomb.Struct.{Bytes, IsByte, pack, unpack}
use pyomb.Pdu.Packet
use pyomb.Pdu.Packet.{Packet}
use pyomb.Pdu.Parser.{first_code}
use pyomb.Adu.Crc.{calc_crc16, pack_crc, unpack_crc, validate_crc}
use pyomb.Adu.Crc.Detects.{calc_crc16-IsWord}
use pyomb.Adu.Crc.Frames.{front-append, tail-append, validate_crc-pack_crc}
use pyomb.Adu.Rtu.{ModbusRtuPacket, serialize, deserialize, set_crc, init}

-- The frame of a slave id and the bytes of a PDU.
abbrev pub frame : ℕ → Bytes → Bytes
frame slave_id u = let c = calc_crc16 (slave_id ∷ u) in (slave_id ∷ u) ++ c % 256 ∷ c / 256 ∷ []

-- What a successful `serialize` wrote, and the packet that it left behind.
pub serialize-eq-ok :
    (p q : ModbusRtuPacket) (s : Bytes)
    → serialize p ≡ ok (s, q)
    → (u : Bytes) × (p.slave_id < 256)
      × (Packet.serialize p.pdu ≡ ok u)
      × (frame p.slave_id u ≡ s)
      × (set_crc (calc_crc16 (p.slave_id ∷ u)) p ≡ q)
unfolding serialize pack pack_crc
serialize-eq-ok p q s h =
    let h' = catch_struct-eq-ok _ (catch_packet-eq-ok _ h) in
    elim (Bool-cases (ltb p.slave_id 256)) [
      | inr bad ↦ absurd (let k = rw bad at h' in cc)
      | inl good ↦
          let k = rw good at h' in
          let (u, e, r) = >>=-eq-ok (Packet.serialize p.pdu) _ k in
          let (crc, f, g) = >>=-eq-ok (pack_crc (calc_crc16 (p.slave_id ∷ u))) _ r in
          (u, ground arith, e, ground arith, ground arith)
    ]

-- `deserialize` of a frame is the parse of its PDU, with the checks of the frame passed.
pub deserialize-frame :
    (parse : Bytes → Result Packet) (verify : Bool) (slave_id : ℕ) (u : Bytes) (pdu : Packet)
    → 1 ≤ length u
    → parse u ≡ ok pdu
    → All IsByte (slave_id ∷ u)
    → deserialize parse verify (frame slave_id u)
      ≡ ok (record { slave_id = slave_id; pdu = pdu; crc = calc_crc16 (slave_id ∷ u) })
unfolding deserialize unpack_crc first_code unpack pack_crc set_crc init
deserialize-frame parse verify slave_id u pdu long h bytes =
    let c = calc_crc16 (slave_id ∷ u) in
    let word = calc_crc16-IsWord (slave_id ∷ u) bytes in
    let glue : c / 256 * 256 + c % 256 ≡ c = omega arith in
    let front = front-append (slave_id ∷ u) (c % 256) (c / 256) in
    let tail = tail-append (slave_id ∷ u) (c % 256) (c / 256) in
    let valid : validate_crc (frame slave_id u) ≡ ok c =
      validate_crc-pack_crc (slave_id ∷ u) (c % 256 ∷ c / 256 ∷ []) (omega arith)
        (rw (lt→ltb c 65536 word) refl) in
    elim verify
      as (λ v.
        deserialize parse v (frame slave_id u)
        ≡ ok (record { slave_id = slave_id; pdu = pdu; crc = c })) [
          | true ↦ rw (valid, front, tail, glue, h) refl
          | false ↦ rw (front, tail, glue, h) refl
        ]
