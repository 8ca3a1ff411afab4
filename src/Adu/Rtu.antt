-- ===== src/Adu/Rtu.antt =====
-- adu/rtu.py, the frame classes. ModbusRtuRequest, ModbusRtuResponse and ModbusRtuPacket have the same
-- attributes and the same methods but for the parser that `deserialize` calls, which is an argument
-- here. `serialize` and `calc_crc` store the checksum: they return the packet that they leave behind.
pub mod Frames
pub mod RoundTrip
pub mod Transparent
use pyomb.Prelude.{ℕ, Bool, List, [], ◌∷◌, ◌++◌, take, drop, ltb, if◌then◌else◌}
use pyomb.Errors.{Result, ok, err, value_error, catch_both, ◌>>=◌, ◌>>◌}
use pyomb.Struct.{Bytes, B, pack}
use pyomb.Pdu.Common.{ModbusViolation, limit_violations}
use pyomb.Pdu.Packet
use pyomb.Pdu.Packet.{Packet}
use pyomb.Pdu.Classes
use pyomb.Pdu.Classes.{PduClass}
use pyomb.Pdu.Parser.{Registry, first_code, parse_request, parse_response}
use pyomb.Adu.Crc.{calc_crc16, pack_crc, unpack_crc, tail_bytes, front_bytes, validate_crc}

pub record ModbusRtuPacket : Type 0 where
  pub slave_id : ℕ
  pub pdu : Packet
  pub crc : ℕ

-- `__init__`
unfoldable pub init : ℕ → Packet → ModbusRtuPacket
init slave_id pdu = record { slave_id = slave_id; pdu = pdu; crc = 0xFFFF }

unfoldable pub set_crc : ℕ → ModbusRtuPacket → ModbusRtuPacket
set_crc value p = record { slave_id = p.slave_id; pdu = p.pdu; crc = value }

-- `bytearray([slave_id])` refuses what is no byte.
unfoldable pub calc_crc : ModbusRtuPacket → Result (ℕ × ModbusRtuPacket)
unfolding set_crc
calc_crc p = do
  slave ← if ltb p.slave_id 256 then ok (p.slave_id ∷ []) else err value_error
  body ← Packet.serialize p.pdu
  ok (calc_crc16 (slave ++ body), set_crc (calc_crc16 (slave ++ body)) p)

unfoldable pub serialize : ModbusRtuPacket → Result (Bytes × ModbusRtuPacket)
unfolding set_crc
serialize p = catch_both do
  slave ← pack (B ∷ []) (p.slave_id ∷ [])
  body ← Packet.serialize p.pdu
  crc ← pack_crc (calc_crc16 (slave ++ body))
  ok ((slave ++ body) ++ crc, set_crc (calc_crc16 (slave ++ body)) p)

-- `deserialize` with the parser of its class; `stream[1:-CRC_SIZE]` is `drop 1 (front_bytes s)`.
unfoldable pub deserialize : (Bytes → Result Packet) → Bool → Bytes → Result ModbusRtuPacket
unfolding init set_crc
deserialize parse verify_crc s =
    (if verify_crc then validate_crc s >>= (λ _. ok tt) else ok tt)
    >> catch_both do
      slave_id ← first_code s
      crc ← unpack_crc (tail_bytes s)
      pdu ← parse (drop 1 (front_bytes s))
      ok (set_crc crc (init slave_id pdu))

-- ModbusRtuRequest, ModbusRtuResponse and ModbusRtuPacket
abbrev pub deserialize_request : Registry → Bool → Bytes → Result ModbusRtuPacket
deserialize_request r = deserialize (parse_request r)

abbrev pub deserialize_response : Registry → Bool → Bytes → Result ModbusRtuPacket
deserialize_response r = deserialize (parse_response r)

abbrev pub deserialize_packet : Bool → Bytes → Result ModbusRtuPacket
deserialize_packet = deserialize (Classes.deserialize PduClass.generic)

-- `violations`: the LIMITS, then the PARTS. The class name is the source of a finding.
unfoldable pub violations : ModbusRtuPacket → List ModbusViolation
unfolding limit_violations
violations p =
    limit_violations "ModbusRtuPacket"
      (record { field = "slave_id"; low = 0x00; high = 0xF7; value = p.slave_id } ∷ [])
    ++ Packet.violations p.pdu
