-- ===== src/Adu/Tcp.antt =====
-- adu/tcp.py, the frame classes. ModbusTcpRequest, ModbusTcpResponse and ModbusTcpPacket have the same
-- attributes and the same `serialize`; `_pdu_parser` is the parser that `deserialize` is given.
pub mod RoundTrip
pub mod Errors
use pyomb.Prelude.{ℕ, List, [], ◌∷◌, ◌++◌, take, drop}
use pyomb.Errors.{
  Result, ok, err, packet_error, pdu_parse_error, catch_packet, ModbusHeader, ◌>>=◌, ◌>>◌,
}
use pyomb.Struct.{Bytes}
use pyomb.Pdu.Common.{ModbusViolation}
use pyomb.Pdu.Packet
use pyomb.Pdu.Packet.{Packet}
use pyomb.Pdu.Classes
use pyomb.Pdu.Classes.{PduClass}
use pyomb.Adu.Header
use pyomb.Adu.Header.{validate_mbap_length}

pub record ModbusTcpPacket : Type 0 where
  pub header : ModbusHeader
  pub pdu : Packet

unfoldable pub serialize : ModbusTcpPacket → Result Bytes
serialize p = catch_packet do
  header_bytes ← Header.serialize p.header
  pdu_bytes ← Packet.serialize p.pdu
  ok (header_bytes ++ pdu_bytes)

-- ModbusTcpResponse with its parser's `parse_response`
unfoldable pub deserialize_response : (Bytes → Result Packet) → Bytes → Result ModbusTcpPacket
deserialize_response parse s = catch_packet do
  header ← Header.deserialize (take Header.size s)
  validate_mbap_length header s
  pdu ← parse (drop Header.size s)
  ok (record { header = header; pdu = pdu })

-- ModbusTcpPacket: the response's steps with `ModbusPdu.deserialize`
abbrev pub deserialize_packet : Bytes → Result ModbusTcpPacket
deserialize_packet = deserialize_response (Classes.deserialize PduClass.generic)

-- The `except` clause around the parser: the parse error says which request was refused, where the
-- frame has a function code to say it with.
unfoldable pub refuse_pdu : ModbusHeader → Bytes → Result Packet → Result Packet
refuse_pdu header pdu_bytes (ok pdu) = ok pdu
refuse_pdu header [] (err packet_error) = err packet_error
refuse_pdu header [] (err (pdu_parse_error h fc)) = err packet_error
refuse_pdu header (fc ∷ rest) (err packet_error) = err (pdu_parse_error header fc)
refuse_pdu header (fc ∷ rest) (err (pdu_parse_error h c)) = err (pdu_parse_error header fc)
refuse_pdu header pdu_bytes (err e) = err e

-- The header part of ModbusTcpRequest's `deserialize`
unfoldable pub read_header : Bytes → Result ModbusHeader
read_header s =
    catch_packet
      do header ← Header.deserialize (take Header.size s); validate_mbap_length header s; ok header

-- ModbusTcpRequest with its parser's `parse_request`
unfoldable pub deserialize_request : (Bytes → Result Packet) → Bytes → Result ModbusTcpPacket
unfolding read_header refuse_pdu
deserialize_request parse s = do
  header ← read_header s
  let pdu_bytes = drop Header.size s
  pdu ← refuse_pdu header pdu_bytes (parse pdu_bytes)
  ok (record { header = header; pdu = pdu })

-- `violations`: the PARTS; there are no LIMITS.
unfoldable pub violations : ModbusTcpPacket → List ModbusViolation
violations p = Header.violations p.header ++ Packet.violations p.pdu
