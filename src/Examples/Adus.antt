-- ===== src/Examples/Adus.antt =====
-- The theorems on ADUs, at the read of three holding registers.
use pyomb.Prelude.{[], ◌∷◌, ◌++◌, ◌≡◌, ◌+◌, refl, length, arith, true}
use pyomb.Errors.{ok, err, Error, packet_error}
use pyomb.Struct.{Bytes, unpack, pack, repeat_count}
use pyomb.Pdu.Packet
use pyomb.Pdu.Packet.{Packet}
use pyomb.Pdu.Common.{pack_pdu}
use pyomb.Pdu.Generic
use pyomb.Pdu.Registers.RequestFc3
use pyomb.Pdu.Registers.ResponseFc3
use pyomb.Pdu.Classes
use pyomb.Pdu.Classes.{PduClass}
use pyomb.Pdu.Parser.{get, first_code, default_registry, parse_request, parse_response}
use pyomb.Adu.Crc.{calc_crc16, crc_bytes, crc_byte, crc_rounds, crc_round, validate_crc, unpack_crc}
use pyomb.Adu.Rtu
use pyomb.Adu.Rtu.{deserialize_request, deserialize_response, deserialize_packet}
use pyomb.Adu.Rtu.RoundTrip.{
  deserialize_request-serialize_rtu, deserialize_response-serialize_rtu, deserialize-corrupted,
}
use pyomb.Adu.Rtu.Transparent.{serialize-deserialize_packet}
use pyomb.Adu.Header
use pyomb.Adu.Header.{deserialize-serialize_header, serialize-deserialize_header}
use pyomb.Adu.Tcp
use pyomb.Adu.Tcp.{ModbusTcpPacket}
use pyomb.Adu.Tcp.RoundTrip.{
  deserialize_request-serialize_tcp, deserialize_response-serialize_tcp, deserialize-mismatch,
}
use pyomb.Adu.Tcp.Errors.{deserialize_request-parse_error, deserialize_request-refused}
use pyomb.Examples.Data.{
  request, request_bytes, response_bytes, rtu_request, rtu_request_bytes, rtu_request_sent,
  rtu_request_written, rtu_response, rtu_response_bytes, rtu_response_sent, rtu_response_written,
  tcp_header, header_bytes, tcp_request, tcp_request_written, tcp_response, tcp_response_written,
}

deserialize-corrupted_example :
    Rtu.deserialize
      (parse_request default_registry)
      true
      (0x11 ∷ 3 ∷ 0 ∷ 0x6A ∷ 0 ∷ 3 ∷ 0x76 ∷ 0x87 ∷ [])
    ≡ err packet_error
deserialize-corrupted_example =
    deserialize-corrupted (parse_request default_registry) rtu_request rtu_request_sent
      (0x11 ∷ 3 ∷ 0 ∷ []) (0 ∷ 3 ∷ 0x76 ∷ 0x87 ∷ []) 0x6B 0x6A rtu_request_written (omega arith)
      (λ e. omega arith)

deserialize_request-serialize_rtu_example :
    deserialize_request default_registry true rtu_request_bytes ≡ ok rtu_request_sent
deserialize_request-serialize_rtu_example =
    deserialize_request-serialize_rtu true rtu_request rtu_request_sent rtu_request_bytes tt
      rtu_request_written

deserialize_response-serialize_rtu_example :
    deserialize_response default_registry true rtu_response_bytes ≡ ok rtu_response_sent
deserialize_response-serialize_rtu_example =
    deserialize_response-serialize_rtu true rtu_response rtu_response_sent rtu_response_bytes tt
      rtu_response_written

abbrev generic_request : Rtu.ModbusRtuPacket
generic_request = record {
  slave_id = 0x11;
  pdu = Packet.generic (record { fc = 3; payload = 0 ∷ 0x6B ∷ 0 ∷ 3 ∷ [] });
  crc = 0x8776;
}

generic_read : deserialize_packet true rtu_request_bytes ≡ ok generic_request
unfolding Rtu.deserialize Rtu.set_crc Rtu.init validate_crc unpack_crc calc_crc16 crc_bytes crc_byte
    crc_rounds crc_round first_code unpack Classes.deserialize Generic.deserialize Generic.of_values
    repeat_count
generic_read = refl

serialize-deserialize_packet_example :
    Rtu.serialize generic_request ≡ ok (rtu_request_bytes, generic_request)
serialize-deserialize_packet_example =
    serialize-deserialize_packet rtu_request_bytes generic_request (omega arith) generic_read

deserialize_request-serialize_tcp_example :
    Tcp.deserialize_request (parse_request default_registry) (header_bytes 6 ++ request_bytes)
    ≡ ok tcp_request
unfolding Packet.len RequestFc3.len
deserialize_request-serialize_tcp_example =
    deserialize_request-serialize_tcp tcp_request (header_bytes 6 ++ request_bytes) tt refl
      tcp_request_written

deserialize_response-serialize_tcp_example :
    Tcp.deserialize_response (parse_response default_registry) (header_bytes 9 ++ response_bytes)
    ≡ ok tcp_response
unfolding Packet.len ResponseFc3.len
deserialize_response-serialize_tcp_example =
    deserialize_response-serialize_tcp tcp_response (header_bytes 9 ++ response_bytes) tt refl
      tcp_response_written

abbrev long_request : ModbusTcpPacket
long_request = record { header = tcp_header 7; pdu = request }

long_written : Tcp.serialize long_request ≡ ok (header_bytes 7 ++ request_bytes)
unfolding Tcp.serialize Header.serialize Packet.serialize RequestFc3.serialize pack_pdu pack
long_written = refl

deserialize-mismatch_example :
    (Tcp.deserialize_request (parse_request default_registry) (header_bytes 7 ++ request_bytes)
      ≡ err packet_error)
    × (Tcp.deserialize_response (parse_request default_registry) (header_bytes 7 ++ request_bytes)
        ≡ err packet_error)
unfolding Packet.len RequestFc3.len
deserialize-mismatch_example =
    deserialize-mismatch (parse_request default_registry) long_request
      (header_bytes 7 ++ request_bytes) (λ e. omega arith) long_written

abbrev generic_tcp : ModbusTcpPacket
generic_tcp = record {
  header = tcp_header 6;
  pdu = Packet.generic (record { fc = 3; payload = 0 ∷ 0x6B ∷ 0 ∷ 3 ∷ [] });
}

-- A request whose function code is that of the read of registers, cut short.
abbrev short_bytes : Bytes
short_bytes = header_bytes 3 ++ 3 ∷ 0 ∷ []

short_refused : parse_request default_registry (3 ∷ 0 ∷ []) ≡ err packet_error
unfolding parse_request first_code unpack get default_registry Classes.deserialize
    RequestFc3.deserialize
short_refused = refl

short_header : Header.deserialize (header_bytes 3) ≡ ok (tcp_header 3)
unfolding Header.deserialize Header.of_values unpack
short_header = refl

deserialize_request-parse_error_example :
    (Header.deserialize (header_bytes 3) ≡ ok (tcp_header 3))
    × (length short_bytes ≡ 6 + 3)
    × ((t : Bytes) × (3 ∷ t ≡ 3 ∷ 0 ∷ []))
    × ((e : Error) × (parse_request default_registry (3 ∷ 0 ∷ []) ≡ err e))
deserialize_request-parse_error_example =
    deserialize_request-parse_error (parse_request default_registry) short_bytes (tcp_header 3) 3 (
      deserialize_request-refused (parse_request default_registry) short_bytes (0 ∷ [])
        (tcp_header 3) 3 short_header (omega arith) refl short_refused)
