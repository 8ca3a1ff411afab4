-- ===== src/Examples/Data.antt =====
-- Test data: the read of three holding registers of device 17, its reply, and an exception response.
use pyomb.Prelude.{ℕ, [], ◌∷◌, ◌++◌, ◌≡◌, refl}
use pyomb.Errors.{ModbusHeader, ok}
use pyomb.Struct.{Bytes, pack}
use pyomb.Pdu.Packet
use pyomb.Pdu.Packet.{Packet}
use pyomb.Pdu.Registers.RequestFc3
use pyomb.Pdu.Registers.ResponseFc3
use pyomb.Pdu.Common.{pack_pdu}
use pyomb.Adu.Crc.{calc_crc16, crc_bytes, crc_byte, crc_rounds, crc_round, pack_crc}
use pyomb.Adu.Rtu
use pyomb.Adu.Rtu.{ModbusRtuPacket}
use pyomb.Adu.Header
use pyomb.Adu.Tcp
use pyomb.Adu.Tcp.{ModbusTcpPacket}

abbrev pub request : Packet
request = Packet.request_fc3 (record { start_addr = 0x6B; quantity = 3 })

abbrev pub request_bytes : Bytes
request_bytes = 3 ∷ 0 ∷ 0x6B ∷ 0 ∷ 3 ∷ []

pub request_written : Packet.serialize request ≡ ok request_bytes
unfolding Packet.serialize RequestFc3.serialize pack_pdu pack
request_written = refl

abbrev pub response : Packet
response = Packet.response_fc3 (record { byte_count = 6; values = 0xAE41 ∷ 0x5652 ∷ 0x4340 ∷ [] })

abbrev pub response_bytes : Bytes
response_bytes = 3 ∷ 6 ∷ 0xAE ∷ 0x41 ∷ 0x56 ∷ 0x52 ∷ 0x43 ∷ 0x40 ∷ []

pub response_written : Packet.serialize response ≡ ok response_bytes
unfolding Packet.serialize ResponseFc3.serialize pack_pdu pack
response_written = refl

-- The RTU frames.
abbrev pub rtu_request : ModbusRtuPacket
rtu_request = record { slave_id = 0x11; pdu = request; crc = 0xFFFF }

abbrev pub rtu_request_bytes : Bytes
rtu_request_bytes = 0x11 ∷ request_bytes ++ 0x76 ∷ 0x87 ∷ []

abbrev pub rtu_request_sent : ModbusRtuPacket
rtu_request_sent = record { slave_id = 0x11; pdu = request; crc = 0x8776 }

pub rtu_request_written : Rtu.serialize rtu_request ≡ ok (rtu_request_bytes, rtu_request_sent)
unfolding Rtu.serialize Packet.serialize RequestFc3.serialize pack_pdu pack calc_crc16 crc_bytes
    crc_byte crc_rounds crc_round pack_crc Rtu.set_crc
rtu_request_written = refl

abbrev pub rtu_response : ModbusRtuPacket
rtu_response = record { slave_id = 0x11; pdu = response; crc = 0xFFFF }

abbrev pub rtu_response_bytes : Bytes
rtu_response_bytes = 0x11 ∷ response_bytes ++ 0x49 ∷ 0xAD ∷ []

abbrev pub rtu_response_sent : ModbusRtuPacket
rtu_response_sent = record { slave_id = 0x11; pdu = response; crc = 0xAD49 }

pub rtu_response_written : Rtu.serialize rtu_response ≡ ok (rtu_response_bytes, rtu_response_sent)
unfolding Rtu.serialize Packet.serialize ResponseFc3.serialize pack_pdu pack calc_crc16 crc_bytes
    crc_byte crc_rounds crc_round pack_crc Rtu.set_crc
rtu_response_written = refl

-- The TCP frames.
abbrev pub tcp_header : ℕ → ModbusHeader
tcp_header length = record { trans_id = 1; prot_id = 0; length = length; unit_id = 0xFF }

abbrev pub header_bytes : ℕ → Bytes
header_bytes length = 0 ∷ 1 ∷ 0 ∷ 0 ∷ 0 ∷ length ∷ 0xFF ∷ []

abbrev pub tcp_request : ModbusTcpPacket
tcp_request = record { header = tcp_header 6; pdu = request }

pub tcp_request_written : Tcp.serialize tcp_request ≡ ok (header_bytes 6 ++ request_bytes)
unfolding Tcp.serialize Header.serialize Packet.serialize RequestFc3.serialize pack_pdu pack
tcp_request_written = refl

abbrev pub tcp_response : ModbusTcpPacket
tcp_response = record { header = tcp_header 9; pdu = response }

pub tcp_response_written : Tcp.serialize tcp_response ≡ ok (header_bytes 9 ++ response_bytes)
unfolding Tcp.serialize Header.serialize Packet.serialize ResponseFc3.serialize pack_pdu pack
tcp_response_written = refl
