-- ===== src/Simulators/Responses.antt =====
-- simulators/server.py, class ResponseFactory and the choice of the response in `on_data`.
pub mod Answered
pub mod Sendable
use pyomb.Prelude.{
  ℕ, ◌+◌, ◌*◌, ◌/◌, Bool, true, false, ◌||◌, not, List, [], ◌∷◌, replicate, if◌then◌else◌,
}
use pyomb.Prelude.Int.{ℤ, pos}
use pyomb.Pdu.Packet
use pyomb.Pdu.Packet.{Packet}
use pyomb.Pdu.Bits.RequestFc1.{ModbusRequestFc1}
use pyomb.Pdu.Bits.RequestFc2.{ModbusRequestFc2}
use pyomb.Pdu.Bits.RequestFc5.{ModbusRequestFc5}
use pyomb.Pdu.Bits.RequestFc15.{ModbusRequestFc15}
use pyomb.Pdu.Encapsulated.RequestFc43.{ModbusRequestFc43}
use pyomb.Pdu.Registers.RequestFc3.{ModbusRequestFc3}
use pyomb.Pdu.Registers.RequestFc4.{ModbusRequestFc4}
use pyomb.Pdu.Registers.RequestFc6.{ModbusRequestFc6}
use pyomb.Pdu.Registers.RequestFc16.{ModbusRequestFc16}
use pyomb.Pdu.Registers.RequestFc22.{ModbusRequestFc22}
use pyomb.Pdu.Registers.RequestFc23.{ModbusRequestFc23}

-- The defaults of the arguments, of which `on_data` gives none, are written in.
abbrev pub create_fc1_rsp : ModbusRequestFc1 → Packet
create_fc1_rsp p =
    let byte_count = (p.quantity + 7) / 8 in
    Packet.response_fc1
      (record { byte_count = byte_count; output_status = replicate byte_count 0xFF })

abbrev pub create_fc2_rsp : ModbusRequestFc2 → Packet
create_fc2_rsp p =
    let byte_count = (p.quantity + 7) / 8 in
    Packet.response_fc2
      (record { byte_count = byte_count; input_status = replicate byte_count 0xFF })

abbrev pub create_fc3_rsp : ModbusRequestFc3 → Packet
create_fc3_rsp p =
    Packet.response_fc3
      (record { byte_count = 2 * p.quantity; values = replicate p.quantity 0xFFFF })

abbrev pub create_fc4_rsp : ModbusRequestFc4 → Packet
create_fc4_rsp p =
    Packet.response_fc4
      (record { byte_count = 2 * p.quantity; values = replicate p.quantity 0xFFFF })

abbrev pub create_fc5_rsp : ModbusRequestFc5 → Packet
create_fc5_rsp p =
    Packet.response_fc5
      (record { output_address = p.output_address; output_value = p.output_value })

abbrev pub create_fc6_rsp : ModbusRequestFc6 → Packet
create_fc6_rsp p =
    Packet.response_fc6
      (record { output_address = p.output_address; output_value = p.output_value })

abbrev pub create_fc7_rsp : Packet
create_fc7_rsp = Packet.response_fc7 (record { status = 0x00 })

abbrev pub create_fc15_rsp : ModbusRequestFc15 → Packet
create_fc15_rsp p =
    Packet.response_fc15 (record { start_addr = p.start_addr; quantity = p.quantity })

abbrev pub create_fc16_rsp : ModbusRequestFc16 → Packet
create_fc16_rsp p =
    Packet.response_fc16 (record { start_addr = p.start_addr; quantity = p.quantity })

abbrev pub create_fc22_rsp : ModbusRequestFc22 → Packet
create_fc22_rsp p =
    Packet.response_fc22
      (record { ref_addr = p.ref_addr; and_mask = p.and_mask; or_mask = p.or_mask })

abbrev pub create_fc23_rsp : ModbusRequestFc23 → Packet
create_fc23_rsp p =
    Packet.response_fc23
      (record { byte_count = 2 * p.read_quantity; values = replicate p.read_quantity 0xFFFF })

abbrev pub create_fc43_rsp : ModbusRequestFc43 → Packet
create_fc43_rsp p = Packet.response_fc43 (record { mei_type = p.mei_type; mei_data = p.mei_data })

-- OMB_EXCEPTION_SLAVE_DEVICE_FAILURE
abbrev pub create_err_rsp : ℤ → Packet
create_err_rsp request_fc = Packet.error (record { fc = request_fc; exc_code = 0x04 })

-- The attribute `fc`, which a class's `__init__` sets to its code.
unfoldable pub fc : Packet → ℤ
fc (Packet.generic p) = pos p.fc
fc (Packet.error p) = p.fc
fc (Packet.request_fc1 p) = pos 1
fc (Packet.response_fc1 p) = pos 1
fc (Packet.request_fc2 p) = pos 2
fc (Packet.response_fc2 p) = pos 2
fc (Packet.request_fc3 p) = pos 3
fc (Packet.response_fc3 p) = pos 3
fc (Packet.request_fc4 p) = pos 4
fc (Packet.response_fc4 p) = pos 4
fc (Packet.request_fc5 p) = pos 5
fc (Packet.response_fc5 p) = pos 5
fc (Packet.request_fc6 p) = pos 6
fc (Packet.response_fc6 p) = pos 6
fc (Packet.request_fc7 p) = pos 7
fc (Packet.response_fc7 p) = pos 7
fc (Packet.request_fc8 p) = pos 8
fc (Packet.response_fc8 p) = pos 8
fc (Packet.request_fc15 p) = pos 15
fc (Packet.response_fc15 p) = pos 15
fc (Packet.request_fc16 p) = pos 16
fc (Packet.response_fc16 p) = pos 16
fc (Packet.request_fc22 p) = pos 22
fc (Packet.response_fc22 p) = pos 22
fc (Packet.request_fc23 p) = pos 23
fc (Packet.response_fc23 p) = pos 23
fc (Packet.request_fc43 p) = pos 43
fc (Packet.response_fc43 p) = pos 43

-- The chain of `isinstance` tests.
unfoldable pub create_rsp : Packet → Packet
unfolding fc
create_rsp (Packet.request_fc1 p) = create_fc1_rsp p
create_rsp (Packet.request_fc2 p) = create_fc2_rsp p
create_rsp (Packet.request_fc3 p) = create_fc3_rsp p
create_rsp (Packet.request_fc4 p) = create_fc4_rsp p
create_rsp (Packet.request_fc5 p) = create_fc5_rsp p
create_rsp (Packet.request_fc6 p) = create_fc6_rsp p
create_rsp (Packet.request_fc7 p) = create_fc7_rsp
create_rsp (Packet.request_fc15 p) = create_fc15_rsp p
create_rsp (Packet.request_fc16 p) = create_fc16_rsp p
create_rsp (Packet.request_fc22 p) = create_fc22_rsp p
create_rsp (Packet.request_fc23 p) = create_fc23_rsp p
create_rsp (Packet.request_fc43 p) = create_fc43_rsp p
create_rsp p = create_err_rsp (fc p)

-- `if self.fail or not rslt_ok`
unfoldable pub response_pdu : Bool → Bool → Packet → Packet
unfolding create_rsp fc
response_pdu fail rslt_ok p = if fail || not rslt_ok then create_err_rsp (fc p) else create_rsp p
