-- ===== src/Pdu/Packet.antt =====
-- The PDU classes as one type of packets, each operation dispatched to its class.
use pyomb.Prelude.{ℕ, List}
use pyomb.Prelude.Int.{ℤ, pos}
use pyomb.Errors.{Result}
use pyomb.Struct.{Bytes}
use pyomb.Pdu.Common.{ModbusViolation}
use pyomb.Pdu.Generic
use pyomb.Pdu.Generic.{ModbusPdu}
use pyomb.Pdu.Error
use pyomb.Pdu.Error.{ModbusError}
use pyomb.Pdu.Bits.RequestFc1
use pyomb.Pdu.Bits.RequestFc1.{ModbusRequestFc1}
use pyomb.Pdu.Bits.ResponseFc1
use pyomb.Pdu.Bits.ResponseFc1.{ModbusResponseFc1}
use pyomb.Pdu.Bits.RequestFc2
use pyomb.Pdu.Bits.RequestFc2.{ModbusRequestFc2}
use pyomb.Pdu.Bits.ResponseFc2
use pyomb.Pdu.Bits.ResponseFc2.{ModbusResponseFc2}
use pyomb.Pdu.Bits.RequestFc5
use pyomb.Pdu.Bits.RequestFc5.{ModbusRequestFc5}
use pyomb.Pdu.Bits.ResponseFc5
use pyomb.Pdu.Bits.ResponseFc5.{ModbusResponseFc5}
use pyomb.Pdu.Bits.RequestFc15
use pyomb.Pdu.Bits.RequestFc15.{ModbusRequestFc15}
use pyomb.Pdu.Bits.ResponseFc15
use pyomb.Pdu.Bits.ResponseFc15.{ModbusResponseFc15}
use pyomb.Pdu.Diagnostics.RequestFc7
use pyomb.Pdu.Diagnostics.RequestFc7.{ModbusRequestFc7}
use pyomb.Pdu.Diagnostics.ResponseFc7
use pyomb.Pdu.Diagnostics.ResponseFc7.{ModbusResponseFc7}
use pyomb.Pdu.Diagnostics.RequestFc8
use pyomb.Pdu.Diagnostics.RequestFc8.{ModbusRequestFc8}
use pyomb.Pdu.Diagnostics.ResponseFc8
use pyomb.Pdu.Diagnostics.ResponseFc8.{ModbusResponseFc8}
use pyomb.Pdu.Encapsulated.RequestFc43
use pyomb.Pdu.Encapsulated.RequestFc43.{ModbusRequestFc43}
use pyomb.Pdu.Encapsulated.ResponseFc43
use pyomb.Pdu.Encapsulated.ResponseFc43.{ModbusResponseFc43}
use pyomb.Pdu.Registers.RequestFc3
use pyomb.Pdu.Registers.RequestFc3.{ModbusRequestFc3}
use pyomb.Pdu.Registers.ResponseFc3
use pyomb.Pdu.Registers.ResponseFc3.{ModbusResponseFc3}
use pyomb.Pdu.Registers.RequestFc4
use pyomb.Pdu.Registers.RequestFc4.{ModbusRequestFc4}
use pyomb.Pdu.Registers.ResponseFc4
use pyomb.Pdu.Registers.ResponseFc4.{ModbusResponseFc4}
use pyomb.Pdu.Registers.RequestFc6
use pyomb.Pdu.Registers.RequestFc6.{ModbusRequestFc6}
use pyomb.Pdu.Registers.ResponseFc6
use pyomb.Pdu.Registers.ResponseFc6.{ModbusResponseFc6}
use pyomb.Pdu.Registers.RequestFc16
use pyomb.Pdu.Registers.RequestFc16.{ModbusRequestFc16}
use pyomb.Pdu.Registers.ResponseFc16
use pyomb.Pdu.Registers.ResponseFc16.{ModbusResponseFc16}
use pyomb.Pdu.Registers.RequestFc22
use pyomb.Pdu.Registers.RequestFc22.{ModbusRequestFc22}
use pyomb.Pdu.Registers.ResponseFc22
use pyomb.Pdu.Registers.ResponseFc22.{ModbusResponseFc22}
use pyomb.Pdu.Registers.RequestFc23
use pyomb.Pdu.Registers.RequestFc23.{ModbusRequestFc23}
use pyomb.Pdu.Registers.ResponseFc23
use pyomb.Pdu.Registers.ResponseFc23.{ModbusResponseFc23}

pub data Packet : Type 0 where
  generic : ModbusPdu → Packet
  error : ModbusError → Packet
  request_fc1 : ModbusRequestFc1 → Packet
  response_fc1 : ModbusResponseFc1 → Packet
  request_fc2 : ModbusRequestFc2 → Packet
  response_fc2 : ModbusResponseFc2 → Packet
  request_fc5 : ModbusRequestFc5 → Packet
  response_fc5 : ModbusResponseFc5 → Packet
  request_fc15 : ModbusRequestFc15 → Packet
  response_fc15 : ModbusResponseFc15 → Packet
  request_fc7 : ModbusRequestFc7 → Packet
  response_fc7 : ModbusResponseFc7 → Packet
  request_fc8 : ModbusRequestFc8 → Packet
  response_fc8 : ModbusResponseFc8 → Packet
  request_fc43 : ModbusRequestFc43 → Packet
  response_fc43 : ModbusResponseFc43 → Packet
  request_fc3 : ModbusRequestFc3 → Packet
  response_fc3 : ModbusResponseFc3 → Packet
  request_fc4 : ModbusRequestFc4 → Packet
  response_fc4 : ModbusResponseFc4 → Packet
  request_fc6 : ModbusRequestFc6 → Packet
  response_fc6 : ModbusResponseFc6 → Packet
  request_fc16 : ModbusRequestFc16 → Packet
  response_fc16 : ModbusResponseFc16 → Packet
  request_fc22 : ModbusRequestFc22 → Packet
  response_fc22 : ModbusResponseFc22 → Packet
  request_fc23 : ModbusRequestFc23 → Packet
  response_fc23 : ModbusResponseFc23 → Packet

unfoldable pub serialize : Packet → Result Bytes
serialize (generic p) = Generic.serialize p
serialize (error p) = Error.serialize p
serialize (request_fc1 p) = RequestFc1.serialize p
serialize (response_fc1 p) = ResponseFc1.serialize p
serialize (request_fc2 p) = RequestFc2.serialize p
serialize (response_fc2 p) = ResponseFc2.serialize p
serialize (request_fc5 p) = RequestFc5.serialize p
serialize (response_fc5 p) = ResponseFc5.serialize p
serialize (request_fc15 p) = RequestFc15.serialize p
serialize (response_fc15 p) = ResponseFc15.serialize p
serialize (request_fc7 p) = RequestFc7.serialize p
serialize (response_fc7 p) = ResponseFc7.serialize p
serialize (request_fc8 p) = RequestFc8.serialize p
serialize (response_fc8 p) = ResponseFc8.serialize p
serialize (request_fc43 p) = RequestFc43.serialize p
serialize (response_fc43 p) = ResponseFc43.serialize p
serialize (request_fc3 p) = RequestFc3.serialize p
serialize (response_fc3 p) = ResponseFc3.serialize p
serialize (request_fc4 p) = RequestFc4.serialize p
serialize (response_fc4 p) = ResponseFc4.serialize p
serialize (request_fc6 p) = RequestFc6.serialize p
serialize (response_fc6 p) = ResponseFc6.serialize p
serialize (request_fc16 p) = RequestFc16.serialize p
serialize (response_fc16 p) = ResponseFc16.serialize p
serialize (request_fc22 p) = RequestFc22.serialize p
serialize (response_fc22 p) = ResponseFc22.serialize p
serialize (request_fc23 p) = RequestFc23.serialize p
serialize (response_fc23 p) = ResponseFc23.serialize p

unfoldable pub len : Packet → ℕ
len (generic p) = Generic.len p
len (error p) = Error.len p
len (request_fc1 p) = RequestFc1.len p
len (response_fc1 p) = ResponseFc1.len p
len (request_fc2 p) = RequestFc2.len p
len (response_fc2 p) = ResponseFc2.len p
len (request_fc5 p) = RequestFc5.len p
len (response_fc5 p) = ResponseFc5.len p
len (request_fc15 p) = RequestFc15.len p
len (response_fc15 p) = ResponseFc15.len p
len (request_fc7 p) = RequestFc7.len p
len (response_fc7 p) = ResponseFc7.len p
len (request_fc8 p) = RequestFc8.len p
len (response_fc8 p) = ResponseFc8.len p
len (request_fc43 p) = RequestFc43.len p
len (response_fc43 p) = ResponseFc43.len p
len (request_fc3 p) = RequestFc3.len p
len (response_fc3 p) = ResponseFc3.len p
len (request_fc4 p) = RequestFc4.len p
len (response_fc4 p) = ResponseFc4.len p
len (request_fc6 p) = RequestFc6.len p
len (response_fc6 p) = ResponseFc6.len p
len (request_fc16 p) = RequestFc16.len p
len (response_fc16 p) = ResponseFc16.len p
len (request_fc22 p) = RequestFc22.len p
len (response_fc22 p) = ResponseFc22.len p
len (request_fc23 p) = RequestFc23.len p
len (response_fc23 p) = ResponseFc23.len p

unfoldable pub violations : Packet → List ModbusViolation
violations (generic p) = Generic.violations p
violations (error p) = Error.violations p
violations (request_fc1 p) = RequestFc1.violations p
violations (response_fc1 p) = ResponseFc1.violations p
violations (request_fc2 p) = RequestFc2.violations p
violations (response_fc2 p) = ResponseFc2.violations p
violations (request_fc5 p) = RequestFc5.violations p
violations (response_fc5 p) = ResponseFc5.violations p
violations (request_fc15 p) = RequestFc15.violations p
violations (response_fc15 p) = ResponseFc15.violations p
violations (request_fc7 p) = RequestFc7.violations p
violations (response_fc7 p) = ResponseFc7.violations p
violations (request_fc8 p) = RequestFc8.violations p
violations (response_fc8 p) = ResponseFc8.violations p
violations (request_fc43 p) = RequestFc43.violations p
violations (response_fc43 p) = ResponseFc43.violations p
violations (request_fc3 p) = RequestFc3.violations p
violations (response_fc3 p) = ResponseFc3.violations p
violations (request_fc4 p) = RequestFc4.violations p
violations (response_fc4 p) = ResponseFc4.violations p
violations (request_fc6 p) = RequestFc6.violations p
violations (response_fc6 p) = ResponseFc6.violations p
violations (request_fc16 p) = RequestFc16.violations p
violations (response_fc16 p) = ResponseFc16.violations p
violations (request_fc22 p) = RequestFc22.violations p
violations (response_fc22 p) = ResponseFc22.violations p
violations (request_fc23 p) = RequestFc23.violations p
violations (response_fc23 p) = ResponseFc23.violations p

-- The attribute `fc`, which each class's `__init__` sets.
unfoldable pub fc : Packet → ℤ
fc (generic p) = pos p.fc
fc (error p) = p.fc
fc (request_fc1 p) = pos 1
fc (response_fc1 p) = pos 1
fc (request_fc2 p) = pos 2
fc (response_fc2 p) = pos 2
fc (request_fc5 p) = pos 5
fc (response_fc5 p) = pos 5
fc (request_fc15 p) = pos 15
fc (response_fc15 p) = pos 15
fc (request_fc7 p) = pos 7
fc (response_fc7 p) = pos 7
fc (request_fc8 p) = pos 8
fc (response_fc8 p) = pos 8
fc (request_fc43 p) = pos 43
fc (response_fc43 p) = pos 43
fc (request_fc3 p) = pos 3
fc (response_fc3 p) = pos 3
fc (request_fc4 p) = pos 4
fc (response_fc4 p) = pos 4
fc (request_fc6 p) = pos 6
fc (response_fc6 p) = pos 6
fc (request_fc16 p) = pos 16
fc (response_fc16 p) = pos 16
fc (request_fc22 p) = pos 22
fc (response_fc22 p) = pos 22
fc (request_fc23 p) = pos 23
fc (response_fc23 p) = pos 23
