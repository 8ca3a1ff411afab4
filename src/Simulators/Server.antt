-- ===== src/Simulators/Server.antt =====
-- simulators/server.py, class ModbusServerSimulator: what it does with the bytes of a request, and with
-- a connection that it serves. The delay before a response is left out.
pub mod Answers
pub mod Refuses
use pyomb.Prelude.{ℕ, suc, ◌+◌, Bool, true, false, Option, none, some, [], ◌∷◌}
use pyomb.Prelude.Int.{pos}
use pyomb.Errors.{
  Result, ok, err, Error, struct_error, key_error, index_error, value_error, os_error,
  protocol_error, pdu_parse_error, ModbusHeader,
}
use pyomb.Struct.{Bytes}
use pyomb.Io.{Action, ◌>>=◌, lift, pure, raise}
use pyomb.Pdu.Packet
use pyomb.Pdu.Packet.{Packet}
use pyomb.Pdu.Parser.{default_registry, parse_request}
use pyomb.Adu.Tcp
use pyomb.Adu.Tcp.{ModbusTcpPacket}
use pyomb.Transport.Socket.{Inbox, Outbox}
use pyomb.Transport.TcpStream
use pyomb.Simulators.Responses.{response_pdu}

-- The settings that a request meets; the handler is the caller's, and may send on the connection.
pub record ModbusServerSimulator : Type 0 where
  pub fail : Bool
  pub data_handler : Option (ModbusTcpPacket → Action Outbox Bool)

unfoldable pub set_fail : Bool → ModbusServerSimulator → ModbusServerSimulator
set_fail fail server = record { fail = fail; data_handler = server.data_handler }

unfoldable pub set_data_handler :
    Option (ModbusTcpPacket → Action Outbox Bool) → ModbusServerSimulator → ModbusServerSimulator
set_data_handler data_handler server = record { fail = server.fail; data_handler = data_handler }

-- The response that echoes the identifiers of a request; its length is its own.
abbrev pub echoed : ModbusHeader → Packet → ModbusTcpPacket
echoed h pdu = record {
  header = record {
    trans_id = h.trans_id;
    prot_id = h.prot_id;
    length = Packet.len pdu + 1;
    unit_id = h.unit_id;
  };
  pdu = pdu;
}

unfoldable pub answer : ModbusHeader → Packet → Action Outbox (Unit {0})
answer request_header pdu = do
  message ← lift (Tcp.serialize (echoed request_header pdu))
  TcpStream.send (pos 0) message

-- `except ModbusBaseError as e: raise ModbusSlaveDeviceFailureError() from e`
abbrev pub as_failure : Result (Unit {0}) → Result (Unit {0})
as_failure (ok a) = ok a
as_failure (err struct_error) = err struct_error
as_failure (err key_error) = err key_error
as_failure (err index_error) = err index_error
as_failure (err value_error) = err value_error
as_failure (err os_error) = err os_error
as_failure (err e) = err (protocol_error 4)

abbrev pub catch_base : Action Outbox (Unit {0}) → Action Outbox (Unit {0})
catch_base call s = (as_failure (call s).0, (call s).1)

-- `rslt_ok`
unfoldable pub handle :
    Option (ModbusTcpPacket → Action Outbox Bool) → ModbusTcpPacket → Action Outbox Bool
handle none request = pure true
handle (some data_handler) request = data_handler request

-- `on_data` behind the parse. OMB_EXCEPTION_ILLEGAL_DATA_VALUE answers a PDU that was refused.
unfoldable pub respond : ModbusServerSimulator → Result ModbusTcpPacket → Action Outbox (Unit {0})
unfolding answer handle response_pdu
respond server (err (pdu_parse_error header code)) =
    answer header (Packet.error (record { fc = pos code; exc_code = 0x03 }))
respond server (err e) = raise e
respond server (ok request) = do
  rslt_ok ← handle server.data_handler request
  catch_base (answer request.header (response_pdu server.fail rslt_ok request.pdu))

unfoldable pub on_data : ModbusServerSimulator → Bytes → Action Outbox (Unit {0})
unfolding respond
on_data server message =
    respond server (Tcp.deserialize_request (parse_request default_registry) message)
