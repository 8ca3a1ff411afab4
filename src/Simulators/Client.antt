-- ===== src/Simulators/Client.antt =====
-- simulators/client.py, class ModbusClientSimulator, on a connection that it holds.
pub mod Matching
pub mod Identifiers
pub mod Exchange
pub mod Requests
use pyomb.Prelude.{
  ℕ, zero, suc, ◌+◌, ◌%◌, Bool, Option, none, some, List, [], ◌∷◌, length, ◌==◌, if◌then◌else◌,
}
use pyomb.Prelude.Int.{ℤ}
use pyomb.Errors.{Result, ok, err, network_error, ModbusHeader}
use pyomb.Struct.{Bytes}
use pyomb.Io.{Action, ◌>>=◌, ◌>>◌, lift, pure, raise}
use pyomb.Pdu.Packet
use pyomb.Pdu.Packet.{Packet}
use pyomb.Pdu.Parser.{default_registry, parse_response}
use pyomb.Adu.Tcp
use pyomb.Adu.Tcp.{ModbusTcpPacket}
use pyomb.Transport.Socket.{Inbox, Outbox}
use pyomb.Transport.TcpStream
use pyomb.Simulators.Factory.{Arguments, create_pdu}

-- The attributes, and the two directions of the connection.
pub record ModbusClientSimulator : Type 0 where
  pub unit_id : ℕ
  pub frag_size : ℤ
  pub next_trans_id : ℕ
  pub pending_trans_id : Option ℕ
  pub inbox : Inbox
  pub outbox : Outbox

-- TRANS_ID_MODULO and MAX_STALE_RESPONSES
abbrev pub trans_id_modulo : ℕ
trans_id_modulo = 0x10000

abbrev pub max_stale_responses : ℕ
max_stale_responses = 8

abbrev pub with_ids : ℕ → Option ℕ → ModbusClientSimulator → ModbusClientSimulator
with_ids next pending c = record {
  unit_id = c.unit_id;
  frag_size = c.frag_size;
  next_trans_id = next;
  pending_trans_id = pending;
  inbox = c.inbox;
  outbox = c.outbox;
}

abbrev pub with_inbox : Inbox → ModbusClientSimulator → ModbusClientSimulator
with_inbox inbox c = record {
  unit_id = c.unit_id;
  frag_size = c.frag_size;
  next_trans_id = c.next_trans_id;
  pending_trans_id = c.pending_trans_id;
  inbox = inbox;
  outbox = c.outbox;
}

abbrev pub with_outbox : Outbox → ModbusClientSimulator → ModbusClientSimulator
with_outbox outbox c = record {
  unit_id = c.unit_id;
  frag_size = c.frag_size;
  next_trans_id = c.next_trans_id;
  pending_trans_id = c.pending_trans_id;
  inbox = c.inbox;
  outbox = outbox;
}

-- `_take_trans_id`
unfoldable pub take_trans_id : Action ModbusClientSimulator ℕ
take_trans_id c =
    let trans_id = c.next_trans_id in
    (ok trans_id, with_ids ((trans_id + 1) % trans_id_modulo) (some trans_id) c)

-- The request and its stream, on the client behind `_take_trans_id`
unfoldable pub send_pdu : Packet → ℕ → Action ModbusClientSimulator (Unit {0})
send_pdu pdu trans_id c =
    let header : ModbusHeader = record {
      trans_id = trans_id;
      prot_id = 0;
      length = Packet.len pdu + 1;
      unit_id = c.unit_id;
    } in
    let request : ModbusTcpPacket = record { header = header; pdu = pdu } in
    let (r, left) = (lift (Tcp.serialize request) >>= TcpStream.send c.frag_size) c.outbox in
    (r, with_outbox left c)

unfoldable pub send_request : Arguments → Action ModbusClientSimulator (Unit {0})
unfolding create_pdu take_trans_id send_pdu
send_request a = do pdu ← lift (create_pdu a); trans_id ← take_trans_id; send_pdu pdu trans_id

-- `stream.receive()` of a stream with no fragment size
unfoldable pub receive_data : Action ModbusClientSimulator Bytes
receive_data c = let (r, left) = TcpStream.receive 0 c.inbox in (r, with_inbox left c)

abbrev pub Wait : Type 0
Wait = Action ModbusClientSimulator (Option ModbusTcpPacket)

-- What `wait_response` does with a response where nothing is awaited, and where it is the one awaited
-- or another, which is dropped for the next turn.
unfoldable pub accept_pending : Option ℕ → Wait → ModbusTcpPacket → Wait
accept_pending none next response c = (ok (some response), c)
accept_pending (some pending) next response c =
    if response.header.trans_id == pending
    then (ok (some response), with_ids c.next_trans_id none c)
    else next c

unfoldable pub accept_response : Wait → ModbusTcpPacket → Wait
unfolding accept_pending
accept_response next response c = accept_pending c.pending_trans_id next response c

-- The loop: `none` is the pair of two None's, where the peer closed.
unfoldable pub wait_turns : ℕ → Wait
unfolding receive_data accept_response
wait_turns zero = raise network_error
wait_turns (suc n) = do
  message ← receive_data
  if length message == 0 then pure none else do
    response ← lift (Tcp.deserialize_response (parse_response default_registry) message)
    accept_response (wait_turns n) response

unfoldable pub wait_response : Wait
unfolding wait_turns
wait_response = wait_turns (max_stale_responses + 1)

unfoldable pub request : Arguments → Wait
unfolding send_request wait_response
request a = send_request a >> wait_response
