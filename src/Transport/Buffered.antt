-- ===== src/Transport/Buffered.antt =====
-- transport/stream.py, classes ModbusTcpSender and ModbusTcpReceiver. The burst mode and the delay
-- between fragments change when bytes are sent, not which, and are left out, as is the lock: a run
-- holds it from its copy of the settings to its end, or for each append.
pub mod Capture
pub mod Fuel
use pyomb.Prelude.{ℕ, zero, suc, ◌+◌, Bool, true, false, List, [], ◌∷◌, ◌++◌, length, if◌then◌else◌}
use pyomb.Prelude.Int.{ℤ}
use pyomb.Errors.{Result, ok, err, ModbusHeader}
use pyomb.Struct.{Bytes}
use pyomb.Io.{Action, lift, ◌>>=◌}
use pyomb.Pdu.Packet
use pyomb.Adu.Tcp
use pyomb.Adu.Tcp.{ModbusTcpPacket, deserialize_packet}
use pyomb.Transport.Socket.{Inbox, Outbox, held}
use pyomb.Transport.TcpStream

-- `frag_size` is the sender's and `stream_size` its stream's; `stopped` is the stop event.
pub record ModbusTcpSender : Type 0 where
  pub packets : List ModbusTcpPacket
  pub frag_size : ℤ
  pub stream_size : ℤ
  pub stopped : Bool

-- Each of the packets is an object of its own.
unfoldable pub init_sender : List ModbusTcpPacket → ℤ → ModbusTcpSender
init_sender packets frag_size = record {
  packets = packets;
  frag_size = frag_size;
  stream_size = frag_size;
  stopped = false;
}

unfoldable pub set_sender_size : ℤ → ModbusTcpSender → ModbusTcpSender
set_sender_size value s = record {
  packets = s.packets;
  frag_size = value;
  stream_size = s.stream_size;
  stopped = s.stopped;
}

unfoldable pub stop_sender : ModbusTcpSender → ModbusTcpSender
stop_sender s = record {
  packets = s.packets;
  frag_size = s.frag_size;
  stream_size = s.stream_size;
  stopped = true;
}

-- `packet.header.length = len(packet.pdu) + 1`
abbrev pub with_length : ModbusTcpPacket → ModbusTcpPacket
with_length p = record {
  header = record {
    trans_id = p.header.trans_id;
    prot_id = p.header.prot_id;
    length = Packet.len p.pdu + 1;
    unit_id = p.header.unit_id;
  };
  pdu = p.pdu;
}

-- One turn of the loop, behind the assignment.
unfoldable pub send_packet : ℤ → ModbusTcpPacket → Action Outbox (Unit {0})
send_packet frag_size packet = do
  message ← lift (Tcp.serialize packet)
  TcpStream.send frag_size message

abbrev pub Sent : Type 0
Sent = Result (Unit {0}) × (List ModbusTcpPacket × Outbox)

-- What follows a turn; `next` is the loop on the packets behind it.
unfoldable pub sent_packet :
    (Outbox → Sent) → ModbusTcpPacket → List ModbusTcpPacket → Result (Unit {0}) × Outbox → Sent
sent_packet next p ps (err e, left) = (err e, (p ∷ ps, left))
sent_packet next p ps (ok _, left) = let (r, (rest, last)) = next left in (r, (p ∷ rest, last))

-- The loop; the packets come back with the lengths that it has set when it ends or raises.
unfoldable pub send_packets : ℤ → List ModbusTcpPacket → Outbox → Sent
unfolding sent_packet
send_packets frag_size [] o = (ok tt, ([], o))
send_packets frag_size (p ∷ ps) o =
    sent_packet (send_packets frag_size ps) (with_length p) ps
      (send_packet frag_size (with_length p) o)

unfoldable pub send_once : ModbusTcpSender → Outbox → Result (Unit {0}) × (ModbusTcpSender × Outbox)
send_once s o =
    if s.stopped
    then (ok tt, (s, o))
    else (let (r, (packets, left)) = send_packets s.frag_size s.packets o in
        (
          r,
          (
            record {
              packets = packets;
              frag_size = s.frag_size;
              stream_size = s.frag_size;
              stopped = false;
            },
            left,
          ),
        ))

pub record ModbusTcpReceiver : Type 0 where
  pub packets : List ModbusTcpPacket
  pub frag_size : ℕ
  pub stream_size : ℕ

unfoldable pub init_receiver : ℕ → ModbusTcpReceiver
init_receiver frag_size = record { packets = []; frag_size = frag_size; stream_size = frag_size }

unfoldable pub set_receiver_size : ℕ → ModbusTcpReceiver → ModbusTcpReceiver
set_receiver_size value r = record {
  packets = r.packets;
  frag_size = value;
  stream_size = r.stream_size;
}

abbrev pub Collected : Type 0
Collected = Result (Unit {0}) × (List ModbusTcpPacket × Inbox)

-- A turn of the loop, behind its `receive`; `next` is the loop again.
unfoldable pub collect :
    (List ModbusTcpPacket → Inbox → Collected)
    → List ModbusTcpPacket
    → Result Bytes × Inbox
    → Collected
collect next ps (err e, q) = (err e, (ps, q))
collect next ps (ok [], q) = (ok tt, (ps, q))
collect next ps (ok (b ∷ t), q) = elim (deserialize_packet (b ∷ t)) [
  | err e ↦ (err e, (ps, q))
  | ok p ↦ next (ps ++ (p ∷ [])) q
]

-- The loop, on fuel; `stop n` is whether the stop event is set when it is read the n-th time.
unfoldable pub receive_packets : (ℕ → Bool) → ℕ → ℕ → ℕ → List ModbusTcpPacket → Inbox → Collected
unfolding collect
receive_packets stop frag_size zero turn ps q = (ok tt, (ps, q))
receive_packets stop frag_size (suc n) turn ps q =
    if stop turn
    then (ok tt, (ps, q))
    else (collect (receive_packets stop frag_size n (suc turn)) ps (TcpStream.receive frag_size q))

-- `return self.packets`, where the loop did not raise.
abbrev pub returned : Result (Unit {0}) → List ModbusTcpPacket → Result (List ModbusTcpPacket)
returned (ok _) packets = ok packets
returned (err e) packets = err e

-- `run_once`; a frame takes a byte or more, so that the bytes held are fuel enough.
unfoldable pub receive_once :
    (ℕ → Bool)
    → ModbusTcpReceiver
    → Inbox
    → Result (List ModbusTcpPacket) × (ModbusTcpReceiver × Inbox)
receive_once stop r q =
    if stop 0
    then (ok r.packets, (r, q))
    else (let (done, (packets, left)) =
          receive_packets stop r.frag_size (suc (length (held q))) 1 r.packets q in
        (
          returned done packets,
          (record { packets = packets; frag_size = r.frag_size; stream_size = r.frag_size }, left),
        ))
