-- ===== src/Examples/Tcp.antt =====
-- The theorems on the TCP stream and on its sender and receiver, at a request whose frame arrives in
-- three parts.
use pyomb.Prelude.{false, [], ◌∷◌, ◌++◌, arith}
use pyomb.Prelude.Int.{pos}
use pyomb.Struct.{Bytes}
use pyomb.Pdu.Packet
use pyomb.Pdu.Registers.RequestFc3
use pyomb.Transport.Socket.{bytes, Inbox}
use pyomb.Transport.Buffered.{ModbusTcpSender, ModbusTcpReceiver, receive_packets}
use pyomb.Transport.Buffered.Capture.{never}
use pyomb.Transport.Buffered.Fuel.{Runs, receive_packets-Runs}
use pyomb.Examples.Data.{header_bytes, request_bytes, tcp_request}

abbrev request_frame : Bytes
request_frame = header_bytes 6 ++ request_bytes

-- The frame in three parts, and a byte more.
abbrev cut : Inbox
cut = bytes 0 (1 ∷ 0 ∷ []) ∷ bytes 0 (0 ∷ 6 ∷ 0xFF ∷ 3 ∷ []) ∷ bytes 0 (0x6B ∷ 0 ∷ 3 ∷ 9 ∷ []) ∷ []

abbrev sender : ModbusTcpSender
sender = record {
  packets = tcp_request ∷ tcp_request ∷ [];
  frag_size = pos 3;
  stream_size = pos 0;
  stopped = false;
}

abbrev receiver : ModbusTcpReceiver
receiver = record { packets = []; frag_size = 2; stream_size = 2 }

-- The two frames, cut inside the first header and inside the second.
abbrev arrivals : Inbox
arrivals =
    bytes 0 (1 ∷ 0 ∷ [])
    ∷ bytes 0 (0 ∷ 6 ∷ 0xFF ∷ 3 ∷ 0 ∷ 0x6B ∷ 0 ∷ 3 ∷ 0 ∷ [])
    ∷ bytes 1 (0 ∷ 0 ∷ 0 ∷ 6 ∷ 0xFF ∷ 3 ∷ 0 ∷ 0x6B ∷ 0 ∷ 3 ∷ [])
    ∷ []

receive_packets-Runs_example : Runs never 2 1 [] arrivals (receive_packets never 2 25 1 [] arrivals)
receive_packets-Runs_example = receive_packets-Runs never 2 25 1 [] arrivals (omega arith)
