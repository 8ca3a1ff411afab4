-- ===== src/Examples/Lines.antt =====
-- The theorems on the RTU stream, at a request whose frame arrives in three parts.
use pyomb.Prelude.{◌≡◌, true, refl, [], ◌∷◌}
use pyomb.Errors.{ok}
use pyomb.Struct.{Bytes}
use pyomb.Pdu.Parser.{default_registry}
use pyomb.Transport.Rtu.{RtuSide}
use pyomb.Transport.Port.{Line, bytes, quiet, fails}
use pyomb.Transport.TcpStream.Sends.{taking}
use pyomb.Transport.RtuStream.{
  ModbusRtuStream, with_line, with_buffer, with_noise, with_outbox, receive, send,
}
use pyomb.Transport.RtuStream.Verified.{IsSound, receive-IsSound}
use pyomb.Transport.RtuStream.Fuel.{Runs, receive-Runs}
use pyomb.Transport.RtuStream.Clean.{held, receive-serialize_rtu}
use pyomb.Transport.RtuStream.Sends.{send-echo}
use pyomb.Examples.Data.{rtu_request, rtu_request_bytes, rtu_request_sent, rtu_request_written}

-- The frame in three parts, a byte more, and a line that is quiet and then fails.
abbrev cut : Line
cut =
    bytes 0x11 (3 ∷ [])
    ∷ bytes 0 (0x6B ∷ 0 ∷ [])
    ∷ bytes 3 (0x76 ∷ 0x87 ∷ 9 ∷ [])
    ∷ quiet
    ∷ fails
    ∷ []

abbrev stream : Bytes → ModbusRtuStream
stream buffer = record {
  side = RtuSide.request;
  echo = true;
  buffer = buffer;
  resyncs = 0;
  noise = 0;
  line = cut;
  outbox = taking [];
}

receive-serialize_rtu_example :
    (left : Line) × (receive default_registry (stream [])
      ≡ (ok rtu_request_bytes, with_line left (with_buffer [] (with_noise 0 (stream [])))))
    × (held left ≡ 9 ∷ [])
receive-serialize_rtu_example =
    receive-serialize_rtu (stream []) rtu_request rtu_request_sent rtu_request_bytes (9 ∷ []) tt tt
      rtu_request_written refl refl

receive-IsSound_example : IsSound (receive default_registry (stream (7 ∷ [])))
receive-IsSound_example = receive-IsSound default_registry (stream (7 ∷ []))

receive-Runs_example :
    Runs default_registry
      (with_noise 0 (stream (7 ∷ [])))
      (receive default_registry (stream (7 ∷ [])))
receive-Runs_example = receive-Runs default_registry (stream (7 ∷ []))

send-echo_example :
    (left : Line) × (send rtu_request_bytes (stream [])
      ≡ (ok tt, with_line left (with_outbox (taking rtu_request_bytes) (stream []))))
    × (held left ≡ 9 ∷ [])
send-echo_example = send-echo (stream []) rtu_request_bytes [] (9 ∷ []) refl refl
