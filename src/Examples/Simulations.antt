-- ===== src/Examples/Simulations.antt =====
-- The theorems on the simulators, at a read of three holding registers.
use pyomb.Prelude.{
  ℕ, ◌+◌, ◌%◌, ◌≡◌, ◌≢◌, false, refl, sym, ap, ◌∙◌, Option, none, some, List, [], ◌∷◌, ◌++◌, arith,
  inr, append-nil,
}
use pyomb.Prelude.Int.{pos}
use pyomb.Errors.{ok, err, network_error, protocol_error, packet_error}
use pyomb.Struct.{Bytes, pack, unpack}
use pyomb.Pdu.Common.{pack_pdu, limit_violations, in_range}
use pyomb.Pdu.Packet
use pyomb.Pdu.Packet.{Packet}
use pyomb.Pdu.Classes.{class_of, pdu_id}
use pyomb.Pdu.RoundTrip.{IsRequest}
use pyomb.Pdu.Classes
use pyomb.Pdu.Parser
use pyomb.Pdu.Parser.{default_registry, parse_request, parse_response}
use pyomb.Pdu.Registers.RequestFc3
use pyomb.Pdu.Registers.ResponseFc3
use pyomb.Adu.Header
use pyomb.Adu.Tcp
use pyomb.Adu.Tcp.RoundTrip.{deserialize_request-serialize_tcp}
use pyomb.Adu.Tcp.{ModbusTcpPacket, deserialize_request, deserialize_response}
use pyomb.Transport.Socket.{bytes, Inbox, view}
use pyomb.Transport.Fragmenter.{assemble}
use pyomb.Transport.TcpStream.Sends.{taking}
use pyomb.Simulators.Factory.{Arguments, many, create_pdu}
use pyomb.Simulators.Client.{
  ModbusClientSimulator, with_inbox, with_outbox, with_ids, send_request, wait_response, request,
}
use pyomb.Simulators.Client.Matching.{Answers, wait_response-Answers}
use pyomb.Simulators.Client.Identifiers.{sends, waits, run, built, IsFresh, run-next_trans_id}
use pyomb.Simulators.Client.Exchange.{Stale, IsReply, wait_response-finds, wait_response-gives_up}
use pyomb.Simulators.Client.Requests.{framed, create_pdu-IsRequest, send_request-sends}
use pyomb.Simulators.Responses.{create_rsp}
use pyomb.Simulators.Responses.Answered.{IsServed}
use pyomb.Simulators.Server.{ModbusServerSimulator, echoed, on_data}
use pyomb.Simulators.Server.Answers.{on_data-serves}
use pyomb.Simulators.Server.Refuses.{refusal, on_data-refuses, on_data-overflow}
use pyomb.Simulators.Exchange.{request-on_data}
use pyomb.Examples.Data.{
  header_bytes, request as read_pdu, request_bytes, tcp_header, tcp_request, tcp_request_written,
  response_bytes, tcp_response, tcp_response_written,
}

abbrev reads : Arguments
reads = record {
  fc = 3;
  read_address = 0x6B;
  read_count = 3;
  write_address = 0;
  write_count = 1;
  values = many (0 ∷ []);
  and_mask = 0xFFFF;
  or_mask = 0;
}

reads_made : create_pdu reads ≡ ok read_pdu
unfolding create_pdu
reads_made = refl

-- A client that is to use identifier 1, and that awaits an identifier or none.
abbrev client : Option ℕ → Inbox → ModbusClientSimulator
client pending inbox = record {
  unit_id = 0xFF;
  frag_size = pos 2;
  next_trans_id = 1;
  pending_trans_id = pending;
  inbox = inbox;
  outbox = taking [];
}

create_pdu-IsRequest_example :
    IsRequest read_pdu × IsServed read_pdu × (pdu_id (class_of read_pdu) ≡ 3)
create_pdu-IsRequest_example = create_pdu-IsRequest reads read_pdu reads_made

request_written :
    Tcp.serialize (framed (client none []) read_pdu) ≡ ok (header_bytes 6 ++ request_bytes)
unfolding Packet.len RequestFc3.len
request_written = tcp_request_written

send_request-sends_example :
    (send_request reads (client none []) ≡ (
      ok tt,
      record {
        unit_id = 0xFF;
        frag_size = pos 2;
        next_trans_id = 2;
        pending_trans_id = some 1;
        inbox = [];
        outbox = taking (header_bytes 6 ++ request_bytes);
      },
    ))
    × (deserialize_request (parse_request default_registry) (header_bytes 6 ++ request_bytes)
        ≡ ok (framed (client none []) read_pdu))
send_request-sends_example =
    send_request-sends reads 2 (client none []) [] (header_bytes 6 ++ request_bytes) read_pdu refl
      refl reads_made request_written

run-next_trans_id_example :
    IsFresh (run (sends reads ∷ sends reads ∷ waits ∷ []) (client (some 0) []))
    × ((run (sends reads ∷ sends reads ∷ waits ∷ []) (client (some 0) [])).next_trans_id
        ≡ (1 + built (sends reads ∷ sends reads ∷ waits ∷ [])) % 65536)
run-next_trans_id_example =
    run-next_trans_id (sends reads ∷ sends reads ∷ waits ∷ []) (client (some 0) [])
      (omega arith, inr (0, refl, omega arith, refl))

abbrev response_frame : Bytes
response_frame = header_bytes 9 ++ response_bytes

-- The response's frame in two parts, and its first byte once more.
abbrev answered : Inbox
answered =
    bytes 0 (1 ∷ 0 ∷ 0 ∷ 0 ∷ 9 ∷ 0xFF ∷ 3 ∷ [])
    ∷ bytes 6 (0xAE ∷ 0x41 ∷ 0x56 ∷ 0x52 ∷ 0x43 ∷ 0x40 ∷ 0 ∷ [])
    ∷ []

reply : IsReply tcp_response response_frame
unfolding Packet.len ResponseFc3.len
reply = (tt, refl, tcp_response_written)

found :
    (left : Inbox) × (wait_response (client (some 1) answered)
      ≡ (ok (some tcp_response), with_ids 1 none (with_inbox left (client (some 1) answered))))
    × (view left ≡ (0 ∷ [], none))
found =
    wait_response-finds 1 [] [] tcp_response response_frame (0 ∷ []) none (client (some 1) answered)
      refl (omega arith) tt reply refl (unfold assemble in refl)

wait_response-finds_example :
    (left : Inbox) × (wait_response (client (some 1) answered)
      ≡ (ok (some tcp_response), with_ids 1 none (with_inbox left (client (some 1) answered))))
    × (view left ≡ (0 ∷ [], none))
unfolding assemble
wait_response-finds_example =
    wait_response-finds 1 [] [] tcp_response response_frame (0 ∷ []) none (client (some 1) answered)
      refl (omega arith) tt reply refl refl

wait_response-Answers_example :
    Answers
      (client (some 1) answered)
      tcp_response
      (with_ids 1 none (with_inbox (found.0) (client (some 1) answered)))
wait_response-Answers_example =
    wait_response-Answers (client (some 1) answered)
      (with_ids 1 none (with_inbox (found.0) (client (some 1) answered))) tcp_response found.1

-- Nine responses to another request.
abbrev nine : List ModbusTcpPacket
nine =
    tcp_response ∷ tcp_response ∷ tcp_response ∷ tcp_response ∷ tcp_response ∷ tcp_response
    ∷ tcp_response ∷ tcp_response ∷ tcp_response ∷ []

abbrev nine_frames : List Bytes
nine_frames =
    response_frame ∷ response_frame ∷ response_frame ∷ response_frame ∷ response_frame
    ∷ response_frame ∷ response_frame ∷ response_frame ∷ response_frame ∷ []

other : tcp_response.header.trans_id ≢ 2
other = omega arith

stale : Stale 2 nine nine_frames
stale = (
  reply,
  other,
  (
    reply,
    other,
    (
      reply,
      other,
      (
        reply,
        other,
        (reply, other, (reply, other, (reply, other, (reply, other, (reply, other, tt))))),
      ),
    ),
  ),
)

abbrev one_by_one : List Bytes → Inbox
one_by_one [] = []
one_by_one ([] ∷ ss) = one_by_one ss
one_by_one ((b ∷ t) ∷ ss) = bytes b t ∷ one_by_one ss

wait_response-gives_up_example :
    (left : Inbox) × (wait_response (client (some 2) (one_by_one nine_frames))
      ≡ (err network_error, with_inbox left (client (some 2) (one_by_one nine_frames))))
    × (view left ≡ ([], none))
unfolding assemble
wait_response-gives_up_example =
    wait_response-gives_up 2 nine nine_frames [] none (client (some 2) (one_by_one nine_frames))
      refl refl stale refl

abbrev server : ModbusServerSimulator
server = record { fail = false; data_handler = none }

read_within : Packet.violations read_pdu ≡ []
unfolding Packet.violations RequestFc3.violations limit_violations in_range
read_within = refl

on_data-serves_example :
    (s : Bytes) × (on_data server (header_bytes 6 ++ request_bytes) (taking []) ≡ (ok tt, taking s))
    × (Tcp.serialize (echoed tcp_request.header (create_rsp read_pdu)) ≡ ok s)
    × (deserialize_response (parse_response default_registry) s
        ≡ ok (echoed tcp_request.header (create_rsp read_pdu)))
unfolding Packet.len RequestFc3.len
on_data-serves_example =
    on_data-serves server tcp_request (header_bytes 6 ++ request_bytes) [] refl refl tt tt
      read_within refl tcp_request_written

-- What the server sends arrives whole.
abbrev sent_by_server : Bytes
sent_by_server = (on_data server (header_bytes 6 ++ request_bytes) (taking [])).1.sent

abbrev whole : Bytes → Inbox
whole [] = []
whole (b ∷ t) = bytes b t ∷ []

whole-view : (s : Bytes) → view (whole s) ≡ (s, none)
whole-view [] = refl
whole-view (b ∷ t) = ap (λ (u : Bytes). (b ∷ u, none)) (append-nil t)

request-on_data_example :
    (left : Inbox) × (request reads (client none (whole sent_by_server)) ≡ (
      ok (some (echoed (tcp_header 6) (create_rsp read_pdu))),
      with_outbox
          (taking (header_bytes 6 ++ request_bytes))
          (with_inbox left (with_ids 2 none (client none (whole sent_by_server)))),
    ))
    × (view left ≡ ([], none))
unfolding Packet.len RequestFc3.len
request-on_data_example =
    request-on_data reads 2 (client none (whole sent_by_server)) server read_pdu
      (header_bytes 6 ++ request_bytes) [] none refl refl refl refl reads_made read_within
      tcp_request_written
      (whole-view sent_by_server ∙ ap (λ (u : Bytes). (u, none)) (sym (append-nil sent_by_server)))

-- A read of registers that is a byte short.
abbrev short_pdu : Bytes
short_pdu = 3 ∷ 0 ∷ 0x6B ∷ 0 ∷ []

short_parsed : parse_request default_registry short_pdu ≡ err packet_error
unfolding parse_request Parser.get Parser.first_code default_registry unpack Classes.deserialize
    RequestFc3.deserialize
short_parsed = refl

short_header : Header.deserialize (header_bytes 5) ≡ ok (tcp_header 5)
unfolding Header.deserialize Header.of_values unpack
short_header = refl

short_header_written : Header.serialize (tcp_header 5) ≡ ok (header_bytes 5)
unfolding Header.serialize pack
short_header_written = refl

on_data-refuses_example :
    (s : Bytes) × (on_data server (header_bytes 5 ++ short_pdu) (taking []) ≡ (ok tt, taking s))
    × (deserialize_response (parse_response default_registry) s
        ≡ ok (echoed (tcp_header 5) (refusal 3)))
on_data-refuses_example =
    on_data-refuses server (header_bytes 5 ++ short_pdu) (0 ∷ 0x6B ∷ 0 ∷ []) [] (tcp_header 5) 3
      short_header short_header_written refl refl (omega arith) short_parsed

-- A read of 128 registers.
abbrev large_request : ModbusTcpPacket
large_request = record {
  header = tcp_header 6;
  pdu = Packet.request_fc3 (record { start_addr = 0; quantity = 128 });
}

large_parsed :
    deserialize_request
      (parse_request default_registry)
      (header_bytes 6 ++ 3 ∷ 0 ∷ 0 ∷ 0 ∷ 128 ∷ [])
    ≡ ok large_request
large_parsed =
    deserialize_request-serialize_tcp large_request (header_bytes 6 ++ 3 ∷ 0 ∷ 0 ∷ 0 ∷ 128 ∷ []) tt
      (unfold Packet.len in unfold RequestFc3.len in refl)
      (unfold Tcp.serialize in
        unfold Header.serialize in
        unfold Packet.serialize in
        unfold RequestFc3.serialize in unfold pack_pdu in unfold pack in refl)

on_data-overflow_example :
    on_data server (header_bytes 6 ++ 3 ∷ 0 ∷ 0 ∷ 0 ∷ 128 ∷ []) (taking [])
    ≡ (err (protocol_error 4), taking [])
on_data-overflow_example =
    on_data-overflow server (header_bytes 6 ++ 3 ∷ 0 ∷ 0 ∷ 0 ∷ 128 ∷ []) (tcp_header 6)
      (Packet.request_fc3 (record { start_addr = 0; quantity = 128 })) (taking []) refl refl
      large_parsed (omega arith)
