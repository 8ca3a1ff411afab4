-- ===== src/Simulators/Exchange.antt =====
-- The client of simulators/client.py against the server of simulators/server.py.
use pyomb.Prelude.{ℕ, ◌+◌, ◌%◌, ◌≡◌, refl, ap, ◌∙◌, false, Option, none, some, [], ◌++◌, arith}
use pyomb.Prelude.Int.{pos}
use pyomb.Errors.{ok}
use pyomb.Struct.{Bytes}
use pyomb.Io.{continue}
use pyomb.Pdu.Packet
use pyomb.Pdu.Packet.{Packet}
use pyomb.Adu.Tcp
use pyomb.Transport.Fragmenter.{assemble}
use pyomb.Transport.Socket.{Inbox, view}
use pyomb.Transport.TcpStream.Sends.{taking}
use pyomb.Simulators.Factory.{Arguments, create_pdu}
use pyomb.Simulators.Client.{
  ModbusClientSimulator, with_inbox, with_outbox, with_ids, wait_response, request,
}
use pyomb.Simulators.Client.Requests.{framed, create_pdu-IsRequest, send_request-sends}
use pyomb.Simulators.Client.Exchange.{wait_response-finds}
use pyomb.Simulators.Responses.{create_rsp}
use pyomb.Simulators.Responses.Answered.{create_rsp-IsResponse}
use pyomb.Simulators.Server.{ModbusServerSimulator, echoed, on_data}
use pyomb.Simulators.Server.Answers.{on_data-serves}

-- A client's `request` within the limits of its class, at a server that is not set to fail and has
-- no handler: where the request serializes, the client's fragment size is not negative, its socket
-- takes all that it is given and what arrives begins with what the server sends for the frame, in
-- any cut, the client sends that frame, gets the server's response to its PDU under its own
-- identifiers, awaits nothing more and leaves what follows the response.
pub request-on_data :
    (a : Arguments) (size : ℕ) (c : ModbusClientSimulator) (server : ModbusServerSimulator)
    (pdu : Packet) (s more : Bytes) (st : Option Inbox)
    → c.frag_size ≡ pos size
    → c.outbox ≡ taking []
    → server.fail ≡ false
    → server.data_handler ≡ none
    → create_pdu a ≡ ok pdu
    → Packet.violations pdu ≡ []
    → Tcp.serialize (framed c pdu) ≡ ok s
    → view c.inbox ≡ ((on_data server s (taking [])).1.sent ++ more, st)
    → (left : Inbox) × (request a c ≡ (
      ok (some (echoed (framed c pdu).header (create_rsp pdu))),
      with_outbox (taking s) (with_inbox left (with_ids ((c.next_trans_id + 1) % 65536) none c)),
    ))
      × (view left ≡ (more, st))
unfolding request
request-on_data a size c server pdu s more st sized clear works plain made within h e =
    let (i, served, _) = create_pdu-IsRequest a pdu made in
    let (sends, _) = send_request-sends a size c [] s pdu sized clear made h in
    let (t, answers, frame, _) =
      on_data-serves server (framed c pdu) s [] works plain served i within (omega arith) h in
    let arrives = e ∙ ap (λ o. (o.1.sent ++ more, st)) answers in
    let asked =
      with_outbox (taking s) (with_ids ((c.next_trans_id + 1) % 65536) (some c.next_trans_id) c) in
    let (left, found, v) =
      wait_response-finds c.next_trans_id [] [] (echoed (framed c pdu).header (create_rsp pdu)) t
        more st asked refl (omega arith) tt (create_rsp-IsResponse pdu served, omega arith, frame)
        refl (unfold assemble in arrives) in
    (left, ap (continue (λ done. wait_response)) sends ∙ found, v)
