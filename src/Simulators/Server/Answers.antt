-- ===== src/Simulators/Server/Answers.antt =====
-- on_data of simulators/server.py: the frames that answer a request.
use pyomb.Prelude.{ℕ, suc, ◌+◌, ◌<◌, ◌≡◌, refl, ap, ◌∙◌, false, none, [], ◌∷◌, ◌++◌, arith}
use pyomb.Errors.{ok, ModbusHeader, catch_struct-eq-ok}
use pyomb.Struct.{Bytes}
use pyomb.Struct.Laws.{pack_total}
use pyomb.Pdu.Packet
use pyomb.Pdu.Packet.{Packet}
use pyomb.Pdu.Parser.{default_registry, parse_response}
use pyomb.Pdu.RoundTrip.{IsRequest, length-serialize}
use pyomb.Adu.Header
use pyomb.Adu.Tcp
use pyomb.Adu.Tcp.{ModbusTcpPacket, deserialize_request, deserialize_response}
use pyomb.Adu.Tcp.RoundTrip.{
  serialize-eq-ok, deserialize_request-serialize_tcp, deserialize_response-serialize_tcp,
}
use pyomb.Transport.TcpStream.Sends.{taking, send-whole}
use pyomb.Simulators.Responses.{create_rsp, response_pdu}
use pyomb.Simulators.Responses.Answered.{IsServed, Written, create_rsp-IsResponse}
use pyomb.Simulators.Responses.Sendable.{pack-Fits, create_rsp-sends}
use pyomb.Simulators.Server.{
  ModbusServerSimulator, echoed, answer, as_failure, respond, handle, on_data,
}

pub answer-taking :
    (h : ModbusHeader) (p : Packet) (b s : Bytes)
    → Tcp.serialize (echoed h p) ≡ ok s
    → answer h p (taking b) ≡ (ok tt, taking (b ++ s))
unfolding answer
answer-taking h p b s e = rw e (send-whole 0 s b)

-- A header keeps its identifiers and takes another length that fits.
header-relength :
    (h : ModbusHeader) (n : ℕ) (a : Bytes)
    → n < 65536
    → Header.serialize h ≡ ok a
    → (c : Bytes) × (Header.serialize
          (record { trans_id = h.trans_id; prot_id = h.prot_id; length = n; unit_id = h.unit_id })
        ≡ ok c)
unfolding Header.serialize
header-relength h n a small e =
    let (t, (p, (_, (u, _)))) =
      pack-Fits Header.header_fmt (Header.fields h) a (catch_struct-eq-ok _ e) in
    let (c, packed) =
      pack_total Header.header_fmt (h.trans_id ∷ h.prot_id ∷ n ∷ h.unit_id ∷ [])
        (t, (p, (small, (u, tt)))) in
    (c, rw packed refl)

pub echoed-serializes :
    (h : ModbusHeader) (p : Packet) (a : Bytes)
    → Header.serialize h ≡ ok a
    → Written (Packet.serialize p)
    → (s : Bytes) × (Tcp.serialize (echoed h p) ≡ ok s)
unfolding Tcp.serialize
echoed-serializes h p a e (t, f, short) =
    let size = length-serialize p t f in
    let (c, g) = header-relength h (Packet.len p + 1) a (omega arith) e in (c ++ t, rw (g, f) refl)

header-short : (h : ModbusHeader) (a : Bytes) → Header.serialize h ≡ ok a → h.length < 65536
unfolding Header.serialize
header-short h a e =
    (pack-Fits Header.header_fmt (Header.fields h) a (catch_struct-eq-ok _ e)).1.1.0

respond-served :
    (server : ModbusServerSimulator) (p : ModbusTcpPacket) (b s : Bytes)
    → server.fail ≡ false
    → server.data_handler ≡ none
    → Tcp.serialize (echoed p.header (create_rsp p.pdu)) ≡ ok s
    → respond server (ok p) (taking b) ≡ (ok tt, taking (b ++ s))
unfolding respond handle response_pdu
respond-served server p b s works plain h =
    rw (works, plain)
      (ap (λ o. (as_failure o.0, o.1)) (answer-taking p.header (create_rsp p.pdu) b s h))

-- A server that is not set to fail and has no handler answers every frame of a request that
-- serializes, is within the limits of its class and is not of diagnostics, if the header says the
-- length of the PDU and one more and the socket takes all that it is given: it sends one frame,
-- which a client reads back under the default registry as the response that the factory makes,
-- under the request's identifiers.
pub on_data-serves :
    (server : ModbusServerSimulator) (p : ModbusTcpPacket) (u b : Bytes)
    → server.fail ≡ false
    → server.data_handler ≡ none
    → IsServed p.pdu
    → IsRequest p.pdu
    → Packet.violations p.pdu ≡ []
    → p.header.length ≡ suc (Packet.len p.pdu)
    → Tcp.serialize p ≡ ok u
    → (s : Bytes) × (on_data server u (taking b) ≡ (ok tt, taking (b ++ s)))
      × (Tcp.serialize (echoed p.header (create_rsp p.pdu)) ≡ ok s)
      × (deserialize_response (parse_response default_registry) s
          ≡ ok (echoed p.header (create_rsp p.pdu)))
unfolding on_data
on_data-serves server p u b works plain served i within agree h =
    let (a, t, e, f, whole) = serialize-eq-ok p u h in
    let size = length-serialize p.pdu t f in
    let short = header-short p.header a e in
    let written = create_rsp-sends p.pdu t served within f (omega arith) in
    let (s, g) = echoed-serializes p.header (create_rsp p.pdu) a e written in
    (
      s,
      ap (λ r. respond server r (taking b)) (deserialize_request-serialize_tcp p u i agree h)
          ∙ respond-served server p b s works plain g,
      g,
      deserialize_response-serialize_tcp (echoed p.header (create_rsp p.pdu)) s
          (create_rsp-IsResponse p.pdu served) (omega arith) g,
    )
