-- ===== src/Adu/Tcp/RoundTrip.antt =====
-- serialize and deserialize of the TCP frame classes, adu/tcp.py, together.
use pyomb.Prelude.{
  ℕ, suc, ◌+◌, ◌≡◌, ◌≢◌, ◌≤◌, refl, ap, subst, ◌++◌, arith, length, take, drop, All, All-take,
  All-drop, take-length, drop-length, length-append, take-append-drop,
}
use pyomb.Errors.{Result, ok, err, packet_error, ModbusHeader, >>=-eq-ok, catch_packet-eq-ok}
use pyomb.Struct.{Bytes, IsByte}
use pyomb.Pdu.Packet
use pyomb.Pdu.Packet.{Packet}
use pyomb.Pdu.Classes
use pyomb.Pdu.Classes.{PduClass}
use pyomb.Pdu.Parser.{default_registry, parse_request, parse_response}
use pyomb.Pdu.RoundTrip.{IsRequest, IsResponse, length-serialize}
use pyomb.Pdu.Default.{parse_request-serialize_default, parse_response-serialize_default}
use pyomb.Pdu.Positive.{serialize-positive}
use pyomb.Adu.Rtu.Transparent.{rebuild_generic}
use pyomb.Adu.Header
use pyomb.Adu.Header.{validate_mbap_length}
use pyomb.Adu.Tcp.{
  ModbusTcpPacket, serialize, deserialize_request, deserialize_response, deserialize_packet,
  read_header, refuse_pdu,
}

-- What a successful `serialize` wrote.
pub serialize-eq-ok :
    (p : ModbusTcpPacket) (s : Bytes)
    → serialize p ≡ ok s
    → (a : Bytes) × (b : Bytes) × (Header.serialize p.header ≡ ok a)
      × (Packet.serialize p.pdu ≡ ok b)
      × (a ++ b ≡ s)
unfolding serialize
serialize-eq-ok p s h =
    let (a, e, r) = >>=-eq-ok (Header.serialize p.header) _ (catch_packet-eq-ok _ h) in
    let (b, f, g) = >>=-eq-ok (Packet.serialize p.pdu) _ r in (a, b, e, f, ground arith)

-- The length test, on a header's bytes and a PDU's.
validate_mbap_length-append :
    (h : ModbusHeader) (a b : Bytes)
    → length a ≡ 7
    → h.length ≡ suc (length b)
    → validate_mbap_length h (a ++ b) ≡ ok tt
unfolding validate_mbap_length
validate_mbap_length-append h a b e f = ground (arith, length-append a b)

pub take-header : (a b : Bytes) → length a ≡ 7 → take 7 (a ++ b) ≡ a
take-header a b e = subst (λ (n : ℕ). take n (a ++ b) ≡ a) e (take-length a b)

drop-header : (a b : Bytes) → length a ≡ 7 → drop 7 (a ++ b) ≡ b
drop-header a b e = subst (λ (n : ℕ). drop n (a ++ b) ≡ b) e (drop-length a b)

module _ (parse : Bytes → Result Packet) (h : ModbusHeader) (a b : Bytes)
    (e : Header.serialize h ≡ ok a) where
  read_header-append : h.length ≡ suc (length b) → read_header (a ++ b) ≡ ok h
  unfolding read_header
  read_header-append f =
      let n = Header.sized h a e in
      rw
        (
          take-header a b n,
          Header.deserialize-serialize_header h a e,
          validate_mbap_length-append h a b n f,
        )
        refl

  pub deserialize_request-append :
      (p : Packet)
      → h.length ≡ suc (length b)
      → parse b ≡ ok p
      → deserialize_request parse (a ++ b) ≡ ok (record { header = h; pdu = p })
  unfolding deserialize_request refuse_pdu
  deserialize_request-append p f g =
      let n = Header.sized h a e in rw (read_header-append f, drop-header a b n, g) refl

  pub deserialize_response-append :
      (p : Packet)
      → h.length ≡ suc (length b)
      → parse b ≡ ok p
      → deserialize_response parse (a ++ b) ≡ ok (record { header = h; pdu = p })
  unfolding deserialize_response
  deserialize_response-append p f g =
      let n = Header.sized h a e in
      rw
        (
          take-header a b n,
          Header.deserialize-serialize_header h a e,
          validate_mbap_length-append h a b n f,
          drop-header a b n,
          g,
        )
        refl

-- What a TCP packet with a request PDU serializes to, ModbusTcpRequest reads back under the default
-- registry as the packet, if the header says the length of the PDU and one more.
pub deserialize_request-serialize_tcp :
    (p : ModbusTcpPacket) (s : Bytes)
    → IsRequest p.pdu
    → p.header.length ≡ suc (Packet.len p.pdu)
    → serialize p ≡ ok s
    → deserialize_request (parse_request default_registry) s ≡ ok p
deserialize_request-serialize_tcp p s i agree h =
    let (a, b, e, f, whole) = serialize-eq-ok p s h in
    let size = length-serialize p.pdu b f in
    subst (λ t. deserialize_request (parse_request default_registry) t ≡ ok p) whole
      (deserialize_request-append (parse_request default_registry) p.header a b e p.pdu
        (omega arith) (parse_request-serialize_default p.pdu b i f))

-- What a TCP packet with a response PDU serializes to, ModbusTcpResponse reads back under the
-- default registry as the packet, if the header says the length of the PDU and one more.
pub deserialize_response-serialize_tcp :
    (p : ModbusTcpPacket) (s : Bytes)
    → IsResponse p.pdu
    → p.header.length ≡ suc (Packet.len p.pdu)
    → serialize p ≡ ok s
    → deserialize_response (parse_response default_registry) s ≡ ok p
deserialize_response-serialize_tcp p s i agree h =
    let (a, b, e, f, whole) = serialize-eq-ok p s h in
    let size = length-serialize p.pdu b f in
    subst (λ t. deserialize_response (parse_response default_registry) t ≡ ok p) whole
      (deserialize_response-append (parse_response default_registry) p.header a b e p.pdu
        (omega arith) (parse_response-serialize_default p.pdu b i f))

validate_mbap_length-mismatch :
    (h : ModbusHeader) (a b : Bytes)
    → length a ≡ 7
    → h.length ≢ suc (length b)
    → (h.length ≡ 0 → 1 ≤ length b)
    → validate_mbap_length h (a ++ b) ≡ err packet_error
unfolding validate_mbap_length
validate_mbap_length-mismatch h a b e ne pos = ground (arith, length-append a b)

-- What a TCP packet serializes to is refused with a packet error, as a request and as a response
-- and whatever the parser, if the header does not say the length of the PDU and one more.
pub deserialize-mismatch :
    (parse : Bytes → Result Packet) (p : ModbusTcpPacket) (s : Bytes)
    → p.header.length ≢ suc (Packet.len p.pdu)
    → serialize p ≡ ok s
    → (deserialize_request parse s ≡ err packet_error)
      × (deserialize_response parse s ≡ err packet_error)
unfolding deserialize_request read_header deserialize_response
deserialize-mismatch parse p s ne h =
    let (a, b, e, f, whole) = serialize-eq-ok p s h in
    let n = Header.sized p.header a e in
    let size = length-serialize p.pdu b f in
    let bad =
      validate_mbap_length-mismatch p.header a b n (λ k. ne (omega arith))
        (λ z. serialize-positive p.pdu b f) in
    subst
      (λ t.
        (deserialize_request parse t ≡ err packet_error)
        × (deserialize_response parse t ≡ err packet_error))
      whole
      (rw (take-header a b n, Header.deserialize-serialize_header p.header a e, bad) (refl, refl))

pub validate_mbap_length-eq-ok :
    (h : ModbusHeader) (s : Bytes) → validate_mbap_length h s ≡ ok tt → length s ≡ 6 + h.length
unfolding validate_mbap_length
validate_mbap_length-eq-ok h s e = ground arith

-- A byte string that ModbusTcpPacket reads is what the packet serializes to.
pub serialize-deserialize_tcp :
    (s : Bytes) (p : ModbusTcpPacket)
    → All IsByte s
    → deserialize_packet s ≡ ok p
    → serialize p ≡ ok s
unfolding serialize deserialize_response
serialize-deserialize_tcp s p bytes h =
    let (header, e, r) = >>=-eq-ok (Header.deserialize (take 7 s)) _ (catch_packet-eq-ok _ h) in
    let (_, v, r') = >>=-eq-ok (validate_mbap_length header s) _ r in
    let (pdu, f, built) = >>=-eq-ok (Classes.deserialize PduClass.generic (drop 7 s)) _ r' in
    let a = Header.serialize-deserialize_header (take 7 s) header (All-take IsByte 7 s bytes) e in
    let b = rebuild_generic (drop 7 s) pdu (All-drop IsByte 7 s bytes) f in
    let same : record { header = header; pdu = pdu } ≡ p = ground arith in
    subst (λ q. serialize q ≡ ok s) same
      (rw (a, b) (ap (λ (t : Bytes). ok t) (take-append-drop 7 s)))
