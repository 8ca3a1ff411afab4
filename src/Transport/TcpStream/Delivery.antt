-- ===== src/Transport/TcpStream/Delivery.antt =====
-- receive of transport/stream.py, where the bytes held begin with what a TCP packet serializes to.
use pyomb.Prelude.{
  ℕ, suc, ◌+◌, ◌-◌, ◌≤◌, ◌≡◌, sym, ap, ap₂, subst, ◌∙◌, true, false, Option, ◌++◌, arith, length,
  take, leb, ◌==◌, append_assoc, length-append, take-length, drop-length,
}
use pyomb.Errors.{ok, ModbusHeader}
use pyomb.Struct.{Bytes}
use pyomb.Pdu.Packet
use pyomb.Pdu.RoundTrip.{length-serialize}
use pyomb.Adu.Header
use pyomb.Adu.Tcp
use pyomb.Adu.Tcp.{ModbusTcpPacket}
use pyomb.Adu.Tcp.RoundTrip.{serialize-eq-ok, take-header}
use pyomb.Transport.Socket.{Inbox, held, stop}
use pyomb.Transport.TcpStream.{receive}
use pyomb.Transport.TcpStream.Reads.{seen}
use pyomb.Transport.TcpStream.Refines.{receive-receives}
use pyomb.Transport.TcpStream.Contract.{declared, frame, receives}

-- A frame of a header's bytes and a PDU's, with more behind it.
receives-append :
    (h : ModbusHeader) (a b more : Bytes) (q : Option Inbox)
    → Header.serialize h ≡ ok a
    → h.length ≡ suc (length b)
    → receives ((a ++ b) ++ more, q) ≡ (ok (a ++ b), (more, q))
unfolding receives frame declared
receives-append h a b more q e agree =
    let n = Header.sized h a e in
    let total : 7 + (h.length - 1) ≡ length (a ++ b) = omega (arith, length-append a b) in
    let start : take 7 ((a ++ b) ++ more) ≡ a =
      ap (take 7) (append_assoc a b more) ∙ take-header a (b ++ more) n in
    let headed : leb 7 (length ((a ++ b) ++ more)) ≡ true =
      ground (arith, length-append (a ++ b) more, length-append a b) in
    let enough : leb (length (a ++ b)) (length ((a ++ b) ++ more)) ≡ true =
      ground (arith, length-append (a ++ b) more) in
    let nonzero : (h.length == 0) ≡ false = ground arith in
    rw (headed, start, Header.deserialize-serialize_header h a e, nonzero, total, enough)
      (ap₂ (λ (u v : Bytes). (ok u, (v, q))) (take-length (a ++ b) more)
        (drop-length (a ++ b) more))

pub receive-serialize :
    (p : ModbusTcpPacket) (s more : Bytes) (frag : ℕ) (q : Inbox)
    → p.header.length ≡ suc (Packet.len p.pdu)
    → Tcp.serialize p ≡ ok s
    → held q ≡ s ++ more
    → seen (receive frag q) ≡ (ok s, (more, stop q))
receive-serialize p s more frag q agree h arrives =
    let (a, b, e, f, whole) = serialize-eq-ok p s h in
    let size = length-serialize p.pdu b f in
    receive-receives frag q
    ∙ ap (λ t. receives (t, stop q)) (arrives ∙ ap (λ (t : Bytes). t ++ more) (sym whole))
    ∙ receives-append p.header a b more (stop q) e (omega arith)
    ∙ ap (λ (t : Bytes). (ok t, (more, stop q))) whole

-- What a TCP packet serializes to has a header and more.
pub serialize-long : (p : ModbusTcpPacket) (s : Bytes) → Tcp.serialize p ≡ ok s → 7 ≤ length s
serialize-long p s h =
    let (a, b, e, f, whole) = serialize-eq-ok p s h in
    subst (λ u. 7 ≤ length u) whole (omega (arith, length-append a b, Header.sized p.header a e))
