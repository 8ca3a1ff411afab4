-- ===== src/Simulators/Client/Requests.antt =====
-- send_request of simulators/client.py: the PDU that it makes, and the frame that it sends.
use pyomb.Prelude.{
  ◌%◌, some, ℕ, ◌+◌, ◌≡◌, inl, inr, refl, ap, subst, ◌∙◌, List, ◌++◌, length, ◌==◌, if◌then◌else◌,
  Bool-cases, arith, ltb, ◌/◌,
}
use pyomb.Prelude.Int.{pos}
use pyomb.Errors.{Result, ok, >>=-eq-ok, ◌>>=◌}
use pyomb.Struct.{Bytes}
use pyomb.Pdu.Packet
use pyomb.Pdu.Packet.{Packet}
use pyomb.Pdu.Classes.{class_of, pdu_id}
use pyomb.Pdu.Parser.{default_registry, parse_request}
use pyomb.Pdu.RoundTrip.{IsRequest}
use pyomb.Adu.Tcp
use pyomb.Adu.Tcp.{ModbusTcpPacket, deserialize_request, deserialize_response}
use pyomb.Adu.Tcp.RoundTrip.{deserialize_request-serialize_tcp}
use pyomb.Io.{continue}
use pyomb.Transport.TcpStream
use pyomb.Transport.TcpStream.Sends.{taking, send-whole}
use pyomb.Simulators.Responses.Answered.{IsServed}
use pyomb.Simulators.Factory.{Arguments, Values, create_pdu, single_value, create_fc15_req}
use pyomb.Simulators.Client.{
  ModbusClientSimulator, with_outbox, take_trans_id, send_pdu, send_request,
}

-- What a function code may lead to: a request PDU with that code, or an error.
Chosen : ℕ → Result Packet → Type 0
Chosen fc r = (p : Packet) → r ≡ ok p → IsRequest p × IsServed p × (pdu_id (class_of p) ≡ fc)

chosen :
    (fc n : ℕ) (x y : Result Packet)
    → ((p : Packet) → x ≡ ok p → IsRequest p × IsServed p × (pdu_id (class_of p) ≡ n))
    → Chosen fc y
    → Chosen fc (if fc == n then x else y)
unfolding Chosen
chosen fc n x y f g p h = elim (Bool-cases (fc == n)) [
  | inl same ↦ let (i, v, id) = f p (rw same at h) in (i, v, id ∙ ground arith)
  | inr other ↦ g p (rw other at h)
]

-- A PDU that is given is a request with a function code.
abbrev Requests : ℕ → Packet → Type 0
Requests n p = IsRequest p × IsServed p × (pdu_id (class_of p) ≡ n)

given : (n : ℕ) (q p : Packet) → Requests n q → ok q ≡ ok p → Requests n p
given n q p h e = subst (Requests n) (let same = e in ground arith) h

single :
    (n : ℕ) (make : ℕ → Packet) (v : Values) (p : Packet)
    → ((x : ℕ) → Requests n (make x))
    → (single_value v >>= λ x. ok (make x)) ≡ ok p
    → Requests n p
single n make v p h e =
    let (x, _, made) = >>=-eq-ok (single_value v) _ e in given n (make x) p (h x) made

coils :
    (to count : ℕ) (vs : List ℕ) (p : Packet) → create_fc15_req to count vs ≡ ok p → Requests 15 p
unfolding create_fc15_req class_of pdu_id
coils to count vs p e = elim (Bool-cases (ltb (length vs) ((count + 7) / 8))) [
  | inl short ↦ absurd (let bad = rw short at e in cc)
  | inr enough ↦ given 15 _ p (tt, tt, refl) (rw enough at e)
]

-- A PDU that `send_request` makes is a request of the function code that it was asked for, and not
-- one of diagnostics.
pub create_pdu-IsRequest :
    (a : Arguments) (p : Packet)
    → create_pdu a ≡ ok p
    → IsRequest p × IsServed p × (pdu_id (class_of p) ≡ a.fc)
unfolding create_pdu Chosen class_of pdu_id
create_pdu-IsRequest a =
    chosen a.fc 1 _ _ (λ p. given 1 _ p (tt, tt, refl))
      (chosen a.fc 2 _ _ (λ p. given 2 _ p (tt, tt, refl))
        (chosen a.fc 3 _ _ (λ p. given 3 _ p (tt, tt, refl))
          (chosen a.fc 4 _ _ (λ p. given 4 _ p (tt, tt, refl))
            (chosen a.fc 5 _ _ (λ p. single 5 _ a.values p (λ x. (tt, tt, refl)))
              (chosen a.fc 6 _ _ (λ p. single 6 _ a.values p (λ x. (tt, tt, refl)))
                (chosen a.fc 7 _ _ (λ p. given 7 _ p (tt, tt, refl))
                  (chosen a.fc 15 _ _ (λ p. coils a.write_address a.write_count _ p)
                    (chosen a.fc 16 _ _ (λ p. given 16 _ p (tt, tt, refl))
                      (chosen a.fc 22 _ _ (λ p. given 22 _ p (tt, tt, refl))
                        (chosen a.fc 23 _ _ (λ p. given 23 _ p (tt, tt, refl))
                          (chosen a.fc 43 _ _ (λ p. given 43 _ p (tt, tt, refl))
                            (λ p h. absurd (let bad = h in cc)))))))))))))

-- The frame that a client makes of a PDU.
abbrev pub framed : ModbusClientSimulator → Packet → ModbusTcpPacket
framed c pdu = record {
  header = record {
    trans_id = c.next_trans_id;
    prot_id = 0;
    length = Packet.len pdu + 1;
    unit_id = c.unit_id;
  };
  pdu = pdu;
}

send_pdu-taking :
    (size : ℕ) (c : ModbusClientSimulator) (b s : Bytes) (pdu : Packet)
    → c.frag_size ≡ pos size
    → c.outbox ≡ taking b
    → Tcp.serialize (framed c pdu) ≡ ok s
    → send_pdu pdu c.next_trans_id (take_trans_id c).1
      ≡ (ok tt, with_outbox (taking (b ++ s)) (take_trans_id c).1)
unfolding send_pdu take_trans_id
send_pdu-taking size c b s pdu sized clear h =
    let d = (take_trans_id c).1 in
    let sent : (continue (TcpStream.send c.frag_size) (Tcp.serialize (framed c pdu), c.outbox))
        ≡ (ok tt, taking (b ++ s)) =
      rw (sized, clear, h) (send-whole size s b) in
    ap (λ o. (o.0, with_outbox o.1 d)) sent

-- Where a PDU is made of the arguments and the request serializes, and the socket takes all that it
-- is given, `send_request` sends the frame under the next identifier, which is then the one
-- awaited, moves the next on by one modulo 65536 and changes nothing else of the client, and a
-- server reads the frame back as that request under the default registry, if the fragment size is
-- not negative.
pub send_request-sends :
    (a : Arguments) (size : ℕ) (c : ModbusClientSimulator) (b s : Bytes) (pdu : Packet)
    → c.frag_size ≡ pos size
    → c.outbox ≡ taking b
    → create_pdu a ≡ ok pdu
    → Tcp.serialize (framed c pdu) ≡ ok s
    → (send_request a c ≡ (
      ok tt,
      record {
        unit_id = c.unit_id;
        frag_size = c.frag_size;
        next_trans_id = (c.next_trans_id + 1) % 65536;
        pending_trans_id = some c.next_trans_id;
        inbox = c.inbox;
        outbox = taking (b ++ s);
      },
    ))
      × (deserialize_request (parse_request default_registry) s ≡ ok (framed c pdu))
unfolding send_request take_trans_id
send_request-sends a size c b s pdu sized clear made h = (
  ap (λ r. continue (λ p d. continue (send_pdu p) (take_trans_id d)) (r, c)) made
      ∙ unfold take_trans_id in send_pdu-taking size c b s pdu sized clear h,
  deserialize_request-serialize_tcp (framed c pdu) s (create_pdu-IsRequest a pdu made).0
      (omega arith) h,
)
