-- ===== src/Simulators/Client/Exchange.antt =====
-- send_request and wait_response of simulators/client.py on frames.
use pyomb.Prelude.{
  ℕ, zero, suc, ◌<◌, ◌≤◌, ◌≡◌, ◌≢◌, refl, ap, subst, ◌∙◌, true, false, Option, none, some, List, [],
  ◌∷◌, ◌++◌, length, ◌==◌, arith, append_assoc,
}
use pyomb.Errors.{ok, err, network_error}
use pyomb.Struct.{Bytes}
use pyomb.Pdu.Packet
use pyomb.Pdu.Packet.{Packet}
use pyomb.Pdu.RoundTrip.{IsResponse}
use pyomb.Adu.Tcp
use pyomb.Adu.Tcp.{ModbusTcpPacket, deserialize_request, deserialize_response}
use pyomb.Adu.Tcp.RoundTrip.{deserialize_response-serialize_tcp}
use pyomb.Transport.Fragmenter.{assemble}
use pyomb.Transport.Socket.{Inbox, view, stop}
use pyomb.Transport.TcpStream.Delivery.{receive-serialize, serialize-long}
use pyomb.Transport.TcpStream.Reads.{seen-inv}
use pyomb.Simulators.Client.{
  ModbusClientSimulator, with_inbox, with_ids, receive_data, accept_pending, accept_response,
  wait_turns, wait_response,
}

-- A response, and the frame that a server sends it as.
abbrev pub IsReply : ModbusTcpPacket → Bytes → Type 0
IsReply p s =
    IsResponse p.pdu × (p.header.length ≡ suc (Packet.len p.pdu)) × (Tcp.serialize p ≡ ok s)

receive_data-frame :
    (c : ModbusClientSimulator) (p : ModbusTcpPacket) (s more : Bytes) (st : Option Inbox)
    → IsReply p s
    → view c.inbox ≡ (s ++ more, st)
    → (left : Inbox) × (receive_data c ≡ (ok s, with_inbox left c)) × (view left ≡ (more, st))
unfolding receive_data
receive_data-frame c p s more st (_, agree, h) e =
    let arrived = receive-serialize p s more 0 c.inbox agree h (ap (λ v. v.0) e) in
    let (left, read, v) = seen-inv _ s (more, stop c.inbox) arrived in
    (left, ap (λ o. (o.0, with_inbox o.1 c)) read, v ∙ ap (λ w. (more, w.1)) e)

wait_turns-frame :
    (n : ℕ) (c d : ModbusClientSimulator) (p : ModbusTcpPacket) (s : Bytes)
    → IsReply p s
    → receive_data c ≡ (ok s, d)
    → wait_turns (suc n) c ≡ accept_response (wait_turns n) p d
unfolding wait_turns
wait_turns-frame n c d p s (i, agree, h) read =
    let long = serialize-long p s h in
    let some_bytes : (length s == 0) ≡ false = ground arith in
    rw (read, some_bytes, deserialize_response-serialize_tcp p s i agree h) refl

-- Responses that answer other requests, in order, each with its frame.
abbrev pub Stale : ℕ → List ModbusTcpPacket → List Bytes → Type 0
Stale k [] [] = Unit
Stale k (p ∷ ps) (s ∷ ss) = IsReply p s × (p.header.trans_id ≢ k) × Stale k ps ss
Stale _ _ _ = ⊥

drop-stale :
    (k n : ℕ) (c : ModbusClientSimulator) (p : ModbusTcpPacket) (s more : Bytes) (st : Option Inbox)
    → c.pending_trans_id ≡ some k
    → IsReply p s
    → p.header.trans_id ≢ k
    → view c.inbox ≡ (s ++ more, st)
    → (left : Inbox) × (wait_turns (suc n) c ≡ wait_turns n (with_inbox left c))
      × (view left ≡ (more, st))
unfolding accept_response accept_pending
drop-stale k n c p s more st waits reply other e =
    let (left, read, v) = receive_data-frame c p s more st reply e in
    let differs : (p.header.trans_id == k) ≡ false = ground arith in
    (
      left,
      wait_turns-frame n c (with_inbox left c) p s reply read
          ∙ ap (λ (o : Option ℕ). accept_pending o (wait_turns n) p (with_inbox left c)) waits
          ∙ rw differs refl,
      v,
    )

finds :
    (n k : ℕ) (ps : List ModbusTcpPacket) (ss : List Bytes) (p : ModbusTcpPacket) (s more : Bytes)
    (st : Option Inbox) (c : ModbusClientSimulator)
    → c.pending_trans_id ≡ some k
    → length ps < n
    → Stale k ps ss
    → IsReply p s
    → p.header.trans_id ≡ k
    → view c.inbox ≡ (assemble ss ++ (s ++ more), st)
    → (left : Inbox) × (wait_turns n c
        ≡ (ok (some p), with_ids c.next_trans_id none (with_inbox left c)))
      × (view left ≡ (more, st))
unfolding assemble accept_response accept_pending
finds zero k ps ss p s more st c waits few stale reply same e = absurd (omega arith)
finds (suc n) k (x ∷ ps) [] p s more st c waits few stale reply same e = absurd stale
finds (suc n) k [] (x ∷ ss) p s more st c waits few stale reply same e = absurd stale
finds (suc n) k [] [] p s more st c waits few stale reply same e =
    let (left, read, v) = receive_data-frame c p s more st reply e in
    let matches : (p.header.trans_id == k) ≡ true = ground arith in
    (
      left,
      wait_turns-frame n c (with_inbox left c) p s reply read
          ∙ ap (λ (o : Option ℕ). accept_pending o (wait_turns n) p (with_inbox left c)) waits
          ∙ rw matches refl,
      v,
    )
finds (suc n) k (x ∷ ps) (u ∷ ss) p s more st c waits few (old, other, stale) reply same e =
    let arrives = e ∙ ap (λ t. (t, st)) (append_assoc u (assemble ss) (s ++ more)) in
    let (left, dropped, v) =
      drop-stale k n c x u (assemble ss ++ (s ++ more)) st waits old other arrives in
    let (last, found, w) =
      finds n k ps ss p s more st (with_inbox left c) waits (omega arith) stale reply same v in
    (last, dropped ∙ found, w)

gives_up :
    (k : ℕ) (ps : List ModbusTcpPacket) (ss : List Bytes) (more : Bytes) (st : Option Inbox)
    (c : ModbusClientSimulator)
    → c.pending_trans_id ≡ some k
    → Stale k ps ss
    → view c.inbox ≡ (assemble ss ++ more, st)
    → (left : Inbox) × (wait_turns (length ps) c ≡ (err network_error, with_inbox left c))
      × (view left ≡ (more, st))
unfolding assemble
gives_up k [] [] more st c waits stale e = (c.inbox, unfold wait_turns in refl, e)
gives_up k (x ∷ ps) [] more st c waits stale e = absurd stale
gives_up k [] (x ∷ ss) more st c waits stale e = absurd stale
gives_up k (x ∷ ps) (u ∷ ss) more st c waits (old, other, stale) e =
    let arrives = e ∙ ap (λ t. (t, st)) (append_assoc u (assemble ss) more) in
    let (left, dropped, v) =
      drop-stale k (length ps) c x u (assemble ss ++ more) st waits old other arrives in
    let (last, out, w) = gives_up k ps ss more st (with_inbox left c) waits stale v in
    (last, dropped ∙ out, w)

-- Where the arrivals hold, in any cut, at most eight responses to other requests and then one to
-- the request that is awaited, `wait_response` returns that one, awaits none and leaves what
-- follows it.
pub wait_response-finds :
    (k : ℕ) (ps : List ModbusTcpPacket) (ss : List Bytes) (p : ModbusTcpPacket) (s more : Bytes)
    (st : Option Inbox) (c : ModbusClientSimulator)
    → c.pending_trans_id ≡ some k
    → length ps ≤ 8
    → Stale k ps ss
    → IsReply p s
    → p.header.trans_id ≡ k
    → view c.inbox ≡ (assemble ss ++ (s ++ more), st)
    → (left : Inbox) × (wait_response c
        ≡ (ok (some p), with_ids c.next_trans_id none (with_inbox left c)))
      × (view left ≡ (more, st))
unfolding wait_response
wait_response-finds k ps ss p s more st c waits few stale reply same e =
    finds 9 k ps ss p s more st c waits (omega arith) stale reply same e

-- Where the arrivals begin with nine responses to other requests, `wait_response` gives up with a
-- network error, having read just those, and still awaits the answer.
pub wait_response-gives_up :
    (k : ℕ) (ps : List ModbusTcpPacket) (ss : List Bytes) (more : Bytes) (st : Option Inbox)
    (c : ModbusClientSimulator)
    → c.pending_trans_id ≡ some k
    → length ps ≡ 9
    → Stale k ps ss
    → view c.inbox ≡ (assemble ss ++ more, st)
    → (left : Inbox) × (wait_response c ≡ (err network_error, with_inbox left c))
      × (view left ≡ (more, st))
unfolding wait_response
wait_response-gives_up k ps ss more st c waits nine stale e =
    let (left, read, v) = gives_up k ps ss more st c waits stale e in
    (left, subst (λ n. wait_turns n c ≡ (err network_error, with_inbox left c)) nine read, v)
