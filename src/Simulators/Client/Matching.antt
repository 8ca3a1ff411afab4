-- ===== src/Simulators/Client/Matching.antt =====
-- wait_response of simulators/client.py: which response it returns.
use pyomb.Prelude.{
  ℕ, zero, suc, ◌≡◌, ◌⊎◌, inl, inr, refl, sym, ap, subst, ◌∙◌, Option, none, some, length, ◌==◌,
  Bool-cases, arith,
}
use pyomb.Errors.{Result, ok, err}
use pyomb.Struct.{Bytes}
use pyomb.Io.{Action, continue}
use pyomb.Pdu.Parser.{default_registry, parse_response}
use pyomb.Adu.Tcp
use pyomb.Adu.Tcp.{ModbusTcpPacket}
use pyomb.Transport.Socket.{Inbox}
use pyomb.Transport.TcpStream
use pyomb.Simulators.Client.{
  with_inbox, ModbusClientSimulator, with_ids, receive_data, Wait, accept_pending, accept_response,
  wait_turns, wait_response,
}

-- A call that gives a value, taken apart at its first step.
pub continue-eq-ok :
    {S A B : Type 0} (next : A → Action S B) (o : Result A × S) {b : B} {t : S}
    → continue next o ≡ (ok b, t)
    → (a : A) × (s : S) × (o ≡ (ok a, s)) × (next a s ≡ (ok b, t))
continue-eq-ok next (err e, s) h = absurd (let bad = ap (λ w. w.0) h in cc)
continue-eq-ok next (ok a, s) h = (a, s, refl, h)

-- What may be returned of a client's wait, and what it leaves.
abbrev pub Answers : ModbusClientSimulator → ModbusTcpPacket → ModbusClientSimulator → Type 0
Answers c response left =
    ((c.pending_trans_id ≡ none) ⊎ (c.pending_trans_id ≡ some response.header.trans_id))
    × (left.pending_trans_id ≡ none)
    × (left.next_trans_id ≡ c.next_trans_id)
    × (left.unit_id ≡ c.unit_id)
    × (left.outbox ≡ c.outbox)

accept_pending-inv :
    (awaited : Option ℕ) (next : Wait) (response p : ModbusTcpPacket)
    (c left : ModbusClientSimulator)
    → c.pending_trans_id ≡ awaited
    → accept_pending awaited next response c ≡ (ok (some p), left)
    → Answers c p left ⊎ (next c ≡ (ok (some p), left))
unfolding accept_pending
accept_pending-inv none next response p c left idle h =
    let left_is : left ≡ c = sym (ap (λ w. w.1) h) in
    inl (
      inl idle,
      ap (λ d. d.pending_trans_id) left_is ∙ idle,
      ap (λ d. d.next_trans_id) left_is,
      ap (λ d. d.unit_id) left_is,
      ap (λ d. d.outbox) left_is,
    )
accept_pending-inv (some k) next response p c left waits h =
    elim (Bool-cases (response.header.trans_id == k)) [
      | inr other ↦ inr (rw other at h)
      | inl same ↦
          let out = rw same at h in
          let left_is : left ≡ with_ids c.next_trans_id none c = sym (ap (λ w. w.1) out) in
          let returned : response ≡ p = let both = ap (λ w. w.0) out in ground arith in
          let matched : k ≡ p.header.trans_id =
            ground (arith, ap (λ r. r.header.trans_id) returned) in
          inl (
            inr (waits ∙ ap (λ i. some i) matched),
            ap (λ d. d.pending_trans_id) left_is,
            ap (λ d. d.next_trans_id) left_is,
            ap (λ d. d.unit_id) left_is,
            ap (λ d. d.outbox) left_is,
          )
    ]

accept_response-inv :
    (next : Wait) (response p : ModbusTcpPacket) (c left : ModbusClientSimulator)
    → accept_response next response c ≡ (ok (some p), left)
    → Answers c p left ⊎ (next c ≡ (ok (some p), left))
unfolding accept_response
accept_response-inv next response p c left h =
    accept_pending-inv c.pending_trans_id next response p c left refl h

receive_data-inbox :
    (c c1 : ModbusClientSimulator) (message : Bytes)
    → receive_data c ≡ (ok message, c1)
    → (q : Inbox) × (c1 ≡ with_inbox q c)
unfolding receive_data
receive_data-inbox c c1 message e = ((TcpStream.receive 0 c.inbox).1, sym (ap (λ w. w.1) e))

Answers-with_inbox :
    (c d left : ModbusClientSimulator) (q : Inbox) (p : ModbusTcpPacket)
    → d ≡ with_inbox q c
    → Answers d p left
    → Answers c p left
Answers-with_inbox c d left q p same (why, cleared, next, unit, out) = (
  subst (λ (k : Option ℕ). (k ≡ none) ⊎ (k ≡ some p.header.trans_id))
      (ap (λ x. x.pending_trans_id) same) why,
  cleared,
  next ∙ ap (λ x. x.next_trans_id) same,
  unit ∙ ap (λ x. x.unit_id) same,
  out ∙ ap (λ x. x.outbox) same,
)

pub wait_turns-Answers :
    (n : ℕ) (c left : ModbusClientSimulator) (p : ModbusTcpPacket)
    → wait_turns n c ≡ (ok (some p), left)
    → Answers c p left
unfolding wait_turns
wait_turns-Answers zero c left p h = absurd (let bad = ap (λ w. w.0) h in cc)
wait_turns-Answers (suc n) c left p h =
    let (message, c1, read, rest) = continue-eq-ok _ (receive_data c) h in
    let (q, kept) = receive_data-inbox c c1 message read in
    elim (Bool-cases (length message == 0)) [
      | inl closed ↦ absurd (let bad = ap (λ w. w.0) (rw closed at rest) in cc)
      | inr more ↦
          let (response, c2, parsed, next) =
            continue-eq-ok _
              (Tcp.deserialize_response (parse_response default_registry) message, c1)
              (rw more at rest) in
          let same : c2 ≡ with_inbox q c = sym (ap (λ w. w.1) parsed) ∙ kept in
          Answers-with_inbox c c2 left q p same
            (elim (accept_response-inv (wait_turns n) response p c2 left next) [
              | inl answered ↦ answered
              | inr again ↦ wait_turns-Answers n c2 left p again
            ])
    ]

-- Where `wait_response` returns a response, its transaction identifier is the one awaited, or none
-- was; none is awaited any more, and the identifier to use next and what was sent are as before.
pub wait_response-Answers :
    (c left : ModbusClientSimulator) (response : ModbusTcpPacket)
    → wait_response c ≡ (ok (some response), left)
    → Answers c response left
unfolding wait_response
wait_response-Answers c left response h = wait_turns-Answers 9 c left response h
