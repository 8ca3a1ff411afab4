-- ===== src/Simulators/Client/Identifiers.antt =====
-- The transaction identifiers of simulators/client.py over any calls of a client.
use pyomb.Prelude.{
  ℕ, zero, suc, ◌+◌, ◌%◌, ◌<◌, ◌≡◌, ◌⊎◌, inl, inr, refl, ◌∙◌, Bool, true, false, Option, none, some,
  List, [], ◌∷◌, length, ◌==◌, if◌then◌else◌, Bool-cases, arith,
}
use pyomb.Errors.{Result, ok, err}
use pyomb.Io.{Action, continue, ◌>>=◌}
use pyomb.Pdu.Packet.{Packet}
use pyomb.Adu.Tcp.{ModbusTcpPacket}
use pyomb.Simulators.Factory.{Arguments, create_pdu}
use pyomb.Simulators.Client.{
  ModbusClientSimulator, receive_data, Wait, accept_pending, accept_response, wait_turns,
  wait_response, take_trans_id, send_pdu, send_request,
}

-- A call of the client, and what it leaves, whether it raises or not.
pub data Call : Type 0 where
  sends : Arguments → Call
  waits : Call

unfoldable pub step : Call → ModbusClientSimulator → ModbusClientSimulator
step (sends a) c = (send_request a c).1
step waits c = (wait_response c).1

unfoldable pub run : List Call → ModbusClientSimulator → ModbusClientSimulator
unfolding step
run [] c = c
run (call ∷ calls) c = run calls (step call c)

-- The requests among calls that got as far as an identifier.
abbrev pub is_built : Result Packet → ℕ
is_built (ok pdu) = 1
is_built (err e) = 0

abbrev pub built : List Call → ℕ
built [] = 0
built (sends a ∷ calls) = is_built (create_pdu a) + built calls
built (waits ∷ calls) = built calls

module _ {S : Type 0} (P : S → Type 0) where
  -- A property of the state that every step keeps, whatever its outcome.
  continue-keeps :
      {A B : Type 0} (next : A → Action S B) (o : Result A × S)
      → P o.1
      → ((a : A) (s : S) → P s → P (next a s).1)
      → P (continue next o).1
  continue-keeps next (ok a, s) h f = f a s h
  continue-keeps next (err e, s) h f = h

  if-keeps :
      {A : Type 0} (b : Bool) (x y : Action S A) (s : S)
      → P (x s).1
      → P (y s).1
      → P ((if b then x else y) s).1
  if-keeps true x y s h k = h
  if-keeps false x y s h k = k

-- Identifiers as they were, but that the one awaited may have arrived.
abbrev Kept : ModbusClientSimulator → ModbusClientSimulator → Type 0
Kept c d =
    (d.next_trans_id ≡ c.next_trans_id)
    × ((d.pending_trans_id ≡ c.pending_trans_id) ⊎ (d.pending_trans_id ≡ none))

accept_pending-Kept :
    (awaited : Option ℕ) (c d : ModbusClientSimulator) (next : Wait) (r : ModbusTcpPacket)
    → Kept c d
    → Kept c (next d).1
    → Kept c (accept_pending awaited next r d).1
unfolding accept_pending
accept_pending-Kept none c d next r h k = h
accept_pending-Kept (some awaited) c d next r h k =
    elim (Bool-cases (r.header.trans_id == awaited)) [
      | inl same ↦ rw same (h.0, inr refl)
      | inr other ↦ rw other k
    ]

wait_turns-Kept : (n : ℕ) (c d : ModbusClientSimulator) → Kept c d → Kept c (wait_turns n d).1
unfolding wait_turns receive_data accept_response
wait_turns-Kept zero c d h = h
wait_turns-Kept (suc n) c d h = continue-keeps (Kept c) _ (receive_data d) h (λ message s k.
    if-keeps (Kept c) (length message == 0) _ _ s k (
      continue-keeps (Kept c) _ (_, s) k
        (λ r t m.
          accept_pending-Kept t.pending_trans_id c t (wait_turns n) r m (wait_turns-Kept n c t m))))

-- The next identifier fits 16 bits, and the one awaited, if any, is the one before it.
abbrev pub IsFresh : ModbusClientSimulator → Type 0
IsFresh c =
    (c.next_trans_id < 65536)
    × ((c.pending_trans_id ≡ none)
        ⊎ ((k : ℕ) × (c.pending_trans_id ≡ some k)
            × (k < 65536)
            × (c.next_trans_id ≡ (k + 1) % 65536)))

wait_response-IsFresh : (c d : ModbusClientSimulator) → Kept c d → IsFresh c → IsFresh d
wait_response-IsFresh c d (next, inl same) h = (rw next h.0, rw (same, next) h.1)
wait_response-IsFresh c d (next, inr cleared) h = (rw next h.0, inl cleared)

take-IsFresh : (c : ModbusClientSimulator) → IsFresh c → IsFresh (take_trans_id c).1
unfolding take_trans_id
take-IsFresh c h = (omega arith, inr (c.next_trans_id, refl, h.0, refl))

-- A request, on what its choice of PDU gives.
abbrev sent : Result Packet → Action ModbusClientSimulator (Unit {0})
sent r c = continue (λ pdu. take_trans_id >>= send_pdu pdu) (r, c)

sent-IsFresh : (r : Result Packet) (c : ModbusClientSimulator) → IsFresh c → IsFresh (sent r c).1
unfolding send_pdu take_trans_id
sent-IsFresh (err e) c h = h
sent-IsFresh (ok pdu) c h = take-IsFresh c h

sent-next :
    (r : Result Packet) (c : ModbusClientSimulator)
    → c.next_trans_id < 65536
    → (sent r c).1.next_trans_id ≡ (c.next_trans_id + is_built r) % 65536
unfolding send_pdu take_trans_id
sent-next (err e) c h = omega arith
sent-next (ok pdu) c h = refl

step-IsFresh : (call : Call) (c : ModbusClientSimulator) → IsFresh c → IsFresh (step call c)
unfolding step send_request wait_response
step-IsFresh (sends a) c h = sent-IsFresh (create_pdu a) c h
step-IsFresh waits c h =
    wait_response-IsFresh c (wait_turns 9 c).1 (wait_turns-Kept 9 c c (refl, inl refl)) h

step-next :
    (call : Call) (c : ModbusClientSimulator)
    → c.next_trans_id < 65536
    → (step call c).next_trans_id ≡ (c.next_trans_id + built (call ∷ [])) % 65536
unfolding step send_request wait_response
step-next (sends a) c h = sent-next (create_pdu a) c h ∙ omega arith
step-next waits c h = (wait_turns-Kept 9 c c (refl, inl refl)).0 ∙ omega arith

built-cons :
    (call : Call) (calls : List Call) → built (call ∷ calls) ≡ built (call ∷ []) + built calls
built-cons (sends a) calls = omega arith
built-cons waits calls = omega arith

-- Over any calls of a client, whatever they raise and whatever arrives, its next transaction
-- identifier moves on by one for each request that a PDU was made for, modulo 65536, stays below
-- 65536, and is the successor of the one awaited, if any is, where the client began so.
pub run-next_trans_id :
    (calls : List Call) (c : ModbusClientSimulator)
    → IsFresh c
    → IsFresh (run calls c)
      × ((run calls c).next_trans_id ≡ (c.next_trans_id + built calls) % 65536)
unfolding run
run-next_trans_id [] c h = (h, omega (arith, h.0))
run-next_trans_id (call ∷ calls) c h =
    let (fresh, next) = run-next_trans_id calls (step call c) (step-IsFresh call c h) in
    let first = step-next call c h.0 in
    let count = built-cons call calls in (fresh, next ∙ omega (arith, first, count))
