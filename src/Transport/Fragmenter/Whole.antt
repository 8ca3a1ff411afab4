-- ===== src/Transport/Fragmenter/Whole.antt =====
-- The operations of ModbusFragmenter, transport/stream.py, together.
use pyomb.Prelude.{
  ℕ, zero, suc, ◌+◌, ◌-◌, ◌≤◌, ◌≡◌, refl, ap, subst, ◌∙◌, List, [], ◌∷◌, ◌++◌, arith, length, take,
  drop, All, append_assoc, length-append, take-append-drop, length-take, length-drop,
}
use pyomb.Prelude.Int.{pos}
use pyomb.Errors.{ok}
use pyomb.Struct.{Bytes}
use pyomb.Pdu.Packet
use pyomb.Pdu.RoundTrip.{length-serialize}
use pyomb.Adu.Header
use pyomb.Adu.Tcp
use pyomb.Adu.Tcp.{ModbusTcpPacket}
use pyomb.Adu.Tcp.RoundTrip.{serialize-eq-ok, take-header}
use pyomb.Transport.Fragmenter.{get_message_length, pieces, fragment, assemble}

assemble-pieces : (n size : ℕ) (s : Bytes) → length s ≤ n → assemble (pieces n (suc size) s) ≡ s
unfolding assemble pieces
assemble-pieces zero size [] h = refl
assemble-pieces zero size (b ∷ t) h = absurd (omega arith)
assemble-pieces (suc n) size [] h = refl
assemble-pieces (suc n) size (b ∷ t) h =
    rw (assemble-pieces n size (drop size t) (omega (arith, length-drop size t)))
      (ap (λ (u : Bytes). b ∷ u) (take-append-drop size t))

-- A fragment of the PDU.
abbrev pub Small : ℕ → Bytes → Type 0
Small size f = (1 ≤ length f) × (length f ≤ size)

pieces-Small : (n size : ℕ) (s : Bytes) → All (Small (suc size)) (pieces n (suc size) s)
unfolding pieces
pieces-Small zero size s = tt
pieces-Small (suc n) size [] = tt
pieces-Small (suc n) size (b ∷ t) =
    ((omega arith, omega (arith, length-take size t)), pieces-Small n size (drop size t))

-- A message fragmented with a positive size gives its first seven bytes, or all of it where it is
-- shorter, and then fragments of one byte up to that size, which assemble to the message.
pub assemble-fragment :
    (message : Bytes) (size : ℕ)
    → (head : Bytes) × (fs : List Bytes) × (fragment message (pos (suc size)) ≡ ok (head ∷ fs))
      × (head ≡ take 7 message)
      × All (Small (suc size)) fs
      × (assemble (head ∷ fs) ≡ message)
unfolding fragment assemble
assemble-fragment message size =
    let pdu = drop 7 message in
    (
      take 7 message,
      pieces (length pdu) (suc size) pdu,
      refl,
      refl,
      pieces-Small (length pdu) size pdu,
      ap (λ (u : Bytes). take 7 message ++ u) (assemble-pieces (length pdu) size pdu (omega arith))
          ∙ take-append-drop 7 message,
    )

-- Of what a TCP packet serializes to, whatever follows it, `get_message_length` answers the length,
-- if the header says the length of the PDU and one more.
pub get_message_length-serialize :
    (p : ModbusTcpPacket) (s more : Bytes)
    → p.header.length ≡ suc (Packet.len p.pdu)
    → Tcp.serialize p ≡ ok s
    → get_message_length (s ++ more) ≡ ok (length s)
unfolding get_message_length
get_message_length-serialize p s more agree h =
    let (a, b, e, f, whole) = serialize-eq-ok p s h in
    let n = Header.sized p.header a e in
    let size = length-serialize p.pdu b f in
    let parsed = Header.deserialize-serialize_header p.header a e in
    let known : 7 + p.header.length - 1 ≡ length (a ++ b) = omega (arith, length-append a b) in
    let start : take 7 ((a ++ b) ++ more) ≡ a =
      ap (take 7) (append_assoc a b more) ∙ take-header a (b ++ more) n in
    subst (λ (t : Bytes). get_message_length (t ++ more) ≡ ok (length t)) whole
      (unfold get_message_length in rw (start, parsed) (ap (λ (k : ℕ). ok k) known))
