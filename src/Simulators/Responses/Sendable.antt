-- ===== src/Simulators/Responses/Sendable.antt =====
-- ResponseFactory of simulators/server.py: a request within its limits has a response that serializes.
use pyomb.Prelude.{
  ℕ, ◌+◌, ◌*◌, ◌/◌, ◌<◌, ◌≤◌, ◌≡◌, refl, ◌&&◌, List, [], ◌∷◌, ◌++◌, length, replicate, arith, leb,
  Bool-cases, inl, inr, length-replicate, String,
}
use pyomb.Errors.{ok, catch_struct, catch_packet, catch_struct-eq-ok, catch_packet-eq-ok}
use pyomb.Struct.{Bytes, B, H, Format, pack}
use pyomb.Struct.Laws.{Fits, pack_inv}
use pyomb.Pdu.Common.{Limit, limit_violations, in_range, pack_pdu}
use pyomb.Pdu.Packet
use pyomb.Pdu.Packet.{Packet}
use pyomb.Pdu.Bits.RequestFc1
use pyomb.Pdu.Bits.RequestFc2
use pyomb.Pdu.Bits.RequestFc5
use pyomb.Pdu.Bits.RequestFc15
use pyomb.Pdu.Encapsulated.RequestFc43
use pyomb.Pdu.Registers.RequestFc3
use pyomb.Pdu.Registers.RequestFc4
use pyomb.Pdu.Registers.RequestFc6
use pyomb.Pdu.Registers.RequestFc16
use pyomb.Pdu.Registers.RequestFc22
use pyomb.Pdu.Registers.RequestFc23
use pyomb.Pdu.Bits.ResponseFc1
use pyomb.Pdu.Bits.ResponseFc2
use pyomb.Pdu.Bits.ResponseFc5
use pyomb.Pdu.Bits.ResponseFc15
use pyomb.Pdu.Diagnostics.ResponseFc7
use pyomb.Pdu.Encapsulated.ResponseFc43
use pyomb.Pdu.Registers.ResponseFc3
use pyomb.Pdu.Registers.ResponseFc4
use pyomb.Pdu.Registers.ResponseFc6
use pyomb.Pdu.Registers.ResponseFc16
use pyomb.Pdu.Registers.ResponseFc22
use pyomb.Pdu.Registers.ResponseFc23
use pyomb.Simulators.Responses.{create_rsp}
use pyomb.Simulators.Responses.Answered.{IsServed, Written, packs, packs_tail}

limit-first :
    (source : String) (l : Limit) (ls : List Limit)
    → limit_violations source (l ∷ ls) ≡ []
    → l.value ≤ l.high
unfolding limit_violations in_range
limit-first source l ls h = elim (Bool-cases (leb l.low l.value && leb l.value l.high)) [
  | inl within ↦ ground arith
  | inr outside ↦ absurd (let bad = rw outside at h in cc)
]

append-nil_inv : {A : Type 0} (xs ys : List A) → xs ++ ys ≡ [] → xs ≡ []
append-nil_inv [] ys h = refl
append-nil_inv (x ∷ xs) ys h = cc

pub pack-Fits : (f : Format) (vs : List ℕ) (s : Bytes) → pack f vs ≡ ok s → Fits f vs
unfolding pack
pack-Fits [] [] s h = tt
pack-Fits [] (v ∷ vs) s h = cc
pack-Fits (c ∷ f) [] s h = cc
pack-Fits (c ∷ f) (v ∷ vs) s h =
    let (t, small, e, _) = pack_inv c f v vs s h in (small, pack-Fits f vs t e)

-- The start and the count that a request carries fit two words of a response.
packs_words :
    (fc a b : ℕ) (f : Format) (vs : List ℕ) (u : Bytes)
    → fc < 256
    → catch_packet (catch_struct (pack (B ∷ H ∷ H ∷ f) (fc ∷ a ∷ b ∷ vs))) ≡ ok u
    → Written (catch_packet (catch_struct (pack (B ∷ H ∷ H ∷ []) (fc ∷ a ∷ b ∷ []))))
packs_words fc a b f vs u small h =
    let fits =
      pack-Fits (B ∷ H ∷ H ∷ f) (fc ∷ a ∷ b ∷ vs) u
        (catch_struct-eq-ok _ (catch_packet-eq-ok _ h)) in
    packs (B ∷ H ∷ H ∷ []) (fc ∷ a ∷ b ∷ []) (small, (fits.1.0, (fits.1.1.0, tt))) (omega arith)

abbrev tops : ℕ → List ℕ
tops q = replicate q 0xFFFF

-- The registers that a response carries: the format counts them by their number.
packs_registers :
    (fc q : ℕ)
    → fc < 256
    → q ≤ 125
    → Written (
        catch_packet
          (catch_struct (pack (B ∷ B ∷ replicate (length (tops q)) H) (fc ∷ 2 * q ∷ tops q))))
packs_registers fc q small h =
    let size : length (tops q) ≡ q = length-replicate q 0xFFFF in
    rw size (packs_tail fc (2 * q) q 0xFFFF H small (omega arith) (omega arith) (omega arith))

-- A request that serializes, to fewer than 65535 bytes, is within the limits of its class and is not of
-- diagnostics has a response that serializes, to fewer than 65535 bytes.
pub create_rsp-sends :
    (p : Packet) (u : Bytes)
    → IsServed p
    → Packet.violations p ≡ []
    → Packet.serialize p ≡ ok u
    → length u < 65535
    → Written (Packet.serialize (create_rsp p))
unfolding create_rsp Packet.serialize Packet.violations pack_pdu RequestFc1.serialize
    RequestFc2.serialize RequestFc5.serialize RequestFc15.serialize RequestFc43.serialize
    RequestFc3.serialize RequestFc4.serialize RequestFc6.serialize RequestFc16.serialize
    RequestFc22.serialize RequestFc23.serialize ResponseFc1.serialize ResponseFc2.serialize
    ResponseFc5.serialize ResponseFc15.serialize ResponseFc7.serialize ResponseFc43.serialize
    ResponseFc3.serialize ResponseFc4.serialize ResponseFc6.serialize ResponseFc16.serialize
    ResponseFc22.serialize ResponseFc23.serialize RequestFc1.violations RequestFc2.violations
    RequestFc3.violations RequestFc4.violations RequestFc23.violations
create_rsp-sends (Packet.request_fc1 p) u i v h small =
    let few = limit-first _ _ [] (v) in
    packs_tail 1 ((p.quantity + 7) / 8) ((p.quantity + 7) / 8) 0xFF B (omega arith) (omega arith)
      (omega arith) (omega arith)
create_rsp-sends (Packet.request_fc2 p) u i v h small =
    let few = limit-first _ _ [] (v) in
    packs_tail 2 ((p.quantity + 7) / 8) ((p.quantity + 7) / 8) 0xFF B (omega arith) (omega arith)
      (omega arith) (omega arith)
create_rsp-sends (Packet.request_fc3 p) u i v h small =
    let few = limit-first _ _ [] (v) in packs_registers 3 p.quantity (omega arith) few
create_rsp-sends (Packet.request_fc4 p) u i v h small =
    let few = limit-first _ _ [] (v) in packs_registers 4 p.quantity (omega arith) few
create_rsp-sends (Packet.request_fc5 p) u i v h small = (u, h, small)
create_rsp-sends (Packet.request_fc6 p) u i v h small = (u, h, small)
create_rsp-sends (Packet.request_fc7 p) u i v h small =
    packs (B ∷ B ∷ []) (7 ∷ 0 ∷ []) (omega arith, (omega arith, tt)) (omega arith)
create_rsp-sends (Packet.request_fc15 p) u i v h small =
    packs_words 15 p.start_addr p.quantity _ _ u (omega arith) (h)
create_rsp-sends (Packet.request_fc16 p) u i v h small =
    packs_words 16 p.start_addr p.quantity _ _ u (omega arith) (h)
create_rsp-sends (Packet.request_fc22 p) u i v h small = (u, h, small)
create_rsp-sends (Packet.request_fc23 p) u i v h small =
    let few = limit-first _ _ _ (append-nil_inv _ _ (v)) in
    packs_registers 23 p.read_quantity (omega arith) few
create_rsp-sends (Packet.request_fc43 p) u i v h small = (u, h, small)
create_rsp-sends (Packet.request_fc8 p) u i v h small = absurd i
create_rsp-sends (Packet.generic p) u i v h small = absurd i
create_rsp-sends (Packet.error p) u i v h small = absurd i
create_rsp-sends (Packet.response_fc1 p) u i v h small = absurd i
create_rsp-sends (Packet.response_fc2 p) u i v h small = absurd i
create_rsp-sends (Packet.response_fc3 p) u i v h small = absurd i
create_rsp-sends (Packet.response_fc4 p) u i v h small = absurd i
create_rsp-sends (Packet.response_fc5 p) u i v h small = absurd i
create_rsp-sends (Packet.response_fc6 p) u i v h small = absurd i
create_rsp-sends (Packet.response_fc7 p) u i v h small = absurd i
create_rsp-sends (Packet.response_fc8 p) u i v h small = absurd i
create_rsp-sends (Packet.response_fc15 p) u i v h small = absurd i
create_rsp-sends (Packet.response_fc16 p) u i v h small = absurd i
create_rsp-sends (Packet.response_fc22 p) u i v h small = absurd i
create_rsp-sends (Packet.response_fc23 p) u i v h small = absurd i
create_rsp-sends (Packet.response_fc43 p) u i v h small = absurd i
