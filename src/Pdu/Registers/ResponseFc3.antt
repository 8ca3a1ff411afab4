-- ===== src/Pdu/Registers/ResponseFc3.antt =====
-- pdu/registers.py, class ModbusResponseFC3: read holding registers.
use pyomb.Prelude.{ℕ, ◌*◌, ◌≡◌, refl, ap, List, [], ◌∷◌, ◌++◌, arith, length, replicate}
use pyomb.Errors.{Result, ok, err, index_error, catch_struct, catch_packet, ◌>>=◌}
use pyomb.Struct.{Bytes, B, H, Format, calcsize, unpack, repeat_count}
use pyomb.Pdu.Common.{ModbusViolation, limit_violations, fixed_count, pack_pdu}
use pyomb.Pdu.Codec.{PacketLaws, Lossless, make_laws, make-Lossless, read-pack_tail, unread_tail}

pub record ModbusResponseFc3 : Type 0 where
  pub byte_count : ℕ
  pub values : List ℕ

abbrev pub pdu_id : ℕ
pdu_id = 0x8003

-- `>BB{0}H`, formatted with the number that `serialize` and `__len__` take.
abbrev pub wire_format : ModbusResponseFc3 → Format
wire_format p = B ∷ B ∷ replicate (length p.values) H

-- The fields in wire order.
abbrev pub payload : ModbusResponseFc3 → List ℕ
payload p = p.byte_count ∷ p.values

unfoldable pub serialize : ModbusResponseFc3 → Result Bytes
unfolding pack_pdu
serialize p = catch_packet (pack_pdu (wire_format p) 3 (payload p))

unfoldable pub of_values : List ℕ → Result ModbusResponseFc3
of_values (fc ∷ size ∷ items) = ok (record { byte_count = size; values = items })
of_values _ = err index_error

-- The values that the stream unpacks to, under the format that its length gives.
abbrev pub unpacked : Bytes → Result (List ℕ)
unpacked s = do n ← repeat_count 2 2 (length s); unpack (B ∷ B ∷ replicate n H) s

unfoldable pub deserialize : Bytes → Result ModbusResponseFc3
unfolding of_values
deserialize s = catch_struct do pdu ← unpacked s; of_values pdu

unfoldable pub len : ModbusResponseFc3 → ℕ
len p = calcsize (wire_format p)

unfoldable pub violations : ModbusResponseFc3 → List ModbusViolation
violations p =
    limit_violations "ModbusResponseFC3" []
    ++ fixed_count "ModbusResponseFC3" "byte_count" p.byte_count (2 * length p.values)
        "twice the registers returned"

abbrev body : ModbusResponseFc3 → Format
body p = B ∷ replicate (length p.values) H

pub laws : PacketLaws 3 serialize deserialize len
unfolding serialize deserialize len
laws =
    make_laws 3 body payload unpacked of_values
      (λ p vs s h. read-pack_tail (B ∷ B ∷ []) H (length p.values) vs s h) (λ p x. refl)

unwrap : (q p : ModbusResponseFc3) → ok q ≡ ok p → p ≡ q
unwrap q p h = cc

payload-of_values :
    (vs : List ℕ) (p : ModbusResponseFc3) → of_values vs ≡ ok p → (x : ℕ) × (x ∷ payload p ≡ vs)
unfolding of_values
payload-of_values [] p h = cc
payload-of_values (x ∷ []) p h = cc
payload-of_values (x ∷ size ∷ items) p h =
    (x, ap (λ (q : ModbusResponseFc3). x ∷ payload q) (unwrap _ p h))

pub lossless : Lossless 3 serialize deserialize
unfolding serialize deserialize
lossless = make-Lossless 3 body payload unpacked of_values (omega arith) λ s vs p b r o.
    let (x, e) = payload-of_values vs p o in
    (x, unread_tail (B ∷ B ∷ []) H (length p.values) s (x ∷ payload p) b (omega arith) (rw e r))
