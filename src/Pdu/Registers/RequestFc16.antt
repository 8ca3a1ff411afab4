-- ===== src/Pdu/Registers/RequestFc16.antt =====
-- pdu/registers.py, class ModbusRequestFC16: write multiple registers.
use pyomb.Prelude.{ℕ, ◌*◌, ◌≡◌, refl, ap, List, [], ◌∷◌, ◌++◌, arith, length, replicate}
use pyomb.Errors.{Result, ok, err, index_error, catch_struct, catch_packet, ◌>>=◌}
use pyomb.Struct.{Bytes, B, H, Format, calcsize, unpack, repeat_count}
use pyomb.Pdu.Common.{ModbusViolation, limit_violations, fixed_count, pack_pdu}
use pyomb.Pdu.Codec.{PacketLaws, Lossless, make_laws, make-Lossless, read-pack_tail, unread_tail}

pub record ModbusRequestFc16 : Type 0 where
  pub start_addr : ℕ
  pub quantity : ℕ
  pub byte_count : ℕ
  pub values : List ℕ

abbrev pub pdu_id : ℕ
pdu_id = 0x0010

-- `>BHHB{0}H`, formatted with the number that `serialize` and `__len__` take.
abbrev pub wire_format : ModbusRequestFc16 → Format
wire_format p = B ∷ H ∷ H ∷ B ∷ replicate (length p.values) H

-- The fields in wire order.
abbrev pub payload : ModbusRequestFc16 → List ℕ
payload p = p.start_addr ∷ p.quantity ∷ p.byte_count ∷ p.values

unfoldable pub serialize : ModbusRequestFc16 → Result Bytes
unfolding pack_pdu
serialize p = catch_packet (pack_pdu (wire_format p) 16 (payload p))

unfoldable pub of_values : List ℕ → Result ModbusRequestFc16
of_values (fc ∷ start ∷ count ∷ size ∷ items) =
    ok (record { start_addr = start; quantity = count; byte_count = size; values = items })
of_values _ = err index_error

-- The values that the stream unpacks to, under the format that its length gives.
abbrev pub unpacked : Bytes → Result (List ℕ)
unpacked s = do n ← repeat_count 6 2 (length s); unpack (B ∷ H ∷ H ∷ B ∷ replicate n H) s

unfoldable pub deserialize : Bytes → Result ModbusRequestFc16
unfolding of_values
deserialize s = catch_struct do pdu ← unpacked s; of_values pdu

unfoldable pub len : ModbusRequestFc16 → ℕ
len p = calcsize (wire_format p)

unfoldable pub violations : ModbusRequestFc16 → List ModbusViolation
violations p =
    limit_violations "ModbusRequestFC16"
      (record { field = "quantity"; low = 0x0001; high = 0x007B; value = p.quantity } ∷ [])
    ++ fixed_count "ModbusRequestFC16" "byte_count" p.byte_count (2 * p.quantity)
        "twice the quantity of registers"

abbrev body : ModbusRequestFc16 → Format
body p = H ∷ H ∷ B ∷ replicate (length p.values) H

pub laws : PacketLaws 16 serialize deserialize len
unfolding serialize deserialize len
laws =
    make_laws 16 body payload unpacked of_values
      (λ p vs s h. read-pack_tail (B ∷ H ∷ H ∷ B ∷ []) H (length p.values) vs s h) (λ p x. refl)

unwrap : (q p : ModbusRequestFc16) → ok q ≡ ok p → p ≡ q
unwrap q p h = cc

payload-of_values :
    (vs : List ℕ) (p : ModbusRequestFc16) → of_values vs ≡ ok p → (x : ℕ) × (x ∷ payload p ≡ vs)
unfolding of_values
payload-of_values [] p h = cc
payload-of_values (x ∷ []) p h = cc
payload-of_values (x ∷ start ∷ []) p h = cc
payload-of_values (x ∷ start ∷ count ∷ []) p h = cc
payload-of_values (x ∷ start ∷ count ∷ size ∷ items) p h =
    (x, ap (λ (q : ModbusRequestFc16). x ∷ payload q) (unwrap _ p h))

pub lossless : Lossless 16 serialize deserialize
unfolding serialize deserialize
lossless = make-Lossless 16 body payload unpacked of_values (omega arith) λ s vs p b r o.
    let (x, e) = payload-of_values vs p o in
    (
      x,
      unread_tail (B ∷ H ∷ H ∷ B ∷ []) H (length p.values) s (x ∷ payload p) b (omega arith)
          (rw e r),
    )
