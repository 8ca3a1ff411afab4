-- ===== src/Pdu/Registers/RequestFc23.antt =====
-- pdu/registers.py, class ModbusRequestFC23: read and write multiple registers.
use pyomb.Prelude.{ℕ, ◌*◌, ◌≡◌, refl, ap, List, [], ◌∷◌, ◌++◌, arith, length, replicate}
use pyomb.Errors.{Result, ok, err, index_error, catch_struct, catch_packet, ◌>>=◌}
use pyomb.Struct.{Bytes, B, H, Format, calcsize, unpack, repeat_count}
use pyomb.Pdu.Common.{ModbusViolation, limit_violations, fixed_count, pack_pdu}
use pyomb.Pdu.Codec.{PacketLaws, Lossless, make_laws, make-Lossless, read-pack_tail, unread_tail}

pub record ModbusRequestFc23 : Type 0 where
  pub read_start_addr : ℕ
  pub read_quantity : ℕ
  pub write_start_addr : ℕ
  pub write_quantity : ℕ
  pub write_byte_count : ℕ
  pub write_values : List ℕ

abbrev pub pdu_id : ℕ
pdu_id = 0x0017

-- `>BHHHHB{0}H`, formatted with the number that `serialize` and `__len__` take.
abbrev pub wire_format : ModbusRequestFc23 → Format
wire_format p = B ∷ H ∷ H ∷ H ∷ H ∷ B ∷ replicate (length p.write_values) H

-- The fields in wire order.
abbrev pub payload : ModbusRequestFc23 → List ℕ
payload p =
    p.read_start_addr ∷ p.read_quantity ∷ p.write_start_addr ∷ p.write_quantity ∷ p.write_byte_count
    ∷ p.write_values

unfoldable pub serialize : ModbusRequestFc23 → Result Bytes
unfolding pack_pdu
serialize p = catch_packet (pack_pdu (wire_format p) 23 (payload p))

unfoldable pub of_values : List ℕ → Result ModbusRequestFc23
of_values (fc ∷ from ∷ reads ∷ to ∷ writes ∷ size ∷ items) = ok (record {
  read_start_addr = from;
  read_quantity = reads;
  write_start_addr = to;
  write_quantity = writes;
  write_byte_count = size;
  write_values = items;
})
of_values _ = err index_error

-- The values that the stream unpacks to, under the format that its length gives.
abbrev pub unpacked : Bytes → Result (List ℕ)
unpacked s = do n ← repeat_count 10 2 (length s); unpack (B ∷ H ∷ H ∷ H ∷ H ∷ B ∷ replicate n H) s

unfoldable pub deserialize : Bytes → Result ModbusRequestFc23
unfolding of_values
deserialize s = catch_struct do pdu ← unpacked s; of_values pdu

unfoldable pub len : ModbusRequestFc23 → ℕ
len p = calcsize (wire_format p)

unfoldable pub violations : ModbusRequestFc23 → List ModbusViolation
violations p =
    limit_violations "ModbusRequestFC23" (
      record { field = "read_quantity"; low = 0x0001; high = 0x007D; value = p.read_quantity }
      ∷ record { field = "write_quantity"; low = 0x0001; high = 0x0079; value = p.write_quantity }
      ∷ [])
    ++ fixed_count "ModbusRequestFC23" "write_byte_count" p.write_byte_count (2 * p.write_quantity)
        "twice the quantity of registers written"

abbrev body : ModbusRequestFc23 → Format
body p = H ∷ H ∷ H ∷ H ∷ B ∷ replicate (length p.write_values) H

pub laws : PacketLaws 23 serialize deserialize len
unfolding serialize deserialize len
laws =
    make_laws 23 body payload unpacked of_values
      (λ p vs s h. read-pack_tail (B ∷ H ∷ H ∷ H ∷ H ∷ B ∷ []) H (length p.write_values) vs s h)
      (λ p x. refl)

unwrap : (q p : ModbusRequestFc23) → ok q ≡ ok p → p ≡ q
unwrap q p h = cc

payload-of_values :
    (vs : List ℕ) (p : ModbusRequestFc23) → of_values vs ≡ ok p → (x : ℕ) × (x ∷ payload p ≡ vs)
unfolding of_values
payload-of_values [] p h = cc
payload-of_values (x ∷ []) p h = cc
payload-of_values (x ∷ from ∷ []) p h = cc
payload-of_values (x ∷ from ∷ reads ∷ []) p h = cc
payload-of_values (x ∷ from ∷ reads ∷ to ∷ []) p h = cc
payload-of_values (x ∷ from ∷ reads ∷ to ∷ writes ∷ []) p h = cc
payload-of_values (x ∷ from ∷ reads ∷ to ∷ writes ∷ size ∷ items) p h =
    (x, ap (λ (q : ModbusRequestFc23). x ∷ payload q) (unwrap _ p h))

pub lossless : Lossless 23 serialize deserialize
unfolding serialize deserialize
lossless = make-Lossless 23 body payload unpacked of_values (omega arith) λ s vs p b r o.
    let (x, e) = payload-of_values vs p o in
    (
      x,
      unread_tail (B ∷ H ∷ H ∷ H ∷ H ∷ B ∷ []) H (length p.write_values) s (x ∷ payload p) b
          (omega arith) (rw e r),
    )
