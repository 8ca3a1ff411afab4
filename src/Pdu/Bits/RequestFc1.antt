-- ===== src/Pdu/Bits/RequestFc1.antt =====
-- pdu/bits.py, class ModbusRequestFC1: read coils.
use pyomb.Prelude.{ℕ, ◌≡◌, refl, ap, List, [], ◌∷◌, arith}
use pyomb.Errors.{Result, ok, err, index_error, catch_struct, catch_packet, ◌>>=◌}
use pyomb.Struct.{Bytes, B, H, Format, calcsize, unpack}
use pyomb.Struct.Laws.{pack-unpack}
use pyomb.Pdu.Common.{ModbusViolation, limit_violations, pack_pdu}
use pyomb.Pdu.Codec.{PacketLaws, Lossless, make_laws, make-Lossless, read-pack_fixed}

pub record ModbusRequestFc1 : Type 0 where
  pub start_addr : ℕ
  pub quantity : ℕ

abbrev pub pdu_id : ℕ
pdu_id = 0x0001

-- `>BHH`
abbrev pub wire_format : ModbusRequestFc1 → Format
wire_format p = B ∷ H ∷ H ∷ []

-- The fields in wire order.
abbrev pub payload : ModbusRequestFc1 → List ℕ
payload p = p.start_addr ∷ p.quantity ∷ []

unfoldable pub serialize : ModbusRequestFc1 → Result Bytes
unfolding pack_pdu
serialize p = catch_packet (pack_pdu (wire_format p) 1 (payload p))

unfoldable pub of_values : List ℕ → Result ModbusRequestFc1
of_values (fc ∷ start ∷ count ∷ []) = ok (record { start_addr = start; quantity = count })
of_values _ = err index_error

abbrev pub unpacked : Bytes → Result (List ℕ)
unpacked s = unpack (B ∷ H ∷ H ∷ []) s

unfoldable pub deserialize : Bytes → Result ModbusRequestFc1
unfolding of_values
deserialize s = catch_struct do pdu ← unpacked s; of_values pdu

unfoldable pub len : ModbusRequestFc1 → ℕ
len p = calcsize (wire_format p)

unfoldable pub violations : ModbusRequestFc1 → List ModbusViolation
violations p =
    limit_violations "ModbusRequestFC1"
      (record { field = "quantity"; low = 0x0001; high = 0x07D0; value = p.quantity } ∷ [])

abbrev body : ModbusRequestFc1 → Format
body p = H ∷ H ∷ []

pub laws : PacketLaws 1 serialize deserialize len
unfolding serialize deserialize len
laws =
    make_laws 1 body payload unpacked of_values
      (λ p vs s h. read-pack_fixed (B ∷ H ∷ H ∷ []) vs s h) (λ p x. refl)

unwrap : (q p : ModbusRequestFc1) → ok q ≡ ok p → p ≡ q
unwrap q p h = cc

payload-of_values :
    (vs : List ℕ) (p : ModbusRequestFc1) → of_values vs ≡ ok p → (x : ℕ) × (x ∷ payload p ≡ vs)
unfolding of_values
payload-of_values [] p h = cc
payload-of_values (x ∷ []) p h = cc
payload-of_values (x ∷ start ∷ []) p h = cc
payload-of_values (x ∷ start ∷ count ∷ []) p h =
    (x, ap (λ (q : ModbusRequestFc1). x ∷ payload q) (unwrap _ p h))
payload-of_values (x ∷ start ∷ count ∷ y ∷ more) p h = cc

pub lossless : Lossless 1 serialize deserialize
unfolding serialize deserialize
lossless = make-Lossless 1 body payload unpacked of_values (omega arith) λ s vs p b r o.
    let (x, e) = payload-of_values vs p o in (x, rw e (pack-unpack (B ∷ H ∷ H ∷ []) s vs b r))
