-- ===== src/Pdu/Bits/ResponseFc15.antt =====
-- pdu/bits.py, class ModbusResponseFC15: write multiple coils.
use pyomb.Prelude.{ℕ, ◌≡◌, refl, ap, List, [], ◌∷◌, arith}
use pyomb.Errors.{Result, ok, err, index_error, catch_struct, catch_packet, ◌>>=◌}
use pyomb.Struct.{Bytes, B, H, Format, calcsize, unpack}
use pyomb.Struct.Laws.{pack-unpack}
use pyomb.Pdu.Common.{ModbusViolation, limit_violations, pack_pdu}
use pyomb.Pdu.Codec.{PacketLaws, Lossless, make_laws, make-Lossless, read-pack_fixed}

pub record ModbusResponseFc15 : Type 0 where
  pub start_addr : ℕ
  pub quantity : ℕ

abbrev pub pdu_id : ℕ
pdu_id = 0x800F

-- `>BHH`
abbrev pub wire_format : ModbusResponseFc15 → Format
wire_format p = B ∷ H ∷ H ∷ []

-- The fields in wire order.
abbrev pub payload : ModbusResponseFc15 → List ℕ
payload p = p.start_addr ∷ p.quantity ∷ []

unfoldable pub serialize : ModbusResponseFc15 → Result Bytes
unfolding pack_pdu
serialize p = catch_packet (pack_pdu (wire_format p) 15 (payload p))

unfoldable pub of_values : List ℕ → Result ModbusResponseFc15
of_values (fc ∷ start ∷ count ∷ []) = ok (record { start_addr = start; quantity = count })
of_values _ = err index_error

abbrev pub unpacked : Bytes → Result (List ℕ)
unpacked s = unpack (B ∷ H ∷ H ∷ []) s

unfoldable pub deserialize : Bytes → Result ModbusResponseFc15
unfolding of_values
deserialize s = catch_struct do pdu ← unpacked s; of_values pdu

unfoldable pub len : ModbusResponseFc15 → ℕ
len p = calcsize (wire_format p)

unfoldable pub violations : ModbusResponseFc15 → List ModbusViolation
violations p =
    limit_violations "ModbusResponseFC15"
      (record { field = "quantity"; low = 0x0001; high = 0x07B0; value = p.quantity } ∷ [])

abbrev body : ModbusResponseFc15 → Format
body p = H ∷ H ∷ []

pub laws : PacketLaws 15 serialize deserialize len
unfolding serialize deserialize len
laws =
    make_laws 15 body payload unpacked of_values
      (λ p vs s h. read-pack_fixed (B ∷ H ∷ H ∷ []) vs s h) (λ p x. refl)

unwrap : (q p : ModbusResponseFc15) → ok q ≡ ok p → p ≡ q
unwrap q p h = cc

payload-of_values :
    (vs : List ℕ) (p : ModbusResponseFc15) → of_values vs ≡ ok p → (x : ℕ) × (x ∷ payload p ≡ vs)
unfolding of_values
payload-of_values [] p h = cc
payload-of_values (x ∷ []) p h = cc
payload-of_values (x ∷ start ∷ []) p h = cc
payload-of_values (x ∷ start ∷ count ∷ []) p h =
    (x, ap (λ (q : ModbusResponseFc15). x ∷ payload q) (unwrap _ p h))
payload-of_values (x ∷ start ∷ count ∷ y ∷ more) p h = cc

pub lossless : Lossless 15 serialize deserialize
unfolding serialize deserialize
lossless = make-Lossless 15 body payload unpacked of_values (omega arith) λ s vs p b r o.
    let (x, e) = payload-of_values vs p o in (x, rw e (pack-unpack (B ∷ H ∷ H ∷ []) s vs b r))
