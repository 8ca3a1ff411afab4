-- ===== src/Pdu/Registers/RequestFc22.antt =====
-- pdu/registers.py, class ModbusRequestFC22: mask write register.
use pyomb.Prelude.{ℕ, ◌≡◌, refl, ap, List, [], ◌∷◌, arith}
use pyomb.Errors.{Result, ok, err, index_error, catch_struct, catch_packet, ◌>>=◌}
use pyomb.Struct.{Bytes, B, H, Format, calcsize, unpack}
use pyomb.Struct.Laws.{pack-unpack}
use pyomb.Pdu.Common.{ModbusViolation, limit_violations, pack_pdu}
use pyomb.Pdu.Codec.{PacketLaws, Lossless, make_laws, make-Lossless, read-pack_fixed}

pub record ModbusRequestFc22 : Type 0 where
  pub ref_addr : ℕ
  pub and_mask : ℕ
  pub or_mask : ℕ

abbrev pub pdu_id : ℕ
pdu_id = 0x0016

-- `>BHHH`
abbrev pub wire_format : ModbusRequestFc22 → Format
wire_format p = B ∷ H ∷ H ∷ H ∷ []

-- The fields in wire order.
abbrev pub payload : ModbusRequestFc22 → List ℕ
payload p = p.ref_addr ∷ p.and_mask ∷ p.or_mask ∷ []

unfoldable pub serialize : ModbusRequestFc22 → Result Bytes
unfolding pack_pdu
serialize p = catch_packet (pack_pdu (wire_format p) 22 (payload p))

unfoldable pub of_values : List ℕ → Result ModbusRequestFc22
of_values (fc ∷ ref ∷ ands ∷ ors ∷ []) =
    ok (record { ref_addr = ref; and_mask = ands; or_mask = ors })
of_values _ = err index_error

abbrev pub unpacked : Bytes → Result (List ℕ)
unpacked s = unpack (B ∷ H ∷ H ∷ H ∷ []) s

unfoldable pub deserialize : Bytes → Result ModbusRequestFc22
unfolding of_values
deserialize s = catch_struct do pdu ← unpacked s; of_values pdu

unfoldable pub len : ModbusRequestFc22 → ℕ
len p = calcsize (wire_format p)

unfoldable pub violations : ModbusRequestFc22 → List ModbusViolation
violations p = limit_violations "ModbusRequestFC22" []

abbrev body : ModbusRequestFc22 → Format
body p = H ∷ H ∷ H ∷ []

pub laws : PacketLaws 22 serialize deserialize len
unfolding serialize deserialize len
laws =
    make_laws 22 body payload unpacked of_values
      (λ p vs s h. read-pack_fixed (B ∷ H ∷ H ∷ H ∷ []) vs s h) (λ p x. refl)

unwrap : (q p : ModbusRequestFc22) → ok q ≡ ok p → p ≡ q
unwrap q p h = cc

payload-of_values :
    (vs : List ℕ) (p : ModbusRequestFc22) → of_values vs ≡ ok p → (x : ℕ) × (x ∷ payload p ≡ vs)
unfolding of_values
payload-of_values [] p h = cc
payload-of_values (x ∷ []) p h = cc
payload-of_values (x ∷ ref ∷ []) p h = cc
payload-of_values (x ∷ ref ∷ ands ∷ []) p h = cc
payload-of_values (x ∷ ref ∷ ands ∷ ors ∷ []) p h =
    (x, ap (λ (q : ModbusRequestFc22). x ∷ payload q) (unwrap _ p h))
payload-of_values (x ∷ ref ∷ ands ∷ ors ∷ y ∷ more) p h = cc

pub lossless : Lossless 22 serialize deserialize
unfolding serialize deserialize
lossless = make-Lossless 22 body payload unpacked of_values (omega arith) λ s vs p b r o.
    let (x, e) = payload-of_values vs p o in (x, rw e (pack-unpack (B ∷ H ∷ H ∷ H ∷ []) s vs b r))
