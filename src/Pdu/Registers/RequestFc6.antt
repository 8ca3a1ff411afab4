-- ===== src/Pdu/Registers/RequestFc6.antt =====
-- pdu/registers.py, class ModbusRequestFC6: write single register.
use pyomb.Prelude.{ℕ, ◌≡◌, refl, ap, List, [], ◌∷◌, arith}
use pyomb.Errors.{Result, ok, err, index_error, catch_struct, catch_packet, ◌>>=◌}
use pyomb.Struct.{Bytes, B, H, Format, calcsize, unpack}
use pyomb.Struct.Laws.{pack-unpack}
use pyomb.Pdu.Common.{ModbusViolation, limit_violations, pack_pdu}
use pyomb.Pdu.Codec.{PacketLaws, Lossless, make_laws, make-Lossless, read-pack_fixed}

pub record ModbusRequestFc6 : Type 0 where
  pub output_address : ℕ
  pub output_value : ℕ

abbrev pub pdu_id : ℕ
pdu_id = 0x0006

-- `>BHH`
abbrev pub wire_format : ModbusRequestFc6 → Format
wire_format p = B ∷ H ∷ H ∷ []

-- The fields in wire order.
abbrev pub payload : ModbusRequestFc6 → List ℕ
payload p = p.output_address ∷ p.output_value ∷ []

unfoldable pub serialize : ModbusRequestFc6 → Result Bytes
unfolding pack_pdu
serialize p = catch_packet (pack_pdu (wire_format p) 6 (payload p))

unfoldable pub of_values : List ℕ → Result ModbusRequestFc6
of_values (fc ∷ address ∷ value ∷ []) =
    ok (record { output_address = address; output_value = value })
of_values _ = err index_error

abbrev pub unpacked : Bytes → Result (List ℕ)
unpacked s = unpack (B ∷ H ∷ H ∷ []) s

unfoldable pub deserialize : Bytes → Result ModbusRequestFc6
unfolding of_values
deserialize s = catch_struct do pdu ← unpacked s; of_values pdu

unfoldable pub len : ModbusRequestFc6 → ℕ
len p = calcsize (wire_format p)

unfoldable pub violations : ModbusRequestFc6 → List ModbusViolation
violations p = limit_violations "ModbusRequestFC6" []

abbrev body : ModbusRequestFc6 → Format
body p = H ∷ H ∷ []

pub laws : PacketLaws 6 serialize deserialize len
unfolding serialize deserialize len
laws =
    make_laws 6 body payload unpacked of_values
      (λ p vs s h. read-pack_fixed (B ∷ H ∷ H ∷ []) vs s h) (λ p x. refl)

unwrap : (q p : ModbusRequestFc6) → ok q ≡ ok p → p ≡ q
unwrap q p h = cc

payload-of_values :
    (vs : List ℕ) (p : ModbusRequestFc6) → of_values vs ≡ ok p → (x : ℕ) × (x ∷ payload p ≡ vs)
unfolding of_values
payload-of_values [] p h = cc
payload-of_values (x ∷ []) p h = cc
payload-of_values (x ∷ address ∷ []) p h = cc
payload-of_values (x ∷ address ∷ value ∷ []) p h =
    (x, ap (λ (q : ModbusRequestFc6). x ∷ payload q) (unwrap _ p h))
payload-of_values (x ∷ address ∷ value ∷ y ∷ more) p h = cc

pub lossless : Lossless 6 serialize deserialize
unfolding serialize deserialize
lossless = make-Lossless 6 body payload unpacked of_values (omega arith) λ s vs p b r o.
    let (x, e) = payload-of_values vs p o in (x, rw e (pack-unpack (B ∷ H ∷ H ∷ []) s vs b r))
