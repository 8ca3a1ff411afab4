-- ===== src/Pdu/Bits/ResponseFc5.antt =====
-- pdu/bits.py, class ModbusResponseFC5: write single coil.
use pyomb.Prelude.{ℕ, ◌≡◌, refl, ap, List, [], ◌∷◌, ◌++◌, arith, ◌==◌, ◌||◌, if◌then◌else◌}
use pyomb.Errors.{Result, ok, err, index_error, catch_struct, catch_packet, ◌>>=◌}
use pyomb.Struct.{Bytes, B, H, Format, calcsize, unpack}
use pyomb.Struct.Laws.{pack-unpack}
use pyomb.Pdu.Common.{ModbusViolation, limit_violations, pack_pdu, sentence}
use pyomb.Pdu.Codec.{PacketLaws, Lossless, make_laws, make-Lossless, read-pack_fixed}

pub record ModbusResponseFc5 : Type 0 where
  pub output_address : ℕ
  pub output_value : ℕ

abbrev pub pdu_id : ℕ
pdu_id = 0x8005

-- `>BHH`
abbrev pub wire_format : ModbusResponseFc5 → Format
wire_format p = B ∷ H ∷ H ∷ []

-- The fields in wire order.
abbrev pub payload : ModbusResponseFc5 → List ℕ
payload p = p.output_address ∷ p.output_value ∷ []

unfoldable pub serialize : ModbusResponseFc5 → Result Bytes
unfolding pack_pdu
serialize p = catch_packet (pack_pdu (wire_format p) 5 (payload p))

unfoldable pub of_values : List ℕ → Result ModbusResponseFc5
of_values (fc ∷ address ∷ value ∷ []) =
    ok (record { output_address = address; output_value = value })
of_values _ = err index_error

abbrev pub unpacked : Bytes → Result (List ℕ)
unpacked s = unpack (B ∷ H ∷ H ∷ []) s

unfoldable pub deserialize : Bytes → Result ModbusResponseFc5
unfolding of_values
deserialize s = catch_struct do pdu ← unpacked s; of_values pdu

unfoldable pub len : ModbusResponseFc5 → ℕ
len p = calcsize (wire_format p)

unfoldable pub violations : ModbusResponseFc5 → List ModbusViolation
violations p =
    limit_violations "ModbusResponseFC5" []
    ++ (if p.output_value == 0x0000 || p.output_value == 0xFF00
        then []
        else record {
          source = "ModbusResponseFC5";
          field = "output_value";
          rule = sentence "0x0000 or 0xFF00";
          value = p.output_value;
        }
          ∷ [])

abbrev body : ModbusResponseFc5 → Format
body p = H ∷ H ∷ []

pub laws : PacketLaws 5 serialize deserialize len
unfolding serialize deserialize len
laws =
    make_laws 5 body payload unpacked of_values
      (λ p vs s h. read-pack_fixed (B ∷ H ∷ H ∷ []) vs s h) (λ p x. refl)

unwrap : (q p : ModbusResponseFc5) → ok q ≡ ok p → p ≡ q
unwrap q p h = cc

payload-of_values :
    (vs : List ℕ) (p : ModbusResponseFc5) → of_values vs ≡ ok p → (x : ℕ) × (x ∷ payload p ≡ vs)
unfolding of_values
payload-of_values [] p h = cc
payload-of_values (x ∷ []) p h = cc
payload-of_values (x ∷ address ∷ []) p h = cc
payload-of_values (x ∷ address ∷ value ∷ []) p h =
    (x, ap (λ (q : ModbusResponseFc5). x ∷ payload q) (unwrap _ p h))
payload-of_values (x ∷ address ∷ value ∷ y ∷ more) p h = cc

pub lossless : Lossless 5 serialize deserialize
unfolding serialize deserialize
lossless = make-Lossless 5 body payload unpacked of_values (omega arith) λ s vs p b r o.
    let (x, e) = payload-of_values vs p o in (x, rw e (pack-unpack (B ∷ H ∷ H ∷ []) s vs b r))
