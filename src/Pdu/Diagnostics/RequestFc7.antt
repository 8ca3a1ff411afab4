-- ===== src/Pdu/Diagnostics/RequestFc7.antt =====
-- pdu/diagnostics.py, class ModbusRequestFC7: read exception status.
use pyomb.Prelude.{ℕ, ◌≡◌, refl, ap, List, [], ◌∷◌, arith}
use pyomb.Errors.{Result, ok, err, index_error, catch_struct, catch_packet, ◌>>=◌}
use pyomb.Struct.{Bytes, B, Format, calcsize, unpack}
use pyomb.Struct.Laws.{pack-unpack}
use pyomb.Pdu.Common.{ModbusViolation, limit_violations, pack_pdu}
use pyomb.Pdu.Codec.{PacketLaws, Lossless, make_laws, make-Lossless, read-pack_fixed}

pub record ModbusRequestFc7 : Type 0 where

abbrev pub pdu_id : ℕ
pdu_id = 0x0007

-- `>B`
abbrev pub wire_format : ModbusRequestFc7 → Format
wire_format p = B ∷ []

-- The fields in wire order.
abbrev pub payload : ModbusRequestFc7 → List ℕ
payload p = []

unfoldable pub serialize : ModbusRequestFc7 → Result Bytes
unfolding pack_pdu
serialize p = catch_packet (pack_pdu (wire_format p) 7 (payload p))

unfoldable pub of_values : List ℕ → Result ModbusRequestFc7
of_values (fc ∷ []) = ok (record {})
of_values _ = err index_error

abbrev pub unpacked : Bytes → Result (List ℕ)
unpacked s = unpack (B ∷ []) s

unfoldable pub deserialize : Bytes → Result ModbusRequestFc7
unfolding of_values
deserialize s = catch_struct do pdu ← unpacked s; of_values pdu

unfoldable pub len : ModbusRequestFc7 → ℕ
len p = calcsize (wire_format p)

unfoldable pub violations : ModbusRequestFc7 → List ModbusViolation
violations p = limit_violations "ModbusRequestFC7" []

abbrev body : ModbusRequestFc7 → Format
body p = []

pub laws : PacketLaws 7 serialize deserialize len
unfolding serialize deserialize len
laws =
    make_laws 7 body payload unpacked of_values (λ p vs s h. read-pack_fixed (B ∷ []) vs s h)
      (λ p x. refl)

unwrap : (q p : ModbusRequestFc7) → ok q ≡ ok p → p ≡ q
unwrap q p h = cc

payload-of_values :
    (vs : List ℕ) (p : ModbusRequestFc7) → of_values vs ≡ ok p → (x : ℕ) × (x ∷ payload p ≡ vs)
unfolding of_values
payload-of_values [] p h = cc
payload-of_values (x ∷ []) p h = (x, ap (λ (q : ModbusRequestFc7). x ∷ payload q) (unwrap _ p h))
payload-of_values (x ∷ y ∷ more) p h = cc

pub lossless : Lossless 7 serialize deserialize
unfolding serialize deserialize
lossless = make-Lossless 7 body payload unpacked of_values (omega arith) λ s vs p b r o.
    let (x, e) = payload-of_values vs p o in (x, rw e (pack-unpack (B ∷ []) s vs b r))
