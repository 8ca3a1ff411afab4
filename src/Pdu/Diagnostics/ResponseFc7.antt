-- ===== src/Pdu/Diagnostics/ResponseFc7.antt =====
-- pdu/diagnostics.py, class ModbusResponseFC7: read exception status.
use pyomb.Prelude.{ℕ, ◌≡◌, refl, ap, List, [], ◌∷◌, arith}
use pyomb.Errors.{Result, ok, err, index_error, catch_struct, catch_packet, ◌>>=◌}
use pyomb.Struct.{Bytes, B, Format, calcsize, unpack}
use pyomb.Struct.Laws.{pack-unpack}
use pyomb.Pdu.Common.{ModbusViolation, limit_violations, pack_pdu}
use pyomb.Pdu.Codec.{PacketLaws, Lossless, make_laws, make-Lossless, read-pack_fixed}

pub record ModbusResponseFc7 : Type 0 where
  pub status : ℕ

abbrev pub pdu_id : ℕ
pdu_id = 0x8007

-- `>BB`
abbrev pub wire_format : ModbusResponseFc7 → Format
wire_format p = B ∷ B ∷ []

-- The fields in wire order.
abbrev pub payload : ModbusResponseFc7 → List ℕ
payload p = p.status ∷ []

unfoldable pub serialize : ModbusResponseFc7 → Result Bytes
unfolding pack_pdu
serialize p = catch_packet (pack_pdu (wire_format p) 7 (payload p))

unfoldable pub of_values : List ℕ → Result ModbusResponseFc7
of_values (fc ∷ state ∷ []) = ok (record { status = state })
of_values _ = err index_error

abbrev pub unpacked : Bytes → Result (List ℕ)
unpacked s = unpack (B ∷ B ∷ []) s

unfoldable pub deserialize : Bytes → Result ModbusResponseFc7
unfolding of_values
deserialize s = catch_struct do pdu ← unpacked s; of_values pdu

unfoldable pub len : ModbusResponseFc7 → ℕ
len p = calcsize (wire_format p)

unfoldable pub violations : ModbusResponseFc7 → List ModbusViolation
violations p = limit_violations "ModbusResponseFC7" []

abbrev body : ModbusResponseFc7 → Format
body p = B ∷ []

pub laws : PacketLaws 7 serialize deserialize len
unfolding serialize deserialize len
laws =
    make_laws 7 body payload unpacked of_values (λ p vs s h. read-pack_fixed (B ∷ B ∷ []) vs s h)
      (λ p x. refl)

unwrap : (q p : ModbusResponseFc7) → ok q ≡ ok p → p ≡ q
unwrap q p h = cc

payload-of_values :
    (vs : List ℕ) (p : ModbusResponseFc7) → of_values vs ≡ ok p → (x : ℕ) × (x ∷ payload p ≡ vs)
unfolding of_values
payload-of_values [] p h = cc
payload-of_values (x ∷ []) p h = cc
payload-of_values (x ∷ state ∷ []) p h =
    (x, ap (λ (q : ModbusResponseFc7). x ∷ payload q) (unwrap _ p h))
payload-of_values (x ∷ state ∷ y ∷ more) p h = cc

pub lossless : Lossless 7 serialize deserialize
unfolding serialize deserialize
lossless = make-Lossless 7 body payload unpacked of_values (omega arith) λ s vs p b r o.
    let (x, e) = payload-of_values vs p o in (x, rw e (pack-unpack (B ∷ B ∷ []) s vs b r))
