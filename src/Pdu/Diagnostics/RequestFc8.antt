-- ===== src/Pdu/Diagnostics/RequestFc8.antt =====
-- pdu/diagnostics.py, class ModbusRequestFC8: diagnostics.
use pyomb.Prelude.{ℕ, ◌≡◌, refl, ap, List, [], ◌∷◌, ◌++◌, arith, length, replicate, if◌then◌else◌}
use pyomb.Errors.{Result, ok, err, index_error, catch_struct, catch_packet, ◌>>=◌}
use pyomb.Struct.{Bytes, B, H, Format, calcsize, unpack, repeat_count}
use pyomb.Pdu.Common.{ModbusViolation, limit_violations, pack_pdu, sentence}
use pyomb.Pdu.Codec.{PacketLaws, Lossless, make_laws, make-Lossless, read-pack_tail, unread_tail}
use pyomb.Pdu.Diagnostics.SubFunctions.{is_sub_function}

pub record ModbusRequestFc8 : Type 0 where
  pub sub_func : ℕ
  pub subfunc_data : List ℕ

abbrev pub pdu_id : ℕ
pdu_id = 0x0008

-- `>BH{0}H`, formatted with the number that `serialize` and `__len__` take.
abbrev pub wire_format : ModbusRequestFc8 → Format
wire_format p = B ∷ H ∷ replicate (length p.subfunc_data) H

-- The fields in wire order.
abbrev pub payload : ModbusRequestFc8 → List ℕ
payload p = p.sub_func ∷ p.subfunc_data

unfoldable pub serialize : ModbusRequestFc8 → Result Bytes
unfolding pack_pdu
serialize p = catch_packet (pack_pdu (wire_format p) 8 (payload p))

unfoldable pub of_values : List ℕ → Result ModbusRequestFc8
of_values (fc ∷ sub ∷ items) = ok (record { sub_func = sub; subfunc_data = items })
of_values _ = err index_error

-- The values that the stream unpacks to, under the format that its length gives.
abbrev pub unpacked : Bytes → Result (List ℕ)
unpacked s = do n ← repeat_count 3 2 (length s); unpack (B ∷ H ∷ replicate n H) s

unfoldable pub deserialize : Bytes → Result ModbusRequestFc8
unfolding of_values
deserialize s = catch_struct do pdu ← unpacked s; of_values pdu

unfoldable pub len : ModbusRequestFc8 → ℕ
len p = calcsize (wire_format p)

unfoldable pub violations : ModbusRequestFc8 → List ModbusViolation
violations p =
    limit_violations "ModbusRequestFC8" []
    ++ (if is_sub_function p.sub_func
        then []
        else record {
          source = "ModbusRequestFC8";
          field = "sub_func";
          rule = sentence "0x0000 to 0x0004, 0x000A to 0x0012, or 0x0014";
          value = p.sub_func;
        }
          ∷ [])

abbrev body : ModbusRequestFc8 → Format
body p = H ∷ replicate (length p.subfunc_data) H

pub laws : PacketLaws 8 serialize deserialize len
unfolding serialize deserialize len
laws =
    make_laws 8 body payload unpacked of_values
      (λ p vs s h. read-pack_tail (B ∷ H ∷ []) H (length p.subfunc_data) vs s h) (λ p x. refl)

unwrap : (q p : ModbusRequestFc8) → ok q ≡ ok p → p ≡ q
unwrap q p h = cc

payload-of_values :
    (vs : List ℕ) (p : ModbusRequestFc8) → of_values vs ≡ ok p → (x : ℕ) × (x ∷ payload p ≡ vs)
unfolding of_values
payload-of_values [] p h = cc
payload-of_values (x ∷ []) p h = cc
payload-of_values (x ∷ sub ∷ items) p h =
    (x, ap (λ (q : ModbusRequestFc8). x ∷ payload q) (unwrap _ p h))

pub lossless : Lossless 8 serialize deserialize
unfolding serialize deserialize
lossless = make-Lossless 8 body payload unpacked of_values (omega arith) λ s vs p b r o.
    let (x, e) = payload-of_values vs p o in
    (
      x,
      unread_tail (B ∷ H ∷ []) H (length p.subfunc_data) s (x ∷ payload p) b (omega arith) (rw e r),
    )
