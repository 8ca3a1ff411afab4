-- ===== src/Pdu/Bits/ResponseFc1.antt =====
-- pdu/bits.py, class ModbusResponseFC1: read coils.
use pyomb.Prelude.{
  ◌≢◌, All, drop, length-replicate, ap, ℕ, ◌≡◌, refl, ap, List, [], ◌∷◌, ◌++◌, arith, length,
  replicate,
}
use pyomb.Errors.{packet_error, Result, ok, err, index_error, catch_struct, catch_packet, ◌>>=◌}
use pyomb.Struct.{IsByte, Bytes, B, Format, calcsize, unpack, repeat_count}
use pyomb.Struct.Laws.{pack-refuses}
use pyomb.Pdu.Common.{ModbusViolation, limit_violations, fixed_count, pack_pdu}
use pyomb.Pdu.Codec.{rebuild_at, unread_tail, PacketLaws, make_laws, read-pack_tail, unread_tail}

pub record ModbusResponseFc1 : Type 0 where
  pub byte_count : ℕ
  pub output_status : List ℕ

abbrev pub pdu_id : ℕ
pdu_id = 0x8001

-- `>BB{0}B`, formatted with the number that `serialize` and `__len__` take.
abbrev pub wire_format : ModbusResponseFc1 → Format
wire_format p = B ∷ B ∷ replicate (p.byte_count) B

-- The fields in wire order.
abbrev pub payload : ModbusResponseFc1 → List ℕ
payload p = p.byte_count ∷ p.output_status

unfoldable pub serialize : ModbusResponseFc1 → Result Bytes
unfolding pack_pdu
serialize p = catch_packet (pack_pdu (wire_format p) 1 (payload p))

unfoldable pub of_values : List ℕ → Result ModbusResponseFc1
of_values (fc ∷ size ∷ states) = ok (record { byte_count = size; output_status = states })
of_values _ = err index_error

-- The values that the stream unpacks to, under the format that its length gives.
abbrev pub unpacked : Bytes → Result (List ℕ)
unpacked s = do n ← repeat_count 2 1 (length s); unpack (B ∷ B ∷ replicate n B) s

unfoldable pub deserialize : Bytes → Result ModbusResponseFc1
unfolding of_values
deserialize s = catch_struct do pdu ← unpacked s; of_values pdu

unfoldable pub len : ModbusResponseFc1 → ℕ
len p = calcsize (wire_format p)

unfoldable pub violations : ModbusResponseFc1 → List ModbusViolation
violations p =
    limit_violations "ModbusResponseFC1" []
    ++ fixed_count "ModbusResponseFC1" "byte_count" p.byte_count (length p.output_status)
        "the number of status bytes"

abbrev body : ModbusResponseFc1 → Format
body p = B ∷ replicate (p.byte_count) B

pub laws : PacketLaws 1 serialize deserialize len
unfolding serialize deserialize len
laws =
    make_laws 1 body payload unpacked of_values
      (λ p vs s h. read-pack_tail (B ∷ B ∷ []) B (p.byte_count) vs s h) (λ p x. refl)

unwrap : (q p : ModbusResponseFc1) → ok q ≡ ok p → p ≡ q
unwrap q p h = cc

payload-of_values :
    (vs : List ℕ) (p : ModbusResponseFc1) → of_values vs ≡ ok p → (x : ℕ) × (x ∷ payload p ≡ vs)
unfolding of_values
payload-of_values [] p h = cc
payload-of_values (x ∷ []) p h = cc
payload-of_values (x ∷ size ∷ states) p h =
    (x, ap (λ (q : ModbusResponseFc1). x ∷ payload q) (unwrap _ p h))

-- A parsed packet serializes to what it was parsed from where its count is the number of status
-- bytes that followed, and is refused where it is not.
pub rebuilds_counted :
    (s : Bytes) (p : ModbusResponseFc1)
    → All IsByte s
    → p.byte_count ≡ length p.output_status
    → deserialize s ≡ ok p
    → serialize p ≡ ok (1 ∷ drop 1 s)
unfolding serialize deserialize
rebuilds_counted s p b counted =
    rebuild_at 1 body payload unpacked of_values (omega arith) s p λ vs r o.
      let (x, e) = payload-of_values vs p o in
      (x, unread_tail (B ∷ B ∷ []) B p.byte_count s (x ∷ payload p) b (omega arith) (rw e r))

-- A response of function code 1 whose byte count is not the number of its status bytes is refused
-- by `serialize` with a packet error.
pub serialize-refuses_coils :
    (p : ModbusResponseFc1) → p.byte_count ≢ length p.output_status → serialize p ≡ err packet_error
unfolding serialize
serialize-refuses_coils p uncounted = rw (
    pack-refuses (wire_format p) (1 ∷ payload p)
      (λ e. uncounted (omega (arith, length-replicate p.byte_count B, e))))
