-- ===== src/Pdu/Bits/ResponseFc2.antt =====
-- pdu/bits.py, class ModbusResponseFC2: read discrete inputs.
use pyomb.Prelude.{
  ◌≢◌, All, drop, length-replicate, ap, ℕ, ◌≡◌, refl, ap, List, [], ◌∷◌, ◌++◌, arith, length,
  replicate,
}
use pyomb.Errors.{packet_error, Result, ok, err, index_error, catch_struct, catch_packet, ◌>>=◌}
use pyomb.Struct.{IsByte, Bytes, B, Format, calcsize, unpack, repeat_count}
use pyomb.Struct.Laws.{pack-refuses}
use pyomb.Pdu.Common.{ModbusViolation, limit_violations, fixed_count, pack_pdu}
use pyomb.Pdu.Codec.{rebuild_at, unread_tail, PacketLaws, make_laws, read-pack_tail, unread_tail}

pub record ModbusResponseFc2 : Type 0 where
  pub byte_count : ℕ
  pub input_status : List ℕ

abbrev pub pdu_id : ℕ
pdu_id = 0x8002

-- `>BB{0}B`, formatted with the number that `serialize` and `__len__` take.
abbrev pub wire_format : ModbusResponseFc2 → Format
wire_format p = B ∷ B ∷ replicate (p.byte_count) B

-- The fields in wire order.
abbrev pub payload : ModbusResponseFc2 → List ℕ
payload p = p.byte_count ∷ p.input_status

unfoldable pub serialize : ModbusResponseFc2 → Result Bytes
unfolding pack_pdu
serialize p = catch_packet (pack_pdu (wire_format p) 2 (payload p))

unfoldable pub of_values : List ℕ → Result ModbusResponseFc2
of_values (fc ∷ size ∷ states) = ok (record { byte_count = size; input_status = states })
of_values _ = err index_error

-- The values that the stream unpacks to, under the format that its length gives.
abbrev pub unpacked : Bytes → Result (List ℕ)
unpacked s = do n ← repeat_count 2 1 (length s); unpack (B ∷ B ∷ replicate n B) s

unfoldable pub deserialize : Bytes → Result ModbusResponseFc2
unfolding of_values
deserialize s = catch_struct do pdu ← unpacked s; of_values pdu

unfoldable pub len : ModbusResponseFc2 → ℕ
len p = calcsize (wire_format p)

unfoldable pub violations : ModbusResponseFc2 → List ModbusViolation
violations p =
    limit_violations "ModbusResponseFC2" []
    ++ fixed_count "ModbusResponseFC2" "byte_count" p.byte_count (length p.input_status)
        "the number of status bytes"

abbrev body : ModbusResponseFc2 → Format
body p = B ∷ replicate (p.byte_count) B

pub laws : PacketLaws 2 serialize deserialize len
unfolding serialize deserialize len
laws =
    make_laws 2 body payload unpacked of_values
      (λ p vs s h. read-pack_tail (B ∷ B ∷ []) B (p.byte_count) vs s h) (λ p x. refl)

unwrap : (q p : ModbusResponseFc2) → ok q ≡ ok p → p ≡ q
unwrap q p h = cc

payload-of_values :
    (vs : List ℕ) (p : ModbusResponseFc2) → of_values vs ≡ ok p → (x : ℕ) × (x ∷ payload p ≡ vs)
unfolding of_values
payload-of_values [] p h = cc
payload-of_values (x ∷ []) p h = cc
payload-of_values (x ∷ size ∷ states) p h =
    (x, ap (λ (q : ModbusResponseFc2). x ∷ payload q) (unwrap _ p h))

-- A parsed packet serializes to what it was parsed from where its count is the number of status
-- bytes that followed, and is refused where it is not.
pub rebuilds_counted :
    (s : Bytes) (p : ModbusResponseFc2)
    → All IsByte s
    → p.byte_count ≡ length p.input_status
    → deserialize s ≡ ok p
    → serialize p ≡ ok (2 ∷ drop 1 s)
unfolding serialize deserialize
rebuilds_counted s p b counted =
    rebuild_at 2 body payload unpacked of_values (omega arith) s p λ vs r o.
      let (x, e) = payload-of_values vs p o in
      (x, unread_tail (B ∷ B ∷ []) B p.byte_count s (x ∷ payload p) b (omega arith) (rw e r))

pub serialize-refuses_inputs :
    (p : ModbusResponseFc2) → p.byte_count ≢ length p.input_status → serialize p ≡ err packet_error
unfolding serialize
serialize-refuses_inputs p uncounted = rw (
    pack-refuses (wire_format p) (2 ∷ payload p)
      (λ e. uncounted (omega (arith, length-replicate p.byte_count B, e))))
