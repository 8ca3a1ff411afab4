-- ===== src/Pdu/Encapsulated/ResponseFc43.antt =====
-- pdu/encapsulated.py, class ModbusResponseFC43: encapsulated interface.
use pyomb.Prelude.{ℕ, ◌≡◌, refl, ap, List, [], ◌∷◌, arith, length, replicate}
use pyomb.Errors.{Result, ok, err, index_error, catch_struct, catch_packet, ◌>>=◌}
use pyomb.Struct.{Bytes, B, Format, calcsize, unpack, repeat_count}
use pyomb.Pdu.Common.{ModbusViolation, limit_violations, pack_pdu}
use pyomb.Pdu.Codec.{PacketLaws, Lossless, make_laws, make-Lossless, read-pack_tail, unread_tail}

pub record ModbusResponseFc43 : Type 0 where
  pub mei_type : ℕ
  pub mei_data : List ℕ

abbrev pub pdu_id : ℕ
pdu_id = 0x802B

-- `>BB{0}B`, formatted with the number that `serialize` and `__len__` take.
abbrev pub wire_format : ModbusResponseFc43 → Format
wire_format p = B ∷ B ∷ replicate (length p.mei_data) B

-- The fields in wire order.
abbrev pub payload : ModbusResponseFc43 → List ℕ
payload p = p.mei_type ∷ p.mei_data

unfoldable pub serialize : ModbusResponseFc43 → Result Bytes
unfolding pack_pdu
serialize p = catch_packet (pack_pdu (wire_format p) 43 (payload p))

unfoldable pub of_values : List ℕ → Result ModbusResponseFc43
of_values (fc ∷ kind ∷ items) = ok (record { mei_type = kind; mei_data = items })
of_values _ = err index_error

-- The values that the stream unpacks to, under the format that its length gives.
abbrev pub unpacked : Bytes → Result (List ℕ)
unpacked s = do n ← repeat_count 2 1 (length s); unpack (B ∷ B ∷ replicate n B) s

unfoldable pub deserialize : Bytes → Result ModbusResponseFc43
unfolding of_values
deserialize s = catch_struct do pdu ← unpacked s; of_values pdu

unfoldable pub len : ModbusResponseFc43 → ℕ
len p = calcsize (wire_format p)

unfoldable pub violations : ModbusResponseFc43 → List ModbusViolation
violations p =
    limit_violations "ModbusResponseFC43"
      (record { field = "mei_type"; low = 0x0E; high = 0x0E; value = p.mei_type } ∷ [])

abbrev body : ModbusResponseFc43 → Format
body p = B ∷ replicate (length p.mei_data) B

pub laws : PacketLaws 43 serialize deserialize len
unfolding serialize deserialize len
laws =
    make_laws 43 body payload unpacked of_values
      (λ p vs s h. read-pack_tail (B ∷ B ∷ []) B (length p.mei_data) vs s h) (λ p x. refl)

unwrap : (q p : ModbusResponseFc43) → ok q ≡ ok p → p ≡ q
unwrap q p h = cc

payload-of_values :
    (vs : List ℕ) (p : ModbusResponseFc43) → of_values vs ≡ ok p → (x : ℕ) × (x ∷ payload p ≡ vs)
unfolding of_values
payload-of_values [] p h = cc
payload-of_values (x ∷ []) p h = cc
payload-of_values (x ∷ kind ∷ items) p h =
    (x, ap (λ (q : ModbusResponseFc43). x ∷ payload q) (unwrap _ p h))

pub lossless : Lossless 43 serialize deserialize
unfolding serialize deserialize
lossless = make-Lossless 43 body payload unpacked of_values (omega arith) λ s vs p b r o.
    let (x, e) = payload-of_values vs p o in
    (x, unread_tail (B ∷ B ∷ []) B (length p.mei_data) s (x ∷ payload p) b (omega arith) (rw e r))
