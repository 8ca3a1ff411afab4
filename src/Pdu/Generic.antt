-- ===== src/Pdu/Generic.antt =====
-- pdu/common.py, class ModbusPdu as it stands: the PDU that names no function code and stores its
-- payload.
use pyomb.Prelude.{arith, ℕ, List, [], ◌∷◌, length, replicate}
use pyomb.Errors.{Result, ok, err, index_error, catch_struct, ◌>>=◌}
use pyomb.Struct.{Bytes, B, Format, calcsize, unpack, repeat_count}
use pyomb.Struct.{IsByte}
use pyomb.Prelude.{All, arith, ◌≡◌}
use pyomb.Struct.Laws.{Packed, pack-Packed}
use pyomb.Errors.{>>=-eq-ok, catch_struct-eq-ok}
use pyomb.Pdu.Codec.{read-pack_tail, unread_tail}
use pyomb.Pdu.Common.{pack_pdu, ModbusViolation, limit_violations}

pub record ModbusPdu : Type 0 where
  pub fc : ℕ
  pub payload : List ℕ

-- `PDU_FORMAT.format(len(self.data))` for ">B{0}B"
abbrev pub wire_format : ModbusPdu → Format
wire_format p = B ∷ replicate (length p.payload) B

unfoldable pub serialize : ModbusPdu → Result Bytes
unfolding pack_pdu
serialize p = pack_pdu (wire_format p) p.fc p.payload

-- `fc = pdu[0]` and `data = pdu[1:]`
unfoldable pub of_values : List ℕ → Result ModbusPdu
of_values [] = err index_error
of_values (fc ∷ values) = ok (record { fc = fc; payload = values })

-- The values that the stream unpacks to, under the format that its length gives.
abbrev pub unpacked : Bytes → Result (List ℕ)
unpacked s = do n ← repeat_count 1 1 (length s); unpack (B ∷ replicate n B) s

unfoldable pub deserialize : Bytes → Result ModbusPdu
unfolding of_values
deserialize s = catch_struct do pdu ← unpacked s; of_values pdu

unfoldable pub len : ModbusPdu → ℕ
len p = calcsize (wire_format p)

unfoldable pub violations : ModbusPdu → List ModbusViolation
violations p = limit_violations "ModbusPdu" []

abbrev packed :
    (p : ModbusPdu) (s : Bytes) → serialize p ≡ ok s → Packed (wire_format p) (p.fc ∷ p.payload) s
unfolding serialize
packed p s h = pack-Packed _ _ s (catch_struct-eq-ok _ h)

pub parses : (p : ModbusPdu) (s : Bytes) → serialize p ≡ ok s → deserialize s ≡ ok p
unfolding serialize deserialize
parses p s h =
    rw (read-pack_tail (B ∷ []) B (length p.payload) (p.fc ∷ p.payload) s (catch_struct-eq-ok _ h))

pub sized : (p : ModbusPdu) (s : Bytes) → serialize p ≡ ok s → length s ≡ len p
unfolding len
sized p s h = (packed p s h).sized

pub bytes : (p : ModbusPdu) (s : Bytes) → serialize p ≡ ok s → All IsByte s
bytes p s h = (packed p s h).bytes

payload-of_values : (vs : List ℕ) (p : ModbusPdu) → of_values vs ≡ ok p → p.fc ∷ p.payload ≡ vs
unfolding of_values
payload-of_values [] p h = cc
payload-of_values (x ∷ vs) p h = ground arith

pub rebuilds :
    (s : Bytes) (p : ModbusPdu) → All IsByte s → deserialize s ≡ ok p → serialize p ≡ ok s
unfolding serialize deserialize
rebuilds s p b h =
    let (vs, r, o) = >>=-eq-ok (unpacked s) of_values (catch_struct-eq-ok _ h) in
    let e = payload-of_values vs p o in
    rw (unread_tail (B ∷ []) B (length p.payload) s (p.fc ∷ p.payload) b (omega arith) (rw e r))
