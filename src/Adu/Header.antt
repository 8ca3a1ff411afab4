-- ===== src/Adu/Header.antt =====
-- adu/tcp.py, class ModbusHeader and validate_mbap_length.
use pyomb.Prelude.{ℕ, ◌+◌, ◌-◌, ◌≡◌, refl, List, [], ◌∷◌, arith, length, ◌==◌, if◌then◌else◌, All}
use pyomb.Errors.{
  Result, ok, err, packet_error, index_error, catch_struct, ModbusHeader, ◌>>=◌, >>=-eq-ok,
  catch_struct-eq-ok,
}
use pyomb.Struct.{Bytes, IsByte, B, H, Format, calcsize, pack, unpack}
use pyomb.Struct.Laws.{Packed, pack-Packed, pack-unpack, unpack-fits}
use pyomb.Pdu.Common.{ModbusViolation, limit_violations}

-- HEADER_FMT
abbrev pub header_fmt : Format
header_fmt = H ∷ H ∷ H ∷ B ∷ []

-- SIZE, which is also `__len__`.
abbrev pub size : ℕ
size = calcsize header_fmt

abbrev pub fields : ModbusHeader → List ℕ
fields h = h.trans_id ∷ h.prot_id ∷ h.length ∷ h.unit_id ∷ []

unfoldable pub serialize : ModbusHeader → Result Bytes
serialize h = catch_struct (pack header_fmt (fields h))

-- `cls(trans_id=header[0], ..., unit_id=header[3])`
unfoldable pub of_values : List ℕ → Result ModbusHeader
of_values (t ∷ p ∷ l ∷ u ∷ rest) =
    ok (record { trans_id = t; prot_id = p; length = l; unit_id = u })
of_values _ = err index_error

unfoldable pub deserialize : Bytes → Result ModbusHeader
unfolding of_values
deserialize s = do header ← catch_struct (unpack header_fmt s); of_values header

-- The subtraction is of a SIZE that is positive.
unfoldable pub validate_mbap_length : ModbusHeader → Bytes → Result (Unit {0})
validate_mbap_length h s = if length s == size + h.length - 1 then ok tt else err packet_error

unfoldable pub violations : ModbusHeader → List ModbusViolation
unfolding limit_violations
violations h =
    limit_violations "ModbusHeader"
      (record { field = "prot_id"; low = 0x0000; high = 0x0000; value = h.prot_id } ∷ [])

abbrev packed : (h : ModbusHeader) (s : Bytes) → serialize h ≡ ok s → Packed header_fmt (fields h) s
unfolding serialize
packed h s e = pack-Packed header_fmt (fields h) s (catch_struct-eq-ok _ e)

-- What a header serializes to is read back as the header.
pub deserialize-serialize_header :
    (h : ModbusHeader) (s : Bytes) → serialize h ≡ ok s → deserialize s ≡ ok h
unfolding deserialize of_values
deserialize-serialize_header h s e = rw ((packed h s e).reads) refl

pub sized : (h : ModbusHeader) (s : Bytes) → serialize h ≡ ok s → length s ≡ 7
sized h s e = omega (arith, (packed h s e).sized)

pub bytes : (h : ModbusHeader) (s : Bytes) → serialize h ≡ ok s → All IsByte s
bytes h s e = (packed h s e).bytes

fields-of_values :
    (vs : List ℕ) (h : ModbusHeader) → length vs ≡ 4 → of_values vs ≡ ok h → vs ≡ fields h
unfolding of_values
fields-of_values (t ∷ p ∷ l ∷ u ∷ []) h n e = ground arith
fields-of_values (t ∷ p ∷ l ∷ u ∷ x ∷ vs) h n e = absurd (omega arith)
fields-of_values [] h n e = absurd (omega arith)
fields-of_values (t ∷ []) h n e = absurd (omega arith)
fields-of_values (t ∷ p ∷ []) h n e = absurd (omega arith)
fields-of_values (t ∷ p ∷ l ∷ []) h n e = absurd (omega arith)

-- A byte string that is read as a header is what the header serializes to.
pub serialize-deserialize_header :
    (s : Bytes) (h : ModbusHeader) → All IsByte s → deserialize s ≡ ok h → serialize h ≡ ok s
unfolding serialize deserialize
serialize-deserialize_header s h b e =
    let (vs, u, o) = >>=-eq-ok (catch_struct (unpack header_fmt s)) of_values e in
    let read : unpack header_fmt s ≡ ok vs = catch_struct-eq-ok _ u in
    let same = fields-of_values vs h (omega (arith, unpack-fits header_fmt s vs read)) o in
    rw (pack-unpack header_fmt s (fields h) b (rw same at read)) refl
