-- ===== src/Pdu/Error.antt =====
-- pdu/common.py, class ModbusError: the exception response. Its function code is read back as the
-- wire byte less 0x80, which is negative where the byte carries no error mask.
use pyomb.Prelude.{
  ℕ, ◌+◌, ◌-◌, ◌≡◌, ◌<◌, ap, List, [], ◌∷◌, ◌++◌, arith, length, subst, All, lt→ltb,
}
use pyomb.Prelude.Int.{ℤ, pos, negsuc, sub_ℕ, add_ℕ}
use pyomb.Errors.{Result, ok, err, index_error, struct_error, catch_struct, ◌>>=◌}
use pyomb.Struct.{Bytes, IsByte, B, calcsize, pack, unpack}
use pyomb.Pdu.Common.{ModbusViolation, limit_violations}

pub record ModbusError : Type 0 where
  pub fc : ℤ
  pub exc_code : ℕ

abbrev pub pdu_id : ℕ
pdu_id = 0x8000

abbrev pub error_mask : ℕ
error_mask = 0x80

-- `struct.pack(">B", n)` of an integer, which may be negative here.
unfoldable pub pack_int : ℤ → Result Bytes
pack_int (pos n) = pack (B ∷ []) (n ∷ [])
pack_int (negsuc n) = err struct_error

unfoldable pub serialize : ModbusError → Result Bytes
unfolding pack_int
serialize p = catch_struct do
  func_code ← pack_int (add_ℕ p.fc error_mask)
  exc_code ← pack (B ∷ []) (p.exc_code ∷ [])
  ok (func_code ++ exc_code)

unfoldable pub of_values : List ℕ → Result ModbusError
of_values (code ∷ exc ∷ []) = ok (record { fc = sub_ℕ code error_mask; exc_code = exc })
of_values _ = err index_error

unfoldable pub deserialize : Bytes → Result ModbusError
unfolding of_values
deserialize s = catch_struct do pdu ← unpack (B ∷ B ∷ []) s; of_values pdu

unfoldable pub len : ModbusError → ℕ
len p = calcsize (B ∷ B ∷ [])

unfoldable pub violations : ModbusError → List ModbusViolation
violations p = limit_violations "ModbusError" []

-- The two bytes that a packet is written as.
written :
    (n : ℤ) (e : ℕ) (s : Bytes)
    → serialize (record { fc = n; exc_code = e }) ≡ ok s
    → (c : ℕ) × (c < 256) × (e < 256) × (sub_ℕ c error_mask ≡ n) × (c ∷ e ∷ [] ≡ s)
unfolding serialize pack
written (pos n) e s h = (n + 128, ground arith, ground arith, ground arith, ground arith)
written (negsuc n) e s h = (127 - n, ground arith, ground arith, ground arith, ground arith)

pub parses : (p : ModbusError) (s : Bytes) → serialize p ≡ ok s → deserialize s ≡ ok p
unfolding deserialize unpack
parses p s h =
    let (c, small, fits, eq, es) = written p.fc p.exc_code s h in
    subst (λ u. deserialize u ≡ ok p) es (ap (λ (n : ℤ). ok (record p { fc = n })) eq)

pub sized : (p : ModbusError) (s : Bytes) → serialize p ≡ ok s → length s ≡ len p
unfolding len
sized p s h =
    let (c, small, fits, eq, es) = written p.fc p.exc_code s h in
    subst (λ (u : Bytes). length u ≡ 2) es (omega arith)

-- The byte that the error mask was taken from comes back.
masked : (c : ℕ) → c < 256 → pack_int (add_ℕ (sub_ℕ c error_mask) error_mask) ≡ ok (c ∷ [])
unfolding pack_int pack
masked c small = ground arith

unwrap : (q p : ModbusError) → ok q ≡ ok p → q ≡ p
unwrap q p h = cc

pub rebuilds :
    (s : Bytes) (p : ModbusError) → All IsByte s → deserialize s ≡ ok p → serialize p ≡ ok s
unfolding serialize deserialize unpack pack
rebuilds [] p b h = cc
rebuilds (c ∷ []) p b h = cc
rebuilds (c ∷ e ∷ []) p b h =
    subst (λ q. serialize q ≡ ok (c ∷ e ∷ []))
      {x = record { fc = sub_ℕ c error_mask; exc_code = e }} (unwrap _ p h)
      (rw (masked c b.0, lt→ltb e 256 b.1.0))
rebuilds (c ∷ e ∷ x ∷ s) p b h = cc

pub bytes : (p : ModbusError) (s : Bytes) → serialize p ≡ ok s → All IsByte s
bytes p s h =
    let (c, small, fits, eq, es) = written p.fc p.exc_code s h in
    subst (All IsByte) es (small, (fits, tt))

-- The first byte of an exception response to a function code below 0x80 carries the error mask.
pub head_masked :
    (n e : ℕ) (s : Bytes)
    → serialize (record { fc = pos n; exc_code = e }) ≡ ok s
    → (t : Bytes) × ((n + error_mask) ∷ t ≡ s)
unfolding serialize pack
head_masked n e s h = (e ∷ [], ground arith)
