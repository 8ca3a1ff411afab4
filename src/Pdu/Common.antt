-- ===== src/Pdu/Common.antt =====
-- pdu/common.py: findings, and what every PDU class shares.
use pyomb.Prelude.{ℕ, String, Bool, List, [], ◌∷◌, leb, ◌==◌, ◌&&◌, if◌then◌else◌}
use pyomb.Errors.{Result, ok, err, packet_error, catch_struct}
use pyomb.Struct.{Bytes, Format, pack}

-- The constraint that a finding names: a range, one value, a count that other fields fix at a
-- number, or a sentence.
pub data Rule : Type 0 where
  exactly : ℕ → Rule
  between : ℕ → ℕ → Rule
  counts : String → ℕ → Rule
  sentence : String → Rule

pub record ModbusViolation : Type 0 where
  pub source : String
  pub field : String
  pub rule : Rule
  pub value : ℕ

-- One entry of LIMITS, with the value that the packet holds for it.
pub record Limit : Type 0 where
  pub field : String
  pub low : ℕ
  pub high : ℕ
  pub value : ℕ

unfoldable pub in_range : ℕ → ℕ → ℕ → Bool
in_range low high value = leb low value && leb value high

unfoldable pub limit_rule : ℕ → ℕ → Rule
limit_rule low high = if low == high then exactly low else between low high

-- `violations` of the base class: the LIMITS in the order of their names. A PDU has no PARTS.
unfoldable pub limit_violations : String → List Limit → List ModbusViolation
unfolding in_range limit_rule
limit_violations source [] = []
limit_violations source (l ∷ ls) =
    let rest = limit_violations source ls in
    if in_range l.low l.high l.value
    then rest
    else record {
      source = source;
      field = l.field;
      rule = limit_rule l.low l.high;
      value = l.value;
    }
      ∷ rest

unfoldable pub fixed_count : String → String → ℕ → ℕ → String → List ModbusViolation
fixed_count source field value expected rule =
    if value == expected
    then []
    else record { source = source; field = field; rule = counts rule expected; value = value } ∷ []

-- `validate` raises where there is a finding.
unfoldable pub validate : List ModbusViolation → Result (Unit {0})
validate [] = ok tt
validate (v ∷ vs) = err packet_error

-- `_pack`
unfoldable pub pack_pdu : Format → ℕ → List ℕ → Result Bytes
pack_pdu fmt fc values = catch_struct (pack fmt (fc ∷ values))
