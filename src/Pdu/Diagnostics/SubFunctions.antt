-- ===== src/Pdu/Diagnostics/SubFunctions.antt =====
-- pdu/diagnostics.py: the sub-function codes, and the size of a Diagnostics PDU read from its start.
use pyomb.Prelude.{
  ℕ, ◌+◌, ◌*◌, Bool, false, Option, none, some, List, [], ◌∷◌, ◌==◌, ◌||◌, if◌then◌else◌,
}
use pyomb.Errors.{Result, ok, err, packet_error}
use pyomb.Struct.{Bytes, B, H, calcsize}

abbrev pub sub_functions : List ℕ
sub_functions =
    0x00 ∷ 0x01 ∷ 0x02 ∷ 0x03 ∷ 0x04 ∷ 0x0A ∷ 0x0B ∷ 0x0C ∷ 0x0D ∷ 0x0E ∷ 0x0F ∷ 0x10 ∷ 0x11 ∷ 0x12
    ∷ 0x14 ∷ []

unfoldable pub one_of : List ℕ → ℕ → Bool
one_of [] n = false
one_of (m ∷ ms) n = m == n || one_of ms n

unfoldable pub is_sub_function : ℕ → Bool
unfolding one_of
is_sub_function n = one_of sub_functions n

abbrev pub echo_sub_function : ℕ
echo_sub_function = 0x0000

-- `struct.unpack(">H", prefix[1:head])[0]` is the number that the two bytes spell.
unfoldable pub size_from_prefix : Bytes → Result (Option ℕ)
unfolding is_sub_function
size_from_prefix (fc ∷ hi ∷ lo ∷ rest) =
    let sub_func = hi * 256 + lo in
    if sub_func == echo_sub_function
    then err packet_error
    else if is_sub_function sub_func
    then ok (some (calcsize (B ∷ H ∷ H ∷ [])))
    else err packet_error
size_from_prefix _ = ok none
