-- ===== src/Adu/Crc.antt =====
-- adu/rtu.py: the CRC-16 of a buffer, and the check of a frame against the checksum that it carries.
pub mod Detects
pub mod Frames
use Prim.Native.Nat.{bit_and, bit_xor}
use pyomb.Prelude.{
  ℕ, zero, suc, ◌+◌, ◌-◌, ◌*◌, ◌/◌, ◌%◌, List, [], ◌∷◌, ◌++◌, length, take, drop, ltb, ◌==◌,
  if◌then◌else◌,
}
use pyomb.Errors.{Result, ok, err, packet_error, struct_error, ◌>>=◌}
use pyomb.Struct.{Bytes}

abbrev pub crc_size : ℕ
crc_size = 2

-- One round of the inner loop.
unfoldable pub crc_round : ℕ → ℕ
crc_round crc = if bit_and crc 1 == 0 then crc / 2 else bit_xor (crc / 2) 0xA001

unfoldable pub crc_rounds : ℕ → ℕ → ℕ
crc_rounds zero crc = crc
crc_rounds (suc n) crc = crc_rounds n (crc_round crc)

unfoldable pub crc_byte : ℕ → ℕ → ℕ
crc_byte crc byte = crc_rounds 8 (bit_xor crc byte)

unfoldable pub crc_bytes : ℕ → Bytes → ℕ
crc_bytes crc [] = crc
crc_bytes crc (b ∷ s) = crc_bytes (crc_byte crc b) s

unfoldable pub calc_crc16 : Bytes → ℕ
calc_crc16 s = crc_bytes 0xFFFF s

-- `struct.pack("<H", crc)` and `struct.unpack("<H", ...)`: low byte first.
unfoldable pub pack_crc : ℕ → Result Bytes
pack_crc crc = if ltb crc 65536 then ok (crc % 256 ∷ crc / 256 ∷ []) else err struct_error

unfoldable pub unpack_crc : Bytes → Result ℕ
unpack_crc (lo ∷ hi ∷ []) = ok (hi * 256 + lo)
unpack_crc _ = err struct_error

-- `stream[-CRC_SIZE:]` and `stream[:-CRC_SIZE]`
abbrev pub tail_bytes : Bytes → Bytes
tail_bytes s = drop (length s - crc_size) s

abbrev pub front_bytes : Bytes → Bytes
front_bytes s = take (length s - crc_size) s

unfoldable pub validate_crc : Bytes → Result ℕ
unfolding unpack_crc
validate_crc s = if ltb (length s) (2 + crc_size) then err packet_error else do
  received ← unpack_crc (tail_bytes s)
  if received == calc_crc16 (front_bytes s) then ok received else err packet_error
