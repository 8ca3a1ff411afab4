-- ===== src/Adu/Crc/Detects.antt =====
-- calc_crc16 of adu/rtu.py: its rounds on words, and byte strings that differ in one byte.
use Prim.Native.Nat.{bit_xor}
use pyomb.Prelude.{ℕ, zero, suc, ◌/◌, ◌<◌, ◌≤◌, ◌≡◌, ◌≢◌, refl, ◌∙◌, [], ◌∷◌, ◌++◌, arith, All}
use pyomb.Prelude.Bits.{
  halve, halve-bit_xor, bit_xor-cancel_right, bit_xor-cancel_left, bit_and-one,
}
use pyomb.Struct.{Bytes, IsByte, IsWord}
use pyomb.Adu.Crc.{crc_round, crc_rounds, crc_byte, crc_bytes, calc_crc16}

high_word : (a : ℕ) → IsWord a → halve 16 a ≡ 0
high_word a h = omega arith

pub bit_xor-IsWord : (a b : ℕ) → IsWord a → IsWord b → IsWord (bit_xor a b)
bit_xor-IsWord a b h k =
    let clear : halve 16 (bit_xor a b) ≡ 0 =
      halve-bit_xor 16 a b ∙ rw (high_word a h, high_word b k) refl in
    omega arith

-- The polynomial sets the top bit of a shifted checksum, whose top bit is clear.
folded : (x : ℕ) → x < 32768 → (32768 ≤ bit_xor x 0xA001) × (bit_xor x 0xA001 < 65536)
folded x h =
    let clear : halve 15 x ≡ 0 = omega arith in
    let top : halve 15 (bit_xor x 0xA001) ≡ 1 = halve-bit_xor 15 x 0xA001 ∙ rw clear refl in
    omega arith

pub crc_round-IsWord : (c : ℕ) → IsWord c → IsWord (crc_round c)
unfolding crc_round
crc_round-IsWord c h = ground (arith, folded (c / 2))

-- A round loses nothing: the top bit of its result tells the bit that was shifted out.
crc_round-injective : (c d : ℕ) → IsWord c → IsWord d → crc_round c ≡ crc_round d → c ≡ d
unfolding crc_round
crc_round-injective c d h k e = ground (
  arith,
  folded (c / 2),
  folded (d / 2),
  bit_and-one c,
  bit_and-one d,
  bit_xor-cancel_right (c / 2) (d / 2) 0xA001,
)

crc_rounds-IsWord : (n c : ℕ) → IsWord c → IsWord (crc_rounds n c)
unfolding crc_rounds
crc_rounds-IsWord zero c h = h
crc_rounds-IsWord (suc n) c h = crc_rounds-IsWord n (crc_round c) (crc_round-IsWord c h)

crc_rounds-injective : (n c d : ℕ) → IsWord c → IsWord d → crc_rounds n c ≡ crc_rounds n d → c ≡ d
unfolding crc_rounds
crc_rounds-injective zero c d h k e = e
crc_rounds-injective (suc n) c d h k e = crc_round-injective c d h k (
    crc_rounds-injective n (crc_round c) (crc_round d) (crc_round-IsWord c h) (crc_round-IsWord d k)
      e)

crc_byte-IsWord : (c b : ℕ) → IsWord c → IsByte b → IsWord (crc_byte c b)
unfolding crc_byte
crc_byte-IsWord c b h k = crc_rounds-IsWord 8 _ (bit_xor-IsWord c b h (omega arith))

crc_byte-injective_crc :
    (c d b : ℕ) → IsWord c → IsWord d → IsByte b → crc_byte c b ≡ crc_byte d b → c ≡ d
unfolding crc_byte
crc_byte-injective_crc c d b h k l e = bit_xor-cancel_right c d b (
    crc_rounds-injective 8 _ _ (bit_xor-IsWord c b h (omega arith))
      (bit_xor-IsWord d b k (omega arith)) e)

crc_byte-injective_byte :
    (c b d : ℕ) → IsWord c → IsByte b → IsByte d → crc_byte c b ≡ crc_byte c d → b ≡ d
unfolding crc_byte
crc_byte-injective_byte c b d h k l e = bit_xor-cancel_left c b d (
    crc_rounds-injective 8 _ _ (bit_xor-IsWord c b h (omega arith))
      (bit_xor-IsWord c d h (omega arith)) e)

pub crc_bytes-IsWord : (c : ℕ) (s : Bytes) → IsWord c → All IsByte s → IsWord (crc_bytes c s)
unfolding crc_bytes
crc_bytes-IsWord c [] h k = h
crc_bytes-IsWord c (b ∷ s) h k = crc_bytes-IsWord (crc_byte c b) s (crc_byte-IsWord c b h k.0) k.1

crc_bytes-injective :
    (c d : ℕ) (s : Bytes)
    → IsWord c
    → IsWord d
    → All IsByte s
    → crc_bytes c s ≡ crc_bytes d s
    → c ≡ d
unfolding crc_bytes
crc_bytes-injective c d [] h k l e = e
crc_bytes-injective c d (b ∷ s) h k l e = crc_byte-injective_crc c d b h k l.0 (
    crc_bytes-injective (crc_byte c b) (crc_byte d b) s (crc_byte-IsWord c b h l.0)
      (crc_byte-IsWord d b k l.0) l.1 e)

pub crc_bytes-append : (c : ℕ) (s t : Bytes) → crc_bytes c (s ++ t) ≡ crc_bytes (crc_bytes c s) t
unfolding crc_bytes
crc_bytes-append c [] t = refl
crc_bytes-append c (b ∷ s) t = crc_bytes-append (crc_byte c b) s t

-- The checksum of a byte string is less than 65536.
pub calc_crc16-IsWord : (s : Bytes) → All IsByte s → IsWord (calc_crc16 s)
unfolding calc_crc16
calc_crc16-IsWord s h = crc_bytes-IsWord 0xFFFF s (omega arith) h

-- Two byte strings that differ in exactly one byte have different checksums.
pub calc_crc16-ne :
    (s t : Bytes) (b d : ℕ)
    → All IsByte s
    → All IsByte t
    → IsByte b
    → IsByte d
    → b ≢ d
    → calc_crc16 (s ++ b ∷ t) ≢ calc_crc16 (s ++ d ∷ t)
unfolding calc_crc16 crc_bytes
calc_crc16-ne s t b d hs ht hb hd ne e =
    let start = crc_bytes-IsWord 0xFFFF s (omega arith) hs in
    ne (
      crc_byte-injective_byte (crc_bytes 0xFFFF s) b d start hb hd (
        crc_bytes-injective (crc_byte (crc_bytes 0xFFFF s) b) (crc_byte (crc_bytes 0xFFFF s) d) t
          (crc_byte-IsWord _ b start hb) (crc_byte-IsWord _ d start hd) ht
          (rw (crc_bytes-append, crc_bytes-append) at e)))
