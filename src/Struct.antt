-- ===== src/Struct.antt =====
-- What the library uses of Python's `struct`: the big-endian formats of unsigned bytes `B` and words
-- `H`, with `pack`, `unpack` and `calcsize`, and the little-endian word that carries a checksum.
pub mod Laws
use pyomb.Prelude.{ℕ, suc, ◌+◌, ◌-◌, ◌*◌, ◌/◌, ◌%◌, ◌<◌, List, [], ◌∷◌, ◌++◌, ltb, if◌then◌else◌}
use pyomb.Errors.{Result, ok, err, struct_error, ◌>>=◌}

abbrev pub Bytes : Type 0
Bytes = List ℕ

abbrev pub IsByte : ℕ → Type 0
IsByte b = b < 256

abbrev pub IsWord : ℕ → Type 0
IsWord w = w < 65536

pub data Code : Type 0 where
  B H : Code

abbrev pub Format : Type 0
Format = List Code

abbrev pub width : Code → ℕ
width B = 1
width H = 2

-- The first value that a code does not hold.
abbrev pub bound : Code → ℕ
bound B = 256
bound H = 65536

abbrev pub calcsize : Format → ℕ
calcsize [] = 0
calcsize (c ∷ f) = width c + calcsize f

abbrev pub put_code : Code → ℕ → Bytes
put_code B v = v ∷ []
put_code H v = v / 256 ∷ v % 256 ∷ []

unfoldable pub pack : Format → List ℕ → Result Bytes
pack [] [] = ok []
pack [] (v ∷ vs) = err struct_error
pack (c ∷ f) [] = err struct_error
pack (c ∷ f) (v ∷ vs) =
    let rest = pack f vs in
    if ltb v (bound c) then (do s ← rest; ok (put_code c v ++ s)) else err struct_error

unfoldable pub unpack : Format → Bytes → Result (List ℕ)
unpack [] [] = ok []
unpack [] (b ∷ s) = err struct_error
unpack (B ∷ f) [] = err struct_error
unpack (B ∷ f) (b ∷ s) = do vs ← unpack f s; ok (b ∷ vs)
unpack (H ∷ f) [] = err struct_error
unpack (H ∷ f) (b ∷ []) = err struct_error
unpack (H ∷ f) (a ∷ b ∷ s) = do vs ← unpack f s; ok ((a * 256 + b) ∷ vs)

-- `FORMAT.format((len(stream) - head) // size)`: Python's quotient is negative exactly where the
-- stream is shorter than the head, and `struct` refuses a negative repeat count.
unfoldable pub repeat_count : ℕ → ℕ → ℕ → Result ℕ
repeat_count head size len = if ltb len head then err struct_error else ok ((len - head) / size)
