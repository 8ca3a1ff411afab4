-- ===== src/Transport/Port.antt =====
-- What transport/rtu.py relies on of the port that a caller opened, BytePort: `read` returns between one
-- byte and those asked for, or none once its timeout elapses, or it raises OSError; `write` takes some
-- of the bytes that it is given and says how many, or it raises OSError.
use pyomb.Prelude.{ℕ, ◌+◌, List, [], ◌∷◌, length, take, drop}
use pyomb.Errors.{ok, err, os_error}
use pyomb.Struct.{Bytes}
use pyomb.Io.{Action}

-- One or more bytes that arrive together; a timeout, which `read` reports by no bytes or by a
-- TimeoutError; a call that fails. After the last every call times out.
pub data Answer : Type 0 where
  bytes : ℕ → Bytes → Answer
  quiet fails : Answer

abbrev pub Line : Type 0
Line = List Answer

abbrev pub put_back : Bytes → Line → Line
put_back [] q = q
put_back (b ∷ t) q = bytes b t ∷ q

unfoldable pub read : ℕ → Action Line Bytes
read n [] = (ok [], [])
read n (quiet ∷ q) = (ok [], q)
read n (fails ∷ q) = (err os_error, q)
read n (bytes b t ∷ q) = (ok (take n (b ∷ t)), put_back (drop n (b ∷ t)) q)

-- The number of bytes still to arrive.
abbrev pub arriving : Line → ℕ
arriving [] = 0
arriving (quiet ∷ q) = arriving q
arriving (fails ∷ q) = arriving q
arriving (bytes b t ∷ q) = length (b ∷ t) + arriving q
