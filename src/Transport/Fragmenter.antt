-- ===== src/Transport/Fragmenter.antt =====
-- transport/stream.py, class ModbusFragmenter.
pub mod Whole
use pyomb.Prelude.{ℕ, zero, suc, ◌+◌, ◌-◌, List, [], ◌∷◌, ◌++◌, length, take, drop}
use pyomb.Prelude.Int.{ℤ, pos, negsuc}
use pyomb.Errors.{Result, ok, err, packet_error, ◌>>=◌}
use pyomb.Struct.{Bytes}
use pyomb.Adu.Header

unfoldable pub get_message_length : Bytes → Result ℕ
get_message_length message = do
  header ← Header.deserialize (take Header.size message)
  ok (Header.size + header.length - 1)

-- The loop, on fuel: each turn takes a byte or more where the size is not 0.
unfoldable pub pieces : ℕ → ℕ → Bytes → List Bytes
pieces zero frag_size pdu = []
pieces (suc n) frag_size [] = []
pieces (suc n) frag_size (b ∷ t) =
    take frag_size (b ∷ t) ∷ pieces n frag_size (drop frag_size (b ∷ t))

unfoldable pub fragment : Bytes → ℤ → Result (List Bytes)
unfolding pieces
fragment message (negsuc n) = err packet_error
fragment message (pos zero) = ok (message ∷ [])
fragment message (pos (suc n)) =
    let pdu = drop Header.size message in
    ok (take Header.size message ∷ pieces (length pdu) (suc n) pdu)

unfoldable pub assemble : List Bytes → Bytes
assemble [] = []
assemble (f ∷ fs) = f ++ assemble fs
