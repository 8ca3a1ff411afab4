-- ===== src/Pdu/Total.antt =====
-- What the generic PDU reads, and what it raises.
use pyomb.Prelude.{ℕ, ◌-◌, ◌/◌, ◌≤◌, ◌≡◌, refl, false, List, [], ◌∷◌, arith, length, replicate, ltb}
use pyomb.Errors.{ok, err, Error, packet_error}
use pyomb.Struct.{Bytes, B, unpack, repeat_count}
use pyomb.Struct.Laws.{unpack_total, calcsize-replicate}
use pyomb.Pdu.Generic
use pyomb.Pdu.Packet.{Packet}
use pyomb.Pdu.Classes
use pyomb.Pdu.Classes.{PduClass}

-- The generic PDU reads whatever has a function code.
generic_reads :
    (b : ℕ) (u : Bytes) (vs : List ℕ)
    → unpack (replicate (length u) B) u ≡ ok vs
    → Classes.deserialize PduClass.generic (b ∷ u)
      ≡ ok (Packet.generic (record { fc = b; payload = vs }))
unfolding Classes.deserialize Generic.deserialize Generic.of_values repeat_count unpack
generic_reads b u vs e =
    let n : (length (b ∷ u) - 1) / 1 ≡ length u = omega arith in
    let low : ltb (length (b ∷ u)) 1 ≡ false = ground arith in rw (low, n, e) refl

pub generic_total :
    (u : Bytes) → 1 ≤ length u → (g : Packet) × (Classes.deserialize PduClass.generic u ≡ ok g)
generic_total [] h = absurd (omega arith)
generic_total (b ∷ u) h =
    let (vs, e) =
      unpack_total (replicate (length u) B) u (omega (arith, calcsize-replicate (length u) B)) in
    (Packet.generic (record { fc = b; payload = vs }), generic_reads b u vs e)

pub generic_raises :
    (u : Bytes) (e : Error) → Classes.deserialize PduClass.generic u ≡ err e → e ≡ packet_error
unfolding Classes.deserialize Generic.deserialize repeat_count
generic_raises [] e h = ground arith
generic_raises (b ∷ u) e h = let (g, k) = generic_total (b ∷ u) (omega arith) in cc
