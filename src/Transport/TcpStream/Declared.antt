-- ===== src/Transport/TcpStream/Declared.antt =====
-- _pdu_length of transport/stream.py, on the seven bytes of a header.
use pyomb.Prelude.{
  ℕ, ◌-◌, ◌≡◌, ◌⊎◌, refl, List, [], ◌∷◌, arith, length, ◌==◌, if◌then◌else◌, Bool-cases, inl, inr,
}
use pyomb.Errors.{Result, ok, err, packet_error, ModbusHeader, ◌>>=◌}
use pyomb.Struct.{Bytes}
use pyomb.Struct.Laws.{unpack_total, unpack-fits}
use pyomb.Io.{continue, pure, raise}
use pyomb.Adu.Header
use pyomb.Transport.Socket.{Inbox}
use pyomb.Transport.TcpStream.{pdu_length}
use pyomb.Transport.TcpStream.Contract.{declared}

read_length :
    (d : Result ModbusHeader) (r : Inbox)
    → continue
        (λ header. if header.length == 0 then raise packet_error else pure (header.length - 1))
        (d, r)
      ≡ (
        (d >>= λ header. if header.length == 0 then err packet_error else ok (header.length - 1)),
        r,
      )
read_length (err e) r = refl
read_length (ok h) r = elim (Bool-cases (h.length == 0)) [
  | inl zero_length ↦ rw zero_length refl
  | inr positive ↦ rw positive refl
]

pub pdu_length-declared : (c : Bytes) (r : Inbox) → pdu_length c r ≡ (declared c, r)
unfolding pdu_length declared
pdu_length-declared c r = read_length (Header.deserialize c) r

of_values_total : (vs : List ℕ) → length vs ≡ 4 → (h : ModbusHeader) × (Header.of_values vs ≡ ok h)
unfolding Header.of_values
of_values_total (t ∷ p ∷ l ∷ u ∷ rest) n =
    (record { trans_id = t; prot_id = p; length = l; unit_id = u }, refl)
of_values_total [] n = absurd (omega arith)
of_values_total (t ∷ []) n = absurd (omega arith)
of_values_total (t ∷ p ∷ []) n = absurd (omega arith)
of_values_total (t ∷ p ∷ l ∷ []) n = absurd (omega arith)

-- Seven bytes are always read as a header.
pub deserialize_header_total :
    (c : Bytes) → length c ≡ 7 → (h : ModbusHeader) × (Header.deserialize c ≡ ok h)
unfolding Header.deserialize
deserialize_header_total c n =
    let (vs, e) = unpack_total Header.header_fmt c n in
    let (h, f) = of_values_total vs (omega (arith, unpack-fits Header.header_fmt c vs e)) in
    (h, rw e f)

-- They declare a length, or none where the field is 0.
pub declared_total :
    (c : Bytes) → length c ≡ 7 → (declared c ≡ err packet_error) ⊎ ((n : ℕ) × (declared c ≡ ok n))
unfolding declared
declared_total c n =
    let (h, e) = deserialize_header_total c n in
    elim (Bool-cases (h.length == 0)) [
      | inl zero_length ↦ inl (rw (e, zero_length) refl)
      | inr positive ↦ inr (h.length - 1, rw (e, positive) refl)
    ]
