-- ===== src/Transport/Rtu/Raises.antt =====
-- The errors in the two `try` statements of read_rtu_frame, transport/rtu.py.
use pyomb.Prelude.{
  ℕ, ◌+◌, ◌-◌, ◌≤◌, ◌≡◌, refl, sym, subst, ap, ◌∙◌, ◌*◌, ◌==◌, if◌then◌else◌, length-take, Bool,
  true, false, ◌⊎◌, inl, inr, [], ◌∷◌, arith, length, drop, ltb, Bool-cases,
}
use pyomb.Errors.{Result, ok, err, Error, packet_error, struct_error, catch_both, ◌>>=◌, >>=-eq-err}
use pyomb.Struct.{Bytes, unpack}
use pyomb.Pdu.Classes
use pyomb.Pdu.Classes.{PduClass, Layout, layout, layout_size, expected_size}
use pyomb.Pdu.Diagnostics.SubFunctions.{size_from_prefix}
use pyomb.Pdu.Parser.{first_code}
use pyomb.Pdu.Total.{generic_raises}
use pyomb.Adu.Crc.{calc_crc16, unpack_crc, validate_crc, tail_bytes, front_bytes}
use pyomb.Adu.Crc.Frames.{split_frame, validate_crc-append}
use pyomb.Adu.Rtu.{deserialize, deserialize_packet, set_crc, init}

layout_size-raises :
    (l : Layout) (s : Bytes) (e : Error) → layout_size l s ≡ err e → e ≡ packet_error
unfolding layout_size
layout_size-raises l s e h = ground arith

size_from_prefix-raises : (s : Bytes) (e : Error) → size_from_prefix s ≡ err e → e ≡ packet_error
unfolding size_from_prefix
size_from_prefix-raises [] e h = cc
size_from_prefix-raises (a ∷ []) e h = cc
size_from_prefix-raises (a ∷ b ∷ []) e h = cc
size_from_prefix-raises (a ∷ b ∷ c ∷ s) e h = ground arith

-- Where `expected_size` of a class raises an error, it is a packet error.
pub expected_size-raises :
    (c : PduClass) (s : Bytes) (e : Error) → expected_size c s ≡ err e → e ≡ packet_error
unfolding expected_size
expected_size-raises PduClass.request_fc8 s e h = size_from_prefix-raises s e h
expected_size-raises PduClass.response_fc8 s e h = size_from_prefix-raises s e h
expected_size-raises c s e h = layout_size-raises (layout c) s e h

-- The errors that the clause around the RTU frame's fields translates.
abbrev Translated : Error → Type 0
Translated e = (e ≡ struct_error) ⊎ (e ≡ packet_error)

catch_both-raises :
    {A : Type 0} (m : Result A) (e : Error)
    → ((x : Error) → m ≡ err x → Translated x)
    → catch_both m ≡ err e
    → e ≡ packet_error
catch_both-raises (ok a) e all h = cc
catch_both-raises {A = A} (err x) e all h =
    let family = λ (y : Error). catch_both {A = A} (err y) ≡ err e in
    elim (all x refl) [
      | inl s ↦ let k = subst family s h in ground arith
      | inr p ↦ let k = subst family p h in ground arith
    ]

unpack_crc-raises : (s : Bytes) (e : Error) → unpack_crc s ≡ err e → e ≡ struct_error
unfolding unpack_crc
unpack_crc-raises [] e h = ground arith
unpack_crc-raises (a ∷ []) e h = ground arith
unpack_crc-raises (a ∷ b ∷ []) e h = cc
unpack_crc-raises (a ∷ b ∷ c ∷ s) e h = ground arith

first_code-raises : (s : Bytes) (e : Error) → first_code s ≡ err e → e ≡ struct_error
unfolding first_code unpack
first_code-raises [] e h = ground arith
first_code-raises (a ∷ s) e h = cc

test-raises :
    (b : Bool) (n : ℕ) (e : Error)
    → (if b then ok n else err packet_error) ≡ err e
    → e ≡ packet_error
test-raises true n e h = cc
test-raises false n e h = ground arith

validate_crc-short :
    (s : Bytes) (e : Error) → ltb (length s) 4 ≡ true → validate_crc s ≡ err e → e ≡ packet_error
unfolding validate_crc
validate_crc-short s e short h = let k = rw short at h in ground arith

validate_crc-raises : (s : Bytes) (e : Error) → validate_crc s ≡ err e → e ≡ packet_error
validate_crc-raises s e h = elim (Bool-cases (ltb (length s) 4)) [
  | inl short ↦ validate_crc-short s e short h
  | inr long ↦
      let fits : 4 ≤ length s = ground arith in
      let (lo, hi, t) = split_frame s (omega arith) in
      let payload : 2 ≤ length (front_bytes s) = omega (arith, length-take (length s - 2) s) in
      test-raises (hi * 256 + lo == calc_crc16 (front_bytes s)) (hi * 256 + lo) e
        (sym (validate_crc-append (front_bytes s) lo hi payload) ∙ (ap validate_crc t ∙ h))
]

-- The body of the `try` statement.
body-raises :
    (s : Bytes) (x : Error)
    → (do
      slave_id ← first_code s
      crc ← unpack_crc (tail_bytes s)
      pdu ← Classes.deserialize PduClass.generic (drop 1 (front_bytes s))
      ok (set_crc crc (init slave_id pdu)))
      ≡ err x
    → Translated x
body-raises s x h = elim (>>=-eq-err (first_code s) _ h) [
  | inl e ↦ inl (first_code-raises s x e)
  | inr (id, _, h') ↦ elim (>>=-eq-err (unpack_crc (tail_bytes s)) _ h') [
    | inl e ↦ inl (unpack_crc-raises (tail_bytes s) x e)
    | inr (c, _, h'') ↦
        elim (>>=-eq-err (Classes.deserialize PduClass.generic (drop 1 (front_bytes s))) _ h'') [
          | inl e ↦ inr (generic_raises (drop 1 (front_bytes s)) x e)
          | inr (pdu, _, built) ↦ absurd (let k = built in cc)
        ]
  ]
]

checked-raises :
    (verify : Bool) (s : Bytes) (e : Error)
    → (if verify then validate_crc s >>= (λ n. ok (tt {0})) else ok tt) ≡ err e
    → e ≡ packet_error
checked-raises false s e h = cc
checked-raises true s e h = elim (>>=-eq-err (validate_crc s) _ h) [
  | inl bad ↦ validate_crc-raises s e bad
  | inr (n, _, k) ↦ absurd (let k' = k in cc)
]

-- Where ModbusRtuPacket refuses a byte string, with or without the checksum verified, the error is
-- a packet error.
pub deserialize_packet-raises :
    (verify : Bool) (s : Bytes) (e : Error) → deserialize_packet verify s ≡ err e → e ≡ packet_error
unfolding deserialize
deserialize_packet-raises verify s e h =
    elim (>>=-eq-err (if verify then validate_crc s >>= (λ n. ok (tt {0})) else ok tt) _ h) [
      | inl bad ↦ checked-raises verify s e bad
      | inr (u, _, k) ↦ catch_both-raises _ e (λ x. body-raises s x) k
    ]
