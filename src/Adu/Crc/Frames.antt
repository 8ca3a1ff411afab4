-- ===== src/Adu/Crc/Frames.antt =====
-- validate_crc of adu/rtu.py, on a frame as a payload and the two bytes of its checksum.
use pyomb.Prelude.{
  ℕ, ◌+◌, ◌-◌, ◌*◌, ◌/◌, ◌%◌, ◌≤◌, ◌≡◌, ◌≢◌, refl, sym, subst, ◌∙◌, [], ◌∷◌, ◌++◌, arith, length,
  ltb, ◌==◌, All, take-length, drop-length, length-append, append_assoc, take-append-drop,
  length-drop, Bool-cases, inl, inr, true, false, All-take, if◌then◌else◌,
}
use pyomb.Errors.{ok, err, packet_error}
use pyomb.Struct.{Bytes, IsByte}
use pyomb.Adu.Crc.{calc_crc16, pack_crc, unpack_crc, tail_bytes, front_bytes, validate_crc}
use pyomb.Adu.Crc.Detects.{calc_crc16-ne}

pub front-append : (s : Bytes) (lo hi : ℕ) → front_bytes (s ++ lo ∷ hi ∷ []) ≡ s
front-append s lo hi =
    let e : length (s ++ lo ∷ hi ∷ []) - 2 ≡ length s =
      omega (arith, length-append s (lo ∷ hi ∷ [])) in
    rw e (take-length s (lo ∷ hi ∷ []))

pub tail-append : (s : Bytes) (lo hi : ℕ) → tail_bytes (s ++ lo ∷ hi ∷ []) ≡ lo ∷ hi ∷ []
tail-append s lo hi =
    let e : length (s ++ lo ∷ hi ∷ []) - 2 ≡ length s =
      omega (arith, length-append s (lo ∷ hi ∷ [])) in
    rw e (drop-length s (lo ∷ hi ∷ []))

-- The check, on a frame that is written as a payload and two bytes.
pub validate_crc-append :
    (s : Bytes) (lo hi : ℕ)
    → 2 ≤ length s
    → validate_crc (s ++ lo ∷ hi ∷ [])
      ≡ (if hi * 256 + lo == calc_crc16 s then ok (hi * 256 + lo) else err packet_error)
unfolding validate_crc unpack_crc
validate_crc-append s lo hi long =
    let e : ltb (length (s ++ lo ∷ hi ∷ [])) 4 ≡ false =
      ground (arith, length-append s (lo ∷ hi ∷ [])) in
    rw (e, front-append s lo hi, tail-append s lo hi) refl

two_bytes : (s : Bytes) → length s ≡ 2 → (lo : ℕ) × (hi : ℕ) × (s ≡ lo ∷ hi ∷ [])
two_bytes (lo ∷ hi ∷ []) h = (lo, hi, refl)
two_bytes [] h = absurd (omega arith)
two_bytes (lo ∷ []) h = absurd (omega arith)
two_bytes (a ∷ b ∷ c ∷ s) h = absurd (omega arith)

-- A frame that is long enough is a payload and two bytes.
pub split_frame :
    (s : Bytes) → 2 ≤ length s → (lo : ℕ) × (hi : ℕ) × (front_bytes s ++ lo ∷ hi ∷ [] ≡ s)
split_frame s h =
    let (lo, hi, e) = two_bytes (tail_bytes s) (omega (arith, length-drop (length s - 2) s)) in
    (lo, hi, subst (λ (t : Bytes). front_bytes s ++ t ≡ s) e (take-append-drop (length s - 2) s))

-- What the check establishes of a frame that it accepts.
pub validate_crc-eq-ok :
    (s : Bytes) (n : ℕ)
    → validate_crc s ≡ ok n
    → (4 ≤ length s) × (n ≡ calc_crc16 (front_bytes s)) × (unpack_crc (tail_bytes s) ≡ ok n)
unfolding validate_crc unpack_crc
validate_crc-eq-ok s n h = elim (Bool-cases (ltb (length s) 4)) [
  | inl short ↦ absurd (let h' = rw short at h in cc)
  | inr long ↦
      let fits : 4 ≤ length s = ground arith in
      let (lo, hi, e) = two_bytes (tail_bytes s) (omega (arith, length-drop (length s - 2) s)) in
      let h' = rw (long, e) at h in (fits, ground arith, rw e (ground arith))
]

-- The checksum test accepts two bytes or more followed by their packed checksum, and returns that
-- checksum.
pub validate_crc-pack_crc :
    (s crc : Bytes)
    → 2 ≤ length s
    → pack_crc (calc_crc16 s) ≡ ok crc
    → validate_crc (s ++ crc) ≡ ok (calc_crc16 s)
unfolding pack_crc
validate_crc-pack_crc s crc long h =
    let c = calc_crc16 s in
    let glue : c / 256 * 256 + c % 256 ≡ c = omega arith in
    let written : c % 256 ∷ c / 256 ∷ [] ≡ crc = ground arith in
    let same : (c == c) ≡ true = ground arith in
    subst (λ (u : Bytes). validate_crc (s ++ u) ≡ ok c) written
      (rw (validate_crc-append s (c % 256) (c / 256) long, glue, same))

agrees :
    (s : Bytes) (lo hi n : ℕ)
    → validate_crc (s ++ lo ∷ hi ∷ []) ≡ ok n
    → (2 ≤ length s) × (hi * 256 + lo ≡ calc_crc16 s)
agrees s lo hi n h =
    let (fits, e, _) = validate_crc-eq-ok _ n h in
    let long : 2 ≤ length s = omega (arith, length-append s (lo ∷ hi ∷ [])) in
    (long, let h' = rw (validate_crc-append s lo hi long) at h in ground arith)

refused :
    (s : Bytes) (lo hi : ℕ)
    → 2 ≤ length s
    → hi * 256 + lo ≢ calc_crc16 s
    → validate_crc (s ++ lo ∷ hi ∷ []) ≡ err packet_error
refused s lo hi long ne = rw (validate_crc-append s lo hi long) (ground arith)

split_last : (s : Bytes) → 1 ≤ length s → (u : Bytes) × (x : ℕ) × (u ++ x ∷ [] ≡ s)
split_last [] h = absurd (omega arith)
split_last (x ∷ []) h = ([], x, refl)
split_last (x ∷ y ∷ s) h = let (u, z, e) = split_last (y ∷ s) (omega arith) in (x ∷ u, z, rw e)

-- A change of one payload byte.
refused_payload :
    (s t : Bytes) (b d lo hi n : ℕ)
    → All IsByte s
    → All IsByte t
    → IsByte b
    → IsByte d
    → b ≢ d
    → validate_crc ((s ++ b ∷ t) ++ lo ∷ hi ∷ []) ≡ ok n
    → validate_crc ((s ++ d ∷ t) ++ lo ∷ hi ∷ []) ≡ err packet_error
refused_payload s t b d lo hi n hs ht hb hd ne h =
    let (long, e) = agrees (s ++ b ∷ t) lo hi n h in
    refused (s ++ d ∷ t) lo hi (omega (arith, length-append s (b ∷ t), length-append s (d ∷ t)))
      (λ k. calc_crc16-ne s t b d hs ht hb hd ne (sym e ∙ k))

-- A byte string that the checksum test accepts, with any one byte changed to another byte, is
-- refused by it with a packet error.
pub validate_crc-corrupted :
    (s t : Bytes) (b d n : ℕ)
    → All IsByte s
    → All IsByte t
    → IsByte b
    → IsByte d
    → b ≢ d
    → validate_crc (s ++ b ∷ t) ≡ ok n
    → validate_crc (s ++ d ∷ t) ≡ err packet_error
validate_crc-corrupted s [] b d n hs ht hb hd ne h =
    let (fits, _, _) = validate_crc-eq-ok _ n h in
    let (u, x, e) = split_last s (omega (arith, length-append s (b ∷ []))) in
    let whole = λ (y : ℕ). append_assoc u (x ∷ []) (y ∷ []) ∙ refl in
    let (long, a) = agrees u x b n (rw (sym (whole b), e) h) in
    subst (λ (v : Bytes). validate_crc (v ++ d ∷ []) ≡ err packet_error) e
      (rw (whole d) (refused u x d long (λ k. ne (omega arith))))
validate_crc-corrupted s (hi ∷ []) b d n hs ht hb hd ne h =
    let (long, a) = agrees s b hi n h in refused s d hi long (λ k. ne (omega arith))
validate_crc-corrupted s (x ∷ y ∷ t) b d n hs ht hb hd ne h =
    let (lo, hi, e) = split_frame (x ∷ y ∷ t) (omega arith) in
    let front = front_bytes (x ∷ y ∷ t) in
    let whole = λ (z : ℕ). append_assoc s (z ∷ front) (lo ∷ hi ∷ []) in
    let bytes = All-take IsByte (length (x ∷ y ∷ t) - 2) (x ∷ y ∷ t) ht in
    subst (λ (v : Bytes). validate_crc (s ++ d ∷ v) ≡ err packet_error) e
      (subst (λ (v : Bytes). validate_crc v ≡ err packet_error) (whole d)
        (refused_payload s front b d lo hi n hs bytes hb hd ne (
          subst (λ (v : Bytes). validate_crc v ≡ ok n) (sym (whole b))
            (subst (λ (v : Bytes). validate_crc (s ++ b ∷ v) ≡ ok n) (sym e) h))))
