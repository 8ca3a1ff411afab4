-- ===== src/Transport/TcpStream/Reads.antt =====
-- _recv_exactly of transport/stream.py against what the socket holds: how the bytes are cut into
-- arrivals does not show.
use native.Mathlib.Numerals.{unary_clauses}
use pyomb.Prelude.{
  ℕ, zero, suc, ◌-◌, ◌≤◌, ◌≡◌, refl, sym, ap, ap₂, ◌∙◌, true, false, Option, none, some, [], ◌∷◌,
  ◌++◌, arith, length, take, drop, leb, ◌==◌, if◌then◌else◌, Bool-cases, inl, inr, append_assoc,
  length-append, take-append-drop, length-take,
}
use pyomb.Errors.{Result, ok, err, os_error}
use pyomb.Struct.{Bytes}
use pyomb.Io.{continue, pure}
use pyomb.Transport.Socket.{Inbox, bytes, fails, put_back, recv, held, stop, State, view}
use pyomb.Transport.TcpStream.{join_chunk, recv_exactly}

-- The outcome where the bytes held do not suffice: the peer closed, or a call failed.
abbrev pub cut_short : Bytes → Option Inbox → Result Bytes × State
cut_short s none = (ok s, ([], none))
cut_short s (some q) = (err os_error, view q)

-- Reading a number of bytes, of a state that is the bytes held and what stops them.
abbrev pub exactly : ℕ → State → Result Bytes × State
exactly n (s, q) = if leb n (length s) then (ok (take n s), (drop n s, q)) else cut_short s q

held-put_back : (s : Bytes) (q : Inbox) → view (put_back s q) ≡ (s ++ held q, stop q)
held-put_back [] q = refl
held-put_back (b ∷ t) q = refl

pub take-past : (n : ℕ) (s t : Bytes) → length s ≤ n → take n (s ++ t) ≡ s ++ take (n - length s) t
take-past n [] t h = ap (λ k. take k t) (omega arith)
take-past zero (x ∷ s) t h = absurd (omega arith)
take-past (suc n) (x ∷ s) t h =
    simp unary_clauses (ap (λ (u : Bytes). x ∷ u) (take-past n s t (omega arith)))

pub drop-past : (n : ℕ) (s t : Bytes) → length s ≤ n → drop n (s ++ t) ≡ drop (n - length s) t
drop-past n [] t h = ap (λ k. drop k t) (omega arith)
drop-past zero (x ∷ s) t h = absurd (omega arith)
drop-past (suc n) (x ∷ s) t h = simp unary_clauses (drop-past n s t (omega arith))

-- A chunk in front of an outcome.
abbrev pub front : Bytes → Result Bytes × State → Result Bytes × State
front c (ok s, t) = (ok (c ++ s), t)
front c (err e, t) = (err e, t)

front-cut_short : (c s : Bytes) (q : Option Inbox) → front c (cut_short s q) ≡ cut_short (c ++ s) q
front-cut_short c s none = refl
front-cut_short c s (some q) = refl

exactly-append :
    (n : ℕ) (c s : Bytes) (q : Option Inbox)
    → length c ≤ n
    → exactly n (c ++ s, q) ≡ front c (exactly (n - length c) (s, q))
exactly-append n c s q h = elim (Bool-cases (leb (n - length c) (length s))) [
  | inl enough ↦
      let whole : leb n (length (c ++ s)) ≡ true = ground (arith, length-append c s) in
      rw (enough, whole)
        (ap₂ (λ (a b : Bytes). (ok a, (b, q))) (take-past n c s h) (drop-past n c s h))
  | inr lacks ↦
      let whole : leb n (length (c ++ s)) ≡ false = ground (arith, length-append c s) in
      rw (lacks, whole) (sym (front-cut_short c s q))
]

-- What an action does, seen as the bytes held.
abbrev pub seen : {A : Type 0} → Result A × Inbox → Result A × State
seen (r, q) = (r, view q)

-- A call that is seen to give bytes.
pub seen-inv :
    (o : Result Bytes × Inbox) (s : Bytes) (v : State)
    → seen o ≡ (ok s, v)
    → (left : Inbox) × (o ≡ (ok s, left)) × (view left ≡ v)
seen-inv (err x, q) s v e = absurd (let bad = ap (λ w. w.0) e in cc)
seen-inv (ok c, q) s v e = (q, ap (λ r. (r, q)) (ap (λ w. w.0) e), ap (λ w. w.1) e)

seen-join :
    (b : ℕ) (t : Bytes) (o : Result Bytes × Inbox)
    → seen (continue (λ more. pure ((b ∷ t) ++ more)) o) ≡ front (b ∷ t) (seen o)
seen-join b t (ok s, q) = refl
seen-join b t (err e, q) = refl

pub recv_exactly-exactly :
    (n pending : ℕ) (q : Inbox)
    → pending ≤ n
    → seen (recv_exactly n pending q) ≡ exactly pending (view q)
unfolding recv_exactly recv join_chunk
recv_exactly-exactly zero pending q h =
    let done : pending ≡ 0 = omega arith in
    let enough : leb 0 (length (held q)) ≡ true = ground arith in rw (done, enough) refl
recv_exactly-exactly (suc n) zero q h =
    let enough : leb 0 (length (held q)) ≡ true = ground arith in rw enough refl
recv_exactly-exactly (suc n) (suc p) [] h =
    let more : (suc p == 0) ≡ false = ground arith in
    let lacks : leb (suc p) 0 ≡ false = ground arith in rw (more, lacks) refl
recv_exactly-exactly (suc n) (suc p) (fails ∷ q) h =
    let more : (suc p == 0) ≡ false = ground arith in
    let lacks : leb (suc p) 0 ≡ false = ground arith in rw (more, lacks) refl
recv_exactly-exactly (suc n) (suc p) (bytes b t ∷ q) h =
    let more : (suc p == 0) ≡ false = ground arith in
    let c = take p t in
    let left = put_back (drop p t) q in
    let k = suc p - length (b ∷ c) in
    let chunk = length-take p t in
    let whole : (b ∷ c) ++ (drop p t ++ held q) ≡ (b ∷ t) ++ held q =
      ap (λ (u : Bytes). b ∷ u)
        (sym (append_assoc c (drop p t) (held q))
          ∙ ap (λ (u : Bytes). u ++ held q) (take-append-drop p t)) in
    rw more (
      seen-join b c (recv_exactly n k left)
      ∙ ap (front (b ∷ c)) (recv_exactly-exactly n k left (omega arith))
      ∙ ap (λ v. front (b ∷ c) (exactly k v)) (held-put_back (drop p t) q)
      ∙ sym (exactly-append (suc p) (b ∷ c) (drop p t ++ held q) (stop q) (omega arith))
      ∙ ap (λ (u : Bytes). exactly (suc p) (u, stop q)) whole)
