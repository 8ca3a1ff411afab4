-- ===== src/Transport/TcpStream/Refines.antt =====
-- receive of transport/stream.py does what its contract says.
use native.Mathlib.Numerals.{unary_clauses}
use pyomb.Prelude.{
  ℕ, zero, suc, ◌+◌, ◌-◌, ◌≤◌, ◌<◌, ◌≡◌, refl, sym, ap, ap₂, subst, ◌∙◌, true, false, Option, none,
  some, List, [], ◌∷◌, ◌++◌, arith, length, take, drop, ltb, leb, ◌==◌, if◌then◌else◌, Bool-cases,
  inl, inr, length-take, length-drop,
}
use pyomb.Errors.{Result, ok, err, os_error, network_error, packet_error}
use pyomb.Struct.{Bytes}
use pyomb.Io.{Action, continue, pure, raise, ◌>>=◌, as_network}
use pyomb.Adu.Header
use pyomb.Transport.Fragmenter.{assemble}
use pyomb.Transport.Socket.{Inbox, State, view, held, stop}
use pyomb.Transport.TcpStream.{
  recv_exactly, receive_header, pdu_length, chunk_size, receive_pdu, receive,
}
use pyomb.Transport.TcpStream.Reads.{exactly, cut_short, seen, front, recv_exactly-exactly}
use pyomb.Transport.TcpStream.Declared.{pdu_length-declared, declared_total}
use pyomb.Transport.TcpStream.Contract.{lost, declared, frame, no_frame, receives}

-- The rest of a frame cannot be had.
abbrev broken : Option Inbox → Result Bytes × State
broken none = (err network_error, ([], none))
broken (some q) = (err os_error, view q)

-- Reading the PDU, of the bytes held.
abbrev needed : ℕ → State → Result Bytes × State
needed p (s, q) = if leb p (length s) then (ok (take p s), (drop p s, q)) else broken q

front-broken : (c : Bytes) (q : Option Inbox) → front c (broken q) ≡ broken q
front-broken c none = refl
front-broken c (some q) = refl

abbrev empty : Bytes
empty = []

take-nil : (n : ℕ) → take n empty ≡ empty
take-nil zero = refl
take-nil (suc n) = refl

drop-nil : (n : ℕ) → drop n empty ≡ empty
drop-nil zero = refl
drop-nil (suc n) = refl

take-take-drop : (k p : ℕ) (s : Bytes) → k ≤ p → take k s ++ take (p - k) (drop k s) ≡ take p s
take-take-drop zero p s h = simp unary_clauses refl
take-take-drop (suc k) zero s h = absurd (omega arith)
take-take-drop (suc k) (suc p) [] h = simp unary_clauses (take-nil (p - k))
take-take-drop (suc k) (suc p) (x ∷ s) h =
    simp unary_clauses (ap (λ (u : Bytes). x ∷ u) (take-take-drop k p s (omega arith)))

drop-drop : (k p : ℕ) (s : Bytes) → k ≤ p → drop (p - k) (drop k s) ≡ drop p s
drop-drop zero p s h = simp unary_clauses refl
drop-drop (suc k) zero s h = absurd (omega arith)
drop-drop (suc k) (suc p) [] h = simp unary_clauses (drop-nil (p - k))
drop-drop (suc k) (suc p) (x ∷ s) h = simp unary_clauses (drop-drop k p s (omega arith))

needed-split :
    (k p : ℕ) (s : Bytes) (q : Option Inbox)
    → k ≤ p
    → k ≤ length s
    → needed p (s, q) ≡ front (take k s) (needed (p - k) (drop k s, q))
needed-split k p s q h g = elim (Bool-cases (leb p (length s))) [
  | inl enough ↦
      let rest : leb (p - k) (length (drop k s)) ≡ true = ground (arith, length-drop k s) in
      rw (enough, rest)
        (ap₂ (λ (a b : Bytes). (ok a, (b, q))) (sym (take-take-drop k p s h))
          (sym (drop-drop k p s h)))
  | inr lacks ↦
      let rest : leb (p - k) (length (drop k s)) ≡ false = ground (arith, length-drop k s) in
      rw (lacks, rest) (sym (front-broken (take k s) q))
]

assembled : Result (List Bytes) × Inbox → Result Bytes × State
assembled (ok fs, q) = (ok (assemble fs), view q)
assembled (err e, q) = (err e, view q)

assembled-cons :
    (c : Bytes) (o : Result (List Bytes) × Inbox)
    → assembled (continue (λ fs. pure (c ∷ fs)) o) ≡ front c (assembled o)
unfolding assembled assemble
assembled-cons c (ok fs, q) = refl
assembled-cons c (err e, q) = refl

-- What follows the read of a chunk.
abbrev after_chunk : ℕ → (ℕ → Action Inbox (List Bytes)) → Bytes → Action Inbox (List Bytes)
after_chunk k more chunk =
    if ltb (length chunk) k
    then raise network_error
    else (more (length chunk) >>= λ fragments. pure (chunk ∷ fragments))

-- The outcome of a read that has all of its bytes, and of one that has not.
turn-whole :
    (k p : ℕ) (more : ℕ → Action Inbox (List Bytes)) (s : Bytes) (q : Option Inbox)
    (o : Result Bytes × Inbox)
    → k ≤ p
    → k ≤ length s
    → ((r : Inbox) → assembled (more k r) ≡ needed (p - k) (view r))
    → seen o ≡ (ok (take k s), (drop k s, q))
    → assembled (continue (after_chunk k more) o) ≡ needed p (s, q)
turn-whole k p more s q (err x, r) h g ih e = absurd (let bad = ap (λ v. v.0) e in cc)
turn-whole k p more s q (ok c, r) h g ih e =
    let chunk : c ≡ take k s = let same = ap (λ v. v.0) e in ground arith in
    let rest : view r ≡ (drop k s, q) = ap (λ v. v.1) e in
    let size : length (take k s) ≡ k = omega (arith, length-take k s) in
    let read : ltb (length (take k s)) k ≡ false = ground arith in
    rw (chunk, read, size)
      (assembled-cons (take k s) (more k r)
        ∙ ap (front (take k s)) (ih r ∙ ap (needed (p - k)) rest)
        ∙ sym (needed-split k p s q h g))

turn-short :
    (k p : ℕ) (more : ℕ → Action Inbox (List Bytes)) (s : Bytes) (q : Option Inbox)
    (o : Result Bytes × Inbox)
    → length s < k
    → seen o ≡ cut_short s q
    → assembled (continue (after_chunk k more) o) ≡ broken q
unfolding assembled
turn-short k p more s none (err x, r) g e = absurd (let bad = ap (λ v. v.0) e in cc)
turn-short k p more s (some q) (ok c, r) g e = absurd (let bad = ap (λ v. v.0) e in cc)
turn-short k p more s (some q) (err x, r) g e = e
turn-short k p more s none (ok c, r) g e =
    let chunk : c ≡ s = let same = ap (λ v. v.0) e in ground arith in
    let rest : view r ≡ ([], none) = ap (λ v. v.1) e in
    let lacks : ltb (length s) k ≡ true = ground arith in
    rw (chunk, lacks) (ap (λ v. (err network_error, v)) rest)

turn :
    (k p : ℕ) (more : ℕ → Action Inbox (List Bytes)) (s : Bytes) (q : Option Inbox)
    (o : Result Bytes × Inbox)
    → k ≤ p
    → ((r : Inbox) → assembled (more k r) ≡ needed (p - k) (view r))
    → seen o ≡ exactly k (s, q)
    → assembled (continue (after_chunk k more) o) ≡ needed p (s, q)
turn k p more s q o h ih e = elim (Bool-cases (leb k (length s))) [
  | inl enough ↦ turn-whole k p more s q o h (ground arith) ih (rw enough at e)
  | inr lacks ↦
      let short : leb p (length s) ≡ false = ground arith in
      rw short (turn-short k p more s q o (ground arith) (rw lacks at e))
]

chunk_size-bounds : (frag p : ℕ) → (1 ≤ chunk_size frag (suc p)) × (chunk_size frag (suc p) ≤ suc p)
chunk_size-bounds zero p = (omega arith, omega arith)
chunk_size-bounds (suc n) p = (ground arith, ground arith)

receive_pdu-needed :
    (frag n pending : ℕ) (q : Inbox)
    → pending ≤ n
    → assembled (receive_pdu frag n pending q) ≡ needed pending (view q)
unfolding receive_pdu assembled assemble
receive_pdu-needed frag zero pending q h =
    let done : pending ≡ 0 = omega arith in
    let enough : leb 0 (length (held q)) ≡ true = ground arith in rw (done, enough) refl
receive_pdu-needed frag (suc n) zero q h =
    let enough : leb 0 (length (held q)) ≡ true = ground arith in rw enough refl
receive_pdu-needed frag (suc n) (suc p) q h =
    let k = chunk_size frag (suc p) in
    let (positive, small) = chunk_size-bounds frag p in
    let more : (suc p == 0) ≡ false = ground arith in
    rw more (
      turn k (suc p) (λ c. receive_pdu frag n (suc p - c)) (held q) (stop q) (recv_exactly k k q)
        small (λ r. receive_pdu-needed frag n (suc p - k) r (omega arith))
        (recv_exactly-exactly k k q (omega arith)))

-- What is left of `receive` once the header's bytes are read.
abbrev after_header : ℕ → Bytes → Action Inbox Bytes
after_header frag c =
    if length c == 0
    then pure []
    else (pdu_length c >>= λ n.
        receive_pdu frag n n >>= λ fragments. pure (assemble (c ∷ fragments)))

-- The tests of `_receive_header`.
abbrev check_header : Bytes → Action Inbox Bytes
check_header c =
    if length c == 0
    then pure []
    else if ltb (length c) Header.size
    then raise network_error
    else pure c

abbrev networked : Result Bytes × State → Result Bytes × State
networked (r, v) = (as_network r, v)

assembled-header :
    (c : Bytes) (o : Result (List Bytes) × Inbox)
    → networked (seen (continue (λ fs. pure (assemble (c ∷ fs))) o))
      ≡ networked (front c (assembled o))
unfolding assembled assemble
assembled-header c (ok fs, q) = refl
assembled-header c (err e, q) = refl

networked-broken : (q : Option Inbox) → networked (broken q) ≡ lost q
unfolding lost
networked-broken none = refl
networked-broken (some q) = refl

networked-needed :
    (n : ℕ) (s : Bytes) (q : Option Inbox)
    → 7 ≤ length s
    → networked (front (take 7 s) (needed n (drop 7 s, q))) ≡ frame (ok n) (s, q)
unfolding frame
networked-needed n s q h =
    let size : Header.size + n - 7 ≡ n = omega arith in
    let split = sym (needed-split 7 (Header.size + n) s q (omega arith) h) in
    let whole : networked (needed (Header.size + n) (s, q)) ≡ frame (ok n) (s, q) =
      elim (Bool-cases (leb (Header.size + n) (length s))) [
        | inl enough ↦ unfold frame in rw enough refl
        | inr lacks ↦ unfold frame in rw lacks (networked-broken q)
      ] in
    subst (λ k. networked (front (take 7 s) (needed k (drop 7 s, q))) ≡ frame (ok n) (s, q)) size
      (ap networked split ∙ whole)

module _ (frag : ℕ) where
  after_header-frame :
      (s c : Bytes) (q : Option Inbox) (r : Inbox)
      → 7 ≤ length s
      → c ≡ take 7 s
      → view r ≡ (drop 7 s, q)
      → networked (seen (after_header frag c r)) ≡ frame (declared c) (s, q)
  unfolding frame
  after_header-frame s c q r h e f =
      let size : length c ≡ 7 = rw e (omega (arith, length-take 7 s)) in
      let full : (length c == 0) ≡ false = ground arith in
      elim (declared_total c size) [
        | inl bad ↦ rw (full, pdu_length-declared c r, bad) (ap (λ v. (err packet_error, v)) f)
        | inr (n, d) ↦
            rw (full, pdu_length-declared c r, d)
              (assembled-header c (receive_pdu frag n n r)
                ∙ ap (λ v. networked (front c v))
                    (receive_pdu-needed frag n n r (omega arith) ∙ ap (needed n) f)
                ∙ ap (λ u. networked (front u (needed n (drop 7 s, q)))) e
                ∙ networked-needed n s q h)
      ]

  receive-whole :
      (s : Bytes) (q : Option Inbox) (o : Result Bytes × Inbox)
      → 7 ≤ length s
      → seen o ≡ (ok (take 7 s), (drop 7 s, q))
      → networked (seen (continue (after_header frag) (continue check_header o)))
        ≡ frame (declared (take 7 s)) (s, q)
  receive-whole s q (err x, r) h e = absurd (let bad = ap (λ v. v.0) e in cc)
  receive-whole s q (ok c, r) h e =
      let chunk : c ≡ take 7 s = let same = ap (λ v. v.0) e in ground arith in
      let size : length c ≡ 7 = rw chunk (omega (arith, length-take 7 s)) in
      let full : (length c == 0) ≡ false = ground arith in
      let all : ltb (length c) 7 ≡ false = ground arith in
      rw (full, all)
        (after_header-frame s c q r h chunk (ap (λ v. v.1) e)
          ∙ ap (λ u. frame (declared u) (s, q)) chunk)

  receive-short :
      (s : Bytes) (q : Option Inbox) (o : Result Bytes × Inbox)
      → length s < 7
      → seen o ≡ cut_short s q
      → networked (seen (continue (after_header frag) (continue check_header o))) ≡ no_frame (s, q)
  unfolding no_frame lost
  receive-short s none (err x, r) h e = absurd (let bad = ap (λ v. v.0) e in cc)
  receive-short s (some q) (ok c, r) h e = absurd (let bad = ap (λ v. v.0) e in cc)
  receive-short [] (some q) (err x, r) h e = ap networked e
  receive-short (b ∷ s) (some q) (err x, r) h e = ap networked e
  receive-short [] none (ok c, r) h e =
      let chunk : c ≡ [] = let same = ap (λ v. v.0) e in ground arith in
      rw chunk (ap (λ v. (ok [], v.1)) e)
  receive-short (b ∷ s) none (ok c, r) h e =
      let chunk : c ≡ b ∷ s = let same = ap (λ v. v.0) e in ground arith in
      let some_bytes : (suc (length s) == 0) ≡ false = ground arith in
      let lacks : ltb (suc (length s)) 7 ≡ true = ground arith in
      rw (chunk, some_bytes, lacks) (ap (λ v. (err network_error, v.1)) e)

pub receive-receives : (frag : ℕ) (q : Inbox) → seen (receive frag q) ≡ receives (view q)
unfolding receive receives receive_header
receive-receives frag q =
    let read = recv_exactly-exactly 7 7 q (omega arith) in
    elim (Bool-cases (leb 7 (length (held q)))) [
      | inl enough ↦ rw enough (
          receive-whole frag (held q) (stop q) (recv_exactly 7 7 q) (ground arith)
            (rw enough at read))
      | inr lacks ↦ rw lacks (
          receive-short frag (held q) (stop q) (recv_exactly 7 7 q) (ground arith)
            (rw lacks at read))
    ]
