-- ===== src/Pdu/Codec.antt =====
-- What a function-code class promises of its wire form, and how the promise follows from its layout.
use pyomb.Prelude.{
  ℕ, ◌+◌, ◌≡◌, ◌<◌, subst, List, ◌∷◌, ◌++◌, arith, length, drop, length-append, length-replicate,
  replicate, All,
}
use pyomb.Errors.{
  Result, ok, catch_struct, catch_packet, ◌>>=◌, >>=-eq-ok, catch_struct-eq-ok, catch_packet-eq-ok,
}
use pyomb.Struct.{Bytes, IsByte, Code, B, Format, width, calcsize, pack, unpack, repeat_count}
use pyomb.Struct.Laws.{
  pack-Packed, pack-unpack, pack-head, pack-swap, unpack-fits, repeat_count-size,
}

-- The wire form of a class with function code `fc`.
pub record PacketLaws {T : Type 0} (fc : ℕ) (serialize : T → Result Bytes)
    (deserialize : Bytes → Result T) (len : T → ℕ) : Type 0 where
  pub parses : (p : T) (s : Bytes) → serialize p ≡ ok s → deserialize s ≡ ok p
  pub sized : (p : T) (s : Bytes) → serialize p ≡ ok s → length s ≡ len p
  pub bytes : (p : T) (s : Bytes) → serialize p ≡ ok s → All IsByte s
  pub begins : (p : T) (s : Bytes) → serialize p ≡ ok s → (t : Bytes) × (fc ∷ t ≡ s)

-- Parsing loses nothing but the first byte, which the class does not look at.
pub record Lossless {T : Type 0} (fc : ℕ) (serialize : T → Result Bytes)
    (deserialize : Bytes → Result T) : Type 0 where
  pub rebuilds :
      (s : Bytes) (p : T) → All IsByte s → deserialize s ≡ ok p → serialize p ≡ ok (fc ∷ drop 1 s)

module _ {T : Type 0} (fc : ℕ) (body : T → Format) (payload : T → List ℕ)
    (read : Bytes → Result (List ℕ)) (of_values : List ℕ → Result T) where
  abbrev write : T → Result Bytes
  write p = catch_packet (catch_struct (pack (B ∷ body p) (fc ∷ payload p)))

  abbrev parse : Bytes → Result T
  parse s = catch_struct (read s >>= of_values)

  packed : (p : T) (s : Bytes) → write p ≡ ok s → pack (B ∷ body p) (fc ∷ payload p) ≡ ok s
  packed p s h = catch_struct-eq-ok _ (catch_packet-eq-ok _ h)

  pub make_laws :
      ((p : T) (vs : List ℕ) (s : Bytes) → pack (B ∷ body p) vs ≡ ok s → read s ≡ ok vs)
      → ((p : T) (x : ℕ) → of_values (x ∷ payload p) ≡ ok p)
      → PacketLaws fc write parse (λ p. calcsize (B ∷ body p))
  make_laws read_back fields = record {
    parses = λ p s h. rw (read_back p _ s (packed p s h), fields p fc);
    sized = λ p s h. (pack-Packed _ _ s (packed p s h)).sized;
    bytes = λ p s h. (pack-Packed _ _ s (packed p s h)).bytes;
    begins = λ p s h. let (t, e, eq) = pack-head (body p) fc _ s (packed p s h) in (t, eq);
  }

  pub rebuild_at :
      fc < 256
      → (s : Bytes) (p : T)
      → ((vs : List ℕ)
          → read s ≡ ok vs
          → of_values vs ≡ ok p
          → (x : ℕ) × (pack (B ∷ body p) (x ∷ payload p) ≡ ok s))
      → parse s ≡ ok p
      → write p ≡ ok (fc ∷ drop 1 s)
  rebuild_at small s p unread h =
      let (vs, r, o) = >>=-eq-ok (read s) of_values (catch_struct-eq-ok _ h) in
      let (x, e) = unread vs r o in rw (pack-swap (body p) x fc (payload p) s small e)

  pub make-Lossless :
      fc < 256
      → ((s : Bytes) (vs : List ℕ) (p : T)
          → All IsByte s
          → read s ≡ ok vs
          → of_values vs ≡ ok p
          → (x : ℕ) × (pack (B ∷ body p) (x ∷ payload p) ≡ ok s))
      → Lossless fc write parse
  make-Lossless small unread = record {
    rebuilds = λ s p b. rebuild_at small s p (λ vs. unread s vs p b);
  }

-- A layout of scalars only.
pub read-pack_fixed : (f : Format) (vs : List ℕ) (s : Bytes) → pack f vs ≡ ok s → unpack f s ≡ ok vs
read-pack_fixed f vs s h = (pack-Packed f vs s h).reads

-- A layout with a trailing sequence, whose length the stream's length gives.
abbrev pub read_tail : Format → Code → Bytes → Result (List ℕ)
read_tail head c s = do
  n ← repeat_count (calcsize head) (width c) (length s)
  unpack (head ++ replicate n c) s

pub read-pack_tail :
    (head : Format) (c : Code) (n : ℕ) (vs : List ℕ) (s : Bytes)
    → pack (head ++ replicate n c) vs ≡ ok s
    → read_tail head c s ≡ ok vs
read-pack_tail head c n vs s h =
    let p = pack-Packed (head ++ replicate n c) vs s h in
    rw (repeat_count-size head c n s p.sized) p.reads

pub unread_tail :
    (head : Format) (c : Code) (n : ℕ) (s : Bytes) (vs : List ℕ)
    → All IsByte s
    → length vs ≡ length head + n
    → read_tail head c s ≡ ok vs
    → pack (head ++ replicate n c) vs ≡ ok s
unread_tail head c n s vs b sized h =
    let (m, e, u) =
      >>=-eq-ok (repeat_count (calcsize head) (width c) (length s))
        (λ k. unpack (head ++ replicate k c) s) h in
    let same : m ≡ n =
      omega
        (arith, unpack-fits _ s vs u, length-append head (replicate m c), length-replicate m c) in
    subst (λ k. pack (head ++ replicate k c) vs ≡ ok s) same (pack-unpack _ s vs b u)
