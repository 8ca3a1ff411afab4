-- ===== src/Struct/Laws.antt =====
-- Lemmas on `pack` and `unpack`.
use pyomb.Prelude.{
  ltb, ◌≢◌, ap, Bool-cases, inl, inr, ℕ, zero, suc, drop, replicate, ◌+◌, ◌*◌, ◌/◌, ◌%◌, ◌<◌, ◌≡◌,
  refl, subst, List, [], ◌∷◌, ◌++◌, arith, length, All, lt→ltb,
}
use pyomb.Errors.{err, struct_error, ok, ◌>>=◌}
use pyomb.Struct.{
  width, repeat_count, Bytes, IsByte, Code, B, H, Format, bound, calcsize, put_code, pack, unpack,
}

-- What a successful `pack` wrote.
pub record Packed (f : Format) (vs : List ℕ) (s : Bytes) : Type 0 where
  pub reads : unpack f s ≡ ok vs
  pub sized : length s ≡ calcsize f
  pub bytes : All IsByte s
  pub fits : length vs ≡ length f

pub pack_inv :
    (c : Code) (f : Format) (v : ℕ) (vs : List ℕ) (s : Bytes)
    → pack (c ∷ f) (v ∷ vs) ≡ ok s
    → (t : Bytes) × (v < bound c) × (pack f vs ≡ ok t) × (put_code c v ++ t ≡ s)
unfolding pack
pack_inv c f v vs s h = ground arith

unpack_inv :
    (f : Format) (x : ℕ) (s : Bytes) (vs : List ℕ)
    → (do ws ← unpack f s; ok (x ∷ ws)) ≡ ok vs
    → (ws : List ℕ) × (unpack f s ≡ ok ws) × (x ∷ ws ≡ vs)
unpack_inv f x s vs h = ground arith

pub pack-Packed : (f : Format) (vs : List ℕ) (s : Bytes) → pack f vs ≡ ok s → Packed f vs s
unfolding unpack
pack-Packed [] [] s h =
    subst (Packed [] []) {x = []} (unfold pack in cc)
      (record { reads = refl; sized = refl; bytes = tt; fits = refl })
pack-Packed [] (v ∷ vs) s h = unfold pack in cc
pack-Packed (c ∷ f) [] s h = unfold pack in cc
pack-Packed (B ∷ f) (v ∷ vs) s h =
    let (t, small, e, eq) = pack_inv B f v vs s h in
    let p = pack-Packed f vs t e in
    subst (Packed (B ∷ f) (v ∷ vs)) eq (record {
      reads = rw p.reads;
      sized = omega (arith, p.sized);
      bytes = (small, p.bytes);
      fits = omega (arith, p.fits);
    })
pack-Packed (H ∷ f) (v ∷ vs) s h =
    let (t, small, e, eq) = pack_inv H f v vs s h in
    let p = pack-Packed f vs t e in
    let glue : v / 256 * 256 + v % 256 ≡ v = omega arith in
    subst (Packed (H ∷ f) (v ∷ vs)) eq (record {
      reads = rw (p.reads, glue);
      sized = omega (arith, p.sized);
      bytes = (omega arith, (omega arith, p.bytes));
      fits = omega (arith, p.fits);
    })

pub unpack-length :
    (f : Format) (s : Bytes) (vs : List ℕ) → unpack f s ≡ ok vs → length s ≡ calcsize f
unpack-length [] [] vs h = omega arith
unpack-length [] (b ∷ s) vs h = unfold unpack in cc
unpack-length (B ∷ f) [] vs h = unfold unpack in cc
unpack-length (B ∷ f) (b ∷ s) vs h =
    let (ws, e, _) = unpack_inv f b s vs (unfold unpack in h) in
    omega (arith, unpack-length f s ws e)
unpack-length (H ∷ f) [] vs h = unfold unpack in cc
unpack-length (H ∷ f) (b ∷ []) vs h = unfold unpack in cc
unpack-length (H ∷ f) (a ∷ b ∷ s) vs h =
    let (ws, e, _) = unpack_inv f (a * 256 + b) s vs (unfold unpack in h) in
    omega (arith, unpack-length f s ws e)

pub pack-unpack :
    (f : Format) (s : Bytes) (vs : List ℕ) → All IsByte s → unpack f s ≡ ok vs → pack f vs ≡ ok s
unfolding pack
pack-unpack [] [] vs b h = subst (λ ws. pack [] ws ≡ ok []) {x = []} (unfold unpack in cc) refl
pack-unpack [] (x ∷ s) vs b h = unfold unpack in cc
pack-unpack (B ∷ f) [] vs b h = unfold unpack in cc
pack-unpack (B ∷ f) (x ∷ s) vs b h =
    let (ws, e, eq) = unpack_inv f x s vs (unfold unpack in h) in
    subst (λ us. pack (B ∷ f) us ≡ ok (x ∷ s)) eq (rw (lt→ltb x 256 b.0, pack-unpack f s ws b.1 e))
pack-unpack (H ∷ f) [] vs b h = unfold unpack in cc
pack-unpack (H ∷ f) (x ∷ []) vs b h = unfold unpack in cc
pack-unpack (H ∷ f) (x ∷ y ∷ s) vs b h =
    let (ws, e, eq) = unpack_inv f (x * 256 + y) s vs (unfold unpack in h) in
    let hx = b.0 in
    let hy = b.1.0 in
    let hi : (x * 256 + y) / 256 ≡ x = omega arith in
    let lo : (x * 256 + y) % 256 ≡ y = omega arith in
    subst (λ us. pack (H ∷ f) us ≡ ok (x ∷ y ∷ s)) eq
      (rw (lt→ltb (x * 256 + y) 65536 (omega arith), pack-unpack f s ws b.1.1 e, hi, lo))

-- Any byte string of the format's size unpacks.
pub unpack_total :
    (f : Format) (s : Bytes) → length s ≡ calcsize f → (vs : List ℕ) × (unpack f s ≡ ok vs)
unfolding unpack
unpack_total [] [] h = ([], refl)
unpack_total [] (x ∷ s) h = absurd (omega arith)
unpack_total (B ∷ f) [] h = absurd (omega arith)
unpack_total (B ∷ f) (x ∷ s) h = let (vs, e) = unpack_total f s (omega arith) in (x ∷ vs, rw e)
unpack_total (H ∷ f) [] h = absurd (omega arith)
unpack_total (H ∷ f) (x ∷ []) h = absurd (omega arith)
unpack_total (H ∷ f) (x ∷ y ∷ s) h =
    let (vs, e) = unpack_total f s (omega arith) in ((x * 256 + y) ∷ vs, rw e)

-- Values that fit their codes pack.
abbrev pub Fits : Format → List ℕ → Type 0
Fits [] [] = Unit
Fits (c ∷ f) (v ∷ vs) = (v < bound c) × Fits f vs
Fits _ _ = ⊥

pub pack_total : (f : Format) (vs : List ℕ) → Fits f vs → (s : Bytes) × (pack f vs ≡ ok s)
unfolding pack
pack_total [] [] h = ([], refl)
pack_total [] (v ∷ vs) h = absurd h
pack_total (c ∷ f) [] h = absurd h
pack_total (c ∷ f) (v ∷ vs) h =
    let (s, e) = pack_total f vs h.1 in (put_code c v ++ s, rw (lt→ltb _ _ h.0, e))

pub unpack-fits : (f : Format) (s : Bytes) (vs : List ℕ) → unpack f s ≡ ok vs → length vs ≡ length f
unpack-fits [] [] vs h = subst (λ (ws : List ℕ). length ws ≡ 0) {x = []} (unfold unpack in cc) refl
unpack-fits [] (b ∷ s) vs h = unfold unpack in cc
unpack-fits (B ∷ f) [] vs h = unfold unpack in cc
unpack-fits (B ∷ f) (b ∷ s) vs h =
    let (ws, e, eq) = unpack_inv f b s vs (unfold unpack in h) in
    subst (λ (us : List ℕ). length us ≡ suc (length f)) eq (omega (arith, unpack-fits f s ws e))
unpack-fits (H ∷ f) [] vs h = unfold unpack in cc
unpack-fits (H ∷ f) (b ∷ []) vs h = unfold unpack in cc
unpack-fits (H ∷ f) (a ∷ b ∷ s) vs h =
    let (ws, e, eq) = unpack_inv f (a * 256 + b) s vs (unfold unpack in h) in
    subst (λ (us : List ℕ). length us ≡ suc (length f)) eq (omega (arith, unpack-fits f s ws e))

-- The first byte of a packed `B`, and what packing another byte in its place gives.
pub pack-head :
    (f : Format) (v : ℕ) (vs : List ℕ) (s : Bytes)
    → pack (B ∷ f) (v ∷ vs) ≡ ok s
    → (t : Bytes) × (pack f vs ≡ ok t) × (v ∷ t ≡ s)
pack-head f v vs s h = let (t, small, e, eq) = pack_inv B f v vs s h in (t, e, eq)

pub pack-swap :
    (f : Format) (x v : ℕ) (vs : List ℕ) (s : Bytes)
    → v < 256
    → pack (B ∷ f) (x ∷ vs) ≡ ok s
    → pack (B ∷ f) (v ∷ vs) ≡ ok (v ∷ drop 1 s)
unfolding pack
pack-swap f x v vs s small h =
    let (t, lt, e, eq) = pack_inv B f x vs s h in
    subst (λ u. pack (B ∷ f) (v ∷ vs) ≡ ok (v ∷ drop 1 u)) eq (rw (lt→ltb v 256 small, e))

pub calcsize-append : (f g : Format) → calcsize (f ++ g) ≡ calcsize f + calcsize g
calcsize-append [] g = omega arith
calcsize-append (c ∷ f) g = omega (arith, calcsize-append f g)

pub calcsize-replicate : (n : ℕ) (c : Code) → calcsize (replicate n c) ≡ width c * n
calcsize-replicate zero B = omega arith
calcsize-replicate zero H = omega arith
calcsize-replicate (suc n) B = omega (arith, calcsize-replicate n B)
calcsize-replicate (suc n) H = omega (arith, calcsize-replicate n H)

-- The repeat count that `deserialize` computes from the size of a packed stream.
pub repeat_count-size :
    (head : Format) (c : Code) (n : ℕ) (s : Bytes)
    → length s ≡ calcsize (head ++ replicate n c)
    → repeat_count (calcsize head) (width c) (length s) ≡ ok n
unfolding repeat_count
repeat_count-size head B n s h =
    ground (arith, calcsize-append head (replicate n B), calcsize-replicate n B)
repeat_count-size head H n s h =
    ground (arith, calcsize-append head (replicate n H), calcsize-replicate n H)

-- `pack` refuses a wrong number of values.
pub pack-refuses : (f : Format) (vs : List ℕ) → length vs ≢ length f → pack f vs ≡ err struct_error
unfolding pack
pack-refuses [] [] h = absurd (h refl)
pack-refuses [] (v ∷ vs) h = refl
pack-refuses (c ∷ f) [] h = refl
pack-refuses (c ∷ f) (v ∷ vs) h =
    rw (pack-refuses f vs (λ e. h (ap suc e)))
      (elim (Bool-cases (ltb v (bound c))) [ inl t ↦ rw t | inr t ↦ rw t ])
