-- ===== src/Simulators/Connections/Registers.antt =====
-- The lists and the dicts of simulators/server.py's bookkeeping: how the keys follow each call.
use pyomb.Prelude.{
  ℕ, ◌≡◌, ◌≢◌, refl, ap, true, false, List, [], ◌∷◌, ◌++◌, length, ◌==◌, Bool-cases, inl, inr,
  arith, ◌≤◌,
}
use pyomb.Simulators.Connections.{Register, has, remove, pop, assign}

abbrev pub keys : Register → List ℕ
keys [] = []
keys ((k, v) ∷ r) = k ∷ keys r

pub keys-pop : (k : ℕ) (r : Register) → keys (pop k r) ≡ remove k (keys r)
unfolding pop remove
keys-pop k [] = refl
keys-pop k ((x, v) ∷ r) = elim (Bool-cases (x == k)) [
  | inl here ↦ rw here refl
  | inr there ↦ rw there (ap (λ (l : List ℕ). x ∷ l) (keys-pop k r))
]

pub keys-assign_new :
    (k v : ℕ) (r : Register) → has k (keys r) ≡ false → keys (assign k v r) ≡ keys r ++ (k ∷ [])
unfolding has assign
keys-assign_new k v [] h = refl
keys-assign_new k v ((x, w) ∷ r) h = elim (Bool-cases (x == k)) [
  | inl here ↦ absurd (let bad = rw here at h in cc)
  | inr there ↦ rw there (ap (λ (l : List ℕ). x ∷ l) (keys-assign_new k v r (rw there at h)))
]

pub keys-assign_old :
    (k v : ℕ) (r : Register) → has k (keys r) ≡ true → keys (assign k v r) ≡ keys r
unfolding has assign
keys-assign_old k v [] h = absurd (let bad = h in cc)
keys-assign_old k v ((x, w) ∷ r) h = elim (Bool-cases (x == k)) [
  | inl here ↦ rw here refl
  | inr there ↦ rw there (ap (λ (l : List ℕ). x ∷ l) (keys-assign_old k v r (rw there at h)))
]

pub has-append : (k x : ℕ) (l : List ℕ) → has k l ≡ false → x ≢ k → has k (l ++ (x ∷ [])) ≡ false
unfolding has
has-append k x [] h ne = let differs : (x == k) ≡ false = ground arith in rw differs refl
has-append k x (y ∷ l) h ne = elim (Bool-cases (y == k)) [
  | inl here ↦ absurd (let bad = rw here at h in cc)
  | inr there ↦ rw there (has-append k x l (rw there at h) ne)
]

pub has-remove : (k x : ℕ) (l : List ℕ) → has k l ≡ false → has k (remove x l) ≡ false
unfolding has remove
has-remove k x [] h = refl
has-remove k x (y ∷ l) h = elim (Bool-cases (y == k)) [
  | inl here ↦ absurd (let bad = rw here at h in cc)
  | inr there ↦ elim (Bool-cases (y == x)) [
    | inl gone ↦ rw gone (rw there at h)
    | inr stays ↦ rw (stays, there) (has-remove k x l (rw there at h))
  ]
]

pub length-remove : (x : ℕ) (l : List ℕ) → length (remove x l) ≤ length l
unfolding remove
length-remove x [] = omega arith
length-remove x (y ∷ l) = elim (Bool-cases (y == x)) [
  | inl gone ↦ rw gone (omega arith)
  | inr stays ↦ rw stays (omega (arith, length-remove x l))
]

-- No entry twice.
abbrev pub Distinct : List ℕ → Type 0
Distinct [] = Unit
Distinct (x ∷ xs) = (has x xs ≡ false) × Distinct xs

pub remove-Distinct : (x : ℕ) (l : List ℕ) → Distinct l → Distinct (remove x l)
unfolding remove
remove-Distinct x [] h = tt
remove-Distinct x (y ∷ l) (new, rest) = elim (Bool-cases (y == x)) [
  | inl gone ↦ rw gone rest
  | inr stays ↦ rw stays (has-remove y x l new, remove-Distinct x l rest)
]

has-ne : (k y : ℕ) (l : List ℕ) → has k (y ∷ l) ≡ false → k ≢ y
unfolding has
has-ne k y l h same = let here : (y == k) ≡ true = ground arith in let bad = rw here at h in cc

has-tail : (k z : ℕ) (m : List ℕ) → has k (z ∷ m) ≡ false → has k m ≡ false
unfolding has
has-tail k z m g = elim (Bool-cases (z == k)) [
  | inl here ↦ absurd (let bad = rw here at g in cc)
  | inr there ↦ rw there at g
]

pub append-Distinct : (x : ℕ) (l : List ℕ) → has x l ≡ false → Distinct l → Distinct (l ++ (x ∷ []))
append-Distinct x [] h d = (unfold has in refl, tt)
append-Distinct x (y ∷ l) h (new, d) =
    (has-append y x l new (has-ne x y l h), append-Distinct x l (has-tail x y l h) d)
