-- ===== src/Prelude/Bits.antt =====
-- Exclusive or of native numbers, from its lowest digit up.
use Prim.Native.Nat.{
  ℕ, zero, suc, ◌+◌, ◌-◌, ◌*◌, ◌/◌, ◌%◌, ◌≤◌, ◌<◌, bit_and, bit_xor, digits, bitwise,
  bit_xor-bitwise, bit_and-bitwise, differ, min,
}
use mathlib.Core.Path.{◌≡◌, refl, ◌∙◌, subst}
use native.Mathlib.Omega.{arith}

-- The native operations are stated as a recursion on digits with fuel. Fuel beyond the first number
-- changes nothing, so the recursion is an equation on the lowest digit.
add_fuel : ℕ → ℕ → ℕ
add_fuel zero n = n
add_fuel (suc k) n = suc (add_fuel k n)

add_fuel_eq : (k n : ℕ) → add_fuel k n ≡ k + n
unfolding add_fuel
add_fuel_eq zero n = omega arith
add_fuel_eq (suc k) n = omega (arith, add_fuel_eq k n)

module _ (seed : ℕ → ℕ) (op : ℕ → ℕ → ℕ) where
  one_more : (fuel x y : ℕ) → x ≤ fuel → digits seed op (suc fuel) x y ≡ digits seed op fuel x y
  one_more zero (suc x) y enough = absurd (omega arith)
  one_more zero zero y enough = refl
  one_more (suc fuel) zero y enough = refl
  one_more (suc fuel) (suc x) y enough = rw (one_more fuel (suc x / 2) (y / 2) (omega arith))

  many_more :
      (k fuel x y : ℕ) → x ≤ fuel → digits seed op (add_fuel k fuel) x y ≡ digits seed op fuel x y
  unfolding add_fuel
  many_more zero fuel x y enough = refl
  many_more (suc k) fuel x y enough =
      one_more (add_fuel k fuel) x y (omega (arith, add_fuel_eq k fuel))
      ∙ many_more k fuel x y enough

  lowest_digit :
      (x y : ℕ)
      → bitwise seed op (suc x) y ≡ op (suc x % 2) (y % 2) + bitwise seed op (suc x / 2) (y / 2) * 2
  lowest_digit x y =
      let gap = x - suc x / 2 in
      let all : add_fuel gap (suc x / 2) ≡ x = omega (arith, add_fuel_eq gap (suc x / 2)) in
      let same : digits seed op x (suc x / 2) (y / 2) ≡ bitwise seed op (suc x / 2) (y / 2) =
        subst (λ n. digits seed op n (suc x / 2) (y / 2) ≡ bitwise seed op (suc x / 2) (y / 2)) all
          (many_more gap (suc x / 2) (suc x / 2) (y / 2) (omega arith)) in
      omega (arith, same)

differ_digits : (x y : ℕ) → x < 2 → y < 2 → differ x y ≡ (x + y) % 2
differ_digits zero zero h k = refl
differ_digits zero (suc zero) h k = refl
differ_digits (suc zero) zero h k = refl
differ_digits (suc zero) (suc zero) h k = refl
differ_digits zero (suc (suc y)) h k = absurd (omega arith)
differ_digits (suc zero) (suc (suc y)) h k = absurd (omega arith)
differ_digits (suc (suc x)) y h k = absurd (omega arith)

pub bit_xor_step : (a b : ℕ) → bit_xor a b ≡ bit_xor (a / 2) (b / 2) * 2 + (a % 2 + b % 2) % 2
bit_xor_step zero b = simp bit_xor-bitwise (omega arith)
bit_xor_step (suc a) b = omega (
  arith,
  bit_xor-bitwise (suc a) b,
  bit_xor-bitwise (suc a / 2) (b / 2),
  lowest_digit (λ y. y) differ a b,
  differ_digits (suc a % 2) (b % 2) (omega arith) (omega arith),
)

pub half-bit_xor : (a b : ℕ) → bit_xor a b / 2 ≡ bit_xor (a / 2) (b / 2)
half-bit_xor a b = omega (arith, bit_xor_step a b)

pub low-bit_xor : (a b : ℕ) → bit_xor a b % 2 ≡ (a % 2 + b % 2) % 2
low-bit_xor a b = omega (arith, bit_xor_step a b)

-- Shift right by a number of digits.
abbrev pub halve : ℕ → ℕ → ℕ
halve zero a = a
halve (suc n) a = halve n (a / 2)

pub halve-bit_xor : (n a b : ℕ) → halve n (bit_xor a b) ≡ bit_xor (halve n a) (halve n b)
halve-bit_xor zero a b = refl
halve-bit_xor (suc n) a b = rw half-bit_xor (halve-bit_xor n (a / 2) (b / 2))

pub bit_xor-zero : (a : ℕ) → bit_xor 0 a ≡ a
bit_xor-zero a = simp bit_xor-bitwise refl

-- Exclusive or with a fixed number on the right, and on the left, loses nothing.
bit_xor-cancel_right_fuel : (n a b c : ℕ) → a ≤ n → b ≤ n → bit_xor a c ≡ bit_xor b c → a ≡ b
bit_xor-cancel_right_fuel zero a b c h k e = omega arith
bit_xor-cancel_right_fuel (suc n) a b c h k e = omega (
  arith,
  low-bit_xor a c,
  low-bit_xor b c,
  bit_xor-cancel_right_fuel n (a / 2) (b / 2) (c / 2) (omega arith) (omega arith)
      (omega (arith, half-bit_xor a c, half-bit_xor b c)),
)

pub bit_xor-cancel_right : (a b c : ℕ) → bit_xor a c ≡ bit_xor b c → a ≡ b
bit_xor-cancel_right a b c e = bit_xor-cancel_right_fuel (a + b) a b c (omega arith) (omega arith) e

bit_xor-cancel_left_fuel : (n a b c : ℕ) → b ≤ n → c ≤ n → bit_xor a b ≡ bit_xor a c → b ≡ c
bit_xor-cancel_left_fuel zero a b c h k e = omega arith
bit_xor-cancel_left_fuel (suc n) a b c h k e = omega (
  arith,
  low-bit_xor a b,
  low-bit_xor a c,
  bit_xor-cancel_left_fuel n (a / 2) (b / 2) (c / 2) (omega arith) (omega arith)
      (omega (arith, half-bit_xor a b, half-bit_xor a c)),
)

pub bit_xor-cancel_left : (a b c : ℕ) → bit_xor a b ≡ bit_xor a c → b ≡ c
bit_xor-cancel_left a b c e = bit_xor-cancel_left_fuel (b + c) a b c (omega arith) (omega arith) e

-- The last digit is what a conjunction with one keeps.
conj_low : (a : ℕ) → bit_and (suc a) 1 ≡ min (suc a % 2) 1 + bit_and (suc a / 2) 0 * 2
conj_low a =
    omega (
      arith,
      bit_and-bitwise (suc a) 1,
      bit_and-bitwise (suc a / 2) 0,
      lowest_digit (λ y. 0) min a 1,
    )

conj_nothing : (n a : ℕ) → a < n → bit_and a 0 ≡ 0
conj_nothing zero a h = absurd (omega arith)
conj_nothing (suc n) zero h = bit_and-bitwise 0 0
conj_nothing (suc n) (suc a) h = omega (
  arith,
  conj_nothing n (suc a / 2) (omega arith),
  bit_and-bitwise (suc a) 0,
  bit_and-bitwise (suc a / 2) 0,
  lowest_digit (λ y. 0) min a 0,
)

pub bit_and-one : (a : ℕ) → bit_and a 1 ≡ a % 2
bit_and-one zero = omega (arith, bit_and-bitwise 0 1)
bit_and-one (suc a) =
    omega (arith, conj_low a, conj_nothing (suc (suc a)) (suc a / 2) (omega arith))
