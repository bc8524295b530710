-- ===== src/Prelude/Digits.antt =====
-- The binary digits of `&` and `^`: the lowest one apart from the others.
use Prim.Native.Nat.{min, differ, digits, bitwise, bit_and-bitwise, bit_xor-bitwise}
use Prim.Native.Nat.{ℕ, zero, suc, ◌+◌, ◌-◌, ◌*◌, ◌/◌, ◌%◌, ◌^◌, ◌≤◌, ◌<◌, bit_and, bit_xor}
use mathlib.Core.Path.{◌≡◌, refl, ap, sym, ◌∙◌}
use native.Mathlib.Nat.{
  add-mul-mod_self_right, div-add-mod, div-div-eq-div-mul, mod-eq_of_lt, mod-lt, one-le-pow,
  pow-suc, pow-succ',
}
use native.Mathlib.Omega.{arith}

module _ (z : ℕ → ℕ) (f : ℕ → ℕ → ℕ) where
  spare_fuel : (x y fuel : ℕ) → x ≤ fuel → digits z f (suc fuel) x y ≡ digits z f fuel x y
  spare_fuel zero y zero h = refl
  spare_fuel zero y (suc fuel) h = refl
  spare_fuel (suc x) y zero h = absurd (omega arith)
  spare_fuel (suc x) y (suc fuel) h = rw (spare_fuel (suc x / 2) (y / 2) fuel (omega arith))

  any_fuel : (x y k : ℕ) → digits z f (k + x) x y ≡ digits z f x x y
  any_fuel x y zero = ap (λ (n : ℕ). digits z f n x y) (omega arith)
  any_fuel x y (suc k) =
      let more : suc k + x ≡ suc (k + x) = omega arith in
      ap (λ (n : ℕ). digits z f n x y) more ∙ spare_fuel x y (k + x) (omega arith) ∙ any_fuel x y k

  -- What the operation does where the first number has run out fits what it does to two digits.
  bitwise-digit :
      ((y : ℕ) → z y ≡ z (y / 2) * 2 + f 0 (y % 2))
      → (x y : ℕ) → bitwise z f x y ≡ bitwise z f (x / 2) (y / 2) * 2 + f (x % 2) (y % 2)
  bitwise-digit ends zero y = ends y
  bitwise-digit ends (suc x) y =
      let half : x ≡ x - suc x / 2 + suc x / 2 = omega arith in
      let enough : digits z f x (suc x / 2) (y / 2) ≡ digits z f (suc x / 2) (suc x / 2) (y / 2) =
        ap (λ (n : ℕ). digits z f n (suc x / 2) (y / 2)) half
        ∙ any_fuel (suc x / 2) (y / 2) (x - suc x / 2) in
      ap (λ (n : ℕ). n * 2 + f (suc x % 2) (y % 2)) enough

pub bit_and-digit : (x y : ℕ) → bit_and x y ≡ bit_and (x / 2) (y / 2) * 2 + min (x % 2) (y % 2)
bit_and-digit x y = simp bit_and-bitwise (bitwise-digit (λ b. zero) min (λ y. omega arith) x y)

pub bit_xor-digit : (x y : ℕ) → bit_xor x y ≡ bit_xor (x / 2) (y / 2) * 2 + differ (x % 2) (y % 2)
bit_xor-digit x y = simp bit_xor-bitwise (bitwise-digit (λ b. b) differ (λ y. omega arith) x y)

differ-sum : (a b : ℕ) → a < 2 → b < 2 → differ a b ≡ (a + b) % 2
differ-sum zero zero p q = refl
differ-sum zero (suc zero) p q = refl
differ-sum (suc zero) zero p q = refl
differ-sum (suc zero) (suc zero) p q = refl
differ-sum (suc (suc a)) b p q = absurd (omega arith)
differ-sum a (suc (suc b)) p q = absurd (omega arith)

-- The lowest digit of an exclusive or is that of the sum.
pub bit_xor-parity : (x y : ℕ) → bit_xor x y % 2 ≡ (x + y) % 2
bit_xor-parity x y =
    omega (arith, bit_xor-digit x y, differ-sum (x % 2) (y % 2) (omega arith) (omega arith))

mod_double : (m x : ℕ) → 0 < m → x % (m * 2) ≡ x / 2 % m * 2 + x % 2
mod_double m x pos =
    let u = x / 2 % m in
    let v = x / 2 / m in
    let halves : m * v + u ≡ x / 2 = div-add-mod (x / 2) m in
    let small : u < m = mod-lt (x / 2) pos in
    let shape : x ≡ u * 2 + x % 2 + v * (m * 2) = grind (arith, halves) in
    ap (λ (n : ℕ). n % (m * 2)) shape
    ∙ add-mul-mod_self_right (u * 2 + x % 2) v (m * 2)
    ∙ mod-eq_of_lt (omega (arith, small))

no_digits : (n x : ℕ) → digits (λ b. zero) min n x zero ≡ zero
no_digits zero x = refl
no_digits (suc n) zero = refl
no_digits (suc n) (suc x) = omega (arith, no_digits n (suc x / 2))

bit_and-zero : (x : ℕ) → bit_and x zero ≡ zero
bit_and-zero x = simp bit_and-bitwise (no_digits x x)

-- A mask of `k` ones keeps the lowest `k` digits.
pub bit_and-mask : (k x : ℕ) → bit_and x (2 ^ k - 1) ≡ x % 2 ^ k
bit_and-mask zero x = bit_and-zero x ∙ omega arith
bit_and-mask (suc k) x =
    let pos : 0 < 2 ^ k = omega (arith, one-le-pow k 2) in
    let digit = bit_and-digit x (2 ^ suc k - 1) in
    let rest : (2 ^ suc k - 1) / 2 ≡ 2 ^ k - 1 = omega (arith, pow-suc 2 k, pos) in
    let last : min (x % 2) ((2 ^ suc k - 1) % 2) ≡ x % 2 = omega (arith, pow-suc 2 k, pos) in
    let high : bit_and (x / 2) ((2 ^ suc k - 1) / 2) ≡ x / 2 % 2 ^ k =
      rw rest (bit_and-mask k (x / 2)) in
    let size : x % 2 ^ suc k ≡ x / 2 % 2 ^ k * 2 + x % 2 =
      ap (λ (n : ℕ). x % n) (pow-suc 2 k) ∙ mod_double (2 ^ k) x pos in
    omega (arith, digit, high, last, size)

bit_xor-half : (x y : ℕ) → bit_xor x y / 2 ≡ bit_xor (x / 2) (y / 2)
bit_xor-half x y =
    omega (arith, bit_xor-digit x y, differ-sum (x % 2) (y % 2) (omega arith) (omega arith))

-- The digit of weight 16 of an exclusive or.
pub bit_xor-sixteen : (x y : ℕ) → bit_xor x y / 16 ≡ bit_xor (x / 16) (y / 16)
bit_xor-sixteen x y =
    let h1 = bit_xor-half x y in
    let h2 = bit_xor-half (x / 2) (y / 2) in
    let h3 = bit_xor-half (x / 2 / 2) (y / 2 / 2) in
    let h4 = bit_xor-half (x / 2 / 2 / 2) (y / 2 / 2 / 2) in
    let ex : x / 2 / 2 / 2 / 2 ≡ x / 16 = omega arith in
    let ey : y / 2 / 2 / 2 / 2 ≡ y / 16 = omega arith in
    let last : bit_xor (x / 2 / 2 / 2 / 2) (y / 2 / 2 / 2 / 2) ≡ bit_xor (x / 16) (y / 16) =
      rw (ex, ey) refl in
    omega (arith, h1, h2, h3, h4, last)

empty-bit_and : (z : ℕ) → bit_and zero z ≡ zero
empty-bit_and z = simp bit_and-bitwise refl

pub bit_and-sixteen : (z : ℕ) → bit_and 16 z ≡ z / 16 % 2 * 16
bit_and-sixteen z =
    let d1 : bit_and 16 z ≡ bit_and 8 (z / 2) * 2 = bit_and-digit 16 z ∙ omega arith in
    let d2 : bit_and 8 (z / 2) ≡ bit_and 4 (z / 2 / 2) * 2 =
      bit_and-digit 8 (z / 2) ∙ omega arith in
    let d3 : bit_and 4 (z / 2 / 2) ≡ bit_and 2 (z / 2 / 2 / 2) * 2 =
      bit_and-digit 4 (z / 2 / 2) ∙ omega arith in
    let d4 : bit_and 2 (z / 2 / 2 / 2) ≡ bit_and 1 (z / 2 / 2 / 2 / 2) * 2 =
      bit_and-digit 2 (z / 2 / 2 / 2) ∙ omega arith in
    let d5 : bit_and 1 (z / 2 / 2 / 2 / 2) ≡ z / 2 / 2 / 2 / 2 % 2 =
      bit_and-digit 1 (z / 2 / 2 / 2 / 2) ∙ omega (arith, empty-bit_and (z / 2 / 2 / 2 / 2 / 2)) in
    omega (arith, d1, d2, d3, d4, d5)

bit_and-half : (x y : ℕ) → bit_and x y / 2 ≡ bit_and (x / 2) (y / 2)
bit_and-half x y = omega (arith, bit_and-digit x y)

-- The digit of weight 2^k of an intersection.
pub bit_and-at : (k x y : ℕ) → bit_and x y / 2 ^ k % 2 ≡ min (x / 2 ^ k % 2) (y / 2 ^ k % 2)
bit_and-at zero x y = omega (arith, bit_and-digit x y)
bit_and-at (suc k) x y =
    let rest = bit_and-at k (x / 2) (y / 2) in
    let halved : (n : ℕ) → n / 2 ^ suc k ≡ n / 2 / 2 ^ k =
      λ n. ap (λ (t : ℕ). n / t) (pow-succ' 2 k) ∙ sym (div-div-eq-div-mul n 2 (2 ^ k)) in
    rw (halved (bit_and x y), halved x, halved y, bit_and-half x y) rest

pub bit_and-one : (z : ℕ) → bit_and 1 z ≡ z % 2
bit_and-one z = bit_and-digit 1 z ∙ omega (arith, empty-bit_and (z / 2))

pub bit_xor-bits : (x y : ℕ) → x < 2 → y < 2 → bit_xor x y ≡ (x + y) % 2
bit_xor-bits zero zero p q = refl
bit_xor-bits zero (suc zero) p q = refl
bit_xor-bits (suc zero) zero p q = refl
bit_xor-bits (suc zero) (suc zero) p q = refl
bit_xor-bits (suc (suc x)) y p q = absurd (omega arith)
bit_xor-bits x (suc (suc y)) p q = absurd (omega arith)

-- The digit of weight 2^k of an exclusive or.
pub bit_xor-at : (k x y : ℕ) → bit_xor x y / 2 ^ k % 2 ≡ (x / 2 ^ k + y / 2 ^ k) % 2
bit_xor-at zero x y = omega (arith, bit_xor-parity x y)
bit_xor-at (suc k) x y =
    let rest = bit_xor-at k (x / 2) (y / 2) in
    let halved : (n : ℕ) → n / 2 ^ suc k ≡ n / 2 / 2 ^ k =
      λ n. ap (λ (t : ℕ). n / t) (pow-succ' 2 k) ∙ sym (div-div-eq-div-mul n 2 (2 ^ k)) in
    rw (halved (bit_xor x y), halved x, halved y, bit_xor-half x y) rest

-- A digit of the intersection of `x ^ (y ^ m)` and `x ^ r`.
pub agreeing-at :
    (k x y m r : ℕ)
    → bit_and (bit_xor x (bit_xor y m)) (bit_xor x r) / 2 ^ k % 2
      ≡ min ((x / 2 ^ k + y / 2 ^ k + m / 2 ^ k) % 2) ((x / 2 ^ k + r / 2 ^ k) % 2)
agreeing-at k x y m r = omega (
  arith,
  bit_and-at k (bit_xor x (bit_xor y m)) (bit_xor x r),
  bit_xor-at k x (bit_xor y m),
  bit_xor-at k y m,
  bit_xor-at k x r,
)
