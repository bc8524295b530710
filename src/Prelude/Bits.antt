-- ===== src/Prelude/Bits.antt =====
-- The union `|` of two words whose bits lie apart, as assembling makes it, is a sum.
use Prim.Native.Nat.{max, digits, bit_or-bitwise}
use Prim.Native.Nat.{ℕ, zero, suc, ◌+◌, ◌-◌, ◌*◌, ◌/◌, ◌%◌, ◌^◌, ◌≤◌, ◌<◌, bit_or}
use mathlib.Core.Path.{◌≡◌, refl, ap, ◌∙◌}
use native.Mathlib.Nat.{pow-suc}
use native.Mathlib.Omega.{arith}

-- The digits of a union, computed with some fuel.
abbrev or_digits : ℕ → ℕ → ℕ → ℕ
or_digits = digits (λ y. y) max

-- One unit of fuel more than the first number changes nothing.
spare_fuel : (x y fuel : ℕ) → x ≤ fuel → or_digits (suc fuel) x y ≡ or_digits fuel x y
spare_fuel zero y zero h = refl
spare_fuel zero y (suc fuel) h = refl
spare_fuel (suc x) y zero h = absurd (omega arith)
spare_fuel (suc x) y (suc fuel) h = rw (spare_fuel (suc x / 2) (y / 2) fuel (omega arith))

-- No further unit does.
any_fuel : (x y k : ℕ) → or_digits (k + x) x y ≡ or_digits x x y
any_fuel x y zero = ap (λ (n : ℕ). or_digits n x y) (omega arith)
any_fuel x y (suc k) =
    let more : suc k + x ≡ suc (k + x) = omega arith in
    ap (λ (n : ℕ). or_digits n x y) more ∙ spare_fuel x y (k + x) (omega arith) ∙ any_fuel x y k

-- The lowest digit apart from the others.
pub bit_or-digit : (x y : ℕ) → max (x % 2) (y % 2) + 2 * bit_or (x / 2) (y / 2) ≡ bit_or x y
bit_or-digit zero y = simp bit_or-bitwise (omega arith)
bit_or-digit (suc x) y =
    let half : x ≡ x - suc x / 2 + suc x / 2 = omega arith in
    let enough : or_digits x (suc x / 2) (y / 2) ≡ or_digits (suc x / 2) (suc x / 2) (y / 2) =
      ap (λ (n : ℕ). or_digits n (suc x / 2) (y / 2)) half
      ∙ any_fuel (suc x / 2) (y / 2) (x - suc x / 2) in
    simp bit_or-bitwise (omega (arith, enough))

-- A number below 2^k has nothing to unite with 0.
pub nothing-bit_or : (k x : ℕ) → x < 2 ^ k → bit_or x zero ≡ x
nothing-bit_or zero x small = let none : x ≡ zero = omega arith in rw none refl
nothing-bit_or (suc k) x small =
    let low = bit_or-digit x zero in
    let high = nothing-bit_or k (x / 2) (omega (arith, pow-suc 2 k)) in omega (arith, low, high)

pub zero-bit_or : (y : ℕ) → bit_or zero y ≡ y
zero-bit_or y = simp bit_or-bitwise refl

below-two_pow : (n : ℕ) → n < 2 ^ n
below-two_pow zero = omega arith
below-two_pow (suc n) = omega (arith, below-two_pow n, pow-suc 2 n)

-- A field above the lowest `k` bits and a field within them: their union is their sum.
pub bit_or_fields : (k q r : ℕ) → r < 2 ^ k → bit_or (q * 2 ^ k) r ≡ q * 2 ^ k + r
bit_or_fields zero q r small =
    let r0 : r ≡ zero = omega arith in
    let q1 : q * 1 ≡ q = omega arith in
    rw (r0, q1) (nothing-bit_or q q (below-two_pow q) ∙ omega arith)
bit_or_fields (suc k) q r small =
    let doubled : q * 2 ^ suc k ≡ 2 * (q * 2 ^ k) =
      omega (arith, ap (λ (t : ℕ). q * t) (pow-suc 2 k)) in
    let high = bit_or_fields k q (r / 2) (omega (arith, pow-suc 2 k)) in
    let low = bit_or-digit (2 * (q * 2 ^ k)) r in
    let halved : 2 * (q * 2 ^ k) / 2 ≡ q * 2 ^ k = omega arith in
    let top : bit_or (2 * (q * 2 ^ k) / 2) (r / 2) ≡ q * 2 ^ k + r / 2 = rw halved high in
    rw doubled (omega (arith, low, top))
