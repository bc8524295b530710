-- ===== src/Vex/Wide/Value.antt =====
-- The 128-bit value of a vector, and the arithmetic of the partial products.
use fuzzball.Ir.Eval.{Env}
use fuzzball.Ir.Types.{Exp, reg_64, vector}
use fuzzball.Ir.Words.{IsWord}
use fuzzball.Prelude.{ap, arith, if◌then◌else◌, ltb, ℕ, ◌%◌, ◌*◌, ◌+◌, ◌/◌, ◌<◌, ◌^◌, ◌≡◌}

-- The expression is a vector whose halves make up `v`.
pub record IsWide (env : Env) (e : Exp) (v : ℕ) : Type 0 where
  pub high : Exp
  pub low : Exp
  pub h : ℕ
  pub l : ℕ
  pub shape : e ≡ vector high low
  pub high_word : IsWord env high reg_64 h
  pub low_word : IsWord env low reg_64 l
  pub total : h * 2 ^ 64 + l ≡ v

pub mul-lt : (m x y : ℕ) → x < m → y < m → x * y < m * m
mul-lt m x y p q = grind arith

-- A product from the halves of its factors.
pub mul_halves :
    (x y : ℕ)
    → x / 2 ^ 32 * (y / 2 ^ 32) * 2 ^ 64
        + (x / 2 ^ 32 * (y % 2 ^ 32) + x % 2 ^ 32 * (y / 2 ^ 32)) * 2 ^ 32
        + x % 2 ^ 32 * (y % 2 ^ 32)
      ≡ x * y
mul_halves x y =
    let parts : x ≡ x / 2 ^ 32 * 2 ^ 32 + x % 2 ^ 32 = omega arith in
    let parts' : y ≡ y / 2 ^ 32 * 2 ^ 32 + y % 2 ^ 32 = omega arith in
    omega (
      arith,
      ap (λ (t : ℕ). t * y) parts,
      ap (λ (t : ℕ). (x / 2 ^ 32 * 2 ^ 32 + x % 2 ^ 32) * t) parts',
    )

unfoldable pub carry : ℕ → ℕ → ℕ
carry a b = if ltb a b then 1 else 0

carry_add :
    (a b : ℕ)
    → a < 2 ^ 64
    → b < 2 ^ 64
    → (a + b) % 2 ^ 64 + carry ((a + b) % 2 ^ 64) a * 2 ^ 64 ≡ a + b
unfolding carry
carry_add a b p q = ground arith

-- Adding the partial products with two carries gives the whole product.
pub carries :
    (p11 p10 p01 p00 : ℕ)
    → p00 < 2 ^ 64
    → p01 < 2 ^ 64
    → p10 < 2 ^ 64
    → p11 * 2 ^ 64 + (p10 + p01) * 2 ^ 32 + p00 < 2 ^ 128
    → let a = (p00 + p01 * 2 ^ 32 % 2 ^ 64) % 2 ^ 64 in
      let b = (a + p10 * 2 ^ 32 % 2 ^ 64) % 2 ^ 64 in
      (p11 + (carry a p00 + carry b a) + (p01 / 2 ^ 32 + p10 / 2 ^ 32)) * 2 ^ 64 + b
      ≡ p11 * 2 ^ 64 + (p10 + p01) * 2 ^ 32 + p00
carries p11 p10 p01 p00 h0 h1 h2 h3 =
    let a = (p00 + p01 * 2 ^ 32 % 2 ^ 64) % 2 ^ 64 in
    omega (
      arith,
      carry_add p00 (p01 * 2 ^ 32 % 2 ^ 64) h0 (omega arith),
      carry_add a (p10 * 2 ^ 32 % 2 ^ 64) (omega arith) (omega arith),
    )
