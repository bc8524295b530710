-- ===== src/Simplify/Meaning.antt =====
-- The values of sums, differences and products.
use fuzzball.Ir.Eval.{Env, Val, apply_binop, eval, if_same, val}
use fuzzball.Ir.Types.{
  BinopT, Exp, RegT, bin_op, reg_1, reg_16, reg_32, reg_64, reg_8, reg_to_bits, same_reg,
  same_reg_refl,
}
use fuzzball.Prelude.{
  Option, arith, false, if◌then◌else◌, none, refl, some, sym, true, ℕ, ◌>>=◌, ◌^◌, ◌∙◌, ◌≡◌,
}

-- The operation makes, from two words of one type, the word `f` of them, where `f` also reads 2^width.
abbrev pub IsRing : BinopT → (ℕ → ℕ → ℕ → ℕ) → Type 0
IsRing op f =
    (t u : RegT) (x y : ℕ)
    → apply_binop op (val t x) (val u y) ≡ if_same t u (some (val t (f (2 ^ reg_to_bits t) x y)))

same_reg_eq : (t u : RegT) → same_reg t u ≡ true → t ≡ u
same_reg_eq reg_1 reg_1 p = refl
same_reg_eq reg_8 reg_8 p = refl
same_reg_eq reg_16 reg_16 p = refl
same_reg_eq reg_32 reg_32 p = refl
same_reg_eq reg_64 reg_64 p = refl
same_reg_eq _ _ p = ground arith

agreeing :
    {v : RegT} {z : ℕ} (t u : RegT) (w : ℕ)
    → if_same t u (some (val t w)) ≡ some (val v z)
    → (t ≡ v) × (u ≡ v) × (w ≡ z)
agreeing {v = v} {z = z} t u w =
    elim (same_reg t u)
        as (λ c.
          same_reg t u ≡ c
          → (if c then some (val t w) else none) ≡ some (val v z)
          → (t ≡ v) × (u ≡ v) × (w ≡ z)) [
            | true ↦ λ e p.
                let same : t ≡ u = same_reg_eq t u e in
                let tv : t ≡ v = ground arith in (tv, sym same ∙ tv, ground arith)
            | false ↦ λ e p. ground arith
          ]
      refl

-- The parts of a value of an operation.
pub record Parts (f : ℕ → ℕ → ℕ → ℕ) (t : RegT) (z : ℕ) (r s : Option Val) : Type 0 where
  pub x : ℕ
  pub y : ℕ
  pub first : r ≡ some (val t x)
  pub second : s ≡ some (val t y)
  pub total : f (2 ^ reg_to_bits t) x y ≡ z

operands :
    {t : RegT} {z : ℕ} (op : BinopT) (f : ℕ → ℕ → ℕ → ℕ) (r s : Option Val)
    → IsRing op f
    → (r >>= λ a. s >>= λ b. apply_binop op a b) ≡ some (val t z)
    → Parts f t z r s
operands op f none s ring p = ground arith
operands op f (some a) none ring p = ground arith
operands op f (some (val t x)) (some (val u y)) ring p =
    let (et, eu, e) = agreeing t u (f (2 ^ reg_to_bits t) x y) (sym (ring t u x y) ∙ p) in
    record { x = x; y = y; first = rw et refl; second = rw eu refl; total = rw (sym et) e }

pub parts :
    (env : Env) (op : BinopT) (f : ℕ → ℕ → ℕ → ℕ) (a b : Exp) {t : RegT} {z : ℕ}
    → IsRing op f
    → eval env (bin_op op a b) ≡ some (val t z)
    → Parts f t z (eval env a) (eval env b)
unfolding eval
parts env op f a b ring p = operands op f (eval env a) (eval env b) ring p

pub whole :
    (env : Env) (op : BinopT) (f : ℕ → ℕ → ℕ → ℕ) (a b : Exp) {t : RegT} {x y z : ℕ}
    → IsRing op f
    → eval env a ≡ some (val t x)
    → eval env b ≡ some (val t y)
    → f (2 ^ reg_to_bits t) x y ≡ z
    → eval env (bin_op op a b) ≡ some (val t z)
unfolding eval
whole env op f a b {t = t} ring p q e = rw (p, q, ring, same_reg_refl t, e)
