-- ===== src/I386/Flags/Add.antt =====
-- `mod_eflags_add` sets the flags as the processor does after an addition: the conditions.
use Prim.Native.Nat.{min}
use fuzzball.I386.Flags.{cond_af}
use fuzzball.I386.Flags.Arithmetic.{cond_of_add}
use fuzzball.I386.Flags.Compare.{as_flag, biased, less, masked}
use fuzzball.Ir.Build.{ex_add, ex_lt}
use fuzzball.Ir.Eval.{Env, eval, val}
use fuzzball.Ir.Types.{Exp, RegT, reg_1, reg_16, reg_32, reg_64, reg_8, reg_to_bits}
use fuzzball.Prelude.{
  Bool, ap, arith, bit_and, bit_xor, false, if◌then◌else◌, leb, ltb, refl, some, true, ℕ, ◌%◌, ◌&&◌,
  ◌*◌, ◌+◌, ◌-◌, ◌/◌, ◌<◌, ◌==◌, ◌^◌, ◌∙◌, ◌≡◌, ◌≤◌,
}
use fuzzball.Prelude.Digits.{
  agreeing-at, bit_and-mask, bit_and-one, bit_and-sixteen, bit_xor-parity, bit_xor-sixteen,
}

abbrev pub sum_of : ℕ → ℕ → ℕ → ℕ
sum_of w x y = (x + y) % 2 ^ w

-- The signed sum of two words is none of a signed word.
abbrev pub sum_overflows : ℕ → ℕ → ℕ → Bool
sum_overflows w x y =
    if leb (2 ^ (w - 1)) (biased w x + biased w y)
      && ltb (biased w x + biased w y) (3 * 2 ^ (w - 1))
    then false
    else true

pub carry-eq :
    (t : RegT) (x y : ℕ)
    → 8 ≤ reg_to_bits t
    → x < 2 ^ reg_to_bits t
    → y < 2 ^ reg_to_bits t
    → ltb (sum_of (reg_to_bits t) x y) x ≡ leb (2 ^ reg_to_bits t) (x + y)
carry-eq reg_1 x y l p q = absurd (omega arith)
carry-eq reg_8 x y l p q = ground arith
carry-eq reg_16 x y l p q = ground arith
carry-eq reg_32 x y l p q = ground arith
carry-eq reg_64 x y l p q = ground arith

adjust-digit :
    (t : RegT) (x y : ℕ)
    → 8 ≤ reg_to_bits t
    → reg_to_bits t ≤ 32
    → (16 == (sum_of (reg_to_bits t) x y / 16 + x / 16 + y / 16) % 2 * 16)
      ≡ leb 16 (x % 16 + y % 16)
adjust-digit reg_1 x y l u = absurd (omega arith)
adjust-digit reg_8 x y l u = ground arith
adjust-digit reg_16 x y l u = ground arith
adjust-digit reg_32 x y l u = ground arith
adjust-digit reg_64 x y l u = absurd (omega arith)

adjust-eq :
    (t : RegT) (x y : ℕ)
    → 8 ≤ reg_to_bits t
    → reg_to_bits t ≤ 32
    → (16 == bit_and 16 (bit_xor (sum_of (reg_to_bits t) x y) (bit_xor x y)))
      ≡ leb 16 (x % 16 + y % 16)
adjust-eq t x y l u =
    let r = sum_of (reg_to_bits t) x y in
    let bit : bit_xor r (bit_xor x y) / 16 % 2 ≡ (r / 16 + x / 16 + y / 16) % 2 = omega (
      arith,
      bit_xor-sixteen r (bit_xor x y),
      bit_xor-sixteen x y,
      bit_xor-parity (r / 16) (bit_xor x y / 16),
      bit_xor-parity (x / 16) (y / 16),
    ) in
    rw (bit_and-sixteen (bit_xor r (bit_xor x y)), bit) (adjust-digit t x y l u)

overflow-digit :
    (t : RegT) (x y : ℕ)
    → 8 ≤ reg_to_bits t
    → reg_to_bits t ≤ 32
    → x < 2 ^ reg_to_bits t
    → y < 2 ^ reg_to_bits t
    → (1
        == min
            ((x / 2 ^ (reg_to_bits t - 1)
                + y / 2 ^ (reg_to_bits t - 1)
                + 4294967295 / 2 ^ (reg_to_bits t - 1))
              % 2)
            ((x / 2 ^ (reg_to_bits t - 1) + sum_of (reg_to_bits t) x y / 2 ^ (reg_to_bits t - 1))
              % 2))
      ≡ sum_overflows (reg_to_bits t) x y
overflow-digit reg_1 x y l u p q = absurd (omega arith)
overflow-digit reg_8 x y l u p q = ground arith
overflow-digit reg_16 x y l u p q = ground arith
overflow-digit reg_32 x y l u p q = ground arith
overflow-digit reg_64 x y l u p q = absurd (omega arith)

low_of : (n : ℕ) → n % 2 ^ 32 % 2 ≡ n % 2
low_of n = omega arith

agree-digit :
    (k x y r : ℕ)
    → bit_and 1 (bit_and (bit_xor x (bit_xor y 4294967295)) (bit_xor x r) / 2 ^ k % 2 ^ 32)
      ≡ min ((x / 2 ^ k + y / 2 ^ k + 4294967295 / 2 ^ k) % 2) ((x / 2 ^ k + r / 2 ^ k) % 2)
agree-digit k x y r =
    let z = bit_and (bit_xor x (bit_xor y 4294967295)) (bit_xor x r) in
    bit_and-one (z / 2 ^ k % 2 ^ 32) ∙ low_of (z / 2 ^ k) ∙ agreeing-at k x y 4294967295 r

module _ (env : Env) where
  pub sum_lem :
      (t : RegT) (a b : Exp) (x y : ℕ)
      → 8 ≤ reg_to_bits t
      → reg_to_bits t ≤ 32
      → eval env a ≡ some (val reg_32 x)
      → eval env b ≡ some (val reg_32 y)
      → eval env (masked t (ex_add a b)) ≡ some (val reg_32 (sum_of (reg_to_bits t) x y))
  unfolding eval
  sum_lem reg_1 a b x y l u ha hb = absurd (omega arith)
  sum_lem reg_8 a b x y l u ha hb = rw (ha, hb, bit_and-mask 8 ((x + y) % 2 ^ 32)) (ground arith)
  sum_lem reg_16 a b x y l u ha hb = rw (ha, hb, bit_and-mask 16 ((x + y) % 2 ^ 32)) (ground arith)
  sum_lem reg_32 a b x y l u ha hb = rw (ha, hb) refl
  sum_lem reg_64 a b x y l u ha hb = absurd (omega arith)

  pub carry_lem :
      (t : RegT) (e a : Exp) (x y : ℕ)
      → 8 ≤ reg_to_bits t
      → reg_to_bits t ≤ 32
      → x < 2 ^ reg_to_bits t
      → y < 2 ^ reg_to_bits t
      → eval env e ≡ some (val reg_32 (sum_of (reg_to_bits t) x y))
      → eval env a ≡ some (val reg_32 x)
      → eval env (ex_lt e a) ≡ some (val reg_1 (as_flag (leb (2 ^ reg_to_bits t) (x + y))))
  carry_lem t e a x y l u p q he ha =
      less env e a (sum_of (reg_to_bits t) x y) x he ha
      ∙ ap (λ b. some (val reg_1 (as_flag b))) (carry-eq t x y l p q)

  pub adjust_lem :
      (t : RegT) (e a b : Exp) (x y : ℕ)
      → 8 ≤ reg_to_bits t
      → reg_to_bits t ≤ 32
      → eval env e ≡ some (val reg_32 (sum_of (reg_to_bits t) x y))
      → eval env a ≡ some (val reg_32 x)
      → eval env b ≡ some (val reg_32 y)
      → eval env (cond_af e a b) ≡ some (val reg_1 (as_flag (leb 16 (x % 16 + y % 16))))
  unfolding eval
  adjust_lem t e a b x y l u he ha hb =
      rw (he, ha, hb) (ap (λ b. some (val reg_1 (as_flag b))) (adjust-eq t x y l u))

  pub sum_overflow_lem :
      (t : RegT) (e a b : Exp) (x y : ℕ)
      → 8 ≤ reg_to_bits t
      → reg_to_bits t ≤ 32
      → x < 2 ^ reg_to_bits t
      → y < 2 ^ reg_to_bits t
      → eval env e ≡ some (val reg_32 (sum_of (reg_to_bits t) x y))
      → eval env a ≡ some (val reg_32 x)
      → eval env b ≡ some (val reg_32 y)
      → eval env (cond_of_add t e a b)
        ≡ some (val reg_1 (as_flag (sum_overflows (reg_to_bits t) x y)))
  unfolding eval
  sum_overflow_lem reg_1 e a b x y l u p q he ha hb = absurd (omega arith)
  sum_overflow_lem reg_8 e a b x y l u p q he ha hb =
      rw (he, ha, hb)
        (ap (λ (n : ℕ). some (val reg_1 (as_flag (1 == n))))
            (agree-digit 7 x y (sum_of (reg_to_bits reg_8) x y))
          ∙ ap (λ b. some (val reg_1 (as_flag b))) (overflow-digit reg_8 x y l u p q))
  sum_overflow_lem reg_16 e a b x y l u p q he ha hb =
      rw (he, ha, hb)
        (ap (λ (n : ℕ). some (val reg_1 (as_flag (1 == n))))
            (agree-digit 15 x y (sum_of (reg_to_bits reg_16) x y))
          ∙ ap (λ b. some (val reg_1 (as_flag b))) (overflow-digit reg_16 x y l u p q))
  sum_overflow_lem reg_32 e a b x y l u p q he ha hb =
      rw (he, ha, hb)
        (ap (λ (n : ℕ). some (val reg_1 (as_flag (1 == n))))
            (agree-digit 31 x y (sum_of (reg_to_bits reg_32) x y))
          ∙ ap (λ b. some (val reg_1 (as_flag b))) (overflow-digit reg_32 x y l u p q))
  sum_overflow_lem reg_64 e a b x y l u p q he ha hb = absurd (omega arith)
