-- ===== src/I386/Flags/Compare.antt =====
-- The values of the conditions that `mod_eflags_sub` computes.
use native.Mathlib.Nat.{mod-lt}
use fuzzball.I386.Flags.{c_of, calc_cond_pf, cond_af, mask_overflow, narrow32}
use fuzzball.Ir.Build.{
  ex_and, ex_const_of, ex_eq, ex_h_cast, ex_l_cast, ex_lt, ex_slt, ex_sub, ex_xor,
}
use fuzzball.Ir.Eval.{Env, eval, val}
use fuzzball.Ir.Types.{Exp, RegT, reg_1, reg_16, reg_32, reg_64, reg_8, reg_to_bits, same_reg_refl}
use fuzzball.Ir.Words.{two_pow_pos}
use fuzzball.Prelude.{
  Bool, ap, arith, bit_and, bit_xor, false, if◌then◌else◌, leb, ltb, refl, some, true, ℕ, ◌%◌, ◌&&◌,
  ◌*◌, ◌+◌, ◌-◌, ◌/◌, ◌<◌, ◌==◌, ◌^◌, ◌∙◌, ◌≡◌, ◌≤◌,
}
use fuzzball.Prelude.Digits.{bit_and-mask, bit_and-sixteen, bit_xor-parity, bit_xor-sixteen}
use fuzzball.Prelude.Int.{lt_ℤ, signed}

-- The number of a flag.
abbrev pub as_flag : Bool → ℕ
as_flag b = if b then 1 else 0

-- A word with the sign bit flipped: the order of these is the signed order of the words.
abbrev pub biased : ℕ → ℕ → ℕ
biased w x = (x + 2 ^ (w - 1)) % 2 ^ w

abbrev pub difference : ℕ → ℕ → ℕ → ℕ
difference w x y = (x + (2 ^ w - y)) % 2 ^ w

-- The signed difference of two words is none of a signed word.
abbrev pub overflows : ℕ → ℕ → ℕ → Bool
overflows w x y =
    if leb (biased w y) (biased w x + 2 ^ (w - 1)) && ltb (biased w x) (biased w y + 2 ^ (w - 1))
    then false
    else true

pub xor_flags :
    (b c : Bool)
    → bit_xor (as_flag b) (as_flag c) ≡ as_flag (if b then (if c then false else true) else c)
xor_flags true true = refl
xor_flags true false = refl
xor_flags false true = refl
xor_flags false false = refl

pub signed_order :
    (t : RegT) (x y : ℕ)
    → 8 ≤ reg_to_bits t
    → x < 2 ^ reg_to_bits t
    → y < 2 ^ reg_to_bits t
    → lt_ℤ (signed (reg_to_bits t) x) (signed (reg_to_bits t) y)
      ≡ ltb (biased (reg_to_bits t) x) (biased (reg_to_bits t) y)
signed_order reg_1 x y l p q = absurd (omega arith)
signed_order reg_8 x y l p q = ground arith
signed_order reg_16 x y l p q = ground arith
signed_order reg_32 x y l p q = ground arith
signed_order reg_64 x y l p q = ground arith

pub overflow-eq :
    (t : RegT) (x y : ℕ)
    → 8 ≤ reg_to_bits t
    → x < 2 ^ reg_to_bits t
    → y < 2 ^ reg_to_bits t
    → (if leb (2 ^ (reg_to_bits t - 1)) (difference (reg_to_bits t) x y)
        then (if ltb (biased (reg_to_bits t) x) (biased (reg_to_bits t) y) then false else true)
        else ltb (biased (reg_to_bits t) x) (biased (reg_to_bits t) y))
      ≡ overflows (reg_to_bits t) x y
overflow-eq reg_1 x y l p q = absurd (omega arith)
overflow-eq reg_8 x y l p q = ground arith
overflow-eq reg_16 x y l p q = ground arith
overflow-eq reg_32 x y l p q = ground arith
overflow-eq reg_64 x y l p q = ground arith

-- The expression that `mask_overflow` makes at these types.
abbrev pub masked : RegT → Exp → Exp
masked reg_8 e = ex_and e (ex_const_of reg_32 255)
masked reg_16 e = ex_and e (ex_const_of reg_32 65535)
masked t e = e

pub mask_overflow-masked :
    (t : RegT) (e : Exp)
    → 8 ≤ reg_to_bits t
    → reg_to_bits t ≤ 32
    → mask_overflow e t ≡ some (masked t e)
unfolding mask_overflow
mask_overflow-masked reg_1 e l u = absurd (omega arith)
mask_overflow-masked reg_8 e l u = refl
mask_overflow-masked reg_16 e l u = refl
mask_overflow-masked reg_32 e l u = refl
mask_overflow-masked reg_64 e l u = absurd (omega arith)

pub parity_of_eight :
    (a b c0 c1 c2 c3 c4 c5 : ℕ)
    → bit_xor (bit_xor (bit_xor a b) (bit_xor c0 c1)) (bit_xor (bit_xor c2 c3) (bit_xor c4 c5)) % 2
      ≡ (a + b + c0 + c1 + c2 + c3 + c4 + c5) % 2
parity_of_eight a b c0 c1 c2 c3 c4 c5 = omega (
  arith,
  bit_xor-parity (bit_xor (bit_xor a b) (bit_xor c0 c1)) (bit_xor (bit_xor c2 c3) (bit_xor c4 c5)),
  bit_xor-parity (bit_xor a b) (bit_xor c0 c1),
  bit_xor-parity (bit_xor c2 c3) (bit_xor c4 c5),
  bit_xor-parity a b,
  bit_xor-parity c0 c1,
  bit_xor-parity c2 c3,
  bit_xor-parity c4 c5,
)

pub borrow-digit :
    (t : RegT) (x y : ℕ)
    → 8 ≤ reg_to_bits t
    → x < 2 ^ reg_to_bits t
    → y < 2 ^ reg_to_bits t
    → (16 == (difference (reg_to_bits t) x y / 16 + x / 16 + y / 16) % 2 * 16)
      ≡ ltb (x % 16) (y % 16)
borrow-digit reg_1 x y l p q = absurd (omega arith)
borrow-digit reg_8 x y l p q = ground arith
borrow-digit reg_16 x y l p q = ground arith
borrow-digit reg_32 x y l p q = ground arith
borrow-digit reg_64 x y l p q = ground arith

borrow-eq :
    (t : RegT) (x y : ℕ)
    → 8 ≤ reg_to_bits t
    → reg_to_bits t ≤ 32
    → x < 2 ^ reg_to_bits t
    → y < 2 ^ reg_to_bits t
    → (16 == bit_and 16 (bit_xor (difference (reg_to_bits t) x y) (bit_xor x y)))
      ≡ ltb (x % 16) (y % 16)
borrow-eq t x y l u p q =
    let r = difference (reg_to_bits t) x y in
    let bit : bit_xor r (bit_xor x y) / 16 % 2 ≡ (r / 16 + x / 16 + y / 16) % 2 = omega (
      arith,
      bit_xor-sixteen r (bit_xor x y),
      bit_xor-sixteen x y,
      bit_xor-parity (r / 16) (bit_xor x y / 16),
      bit_xor-parity (x / 16) (y / 16),
    ) in
    rw (bit_and-sixteen (bit_xor r (bit_xor x y)), bit) (borrow-digit t x y l p q)

-- The number of ones in a byte.
abbrev pub ones : ℕ → ℕ
ones x =
    x % 2 + x / 2 % 2 + x / 4 % 2 + x / 8 % 2 + x / 16 % 2 + x / 32 % 2 + x / 64 % 2 + x / 128 % 2

module _ (env : Env) where
  pub difference_lem :
      (t : RegT) (a b : Exp) (x y : ℕ)
      → 8 ≤ reg_to_bits t
      → reg_to_bits t ≤ 32
      → x < 2 ^ reg_to_bits t
      → y < 2 ^ reg_to_bits t
      → eval env a ≡ some (val reg_32 x)
      → eval env b ≡ some (val reg_32 y)
      → eval env (masked t (ex_sub a b)) ≡ some (val reg_32 (difference (reg_to_bits t) x y))
  unfolding eval
  difference_lem reg_1 a b x y l u p q ha hb = absurd (omega arith)
  difference_lem reg_8 a b x y l u p q ha hb =
      rw (ha, hb, bit_and-mask 8 ((x + (2 ^ 32 - y % 2 ^ 32)) % 2 ^ 32)) (ground arith)
  difference_lem reg_16 a b x y l u p q ha hb =
      rw (ha, hb, bit_and-mask 16 ((x + (2 ^ 32 - y % 2 ^ 32)) % 2 ^ 32)) (ground arith)
  difference_lem reg_32 a b x y l u p q ha hb = rw (ha, hb) (ground arith)
  difference_lem reg_64 a b x y l u p q ha hb = absurd (omega arith)

  narrow-eval :
      (t : RegT) (e : Exp) (x : ℕ)
      → 8 ≤ reg_to_bits t
      → reg_to_bits t ≤ 32
      → x < 2 ^ reg_to_bits t
      → eval env e ≡ some (val reg_32 x)
      → eval env (narrow32 e t) ≡ some (val t x)
  unfolding eval
  narrow-eval reg_1 e x l u p h = absurd (omega arith)
  narrow-eval reg_8 e x l u p h = rw h (ground arith)
  narrow-eval reg_16 e x l u p h = rw h (ground arith)
  narrow-eval reg_32 e x l u p h = h
  narrow-eval reg_64 e x l u p h = absurd (omega arith)

  pub top_bit :
      (t : RegT) (e : Exp) (x : ℕ)
      → 8 ≤ reg_to_bits t
      → x < 2 ^ reg_to_bits t
      → eval env e ≡ some (val t x)
      → eval env (ex_h_cast e reg_1) ≡ some (val reg_1 (as_flag (leb (2 ^ (reg_to_bits t - 1)) x)))
  unfolding eval
  top_bit reg_1 e x l p h = absurd (omega arith)
  top_bit reg_8 e x l p h = rw h (ground arith)
  top_bit reg_16 e x l p h = rw h (ground arith)
  top_bit reg_32 e x l p h = rw h (ground arith)
  top_bit reg_64 e x l p h = rw h (ground arith)

  pub sign_lem :
      (t : RegT) (e : Exp) (x : ℕ)
      → 8 ≤ reg_to_bits t
      → reg_to_bits t ≤ 32
      → x < 2 ^ reg_to_bits t
      → eval env e ≡ some (val reg_32 x)
      → eval env (ex_h_cast (narrow32 e t) reg_1)
        ≡ some (val reg_1 (as_flag (leb (2 ^ (reg_to_bits t - 1)) x)))
  sign_lem t e x l u p h = top_bit t (narrow32 e t) x l p (narrow-eval t e x l u p h)

  pub signed_less :
      (t : RegT) (a b : Exp) (x y : ℕ)
      → eval env a ≡ some (val t x)
      → eval env b ≡ some (val t y)
      → eval env (ex_slt a b)
        ≡ some (val reg_1 (as_flag (lt_ℤ (signed (reg_to_bits t) x) (signed (reg_to_bits t) y))))
  unfolding eval
  signed_less t a b x y ha hb = rw (ha, hb, same_reg_refl t) refl

  pub xor-eval :
      (a b : Exp) (p q : Bool)
      → eval env a ≡ some (val reg_1 (as_flag p))
      → eval env b ≡ some (val reg_1 (as_flag q))
      → eval env (ex_xor a b)
        ≡ some (val reg_1 (as_flag (if p then (if q then false else true) else q)))
  unfolding eval
  xor-eval a b p q ha hb = rw (ha, hb, xor_flags p q) refl

  pub overflow_lem :
      (t : RegT) (e a b : Exp) (x y : ℕ)
      → 8 ≤ reg_to_bits t
      → reg_to_bits t ≤ 32
      → x < 2 ^ reg_to_bits t
      → y < 2 ^ reg_to_bits t
      → eval env e ≡ some (val reg_32 (difference (reg_to_bits t) x y))
      → eval env a ≡ some (val reg_32 x)
      → eval env b ≡ some (val reg_32 y)
      → eval env (ex_xor (ex_h_cast (narrow32 e t) reg_1) (ex_slt (narrow32 a t) (narrow32 b t)))
        ≡ some (val reg_1 (as_flag (overflows (reg_to_bits t) x y)))
  overflow_lem t e a b x y l u p q he ha hb =
      let w = reg_to_bits t in
      xor-eval (ex_h_cast (narrow32 e t) reg_1) (ex_slt (narrow32 a t) (narrow32 b t))
        (leb (2 ^ (w - 1)) (difference w x y)) (ltb (biased w x) (biased w y))
        (sign_lem t e (difference w x y) l u (mod-lt _ (two_pow_pos w)) he)
        (rw⁻¹ (signed_order t x y l p q) (
          signed_less t (narrow32 a t) (narrow32 b t) x y (narrow-eval t a x l u p ha)
            (narrow-eval t b y l u q hb)))
      ∙ ap (λ b. some (val reg_1 (as_flag b))) (overflow-eq t x y l p q)

  pub parity_lem :
      (e : Exp) (x : ℕ)
      → x < 2 ^ 8
      → eval env e ≡ some (val reg_8 x)
      → eval env (calc_cond_pf e) ≡ some (val reg_1 (as_flag (ones x % 2 == 0)))
  unfolding eval
  parity_lem e x small h =
      let digits =
        parity_of_eight (x / 128 % 256) (x / 64 % 256) (x / 32 % 256) (x / 16 % 256) (x / 8 % 256)
          (x / 4 % 256) (x / 2 % 256) x in
      rw h (ap (λ (n : ℕ). some (val reg_1 n)) (ground (arith, digits)))

  -- The lowest hexadecimal digit of the difference takes a borrow.
  pub borrow_lem :
      (t : RegT) (e a b : Exp) (x y : ℕ)
      → 8 ≤ reg_to_bits t
      → reg_to_bits t ≤ 32
      → x < 2 ^ reg_to_bits t
      → y < 2 ^ reg_to_bits t
      → eval env e ≡ some (val reg_32 (difference (reg_to_bits t) x y))
      → eval env a ≡ some (val reg_32 x)
      → eval env b ≡ some (val reg_32 y)
      → eval env (cond_af e a b) ≡ some (val reg_1 (as_flag (ltb (x % 16) (y % 16))))
  unfolding eval
  borrow_lem t e a b x y l u p q he ha hb =
      rw (he, ha, hb) (ap (λ b. some (val reg_1 (as_flag b))) (borrow-eq t x y l u p q))

pub low_byte :
    (env : Env) (e : Exp) (r : ℕ)
    → eval env e ≡ some (val reg_32 r)
    → eval env (ex_l_cast e reg_8) ≡ some (val reg_8 (r % 2 ^ 8))
unfolding eval
low_byte env e r h = rw h refl

pub less :
    (env : Env) (a b : Exp) (x y : ℕ)
    → eval env a ≡ some (val reg_32 x)
    → eval env b ≡ some (val reg_32 y)
    → eval env (ex_lt a b) ≡ some (val reg_1 (as_flag (ltb x y)))
unfolding eval
less env a b x y ha hb = rw (ha, hb) refl

pub is_zero :
    (env : Env) (e : Exp) (r : ℕ)
    → eval env e ≡ some (val reg_32 r)
    → eval env (ex_eq e (c_of 0)) ≡ some (val reg_1 (as_flag (r == 0)))
unfolding eval
is_zero env e r h = rw h refl
