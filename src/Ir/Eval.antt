-- ===== src/Ir/Eval.antt =====
-- The meaning of an expression, after the concrete domain of the execution engine
-- (execution/concrete_domain.ml). A word is a type and a number below 2^width. `none` stands for an
-- ill-typed expression, a division by zero, and what has no value as a single word (vectors, code names,
-- unknowns, phi nodes) or is floating point.
use fuzzball.Ir.Types.{
  BinopT, CastT, Exp, RegT, UnopT, arshift, bin_op, bitand, bitor, cast, cast_high, cast_low,
  cast_signed, cast_unsigned, constant, divide, eq, ge, gt, ite, le, let_in, lshift, lt, mem, minus,
  modulo, neg, neq, not, plus, reg_1, reg_to_bits, rshift, same_reg, sdivide, sle, slt, smod, temp,
  times, un_op, xor,
}
use fuzzball.Prelude.{
  Bool, Option, String, bit_and, bit_or, bit_xor, false, if◌then◌else◌, leb, ltb, none, some,
  str_eq, suc, true, zero, ℕ, ◌%◌, ◌*◌, ◌+◌, ◌-◌, ◌/◌, ◌==◌, ◌>>=◌, ◌^◌,
}
use fuzzball.Prelude.Int.{div_ℤ, le_ℤ, lt_ℤ, mod_ℤ, shift_ℤ, signed, to_word}

pub data Val : Type 0 where
  val : RegT → ℕ → Val

-- A variable is looked up by its name, memory by a type and an address.
pub record Env : Type 0 where
  pub var : String → ℕ
  pub load : RegT → ℕ → ℕ

-- A word of type `t`.
abbrev pub word : RegT → ℕ → Option Val
word t x = some (val t (x % 2 ^ reg_to_bits t))

abbrev pub flag : Bool → Option Val
flag b = some (val reg_1 (if b then 1 else 0))

-- A quotient or remainder, which a zero divisor does not have.
abbrev pub unless_zero : ℕ → Option Val → Option Val
unless_zero zero r = none
unless_zero (suc d) r = r

-- Both operands of most operations have one type.
abbrev pub if_same : RegT → RegT → Option Val → Option Val
if_same t u r = if same_reg t u then r else none

-- The amount of a shift counts modulo 256; a shift by the width or more leaves no bit.
abbrev pub shift_amount : ℕ → ℕ
shift_amount y = y % 256

-- Vine's operations on words.
abbrev pub apply_binop : BinopT → Val → Val → Option Val
apply_binop plus (val t x) (val u y) = if_same t u (word t (x + y))
apply_binop minus (val t x) (val u y) =
    if_same t u (word t (x + (2 ^ reg_to_bits t - y % 2 ^ reg_to_bits t)))
apply_binop times (val t x) (val u y) = if_same t u (word t (x * y))
apply_binop divide (val t x) (val u y) = if_same t u (unless_zero y (word t (x / y)))
apply_binop modulo (val t x) (val u y) = if_same t u (unless_zero y (word t (x % y)))
apply_binop sdivide (val t x) (val u y) =
    let w = reg_to_bits t in
    if_same t u (unless_zero y (some (val t (to_word w (div_ℤ (signed w x) (signed w y))))))
apply_binop smod (val t x) (val u y) =
    let w = reg_to_bits t in
    if_same t u (unless_zero y (some (val t (to_word w (mod_ℤ (signed w x) (signed w y))))))
apply_binop lshift (val t x) (val u y) = word t (x * 2 ^ shift_amount y)
apply_binop rshift (val t x) (val u y) = word t (x / 2 ^ shift_amount y)
apply_binop arshift (val t x) (val u y) =
    let w = reg_to_bits t in some (val t (to_word w (shift_ℤ (signed w x) (shift_amount y))))
apply_binop bitand (val t x) (val u y) = if_same t u (some (val t (bit_and x y)))
apply_binop bitor (val t x) (val u y) = if_same t u (some (val t (bit_or x y)))
apply_binop xor (val t x) (val u y) = if_same t u (some (val t (bit_xor x y)))
apply_binop eq (val t x) (val u y) = if_same t u (flag (x == y))
apply_binop neq (val t x) (val u y) = if_same t u (flag (if x == y then false else true))
apply_binop gt (val t x) (val u y) = if_same t u (flag (ltb y x))
apply_binop lt (val t x) (val u y) = if_same t u (flag (ltb x y))
apply_binop ge (val t x) (val u y) = if_same t u (flag (leb y x))
apply_binop le (val t x) (val u y) = if_same t u (flag (leb x y))
apply_binop slt (val t x) (val u y) =
    let w = reg_to_bits t in if_same t u (flag (lt_ℤ (signed w x) (signed w y)))
apply_binop sle (val t x) (val u y) =
    let w = reg_to_bits t in if_same t u (flag (le_ℤ (signed w x) (signed w y)))
apply_binop _ _ _ = none

abbrev pub apply_unop : UnopT → Val → Option Val
apply_unop neg (val t x) = word t (2 ^ reg_to_bits t - x)
apply_unop not (val t x) = some (val t (2 ^ reg_to_bits t - 1 - x))

-- A widening keeps the number or the integer; a narrowing keeps the high or the low bits.
abbrev pub apply_cast : CastT → RegT → Val → Option Val
apply_cast cast_unsigned u (val t x) =
    if leb (reg_to_bits t) (reg_to_bits u) then some (val u x) else none
apply_cast cast_signed u (val t x) =
    if leb (reg_to_bits t) (reg_to_bits u)
    then some (val u (to_word (reg_to_bits u) (signed (reg_to_bits t) x)))
    else none
apply_cast cast_high u (val t x) =
    if leb (reg_to_bits u) (reg_to_bits t)
    then some (val u (x / 2 ^ (reg_to_bits t - reg_to_bits u)))
    else none
apply_cast cast_low u (val t x) = if leb (reg_to_bits u) (reg_to_bits t) then word u x else none

-- Both branches have a value, of one type.
abbrev pub choose : Val → Val → Val → Option Val
choose (val reg_1 c) (val t x) (val u y) = if_same t u (some (val t (if c == 0 then y else x)))
choose _ _ _ = none

abbrev pub load_from : Env → RegT → Val → Option Val
load_from env t (val _ x) = word t (env.load t x)

abbrev pub assign : String → ℕ → Env → Env
assign n x env = record env { var = λ m. if str_eq m n then x else env.var m }

abbrev pub bits_of : Val → ℕ
bits_of (val t x) = x

-- The environment under a `let`, whose left side is a variable.
abbrev pub bind_var : Exp → Val → Env → Env
bind_var (temp _ n) v env = assign n (bits_of v) env
bind_var _ v env = env

unfoldable pub eval : Env → Exp → Option Val
eval env (bin_op op l r) = do a ← eval env l; b ← eval env r; apply_binop op a b
eval env (un_op op e) = eval env e >>= apply_unop op
eval env (mem e t) = eval env e >>= load_from env t
eval env (constant t v) = word t v
eval env (temp t n) = word t (env.var n)
eval env (cast e t c) = eval env e >>= apply_cast c t
eval env (let_in x e b) = do v ← eval env e; eval (bind_var x v env) b
eval env (ite c t f) = do v ← eval env c; a ← eval env t; b ← eval env f; choose v a b
eval env _ = none
