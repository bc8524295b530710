-- ===== src/Simplify.antt =====
-- libasmir/src/ir/const_simplify_exp.cpp: the rewrite rules R1 to R20 that bring sums and products into a
-- canonical form. The tree a rule changes in place is its result here.
pub mod Algebra
pub mod Folding
pub mod Meaning
pub mod Modular
pub mod Rules
use fuzzball.Ir.Types.{Exp, RegT, bin_op, cast_value, constant, minus, plus, reg_to_bits, times}
use fuzzball.Prelude.{Bool, if◌then◌else◌, ltb, ℕ, ◌%◌, ◌*◌, ◌+◌, ◌-◌, ◌^◌}

-- What a rule does with an expression. `undefined` is the use of a pointer that was never set: R9, R10
-- and R11 start with `BinOp *lhs = (BinOp *) lhs`.
pub data Outcome : Type 0 where
  unchanged : Outcome
  changed : Exp → Outcome
  undefined : Outcome

-- The sums of the source are sums of `uint64_t`.
unfoldable pub add_constant : ℕ → ℕ → RegT → Exp
add_constant c1 c2 t = constant t (cast_value t ((c1 + c2) % 2 ^ 64))

unfoldable pub mul_constant : ℕ → ℕ → RegT → Exp
mul_constant c1 c2 t = constant t (cast_value t (c1 * c2 % 2 ^ 64))

unfoldable pub sub_constant : ℕ → ℕ → RegT → Exp
sub_constant c1 c2 t = constant t (cast_value t ((c1 + (2 ^ 64 - c2 % 2 ^ 64)) % 2 ^ 64))

-- The wider of two types, the second where they are the same.
unfoldable pub ret_type : RegT → RegT → RegT
ret_type t1 t2 = if ltb (reg_to_bits t2) (reg_to_bits t1) then t1 else t2

unfoldable pub r1_r3_r5 : Exp → Outcome
r1_r3_r5 (bin_op plus (constant t1 c1) (constant t2 c2)) =
    changed (add_constant c1 c2 (ret_type t1 t2))
r1_r3_r5 (bin_op times (constant t1 c1) (constant t2 c2)) =
    changed (mul_constant c1 c2 (ret_type t1 t2))
r1_r3_r5 (bin_op minus (constant t1 c1) (constant t2 c2)) =
    changed (sub_constant c1 c2 (ret_type t1 t2))
r1_r3_r5 _ = unchanged

-- A constant goes to the left. R6 negates it as a 64-bit number, whatever its type.
unfoldable pub r2_r4_r6 : Exp → Outcome
r2_r4_r6 (bin_op _ (constant _ _) (constant _ _)) = unchanged
r2_r4_r6 (bin_op plus a (constant t c)) = changed (bin_op plus (constant t c) a)
r2_r4_r6 (bin_op times a (constant t c)) = changed (bin_op times (constant t c) a)
r2_r4_r6 (bin_op minus a (constant t c)) =
    changed (bin_op plus (constant t ((2 ^ 64 - c % 2 ^ 64) % 2 ^ 64)) a)
r2_r4_r6 _ = unchanged

-- Reassociation.
unfoldable pub R7 : Exp → Outcome
R7 (bin_op plus t1 (bin_op plus t2 t3)) = changed (bin_op plus (bin_op plus t1 t2) t3)
R7 _ = unchanged

unfoldable pub R8 : Exp → Outcome
R8 (bin_op times t1 (bin_op times t2 t3)) = changed (bin_op times (bin_op times t1 t2) t3)
R8 _ = unchanged

unfoldable pub R9 : Exp → Outcome
R9 (bin_op plus (bin_op _ _ _) (constant _ _)) = undefined
R9 _ = unchanged

unfoldable pub R10 : Exp → Outcome
R10 (bin_op times (bin_op _ _ _) (constant _ _)) = undefined
R10 _ = unchanged

unfoldable pub R11 : Exp → Outcome
R11 (bin_op times (bin_op _ _ _) (constant _ _)) = undefined
R11 _ = unchanged

-- Distribution of a product over a sum or a difference.
unfoldable pub R12 : Exp → Outcome
R12 (bin_op times (constant t1 c1) (bin_op plus (constant t2 c2) a)) =
    changed (bin_op plus (mul_constant c1 c2 (ret_type t1 t2)) (bin_op times (constant t1 c1) a))
R12 _ = unchanged

unfoldable pub R13 : Exp → Outcome
R13 (bin_op times (bin_op plus t1 t2) (constant t c)) =
    changed (bin_op plus (bin_op times (constant t c) t1) (bin_op times (constant t c) t2))
R13 _ = unchanged

unfoldable pub R14 : Exp → Outcome
R14 (bin_op times (constant t c) (bin_op plus t1 t2)) =
    changed (bin_op plus (bin_op times (constant t c) t1) (bin_op times (constant t c) t2))
R14 _ = unchanged

unfoldable pub R15 : Exp → Outcome
R15 (bin_op times (bin_op minus t1 t2) (constant t c)) =
    changed (bin_op minus (bin_op times (constant t c) t1) (bin_op times (constant t c) t2))
R15 _ = unchanged

unfoldable pub R16 : Exp → Outcome
R16 (bin_op times (constant t c) (bin_op minus t1 t2)) =
    changed (bin_op minus (bin_op times (constant t c) t1) (bin_op times t2 (constant t c)))
R16 _ = unchanged

unfoldable pub R17 : Exp → Outcome
R17 (bin_op times (bin_op plus t1 t2) t3) =
    changed (bin_op plus (bin_op times t1 t3) (bin_op times t2 t3))
R17 _ = unchanged

unfoldable pub R18 : Exp → Outcome
R18 (bin_op times t1 (bin_op plus t2 t3)) =
    changed (bin_op plus (bin_op times t1 t2) (bin_op times t1 t3))
R18 _ = unchanged

unfoldable pub R19 : Exp → Outcome
R19 (bin_op times (bin_op minus t1 t2) t3) =
    changed (bin_op minus (bin_op times t1 t3) (bin_op times t2 t3))
R19 _ = unchanged

unfoldable pub R20 : Exp → Outcome
R20 (bin_op times t1 (bin_op minus t2 t3)) =
    changed (bin_op minus (bin_op times t1 t2) (bin_op times t1 t3))
R20 _ = unchanged

-- `change = change || R(ret)`: a later rule is tried only where the earlier ones did nothing.
unfoldable pub or_else : Outcome → Outcome → Outcome
or_else unchanged r = r
or_else r _ = r

-- The rules that `visitBinOp` tries, in their order, from a state in which nothing has changed.
unfoldable pub apply_rules : Exp → Outcome
apply_rules e = or_else (r1_r3_r5 e) (
    or_else (r2_r4_r6 e) (
      or_else (R7 e) (
        or_else (R8 e) (
          or_else (R9 e) (
            or_else (R10 e) (
              or_else (R11 e) (
                or_else (R12 e) (
                  or_else (R13 e) (
                    or_else (R14 e) (
                      or_else (R15 e) (
                        or_else (R16 e)
                          (or_else (R17 e) (or_else (R18 e) (or_else (R19 e) (R20 e)))))))))))))))
