-- ===== src/I386/Flags/Sum.antt =====
-- `mod_eflags_add` sets the flags as the processor does after an addition.
use native.Mathlib.Nat.{mod-lt}
use fuzzball.I386.Flags.{c_type_size_less_1, cond_af, low_bit_set, set_flag}
use fuzzball.I386.Flags.Add.{
  adjust_lem, carry_lem, sum_lem, sum_of, sum_overflow_lem, sum_overflows,
}
use fuzzball.I386.Flags.Arithmetic.{cond_of_add, mod_eflags_add}
use fuzzball.I386.Flags.Compare.{as_flag, mask_overflow-masked, masked}
use fuzzball.I386.Flags.Logic.{sign-eval}
use fuzzball.I386.Flags.Result.{AreSet, argument-Keeps, narrow-fits, res, result_lem, result_stmts}
use fuzzball.I386.Flags.Run.{IsFrame, IsFrame-refl, Keeps, fresh, temp-Keeps}
use fuzzball.Ir.Build.{ex_add, ex_lt, ex_shr}
use fuzzball.Ir.Eval.{Env}
use fuzzball.Ir.Types.{Exp, RegT, reg_32, reg_to_bits}
use fuzzball.Ir.Words.{two_pow_pos}
use fuzzball.Prelude.{List, leb, refl, some, ℕ, ◌%◌, ◌+◌, ◌-◌, ◌<◌, ◌^◌, ◌≡◌, ◌≤◌}
use fuzzball.Stmt.{Decimal, Out, Stmt}
use fuzzball.Stmt.Emit.{mk_temp}
use fuzzball.Stmt.Exec.{exec}

-- The flags of the addition of two words of width `w`: carry, even parity of the lowest byte, carry of the lowest
-- hexadecimal digit, zero, sign, and signed overflow.
abbrev pub AreAdded : ℕ → ℕ → ℕ → Env → Type 0
AreAdded w x y =
    AreSet (as_flag (leb (2 ^ w) (x + y))) (sum_of w x y) (as_flag (leb 16 (x % 16 + y % 16)))
      (as_flag (leb (2 ^ (w - 1)) (sum_of w x y))) (as_flag (sum_overflows w x y))

abbrev add_stmts : Decimal → ℕ → RegT → Exp → Exp → List Stmt
add_stmts d k t a b =
    let e = res d k in
    result_stmts d k (masked t (ex_add a b)) (ex_lt e a) (cond_af e a b)
      (low_bit_set (ex_shr e (c_type_size_less_1 t))) (cond_of_add t e a b)

add-emits :
    (d : Decimal) (k : ℕ) (t : RegT) (a b : Exp)
    → 8 ≤ reg_to_bits t
    → reg_to_bits t ≤ 32
    → mod_eflags_add d t a b (fresh k)
      ≡ some (tt, record { stmts = add_stmts d k t a b; temp_counter = k + 1 + 1 })
unfolding mod_eflags_add mk_temp set_flag
add-emits d k t a b l u = rw (mask_overflow-masked t (ex_add a b) l u) refl

-- Where the two arguments have the values `x` and `y` of the width of the type, which is 8, 16 or 32 bits,
-- whatever the flags and new temporaries hold, `mod_eflags_add` succeeds, the statements that it returns
-- run, they change no variable but the flags and new temporaries, and they leave in all six flags what an
-- addition sets: carry, parity, carry of the lowest digit, zero, sign and signed overflow.
pub mod_eflags_add_lem :
    (d : Decimal) (k : ℕ) (t : RegT) (a b : Exp) (x y : ℕ) (env : Env)
    → 8 ≤ reg_to_bits t
    → reg_to_bits t ≤ 32
    → x < 2 ^ reg_to_bits t
    → y < 2 ^ reg_to_bits t
    → Keeps d k env a reg_32 x
    → Keeps d k env b reg_32 y
    → (o : Out) × (env' : Env) × (mod_eflags_add d t a b (fresh k) ≡ some (tt, o))
      × (exec o.stmts env ≡ some env')
      × IsFrame d k env env'
      × AreAdded (reg_to_bits t) x y env'
mod_eflags_add_lem d k t a b x y env l u p q ka kb =
    let w = reg_to_bits t in
    let r = sum_of w x y in
    let bound : r < 2 ^ w = mod-lt _ (two_pow_pos w) in
    let small : r < 2 ^ 32 = narrow-fits t r u bound in
    let kr = temp-Keeps d k r reg_32 env small in
    let ka' = argument-Keeps d k a x r env ka in
    let kb' = argument-Keeps d k b y r env kb in
    let e = res d k in
    let here = IsFrame-refl d k env in
    let (env', runs, frame, flags) =
      result_lem d k env r (as_flag (leb (2 ^ w) (x + y))) (as_flag (leb 16 (x % 16 + y % 16)))
        (as_flag (leb (2 ^ (w - 1)) r)) (as_flag (sum_overflows w x y)) (masked t (ex_add a b))
        (ex_lt e a) (cond_af e a b) (low_bit_set (ex_shr e (c_type_size_less_1 t)))
        (cond_of_add t e a b) small (sum_lem env t a b x y l u (ka env here) (kb env here))
        (λ s f. carry_lem s t e a x y l u p q (kr s f) (ka' s f))
        (λ s f. adjust_lem s t e a b x y l u (kr s f) (ka' s f) (kb' s f))
        (λ s f. sign-eval s t e r l u bound (kr s f))
        (λ s f. sum_overflow_lem s t e a b x y l u p q (kr s f) (ka' s f) (kb' s f)) in
    (
      record { stmts = add_stmts d k t a b; temp_counter = k + 1 + 1 },
      env',
      add-emits d k t a b l u,
      runs,
      frame,
      flags,
    )
