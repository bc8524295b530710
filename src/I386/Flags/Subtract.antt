-- ===== src/I386/Flags/Subtract.antt =====
-- `mod_eflags_sub` sets the flags as the processor does after a subtraction or comparison.
use native.Mathlib.Nat.{mod-lt}
use fuzzball.I386.Flags.{cond_af, narrow32, set_flag}
use fuzzball.I386.Flags.Arithmetic.{mod_eflags_sub}
use fuzzball.I386.Flags.Compare.{
  as_flag, borrow_lem, difference, difference_lem, less, mask_overflow-masked, masked, overflow_lem,
  overflows, sign_lem,
}
use fuzzball.I386.Flags.Result.{AreSet, argument-Keeps, narrow-fits, res, result_lem, result_stmts}
use fuzzball.I386.Flags.Run.{IsFrame, IsFrame-refl, Keeps, fresh, temp-Keeps}
use fuzzball.Ir.Build.{ex_h_cast, ex_lt, ex_slt, ex_sub, ex_xor}
use fuzzball.Ir.Eval.{Env}
use fuzzball.Ir.Types.{Exp, RegT, reg_1, reg_32, reg_to_bits}
use fuzzball.Ir.Words.{two_pow_pos}
use fuzzball.Prelude.{List, leb, ltb, refl, some, ℕ, ◌%◌, ◌+◌, ◌-◌, ◌<◌, ◌^◌, ◌≡◌, ◌≤◌}
use fuzzball.Stmt.{Decimal, Out, Stmt}
use fuzzball.Stmt.Emit.{mk_temp}
use fuzzball.Stmt.Exec.{exec}

-- The flags of the subtraction of two words of width `w`: borrow, even parity of the lowest byte, borrow of the
-- lowest hexadecimal digit, zero, sign, and signed overflow.
abbrev pub IsCompared : ℕ → ℕ → ℕ → Env → Type 0
IsCompared w x y =
    AreSet (as_flag (ltb x y)) (difference w x y) (as_flag (ltb (x % 16) (y % 16)))
      (as_flag (leb (2 ^ (w - 1)) (difference w x y))) (as_flag (overflows w x y))

abbrev sub_stmts : Decimal → ℕ → RegT → Exp → Exp → List Stmt
sub_stmts d k t a b =
    let e = res d k in
    let cond_sf = ex_h_cast (narrow32 e t) reg_1 in
    result_stmts d k (masked t (ex_sub a b)) (ex_lt a b) (cond_af e a b) cond_sf
      (ex_xor cond_sf (ex_slt (narrow32 a t) (narrow32 b t)))

sub-emits :
    (d : Decimal) (k : ℕ) (t : RegT) (a b : Exp)
    → 8 ≤ reg_to_bits t
    → reg_to_bits t ≤ 32
    → mod_eflags_sub d t a b (fresh k)
      ≡ some (tt, record { stmts = sub_stmts d k t a b; temp_counter = k + 1 + 1 })
unfolding mod_eflags_sub mk_temp set_flag
sub-emits d k t a b l u = rw (mask_overflow-masked t (ex_sub a b) l u) refl

-- Where the two arguments have the values `x` and `y` of the width of the type, which is 8, 16 or 32 bits,
-- whatever the flags and new temporaries hold, `mod_eflags_sub` succeeds, the statements that it returns
-- run, they change no variable but the flags and new temporaries, and they leave in all six flags what a
-- subtraction sets: borrow, parity, borrow of the lowest digit, zero, sign and signed overflow.
pub mod_eflags_sub_lem :
    (d : Decimal) (k : ℕ) (t : RegT) (a b : Exp) (x y : ℕ) (env : Env)
    → 8 ≤ reg_to_bits t
    → reg_to_bits t ≤ 32
    → x < 2 ^ reg_to_bits t
    → y < 2 ^ reg_to_bits t
    → Keeps d k env a reg_32 x
    → Keeps d k env b reg_32 y
    → (o : Out) × (env' : Env) × (mod_eflags_sub d t a b (fresh k) ≡ some (tt, o))
      × (exec o.stmts env ≡ some env')
      × IsFrame d k env env'
      × IsCompared (reg_to_bits t) x y env'
mod_eflags_sub_lem d k t a b x y env l u p q ka kb =
    let w = reg_to_bits t in
    let r = difference w x y in
    let bound : r < 2 ^ w = mod-lt _ (two_pow_pos w) in
    let small : r < 2 ^ 32 = narrow-fits t r u bound in
    let kr = temp-Keeps d k r reg_32 env small in
    let ka' = argument-Keeps d k a x r env ka in
    let kb' = argument-Keeps d k b y r env kb in
    let e = res d k in
    let here = IsFrame-refl d k env in
    let cond_sf = ex_h_cast (narrow32 e t) reg_1 in
    let (env', runs, frame, flags) =
      result_lem d k env r (as_flag (ltb x y)) (as_flag (ltb (x % 16) (y % 16)))
        (as_flag (leb (2 ^ (w - 1)) r)) (as_flag (overflows w x y)) (masked t (ex_sub a b))
        (ex_lt a b) (cond_af e a b) cond_sf (ex_xor cond_sf (ex_slt (narrow32 a t) (narrow32 b t)))
        small (difference_lem env t a b x y l u p q (ka env here) (kb env here))
        (λ s f. less s a b x y (ka' s f) (kb' s f))
        (λ s f. borrow_lem s t e a b x y l u p q (kr s f) (ka' s f) (kb' s f))
        (λ s f. sign_lem s t e r l u bound (kr s f))
        (λ s f. overflow_lem s t e a b x y l u p q (kr s f) (ka' s f) (kb' s f)) in
    (
      record { stmts = sub_stmts d k t a b; temp_counter = k + 1 + 1 },
      env',
      sub-emits d k t a b l u,
      runs,
      frame,
      flags,
    )
