-- ===== src/I386/Flags/Logic.antt =====
-- The flags of logical operations.
use fuzzball.I386.Flags.{c_type_size_less_1, low_bit_set, mod_eflags_logic, set_flag}
use fuzzball.I386.Flags.Compare.{as_flag, is_zero, low_byte, ones, parity_lem}
use fuzzball.I386.Flags.Run.{
  IsFrame, IsFrame-refl, IsFrame-trans, Keeps, Runs-exec, assign-other, assign_temp-IsFrame,
  assigned, declared, done, fresh, reg-ne-temp, set-IsFrame, temp-Keeps,
}
use fuzzball.Ir.Build.{ex_shr}
use fuzzball.Ir.Eval.{Env, assign, eval, val}
use fuzzball.Ir.Types.{Exp, RegT, reg_1, reg_16, reg_32, reg_64, reg_8, reg_to_bits, temp}
use fuzzball.Prelude.{arith, leb, refl, some, ℕ, ◌%◌, ◌+◌, ◌-◌, ◌/◌, ◌<◌, ◌==◌, ◌^◌, ◌≡◌, ◌≤◌}
use fuzzball.Prelude.Digits.{bit_and-one}
use fuzzball.Stmt.{Decimal, Out}
use fuzzball.Stmt.Emit.{mk_temp, temp_name}
use fuzzball.Stmt.Exec.{exec}

-- The flags of a logical operation with the result `x`.
pub record AreLogical (w x : ℕ) (env : Env) : Type 0 where
  pub carry : env.var "R_CF" ≡ 0
  pub parity : env.var "R_PF" ≡ as_flag (ones (x % 2 ^ 8) % 2 == 0)
  pub adjust : env.var "R_AF" ≡ 0
  pub zero_flag : env.var "R_ZF" ≡ as_flag (x == 0)
  pub sign : env.var "R_SF" ≡ as_flag (leb (2 ^ (w - 1)) x)
  pub overflow : env.var "R_OF" ≡ 0

-- The sign as the source computes it elsewhere, by a shift.
pub sign-eval :
    (env : Env) (t : RegT) (e : Exp) (x : ℕ)
    → 8 ≤ reg_to_bits t
    → reg_to_bits t ≤ 32
    → x < 2 ^ reg_to_bits t
    → eval env e ≡ some (val reg_32 x)
    → eval env (low_bit_set (ex_shr e (c_type_size_less_1 t)))
      ≡ some (val reg_1 (as_flag (leb (2 ^ (reg_to_bits t - 1)) x)))
unfolding eval
sign-eval env reg_1 e x l u p h = absurd (omega arith)
sign-eval env reg_8 e x l u p h = rw (h, bit_and-one (x / 2 ^ 7 % 2 ^ 32)) (ground arith)
sign-eval env reg_16 e x l u p h = rw (h, bit_and-one (x / 2 ^ 15 % 2 ^ 32)) (ground arith)
sign-eval env reg_32 e x l u p h = rw (h, bit_and-one (x / 2 ^ 31 % 2 ^ 32)) (ground arith)
sign-eval env reg_64 e x l u p h = absurd (omega arith)

-- Where the result has the value `x` of the width of the type, which is 8, 16 or 32 bits, whatever the flags and
-- new temporaries hold, the statements of `mod_eflags_logic` run, they change no variable but the flags and a
-- new temporary, and they clear the carry, adjust and overflow flags and set parity, zero and sign by `x`.
pub mod_eflags_logic_lem :
    (d : Decimal) (k : ℕ) (t : RegT) (a b : Exp) (x : ℕ) (env : Env)
    → 8 ≤ reg_to_bits t
    → reg_to_bits t ≤ 32
    → x < 2 ^ reg_to_bits t
    → Keeps d k env a reg_32 x
    → (o : Out) × (env' : Env) × (mod_eflags_logic d t a b (fresh k) ≡ some (tt, o))
      × (exec o.stmts env ≡ some env')
      × IsFrame d k env env'
      × AreLogical (reg_to_bits t) x env'
unfolding mod_eflags_logic mk_temp set_flag eval
mod_eflags_logic_lem d k t a b x env l u p ka =
    let small : x % 2 ^ 8 < 2 ^ reg_to_bits reg_8 = omega arith in
    let env1 : Env = assign "R_CF" 0 env in
    let env2 : Env = assign (temp_name d k) (x % 2 ^ 8) env1 in
    let env3 : Env = assign "R_PF" (as_flag (ones (x % 2 ^ 8) % 2 == 0)) env2 in
    let env4 : Env = assign "R_AF" 0 env3 in
    let env5 : Env = assign "R_ZF" (as_flag (x == 0)) env4 in
    let env6 : Env = assign "R_SF" (as_flag (leb (2 ^ (reg_to_bits t - 1)) x)) env5 in
    let env7 : Env = assign "R_OF" 0 env6 in
    let f1 : IsFrame d k env env1 = set-IsFrame d "R_CF" _ refl (IsFrame-refl d k env) in
    let f2 : IsFrame d k env env2 =
      IsFrame-trans d (omega arith) f1 (assign_temp-IsFrame d k (x % 2 ^ 8) env1) in
    let f3 : IsFrame d k env env3 = set-IsFrame d "R_PF" _ refl f2 in
    let f4 : IsFrame d k env env4 = set-IsFrame d "R_AF" _ refl f3 in
    let f5 : IsFrame d k env env5 = set-IsFrame d "R_ZF" _ refl f4 in
    let f6 : IsFrame d k env env6 = set-IsFrame d "R_SF" _ refl f5 in
    let byte_read =
      temp-Keeps d k (x % 2 ^ 8) reg_8 env1 small env2 (IsFrame-refl d (k + 1) env2) in
    (
      _,
      env7,
      refl,
      Runs-exec (
          assigned refl (
            declared (
              assigned (low_byte env1 a x (ka env1 f1)) (
                assigned (parity_lem env2 (temp reg_8 (temp_name d k)) (x % 2 ^ 8) small byte_read)
                  (assigned refl (
                    assigned (is_zero env4 a x (ka env4 f4)) (
                      assigned (sign-eval env5 t a x l u p (ka env5 f5))
                        (assigned refl done)))))))),
      set-IsFrame d "R_OF" _ refl f6,
      record {
        carry =
            assign-other "R_CF" (temp_name d k) (x % 2 ^ 8) env1
              (reg-ne-temp "CF" (d.int_to_str k));
        parity = refl;
        adjust = refl;
        zero_flag = refl;
        sign = refl;
        overflow = refl;
      },
    )
