-- ===== src/I386/Flags/Copy.antt =====
-- Reading the flags from a flags word.
use Prim.Native.Nat.{min}
use fuzzball.I386.Flags.{eflags_bit, get_eflags_bits, mod_eflags_copy}
use fuzzball.I386.Flags.Run.{
  IsFrame, IsFrame-refl, Keeps, Runs-exec, assigned, done, fresh, set-IsFrame,
}
use fuzzball.Ir.Eval.{Env, assign, eval, val}
use fuzzball.Ir.Types.{Exp, RegT, reg_1, reg_32}
use fuzzball.Prelude.{ap, arith, bit_and, refl, some, ℕ, ◌%◌, ◌/◌, ◌<◌, ◌^◌, ◌∙◌, ◌≡◌}
use fuzzball.Prelude.Digits.{bit_and-at}
use fuzzball.Stmt.{Decimal, Out}
use fuzzball.Stmt.Exec.{exec}

-- The flags are the bits of the word at the positions that the processor gives them.
pub record AreBits (x : ℕ) (env : Env) : Type 0 where
  pub bit_0 : env.var "R_CF" ≡ x % 2
  pub bit_2 : env.var "R_PF" ≡ x / 2 ^ 2 % 2
  pub bit_4 : env.var "R_AF" ≡ x / 2 ^ 4 % 2
  pub bit_6 : env.var "R_ZF" ≡ x / 2 ^ 6 % 2
  pub bit_7 : env.var "R_SF" ≡ x / 2 ^ 7 % 2
  pub bit_11 : env.var "R_OF" ≡ x / 2 ^ 11 % 2

-- Masking and shifting down.
masked_bit :
    (k x : ℕ)
    → min (x / 2 ^ k % 2) (2 ^ k / 2 ^ k % 2) ≡ x / 2 ^ k % 2
    → bit_and x (2 ^ k) / 2 ^ k % 2 ≡ x / 2 ^ k % 2
masked_bit k x h = bit_and-at k x (2 ^ k) ∙ h

module _ (env : Env) (e : Exp) (x : ℕ) (small : x < 2 ^ 32)
    (h : eval env e ≡ some (val reg_32 x)) where
  bit_0-eval : eval env (eflags_bit e 1 0) ≡ some (val reg_1 (x % 2))
  unfolding eval
  bit_0-eval =
      rw h (ap (λ (n : ℕ). some (val reg_1 n)) (omega (arith, masked_bit 0 x (omega arith))))

  bit_2-eval : eval env (eflags_bit e (2 ^ 2) 2) ≡ some (val reg_1 (x / 2 ^ 2 % 2))
  unfolding eval
  bit_2-eval =
      rw h (ap (λ (n : ℕ). some (val reg_1 n)) (omega (arith, masked_bit 2 x (omega arith))))

  bit_4-eval : eval env (eflags_bit e (2 ^ 4) 4) ≡ some (val reg_1 (x / 2 ^ 4 % 2))
  unfolding eval
  bit_4-eval =
      rw h (ap (λ (n : ℕ). some (val reg_1 n)) (omega (arith, masked_bit 4 x (omega arith))))

  bit_6-eval : eval env (eflags_bit e (2 ^ 6) 6) ≡ some (val reg_1 (x / 2 ^ 6 % 2))
  unfolding eval
  bit_6-eval =
      rw h (ap (λ (n : ℕ). some (val reg_1 n)) (omega (arith, masked_bit 6 x (omega arith))))

  bit_7-eval : eval env (eflags_bit e (2 ^ 7) 7) ≡ some (val reg_1 (x / 2 ^ 7 % 2))
  unfolding eval
  bit_7-eval =
      rw h (ap (λ (n : ℕ). some (val reg_1 n)) (omega (arith, masked_bit 7 x (omega arith))))

  bit_11-eval : eval env (eflags_bit e (2 ^ 11) 11) ≡ some (val reg_1 (x / 2 ^ 11 % 2))
  unfolding eval
  bit_11-eval =
      rw h (ap (λ (n : ℕ). some (val reg_1 n)) (omega (arith, masked_bit 11 x (omega arith))))

-- Where the flags word has the value `x` whatever the flags and new temporaries hold, the statements of
-- `mod_eflags_copy` run, they change no variable but the flags, and they set each flag to its bit of `x`.
pub mod_eflags_copy_lem :
    (d : Decimal) (k : ℕ) (t : RegT) (a b : Exp) (x : ℕ) (env : Env)
    → x < 2 ^ 32
    → Keeps d k env a reg_32 x
    → (o : Out) × (env' : Env) × (mod_eflags_copy t a b (fresh k) ≡ some (tt, o))
      × (exec o.stmts env ≡ some env')
      × IsFrame d k env env'
      × AreBits x env'
unfolding mod_eflags_copy get_eflags_bits
mod_eflags_copy_lem d k t a b x env small ka =
    let env1 : Env = assign "R_CF" (x % 2) env in
    let env2 : Env = assign "R_PF" (x / 2 ^ 2 % 2) env1 in
    let env3 : Env = assign "R_AF" (x / 2 ^ 4 % 2) env2 in
    let env4 : Env = assign "R_ZF" (x / 2 ^ 6 % 2) env3 in
    let env5 : Env = assign "R_SF" (x / 2 ^ 7 % 2) env4 in
    let env6 : Env = assign "R_OF" (x / 2 ^ 11 % 2) env5 in
    let f0 : IsFrame d k env env = IsFrame-refl d k env in
    let f1 : IsFrame d k env env1 = set-IsFrame d "R_CF" _ refl f0 in
    let f2 : IsFrame d k env env2 = set-IsFrame d "R_PF" _ refl f1 in
    let f3 : IsFrame d k env env3 = set-IsFrame d "R_AF" _ refl f2 in
    let f4 : IsFrame d k env env4 = set-IsFrame d "R_ZF" _ refl f3 in
    let f5 : IsFrame d k env env5 = set-IsFrame d "R_SF" _ refl f4 in
    (
      _,
      env6,
      refl,
      Runs-exec (
          assigned (bit_0-eval env a x small (ka env f0)) (
            assigned (bit_2-eval env1 a x small (ka env1 f1)) (
              assigned (bit_4-eval env2 a x small (ka env2 f2)) (
                assigned (bit_6-eval env3 a x small (ka env3 f3)) (
                  assigned (bit_7-eval env4 a x small (ka env4 f4))
                    (assigned (bit_11-eval env5 a x small (ka env5 f5)) done)))))),
      set-IsFrame d "R_OF" _ refl f5,
      record {
        bit_0 = refl;
        bit_2 = refl;
        bit_4 = refl;
        bit_6 = refl;
        bit_7 = refl;
        bit_11 = refl;
      },
    )
