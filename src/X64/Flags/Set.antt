-- ===== src/X64/Flags/Set.antt =====
-- The flags that `x64_modify_flags` (libasmir/src/vex/irtoir-x64.cpp) sets after a subtraction and after a
-- logical operation.
use native.Mathlib.Nat.{mod-lt}
use fuzzball.I386.Flags.Compare.{as_flag, difference, ones, overflows, top_bit}
use fuzzball.I386.Flags.Run.{
  IsFrame, IsFrame-refl, IsFrame-trans, Keeps, Runs, Runs-exec, assign_temp-IsFrame, assigned,
  declared, done, fresh, set-IsFrame, temp-Keeps,
}
use fuzzball.Ir.Eval.{Env, assign, eval, val}
use fuzzball.Ir.Types.{Exp, RegT, reg_1, reg_64, reg_to_bits, temp}
use fuzzball.Ir.Words.{two_pow_pos}
use fuzzball.Prelude.{
  List, [], ap, arith, leb, ltb, refl, some, ℕ, ◌%◌, ◌+◌, ◌-◌, ◌<◌, ◌==◌, ◌^◌, ◌∙◌, ◌∷◌, ◌≡◌, ◌≤◌,
}
use fuzzball.Stmt.{Decimal, Stmt, move}
use fuzzball.Stmt.Emit.{mk_temp, mk_temp_def, temp_name}
use fuzzball.Stmt.Exec.{exec}
use fuzzball.X64.Flags.{
  logic_flags, modify_flags_logic, modify_flags_sub, narrow64, put_flag, set_flags, sign_bit_of,
  sub_flags,
}
use fuzzball.X64.Flags.Laws.{
  borrow_lem, difference-cut, fits_64, is_zero, less, minus-eval, narrow64-eval, narrow64-fits,
  overflow_lem, parity8_lem,
}

-- The flags after an operation of `w` bits with the result `r`: carry, parity of the lowest byte of `r`,
-- adjust, whether `r` is 0, the sign bit of `r`, overflow.
pub record AreFlags (w carry_flag r adjust_flag overflow_flag : ℕ) (env : Env) : Type 0 where
  pub carry : env.var "R_CF" ≡ carry_flag
  pub parity : env.var "R_PF" ≡ as_flag (ones r % 2 == 0)
  pub adjust : env.var "R_AF" ≡ adjust_flag
  pub zero_flag : env.var "R_ZF" ≡ as_flag (r == 0)
  pub sign : env.var "R_SF" ≡ as_flag (leb (2 ^ (w - 1)) r)
  pub overflow : env.var "R_OF" ≡ overflow_flag

module _ (d : Decimal) (k : ℕ) (env : Env) (cf pf af zf sf of : Exp)
    (w carry r adjust over : ℕ) where
  -- The values of the six expressions.
  pub record HaveValues (env' : Env) : Type 0 where
    pub cf_value : eval env' cf ≡ some (val reg_1 carry)
    pub pf_value : eval env' pf ≡ some (val reg_1 (as_flag (ones r % 2 == 0)))
    pub af_value : eval env' af ≡ some (val reg_1 adjust)
    pub zf_value : eval env' zf ≡ some (val reg_1 (as_flag (r == 0)))
    pub sf_value : eval env' sf ≡ some (val reg_1 (as_flag (leb (2 ^ (w - 1)) r)))
    pub of_value : eval env' of ≡ some (val reg_1 over)

  abbrev pub assignments : List Stmt
  assignments =
      move (temp reg_1 "R_CF") cf
      ∷ move (temp reg_1 "R_PF") pf
      ∷ move (temp reg_1 "R_AF") af
      ∷ move (temp reg_1 "R_ZF") zf
      ∷ move (temp reg_1 "R_SF") sf
      ∷ move (temp reg_1 "R_OF") of
      ∷ []

  -- Expressions whose values do not depend on the flags are all assigned as they were before.
  pub assignments-Runs :
      ((env' : Env) → IsFrame d k env env' → HaveValues env')
      → (env' : Env) × Runs assignments env env'
        × IsFrame d k env env'
        × AreFlags w carry r adjust over env'
  assignments-Runs h =
      let env1 : Env = assign "R_CF" carry env in
      let env2 : Env = assign "R_PF" (as_flag (ones r % 2 == 0)) env1 in
      let env3 : Env = assign "R_AF" adjust env2 in
      let env4 : Env = assign "R_ZF" (as_flag (r == 0)) env3 in
      let env5 : Env = assign "R_SF" (as_flag (leb (2 ^ (w - 1)) r)) env4 in
      let env6 : Env = assign "R_OF" over env5 in
      let f0 : IsFrame d k env env = IsFrame-refl d k env in
      let f1 : IsFrame d k env env1 = set-IsFrame d "R_CF" _ refl f0 in
      let f2 : IsFrame d k env env2 = set-IsFrame d "R_PF" _ refl f1 in
      let f3 : IsFrame d k env env3 = set-IsFrame d "R_AF" _ refl f2 in
      let f4 : IsFrame d k env env4 = set-IsFrame d "R_ZF" _ refl f3 in
      let f5 : IsFrame d k env env5 = set-IsFrame d "R_SF" _ refl f4 in
      (
        env6,
        assigned (h env f0).cf_value (
            assigned (h env1 f1).pf_value (
              assigned (h env2 f2).af_value (
                assigned (h env3 f3).zf_value
                  (assigned (h env4 f4).sf_value (assigned (h env5 f5).of_value done))))),
        set-IsFrame d "R_OF" _ refl f5,
        record {
          carry = refl;
          parity = refl;
          adjust = refl;
          zero_flag = refl;
          sign = refl;
          overflow = refl;
        },
      )

-- Where the first dependency has the value `x`, which fits the type of at least 8 bits, whatever the flags
-- hold, the statements that x64 makes for a logical operation run, they change no variable but the flags and new
-- temporaries, and they clear the carry, adjust and overflow flags and set parity, zero and sign by `x`.
pub modify_flags_logic_lem :
    (d : Decimal) (k : ℕ) (t : RegT) (a : Exp) (x : ℕ) (env : Env)
    → 8 ≤ reg_to_bits t
    → x < 2 ^ reg_to_bits t
    → Keeps d k env a reg_64 x
    → (env' : Env) × (exec (modify_flags_logic t a (fresh k)).1.stmts env ≡ some env')
      × IsFrame d k env env'
      × AreFlags (reg_to_bits t) 0 x 0 0 env'
unfolding modify_flags_logic logic_flags set_flags put_flag sign_bit_of eval
modify_flags_logic_lem d k t a x env l u ka =
    let (env', runs, frame, flags) =
      assignments-Runs d k env _ _ _ _ _ _ (reg_to_bits t) 0 x 0 0 (λ env1 f. record {
        cf_value = refl;
        pf_value = parity8_lem env1 reg_64 a x (omega arith) (fits_64 t x u) (ka env1 f);
        af_value = refl;
        zf_value = is_zero env1 reg_64 a x (ka env1 f);
        sf_value = top_bit env1 t (narrow64 a t) x l u (narrow64-fits env1 t a x u (ka env1 f));
        of_value = refl;
      }) in
    (env', Runs-exec runs, frame, flags)

-- Where the dependencies have the values `x` and `y`, which fit the type of at least 8 bits, whatever the flags
-- and new temporaries hold, the statements that x64 makes for a subtraction run, they change no variable but the flags and
-- new temporaries, and they set the flags of the difference of the width of the type: the borrow, parity, the
-- borrow of the lowest hexadecimal digit, zero, sign, and whether the signed difference overflows.
pub modify_flags_sub_lem :
    (d : Decimal) (k : ℕ) (t : RegT) (a b : Exp) (x y : ℕ) (env : Env)
    → 8 ≤ reg_to_bits t
    → x < 2 ^ reg_to_bits t
    → y < 2 ^ reg_to_bits t
    → Keeps d k env a reg_64 x
    → Keeps d k env b reg_64 y
    → (env' : Env) × (exec (modify_flags_sub d t a b (fresh k)).1.stmts env ≡ some env')
      × IsFrame d k env env'
      × AreFlags
          (reg_to_bits t)
          (as_flag (ltb x y))
          (difference (reg_to_bits t) x y)
          (as_flag (ltb (x % 16) (y % 16)))
          (as_flag (overflows (reg_to_bits t) x y))
          env'
unfolding modify_flags_sub sub_flags set_flags put_flag mk_temp mk_temp_def
modify_flags_sub_lem d k t a b x y env l u v ka kb =
    let p = fits_64 t x u in
    let q = fits_64 t y v in
    let w = reg_to_bits t in
    let r = difference w x y in
    let wide_diff = difference 64 x y in
    let wide_name = temp reg_64 (temp_name d k) in
    let name = temp t (temp_name d (k + 1)) in
    let small : r < 2 ^ w = mod-lt _ (two_pow_pos w) in
    let env1 : Env = assign (temp_name d k) wide_diff env in
    let env2 : Env = assign (temp_name d (k + 1)) r env1 in
    let f0 : IsFrame d k env env = IsFrame-refl d k env in
    let f12 : IsFrame d (k + 1) env1 env2 = assign_temp-IsFrame d (k + 1) r env1 in
    let f2 : IsFrame d k env env2 =
      IsFrame-trans d (omega arith) (assign_temp-IsFrame d k wide_diff env) f12 in
    let wide = temp-Keeps d k wide_diff reg_64 env (omega arith) in
    let short = temp-Keeps d (k + 1) r t env1 small in
    let (env', runs, frame, flags) =
      assignments-Runs d (k + 1 + 1) env2 _ _ _ _ _ _ w (as_flag (ltb x y)) r
        (as_flag (ltb (x % 16) (y % 16))) (as_flag (overflows w x y))
        (λ env3 f3.
          let f : IsFrame d k env env3 = IsFrame-trans d (omega arith) f2 f3 in
          let f13 : IsFrame d (k + 1) env1 env3 = IsFrame-trans d (omega arith) f12 f3 in
          let ha = ka env3 f in
          let hb = kb env3 f in
          let hr = short env3 f3 in
          record {
            cf_value = less env3 a b x y ha hb;
            pf_value = parity8_lem env3 t name r l small hr;
            af_value = borrow_lem env3 wide_name a b x y p q (wide env3 f13) ha hb;
            zf_value = is_zero env3 t name r hr;
            sf_value = top_bit env3 t name r l small hr;
            of_value = overflow_lem env3 t name a b x y l u v hr ha hb;
          }) in
    let cut =
      narrow64-eval env1 t wide_name wide_diff (omega arith)
        (wide env1 (IsFrame-refl d (k + 1) env1))
      ∙ ap (λ n. some (val t n)) (difference-cut t x y u v) in
    (
      env',
      Runs-exec (
          declared (
            assigned (minus-eval env a b x y q (ka env f0) (kb env f0))
              (declared (assigned cut runs)))),
      IsFrame-trans d (omega arith) f2 frame,
      flags,
    )
