-- ===== src/I386/Flags/Result.antt =====
-- The statements that addition and subtraction share: the result, the flags from it, and the carry, adjust, sign
-- and overflow flags from conditions on the result and the arguments.
use native.Mathlib.Nat.{pow-le-pow_right}
use fuzzball.I386.Flags.{c_of, calc_cond_pf, cond_af, mk_reg}
use fuzzball.I386.Flags.Compare.{as_flag, is_zero, low_byte, ones, parity_lem}
use fuzzball.I386.Flags.Run.{
  IsFrame, IsFrame-refl, IsFrame-trans, Keeps, Keeps-later, Runs, Runs-exec, assign-other,
  assign_temp-IsFrame, assigned, declared, done, reg-ne-temp, set-IsFrame, temp-Keeps,
}
use fuzzball.Ir.Build.{ex_eq, ex_l_cast}
use fuzzball.Ir.Eval.{Env, assign, eval, val}
use fuzzball.Ir.Types.{Exp, RegT, reg_1, reg_32, reg_8, reg_to_bits, temp}
use fuzzball.Prelude.{List, [], arith, refl, some, ℕ, ◌%◌, ◌+◌, ◌<◌, ◌==◌, ◌^◌, ◌∷◌, ◌≡◌, ◌≤◌}
use fuzzball.Stmt.{Decimal, Stmt, move, var_decl}
use fuzzball.Stmt.Emit.{temp_name}
use fuzzball.Stmt.Exec.{exec}

-- The flags: carry, even parity of the lowest byte of the result `r`, adjust, whether `r` is 0, sign, overflow.
pub record AreSet (carry_flag r adjust_flag sign_flag overflow_flag : ℕ) (env : Env) : Type 0 where
  pub carry : env.var "R_CF" ≡ carry_flag
  pub parity : env.var "R_PF" ≡ as_flag (ones (r % 2 ^ 8) % 2 == 0)
  pub adjust : env.var "R_AF" ≡ adjust_flag
  pub zero_flag : env.var "R_ZF" ≡ as_flag (r == 0)
  pub sign : env.var "R_SF" ≡ sign_flag
  pub overflow : env.var "R_OF" ≡ overflow_flag

module _ (d : Decimal) (k : ℕ) where
  -- The temporary with the result.
  abbrev pub res : Exp
  res = temp reg_32 (temp_name d k)

  abbrev pub result_stmts : Exp → Exp → Exp → Exp → Exp → List Stmt
  result_stmts value cond_cf cond_af cond_sf cond_of =
      let pf8 = temp reg_8 (temp_name d (k + 1)) in
      var_decl (temp_name d k) reg_32
      ∷ move res value
      ∷ move (mk_reg "CF" reg_1) cond_cf
      ∷ var_decl (temp_name d (k + 1)) reg_8
      ∷ move pf8 (ex_l_cast res reg_8)
      ∷ move (mk_reg "PF" reg_1) (calc_cond_pf pf8)
      ∷ move (mk_reg "AF" reg_1) cond_af
      ∷ move (mk_reg "ZF" reg_1) (ex_eq res (c_of 0))
      ∷ move (mk_reg "SF" reg_1) cond_sf
      ∷ move (mk_reg "OF" reg_1) cond_of
      ∷ []

  module _ (env : Env) (r cf af sf ov : ℕ) where
    -- The environments after the assignments.
    abbrev pub env1 : Env
    env1 = assign (temp_name d k) r env

    abbrev env2 : Env
    env2 = assign "R_CF" cf env1

    abbrev env3 : Env
    env3 = assign (temp_name d (k + 1)) (r % 2 ^ 8) env2

    abbrev env4 : Env
    env4 = assign "R_PF" (as_flag (ones (r % 2 ^ 8) % 2 == 0)) env3

    abbrev env5 : Env
    env5 = assign "R_AF" af env4

    abbrev env6 : Env
    env6 = assign "R_ZF" (as_flag (r == 0)) env5

    abbrev env7 : Env
    env7 = assign "R_SF" sf env6

    abbrev env8 : Env
    env8 = assign "R_OF" ov env7

    abbrev Later : Exp → ℕ → Type 0
    Later e v = Keeps d (k + 1) env1 e reg_1 v

    frame1 : IsFrame d (k + 1) env1 env1
    frame1 = IsFrame-refl d (k + 1) env1

    frame2 : IsFrame d (k + 1) env1 env2
    frame2 = set-IsFrame d "R_CF" cf refl frame1

    frame3 : IsFrame d (k + 1) env1 env3
    frame3 = IsFrame-trans d (omega arith) frame2 (assign_temp-IsFrame d (k + 1) (r % 2 ^ 8) env2)

    frame4 : IsFrame d (k + 1) env1 env4
    frame4 = set-IsFrame d "R_PF" _ refl frame3

    frame5 : IsFrame d (k + 1) env1 env5
    frame5 = set-IsFrame d "R_AF" af refl frame4

    frame6 : IsFrame d (k + 1) env1 env6
    frame6 = set-IsFrame d "R_ZF" _ refl frame5

    frame7 : IsFrame d (k + 1) env1 env7
    frame7 = set-IsFrame d "R_SF" sf refl frame6

    frame8 : IsFrame d (k + 1) env1 env8
    frame8 = set-IsFrame d "R_OF" ov refl frame7

    byte_read : eval env3 (temp reg_8 (temp_name d (k + 1))) ≡ some (val reg_8 (r % 2 ^ 8))
    byte_read =
        temp-Keeps d (k + 1) (r % 2 ^ 8) reg_8 env2 (omega arith) env3
          (IsFrame-refl d (k + 1 + 1) env3)

    result-Runs :
        (value cond_cf cond_af cond_sf cond_of : Exp)
        → r < 2 ^ 32
        → eval env value ≡ some (val reg_32 r)
        → Later cond_cf cf
        → Later cond_af af
        → Later cond_sf sf
        → Later cond_of ov
        → Runs (result_stmts value cond_cf cond_af cond_sf cond_of) env env8
    result-Runs value cond_cf cond_af cond_sf cond_of small h hcf haf hsf hov =
        let result = temp-Keeps d k r reg_32 env small in
        declared (
          assigned h (
            assigned (hcf env1 frame1) (
              declared (
                assigned (low_byte env2 res r (result env2 frame2)) (
                  assigned
                    (parity_lem env3 (temp reg_8 (temp_name d (k + 1))) (r % 2 ^ 8) (omega arith)
                      byte_read)
                    (assigned (haf env4 frame4) (
                      assigned (is_zero env5 res r (result env5 frame5))
                        (assigned (hsf env6 frame6) (assigned (hov env7 frame7) done)))))))))

    all_set : AreSet cf r af sf ov env8
    all_set =
        let n = temp_name d (k + 1) in
        record {
          carry = assign-other "R_CF" n (r % 2 ^ 8) env2 (reg-ne-temp "CF" (d.int_to_str (k + 1)));
          parity = refl;
          adjust = refl;
          zero_flag = refl;
          sign = refl;
          overflow = refl;
        }

    -- Where the value and the conditions evaluate as given, the statements run and set the flags.
    pub result_lem :
        (value cond_cf cond_af cond_sf cond_of : Exp)
        → r < 2 ^ 32
        → eval env value ≡ some (val reg_32 r)
        → Later cond_cf cf
        → Later cond_af af
        → Later cond_sf sf
        → Later cond_of ov
        → (env' : Env) × (exec (result_stmts value cond_cf cond_af cond_sf cond_of) env ≡ some env')
          × IsFrame d k env env'
          × AreSet cf r af sf ov env'
    result_lem value cond_cf cond_af cond_sf cond_of small h hcf haf hsf hov = (
      env8,
      Runs-exec (result-Runs value cond_cf cond_af cond_sf cond_of small h hcf haf hsf hov),
      IsFrame-trans d (omega arith) (assign_temp-IsFrame d k r env) frame8,
      all_set,
    )

-- An argument, and the result, once the result is computed.
pub argument-Keeps :
    (d : Decimal) (k : ℕ) (e : Exp) (x r : ℕ) (env : Env)
    → Keeps d k env e reg_32 x
    → Keeps d (k + 1) (assign (temp_name d k) r env) e reg_32 x
argument-Keeps d k e x r env h =
    Keeps-later d e reg_32 x (omega arith) (assign_temp-IsFrame d k r env) h

pub narrow-fits : (t : RegT) (r : ℕ) → reg_to_bits t ≤ 32 → r < 2 ^ reg_to_bits t → r < 2 ^ 32
narrow-fits t r u p =
    let limit : 2 ^ reg_to_bits t ≤ 2 ^ 32 =
      pow-le-pow_right (omega arith) {i = reg_to_bits t} {j = 32} u in
    omega (arith, p, limit)
