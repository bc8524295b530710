-- ===== src/Simplify/Rules.antt =====
-- The rules of the simplifier keep the value of an expression.
use mathlib.Core.Path.{subst}
use fuzzball.Ir.Eval.{Env, eval, val}
use fuzzball.Ir.Types.{Exp, RegT, bin_op, constant, minus, plus, reg_1, times}
use fuzzball.Prelude.{arith, refl, some, ℕ, ◌≡◌, ◌≢◌}
use fuzzball.Simplify.{
  Outcome, R10, R11, R12, R13, R14, R15, R16, R17, R18, R19, r1_r3_r5, R20, r2_r4_r6, R7, R8, R9,
  apply_rules, changed, mul_constant, or_else, ret_type, unchanged, undefined,
}
use fuzzball.Simplify.Algebra.{
  Refines, add_mod, minus-IsRing, plus-IsRing, plus_assoc, plus_comm, sub_mod, swap_first,
  swap_second, times_assoc, times_comm, times_minus, times_plus,
}
use fuzzball.Simplify.Folding.{fold_minus, fold_plus, fold_times, minus_constant}
use fuzzball.Simplify.Meaning.{parts, whole}

abbrev no_variables : Env
no_variables = record { var = λ n. 0; load = λ t a. 0 }

-- The outcome is no undefined behaviour, and a changed expression keeps each value that is wider than
-- a flag.
abbrev pub Keeps : Env → Exp → Outcome → Type 0
Keeps env e unchanged = Unit
Keeps env e (changed e') = (t : RegT) (z : ℕ) → t ≢ reg_1 → Refines env t z e e'
Keeps env e undefined = ⊥

-- The first rule does nothing where the second does nothing.
abbrev Shadowed : Outcome → Outcome → Type 0
Shadowed unchanged r = Unit
Shadowed _ unchanged = ⊥
Shadowed _ _ = Unit

R9-Shadowed : (e : Exp) → Shadowed (R9 e) (r2_r4_r6 e)
unfolding r2_r4_r6 R9
R9-Shadowed (bin_op plus (bin_op _ _ _) (constant _ _)) = tt
R9-Shadowed _ = tt

R10-Shadowed : (e : Exp) → Shadowed (R10 e) (r2_r4_r6 e)
unfolding r2_r4_r6 R10
R10-Shadowed (bin_op times (bin_op _ _ _) (constant _ _)) = tt
R10-Shadowed _ = tt

R11-Shadowed : (e : Exp) → Shadowed (R11 e) (r2_r4_r6 e)
unfolding r2_r4_r6 R11
R11-Shadowed (bin_op times (bin_op _ _ _) (constant _ _)) = tt
R11-Shadowed _ = tt

Shadowed-Keeps :
    (env : Env) (e : Exp) (s r : Outcome) → Shadowed s r → r ≡ unchanged → Keeps env e s
Shadowed-Keeps env e unchanged r p q = tt
Shadowed-Keeps env e (changed e') unchanged p q = elim p [ ]
Shadowed-Keeps env e (changed e') (changed e'') p q = ground arith
Shadowed-Keeps env e (changed e') undefined p q = ground arith
Shadowed-Keeps env e undefined unchanged p q = elim p [ ]
Shadowed-Keeps env e undefined (changed e'') p q = ground arith
Shadowed-Keeps env e undefined undefined p q = ground arith

or_else-Keeps :
    (env : Env) (e : Exp) (r s : Outcome)
    → Keeps env e r
    → (r ≡ unchanged → Keeps env e s)
    → Keeps env e (or_else r s)
unfolding or_else
or_else-Keeps env e unchanged s p q = q refl
or_else-Keeps env e (changed e') s p q = p
or_else-Keeps env e undefined s p q = elim p [ ]

module _ (env : Env) where
  R7-Keeps : (e : Exp) → Keeps env e (R7 e)
  unfolding R7
  R7-Keeps (bin_op plus a (bin_op plus b c)) = λ t z ne. plus_assoc env a b c
  R7-Keeps _ = tt

  R8-Keeps : (e : Exp) → Keeps env e (R8 e)
  unfolding R8
  R8-Keeps (bin_op times a (bin_op times b c)) = λ t z ne. times_assoc env a b c
  R8-Keeps _ = tt

  R13-Keeps : (e : Exp) → Keeps env e (R13 e)
  unfolding R13
  R13-Keeps (bin_op times (bin_op plus a b) (constant u c)) = λ t z ne p.
      times_plus env (constant u c) a b (times_comm env (bin_op plus a b) (constant u c) p)
  R13-Keeps _ = tt

  R14-Keeps : (e : Exp) → Keeps env e (R14 e)
  unfolding R14
  R14-Keeps (bin_op times (constant u c) (bin_op plus a b)) =
      λ t z ne. times_plus env (constant u c) a b
  R14-Keeps _ = tt

  R15-Keeps : (e : Exp) → Keeps env e (R15 e)
  unfolding R15
  R15-Keeps (bin_op times (bin_op minus a b) (constant u c)) = λ t z ne p.
      times_minus env (constant u c) a b (times_comm env (bin_op minus a b) (constant u c) p)
  R15-Keeps _ = tt

  R16-Keeps : (e : Exp) → Keeps env e (R16 e)
  unfolding R16
  R16-Keeps (bin_op times (constant u c) (bin_op minus a b)) = λ t z ne p.
      swap_second env minus sub_mod minus-IsRing (bin_op times (constant u c) a) (constant u c) b
        (times_minus env (constant u c) a b p)
  R16-Keeps _ = tt

  R17-Keeps : (e : Exp) → Keeps env e (R17 e)
  unfolding R17
  R17-Keeps (bin_op times (bin_op plus a b) c) = λ t z ne p.
      swap_first env plus add_mod plus-IsRing (bin_op times b c) c a (
        swap_second env plus add_mod plus-IsRing (bin_op times c a) c b
          (times_plus env c a b (times_comm env (bin_op plus a b) c p)))
  R17-Keeps _ = tt

  R18-Keeps : (e : Exp) → Keeps env e (R18 e)
  unfolding R18
  R18-Keeps (bin_op times a (bin_op plus b c)) = λ t z ne. times_plus env a b c
  R18-Keeps _ = tt

  R19-Keeps : (e : Exp) → Keeps env e (R19 e)
  unfolding R19
  R19-Keeps (bin_op times (bin_op minus a b) c) = λ t z ne p.
      swap_first env minus sub_mod minus-IsRing (bin_op times b c) c a (
        swap_second env minus sub_mod minus-IsRing (bin_op times c a) c b
          (times_minus env c a b (times_comm env (bin_op minus a b) c p)))
  R19-Keeps _ = tt

  R20-Keeps : (e : Exp) → Keeps env e (R20 e)
  unfolding R20
  R20-Keeps (bin_op times a (bin_op minus b c)) = λ t z ne. times_minus env a b c
  R20-Keeps _ = tt

  R12-Keeps : (e : Exp) → Keeps env e (R12 e)
  unfolding R12
  R12-Keeps (bin_op times (constant u c) (bin_op plus (constant v d) a)) = λ t z ne p.
      let k =
        parts env plus add_mod (bin_op times (constant u c) (constant v d))
          (bin_op times (constant u c) a) plus-IsRing
          (times_plus env (constant u c) (constant v d) a p) in
      whole env plus add_mod (mul_constant c d (ret_type u v)) (bin_op times (constant u c) a)
        plus-IsRing (fold_times env u v c d ne k.first) k.second k.total
  R12-Keeps _ = tt

  r1_r3_r5-Keeps : (e : Exp) → Keeps env e (r1_r3_r5 e)
  unfolding r1_r3_r5
  r1_r3_r5-Keeps (bin_op plus (constant u c) (constant v d)) = λ t z ne. fold_plus env u v c d ne
  r1_r3_r5-Keeps (bin_op times (constant u c) (constant v d)) = λ t z ne. fold_times env u v c d ne
  r1_r3_r5-Keeps (bin_op minus (constant u c) (constant v d)) = λ t z ne. fold_minus env u v c d ne
  r1_r3_r5-Keeps _ = tt

  r2_r4_r6-Keeps : (e : Exp) → Keeps env e (r2_r4_r6 e)
  unfolding r2_r4_r6
  r2_r4_r6-Keeps (bin_op _ (constant _ _) (constant _ _)) = tt
  r2_r4_r6-Keeps (bin_op plus a (constant u c)) = λ t z ne. plus_comm env a (constant u c)
  r2_r4_r6-Keeps (bin_op times a (constant u c)) = λ t z ne. times_comm env a (constant u c)
  r2_r4_r6-Keeps (bin_op minus a (constant u c)) = λ t z ne. minus_constant env a u c
  r2_r4_r6-Keeps _ = tt

  apply_rules-Keeps : (e : Exp) → Keeps env e (apply_rules e)
  unfolding apply_rules
  apply_rules-Keeps e = or_else-Keeps env e (r1_r3_r5 e) _ (r1_r3_r5-Keeps e) (λ q1.
      or_else-Keeps env e (r2_r4_r6 e) _ (r2_r4_r6-Keeps e) (λ q2.
        or_else-Keeps env e (R7 e) _ (R7-Keeps e) (λ q7.
          or_else-Keeps env e (R8 e) _ (R8-Keeps e) (λ q8.
            or_else-Keeps env e (R9 e) _
              (Shadowed-Keeps env e (R9 e) (r2_r4_r6 e) (R9-Shadowed e) q2)
              (λ q9.
                or_else-Keeps env e (R10 e) _
                  (Shadowed-Keeps env e (R10 e) (r2_r4_r6 e) (R10-Shadowed e) q2)
                  (λ q10.
                    or_else-Keeps env e (R11 e) _
                      (Shadowed-Keeps env e (R11 e) (r2_r4_r6 e) (R11-Shadowed e) q2)
                      (λ q11. or_else-Keeps env e (R12 e) _ (R12-Keeps e) (λ q12.
                        or_else-Keeps env e (R13 e) _ (R13-Keeps e) (λ q13.
                          or_else-Keeps env e (R14 e) _ (R14-Keeps e) (λ q14.
                            or_else-Keeps env e (R15 e) _ (R15-Keeps e) (λ q15.
                              or_else-Keeps env e (R16 e) _ (R16-Keeps e) (λ q16.
                                or_else-Keeps env e (R17 e) _ (R17-Keeps e) (λ q17.
                                  or_else-Keeps env e (R18 e) _ (R18-Keeps e) (λ q18.
                                    or_else-Keeps env e (R19 e) _ (R19-Keeps e)
                                      (λ q19. R20-Keeps e)))))))))))))))

-- No expression makes the rules that the simplifier tries read a pointer that was never set.
pub apply_rules-defined : (e : Exp) → apply_rules e ≢ undefined
apply_rules-defined e p = read (apply_rules e) (apply_rules-Keeps no_variables e) p
  where
    read : (r : Outcome) → Keeps no_variables e r → r ≢ undefined
    read unchanged k q = ground arith
    read (changed e') k q = ground arith
    read undefined k q = k

-- An expression that the rules change keeps its value, where it has one that is wider than one bit.
pub apply_rules_lem :
    (env : Env) (e e' : Exp) (t : RegT) (z : ℕ)
    → apply_rules e ≡ changed e'
    → t ≢ reg_1
    → eval env e ≡ some (val t z)
    → eval env e' ≡ some (val t z)
apply_rules_lem env e e' t z p = (subst (λ r. Keeps env e r) p (apply_rules-Keeps env e)) t z
