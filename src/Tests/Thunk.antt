-- ===== src/Tests/Thunk.antt =====
-- The theorems on choices and on the flags thunk at concrete inputs.
use fuzzball.I386.Flags.{mk_reg}
use fuzzball.I386.Flags.Arithmetic.{mod_eflags_sub}
use fuzzball.I386.Flags.Run.{IsFrame}
use fuzzball.I386.Flags.Subtract.{IsCompared}
use fuzzball.I386.Thunk.{is_put, is_thunk_temp, put_end}
use fuzzball.I386.Thunk.Index.{
  get_thunk_index, index_from, seen, seen_choice, seen_copy, seen_move, seen_read,
}
use fuzzball.I386.Thunk.Index.Laws.{AreAssigned, get_thunk_index_lem}
use fuzzball.I386.Thunk.Modify.{mod_func_2, modify_eflags_helper}
use fuzzball.I386.Thunk.Modify.Laws.{modify_eflags_helper-mod_eflags_sub, plain}
use fuzzball.Ir.Eval.{Env, assign, eval}
use fuzzball.Ir.Types.{constant, reg_1, reg_32, reg_8, temp}
use fuzzball.Prelude.{List, [], arith, none, refl, some, ◌++◌, ◌∷◌, ◌≡◌}
use fuzzball.Stmt.{Out, Stmt, move}
use fuzzball.Stmt.Exec.{exec, exec_stmt}
use fuzzball.Tests.{no_output, tally, test_env}
use fuzzball.Tests.Instances.{c_16, c_33}
use fuzzball.Vex.Ite.{emit_ite, match_ite}
use fuzzball.Vex.Ite.Laws.{match_ite-emit_ite}

-- The update of the thunk by a comparison, and what follows it.
abbrev thunk_stmts : List Stmt
thunk_stmts =
    move (mk_reg "CC_OP" reg_32) (constant reg_32 4)
    ∷ move (mk_reg "CC_DEP1" reg_32) c_16
    ∷ move (mk_reg "CC_DEP2" reg_32) c_33
    ∷ move (mk_reg "CC_NDEP" reg_32) (constant reg_32 0)
    ∷ []

abbrev next_stmts : List Stmt
next_stmts = move (mk_reg "EIP" reg_32) (constant reg_32 0x1000) ∷ []

abbrev after_thunk : Env
after_thunk =
    assign "R_CC_NDEP" 0
      (assign "R_CC_DEP2" 33 (assign "R_CC_DEP1" 16 (assign "R_CC_OP" 4 test_env)))

found_here : get_thunk_index (thunk_stmts ++ next_stmts) ≡ some (plain 0 1 2 3 none)
unfolding get_thunk_index index_from seen seen_move seen_choice seen_read seen_copy
found_here = refl

get_thunk_index_example : AreAssigned (thunk_stmts ++ next_stmts) (plain 0 1 2 3 none)
get_thunk_index_example =
    get_thunk_index_lem (thunk_stmts ++ next_stmts) (plain 0 1 2 3 none) found_here

modify_eflags_helper_example :
    (o : Out) × (env2 : Env) × (modify_eflags_helper "L_0" "L_1" "subb"
        (mod_func_2 (mod_eflags_sub tally reg_8))
        (record { stmts = thunk_stmts ++ next_stmts; temp_counter = 0 })
      ≡ some (tt, o))
    × (exec o.stmts test_env ≡ exec next_stmts env2)
    × IsFrame tally 0 after_thunk env2
    × IsCompared 8 16 33 env2
unfolding put_end is_put is_thunk_temp exec exec_stmt eval
modify_eflags_helper_example =
    modify_eflags_helper-mod_eflags_sub tally 0 reg_8 "L_0" "L_1" "subb" thunk_stmts next_stmts 0 1
      2 3 none c_16 c_33 16 33 test_env after_thunk (omega arith) (omega arith) (omega arith)
      (omega arith) found_here refl refl refl refl (λ env' f. refl) (λ env' f. refl)

match_ite_example :
    match_ite
      ((emit_ite tally reg_8
          (temp reg_1 "R_ZF")
          (constant reg_8 1)
          (constant reg_8 2)
          no_output).1.stmts
        ++ next_stmts)
      1
    ≡ some (
        some (record {
          cond = temp reg_1 "R_ZF";
          exp_t = constant reg_8 1;
          exp_f = constant reg_8 2;
          res =
              (emit_ite tally reg_8
                (temp reg_1 "R_ZF")
                (constant reg_8 1)
                (constant reg_8 2)
                no_output).0;
        }))
match_ite_example =
    match_ite-emit_ite tally reg_8 (temp reg_1 "R_ZF") (constant reg_8 1) (constant reg_8 2)
      no_output next_stmts
