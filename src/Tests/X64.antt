-- ===== src/Tests/X64.antt =====
-- The theorems on the x64 flags at concrete inputs.
use fuzzball.I386.Flags.Run.{IsFrame, fresh}
use fuzzball.Ir.Eval.{Env, eval}
use fuzzball.Ir.Types.{Exp, constant, reg_16, reg_64, reg_8}
use fuzzball.Prelude.{arith, refl, some, ◌≡◌}
use fuzzball.Stmt.{Out}
use fuzzball.Stmt.Exec.{exec}
use fuzzball.Tests.{tally, test_env}
use fuzzball.X64.Flags.{modify_flags_add, modify_flags_logic, modify_flags_sub}
use fuzzball.X64.Flags.Set.{AreFlags, modify_flags_logic_lem, modify_flags_sub_lem}
use fuzzball.X64.Flags.Step.{modify_flags_inc}
use fuzzball.X64.Flags.Step.Laws.{AreStepped, modify_flags_inc_lem}
use fuzzball.X64.Flags.Sum.{modify_flags_add_lem}

abbrev wide_16 : Exp
wide_16 = constant reg_64 16

abbrev wide_33 : Exp
wide_33 = constant reg_64 33

abbrev wide_128 : Exp
wide_128 = constant reg_64 128

modify_flags_sub_example :
    (env' : Env) × (exec (modify_flags_sub tally reg_8 wide_16 wide_33 (fresh 0)).1.stmts test_env
      ≡ some env')
    × IsFrame tally 0 test_env env'
    × AreFlags 8 1 239 1 0 env'
unfolding eval
modify_flags_sub_example =
    modify_flags_sub_lem tally 0 reg_8 wide_16 wide_33 16 33 test_env (omega arith) (omega arith)
      (omega arith) (λ env' f. refl) (λ env' f. refl)

modify_flags_logic_example :
    (env' : Env) × (exec (modify_flags_logic reg_16 wide_33 (fresh 0)).1.stmts test_env ≡ some env')
    × IsFrame tally 0 test_env env'
    × AreFlags 16 0 33 0 0 env'
unfolding eval
modify_flags_logic_example =
    modify_flags_logic_lem tally 0 reg_16 wide_33 33 test_env (omega arith) (omega arith)
      (λ env' f. refl)

modify_flags_add_example :
    (env' : Env) × (exec (modify_flags_add tally reg_64 wide_16 wide_33 (fresh 0)).1.stmts test_env
      ≡ some env')
    × IsFrame tally 0 test_env env'
    × AreFlags 64 0 49 0 0 env'
unfolding eval
modify_flags_add_example =
    modify_flags_add_lem tally 0 reg_64 wide_16 wide_33 16 33 test_env (omega arith) (omega arith)
      (omega arith) (λ env' f. refl) (λ env' f. refl)

modify_flags_inc_example :
    (o : Out) × (env' : Env) × (modify_flags_inc tally reg_8 wide_128 (fresh 0) ≡ some (tt, o))
    × (exec o.stmts test_env ≡ some env')
    × IsFrame tally 0 test_env env'
    × AreStepped 8 128 1 1 test_env env'
unfolding eval
modify_flags_inc_example =
    modify_flags_inc_lem tally 0 reg_8 wide_128 127 test_env (omega arith) (omega arith)
      (λ env' f. refl)
