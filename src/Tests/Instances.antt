-- ===== src/Tests/Instances.antt =====
-- The theorems on emitted statements, flags and the arena at concrete inputs.
use fuzzball.I386.Flags.{mod_eflags_logic}
use fuzzball.I386.Flags.Arithmetic.{mod_eflags_add, mod_eflags_sub}
use fuzzball.I386.Flags.Logic.{AreLogical, mod_eflags_logic_lem}
use fuzzball.I386.Flags.Rotation.{AreRotated, mod_eflags_rol_lem}
use fuzzball.I386.Flags.Run.{IsFrame, fresh}
use fuzzball.I386.Flags.Shift.{mod_eflags_rol}
use fuzzball.I386.Flags.Subtract.{IsCompared, mod_eflags_sub_lem}
use fuzzball.I386.Flags.Sum.{AreAdded, mod_eflags_add_lem}
use fuzzball.I386.Thunk.{del_get_thunk, del_put_thunk, is_put}
use fuzzball.I386.Thunk.Laws.{HasNo, IsLast, del_put_thunk_lem}
use fuzzball.I386.Thunk.Reads.{Deletes, del_get_thunk_lem}
use fuzzball.Ir.Eval.{Env, eval}
use fuzzball.Ir.Types.{Exp, constant, reg_16, reg_32, reg_8, temp, vector}
use fuzzball.Prelude.{
  List, [], arith, none, refl, some, ℕ, ◌%◌, ◌*◌, ◌+◌, ◌-◌, ◌/◌, ◌^◌, ◌∷◌, ◌≡◌, ◌⊎◌,
}
use fuzzball.Prelude.Int.{pos}
use fuzzball.Stmt.{Out, Stmt, comment, move}
use fuzzball.Stmt.Exec.{exec}
use fuzzball.Tests.{a_64, at_start, b_64, no_output, tally, test_env, x_64, y_64}
use fuzzball.Tests.Arena.{bump, no_blocks, one_block, two_blocks, two_requests}
use fuzzball.Vex.Clz.{clz64_ite}
use fuzzball.Vex.Clz.Count.{leading_zeros}
use fuzzball.Vex.Clz.Laws.{GivesWord, clz64_ite_lem}
use fuzzball.Vex.Memory.{Arena, block_size, vx_Alloc, vx_FreeAll}
use fuzzball.Vex.Memory.Capacity.{alloc_all, alloc_all_lem}
use fuzzball.Vex.Memory.Laws.{AllAre, AreApart}
use fuzzball.Vex.Memory.Reach.{IsBacked, Reaches-AreApart, Reaches-IsBacked}
use fuzzball.Vex.Memory.Refuse.{vx_Alloc-too_large}
use fuzzball.Vex.Memory.Release.{free_each, pointers, vx_FreeAll_lem}
use fuzzball.Vex.Signed.{translate_Neg128}
use fuzzball.Vex.Signed.Laws.{translate_Neg128_lem}
use fuzzball.Vex.Wide.Product.{Gives}

translate_Neg128_example :
    (r : Exp × Out) × (translate_Neg128 tally (vector a_64 b_64) no_output ≡ some r)
    × Gives tally no_output test_env test_env ((2 ^ 128 - (x_64 * 2 ^ 64 + y_64)) % 2 ^ 128) r
translate_Neg128_example = translate_Neg128_lem tally no_output test_env test_env at_start

clz64_ite_example :
    GivesWord tally no_output test_env test_env reg_32
      (leading_zeros 64 x_64)
      (clz64_ite tally a_64 no_output)
clz64_ite_example = clz64_ite_lem tally no_output test_env test_env at_start

Reaches-AreApart_example : AreApart ((5122, 600) ∷ (4097, 600) ∷ [])
Reaches-AreApart_example = Reaches-AreApart bump two_requests

Reaches-IsBacked_example : AllAre (IsBacked bump two_blocks) ((5122, 600) ∷ (4097, 600) ∷ [])
Reaches-IsBacked_example = Reaches-IsBacked bump two_requests

alloc_all_example :
    (r : List ℕ × Arena bump) × (alloc_all bump (600 ∷ 600 ∷ 1024 ∷ 1024 ∷ []) no_blocks ≡ some r)
alloc_all_example =
    alloc_all_lem bump (λ n s. omega arith) (600 ∷ 600 ∷ 1024 ∷ 1024 ∷ []) no_blocks refl
      (omega arith) (omega arith)

vx_Alloc-too_large_example : vx_Alloc bump (pos 2049) one_block ≡ none
unfolding block_size
vx_Alloc-too_large_example =
    vx_Alloc-too_large bump 2049 0 one_block refl (omega arith) (omega arith)

vx_FreeAll_example :
    ((vx_FreeAll bump two_blocks).store
      ≡ free_each bump (pointers 1 two_blocks.vx_arena_blocks) 7170)
    × ((vx_FreeAll bump two_blocks).vx_arena_blocks 0 ≡ 0)
    × ((vx_FreeAll bump two_blocks).vx_current_block ≡ none)
    × ((vx_FreeAll bump two_blocks).vx_block_free ≡ 2 ^ 64 - 1)
vx_FreeAll_example = vx_FreeAll_lem bump 1 0 two_blocks refl (omega arith)

abbrev pub c_16 : Exp
c_16 = constant reg_32 16

abbrev pub c_33 : Exp
c_33 = constant reg_32 33

mod_eflags_sub_example :
    (o : Out) × (env' : Env) × (mod_eflags_sub tally reg_8 c_16 c_33 (fresh 0) ≡ some (tt, o))
    × (exec o.stmts test_env ≡ some env')
    × IsFrame tally 0 test_env env'
    × IsCompared 8 16 33 env'
unfolding eval
mod_eflags_sub_example =
    mod_eflags_sub_lem tally 0 reg_8 c_16 c_33 16 33 test_env (omega arith) (omega arith)
      (omega arith) (omega arith) (λ env' f. refl) (λ env' f. refl)

mod_eflags_logic_example :
    (o : Out) × (env' : Env) × (mod_eflags_logic tally reg_16 c_16 c_33 (fresh 0) ≡ some (tt, o))
    × (exec o.stmts test_env ≡ some env')
    × IsFrame tally 0 test_env env'
    × AreLogical 16 16 env'
unfolding eval
mod_eflags_logic_example =
    mod_eflags_logic_lem tally 0 reg_16 c_16 c_33 16 test_env (omega arith) (omega arith)
      (omega arith) (λ env' f. refl)

mod_eflags_rol_example :
    (o : Out) × (env' : Env) × (mod_eflags_rol reg_8 c_33 c_16 c_16 (fresh 0) ≡ some (tt, o))
    × (exec o.stmts test_env ≡ some env')
    × IsFrame tally 0 test_env env'
    × AreRotated (33 % 2) (33 / 2 ^ 7 % 2) test_env env'
unfolding eval
mod_eflags_rol_example =
    mod_eflags_rol_lem tally 0 reg_8 c_33 c_16 c_16 33 test_env (omega arith) (omega arith)
      (λ env' f. refl)

mod_eflags_add_example :
    (o : Out) × (env' : Env) × (mod_eflags_add tally reg_32 c_16 c_33 (fresh 0) ≡ some (tt, o))
    × (exec o.stmts test_env ≡ some env')
    × IsFrame tally 0 test_env env'
    × AreAdded 32 16 33 env'
unfolding eval
mod_eflags_add_example =
    mod_eflags_add_lem tally 0 reg_32 c_16 c_33 16 33 test_env (omega arith) (omega arith)
      (omega arith) (omega arith) (λ env' f. refl) (λ env' f. refl)

abbrev thunk_stmts : List Stmt
thunk_stmts =
    move (temp reg_32 "R_CC_OP") c_16
    ∷ move (temp reg_32 "T_1") (temp reg_32 "R_CC_OP")
    ∷ comment "end"
    ∷ []

del_put_thunk_example :
    (HasNo is_put thunk_stmts
      × (del_put_thunk thunk_stmts (pos 0) (pos 0) (pos 0) (pos 0) (pos 0) ≡ none))
    ⊎ ((i : ℕ) × IsLast is_put thunk_stmts i
        × (del_put_thunk thunk_stmts (pos 0) (pos 0) (pos 0) (pos 0) (pos 0)
            ≡ some (i + 1, thunk_stmts)))
del_put_thunk_example = del_put_thunk_lem thunk_stmts 0 0 0 0 (pos 0)

del_get_thunk_example :
    Deletes thunk_stmts (del_get_thunk thunk_stmts)
    × ((out : List Stmt) → Deletes thunk_stmts out → out ≡ del_get_thunk thunk_stmts)
del_get_thunk_example = del_get_thunk_lem thunk_stmts
