-- ===== src/I386/Thunk/Modify.antt =====
-- Replacing the flags thunk by statements that set the flags (`modify_eflags_helper` of
-- libasmir/src/vex/irtoir-i386.cpp). The vector of statements is the output's.
pub mod Laws
use Prim.Native.String.{◌++◌ as append}
use fuzzball.I386.Flags.Run.{fresh}
use fuzzball.I386.Thunk.{del_put_thunk}
use fuzzball.I386.Thunk.Index.{Found, get_thunk_index}
use fuzzball.Ir.Types.{Exp, name}
use fuzzball.Prelude.{List, Option, String, [], none, some, suc, zero, ℕ, ◌++◌, ◌>>=◌, ◌∷◌}
use fuzzball.Prelude.Int.{negsuc, pos, ℤ}
use fuzzball.Stmt.{Out, Stmt, cjmp, comment, label, move}
use fuzzball.Stmt.Fallible.{Fallible}
use fuzzball.Vex.Ite.{at, match_ite}

-- A function that sets the flags of an operation, of two or three arguments.
pub data ModFunc : Type 0 where
  mod_func_2 : (Exp → Exp → Fallible (Unit {0})) → ModFunc
  mod_func_3 : (Exp → Exp → Exp → Fallible (Unit {0})) → ModFunc

abbrev pub rhs_of : Stmt → Option Exp
rhs_of (move l r) = some r
rhs_of _ = none

-- The right side of the assignment with the number; for -1 the read throws.
abbrev pub rhs_at : List Stmt → Option ℕ → Option Exp
rhs_at ir none = none
rhs_at ir (some i) = at ir i >>= rhs_of

abbrev pub index : Option ℕ → ℤ
index none = negsuc 0
index (some i) = pos i

-- `ir->insert(ir->begin() + pos, ...)`
abbrev pub insert_at : ℕ → List Stmt → List Stmt → List Stmt
insert_at zero new ir = new ++ ir
insert_at (suc n) new [] = new
insert_at (suc n) new (s ∷ ir) = s ∷ insert_at n new ir

-- What the function for the flags emits, to an output that starts empty.
unfoldable pub call_mod : ModFunc → List Stmt → Found → ℕ → Option (Unit {0} × Out)
call_mod (mod_func_2 g) ir f k = do
  arg1 ← rhs_at ir f.dep1
  arg2 ← rhs_at ir f.dep2
  g arg1 arg2 (fresh k)
call_mod (mod_func_3 g) ir f k = do
  arg1 ← rhs_at ir f.dep1
  arg2 ← rhs_at ir f.dep2
  arg3 ← rhs_at ir f.ndep
  g arg1 arg2 arg3 (fresh k)

-- Nothing, where the update of the thunk does nothing.
unfoldable pub flag_mods : ModFunc → List Stmt → Found → ℕ → Option (Unit {0} × Out)
flag_mods func ir f k = elim f.nop [ none ↦ call_mod func ir f k | some i ↦ some (tt, fresh k) ]

-- The statements under the condition of the update of the thunk, where it has one. The two labels are the
-- ones that `mk_label` makes.
unfoldable pub conditional : String → String → List Stmt → Option ℕ → List Stmt → Option (List Stmt)
conditional on_mod no_mod ir none mods = some mods
conditional on_mod no_mod ir (some i) mods = do
  m ← match_ite ir i
  x ← m
  some (cjmp x.cond (name on_mod) (name no_mod) ∷ label on_mod ∷ mods ++ label no_mod ∷ [])

unfoldable pub replace_thunk : String → String → String → ModFunc → ℕ → Found → Fallible (Unit {0})
replace_thunk on_mod no_mod op func opi f o = do
  (_, p) ← flag_mods func o.stmts f o.temp_counter
  mods ← conditional on_mod no_mod o.stmts f.mux0x p.stmts
  (place, ir) ←
      del_put_thunk o.stmts (pos opi) (index f.dep1) (index f.dep2) (index f.ndep) (index f.mux0x)
  some (
    tt,
    record {
      stmts = insert_at place (comment (append "eflags thunk: " op) ∷ mods) ir;
      temp_counter = p.temp_counter;
    },
  )

-- Without an assignment of the operation there is a warning, and the statements stay.
unfoldable pub modify_eflags_helper : String → String → String → ModFunc → Fallible (Unit {0})
modify_eflags_helper on_mod no_mod op func o = do
  f ← get_thunk_index o.stmts
  elim f.op [ none ↦ some (tt, o) | some opi ↦ replace_thunk on_mod no_mod op func opi f o ]
