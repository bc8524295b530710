-- ===== src/Tests.antt =====
-- Concrete inputs for the theorems, and runs of them.
pub mod Arena
pub mod Instances
pub mod Registers
pub mod Thunk
pub mod Witnesses
pub mod X64
use Prim.Native.String.{count, ◌++◌ as append}
use text.Mathlib.TextLemmas.{length-append}
use fuzzball.Ir.Eval.{Env}
use fuzzball.Ir.Types.{Exp, constant, reg_32, reg_64, reg_8}
use fuzzball.Ir.Words.{IsWord, IsWord-constant}
use fuzzball.Prelude.{List, String, [], ap, arith, refl, suc, sym, zero, ℕ, ◌<◌, ◌^◌, ◌∙◌, ◌∷◌, ◌≡◌}
use fuzzball.Stmt.{Decimal, Out}
use fuzzball.Stmt.Exec.{Fact, Knows, exec}
use fuzzball.Stmt.Laws.{Agrees-refl}

-- The machine before any statement, where all is 0.
abbrev pub test_env : Env
test_env = record { var = λ n. 0; load = λ t a. 0 }

abbrev pub x_64 : ℕ
x_64 = 0x01f203f405f607f8

abbrev pub y_64 : ℕ
y_64 = 0x8102830485068708

abbrev pub a_64 : Exp
a_64 = constant reg_64 x_64

abbrev pub b_64 : Exp
b_64 = constant reg_64 y_64

abbrev pub a_32 : Exp
a_32 = constant reg_32 0x80ff7f10

abbrev pub b_32 : Exp
b_32 = constant reg_32 0x90017f07

pub a_64-IsWord : (env : Env) → IsWord env a_64 reg_64 x_64
a_64-IsWord env = IsWord-constant reg_64 x_64 (omega arith)

pub b_64-IsWord : (env : Env) → IsWord env b_64 reg_64 y_64
b_64-IsWord env = IsWord-constant reg_64 y_64 (omega arith)

pub a_32-IsWord : IsWord test_env a_32 reg_32 0x80ff7f10
a_32-IsWord = IsWord-constant reg_32 0x80ff7f10 (omega arith)

pub b_32-IsWord : IsWord test_env b_32 reg_32 0x90017f07
b_32-IsWord = IsWord-constant reg_32 0x90017f07 (omega arith)

-- A byte as a constant.
pub byte : (v : ℕ) → v < 2 ^ 8 → IsWord test_env (constant reg_8 v) reg_8 v
byte v h = IsWord-constant reg_8 v h

-- A way to print numbers apart: as many strokes as the number says.
abbrev pub strokes : ℕ → String
strokes zero = ""
strokes (suc n) = append "I" (strokes n)

pub length_strokes : (n : ℕ) → count (strokes n) ≡ n
length_strokes zero = refl
length_strokes (suc n) = omega (arith, length-append "I" (strokes n), length_strokes n)

abbrev pub tally : Decimal
tally = record {
  int_to_str = strokes;
  injective = λ m n e. sym (length_strokes m) ∙ ap count e ∙ length_strokes n;
}

abbrev pub no_output : Out
no_output = record { stmts = []; temp_counter = 0 }

abbrev pub facts : List (Fact tally)
facts = (a_64, reg_64, x_64) ∷ (b_64, reg_64, y_64) ∷ []

-- Before anything is emitted, what is known is the values of two constants.
pub at_start : Knows tally no_output test_env test_env no_output facts
unfolding exec
at_start = record {
  env = test_env;
  runs = refl;
  old = Agrees-refl tally 0 test_env;
  grows = omega arith;
  known = (λ c q. a_64-IsWord c, (λ c q. b_64-IsWord c, tt));
}
