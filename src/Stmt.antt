-- ===== src/Stmt.antt =====
-- Statements (libasmir/src/include/stmt.h, libasmir/src/ir/stmt.cpp) and the output of the translator: the
-- statements emitted so far and the counter that names temporaries. The two addresses of a statement
-- are 0 where the translator makes it, and are left out.
pub mod Emit
pub mod Exec
pub mod Fallible
pub mod Laws
pub mod Print
use fuzzball.Ir.Types.{Exp, RegT}
use fuzzball.Prelude.{Bool, List, Option, String, ℕ, ◌≡◌}

-- A `VarDecl` is a name and a type; a missing expression is `none`.
mutual
  pub data Stmt : Type 0 where
    var_decl : String → RegT → Stmt
    move : Exp → Exp → Stmt
    label : String → Stmt
    jmp : Exp → Stmt
    cjmp : Exp → Exp → Exp → Stmt
    special : String → Stmt
    comment : String → Stmt
    exp_stmt : Exp → Stmt
    call : Option Exp → Exp → List Exp → Stmt
    return : Option Exp → Stmt
    func : String → Bool → RegT → List (String × RegT) → Bool → Stmts → Stmt
    assert : Exp → Stmt

  pub data Stmts : Type 0 where
    nil : Stmts
    cons : Stmt → Stmts → Stmts

-- `int_to_str` prints a number in decimal through the C++ stream library, which is a parameter here:
-- what matters is that two numbers never print alike.
pub record Decimal : Type 0 where
  pub int_to_str : ℕ → String
  pub injective : (m n : ℕ) → int_to_str m ≡ int_to_str n → m ≡ n

-- The vector `irout` and the static `temp_counter` of `mk_temp`, an int in the source, which is taken not to
-- overflow.
pub record Out : Type 0 where
  pub stmts : List Stmt
  pub temp_counter : ℕ
