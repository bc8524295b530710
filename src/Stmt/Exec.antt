-- ===== src/Stmt/Exec.antt =====
-- The meaning of a list of statements: the environment after it.
use fuzzball.Ir.Eval.{Env, Val, assign, eval, val}
use fuzzball.Ir.Types.{Exp, RegT, same_reg, temp}
use fuzzball.Ir.Words.{IsWord}
use fuzzball.Prelude.{
  List, Option, String, [], if◌then◌else◌, none, some, ℕ, ◌>>=◌, ◌∷◌, ◌≡◌, ◌≢◌, ◌≤◌,
}
use fuzzball.Stmt.{Decimal, Out, Stmt, comment, move, var_decl}
use fuzzball.Stmt.Emit.{temp_name}

-- Straight-line execution. A declaration does nothing, and an assignment is to a variable.
abbrev pub exec_move : Exp → Val → Env → Option Env
exec_move (temp t n) (val u x) env = if same_reg t u then some (assign n x env) else none
exec_move _ v env = none

unfoldable pub exec_stmt : Stmt → Env → Option Env
exec_stmt (var_decl n t) env = some env
exec_stmt (move l r) env = do v ← eval env r; exec_move l v env
exec_stmt (comment s) env = some env
exec_stmt _ env = none

unfoldable pub exec : List Stmt → Env → Option Env
exec [] env = some env
exec (s ∷ ss) env = exec_stmt s env >>= exec ss

module _ (d : Decimal) where
  -- The variables other than the temporaries with a number from `k` on keep their values.
  abbrev pub IsOld : ℕ → String → Type 0
  IsOld k n = (i : ℕ) → k ≤ i → n ≢ temp_name d i

  pub record Agrees (k : ℕ) (env env' : Env) : Type 0 where
    pub same_load : env'.load ≡ env.load
    pub same_var : (n : String) → IsOld k n → env'.var n ≡ env.var n

  -- The expression stands for `x` whatever the temporaries from `k` on hold.
  abbrev pub Stable : ℕ → Env → Exp → RegT → ℕ → Type 0
  Stable k env e t x = (env' : Env) → Agrees k env env' → IsWord env' e t x

  abbrev pub Fact : Type 0
  Fact = Exp × RegT × ℕ

  abbrev pub AllStable : ℕ → Env → List Fact → Type 0
  AllStable k env [] = Unit
  AllStable k env ((e, t, x) ∷ fs) = Stable k env e t x × AllStable k env fs

  -- The output `o` continues `o₀`, whose statements lead from `env₀` to `env₁`: its statements run, they
  -- change no variable but new temporaries, and the facts hold after them and stay true.
  pub record Knows (o₀ : Out) (env₀ env₁ : Env) (o : Out) (facts : List Fact) : Type 0 where
    pub env : Env
    pub runs : exec o.stmts env₀ ≡ some env
    pub old : Agrees o₀.temp_counter env₁ env
    pub grows : o₀.temp_counter ≤ o.temp_counter
    pub known : AllStable o.temp_counter env facts
