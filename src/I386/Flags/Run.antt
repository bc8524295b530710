-- ===== src/I386/Flags/Run.antt =====
-- Running the statements that set flags: registers and temporaries are different variables, and an expression
-- that reads neither the flags nor new temporaries keeps its value.
use Prim.Native.String.{◌++◌ as append}
use text.Mathlib.TextPositions.{eq_refl, slice-append_left}
use Prim.Native.String.{slice}
use text.Mathlib.TextEquality.{eq_iff}
use native.Mathlib.Nat.{mod-eq_of_lt}
use mathlib.Core.Bool.{false≢true}
use fuzzball.Ir.Eval.{Env, assign, eval, val}
use fuzzball.Ir.Types.{Exp, RegT, reg_to_bits, same_reg_refl, temp}
use fuzzball.Prelude.{
  Bool, List, String, [], ap, arith, false, refl, some, str_eq, sym, true, ℕ, ◌+◌, ◌<◌, ◌^◌, ◌||◌,
  ◌∙◌, ◌∷◌, ◌≡◌, ◌≢◌, ◌≤◌,
}
use fuzzball.Stmt.{Decimal, Out, Stmt, move, var_decl}
use fuzzball.Stmt.Emit.{temp_name}
use fuzzball.Stmt.Exec.{exec, exec_stmt}
use fuzzball.Stmt.Laws.{temp_name-injective}

-- The registers of the status flags.
abbrev pub is_status : String → Bool
is_status n =
    str_eq n "R_CF"
    || str_eq n "R_PF"
    || str_eq n "R_AF"
    || str_eq n "R_ZF"
    || str_eq n "R_SF"
    || str_eq n "R_OF"

pub reg-ne-temp : (n s : String) → append "R_" n ≢ append "T_" s
reg-ne-temp n s e =
    let same : "R_" ≡ "T_" =
      sym (slice-append_left "R_" n) ∙ ap (λ x. slice x 0 2) e ∙ slice-append_left "T_" s in
    absurd (false≢true (ap (λ x. str_eq x "T_") same))

temp-ne-reg : (n s : String) → append "T_" s ≢ append "R_" n
temp-ne-reg n s e = reg-ne-temp n s (sym e)

other-name : (m n : String) → m ≢ n → str_eq m n ≡ false
other-name m n h = ground (arith, eq_iff m n, h)

same-name : (m n : String) → str_eq m n ≡ true → m ≡ n
same-name m n h = (eq_iff m n).0 h

pub assign-here : (n : String) (x : ℕ) (env : Env) → (assign n x env).var n ≡ x
assign-here n x env = rw (eq_refl n) refl

pub assign-other : (m n : String) (x : ℕ) (env : Env) → m ≢ n → (assign n x env).var m ≡ env.var m
assign-other m n x env h = rw (other-name m n h) refl

-- Runs of declarations and assignments.
pub data Runs : List Stmt → Env → Env → Type 0 where
  done : {env : Env} → Runs [] env env
  declared :
      {n : String} {t : RegT} {ss : List Stmt} {env env' : Env}
      → Runs ss env env'
      → Runs (var_decl n t ∷ ss) env env'
  assigned :
      {t : RegT} {n : String} {e : Exp} {x : ℕ} {ss : List Stmt} {env env' : Env}
      → eval env e ≡ some (val t x)
      → Runs ss (assign n x env) env'
      → Runs (move (temp t n) e ∷ ss) env env'

pub Runs-exec : {ss : List Stmt} {env env' : Env} → Runs ss env env' → exec ss env ≡ some env'
unfolding exec exec_stmt
Runs-exec done = refl
Runs-exec (declared r) = Runs-exec r
Runs-exec (assigned {t} h r) = rw (h, same_reg_refl t) (Runs-exec r)

-- An output that starts empty.
abbrev pub fresh : ℕ → Out
fresh k = record { stmts = []; temp_counter = k }

module _ (d : Decimal) where
  pub temp-not_status : (k : ℕ) → is_status (temp_name d k) ≡ false
  temp-not_status k =
      let s = d.int_to_str k in
      rw
        (
          other-name (temp_name d k) "R_CF" (temp-ne-reg "CF" s),
          other-name (temp_name d k) "R_PF" (temp-ne-reg "PF" s),
          other-name (temp_name d k) "R_AF" (temp-ne-reg "AF" s),
          other-name (temp_name d k) "R_ZF" (temp-ne-reg "ZF" s),
          other-name (temp_name d k) "R_SF" (temp-ne-reg "SF" s),
          other-name (temp_name d k) "R_OF" (temp-ne-reg "OF" s),
        )
        refl

  -- The variables but the status flags and the temporaries from `k` on are the same.
  pub record IsFrame (k : ℕ) (env env' : Env) : Type 0 where
    pub same_load : env'.load ≡ env.load
    pub same_var :
        (n : String)
        → is_status n ≡ false
        → ((i : ℕ) → k ≤ i → n ≢ temp_name d i)
        → env'.var n ≡ env.var n

  -- The expression has the value whatever the flags and the new temporaries hold.
  abbrev pub Keeps : ℕ → Env → Exp → RegT → ℕ → Type 0
  Keeps k env e t x = (env' : Env) → IsFrame k env env' → eval env' e ≡ some (val t x)

  pub IsFrame-refl : (k : ℕ) (env : Env) → IsFrame k env env
  IsFrame-refl k env = record { same_load = refl; same_var = λ n s o. refl }

  pub IsFrame-trans :
      {j k : ℕ} {a b c : Env} → j ≤ k → IsFrame j a b → IsFrame k b c → IsFrame j a c
  IsFrame-trans later p q = record {
    same_load = q.same_load ∙ p.same_load;
    same_var = λ n s o. q.same_var n s (λ i h. o i (omega arith)) ∙ p.same_var n s o;
  }

  pub assign_flag-IsFrame :
      (k : ℕ) (n : String) (x : ℕ) (env : Env) → is_status n ≡ true → IsFrame k env (assign n x env)
  assign_flag-IsFrame k n x env h = record {
    same_load = refl;
    same_var = λ m s o. assign-other m n x env (λ e. false≢true (sym s ∙ ap is_status e ∙ h));
  }

  -- Another flag is set.
  pub set-IsFrame :
      {k : ℕ} {env env' : Env} (n : String) (x : ℕ)
      → is_status n ≡ true
      → IsFrame k env env'
      → IsFrame k env (assign n x env')
  set-IsFrame {k} {env} {env'} n x h f =
      IsFrame-trans (omega arith) f (assign_flag-IsFrame k n x env' h)

  pub assign_temp-IsFrame : (k x : ℕ) (env : Env) → IsFrame k env (assign (temp_name d k) x env)
  assign_temp-IsFrame k x env = record {
    same_load = refl;
    same_var = λ m s o. assign-other m (temp_name d k) x env (o k (omega arith));
  }

  pub Keeps-later :
      {j k : ℕ} {a b : Env} (e : Exp) (t : RegT) (x : ℕ)
      → j ≤ k
      → IsFrame j a b
      → Keeps j a e t x
      → Keeps k b e t x
  Keeps-later e t x later p h env2 q = h env2 (IsFrame-trans later p q)

  -- A new temporary keeps what is assigned to it.
  pub temp-Keeps :
      (k x : ℕ) (t : RegT) (env : Env)
      → x < 2 ^ reg_to_bits t
      → Keeps (k + 1) (assign (temp_name d k) x env) (temp t (temp_name d k)) t x
  unfolding eval
  temp-Keeps k x t env fits env2 q =
      rw
        (
          q.same_var (temp_name d k) (temp-not_status k)
              (λ i h e. absurd (omega (arith, temp_name-injective d k i e))),
          assign-here (temp_name d k) x env,
          mod-eq_of_lt fits,
        )
        refl
