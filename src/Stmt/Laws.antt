-- ===== src/Stmt/Laws.antt =====
-- Emitted definitions run, and what is known of earlier values stays known.
use text.Mathlib.TextEquality.{eq_iff}
use text.Mathlib.TextLemmas.{append_cancel_left}
use native.Mathlib.Nat.{mod-eq_of_lt}
use text.Mathlib.TextPositions.{eq_refl}
use fuzzball.Ir.Eval.{Env, assign, eval, val, word}
use fuzzball.Ir.Types.{Exp, RegT, same_reg_refl}
use fuzzball.Ir.Words.{IsWord}
use fuzzball.Prelude.{List, [], arith, none, refl, some, ℕ, ◌++◌, ◌+◌, ◌>>=◌, ◌∙◌, ◌∷◌, ◌≡◌, ◌≤◌}
use fuzzball.Stmt.{Decimal, Out, Stmt}
use fuzzball.Stmt.Emit.{mk_temp, mk_temp_def, temp_name}
use fuzzball.Stmt.Exec.{Agrees, AllStable, Fact, Knows, Stable, exec, exec_stmt}

-- Running two lists of statements one after the other is running the first and then, where it
-- ends, the second.
pub exec-append : (xs ys : List Stmt) (env : Env) → exec (xs ++ ys) env ≡ (exec xs env >>= exec ys)
unfolding exec
exec-append [] ys env = refl
exec-append (s ∷ xs) ys env =
    elim (exec_stmt s env) as (λ r. (r >>= exec (xs ++ ys)) ≡ ((r >>= exec xs) >>= exec ys)) [
      | none ↦ refl
      | some env' ↦ exec-append xs ys env'
    ]

module _ (d : Decimal) where
  pub temp_name-injective : (m n : ℕ) → temp_name d m ≡ temp_name d n → m ≡ n
  temp_name-injective m n e = d.injective m n (append_cancel_left "T_" _ _ e)

  pub Agrees-refl : (k : ℕ) (env : Env) → Agrees d k env env
  Agrees-refl k env = record { same_load = refl; same_var = λ n o. refl }

  pub Agrees-trans :
      {j k : ℕ} {a b c : Env} → j ≤ k → Agrees d j a b → Agrees d k b c → Agrees d j a c
  Agrees-trans later p q = record {
    same_load = q.same_load ∙ p.same_load;
    same_var = λ n o. q.same_var n (λ i h. o i (omega arith)) ∙ p.same_var n o;
  }

  -- A new temporary is no old variable.
  assign-Agrees : (k x : ℕ) (env : Env) → Agrees d k env (assign (temp_name d k) x env)
  assign-Agrees k x env = record {
    same_load = refl;
    same_var = λ n o. ground (arith, eq_iff n (temp_name d k), o k (omega arith));
  }

  AllStable-later :
      {j k : ℕ} {a b : Env} (fs : List (Fact d))
      → j ≤ k
      → Agrees d j a b
      → AllStable d j a fs
      → AllStable d k b fs
  AllStable-later [] later p s = tt
  AllStable-later ((e, t, x) ∷ fs) later p s =
      ((λ c q. s.0 c (Agrees-trans later p q)), AllStable-later fs later p s.1)

  module _ {o₀ : Out} {env₀ env₁ : Env} where
    -- A fact holds where it is known.
    pub now :
        {o : Out} {fs : List (Fact d)} {e : Exp} {t : RegT} {x : ℕ} (k : Knows d o₀ env₀ env₁ o fs)
        → Stable d o.temp_counter k.env e t x
        → IsWord k.env e t x
    now {o = o} k s = s k.env (Agrees-refl o.temp_counter k.env)

    -- What is known, less the facts.
    unfoldable pub forget :
        {o : Out} {fs : List (Fact d)} → Knows d o₀ env₀ env₁ o fs → Knows d o₀ env₀ env₁ o []
    forget k = record { env = k.env; runs = k.runs; old = k.old; grows = k.grows; known = tt }

    -- Where the output has run and the expression stands for the word `x`, the output with the
    -- definition of a new temporary runs too, changes no variable but new temporaries, and the
    -- temporary stands for `x`, as all that was known of other expressions stays known.
    pub mk_temp_def_lem :
        {o : Out} {fs : List (Fact d)} {e : Exp} {t : RegT} {x : ℕ} (k : Knows d o₀ env₀ env₁ o fs)
        → IsWord k.env e t x
        → Knows d o₀ env₀ env₁ (mk_temp_def d t e o).1 (((mk_temp_def d t e o).0, t, x) ∷ fs)
    unfolding mk_temp_def mk_temp exec exec_stmt eval
    mk_temp_def_lem {o = o} {fs = fs} {e = e} {t = t} {x = x} k h =
        let n = temp_name d o.temp_counter in
        let next = assign n x k.env in
        record {
          env = next;
          runs = rw (exec-append, exec-append, k.runs, h.value, same_reg_refl t);
          old = Agrees-trans k.grows k.old (assign-Agrees o.temp_counter x k.env);
          grows = omega (arith, k.grows);
          known = (
            (λ c q. record { value = stored c q; fits = h.fits }),
            AllStable-later fs (omega arith) (assign-Agrees o.temp_counter x k.env) k.known,
          );
        }
      where
        stored :
            (c : Env)
            → Agrees d (o.temp_counter + 1) (assign (temp_name d o.temp_counter) x k.env) c
            → word t (c.var (temp_name d o.temp_counter)) ≡ some (val t x)
        stored c q = rw (
          q.same_var (temp_name d o.temp_counter)
              (λ i p e. absurd (omega (arith, temp_name-injective o.temp_counter i e))),
          eq_refl (temp_name d o.temp_counter),
          mod-eq_of_lt h.fits,
        )
