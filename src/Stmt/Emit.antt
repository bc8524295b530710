-- ===== src/Stmt/Emit.antt =====
-- Emitting temporaries and their definitions (`mk_temp`, `mk_temp_def` of libasmir/src/vex/irtoir.cpp).
-- A translation that emits is a function from the output to a result and the new output.
use Prim.Native.String.{◌++◌ as append}
use fuzzball.Ir.Types.{Exp, RegT, temp}
use fuzzball.Prelude.{String, [], ℕ, ◌++◌, ◌+◌, ◌∷◌}
use fuzzball.Stmt.{Decimal, Out, move, var_decl}

abbrev pub Emit : Type 0 → Type 0
Emit A = Out → A × Out

infixl 5 ◌>>=◌
abbrev pub ◌>>=◌ : {A B : Type 0} → Emit A → (A → Emit B) → Emit B
◌>>=◌ m f o = let r = m o in f r.0 r.1

abbrev pub pure : {A : Type 0} → A → Emit A
pure a o = (a, o)

module _ (d : Decimal) where
  -- The name of the temporary with the number `n`.
  abbrev pub temp_name : ℕ → String
  temp_name n = append "T_" (d.int_to_str n)

  unfoldable pub mk_temp : RegT → Emit Exp
  mk_temp t o =
      let n = temp_name o.temp_counter in
      (temp t n, record { stmts = o.stmts ++ var_decl n t ∷ []; temp_counter = o.temp_counter + 1 })

  unfoldable pub mk_temp_def : RegT → Exp → Emit Exp
  mk_temp_def t e o = let (v, p) = mk_temp t o in (v, record p { stmts = p.stmts ++ move v e ∷ [] })
