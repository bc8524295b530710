-- ===== src/Vex/Ite/Laws.antt =====
-- `match_ite` finds what `emit_ite` has emitted.
use mathlib.Core.List.{append_assoc}
use fuzzball.Ir.Build.{ex_ite}
use fuzzball.Ir.Types.{Exp, RegT, temp}
use fuzzball.Prelude.{List, [], ap, arith, refl, some, suc, ℕ, ◌+◌, ◌++◌, ◌∙◌, ◌∷◌, ◌≡◌, ltb, true}
use fuzzball.Stmt.{Decimal, Out, Stmt, move, var_decl}
use fuzzball.Stmt.Emit.{mk_temp, temp_name}
use fuzzball.Vex.Ite.{at, emit_ite, match_direct, match_ite, size}

at-size : (pre post : List Stmt) (i : ℕ) → at (pre ++ post) (size pre + i) ≡ at post i
at-size [] post i = ap (at post) (omega arith)
at-size (s ∷ pre) post i =
    let e : size pre + 1 + i ≡ suc (size pre + i) = omega arith in
    ap (at (s ∷ pre ++ post)) e ∙ at-size pre post i

size-append : (pre post : List Stmt) → size (pre ++ post) ≡ size pre + size post
size-append [] post = omega arith
size-append (s ∷ pre) post = omega (arith, size-append pre post)

-- After `emit_ite`, whatever was emitted before and is emitted later, `match_ite` at the number of the second of its
-- two statements gives the condition, both expressions and the variable that `emit_ite` gave.
pub match_ite-emit_ite :
    (d : Decimal) (type : RegT) (cond exp_t exp_f : Exp) (o : Out) (post : List Stmt)
    → match_ite ((emit_ite d type cond exp_t exp_f o).1.stmts ++ post) (size o.stmts + 1)
      ≡ some (
          some (record {
            cond = cond;
            exp_t = exp_t;
            exp_f = exp_f;
            res = (emit_ite d type cond exp_t exp_f o).0;
          }))
unfolding match_ite emit_ite mk_temp match_direct
match_ite-emit_ite d type cond exp_t exp_f o post =
    let t = temp type (temp_name d o.temp_counter) in
    let decl = var_decl (temp_name d o.temp_counter) type in
    let last = move t (ex_ite cond exp_t exp_f) in
    let whole : o.stmts ++ decl ∷ [] ++ last ∷ [] ++ post ≡ o.stmts ++ (decl ∷ last ∷ post) =
      append_assoc (o.stmts ++ decl ∷ []) (last ∷ []) post
      ∙ append_assoc o.stmts (decl ∷ []) (last ∷ post) in
    let here : at (o.stmts ++ (decl ∷ last ∷ post)) (size o.stmts + 1) ≡ some last =
      at-size o.stmts (decl ∷ last ∷ post) 1 in
    let inside : ltb (size o.stmts + 1) (size (o.stmts ++ (decl ∷ last ∷ post))) ≡ true =
      ground (arith, size-append o.stmts (decl ∷ last ∷ post)) in
    rw (whole, inside, here) refl
