-- ===== src/I386/Thunk/Modify/Laws.antt =====
-- Where the flags thunk is assigned without a condition, the statements that set the flags follow its assignments,
-- and running them leaves the flags of the operands.
use Prim.Native.String.{◌++◌ as append}
use fuzzball.I386.Flags.Arithmetic.{mod_eflags_sub}
use fuzzball.I386.Flags.Run.{IsFrame, Keeps, fresh}
use fuzzball.I386.Flags.Subtract.{IsCompared, mod_eflags_sub_lem}
use fuzzball.I386.Thunk.{del_put_thunk, put_end}
use fuzzball.I386.Thunk.Index.{Found, get_thunk_index}
use fuzzball.I386.Thunk.Modify.{
  call_mod, conditional, flag_mods, insert_at, mod_func_2, modify_eflags_helper, replace_thunk,
  rhs_at,
}
use fuzzball.Ir.Eval.{Env}
use fuzzball.Ir.Types.{Exp, RegT, reg_32, reg_to_bits}
use fuzzball.Prelude.{
  List, Option, String, [], ap, arith, none, refl, some, suc, ℕ, ◌+◌, ◌++◌, ◌<◌, ◌>>=◌, ◌^◌, ◌∙◌,
  ◌∷◌, ◌≡◌, ◌≤◌,
}
use fuzzball.Stmt.{Decimal, Out, Stmt, comment}
use fuzzball.Stmt.Exec.{exec, exec_stmt}
use fuzzball.Stmt.Fallible.{Fallible}
use fuzzball.Stmt.Laws.{exec-append}
use fuzzball.Vex.Ite.{size}

insert_at-size :
    (pre new post : List Stmt) → insert_at (size pre) new (pre ++ post) ≡ pre ++ new ++ post
insert_at-size [] new post = refl
insert_at-size (s ∷ pre) new post =
    let e : size pre + 1 ≡ suc (size pre) = omega arith in
    ap (λ (n : ℕ). insert_at n new (s ∷ pre ++ post)) e
    ∙ ap (λ (ss : List Stmt). s ∷ ss) (insert_at-size pre new post)

-- A thunk that is assigned without a condition, by assignments with these numbers.
abbrev pub plain : (opi i1 i2 i3 : ℕ) → Option String → Found
plain opi i1 i2 i3 c = record {
  op = some opi;
  dep1 = some i1;
  dep2 = some i2;
  ndep = some i3;
  mux0x = none;
  nop = none;
  cc_op_copy = c;
}

-- The statements of the operation, after those that assign to the thunk.
abbrev pub flagged : String → List Stmt → Out → List Stmt → List Stmt
flagged op pre p post = pre ++ (comment (append "eflags thunk: " op) ∷ p.stmts) ++ post

replaced_lem :
    (on_mod no_mod op : String) (g : Exp → Exp → Fallible (Unit {0})) (pre post : List Stmt)
    (opi i1 i2 i3 k : ℕ) (c : Option String) (a b : Exp) (p : Out)
    → get_thunk_index (pre ++ post) ≡ some (plain opi i1 i2 i3 c)
    → rhs_at (pre ++ post) (some i1) ≡ some a
    → rhs_at (pre ++ post) (some i2) ≡ some b
    → put_end 0 none (pre ++ post) ≡ some (size pre)
    → g a b (fresh k) ≡ some (tt, p)
    → modify_eflags_helper on_mod no_mod op
        (mod_func_2 g)
        (record { stmts = pre ++ post; temp_counter = k })
      ≡ some (tt, record { stmts = flagged op pre p post; temp_counter = p.temp_counter })
unfolding modify_eflags_helper replace_thunk flag_mods call_mod conditional del_put_thunk
replaced_lem on_mod no_mod op g pre post opi i1 i2 i3 k c a b p found at1 at2 place made =
    let new = comment (append "eflags thunk: " op) ∷ p.stmts in
    rw (found, at1, at2, made, place)
      (ap (λ (ss : List Stmt). some (tt, record { stmts = ss; temp_counter = p.temp_counter }))
        (insert_at-size pre new post))

-- Running the vector with the new statements in it.
runs_on :
    (op : String) (pre post : List Stmt) (p : Out) (env env1 env2 : Env)
    → exec pre env ≡ some env1
    → exec p.stmts env1 ≡ some env2
    → exec (flagged op pre p post) env ≡ exec post env2
unfolding exec exec_stmt
runs_on op pre post p env env1 env2 h1 h2 =
    let mods = comment (append "eflags thunk: " op) ∷ p.stmts in
    exec-append (pre ++ mods) post env
    ∙ ap (λ (r : Option Env). r >>= exec post)
        (exec-append pre mods env ∙ ap (λ (r : Option Env). r >>= exec mods) h1 ∙ h2)

-- Where the flags thunk is assigned without a condition, its last assignment ends the first part of the vector, that
-- part runs, and the two operands then have the values `x` and `y` of the width of the type, which is 8, 16 or
-- 32 bits, whatever the flags and new temporaries hold: `modify_eflags_helper` with the function for a
-- subtraction succeeds, and the new vector runs through a state in which all six flags are those of the
-- subtraction and no other variable but new temporaries has changed, and from there on as the second part.
pub modify_eflags_helper-mod_eflags_sub :
    (d : Decimal) (k : ℕ) (t : RegT) (on_mod no_mod op : String) (pre post : List Stmt)
    (opi i1 i2 i3 : ℕ) (c : Option String) (a b : Exp) (x y : ℕ) (env env1 : Env)
    → 8 ≤ reg_to_bits t
    → reg_to_bits t ≤ 32
    → x < 2 ^ reg_to_bits t
    → y < 2 ^ reg_to_bits t
    → get_thunk_index (pre ++ post) ≡ some (plain opi i1 i2 i3 c)
    → rhs_at (pre ++ post) (some i1) ≡ some a
    → rhs_at (pre ++ post) (some i2) ≡ some b
    → put_end 0 none (pre ++ post) ≡ some (size pre)
    → exec pre env ≡ some env1
    → Keeps d k env1 a reg_32 x
    → Keeps d k env1 b reg_32 y
    → (o : Out) × (env2 : Env) × (modify_eflags_helper on_mod no_mod op
          (mod_func_2 (mod_eflags_sub d t))
          (record { stmts = pre ++ post; temp_counter = k })
        ≡ some (tt, o))
      × (exec o.stmts env ≡ exec post env2)
      × IsFrame d k env1 env2
      × IsCompared (reg_to_bits t) x y env2
modify_eflags_helper-mod_eflags_sub d k t on_mod no_mod op pre post opi i1 i2 i3 c a b x y env env1
      l u px py found at1 at2 place ran ka kb =
    let (p, env2, made, runs, frame, flags) =
      mod_eflags_sub_lem d k t a b x y env1 l u px py ka kb in
    (
      record { stmts = flagged op pre p post; temp_counter = p.temp_counter },
      env2,
      replaced_lem on_mod no_mod op (mod_eflags_sub d t) pre post opi i1 i2 i3 k c a b p found at1
          at2 place made,
      runs_on op pre post p env env1 env2 ran runs,
      frame,
      flags,
    )
