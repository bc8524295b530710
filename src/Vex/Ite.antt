-- ===== src/Vex/Ite.antt =====
-- Choices between two expressions: the statements that make one (`emit_ite` of libasmir/src/vex/irtoir.cpp, as it is
-- built, without the two alternatives of the preprocessor), and finding one in a vector of statements
-- (`match_ite`).
pub mod Laws
use fuzzball.Ir.Types.{
  Exp, RegT, bin_op, bitand, bitor, cast, cast_signed, ite, name, not, temp, un_op,
}
use fuzzball.Ir.Build.{ex_ite}
use fuzzball.Prelude.{
  Bool, List, Option, [], false, if◌then◌else◌, leb, ltb, none, some, str_eq, suc, true, zero, ℕ,
  ◌&&◌, ◌+◌, ◌++◌, ◌-◌, ◌>>=◌, ◌∷◌,
}
use fuzzball.Stmt.{Decimal, Out, Stmt, cjmp, label, move}
use fuzzball.Stmt.Emit.{Emit, mk_temp}

-- `vector::at`, which throws beyond the end, and `vector::size`.
abbrev pub at : List Stmt → ℕ → Option Stmt
at [] i = none
at (s ∷ ss) zero = some s
at (s ∷ ss) (suc i) = at ss i

abbrev pub size : List Stmt → ℕ
size [] = 0
size (s ∷ ss) = size ss + 1

module _ (d : Decimal) where
  unfoldable pub emit_ite : RegT → Exp → Exp → Exp → Emit Exp
  emit_ite type cond exp_t exp_f o =
      let (t, p) = mk_temp d type o in
      (t, record p { stmts = p.stmts ++ move t (ex_ite cond exp_t exp_f) ∷ [] })

-- What a match writes through the pointers.
pub record Match : Type 0 where
  pub cond : Exp
  pub exp_t : Exp
  pub exp_f : Exp
  pub res : Exp

abbrev pub is_move : Stmt → Bool
is_move (move l r) = true
is_move _ = false

abbrev pub is_label : Stmt → Bool
is_label (label l) = true
is_label _ = false

abbrev pub is_cjmp : Stmt → Bool
is_cjmp (cjmp c t f) = true
is_cjmp _ = false

abbrev pub is_ite_move : Stmt → Bool
is_ite_move (move l (ite c t f)) = true
is_ite_move _ = false

-- An assignment of a choice to a variable.
unfoldable pub match_direct : Stmt → Option Match
match_direct (move (temp w n) (ite c t f)) =
    some (record { cond = c; exp_t = t; exp_f = f; res = temp w n })
match_direct _ = none

-- An assignment of a choice, and two copies of its result.
unfoldable pub match_copied : Stmt → Stmt → Stmt → Option Match
match_copied (move (temp w0 l0) (ite c t f)) (move (temp w1 l1) (temp v1 r1))
      (move (temp w2 l2) (temp v2 r2)) =
    if str_eq l0 r1 && str_eq l1 r2
    then some (record { cond = c; exp_t = t; exp_f = f; res = temp w2 l2 })
    else none
match_copied _ _ _ = none

-- A jump around a second assignment of the same variable.
unfoldable pub match_jump : Stmt → Stmt → Stmt → Stmt → Stmt → Option Match
match_jump (move (temp w0 l0) t) (cjmp c (name nt) (name nf)) (label l2) (move (temp w3 l3) f)
      (label l4) =
    if str_eq l0 l3 && (str_eq nf l2 && str_eq nt l4)
    then some (record { cond = c; exp_t = t; exp_f = f; res = temp w0 l0 })
    else none
match_jump _ _ _ _ _ = none

-- A choice bit by bit, by a widened condition.
unfoldable pub match_bits : Stmt → Stmt → Option Match
match_bits (move (temp w0 l0) (cast c wc cast_signed))
      (move
        (temp w1 l1)
        (bin_op bitor (bin_op bitand t (temp wt nt)) (bin_op bitand f (un_op not (temp wf nf))))) =
    if str_eq l0 nt && str_eq l0 nf
    then some (record { cond = c; exp_t = t; exp_f = f; res = temp w1 l1 })
    else none
match_bits _ _ = none

-- The last test: the outer `none` is an exception, the inner a result of -1.
unfoldable pub match_two : List Stmt → ℕ → Stmt → Option (Option Match)
match_two ir i s0 = do s1 ← at ir (i + 1); some (if is_move s1 then match_bits s0 s1 else none)

-- The test of five statements, in the order of the reads, and else the last one.
unfoldable pub match_five : List Stmt → ℕ → Stmt → Option (Option Match)
match_five ir i s0 = do
  s3 ← at ir (i + 3)
  s2 ← at ir (i + 2)
  s4 ← if is_move s3 && is_label s2 then at ir (i + 4) else some s0
  s1 ← at ir (i + 1)
  if is_move s3 && is_label s2 && is_label s4 && is_cjmp s1
      then some (match_jump s0 s1 s2 s3 s4)
      else match_two ir i s0

-- From the first of the statements on.
unfoldable pub match_from : List Stmt → ℕ → Stmt → Option (Option Match)
match_from ir i s = if is_move s then match_five ir i s else some none

-- Up to the last of three statements, and else from the first of the statements on.
unfoldable pub match_three : List Stmt → ℕ → Stmt → Option (Option Match)
match_three ir i s = do
  s0 ← at ir (i - 2)
  s1 ← at ir (i - 1)
  if is_move s0 && is_move s1 && is_move s then some (match_copied s0 s1 s) else match_from ir i s

unfoldable pub match_ite : List Stmt → ℕ → Option (Option Match)
match_ite ir i =
    if ltb i (size ir)
    then (do
      s ← at ir i
      if is_ite_move s
          then some (match_direct s)
          else if leb 2 i
          then match_three ir i s
          else match_from ir i s)
    else some none
