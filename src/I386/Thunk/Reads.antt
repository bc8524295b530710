-- ===== src/I386/Thunk/Reads.antt =====
-- `del_get_thunk` against a description of the statements it deletes, in terms of the names of registers.
use mathlib.Core.Bool.{false≢true}
use fuzzball.I386.Thunk.{contains, del_get_thunk, is_get, is_thunk_temp}
use fuzzball.I386.Thunk.Laws.{decided}
use fuzzball.I386.Thunk.Names.{Occurs, Occurs-contains, contains-Occurs}
use fuzzball.Ir.Types.{
  Exp, RegT, bin_op, cast, constant, fbin_op, fcast, fun_op, ite, let_in, mem, name, phi, temp,
  un_op, unknown, vector,
}
use fuzzball.Prelude.{
  arith, Bool, List, String, [], false, inl, inr, refl, sym, ap, true, ◌∙◌, ◌||◌, ◌∷◌, ◌≡◌, ◌⊎◌,
}
use fuzzball.Stmt.{
  Stmt, assert, call, cjmp, comment, exp_stmt, func, jmp, label, move, return, special, var_decl,
}

-- The registers of the thunk.
pub data IsThunkReg : String → Type 0 where
  cc_op : IsThunkReg "CC_OP"
  cc_dep1 : IsThunkReg "CC_DEP1"
  cc_dep2 : IsThunkReg "CC_DEP2"
  cc_ndep : IsThunkReg "CC_NDEP"

-- An assignment from a variable whose name contains that of a register of the thunk.
pub data ReadsThunk : Stmt → Type 0 where
  reads :
      {l : Exp} {t : RegT} {n part : String}
      → IsThunkReg part
      → Occurs part n
      → ReadsThunk (move l (temp t n))

-- The second list is the first without the statements that read the thunk, in the same order.
pub data Deletes : List Stmt → List Stmt → Type 0 where
  none_left : Deletes [] []
  deleted : {s : Stmt} {ir out : List Stmt} → ReadsThunk s → Deletes ir out → Deletes (s ∷ ir) out
  kept :
      {s : Stmt} {ir out : List Stmt} → ¬ ReadsThunk s → Deletes ir out → Deletes (s ∷ ir) (s ∷ out)

or_cases :
    (a b c d : Bool) → (a || b || c || d) ≡ true → (a ≡ true) ⊎ (b ≡ true) ⊎ (c ≡ true) ⊎ (d ≡ true)
or_cases true b c d e = inl refl
or_cases false true c d e = inr (inl refl)
or_cases false false true d e = inr (inr (inl refl))
or_cases false false false d e = inr (inr (inr e))

is_get-ReadsThunk : (s : Stmt) → is_get s ≡ true → ReadsThunk s
unfolding is_get is_thunk_temp
is_get-ReadsThunk (move l (temp t n)) e =
    elim (or_cases (contains n "CC_OP") (contains n "CC_DEP1") (contains n "CC_DEP2")
      (contains n "CC_NDEP") e) [
        | inl h ↦ reads cc_op (contains-Occurs n "CC_OP" h)
        | inr (inl h) ↦ reads cc_dep1 (contains-Occurs n "CC_DEP1" h)
        | inr (inr (inl h)) ↦ reads cc_dep2 (contains-Occurs n "CC_DEP2" h)
        | inr (inr (inr h)) ↦ reads cc_ndep (contains-Occurs n "CC_NDEP" h)
      ]
is_get-ReadsThunk (move l (bin_op o a b)) h = absurd (false≢true h)
is_get-ReadsThunk (move l (fbin_op o r a b)) h = absurd (false≢true h)
is_get-ReadsThunk (move l (un_op o a)) h = absurd (false≢true h)
is_get-ReadsThunk (move l (fun_op o r a)) h = absurd (false≢true h)
is_get-ReadsThunk (move l (mem a t)) h = absurd (false≢true h)
is_get-ReadsThunk (move l (constant t v)) h = absurd (false≢true h)
is_get-ReadsThunk (move l (phi n vs)) h = absurd (false≢true h)
is_get-ReadsThunk (move l (unknown n)) h = absurd (false≢true h)
is_get-ReadsThunk (move l (cast a t c)) h = absurd (false≢true h)
is_get-ReadsThunk (move l (fcast a t c r)) h = absurd (false≢true h)
is_get-ReadsThunk (move l (vector a b)) h = absurd (false≢true h)
is_get-ReadsThunk (move l (name n)) h = absurd (false≢true h)
is_get-ReadsThunk (move l (let_in a b c)) h = absurd (false≢true h)
is_get-ReadsThunk (move l (ite a b c)) h = absurd (false≢true h)
is_get-ReadsThunk (var_decl n t) h = absurd (false≢true h)
is_get-ReadsThunk (label n) h = absurd (false≢true h)
is_get-ReadsThunk (jmp a) h = absurd (false≢true h)
is_get-ReadsThunk (cjmp a b c) h = absurd (false≢true h)
is_get-ReadsThunk (special n) h = absurd (false≢true h)
is_get-ReadsThunk (comment n) h = absurd (false≢true h)
is_get-ReadsThunk (exp_stmt a) h = absurd (false≢true h)
is_get-ReadsThunk (call r f es) h = absurd (false≢true h)
is_get-ReadsThunk (return r) h = absurd (false≢true h)
is_get-ReadsThunk (func n b t ps c ss) h = absurd (false≢true h)
is_get-ReadsThunk (assert a) h = absurd (false≢true h)

ReadsThunk-is_get : {s : Stmt} → ReadsThunk s → is_get s ≡ true
unfolding is_get is_thunk_temp
ReadsThunk-is_get (reads {n} cc_op h) = rw (Occurs-contains n "CC_OP" h) refl
ReadsThunk-is_get (reads {n} cc_dep1 h) = rw (Occurs-contains n "CC_DEP1" h) (ground arith)
ReadsThunk-is_get (reads {n} cc_dep2 h) = rw (Occurs-contains n "CC_DEP2" h) (ground arith)
ReadsThunk-is_get (reads {n} cc_ndep h) = rw (Occurs-contains n "CC_NDEP" h) (ground arith)

del_get_thunk-Deletes : (ir : List Stmt) → Deletes ir (del_get_thunk ir)
unfolding del_get_thunk
del_get_thunk-Deletes [] = none_left
del_get_thunk-Deletes (s ∷ ir) = elim (decided (is_get s)) [
  | inl e ↦ rw e (deleted (is_get-ReadsThunk s e) (del_get_thunk-Deletes ir))
  | inr e ↦ rw e (kept (λ r. false≢true (sym e ∙ ReadsThunk-is_get r)) (del_get_thunk-Deletes ir))
]

not_read : (s : Stmt) → ¬ ReadsThunk s → is_get s ≡ false
not_read s h = elim (decided (is_get s)) [ inl e ↦ absurd (h (is_get-ReadsThunk s e)) | inr e ↦ e ]

Deletes-only : {ir out : List Stmt} → Deletes ir out → out ≡ del_get_thunk ir
unfolding del_get_thunk
Deletes-only none_left = refl
Deletes-only (deleted r h) = rw (ReadsThunk-is_get r) (Deletes-only h)
Deletes-only (kept {s} r h) = rw (not_read s r) (ap (λ l. s ∷ l) (Deletes-only h))

-- `del_get_thunk` deletes exactly the assignments from a variable whose name contains CC_OP, CC_DEP1, CC_DEP2 or
-- CC_NDEP: its result is the list of the other statements in their order, and no other list is.
pub del_get_thunk_lem :
    (ir : List Stmt)
    → Deletes ir (del_get_thunk ir) × ((out : List Stmt) → Deletes ir out → out ≡ del_get_thunk ir)
del_get_thunk_lem ir = (del_get_thunk-Deletes ir, λ out h. Deletes-only h)
