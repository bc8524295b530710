-- ===== src/I386/Thunk/Index.antt =====
-- Finding the assignments to the flags thunk, and replacing them by statements that set the flags
-- (`get_thunk_index`, as it is built, and `modify_eflags_helper` of libasmir/src/vex/irtoir-i386.cpp). An
-- exception is `none`. An index is missing where the source has -1.
pub mod Laws
use Prim.Native.String.{◌++◌ as append}
use fuzzball.I386.Thunk.{contains, del_put_thunk}
use fuzzball.Ir.Types.{Exp, name, temp}
use fuzzball.Prelude.{
  Bool, List, Option, String, [], false, if◌then◌else◌, leb, none, some, str_eq, suc, zero, ℕ, ◌+◌,
  ◌++◌, ◌-◌, ◌>>=◌, ◌∷◌,
}
use fuzzball.Prelude.Int.{negsuc, pos, ℤ}
use fuzzball.Stmt.{Out, Stmt, cjmp, comment, label, move}
use fuzzball.Stmt.Fallible.{Fallible}
use fuzzball.Vex.Ite.{Match, at, match_ite}

-- What `get_thunk_index` writes through the pointers, and the copy of the operation that it has seen.
pub record Found : Type 0 where
  pub op : Option ℕ
  pub dep1 : Option ℕ
  pub dep2 : Option ℕ
  pub ndep : Option ℕ
  pub mux0x : Option ℕ
  pub nop : Option ℕ
  pub cc_op_copy : Option String

abbrev pub not_found : Found
not_found = record {
  op = none;
  dep1 = none;
  dep2 = none;
  ndep = none;
  mux0x = none;
  nop = none;
  cc_op_copy = none;
}

-- An assignment of a variable to a variable: the two names.
abbrev pub copied_name : Exp → Stmt → Bool
copied_name (temp w n) (move (temp v m) r) = str_eq m n
copied_name _ _ = false

-- The statement before assigns to the variable that is copied.
unfoldable pub seen_choice : List Stmt → ℕ → Exp → Found → Option Found
seen_choice ir i rhs f =
    if leb 2 i
    then (do
      m ← match_ite ir (i - 2)
      prev ← at ir (i - 1)
      some (elim m [
        | none ↦ f
        | some x ↦
            if copied_name rhs prev then record f { op = some (i - 2); mux0x = some (i - 2) } else f
      ]))
    else some f

-- The operation that was copied before is copied back.
unfoldable pub seen_copy : ℕ → Exp → Found → Found
seen_copy i (temp w n) f = elim f.cc_op_copy [
  | none ↦ f
  | some c ↦ if str_eq n c then record f { nop = some i } else f
]
seen_copy i _ f = f

-- A variable is copied from the register of the operation.
unfoldable pub seen_read : String → Exp → Found → Found
seen_read n (temp w m) f = if contains m "CC_OP" then record f { cc_op_copy = some n } else f
seen_read n _ f = f

-- The body of the loop, for an assignment to a variable.
unfoldable pub seen_move : List Stmt → ℕ → String → Exp → Found → Option Found
seen_move ir i n rhs f =
    if contains n "CC_OP"
    then (do g ← seen_choice ir i rhs (record f { op = some i }); some (seen_copy i rhs g))
    else some (
        if contains n "CC_DEP1"
        then record f { dep1 = some i }
        else if contains n "CC_DEP2"
        then record f { dep2 = some i }
        else if contains n "CC_NDEP"
        then record f { ndep = some i }
        else seen_read n rhs f)

unfoldable pub seen : List Stmt → ℕ → Stmt → Found → Option Found
seen ir i (move (temp w n) rhs) f = seen_move ir i n rhs f
seen ir i _ f = some f

-- The loop, over the statements from number `i` on.
unfoldable pub index_from : List Stmt → ℕ → List Stmt → Found → Option Found
index_from ir i [] f = some f
index_from ir i (s ∷ ss) f = do g ← seen ir i s f; index_from ir (i + 1) ss g

unfoldable pub get_thunk_index : List Stmt → Option Found
get_thunk_index ir = index_from ir 0 ir not_found
