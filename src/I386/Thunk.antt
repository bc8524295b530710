-- ===== src/I386/Thunk.antt =====
-- The statements by which VEX puts off the computation of flags (libasmir/src/vex/irtoir-i386.cpp): assignments
-- to and from the registers CC_OP, CC_DEP1, CC_DEP2 and CC_NDEP.
pub mod Index
pub mod Laws
pub mod Modify
pub mod Names
pub mod Reads
use text.Mathlib.Text.{find?}
use fuzzball.Ir.Types.{Exp, temp}
use fuzzball.Prelude.{
  Bool, List, Option, String, [], false, if◌then◌else◌, none, some, true, ℕ, ◌&&◌, ◌+◌, ◌||◌, ◌∷◌,
}
use fuzzball.Prelude.Int.{negsuc, pos, ℤ}
use fuzzball.Stmt.{Stmt, move}

-- `n.find(part) != npos`
abbrev pub contains : String → String → Bool
contains n part = elim (find? n part) [ none ↦ false | some i ↦ true ]

abbrev has_thunk_name : String → Bool
has_thunk_name n =
    contains n "CC_OP" || contains n "CC_DEP1" || contains n "CC_DEP2" || contains n "CC_NDEP"

unfoldable pub is_thunk_temp : Exp → Bool
is_thunk_temp (temp t n) = has_thunk_name n
is_thunk_temp _ = false

-- An assignment from a register of the thunk.
unfoldable pub is_get : Stmt → Bool
is_get (move l r) = is_thunk_temp r
is_get _ = false

-- An assignment to a register of the thunk.
unfoldable pub is_put : Stmt → Bool
is_put (move l r) = is_thunk_temp l
is_put _ = false

-- The loop: a statement that reads the thunk is pushed and popped again.
unfoldable pub del_get_thunk : List Stmt → List Stmt
del_get_thunk [] = []
del_get_thunk (s ∷ ir) = if is_get s then del_get_thunk ir else s ∷ del_get_thunk ir

-- The loop of `del_put_thunk`, with its variables `len` and `end`, which is missing where the source has -1.
unfoldable pub put_end : ℕ → Option ℕ → List Stmt → Option ℕ
put_end len end [] = end
put_end len end (s ∷ ir) = put_end (len + 1) (if is_put s then some (len + 1) else end) ir

abbrev is_index : ℤ → Bool
is_index (pos n) = true
is_index (negsuc n) = false

-- The statements stay as they are; the result is the place after the last assignment to the thunk.
unfoldable pub del_put_thunk : List Stmt → ℤ → ℤ → ℤ → ℤ → ℤ → Option (ℕ × List Stmt)
del_put_thunk ir opi dep1 dep2 ndep mux0x =
    if is_index opi && is_index dep1 && is_index dep2 && is_index ndep
    then elim (put_end 0 none ir) [ none ↦ none | some end ↦ some (end, ir) ]
    else none
