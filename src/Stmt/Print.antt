-- ===== src/Stmt/Print.antt =====
-- The `tostring` methods of the statement classes (libasmir/src/ir/stmt.cpp).
use fuzzball.Ir.Names.{string_type}
use fuzzball.Ir.Print.{tostring, ◌&◌}
use fuzzball.Ir.Types.{Exp, RegT, name}
use fuzzball.Prelude.{Bool, List, Option, String, [], if◌then◌else◌, map, none, some, ℕ, ◌∷◌}
use fuzzball.Stmt.{
  Stmt, Stmts, assert, call, cjmp, comment, cons, exp_stmt, func, jmp, label, move, nil, return,
  special, var_decl,
}

-- The separator stands between two elements, none after the last.
unfoldable pub comma_separated : List String → String
comma_separated [] = ""
comma_separated (s ∷ []) = s
comma_separated (s ∷ t ∷ ss) = s & ", " & comma_separated (t ∷ ss)

unfoldable pub var_decl_tostring : String → RegT → String
var_decl_tostring n t = "var " & n & ":" & string_type t & ";"

unfoldable pub callee_tostring : (ℕ → String) → Exp → String
callee_tostring dec (name n) = n
callee_tostring dec e = "call " & tostring dec e

unfoldable pub lval_tostring : (ℕ → String) → Option Exp → String
lval_tostring dec none = ""
lval_tostring dec (some e) = tostring dec e & " = "

unfoldable pub call_tostring : (ℕ → String) → Option Exp → Exp → List Exp → String
call_tostring dec lval callee params =
    lval_tostring dec lval
    & callee_tostring dec callee
    & "("
    & comma_separated (map (tostring dec) params)
    & ");"

unfoldable pub return_tostring : (ℕ → String) → Option Exp → String
return_tostring dec none = "return" & ";"
return_tostring dec (some e) = "return" & " " & tostring dec e & ";"

unfoldable pub params_tostring : List (String × RegT) → List String
params_tostring [] = []
params_tostring ((n, t) ∷ ps) = var_decl_tostring n t ∷ params_tostring ps

unfoldable pub func_head : String → Bool → RegT → List (String × RegT) → Bool → String
func_head n has_rv rt params external =
    (if external then "extern " else "")
    & (if has_rv then string_type rt & " " else "void ")
    & n
    & "("
    & comma_separated (params_tostring params)
    & ")"

unfoldable pub move_tostring : (ℕ → String) → Exp → Exp → String
move_tostring dec l r = tostring dec l & " = " & tostring dec r & ";"

unfoldable pub label_tostring : String → String
label_tostring l = "label " & l & ":"

unfoldable pub jmp_tostring : (ℕ → String) → Exp → String
jmp_tostring dec e = "jmp(" & tostring dec e & ");"

unfoldable pub cjmp_tostring : (ℕ → String) → Exp → Exp → Exp → String
cjmp_tostring dec c t f =
    "cjmp(" & tostring dec c & "," & tostring dec t & "," & tostring dec f & ");"

unfoldable pub special_tostring : String → String
special_tostring s = "special(\"" & s & "\");"

unfoldable pub comment_tostring : String → String
comment_tostring s = "//" & s

unfoldable pub exp_stmt_tostring : (ℕ → String) → Exp → String
exp_stmt_tostring dec e = tostring dec e & ";"

unfoldable pub assert_tostring : (ℕ → String) → Exp → String
assert_tostring dec c = "assert(" & tostring dec c & ");"

unfoldable mutual
  pub stmt_tostring : (ℕ → String) → Stmt → String
  stmt_tostring dec (var_decl n t) = var_decl_tostring n t
  stmt_tostring dec (move l r) = move_tostring dec l r
  stmt_tostring dec (label l) = label_tostring l
  stmt_tostring dec (jmp e) = jmp_tostring dec e
  stmt_tostring dec (cjmp c t f) = cjmp_tostring dec c t f
  stmt_tostring dec (special s) = special_tostring s
  stmt_tostring dec (comment s) = comment_tostring s
  stmt_tostring dec (exp_stmt e) = exp_stmt_tostring dec e
  stmt_tostring dec (call lval callee params) = call_tostring dec lval callee params
  stmt_tostring dec (return e) = return_tostring dec e
  stmt_tostring dec (func n has_rv rt params external body) =
      func_head n has_rv rt params external & body_tostring dec body
  stmt_tostring dec (assert c) = assert_tostring dec c

  pub body_tostring : (ℕ → String) → Stmts → String
  body_tostring dec nil = ";"
  body_tostring dec (cons s ss) =
      "\n" & "{\n" & "\t" & stmt_tostring dec s & "\n" & lines_tostring dec ss & "}"

  pub lines_tostring : (ℕ → String) → Stmts → String
  lines_tostring dec nil = ""
  lines_tostring dec (cons s ss) = "\t" & stmt_tostring dec s & "\n" & lines_tostring dec ss
