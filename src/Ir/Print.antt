-- ===== src/Ir/Print.antt =====
-- The `tostring` methods of the expression classes (libasmir/src/ir/exp.cpp). The decimal form of a number
-- comes from the stream library.
use Prim.Native.String.{◌++◌ as append}
use fuzzball.Ir.Names.{
  binop_to_string, fbinop_to_string, rounding_mode_to_letter_string, string_type,
}
use fuzzball.Ir.Types.{
  BinopT, CastT, Exp, FbinopT, FcastT, FunopT, RegT, RoundingMode, UnopT, bin_op, cast,
  cast_fnarrow, cast_fwiden, cast_high, cast_low, cast_sfix, cast_sfloat, cast_signed, cast_ufix,
  cast_ufloat, cast_unsigned, cast_value, constant, fbin_op, fcast, fneg, fun_op, ite, let_in, mem,
  name, neg, not, phi, temp, un_op, unknown, vector,
}
use fuzzball.Prelude.{List, String, [], ℕ, ◌∷◌}

infixr 6 ◌&◌
abbrev pub ◌&◌ : String → String → String
◌&◌ s t = append s t

unfoldable pub parens : String → String
parens s = "(" & s & ")"

unfoldable pub bin_op_tostring : BinopT → String → String → String
bin_op_tostring t l r = parens (l & binop_to_string t & r)

unfoldable pub fbin_op_tostring : FbinopT → RoundingMode → String → String → String
fbin_op_tostring t rm l r =
    parens (l & " " & fbinop_to_string t & rounding_mode_to_letter_string rm & " " & r)

unfoldable pub un_op_tostring : UnopT → String → String
un_op_tostring neg e = parens ("-" & e)
un_op_tostring not e = parens ("!" & e)

unfoldable pub fun_op_tostring : FunopT → RoundingMode → String → String
fun_op_tostring fneg rm e = parens ("-." & rounding_mode_to_letter_string rm & " " & e)

unfoldable pub mem_tostring : String → String
mem_tostring a = "mem[" & a & "]"

-- The value that is printed is converted to the type first.
unfoldable pub constant_tostring : (ℕ → String) → RegT → ℕ → String
constant_tostring dec t v = dec (cast_value t v) & ":" & string_type t

unfoldable pub temp_tostring : RegT → String → String
temp_tostring t n = n & ":" & string_type t

unfoldable pub phi_vars_tostring : String → List (RegT × String) → String
phi_vars_tostring comma [] = ""
phi_vars_tostring comma ((t, n) ∷ vs) = comma & temp_tostring t n & phi_vars_tostring "," vs

unfoldable pub phi_tostring : List (RegT × String) → String
phi_tostring vs = "PHI(" & phi_vars_tostring " " vs & " )"

unfoldable pub ite_tostring : String → String → String → String
ite_tostring c t f = "(" & c & " ? " & t & " : " & f & ")"

unfoldable pub name_tostring : String → String
name_tostring n = "name(" & n & ")"

abbrev pub cast_letter : CastT → String
cast_letter cast_unsigned = "U"
cast_letter cast_signed = "S"
cast_letter cast_high = "H"
cast_letter cast_low = "L"

unfoldable pub cast_tostring : String → RegT → CastT → String
cast_tostring e t c = "cast(" & e & ")" & cast_letter c & ":" & string_type t

abbrev pub fcast_letters : FcastT → String
fcast_letters cast_sfloat = "SFloat"
fcast_letters cast_ufloat = "UFloat"
fcast_letters cast_sfix = "SFix"
fcast_letters cast_ufix = "UFix"
fcast_letters cast_fwiden = "FWiden"
fcast_letters cast_fnarrow = "FNarrow"

unfoldable pub fcast_tostring : String → RegT → FcastT → RoundingMode → String
fcast_tostring e t c rm =
    "cast."
    & rounding_mode_to_letter_string rm
    & "("
    & e
    & ")"
    & fcast_letters c
    & ":"
    & string_type t

unfoldable pub vector_tostring : String → String → String
vector_tostring h l = "[" & h & ", " & l & "]"

unfoldable pub unknown_tostring : String → String
unknown_tostring s = "unknown \"" & s & "\""

unfoldable pub let_tostring : String → String → String → String
let_tostring v e b = "(let " & v & " = " & e & " in " & b & ")"

-- The virtual call: each class prints its parts and puts them together.
unfoldable pub tostring : (ℕ → String) → Exp → String
tostring dec (bin_op t l r) = bin_op_tostring t (tostring dec l) (tostring dec r)
tostring dec (fbin_op t rm l r) = fbin_op_tostring t rm (tostring dec l) (tostring dec r)
tostring dec (un_op t e) = un_op_tostring t (tostring dec e)
tostring dec (fun_op t rm e) = fun_op_tostring t rm (tostring dec e)
tostring dec (mem a t) = mem_tostring (tostring dec a)
tostring dec (constant t v) = constant_tostring dec t v
tostring dec (phi n vs) = phi_tostring vs
tostring dec (temp t n) = temp_tostring t n
tostring dec (unknown s) = unknown_tostring s
tostring dec (cast e t c) = cast_tostring (tostring dec e) t c
tostring dec (fcast e t c rm) = fcast_tostring (tostring dec e) t c rm
tostring dec (vector h l) = vector_tostring (tostring dec h) (tostring dec l)
tostring dec (name n) = name_tostring n
tostring dec (let_in v e b) = let_tostring (tostring dec v) (tostring dec e) (tostring dec b)
tostring dec (ite c t f) = ite_tostring (tostring dec c) (tostring dec t) (tostring dec f)
