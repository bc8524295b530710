-- ===== src/Ir/Names.antt =====
-- The names of operations in printed and serialised expressions (libasmir/src/ir/exp.cpp).
use fuzzball.Ir.Types.{
  BinopT, CastT, FbinopT, FcastT, FunopT, RegT, RoundingMode, UnopT, arshift, bitand, bitor,
  cast_fnarrow, cast_fwiden, cast_high, cast_low, cast_sfix, cast_sfloat, cast_signed, cast_ufix,
  cast_ufloat, cast_unsigned, divide, eq, fdivide, feq, fle, flt, fminus, fneg, fneq, fplus, ftimes,
  ge, gt, le, logicand, logicor, lrotate, lshift, lt, minus, modulo, neg, neq, not, plus, reg_1,
  reg_16, reg_32, reg_64, reg_8, round_nearest, round_nearest_away_zero, round_negative,
  round_positive, round_zero, rrotate, rshift, sdivide, sle, slt, smod, times, xor,
}
use fuzzball.Prelude.{List, Option, String, [], if◌then◌else◌, none, refl, some, str_eq, ◌∷◌, ◌≡◌}

unfoldable pub binop_to_name : BinopT → String
binop_to_name plus = "PLUS"
binop_to_name minus = "MINUS"
binop_to_name times = "TIMES"
binop_to_name divide = "DIVIDE"
binop_to_name modulo = "MOD"
binop_to_name lshift = "LSHIFT"
binop_to_name rshift = "RSHIFT"
binop_to_name arshift = "ARSHIFT"
binop_to_name lrotate = "LROTATE"
binop_to_name rrotate = "RROTATE"
binop_to_name logicand = "LOGICAND"
binop_to_name logicor = "LOGICOR"
binop_to_name bitand = "BITAND"
binop_to_name bitor = "BITOR"
binop_to_name xor = "XOR"
binop_to_name eq = "EQ"
binop_to_name neq = "NEQ"
binop_to_name gt = "GT"
binop_to_name lt = "LT"
binop_to_name ge = "GE"
binop_to_name le = "LE"
binop_to_name sdivide = "SDIVIDE"
binop_to_name smod = "SMOD"
binop_to_name slt = "SLT"
binop_to_name sle = "SLE"

unfoldable pub binop_to_string : BinopT → String
binop_to_string plus = "+"
binop_to_string minus = "-"
binop_to_string times = "*"
binop_to_string divide = "/"
binop_to_string modulo = "%"
binop_to_string lshift = "<<"
binop_to_string rshift = ">>"
binop_to_string arshift = "@>>"
binop_to_string lrotate = "<<"
binop_to_string rrotate = ">>"
binop_to_string logicand = "&&"
binop_to_string logicor = "||"
binop_to_string bitand = "&"
binop_to_string bitor = "|"
binop_to_string xor = "^"
binop_to_string eq = "=="
binop_to_string neq = "<>"
binop_to_string gt = ">"
binop_to_string lt = "<"
binop_to_string ge = ">="
binop_to_string le = "<="
binop_to_string sdivide = "/$"
binop_to_string smod = "%$"
binop_to_string slt = "<$"
binop_to_string sle = "<=$"

-- The enumeration in the order of its values, which index the tables of strings.
abbrev pub binops : List BinopT
binops =
    plus ∷ minus ∷ times ∷ divide ∷ modulo ∷ lshift ∷ rshift ∷ arshift ∷ lrotate ∷ rrotate
    ∷ logicand ∷ logicor ∷ bitand ∷ bitor ∷ xor ∷ eq ∷ neq ∷ gt ∷ lt ∷ ge ∷ le ∷ sdivide ∷ smod
    ∷ slt ∷ sle ∷ []

-- The first operation with the string.
unfoldable pub find_binop : List BinopT → String → Option BinopT
find_binop [] s = none
find_binop (t ∷ ts) s =
    let rest = find_binop ts s in if str_eq (binop_to_string t) s then some t else rest

-- `none` stands for a string of no operation, on which the source's loop leaves the table: its bound is
-- the size of the table in bytes.
unfoldable pub string_to_binop : String → Option BinopT
string_to_binop s = find_binop binops s

unfoldable pub fbinop_to_string : FbinopT → String
fbinop_to_string fplus = "+."
fbinop_to_string fminus = "-."
fbinop_to_string ftimes = "*."
fbinop_to_string fdivide = "/."
fbinop_to_string feq = "==."
fbinop_to_string fneq = "<>."
fbinop_to_string flt = "<."
fbinop_to_string fle = "<=."

unfoldable pub rounding_mode_to_letter_string : RoundingMode → String
rounding_mode_to_letter_string round_nearest = "e"
rounding_mode_to_letter_string round_nearest_away_zero = "a"
rounding_mode_to_letter_string round_positive = "P"
rounding_mode_to_letter_string round_negative = "N"
rounding_mode_to_letter_string round_zero = "Z"

unfoldable pub fbinop_to_name : FbinopT → String
fbinop_to_name fplus = "FPLUS"
fbinop_to_name fminus = "FMINUS"
fbinop_to_name ftimes = "FTIMES"
fbinop_to_name fdivide = "FDIVIDE"
fbinop_to_name feq = "FEQ"
fbinop_to_name fneq = "FNEQ"
fbinop_to_name flt = "FLT"
fbinop_to_name fle = "FLE"

unfoldable pub unop_to_string : UnopT → String
unop_to_string neg = "NEG"
unop_to_string not = "NOT"

-- `none` stands for the failed assertion.
unfoldable pub string_to_unop : String → Option UnopT
string_to_unop s = if str_eq s "NEG" then some neg else (if str_eq s "NOT" then some not else none)

unfoldable pub funop_to_string : FunopT → String
funop_to_string fneg = "FNEG"

unfoldable pub string_type : RegT → String
string_type reg_1 = "reg1_t"
string_type reg_8 = "reg8_t"
string_type reg_16 = "reg16_t"
string_type reg_32 = "reg32_t"
string_type reg_64 = "reg64_t"

unfoldable pub cast_type_to_string : CastT → String
cast_type_to_string cast_unsigned = "Unsigned"
cast_type_to_string cast_signed = "Signed"
cast_type_to_string cast_high = "High"
cast_type_to_string cast_low = "Low"

unfoldable pub fcast_type_to_string : FcastT → String
fcast_type_to_string cast_sfloat = "SignedFloat"
fcast_type_to_string cast_ufloat = "UnsignedFloat"
fcast_type_to_string cast_sfix = "SignedFix"
fcast_type_to_string cast_ufix = "UnsignedFix"
fcast_type_to_string cast_fwiden = "FloatWiden"
fcast_type_to_string cast_fnarrow = "FloatNarrow"

-- What a printed operation is read as: a rotation is read as the shift with its string.
abbrev pub as_shift : BinopT → BinopT
as_shift lrotate = lshift
as_shift rrotate = rshift
as_shift t = t

-- A printed binary operation is read back, except that a rotation is read as the shift in its
-- direction.
pub string_to_binop-binop_to_string :
    (t : BinopT) → string_to_binop (binop_to_string t) ≡ some (as_shift t)
unfolding string_to_binop find_binop binop_to_string
string_to_binop-binop_to_string plus = refl
string_to_binop-binop_to_string _ = refl

-- A printed unary operation is read back.
pub string_to_unop-unop_to_string : (t : UnopT) → string_to_unop (unop_to_string t) ≡ some t
unfolding string_to_unop unop_to_string
string_to_unop-unop_to_string neg = refl
string_to_unop-unop_to_string not = refl
