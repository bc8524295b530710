-- ===== src/Ir/Types.antt =====
-- libasmir/src/include/exp.h: the enumerations and the expression classes, and the static functions
-- of `Exp` over register types (libasmir/src/ir/exp.cpp). A `uint64_t` is a native number below 2^64.
use fuzzball.Prelude.{Bool, List, String, false, if◌then◌else◌, refl, true, ℕ, ◌%◌, ◌==◌, ◌^◌, ◌≡◌}

pub data RegT : Type 0 where
  reg_1 reg_8 reg_16 reg_32 reg_64 : RegT

pub data BinopT : Type 0 where
  plus minus times divide : BinopT
  modulo lshift rshift arshift : BinopT
  lrotate rrotate logicand logicor : BinopT
  bitand bitor xor eq : BinopT
  neq gt lt ge : BinopT
  le sdivide smod slt sle : BinopT

pub data FbinopT : Type 0 where
  fplus fminus ftimes fdivide feq fneq flt fle : FbinopT

pub data RoundingMode : Type 0 where
  round_nearest round_nearest_away_zero round_positive round_negative round_zero : RoundingMode

pub data UnopT : Type 0 where
  neg not : UnopT

pub data FunopT : Type 0 where
  fneg : FunopT

pub data CastT : Type 0 where
  cast_unsigned cast_signed cast_high cast_low : CastT

pub data FcastT : Type 0 where
  cast_sfloat cast_ufloat cast_sfix cast_ufix cast_fwiden cast_fnarrow : FcastT

-- One constructor for each subclass of `Exp`. A `Phi` holds a list of `Temp`s, each a type and a name.
pub data Exp : Type 0 where
  bin_op : BinopT → Exp → Exp → Exp
  fbin_op : FbinopT → RoundingMode → Exp → Exp → Exp
  un_op : UnopT → Exp → Exp
  fun_op : FunopT → RoundingMode → Exp → Exp
  mem : Exp → RegT → Exp
  constant : RegT → ℕ → Exp
  phi : String → List (RegT × String) → Exp
  temp : RegT → String → Exp
  unknown : String → Exp
  cast : Exp → RegT → CastT → Exp
  fcast : Exp → RegT → FcastT → RoundingMode → Exp
  vector : Exp → Exp → Exp
  name : String → Exp
  let_in : Exp → Exp → Exp → Exp
  ite : Exp → Exp → Exp → Exp

abbrev pub reg_to_bits : RegT → ℕ
reg_to_bits reg_1 = 1
reg_to_bits reg_8 = 8
reg_to_bits reg_16 = 16
reg_to_bits reg_32 = 32
reg_to_bits reg_64 = 64

-- `cast_value(t, v)`: C's conversion to the unsigned type, except that a Boolean is a test against 0.
unfoldable pub cast_value : RegT → ℕ → ℕ
cast_value reg_1 v = if v == 0 then 0 else 1
cast_value reg_8 v = v % 2 ^ 8
cast_value reg_16 v = v % 2 ^ 16
cast_value reg_32 v = v % 2 ^ 32
cast_value reg_64 v = v % 2 ^ 64

-- Equality of the enumeration's values.
abbrev pub same_reg : RegT → RegT → Bool
same_reg reg_1 reg_1 = true
same_reg reg_8 reg_8 = true
same_reg reg_16 reg_16 = true
same_reg reg_32 reg_32 = true
same_reg reg_64 reg_64 = true
same_reg _ _ = false

pub same_reg_refl : (t : RegT) → same_reg t t ≡ true
same_reg_refl reg_1 = refl
same_reg_refl _ = refl
