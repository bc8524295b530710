-- ===== src/Ir/Words.antt =====
-- Words that expressions stand for: bounds, and rules for the operations that the translator emits.
use native.Mathlib.Nat.{mod-lt, one-le-pow}
use fuzzball.Ir.Eval.{Env, apply_binop, apply_cast, apply_unop, eval, val}
use fuzzball.Ir.Types.{
  BinopT, CastT, Exp, RegT, UnopT, bin_op, cast, constant, ite, reg_1, reg_16, reg_32, reg_64,
  reg_8, reg_to_bits, same_reg_refl, un_op,
}
use fuzzball.Prelude.{arith, if◌then◌else◌, refl, some, ℕ, ◌%◌, ◌<◌, ◌==◌, ◌^◌, ◌≡◌}

pub two_pow_pos : (k : ℕ) → 0 < 2 ^ k
two_pow_pos k = omega (arith, one-le-pow k 2)

-- The expression has a value, of type `t`, which is the word `x`.
pub record IsWord (env : Env) (e : Exp) (t : RegT) (x : ℕ) : Type 0 where
  pub value : eval env e ≡ some (val t x)
  pub fits : x < 2 ^ reg_to_bits t

module _ {env : Env} where
  pub IsWord-constant : (t : RegT) (v : ℕ) → v < 2 ^ reg_to_bits t → IsWord env (constant t v) t v
  unfolding eval
  IsWord-constant reg_1 v h = record { value = ground arith; fits = h }
  IsWord-constant reg_8 v h = record { value = ground arith; fits = h }
  IsWord-constant reg_16 v h = record { value = ground arith; fits = h }
  IsWord-constant reg_32 v h = record { value = ground arith; fits = h }
  IsWord-constant reg_64 v h = record { value = ground arith; fits = h }

  pub IsWord-bin_op :
      {op : BinopT} {a b : Exp} {t u v : RegT} {x y z : ℕ}
      → IsWord env a t x
      → IsWord env b u y
      → apply_binop op (val t x) (val u y) ≡ some (val v z)
      → z < 2 ^ reg_to_bits v
      → IsWord env (bin_op op a b) v z
  unfolding eval
  IsWord-bin_op ha hb r h = record { value = rw (ha.value, hb.value) r; fits = h }

  pub IsWord-un_op :
      {op : UnopT} {a : Exp} {t v : RegT} {x z : ℕ}
      → IsWord env a t x
      → apply_unop op (val t x) ≡ some (val v z)
      → z < 2 ^ reg_to_bits v
      → IsWord env (un_op op a) v z
  unfolding eval
  IsWord-un_op ha r h = record { value = rw ha.value r; fits = h }

  pub IsWord-cast :
      {c : CastT} {a : Exp} {t v : RegT} {x z : ℕ}
      → IsWord env a t x
      → apply_cast c v (val t x) ≡ some (val v z)
      → z < 2 ^ reg_to_bits v
      → IsWord env (cast a v c) v z
  unfolding eval
  IsWord-cast ha r h = record { value = rw ha.value r; fits = h }

  pub IsWord-ite :
      {c a b : Exp} {t : RegT} {k x y : ℕ}
      → IsWord env c reg_1 k
      → IsWord env a t x
      → IsWord env b t y
      → IsWord env (ite c a b) t (if k == 0 then y else x)
  unfolding eval
  IsWord-ite {t = t} {k = k} {x = x} {y = y} hc ha hb = record {
    value = rw (hc.value, ha.value, hb.value, same_reg_refl t) refl;
    fits = ground arith;
  }

  pub IsWord-eq : {a : Exp} {t : RegT} {x y : ℕ} → IsWord env a t x → x ≡ y → IsWord env a t y
  IsWord-eq {a = a} {t = t} h e = rw e at h

  -- A constant outside the range of its type counts modulo 2^width.
  pub IsWord-constant_mod : (t : RegT) (v : ℕ) → IsWord env (constant t v) t (v % 2 ^ reg_to_bits t)
  unfolding eval
  IsWord-constant_mod t v = record { value = refl; fits = mod-lt _ (two_pow_pos (reg_to_bits t)) }
