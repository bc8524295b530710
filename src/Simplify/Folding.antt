-- ===== src/Simplify/Folding.antt =====
-- Folding constants: the constant that replaces an operation has its value.
use fuzzball.Ir.Eval.{Env, eval, val}
use fuzzball.Ir.Types.{
  Exp, RegT, bin_op, cast_value, constant, minus, plus, reg_1, reg_16, reg_32, reg_64, reg_8,
  reg_to_bits, times,
}
use fuzzball.Prelude.{ap, arith, refl, some, sym, ℕ, ◌%◌, ◌*◌, ◌+◌, ◌-◌, ◌^◌, ◌∙◌, ◌≡◌, ◌≢◌}
use fuzzball.Simplify.{add_constant, mul_constant, ret_type, sub_constant}
use fuzzball.Simplify.Algebra.{
  Refines, add_mod, minus-IsRing, plus-IsRing, sub_mod, times-IsRing, times_mod,
}
use fuzzball.Simplify.Meaning.{parts, whole}
use fuzzball.Simplify.Modular.{mul_mod}

pub ret_type_lem : (t : RegT) → ret_type t t ≡ t
unfolding ret_type
ret_type_lem reg_1 = refl
ret_type_lem _ = refl

pub constant_lem :
    (env : Env) (u : RegT) (c : ℕ) {t : RegT} {x : ℕ}
    → eval env (constant u c) ≡ some (val t x)
    → (u ≡ t) × (c % 2 ^ reg_to_bits u ≡ x)
unfolding eval
constant_lem env u c p = (ground arith, ground arith)

folded :
    (env : Env) (t : RegT) (v r : ℕ)
    → t ≢ reg_1
    → v % 2 ^ 64 % 2 ^ reg_to_bits t ≡ r
    → eval env (constant t (cast_value t (v % 2 ^ 64))) ≡ some (val t r)
unfolding eval cast_value
folded env reg_1 v r ne e = absurd (ne refl)
folded env reg_8 v r ne e = ap (λ (n : ℕ). some (val reg_8 n)) (omega (arith, e))
folded env reg_16 v r ne e = ap (λ (n : ℕ). some (val reg_16 n)) (omega (arith, e))
folded env reg_32 v r ne e = ap (λ (n : ℕ). some (val reg_32 n)) (omega (arith, e))
folded env reg_64 v r ne e = ap (λ (n : ℕ). some (val reg_64 n)) (omega (arith, e))

add_residue :
    (t : RegT) (c d : ℕ)
    → (c + d) % 2 ^ 64 % 2 ^ reg_to_bits t
      ≡ add_mod (2 ^ reg_to_bits t) (c % 2 ^ reg_to_bits t) (d % 2 ^ reg_to_bits t)
add_residue reg_1 c d = omega arith
add_residue reg_8 c d = omega arith
add_residue reg_16 c d = omega arith
add_residue reg_32 c d = omega arith
add_residue reg_64 c d = omega arith

sub_residue :
    (t : RegT) (c d : ℕ)
    → (c + (2 ^ 64 - d % 2 ^ 64)) % 2 ^ 64 % 2 ^ reg_to_bits t
      ≡ sub_mod (2 ^ reg_to_bits t) (c % 2 ^ reg_to_bits t) (d % 2 ^ reg_to_bits t)
sub_residue reg_1 c d = omega arith
sub_residue reg_8 c d = omega arith
sub_residue reg_16 c d = omega arith
sub_residue reg_32 c d = omega arith
sub_residue reg_64 c d = omega arith

pub residue64 : (t : RegT) (v : ℕ) → v % 2 ^ 64 % 2 ^ reg_to_bits t ≡ v % 2 ^ reg_to_bits t
residue64 reg_1 v = omega arith
residue64 reg_8 v = omega arith
residue64 reg_16 v = omega arith
residue64 reg_32 v = omega arith
residue64 reg_64 v = omega arith

module _ (env : Env) (t : RegT) (c d : ℕ) (ne : t ≢ reg_1) where
  pub add_constant_lem :
      eval env (add_constant c d t)
      ≡ some (val t (add_mod (2 ^ reg_to_bits t) (c % 2 ^ reg_to_bits t) (d % 2 ^ reg_to_bits t)))
  unfolding add_constant
  add_constant_lem = folded env t (c + d) _ ne (add_residue t c d)

  pub sub_constant_lem :
      eval env (sub_constant c d t)
      ≡ some (val t (sub_mod (2 ^ reg_to_bits t) (c % 2 ^ reg_to_bits t) (d % 2 ^ reg_to_bits t)))
  unfolding sub_constant
  sub_constant_lem = folded env t (c + (2 ^ 64 - d % 2 ^ 64)) _ ne (sub_residue t c d)

  pub mul_constant_lem :
      eval env (mul_constant c d t)
      ≡ some (val t (times_mod (2 ^ reg_to_bits t) (c % 2 ^ reg_to_bits t) (d % 2 ^ reg_to_bits t)))
  unfolding mul_constant
  mul_constant_lem =
      folded env t (c * d) _ ne (residue64 t (c * d) ∙ sym (mul_mod (2 ^ reg_to_bits t) c d))

neg_sum :
    (t : RegT) (c x : ℕ)
    → ((2 ^ 64 - c % 2 ^ 64) % 2 ^ 64 % 2 ^ reg_to_bits t + x) % 2 ^ reg_to_bits t
      ≡ sub_mod (2 ^ reg_to_bits t) x (c % 2 ^ reg_to_bits t)
neg_sum reg_1 c x = omega arith
neg_sum reg_8 c x = omega arith
neg_sum reg_16 c x = omega arith
neg_sum reg_32 c x = omega arith
neg_sum reg_64 c x = omega arith

constant_value :
    (env : Env) (u t : RegT) (c : ℕ)
    → u ≡ t
    → eval env (constant u c) ≡ some (val t (c % 2 ^ reg_to_bits t))
unfolding eval
constant_value env u t c e = rw e refl

residue_at : (u t : RegT) (c y : ℕ) → u ≡ t → c % 2 ^ reg_to_bits u ≡ y → c % 2 ^ reg_to_bits t ≡ y
residue_at u t c y e r = rw (sym e) r

-- Subtracting a constant is adding its 64-bit negation, whatever the type.
pub minus_constant :
    (env : Env) (a : Exp) (u : RegT) (c : ℕ) {t : RegT} {z : ℕ}
    → Refines env t z
        (bin_op minus a (constant u c))
        (bin_op plus (constant u ((2 ^ 64 - c % 2 ^ 64) % 2 ^ 64)) a)
minus_constant env a u c {t = t} p =
    let m = 2 ^ reg_to_bits t in
    let k = parts env minus sub_mod a (constant u c) minus-IsRing p in
    let (e, r) = constant_lem env u c k.second in
    whole env plus add_mod (constant u ((2 ^ 64 - c % 2 ^ 64) % 2 ^ 64)) a plus-IsRing
      (constant_value env u t ((2 ^ 64 - c % 2 ^ 64) % 2 ^ 64) e) k.first
      (neg_sum t c k.x ∙ ap (λ (n : ℕ). sub_mod m k.x n) (residue_at u t c k.y e r) ∙ k.total)

module _ (env : Env) (u v : RegT) (c d : ℕ) {t : RegT} {z : ℕ} (ne : t ≢ reg_1) where
  pub fold_plus :
      Refines env t z (bin_op plus (constant u c) (constant v d)) (add_constant c d (ret_type u v))
  fold_plus p =
      let m = 2 ^ reg_to_bits t in
      let k = parts env plus add_mod (constant u c) (constant v d) plus-IsRing p in
      let (e1, r1) = constant_lem env u c k.first in
      let (e2, r2) = constant_lem env v d k.second in
      let total : add_mod m (c % m) (d % m) ≡ z =
        rw (residue_at u t c k.x e1 r1, residue_at v t d k.y e2 r2) k.total in
      rw (e1, e2, ret_type_lem t, add_constant_lem env t c d ne, total) refl

  pub fold_minus :
      Refines env t z (bin_op minus (constant u c) (constant v d)) (sub_constant c d (ret_type u v))
  fold_minus p =
      let m = 2 ^ reg_to_bits t in
      let k = parts env minus sub_mod (constant u c) (constant v d) minus-IsRing p in
      let (e1, r1) = constant_lem env u c k.first in
      let (e2, r2) = constant_lem env v d k.second in
      let total : sub_mod m (c % m) (d % m) ≡ z =
        rw (residue_at u t c k.x e1 r1, residue_at v t d k.y e2 r2) k.total in
      rw (e1, e2, ret_type_lem t, sub_constant_lem env t c d ne, total) refl

  pub fold_times :
      Refines env t z (bin_op times (constant u c) (constant v d)) (mul_constant c d (ret_type u v))
  fold_times p =
      let m = 2 ^ reg_to_bits t in
      let k = parts env times times_mod (constant u c) (constant v d) times-IsRing p in
      let (e1, r1) = constant_lem env u c k.first in
      let (e2, r2) = constant_lem env v d k.second in
      let total : times_mod m (c % m) (d % m) ≡ z =
        rw (residue_at u t c k.x e1 r1, residue_at v t d k.y e2 r2) k.total in
      rw (e1, e2, ret_type_lem t, mul_constant_lem env t c d ne, total) refl
