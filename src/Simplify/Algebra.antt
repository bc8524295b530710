-- ===== src/Simplify/Algebra.antt =====
-- The ring laws as laws on expressions: an expression with a value may be replaced.
use fuzzball.Ir.Eval.{Env, eval, val}
use fuzzball.Ir.Types.{BinopT, Exp, RegT, bin_op, minus, plus, reg_to_bits, times}
use fuzzball.Ir.Words.{two_pow_pos}
use fuzzball.Prelude.{ap, refl, some, ℕ, ◌%◌, ◌*◌, ◌+◌, ◌-◌, ◌^◌, ◌∙◌, ◌≡◌}
use fuzzball.Simplify.Meaning.{IsRing, parts, whole}
use fuzzball.Simplify.Modular.{
  add_assoc_mod, add_comm_mod, mul_add_mod, mul_assoc_mod, mul_comm_mod, mul_sub_mod,
}

abbrev pub add_mod : ℕ → ℕ → ℕ → ℕ
add_mod m x y = (x + y) % m

abbrev pub sub_mod : ℕ → ℕ → ℕ → ℕ
sub_mod m x y = (x + (m - y % m)) % m

abbrev pub times_mod : ℕ → ℕ → ℕ → ℕ
times_mod m x y = x * y % m

pub plus-IsRing : IsRing plus add_mod
plus-IsRing t u x y = refl

pub minus-IsRing : IsRing minus sub_mod
minus-IsRing t u x y = refl

pub times-IsRing : IsRing times times_mod
times-IsRing t u x y = refl

-- The value of `e`, where it has one, is that of `e'`.
abbrev pub Refines : Env → RegT → ℕ → Exp → Exp → Type 0
Refines env t z e e' = eval env e ≡ some (val t z) → eval env e' ≡ some (val t z)

module _ (env : Env) (a b c : Exp) {t : RegT} {z : ℕ} where
  pub plus_assoc :
      Refines env t z (bin_op plus a (bin_op plus b c)) (bin_op plus (bin_op plus a b) c)
  plus_assoc p =
      let m = 2 ^ reg_to_bits t in
      let k = parts env plus add_mod a (bin_op plus b c) plus-IsRing p in
      let l = parts env plus add_mod b c plus-IsRing k.second in
      whole env plus add_mod (bin_op plus a b) c plus-IsRing
        (whole env plus add_mod a b plus-IsRing k.first l.first refl) l.second
        (add_assoc_mod m k.x l.x l.y ∙ ap (λ (n : ℕ). (k.x + n) % m) l.total ∙ k.total)

  pub times_assoc :
      Refines env t z (bin_op times a (bin_op times b c)) (bin_op times (bin_op times a b) c)
  times_assoc p =
      let m = 2 ^ reg_to_bits t in
      let k = parts env times times_mod a (bin_op times b c) times-IsRing p in
      let l = parts env times times_mod b c times-IsRing k.second in
      whole env times times_mod (bin_op times a b) c times-IsRing
        (whole env times times_mod a b times-IsRing k.first l.first refl) l.second
        (mul_assoc_mod m k.x l.x l.y ∙ ap (λ (n : ℕ). k.x * n % m) l.total ∙ k.total)

  pub times_plus :
      Refines env t z
        (bin_op times a (bin_op plus b c))
        (bin_op plus (bin_op times a b) (bin_op times a c))
  times_plus p =
      let m = 2 ^ reg_to_bits t in
      let k = parts env times times_mod a (bin_op plus b c) times-IsRing p in
      let l = parts env plus add_mod b c plus-IsRing k.second in
      whole env plus add_mod (bin_op times a b) (bin_op times a c) plus-IsRing
        (whole env times times_mod a b times-IsRing k.first l.first refl)
        (whole env times times_mod a c times-IsRing k.first l.second refl)
        (mul_add_mod m k.x l.x l.y ∙ ap (λ (n : ℕ). k.x * n % m) l.total ∙ k.total)

  pub times_minus :
      Refines env t z
        (bin_op times a (bin_op minus b c))
        (bin_op minus (bin_op times a b) (bin_op times a c))
  times_minus p =
      let m = 2 ^ reg_to_bits t in
      let k = parts env times times_mod a (bin_op minus b c) times-IsRing p in
      let l = parts env minus sub_mod b c minus-IsRing k.second in
      whole env minus sub_mod (bin_op times a b) (bin_op times a c) minus-IsRing
        (whole env times times_mod a b times-IsRing k.first l.first refl)
        (whole env times times_mod a c times-IsRing k.first l.second refl)
        (mul_sub_mod m k.x l.x l.y (two_pow_pos (reg_to_bits t))
          ∙ ap (λ (n : ℕ). k.x * n % m) l.total
          ∙ k.total)

module _ (env : Env) (a b : Exp) {t : RegT} {z : ℕ} where
  pub plus_comm : Refines env t z (bin_op plus a b) (bin_op plus b a)
  plus_comm p =
      let k = parts env plus add_mod a b plus-IsRing p in
      whole env plus add_mod b a plus-IsRing k.second k.first
        (add_comm_mod (2 ^ reg_to_bits t) k.y k.x ∙ k.total)

  pub times_comm : Refines env t z (bin_op times a b) (bin_op times b a)
  times_comm p =
      let k = parts env times times_mod a b times-IsRing p in
      whole env times times_mod b a times-IsRing k.second k.first
        (mul_comm_mod (2 ^ reg_to_bits t) k.y k.x ∙ k.total)

module _ (env : Env) (op : BinopT) (f : ℕ → ℕ → ℕ → ℕ) (ring : IsRing op f) where
  pub swap_second :
      (a b c : Exp) {t : RegT} {z : ℕ}
      → Refines env t z (bin_op op a (bin_op times b c)) (bin_op op a (bin_op times c b))
  swap_second a b c p =
      let k = parts env op f a (bin_op times b c) ring p in
      whole env op f a (bin_op times c b) ring k.first (times_comm env b c k.second) k.total

  pub swap_first :
      (a b c : Exp) {t : RegT} {z : ℕ}
      → Refines env t z (bin_op op (bin_op times b c) a) (bin_op op (bin_op times c b) a)
  swap_first a b c p =
      let k = parts env op f (bin_op times b c) a ring p in
      whole env op f (bin_op times c b) a ring (times_comm env b c k.first) k.second k.total
