-- ===== src/Simplify/Modular.antt =====
-- The ring laws of words, as laws of remainders.
use native.Mathlib.Nat.{add-mod-mod, add-mul-mod_self_right, div-add-mod', mod-add-mod}
use native.Mathlib.Nat.{mod-lt, mod-mod}
use fuzzball.Prelude.{ap, arith, sym, ℕ, ◌%◌, ◌*◌, ◌+◌, ◌-◌, ◌/◌, ◌<◌, ◌∙◌, ◌≡◌}

mul-mod_second : (m x y : ℕ) → x * (y % m) % m ≡ x * y % m
mul-mod_second m x y =
    let parts_sum : x * (y / m * m + y % m) ≡ x * y = ap (λ (t : ℕ). x * t) (div-add-mod' y m) in
    let split : x * y ≡ x * (y % m) + x * (y / m) * m = omega (arith, parts_sum) in
    rw (split, add-mul-mod_self_right (x * (y % m)) (x * (y / m)) m)

mul-mod_first : (m x y : ℕ) → x % m * y % m ≡ x * y % m
mul-mod_first m x y =
    let a : x % m * y ≡ y * (x % m) = omega arith in
    let b : x * y ≡ y * x = omega arith in rw (a, b) (mul-mod_second m y x)

pub add_assoc_mod : (m x y z : ℕ) → ((x + y) % m + z) % m ≡ (x + (y + z) % m) % m
add_assoc_mod m x y z =
    let e : x + y + z ≡ x + (y + z) = omega arith in
    mod-add-mod (x + y) m z ∙ ap (λ (t : ℕ). t % m) e ∙ sym (add-mod-mod x (y + z) m)

pub mul_assoc_mod : (m x y z : ℕ) → x * y % m * z % m ≡ x * (y * z % m) % m
mul_assoc_mod m x y z =
    let e : x * y * z ≡ x * (y * z) = omega arith in
    mul-mod_first m (x * y) z ∙ ap (λ (t : ℕ). t % m) e ∙ sym (mul-mod_second m x (y * z))

pub add_comm_mod : (m x y : ℕ) → (x + y) % m ≡ (y + x) % m
add_comm_mod m x y = ap (λ (t : ℕ). t % m) (omega arith)

pub mul_comm_mod : (m x y : ℕ) → x * y % m ≡ y * x % m
mul_comm_mod m x y = ap (λ (t : ℕ). t % m) (omega arith)

pub mul_add_mod : (m x y z : ℕ) → (x * y % m + x * z % m) % m ≡ x * ((y + z) % m) % m
mul_add_mod m x y z =
    let e : x * y + x * z ≡ x * (y + z) = omega arith in
    mod-add-mod (x * y) m (x * z % m)
    ∙ add-mod-mod (x * y) (x * z) m
    ∙ ap (λ (t : ℕ). t % m) e
    ∙ sym (mul-mod_second m x (y + z))

mod_shift : (m a b i j : ℕ) → a + i * m ≡ b + j * m → a % m ≡ b % m
mod_shift m a b i j e =
    sym (add-mul-mod_self_right a i m) ∙ ap (λ (t : ℕ). t % m) e ∙ add-mul-mod_self_right b j m

pub mul_sub_mod :
    (m x y z : ℕ) → 0 < m → (x * y % m + (m - x * z % m % m)) % m ≡ x * ((y + (m - z % m)) % m) % m
mul_sub_mod m x y z positive =
    let w : x * z % m < m = mod-lt (x * z) positive in
    let z' : z % m < m = mod-lt z positive in
    let residue : x * (z % m) / m * m + x * z % m ≡ x * (z % m) =
      ap (λ (t : ℕ). x * (z % m) / m * m + t) (sym (mul-mod_second m x z))
      ∙ div-add-mod' (x * (z % m)) m in
    let complement : m - z % m + z % m ≡ m = omega arith in
    let scaled : x * (m - z % m + z % m) ≡ x * m = ap (λ (t : ℕ). x * t) complement in
    let shifted : x * y + (m - x * z % m) + x * m
        ≡ x * (y + (m - z % m)) + (x * (z % m) / m + 1) * m =
      omega (arith, scaled, residue) in
    rw (mod-mod (x * z) m) (
      mod-add-mod (x * y) m (m - x * z % m)
      ∙ mod_shift m (x * y + (m - x * z % m)) (x * (y + (m - z % m))) x (x * (z % m) / m + 1)
          shifted
      ∙ sym (mul-mod_second m x (y + (m - z % m))))

pub mul_sub_mod_right :
    (m x y z : ℕ) → 0 < m → (y * x % m + (m - z * x % m % m)) % m ≡ (y + (m - z % m)) % m * x % m
mul_sub_mod_right m x y z positive =
    rw (mul_comm_mod m y x, mul_comm_mod m z x, mul_comm_mod m ((y + (m - z % m)) % m) x)
      (mul_sub_mod m x y z positive)

pub mul_mod : (m x y : ℕ) → x % m * (y % m) % m ≡ x * y % m
mul_mod m x y = mul-mod_first m x (y % m) ∙ mul-mod_second m x y
