-- ===== src/Vex/Clz/Count.antt =====
-- The number of leading zeros, and its calculation by halving.
use native.Mathlib.Nat.{div-add-mod', mod-lt, mul-le-mul, pow-suc}
use fuzzball.Prelude.{
  Bool, Bool-cases, ap, arith, if◌then◌else◌, inl, inr, leb, ltb, refl, suc, zero, ℕ, ◌%◌, ◌*◌, ◌+◌,
  ◌/◌, ◌<◌, ◌==◌, ◌^◌, ◌∙◌, ◌≡◌, ◌≤◌, ◌⊎◌,
}

-- The zeros above the highest bit of a number of `n` bits.
unfoldable pub leading_zeros : ℕ → ℕ → ℕ
leading_zeros zero x = 0
leading_zeros (suc n) x = let rest = leading_zeros n x in if ltb x (2 ^ n) then suc rest else 0

-- `c` leading zeros are the count in a range of `m`, a power of two: `x` shifted by `c` fills the range.
pub record Fills (m n x c : ℕ) : Type 0 where
  pub within : (x + 1) * 2 ^ c ≤ m
  pub full : (m ≤ x * 2 ^ c * 2) ⊎ ((x ≡ 0) × (c ≡ n))

mul_mono : (a b c d : ℕ) → a ≤ b → c ≤ d → a * c ≤ b * d
mul_mono a b c d p q = mul-le-mul p q

two_pow_positive : (c : ℕ) → 1 ≤ 2 ^ c
two_pow_positive zero = omega arith
two_pow_positive (suc c) = omega (arith, two_pow_positive c, pow-suc 2 c)

two_pow_sum : (k c : ℕ) → 2 ^ (k + c) ≡ 2 ^ k * 2 ^ c
two_pow_sum zero c =
    let e : zero + c ≡ c = omega arith in
    let f : 2 ^ c ≡ 2 ^ zero * 2 ^ c = omega arith in ap (λ (n : ℕ). 2 ^ n) e ∙ f
two_pow_sum (suc k) c =
    let e : suc k + c ≡ suc (k + c) = omega arith in
    let f : 2 ^ suc (k + c) ≡ 2 ^ (k + c) * 2 = pow-suc 2 (k + c) in
    let g : 2 ^ suc k * 2 ^ c ≡ 2 ^ k * 2 * 2 ^ c = ap (λ (n : ℕ). n * 2 ^ c) (pow-suc 2 k) in
    ap (λ (n : ℕ). 2 ^ n) e ∙ f ∙ omega (arith, g, two_pow_sum k c)

pub Fills-unique : (n x c : ℕ) → Fills (2 ^ n) n x c → leading_zeros n x ≡ c
unfolding leading_zeros
Fills-unique zero x zero f = refl
Fills-unique zero x (suc c) f =
    let h : (x + 1) * 2 ^ suc c ≤ 1 = f.within in
    let e : (x + 1) * 2 ^ suc c ≡ (x + 1) * 2 ^ c * 2 =
      ap (λ (t : ℕ). (x + 1) * t) (pow-suc 2 c) ∙ omega arith in
    let g : 1 * 1 ≤ (x + 1) * 2 ^ c =
      mul_mono 1 (x + 1) 1 (2 ^ c) (omega arith) (two_pow_positive c) in
    absurd (omega (arith, h, e, g))
Fills-unique (suc n) x zero f =
    let q : 2 ^ suc n ≡ 2 ^ n * 2 = pow-suc 2 n in ground (arith, f.full, q)
Fills-unique (suc n) x (suc c) f =
    let q : 2 ^ suc n ≡ 2 ^ n * 2 = pow-suc 2 n in
    let e : (x + 1) * 2 ^ suc c ≡ (x + 1) * 2 ^ c * 2 =
      ap (λ (t : ℕ). (x + 1) * t) (pow-suc 2 c) ∙ omega arith in
    let e' : x * 2 ^ suc c * 2 ≡ x * 2 ^ c * 2 * 2 =
      ap (λ (t : ℕ). x * t * 2) (pow-suc 2 c) ∙ omega arith in
    let g : (x + 1) * 1 ≤ (x + 1) * 2 ^ c =
      mul_mono (x + 1) (x + 1) 1 (2 ^ c) (omega arith) (two_pow_positive c) in
    let within : (x + 1) * 2 ^ c ≤ 2 ^ n = omega (arith, f.within, e, q) in
    let smaller : Fills (2 ^ n) n x c = record {
      within = within;
      full = elim (f.full) [
        | inl a ↦ inl (omega (arith, a, e', q))
        | inr b ↦ inr (b.0, omega (arith, b.1))
      ];
    } in
    ground (arith, Fills-unique n x c smaller, within, g)

-- A number with an empty upper half.
pub Fills-low : (k x c : ℕ) → Fills (2 ^ k) k x c → Fills (2 ^ k * 2 ^ k) (k + k) x (k + c)
Fills-low k x c f =
    let m = 2 ^ k in
    let s : 2 ^ (k + c) ≡ m * 2 ^ c = two_pow_sum k c in
    let a : (x + 1) * 2 ^ (k + c) ≡ m * ((x + 1) * 2 ^ c) =
      ap (λ (t : ℕ). (x + 1) * t) s ∙ omega arith in
    let b : x * 2 ^ (k + c) * 2 ≡ m * (x * 2 ^ c * 2) = ap (λ (t : ℕ). x * t * 2) s ∙ omega arith in
    let w : m * ((x + 1) * 2 ^ c) ≤ m * m =
      mul_mono m m ((x + 1) * 2 ^ c) m (omega arith) f.within in
    record {
      within = omega (arith, a, w);
      full = elim (f.full) [
        | inl h ↦ inl (omega (arith, b, mul_mono m m m (x * 2 ^ c * 2) (omega arith) h))
        | inr h ↦ inr (h.0, omega (arith, h.1))
      ];
    }

-- A number with a bit in its upper half.
pub Fills-high : (m k x c : ℕ) → m ≤ x → 0 < m → Fills m k (x / m) c → Fills (m * m) (k + k) x c
Fills-high m k x c h p f =
    let parts : x / m * m + x % m ≡ x = div-add-mod' x m in
    let r : x % m < m = mod-lt x p in
    let above : x + 1 ≤ (x / m + 1) * m = omega (arith, parts, r) in
    let a : (x + 1) * 2 ^ c ≤ (x / m + 1) * m * 2 ^ c =
      mul_mono (x + 1) ((x / m + 1) * m) (2 ^ c) (2 ^ c) above (omega arith) in
    let b : (x / m + 1) * 2 ^ c * m ≤ m * m =
      mul_mono ((x / m + 1) * 2 ^ c) m m m f.within (omega arith) in
    let q : x / m * m * 2 ^ c ≤ x * 2 ^ c =
      mul_mono (x / m * m) x (2 ^ c) (2 ^ c) (omega (arith, parts)) (omega arith) in
    record {
      within = omega (arith, a, b);
      full = elim (f.full) [
        | inl g ↦ inl (omega (arith, mul_mono m (x / m * 2 ^ c * 2) m m g (omega arith), q))
        | inr g ↦
            let none_above : x / m * m ≡ 0 = ap (λ (t : ℕ). t * m) g.0 ∙ omega arith in
            absurd (omega (arith, parts, none_above, r, h))
      ];
    }

-- The part of a number that the next step looks at.
abbrev pub halve : ℕ → ℕ → ℕ
halve m x = if ltb x m then x else x / m

-- The zeros that a step finds.
abbrev pub zeros : Bool → ℕ → ℕ
zeros b k = if b then k else 0

pub Fills-halve :
    (k x c : ℕ)
    → Fills (2 ^ k) k (halve (2 ^ k) x) c
    → Fills (2 ^ k * 2 ^ k) (k + k) x (zeros (ltb x (2 ^ k)) k + c)
Fills-halve k x c f = elim (Bool-cases (ltb x (2 ^ k))) [
  | inl e ↦ rw e (Fills-low k x c (rw e at f))
  | inr e ↦ rw e (
      let big : 2 ^ k ≤ x = ground arith in
      let none_found : 0 + c ≡ c = omega arith in
      rw none_found (Fills-high (2 ^ k) k x c big (two_pow_positive k) (rw e at f)))
]

-- The zeros of two bits.
abbrev pub last_zeros : ℕ → ℕ
last_zeros x = if leb 2 x then 0 else if x == 0 then 2 else 1

Fills-last : (x : ℕ) → x < 4 → Fills (2 ^ 2) 2 x (last_zeros x)
Fills-last zero h = record { within = omega arith; full = inr (refl, refl) }
Fills-last (suc zero) h = record { within = omega arith; full = inl (omega arith) }
Fills-last (suc (suc zero)) h = record { within = omega arith; full = inl (omega arith) }
Fills-last (suc (suc (suc zero))) h = record { within = omega arith; full = inl (omega arith) }
Fills-last (suc (suc (suc (suc x)))) h = absurd (omega arith)

-- Five steps of halving and a look at the last two bits count the leading zeros of 64 bits.
pub halvings :
    (x : ℕ)
    → x < 2 ^ 64
    → let x_32 = halve (2 ^ 32) x in
      let x_16 = halve (2 ^ 16) x_32 in
      let x_8 = halve (2 ^ 8) x_16 in
      let x_4 = halve (2 ^ 4) x_8 in
      let x_2 = halve (2 ^ 2) x_4 in
      leading_zeros 64 x
      ≡ zeros (ltb x (2 ^ 32)) 32
        + (zeros (ltb x_32 (2 ^ 16)) 16
            + (zeros (ltb x_16 (2 ^ 8)) 8
                + (zeros (ltb x_8 (2 ^ 4)) 4 + (zeros (ltb x_4 (2 ^ 2)) 2 + last_zeros x_2))))
halvings x h =
    let x_32 = halve (2 ^ 32) x in
    let h_32 : x_32 < 2 ^ 32 = ground arith in
    let x_16 = halve (2 ^ 16) x_32 in
    let h_16 : x_16 < 2 ^ 16 = ground arith in
    let x_8 = halve (2 ^ 8) x_16 in
    let h_8 : x_8 < 2 ^ 8 = ground arith in
    let x_4 = halve (2 ^ 4) x_8 in
    let h_4 : x_4 < 2 ^ 4 = ground arith in
    let x_2 = halve (2 ^ 2) x_4 in
    let h_2 : x_2 < 4 = ground arith in
    Fills-unique 64 x _ (
      Fills-halve 32 x _ (
        Fills-halve 16 x_32 _
          (Fills-halve 8 x_16 _ (Fills-halve 4 x_8 _ (Fills-halve 2 x_4 _ (Fills-last x_2 h_2))))))
