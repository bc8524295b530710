-- ===== src/I386/Registers/Bytes.antt =====
-- The bytes of a word, and a memory of bytes from which words are read, and to which they are written, with
-- their lowest byte first.
use native.Mathlib.Decide.{dec_lt}
use native.Mathlib.Nat.{
  add-mul-mod_self_right, div-add-mod, div-div-eq-div-mul, mod-eq_of_lt, mod-lt, pow-succ',
  one-le-pow, pow-suc,
}
use fuzzball.Prelude.{
  ap, arith, sym, if◌then◌else◌, leb, ltb, refl, suc, zero, ℕ, ◌%◌, ◌&&◌, ◌*◌, ◌+◌, ◌-◌, ◌/◌, ◌<◌,
  ◌^◌, ◌∙◌, ◌≡◌, ◌≤◌,
}

abbrev pub byte : ℕ → ℕ → ℕ
byte zero x = x % 256
byte (suc j) x = byte j (x / 256)

-- The word of `n` bytes from the address `i` on.
abbrev pub load : ℕ → ℕ → (ℕ → ℕ) → ℕ
load zero i f = 0
load (suc n) i f = f i + 256 * load n (i + 1) f

-- A word of `n` bytes is written at the address `i`.
abbrev pub store : ℕ → ℕ → ℕ → (ℕ → ℕ) → ℕ → ℕ
store n i v f j = if leb i j && ltb j (i + n) then byte (j - i) v else f j

scaled : (q k : ℕ) → q * 256 ^ suc k ≡ q * 256 ^ k * 256
scaled q k = omega (arith, ap (λ (t : ℕ). q * t) (pow-suc 256 k))

pub byte-low : (j k q l : ℕ) → j < k → byte j (q * 256 ^ k + l) ≡ byte j l
byte-low j zero q l h = absurd (omega arith)
byte-low zero (suc k) q l h = omega (arith, scaled q k)
byte-low (suc j) (suc k) q l h =
    let e : (q * 256 ^ suc k + l) / 256 ≡ q * 256 ^ k + l / 256 = omega (arith, scaled q k) in
    rw e (byte-low j k q (l / 256) (omega arith))

byte-high : (j k q l : ℕ) → l < 256 ^ k → byte (j + k) (q * 256 ^ k + l) ≡ byte j q
byte-high j zero q l h =
    let e : q * 256 ^ zero + l ≡ q = omega arith in
    let f : j + zero ≡ j = omega arith in rw (e, f) refl
byte-high j (suc k) q l h =
    let e : (q * 256 ^ suc k + l) / 256 ≡ q * 256 ^ k + l / 256 = omega (arith, scaled q k) in
    let f : j + suc k ≡ suc (j + k) = omega arith in
    ap (λ (n : ℕ). byte n (q * 256 ^ suc k + l)) f
    ∙ ap (λ (n : ℕ). byte (j + k) n) e
    ∙ (byte-high j k q (l / 256) (omega (arith, pow-suc 256 k)))

byte-above : (j k q l : ℕ) → l < 256 ^ k → k ≤ j → byte j (q * 256 ^ k + l) ≡ byte (j - k) q
byte-above j k q l h up =
    let e : j ≡ j - k + k = omega arith in
    ap (λ (n : ℕ). byte n (q * 256 ^ k + l)) e ∙ byte-high (j - k) k q l h

power_pos : (k : ℕ) → 0 < 256 ^ k
power_pos k = omega (arith, one-le-pow k 256)

-- A word of which `n` bytes from byte `k` on are replaced.
abbrev pub replace : ℕ → ℕ → ℕ → ℕ → ℕ
replace n k v x = (x / 256 ^ k / 256 ^ n * 256 ^ n + v) * 256 ^ k + x % 256 ^ k

split_word : (k x : ℕ) → x ≡ x / 256 ^ k * 256 ^ k + x % 256 ^ k
split_word k x = omega (arith, div-add-mod x (256 ^ k))

pub byte-replace :
    (n k v x j : ℕ) → v < 256 ^ n → byte j (replace n k v x) ≡ store n k v (λ i. byte i x) j
byte-replace n k v x j small =
    let h = x / 256 ^ k / 256 ^ n in
    let f = x / 256 ^ k % 256 ^ n in
    let l = x % 256 ^ k in
    let lb : l < 256 ^ k = mod-lt x (power_pos k) in
    let fb : f < 256 ^ n = mod-lt (x / 256 ^ k) (power_pos n) in
    let old : x ≡ (h * 256 ^ n + f) * 256 ^ k + l =
      split_word k x ∙ ap (λ (t : ℕ). t * 256 ^ k + l) (split_word n (x / 256 ^ k)) in
    elim (dec_lt j k) [
      | yes a ↦
          byte-low j k (h * 256 ^ n + v) l a
          ∙ sym (byte-low j k (h * 256 ^ n + f) l a)
          ∙ ap (byte j) (sym old)
          ∙ ground arith
      | no a ↦ elim (dec_lt j (k + n)) [
        | yes b ↦
            byte-above j k (h * 256 ^ n + v) l lb (omega arith)
            ∙ byte-low (j - k) n h v (omega arith)
            ∙ ground arith
        | no b ↦
            byte-above j k (h * 256 ^ n + v) l lb (omega arith)
            ∙ byte-above (j - k) n h v small (omega arith)
            ∙ sym (byte-above (j - k) n h f fb (omega arith))
            ∙ sym (byte-above j k (h * 256 ^ n + f) l lb (omega arith))
            ∙ ap (byte j) (sym old)
            ∙ ground arith
      ]
    ]

step_word : (n x : ℕ) → x % 256 + 256 * (x / 256 % 256 ^ n) ≡ x % 256 ^ suc n
step_word n x =
    let m = 256 ^ n in
    let u = x / 256 % m in
    let v = x / 256 / m in
    let parts : m * v + u ≡ x / 256 = div-add-mod (x / 256) m in
    let small : u < m = mod-lt (x / 256) (power_pos n) in
    let shape : x ≡ u * 256 + x % 256 + v * (m * 256) = grind (arith, parts) in
    let low : (u * 256 + x % 256 + v * (m * 256)) % (m * 256) ≡ u * 256 + x % 256 =
      add-mul-mod_self_right (u * 256 + x % 256) v (m * 256)
      ∙ mod-eq_of_lt (omega (arith, small)) in
    omega (arith, low, ap (λ (n : ℕ). n % (m * 256)) shape, ap (λ (t : ℕ). x % t) (pow-suc 256 n))

div_step : (k x : ℕ) → x / 256 / 256 ^ k ≡ x / 256 ^ suc k
div_step k x = div-div-eq-div-mul x 256 (256 ^ k) ∙ ap (λ (t : ℕ). x / t) (sym (pow-succ' 256 k))

div_next : (k x : ℕ) → x / 256 ^ (k + 1) ≡ x / 256 ^ k / 256
div_next k x =
    let e : k + 1 ≡ suc k = omega arith in
    ap (λ (t : ℕ). x / 256 ^ t) e
    ∙ ap (λ (t : ℕ). x / t) (pow-suc 256 k)
    ∙ sym (div-div-eq-div-mul x (256 ^ k) 256)

byte-at : (k x : ℕ) → byte k x ≡ x / 256 ^ k % 256
byte-at zero x = ap (λ (t : ℕ). t % 256) (omega arith)
byte-at (suc k) x = byte-at k (x / 256) ∙ ap (λ (t : ℕ). t % 256) (div_step k x)

-- Reading `n` bytes of a word from byte `k` on.
pub load-byte : (n k x : ℕ) → load n k (λ j. byte j x) ≡ x / 256 ^ k % 256 ^ n
load-byte zero k x = omega arith
load-byte (suc n) k x = omega (
  arith,
  byte-at k x,
  load-byte n (k + 1) x,
  ap (λ (t : ℕ). t % 256 ^ n) (div_next k x),
  step_word n (x / 256 ^ k),
)
