-- ===== src/Prelude/Fields.antt =====
-- The union and the intersection of two words of a high and a low field, and the replacement of a field.
use Prim.Native.Nat.{ℕ, zero, suc, ◌+◌, ◌-◌, ◌*◌, ◌/◌, ◌%◌, ◌^◌, ◌<◌, bit_and, bit_or, max, min}
use mathlib.Core.Path.{◌≡◌, refl, ap, ◌∙◌}
use native.Mathlib.Nat.{div-add-mod, mod-eq_of_lt, mod-lt, one-le-pow, pow-suc}
use native.Mathlib.Omega.{arith}
use fuzzball.Prelude.Bits.{bit_or-digit, bit_or_fields, nothing-bit_or}
use fuzzball.Prelude.Digits.{bit_and-digit, bit_and-mask}

-- The lowest digit of a word of two fields, and the others.
lowest : (k a b : ℕ) → (a * 2 ^ suc k + b) % 2 ≡ b % 2
lowest k a b =
    let e : a * 2 ^ suc k ≡ a * 2 ^ k * 2 = omega (arith, ap (λ (t : ℕ). a * t) (pow-suc 2 k)) in
    rw e (omega arith)

others : (k a b : ℕ) → (a * 2 ^ suc k + b) / 2 ≡ a * 2 ^ k + b / 2
others k a b =
    let e : a * 2 ^ suc k ≡ a * 2 ^ k * 2 = omega (arith, ap (λ (t : ℕ). a * t) (pow-suc 2 k)) in
    rw e (omega arith)

twice : (k x y : ℕ) → 2 * (x * 2 ^ k + y) ≡ x * 2 ^ suc k + 2 * y
twice k x y = omega (arith, ap (λ (t : ℕ). x * t) (pow-suc 2 k))

pub bit_or-split :
    (k a b c d : ℕ)
    → b < 2 ^ k
    → d < 2 ^ k
    → bit_or (a * 2 ^ k + b) (c * 2 ^ k + d) ≡ bit_or a c * 2 ^ k + bit_or b d
bit_or-split zero a b c d p q =
    let eb : b ≡ 0 = omega arith in
    let ed : d ≡ 0 = omega arith in
    let ea : a * 2 ^ 0 + 0 ≡ a = omega arith in
    let ec : c * 2 ^ 0 + 0 ≡ c = omega arith in
    let eo : bit_or a c * 2 ^ 0 + 0 ≡ bit_or a c = omega arith in rw (eb, ed, ea, ec, eo) refl
bit_or-split (suc k) a b c d p q =
    let whole = bit_or-digit (a * 2 ^ suc k + b) (c * 2 ^ suc k + d) in
    let low = bit_or-digit b d in
    let rest =
      bit_or-split k a (b / 2) c (d / 2) (omega (arith, pow-suc 2 k))
        (omega (arith, pow-suc 2 k)) in
    let halved : bit_or ((a * 2 ^ suc k + b) / 2) ((c * 2 ^ suc k + d) / 2)
        ≡ bit_or a c * 2 ^ k + bit_or (b / 2) (d / 2) =
      rw (others k a b, others k c d) rest in
    let digit : max ((a * 2 ^ suc k + b) % 2) ((c * 2 ^ suc k + d) % 2) ≡ max (b % 2) (d % 2) =
      rw (lowest k a b, lowest k c d) refl in
    omega (arith, whole, low, halved, digit, twice k (bit_or a c) (bit_or (b / 2) (d / 2)))

pub bit_and-split :
    (k a b c d : ℕ)
    → b < 2 ^ k
    → d < 2 ^ k
    → bit_and (a * 2 ^ k + b) (c * 2 ^ k + d) ≡ bit_and a c * 2 ^ k + bit_and b d
bit_and-split zero a b c d p q =
    let eb : b ≡ 0 = omega arith in
    let ed : d ≡ 0 = omega arith in
    let ea : a * 2 ^ 0 + 0 ≡ a = omega arith in
    let ec : c * 2 ^ 0 + 0 ≡ c = omega arith in
    let eo : bit_and a c * 2 ^ 0 + 0 ≡ bit_and a c = omega arith in rw (eb, ed, ea, ec, eo) refl
bit_and-split (suc k) a b c d p q =
    let whole = bit_and-digit (a * 2 ^ suc k + b) (c * 2 ^ suc k + d) in
    let low = bit_and-digit b d in
    let rest =
      bit_and-split k a (b / 2) c (d / 2) (omega (arith, pow-suc 2 k))
        (omega (arith, pow-suc 2 k)) in
    let halved : bit_and ((a * 2 ^ suc k + b) / 2) ((c * 2 ^ suc k + d) / 2)
        ≡ bit_and a c * 2 ^ k + bit_and (b / 2) (d / 2) =
      rw (others k a b, others k c d) rest in
    let digit : min ((a * 2 ^ suc k + b) % 2) ((c * 2 ^ suc k + d) % 2) ≡ min (b % 2) (d % 2) =
      rw (lowest k a b, lowest k c d) refl in
    omega (arith, whole, low, halved, digit, twice k (bit_and a c) (bit_and (b / 2) (d / 2)))

positive_pow : (k : ℕ) → 0 < 2 ^ k
positive_pow k = omega (arith, one-le-pow k 2)

bit_and-nothing : (x : ℕ) → bit_and x 0 ≡ 0
bit_and-nothing x = bit_and-mask 0 x ∙ omega arith

kept_field : (k x : ℕ) → x < 2 ^ k → bit_and x (2 ^ k - 1) ≡ x
kept_field k x p = bit_and-mask k x ∙ mod-eq_of_lt p

-- Masking out the field of width `w` at position `k` and uniting with a shifted word puts that word in its
-- place and keeps the fields above and below.
pub field_lem :
    (m w k h f l d : ℕ)
    → h < 2 ^ m
    → f < 2 ^ w
    → l < 2 ^ k
    → d < 2 ^ w
    → bit_or
        (bit_and ((h * 2 ^ w + f) * 2 ^ k + l) (((2 ^ m - 1) * 2 ^ w + 0) * 2 ^ k + (2 ^ k - 1)))
        (d * 2 ^ k)
      ≡ (h * 2 ^ w + d) * 2 ^ k + l
field_lem m w k h f l d ph pf pl pd =
    let top : bit_and (h * 2 ^ w + f) ((2 ^ m - 1) * 2 ^ w + 0) ≡ h * 2 ^ w + 0 =
      bit_and-split w h f (2 ^ m - 1) 0 pf (positive_pow w)
      ∙ rw (kept_field m h ph, bit_and-nothing f) refl in
    let masked : bit_and ((h * 2 ^ w + f) * 2 ^ k + l)
          (((2 ^ m - 1) * 2 ^ w + 0) * 2 ^ k + (2 ^ k - 1))
        ≡ (h * 2 ^ w + 0) * 2 ^ k + l =
      bit_and-split k (h * 2 ^ w + f) l ((2 ^ m - 1) * 2 ^ w + 0) (2 ^ k - 1) pl
        (omega (arith, positive_pow k))
      ∙ rw (top, kept_field k l pl) refl in
    let united : bit_or (h * 2 ^ w + 0) d ≡ h * 2 ^ w + d =
      ap (λ (t : ℕ). bit_or t d) (omega arith) ∙ bit_or_fields w h d pd in
    let shifted : d * 2 ^ k ≡ d * 2 ^ k + 0 = omega arith in
    rw
      (
        masked,
        shifted,
        bit_or-split k (h * 2 ^ w + 0) l d 0 pl (positive_pow k),
        united,
        nothing-bit_or k l pl,
      )
      refl

-- The same, for the fields of a word.
pub replace_field :
    (m w k x d : ℕ)
    → x / 2 ^ k / 2 ^ w < 2 ^ m
    → d < 2 ^ w
    → bit_or (bit_and x (((2 ^ m - 1) * 2 ^ w + 0) * 2 ^ k + (2 ^ k - 1))) (d * 2 ^ k)
      ≡ (x / 2 ^ k / 2 ^ w * 2 ^ w + d) * 2 ^ k + x % 2 ^ k
replace_field m w k x d high small =
    let h = x / 2 ^ k / 2 ^ w in
    let f = x / 2 ^ k % 2 ^ w in
    let l = x % 2 ^ k in
    let mask = ((2 ^ m - 1) * 2 ^ w + 0) * 2 ^ k + (2 ^ k - 1) in
    let parts : x / 2 ^ k ≡ h * 2 ^ w + f = omega (arith, div-add-mod (x / 2 ^ k) (2 ^ w)) in
    let whole : x ≡ (h * 2 ^ w + f) * 2 ^ k + l =
      omega (arith, div-add-mod x (2 ^ k), ap (λ (t : ℕ). t * 2 ^ k) parts) in
    ap (λ (t : ℕ). bit_or (bit_and t mask) (d * 2 ^ k)) whole
    ∙ field_lem m w k h f l d high (mod-lt (x / 2 ^ k) (positive_pow w)) (mod-lt x (positive_pow k))
        small
