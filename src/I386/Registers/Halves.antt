-- ===== src/I386/Registers/Halves.antt =====
-- The halves of the XMM registers in the guest state, and the bytes that they hold.
use Prim.Native.String.{◌++◌ as append}
use native.Mathlib.Decide.{dec_lt}
use fuzzball.I386.Registers.{Field, guest_gdt, guest_ldt, guest_xmm}
use fuzzball.Ir.Types.{Exp, reg_64, temp}
use fuzzball.Prelude.{
  String, ap, arith, if◌then◌else◌, refl, str_eq, suc, sym, zero, ℕ, ◌%◌, ◌*◌, ◌+◌, ◌==◌, ◌<◌, ◌∙◌,
  ◌≡◌, ◌≤◌, ◌⊎◌,
}

-- What the translator relies on in VEX's guest state: the XMM registers follow one another in 16 bytes each,
-- aligned to 8 bytes, and the descriptor tables' pointers lie elsewhere.
pub record IsLayout (offb : Field → ℕ) : Type 0 where
  pub consecutive : (i : ℕ) → i < 8 → offb (guest_xmm i) ≡ offb (guest_xmm 0) + 16 * i
  pub aligned : offb (guest_xmm 0) % 8 ≡ 0
  pub ldt_apart :
      (offb guest_ldt < offb (guest_xmm 0)) ⊎ (offb (guest_xmm 0) + 128 ≤ offb guest_ldt)
  pub gdt_apart :
      (offb guest_gdt < offb (guest_xmm 0)) ⊎ (offb (guest_xmm 0) + 128 ≤ offb guest_gdt)

-- A property of all numbers below a bound.
abbrev pub AllBelow : ℕ → (ℕ → Type 0) → Type 0
AllBelow zero P = Unit
AllBelow (suc n) P = AllBelow n P × P n

pub AllBelow-at : (n : ℕ) (P : ℕ → Type 0) (i : ℕ) → AllBelow n P → i < n → P i
AllBelow-at zero P i h l = absurd (omega arith)
AllBelow-at (suc n) P i h l = elim (dec_lt i n) [
  | yes b ↦ AllBelow-at n P i h.0 b
  | no b ↦ let e : i ≡ n = omega arith in rw e h.1
]

-- The names of the halves, in the order of their offsets.
abbrev pub half_name : ℕ → String
half_name h =
    if h == 0
    then "XMM0L"
    else if h == 1
    then "XMM0H"
    else if h == 2
    then "XMM1L"
    else if h == 3
    then "XMM1H"
    else if h == 4
    then "XMM2L"
    else if h == 5
    then "XMM2H"
    else if h == 6
    then "XMM3L"
    else if h == 7
    then "XMM3H"
    else if h == 8
    then "XMM4L"
    else if h == 9
    then "XMM4H"
    else if h == 10
    then "XMM5L"
    else if h == 11
    then "XMM5H"
    else if h == 12
    then "XMM6L"
    else if h == 13
    then "XMM6H"
    else if h == 14
    then "XMM7L"
    else "XMM7H"

abbrev half_index : String → ℕ
half_index n =
    if str_eq n "R_XMM0L"
    then 0
    else if str_eq n "R_XMM0H"
    then 1
    else if str_eq n "R_XMM1L"
    then 2
    else if str_eq n "R_XMM1H"
    then 3
    else if str_eq n "R_XMM2L"
    then 4
    else if str_eq n "R_XMM2H"
    then 5
    else if str_eq n "R_XMM3L"
    then 6
    else if str_eq n "R_XMM3H"
    then 7
    else if str_eq n "R_XMM4L"
    then 8
    else if str_eq n "R_XMM4H"
    then 9
    else if str_eq n "R_XMM5L"
    then 10
    else if str_eq n "R_XMM5H"
    then 11
    else if str_eq n "R_XMM6L"
    then 12
    else if str_eq n "R_XMM6H"
    then 13
    else if str_eq n "R_XMM7L"
    then 14
    else 15

abbrev pub half_reg : ℕ → String
half_reg h = append "R_" (half_name h)

abbrev pub half_word : ℕ → Exp
half_word h = temp reg_64 (half_reg h)

half_index-half_reg : (h : ℕ) → h < 16 → half_index (half_reg h) ≡ h
half_index-half_reg h l =
    AllBelow-at 16 (λ h. half_index (half_reg h) ≡ h) h
      (
        (
          (
            (
              (
                (
                  (
                    (((((((((tt, refl), refl), refl), refl), refl), refl), refl), refl), refl),
                    refl,
                  ),
                  refl,
                ),
                refl,
              ),
              refl,
            ),
            refl,
          ),
          refl,
        ),
        refl,
      )
      l

pub half_reg-injective : (g h : ℕ) → g < 16 → h < 16 → half_reg g ≡ half_reg h → g ≡ h
half_reg-injective g h p q e =
    sym (half_index-half_reg g p) ∙ ap half_index e ∙ half_index-half_reg h q
