-- ===== src/I386/Conditions/Control.antt =====
-- The rounding mode in the control words of the vector unit and the x87 unit.
use fuzzball.I386.Conditions.{check_fldcw, check_ldmxcsr, create_fpucw, create_mxcsr}
use fuzzball.Ir.Eval.{Env, eval, val}
use fuzzball.Ir.Types.{Exp, reg_32, reg_64}
use fuzzball.Prelude.{ap, arith, bit_or, some, ℕ, ◌%◌, ◌*◌, ◌+◌, ◌/◌, ◌<◌, ◌^◌, ◌∙◌, ◌≡◌}
use fuzzball.Prelude.Bits.{nothing-bit_or, zero-bit_or}
use fuzzball.Prelude.Digits.{bit_and-mask}
use fuzzball.Prelude.Fields.{bit_or-split}

-- A word of fixed low bits and a mode above them.
low_bits : (k low mode : ℕ) → low < 2 ^ k → bit_or low (mode * 2 ^ k) ≡ mode * 2 ^ k + low
low_bits k low mode h =
    let l : low ≡ 0 * 2 ^ k + low = omega arith in
    let m : mode * 2 ^ k ≡ mode * 2 ^ k + 0 = omega arith in
    ap (λ (n : ℕ). bit_or n (mode * 2 ^ k)) l
    ∙ ap (λ (n : ℕ). bit_or (0 * 2 ^ k + low) n) m
    ∙ bit_or-split k 0 low mode 0 h (omega (arith, h))
    ∙ omega (arith, ap (λ (n : ℕ). n * 2 ^ k) (zero-bit_or mode), nothing-bit_or k low h)

-- Where the argument has a mode below 4 as its value, the mode that is read from the control word made of it is the
-- same, for the vector unit and for the x87 unit, as a word of 64 bits.
pub check_ldmxcsr-create_mxcsr :
    (env : Env) (arg : Exp) (mode : ℕ)
    → mode < 4
    → eval env arg ≡ some (val reg_32 mode)
    → (eval env (check_ldmxcsr (create_mxcsr arg)) ≡ some (val reg_64 mode))
      × (eval env (check_fldcw (create_fpucw arg)) ≡ some (val reg_64 mode))
unfolding eval create_mxcsr create_fpucw check_ldmxcsr check_fldcw
check_ldmxcsr-create_mxcsr env arg mode small h =
    let mx : mode * 2 ^ 13 % 2 ^ 32 ≡ mode * 2 ^ 13 = omega arith in
    let fp : mode * 2 ^ 10 % 2 ^ 32 ≡ mode * 2 ^ 10 = omega arith in
    (
      rw (h, mx, low_bits 13 0x1f80 mode (omega arith))
          (ap (λ (n : ℕ). some (val reg_64 n))
            (bit_and-mask 2 ((mode * 2 ^ 13 + 0x1f80) / 2 ^ 13 % 2 ^ 32) ∙ omega arith)),
      rw (h, fp, low_bits 10 0x037f mode (omega arith))
          (ap (λ (n : ℕ). some (val reg_64 n))
            (bit_and-mask 2 ((mode * 2 ^ 10 + 0x037f) / 2 ^ 10 % 2 ^ 32) ∙ omega arith)),
    )
