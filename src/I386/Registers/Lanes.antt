-- ===== src/I386/Registers/Lanes.antt =====
-- The values of the expressions that read and replace a part of a word of 64 bits.
use fuzzball.I386.Registers.Bytes.{replace}
use fuzzball.I386.Registers.Get.{lanes_16, lanes_8}
use fuzzball.I386.Registers.Halves.{AllBelow}
use fuzzball.I386.Registers.Put.{assemble64, replaced}
use fuzzball.I386.Registers.{switch}
use fuzzball.Ir.Build.{ex_h_cast, ex_l_cast}
use fuzzball.Ir.Eval.{Env, eval, val}
use fuzzball.Ir.Types.{Exp, reg_16, reg_32, reg_64, reg_8}
use fuzzball.Prelude.{
  ap, arith, bit_and, bit_or, refl, sym, some, ℕ, ◌%◌, ◌*◌, ◌+◌, ◌-◌, ◌/◌, ◌<◌, ◌^◌, ◌∙◌, ◌≡◌, ◌==◌,
  if◌then◌else◌,
}
use fuzzball.Prelude.Fields.{replace_field}
use fuzzball.Prelude.Bits.{bit_or_fields}
use native.Mathlib.Nat.{mod-eq_of_lt}

-- The shifted data fit the word.
put_word :
    (m w k x v : ℕ)
    → x / 2 ^ k / 2 ^ w < 2 ^ m
    → v < 2 ^ w
    → v * 2 ^ k < 2 ^ 64
    → bit_or (bit_and x (((2 ^ m - 1) * 2 ^ w + 0) * 2 ^ k + (2 ^ k - 1))) (v * 2 ^ k % 2 ^ 64)
      ≡ (x / 2 ^ k / 2 ^ w * 2 ^ w + v) * 2 ^ k + x % 2 ^ k
put_word m w k x v high bound fits = rw (mod-eq_of_lt fits) (replace_field m w k x v high bound)

put_lowest :
    (m w x v : ℕ)
    → x / 1 / 2 ^ w < 2 ^ m
    → v < 2 ^ w
    → bit_or (bit_and x (((2 ^ m - 1) * 2 ^ w + 0) * 1 + 0)) v
      ≡ (x / 1 / 2 ^ w * 2 ^ w + v) * 1 + x % 1
put_lowest m w x v high bound =
    let e : v * 1 ≡ v = omega arith in
    ap (λ (t : ℕ). bit_or (bit_and x (((2 ^ m - 1) * 2 ^ w + 0) * 1 + 0)) t) (sym e)
    ∙ replace_field m w 0 x v high bound

-- The lower or the upper part of a word of 64 bits, read, and with one replaced.
abbrev pub quarter : Exp → ℕ → Exp
quarter reg lane = if lane == 0 then ex_l_cast reg reg_32 else ex_h_cast reg reg_32

abbrev pub assembled : Exp → Exp → ℕ → Exp
assembled reg datum lane =
    if lane == 0
    then assemble64 (ex_h_cast reg reg_32) datum
    else assemble64 datum (ex_l_cast reg reg_32)

module _ (env : Env) (reg : Exp) (x : ℕ) (small : x < 2 ^ 64)
    (is : eval env reg ≡ some (val reg_64 x)) where
  abbrev pub Reads8 : ℕ → Type 0
  Reads8 i =
      (g : Exp) × (switch i (lanes_8 reg) ≡ some g)
      × (eval env g ≡ some (val reg_8 (x / 256 ^ i % 256)))

  abbrev pub Reads16 : ℕ → Type 0
  Reads16 i =
      (g : Exp) × (switch i (lanes_16 reg) ≡ some g)
      × (eval env g ≡ some (val reg_16 (x / 256 ^ (2 * i) % 256 ^ 2)))

  pub reads_8 : AllBelow 8 Reads8
  unfolding eval
  reads_8 = (
    (
      (
        (
          (
            (
              (
                (tt, (_, refl, rw is (ap (λ (n : ℕ). some (val reg_8 n)) (omega arith)))),
                (_, refl, rw is (ap (λ (n : ℕ). some (val reg_8 n)) (omega arith))),
              ),
              (_, refl, rw is (ap (λ (n : ℕ). some (val reg_8 n)) (omega arith))),
            ),
            (_, refl, rw is (ap (λ (n : ℕ). some (val reg_8 n)) (omega arith))),
          ),
          (_, refl, rw is (ap (λ (n : ℕ). some (val reg_8 n)) (omega arith))),
        ),
        (_, refl, rw is (ap (λ (n : ℕ). some (val reg_8 n)) (omega arith))),
      ),
      (_, refl, rw is (ap (λ (n : ℕ). some (val reg_8 n)) (omega arith))),
    ),
    (_, refl, rw is (ap (λ (n : ℕ). some (val reg_8 n)) (omega arith))),
  )

  pub reads_16 : AllBelow 4 Reads16
  unfolding eval
  reads_16 = (
    (
      (
        (tt, (_, refl, rw is (ap (λ (n : ℕ). some (val reg_16 n)) (omega arith)))),
        (_, refl, rw is (ap (λ (n : ℕ). some (val reg_16 n)) (omega arith))),
      ),
      (_, refl, rw is (ap (λ (n : ℕ). some (val reg_16 n)) (omega arith))),
    ),
    (_, refl, rw is (ap (λ (n : ℕ). some (val reg_16 n)) (omega arith))),
  )

  abbrev pub Reads32 : ℕ → Type 0
  Reads32 i = eval env (quarter reg i) ≡ some (val reg_32 (x / 256 ^ (4 * i) % 256 ^ 4))

  pub reads_32 : AllBelow 2 Reads32
  unfolding eval
  reads_32 = (
    (tt, rw is (ap (λ (n : ℕ). some (val reg_32 n)) (omega arith))),
    rw is (ap (λ (n : ℕ). some (val reg_32 n)) (omega arith)),
  )

  module _ (datum : Exp) (v : ℕ) where
    abbrev pub Puts8 : ℕ → Type 0
    Puts8 i = eval env (replaced reg datum 255 (i * 8)) ≡ some (val reg_64 (replace 1 i v x))

    pub puts_8 : v < 2 ^ 8 → eval env datum ≡ some (val reg_8 v) → AllBelow 8 Puts8
    unfolding eval
    puts_8 bound of_data = (
      (
        (
          (
            (
              (
                (
                  (
                    tt,
                    rw (is, of_data)
                        (ap (λ (n : ℕ). some (val reg_64 n))
                          (put_lowest 56 8 x v (omega arith) (omega arith))),
                  ),
                  rw (is, of_data)
                      (ap (λ (n : ℕ). some (val reg_64 n))
                        (put_word 48 8 8 x v (omega arith) (omega arith) (omega arith))),
                ),
                rw (is, of_data)
                    (ap (λ (n : ℕ). some (val reg_64 n))
                      (put_word 40 8 16 x v (omega arith) (omega arith) (omega arith))),
              ),
              rw (is, of_data)
                  (ap (λ (n : ℕ). some (val reg_64 n))
                    (put_word 32 8 24 x v (omega arith) (omega arith) (omega arith))),
            ),
            rw (is, of_data)
                (ap (λ (n : ℕ). some (val reg_64 n))
                  (put_word 24 8 32 x v (omega arith) (omega arith) (omega arith))),
          ),
          rw (is, of_data)
              (ap (λ (n : ℕ). some (val reg_64 n))
                (put_word 16 8 40 x v (omega arith) (omega arith) (omega arith))),
        ),
        rw (is, of_data)
            (ap (λ (n : ℕ). some (val reg_64 n))
              (put_word 8 8 48 x v (omega arith) (omega arith) (omega arith))),
      ),
      rw (is, of_data)
          (ap (λ (n : ℕ). some (val reg_64 n))
            (put_word 0 8 56 x v (omega arith) (omega arith) (omega arith))),
    )

    abbrev pub Puts16 : ℕ → Type 0
    Puts16 i =
        eval env (replaced reg datum 65535 (i * 16)) ≡ some (val reg_64 (replace 2 (2 * i) v x))

    pub puts_16 : v < 2 ^ 16 → eval env datum ≡ some (val reg_16 v) → AllBelow 4 Puts16
    unfolding eval
    puts_16 bound of_data = (
      (
        (
          (
            tt,
            rw (is, of_data)
                (ap (λ (n : ℕ). some (val reg_64 n))
                  (put_lowest 48 16 x v (omega arith) (omega arith))),
          ),
          rw (is, of_data)
              (ap (λ (n : ℕ). some (val reg_64 n))
                (put_word 32 16 16 x v (omega arith) (omega arith) (omega arith))),
        ),
        rw (is, of_data)
            (ap (λ (n : ℕ). some (val reg_64 n))
              (put_word 16 16 32 x v (omega arith) (omega arith) (omega arith))),
      ),
      rw (is, of_data)
          (ap (λ (n : ℕ). some (val reg_64 n))
            (put_word 0 16 48 x v (omega arith) (omega arith) (omega arith))),
    )

    abbrev pub Puts32 : ℕ → Type 0
    Puts32 i = eval env (assembled reg datum i) ≡ some (val reg_64 (replace 4 (4 * i) v x))

    pub puts_32 : v < 2 ^ 32 → eval env datum ≡ some (val reg_32 v) → AllBelow 2 Puts32
    unfolding eval assemble64
    puts_32 bound of_data =
        let low = x / 2 ^ 32 in
        let shifted : low * 2 ^ 32 % 2 ^ 64 ≡ low * 2 ^ 32 = omega arith in
        let above : v * 2 ^ 32 % 2 ^ 64 ≡ v * 2 ^ 32 = omega arith in
        (
          (
            tt,
            rw (is, of_data)
                (ap (λ (n : ℕ). some (val reg_64 n))
                  (rw shifted (bit_or_fields 32 low v bound ∙ omega arith))),
          ),
          rw (is, of_data)
              (ap (λ (n : ℕ). some (val reg_64 n))
                (rw above (bit_or_fields 32 v (x % 2 ^ 32) (omega arith) ∙ omega arith))),
        )
