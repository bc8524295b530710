-- ===== src/Vex/Signed/Laws.antt =====
-- `translate_Neg128` negates a 128-bit value.
use fuzzball.Ir.Eval.{Env}
use fuzzball.Ir.Types.{Exp, reg_64, vector}
use fuzzball.Ir.Words.{IsWord-bin_op, IsWord-cast, IsWord-constant, IsWord-un_op}
use fuzzball.Prelude.{
  List, arith, if◌then◌else◌, refl, some, ℕ, ◌%◌, ◌*◌, ◌+◌, ◌-◌, ◌<◌, ◌==◌, ◌^◌, ◌∷◌, ◌≡◌,
}
use fuzzball.Stmt.{Decimal, Out}
use fuzzball.Stmt.Exec.{Fact, Knows}
use fuzzball.Stmt.Laws.{forget, mk_temp_def_lem, now}
use fuzzball.Vex.Assemble.{translate_64HLto128}
use fuzzball.Vex.Lanes.{split_vector}
use fuzzball.Vex.Lanes.Byte.{flag-lt}
use fuzzball.Vex.Signed.{translate_Neg128}
use fuzzball.Vex.Wide.Product.{Gives}

halves_of_negative :
    (h l : ℕ)
    → h < 2 ^ 64
    → l < 2 ^ 64
    → (2 ^ 64 - 1 - h + (if (2 ^ 64 - 1 - l + 1) % 2 ^ 64 == 0 then 1 else 0)) % 2 ^ 64 * 2 ^ 64
        + (2 ^ 64 - 1 - l + 1) % 2 ^ 64
      ≡ (2 ^ 128 - (h * 2 ^ 64 + l)) % 2 ^ 128
halves_of_negative h l p q = ground arith

module _ (d : Decimal) (o₀ : Out) (env₀ env₁ : Env) where
  -- Where the output has run and the argument is a vector of two words, `translate_Neg128` succeeds; the
  -- output after it runs too, changes no variable but new temporaries, and the result is a vector of two
  -- words that make up the 128-bit two's complement of the argument's value.
  pub translate_Neg128_lem :
      {o : Out} {fs : List (Fact d)} {a b : Exp} {h l : ℕ}
      → Knows d o₀ env₀ env₁ o ((a, reg_64, h) ∷ (b, reg_64, l) ∷ fs)
      → (r : Exp × Out) × (translate_Neg128 d (vector a b) o ≡ some r)
        × Gives d o₀ env₀ env₁ ((2 ^ 128 - (h * 2 ^ 64 + l)) % 2 ^ 128) r
  unfolding translate_Neg128 split_vector translate_64HLto128 forget
  translate_Neg128_lem {o = o} {a = a} {b = b} {h = h} {l = l} k0 =
      let low = now d k0 k0.known.1.0 in
      let k1 = mk_temp_def_lem d k0 (
        IsWord-bin_op (IsWord-un_op low refl (omega arith)) (IsWord-constant reg_64 1 (omega arith))
          refl (omega arith)) in
      let inc = now d k1 k1.known.0 in
      (
        _,
        refl,
        (
          forget d k1,
          record {
            high = _;
            low = _;
            h = _;
            l = _;
            shape = refl;
            high_word =
                IsWord-bin_op (IsWord-un_op (now d k1 k1.known.1.0) refl (omega arith))
                  (IsWord-cast
                    (IsWord-bin_op inc (IsWord-constant reg_64 0 (omega arith)) refl
                      (flag-lt ((2 ^ 64 - 1 - l + 1) % 2 ^ 64 == 0)))
                    refl (ground arith))
                  refl (omega arith);
            low_word = inc;
            total = halves_of_negative h l (now d k0 k0.known.0).fits low.fits;
          },
        ),
      )
