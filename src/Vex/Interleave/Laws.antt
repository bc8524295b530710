-- ===== src/Vex/Interleave/Laws.antt =====
-- The interleaved vectors take their lanes in turn from the two operands.
use fuzzball.Ir.Eval.{Env}
use fuzzball.Ir.Types.{Exp, reg_64}
use fuzzball.Ir.Words.{IsWord}
use fuzzball.Prelude.{arith, refl, suc, zero, ℕ, ◌*◌, ◌+◌, ◌^◌}
use fuzzball.Vex.Assemble.{translate_64HLto128}
use fuzzball.Vex.Assemble.Laws.{
  assemble4x16_lem, assemble8x8_lem, lane, split2x32_lem, split4x16_lem, split8x8_lem,
  translate_32HLto64_lem,
}
use fuzzball.Vex.Interleave.{assemble4x32, interleave2_2x32, interleave2_4x16, interleave2_8x8}
use fuzzball.Vex.Wide.Value.{IsWide}

-- The word of the lanes below `n` of two words, those of the first above those of the second.
abbrev pub interleaved : ℕ → ℕ → ℕ → ℕ → ℕ
interleaved w zero x y = 0
interleaved w (suc n) x y =
    (lane w n x * 2 ^ w + lane w n y) * 2 ^ (2 * w * n) + interleaved w n x y

module _ {env : Env} {a b : Exp} {x y : ℕ} where
  pub interleave2_2x32_lem :
      IsWord env a reg_64 x
      → IsWord env b reg_64 y
      → IsWide env (interleave2_2x32 a b) (interleaved 32 2 x y)
  unfolding interleave2_2x32 assemble4x32 translate_64HLto128
  interleave2_2x32_lem ha hb =
      let p = split2x32_lem ha in
      let q = split2x32_lem hb in
      record {
        high = _;
        low = _;
        h = _;
        l = _;
        shape = refl;
        high_word = translate_32HLto64_lem p.0 q.0;
        low_word = translate_32HLto64_lem p.1 q.1;
        total = omega arith;
      }

  -- In the result of interleaving two words of four 16-bit lanes, lane 2k is lane k of the second word
  -- and lane 2k + 1 is lane k of the first.
  pub interleave2_4x16_lem :
      IsWord env a reg_64 x
      → IsWord env b reg_64 y
      → IsWide env (interleave2_4x16 a b) (interleaved 16 4 x y)
  unfolding interleave2_4x16 translate_64HLto128
  interleave2_4x16_lem ha hb =
      let p = split4x16_lem ha in
      let q = split4x16_lem hb in
      record {
        high = _;
        low = _;
        h = _;
        l = _;
        shape = refl;
        high_word = assemble4x16_lem p.0 q.0 p.1 q.1;
        low_word = assemble4x16_lem p.2 q.2 p.3 q.3;
        total = omega arith;
      }

  -- In the result of interleaving two words of eight bytes, byte 2k is byte k of the second word and byte
  -- 2k + 1 is byte k of the first.
  pub interleave2_8x8_lem :
      IsWord env a reg_64 x
      → IsWord env b reg_64 y
      → IsWide env (interleave2_8x8 a b) (interleaved 8 8 x y)
  unfolding interleave2_8x8 translate_64HLto128
  interleave2_8x8_lem ha hb =
      let (p, r) = split8x8_lem ha in
      let (q, s) = split8x8_lem hb in
      record {
        high = _;
        low = _;
        h = _;
        l = _;
        shape = refl;
        high_word = assemble8x8_lem p.0 q.0 p.1 q.1 p.2 q.2 p.3 q.3;
        low_word = assemble8x8_lem r.0 s.0 r.1 s.1 r.2 s.2 r.3 s.3;
        total = omega arith;
      }
