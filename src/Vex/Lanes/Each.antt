-- ===== src/Vex/Lanes/Each.antt =====
-- An operation applied to each lane gives the word of the results.
use fuzzball.Ir.Eval.{Env}
use fuzzball.Ir.Types.{Exp, RegT, reg_32, reg_64, reg_8}
use fuzzball.Ir.Words.{IsWord, IsWord-eq}
use fuzzball.Prelude.{arith, ℕ}
use fuzzball.Vex.Assemble.Laws.{
  assemble4x8_lem, assemble8x8_lem, lanes, split2x32_lem, split4x8_lem, split8x8_lem,
  translate_32HLto64_lem,
}
use fuzzball.Vex.Lanes.{each2x32, each4x8, each8x8}

-- `g` builds, from words of type `t`, a word that is `f` of theirs.
abbrev pub Computes : Env → RegT → (Exp → Exp → Exp) → (ℕ → ℕ → ℕ) → Type 0
Computes env t g f =
    (a b : Exp) (x y : ℕ) → IsWord env a t x → IsWord env b t y → IsWord env (g a b) t (f x y)

module _ {env : Env} {a b : Exp} {x y : ℕ} (g : Exp → Exp → Exp) (f : ℕ → ℕ → ℕ) where
  pub each4x8_lem :
      Computes env reg_8 g f
      → IsWord env a reg_32 x
      → IsWord env b reg_32 y
      → IsWord env (each4x8 g a b) reg_32 (lanes 8 4 f x y)
  unfolding each4x8
  each4x8_lem step ha hb =
      let p = split4x8_lem ha in
      let q = split4x8_lem hb in
      IsWord-eq
        (assemble4x8_lem (step _ _ _ _ p.0 q.0) (step _ _ _ _ p.1 q.1) (step _ _ _ _ p.2 q.2)
          (step _ _ _ _ p.3 q.3))
        (omega arith)

  pub each8x8_lem :
      Computes env reg_8 g f
      → IsWord env a reg_64 x
      → IsWord env b reg_64 y
      → IsWord env (each8x8 g a b) reg_64 (lanes 8 8 f x y)
  unfolding each8x8
  each8x8_lem step ha hb =
      let (p, r) = split8x8_lem ha in
      let (q, s) = split8x8_lem hb in
      IsWord-eq
        (assemble8x8_lem (step _ _ _ _ p.0 q.0) (step _ _ _ _ p.1 q.1) (step _ _ _ _ p.2 q.2)
          (step _ _ _ _ p.3 q.3) (step _ _ _ _ r.0 s.0) (step _ _ _ _ r.1 s.1)
          (step _ _ _ _ r.2 s.2) (step _ _ _ _ r.3 s.3))
        (omega arith)

  pub each2x32_lem :
      Computes env reg_32 g f
      → IsWord env a reg_64 x
      → IsWord env b reg_64 y
      → IsWord env (each2x32 g a b) reg_64 (lanes 32 2 f x y)
  unfolding each2x32
  each2x32_lem step ha hb =
      let p = split2x32_lem ha in
      let q = split2x32_lem hb in
      IsWord-eq (translate_32HLto64_lem (step _ _ _ _ p.0 q.0) (step _ _ _ _ p.1 q.1)) (omega arith)
