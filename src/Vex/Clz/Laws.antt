-- ===== src/Vex/Clz/Laws.antt =====
-- `clz64_ite` counts the leading zeros.
use native.Mathlib.Nat.{mod-eq_of_lt}
use fuzzball.Ir.Build.{
  ex_const, ex_const_of, ex_eq, ex_ge, ex_h_cast, ex_ite, ex_l_cast, ex_le, ex_shl, ex_shr,
  ex_u_cast,
}
use fuzzball.Ir.Eval.{Env, apply_binop, apply_cast, val}
use fuzzball.Ir.Types.{
  Exp, RegT, cast_high, constant, lshift, reg_1, reg_16, reg_32, reg_64, reg_8, reg_to_bits, rshift,
  same_reg_refl,
}
use fuzzball.Ir.Words.{IsWord, IsWord-bin_op, IsWord-cast, IsWord-constant, IsWord-eq, IsWord-ite}
use fuzzball.Prelude.{
  Bool, List, [], ap, arith, bit_or, false, if◌then◌else◌, leb, ltb, refl, some, suc, sym, true, ℕ,
  ◌*◌, ◌+◌, ◌/◌, ◌<◌, ◌==◌, ◌^◌, ◌∙◌, ◌∷◌, ◌≡◌,
}
use fuzzball.Prelude.Bits.{bit_or_fields}
use fuzzball.Stmt.{Decimal, Out}
use fuzzball.Stmt.Exec.{Fact, Knows}
use fuzzball.Stmt.Laws.{forget, mk_temp_def_lem, now}
use fuzzball.Vex.Assemble.Laws.{low-IsWord}
use fuzzball.Vex.Clz.{clz64_ite, clz_bits, clz_bytes, clz_total}
use fuzzball.Vex.Clz.Count.{halve, halvings, last_zeros, leading_zeros, zeros}
use fuzzball.Vex.Lanes.Byte.{flag-lt}

few_zeros : (v : ℕ) → last_zeros v < 3
few_zeros v = ground arith

module _ {env : Env} where
  count-IsWord :
      {e : Exp} {n : ℕ} (k : ℕ)
      → k < 256
      → n * 2 ^ k < 2 ^ 32
      → IsWord env e reg_1 n
      → IsWord env (ex_shl (ex_u_cast e reg_32) (ex_const k)) reg_32 (n * 2 ^ k)
  count-IsWord {n = n} k h p f =
      let shifted : apply_binop lshift (val reg_32 n) (val reg_32 k)
          ≡ some (val reg_32 (n * 2 ^ k)) =
        rw (mod-eq_of_lt h, mod-eq_of_lt p) in
      IsWord-bin_op (IsWord-cast f refl (omega (arith, f.fits)))
        (IsWord-constant reg_32 k (omega arith)) shifted p

  low-IsWord_last :
      {e : Exp} {v : ℕ}
      → IsWord env e reg_8 v
      → IsWord env
          (ex_ite
            (ex_ge e (ex_const_of reg_8 2))
            (ex_const 0)
            (ex_ite (ex_eq e (ex_const_of reg_8 0)) (ex_const 2) (ex_const 1)))
          reg_32
          (last_zeros v)
  low-IsWord_last {v = v} h =
      IsWord-eq
        (IsWord-ite
          (IsWord-bin_op h (IsWord-constant reg_8 2 (omega arith)) refl (flag-lt (leb 2 v)))
          (IsWord-constant reg_32 0 (omega arith))
          (IsWord-ite
            (IsWord-bin_op h (IsWord-constant reg_8 0 (omega arith)) refl (flag-lt (v == 0)))
            (IsWord-constant reg_32 2 (omega arith)) (IsWord-constant reg_32 1 (omega arith))))
        (ground arith)

  clz_total_lem :
      {l32 l16 l8 l4 l2 e : Exp} {v a b c f g : ℕ}
      → IsWord env l32 reg_1 a
      → IsWord env l16 reg_1 b
      → IsWord env l8 reg_1 c
      → IsWord env l4 reg_1 f
      → IsWord env l2 reg_1 g
      → IsWord env e reg_8 v
      → IsWord env
          (clz_total l32 l16 l8 l4 l2 e)
          reg_32
          (a * 32 + (b * 16 + (c * 8 + (f * 4 + g * 2))) + last_zeros v)
  unfolding clz_total
  clz_total_lem {v = v} {a = a} {b = b} {c = c} {f = f} {g = g} ha hb hc hf hg he =
      let a5 = count-IsWord 5 (omega arith) (omega (arith, ha.fits)) ha in
      let b4 = count-IsWord 4 (omega arith) (omega (arith, hb.fits)) hb in
      let c3 = count-IsWord 3 (omega arith) (omega (arith, hc.fits)) hc in
      let f2 = count-IsWord 2 (omega arith) (omega (arith, hf.fits)) hf in
      let g1 = count-IsWord 1 (omega arith) (omega (arith, hg.fits)) hg in
      let high : bit_or (a * 2 ^ 5) (b * 2 ^ 4) ≡ (2 * a + b) * 2 ^ 4 =
        bit_or_fields 5 a (b * 2 ^ 4) (omega (arith, hb.fits)) ∙ omega arith in
      let low : bit_or (c * 2 ^ 3) (f * 2 ^ 2) ≡ c * 2 ^ 3 + f * 2 ^ 2 =
        bit_or_fields 3 c (f * 2 ^ 2) (omega (arith, hf.fits)) in
      let both : bit_or ((2 * a + b) * 2 ^ 4) (c * 2 ^ 3 + f * 2 ^ 2)
          ≡ (8 * a + 4 * b + 2 * c + f) * 2 ^ 2 =
        bit_or_fields 4 (2 * a + b) (c * 2 ^ 3 + f * 2 ^ 2) (omega (arith, hc.fits, hf.fits))
        ∙ omega arith in
      let all : bit_or ((8 * a + 4 * b + 2 * c + f) * 2 ^ 2) (g * 2 ^ 1)
          ≡ a * 32 + (b * 16 + (c * 8 + (f * 4 + g * 2))) =
        bit_or_fields 2 (8 * a + 4 * b + 2 * c + f) (g * 2 ^ 1) (omega (arith, hg.fits))
        ∙ omega arith in
      let few = few_zeros v in
      let word_high =
        IsWord-bin_op a5 b4 (ap (λ (n : ℕ). some (val reg_32 n)) high)
          (omega (arith, ha.fits, hb.fits)) in
      let word_low =
        IsWord-bin_op c3 f2 (ap (λ (n : ℕ). some (val reg_32 n)) low)
          (omega (arith, hc.fits, hf.fits)) in
      let word_both =
        IsWord-bin_op word_high word_low (ap (λ (n : ℕ). some (val reg_32 n)) both)
          (omega (arith, ha.fits, hb.fits, hc.fits, hf.fits)) in
      let word_all =
        IsWord-bin_op word_both g1 (ap (λ (n : ℕ). some (val reg_32 n)) all)
          (omega (arith, ha.fits, hb.fits, hc.fits, hf.fits, hg.fits)) in
      IsWord-eq (IsWord-bin_op word_all (low-IsWord_last he) refl (omega arith))
        (omega (arith, ha.fits, hb.fits, hc.fits, hf.fits, hg.fits, few))

  lead-IsWord :
      {e : Exp} {t : RegT} {x : ℕ} (c : ℕ)
      → IsWord env (constant t c) t c
      → IsWord env e t x
      → IsWord env (ex_le e (ex_const_of t c)) reg_1 (if ltb x (suc c) then 1 else 0)
  lead-IsWord {t = t} {x = x} c hc h =
      IsWord-eq (IsWord-bin_op h hc (rw (same_reg_refl t)) (flag-lt (leb x c))) (ground arith)

  half-IsWord :
      {e l : Exp} {t : RegT} {x : ℕ} (u : RegT)
      → IsWord env l reg_1 (if ltb x (2 ^ reg_to_bits u) then 1 else 0)
      → IsWord env e t x
      → leb (reg_to_bits u) (reg_to_bits t) ≡ true
      → apply_cast cast_high u (val t x) ≡ some (val u (x / 2 ^ reg_to_bits u))
      → x / 2 ^ reg_to_bits u < 2 ^ reg_to_bits u
      → IsWord env (ex_ite l (ex_l_cast e u) (ex_h_cast e u)) u (halve (2 ^ reg_to_bits u) x)
  half-IsWord {x = x} u hl h narrow high small =
      IsWord-eq (IsWord-ite hl (low-IsWord u h narrow) (IsWord-cast h high small))
        (ground (arith, mod-eq_of_lt {n = x} {m = 2 ^ reg_to_bits u}))

  shifted_half-IsWord :
      {e l : Exp} {x : ℕ} (k : ℕ)
      → k < 256
      → IsWord env l reg_1 (if ltb x (2 ^ k) then 1 else 0)
      → IsWord env e reg_8 x
      → x / 2 ^ k < 2 ^ 8
      → IsWord env (ex_ite l e (ex_shr e (ex_const k))) reg_8 (halve (2 ^ k) x)
  shifted_half-IsWord {x = x} k small hl h p =
      let shifted : apply_binop rshift (val reg_8 x) (val reg_32 k) ≡ some (val reg_8 (x / 2 ^ k)) =
        rw (mod-eq_of_lt small, mod-eq_of_lt p) in
      IsWord-eq
        (IsWord-ite hl h (IsWord-bin_op h (IsWord-constant reg_32 k (omega arith)) shifted p))
        (ground arith)

-- A flag times its weight is the zeros that it stands for.
weight : (b : Bool) (k : ℕ) → (if b then 1 else 0) * k ≡ zeros b k
weight true k = omega arith
weight false k = omega arith

sum_of_weights :
    (a b c e f : Bool) (n : ℕ)
    → (if a then 1 else 0) * 32
        + ((if b then 1 else 0) * 16
            + ((if c then 1 else 0) * 8 + ((if e then 1 else 0) * 4 + (if f then 1 else 0) * 2)))
        + n
      ≡ zeros a 32 + (zeros b 16 + (zeros c 8 + (zeros e 4 + (zeros f 2 + n))))
sum_of_weights a b c e f n =
    rw (weight a 32, weight b 16, weight c 8, weight e 4, weight f 2) (omega arith)

weights :
    (x : ℕ)
    → x < 2 ^ 64
    → let x_32 = halve (2 ^ 32) x in
      let x_16 = halve (2 ^ 16) x_32 in
      let x_8 = halve (2 ^ 8) x_16 in
      let x_4 = halve (2 ^ 4) x_8 in
      (if ltb x (2 ^ 32) then 1 else 0) * 32
        + ((if ltb x_32 (2 ^ 16) then 1 else 0) * 16
            + ((if ltb x_16 (2 ^ 8) then 1 else 0) * 8
                + ((if ltb x_8 (2 ^ 4) then 1 else 0) * 4
                    + (if ltb x_4 (2 ^ 2) then 1 else 0) * 2)))
        + last_zeros (halve (2 ^ 2) x_4)
      ≡ leading_zeros 64 x
weights x h =
    let x_32 = halve (2 ^ 32) x in
    let x_16 = halve (2 ^ 16) x_32 in
    let x_8 = halve (2 ^ 8) x_16 in
    let x_4 = halve (2 ^ 4) x_8 in
    sum_of_weights (ltb x (2 ^ 32)) (ltb x_32 (2 ^ 16)) (ltb x_16 (2 ^ 8)) (ltb x_8 (2 ^ 4))
      (ltb x_4 (2 ^ 2)) (last_zeros (halve (2 ^ 2) x_4))
    ∙ sym (halvings x h)

module _ (d : Decimal) (o₀ : Out) (env₀ env₁ : Env) where
  -- A translation that ends with a word of type `t`, whatever else is known.
  abbrev pub GivesWord : RegT → ℕ → Exp × Out → Type 0
  GivesWord t v r = (k : Knows d o₀ env₀ env₁ r.1 []) × IsWord k.env r.0 t v

  GivesWord-eq : {t : RegT} {v w : ℕ} {r : Exp × Out} → v ≡ w → GivesWord t v r → GivesWord t w r
  GivesWord-eq e g = (g.0, IsWord-eq g.1 e)

  clz_bits_lem :
      {o : Out} {fs : List (Fact d)} {l32 l16 l8 l4 e e8 e16 e32 : Exp} (a b c f x y8 y16 y32 : ℕ)
      → Knows d o₀ env₀ env₁ o (
          (e, reg_8, x)
          ∷ (l4, reg_1, f)
          ∷ (e8, reg_8, y8)
          ∷ (l8, reg_1, c)
          ∷ (e16, reg_16, y16)
          ∷ (l16, reg_1, b)
          ∷ (e32, reg_32, y32)
          ∷ (l32, reg_1, a)
          ∷ fs)
      → GivesWord reg_32
          (a * 32
            + (b * 16 + (c * 8 + (f * 4 + (if ltb x (2 ^ 2) then 1 else 0) * 2)))
            + last_zeros (halve (2 ^ 2) x))
          (clz_bits d l32 l16 l8 l4 e o)
  unfolding clz_bits forget
  clz_bits_lem a b c f x y8 y16 y32 k0 =
      let k1 =
        mk_temp_def_lem d k0
          (lead-IsWord 0x03 (IsWord-constant reg_8 0x03 (omega arith)) (now d k0 k0.known.0)) in
      let k2 = mk_temp_def_lem d k1 (
        shifted_half-IsWord 2 (omega arith) (now d k1 k1.known.0) (now d k1 k1.known.1.0)
          (omega (arith, (now d k1 k1.known.1.0).fits))) in
      (
        forget d k2,
        clz_total_lem (now d k2 k2.known.1.1.1.1.1.1.1.1.1.0) (now d k2 k2.known.1.1.1.1.1.1.1.0)
            (now d k2 k2.known.1.1.1.1.1.0) (now d k2 k2.known.1.1.1.0) (now d k2 k2.known.1.0)
            (now d k2 k2.known.0),
      )

  clz_bytes_lem :
      {o : Out} {fs : List (Fact d)} {l32 l16 e e32 : Exp} (a b x y32 : ℕ)
      → Knows d o₀ env₀ env₁ o
          ((e, reg_16, x) ∷ (l16, reg_1, b) ∷ (e32, reg_32, y32) ∷ (l32, reg_1, a) ∷ fs)
      → let x_8 = halve (2 ^ 8) x in
        let x_4 = halve (2 ^ 4) x_8 in
        GivesWord reg_32
          (a * 32
            + (b * 16
                + ((if ltb x (2 ^ 8) then 1 else 0) * 8
                    + ((if ltb x_8 (2 ^ 4) then 1 else 0) * 4
                        + (if ltb x_4 (2 ^ 2) then 1 else 0) * 2)))
            + last_zeros (halve (2 ^ 2) x_4))
          (clz_bytes d l32 l16 e o)
  unfolding clz_bytes
  clz_bytes_lem a b x y32 k0 =
      let k1 =
        mk_temp_def_lem d k0
          (lead-IsWord 0xff (IsWord-constant reg_16 0xff (omega arith)) (now d k0 k0.known.0)) in
      let k2 = mk_temp_def_lem d k1 (
        half-IsWord reg_8 (now d k1 k1.known.0) (now d k1 k1.known.1.0) refl refl
          (omega (arith, (now d k1 k1.known.1.0).fits))) in
      let k3 =
        mk_temp_def_lem d k2
          (lead-IsWord 0x0f (IsWord-constant reg_8 0x0f (omega arith)) (now d k2 k2.known.0)) in
      let k4 = mk_temp_def_lem d k3 (
        shifted_half-IsWord 4 (omega arith) (now d k3 k3.known.0) (now d k3 k3.known.1.0)
          (omega (arith, (now d k3 k3.known.1.0).fits))) in
      clz_bits_lem a b _ _ _ _ x y32 k4

  -- Where the output has run and the argument stands for a 64-bit word, the output after `clz64_ite` runs
  -- too, changes no variable but new temporaries, and the result is the number of leading zeros of the
  -- word, as a 32-bit word.
  pub clz64_ite_lem :
      {o : Out} {fs : List (Fact d)} {e : Exp} {x : ℕ}
      → Knows d o₀ env₀ env₁ o ((e, reg_64, x) ∷ fs)
      → GivesWord reg_32 (leading_zeros 64 x) (clz64_ite d e o)
  unfolding clz64_ite
  clz64_ite_lem {x = x} k0 =
      let h = (now d k0 k0.known.0).fits in
      let k1 = mk_temp_def_lem d k0 (
        lead-IsWord 0xffffffff (IsWord-constant reg_64 0xffffffff (omega arith))
          (now d k0 k0.known.0)) in
      let k2 = mk_temp_def_lem d k1 (
        half-IsWord reg_32 (now d k1 k1.known.0) (now d k1 k1.known.1.0) refl refl
          (omega (arith, h))) in
      let k3 =
        mk_temp_def_lem d k2 (
          lead-IsWord 0xffff (IsWord-constant reg_32 0xffff (omega arith)) (now d k2 k2.known.0)) in
      let k4 = mk_temp_def_lem d k3 (
        half-IsWord reg_16 (now d k3 k3.known.0) (now d k3 k3.known.1.0) refl refl
          (omega (arith, (now d k3 k3.known.1.0).fits))) in
      GivesWord-eq (weights x h) (clz_bytes_lem _ _ _ _ k4)
