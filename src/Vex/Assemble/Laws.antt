-- ===== src/Vex/Assemble/Laws.antt =====
-- What assembled and split words stand for.
use native.Mathlib.Nat.{mod-eq_of_lt, mod-lt}
use fuzzball.Ir.Build.{ex_h_cast, ex_l_cast, ex_or, ex_shl_by, ex_u_cast}
use fuzzball.Ir.Eval.{Env, apply_binop, apply_cast, val}
use fuzzball.Ir.Types.{
  Exp, RegT, bitor, cast_high, cast_unsigned, lshift, reg_1, reg_16, reg_32, reg_64, reg_8,
  reg_to_bits, same_reg_refl,
}
use fuzzball.Ir.Words.{IsWord, IsWord-bin_op, IsWord-cast, IsWord-constant, IsWord-eq}
use fuzzball.Prelude.{
  arith, leb, refl, some, suc, true, zero, ℕ, ◌%◌, ◌*◌, ◌+◌, ◌-◌, ◌/◌, ◌<◌, ◌^◌, ◌≡◌,
}
use fuzzball.Prelude.Bits.{bit_or_fields}
use fuzzball.Vex.Assemble.{
  assemble2x8, assemble4x16, assemble4x8, assemble8x8, split2x32, split4x16, split4x8, split8x8,
  translate_16HLto32, translate_32HLto64, translate_64HLto64,
}

pow-pos : (u : RegT) → 0 < 2 ^ reg_to_bits u
pow-pos reg_1 = omega arith
pow-pos _ = omega arith

-- Lane `k` of a word that is cut in lanes of `w` bits, lane 0 the lowest.
abbrev pub lane : ℕ → ℕ → ℕ → ℕ
lane w k x = x / 2 ^ (w * k) % 2 ^ w

-- The word of `n` lanes that are `f` of the lanes of two words.
abbrev pub lanes : ℕ → ℕ → (ℕ → ℕ → ℕ) → ℕ → ℕ → ℕ
lanes w zero f x y = 0
lanes w (suc n) f x y = f (lane w n x) (lane w n y) * 2 ^ (w * n) + lanes w n f x y

-- Four expressions are the lanes `k + 3` to `k` of a word.
abbrev pub AreLanes : Env → RegT → ℕ → ℕ → Exp × Exp × Exp × Exp → Type 0
AreLanes env t k x es =
    IsWord env es.0 t (lane (reg_to_bits t) (k + 3) x)
    × IsWord env es.1 t (lane (reg_to_bits t) (k + 2) x)
    × IsWord env es.2 t (lane (reg_to_bits t) (k + 1) x)
    × IsWord env es.3 t (lane (reg_to_bits t) k x)

module _ {env : Env} where
  -- The common form of all assembly: widen both, shift one, and take the union.
  pub join-IsWord :
      {a b : Exp} {u v : RegT} {x y : ℕ} (t : RegT) (k : ℕ)
      → IsWord env a u x
      → IsWord env b v y
      → apply_cast cast_unsigned t (val u x) ≡ some (val t x)
      → apply_cast cast_unsigned t (val v y) ≡ some (val t y)
      → k < 256
      → y < 2 ^ k
      → x < 2 ^ reg_to_bits t
      → x * 2 ^ k + y < 2 ^ reg_to_bits t
      → IsWord env (ex_or (ex_shl_by (ex_u_cast a t) k) (ex_u_cast b t)) t (x * 2 ^ k + y)
  join-IsWord {x = x} {y = y} t k ha hb ca cb small p r q =
      let shifted : x * 2 ^ k < 2 ^ reg_to_bits t = omega arith in
      let amount : apply_binop lshift (val t x) (val reg_32 k) ≡ some (val t (x * 2 ^ k)) =
        rw (mod-eq_of_lt small, mod-eq_of_lt shifted) in
      let union : apply_binop bitor (val t (x * 2 ^ k)) (val t y) ≡ some (val t (x * 2 ^ k + y)) =
        rw (same_reg_refl t, bit_or_fields k x y p) in
      IsWord-bin_op
        (IsWord-bin_op (IsWord-cast ha ca r) (IsWord-constant reg_32 k (omega arith)) amount
          shifted)
        (IsWord-cast hb cb (omega arith)) union q

  pub assemble2x8_lem :
      {a b : Exp} {x y : ℕ}
      → IsWord env a reg_8 x
      → IsWord env b reg_8 y
      → IsWord env (assemble2x8 a b) reg_16 (x * 2 ^ 8 + y)
  unfolding assemble2x8
  assemble2x8_lem ha hb =
      join-IsWord reg_16 8 ha hb refl refl (omega arith) (omega arith) (omega arith) (omega arith)

  pub translate_16HLto32_lem :
      {a b : Exp} {x y : ℕ}
      → IsWord env a reg_16 x
      → IsWord env b reg_16 y
      → IsWord env (translate_16HLto32 a b) reg_32 (x * 2 ^ 16 + y)
  unfolding translate_16HLto32
  translate_16HLto32_lem ha hb =
      join-IsWord reg_32 16 ha hb refl refl (omega arith) (omega arith) (omega arith) (omega arith)

  pub translate_32HLto64_lem :
      {a b : Exp} {x y : ℕ}
      → IsWord env a reg_32 x
      → IsWord env b reg_32 y
      → IsWord env (translate_32HLto64 a b) reg_64 (x * 2 ^ 32 + y)
  unfolding translate_32HLto64
  translate_32HLto64_lem ha hb =
      join-IsWord reg_64 32 ha hb refl refl (omega arith) (omega arith) (omega arith) (omega arith)

  pub assemble4x8_lem :
      {a b c d : Exp} {x y z w : ℕ}
      → IsWord env a reg_8 x
      → IsWord env b reg_8 y
      → IsWord env c reg_8 z
      → IsWord env d reg_8 w
      → IsWord env (assemble4x8 a b c d) reg_32 ((x * 2 ^ 8 + y) * 2 ^ 16 + (z * 2 ^ 8 + w))
  unfolding assemble4x8
  assemble4x8_lem ha hb hc hd =
      translate_16HLto32_lem (unfold assemble2x8 in assemble2x8_lem ha hb)
        (unfold assemble2x8 in assemble2x8_lem hc hd)

  pub assemble4x16_lem :
      {a b c d : Exp} {x y z w : ℕ}
      → IsWord env a reg_16 x
      → IsWord env b reg_16 y
      → IsWord env c reg_16 z
      → IsWord env d reg_16 w
      → IsWord env (assemble4x16 a b c d) reg_64 ((x * 2 ^ 16 + y) * 2 ^ 32 + (z * 2 ^ 16 + w))
  unfolding assemble4x16
  assemble4x16_lem ha hb hc hd =
      translate_32HLto64_lem
        (join-IsWord reg_32 16 ha hb refl refl (omega arith) (omega arith) (omega arith)
          (omega arith))
        (join-IsWord reg_32 16 hc hd refl refl (omega arith) (omega arith) (omega arith)
          (omega arith))

  -- Eight bytes, from the highest to the lowest, are put together to the 64-bit word with these
  -- bytes.
  pub assemble8x8_lem :
      {a b c d e f g h : Exp} {x y z w x' y' z' w' : ℕ}
      → IsWord env a reg_8 x
      → IsWord env b reg_8 y
      → IsWord env c reg_8 z
      → IsWord env d reg_8 w
      → IsWord env e reg_8 x'
      → IsWord env f reg_8 y'
      → IsWord env g reg_8 z'
      → IsWord env h reg_8 w'
      → IsWord env (assemble8x8 a b c d e f g h) reg_64 (
          ((x * 2 ^ 8 + y) * 2 ^ 16 + (z * 2 ^ 8 + w)) * 2 ^ 32
          + ((x' * 2 ^ 8 + y') * 2 ^ 16 + (z' * 2 ^ 8 + w')))
  unfolding assemble8x8
  assemble8x8_lem ha hb hc hd he hf hg hh =
      translate_32HLto64_lem (assemble4x8_lem ha hb hc hd) (assemble4x8_lem he hf hg hh)

  pub high-IsWord :
      {a : Exp} {t : RegT} {x : ℕ} (u : RegT)
      → IsWord env a t x
      → apply_cast cast_high u (val t x) ≡ some (val u (x / 2 ^ (reg_to_bits t - reg_to_bits u)))
      → x / 2 ^ (reg_to_bits t - reg_to_bits u) < 2 ^ reg_to_bits u
      → IsWord env (ex_h_cast a u) u (x / 2 ^ (reg_to_bits t - reg_to_bits u))
  high-IsWord u ha r p = IsWord-cast ha r p

  pub low-IsWord :
      {a : Exp} {t : RegT} {x : ℕ} (u : RegT)
      → IsWord env a t x
      → leb (reg_to_bits u) (reg_to_bits t) ≡ true
      → IsWord env (ex_l_cast a u) u (x % 2 ^ reg_to_bits u)
  low-IsWord u ha r = IsWord-cast ha (rw r) (mod-lt _ (pow-pos u))

  pub split4x8_lem : {a : Exp} {x : ℕ} → IsWord env a reg_32 x → AreLanes env reg_8 0 x (split4x8 a)
  unfolding split4x8
  split4x8_lem ha =
      let high = high-IsWord reg_16 ha refl (omega arith) in
      let low = low-IsWord reg_16 ha refl in
      (
        IsWord-eq (high-IsWord reg_8 high refl (omega arith)) (omega arith),
        IsWord-eq (low-IsWord reg_8 high refl) (omega arith),
        IsWord-eq (high-IsWord reg_8 low refl (omega arith)) (omega arith),
        IsWord-eq (low-IsWord reg_8 low refl) (omega arith),
      )

  pub split4x16_lem :
      {a : Exp} {x : ℕ} → IsWord env a reg_64 x → AreLanes env reg_16 0 x (split4x16 a)
  unfolding split4x16
  split4x16_lem ha =
      let high = high-IsWord reg_32 ha refl (omega arith) in
      let low = low-IsWord reg_32 ha refl in
      (
        IsWord-eq (high-IsWord reg_16 high refl (omega arith)) (omega arith),
        IsWord-eq (low-IsWord reg_16 high refl) (omega arith),
        IsWord-eq (high-IsWord reg_16 low refl (omega arith)) (omega arith),
        IsWord-eq (low-IsWord reg_16 low refl) (omega arith),
      )

  pub split2x32_lem :
      {a : Exp} {x : ℕ}
      → IsWord env a reg_64 x
      → IsWord env (split2x32 a).0 reg_32 (lane 32 1 x)
        × IsWord env (split2x32 a).1 reg_32 (lane 32 0 x)
  unfolding split2x32
  split2x32_lem ha = (
    IsWord-eq (high-IsWord reg_32 ha refl (omega arith)) (omega arith),
    IsWord-eq (low-IsWord reg_32 ha refl) (omega arith),
  )

  -- The eight parts of a split 64-bit word stand for its bytes, from the highest to the lowest.
  pub split8x8_lem :
      {a : Exp} {x : ℕ}
      → IsWord env a reg_64 x
      → AreLanes env reg_8 4 x (split8x8 a).0 × AreLanes env reg_8 0 x (split8x8 a).1
  unfolding split8x8
  split8x8_lem ha =
      let h = split4x8_lem (high-IsWord reg_32 ha refl (omega arith)) in
      let l = split4x8_lem (low-IsWord reg_32 ha refl) in
      (
        (
          IsWord-eq h.0 (omega arith),
          IsWord-eq h.1 (omega arith),
          IsWord-eq h.2 (omega arith),
          IsWord-eq h.3 (omega arith),
        ),
        (
          IsWord-eq l.0 (omega arith),
          IsWord-eq l.1 (omega arith),
          IsWord-eq l.2 (omega arith),
          IsWord-eq l.3 (omega arith),
        ),
      )

  -- Joining two 64-bit words keeps the low half of each, the first above the second.
  pub translate_64HLto64_lem :
      {a b : Exp} {x y : ℕ}
      → IsWord env a reg_64 x
      → IsWord env b reg_64 y
      → IsWord env (translate_64HLto64 a b) reg_64 (x % 2 ^ 32 * 2 ^ 32 + y % 2 ^ 32)
  unfolding translate_64HLto64
  translate_64HLto64_lem ha hb =
      translate_32HLto64_lem (low-IsWord reg_32 ha refl) (low-IsWord reg_32 hb refl)
