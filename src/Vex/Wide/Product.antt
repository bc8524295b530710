-- ===== src/Vex/Wide/Product.antt =====
-- `translate_MullU64` computes the whole 128-bit product.
use fuzzball.Ir.Build.{ex_add, ex_h_cast, ex_l_cast, ex_lt, ex_mul, ex_shl_by, ex_shr_by, ex_u_cast}
use fuzzball.Ir.Eval.{Env}
use fuzzball.Ir.Types.{Exp, reg_32, reg_64}
use fuzzball.Ir.Words.{IsWord, IsWord-bin_op, IsWord-cast, IsWord-constant, IsWord-eq}
use fuzzball.Prelude.{List, [], arith, ltb, refl, ℕ, ◌%◌, ◌*◌, ◌+◌, ◌/◌, ◌<◌, ◌^◌, ◌∙◌, ◌∷◌, ◌≡◌}
use fuzzball.Stmt.{Decimal, Out}
use fuzzball.Stmt.Exec.{Fact, Knows}
use fuzzball.Stmt.Laws.{forget, mk_temp_def_lem, now}
use fuzzball.Vex.Assemble.{translate_64HLto128}
use fuzzball.Vex.Assemble.Laws.{high-IsWord, low-IsWord}
use fuzzball.Vex.Lanes.Byte.{flag-lt}
use fuzzball.Vex.Wide.{partial_products, sum_products, translate_MullU64}
use fuzzball.Vex.Wide.Value.{IsWide, carries, carry, mul-lt, mul_halves}

module _ {env : Env} where
  widened : {a : Exp} {x : ℕ} → IsWord env a reg_32 x → IsWord env (ex_u_cast a reg_64) reg_64 x
  widened h = IsWord-cast h refl (omega arith)

  high_half :
      {a : Exp} {x : ℕ}
      → IsWord env a reg_64 x
      → IsWord env (ex_u_cast (ex_h_cast a reg_32) reg_64) reg_64 (x / 2 ^ 32)
  high_half h = widened (high-IsWord reg_32 h refl (omega arith))

  low_half :
      {a : Exp} {x : ℕ}
      → IsWord env a reg_64 x
      → IsWord env (ex_u_cast (ex_l_cast a reg_32) reg_64) reg_64 (x % 2 ^ 32)
  low_half h = widened (low-IsWord reg_32 h refl)

  partial :
      {a b : Exp} {x y : ℕ}
      → x < 2 ^ 32
      → y < 2 ^ 32
      → IsWord env a reg_64 x
      → IsWord env b reg_64 y
      → IsWord env (ex_mul a b) reg_64 (x * y)
  partial {x = x} {y = y} p q ha hb =
      let small : x * y < 2 ^ 64 = mul-lt (2 ^ 32) x y p q in
      IsWord-eq (IsWord-bin_op ha hb refl (omega arith)) (omega arith)

  add_shifted :
      {a b : Exp} {x y : ℕ}
      → IsWord env a reg_64 x
      → IsWord env b reg_64 y
      → IsWord env (ex_add a (ex_shl_by b 32)) reg_64 ((x + y * 2 ^ 32 % 2 ^ 64) % 2 ^ 64)
  add_shifted ha hb =
      IsWord-bin_op ha
        (IsWord-bin_op hb (IsWord-constant reg_32 32 (omega arith)) refl (omega arith)) refl
        (omega arith)

  carry-IsWord :
      {a b : Exp} {x y : ℕ}
      → IsWord env a reg_64 x
      → IsWord env b reg_64 y
      → IsWord env (ex_u_cast (ex_lt a b) reg_64) reg_64 (carry x y)
  unfolding carry
  carry-IsWord {x = x} {y = y} ha hb =
      IsWord-cast (IsWord-bin_op ha hb refl (flag-lt (ltb x y))) refl (ground arith)

  top-IsWord :
      {a b c e f : Exp} {x y z u v : ℕ}
      → IsWord env a reg_64 x
      → IsWord env b reg_64 y
      → IsWord env c reg_64 z
      → IsWord env e reg_64 u
      → IsWord env f reg_64 v
      → x + (y + z) + (u / 2 ^ 32 + v / 2 ^ 32) < 2 ^ 64
      → IsWord env
          (ex_add (ex_add a (ex_add b c)) (ex_add (ex_shr_by e 32) (ex_shr_by f 32)))
          reg_64
          (x + (y + z) + (u / 2 ^ 32 + v / 2 ^ 32))
  top-IsWord ha hb hc he hf small =
      let amount = IsWord-constant reg_32 32 (omega arith) in
      IsWord-eq
        (IsWord-bin_op
          (IsWord-bin_op ha (IsWord-bin_op hb hc refl (omega arith)) refl (omega arith))
          (IsWord-bin_op (IsWord-bin_op he amount refl (omega arith))
            (IsWord-bin_op hf amount refl (omega arith)) refl (omega arith))
          refl (omega arith))
        (omega arith)

module _ (d : Decimal) (o₀ : Out) (env₀ env₁ : Env) where
  -- A translation that ends with a 128-bit value, whatever else is known.
  abbrev pub Gives : ℕ → Exp × Out → Type 0
  Gives v r = (k : Knows d o₀ env₀ env₁ r.1 []) × IsWide k.env r.0 v

  Gives-eq : {v w : ℕ} {r : Exp × Out} → v ≡ w → Gives v r → Gives w r
  Gives-eq {r = r} e g = (
    g.0,
    record {
      high = g.1.high;
      low = g.1.low;
      h = g.1.h;
      l = g.1.l;
      shape = g.1.shape;
      high_word = g.1.high_word;
      low_word = g.1.low_word;
      total = g.1.total ∙ e;
    },
  )

  sum_products_lem :
      {o : Out} {fs : List (Fact d)} {e11 e10 e01 e00 : Exp} (p11 p10 p01 p00 : ℕ)
      → Knows d o₀ env₀ env₁ o
          ((e00, reg_64, p00) ∷ (e01, reg_64, p01) ∷ (e10, reg_64, p10) ∷ (e11, reg_64, p11) ∷ fs)
      → p11 * 2 ^ 64 + (p10 + p01) * 2 ^ 32 + p00 < 2 ^ 128
      → Gives (p11 * 2 ^ 64 + (p10 + p01) * 2 ^ 32 + p00) (sum_products d e11 e10 e01 e00 o)
  unfolding sum_products translate_64HLto128 forget carry
  sum_products_lem p11 p10 p01 p00 k0 bound =
      let b0 = (now d k0 k0.known.0).fits in
      let b1 = (now d k0 k0.known.1.0).fits in
      let b2 = (now d k0 k0.known.1.1.0).fits in
      let k1 = mk_temp_def_lem d k0 (add_shifted (now d k0 k0.known.0) (now d k0 k0.known.1.0)) in
      let k2 =
        mk_temp_def_lem d k1 (add_shifted (now d k1 k1.known.0) (now d k1 k1.known.1.1.1.0)) in
      let sum = carries p11 p10 p01 p00 b0 b1 b2 bound in
      (
        forget d k2,
        record {
          high = _;
          low = _;
          h = _;
          l = _;
          shape = refl;
          high_word =
              top-IsWord (now d k2 k2.known.1.1.1.1.1.0)
                (carry-IsWord (now d k2 k2.known.1.0) (now d k2 k2.known.1.1.0))
                (carry-IsWord (now d k2 k2.known.0) (now d k2 k2.known.1.0))
                (now d k2 k2.known.1.1.1.0) (now d k2 k2.known.1.1.1.1.0)
                (omega (arith, sum, bound));
          low_word = now d k2 k2.known.0;
          total = sum;
        },
      )

  partial_products_lem :
      {o : Out} {fs : List (Fact d)} {e1 e0 f1 f0 : Exp} (x1 x0 y1 y0 : ℕ)
      → Knows d o₀ env₀ env₁ o
          ((f0, reg_64, y0) ∷ (f1, reg_64, y1) ∷ (e0, reg_64, x0) ∷ (e1, reg_64, x1) ∷ fs)
      → x1 < 2 ^ 32
      → x0 < 2 ^ 32
      → y1 < 2 ^ 32
      → y0 < 2 ^ 32
      → x1 * y1 * 2 ^ 64 + (x1 * y0 + x0 * y1) * 2 ^ 32 + x0 * y0 < 2 ^ 128
      → Gives
          (x1 * y1 * 2 ^ 64 + (x1 * y0 + x0 * y1) * 2 ^ 32 + x0 * y0)
          (partial_products d e1 e0 f1 f0 o)
  unfolding partial_products
  partial_products_lem x1 x0 y1 y0 k0 xh xl yh yl bound =
      let k1 =
        mk_temp_def_lem d k0 (partial xh yh (now d k0 k0.known.1.1.1.0) (now d k0 k0.known.1.0)) in
      let k2 =
        mk_temp_def_lem d k1
          (partial xh yl (now d k1 k1.known.1.1.1.1.0) (now d k1 k1.known.1.0)) in
      let k3 =
        mk_temp_def_lem d k2
          (partial xl yh (now d k2 k2.known.1.1.1.1.0) (now d k2 k2.known.1.1.1.0)) in
      let k4 =
        mk_temp_def_lem d k3
          (partial xl yl (now d k3 k3.known.1.1.1.1.1.0) (now d k3 k3.known.1.1.1.0)) in
      sum_products_lem (x1 * y1) (x1 * y0) (x0 * y1) (x0 * y0) k4 bound

  -- Where the output has run and the two arguments stand for the words `x` and `y`, the output
  -- after a translated 64-by-64-bit multiplication runs too, changes no variable but new
  -- temporaries, and the result is a vector of two words that make up the whole product `x *
  -- y`.
  pub translate_MullU64_lem :
      {o : Out} {fs : List (Fact d)} {a b : Exp} {x y : ℕ}
      → Knows d o₀ env₀ env₁ o ((a, reg_64, x) ∷ (b, reg_64, y) ∷ fs)
      → Gives (x * y) (translate_MullU64 d a b o)
  unfolding translate_MullU64
  translate_MullU64_lem {x = x} {y = y} k0 =
      let xh : x / 2 ^ 32 < 2 ^ 32 = omega (arith, (now d k0 k0.known.0).fits) in
      let yh : y / 2 ^ 32 < 2 ^ 32 = omega (arith, (now d k0 k0.known.1.0).fits) in
      let bound : x * y < 2 ^ 64 * 2 ^ 64 =
        mul-lt (2 ^ 64) x y (now d k0 k0.known.0).fits (now d k0 k0.known.1.0).fits in
      let k1 = mk_temp_def_lem d k0 (high_half (now d k0 k0.known.0)) in
      let k2 = mk_temp_def_lem d k1 (low_half (now d k1 k1.known.1.0)) in
      let k3 = mk_temp_def_lem d k2 (high_half (now d k2 k2.known.1.1.1.0)) in
      let k4 = mk_temp_def_lem d k3 (low_half (now d k3 k3.known.1.1.1.1.0)) in
      Gives-eq (mul_halves x y) (
        partial_products_lem (x / 2 ^ 32) (x % 2 ^ 32) (y / 2 ^ 32) (y % 2 ^ 32) k4 xh (omega arith)
          yh (omega arith) (omega (arith, bound, mul_halves x y)))
