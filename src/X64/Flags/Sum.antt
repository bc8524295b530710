-- ===== src/X64/Flags/Sum.antt =====
-- The flags that `x64_modify_flags` (libasmir/src/vex/irtoir-x64.cpp) sets after an addition.
use native.Mathlib.Nat.{mod-lt}
use fuzzball.I386.Flags.Add.{carry-eq, sum_of, sum_overflows}
use fuzzball.I386.Flags.Compare.{as_flag, top_bit, xor-eval}
use fuzzball.I386.Flags.Run.{
  IsFrame, IsFrame-refl, IsFrame-trans, Keeps, Runs-exec, assign_temp-IsFrame, assigned, declared,
  fresh, temp-Keeps,
}
use fuzzball.Ir.Build.{ex_add, ex_and, ex_get_bit, ex_lt, ex_xor, ex_xor_3}
use fuzzball.Ir.Eval.{Env, assign, eval, val}
use fuzzball.Ir.Types.{
  Exp, RegT, reg_1, reg_16, reg_32, reg_64, reg_8, reg_to_bits, same_reg_refl, temp,
}
use fuzzball.Ir.Words.{two_pow_pos}
use fuzzball.Prelude.{
  Bool, ap, arith, bit_and, bit_xor, false, if◌then◌else◌, leb, ltb, refl, some, true, ℕ, ◌%◌, ◌&&◌,
  ◌+◌, ◌-◌, ◌/◌, ◌<◌, ◌^◌, ◌∙◌, ◌≡◌, ◌≤◌,
}
use fuzzball.Prelude.Digits.{bit_xor-parity, bit_xor-sixteen}
use fuzzball.Stmt.{Decimal}
use fuzzball.Stmt.Emit.{mk_temp, mk_temp_def, temp_name}
use fuzzball.Stmt.Exec.{exec}
use fuzzball.X64.Flags.{add_flags, modify_flags_add, narrow64, put_flag, set_flags, sign_bit_of}
use fuzzball.X64.Flags.Laws.{is_zero, narrow64-eval, narrow64-fits, parity8_lem}
use fuzzball.X64.Flags.Set.{AreFlags, assignments-Runs}

sum-cut : (t : RegT) (x y : ℕ) → sum_of 64 x y % 2 ^ reg_to_bits t ≡ sum_of (reg_to_bits t) x y
sum-cut reg_1 x y = omega arith
sum-cut reg_8 x y = omega arith
sum-cut reg_16 x y = omega arith
sum-cut reg_32 x y = omega arith
sum-cut reg_64 x y = omega arith

-- The bit of the exclusive or where the lowest hexadecimal digit carries.
carry_bit :
    (x y : ℕ) → bit_xor (sum_of 64 x y) (bit_xor x y) / 16 % 2 ≡ as_flag (leb 16 (x % 16 + y % 16))
carry_bit x y =
    let r = sum_of 64 x y in
    ground (
      arith,
      bit_xor-sixteen r (bit_xor x y),
      bit_xor-sixteen x y,
      bit_xor-parity (r / 16) (bit_xor x y / 16),
      bit_xor-parity (x / 16) (y / 16),
    )

abbrev differs : Bool → Bool → Bool
differs b c = if b then (if c then false else true) else c

and_flags : (b c : Bool) → bit_and (as_flag b) (as_flag c) ≡ as_flag (b && c)
and_flags true true = refl
and_flags true false = refl
and_flags false true = refl
and_flags false false = refl

flag_bound : (b : Bool) → as_flag b < 2 ^ 1
flag_bound true = omega arith
flag_bound false = omega arith

-- The sign of the sum differs from the signs of both arguments.
sum_overflow-eq :
    (t : RegT) (x y : ℕ)
    → 8 ≤ reg_to_bits t
    → x < 2 ^ reg_to_bits t
    → y < 2 ^ reg_to_bits t
    → (differs
          (leb (2 ^ (reg_to_bits t - 1)) (sum_of (reg_to_bits t) x y))
          (leb (2 ^ (reg_to_bits t - 1)) x)
        && differs
            (leb (2 ^ (reg_to_bits t - 1)) (sum_of (reg_to_bits t) x y))
            (leb (2 ^ (reg_to_bits t - 1)) y))
      ≡ sum_overflows (reg_to_bits t) x y
sum_overflow-eq reg_1 x y l p q = absurd (omega arith)
sum_overflow-eq reg_8 x y l p q = ground arith
sum_overflow-eq reg_16 x y l p q = ground arith
sum_overflow-eq reg_32 x y l p q = ground arith
sum_overflow-eq reg_64 x y l p q = ground arith

module _ (env : Env) where
  plus-eval :
      (a b : Exp) (x y : ℕ)
      → eval env a ≡ some (val reg_64 x)
      → eval env b ≡ some (val reg_64 y)
      → eval env (ex_add a b) ≡ some (val reg_64 (sum_of 64 x y))
  unfolding eval
  plus-eval a b x y ha hb = rw (ha, hb) refl

  less_of :
      (t : RegT) (a b : Exp) (x y : ℕ)
      → eval env a ≡ some (val t x)
      → eval env b ≡ some (val t y)
      → eval env (ex_lt a b) ≡ some (val reg_1 (as_flag (ltb x y)))
  unfolding eval
  less_of t a b x y ha hb = rw (ha, hb, same_reg_refl t) refl

  adjust_lem :
      (e a b : Exp) (x y : ℕ)
      → eval env e ≡ some (val reg_64 (sum_of 64 x y))
      → eval env a ≡ some (val reg_64 x)
      → eval env b ≡ some (val reg_64 y)
      → eval env (ex_get_bit (ex_xor_3 e a b) 4)
        ≡ some (val reg_1 (as_flag (leb 16 (x % 16 + y % 16))))
  unfolding eval
  adjust_lem e a b x y he ha hb =
      let z = bit_xor (sum_of 64 x y) (bit_xor x y) in
      let cut : z / 2 ^ 4 % 2 ^ 64 % 2 ≡ z / 16 % 2 = omega arith in
      rw (he, ha, hb) (ap (λ (n : ℕ). some (val reg_1 n)) (cut ∙ carry_bit x y))

  and-eval :
      (a b : Exp) (p q : Bool)
      → eval env a ≡ some (val reg_1 (as_flag p))
      → eval env b ≡ some (val reg_1 (as_flag q))
      → eval env (ex_and a b) ≡ some (val reg_1 (as_flag (p && q)))
  unfolding eval
  and-eval a b p q ha hb = rw (ha, hb, and_flags p q) refl

  sign-eval :
      (t : RegT) (a : Exp) (x : ℕ)
      → 8 ≤ reg_to_bits t
      → x < 2 ^ reg_to_bits t
      → eval env a ≡ some (val reg_64 x)
      → eval env (sign_bit_of a t) ≡ some (val reg_1 (as_flag (leb (2 ^ (reg_to_bits t - 1)) x)))
  unfolding sign_bit_of
  sign-eval t a x l u h = top_bit env t (narrow64 a t) x l u (narrow64-fits env t a x u h)

  sum_overflow_lem :
      (t : RegT) (s a b : Exp) (x y : ℕ)
      → 8 ≤ reg_to_bits t
      → x < 2 ^ reg_to_bits t
      → y < 2 ^ reg_to_bits t
      → eval env s
        ≡ some (val reg_1 (as_flag (leb (2 ^ (reg_to_bits t - 1)) (sum_of (reg_to_bits t) x y))))
      → eval env a ≡ some (val reg_64 x)
      → eval env b ≡ some (val reg_64 y)
      → eval env (ex_and (ex_xor s (sign_bit_of a t)) (ex_xor s (sign_bit_of b t)))
        ≡ some (val reg_1 (as_flag (sum_overflows (reg_to_bits t) x y)))
  sum_overflow_lem t s a b x y l p q hs ha hb =
      let h = 2 ^ (reg_to_bits t - 1) in
      let r = leb h (sum_of (reg_to_bits t) x y) in
      and-eval (ex_xor s (sign_bit_of a t)) (ex_xor s (sign_bit_of b t)) (differs r (leb h x))
        (differs r (leb h y))
        (xor-eval env s (sign_bit_of a t) r (leb h x) hs (sign-eval t a x l p ha))
        (xor-eval env s (sign_bit_of b t) r (leb h y) hs (sign-eval t b y l q hb))
      ∙ ap (λ b. some (val reg_1 (as_flag b))) (sum_overflow-eq t x y l p q)

-- Where the dependencies have the values `x` and `y`, which fit the type of at least 8 bits, whatever the flags
-- and new temporaries hold, the statements that x64 makes for an addition run, they change no variable but the flags and
-- new temporaries, and they set the flags of the sum of the width of the type: the carry, parity, the
-- carry of the lowest hexadecimal digit, zero, sign, and whether the signed sum overflows.
pub modify_flags_add_lem :
    (d : Decimal) (k : ℕ) (t : RegT) (a b : Exp) (x y : ℕ) (env : Env)
    → 8 ≤ reg_to_bits t
    → x < 2 ^ reg_to_bits t
    → y < 2 ^ reg_to_bits t
    → Keeps d k env a reg_64 x
    → Keeps d k env b reg_64 y
    → (env' : Env) × (exec (modify_flags_add d t a b (fresh k)).1.stmts env ≡ some env')
      × IsFrame d k env env'
      × AreFlags
          (reg_to_bits t)
          (as_flag (leb (2 ^ reg_to_bits t) (x + y)))
          (sum_of (reg_to_bits t) x y)
          (as_flag (leb 16 (x % 16 + y % 16)))
          (as_flag (sum_overflows (reg_to_bits t) x y))
          env'
unfolding modify_flags_add add_flags set_flags put_flag mk_temp mk_temp_def
modify_flags_add_lem d k t a b x y env l u v ka kb =
    let w = reg_to_bits t in
    let r = sum_of w x y in
    let wide_sum = sum_of 64 x y in
    let sign = leb (2 ^ (w - 1)) r in
    let wide_name = temp reg_64 (temp_name d k) in
    let name = temp t (temp_name d (k + 1)) in
    let sign_name = temp reg_1 (temp_name d (k + 1 + 1)) in
    let small : r < 2 ^ w = mod-lt _ (two_pow_pos w) in
    let env1 : Env = assign (temp_name d k) wide_sum env in
    let env2 : Env = assign (temp_name d (k + 1)) r env1 in
    let env3 : Env = assign (temp_name d (k + 1 + 1)) (as_flag sign) env2 in
    let f0 : IsFrame d k env env = IsFrame-refl d k env in
    let f23 : IsFrame d (k + 1 + 1) env2 env3 =
      assign_temp-IsFrame d (k + 1 + 1) (as_flag sign) env2 in
    let f13 : IsFrame d (k + 1) env1 env3 =
      IsFrame-trans d (omega arith) (assign_temp-IsFrame d (k + 1) r env1) f23 in
    let f3 : IsFrame d k env env3 =
      IsFrame-trans d (omega arith) (assign_temp-IsFrame d k wide_sum env) f13 in
    let wide = temp-Keeps d k wide_sum reg_64 env (omega arith) in
    let short = temp-Keeps d (k + 1) r t env1 small in
    let top = temp-Keeps d (k + 1 + 1) (as_flag sign) reg_1 env2 (flag_bound sign) in
    let (env', runs, frame, flags) =
      assignments-Runs d (k + 1 + 1 + 1) env3 _ _ _ _ _ _ w (as_flag (leb (2 ^ w) (x + y))) r
        (as_flag (leb 16 (x % 16 + y % 16))) (as_flag (sum_overflows w x y))
        (λ env4 f4.
          let f : IsFrame d k env env4 = IsFrame-trans d (omega arith) f3 f4 in
          let f14 : IsFrame d (k + 1) env1 env4 = IsFrame-trans d (omega arith) f13 f4 in
          let f24 : IsFrame d (k + 1 + 1) env2 env4 = IsFrame-trans d (omega arith) f23 f4 in
          let ha = ka env4 f in
          let hb = kb env4 f in
          let hr = short env4 f24 in
          let hs = top env4 f4 in
          record {
            cf_value =
                less_of env4 t name (narrow64 a t) r x hr (narrow64-fits env4 t a x u ha)
                ∙ ap (λ c. some (val reg_1 (as_flag c))) (carry-eq t x y l u v);
            pf_value = parity8_lem env4 t name r l small hr;
            af_value = adjust_lem env4 wide_name a b x y (wide env4 f14) ha hb;
            zf_value = is_zero env4 t name r hr;
            sf_value = hs;
            of_value = sum_overflow_lem env4 t sign_name a b x y l u v hs ha hb;
          }) in
    let cut =
      narrow64-eval env1 t wide_name wide_sum (omega arith)
        (wide env1 (IsFrame-refl d (k + 1) env1))
      ∙ ap (λ n. some (val t n)) (sum-cut t x y) in
    let signed_bit = top_bit env2 t name r l small (short env2 (IsFrame-refl d (k + 1 + 1) env2)) in
    (
      env',
      Runs-exec (
          declared (
            assigned (plus-eval env a b x y (ka env f0) (kb env f0))
              (declared (assigned cut (declared (assigned signed_bit runs)))))),
      IsFrame-trans d (omega arith) f3 frame,
      flags,
    )
