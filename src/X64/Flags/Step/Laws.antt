-- ===== src/X64/Flags/Step/Laws.antt =====
-- The flags that `x64_modify_flags` (libasmir/src/vex/irtoir-x64.cpp) sets after an increment and a decrement.
use native.Mathlib.Nat.{mod-eq_of_lt, mod-lt}
use fuzzball.I386.Flags.Add.{sum_of, sum_overflows}
use fuzzball.I386.Flags.Compare.{as_flag, difference, ones, overflows, top_bit}
use fuzzball.I386.Flags.Run.{
  IsFrame, IsFrame-refl, IsFrame-trans, Keeps, Runs, Runs-exec, assign-other, assign_temp-IsFrame,
  assigned, declared, done, fresh, reg-ne-temp, set-IsFrame, temp-Keeps,
}
use fuzzball.Ir.Build.{ex_add, ex_const_of, ex_eq, ex_get_bit, ex_h_cast, ex_sub, ex_xor}
use fuzzball.Ir.Eval.{Env, assign, eval, val}
use fuzzball.Ir.Types.{
  Exp, RegT, reg_1, reg_16, reg_32, reg_64, reg_8, reg_to_bits, same_reg_refl, temp,
}
use fuzzball.Ir.Words.{two_pow_pos}
use fuzzball.Prelude.{
  List, [], ap, arith, bit_xor, leb, ltb, refl, some, ℕ, ◌%◌, ◌+◌, ◌-◌, ◌/◌, ◌<◌, ◌==◌, ◌^◌, ◌∙◌,
  ◌∷◌, ◌≡◌, ◌≤◌,
}
use fuzzball.Prelude.Digits.{bit_xor-parity, bit_xor-sixteen}
use fuzzball.Stmt.{Decimal, Out, Stmt, move, var_decl}
use fuzzball.Stmt.Emit.{mk_temp, mk_temp_def, temp_name}
use fuzzball.Stmt.Exec.{exec}
use fuzzball.X64.Flags.{narrow64, parity8, put_flag, set_flags}
use fuzzball.X64.Flags.Laws.{is_zero, narrow64-fits, parity8_lem}
use fuzzball.X64.Flags.Step.{dec_flags, inc_flags, modify_flags_dec, modify_flags_inc, tmax, tmin}

carried :
    (t : RegT) (y : ℕ)
    → 8 ≤ reg_to_bits t
    → y < 2 ^ reg_to_bits t
    → (sum_of (reg_to_bits t) y 1 / 16 + y / 16) % 2 ≡ as_flag (leb 16 (y % 16 + 1))
carried reg_1 y l u = absurd (omega arith)
carried reg_8 y l u = ground arith
carried reg_16 y l u = ground arith
carried reg_32 y l u = ground arith
carried reg_64 y l u = ground arith

borrowed :
    (t : RegT) (y : ℕ)
    → 8 ≤ reg_to_bits t
    → y < 2 ^ reg_to_bits t
    → (difference (reg_to_bits t) y 1 / 16 + y / 16) % 2 ≡ as_flag (ltb (y % 16) 1)
borrowed reg_1 y l u = absurd (omega arith)
borrowed reg_8 y l u = ground arith
borrowed reg_16 y l u = ground arith
borrowed reg_32 y l u = ground arith
borrowed reg_64 y l u = ground arith

least-eq :
    (t : RegT) (y : ℕ)
    → 8 ≤ reg_to_bits t
    → y < 2 ^ reg_to_bits t
    → (sum_of (reg_to_bits t) y 1 == 2 ^ (reg_to_bits t - 1)) ≡ sum_overflows (reg_to_bits t) y 1
least-eq reg_1 y l u = absurd (omega arith)
least-eq reg_8 y l u = ground arith
least-eq reg_16 y l u = ground arith
least-eq reg_32 y l u = ground arith
least-eq reg_64 y l u = ground arith

greatest-eq :
    (t : RegT) (y : ℕ)
    → 8 ≤ reg_to_bits t
    → y < 2 ^ reg_to_bits t
    → (difference (reg_to_bits t) y 1 == 2 ^ (reg_to_bits t - 1) - 1)
      ≡ overflows (reg_to_bits t) y 1
greatest-eq reg_1 y l u = absurd (omega arith)
greatest-eq reg_8 y l u = ground arith
greatest-eq reg_16 y l u = ground arith
greatest-eq reg_32 y l u = ground arith
greatest-eq reg_64 y l u = ground arith

four : (x y : ℕ) → bit_xor x y / 16 % 2 ≡ (x / 16 + y / 16) % 2
four x y = omega (arith, bit_xor-sixteen x y, bit_xor-parity (x / 16) (y / 16))

-- Bit 4 of an exclusive or, at each width.
bit_four :
    (env : Env) (t : RegT) (a b : Exp) (x y : ℕ)
    → 8 ≤ reg_to_bits t
    → eval env a ≡ some (val t x)
    → eval env b ≡ some (val t y)
    → eval env (ex_get_bit (ex_xor a b) 4) ≡ some (val reg_1 ((x / 16 + y / 16) % 2))
unfolding eval
bit_four env reg_1 a b x y l ha hb = absurd (omega arith)
bit_four env reg_8 a b x y l ha hb =
    rw (ha, hb) (ap (λ (n : ℕ). some (val reg_1 n)) (omega (arith, four x y)))
bit_four env reg_16 a b x y l ha hb =
    rw (ha, hb) (ap (λ (n : ℕ). some (val reg_1 n)) (omega (arith, four x y)))
bit_four env reg_32 a b x y l ha hb =
    rw (ha, hb) (ap (λ (n : ℕ). some (val reg_1 n)) (omega (arith, four x y)))
bit_four env reg_64 a b x y l ha hb =
    rw (ha, hb) (ap (λ (n : ℕ). some (val reg_1 n)) (omega (arith, four x y)))

-- The word before the increment.
before_inc :
    (env : Env) (t : RegT) (e : Exp) (y : ℕ)
    → 8 ≤ reg_to_bits t
    → y < 2 ^ reg_to_bits t
    → eval env e ≡ some (val t (sum_of (reg_to_bits t) y 1))
    → eval env (ex_sub e (ex_const_of t 1)) ≡ some (val t y)
unfolding eval
before_inc env reg_1 e y l u h = absurd (omega arith)
before_inc env reg_8 e y l u h = rw h (ap (λ n. some (val reg_8 n)) (omega arith))
before_inc env reg_16 e y l u h = rw h (ap (λ n. some (val reg_16 n)) (omega arith))
before_inc env reg_32 e y l u h = rw h (ap (λ n. some (val reg_32 n)) (omega arith))
before_inc env reg_64 e y l u h = rw h (ap (λ n. some (val reg_64 n)) (omega arith))

-- The word before the decrement.
before_dec :
    (env : Env) (t : RegT) (e : Exp) (y : ℕ)
    → 8 ≤ reg_to_bits t
    → y < 2 ^ reg_to_bits t
    → eval env e ≡ some (val t (difference (reg_to_bits t) y 1))
    → eval env (ex_add e (ex_const_of t 1)) ≡ some (val t y)
unfolding eval
before_dec env reg_1 e y l u h = absurd (omega arith)
before_dec env reg_8 e y l u h = rw h (ap (λ n. some (val reg_8 n)) (omega arith))
before_dec env reg_16 e y l u h = rw h (ap (λ n. some (val reg_16 n)) (omega arith))
before_dec env reg_32 e y l u h = rw h (ap (λ n. some (val reg_32 n)) (omega arith))
before_dec env reg_64 e y l u h = rw h (ap (λ n. some (val reg_64 n)) (omega arith))

same_word :
    (env : Env) (t : RegT) (e : Exp) (x m : ℕ)
    → m < 2 ^ reg_to_bits t
    → eval env e ≡ some (val t x)
    → eval env (ex_eq e (ex_const_of t m)) ≡ some (val reg_1 (as_flag (x == m)))
unfolding eval
same_word env t e x m fits h = rw (h, same_reg_refl t, mod-eq_of_lt fits) refl

-- The flags after an increment or a decrement of `w` bits with the result `r`: the carry flag as it was, and the
-- others as after an addition or a subtraction.
pub record AreStepped (w r adjust_flag overflow_flag : ℕ) (env env' : Env) : Type 0 where
  pub same_carry : env'.var "R_CF" ≡ env.var "R_CF"
  pub parity : env'.var "R_PF" ≡ as_flag (ones r % 2 == 0)
  pub adjust : env'.var "R_AF" ≡ adjust_flag
  pub zero_flag : env'.var "R_ZF" ≡ as_flag (r == 0)
  pub sign : env'.var "R_SF" ≡ as_flag (leb (2 ^ (w - 1)) r)
  pub overflow : env'.var "R_OF" ≡ overflow_flag

module _ (d : Decimal) (k : ℕ) (t : RegT) (a af of : Exp) where
  abbrev result : Exp
  result = temp t (temp_name d k)

  abbrev steps : List Stmt
  steps =
      var_decl (temp_name d k) t
      ∷ move result (narrow64 a t)
      ∷ move (temp reg_1 "R_PF") (parity8 result)
      ∷ move (temp reg_1 "R_AF") af
      ∷ move (temp reg_1 "R_ZF") (ex_eq result (ex_const_of t 0))
      ∷ move (temp reg_1 "R_SF") (ex_h_cast result reg_1)
      ∷ move (temp reg_1 "R_OF") of
      ∷ []

  -- The statements that both cases make, where the adjust and overflow expressions have their values whenever the
  -- temporary has the result.
  stepped :
      (env : Env) (r adjust over : ℕ)
      → 8 ≤ reg_to_bits t
      → r < 2 ^ reg_to_bits t
      → Keeps d k env a reg_64 r
      → ((s : Env) → eval s result ≡ some (val t r) → eval s af ≡ some (val reg_1 adjust))
      → ((s : Env) → eval s result ≡ some (val t r) → eval s of ≡ some (val reg_1 over))
      → (env' : Env) × Runs steps env env'
        × IsFrame d k env env'
        × AreStepped (reg_to_bits t) r adjust over env env'
  stepped env r adjust over l small ka haf hof =
      let env1 : Env = assign (temp_name d k) r env in
      let env2 : Env = assign "R_PF" (as_flag (ones r % 2 == 0)) env1 in
      let env3 : Env = assign "R_AF" adjust env2 in
      let env4 : Env = assign "R_ZF" (as_flag (r == 0)) env3 in
      let env5 : Env = assign "R_SF" (as_flag (leb (2 ^ (reg_to_bits t - 1)) r)) env4 in
      let env6 : Env = assign "R_OF" over env5 in
      let f1 : IsFrame d (k + 1) env1 env1 = IsFrame-refl d (k + 1) env1 in
      let f2 : IsFrame d (k + 1) env1 env2 = set-IsFrame d "R_PF" _ refl f1 in
      let f3 : IsFrame d (k + 1) env1 env3 = set-IsFrame d "R_AF" _ refl f2 in
      let f4 : IsFrame d (k + 1) env1 env4 = set-IsFrame d "R_ZF" _ refl f3 in
      let f5 : IsFrame d (k + 1) env1 env5 = set-IsFrame d "R_SF" _ refl f4 in
      let f6 : IsFrame d (k + 1) env1 env6 = set-IsFrame d "R_OF" _ refl f5 in
      let h = temp-Keeps d k r t env small in
      (
        env6,
        declared (
            assigned (narrow64-fits env t a r small (ka env (IsFrame-refl d k env))) (
              assigned (parity8_lem env1 t result r l small (h env1 f1)) (
                assigned (haf env2 (h env2 f2)) (
                  assigned (is_zero env3 t result r (h env3 f3)) (
                    assigned (top_bit env4 t result r l small (h env4 f4))
                      (assigned (hof env5 (h env5 f5)) done)))))),
        IsFrame-trans d (omega arith) (assign_temp-IsFrame d k r env) f6,
        record {
          same_carry =
              assign-other "R_CF" (temp_name d k) r env (reg-ne-temp "CF" (d.int_to_str k));
          parity = refl;
          adjust = refl;
          zero_flag = refl;
          sign = refl;
          overflow = refl;
        },
      )

tmin-eq : (t : RegT) → 8 ≤ reg_to_bits t → tmin t ≡ some (ex_const_of t (2 ^ (reg_to_bits t - 1)))
unfolding tmin
tmin-eq reg_1 l = absurd (omega arith)
tmin-eq reg_8 l = refl
tmin-eq reg_16 l = refl
tmin-eq reg_32 l = refl
tmin-eq reg_64 l = refl

tmax-eq :
    (t : RegT) → 8 ≤ reg_to_bits t → tmax t ≡ some (ex_const_of t (2 ^ (reg_to_bits t - 1) - 1))
unfolding tmax
tmax-eq reg_1 l = absurd (omega arith)
tmax-eq reg_8 l = refl
tmax-eq reg_16 l = refl
tmax-eq reg_32 l = refl
tmax-eq reg_64 l = refl

extremes_fit :
    (t : RegT)
    → 8 ≤ reg_to_bits t
    → (2 ^ (reg_to_bits t - 1) < 2 ^ reg_to_bits t)
      × (2 ^ (reg_to_bits t - 1) - 1 < 2 ^ reg_to_bits t)
extremes_fit reg_1 l = absurd (omega arith)
extremes_fit reg_8 l = (omega arith, omega arith)
extremes_fit reg_16 l = (omega arith, omega arith)
extremes_fit reg_32 l = (omega arith, omega arith)
extremes_fit reg_64 l = (omega arith, omega arith)

-- Where the dependency has the value `y` plus 1 modulo 2 to the width of the type, which has at least 8 bits and `y` fits it, whatever
-- the flags and new temporaries hold, the statements that x64 makes for an increment of `y` run, they change no
-- variable but the flags and new temporaries, they leave the carry flag, and they set the other flags: parity, zero and sign
-- of the result, whether the lowest hexadecimal digit carries, and whether the signed sum overflows.
pub modify_flags_inc_lem :
    (d : Decimal) (k : ℕ) (t : RegT) (a : Exp) (y : ℕ) (env : Env)
    → 8 ≤ reg_to_bits t
    → y < 2 ^ reg_to_bits t
    → Keeps d k env a reg_64 (sum_of (reg_to_bits t) y 1)
    → (o : Out) × (env' : Env) × (modify_flags_inc d t a (fresh k) ≡ some (tt, o))
      × (exec o.stmts env ≡ some env')
      × IsFrame d k env env'
      × AreStepped
          (reg_to_bits t)
          (sum_of (reg_to_bits t) y 1)
          (as_flag (leb 16 (y % 16 + 1)))
          (as_flag (sum_overflows (reg_to_bits t) y 1))
          env
          env'
unfolding modify_flags_inc inc_flags set_flags put_flag mk_temp mk_temp_def
modify_flags_inc_lem d k t a y env l u ka =
    let r = sum_of (reg_to_bits t) y 1 in
    let res = temp t (temp_name d k) in
    let af = ex_get_bit (ex_xor res (ex_sub res (ex_const_of t 1))) 4 in
    let of = ex_eq res (ex_const_of t (2 ^ (reg_to_bits t - 1))) in
    let small : r < 2 ^ reg_to_bits t = mod-lt _ (two_pow_pos (reg_to_bits t)) in
    let (env', runs, frame, flags) =
      stepped d k t a af of env r (as_flag (leb 16 (y % 16 + 1)))
        (as_flag (sum_overflows (reg_to_bits t) y 1)) l small ka
        (λ s h.
          bit_four s t res _ r y l h (before_inc s t _ y l u h)
          ∙ ap (λ (n : ℕ). some (val reg_1 n)) (carried t y l u))
        (λ s h.
          same_word s t _ r (2 ^ (reg_to_bits t - 1)) (extremes_fit t l).0 h
          ∙ ap (λ b. some (val reg_1 (as_flag b))) (least-eq t y l u)) in
    (
      record { stmts = steps d k t a af of; temp_counter = k + 1 },
      env',
      rw (tmin-eq t l) refl,
      Runs-exec runs,
      frame,
      flags,
    )

-- Where the dependency has the value `y` minus 1 modulo 2 to the width of the type, which has at least 8 bits and `y` fits it, whatever
-- the flags and new temporaries hold, the statements that x64 makes for a decrement of `y` run, they change no
-- variable but the flags and new temporaries, they leave the carry flag, and they set the other flags: parity, zero and sign
-- of the result, whether the lowest hexadecimal digit borrows, and whether the signed difference overflows.
pub modify_flags_dec_lem :
    (d : Decimal) (k : ℕ) (t : RegT) (a : Exp) (y : ℕ) (env : Env)
    → 8 ≤ reg_to_bits t
    → y < 2 ^ reg_to_bits t
    → Keeps d k env a reg_64 (difference (reg_to_bits t) y 1)
    → (o : Out) × (env' : Env) × (modify_flags_dec d t a (fresh k) ≡ some (tt, o))
      × (exec o.stmts env ≡ some env')
      × IsFrame d k env env'
      × AreStepped
          (reg_to_bits t)
          (difference (reg_to_bits t) y 1)
          (as_flag (ltb (y % 16) 1))
          (as_flag (overflows (reg_to_bits t) y 1))
          env
          env'
unfolding modify_flags_dec dec_flags set_flags put_flag mk_temp mk_temp_def
modify_flags_dec_lem d k t a y env l u ka =
    let r = difference (reg_to_bits t) y 1 in
    let res = temp t (temp_name d k) in
    let af = ex_get_bit (ex_xor res (ex_add res (ex_const_of t 1))) 4 in
    let of = ex_eq res (ex_const_of t (2 ^ (reg_to_bits t - 1) - 1)) in
    let small : r < 2 ^ reg_to_bits t = mod-lt _ (two_pow_pos (reg_to_bits t)) in
    let (env', runs, frame, flags) =
      stepped d k t a af of env r (as_flag (ltb (y % 16) 1))
        (as_flag (overflows (reg_to_bits t) y 1)) l small ka
        (λ s h.
          bit_four s t res _ r y l h (before_dec s t _ y l u h)
          ∙ ap (λ (n : ℕ). some (val reg_1 n)) (borrowed t y l u))
        (λ s h.
          same_word s t _ r (2 ^ (reg_to_bits t - 1) - 1) (extremes_fit t l).1 h
          ∙ ap (λ b. some (val reg_1 (as_flag b))) (greatest-eq t y l u)) in
    (
      record { stmts = steps d k t a af of; temp_counter = k + 1 },
      env',
      rw (tmax-eq t l) refl,
      Runs-exec runs,
      frame,
      flags,
    )
