-- ===== src/I386/Flags/Rotation.antt =====
-- The flags that rotations set.
use native.Mathlib.Nat.{div-le_self, mod-eq_of_lt, mod-lt}
use fuzzball.I386.Flags.{mk_reg, set_flag}
use fuzzball.I386.Flags.Run.{
  IsFrame, IsFrame-refl, Keeps, Runs-exec, assigned, done, fresh, set-IsFrame,
}
use fuzzball.I386.Flags.Shift.{mod_eflags_rol, mod_eflags_ror, type_size_less_2}
use fuzzball.Ir.Build.{ex_const, ex_l_cast, ex_shr, ex_xor}
use fuzzball.Ir.Eval.{Env, assign, eval, val}
use fuzzball.Ir.Types.{Exp, RegT, reg_1, reg_16, reg_32, reg_64, reg_8, reg_to_bits}
use fuzzball.Prelude.{
  [], ap, arith, refl, some, ℕ, ◌%◌, ◌+◌, ◌-◌, ◌/◌, ◌<◌, ◌^◌, ◌∙◌, ◌∷◌, ◌≡◌, ◌≤◌,
}
use fuzzball.Prelude.Digits.{bit_xor-bits}
use fuzzball.Stmt.{Decimal, Out, move}
use fuzzball.Stmt.Exec.{exec}

-- The carry flag is the bit that was rotated, the overflow flag tells whether it differs from the bit given,
-- and the other flags are as before.
pub record AreRotated (carry_bit other_bit : ℕ) (env env' : Env) : Type 0 where
  pub carry : env'.var "R_CF" ≡ carry_bit
  pub overflow : env'.var "R_OF" ≡ (carry_bit + other_bit) % 2
  pub same_parity : env'.var "R_PF" ≡ env.var "R_PF"
  pub same_adjust : env'.var "R_AF" ≡ env.var "R_AF"
  pub same_zero : env'.var "R_ZF" ≡ env.var "R_ZF"
  pub same_sign : env'.var "R_SF" ≡ env.var "R_SF"

shifted-eval :
    (env : Env) (e : Exp) (x k : ℕ)
    → x < 2 ^ 32
    → k < 32
    → eval env e ≡ some (val reg_32 x)
    → eval env (ex_l_cast (ex_shr e (ex_const k)) reg_1) ≡ some (val reg_1 (x / 2 ^ k % 2 ^ 32 % 2))
unfolding eval
shifted-eval env e x k p l h =
    rw
      (
        h,
        mod-eq_of_lt {n = k} {m = 4294967296} (omega arith),
        mod-eq_of_lt {n = k} {m = 256} (omega arith),
      )
      refl

bit-eval :
    (env : Env) (e : Exp) (x k : ℕ)
    → x < 2 ^ 32
    → k < 32
    → eval env e ≡ some (val reg_32 x)
    → eval env (ex_l_cast (ex_shr e (ex_const k)) reg_1) ≡ some (val reg_1 (x / 2 ^ k % 2))
bit-eval env e x k p l h =
    let small : x / 2 ^ k < 2 ^ 32 = omega (arith, p, div-le_self x (2 ^ k)) in
    shifted-eval env e x k p l h ∙ ap (λ (n : ℕ). some (val reg_1 (n % 2))) (mod-eq_of_lt small)

low-eval :
    (env : Env) (e : Exp) (x : ℕ)
    → eval env e ≡ some (val reg_32 x)
    → eval env (ex_l_cast e reg_1) ≡ some (val reg_1 (x % 2))
unfolding eval
low-eval env e x h = rw h refl

-- The exclusive or of a flag just set and another bit.
differ-eval :
    (env : Env) (e : Exp) (x y : ℕ)
    → x < 2
    → y < 2
    → eval (assign "R_CF" x env) e ≡ some (val reg_1 y)
    → eval (assign "R_CF" x env) (ex_xor (mk_reg "CF" reg_1) e) ≡ some (val reg_1 ((x + y) % 2))
unfolding eval
differ-eval env e x y p q g = rw (g, mod-eq_of_lt {n = x} {m = 2} p, bit_xor-bits x y p q) refl

-- Two assignments of flags, of which the second differs from the first.
rotated :
    (d : Decimal) (k : ℕ) (e f : Exp) (x y : ℕ) (env : Env)
    → x < 2
    → y < 2
    → eval env e ≡ some (val reg_1 x)
    → eval (assign "R_CF" x env) f ≡ some (val reg_1 y)
    → (env' : Env) × (exec
          (move (mk_reg "CF" reg_1) e
            ∷ move (mk_reg "OF" reg_1) (ex_xor (mk_reg "CF" reg_1) f)
            ∷ [])
          env
        ≡ some env')
      × IsFrame d k env env'
      × AreRotated x y env env'
rotated d k e f x y env p q he hf =
    let env1 : Env = assign "R_CF" x env in
    let f1 : IsFrame d k env env1 = set-IsFrame d "R_CF" _ refl (IsFrame-refl d k env) in
    (
      assign "R_OF" ((x + y) % 2) env1,
      Runs-exec (assigned he (assigned (differ-eval env f x y p q hf) done)),
      set-IsFrame d "R_OF" _ refl f1,
      record {
        carry = refl;
        overflow = refl;
        same_parity = refl;
        same_adjust = refl;
        same_zero = refl;
        same_sign = refl;
      },
    )

-- Where the result has the 32-bit value `x` whatever the flags and new temporaries hold, and the type has at most
-- 32 bits, the statements of `mod_eflags_rol` run and change no variable but the flags: the carry flag
-- becomes the lowest bit of `x`, the overflow flag whether that differs from the highest bit of the type,
-- and the other flags stay.
pub mod_eflags_rol_lem :
    (d : Decimal) (k : ℕ) (t : RegT) (a b e : Exp) (x : ℕ) (env : Env)
    → reg_to_bits t ≤ 32
    → x < 2 ^ 32
    → Keeps d k env a reg_32 x
    → (o : Out) × (env' : Env) × (mod_eflags_rol t a b e (fresh k) ≡ some (tt, o))
      × (exec o.stmts env ≡ some env')
      × IsFrame d k env env'
      × AreRotated (x % 2) (x / 2 ^ (reg_to_bits t - 1) % 2) env env'
unfolding mod_eflags_rol set_flag
mod_eflags_rol_lem d k t a b e x env u p ka =
    let f1 = set-IsFrame d "R_CF" (x % 2) refl (IsFrame-refl d k env) in
    let (env', runs, frame, flags) =
      rotated d k (ex_l_cast a reg_1) (ex_l_cast (ex_shr a (ex_const (reg_to_bits t - 1))) reg_1)
        (x % 2) (x / 2 ^ (reg_to_bits t - 1) % 2) env (omega arith) (mod-lt _ (omega arith))
        (low-eval env a x (ka env (IsFrame-refl d k env)))
        (bit-eval _ a x (reg_to_bits t - 1) p (omega (arith, u)) (ka _ f1)) in
    (_, env', refl, runs, frame, flags)

less_2 :
    (t : RegT) → 8 ≤ reg_to_bits t → reg_to_bits t ≤ 32 → type_size_less_2 t ≡ reg_to_bits t - 2
less_2 reg_1 l u = absurd (omega arith)
less_2 reg_8 l u = refl
less_2 reg_16 l u = refl
less_2 reg_32 l u = refl
less_2 reg_64 l u = absurd (omega arith)

-- Where the result has the 32-bit value `x` whatever the flags and new temporaries hold, and the type has 8 to 32
-- bits, the statements of `mod_eflags_ror` run and change no variable but the flags: the carry flag
-- becomes the highest bit of the type in `x`, the overflow flag whether that differs from the bit below,
-- and the other flags stay.
pub mod_eflags_ror_lem :
    (d : Decimal) (k : ℕ) (t : RegT) (a b e : Exp) (x : ℕ) (env : Env)
    → 8 ≤ reg_to_bits t
    → reg_to_bits t ≤ 32
    → x < 2 ^ 32
    → Keeps d k env a reg_32 x
    → (o : Out) × (env' : Env) × (mod_eflags_ror t a b e (fresh k) ≡ some (tt, o))
      × (exec o.stmts env ≡ some env')
      × IsFrame d k env env'
      × AreRotated (x / 2 ^ (reg_to_bits t - 1) % 2) (x / 2 ^ (reg_to_bits t - 2) % 2) env env'
unfolding mod_eflags_ror set_flag
mod_eflags_ror_lem d k t a b e x env l u p ka =
    let top = x / 2 ^ (reg_to_bits t - 1) % 2 in
    let f1 = set-IsFrame d "R_CF" top refl (IsFrame-refl d k env) in
    let below = bit-eval _ a x (reg_to_bits t - 2) p (omega (arith, u)) (ka _ f1) in
    let (env', runs, frame, flags) =
      rotated d k (ex_l_cast (ex_shr a (ex_const (reg_to_bits t - 1))) reg_1)
        (ex_l_cast (ex_shr a (ex_const (type_size_less_2 t))) reg_1) top
        (x / 2 ^ (reg_to_bits t - 2) % 2) env (mod-lt _ (omega arith)) (mod-lt _ (omega arith))
        (bit-eval env a x (reg_to_bits t - 1) p (omega (arith, u)) (ka env (IsFrame-refl d k env)))
        (rw (less_2 t l u) below) in
    (_, env', refl, runs, frame, flags)
