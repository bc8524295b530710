-- ===== src/I386/Conditions/Laws.antt =====
-- What the condition codes say of a comparison.
use fuzzball.I386.Conditions.{
  cf, ov, pf, sf, zf, X86Condcode, calculate_condition, call_thunk, cond_always, cond_b, cond_be,
  cond_l, cond_le, cond_nb, cond_nbe, cond_nl, cond_nle, cond_no, cond_np, cond_ns, cond_nz, cond_o,
  cond_p, cond_s, cond_z, condition_flag,
}
use fuzzball.I386.Flags.Compare.{as_flag, difference, ones, overflows, xor_flags}
use fuzzball.I386.Flags.Arithmetic.{mod_eflags_sub}
use fuzzball.I386.Flags.Run.{Keeps, fresh}
use fuzzball.I386.Flags.Subtract.{mod_eflags_sub_lem}
use fuzzball.Ir.Build.{ex_not, ex_or, ex_u_cast, ex_xor}
use fuzzball.Ir.Eval.{Env, eval, val}
use fuzzball.Ir.Types.{Exp, RegT, reg_1, reg_16, reg_32, reg_64, reg_8, reg_to_bits, temp}
use fuzzball.Prelude.{
  Bool, String, ap, arith, bit_or, false, if◌then◌else◌, leb, ltb, refl, some, true, ℕ, ◌%◌, ◌-◌,
  ◌<◌, ◌==◌, ◌^◌, ◌||◌, ◌≡◌, ◌≢◌, ◌≤◌, ◌∙◌,
}
use fuzzball.Prelude.Int.{le_ℤ, lt_ℤ, negsuc, pos, signed, ℤ}
use fuzzball.Stmt.{Decimal, Out}
use fuzzball.Stmt.Exec.{exec}

abbrev pub flip : Bool → Bool
flip b = if b then false else true

abbrev differ_b : Bool → Bool → Bool
differ_b b c = if b then (if c then false else true) else c

-- What a condition code says of two words of width `w` that were compared.
abbrev pub holds : ℕ → ℕ → ℕ → X86Condcode → Bool
holds w x y cond_o = overflows w x y
holds w x y cond_no = flip (overflows w x y)
holds w x y cond_b = ltb x y
holds w x y cond_nb = leb y x
holds w x y cond_z = x == y
holds w x y cond_nz = flip (x == y)
holds w x y cond_be = leb x y
holds w x y cond_nbe = ltb y x
holds w x y cond_s = leb (2 ^ (w - 1)) (difference w x y)
holds w x y cond_ns = ltb (difference w x y) (2 ^ (w - 1))
holds w x y cond_p = ones (difference w x y % 2 ^ 8) % 2 == 0
holds w x y cond_np = ones (difference w x y % 2 ^ 8) % 2 == 1
holds w x y cond_l = lt_ℤ (signed w x) (signed w y)
holds w x y cond_nl = le_ℤ (signed w y) (signed w x)
holds w x y cond_le = le_ℤ (signed w x) (signed w y)
holds w x y cond_nle = lt_ℤ (signed w y) (signed w x)
holds w x y cond_always = true

-- The same, from the flags.
abbrev by_flags : (c p z s o : Bool) → X86Condcode → Bool
by_flags c p z s o cond_o = o
by_flags c p z s o cond_no = flip o
by_flags c p z s o cond_b = c
by_flags c p z s o cond_nb = flip c
by_flags c p z s o cond_z = z
by_flags c p z s o cond_nz = flip z
by_flags c p z s o cond_be = c || z
by_flags c p z s o cond_nbe = flip (c || z)
by_flags c p z s o cond_s = s
by_flags c p z s o cond_ns = flip s
by_flags c p z s o cond_p = p
by_flags c p z s o cond_np = flip p
by_flags c p z s o cond_l = differ_b s o
by_flags c p z s o cond_nl = flip (differ_b s o)
by_flags c p z s o cond_le = differ_b s o || z
by_flags c p z s o cond_nle = flip (differ_b s o || z)
by_flags c p z s o cond_always = true

or_flags : (b c : Bool) → bit_or (as_flag b) (as_flag c) ≡ as_flag (b || c)
or_flags true true = refl
or_flags true false = refl
or_flags false true = refl
or_flags false false = refl

not_flag : (b : Bool) → 1 - as_flag b ≡ as_flag (flip b)
not_flag true = refl
not_flag false = refl

module _ (env : Env) where
  abbrev Is : Exp → Bool → Type 0
  Is e b = eval env e ≡ some (val reg_1 (as_flag b))

  pub read_flag :
      (n : String) (b : Bool)
      → env.var n ≡ as_flag b
      → eval env (temp reg_1 n) ≡ some (val reg_1 (as_flag b))
  unfolding eval
  read_flag n true h = rw h refl
  read_flag n false h = rw h refl

  not_eval : (e : Exp) (b : Bool) → Is e b → Is (ex_not e) (flip b)
  unfolding eval
  not_eval e b h = rw (h, not_flag b) refl

  or_eval : (e f : Exp) (b c : Bool) → Is e b → Is f c → Is (ex_or e f) (b || c)
  unfolding eval
  or_eval e f b c h k = rw (h, k, or_flags b c) refl

  xor_eval : (e f : Exp) (b c : Bool) → Is e b → Is f c → Is (ex_xor e f) (differ_b b c)
  unfolding eval
  xor_eval e f b c h k = rw (h, k, xor_flags b c) refl

  widen_eval :
      (e : Exp) (b : Bool) → Is e b → eval env (ex_u_cast e reg_32) ≡ some (val reg_32 (as_flag b))
  unfolding eval
  widen_eval e b h = rw h refl

  -- The expression of a condition code, from the flags.
  flags_lem :
      (arg : X86Condcode) (c p z s o : Bool)
      → arg ≢ cond_always
      → Is cf c
      → Is pf p
      → Is zf z
      → Is sf s
      → Is ov o
      → (e : Exp) × (condition_flag arg ≡ some e) × Is e (by_flags c p z s o arg)
  unfolding condition_flag
  flags_lem cond_o c p z s o n hc hp hz hs ho = (_, refl, ho)
  flags_lem cond_no c p z s o n hc hp hz hs ho = (_, refl, not_eval _ _ ho)
  flags_lem cond_b c p z s o n hc hp hz hs ho = (_, refl, hc)
  flags_lem cond_nb c p z s o n hc hp hz hs ho = (_, refl, not_eval _ _ hc)
  flags_lem cond_z c p z s o n hc hp hz hs ho = (_, refl, hz)
  flags_lem cond_nz c p z s o n hc hp hz hs ho = (_, refl, not_eval _ _ hz)
  flags_lem cond_be c p z s o n hc hp hz hs ho = (_, refl, or_eval _ _ _ _ hc hz)
  flags_lem cond_nbe c p z s o n hc hp hz hs ho = (_, refl, not_eval _ _ (or_eval _ _ _ _ hc hz))
  flags_lem cond_s c p z s o n hc hp hz hs ho = (_, refl, hs)
  flags_lem cond_ns c p z s o n hc hp hz hs ho = (_, refl, not_eval _ _ hs)
  flags_lem cond_p c p z s o n hc hp hz hs ho = (_, refl, hp)
  flags_lem cond_np c p z s o n hc hp hz hs ho = (_, refl, not_eval _ _ hp)
  flags_lem cond_l c p z s o n hc hp hz hs ho = (_, refl, xor_eval _ _ _ _ hs ho)
  flags_lem cond_nl c p z s o n hc hp hz hs ho = (_, refl, not_eval _ _ (xor_eval _ _ _ _ hs ho))
  flags_lem cond_le c p z s o n hc hp hz hs ho =
      (_, refl, or_eval _ _ _ _ (xor_eval _ _ _ _ hs ho) hz)
  flags_lem cond_nle c p z s o n hc hp hz hs ho =
      (_, refl, not_eval _ _ (or_eval _ _ _ _ (xor_eval _ _ _ _ hs ho) hz))
  flags_lem cond_always c p z s o n hc hp hz hs ho = absurd (n refl)

-- The flags that a comparison of two words leaves.
abbrev compared : ℕ → ℕ → ℕ → X86Condcode → Bool
compared w x y =
    by_flags (ltb x y) (ones (difference w x y % 2 ^ 8) % 2 == 0) (difference w x y == 0)
      (leb (2 ^ (w - 1)) (difference w x y)) (overflows w x y)

zero_lem :
    (t : RegT) (x y : ℕ)
    → 8 ≤ reg_to_bits t
    → reg_to_bits t ≤ 32
    → x < 2 ^ reg_to_bits t
    → y < 2 ^ reg_to_bits t
    → (difference (reg_to_bits t) x y == 0) ≡ (x == y)
zero_lem reg_1 x y l u p q = absurd (omega arith)
zero_lem reg_8 x y l u p q = ground arith
zero_lem reg_16 x y l u p q = ground arith
zero_lem reg_32 x y l u p q = ground arith
zero_lem reg_64 x y l u p q = absurd (omega arith)

less_lem :
    (t : RegT) (x y : ℕ)
    → 8 ≤ reg_to_bits t
    → reg_to_bits t ≤ 32
    → x < 2 ^ reg_to_bits t
    → y < 2 ^ reg_to_bits t
    → differ_b
        (leb (2 ^ (reg_to_bits t - 1)) (difference (reg_to_bits t) x y))
        (overflows (reg_to_bits t) x y)
      ≡ lt_ℤ (signed (reg_to_bits t) x) (signed (reg_to_bits t) y)
less_lem reg_1 x y l u p q = absurd (omega arith)
less_lem reg_8 x y l u p q = ground arith
less_lem reg_16 x y l u p q = ground arith
less_lem reg_32 x y l u p q = ground arith
less_lem reg_64 x y l u p q = absurd (omega arith)

at_most_lem :
    (t : RegT) (x y : ℕ)
    → 8 ≤ reg_to_bits t
    → reg_to_bits t ≤ 32
    → x < 2 ^ reg_to_bits t
    → y < 2 ^ reg_to_bits t
    → (lt_ℤ (signed (reg_to_bits t) x) (signed (reg_to_bits t) y) || x == y)
      ≡ le_ℤ (signed (reg_to_bits t) x) (signed (reg_to_bits t) y)
at_most_lem reg_1 x y l u p q = absurd (omega arith)
at_most_lem reg_8 x y l u p q = ground arith
at_most_lem reg_16 x y l u p q = ground arith
at_most_lem reg_32 x y l u p q = ground arith
at_most_lem reg_64 x y l u p q = absurd (omega arith)

not_less : (a b : ℤ) → flip (lt_ℤ a b) ≡ le_ℤ b a
not_less (pos a) (pos b) = ground arith
not_less (pos a) (negsuc b) = refl
not_less (negsuc a) (pos b) = refl
not_less (negsuc a) (negsuc b) = ground arith

not_at_most : (a b : ℤ) → flip (le_ℤ a b) ≡ lt_ℤ b a
not_at_most (pos a) (pos b) = ground arith
not_at_most (pos a) (negsuc b) = refl
not_at_most (negsuc a) (pos b) = refl
not_at_most (negsuc a) (negsuc b) = ground arith

compared-holds :
    (t : RegT) (x y : ℕ)
    → 8 ≤ reg_to_bits t
    → reg_to_bits t ≤ 32
    → x < 2 ^ reg_to_bits t
    → y < 2 ^ reg_to_bits t
    → (arg : X86Condcode) → compared (reg_to_bits t) x y arg ≡ holds (reg_to_bits t) x y arg
compared-holds t x y l u p q cond_o = refl
compared-holds t x y l u p q cond_no = refl
compared-holds t x y l u p q cond_b = refl
compared-holds t x y l u p q cond_nb = ground arith
compared-holds t x y l u p q cond_z = zero_lem t x y l u p q
compared-holds t x y l u p q cond_nz = ap flip (zero_lem t x y l u p q)
compared-holds t x y l u p q cond_be = rw (zero_lem t x y l u p q) (ground arith)
compared-holds t x y l u p q cond_nbe = rw (zero_lem t x y l u p q) (ground arith)
compared-holds t x y l u p q cond_s = refl
compared-holds t x y l u p q cond_ns = ground arith
compared-holds t x y l u p q cond_p = refl
compared-holds t x y l u p q cond_np = ground arith
compared-holds t x y l u p q cond_l = less_lem t x y l u p q
compared-holds t x y l u p q cond_nl =
    ap flip (less_lem t x y l u p q)
    ∙ not_less (signed (reg_to_bits t) x) (signed (reg_to_bits t) y)
compared-holds t x y l u p q cond_le =
    rw (less_lem t x y l u p q, zero_lem t x y l u p q) (at_most_lem t x y l u p q)
compared-holds t x y l u p q cond_nle =
    rw (less_lem t x y l u p q, zero_lem t x y l u p q, at_most_lem t x y l u p q)
      (not_at_most (signed (reg_to_bits t) x) (signed (reg_to_bits t) y))
compared-holds t x y l u p q cond_always = refl

-- Where `calculate_condition` is applied after the statements of `mod_eflags_sub` at two words of 8, 16 or 32
-- bits, and the flags thunk is not used, it emits nothing, and at each code but `cond_always` its result is 1
-- if the code's relation holds of the two words and else 0: overflow, below, equal, below or equal, the sign
-- and the parity of the difference, signed less, signed less or equal, and the negations of these.
pub calculate_condition_lem :
    (d : Decimal) (k : ℕ) (t : RegT) (a b : Exp) (x y : ℕ) (env : Env) (arg : X86Condcode)
    → 8 ≤ reg_to_bits t
    → reg_to_bits t ≤ 32
    → x < 2 ^ reg_to_bits t
    → y < 2 ^ reg_to_bits t
    → Keeps d k env a reg_32 x
    → Keeps d k env b reg_32 y
    → arg ≢ cond_always
    → (o : Out) × (env' : Env) × (e : Exp) × (mod_eflags_sub d t a b (fresh k) ≡ some (tt, o))
      × (exec o.stmts env ≡ some env')
      × (calculate_condition false arg o ≡ some (e, o))
      × (eval env' e ≡ some (val reg_32 (as_flag (holds (reg_to_bits t) x y arg))))
unfolding calculate_condition call_thunk
calculate_condition_lem d k t a b x y env arg l u p q ka kb n =
    let (o, env', made, runs, frame, flags) = mod_eflags_sub_lem d k t a b x y env l u p q ka kb in
    let (e, found, value) =
      flags_lem env' arg _ _ _ _ _ n (read_flag env' "R_CF" _ flags.carry)
        (read_flag env' "R_PF" _ flags.parity) (read_flag env' "R_ZF" _ flags.zero_flag)
        (read_flag env' "R_SF" _ flags.sign) (read_flag env' "R_OF" _ flags.overflow) in
    (
      o,
      env',
      ex_u_cast e reg_32,
      made,
      runs,
      rw found refl,
      widen_eval env' e _ value
          ∙ ap (λ b. some (val reg_32 (as_flag b))) (compared-holds t x y l u p q arg),
    )
