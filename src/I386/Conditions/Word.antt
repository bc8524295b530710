-- ===== src/I386/Conditions/Word.antt =====
-- The flags word that `x86g_calculate_eflags_all` puts together holds each flag at its position.
use fuzzball.I386.Conditions.{calculate_eflags_all, call_thunk, flags_word}
use fuzzball.I386.Flags.{mod_eflags_copy}
use fuzzball.I386.Flags.Compare.{as_flag}
use fuzzball.I386.Flags.Copy.{AreBits, mod_eflags_copy_lem}
use fuzzball.I386.Flags.Run.{Keeps, fresh}
use fuzzball.Ir.Eval.{Env, eval, val}
use fuzzball.Ir.Types.{Exp, RegT, reg_32}
use fuzzball.Prelude.{
  Bool, ap, arith, bit_or, false, refl, some, true, ℕ, ◌%◌, ◌*◌, ◌+◌, ◌<◌, ◌^◌, ◌∙◌, ◌≡◌, ◌≤◌,
}
use fuzzball.Prelude.Bits.{nothing-bit_or, zero-bit_or}
use fuzzball.Prelude.Fields.{bit_or-split}
use fuzzball.Stmt.{Decimal, Out}
use fuzzball.Stmt.Exec.{exec}

-- The flags hold the Boolean values.
pub record Holds (c p a z s o : Bool) (env : Env) : Type 0 where
  pub carry : env.var "R_CF" ≡ as_flag c
  pub parity : env.var "R_PF" ≡ as_flag p
  pub adjust : env.var "R_AF" ≡ as_flag a
  pub zero_flag : env.var "R_ZF" ≡ as_flag z
  pub sign : env.var "R_SF" ≡ as_flag s
  pub overflow : env.var "R_OF" ≡ as_flag o

-- The word with the flags at their positions.
abbrev pub word_of : (c p a z s o : Bool) → ℕ
word_of c p a z s o =
    as_flag c
    + as_flag p * 2 ^ 2
    + as_flag a * 2 ^ 4
    + as_flag z * 2 ^ 6
    + as_flag s * 2 ^ 7
    + as_flag o * 2 ^ 11

low_or :
    (c p a : Bool)
    → bit_or (as_flag c) (bit_or (as_flag p * 4) (as_flag a * 16))
      ≡ as_flag c + as_flag p * 4 + as_flag a * 16
low_or true true true = refl
low_or true true false = refl
low_or true false true = refl
low_or true false false = refl
low_or false true true = refl
low_or false true false = refl
low_or false false true = refl
low_or false false false = refl

high_or :
    (z s o : Bool)
    → bit_or (as_flag z * 64) (bit_or (as_flag s * 128) (as_flag o * 2048))
      ≡ as_flag z * 64 + as_flag s * 128 + as_flag o * 2048
high_or true true true = refl
high_or true true false = refl
high_or true false true = refl
high_or true false false = refl
high_or false true true = refl
high_or false true false = refl
high_or false false true = refl
high_or false false false = refl

flag_bound : (b : Bool) → as_flag b < 2
flag_bound true = omega arith
flag_bound false = omega arith

union_lem :
    (c p a z s o : Bool)
    → bit_or
        (as_flag c + as_flag p * 4 + as_flag a * 16)
        (as_flag z * 64 + as_flag s * 128 + as_flag o * 2048)
      ≡ word_of c p a z s o
union_lem c p a z s o =
    let low = as_flag c + as_flag p * 4 + as_flag a * 16 in
    let high = as_flag z + as_flag s * 2 + as_flag o * 32 in
    let apart =
      bit_or-split 6 0 low high 0 (omega (arith, flag_bound c, flag_bound p, flag_bound a))
        (omega arith) in
    let l : low ≡ 0 * 2 ^ 6 + low = omega arith in
    let h : as_flag z * 64 + as_flag s * 128 + as_flag o * 2048 ≡ high * 2 ^ 6 + 0 = omega arith in
    ap (λ (n : ℕ). bit_or n (as_flag z * 64 + as_flag s * 128 + as_flag o * 2048)) l
    ∙ ap (λ (n : ℕ). bit_or (0 * 2 ^ 6 + low) n) h
    ∙ apart
    ∙ omega (
      arith,
      zero-bit_or high,
      nothing-bit_or 6 low (omega (arith, flag_bound c, flag_bound p, flag_bound a)),
    )

times_one : (b : Bool) → as_flag b * 1 ≡ as_flag b
times_one b = omega arith

flag_shift : (b : Bool) (k : ℕ) → k ≤ 2048 → as_flag b % 2 * k % 4294967296 ≡ as_flag b * k
flag_shift true k h = ground arith
flag_shift false k h = ground arith

module _ (c p a z s o : Bool) where
  flags_word_lem :
      (env : Env)
      → Holds c p a z s o env
      → eval env flags_word ≡ some (val reg_32 (word_of c p a z s o))
  unfolding eval
  flags_word_lem env h =
      rw
        (
          h.carry,
          h.parity,
          h.adjust,
          h.zero_flag,
          h.sign,
          h.overflow,
          flag_shift c 1 (omega arith),
          flag_shift p 4 (omega arith),
          flag_shift a 16 (omega arith),
          flag_shift z 64 (omega arith),
          flag_shift s 128 (omega arith),
          flag_shift o 2048 (omega arith),
        )
        (ap (λ (n : ℕ). some (val reg_32 n))
          (rw (times_one c, low_or c p a, high_or z s o) (union_lem c p a z s o)))

  word_bound : word_of c p a z s o < 2 ^ 32
  word_bound =
      omega
        (arith, flag_bound c, flag_bound p, flag_bound a, flag_bound z, flag_bound s, flag_bound o)

  bits-Holds : (env : Env) → AreBits (word_of c p a z s o) env → Holds c p a z s o env
  bits-Holds env h = record {
    carry = h.bit_0 ∙ omega (arith, flag_bound c);
    parity = h.bit_2 ∙ omega (arith, flag_bound c, flag_bound p);
    adjust = h.bit_4 ∙ omega (arith, flag_bound c, flag_bound p, flag_bound a);
    zero_flag = h.bit_6 ∙ omega (arith, flag_bound c, flag_bound p, flag_bound a, flag_bound z);
    sign =
        h.bit_7
        ∙ omega (arith, flag_bound c, flag_bound p, flag_bound a, flag_bound z, flag_bound s);
    overflow =
        h.bit_11
        ∙ omega (
          arith,
          flag_bound c,
          flag_bound p,
          flag_bound a,
          flag_bound z,
          flag_bound s,
          flag_bound o,
        );
  }

-- Where the six flags hold the Boolean values and the flags thunk is not used, `calculate_eflags_all` emits
-- nothing and gives the word with each flag at its position; and where `mod_eflags_copy` is then applied, from
-- any state, to an expression that has this word as its value, its statements set the flags to the same values.
pub calculate_eflags_all-mod_eflags_copy :
    (d : Decimal) (k : ℕ) (t : RegT) (arg1 arg2 : Exp) (c p a z s o : Bool) (out : Out)
    (env env1 : Env)
    → Holds c p a z s o env
    → Keeps d k env1 arg1 reg_32 (word_of c p a z s o)
    → (e : Exp) × (out' : Out) × (env' : Env) × (calculate_eflags_all false out ≡ some (e, out))
      × (eval env e ≡ some (val reg_32 (word_of c p a z s o)))
      × (mod_eflags_copy t arg1 arg2 (fresh k) ≡ some (tt, out'))
      × (exec out'.stmts env1 ≡ some env')
      × Holds c p a z s o env'
unfolding calculate_eflags_all call_thunk
calculate_eflags_all-mod_eflags_copy d k t arg1 arg2 c p a z s o out env env1 h keeps =
    let (out', env', made, runs, frame, bits) =
      mod_eflags_copy_lem d k t arg1 arg2 (word_of c p a z s o) env1 (word_bound c p a z s o)
        keeps in
    (
      flags_word,
      out',
      env',
      refl,
      flags_word_lem c p a z s o env h,
      made,
      runs,
      bits-Holds c p a z s o env' bits,
    )
