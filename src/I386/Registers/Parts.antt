-- ===== src/I386/Registers/Parts.antt =====
-- The registers of 8 and 16 bits that are parts of one of 32 bits: what is written to one is read from it, and
-- the rest of the large register stays.
use Prim.Native.String.{◌++◌ as append}
use native.Mathlib.Nat.{mod-lt}
use fuzzball.I386.Flags.Run.{Runs-exec, assign-here, assign-other, assigned, done}
use fuzzball.I386.Flags.{mk_reg}
use fuzzball.I386.Registers.{Field, in_fptag, in_xmm, sub_registers_16, sub_registers_8, switch}
use fuzzball.I386.Registers.Bytes.{replace}
use fuzzball.I386.Registers.Get.{get_byte, translate_get_reg_16, translate_get_reg_8}
use fuzzball.I386.Registers.Put.{put_byte, translate_put_reg_16, translate_put_reg_8}
use fuzzball.Ir.Build.{ex_and, ex_const, ex_l_cast, ex_or, ex_shl, ex_u_cast}
use fuzzball.Ir.Eval.{Env, assign, eval, val}
use fuzzball.Ir.Types.{Exp, reg_16, reg_32, reg_8}
use fuzzball.Prelude.{
  Bool, String, [], ap, arith, bit_and, bit_or, false, if◌then◌else◌, refl, some, sym, true, ℕ, ◌%◌,
  ◌*◌, ◌<◌, ◌^◌, ◌∙◌, ◌∷◌, ◌≡◌, ◌≢◌,
}
use fuzzball.Prelude.Fields.{replace_field}
use fuzzball.Prelude.Outcomes.{elim-some}
use fuzzball.Stmt.{Stmt, move}
use fuzzball.Stmt.Exec.{exec}

-- The place of a byte of a register of 32 bits.
abbrev pub place : Bool → ℕ
place low = if low then 0 else 1

abbrev pub full : Env → String → ℕ
full env n = env.var (append "R_" n) % 2 ^ 32

module _ (env : Env) (n : String) (datum : Exp) (v : ℕ) where
  abbrev x : ℕ
  x = full env n

  small : x < 2 ^ 32
  small = mod-lt _ (omega arith)

  put_low :
      v < 2 ^ 8
      → eval env datum ≡ some (val reg_8 v)
      → eval env (ex_or (ex_and (mk_reg n reg_32) (ex_const 0xffffff00)) (ex_u_cast datum reg_32))
        ≡ some (val reg_32 (replace 1 0 v x))
  unfolding eval
  put_low bound h =
      let e : v * 1 ≡ v = omega arith in
      let b = small in
      rw h (
        ap (λ (n : ℕ). some (val reg_32 n))
          (ap (λ (t : ℕ). bit_or (bit_and x 0xffffff00) t) (sym e)
            ∙ replace_field 24 8 0 x v (omega arith) bound))

  put_high :
      v < 2 ^ 8
      → eval env datum ≡ some (val reg_8 v)
      → eval env (
          ex_or
            (ex_and (mk_reg n reg_32) (ex_const 0xffff00ff))
            (ex_shl (ex_u_cast datum reg_32) (ex_const 8)))
        ≡ some (val reg_32 (replace 1 1 v x))
  unfolding eval
  put_high bound h =
      let e : v * 256 % 2 ^ 32 ≡ v * 2 ^ 8 = omega arith in
      let b = small in
      rw (h, e) (ap (λ (n : ℕ). some (val reg_32 n)) (replace_field 16 8 8 x v (omega arith) bound))

  put_16 :
      v < 2 ^ 16
      → eval env datum ≡ some (val reg_16 v)
      → eval env (ex_or (ex_and (mk_reg n reg_32) (ex_const 0xffff0000)) (ex_u_cast datum reg_32))
        ≡ some (val reg_32 (replace 2 0 v x))
  unfolding eval
  put_16 bound h =
      let e : v * 1 ≡ v = omega arith in
      let b = small in
      rw h (
        ap (λ (n : ℕ). some (val reg_32 n))
          (ap (λ (t : ℕ). bit_or (bit_and x 0xffff0000) t) (sym e)
            ∙ replace_field 16 16 0 x v (omega arith) bound))

  read_byte :
      (low : Bool)
      → v < 2 ^ 8
      → eval (assign (append "R_" n) (replace 1 (place low) v x) env) (get_byte (n, low))
        ≡ some (val reg_8 v)
  unfolding eval
  read_byte true bound =
      let b = small in
      rw (assign-here (append "R_" n) (replace 1 0 v x) env)
        (ap (λ (n : ℕ). some (val reg_8 n)) (omega arith))
  read_byte false bound =
      let b = small in
      rw (assign-here (append "R_" n) (replace 1 1 v x) env)
        (ap (λ (n : ℕ). some (val reg_8 n)) (omega arith))

  read_word :
      v < 2 ^ 16
      → eval (assign (append "R_" n) (replace 2 0 v x) env) (ex_l_cast (mk_reg n reg_32) reg_16)
        ≡ some (val reg_16 v)
  unfolding eval
  read_word bound =
      let b = small in
      rw (assign-here (append "R_" n) (replace 2 0 v x) env)
        (ap (λ (n : ℕ). some (val reg_16 n)) (omega arith))

  put_byte-exec :
      (low : Bool)
      → v < 2 ^ 8
      → eval env datum ≡ some (val reg_8 v)
      → exec (put_byte (n, low) datum ∷ []) env
        ≡ some (assign (append "R_" n) (replace 1 (place low) v x) env)
  put_byte-exec true bound h = Runs-exec (assigned (put_low bound h) done)
  put_byte-exec false bound h = Runs-exec (assigned (put_high bound h) done)

  -- Where an offset lies outside the vector and tag registers and names a byte of a register of 32 bits, a write of
  -- a byte to it and a read from it translate; after the statement of the write the read gives the byte that
  -- was written, the large register has that byte replaced and its others kept, and every other variable
  -- is as it was.
  pub translate_get_reg_8-translate_put_reg_8 :
      (offb : Field → ℕ) (offset : ℕ) (low : Bool) (other : String)
      → in_xmm offb offset ≡ false
      → in_fptag offb offset ≡ false
      → switch offset (sub_registers_8 offb) ≡ some (n, low)
      → v < 2 ^ 8
      → eval env datum ≡ some (val reg_8 v)
      → other ≢ append "R_" n
      → (s : Stmt) × (g : Exp) × (env' : Env) × (translate_put_reg_8 offb offset datum ≡ some s)
        × (translate_get_reg_8 offb offset ≡ some g)
        × (exec (s ∷ []) env ≡ some env')
        × (eval env' g ≡ some (val reg_8 v))
        × (env'.var (append "R_" n) ≡ replace 1 (place low) v (full env n))
        × (env'.var other ≡ env.var other)
  unfolding translate_put_reg_8 translate_get_reg_8
  translate_get_reg_8-translate_put_reg_8 offb offset low other no_xmm no_tag found bound h away = (
    put_byte (n, low) datum,
    get_byte (n, low),
    assign (append "R_" n) (replace 1 (place low) v x) env,
    rw (no_xmm, no_tag) (elim-some _ _ _ found),
    rw (no_xmm, no_tag, found) refl,
    put_byte-exec low bound h,
    read_byte low bound,
    assign-here (append "R_" n) (replace 1 (place low) v x) env,
    assign-other other (append "R_" n) (replace 1 (place low) v x) env away,
  )

  -- Where an offset lies outside the vector registers and names the lower half of a register of 32 bits, a write of
  -- a word of 16 bits to it and a read from it translate; after the statement of the write the read gives the
  -- word that was written, the large register has its lower half replaced and its upper half kept, and every
  -- other variable is as it was.
  pub translate_get_reg_16-translate_put_reg_16 :
      (offb : Field → ℕ) (offset : ℕ) (other : String)
      → in_xmm offb offset ≡ false
      → switch offset (sub_registers_16 offb) ≡ some n
      → v < 2 ^ 16
      → eval env datum ≡ some (val reg_16 v)
      → other ≢ append "R_" n
      → (s : Stmt) × (g : Exp) × (env' : Env) × (translate_put_reg_16 offb offset datum ≡ some s)
        × (translate_get_reg_16 offb offset ≡ some g)
        × (exec (s ∷ []) env ≡ some env')
        × (eval env' g ≡ some (val reg_16 v))
        × (env'.var (append "R_" n) ≡ replace 2 0 v (full env n))
        × (env'.var other ≡ env.var other)
  unfolding translate_put_reg_16 translate_get_reg_16
  translate_get_reg_16-translate_put_reg_16 offb offset other no_xmm found bound h away = (
    move (mk_reg n reg_32)
        (ex_or (ex_and (mk_reg n reg_32) (ex_const 0xffff0000)) (ex_u_cast datum reg_32)),
    ex_l_cast (mk_reg n reg_32) reg_16,
    assign (append "R_" n) (replace 2 0 v x) env,
    rw no_xmm (elim-some _ _ _ found),
    rw no_xmm (elim-some _ _ _ found),
    Runs-exec (assigned (put_16 bound h) done),
    read_word bound,
    assign-here (append "R_" n) (replace 2 0 v x) env,
    assign-other other (append "R_" n) (replace 2 0 v x) env away,
  )
