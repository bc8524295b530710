-- ===== src/Tests/Registers.antt =====
-- The theorems on registers and conditions at concrete inputs.
use fuzzball.I386.Conditions.{calculate_condition, calculate_eflags_all, cond_l}
use fuzzball.I386.Conditions.{check_fldcw, check_ldmxcsr, create_fpucw, create_mxcsr}
use fuzzball.I386.Conditions.Control.{check_ldmxcsr-create_mxcsr}
use fuzzball.I386.Conditions.Laws.{calculate_condition_lem, holds}
use fuzzball.I386.Conditions.Word.{Holds, calculate_eflags_all-mod_eflags_copy}
use fuzzball.I386.Flags.{mod_eflags_copy}
use fuzzball.I386.Flags.Arithmetic.{mod_eflags_sub}
use fuzzball.I386.Flags.Compare.{as_flag}
use fuzzball.I386.Flags.Run.{fresh}
use fuzzball.I386.Registers.{
  Field, guest_acflag, guest_cc_dep1, guest_cc_dep2, guest_cc_ndep, guest_cc_op, guest_cs,
  guest_dflag, guest_ds, guest_eax, guest_ebp, guest_ebx, guest_ecx, guest_edi, guest_edx,
  guest_eip, guest_emwarn, guest_es, guest_esi, guest_esp, guest_fc3210, guest_fpreg, guest_fpround,
  guest_fptag, guest_fs, guest_ftop, guest_gdt, guest_gs, guest_idflag, guest_ip_at_syscall,
  guest_ldt, guest_nraddr, guest_sc_class, guest_ss, guest_sseround, guest_tilen, guest_tistart,
  guest_xmm,
}
use fuzzball.I386.Registers.Bytes.{replace}
use fuzzball.I386.Registers.Dispatch.{i386_translate_put}
use fuzzball.I386.Registers.File.{bytes}
use fuzzball.I386.Registers.Get.{
  i386_translate_get, ity_f64, ity_i16, translate_get_reg_16, translate_get_reg_8,
}
use fuzzball.I386.Registers.Halves.{IsLayout}
use fuzzball.I386.Registers.Parts.{
  full, place, translate_get_reg_16-translate_put_reg_16, translate_get_reg_8-translate_put_reg_8,
}
use fuzzball.I386.Registers.Put.{translate_put_reg_16, translate_put_reg_8}
use fuzzball.I386.Registers.Refine.{Gets, Puts, Shows}
use fuzzball.I386.Registers.Simulate.{
  i386_translate_get_lem, i386_translate_put_lem, is_f64, is_i16,
}
use fuzzball.I386.Registers.Types.{i386_translate_get-type}
use mathlib.Core.Bool.{false≢true}
use fuzzball.Ir.Build.{ex_l_cast}
use fuzzball.Ir.Eval.{Env, eval, val}
use fuzzball.Ir.Types.{Exp, constant, reg_16, reg_32, reg_64, reg_8, temp}
use fuzzball.Prelude.{
  String, [], arith, false, inr, ap, refl, some, str_eq, if◌then◌else◌, ◌||◌, true, ℕ, ◌+◌, ◌*◌,
  ◌∷◌, ◌≡◌, ◌≢◌,
}
use fuzzball.Stmt.{Out, Stmt}
use fuzzball.Stmt.Exec.{exec}
use fuzzball.Tests.{no_output, tally, test_env}
use fuzzball.Tests.Instances.{c_16, c_33}

-- A guest state like VEX's.
abbrev guest_offset : Field → ℕ
guest_offset guest_eax = 8
guest_offset guest_ecx = 12
guest_offset guest_edx = 16
guest_offset guest_ebx = 20
guest_offset guest_esp = 24
guest_offset guest_ebp = 28
guest_offset guest_esi = 32
guest_offset guest_edi = 36
guest_offset guest_cc_op = 40
guest_offset guest_cc_dep1 = 44
guest_offset guest_cc_dep2 = 48
guest_offset guest_cc_ndep = 52
guest_offset guest_dflag = 56
guest_offset guest_idflag = 60
guest_offset guest_acflag = 64
guest_offset guest_eip = 68
guest_offset guest_fpround = 144
guest_offset guest_fc3210 = 148
guest_offset guest_ftop = 152
guest_offset guest_sseround = 156
guest_offset guest_cs = 288
guest_offset guest_ds = 290
guest_offset guest_es = 292
guest_offset guest_fs = 294
guest_offset guest_gs = 296
guest_offset guest_ss = 298
guest_offset guest_ldt = 304
guest_offset guest_gdt = 312
guest_offset guest_emwarn = 320
guest_offset guest_tistart = 324
guest_offset guest_tilen = 328
guest_offset guest_nraddr = 332
guest_offset guest_sc_class = 336
guest_offset guest_ip_at_syscall = 340
guest_offset (guest_fpreg i) = 72 + 8 * i
guest_offset (guest_fptag i) = 136 + i
guest_offset (guest_xmm i) = 160 + 16 * i

guest_offset-IsLayout : IsLayout guest_offset
guest_offset-IsLayout = record {
  consecutive = λ i l. omega arith;
  aligned = refl;
  ldt_apart = inr (omega arith);
  gdt_apart = inr (omega arith);
}

calculate_condition_example :
    (o : Out) × (env' : Env) × (e : Exp) × (mod_eflags_sub tally reg_8 c_16 c_33 (fresh 0)
      ≡ some (tt, o))
    × (exec o.stmts test_env ≡ some env')
    × (calculate_condition false cond_l o ≡ some (e, o))
    × (eval env' e ≡ some (val reg_32 (as_flag (holds 8 16 33 cond_l))))
unfolding eval
calculate_condition_example =
    calculate_condition_lem tally 0 reg_8 c_16 c_33 16 33 test_env cond_l (omega arith)
      (omega arith) (omega arith) (omega arith) (λ env' f. refl) (λ env' f. refl) (λ e. cc)

-- A state in which the carry and the sign are set.
abbrev flagged : Env
flagged = record { var = λ n. if str_eq n "R_CF" || str_eq n "R_SF" then 1 else 0; load = λ t a. 0 }

flagged-Holds : Holds true false false false true false flagged
flagged-Holds = record {
  carry = refl;
  parity = refl;
  adjust = refl;
  zero_flag = refl;
  sign = refl;
  overflow = refl;
}

abbrev c_129 : Exp
c_129 = constant reg_32 129

calculate_eflags_all_example :
    (e : Exp) × (out' : Out) × (env' : Env) × (calculate_eflags_all false no_output
      ≡ some (e, no_output))
    × (eval flagged e ≡ some (val reg_32 129))
    × (mod_eflags_copy reg_32 c_129 c_16 (fresh 0) ≡ some (tt, out'))
    × (exec out'.stmts test_env ≡ some env')
    × Holds true false false false true false env'
unfolding eval
calculate_eflags_all_example =
    calculate_eflags_all-mod_eflags_copy tally 0 reg_32 c_129 c_16 true false false false true false
      no_output flagged test_env flagged-Holds (λ env' f. refl)

abbrev unknown_offset : ℕ → String
unknown_offset o = "Unrecognized register type"

test_env-Shows : Shows test_env (bytes test_env)
test_env-Shows = record { agree = λ i l. refl }

i386_translate_get_example :
    (g : Exp) × (i386_translate_get guest_offset ity_f64 (160 + 24) ≡ some g)
    × Gets test_env (bytes test_env) reg_64 24 g
i386_translate_get_example =
    i386_translate_get_lem guest_offset guest_offset-IsLayout 24 (bytes test_env) test_env is_f64
      test_env-Shows (omega arith) refl

i386_translate_put_example :
    (s : Stmt) × (i386_translate_put guest_offset unknown_offset ity_i16
        (160 + 22)
        (constant reg_16 0x1234)
        no_output
      ≡ some (s, no_output))
    × Puts test_env (bytes test_env) reg_16 22 0x1234 s
unfolding eval
i386_translate_put_example =
    i386_translate_put_lem guest_offset guest_offset-IsLayout unknown_offset 22 0x1234
      (bytes test_env) (constant reg_16 0x1234) test_env no_output is_i16 test_env-Shows
      (omega arith) refl (omega arith) refl

-- A state in which a register of 32 bits is not 0.
abbrev with_eax : Env
with_eax = record { var = λ n. if str_eq n "R_EAX" then 0x11223344 else 0; load = λ t a. 0 }

i386_translate_get-type_example : reg_16 ≡ reg_16
unfolding i386_translate_get translate_get_reg_16 eval
i386_translate_get-type_example =
    i386_translate_get-type guest_offset 8 (ex_l_cast (temp reg_32 "R_EAX") reg_16) reg_16 0x3344
      with_eax is_i16 refl refl

not_eax : ◌≢◌ {A = String} "R_EBX" "R_EAX"
not_eax e = absurd (false≢true (ap (λ n. str_eq n "R_EAX") e))

translate_reg_8_example :
    (s : Stmt) × (g : Exp) × (env' : Env) × (translate_put_reg_8 guest_offset 9
        (constant reg_8 0x55)
      ≡ some s)
    × (translate_get_reg_8 guest_offset 9 ≡ some g)
    × (exec (s ∷ []) with_eax ≡ some env')
    × (eval env' g ≡ some (val reg_8 0x55))
    × (env'.var "R_EAX" ≡ replace 1 (place false) 0x55 (full with_eax "EAX"))
    × (env'.var "R_EBX" ≡ with_eax.var "R_EBX")
unfolding eval
translate_reg_8_example =
    translate_get_reg_8-translate_put_reg_8 with_eax "EAX" (constant reg_8 0x55) 0x55 guest_offset 9
      false "R_EBX" refl refl refl (omega arith) refl not_eax

translate_reg_16_example :
    (s : Stmt) × (g : Exp) × (env' : Env) × (translate_put_reg_16 guest_offset 8
        (constant reg_16 0x5566)
      ≡ some s)
    × (translate_get_reg_16 guest_offset 8 ≡ some g)
    × (exec (s ∷ []) with_eax ≡ some env')
    × (eval env' g ≡ some (val reg_16 0x5566))
    × (env'.var "R_EAX" ≡ replace 2 0 0x5566 (full with_eax "EAX"))
    × (env'.var "R_EBX" ≡ with_eax.var "R_EBX")
unfolding eval
translate_reg_16_example =
    translate_get_reg_16-translate_put_reg_16 with_eax "EAX" (constant reg_16 0x5566) 0x5566
      guest_offset 8 "R_EBX" refl refl (omega arith) refl not_eax

check_ldmxcsr_example :
    (eval test_env (check_ldmxcsr (create_mxcsr (constant reg_32 2))) ≡ some (val reg_64 2))
    × (eval test_env (check_fldcw (create_fpucw (constant reg_32 2))) ≡ some (val reg_64 2))
unfolding eval
check_ldmxcsr_example = check_ldmxcsr-create_mxcsr test_env (constant reg_32 2) 2 (omega arith) refl
