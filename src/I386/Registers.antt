-- ===== src/I386/Registers.antt =====
-- The registers that an offset into VEX's guest state names (libasmir/src/vex/irtoir-i386.cpp). The offsets,
-- `offsetof(VexGuestX86State, ...)`, are VEX's, and a parameter. A failed assertion and a panic are `none`.
pub mod Bytes
pub mod Dispatch
pub mod File
pub mod Get
pub mod Lanes
pub mod Parts
pub mod Put
pub mod Named
pub mod Offsets
pub mod Refine
pub mod Simulate
pub mod Types
pub mod Halves
use fuzzball.I386.Flags.{mk_reg}
use fuzzball.Ir.Types.{Exp, reg_64}
use fuzzball.Prelude.{
  Bool, List, Option, String, [], false, if◌then◌else◌, leb, ltb, none, some, true, ℕ, ◌&&◌, ◌%◌,
  ◌+◌, ◌-◌, ◌==◌, ◌>>=◌, ◌∷◌,
}

-- The fields of `VexGuestX86State` that the translator knows.
pub data Field : Type 0 where
  guest_eax guest_ebx guest_ecx guest_edx guest_esp guest_ebp guest_esi guest_edi : Field
  guest_eip guest_cc_op guest_cc_dep1 guest_cc_dep2 guest_cc_ndep : Field
  guest_dflag guest_idflag guest_acflag guest_ftop guest_fc3210 guest_fpround : Field
  guest_ldt guest_gdt guest_sseround guest_emwarn guest_tistart guest_tilen guest_nraddr : Field
  guest_sc_class guest_ip_at_syscall : Field
  guest_cs guest_ds guest_es guest_fs guest_gs guest_ss : Field
  guest_fpreg guest_fptag guest_xmm : ℕ → Field

-- A switch with its cases in order; the default is `none`.
abbrev pub switch : {A : Type 0} → ℕ → List (ℕ × A) → Option A
switch o [] = none
switch o ((c, a) ∷ cases) = if o == c then some a else switch o cases

module _ (offb : Field → ℕ) where
  -- The names of the registers of 32 bits, and whether the name is that of a whole register.
  abbrev pub names_32 : List (ℕ × (String × Bool))
  names_32 =
      (offb guest_eax, ("EAX", true))
      ∷ (offb guest_ebx, ("EBX", true))
      ∷ (offb guest_ecx, ("ECX", true))
      ∷ (offb guest_edx, ("EDX", true))
      ∷ (offb guest_esp, ("ESP", true))
      ∷ (offb guest_ebp, ("EBP", true))
      ∷ (offb guest_esi, ("ESI", true))
      ∷ (offb guest_edi, ("EDI", true))
      ∷ (offb guest_eip, ("EIP", true))
      ∷ (offb guest_cc_op, ("CC_OP", true))
      ∷ (offb guest_cc_dep1, ("CC_DEP1", true))
      ∷ (offb guest_cc_dep2, ("CC_DEP2", true))
      ∷ (offb guest_cc_ndep, ("CC_NDEP", true))
      ∷ (offb guest_dflag, ("DFLAG", true))
      ∷ (offb guest_idflag, ("IDFLAG", true))
      ∷ (offb guest_acflag, ("ACFLAG", true))
      ∷ (offb guest_ftop, ("FTOP", true))
      ∷ (offb guest_fc3210, ("FC3210", true))
      ∷ (offb guest_fpround, ("FPROUND", true))
      ∷ (offb guest_ldt, ("LDT", true))
      ∷ (offb guest_gdt, ("GDT", true))
      ∷ (offb guest_sseround, ("SSEROUND", true))
      ∷ (offb guest_emwarn, ("EMWARN", true))
      ∷ (offb guest_tistart, ("TISTART", true))
      ∷ (offb guest_tilen, ("TILEN", true))
      ∷ (offb guest_nraddr, ("NRADDR", true))
      ∷ (offb guest_sc_class, ("SC_CLASS", true))
      ∷ (offb guest_ip_at_syscall, ("IP_AT_SYSCALL", true))
      ∷ (offb (guest_xmm 0), ("XMM0", false))
      ∷ (offb (guest_xmm 1), ("XMM1", false))
      ∷ (offb (guest_xmm 2), ("XMM2", false))
      ∷ (offb (guest_xmm 3), ("XMM3", false))
      ∷ (offb (guest_xmm 4), ("XMM4", false))
      ∷ (offb (guest_xmm 5), ("XMM5", false))
      ∷ (offb (guest_xmm 6), ("XMM6", false))
      ∷ (offb (guest_xmm 7), ("XMM7", false))
      ∷ (offb (guest_xmm 0) + 4, ("XMM0", false))
      ∷ (offb (guest_xmm 1) + 4, ("XMM1", false))
      ∷ (offb (guest_xmm 2) + 4, ("XMM2", false))
      ∷ (offb (guest_xmm 3) + 4, ("XMM3", false))
      ∷ (offb (guest_xmm 4) + 4, ("XMM4", false))
      ∷ (offb (guest_xmm 5) + 4, ("XMM5", false))
      ∷ (offb (guest_xmm 6) + 4, ("XMM6", false))
      ∷ (offb (guest_xmm 7) + 4, ("XMM7", false))
      ∷ (offb (guest_xmm 0) + 8, ("XMM0", false))
      ∷ (offb (guest_xmm 1) + 8, ("XMM1", false))
      ∷ (offb (guest_xmm 2) + 8, ("XMM2", false))
      ∷ (offb (guest_xmm 3) + 8, ("XMM3", false))
      ∷ (offb (guest_xmm 4) + 8, ("XMM4", false))
      ∷ (offb (guest_xmm 5) + 8, ("XMM5", false))
      ∷ (offb (guest_xmm 6) + 8, ("XMM6", false))
      ∷ (offb (guest_xmm 7) + 8, ("XMM7", false))
      ∷ (offb (guest_xmm 0) + 12, ("XMM0", false))
      ∷ (offb (guest_xmm 1) + 12, ("XMM1", false))
      ∷ (offb (guest_xmm 2) + 12, ("XMM2", false))
      ∷ (offb (guest_xmm 3) + 12, ("XMM3", false))
      ∷ (offb (guest_xmm 4) + 12, ("XMM4", false))
      ∷ (offb (guest_xmm 5) + 12, ("XMM5", false))
      ∷ (offb (guest_xmm 6) + 12, ("XMM6", false))
      ∷ (offb (guest_xmm 7) + 12, ("XMM7", false))
      ∷ []

  unfoldable pub reg_offset_to_name : ℕ → Option (String × Bool)
  reg_offset_to_name offset = switch offset names_32

  -- The halves of the XMM registers.
  abbrev pub xmm_names : List (ℕ × String)
  xmm_names =
      (offb (guest_xmm 0), "XMM0L")
      ∷ (offb (guest_xmm 1), "XMM1L")
      ∷ (offb (guest_xmm 2), "XMM2L")
      ∷ (offb (guest_xmm 3), "XMM3L")
      ∷ (offb (guest_xmm 4), "XMM4L")
      ∷ (offb (guest_xmm 5), "XMM5L")
      ∷ (offb (guest_xmm 6), "XMM6L")
      ∷ (offb (guest_xmm 7), "XMM7L")
      ∷ (offb (guest_xmm 0) + 8, "XMM0H")
      ∷ (offb (guest_xmm 1) + 8, "XMM1H")
      ∷ (offb (guest_xmm 2) + 8, "XMM2H")
      ∷ (offb (guest_xmm 3) + 8, "XMM3H")
      ∷ (offb (guest_xmm 4) + 8, "XMM4H")
      ∷ (offb (guest_xmm 5) + 8, "XMM5H")
      ∷ (offb (guest_xmm 6) + 8, "XMM6H")
      ∷ (offb (guest_xmm 7) + 8, "XMM7H")
      ∷ []

  unfoldable pub xmm_regname : ℕ → Option String
  xmm_regname offset = switch offset xmm_names

  -- Whether the offset lies in the XMM registers.
  abbrev pub in_xmm : ℕ → Bool
  in_xmm offset = leb (offb (guest_xmm 0)) offset && ltb offset (offb (guest_xmm 7) + 16)

  -- The half of an XMM register at a byte of it: `offset & ~7`, where the registers are aligned.
  unfoldable pub xmm_half : ℕ → Option Exp
  xmm_half offset =
      if offb (guest_xmm 0) % 8 == 0
      then (do n ← xmm_regname (offset - offset % 8); some (mk_reg n reg_64))
      else none

  abbrev pub fptag_names : List (ℕ × String)
  fptag_names =
      (offb (guest_fptag 0), "FPTAG0")
      ∷ (offb (guest_fptag 1), "FPTAG1")
      ∷ (offb (guest_fptag 2), "FPTAG2")
      ∷ (offb (guest_fptag 3), "FPTAG3")
      ∷ (offb (guest_fptag 4), "FPTAG4")
      ∷ (offb (guest_fptag 5), "FPTAG5")
      ∷ (offb (guest_fptag 6), "FPTAG6")
      ∷ (offb (guest_fptag 7), "FPTAG7")
      ∷ []

  abbrev pub in_fptag : ℕ → Bool
  in_fptag offset = leb (offb (guest_fptag 0)) offset && leb offset (offb (guest_fptag 7))

  -- The registers of 8 bits: the register of 32 bits that each is part of, and whether it is its lowest byte.
  abbrev pub sub_registers_8 : List (ℕ × (String × Bool))
  sub_registers_8 =
      (offb guest_eax, ("EAX", true))
      ∷ (offb guest_eax + 1, ("EAX", false))
      ∷ (offb guest_ebx, ("EBX", true))
      ∷ (offb guest_ebx + 1, ("EBX", false))
      ∷ (offb guest_ecx, ("ECX", true))
      ∷ (offb guest_ecx + 1, ("ECX", false))
      ∷ (offb guest_edx, ("EDX", true))
      ∷ (offb guest_edx + 1, ("EDX", false))
      ∷ []

  -- The registers of 16 bits that are part of one of 32 bits.
  abbrev pub sub_registers_16 : List (ℕ × String)
  sub_registers_16 =
      (offb guest_eax, "EAX")
      ∷ (offb guest_ebx, "EBX")
      ∷ (offb guest_ecx, "ECX")
      ∷ (offb guest_edx, "EDX")
      ∷ (offb guest_edi, "EDI")
      ∷ (offb guest_esi, "ESI")
      ∷ (offb guest_ebp, "EBP")
      ∷ (offb guest_esp, "ESP")
      ∷ []

  -- The registers of 16 bits.
  abbrev pub registers_16 : List (ℕ × String)
  registers_16 =
      (offb guest_cs, "CS")
      ∷ (offb guest_ds, "DS")
      ∷ (offb guest_es, "ES")
      ∷ (offb guest_fs, "FS")
      ∷ (offb guest_gs, "GS")
      ∷ (offb guest_ss, "SS")
      ∷ []

  -- The quarters of the XMM registers: the half, and whether it is the lower or the upper part of that.
  abbrev pub simd_32 : List (ℕ × (String × ℕ))
  simd_32 =
      (offb (guest_xmm 0), ("XMM0L", 0))
      ∷ (offb (guest_xmm 1), ("XMM1L", 0))
      ∷ (offb (guest_xmm 2), ("XMM2L", 0))
      ∷ (offb (guest_xmm 3), ("XMM3L", 0))
      ∷ (offb (guest_xmm 4), ("XMM4L", 0))
      ∷ (offb (guest_xmm 5), ("XMM5L", 0))
      ∷ (offb (guest_xmm 6), ("XMM6L", 0))
      ∷ (offb (guest_xmm 7), ("XMM7L", 0))
      ∷ (offb (guest_xmm 0) + 4, ("XMM0L", 1))
      ∷ (offb (guest_xmm 1) + 4, ("XMM1L", 1))
      ∷ (offb (guest_xmm 2) + 4, ("XMM2L", 1))
      ∷ (offb (guest_xmm 3) + 4, ("XMM3L", 1))
      ∷ (offb (guest_xmm 4) + 4, ("XMM4L", 1))
      ∷ (offb (guest_xmm 5) + 4, ("XMM5L", 1))
      ∷ (offb (guest_xmm 6) + 4, ("XMM6L", 1))
      ∷ (offb (guest_xmm 7) + 4, ("XMM7L", 1))
      ∷ (offb (guest_xmm 0) + 8, ("XMM0H", 0))
      ∷ (offb (guest_xmm 1) + 8, ("XMM1H", 0))
      ∷ (offb (guest_xmm 2) + 8, ("XMM2H", 0))
      ∷ (offb (guest_xmm 3) + 8, ("XMM3H", 0))
      ∷ (offb (guest_xmm 4) + 8, ("XMM4H", 0))
      ∷ (offb (guest_xmm 5) + 8, ("XMM5H", 0))
      ∷ (offb (guest_xmm 6) + 8, ("XMM6H", 0))
      ∷ (offb (guest_xmm 7) + 8, ("XMM7H", 0))
      ∷ (offb (guest_xmm 0) + 12, ("XMM0H", 1))
      ∷ (offb (guest_xmm 1) + 12, ("XMM1H", 1))
      ∷ (offb (guest_xmm 2) + 12, ("XMM2H", 1))
      ∷ (offb (guest_xmm 3) + 12, ("XMM3H", 1))
      ∷ (offb (guest_xmm 4) + 12, ("XMM4H", 1))
      ∷ (offb (guest_xmm 5) + 12, ("XMM5H", 1))
      ∷ (offb (guest_xmm 6) + 12, ("XMM6H", 1))
      ∷ (offb (guest_xmm 7) + 12, ("XMM7H", 1))
      ∷ []

  -- The registers of 64 bits.
  abbrev pub names_64 : List (ℕ × String)
  names_64 =
      (offb (guest_xmm 0), "XMM0L")
      ∷ (offb (guest_xmm 1), "XMM1L")
      ∷ (offb (guest_xmm 2), "XMM2L")
      ∷ (offb (guest_xmm 3), "XMM3L")
      ∷ (offb (guest_xmm 4), "XMM4L")
      ∷ (offb (guest_xmm 5), "XMM5L")
      ∷ (offb (guest_xmm 6), "XMM6L")
      ∷ (offb (guest_xmm 7), "XMM7L")
      ∷ (offb (guest_xmm 0) + 8, "XMM0H")
      ∷ (offb (guest_xmm 1) + 8, "XMM1H")
      ∷ (offb (guest_xmm 2) + 8, "XMM2H")
      ∷ (offb (guest_xmm 3) + 8, "XMM3H")
      ∷ (offb (guest_xmm 4) + 8, "XMM4H")
      ∷ (offb (guest_xmm 5) + 8, "XMM5H")
      ∷ (offb (guest_xmm 6) + 8, "XMM6H")
      ∷ (offb (guest_xmm 7) + 8, "XMM7H")
      ∷ (offb (guest_fpreg 0), "FPREG0")
      ∷ (offb (guest_fpreg 1), "FPREG1")
      ∷ (offb (guest_fpreg 2), "FPREG2")
      ∷ (offb (guest_fpreg 3), "FPREG3")
      ∷ (offb (guest_fpreg 4), "FPREG4")
      ∷ (offb (guest_fpreg 5), "FPREG5")
      ∷ (offb (guest_fpreg 6), "FPREG6")
      ∷ (offb (guest_fpreg 7), "FPREG7")
      ∷ []

  -- The registers of 128 bits.
  abbrev pub names_128 : List (ℕ × String)
  names_128 =
      (offb (guest_xmm 0), "XMM0")
      ∷ (offb (guest_xmm 1), "XMM1")
      ∷ (offb (guest_xmm 2), "XMM2")
      ∷ (offb (guest_xmm 3), "XMM3")
      ∷ (offb (guest_xmm 4), "XMM4")
      ∷ (offb (guest_xmm 5), "XMM5")
      ∷ (offb (guest_xmm 6), "XMM6")
      ∷ (offb (guest_xmm 7), "XMM7")
      ∷ []
