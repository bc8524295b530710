-- ===== src/I386/Registers/Offsets.antt =====
-- The translations at the offsets of the XMM registers, in terms of the halves.
use fuzzball.I386.Registers.Halves.{IsLayout, half_word, half_name}
use fuzzball.I386.Registers.Get.{
  translate_get_reg_8, translate_get_reg_16, translate_get_reg_32, translate_get_reg_64, lanes_8,
  lanes_16,
}
use fuzzball.I386.Registers.Put.{
  translate_put_reg_16, translate_put_reg_32, translate_put_reg_64, translate_put_reg_8, replaced,
}
use fuzzball.I386.Registers.Lanes.{quarter, assembled}
use fuzzball.I386.Registers.{Field, guest_xmm, switch}
use fuzzball.Ir.Types.{Exp}
use fuzzball.Prelude.{ap, arith, refl, some, ℕ, ◌%◌, ◌-◌, true, ◌*◌, ◌+◌, ◌/◌, ◌<◌, ◌∙◌, ◌≡◌}
use fuzzball.Prelude.Outcomes.{elim-some}
use fuzzball.I386.Registers.{in_xmm, xmm_half, xmm_regname}
use fuzzball.I386.Flags.{mk_reg}
use fuzzball.Ir.Types.{reg_64}
use fuzzball.I386.Registers.Named.{names_64_lem, simd_32_lem, xmm_names_lem}
use fuzzball.Stmt.{move}

module _ (offb : Field → ℕ) (lay : IsLayout offb) where
  abbrev pub base : ℕ
  base = offb (guest_xmm 0)

  in_xmm_lem : (i : ℕ) → i < 128 → in_xmm offb (base + i) ≡ true
  in_xmm_lem i l = let c = lay.consecutive 7 (omega arith) in ground arith

  xmm_half_lem :
      (i : ℕ) → i < 128 → xmm_half offb (base + i) ≡ some (mk_reg (half_name (i / 8)) reg_64)
  unfolding xmm_half xmm_regname
  xmm_half_lem i l =
      let a = lay.aligned in
      let at : base + i - (base + i) % 8 ≡ base + 8 * (i / 8) = omega (arith, a) in
      let e = xmm_names_lem offb lay (i / 8) (omega arith) in rw (a, at, e) refl

  lane_at : (i : ℕ) → (base + i) % 8 ≡ i % 8
  lane_at i = let a = lay.aligned in omega (arith, a)

  pub get_8-eq :
      (i : ℕ) (g : Exp)
      → i < 128
      → switch (i % 8) (lanes_8 (half_word (i / 8))) ≡ some g
      → translate_get_reg_8 offb (base + i) ≡ some g
  unfolding translate_get_reg_8
  get_8-eq i g l e = rw (in_xmm_lem i l, xmm_half_lem i l, lane_at i) e

  pub get_16-eq :
      (i : ℕ) (g : Exp)
      → i < 128
      → i % 2 ≡ 0
      → switch (i % 8 / 2) (lanes_16 (half_word (i / 8))) ≡ some g
      → translate_get_reg_16 offb (base + i) ≡ some g
  unfolding translate_get_reg_16
  get_16-eq i g l even e =
      let even_lane : i % 8 % 2 ≡ 0 = omega arith in
      rw (in_xmm_lem i l, xmm_half_lem i l, lane_at i, even_lane) e

  pub get_32-eq :
      (i : ℕ)
      → i < 128
      → i % 4 ≡ 0
      → translate_get_reg_32 offb (base + i) ≡ some (quarter (half_word (i / 8)) (i % 8 / 4))
  unfolding translate_get_reg_32
  get_32-eq i l whole =
      let at : base + i ≡ base + 4 * (i / 4) = omega arith in
      let lane : i / 4 % 2 ≡ i % 8 / 4 = omega arith in
      let of_half : i / 4 / 2 ≡ i / 8 = omega arith in
      ap (λ (o : ℕ). translate_get_reg_32 offb o) at
      ∙ elim-some _ _ _ (simd_32_lem offb lay (i / 4) (omega arith))
      ∙ rw (lane, of_half) refl

  pub get_64-eq :
      (i : ℕ) → i < 128 → i % 8 ≡ 0 → translate_get_reg_64 offb (base + i) ≡ half_word (i / 8)
  unfolding translate_get_reg_64
  get_64-eq i l whole =
      let at : base + i ≡ base + 8 * (i / 8) = omega arith in
      ap (translate_get_reg_64 offb) at
      ∙ elim-some _ _ _ (names_64_lem offb lay (i / 8) (omega arith))

  pub put_8-eq :
      (i : ℕ) (datum : Exp)
      → i < 128
      → translate_put_reg_8 offb (base + i) datum
        ≡ some (move (half_word (i / 8)) (replaced (half_word (i / 8)) datum 255 (i % 8 * 8)))
  unfolding translate_put_reg_8
  put_8-eq i datum l = rw (in_xmm_lem i l, xmm_half_lem i l, lane_at i) refl

  pub put_16-eq :
      (i : ℕ) (datum : Exp)
      → i < 128
      → i % 2 ≡ 0
      → translate_put_reg_16 offb (base + i) datum
        ≡ some
            (move (half_word (i / 8)) (replaced (half_word (i / 8)) datum 65535 (i % 8 / 2 * 16)))
  unfolding translate_put_reg_16
  put_16-eq i datum l even =
      let even_lane : i % 8 % 2 ≡ 0 = omega arith in
      let amount : i % 8 * 8 ≡ i % 8 / 2 * 16 = omega arith in
      rw (in_xmm_lem i l, xmm_half_lem i l, lane_at i, even_lane, amount) refl

  pub put_32-eq :
      (i : ℕ) (datum : Exp)
      → i < 128
      → i % 4 ≡ 0
      → translate_put_reg_32 offb (base + i) datum
        ≡ some (move (half_word (i / 8)) (assembled (half_word (i / 8)) datum (i % 8 / 4)))
  unfolding translate_put_reg_32
  put_32-eq i datum l whole =
      let at : base + i ≡ base + 4 * (i / 4) = omega arith in
      let lane : i / 4 % 2 ≡ i % 8 / 4 = omega arith in
      let of_half : i / 4 / 2 ≡ i / 8 = omega arith in
      ap (λ (o : ℕ). translate_put_reg_32 offb o datum) at
      ∙ elim-some _ _ _ (simd_32_lem offb lay (i / 4) (omega arith))
      ∙ rw (lane, of_half) refl

  pub put_64-eq :
      (i : ℕ) (datum : Exp)
      → i < 128
      → i % 8 ≡ 0
      → translate_put_reg_64 offb (base + i) datum ≡ move (half_word (i / 8)) datum
  unfolding translate_put_reg_64
  put_64-eq i datum l whole =
      let at : base + i ≡ base + 8 * (i / 8) = omega arith in
      ap (λ (o : ℕ). translate_put_reg_64 offb o datum) at
      ∙ elim-some _ _ _ (names_64_lem offb lay (i / 8) (omega arith))
