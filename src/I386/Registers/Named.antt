-- ===== src/I386/Registers/Named.antt =====
-- The cases of the switches over the XMM registers, where these follow one another.
use fuzzball.I386.Registers.{Field, guest_xmm, names_64, simd_32, switch, xmm_names}
use fuzzball.I386.Registers.Halves.{AllBelow, AllBelow-at, IsLayout, half_name}
use fuzzball.Prelude.{arith, some, ℕ, ◌%◌, ◌*◌, ◌+◌, ◌/◌, ◌<◌, ◌≡◌}

module _ (offb : Field → ℕ) (h : IsLayout offb) where
  abbrev pub base : ℕ
  base = offb (guest_xmm 0)

  abbrev IsNamed : ℕ → Type 0
  IsNamed i = switch (base + 8 * i) (xmm_names offb) ≡ some (half_name i)

  all-IsNamed : AllBelow 16 IsNamed
  all-IsNamed =
      let c1 = h.consecutive 1 (omega arith) in
      let c2 = h.consecutive 2 (omega arith) in
      let c3 = h.consecutive 3 (omega arith) in
      let c4 = h.consecutive 4 (omega arith) in
      let c5 = h.consecutive 5 (omega arith) in
      let c6 = h.consecutive 6 (omega arith) in
      let c7 = h.consecutive 7 (omega arith) in
      (
        (
          (
            (
              (
                (
                  (
                    (
                      (
                        (
                          (
                            (
                              ((((tt, ground arith), ground arith), ground arith), ground arith),
                              ground arith,
                            ),
                            ground arith,
                          ),
                          ground arith,
                        ),
                        ground arith,
                      ),
                      ground arith,
                    ),
                    ground arith,
                  ),
                  ground arith,
                ),
                ground arith,
              ),
              ground arith,
            ),
            ground arith,
          ),
          ground arith,
        ),
        ground arith,
      )

  abbrev IsNamed64 : ℕ → Type 0
  IsNamed64 i = switch (base + 8 * i) (names_64 offb) ≡ some (half_name i)

  all-IsNamed64 : AllBelow 16 IsNamed64
  all-IsNamed64 =
      let c1 = h.consecutive 1 (omega arith) in
      let c2 = h.consecutive 2 (omega arith) in
      let c3 = h.consecutive 3 (omega arith) in
      let c4 = h.consecutive 4 (omega arith) in
      let c5 = h.consecutive 5 (omega arith) in
      let c6 = h.consecutive 6 (omega arith) in
      let c7 = h.consecutive 7 (omega arith) in
      (
        (
          (
            (
              (
                (
                  (
                    (
                      (
                        (
                          (
                            (
                              ((((tt, ground arith), ground arith), ground arith), ground arith),
                              ground arith,
                            ),
                            ground arith,
                          ),
                          ground arith,
                        ),
                        ground arith,
                      ),
                      ground arith,
                    ),
                    ground arith,
                  ),
                  ground arith,
                ),
                ground arith,
              ),
              ground arith,
            ),
            ground arith,
          ),
          ground arith,
        ),
        ground arith,
      )

  -- A quarter of a register is the lower or the upper part of a half.
  abbrev IsNamed32 : ℕ → Type 0
  IsNamed32 i = switch (base + 4 * i) (simd_32 offb) ≡ some (half_name (i / 2), i % 2)

  all-IsNamed32 : AllBelow 32 IsNamed32
  all-IsNamed32 =
      let c1 = h.consecutive 1 (omega arith) in
      let c2 = h.consecutive 2 (omega arith) in
      let c3 = h.consecutive 3 (omega arith) in
      let c4 = h.consecutive 4 (omega arith) in
      let c5 = h.consecutive 5 (omega arith) in
      let c6 = h.consecutive 6 (omega arith) in
      let c7 = h.consecutive 7 (omega arith) in
      (
        (
          (
            (
              (
                (
                  (
                    (
                      (
                        (
                          (
                            (
                              (
                                (
                                  (
                                    (
                                      (
                                        (
                                          (
                                            (
                                              (
                                                (
                                                  (
                                                    (
                                                      (
                                                        (
                                                          (
                                                            (
                                                            (
                                                            (
                                                            ((tt, ground arith), ground arith),
                                                            ground arith,
                                                            ),
                                                            ground arith,
                                                            ),
                                                            ground arith,
                                                            ),
                                                            ground arith,
                                                          ),
                                                          ground arith,
                                                        ),
                                                        ground arith,
                                                      ),
                                                      ground arith,
                                                    ),
                                                    ground arith,
                                                  ),
                                                  ground arith,
                                                ),
                                                ground arith,
                                              ),
                                              ground arith,
                                            ),
                                            ground arith,
                                          ),
                                          ground arith,
                                        ),
                                        ground arith,
                                      ),
                                      ground arith,
                                    ),
                                    ground arith,
                                  ),
                                  ground arith,
                                ),
                                ground arith,
                              ),
                              ground arith,
                            ),
                            ground arith,
                          ),
                          ground arith,
                        ),
                        ground arith,
                      ),
                      ground arith,
                    ),
                    ground arith,
                  ),
                  ground arith,
                ),
                ground arith,
              ),
              ground arith,
            ),
            ground arith,
          ),
          ground arith,
        ),
        ground arith,
      )

  pub names_64_lem : (i : ℕ) → i < 16 → switch (base + 8 * i) (names_64 offb) ≡ some (half_name i)
  names_64_lem i l = AllBelow-at 16 IsNamed64 i all-IsNamed64 l

  pub simd_32_lem :
      (i : ℕ) → i < 32 → switch (base + 4 * i) (simd_32 offb) ≡ some (half_name (i / 2), i % 2)
  simd_32_lem i l = AllBelow-at 32 IsNamed32 i all-IsNamed32 l

  pub xmm_names_lem : (i : ℕ) → i < 16 → switch (base + 8 * i) (xmm_names offb) ≡ some (half_name i)
  xmm_names_lem i l = AllBelow-at 16 IsNamed i all-IsNamed l
