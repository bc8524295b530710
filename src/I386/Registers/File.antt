-- ===== src/I386/Registers/File.antt =====
-- The XMM registers as a memory of 128 bytes: what an assignment to a half does to the bytes, and what a part of
-- a half is in terms of them.
use native.Mathlib.Decide.{dec_lt}
use fuzzball.I386.Flags.Run.{assign-here, assign-other}
use fuzzball.I386.Registers.Bytes.{byte, byte-low, byte-replace, load, load-byte, replace, store}
use fuzzball.I386.Registers.Halves.{half_reg, half_reg-injective}
use fuzzball.Ir.Eval.{Env, assign}
use fuzzball.Prelude.{
  ap, arith, sym, refl, suc, zero, ℕ, ◌%◌, ◌*◌, ◌+◌, ◌-◌, ◌/◌, ◌<◌, ◌^◌, ◌∙◌, ◌≡◌, ◌≢◌, ◌≤◌, ◌⊎◌,
  inl, inr,
}

abbrev pub half : Env → ℕ → ℕ
half env h = env.var (half_reg h) % 2 ^ 64

-- The bytes of the registers.
abbrev pub bytes : Env → ℕ → ℕ
bytes env i = byte (i % 8) (half env (i / 8))

same_or_not : (m n : ℕ) → (m ≡ n) ⊎ (m ≢ n)
same_or_not m n = elim (dec_lt m n) [
  | yes a ↦ inr (omega arith)
  | no a ↦ elim (dec_lt n m) [ yes b ↦ inr (omega arith) | no b ↦ inl (omega arith) ]
]

byte-word : (i x : ℕ) → i < 8 → byte i (x % 2 ^ 64) ≡ byte i x
byte-word i x l =
    let e : x ≡ x / 2 ^ 64 * 256 ^ 8 + x % 2 ^ 64 = omega arith in
    sym (ap (byte i) e ∙ byte-low i 8 (x / 2 ^ 64) (x % 2 ^ 64) l)

module _ (env : Env) (h n k v : ℕ) (lh : h < 16) (room : k + n ≤ 8) (fits : v < 256 ^ n) where
  abbrev after : Env
  after = assign (half_reg h) (replace n k v (half env h)) env

  same_half :
      (i : ℕ) → i < 8 → byte i (half after h) ≡ store n (8 * h + k) v (bytes env) (8 * h + i)
  same_half i l =
      let at : (8 * h + i) % 8 ≡ i = omega arith in
      let of_half : (8 * h + i) / 8 ≡ h = omega arith in
      let off : 8 * h + i - (8 * h + k) ≡ i - k = omega arith in
      ap (λ (t : ℕ). byte i (t % 2 ^ 64))
        (assign-here (half_reg h) (replace n k v (half env h)) env)
      ∙ byte-word i (replace n k v (half env h)) l
      ∙ byte-replace n k v (half env h) i fits
      ∙ rw (at, of_half, off) (ground arith)

  other_half :
      (g i : ℕ)
      → g < 16
      → i < 8
      → g ≢ h
      → byte i (half after g) ≡ store n (8 * h + k) v (bytes env) (8 * g + i)
  other_half g i lg l away =
      let at : (8 * g + i) % 8 ≡ i = omega arith in
      let of_half : (8 * g + i) / 8 ≡ g = omega arith in
      ap (λ (t : ℕ). byte i (t % 2 ^ 64))
        (assign-other (half_reg g) (half_reg h) (replace n k v (half env h)) env
          (λ e. away (half_reg-injective g h lg lh e)))
      ∙ rw (at, of_half) (ground arith)

  -- An assignment to a half that replaces a part of it is a store.
  pub assign-bytes : (j : ℕ) → j < 128 → bytes after j ≡ store n (8 * h + k) v (bytes env) j
  assign-bytes j l =
      let e : j ≡ 8 * (j / 8) + j % 8 = omega arith in
      elim (same_or_not (j / 8) h) [
        | inl same ↦
            ap (λ (t : ℕ). byte (j % 8) (half after t)) same
            ∙ same_half (j % 8) (omega arith)
            ∙ ap (store n (8 * h + k) v (bytes env)) (omega arith)
        | inr away ↦
            other_half (j / 8) (j % 8) (omega arith) (omega arith) away
            ∙ ap (store n (8 * h + k) v (bytes env)) (sym e)
      ]

-- A part of a half is a load.
pub load-half :
    (env : Env) (n h k : ℕ)
    → k + n ≤ 8
    → load n (8 * h + k) (bytes env) ≡ half env h / 256 ^ k % 256 ^ n
load-half env n h k room = from n k room ∙ load-byte n k (half env h)
  where
    from :
        (n k : ℕ) → k + n ≤ 8 → load n (8 * h + k) (bytes env) ≡ load n k (λ j. byte j (half env h))
    from zero k room = refl
    from (suc n) k room =
        let at : (8 * h + k) % 8 ≡ k = omega arith in
        let of_half : (8 * h + k) / 8 ≡ h = omega arith in
        let next : 8 * h + k + 1 ≡ 8 * h + (k + 1) = omega arith in
        rw (at, of_half, next)
          (ap (λ (t : ℕ). byte k (half env h) + 256 * t) (from n (k + 1) (omega arith)))
