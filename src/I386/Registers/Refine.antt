-- ===== src/I386/Registers/Refine.antt =====
-- The translations of reads and writes of the XMM registers implement a memory of bytes.
use fuzzball.I386.Registers.Halves.{IsLayout, AllBelow-at, half_reg, half_word}
use fuzzball.I386.Registers.Bytes.{load, store, replace}
use fuzzball.I386.Registers.File.{assign-bytes, bytes, half, load-half}
use fuzzball.I386.Registers.Get.{
  translate_get_reg_8, translate_get_reg_16, translate_get_reg_32, translate_get_reg_64,
}
use fuzzball.I386.Registers.Put.{
  translate_put_reg_16, translate_put_reg_32, translate_put_reg_64, translate_put_reg_8,
}
use fuzzball.I386.Registers.Lanes.{
  Reads8, reads_8, Reads16, reads_16, Puts8, puts_8, Puts16, puts_16, reads_32, Reads32, puts_32,
  Puts32,
}
use fuzzball.I386.Registers.Offsets.{
  get_8-eq, get_16-eq, get_32-eq, get_64-eq, put_8-eq, put_16-eq, put_32-eq, put_64-eq,
}
use fuzzball.I386.Registers.{Field, guest_xmm}
use fuzzball.Ir.Eval.{Env, eval, val, assign}
use fuzzball.Ir.Types.{Exp, RegT, reg_16, reg_32, reg_64, reg_8, reg_to_bits, temp}
use fuzzball.Prelude.{
  [], ap, arith, refl, some, suc, sym, zero, ℕ, ◌%◌, ◌*◌, ◌+◌, ◌/◌, ◌<◌, ◌^◌, ◌∙◌, ◌∷◌, ◌≡◌, ◌≤◌,
}
use fuzzball.Stmt.{Stmt, move}
use fuzzball.Stmt.Exec.{exec}
use native.Mathlib.Nat.{mod-lt}
use fuzzball.I386.Flags.Run.{Runs-exec, assigned, done}

half_bound : (env : Env) (h : ℕ) → half env h < 2 ^ 64
half_bound env h = mod-lt _ (omega arith)

half-eval :
    (env : Env) (h : ℕ) → eval env (temp reg_64 (half_reg h)) ≡ some (val reg_64 (half env h))
unfolding eval
half-eval env h = refl

-- The registers hold the bytes of the abstract memory.
pub record Shows (env : Env) (f : ℕ → ℕ) : Type 0 where
  pub agree : (i : ℕ) → i < 128 → bytes env i ≡ f i

-- The expression has as its value the word at the address.
abbrev pub Gets : Env → (ℕ → ℕ) → RegT → ℕ → Exp → Type 0
Gets env f t i g = eval env g ≡ some (val t (load (reg_to_bits t / 8) i f))

-- After the statement the registers show the memory with the word written at the address.
abbrev pub Puts : Env → (ℕ → ℕ) → RegT → ℕ → ℕ → Stmt → Type 0
Puts env f t i v s =
    (env' : Env) × (exec (s ∷ []) env ≡ some env') × Shows env' (store (reg_to_bits t / 8) i v f)

load-Shows :
    (env : Env) (f : ℕ → ℕ) (n i : ℕ)
    → Shows env f
    → i + n ≤ 128
    → load n i (bytes env) ≡ load n i f
load-Shows env f zero i s l = refl
load-Shows env f (suc n) i s l =
    rw (s.agree i (omega arith), load-Shows env f n (i + 1) s (omega arith)) refl

store-Shows :
    (env env' : Env) (f : ℕ → ℕ) (n i v : ℕ)
    → Shows env f
    → ((j : ℕ) → j < 128 → bytes env' j ≡ store n i v (bytes env) j)
    → Shows env' (store n i v f)
store-Shows env env' f n i v s e = record { agree = λ j l. e j l ∙ rw (s.agree j l) refl }

module _ (env : Env) (f : ℕ → ℕ) (shows : Shows env f) where
  get_part :
      (t : RegT) (h k : ℕ) (g : Exp)
      → k + reg_to_bits t / 8 ≤ 8
      → h < 16
      → eval env g ≡ some (val t (half env h / 256 ^ k % 256 ^ (reg_to_bits t / 8)))
      → Gets env f t (8 * h + k) g
  get_part t h k g room lh e =
      let n = reg_to_bits t / 8 in
      e
      ∙ ap (λ (x : ℕ). some (val t x))
          (sym (load-half env n h k room) ∙ load-Shows env f n (8 * h + k) shows (omega arith))

  put_part :
      (t : RegT) (h k v : ℕ) (e : Exp)
      → k + reg_to_bits t / 8 ≤ 8
      → h < 16
      → v < 256 ^ (reg_to_bits t / 8)
      → eval env e ≡ some (val reg_64 (replace (reg_to_bits t / 8) k v (half env h)))
      → Puts env f t (8 * h + k) v (move (temp reg_64 (half_reg h)) e)
  put_part t h k v e room lh bound value =
      let n = reg_to_bits t / 8 in
      (
        assign (half_reg h) (replace n k v (half env h)) env,
        Runs-exec (assigned value done),
        store-Shows env _ f n (8 * h + k) v shows (assign-bytes env h n k v lh room bound),
      )

  at_byte : (t : RegT) (i j : ℕ) (g : Exp) → j ≡ i → Gets env f t j g → Gets env f t i g
  at_byte t i j g e value = value ∙ ap (λ (i : ℕ). some (val t (load (reg_to_bits t / 8) i f))) e

  put_at : (t : RegT) (i j v : ℕ) (s : Stmt) → j ≡ i → Puts env f t j v s → Puts env f t i v s
  put_at t i j v s e (env', runs, after) = (env', runs, rw (sym e) after)

  module _ (offb : Field → ℕ) (lay : IsLayout offb) where
    abbrev pub start : ℕ
    start = offb (guest_xmm 0)

    pub get_8 :
        (i : ℕ)
        → i < 128
        → (g : Exp) × (translate_get_reg_8 offb (start + i) ≡ some g) × Gets env f reg_8 i g
    get_8 i l =
        let h = i / 8 in
        let e = half-eval env h in
        let b = half_bound env h in
        let (g, found, value) =
          AllBelow-at 8 (Reads8 env (half_word h) (half env h) b e) (i % 8)
            (reads_8 env (half_word h) (half env h) b e) (omega arith) in
        (
          g,
          get_8-eq offb lay i g l found,
          at_byte reg_8 i (8 * h + i % 8) g (omega arith)
              (get_part reg_8 h (i % 8) g (omega arith) (omega arith) value),
        )

    pub put_8 :
        (i v : ℕ) (datum : Exp)
        → i < 128
        → v < 2 ^ 8
        → eval env datum ≡ some (val reg_8 v)
        → (s : Stmt) × (translate_put_reg_8 offb (start + i) datum ≡ some s)
          × Puts env f reg_8 i v s
    put_8 i v datum l bound of_data =
        let h = i / 8 in
        let e = half-eval env h in
        let b = half_bound env h in
        let value =
          AllBelow-at 8 (Puts8 env (half_word h) (half env h) b e datum v) (i % 8)
            (puts_8 env (half_word h) (half env h) b e datum v bound of_data) (omega arith) in
        (
          _,
          put_8-eq offb lay i datum l,
          put_at reg_8 i (8 * h + i % 8) v _ (omega arith)
              (put_part reg_8 h (i % 8) v _ (omega arith) (omega arith) bound value),
        )

    pub get_16 :
        (i : ℕ)
        → i < 128
        → i % 2 ≡ 0
        → (g : Exp) × (translate_get_reg_16 offb (start + i) ≡ some g) × Gets env f reg_16 i g
    get_16 i l even =
        let h = i / 8 in
        let e = half-eval env h in
        let b = half_bound env h in
        let (g, found, value) =
          AllBelow-at 4 (Reads16 env (half_word h) (half env h) b e) (i % 8 / 2)
            (reads_16 env (half_word h) (half env h) b e) (omega arith) in
        (
          g,
          get_16-eq offb lay i g l even found,
          at_byte reg_16 i (8 * h + 2 * (i % 8 / 2)) g (omega arith)
              (get_part reg_16 h (2 * (i % 8 / 2)) g (omega arith) (omega arith) value),
        )

    pub put_16 :
        (i v : ℕ) (datum : Exp)
        → i < 128
        → i % 2 ≡ 0
        → v < 2 ^ 16
        → eval env datum ≡ some (val reg_16 v)
        → (s : Stmt) × (translate_put_reg_16 offb (start + i) datum ≡ some s)
          × Puts env f reg_16 i v s
    put_16 i v datum l even bound of_data =
        let h = i / 8 in
        let e = half-eval env h in
        let b = half_bound env h in
        let value =
          AllBelow-at 4 (Puts16 env (half_word h) (half env h) b e datum v) (i % 8 / 2)
            (puts_16 env (half_word h) (half env h) b e datum v bound of_data) (omega arith) in
        (
          _,
          put_16-eq offb lay i datum l even,
          put_at reg_16 i (8 * h + 2 * (i % 8 / 2)) v _ (omega arith)
              (put_part reg_16 h (2 * (i % 8 / 2)) v _ (omega arith) (omega arith) bound value),
        )

    pub get_32 :
        (i : ℕ)
        → i < 128
        → i % 4 ≡ 0
        → (g : Exp) × (translate_get_reg_32 offb (start + i) ≡ some g) × Gets env f reg_32 i g
    get_32 i l whole =
        let h = i / 8 in
        let k = 4 * (i % 8 / 4) in
        let e = half-eval env h in
        let b = half_bound env h in
        let value =
          AllBelow-at 2 (Reads32 env (half_word h) (half env h) b e) (i % 8 / 4)
            (reads_32 env (half_word h) (half env h) b e) (omega arith) in
        (
          _,
          get_32-eq offb lay i l whole,
          at_byte reg_32 i (8 * h + k) _ (omega arith)
              (get_part reg_32 h k _ (omega arith) (omega arith) value),
        )

    pub put_32 :
        (i v : ℕ) (datum : Exp)
        → i < 128
        → i % 4 ≡ 0
        → v < 2 ^ 32
        → eval env datum ≡ some (val reg_32 v)
        → (s : Stmt) × (translate_put_reg_32 offb (start + i) datum ≡ some s)
          × Puts env f reg_32 i v s
    put_32 i v datum l whole bound of_data =
        let h = i / 8 in
        let k = 4 * (i % 8 / 4) in
        let e = half-eval env h in
        let b = half_bound env h in
        let value =
          AllBelow-at 2 (Puts32 env (half_word h) (half env h) b e datum v) (i % 8 / 4)
            (puts_32 env (half_word h) (half env h) b e datum v bound of_data) (omega arith) in
        (
          _,
          put_32-eq offb lay i datum l whole,
          put_at reg_32 i (8 * h + k) v _ (omega arith)
              (put_part reg_32 h k v _ (omega arith) (omega arith) bound value),
        )

    pub get_64 :
        (i : ℕ) → i < 128 → i % 8 ≡ 0 → Gets env f reg_64 i (translate_get_reg_64 offb (start + i))
    get_64 i l whole =
        let h = i / 8 in
        ap (eval env) (get_64-eq offb lay i l whole)
        ∙ at_byte reg_64 i (8 * h + 0) (half_word h) (omega arith) (
            get_part reg_64 h 0 (half_word h) (omega arith) (omega arith) (
              half-eval env h
              ∙ ap (λ (n : ℕ). some (val reg_64 n)) (omega (arith, half_bound env h))))

    pub put_64 :
        (i v : ℕ) (datum : Exp)
        → i < 128
        → i % 8 ≡ 0
        → v < 2 ^ 64
        → eval env datum ≡ some (val reg_64 v)
        → Puts env f reg_64 i v (translate_put_reg_64 offb (start + i) datum)
    put_64 i v datum l whole bound of_data =
        let h = i / 8 in
        rw (put_64-eq offb lay i datum l whole) (
          put_at reg_64 i (8 * h + 0) v _ (omega arith) (
            put_part reg_64 h 0 v datum (omega arith) (omega arith) bound
              (of_data ∙ ap (λ (n : ℕ). some (val reg_64 n)) (omega (arith, half_bound env h)))))
