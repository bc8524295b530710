-- ===== src/Vex/Memory/Capacity.antt =====
-- When the arena has room: where the C library never runs out of memory, requests of at most 1024 bytes that
-- come to at most 2^31 bytes in all are served, however they fall on the blocks.
use native.Mathlib.Decide.{dec_le}
use native.Mathlib.Nat.{mod-eq_of_lt, pow-le-pow_right}
use fuzzball.Ir.Words.{two_pow_pos}
use fuzzball.Prelude.{
  List, Option, [], arith, inl, inr, none, refl, some, suc, zero, ℕ, ◌*◌, ◌+◌, ◌-◌, ◌<◌, ◌>>=◌, ◌^◌,
  ◌∙◌, ◌∷◌, ◌≡◌, ◌≢◌, ◌≤◌, ◌⊎◌,
}
use fuzzball.Prelude.Int.{pos}
use fuzzball.Prelude.Outcomes.{elim-none, elim-some}
use fuzzball.Stmt.Laws.{now}
use fuzzball.Vex.Memory.{
  Allocator, Arena, block_size, first_block, make_room, new_block, next_block, set_block, take_room,
  vx_Alloc,
}

-- No block size wraps around.
size_lem : (i : ℕ) → i < 22 → block_size i ≡ 1024 * 2 ^ i
unfolding block_size
size_lem i l =
    let small : 2 ^ i ≤ 2 ^ 21 = pow-le-pow_right (omega arith) {i = i} {j = 21} (omega arith) in
    mod-eq_of_lt (omega (arith, small))

size-at_least : (i : ℕ) → i < 22 → 1024 ≤ block_size i
size-at_least i l = omega (arith, size_lem i l, two_pow_pos i)

last-size : (i : ℕ) → i ≡ 21 → block_size i ≡ 2 ^ 31
unfolding block_size
last-size i e = rw e refl

not_last : (n rest i free : ℕ) → i < 22 → (i ≡ 21 → n + rest ≤ free) → free < n → i + 1 < 22
not_last n rest i free l last short = elim (dec_le 21 i) [
  | yes h ↦ absurd (omega (arith, last (omega arith)))
  | no h ↦ omega arith
]

module _ (m : Allocator) where
  abbrev pub HasMemory : Type 0
  HasMemory = (n : ℕ) (s : m.Store) → (m.malloc n s).0 ≢ 0

  new_block-succeeds :
      HasMemory
      → (i : ℕ) (a : Arena m)
      → (b : Arena m) × (new_block m i a ≡ some b)
        × (b.vx_current_block ≡ some i)
        × (b.vx_block_free ≡ block_size i)
  unfolding new_block
  new_block-succeeds memory i a =
      let nonnull = memory (block_size i) a.store in
      let r = m.malloc (block_size i) a.store in
      let b : Arena m = record {
        store = r.1;
        vx_arena_blocks = set_block m i r.0 a.vx_arena_blocks;
        vx_current_block = some i;
        vx_block_free = block_size i;
      } in
      (b, ground (arith, nonnull), refl, refl)

  -- A state in which block `i` is the current one and has room for the remaining requests, if it is the last.
  IsOpen : ℕ → ℕ → Arena m → Type 0
  IsOpen total i a = (a.vx_current_block ≡ some i) × (i < 22) × (i ≡ 21 → total ≤ a.vx_block_free)

  next_block-eq :
      (i : ℕ) (a : Arena m)
      → a.vx_current_block ≡ some i
      → i + 1 < 22
      → next_block m a ≡ new_block m (i + 1) a
  unfolding next_block
  next_block-eq i a e l = elim-some a.vx_current_block _ _ e ∙ ground arith

  first_block-eq : (a : Arena m) → a.vx_current_block ≡ none → first_block m a ≡ new_block m 0 a
  unfolding first_block
  first_block-eq a e = elim-none a.vx_current_block _ _ e

  pub first_block-kept :
      (i : ℕ) (a : Arena m) → a.vx_current_block ≡ some i → first_block m a ≡ some a
  unfolding first_block
  first_block-kept i a e = elim-some a.vx_current_block _ _ e

  -- A state from which `n` bytes can be taken, with `rest` bytes to come.
  Roomy : ℕ → ℕ → Arena m → Type 0
  Roomy n rest a = (n ≤ a.vx_block_free) × (i : ℕ) × IsOpen (n + rest) i a

  make_room-succeeds :
      HasMemory
      → (n rest i : ℕ) (a : Arena m) → n ≤ 1024
      → n + rest ≤ 2 ^ 31
      → IsOpen (n + rest) i a
      → (b : Arena m) × (make_room m n a ≡ some b) × Roomy n rest b
  unfolding make_room IsOpen Roomy
  make_room-succeeds memory n rest i a small total (e, l, last) = elim (dec_le n a.vx_block_free) [
    | yes fits ↦ (a, ground arith, (fits, i, (e, l, last)))
    | no short ↦
        let earlier : i + 1 < 22 = not_last n rest i a.vx_block_free l last (omega arith) in
        let (b, made, now, size) = new_block-succeeds memory (i + 1) a in
        (
          b,
          ground (arith, next_block-eq i a e earlier, made),
          (
            omega (arith, size, size-at_least (i + 1) earlier),
            i + 1,
            (now, earlier, λ f. omega (arith, size, last-size (i + 1) f)),
          ),
        )
  ]

  take_room-succeeds :
      (n rest : ℕ) (a : Arena m)
      → Roomy n rest a
      → (r : ℕ × Arena m) × (take_room m n a ≡ some r) × (i : ℕ) × IsOpen rest i r.1
  unfolding take_room IsOpen Roomy
  take_room-succeeds n rest a (fits, i, (e, l, last)) = (
    (
      a.vx_arena_blocks i + block_size i - a.vx_block_free,
      record a { vx_block_free = a.vx_block_free - n },
    ),
    elim-some a.vx_current_block _ _ e ∙ ground arith,
    i,
    (e, l, λ f. omega (arith, last f)),
  )

  first_block-succeeds :
      HasMemory
      → (total : ℕ) (a : Arena m) → total ≤ 2 ^ 31
      → (a.vx_current_block ≡ none) ⊎ ((i : ℕ) × IsOpen total i a)
      → (b : Arena m) × (first_block m a ≡ some b) × (i : ℕ) × IsOpen total i b
  unfolding IsOpen
  first_block-succeeds memory total a bound (inl e) =
      let (b, made, now, size) = new_block-succeeds memory 0 a in
      (b, first_block-eq a e ∙ made, 0, (now, omega arith, λ f. absurd (omega arith)))
  first_block-succeeds memory total a bound (inr (i, o)) = (a, first_block-kept i a o.0, i, o)

  vx_Alloc-succeeds :
      HasMemory
      → (n rest : ℕ) (a : Arena m) → 0 < n
      → n ≤ 1024
      → n + rest ≤ 2 ^ 31
      → (a.vx_current_block ≡ none) ⊎ ((i : ℕ) × IsOpen (n + rest) i a)
      → (r : ℕ × Arena m) × (vx_Alloc m (pos n) a ≡ some r) × (i : ℕ) × IsOpen rest i r.1
  unfolding vx_Alloc
  vx_Alloc-succeeds memory zero rest a p small total h = absurd (omega arith)
  vx_Alloc-succeeds memory (suc n) rest a p small total h =
      let (b, begun, i, open_) = first_block-succeeds memory (suc n + rest) a total h in
      let (c, made, roomy) = make_room-succeeds memory (suc n) rest i b small total open_ in
      let (r, took, i, next) = take_room-succeeds (suc n) rest c roomy in
      (r, rw (begun, made) took, i, next)

  -- A series of requests: the pointers, and the arena after it.
  abbrev pub alloc_all : List ℕ → Arena m → Option (List ℕ × Arena m)
  alloc_all [] a = some ([], a)
  alloc_all (n ∷ ns) a = do
    (p, b) ← vx_Alloc m (pos n) a
    (ps, c) ← alloc_all ns b
    some (p ∷ ps, c)

  abbrev pub sum : List ℕ → ℕ
  sum [] = 0
  sum (n ∷ ns) = n + sum ns

  abbrev pub AreSmall : List ℕ → Type 0
  AreSmall [] = Unit
  AreSmall (n ∷ ns) = ((0 < n) × (n ≤ 1024)) × AreSmall ns

  alloc_all-succeeds :
      HasMemory
      → (ns : List ℕ) (a : Arena m) → AreSmall ns
      → sum ns ≤ 2 ^ 31
      → (a.vx_current_block ≡ none) ⊎ ((i : ℕ) × IsOpen (sum ns) i a)
      → (r : List ℕ × Arena m) × (alloc_all ns a ≡ some r)
  alloc_all-succeeds memory [] a small total h = (_, refl)
  alloc_all-succeeds memory (n ∷ ns) a (s, small) total h =
      let (r, took, i, next) = vx_Alloc-succeeds memory n (sum ns) a s.0 s.1 total h in
      let (q, rest) =
        alloc_all-succeeds memory ns r.1 small (omega (arith, total)) (inr (i, next)) in
      ((r.0 ∷ q.0, q.1), rw (took, rest) refl)

  -- Where the C library never returns a null pointer, every series of requests from 1 to 1024 bytes that come to
  -- at most 2^31 bytes is served by an arena without blocks, wherever the requests fall on block boundaries.
  pub alloc_all_lem :
      HasMemory
      → (ns : List ℕ) (a : Arena m) → a.vx_current_block ≡ none
      → AreSmall ns
      → sum ns ≤ 2 ^ 31
      → (r : List ℕ × Arena m) × (alloc_all ns a ≡ some r)
  alloc_all_lem memory ns a e small total = alloc_all-succeeds memory ns a small total (inl e)
