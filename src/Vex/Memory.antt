-- ===== src/Vex/Memory.antt =====
-- The arena that holds copies of VEX's structures (libasmir/src/vex/vexmem.cpp): blocks of doubling size,
-- which are filled one after the other and freed together. A failed assertion is `none`.
pub mod Laws
pub mod Reach
pub mod Refuse
pub mod Release
pub mod Capacity
use fuzzball.Prelude.{
  Option, if◌then◌else◌, leb, ltb, none, some, suc, zero, ℕ, ◌%◌, ◌*◌, ◌+◌, ◌-◌, ◌==◌, ◌>>=◌, ◌^◌,
  ◌≢◌, ◌≤◌, ◌⊎◌,
}
use fuzzball.Prelude.Int.{negsuc, pos, ℤ}

-- A range of addresses: its start and its size.
abbrev pub Region : Type 0
Region = ℕ × ℕ

abbrev pub IsApart : Region → Region → Type 0
IsApart (p, n) (q, m) = (p + n ≤ q) ⊎ (q + m ≤ p)

-- The C library's allocator, a parameter: a null pointer is 0, and a block that it gives lies apart from
-- every block that it gave before and that is still owned.
pub record Allocator : Type 1 where
  pub Store : Type 0
  pub malloc : ℕ → Store → ℕ × Store
  pub free : ℕ → Store → Store
  pub Owns : Store → Region → Type 0
  pub gives : (n : ℕ) (s : Store) → (malloc n s).0 ≢ 0 → Owns (malloc n s).1 ((malloc n s).0, n)
  pub keeps : (n : ℕ) (s : Store) (r : Region) → Owns s r → Owns (malloc n s).1 r
  pub apart :
      (n : ℕ) (s : Store) (r : Region)
      → (malloc n s).0 ≢ 0
      → Owns s r
      → IsApart ((malloc n s).0, n) r

abbrev pub vx_first_block_size : ℕ
vx_first_block_size = 1024

abbrev pub vx_max_blocks : ℕ
vx_max_blocks = 22

-- `vx_first_block_size << i` as an unsigned 64-bit number.
unfoldable pub block_size : ℕ → ℕ
block_size i = vx_first_block_size * 2 ^ i % 2 ^ 64

module _ (m : Allocator) where
  -- The static variables. `vx_current_block` is `none` where the source has -1.
  pub record Arena : Type 0 where
    pub store : m.Store
    pub vx_arena_blocks : ℕ → ℕ
    pub vx_current_block : Option ℕ
    pub vx_block_free : ℕ

  abbrev pub set_block : ℕ → ℕ → (ℕ → ℕ) → ℕ → ℕ
  set_block i p blocks j = if i == j then p else blocks j

  -- A new block becomes the current one, unless the allocator has no memory.
  unfoldable pub new_block : ℕ → Arena → Option Arena
  new_block i a =
      let r = m.malloc (block_size i) a.store in
      if r.0 == 0
      then none
      else some (record {
        store = r.1;
        vx_arena_blocks = set_block i r.0 a.vx_arena_blocks;
        vx_current_block = some i;
        vx_block_free = block_size i;
      })

  -- The first block is made at the first request.
  unfoldable pub first_block : Arena → Option Arena
  first_block a = elim a.vx_current_block [ none ↦ new_block 0 a | some i ↦ some a ]

  -- The block after the current one.
  unfoldable pub next_block : Arena → Option Arena
  next_block a = elim a.vx_current_block [
    | none ↦ none
    | some i ↦ if ltb (i + 1) vx_max_blocks then new_block (i + 1) a else none
  ]

  unfoldable pub make_room : ℕ → Arena → Option Arena
  make_room n a = if ltb a.vx_block_free n then next_block a else some a

  -- The next `n` bytes of the current block.
  unfoldable pub take_room : ℕ → Arena → Option (ℕ × Arena)
  take_room n a = elim a.vx_current_block [
    | none ↦ none
    | some i ↦
        if leb n a.vx_block_free
        then some (
          a.vx_arena_blocks i + block_size i - a.vx_block_free,
          record a { vx_block_free = a.vx_block_free - n },
        )
        else none
  ]

  unfoldable pub vx_Alloc : ℤ → Arena → Option (ℕ × Arena)
  vx_Alloc (negsuc n) a = none
  vx_Alloc (pos zero) a = none
  vx_Alloc (pos (suc n)) a = do b ← first_block a; c ← make_room (suc n) b; take_room (suc n) c

  -- The loop of `vx_FreeAll`, from block `i` down.
  unfoldable pub free_from : ℕ → Arena → Arena
  free_from zero a = record a {
    store = m.free (a.vx_arena_blocks 0) a.store;
    vx_arena_blocks = set_block 0 0 a.vx_arena_blocks;
    vx_current_block = none;
  }
  free_from (suc i) a = free_from i (record a {
    store = m.free (a.vx_arena_blocks (suc i)) a.store;
    vx_arena_blocks = set_block (suc i) 0 a.vx_arena_blocks;
    vx_current_block = some i;
  })

  unfoldable pub vx_FreeAll : Arena → Arena
  vx_FreeAll a =
      let b : Arena = elim a.vx_current_block [ none ↦ a | some i ↦ free_from i a ] in
      record b { vx_block_free = 2 ^ 64 - 1 }
