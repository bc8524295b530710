-- ===== src/Vex/Memory/Refuse.antt =====
-- When the arena refuses a request that there may be memory for.
use fuzzball.Prelude.{arith, leb, ltb, none, refl, some, suc, zero, ℕ, ◌+◌, ◌<◌, ◌==◌, ◌≡◌}
use fuzzball.Prelude.Int.{pos}
use fuzzball.Prelude.Outcomes.{
  OnSome, OnSome-bind, OnSome-cases, OnSome-given, OnSome-if, OnSome-unless, OnSome-when,
  none-of_absurd,
}
use fuzzball.Vex.Memory.{
  Allocator, Arena, block_size, make_room, new_block, next_block, take_room, vx_Alloc,
  vx_max_blocks,
}
use fuzzball.Vex.Memory.Capacity.{first_block-kept}

module _ (m : Allocator) where
  IsShort : ℕ → Arena m → Type 0
  IsShort n a = a.vx_block_free < n

  take_room-short : (n : ℕ) (a : Arena m) → IsShort n a → OnSome (λ r. ⊥) (take_room m n a)
  unfolding take_room IsShort
  take_room-short n a short =
      OnSome-cases _ a.vx_current_block _ _ (λ e. tt)
        λ i e. OnSome-when _ _ (leb n a.vx_block_free) λ h. absurd (ground arith)

  new_block-IsShort :
      (n i : ℕ) (a : Arena m) → block_size i < n → OnSome (IsShort n) (new_block m i a)
  unfolding new_block IsShort
  new_block-IsShort n i a large =
      OnSome-unless _ ((m.malloc (block_size i) a.store).0 == 0) λ e. large

  make_room-IsShort :
      (n i : ℕ) (a : Arena m)
      → a.vx_current_block ≡ some i
      → a.vx_block_free < n
      → block_size (i + 1) < n
      → OnSome (IsShort n) (make_room m n a)
  unfolding make_room next_block IsShort
  make_room-IsShort n i a e short large =
      OnSome-if _ _ _ (ltb a.vx_block_free n)
        (OnSome-given _ a.vx_current_block _ e
          (OnSome-when _ _ (ltb (i + 1) vx_max_blocks) λ l. new_block-IsShort n (i + 1) a large))
        short

  -- A request fails where it is larger than the room in the current block and than the next block, even if
  -- there is memory: no later block is tried.
  pub vx_Alloc-too_large :
      (n i : ℕ) (a : Arena m)
      → a.vx_current_block ≡ some i
      → a.vx_block_free < n
      → block_size (i + 1) < n
      → vx_Alloc m (pos n) a ≡ none
  unfolding vx_Alloc
  vx_Alloc-too_large zero i a e short large = refl
  vx_Alloc-too_large (suc n) i a e short large = rw (first_block-kept m i a e) (
      none-of_absurd _ (
        OnSome-bind (IsShort (suc n)) _ _ _ (make_room-IsShort (suc n) i a e short large)
          λ b h. take_room-short (suc n) b h))
