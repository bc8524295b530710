-- ===== src/Tests/Arena.antt =====
-- An allocator and an arena at concrete states.
use fuzzball.Prelude.{[], arith, inr, none, refl, some, ℕ, ◌+◌, ◌-◌, ◌^◌, ◌∷◌, ◌≤◌}
use fuzzball.Vex.Memory.{
  Allocator, Arena, block_size, first_block, make_room, new_block, next_block, set_block, take_room,
  vx_Alloc,
}
use fuzzball.Vex.Memory.Reach.{Reaches, alloc, start}

-- An allocator that never reuses memory: its state is the last address in use.
abbrev pub bump : Allocator
bump = record {
  Store = ℕ;
  malloc = λ n s. (s + 1, s + 1 + n);
  free = λ p s. s;
  Owns = λ s r. r.0 + r.1 ≤ s + 1;
  gives = λ n s p. omega arith;
  keeps = λ n s r h. omega (arith, h);
  apart = λ n s r p h. inr (omega (arith, h));
}

abbrev pub no_blocks : Arena bump
no_blocks = record {
  store = 4096;
  vx_arena_blocks = λ i. 0;
  vx_current_block = none;
  vx_block_free = 2 ^ 64 - 1;
}

-- After a request of 600 bytes.
abbrev pub one_block : Arena bump
one_block = record {
  store = 5121;
  vx_arena_blocks = set_block bump 0 4097 (λ i. 0);
  vx_current_block = some 0;
  vx_block_free = 424;
}

-- After another one, for which the first block has no room.
abbrev pub two_blocks : Arena bump
two_blocks = record {
  store = 7170;
  vx_arena_blocks = set_block bump 1 5122 (set_block bump 0 4097 (λ i. 0));
  vx_current_block = some 1;
  vx_block_free = 1448;
}

pub two_requests : Reaches bump two_blocks ((5122, 600) ∷ (4097, 600) ∷ [])
unfolding vx_Alloc first_block make_room next_block new_block take_room block_size
two_requests = alloc {a = one_block} (alloc {a = no_blocks} (start no_blocks refl) refl) refl
