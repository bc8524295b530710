-- ===== src/Vex/Memory/Release.antt =====
-- `vx_FreeAll` gives every block back to the C library, the latest first, and forgets it.
use fuzzball.Prelude.{
  List, Option, [], ap, arith, inl, inr, none, refl, some, suc, zero, ℕ, ◌-◌, ◌<◌, ◌^◌, ◌∙◌, ◌∷◌,
  ◌≡◌, ◌≤◌, ◌⊎◌,
}
use fuzzball.Vex.Memory.{Allocator, Arena, free_from, set_block, vx_FreeAll}
use fuzzball.Vex.Memory.Reach.{free_from-none}

-- The pointers of the blocks from `i` down.
abbrev pub pointers : ℕ → (ℕ → ℕ) → List ℕ
pointers zero f = f 0 ∷ []
pointers (suc i) f = f (suc i) ∷ pointers i f

module _ (m : Allocator) where
  abbrev pub free_each : List ℕ → m.Store → m.Store
  free_each [] s = s
  free_each (p ∷ ps) s = free_each ps (m.free p s)

  pointers-set_block :
      (j i p : ℕ) (f : ℕ → ℕ) → j < i → pointers j (set_block m i p f) ≡ pointers j f
  pointers-set_block zero i p f l = ground arith
  pointers-set_block (suc j) i p f l = rw (pointers-set_block j i p f (omega arith)) (ground arith)

  free_from-store :
      (i : ℕ) (a : Arena m)
      → (free_from m i a).store ≡ free_each (pointers i a.vx_arena_blocks) a.store
  unfolding free_from
  free_from-store zero a = refl
  free_from-store (suc i) a =
      free_from-store i _ ∙ rw (pointers-set_block i (suc i) 0 a.vx_arena_blocks (omega arith)) refl

  -- The loop leaves the pointers above its first block as they are.
  free_from-above :
      (i j : ℕ) (a : Arena m) → i < j → (free_from m i a).vx_arena_blocks j ≡ a.vx_arena_blocks j
  unfolding free_from
  free_from-above zero j a l = ground arith
  free_from-above (suc i) j a l = free_from-above i j _ (omega arith) ∙ ground arith

  free_from-null : (i j : ℕ) (a : Arena m) → j ≤ i → (free_from m i a).vx_arena_blocks j ≡ 0
  unfolding free_from
  free_from-null zero j a l = ground arith
  free_from-null (suc i) j a l = elim (upto j i l) [
    | inl k ↦ free_from-null i j _ k
    | inr e ↦ free_from-above i j _ (omega arith) ∙ ground arith
  ]
    where
      upto : (j i : ℕ) → j ≤ suc i → (j ≤ i) ⊎ (j ≡ suc i)
      upto j i l = omega arith

  released :
      (c : Option ℕ) (i : ℕ) (a : Arena m)
      → c ≡ some i
      → (elim c as (λ c. Arena m) [ none ↦ a | some k ↦ free_from m k a ]) ≡ free_from m i a
  released c i a e = rw e refl

  -- Where block `i` is the current one, `vx_FreeAll` frees the pointers of blocks `i` to 0, each once and in
  -- this order, and it leaves the pointer of every block up to `i` null, no current block and no room.
  pub vx_FreeAll_lem :
      (i j : ℕ) (a : Arena m)
      → a.vx_current_block ≡ some i
      → j ≤ i
      → ((vx_FreeAll m a).store ≡ free_each (pointers i a.vx_arena_blocks) a.store)
        × ((vx_FreeAll m a).vx_arena_blocks j ≡ 0)
        × ((vx_FreeAll m a).vx_current_block ≡ none)
        × ((vx_FreeAll m a).vx_block_free ≡ 2 ^ 64 - 1)
  unfolding vx_FreeAll
  vx_FreeAll_lem i j a e l =
      let freed = released a.vx_current_block i a e in
      (
        ap (λ b. b.store) freed ∙ free_from-store i a,
        ap (λ b. b.vx_arena_blocks j) freed ∙ free_from-null i j a l,
        ap (λ b. b.vx_current_block) freed ∙ free_from-none m i a,
        refl,
      )
