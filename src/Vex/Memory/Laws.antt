-- ===== src/Vex/Memory/Laws.antt =====
-- The blocks of the arena, and what one request does to them and to the regions handed out before.
use fuzzball.Prelude.{
  List, [], arith, inl, inr, leb, ltb, none, refl, some, ℕ, ◌+◌, ◌-◌, ◌<◌, ◌==◌, ◌∷◌, ◌≡◌, ◌≢◌, ◌≤◌,
  ◌⊎◌,
}
use fuzzball.Prelude.Outcomes.{
  OnSome, OnSome-cases, OnSome-given, OnSome-if, OnSome-map, OnSome-unless, OnSome-when,
}
use fuzzball.Stmt.Fallible.{given}
use fuzzball.Vex.Memory.{
  Allocator, Arena, IsApart, Region, block_size, first_block, make_room, new_block, next_block,
  set_block, take_room, vx_max_blocks,
}

none_below : (j : ℕ) → ¬ (j < 0)
none_below j l = omega arith

below_or_at : (j i : ℕ) → j < i + 1 → (j < i) ⊎ (j ≡ i)
below_or_at j i h = omega arith

abbrev pub IsWithin : Region → Region → Type 0
IsWithin r b = (b.0 ≤ r.0) × (r.0 + r.1 ≤ b.0 + b.1)

abbrev pub AllAre : (Region → Type 0) → List Region → Type 0
AllAre P [] = Unit
AllAre P (r ∷ rs) = P r × AllAre P rs

pub AllAre-map :
    {P Q : Region → Type 0} (rs : List Region)
    → ((r : Region) → P r → Q r)
    → AllAre P rs
    → AllAre Q rs
AllAre-map [] f h = tt
AllAre-map (r ∷ rs) f h = (f r h.0, AllAre-map rs f h.1)

-- The regions of a list lie apart.
abbrev pub AreApart : List Region → Type 0
AreApart [] = Unit
AreApart (r ∷ rs) = AllAre (IsApart r) rs × AreApart rs

module _ (m : Allocator) where
  abbrev pub block : Arena m → ℕ → Region
  block a j = (a.vx_arena_blocks j, block_size j)

  -- The first `k` blocks are owned and lie apart.
  pub record AreBlocks (k : ℕ) (a : Arena m) : Type 0 where
    pub owned : (j : ℕ) → j < k → m.Owns a.store (block a j)
    separate : (i j : ℕ) → i < j → j < k → IsApart (block a j) (block a i)

  -- The region lies in one of the first `k` blocks.
  abbrev pub IsPlaced : ℕ → Arena m → Region → Type 0
  IsPlaced k a r = (j : ℕ) × (j < k) × IsWithin r (block a j)

  -- The region lies in an earlier block, or in the part of block `i` that is used.
  abbrev pub IsUsed : ℕ → Arena m → Region → Type 0
  IsUsed i a r =
      IsPlaced i a r
      ⊎ ((a.vx_arena_blocks i ≤ r.0)
          × (r.0 + r.1 + a.vx_block_free ≤ a.vx_arena_blocks i + block_size i))

  -- Block `i` is the current one, and what was handed out is used.
  pub record IsCurrent (rs : List Region) (i : ℕ) (a : Arena m) : Type 0 where
    pub current : a.vx_current_block ≡ some i
    few : i < vx_max_blocks
    room : a.vx_block_free ≤ block_size i
    pub blocks : AreBlocks (i + 1) a
    pub used : AllAre (IsUsed i a) rs

  set_block_here : (i p : ℕ) (f : ℕ → ℕ) → set_block m i p f i ≡ p
  set_block_here i p f = ground arith

  set_block_below : (i j p : ℕ) (f : ℕ → ℕ) → j < i → set_block m i p f j ≡ f j
  set_block_below i j p f h = ground arith

  module _ (rs : List Region) (i : ℕ) (a : Arena m) (h : AreBlocks i a) where
    abbrev grown : Arena m
    grown =
        let r = m.malloc (block_size i) a.store in
        record {
          store = r.1;
          vx_arena_blocks = set_block m i r.0 a.vx_arena_blocks;
          vx_current_block = some i;
          vx_block_free = block_size i;
        }

    grown-AreBlocks : (m.malloc (block_size i) a.store).0 ≢ 0 → AreBlocks (i + 1) grown
    grown-AreBlocks given =
        let n = block_size i in
        let p = (m.malloc n a.store).0 in
        let here = set_block_here i p a.vx_arena_blocks in
        let below = λ (j : ℕ) (l : j < i). set_block_below i j p a.vx_arena_blocks l in
        record {
          owned = λ j l. elim (below_or_at j i l) [
            | inl l' ↦ rw (below j l') (m.keeps n a.store _ (h.owned j l'))
            | inr e ↦ rw (e, here) (m.gives n a.store given)
          ];
          separate = λ j k l l'. elim (below_or_at k i l') [
            | inl l'' ↦ rw (below k l'', below j (omega arith)) (h.separate j k l l'')
            | inr e ↦
                rw (e, here, below j (omega arith))
                  (m.apart n a.store _ given (h.owned j (omega arith)))
          ];
        }

    kept-IsPlaced : (r : Region) → IsPlaced i a r → IsPlaced i grown r
    kept-IsPlaced r (j, l, w) =
        (j, l, rw (set_block_below i j (m.malloc (block_size i) a.store).0 a.vx_arena_blocks l) w)

    new_block_lem :
        i < vx_max_blocks → AllAre (IsPlaced i a) rs → OnSome (IsCurrent rs i) (new_block m i a)
    unfolding new_block
    new_block_lem few placed = OnSome-unless _ ((m.malloc (block_size i) a.store).0 == 0) λ e.
        record {
          current = refl;
          few = few;
          room = omega arith;
          blocks = grown-AreBlocks (ground arith);
          used = AllAre-map rs (λ q s. inl (kept-IsPlaced q s)) placed;
        }

  pub used-IsPlaced : (i : ℕ) (a : Arena m) (r : Region) → IsUsed i a r → IsPlaced (i + 1) a r
  used-IsPlaced i a r (inl (j, l, w)) = (j, omega arith, w)
  used-IsPlaced i a r (inr (l, u)) = (i, omega arith, (l, omega arith))

  none-AreBlocks : (a : Arena m) → AreBlocks 0 a
  none-AreBlocks a = record {
    owned = λ j l. absurd (none_below j l);
    separate = λ i j p l. absurd (none_below j l);
  }

  abbrev pub IsReady : List Region → Arena m → Type 0
  IsReady rs a = (i : ℕ) × IsCurrent rs i a

  pub first_block_lem :
      (rs : List Region) (a : Arena m)
      → (a.vx_current_block ≡ none → rs ≡ [])
      → ((i : ℕ) → a.vx_current_block ≡ some i → IsCurrent rs i a)
      → OnSome (IsReady rs) (first_block m a)
  unfolding first_block
  first_block_lem rs a fresh h =
      OnSome-cases _ a.vx_current_block _ _
        (λ e. rw (fresh e) (
          OnSome-map (IsCurrent [] 0) _ _ (new_block_lem [] 0 a (none-AreBlocks a) (omega arith) tt)
            (λ b k. (0, k))))
        (λ i e. (i, h i e))

  next_block_lem :
      (rs : List Region) (i : ℕ) (a : Arena m)
      → IsCurrent rs i a
      → OnSome (IsReady rs) (next_block m a)
  unfolding next_block
  next_block_lem rs i a h = OnSome-given _ a.vx_current_block _ h.current (
      OnSome-when _ _ (ltb (i + 1) vx_max_blocks) λ e.
        OnSome-map (IsCurrent rs (i + 1)) _ _
          (new_block_lem rs (i + 1) a h.blocks (ground arith)
            (AllAre-map rs (used-IsPlaced i a) h.used))
          (λ b k. (i + 1, k)))

  pub make_room_lem :
      (n : ℕ) (rs : List Region) (i : ℕ) (a : Arena m)
      → IsCurrent rs i a
      → OnSome (IsReady rs) (make_room m n a)
  unfolding make_room
  make_room_lem n rs i a h =
      OnSome-if _ _ _ (ltb a.vx_block_free n) (next_block_lem rs i a h) (i, h)

  less_room :
      (n i : ℕ) (a : Arena m) (r : Region)
      → IsUsed i a r
      → IsUsed i (record a { vx_block_free = a.vx_block_free - n }) r
  less_room n i a r (inl p) = inl p
  less_room n i a r (inr (l, u)) = inr (l, omega arith)

  abbrev pub Handed : ℕ → List Region → ℕ × Arena m → Type 0
  Handed n rs r = IsReady ((r.0, n) ∷ rs) r.1 × AllAre (IsApart (r.0, n)) rs

  used-IsApart :
      (i : ℕ) (a : Arena m) (n : ℕ)
      → AreBlocks (i + 1) a
      → a.vx_block_free ≤ block_size i
      → n ≤ a.vx_block_free
      → (r : Region) → IsUsed i a r
      → IsApart (a.vx_arena_blocks i + block_size i - a.vx_block_free, n) r
  used-IsApart i a n h room fits (p, k) (inl (j, l, w)) =
      let away = h.separate j i l (omega arith) in omega (arith, away, w)
  used-IsApart i a n h room fits (p, k) (inr (l, u)) = omega arith

  pub take_room_lem :
      (n : ℕ) (rs : List Region) (i : ℕ) (a : Arena m)
      → IsCurrent rs i a
      → OnSome (Handed n rs) (take_room m n a)
  unfolding take_room
  take_room_lem n rs i a h = OnSome-given _ a.vx_current_block _ h.current (
      OnSome-when _ _ (leb n a.vx_block_free) λ e.
        let fits : n ≤ a.vx_block_free = ground arith in
        (
          (
            i,
            record {
              current = h.current;
              few = h.few;
              room = omega (arith, h.room);
              blocks = record { owned = h.blocks.owned; separate = h.blocks.separate };
              used = (inr (omega (arith, h.room)), AllAre-map rs (less_room n i a) h.used);
            },
          ),
          AllAre-map rs (used-IsApart i a n h.blocks h.room fits) h.used,
        ))
