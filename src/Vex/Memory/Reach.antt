-- ===== src/Vex/Memory/Reach.antt =====
-- The arena over any run of calls: the memory handed out since the last `vx_FreeAll` lies in owned blocks, and
-- no two regions of it overlap.
use mathlib.Core.Option.{some-injective, none-ne-some}
use fuzzball.Prelude.{List, Option, [], none, refl, some, suc, sym, zero, ℕ, ◌∙◌, ◌∷◌, ◌≡◌}
use fuzzball.Prelude.Int.{pos}
use fuzzball.Prelude.Outcomes.{OnSome, OnSome-at, OnSome-bind}
use fuzzball.Vex.Memory.{Allocator, Arena, Region, free_from, vx_Alloc, vx_FreeAll}
use fuzzball.Vex.Memory.Laws.{
  AllAre, AllAre-map, AreApart, Handed, IsCurrent, IsReady, IsUsed, IsWithin, block,
  first_block_lem, make_room_lem, take_room_lem, used-IsPlaced,
}

module _ (m : Allocator) where
  -- The states that calls lead to, with the regions handed out since all was freed, the latest first.
  pub data Reaches : Arena m → List Region → Type 0 where
    start : (a : Arena m) → a.vx_current_block ≡ none → Reaches a []
    alloc :
        {a b : Arena m} {rs : List Region} {n p : ℕ}
        → Reaches a rs
        → vx_Alloc m (pos n) a ≡ some (p, b)
        → Reaches b ((p, n) ∷ rs)
    free_all : {a : Arena m} {rs : List Region} → Reaches a rs → Reaches (vx_FreeAll m a) []

  -- The invariant of the arena and the regions handed out.
  pub record IsSound (a : Arena m) (rs : List Region) : Type 0 where
    fresh : a.vx_current_block ≡ none → rs ≡ []
    ready : (i : ℕ) → a.vx_current_block ≡ some i → IsCurrent m rs i a
    distinct : AreApart rs

  vx_Alloc_lem :
      (n : ℕ) (rs : List Region) (a : Arena m)
      → IsSound a rs
      → OnSome (Handed m n rs) (vx_Alloc m (pos n) a)
  unfolding vx_Alloc
  vx_Alloc_lem zero rs a h = tt
  vx_Alloc_lem (suc n) rs a h =
      OnSome-bind (IsReady m rs) _ _ _ (first_block_lem m rs a h.fresh h.ready) λ b k.
        OnSome-bind (IsReady m rs) _ _ _ (make_room_lem m (suc n) rs k.0 b k.1)
          λ c l. take_room_lem m (suc n) rs l.0 c l.1

  pub free_from-none : (i : ℕ) (a : Arena m) → (free_from m i a).vx_current_block ≡ none
  unfolding free_from
  free_from-none zero a = refl
  free_from-none (suc i) a = free_from-none i _

  stopped :
      (c : Option ℕ) (a : Arena m)
      → a.vx_current_block ≡ c
      → (elim c as (λ c. Arena m) [ none ↦ a | some i ↦ free_from m i a ]).vx_current_block ≡ none
  stopped none a e = e
  stopped (some i) a e = free_from-none i a

  vx_FreeAll-none : (a : Arena m) → (vx_FreeAll m a).vx_current_block ≡ none
  unfolding vx_FreeAll
  vx_FreeAll-none a = stopped a.vx_current_block a refl

  idle-IsSound : (a : Arena m) → a.vx_current_block ≡ none → IsSound a []
  idle-IsSound a e = record {
    fresh = λ f. refl;
    ready = λ i f. absurd (none-ne-some i (sym e ∙ f));
    distinct = tt;
  }

  current-IsSound :
      (i : ℕ) (rs : List Region) (a : Arena m) → IsCurrent m rs i a → AreApart rs → IsSound a rs
  current-IsSound i rs a h apart = record {
    fresh = λ f. absurd (none-ne-some i (sym f ∙ h.current));
    ready = λ j f. rw (some-injective _ _ (sym f ∙ h.current)) h;
    distinct = apart;
  }

  pub Reaches-IsSound : {a : Arena m} {rs : List Region} → Reaches a rs → IsSound a rs
  Reaches-IsSound (start a e) = idle-IsSound a e
  Reaches-IsSound (alloc {a} {b} {rs} {n} {p} r e) =
      let sound = Reaches-IsSound r in
      let got = OnSome-at (Handed m n rs) e (vx_Alloc_lem n rs a sound) in
      current-IsSound got.0.0 ((p, n) ∷ rs) b got.0.1 (got.1, sound.distinct)
  Reaches-IsSound (free_all {a} r) = idle-IsSound (vx_FreeAll m a) (vx_FreeAll-none a)

  -- Whatever the order of calls of `vx_Alloc` and `vx_FreeAll` from an empty arena, no two of the regions that
  -- `vx_Alloc` has handed out since the last `vx_FreeAll` overlap.
  pub Reaches-AreApart : {a : Arena m} {rs : List Region} → Reaches a rs → AreApart rs
  Reaches-AreApart r = (Reaches-IsSound r).distinct

  abbrev pub IsBacked : Arena m → Region → Type 0
  IsBacked a r = (j : ℕ) × m.Owns a.store (block m a j) × IsWithin r (block m a j)

  used-IsBacked :
      (rs : List Region) (i : ℕ) (a : Arena m)
      → IsCurrent m rs i a
      → (r : Region) → IsUsed m i a r
      → IsBacked a r
  used-IsBacked rs i a h r u = let p = used-IsPlaced m i a r u in (p.0, h.blocks.owned p.0 p.1, p.2)

  sound-IsBacked :
      (c : Option ℕ) (a : Arena m) (rs : List Region)
      → a.vx_current_block ≡ c
      → IsSound a rs
      → AllAre (IsBacked a) rs
  sound-IsBacked none a rs e h = rw (h.fresh e) tt
  sound-IsBacked (some i) a rs e h =
      let k = h.ready i e in AllAre-map rs (used-IsBacked rs i a k) k.used

  -- Whatever the order of calls from an empty arena, every region handed out since the last `vx_FreeAll` lies
  -- within one block of the arena that the C library still owns.
  pub Reaches-IsBacked : {a : Arena m} {rs : List Region} → Reaches a rs → AllAre (IsBacked a) rs
  Reaches-IsBacked {a = a} {rs = rs} r =
      sound-IsBacked a.vx_current_block a rs refl (Reaches-IsSound r)
