-- ===== src/I386/Thunk/Laws.antt =====
-- What `del_put_thunk` finds in a list of statements.
use fuzzball.I386.Thunk.{del_put_thunk, is_put, put_end}
use fuzzball.Prelude.{
  Bool, List, Option, [], ap, arith, false, inl, inr, none, refl, some, suc, true, ℕ, ◌+◌, ◌∙◌, ◌∷◌,
  ◌≡◌, ◌⊎◌,
}
use fuzzball.Prelude.Int.{pos, ℤ}
use fuzzball.Stmt.{Stmt}

pub data HasNo (test : Stmt → Bool) : List Stmt → Type 0 where
  nothing : HasNo test []
  another : {s : Stmt} {ir : List Stmt} → test s ≡ false → HasNo test ir → HasNo test (s ∷ ir)

-- The statement with the number `i` passes the test, and no later one does.
pub data IsLast (test : Stmt → Bool) : List Stmt → ℕ → Type 0 where
  here : {s : Stmt} {ir : List Stmt} → test s ≡ true → HasNo test ir → IsLast test (s ∷ ir) 0
  later : {s : Stmt} {ir : List Stmt} {i : ℕ} → IsLast test ir i → IsLast test (s ∷ ir) (suc i)

pub decided : (b : Bool) → (b ≡ true) ⊎ (b ≡ false)
decided true = inl refl
decided false = inr refl

find-IsLast : (test : Stmt → Bool) (ir : List Stmt) → HasNo test ir ⊎ ((i : ℕ) × IsLast test ir i)
find-IsLast test [] = inl nothing
find-IsLast test (s ∷ ir) = elim (find-IsLast test ir) [
  | inl none_after ↦ elim (decided (test s)) [
    | inl yes_ ↦ inr (0, here yes_ none_after)
    | inr no_ ↦ inl (another no_ none_after)
  ]
  | inr (i, found) ↦ inr (suc i, later found)
]

put_end-none :
    (len : ℕ) (end : Option ℕ) (ir : List Stmt) → HasNo is_put ir → put_end len end ir ≡ end
unfolding put_end
put_end-none len end [] nothing = refl
put_end-none len end (s ∷ ir) (another e h) = rw e (put_end-none (len + 1) end ir h)

put_end-last :
    {i : ℕ} {ir : List Stmt} (len : ℕ) (end : Option ℕ)
    → IsLast is_put ir i
    → put_end len end ir ≡ some (len + i + 1)
unfolding put_end
put_end-last len end (here {s} {ir} e h) =
    let place : len + 1 ≡ len + 0 + 1 = omega arith in
    rw e (put_end-none (len + 1) (some (len + 1)) ir h ∙ ap some place)
put_end-last len end (later {s} {ir} {i} h) = put_end-last (len + 1) _ h ∙ ap some (omega arith)

-- Called with indices that are not -1, `del_put_thunk` fails where no statement assigns to the thunk; else it
-- leaves the statements as they are and gives the place right after the last one that does.
pub del_put_thunk_lem :
    (ir : List Stmt) (opi dep1 dep2 ndep : ℕ) (mux0x : ℤ)
    → (HasNo is_put ir × (del_put_thunk ir (pos opi) (pos dep1) (pos dep2) (pos ndep) mux0x ≡ none))
      ⊎ ((i : ℕ) × IsLast is_put ir i
          × (del_put_thunk ir (pos opi) (pos dep1) (pos dep2) (pos ndep) mux0x ≡ some (i + 1, ir)))
unfolding del_put_thunk
del_put_thunk_lem ir opi dep1 dep2 ndep mux0x = elim (find-IsLast is_put ir) [
  | inl h ↦ inl (h, rw (put_end-none 0 none ir h) refl)
  | inr (i, h) ↦ inr (i, h, rw (put_end-last 0 none h) (ap (λ (n : ℕ). some (n, ir)) (omega arith)))
]
