-- ===== src/I386/Thunk/Index/Laws.antt =====
-- The places that `get_thunk_index` finds are assignments to the registers that it looks for.
use fuzzball.I386.Thunk.{contains}
use fuzzball.I386.Thunk.Index.{
  Found, copied_name, get_thunk_index, index_from, not_found, seen, seen_choice, seen_copy,
  seen_move, seen_read,
}
use fuzzball.Ir.Types.{Exp, RegT, temp}
use fuzzball.Prelude.{
  Bool, List, Option, String, [], ap, arith, false, if◌then◌else◌, leb, none, some, suc, true, ℕ,
  ◌+◌, ◌-◌, ◌∙◌, ◌∷◌, ◌≡◌, str_eq, sym, inl, inr,
}
use fuzzball.Prelude.Outcomes.{OnSome, OnSome-any, OnSome-at, OnSome-bind, OnSome-if}
use fuzzball.I386.Thunk.Laws.{decided}
use fuzzball.Stmt.{Stmt, move}
use fuzzball.Vex.Ite.{at, match_ite}

-- The statement with the number assigns to a register with the name in its own.
abbrev pub Assigns : List Stmt → String → ℕ → Type 0
Assigns ir part i =
    (w : RegT) × (n : String) × (r : Exp) × (at ir i ≡ some (move (temp w n) r))
    × (contains n part ≡ true)

pub record AreAssigned (ir : List Stmt) (f : Found) : Type 0 where
  pub at_dep1 : OnSome (Assigns ir "CC_DEP1") f.dep1
  pub at_dep2 : OnSome (Assigns ir "CC_DEP2") f.dep2
  pub at_ndep : OnSome (Assigns ir "CC_NDEP") f.ndep

module _ (ir : List Stmt) where
  abbrev Inv : Found → Type 0
  Inv f = AreAssigned ir f

  -- The other fields do not matter.
  others-Inv :
      (f : Found) (o m n : Option ℕ) (c : Option String)
      → Inv f
      → Inv (record f { op = o; mux0x = m; nop = n; cc_op_copy = c })
  others-Inv f o m n c h = record { at_dep1 = h.at_dep1; at_dep2 = h.at_dep2; at_ndep = h.at_ndep }

  pick-Inv : (b : Bool) (f g : Found) → Inv f → Inv g → Inv (if b then f else g)
  pick-Inv true f g h k = h
  pick-Inv false f g h k = k

  copy-Inv : (i : ℕ) (e : Exp) (f : Found) → Inv f → Inv (seen_copy i e f)
  unfolding seen_copy
  copy-Inv i (temp w n) f h =
      elim f.cc_op_copy
        as (λ c. Inv (elim c as (λ c. Found) [
          | none ↦ f
          | some c ↦ if str_eq n c then record f { nop = some i } else f
        ])) [
          | none ↦ h
          | some c ↦
              pick-Inv (str_eq n c) (record f { nop = some i }) f
                (others-Inv f f.op f.mux0x (some i) f.cc_op_copy h) h
        ]
  copy-Inv i _ f h = h

  read-Inv : (n : String) (e : Exp) (f : Found) → Inv f → Inv (seen_read n e f)
  unfolding seen_read
  read-Inv n (temp w m) f h =
      pick-Inv (contains m "CC_OP") (record f { cc_op_copy = some n }) f
        (others-Inv f f.op f.mux0x f.nop (some n) h) h
  read-Inv n _ f h = h

  choice-Inv : (i : ℕ) (e : Exp) (f : Found) → Inv f → OnSome Inv (seen_choice ir i e f)
  unfolding seen_choice
  choice-Inv i e f h =
      OnSome-if Inv _ _ (leb 2 i)
        (OnSome-bind (λ m. Unit {0}) Inv _ (match_ite ir (i - 2)) (OnSome-any _)
          λ m u.
            OnSome-bind (λ s. Unit {0}) Inv _ (at ir (i - 1)) (OnSome-any _)
              λ s v.
                elim m
                  as (λ m. Inv (elim m as (λ m. Found) [
                    | none ↦ f
                    | some x ↦
                        if copied_name e s
                        then record f { op = some (i - 2); mux0x = some (i - 2) }
                        else f
                  ])) [
                    | none ↦ h
                    | some x ↦
                        pick-Inv (copied_name e s)
                          (record f { op = some (i - 2); mux0x = some (i - 2) }) f
                          (others-Inv f (some (i - 2)) (some (i - 2)) f.nop f.cc_op_copy h) h
                  ])
        h

  move-Inv :
      (i : ℕ) (w : RegT) (n : String) (e : Exp) (f : Found)
      → at ir i ≡ some (move (temp w n) e)
      → Inv f
      → OnSome Inv (seen_move ir i n e f)
  unfolding seen_move
  move-Inv i w n e f here h = elim (decided (contains n "CC_OP")) [
    | inl y ↦ rw y (
        OnSome-bind Inv Inv _ _
          (choice-Inv i e (record f { op = some i })
            (others-Inv f (some i) f.mux0x f.nop f.cc_op_copy h))
          λ g k. copy-Inv i e g k)
    | inr no_op ↦ rw no_op (elim (decided (contains n "CC_DEP1")) [
      | inl y ↦
          rw y (record { at_dep1 = (w, n, e, here, y); at_dep2 = h.at_dep2; at_ndep = h.at_ndep })
      | inr no_1 ↦ rw no_1 (elim (decided (contains n "CC_DEP2")) [
        | inl y ↦
            rw y (record { at_dep1 = h.at_dep1; at_dep2 = (w, n, e, here, y); at_ndep = h.at_ndep })
        | inr no_2 ↦ rw no_2 (elim (decided (contains n "CC_NDEP")) [
          | inl y ↦
              rw y
                (record { at_dep1 = h.at_dep1; at_dep2 = h.at_dep2; at_ndep = (w, n, e, here, y) })
          | inr no_3 ↦ rw no_3 (read-Inv n e f h)
        ])
      ])
    ])
  ]

  seen-Inv : (i : ℕ) (s : Stmt) (f : Found) → at ir i ≡ some s → Inv f → OnSome Inv (seen ir i s f)
  unfolding seen
  seen-Inv i (move (temp w n) e) f here h = move-Inv i w n e f here h
  seen-Inv i _ f here h = h

  index-Inv :
      (i : ℕ) (ss : List Stmt) (f : Found)
      → ((j : ℕ) → at ir (i + j) ≡ at ss j)
      → Inv f
      → OnSome Inv (index_from ir i ss f)
  unfolding index_from
  index-Inv i [] f rest h = h
  index-Inv i (s ∷ ss) f rest h =
      let here : i + 0 ≡ i = omega arith in
      OnSome-bind Inv Inv _ (seen ir i s f) (seen-Inv i s f (ap (at ir) (sym here) ∙ rest 0) h)
        λ g k.
          index-Inv (i + 1) ss g
            (λ j. let next : i + 1 + j ≡ i + suc j = omega arith in ap (at ir) next ∙ rest (suc j))
            k

none-AreAssigned : (ir : List Stmt) → AreAssigned ir not_found
none-AreAssigned ir = record { at_dep1 = tt; at_dep2 = tt; at_ndep = tt }

-- Where `get_thunk_index` ends without an exception, each place that it gives for an operand of the flags thunk is
-- in the vector and holds an assignment to a variable with the name of that operand in its own.
pub get_thunk_index_lem :
    (ir : List Stmt) (f : Found) → get_thunk_index ir ≡ some f → AreAssigned ir f
unfolding get_thunk_index
get_thunk_index_lem ir f e =
    OnSome-at (AreAssigned ir) e
      (index-Inv ir 0 ir not_found (λ j. ap (at ir) (omega arith)) (none-AreAssigned ir))
