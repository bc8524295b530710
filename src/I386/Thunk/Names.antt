-- ===== src/I386/Thunk/Names.antt =====
-- What it means that a name contains the name of a register of the flags thunk: `string::find` of
-- libasmir/src/vex/irtoir-i386.cpp against the parts of the name.
use Prim.Native.Char.{code, len_utf8}
use Prim.Native.String.append
use Prim.Native.String.find as find_laws
use Prim.Native.String.len as len_laws
use Prim.Native.String.{[], begins, find, len, same, ◌++◌, ◌∷◌}
use mathlib.Core.Bool.{false≢true}
use text.Mathlib.TextFind.{begins_cases, find_cases}
use text.Mathlib.TextPositions.{compare_self}
use fuzzball.I386.Thunk.{contains}
use fuzzball.Prelude.{
  String, ap, arith, false, inl, inr, refl, sym, true, ℕ, ◌+◌, ◌<◌, ◌∙◌, ◌≡◌, ◌≤◌,
}

-- The second text stands somewhere in the first.
abbrev pub Occurs : String → String → Type 0
Occurs part n = (u : String) × (v : String) × (n ≡ u ++ (part ++ v))

begins-prefix : (t v : String) (n : ℕ) → begins (t ++ v) t 0 n ≡ 0
begins-prefix [] v n = refl
begins-prefix (d ∷ t) v n =
    ap (λ s. begins s (d ∷ t) 0 n) (append.cons d t v)
    ∙ ap (λ o. same o (begins (t ++ v) t 0 n) n) (compare_self (code d))
    ∙ begins-prefix t v n

find-begins : (s t : String) → (n : ℕ) × (find s t ≡ begins s t 0 n)
find-begins [] t = (1, find_laws.nil t)
find-begins (c ∷ s) t = (len_utf8 c + find s t, find_laws.cons c s t)

find-bound : (u t v : String) → find (u ++ (t ++ v)) t ≤ len (u ++ (t ++ v))
find-bound [] t v =
    let (n, e) = find-begins (t ++ v) t in
    let at_once : find (t ++ v) t ≡ 0 = e ∙ begins-prefix t v n in
    rw (append.nil (t ++ v), at_once) (omega arith)
find-bound (c ∷ u) t v =
    let s = u ++ (t ++ v) in
    let rest : find s t ≤ len s = find-bound u t v in
    rw (append.cons c u (t ++ v)) (elim (begins_cases (c ∷ s) t 0 (len_utf8 c + find s t)) [
      | inl hit ↦ rw (find_laws.cons c s t, hit.0) (omega arith)
      | inr miss ↦ rw (find_laws.cons c s t, miss, len_laws.cons c s) (omega arith)
    ])

contains-at : (n part : String) → find n part ≤ len n → contains n part ≡ true
contains-at n part h = ground arith

contains-bound : (n part : String) → len n < find n part → contains n part ≡ false
contains-bound n part h = ground arith

pub contains-Occurs : (n part : String) → contains n part ≡ true → Occurs part n
contains-Occurs n part e = elim (find_cases n part) [
  | inl hit ↦ (hit.0, hit.1, hit.2)
  | inr miss ↦ absurd (false≢true (sym (contains-bound n part (omega arith)) ∙ e))
]

pub Occurs-contains : (n part : String) → Occurs part n → contains n part ≡ true
Occurs-contains n part (u, v, e) =
    let bound = find-bound u part v in contains-at n part (rw e bound)
