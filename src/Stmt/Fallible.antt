-- ===== src/Stmt/Fallible.antt =====
-- Translations that emit and can fail: a failed assertion, such as that of `split_vector`, is `none`.
use fuzzball.Prelude.{Option, none, some}
use fuzzball.Stmt.{Out}
use fuzzball.Stmt.Emit.{Emit}

abbrev pub Fallible : Type 0 → Type 0
Fallible A = Out → Option (A × Out)

infixl 5 ◌>>=◌ ◌>>◌
abbrev pub ◌>>=◌ : {A B : Type 0} → Fallible A → (A → Fallible B) → Fallible B
◌>>=◌ m f o = elim (m o) [ none ↦ none | some (a, o') ↦ f a o' ]

abbrev pub ◌>>◌ : {B : Type 0} → Fallible (Unit {0}) → Fallible B → Fallible B
m >> k = m >>= λ _. k

abbrev pub pure : {A : Type 0} → A → Fallible A
pure a o = some (a, o)

-- A translation that cannot fail.
abbrev pub lift : {A : Type 0} → Emit A → Fallible A
lift m o = some (m o)

-- A value that may be missing.
abbrev pub given : {A : Type 0} → Option A → Fallible A
given none o = none
given (some a) o = some (a, o)
