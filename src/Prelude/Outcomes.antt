-- ===== src/Prelude/Outcomes.antt =====
-- What holds of a result that may be missing, built up along the tests and calls that make it.
use mathlib.Core.Path.{◌≡◌, refl}
use mathlib.Core.Bool.{Bool, true, false}
use mathlib.Core.Option.{Option, none, some}
use fuzzball.Prelude.Tests.{if◌then◌else◌, ◌>>=◌}

-- What holds of the result, where there is one.
abbrev pub OnSome {ℓ κ} : {A : Type ℓ} → (A → Type κ) → Option A → Type κ
OnSome P none = Unit
OnSome P (some a) = P a

pub OnSome-bind {ℓ κ λ' μ} :
    {A : Type ℓ} {B : Type λ'} (P : A → Type κ) (Q : B → Type μ) (f : A → Option B) (r : Option A)
    → OnSome P r
    → ((a : A) → P a → OnSome Q (f a))
    → OnSome Q (r >>= f)
OnSome-bind P Q f none h k = tt
OnSome-bind P Q f (some a) h k = k a h

pub OnSome-unless {ℓ κ} :
    {A : Type ℓ} (P : A → Type κ) {a : A} (b : Bool)
    → (b ≡ false → P a)
    → OnSome P (if b then none else some a)
OnSome-unless P true h = tt
OnSome-unless P false h = h refl

pub OnSome-when {ℓ κ} :
    {A : Type ℓ} (P : A → Type κ) (r : Option A) (b : Bool)
    → (b ≡ true → OnSome P r)
    → OnSome P (if b then r else none)
OnSome-when P r true h = h refl
OnSome-when P r false h = tt

pub OnSome-if {ℓ κ} :
    {A : Type ℓ} (P : A → Type κ) (q r : Option A) (b : Bool)
    → OnSome P q
    → OnSome P r
    → OnSome P (if b then q else r)
OnSome-if P q r true h k = h
OnSome-if P q r false h k = k

pub OnSome-map {ℓ κ μ} :
    {A : Type ℓ} (P : A → Type κ) (Q : A → Type μ) (r : Option A)
    → OnSome P r
    → ((a : A) → P a → Q a)
    → OnSome Q r
OnSome-map P Q none h f = tt
OnSome-map P Q (some a) h f = f a h

pub OnSome-given {ℓ κ λ'} :
    {A : Type ℓ} {B : Type λ'} (P : B → Type κ) {a : A} (c : Option A) (f : A → Option B)
    → c ≡ some a
    → OnSome P (f a)
    → OnSome P (elim c [ none ↦ none | some x ↦ f x ])
OnSome-given P c f e h = rw e h

pub OnSome-cases {ℓ κ λ'} :
    {A : Type ℓ} {B : Type λ'} (P : B → Type κ) (c : Option A) (r : Option B) (f : A → Option B)
    → (c ≡ none → OnSome P r)
    → ((a : A) → c ≡ some a → OnSome P (f a))
    → OnSome P (elim c [ none ↦ r | some x ↦ f x ])
OnSome-cases P none r f h k = h refl
OnSome-cases P (some a) r f h k = k a refl

pub OnSome-at {ℓ κ} :
    {A : Type ℓ} (P : A → Type κ) {r : Option A} {a : A} → r ≡ some a → OnSome P r → P a
OnSome-at P e h = rw e at h

pub OnSome-any {ℓ} : {A : Type ℓ} (r : Option A) → OnSome (λ a. Unit {0}) r
OnSome-any none = tt
OnSome-any (some a) = tt

pub elim-some {ℓ κ} :
    {A : Type ℓ} {B : Type κ} (c : Option A) (r : B) (f : A → B) {a : A}
    → c ≡ some a
    → (elim c as (λ c. B) [ none ↦ r | some x ↦ f x ]) ≡ f a
elim-some c r f e = rw e refl

pub elim-none {ℓ κ} :
    {A : Type ℓ} {B : Type κ} (c : Option A) (r : B) (f : A → B)
    → c ≡ none
    → (elim c as (λ c. B) [ none ↦ r | some x ↦ f x ]) ≡ r
elim-none c r f e = rw e refl

pub none-of_absurd {ℓ} : {A : Type ℓ} (r : Option A) → OnSome (λ a. ⊥) r → r ≡ none
none-of_absurd none h = refl
none-of_absurd (some a) h = absurd h
