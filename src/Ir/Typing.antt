-- ===== src/Ir/Typing.antt =====
-- The types that the translator reads off an expression (`get_exp_type` and `get_exp_type_from_cast` of
-- libasmir/src/vex/irtoir.cpp). An expression without one makes the source panic, which is `none`.
use fuzzball.Ir.Eval.{Env, Val, eval, val, apply_cast}
use fuzzball.Ir.Types.{
  CastT, Exp, RegT, cast, constant, reg_to_bits, temp, cast_high, cast_low, cast_signed,
  cast_unsigned,
}
use fuzzball.Prelude.{Option, String, leb, ◌⊎◌, inl, inr, none, refl, some, ℕ, ◌≡◌}
use fuzzball.Prelude.Outcomes.{OnSome, OnSome-any, OnSome-at, OnSome-bind, OnSome-when}

unfoldable pub get_exp_type : Exp → Option RegT
get_exp_type (temp t n) = some t
get_exp_type (constant t v) = some t
get_exp_type _ = none

-- The argument is a cast.
unfoldable pub get_exp_type_from_cast : Exp → Option RegT
get_exp_type_from_cast (cast e t c) = some t
get_exp_type_from_cast _ = none

abbrev pub type_of : Val → RegT
type_of (val t x) = t

-- The value, where there is one, is of the type.
abbrev pub HasType : Env → RegT → Exp → Type 0
HasType env t e = OnSome (λ v. type_of v ≡ t) (eval env e)

apply_cast-type : (c : CastT) (t : RegT) (v : Val) → OnSome (λ w. type_of w ≡ t) (apply_cast c t v)
apply_cast-type cast_unsigned t (val u x) =
    OnSome-when _ _ (leb (reg_to_bits u) (reg_to_bits t)) λ e. refl
apply_cast-type cast_signed t (val u x) =
    OnSome-when _ _ (leb (reg_to_bits u) (reg_to_bits t)) λ e. refl
apply_cast-type cast_high t (val u x) =
    OnSome-when _ _ (leb (reg_to_bits t) (reg_to_bits u)) λ e. refl
apply_cast-type cast_low t (val u x) =
    OnSome-when _ _ (leb (reg_to_bits t) (reg_to_bits u)) λ e. refl

pub cast-HasType : (env : Env) (e : Exp) (t : RegT) (c : CastT) → HasType env t (cast e t c)
unfolding eval
cast-HasType env e t c =
    OnSome-bind (λ a. Unit {0}) _ (apply_cast c t) (eval env e) (OnSome-any (eval env e))
      λ v u. apply_cast-type c t v

pub temp-HasType : (env : Env) (n : String) (t : RegT) → HasType env t (temp t n)
unfolding eval
temp-HasType env n t = refl

get_exp_type-HasType : (env : Env) (e : Exp) → OnSome (λ t. HasType env t e) (get_exp_type e)
unfolding get_exp_type eval
get_exp_type-HasType env (temp t n) = refl
get_exp_type-HasType env (constant t v) = refl
get_exp_type-HasType env _ = tt

get_exp_type_from_cast-HasType :
    (env : Env) (e : Exp) → OnSome (λ t. HasType env t e) (get_exp_type_from_cast e)
unfolding get_exp_type_from_cast
get_exp_type_from_cast-HasType env (cast e t c) = cast-HasType env e t c
get_exp_type_from_cast-HasType env _ = tt

-- The type that `get_exp_type` or `get_exp_type_from_cast` gives for an expression is the type of its value.
pub get_exp_type_lem :
    (env : Env) (e : Exp) (t u : RegT) (x : ℕ)
    → (get_exp_type e ≡ some t) ⊎ (get_exp_type_from_cast e ≡ some t)
    → eval env e ≡ some (val u x)
    → u ≡ t
get_exp_type_lem env e t u x (inl h) k =
    OnSome-at _ k (OnSome-at (λ t. HasType env t e) h (get_exp_type-HasType env e))
get_exp_type_lem env e t u x (inr h) k =
    OnSome-at _ k (OnSome-at (λ t. HasType env t e) h (get_exp_type_from_cast-HasType env e))
