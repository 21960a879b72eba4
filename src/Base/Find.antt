-- ===== src/Base/Find.antt =====
-- `next((x for x in xs if p(x)), None)`: what a search that finds an element says.
use mathlib.Core.Path.{◌≡◌, refl, ap, subst}
use mathlib.Core.Logic.{◌⊎◌, inl, inr}
use mathlib.Core.Bool.{Bool, true, false}
use mathlib.Core.Option.{Option, none, some}
use mathlib.Core.List.{List, [], ◌∷◌}
use smart_salary_india.Base.Seq.{find?, All}
use smart_salary_india.Base.Tests.{if◌then◌else◌}

-- The element of an option, or another one.
abbrev pub get_or {ℓ} : {A : Type ℓ} → Option A → A → A
get_or none x = x
get_or (some y) x = y

pub some_injective {ℓ} : {A : Type ℓ} {x y : A} → some x ≡ some y → x ≡ y
some_injective {x = x} e = ap (λ o. get_or o x) e

choose-found {ℓ} :
    {A : Type ℓ} (b : Bool) {x y : A} {o : Option A}
    → (if b then some y else o) ≡ some x
    → ((b ≡ true) × (y ≡ x)) ⊎ ((b ≡ false) × (o ≡ some x))
choose-found true e = inl (refl, some_injective e)
choose-found false e = inr (refl, e)

-- The element found is the first one, or it is found in the rest.
pub find-cons {ℓ} :
    {A : Type ℓ} (p : A → Bool) (y : A) (xs : List A) {x : A}
    → find? p (y ∷ xs) ≡ some x
    → ((p y ≡ true) × (y ≡ x)) ⊎ ((p y ≡ false) × (find? p xs ≡ some x))
find-cons p y xs e = choose-found (p y) e

pub find-pass {ℓ} :
    {A : Type ℓ} (p : A → Bool) (xs : List A) {x : A} → find? p xs ≡ some x → p x ≡ true
find-pass p [] e = cc
find-pass p (y ∷ xs) e = elim (find-cons p y xs e) [
  | inl (h, same) ↦ rw same at h
  | inr (h, found) ↦ find-pass p xs found
]

pub find-All {ℓ κ} :
    {A : Type ℓ} (P : A → Type κ) (p : A → Bool) (xs : List A) {x : A}
    → All P xs
    → find? p xs ≡ some x
    → P x
find-All P p [] a e = cc
find-All P p (y ∷ xs) a e = elim (find-cons p y xs e) [
  | inl (h, same) ↦ subst P same a.0
  | inr (h, found) ↦ find-All P p xs a.1 found
]
