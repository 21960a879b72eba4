-- ===== src/Base/Seq.antt =====
-- Lists over the native numbers: Python's `len`, `next(filter)` and a stable `sorted` by a key.
use Prim.Native.Nat.{ℕ, suc, ◌+◌, ◌≤◌}
use mathlib.Core.Path.{◌≡◌, refl, ap, ap₂, ◌∙◌}
use mathlib.Core.Logic.{∥∥₁_elim}
use mathlib.Core.Bool.{Bool, false, ◌||◌}
use mathlib.Core.Option.{Option, none, some}
use mathlib.Core.List.{List, [], ◌∷◌, ◌++◌, Perm, Permᴰ}
use native.Mathlib.Nat.{ℕ_set}
use native.Mathlib.Omega.{arith}
use smart_salary_india.Base.Tests.{leb, if◌then◌else◌}

module _ {ℓ} {A : Type ℓ} where
  abbrev pub length : List A → ℕ
  length [] = 0
  length (x ∷ xs) = suc (length xs)

  pub length-append : (xs ys : List A) → length (xs ++ ys) ≡ length xs + length ys
  length-append [] ys = omega arith
  length-append (x ∷ xs) ys = omega (arith, length-append xs ys)

  abbrev pub sum : (A → ℕ) → List A → ℕ
  sum f [] = 0
  sum f (x ∷ xs) = f x + sum f xs

  pub sum-le : (f g : A → ℕ) → ((x : A) → f x ≤ g x) → (xs : List A) → sum f xs ≤ sum g xs
  sum-le f g h [] = omega arith
  sum-le f g h (x ∷ xs) = omega (arith, sum-le f g h xs, h x)

  Permᴰ-sum : (f : A → ℕ) {xs ys : List A} → Permᴰ xs ys → sum f xs ≡ sum f ys
  Permᴰ-sum f Permᴰ.nil = refl
  Permᴰ-sum f (Permᴰ.cons e p) = ap₂ (λ m n. m + n) (ap f e) (Permᴰ-sum f p)
  Permᴰ-sum f (Permᴰ.swap {l = l} e d) = rw (ap f e, ap f d) (omega arith)
  Permᴰ-sum f (Permᴰ.trans p q) = Permᴰ-sum f p ∙ Permᴰ-sum f q

  pub sum-perm : (f : A → ℕ) {xs ys : List A} → Perm xs ys → sum f xs ≡ sum f ys
  sum-perm f p = ∥∥₁_elim p (ℕ_set _ _) (Permᴰ-sum f)

  -- `next((x for x in xs if p(x)), None)`
  abbrev pub find? : (A → Bool) → List A → Option A
  find? p [] = none
  find? p (x ∷ xs) = if p x then some x else find? p xs

  abbrev pub All {κ} : (A → Type κ) → List A → Type κ
  All P [] = Unit
  All P (x ∷ xs) = P x × All P xs

  -- Insertion before the first element with a larger key, as `sorted` keeps equal keys in order
  -- when the list is taken from the right.
  abbrev pub insert_by : (A → ℕ) → A → List A → List A
  insert_by key x [] = x ∷ []
  insert_by key x (y ∷ ys) = if leb (key x) (key y) then x ∷ y ∷ ys else y ∷ insert_by key x ys

  -- `sorted(xs, key=key)`
  abbrev pub sorted : (A → ℕ) → List A → List A
  sorted key [] = []
  sorted key (x ∷ xs) = insert_by key x (sorted key xs)

  -- `[x for x in xs if p(x)]`
  abbrev pub filter : (A → Bool) → List A → List A
  filter p [] = []
  filter p (x ∷ xs) = if p x then x ∷ filter p xs else filter p xs

  -- An update of the rows that pass a test.
  abbrev pub update : (A → Bool) → (A → A) → List A → List A
  update p f [] = []
  update p f (x ∷ xs) = (if p x then f x else x) ∷ update p f xs

  -- `any(p(x) for x in xs)`
  abbrev pub any : (A → Bool) → List A → Bool
  any p [] = false
  any p (x ∷ xs) = p x || any p xs

  -- A stable order by a descending key.
  abbrev pub insert_desc : (A → ℕ) → A → List A → List A
  insert_desc key x [] = x ∷ []
  insert_desc key x (y ∷ ys) = if leb (key y) (key x) then x ∷ y ∷ ys else y ∷ insert_desc key x ys

  abbrev pub sorted_desc : (A → ℕ) → List A → List A
  sorted_desc key [] = []
  sorted_desc key (x ∷ xs) = insert_desc key x (sorted_desc key xs)

  pub any-append : (p : A → Bool) (xs : List A) (y : A) → any p (xs ++ (y ∷ [])) ≡ (any p xs || p y)
  any-append p [] y = ground arith
  any-append p (x ∷ xs) y = ground (arith, any-append p xs y)

  pub append-All {κ} :
      (P : A → Type κ) (xs : List A) (y : A) → All P xs → P y → All P (xs ++ (y ∷ []))
  append-All P [] y a h = (h, tt)
  append-All P (x ∷ xs) y a h = (a.0, append-All P xs y a.1 h)
