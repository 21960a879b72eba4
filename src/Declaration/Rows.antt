-- ===== src/Declaration/Rows.antt =====
-- Lemmas on the rows of tax_declarations for backend/app/services/tax_declaration_service.py.
use smart_salary_india.Base.{
  ℕ, suc, ◌≤◌, ◌<◌, ◌≡◌, refl, ◌==◌, Bool, false, Option, none, some, List, [], ◌∷◌, ◌++◌, arith,
  find?, Bool-cases, inl, inr, if◌then◌else◌, find-cons, subst, All,
}
use smart_salary_india.Declaration.{TaxDeclaration, is_row, put}

abbrev pub lookup : ℕ → List TaxDeclaration → Option TaxDeclaration
lookup i rows = find? (is_row i) rows

-- The ids ascend from the first bound, and stay below the second one, the sequence's next value.
abbrev pub Ids : ℕ → List TaxDeclaration → ℕ → Type 0
Ids lo [] hi = lo ≤ hi
Ids lo (d ∷ rows) hi = (lo ≤ d.id) × Ids (suc d.id) rows hi

pub Ids-le : (lo hi : ℕ) (rows : List TaxDeclaration) → Ids lo rows hi → lo ≤ hi
Ids-le lo hi [] h = h
Ids-le lo hi (x ∷ rows) h = let rest = Ids-le (suc x.id) hi rows h.1 in omega arith

pub find-bounds :
    (p : TaxDeclaration → Bool) (lo hi : ℕ) (rows : List TaxDeclaration) {d : TaxDeclaration}
    → Ids lo rows hi
    → find? p rows ≡ some d
    → (lo ≤ d.id) × (d.id < hi)
find-bounds p lo hi [] h e = cc
find-bounds p lo hi (x ∷ rows) {d} h e = elim (find-cons p x rows e) [
  | inl (t, same) ↦
      let above = Ids-le (suc x.id) hi rows h.1 in
      subst (λ z. (lo ≤ z.id) × (z.id < hi)) same (h.0, above)
  | inr (f, found) ↦
      let rest = find-bounds p (suc x.id) hi rows h.1 found in (omega (arith, h.0), rest.1)
]

-- A row that any query finds is the one that its id finds.
pub find-lookup :
    (p : TaxDeclaration → Bool) (lo hi : ℕ) (rows : List TaxDeclaration) {d : TaxDeclaration}
    → Ids lo rows hi
    → find? p rows ≡ some d
    → lookup d.id rows ≡ some d
find-lookup p lo hi [] h e = cc
find-lookup p lo hi (x ∷ rows) {d} h e = elim (find-cons p x rows e) [
  | inl (t, same) ↦ subst (λ z. lookup z.id (x ∷ rows) ≡ some z) same (ground arith)
  | inr (f, found) ↦
      let low = find-bounds p (suc x.id) hi rows h.1 found in
      let other : (x.id == d.id) ≡ false = ground arith in
      rw other (find-lookup p (suc x.id) hi rows h.1 found)
]

-- The row that a write changes, and that every other row stays.
abbrev pub written : Option TaxDeclaration → TaxDeclaration → Option TaxDeclaration
written none d = none
written (some _) d = some d

pub lookup-put :
    (d : TaxDeclaration) (i : ℕ) (rows : List TaxDeclaration)
    → lookup i (put d rows) ≡ (if d.id == i then written (lookup i rows) d else lookup i rows)
lookup-put d i [] = ground arith
lookup-put d i (x ∷ rows) = let rest = lookup-put d i rows in ground arith

pub put-Ids :
    (d : TaxDeclaration) (lo hi : ℕ) (rows : List TaxDeclaration)
    → Ids lo rows hi
    → Ids lo (put d rows) hi
put-Ids d lo hi [] h = h
put-Ids d lo hi (x ∷ rows) h =
    let rest = put-Ids d (suc x.id) hi rows h.1 in
    elim (Bool-cases (x.id == d.id)) [
      | inl t ↦
          let same : x.id ≡ d.id = ground arith in
          rw t (subst (λ n. (lo ≤ n) × Ids (suc n) (put d rows) hi) same (h.0, rest))
      | inr f ↦ rw f (h.0, rest)
    ]

pub append-Ids :
    (d : TaxDeclaration) (lo hi : ℕ) (rows : List TaxDeclaration)
    → d.id ≡ hi
    → Ids lo rows hi
    → Ids lo (rows ++ (d ∷ [])) (suc hi)
append-Ids d lo hi [] e h = (omega arith, omega arith)
append-Ids d lo hi (x ∷ rows) e h = (h.0, append-Ids d (suc x.id) hi rows e h.1)

-- What the id finds once a row is added at the end.
abbrev pub appended : Option TaxDeclaration → TaxDeclaration → ℕ → Option TaxDeclaration
appended none d i = if d.id == i then some d else none
appended (some x) d i = some x

pub lookup-append :
    (d : TaxDeclaration) (i : ℕ) (rows : List TaxDeclaration)
    → lookup i (rows ++ (d ∷ [])) ≡ appended (lookup i rows) d i
lookup-append d i [] = refl
lookup-append d i (x ∷ rows) = let rest = lookup-append d i rows in ground arith

pub lookup-fresh : (lo hi : ℕ) (rows : List TaxDeclaration) → Ids lo rows hi → lookup hi rows ≡ none
lookup-fresh lo hi [] h = refl
lookup-fresh lo hi (x ∷ rows) h =
    let above = Ids-le (suc x.id) hi rows h.1 in
    let other : (x.id == hi) ≡ false = ground arith in
    rw other (lookup-fresh (suc x.id) hi rows h.1)

pub put-All {ℓ} :
    (P : TaxDeclaration → Type ℓ) (d : TaxDeclaration) (rows : List TaxDeclaration)
    → P d
    → All P rows
    → All P (put d rows)
put-All P d [] h a = tt
put-All P d (x ∷ rows) h a =
    let rest = put-All P d rows h a.1 in
    elim (Bool-cases (x.id == d.id)) [ inl t ↦ rw t (h, rest) | inr f ↦ rw f (a.0, rest) ]
