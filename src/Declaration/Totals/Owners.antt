-- ===== src/Declaration/Totals/Owners.antt =====
-- The declarations that the items of backend/app/services/tax_declaration_service.py name.
use smart_salary_india.Base.{
  ℕ, suc, ◌≡◌, refl, ◌<◌, ◌==◌, Bool, true, false, any, find?, find-cons, ◌++◌, some, List, [], ◌∷◌,
  arith, Bool-cases, inl, inr,
}
use smart_salary_india.Declaration.{TaxDeclaration, TaxDeclarationItem, put, is_row}
use smart_salary_india.Declaration.Rows.{Ids, Ids-le}
use smart_salary_india.Declaration.Totals.{IsWithin}

-- There is a row with the id.
abbrev pub HasRow : List TaxDeclaration → ℕ → Type 0
HasRow rows k = any (is_row k) rows ≡ true

-- Every item names a declaration that is there.
abbrev pub IsOwned : List TaxDeclaration → List TaxDeclarationItem → Type 0
IsOwned rows = IsWithin (HasRow rows)

pub put-HasRow :
    (d : TaxDeclaration) (rows : List TaxDeclaration) (k : ℕ)
    → HasRow rows k
    → HasRow (put d rows) k
put-HasRow d [] k h = cc
put-HasRow d (x ∷ rows) k h = elim (Bool-cases (x.id == k)) [
  | inl t ↦ elim (Bool-cases (x.id == d.id)) [
    | inl u ↦ let own : (d.id == k) ≡ true = ground arith in rw (u, own) refl
    | inr v ↦ rw (v, t) refl
  ]
  | inr f ↦
      let rest = put-HasRow d rows k (rw f at h) in
      elim (Bool-cases (x.id == d.id)) [
        | inl u ↦ let other : (d.id == k) ≡ false = ground arith in rw (u, other) rest
        | inr v ↦ rw (v, f) rest
      ]
]

pub append-HasRow :
    (d : TaxDeclaration) (rows : List TaxDeclaration) (k : ℕ)
    → HasRow rows k
    → HasRow (rows ++ (d ∷ [])) k
append-HasRow d [] k h = cc
append-HasRow d (x ∷ rows) k h = elim (Bool-cases (x.id == k)) [
  | inl t ↦ rw t refl
  | inr f ↦ rw f (append-HasRow d rows k (rw f at h))
]

pub last-HasRow : (d : TaxDeclaration) (rows : List TaxDeclaration) → HasRow (rows ++ (d ∷ [])) d.id
last-HasRow d [] = let own : (d.id == d.id) ≡ true = ground arith in rw own refl
last-HasRow d (x ∷ rows) = elim (Bool-cases (x.id == d.id)) [
  | inl t ↦ rw t refl
  | inr f ↦ rw f (last-HasRow d rows)
]

pub found-HasRow :
    (p : TaxDeclaration → Bool) (rows : List TaxDeclaration) {d : TaxDeclaration}
    → find? p rows ≡ some d
    → HasRow rows d.id
found-HasRow p [] e = cc
found-HasRow p (x ∷ rows) {d} e = elim (find-cons p x rows e) [
  | inl (t, same) ↦ let own : (x.id == d.id) ≡ true = rw same (ground arith) in rw own refl
  | inr (f, found) ↦ elim (Bool-cases (x.id == d.id)) [
    | inl u ↦ rw u refl
    | inr v ↦ rw v (found-HasRow p rows found)
  ]
]

pub HasRow-lt :
    (lo hi : ℕ) (rows : List TaxDeclaration) (k : ℕ) → Ids lo rows hi → HasRow rows k → k < hi
HasRow-lt lo hi [] k h r = cc
HasRow-lt lo hi (x ∷ rows) k h r = elim (Bool-cases (x.id == k)) [
  | inl t ↦ let above = Ids-le (suc x.id) hi rows h.1 in ground arith
  | inr f ↦ HasRow-lt (suc x.id) hi rows k h.1 (rw f at r)
]
