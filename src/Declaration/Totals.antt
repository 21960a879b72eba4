-- ===== src/Declaration/Totals.antt =====
-- The declared total of a declaration of backend/app/services/tax_declaration_service.py against
-- the rows of tax_declaration_items.
pub mod Owners
pub mod Runs
use Prim.Native.String.{String}
use smart_salary_india.Base.{
  ℕ, suc, ◌≡◌, refl, sym, ap, ◌∙◌, subst, ◌<◌, ◌==◌, Bool, true, false, not, none, some, List, [],
  ◌∷◌, ◌++◌, arith, Bool-cases, inl, inr, if◌then◌else◌, All, append-All, filter, update, any,
}
use smart_salary_india.Base.Int.{ℤ, pos, ◌+ℤ◌, +ℤ_zero, zero_+ℤ, +ℤ_assoc}
use smart_salary_india.Declaration.{
  TaxDeclaration, TaxDeclarationItem, DeclaredItem, VerifiedItem, is_line_of, has_item_id, new_item,
  add_items, verify_items, put, accepted, Stage, verification, draft, submitted, under_review,
  verified, rejected, frozen,
}

-- The sum of the declared amounts of a declaration's items.
unfoldable pub declared : ℕ → List TaxDeclarationItem → ℤ
declared i [] = pos 0
declared i (x ∷ xs) = if is_line_of i x then x.declared_amount +ℤ declared i xs else declared i xs

-- The id of the declaration that an item names has the property.
abbrev pub IsWithin : (ℕ → Type 0) → List TaxDeclarationItem → Type 0
IsWithin P = All λ x. P x.declaration_id

pub map-IsWithin :
    (P Q : ℕ → Type 0) (rows : List TaxDeclarationItem)
    → ((k : ℕ) → P k → Q k)
    → IsWithin P rows
    → IsWithin Q rows
map-IsWithin P Q [] f a = tt
map-IsWithin P Q (x ∷ rows) f a = (f x.declaration_id a.0, map-IsWithin P Q rows f a.1)

abbrev amount_of : ℕ → TaxDeclarationItem → ℤ
amount_of i x = if is_line_of i x then x.declared_amount else pos 0

declared-append :
    (i : ℕ) (rows : List TaxDeclarationItem) (x : TaxDeclarationItem)
    → declared i (rows ++ (x ∷ [])) ≡ declared i rows +ℤ amount_of i x
unfolding declared
declared-append i [] x = ground (arith, +ℤ_zero x.declared_amount, zero_+ℤ (amount_of i x))
declared-append i (y ∷ rows) x =
    let rest = declared-append i rows x in
    elim (Bool-cases (is_line_of i y)) [
      | inl t ↦ rw (t, rest, +ℤ_assoc y.declared_amount (declared i rows) (amount_of i x)) refl
      | inr f ↦ rw (f, rest) refl
    ]

add_own :
    (i : ℕ) (total : ℤ) (rows : List TaxDeclarationItem) (next : ℕ) (x : DeclaredItem)
    → total ≡ declared i rows
    → total +ℤ x.declared_amount ≡ declared i (rows ++ (new_item next i x ∷ []))
unfolding new_item
add_own i total rows next x e =
    let own : (i == i) ≡ true = ground arith in
    rw (declared-append i rows (new_item next i x), own, e) refl

add_other :
    (j i : ℕ) (rows : List TaxDeclarationItem) (next : ℕ) (x : DeclaredItem)
    → (i == j) ≡ false
    → declared j (rows ++ (new_item next i x ∷ [])) ≡ declared j rows
unfolding new_item
add_other j i rows next x e = rw (declared-append j rows (new_item next i x), e) (+ℤ_zero _)

new_item-within :
    (P : ℕ → Type 0) (i next : ℕ) (x : DeclaredItem) → P i → P (new_item next i x).declaration_id
unfolding new_item
new_item-within P i next x h = h

pub add_items-declared :
    (i : ℕ) (entries : List DeclaredItem) (total : ℤ) (rows : List TaxDeclarationItem) (next : ℕ)
    → total ≡ declared i rows
    → (add_items i entries total rows next).0 ≡ declared i (add_items i entries total rows next).1
unfolding add_items
add_items-declared i [] total rows next e = e
add_items-declared i (x ∷ entries) total rows next e =
    add_items-declared i entries _ _ _ (add_own i total rows next x e)

pub add_items-others :
    (j i : ℕ) (entries : List DeclaredItem) (total : ℤ) (rows : List TaxDeclarationItem) (next : ℕ)
    → (i == j) ≡ false
    → declared j (add_items i entries total rows next).1 ≡ declared j rows
unfolding add_items
add_items-others j i [] total rows next e = refl
add_items-others j i (x ∷ entries) total rows next e =
    add_items-others j i entries _ _ _ e ∙ add_other j i rows next x e

pub add_items-IsWithin :
    (P : ℕ → Type 0) (i : ℕ) (entries : List DeclaredItem) (total : ℤ)
    (rows : List TaxDeclarationItem) (next : ℕ)
    → P i
    → IsWithin P rows
    → IsWithin P (add_items i entries total rows next).1
unfolding add_items
add_items-IsWithin P i [] total rows next h b = b
add_items-IsWithin P i (x ∷ entries) total rows next h b =
    add_items-IsWithin P i entries _ _ _ h
      (append-All (λ y. P y.declaration_id) rows _ b (new_item-within P i next x h))

pub declared-delete_own :
    (i : ℕ) (rows : List TaxDeclarationItem)
    → declared i (filter (λ t. not (is_line_of i t)) rows) ≡ pos 0
unfolding declared
declared-delete_own i [] = refl
declared-delete_own i (x ∷ rows) = let rest = declared-delete_own i rows in ground arith

pub declared-delete_others :
    (j i : ℕ) (rows : List TaxDeclarationItem)
    → (i == j) ≡ false
    → declared j (filter (λ t. not (is_line_of i t)) rows) ≡ declared j rows
unfolding declared
declared-delete_others j i [] e = refl
declared-delete_others j i (x ∷ rows) e =
    let rest = declared-delete_others j i rows e in
    elim (Bool-cases (is_line_of i x)) [
      | inl t ↦ let other : is_line_of j x ≡ false = ground arith in rw (t, other) rest
      | inr f ↦ elim (Bool-cases (is_line_of j x)) [
        | inl u ↦ rw (f, u, rest) refl
        | inr u ↦ rw (f, u) rest
      ]
    ]

pub delete-IsWithin :
    (P : ℕ → Type 0) (i : ℕ) (rows : List TaxDeclarationItem)
    → IsWithin P rows
    → IsWithin P (filter (λ t. not (is_line_of i t)) rows)
delete-IsWithin P i [] b = tt
delete-IsWithin P i (x ∷ rows) b =
    let rest = delete-IsWithin P i rows b.1 in
    elim (Bool-cases (is_line_of i x)) [ inl t ↦ rw t rest | inr f ↦ rw f (b.0, rest) ]

pub declared-fresh :
    (n : ℕ) (rows : List TaxDeclarationItem) → IsWithin (λ k. k < n) rows → declared n rows ≡ pos 0
unfolding declared
declared-fresh n [] b = refl
declared-fresh n (x ∷ rows) b =
    let rest = declared-fresh n rows b.1 in
    let low = b.0 in let other : is_line_of n x ≡ false = ground arith in rw other rest

-- What a verification does to one row.
abbrev verify_row : VerifiedItem → TaxDeclarationItem → TaxDeclarationItem
verify_row v r = record r { verified_amount = v.amount; status = accepted }

update-declared :
    (j : ℕ) (v : VerifiedItem) (rows : List TaxDeclarationItem)
    → declared j (update (has_item_id v.item_id) (verify_row v) rows) ≡ declared j rows
unfolding declared
update-declared j v [] = refl
update-declared j v (x ∷ rows) =
    let rest = update-declared j v rows in
    elim (Bool-cases (has_item_id v.item_id x)) [
      | inl t ↦ rw (t, rest) refl
      | inr f ↦ rw (f, rest) refl
    ]

update-IsWithin :
    (P : ℕ → Type 0) (v : VerifiedItem) (rows : List TaxDeclarationItem)
    → IsWithin P rows
    → IsWithin P (update (has_item_id v.item_id) (verify_row v) rows)
update-IsWithin P v [] b = tt
update-IsWithin P v (x ∷ rows) b =
    let rest = update-IsWithin P v rows b.1 in
    elim (Bool-cases (has_item_id v.item_id x)) [
      | inl t ↦ rw t (b.0, rest)
      | inr f ↦ rw f (b.0, rest)
    ]

verify_items-declared :
    (j : ℕ) (vs : List VerifiedItem) (total : ℤ) (rows : List TaxDeclarationItem)
    → declared j (verify_items vs total rows).1 ≡ declared j rows
unfolding verify_items
verify_items-declared j [] total rows = refl
verify_items-declared j (v ∷ vs) total rows = elim (Bool-cases (any (has_item_id v.item_id) rows)) [
  | inl t ↦ rw t (verify_items-declared j vs _ _ ∙ update-declared j v rows)
  | inr f ↦ rw f (verify_items-declared j vs total rows)
]

verify_items-IsWithin :
    (P : ℕ → Type 0) (vs : List VerifiedItem) (total : ℤ) (rows : List TaxDeclarationItem)
    → IsWithin P rows
    → IsWithin P (verify_items vs total rows).1
unfolding verify_items
verify_items-IsWithin P [] total rows b = b
verify_items-IsWithin P (v ∷ vs) total rows b =
    elim (Bool-cases (any (has_item_id v.item_id) rows)) [
      | inl t ↦ rw t (verify_items-IsWithin P vs _ _ (update-IsWithin P v rows b))
      | inr f ↦ rw f (verify_items-IsWithin P vs total rows b)
    ]

-- A move to a stage leaves the declared amounts alone.
pub verification-declared :
    (j : ℕ) (s : Stage) (vs : List VerifiedItem) (total : ℤ) (rows : List TaxDeclarationItem)
    → declared j (verification s vs total rows).1 ≡ declared j rows
unfolding verification
verification-declared j draft vs total rows = refl
verification-declared j submitted vs total rows = refl
verification-declared j under_review vs total rows = refl
verification-declared j verified [] total rows = refl
verification-declared j verified (v ∷ vs) total rows = verify_items-declared j (v ∷ vs) _ rows
verification-declared j rejected vs total rows = refl
verification-declared j frozen vs total rows = refl

pub verification-IsWithin :
    (P : ℕ → Type 0) (s : Stage) (vs : List VerifiedItem) (total : ℤ)
    (rows : List TaxDeclarationItem)
    → IsWithin P rows
    → IsWithin P (verification s vs total rows).1
unfolding verification
verification-IsWithin P draft vs total rows b = b
verification-IsWithin P submitted vs total rows b = b
verification-IsWithin P under_review vs total rows b = b
verification-IsWithin P verified [] total rows b = b
verification-IsWithin P verified (v ∷ vs) total rows b = verify_items-IsWithin P (v ∷ vs) _ rows b
verification-IsWithin P rejected vs total rows b = b
verification-IsWithin P frozen vs total rows b = b
