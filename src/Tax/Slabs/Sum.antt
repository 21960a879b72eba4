-- ===== src/Tax/Slabs/Sum.antt =====
-- The slab tax of backend/app/engine/tax/slabs.py as a sum over the slabs, in any order.
use smart_salary_india.Base.{
  ℕ, ◌≡◌, refl, sym, ap, ◌∙◌, inl, inr, List, [], ◌∷◌, ◌++◌, leb, if◌then◌else◌, Bool-cases, sorted,
  insert_by,
}
use smart_salary_india.Base.Int.{ℤ, pos, ◌+ℤ◌, int_laws}
use smart_salary_india.Tax.Rules.{TaxSlabRule}
use smart_salary_india.Tax.Slabs.{SlabLine, tax_in_slab, slab_line, slab_loop, calculate_slab_tax}

-- The sum of the slabs' taxes, with no order among the slabs.
abbrev pub slab_sum : ℕ → List TaxSlabRule → ℤ
slab_sum x [] = pos 0
slab_sum x (s ∷ ss) = tax_in_slab x s +ℤ slab_sum x ss

-- The sum of the taxes that the breakdown lists.
abbrev pub line_sum : List SlabLine → ℤ
line_sum [] = pos 0
line_sum (l ∷ ls) = l.tax_in_slab +ℤ line_sum ls

step :
    (x : ℕ) (s : TaxSlabRule) (t : ℤ)
    → (if leb x s.from_amount then t else t +ℤ tax_in_slab x s) ≡ t +ℤ tax_in_slab x s
unfolding tax_in_slab
step x s t = elim (Bool-cases (leb x s.from_amount)) [
  | inl e ↦ rw e (omega int_laws)
  | inr e ↦ rw e refl
]

slab_loop-total :
    (x : ℕ) (ss : List TaxSlabRule) (t : ℤ) (ls : List SlabLine)
    → (slab_loop x ss t ls).0 ≡ t +ℤ slab_sum x ss
unfolding slab_loop
slab_loop-total x [] t ls = omega int_laws
slab_loop-total x (s ∷ ss) t ls = slab_loop-total x ss _ _ ∙ rw (step x s t) (omega int_laws)

line_sum-append : (ls ms : List SlabLine) → line_sum (ls ++ ms) ≡ line_sum ls +ℤ line_sum ms
line_sum-append [] ms = omega int_laws
line_sum-append (l ∷ ls) ms = rw (line_sum-append ls ms) (omega int_laws)

slab_loop-lines :
    (x : ℕ) (ss : List TaxSlabRule) (t : ℤ) (ls : List SlabLine)
    → line_sum (slab_loop x ss t ls).1 ≡ line_sum ls +ℤ slab_sum x ss
unfolding slab_loop slab_line
slab_loop-lines x [] t ls = omega int_laws
slab_loop-lines x (s ∷ ss) t ls =
    slab_loop-lines x ss _ _ ∙ rw (line_sum-append ls (slab_line x s ∷ [])) (omega int_laws)

slab_sum-insert_by :
    (x : ℕ) (key : TaxSlabRule → ℕ) (s : TaxSlabRule) (ss : List TaxSlabRule)
    → slab_sum x (insert_by key s ss) ≡ tax_in_slab x s +ℤ slab_sum x ss
slab_sum-insert_by x key s [] = refl
slab_sum-insert_by x key s (r ∷ ss) = elim (Bool-cases (leb (key s) (key r))) [
  | inl e ↦ rw e refl
  | inr e ↦ rw e (rw (slab_sum-insert_by x key s ss) (omega int_laws))
]

slab_sum-sorted :
    (x : ℕ) (key : TaxSlabRule → ℕ) (ss : List TaxSlabRule)
    → slab_sum x (sorted key ss) ≡ slab_sum x ss
slab_sum-sorted x key [] = refl
slab_sum-sorted x key (s ∷ ss) =
    slab_sum-insert_by x key s (sorted key ss)
    ∙ ap (λ t. tax_in_slab x s +ℤ t) (slab_sum-sorted x key ss)

-- For any slabs the total is the sum of the slabs' taxes, so it does not depend on their order,
-- and the taxes that the breakdown lists add up to it.
pub calculate_slab_tax-sum :
    (x : ℕ) (ss : List TaxSlabRule)
    → ((calculate_slab_tax x ss).0 ≡ slab_sum x ss)
      × (line_sum (calculate_slab_tax x ss).1 ≡ (calculate_slab_tax x ss).0)
unfolding calculate_slab_tax
calculate_slab_tax-sum x ss =
    let key = λ (s : TaxSlabRule). s.slab_order in
    let total = slab_loop-total x (sorted key ss) (pos 0) [] in
    let lines = slab_loop-lines x (sorted key ss) (pos 0) [] in
    let eq = slab_sum-sorted x key ss in (total ∙ rw eq (omega int_laws), lines ∙ sym total)
