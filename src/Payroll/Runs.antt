-- ===== src/Payroll/Runs.antt =====
-- A finished payroll run of backend/app/services/payroll_service.py against its rows of
-- payroll_run_items.
use Prim.Native.String.{String}
use smart_salary_india.Base.{
  ℕ, ◌<◌, ◌≡◌, refl, sym, ap, subst, Bool, true, false, not, Option, none, some, List, [], ◌∷◌,
  ◌++◌, arith, Bool-cases, inl, inr, All, filter,
}
use smart_salary_india.Salary.Service.{Database}
use smart_salary_india.Payroll.{
  PayrollPeriod, PayrollTotals, PayrollRun, PayrollRunItem, PayrollTables, PayrollResult,
  calculated, rejected, period_not_found, period_closed, run_locked, calculation_failed, LoopState,
  running, failed, is_item_of, prepare, run_or, completed, conclude_run, execute, on_run, on_period,
  calculate_payroll_run, persist, is_locked, is_closed_period, new_run,
}
use smart_salary_india.Payroll.Sums.{IsCanonical, no_totals-TotalsBalanced}
use smart_salary_india.Payroll.Items.{IsGood, IsGoodProgress, employee_loop-IsGood}

abbrev pub items_of : ℕ → PayrollTables → List PayrollRunItem
items_of i db = filter (is_item_of i) db.items

-- Every item belongs to a run that was added before.
abbrev pub IsOwned : PayrollTables → Type 0
IsOwned db = All (λ i. i.payroll_run_id < db.next_run) db.items

pub filter-append {ℓ} :
    {A : Type ℓ} (p : A → Bool) (xs ys : List A) → filter p (xs ++ ys) ≡ filter p xs ++ filter p ys
filter-append p [] ys = refl
filter-append p (x ∷ xs) ys = elim (Bool-cases (p x)) [
  | inl t ↦ rw (t, filter-append p xs ys) refl
  | inr f ↦ rw (f, filter-append p xs ys) refl
]

pub own-items :
    (i : ℕ) (items : List PayrollRunItem)
    → All (IsCanonical i) items
    → filter (is_item_of i) items ≡ items
own-items i [] h = refl
own-items i (x ∷ items) h =
    let own = h.0.0 in
    let t : is_item_of i x ≡ true = ground arith in rw (t, own-items i items h.1) refl

pub deleted-items :
    (i : ℕ) (items : List PayrollRunItem)
    → filter (is_item_of i) (filter (λ x. not (is_item_of i x)) items) ≡ []
deleted-items i [] = refl
deleted-items i (x ∷ items) = elim (Bool-cases (is_item_of i x)) [
  | inl t ↦ rw t (deleted-items i items)
  | inr f ↦ rw (f, f) (deleted-items i items)
]

pub fresh-items :
    (n : ℕ) (items : List PayrollRunItem)
    → All (λ x. x.payroll_run_id < n) items
    → filter (is_item_of n) items ≡ []
fresh-items n [] h = refl
fresh-items n (x ∷ items) h =
    let low = h.0 in let f : is_item_of n x ≡ false = ground arith in rw f (fresh-items n items h.1)

-- A run that is prepared has no items.
pub prepare-items :
    (o : Option PayrollRun) (fresh : PayrollRun) (db : PayrollTables)
    → fresh.id ≡ db.next_run
    → IsOwned db
    → items_of (run_or o fresh).id (prepare o fresh db) ≡ []
unfolding prepare
prepare-items none fresh db e h = rw e (fresh-items _ db.items h)
prepare-items (some r) fresh db e h = deleted-items r.id db.items

-- The totals of a run are the sums over its items, every item is canonical, and net pay and
-- deductions make the gross.
abbrev pub IsSettled : PayrollRun → PayrollTables → Type 0
IsSettled r db = IsGood r.id r.totals (items_of r.id db)

abbrev run_of : PayrollRun → PayrollResult → PayrollRun
run_of d (calculated r) = r
run_of d (rejected e) = d

module _ (rules : Database) (input_hash : ℕ → String → ℕ → ℕ → String)
    (result_hash : PayrollTotals → List PayrollRunItem → String) where
  conclude_run-IsSettled :
      (p : PayrollPeriod) (r : PayrollRun) (count : ℕ) (before prepared : PayrollTables)
      (progress : LoopState) {r' : PayrollRun}
      → IsGoodProgress r.id progress
      → items_of r.id prepared ≡ []
      → (conclude_run rules input_hash result_hash p r count before prepared progress).0
        ≡ calculated r'
      → IsSettled r'
          (conclude_run rules input_hash result_hash p r count before prepared progress).1
  unfolding conclude_run completed
  conclude_run-IsSettled p r count before prepared (failed error committed) {r'} h clean e =
      let wrong : rejected (calculation_failed error) ≡ calculated r' = e in cc
  conclude_run-IsSettled p r count before prepared (running t items committed) {r'} h clean e =
      let done = completed rules input_hash result_hash p r count t items in
      let same : done ≡ r' = ap (run_of r) e in
      let stored : filter (is_item_of r.id) (prepared.items ++ items) ≡ items =
        rw (filter-append (is_item_of r.id) prepared.items items, clean)
          (own-items r.id items h.2) in
      subst (λ x. IsGood x.id x.totals (filter (is_item_of x.id) (prepared.items ++ items))) same
        (subst (IsGood r.id t) (sym stored) h)

  execute-IsSettled :
      (p : PayrollPeriod) (o : Option PayrollRun) (fresh : PayrollRun) (db : PayrollTables)
      {r : PayrollRun}
      → fresh.id ≡ db.next_run
      → IsOwned db
      → (execute rules input_hash result_hash p o fresh db).0 ≡ calculated r
      → IsSettled r (execute rules input_hash result_hash p o fresh db).1
  unfolding execute persist
  execute-IsSettled p o fresh db n h e =
      conclude_run-IsSettled p (run_or o fresh) _ db _ _
        (employee_loop-IsGood rules input_hash result_hash _ _ _ db.salaries _ _
          ((refl, refl, refl, refl, refl, refl, refl, refl), no_totals-TotalsBalanced, tt))
        (prepare-items o fresh db n h) e

  on_run-IsSettled :
      (p : PayrollPeriod) (o : Option PayrollRun) (fresh : PayrollRun) (db : PayrollTables)
      {r : PayrollRun}
      → fresh.id ≡ db.next_run
      → IsOwned db
      → (on_run rules input_hash result_hash p o fresh db).0 ≡ calculated r
      → IsSettled r (on_run rules input_hash result_hash p o fresh db).1
  unfolding on_run
  on_run-IsSettled p o fresh db {r} n h e = elim (Bool-cases (is_locked o)) [
    | inl t ↦ let wrong : rejected run_locked ≡ calculated r = rw t at e in cc
    | inr f ↦ rw f (execute-IsSettled p o fresh db n h (rw f at e))
  ]

  on_period-IsSettled :
      (organization_id version : ℕ) (created_by : Option ℕ) (o : Option PayrollPeriod)
      (db : PayrollTables) {r : PayrollRun}
      → IsOwned db
      → (on_period rules input_hash result_hash organization_id version created_by o db).0
        ≡ calculated r
      → IsSettled r
          (on_period rules input_hash result_hash organization_id version created_by o db).1
  unfolding on_period new_run
  on_period-IsSettled organization_id version created_by none db {r} h e =
      let wrong : rejected period_not_found ≡ calculated r = e in cc
  on_period-IsSettled organization_id version created_by (some p) db {r} h e =
      elim (Bool-cases (is_closed_period p)) [
        | inl t ↦ let wrong : rejected period_closed ≡ calculated r = rw t at e in cc
        | inr f ↦ rw f (on_run-IsSettled p _ _ db refl h (rw f at e))
      ]

  -- A payroll run that is calculated, new or calculated again, has totals that are the sums over
  -- its rows of items; in each row and in the totals the deductions are PF, professional tax and
  -- TDS, net pay and deductions make the gross, and the employer's cost is the gross with the
  -- contribution; and in each row basic, HRA and a special allowance that is not negative make
  -- the gross. Every item that is there before belongs to a run that was added before.
  pub calculate_payroll_run-IsSettled :
      (organization_id period_id version : ℕ) (created_by : Option ℕ) (db : PayrollTables)
      {r : PayrollRun}
      → IsOwned db
      → (calculate_payroll_run rules input_hash result_hash organization_id period_id version
          created_by db).0
        ≡ calculated r
      → IsSettled r
          (calculate_payroll_run rules input_hash result_hash organization_id period_id version
            created_by db).1
  unfolding calculate_payroll_run
  calculate_payroll_run-IsSettled organization_id period_id version created_by db h e =
      on_period-IsSettled organization_id version created_by _ db h e
