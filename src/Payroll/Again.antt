-- ===== src/Payroll/Again.antt =====
-- A payroll run of backend/app/services/payroll_service.py that is calculated again.
use Prim.Native.String.{String}
use smart_salary_india.Base.{
  ℕ, ◌≡◌, refl, sym, subst, ◌==◌, Bool, true, false, not, Option, none, some, List, [], ◌∷◌, ◌++◌,
  arith, Bool-cases, Option-cases, inl, inr, All, filter, find?, update, length, find-cons,
  find-pass,
}
use mathlib.Core.List.{append-nil}
use smart_salary_india.Salary.Service.{Database}
use smart_salary_india.Payroll.{
  PayrollPeriod, PayrollTotals, PayrollRun, PayrollRunItem, PayrollTables, calculated, rejected,
  period_not_found, period_closed, run_locked, calculation_failed, LoopState, running, failed,
  no_totals, is_item_of, prepare, run_or, completed, conclude_run, execute, on_run, on_period,
  calculate_payroll_run, StoredCalculation, calculations_of, persist, is_locked, is_closed_period,
  is_period, is_run, new_run, employee_loop, put_run, put_period, is_active_of,
}
use smart_salary_india.Payroll.Sums.{IsCanonical, no_totals-TotalsBalanced}
use smart_salary_india.Payroll.Items.{IsGood, IsGoodProgress, employee_loop-IsGood}
use smart_salary_india.Payroll.Runs.{IsOwned, filter-append, fresh-items, deleted-items}

-- A row that a query finds is found again once it is written.
find-update {ℓ} :
    {A : Type ℓ} (q k : A → Bool) (xs : List A) (x x' : A)
    → find? q xs ≡ some x
    → k x ≡ true
    → q x' ≡ true
    → find? q (update k (λ _. x') xs) ≡ some x'
find-update q k [] x x' e h t = cc
find-update q k (y ∷ xs) x x' e h t = elim (find-cons q y xs e) [
  | inl (_, same) ↦
      let here : k y ≡ true = subst (λ z. k z ≡ true) (sym same) h in rw (here, t) refl
  | inr (other, found) ↦ elim (Bool-cases (k y)) [
    | inl hit ↦ rw (hit, t) refl
    | inr miss ↦ rw (miss, other) (find-update q k xs x x' found h t)
  ]
]

find-last {ℓ} :
    {A : Type ℓ} (q : A → Bool) (xs : List A) (x : A)
    → find? q xs ≡ none
    → q x ≡ true
    → find? q (xs ++ (x ∷ [])) ≡ some x
find-last q [] x e t = rw t refl
find-last q (y ∷ xs) x e t = elim (Bool-cases (q y)) [
  | inl hit ↦ let wrong : some y ≡ none = rw hit at e in cc
  | inr miss ↦ rw miss (find-last q xs x (rw miss at e) t)
]

update_twice {ℓ} :
    {A : Type ℓ} (k : A → Bool) (x : A) (xs : List A)
    → k x ≡ true
    → update k (λ _. x) (update k (λ _. x) xs) ≡ update k (λ _. x) xs
update_twice k x [] t = refl
update_twice k x (y ∷ xs) t = elim (Bool-cases (k y)) [
  | inl hit ↦ rw (hit, t, update_twice k x xs t) refl
  | inr miss ↦ rw (miss, miss, update_twice k x xs t) refl
]

keep-others :
    (i : ℕ) (items : List PayrollRunItem)
    → filter (is_item_of i) items ≡ []
    → filter (λ x. not (is_item_of i x)) items ≡ items
keep-others i [] e = refl
keep-others i (x ∷ items) e = elim (Bool-cases (is_item_of i x)) [
  | inl t ↦ let wrong : x ∷ filter (is_item_of i) items ≡ [] = rw t at e in cc
  | inr f ↦ rw (f, keep-others i items (rw f at e)) refl
]

drop-own :
    (i : ℕ) (items : List PayrollRunItem)
    → All (IsCanonical i) items
    → filter (λ x. not (is_item_of i x)) items ≡ []
drop-own i [] h = refl
drop-own i (x ∷ items) h =
    let own = h.0.0 in let t : is_item_of i x ≡ true = ground arith in rw t (drop-own i items h.1)

abbrev settled_period : PayrollPeriod → PayrollPeriod
settled_period p = record p { status = "CALCULATED" }

module _ (rules : Database) (input_hash : ℕ → String → ℕ → ℕ → String)
    (result_hash : PayrollTotals → List PayrollRunItem → String) where
  abbrev loop_of : PayrollPeriod → PayrollRun → PayrollTables → LoopState
  loop_of p r db =
      employee_loop rules input_hash result_hash p.financial_year p.pay_date r.id db.salaries
        (filter (is_active_of r.organization_id) db.employees) (running no_totals [] none)

  abbrev settled_run :
      PayrollPeriod → PayrollRun → PayrollTables → PayrollTotals → List PayrollRunItem → PayrollRun
  settled_run p r db t items =
      completed rules input_hash result_hash p r
        (length (filter (is_active_of r.organization_id) db.employees)) t items

  -- What the loop of a run stores, and the tables with it.
  abbrev rows_of : PayrollPeriod → PayrollRun → PayrollTables → List StoredCalculation
  rows_of p r db =
      calculations_of rules input_hash result_hash p.financial_year p.pay_date db.salaries
        (filter (is_active_of r.organization_id) db.employees)

  abbrev stored : PayrollPeriod → Option PayrollRun → PayrollRun → PayrollTables → PayrollTables
  stored p o fresh db =
      persist rules input_hash result_hash p db.salaries
        (filter (is_active_of (run_or o fresh).organization_id) db.employees) (prepare o fresh db)

  -- The tables with the rows of one more loop.
  abbrev pub with_rows : List StoredCalculation → PayrollTables → PayrollTables
  with_rows rows db = record db { calculations = db.calculations ++ rows }

  -- The tables that a finished loop leaves.
  abbrev settled_tables :
      PayrollPeriod
      → PayrollRun
      → PayrollTables
      → PayrollTables
      → PayrollTotals
      → List PayrollRunItem
      → PayrollTables
  settled_tables p r db prepared t items = record prepared {
    runs = put_run (settled_run p r db t items) prepared.runs;
    items = prepared.items ++ items;
    periods = put_period (settled_period p) prepared.periods;
  }

  -- A finished loop over tables that `prepare` made for a run is finished again.
  execute-again :
      (p : PayrollPeriod) (r fresh : PayrollRun) (db prepared : PayrollTables) (t : PayrollTotals)
      (items : List PayrollRunItem) (committed : Option (List PayrollRunItem))
      → prepared.employees ≡ db.employees
      → prepared.salaries ≡ db.salaries
      → filter (is_item_of r.id) prepared.items ≡ []
      → All (IsCanonical r.id) items
      → loop_of p r db ≡ running t items committed
      → let r' = settled_run p r db t items in
        let after = settled_tables p r db prepared t items in
        execute rules input_hash result_hash (settled_period p) (some r') fresh after
        ≡ (calculated r', with_rows (rows_of p r db) after)
  unfolding execute conclude_run completed prepare persist
  execute-again p r fresh db prepared t items committed e s clean own loop =
      let kept : filter (λ x. not (is_item_of r.id x)) (prepared.items ++ items) ≡ prepared.items =
        rw
          (
            filter-append (λ x. not (is_item_of r.id x)) prepared.items items,
            keep-others r.id prepared.items clean,
            drop-own r.id items own,
          )
          (append-nil prepared.items) in
      let own_id : (r.id == r.id) ≡ true = ground arith in
      let own_period : (p.id == p.id) ≡ true = ground arith in
      rw
        (
          e,
          s,
          loop,
          kept,
          update_twice (λ x. x.id == r.id) (settled_run p r db t items) prepared.runs own_id,
          update_twice (λ x. x.id == p.id) (settled_period p) prepared.periods own_period,
        )
        refl

  -- A request whose guards pass and whose loop finishes.
  first-time :
      (organization_id period_id version : ℕ) (created_by : Option ℕ) (p : PayrollPeriod)
      (o : Option PayrollRun) (db : PayrollTables) (t : PayrollTotals) (items : List PayrollRunItem)
      (committed : Option (List PayrollRunItem))
      → let fresh = new_run db.next_run organization_id p.id version created_by in
        let r = run_or o fresh in
        find? (is_period period_id organization_id) db.periods ≡ some p
        → is_closed_period p ≡ false
        → find? (is_run organization_id p.id version) db.runs ≡ o
        → is_locked o ≡ false
        → loop_of p r db ≡ running t items committed
        → calculate_payroll_run rules input_hash result_hash organization_id period_id version
            created_by db
          ≡ (
            calculated (settled_run p r db t items),
            settled_tables p r db (stored p o fresh db) t items,
          )
  unfolding calculate_payroll_run on_period on_run execute conclude_run persist
  first-time organization_id period_id version created_by p o db t items committed at free found
        unlocked loop =
      rw (at, free, found, unlocked, loop) refl

  second-time :
      (organization_id period_id version : ℕ) (created_by again_by : Option ℕ) (p : PayrollPeriod)
      (o : Option PayrollRun) (db : PayrollTables) (t : PayrollTotals) (items : List PayrollRunItem)
      (committed : Option (List PayrollRunItem))
      → let fresh = new_run db.next_run organization_id p.id version created_by in
        let r = run_or o fresh in
        let after = settled_tables p r db (stored p o fresh db) t items in
        IsOwned db
        → find? (is_period period_id organization_id) db.periods ≡ some p
        → find? (is_run organization_id p.id version) db.runs ≡ o
        → loop_of p r db ≡ running t items committed
        → All (IsCanonical r.id) items
        → calculate_payroll_run rules input_hash result_hash organization_id period_id version
            again_by after
          ≡ (calculated (settled_run p r db t items), with_rows (rows_of p r db) after)
  unfolding calculate_payroll_run on_period on_run prepare new_run completed persist
  second-time organization_id period_id version created_by again_by p none db t items committed h at
        found loop own =
      let own_period : (p.id == p.id) ≡ true = ground arith in
      let period =
        find-update (is_period period_id organization_id) (λ x. x.id == p.id) db.periods p
          (settled_period p) at own_period
          (find-pass (is_period period_id organization_id) db.periods at) in
      let fresh = new_run db.next_run organization_id p.id version created_by in
      let key : is_run organization_id p.id version fresh ≡ true = ground arith in
      let own_run : (db.next_run == db.next_run) ≡ true = ground arith in
      let run =
        find-update (is_run organization_id p.id version) (λ x. x.id == db.next_run)
          (db.runs ++ (fresh ∷ [])) fresh (settled_run p fresh db t items)
          (find-last _ db.runs fresh found key) own_run key in
      rw (period, run)
        (execute-again p fresh _ db _ t items committed refl refl
          (fresh-items db.next_run db.items h) own loop)
  second-time organization_id period_id version created_by again_by p (some r) db t items committed
        h at found loop own =
      let own_period : (p.id == p.id) ≡ true = ground arith in
      let period =
        find-update (is_period period_id organization_id) (λ x. x.id == p.id) db.periods p
          (settled_period p) at own_period
          (find-pass (is_period period_id organization_id) db.periods at) in
      let own_run : (r.id == r.id) ≡ true = ground arith in
      let run =
        find-update (is_run organization_id p.id version) (λ x. x.id == r.id) db.runs r
          (settled_run p r db t items) found own_run
          (find-pass (is_run organization_id p.id version) db.runs found) in
      rw (period, run)
        (execute-again p r _ db _ t items committed refl refl (deleted-items r.id db.items) own
          loop)

  -- A run is calculated only at the end of the loop.
  finished-loop :
      (p : PayrollPeriod) (r : PayrollRun) (count : ℕ) (before prepared : PayrollTables)
      (progress : LoopState) {r' : PayrollRun}
      → (conclude_run rules input_hash result_hash p r count before prepared progress).0
        ≡ calculated r'
      → (t : PayrollTotals) × (items : List PayrollRunItem) × (committed : Option
          (List PayrollRunItem))
        × (progress ≡ running t items committed)
  unfolding conclude_run
  finished-loop p r count before prepared (failed error committed) {r'} e =
      let wrong : rejected (calculation_failed error) ≡ calculated r' = e in cc
  finished-loop p r count before prepared (running t items committed) e =
      (t, items, committed, refl)

  on_run-loop :
      (p : PayrollPeriod) (o : Option PayrollRun) (fresh : PayrollRun) (db : PayrollTables)
      {r : PayrollRun}
      → (on_run rules input_hash result_hash p o fresh db).0 ≡ calculated r
      → (is_locked o ≡ false)
        × (t : PayrollTotals) × (items : List PayrollRunItem) × (committed : Option
            (List PayrollRunItem))
        × (loop_of p (run_or o fresh) db ≡ running t items committed)
  unfolding on_run execute conclude_run
  on_run-loop p o fresh db {r} e = elim (Bool-cases (is_locked o)) [
    | inl t ↦ let wrong : rejected run_locked ≡ calculated r = rw t at e in cc
    | inr f ↦
        let (t, items, committed, loop) = finished-loop p (run_or o fresh) _ db _ _ (rw f at e) in
        (f, t, items, committed, loop)
  ]

  stored-calculations :
      (p : PayrollPeriod) (o : Option PayrollRun) (fresh : PayrollRun) (db : PayrollTables)
      → (stored p o fresh db).calculations ≡ db.calculations ++ rows_of p (run_or o fresh) db
  unfolding persist prepare
  stored-calculations p none fresh db = refl
  stored-calculations p (some r) fresh db = refl

  again-at :
      (organization_id period_id version : ℕ) (created_by again_by : Option ℕ) (p : PayrollPeriod)
      (db : PayrollTables) {r : PayrollRun}
      → IsOwned db
      → find? (is_period period_id organization_id) db.periods ≡ some p
      → (on_period rules input_hash result_hash organization_id version created_by (some p) db).0
        ≡ calculated r
      → let first =
          calculate_payroll_run rules input_hash result_hash organization_id period_id version
            created_by db in
        (rows : List StoredCalculation) × (first.1.calculations ≡ db.calculations ++ rows)
        × (calculate_payroll_run rules input_hash result_hash organization_id period_id version
              again_by first.1
            ≡ (first.0, with_rows rows first.1))
  unfolding on_period
  again-at organization_id period_id version created_by again_by p db {r} h at e =
      elim (Bool-cases (is_closed_period p)) [
        | inl t ↦ let wrong : rejected period_closed ≡ calculated r = rw t at e in cc
        | inr free ↦
            let o = find? (is_run organization_id p.id version) db.runs in
            let fresh = new_run db.next_run organization_id p.id version created_by in
            let (unlocked, t, items, committed, loop) = on_run-loop p o fresh db (rw free at e) in
            let good : IsGood (run_or o fresh).id t items =
              subst (IsGoodProgress (run_or o fresh).id) loop (
                employee_loop-IsGood rules input_hash result_hash _ _ _ db.salaries _ _ (
                  (refl, refl, refl, refl, refl, refl, refl, refl),
                  no_totals-TotalsBalanced,
                  tt,
                )) in
            rw
              (first-time organization_id period_id version created_by p o db t items committed at
                free refl unlocked loop)
              (
                rows_of p (run_or o fresh) db,
                stored-calculations p o fresh db,
                second-time organization_id period_id version created_by again_by p o db t items
                    committed h at refl loop good.2,
              )
      ]

  -- Calculating a payroll run a second time, whoever asks for it, returns the same run with the
  -- same totals and hashes, and keeps the run, its period and the amounts of its items as they are;
  -- but it stores again, after the others, every calculation that the first request stored. The
  -- first request calculates the run, and every item that is there before belongs to a run that was
  -- added before.
  pub calculate_payroll_run-again :
      (organization_id period_id version : ℕ) (created_by again_by : Option ℕ) (db : PayrollTables)
      {r : PayrollRun}
      → IsOwned db
      → (calculate_payroll_run rules input_hash result_hash organization_id period_id version
          created_by db).0
        ≡ calculated r
      → let first =
          calculate_payroll_run rules input_hash result_hash organization_id period_id version
            created_by db in
        (rows : List StoredCalculation) × (first.1.calculations ≡ db.calculations ++ rows)
        × (calculate_payroll_run rules input_hash result_hash organization_id period_id version
              again_by first.1
            ≡ (first.0, record first.1 { calculations = first.1.calculations ++ rows }))
  unfolding calculate_payroll_run on_period
  calculate_payroll_run-again organization_id period_id version created_by again_by db {r} h e =
      elim (Option-cases (find? (is_period period_id organization_id) db.periods)) [
        | inl missing ↦ let wrong : rejected period_not_found ≡ calculated r = rw missing at e in cc
        | inr (p, at) ↦
            again-at organization_id period_id version created_by again_by p db h at (rw at at e)
      ]
