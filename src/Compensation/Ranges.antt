-- ===== src/Compensation/Ranges.antt =====
-- The date ranges of backend/app/services/compensation_service.py: the compensation records of one
-- employee do not overlap.
use smart_salary_india.Base.{
  ℕ, ◌≤◌, ◌≡◌, ◌↔◌, refl, sym, ◌∙◌, ◌==◌, Bool, true, false, ◌&&◌, Option, none, List, [], ◌∷◌,
  ◌++◌, arith, max, leb, All, any, filter, length, Bool-cases, inl, inr, append-All,
}
use smart_salary_india.Compensation.{
  SalaryRecord, end_of, overlaps, check_date_overlap, CompensationTables, CompensationRequest,
  record_of, create_compensation_version,
}

-- The record is in force for the employee on the day.
abbrev pub covers : ℕ → ℕ → SalaryRecord → Bool
covers employee_id day rec =
    rec.employee_id == employee_id
    && leb rec.effective_from day
    && leb day (end_of rec.effective_to)

-- No later row of the same employee has a day in common with a row.
abbrev clashes : SalaryRecord → SalaryRecord → Bool
clashes r s = r.employee_id == s.employee_id && overlaps s.effective_from s.effective_to r

abbrev pub IsDisjoint : List SalaryRecord → Type 0
IsDisjoint [] = Unit
IsDisjoint (r ∷ records) = All (λ s. clashes r s ≡ false) records × IsDisjoint records

clash-covers :
    (employee_id day : ℕ) (r s : SalaryRecord)
    → covers employee_id day r ≡ true
    → covers employee_id day s ≡ true
    → clashes r s ≡ true
clash-covers employee_id day r s h k = ground arith

none-covers :
    (employee_id day : ℕ) (r : SalaryRecord) (records : List SalaryRecord)
    → covers employee_id day r ≡ true
    → All (λ s. clashes r s ≡ false) records
    → length (filter (covers employee_id day) records) ≡ 0
none-covers employee_id day r [] h a = refl
none-covers employee_id day r (s ∷ records) h a =
    let rest = none-covers employee_id day r records h a.1 in
    elim (Bool-cases (covers employee_id day s)) [
      | inl t ↦
          let clash = clash-covers employee_id day r s h t in
          let free = a.0 in let wrong : true ≡ false = rw clash at free in cc
      | inr f ↦ rw f rest
    ]

-- Where ranges do not overlap, at most one record of an employee is in force on a day.
IsDisjoint-covers :
    (employee_id day : ℕ) (records : List SalaryRecord)
    → IsDisjoint records
    → length (filter (covers employee_id day) records) ≤ 1
IsDisjoint-covers employee_id day [] h = omega arith
IsDisjoint-covers employee_id day (r ∷ records) h = elim (Bool-cases (covers employee_id day r)) [
  | inl t ↦ let rest = none-covers employee_id day r records t h.0 in rw t (omega arith)
  | inr f ↦ rw f (IsDisjoint-covers employee_id day records h.1)
]

append-IsDisjoint :
    (records : List SalaryRecord) (s : SalaryRecord)
    → any (λ r. clashes r s) records ≡ false
    → IsDisjoint records
    → IsDisjoint (records ++ (s ∷ []))
append-IsDisjoint [] s h d = (tt, tt)
append-IsDisjoint (r ∷ records) s h d = (
  append-All (λ x. clashes r x ≡ false) records s d.0 (ground arith),
  append-IsDisjoint records s (ground arith) d.1,
)

check-clashes :
    (records : List SalaryRecord) (i : ℕ) (q : CompensationRequest)
    → check_date_overlap records q.employee_id q.effective_from q.effective_to none
      ≡ any (λ r. clashes r (record_of i q)) records
unfolding check_date_overlap record_of
check-clashes [] i q = refl
check-clashes (r ∷ records) i q = let rest = check-clashes records i q in ground (arith, rest)

create-IsDisjoint :
    (q : CompensationRequest) (db : CompensationTables)
    → IsDisjoint db.records
    → IsDisjoint (create_compensation_version q db).1.records
unfolding create_compensation_version
create-IsDisjoint q db h =
    let same = check-clashes db.records db.next_record q in
    elim (Bool-cases
      (check_date_overlap db.records q.employee_id q.effective_from q.effective_to none)) [
        | inl t ↦ rw t h
        | inr f ↦ rw f (append-IsDisjoint db.records _ (sym same ∙ f) h)
      ]

-- The tables after a sequence of requests, the first one first.
unfoldable pub create_all : List CompensationRequest → CompensationTables → CompensationTables
create_all [] db = db
create_all (q ∷ qs) db = create_all qs (create_compensation_version q db).1

create_all-IsDisjoint :
    (qs : List CompensationRequest) (db : CompensationTables)
    → IsDisjoint db.records
    → IsDisjoint (create_all qs db).records
unfolding create_all
create_all-IsDisjoint [] db h = h
create_all-IsDisjoint (q ∷ qs) db h = create_all-IsDisjoint qs _ (create-IsDisjoint q db h)

-- After any sequence of requests for compensation versions at most one record of an employee is in
-- force on any day, if the ranges at the start do not overlap.
pub create_all-covers :
    (qs : List CompensationRequest) (db : CompensationTables) (employee_id day : ℕ)
    → IsDisjoint db.records
    → length (filter (covers employee_id day) (create_all qs db).records) ≤ 1
create_all-covers qs db employee_id day h =
    IsDisjoint-covers employee_id day _ (create_all-IsDisjoint qs db h)

overlap_day :
    (records : List SalaryRecord) (employee_id from : ℕ) (to : Option ℕ)
    → check_date_overlap records employee_id from to none ≡ true
    → (day : ℕ) × (from ≤ day) × (day ≤ end_of to) × (any (covers employee_id day) records ≡ true)
unfolding check_date_overlap
overlap_day [] employee_id from to h = cc
overlap_day (r ∷ records) employee_id from to h =
    elim (Bool-cases (r.employee_id == employee_id && overlaps from to r)) [
      | inl t ↦ (max from r.effective_from, omega arith, ground arith, ground arith)
      | inr f ↦
          let (day, low, high, found) = overlap_day records employee_id from to (ground arith) in
          (day, low, high, ground arith)
    ]

day_overlap :
    (records : List SalaryRecord) (employee_id from day : ℕ) (to : Option ℕ)
    → from ≤ day
    → day ≤ end_of to
    → any (covers employee_id day) records ≡ true
    → check_date_overlap records employee_id from to none ≡ true
unfolding check_date_overlap
day_overlap [] employee_id from day to low high h = h
day_overlap (r ∷ records) employee_id from day to low high h =
    elim (Bool-cases (covers employee_id day r)) [
      | inl t ↦ ground arith
      | inr f ↦
          let rest = day_overlap records employee_id from day to low high (rw f at h) in
          ground arith
    ]

-- A proposed range overlaps exactly if some day of it is covered by a record of the employee.
pub check_date_overlap-covers :
    (records : List SalaryRecord) (employee_id from : ℕ) (to : Option ℕ)
    → check_date_overlap records employee_id from to none ≡ true
      ↔ (day : ℕ) × (from ≤ day) × (day ≤ end_of to) × (any (covers employee_id day) records ≡ true)
check_date_overlap-covers records employee_id from to = (
  overlap_day records employee_id from to,
  λ (day, low, high, h). day_overlap records employee_id from day to low high h,
)
