-- ===== src/Compensation.antt =====
-- backend/app/services/compensation_service.py over the rows of salary_records and
-- salary_components (backend/app/models/salary.py). A date is the number yyyymmdd, in the order of
-- the dates. The column currency, which no operation reads, and the texts `reason` and
-- `created_by`, which the service drops, are left out.
pub mod Ranges
pub mod Tests
use Prim.Native.String.{String}
use smart_salary_india.Base.{
  ℕ, suc, ◌*◌, ◌==◌, Bool, true, false, not, ◌&&◌, Option, none, some, List, [], ◌∷◌, ◌++◌, min,
  max, leb, if◌then◌else◌, any,
}

pub record SalaryRecord : Type 0 where
  pub id : ℕ
  pub employee_id : ℕ
  pub effective_from : ℕ
  pub effective_to : Option ℕ
  pub annual_ctc : ℕ
  pub monthly_gross : ℕ

pub record SalaryComponent : Type 0 where
  pub salary_record_id : ℕ
  pub name : String
  pub component_type : String
  pub monthly_amount : ℕ
  pub annual_amount : ℕ
  pub is_taxable : Bool

-- A component of a request, with the keys that it may leave out.
pub record ComponentEntry : Type 0 where
  pub name : String
  pub component_type : String
  pub monthly_amount : ℕ
  pub annual_amount : Option ℕ
  pub is_taxable : Option Bool

pub record CompensationTables : Type 0 where
  pub records : List SalaryRecord
  pub components : List SalaryComponent
  pub next_record : ℕ

-- `date(9999, 12, 31)`
abbrev pub last_day : ℕ
last_day = 99_991_231

-- `effective_to or date(9999, 12, 31)`
abbrev pub end_of : Option ℕ → ℕ
end_of none = last_day
end_of (some d) = d

-- `SalaryRecord.id != exclude_record_id`, where None and 0 exclude nothing.
abbrev pub is_excluded : Option ℕ → SalaryRecord → Bool
is_excluded none rec = false
is_excluded (some i) rec = not (i == 0) && rec.id == i

-- One turn of the loop: the later start is not after the earlier end.
abbrev pub overlaps : ℕ → Option ℕ → SalaryRecord → Bool
overlaps from to rec = leb (max from rec.effective_from) (min (end_of to) (end_of rec.effective_to))

-- `check_date_overlap`
unfoldable pub check_date_overlap : List SalaryRecord → ℕ → ℕ → Option ℕ → Option ℕ → Bool
check_date_overlap records employee_id from to exclude =
    any
      (λ rec.
        rec.employee_id == employee_id && not (is_excluded exclude rec) && overlaps from to rec)
      records

abbrev pub get_or_twelve : Option ℕ → ℕ → ℕ
get_or_twelve none monthly = monthly * 12
get_or_twelve (some annual) monthly = annual

abbrev pub get_or_true : Option Bool → Bool
get_or_true none = true
get_or_true (some b) = b

unfoldable pub component_of : ℕ → ComponentEntry → SalaryComponent
component_of i e = record {
  salary_record_id = i;
  name = e.name;
  component_type = e.component_type;
  monthly_amount = e.monthly_amount;
  annual_amount = get_or_twelve e.annual_amount e.monthly_amount;
  is_taxable = get_or_true e.is_taxable;
}

-- The loop over the components.
unfoldable pub add_components :
    ℕ → List ComponentEntry → List SalaryComponent → List SalaryComponent
add_components i [] rows = rows
add_components i (e ∷ es) rows = add_components i es (rows ++ (component_of i e ∷ []))

-- What a request asks for.
pub record CompensationRequest : Type 0 where
  pub employee_id : ℕ
  pub effective_from : ℕ
  pub effective_to : Option ℕ
  pub annual_ctc : ℕ
  pub monthly_gross : ℕ
  pub components : List ComponentEntry

unfoldable pub record_of : ℕ → CompensationRequest → SalaryRecord
record_of i q = record {
  id = i;
  employee_id = q.employee_id;
  effective_from = q.effective_from;
  effective_to = q.effective_to;
  annual_ctc = q.annual_ctc;
  monthly_gross = q.monthly_gross;
}

-- `create_compensation_version`; none is the ValueError of an overlap.
unfoldable pub create_compensation_version :
    CompensationRequest → CompensationTables → Option SalaryRecord × CompensationTables
create_compensation_version q db =
    if check_date_overlap db.records q.employee_id q.effective_from q.effective_to none
    then (none, db)
    else (
      some (record_of db.next_record q),
      record {
        records = db.records ++ (record_of db.next_record q ∷ []);
        components = add_components db.next_record q.components db.components;
        next_record = suc db.next_record;
      },
    )
