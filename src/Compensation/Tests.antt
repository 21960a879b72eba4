-- ===== src/Compensation/Tests.antt =====
-- Runs of backend/app/services/compensation_service.py.
use smart_salary_india.Base.{
  ℕ, ◌≡◌, ◌≤◌, ◌↔◌, refl, true, false, Option, none, some, [], ◌∷◌, length, filter, any,
}
use smart_salary_india.Compensation.{
  CompensationTables, CompensationRequest, check_date_overlap, record_of,
  create_compensation_version, end_of,
}
use smart_salary_india.Compensation.Ranges.{
  covers, create_all, create_all-covers, check_date_overlap-covers,
}

abbrev request : ℕ → Option ℕ → CompensationRequest
request from to = record {
  employee_id = 7;
  effective_from = from;
  effective_to = to;
  annual_ctc = 120_000_000;
  monthly_gross = 10_000_000;
  components = [];
}

abbrev no_records : CompensationTables
no_records = record { records = []; components = []; next_record = 1 }

abbrev two_years : CompensationTables
two_years =
    create_all (request 20_240_401 (some 20_250_331) ∷ request 20_250_401 none ∷ []) no_records

two_years_accepted : length two_years.records ≡ 2
unfolding create_all create_compensation_version check_date_overlap record_of
two_years_accepted = refl

overlap_refused : (create_compensation_version (request 20_250_401 none) two_years).0 ≡ none
unfolding create_all create_compensation_version check_date_overlap record_of
overlap_refused = refl

-- A range that ends before it starts overlaps nothing and is accepted.
empty_range : check_date_overlap two_years.records 7 20_250_701 (some 20_250_601) none ≡ false
unfolding create_all create_compensation_version check_date_overlap record_of
empty_range = refl

create_all-covers_example : length (filter (covers 7 20_250_401) two_years.records) ≤ 1
create_all-covers_example =
    create_all-covers (request 20_240_401 (some 20_250_331) ∷ request 20_250_401 none ∷ [])
      no_records 7 20_250_401 tt

check_date_overlap-covers_example :
    check_date_overlap two_years.records 7 20_250_301 (some 20_250_630) none ≡ true
    ↔ (day : ℕ) × (20_250_301 ≤ day)
      × (day ≤ end_of (some 20_250_630))
      × (any (covers 7 day) two_years.records ≡ true)
check_date_overlap-covers_example =
    check_date_overlap-covers two_years.records 7 20_250_301 (some 20_250_630)
