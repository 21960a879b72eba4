-- ===== src/Lib.antt =====
-- Verification of the salary engine of Smart Salary India (backend/app).
--
-- A salary calculation runs from the raw input to take-home pay. The normalizer
-- (backend/app/engine/normalizer/salary_normalizer.py) makes an annual gross salary and its
-- components. The repositories (backend/app/repositories) find the tax, provident fund and
-- professional tax rules that backend/app/seeds/seed_reference_data.py stored. The pure engines
-- (backend/app/engine/tax, pf, professional_tax) compute the three amounts, and
-- backend/app/services/calculation_service.py takes them off the gross salary and checks its
-- invariants (backend/app/engine/validation/invariants.py). A second computation of the same
-- taxes, backend/app/engine/oracle/independent_oracle.py, is what the engine is compared with.
-- Beside it, the payslips that employees upload are reconciled with the payroll and the statutory
-- amounts (backend/app/engine/payslip), and the accounts are guarded by refresh sessions
-- (backend/app/repositories/session_repository.py), a rate limiter (backend/app/core/rate_limiter.py)
-- and one-time passwords (backend/app/services/otp_service.py), which call the rate limiter. What
-- happens is logged in hash chains (backend/app/services/audit_service.py).
--
-- Companies keep compensation versions of their employees
-- (backend/app/services/compensation_service.py), from which payroll runs are computed month by
-- month (backend/app/services/payroll_service.py), and employees declare what lowers their tax,
-- which is verified in stages (backend/app/services/tax_declaration_service.py and the approval
-- endpoint in backend/app/api/v1/endpoints/enterprise.py). Expenses and savings are set against
-- the take-home salary, and changes of an amount are watched (backend/app/engine/analytics).
-- Changes of the law go through a pipeline of detection, review and approval
-- (backend/app/core/compliance/verification_service.py) and supersede rules in a registry
-- (backend/app/core/compliance/rule_supersession_service.py, rule_registry.py); both ask the gates
-- of rule_impact_analyzer.py and the sources of source_registry.py.
--
-- Files:
--   Base      the shared names; Base/Tests Boolean tests, Base/Seq lists, Base/Find
--             searches in them, Base/Int signed numbers
--   Money     quantize_currency and round_to_nearest_ten (engine/common/money.py, rounding.py)
--   Tax       the tax engine: Rules the DTOs, Slabs slabs.py, Relief rebates.py, surcharge.py,
--             marginal_relief.py and cess.py, Calculator tax_calculator.py, Comparator
--             regime_comparator.py; Slabs/Sum, Slabs/Order and Relief/Bounds hold their theorems
--   Seeds     tax_rule_repository.py, and in Seeds/TaxRules the seeded rule versions
--   Oracle    the tax part of independent_oracle.py, its professional tax in
--             Oracle/ProfessionalTax; the children compare it with the engine
--   Salary    Normalizer, Pf, Pt (with pt_rule_repository.py and the seeded slabs in Pt/Seeds),
--             Invariants, Service and Projection (services/salary_service.py), each with its theorems
--             in a child module
--   Payslip   Tolerance tolerance_policy.py, Difference and Reconciliation reconciliation_engine.py,
--             with theorems on the counts and on the codes in Counts and Codes
--   Auth      Session session_repository.py (theorems in Rows, History, Rotation and Users), Limiter
--             rate_limiter.py (Window) and Otp otp_service.py (Verify and Issue)
--   Audit     audit_service.py, one chain; Chain shows what appending keeps, Evidence what the
--             verification detects
--   Compensation  compensation_service.py; Ranges says which days a version covers
--   Payroll   payroll_service.py; Sums and Items hold the lemmas, Runs the totals of a run, Again
--             what a second run does
--   Declaration  tax_declaration_service.py and the approval endpoint; Stages, History and Ways are
--             about the stages, Rows, Keys and Totals about the tables, Duties about the endpoint
--   Supersession  rule_supersession_service.py and its registries; Conditions is what a request
--             has to satisfy, Gates, Lineage and Replay are about one request, Registry holds lemmas
--   Pipeline  verification_service.py; Duties follows its candidates through any requests
--   Analytics Cashflow expense_savings_engine.py, with its sums in Sums, and Anomaly
--             anomaly_engine.py
--   Tests modules hold runs at concrete inputs and examples of the theorems.
--
-- Numbers: an amount is a natural number of paise, as the columns (Numeric(18, 2)) store it, and a
-- rate a number of ten-thousandths (Numeric(10, 4)), neither of them negative. ℤ stands where the
-- code can go below zero. `max(0, a - b)` is the subtraction of natural numbers. Rounding half up of
-- a quotient n / d is the quotient (2n + d) / (2d). Decimal's context of 28 digits is exact for
-- products of such amounts and rates, and its quotients by twelve are precise enough for the
-- rounding to paise that follows. Taxes of the oracle are in hundredths of a paisa, because it does
-- not round its slab tax. A database is the list of its rows in the order in which they were added,
-- and a query takes the first row that it selects. Times are in microseconds, and one reading of the
-- clock stands for those of a call. Hashes, random values and the parsing of a UUID are parameters
-- or arguments. An exception is a constructor of the result.
--
-- Every function is total by its structure; no fuel is used.
--
-- Not modelled: web API but the approval endpoint, pages and middleware; hashes, traces and line
-- items of a calculation and its persistence, of which the payroll keeps one row for each
-- calculation; the ids of payroll items; the oracle's provident fund, which divides without
-- rounding; what an impact report says beyond its gates, and the data of the compliance
-- registries; payslip extraction, retrieval, forecasts and simulations, and the scripts; texts of
-- notes.
pub mod Base
pub mod Money
pub mod Tax
pub mod Seeds
pub mod Oracle
pub mod Salary
pub mod Analytics
pub mod Audit
pub mod Auth
pub mod Compensation
pub mod Declaration
pub mod Payroll
pub mod Payslip
pub mod Pipeline
pub mod Supersession
