-- ===== src/Auth/Limiter/Window.antt =====
-- The promise of backend/app/core/rate_limiter.py: no window holds too many allowed requests.
use Prim.Native.String.{String}
use text.Mathlib.TextPositions.{eq_refl}
use text.Mathlib.Text.{◌==◌ as str_eq}
use smart_salary_india.Base.{
  ℕ, ◌+◌, ◌≤◌, ◌<◌, ◌≡◌, refl, sym, ap, ◌∙◌, Bool, true, false, ◌&&◌, List, [], ◌∷◌, ◌++◌, arith,
  leb, if◌then◌else◌, filter, length, length-append, Bool-cases, inl, inr,
}
use smart_salary_india.Auth.Limiter.{
  Requests, in_window, set, Check, allowed, refuse, check_rate_limit,
}

abbrev pub is_allowed : Check → Bool
is_allowed allowed = true
is_allowed _ = false

module _ (max_requests window_seconds : ℕ) (key : String) where
  -- Checks of one key at the given times: the requests after them, and the times of those allowed
  -- appended to a log.
  unfoldable pub run : List ℕ → Requests → List ℕ → Requests × List ℕ
  run [] requests log = (requests, log)
  run (now ∷ times) requests log =
      let (answer, after) = check_rate_limit max_requests window_seconds now key requests in
      run times after (if is_allowed answer then log ++ (now ∷ []) else log)

-- Each time is at or after the one before it.
abbrev pub IsOrdered : ℕ → List ℕ → Type 0
IsOrdered last [] = Unit
IsOrdered last (t ∷ ts) = (last ≤ t) × IsOrdered t ts

-- The number of times in the window that ends at a given time, that end included.
abbrev pub count_at : ℕ → ℕ → List ℕ → ℕ
count_at window_seconds end ts =
    length (filter (λ t. in_window window_seconds end t && leb t end) ts)

filter-append : (p : ℕ → Bool) (xs ys : List ℕ) → filter p (xs ++ ys) ≡ filter p xs ++ filter p ys
filter-append p [] ys = refl
filter-append p (x ∷ xs) ys = ground (arith, filter-append p xs ys)

filter-later :
    (w now end : ℕ) (xs : List ℕ)
    → now ≤ end
    → filter (in_window w end) (filter (in_window w now) xs) ≡ filter (in_window w end) xs
filter-later w now end [] h = refl
filter-later w now end (x ∷ xs) h = ground (arith, filter-later w now end xs)

-- Before `now`, a time at `now` does not count.
count_at-early :
    (w now end : ℕ) (xs : List ℕ)
    → end < now
    → count_at w end (xs ++ (now ∷ [])) ≡ count_at w end xs
count_at-early w now end [] h = ground arith
count_at-early w now end (x ∷ xs) h = ground (arith, count_at-early w now end xs)

-- A later window holds no more of the times than are in the window that ends now.
count_at-late :
    (w now end : ℕ) (xs : List ℕ)
    → now ≤ end
    → count_at w end xs ≤ length (filter (in_window w now) xs)
count_at-late w now end [] h = omega arith
count_at-late w now end (x ∷ xs) h = ground (arith, count_at-late w now end xs)

set-same :
    (key : String) (times : List ℕ) (requests : Requests) → set key times requests key ≡ times
set-same key times requests = rw (eq_refl key) refl

-- What holds between checks: the kept times stand for the log's in every window from now on, and
-- no window has too many of the log's.
Inv : ℕ → ℕ → ℕ → List ℕ → List ℕ → Type 0
Inv max w last entries log =
    ((end : ℕ) → last ≤ end → filter (in_window w end) entries ≡ filter (in_window w end) log)
    × ((end : ℕ) → count_at w end log ≤ max)

Inv-refused :
    (max w last now : ℕ) (entries log : List ℕ)
    → last ≤ now
    → Inv max w last entries log
    → Inv max w now (filter (in_window w now) entries) log
unfolding Inv
Inv-refused max w last now entries log h (same, few) =
    (λ end le. filter-later w now end entries le ∙ same end (omega arith), few)

few_after :
    (max w now end : ℕ) (log : List ℕ)
    → length (filter (in_window w now) log) < max
    → count_at w end log ≤ max
    → count_at w end (log ++ (now ∷ [])) ≤ max
few_after max w now end log room few = elim (Bool-cases (leb now end)) [
  | inl e ↦
      let late = count_at-late w now end (log ++ (now ∷ [])) (ground arith) in
      let split = filter-append (in_window w now) log (now ∷ []) in
      let sum =
        length-append (filter (in_window w now) log) (filter (in_window w now) (now ∷ [])) in
      let total : length (filter (in_window w now) (log ++ (now ∷ [])))
          ≡ length (filter (in_window w now) log) + length (filter (in_window w now) (now ∷ [])) =
        rw split sum in
      let one : length (filter (in_window w now) (now ∷ [])) ≤ 1 = ground arith in omega arith
  | inr e ↦ rw (count_at-early w now end log (ground arith)) few
]

Inv-allowed :
    (max w last now : ℕ) (entries log : List ℕ)
    → last ≤ now
    → length (filter (in_window w now) entries) < max
    → Inv max w last entries log
    → Inv max w now (filter (in_window w now) entries ++ (now ∷ [])) (log ++ (now ∷ []))
unfolding Inv
Inv-allowed max w last now entries log h room (same, few) = (
  λ end le.
      let old = filter-later w now end entries le ∙ same end (omega arith) in
      filter-append (in_window w end) (filter (in_window w now) entries) (now ∷ [])
      ∙ ap (λ xs. xs ++ filter (in_window w end) (now ∷ [])) old
      ∙ sym (filter-append (in_window w end) log (now ∷ [])),
  λ end. few_after max w now end log (rw (← same now h) room) (few end),
)

refuse-is_allowed :
    (window_seconds now : ℕ) (kept : List ℕ) → is_allowed (refuse window_seconds now kept) ≡ false
unfolding refuse
refuse-is_allowed window_seconds now [] = refl
refuse-is_allowed window_seconds now (t ∷ kept) = refl

check-Inv :
    (max w last now : ℕ) (key : String) (requests : Requests) (log : List ℕ)
    → last ≤ now
    → Inv max w last (requests key) log
    → let result = check_rate_limit max w now key requests in
      Inv max w now (result.1 key) (if is_allowed result.0 then log ++ (now ∷ []) else log)
unfolding check_rate_limit
check-Inv max w last now key requests log h inv =
    let kept = filter (in_window w now) (requests key) in
    elim (Bool-cases (leb max (length kept))) [
      | inl e ↦
          rw (e, refuse-is_allowed w now kept, set-same key kept requests)
            (Inv-refused max w last now (requests key) log h inv)
      | inr e ↦
          rw (e, set-same key (kept ++ (now ∷ [])) requests)
            (Inv-allowed max w last now (requests key) log h (ground arith) inv)
    ]

run-few :
    (max w : ℕ) (key : String) (times : List ℕ) (last : ℕ) (requests : Requests) (log : List ℕ)
    → IsOrdered last times
    → Inv max w last (requests key) log
    → (end : ℕ) → count_at w end (run max w key times requests log).1 ≤ max
unfolding run Inv
run-few max w key [] last requests log o inv end = inv.1 end
run-few max w key (now ∷ times) last requests log o inv end =
    run-few max w key times now _ _ o.1 (check-Inv max w last now key requests log o.0 inv) end

-- Starting without requests, and with a clock that does not go back, no window of the given length
-- ever holds more than the allowed number of a key's allowed requests, wherever it ends.
pub check_rate_limit-window :
    (max_requests window_seconds : ℕ) (key : String) (times : List ℕ) (end : ℕ)
    → IsOrdered 0 times
    → count_at window_seconds end (run max_requests window_seconds key times (λ k. []) []).1
      ≤ max_requests
unfolding Inv
check_rate_limit-window max_requests window_seconds key times end o =
    run-few max_requests window_seconds key times 0 (λ k. []) [] o (λ e le. refl, λ e. omega arith)
      end

-- A check of one key leaves the requests of every other key as they were.
pub check_rate_limit-others :
    (max_requests window_seconds now : ℕ) (key other : String) (requests : Requests)
    → str_eq other key ≡ false
    → (check_rate_limit max_requests window_seconds now key requests).1 other ≡ requests other
unfolding check_rate_limit
check_rate_limit-others max_requests window_seconds now key other requests h =
    elim (Bool-cases
      (leb max_requests (length (filter (in_window window_seconds now) (requests key))))) [
        | inl e ↦ rw (e, h) refl
        | inr e ↦ rw (e, h) refl
      ]
