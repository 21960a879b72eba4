-- ===== src/Auth/Limiter.antt =====
-- backend/app/core/rate_limiter.py: the sliding window over the times of a key's requests.
-- Times are in microseconds, as datetime keeps them. `_requests` is a function from keys to lists,
-- like the defaultdict, whose missing keys read as the empty list. `get_client_ip` is left out.
pub mod Window
pub mod Tests
use Prim.Native.String.{String}
use text.Mathlib.Text.{◌==◌ as str_eq}
use smart_salary_india.Base.{
  ℕ, ◌+◌, ◌-◌, ◌*◌, ◌/◌, Bool, List, [], ◌∷◌, ◌++◌, leb, ltb, if◌then◌else◌, filter, length,
}

abbrev pub Requests : Type 0
Requests = String → List ℕ

-- `ts > cutoff`, with the cutoff a window before now
abbrev pub in_window : ℕ → ℕ → ℕ → Bool
in_window window_seconds now ts = ltb now (ts + window_seconds * 1_000_000)

-- `cls._requests[key] = times`
abbrev pub set : String → List ℕ → Requests → Requests
set key times requests k = if str_eq k key then times else requests k

-- How a check ends: with a return, with RateLimitExceeded and its seconds to wait, or with the
-- IndexError of an empty list when no request is allowed at all.
pub data Check : Type 0 where
  allowed : Check
  exceeded : ℕ → Check
  index_error : Check

-- The answer to a key with too many requests, by the oldest one.
unfoldable pub refuse : ℕ → ℕ → List ℕ → Check
refuse window_seconds now [] = index_error
refuse window_seconds now (oldest ∷ _) =
    exceeded ((oldest + window_seconds * 1_000_000 - now) / 1_000_000)

-- `check_rate_limit`
unfoldable pub check_rate_limit : ℕ → ℕ → ℕ → String → Requests → Check × Requests
check_rate_limit max_requests window_seconds now key requests =
    let kept = filter (in_window window_seconds now) (requests key) in
    if leb max_requests (length kept)
    then (refuse window_seconds now kept, set key kept requests)
    else (allowed, set key (kept ++ (now ∷ [])) requests)
