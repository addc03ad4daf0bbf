-- ===== src/RateLimiter.antt =====
-- src/rate-limiter.ts: the sliding window log of each key. Times are milliseconds of `Date.now()`,
-- an argument of each call. `t <= now - w` is written `t + w <= now`. Log lines and the interval
-- timer itself are left out; `cleanup_timer` says whether it runs.
pub mod Prune
pub mod Log
pub mod Window
pub mod History
pub mod Bound
pub mod Refinement
pub mod Isolation
mod Tests
use ssh_mcp_pro.Base.{
  ℕ, ◌+◌, ◌-◌, Bool, true, false, not, String, string_eq, List, [], ◌∷◌, ◌++◌, Option, none, some,
  if◌then◌else◌, leb, ltb, length, filter, first, or_else,
}
use ssh_mcp_pro.Table.{Table, get, set, delete}

pub record RateLimiterConfig : Type 0 where
  pub max_requests : ℕ
  pub window_ms : ℕ
  pub block_on_limit : Bool

pub record RateLimitResult : Type 0 where
  pub allowed : Bool
  pub remaining : ℕ
  pub reset_in : ℕ
  pub blocked : Bool

pub record RateLimitCheckOptions : Type 0 where
  pub max_requests : Option ℕ
  pub window_ms : Option ℕ

pub record RateLimiter : Type 0 where
  pub logs : Table String (List ℕ)
  pub key_window_ms : Table String ℕ
  pub config : RateLimiterConfig
  pub cleanup_timer : Bool
  pub destroyed : Bool

pub create : Option ℕ → Option ℕ → Option Bool → RateLimiter
create max_requests window_ms block_on_limit = record {
  logs = [];
  key_window_ms = [];
  config = record {
    max_requests = or_else max_requests 100;
    window_ms = or_else window_ms 60000;
    block_on_limit = or_else block_on_limit true;
  };
  cleanup_timer = true;
  destroyed = false;
}

-- The `while` loop that skips expired entries at the front, and the `splice`.
pub drop_expired : ℕ → ℕ → List ℕ → List ℕ
drop_expired window now [] = []
drop_expired window now (t ∷ log) =
    let rest = drop_expired window now log in if leb (t + window) now then rest else t ∷ log

-- `log.filter((timestamp) => timestamp > cutoff)`.
abbrev pub active : ℕ → ℕ → List ℕ → List ℕ
active window now = filter (λ t. ltb now (t + window))

abbrev pub max_of : RateLimiter → RateLimitCheckOptions → ℕ
max_of s options = or_else options.max_requests s.config.max_requests

abbrev pub window_of : RateLimiter → RateLimitCheckOptions → ℕ
window_of s options = or_else options.window_ms s.config.window_ms

abbrev pub log_of : String → RateLimiter → List ℕ
log_of key s = or_else (get key s.logs) []

abbrev over_limit : RateLimiter → List ℕ → ℕ → ℕ → RateLimitResult
over_limit s log window now = record {
  allowed = not s.config.block_on_limit;
  remaining = 0;
  reset_in = or_else (first log) now + window - now;
  blocked = s.config.block_on_limit;
}

pub check : RateLimiter → String → RateLimitCheckOptions → ℕ → RateLimiter × RateLimitResult
unfolding drop_expired
check s key options now =
    if s.destroyed
    then (s, record { allowed = false; remaining = 0; reset_in = 0; blocked = true })
    else let max_requests = max_of s options in
      let window = window_of s options in
      let log = drop_expired window now (log_of key s) in
      let windows = set key window s.key_window_ms in
      if leb max_requests (length log)
      then (
        record s { logs = set key log s.logs; key_window_ms = windows },
        over_limit s log window now,
      )
      else (
        record s { logs = set key (log ++ now ∷ []) s.logs; key_window_ms = windows },
        record {
          allowed = true;
          remaining = max_requests - length (log ++ now ∷ []);
          reset_in = window;
          blocked = false;
        },
      )

pub reset : RateLimiter → String → RateLimiter
reset s key = record s { logs = delete key s.logs; key_window_ms = delete key s.key_window_ms }

pub record Usage : Type 0 where
  pub count : ℕ
  pub remaining : ℕ
  pub reset_in : ℕ

pub usage_of : ℕ → ℕ → ℕ → List ℕ → Option Usage
usage_of max_requests window now [] = none
usage_of max_requests window now (oldest ∷ rest) = some (record {
  count = length (oldest ∷ rest);
  remaining = max_requests - length (oldest ∷ rest);
  reset_in = oldest + window - now;
})

pub usage_in : ℕ → ℕ → ℕ → Option (List ℕ) → Option Usage
unfolding usage_of
usage_in max_requests window now none = none
usage_in max_requests window now (some log) =
    usage_of max_requests window now (active window now log)

pub get_usage : RateLimiter → String → RateLimitCheckOptions → ℕ → Option Usage
unfolding usage_in
get_usage s key options now =
    usage_in (max_of s options)
      (or_else options.window_ms (or_else (get key s.key_window_ms) s.config.window_ms)) now
      (get key s.logs)

-- The body of the loop of `pruneExpiredLogs`, after the filter.
pub store_active : String → List ℕ → RateLimiter → RateLimiter
store_active key [] s = record s {
  logs = delete key s.logs;
  key_window_ms = delete key s.key_window_ms;
}
store_active key (t ∷ log) s = record s { logs = set key (t ∷ log) s.logs }

-- The window that the cleanup uses for a key.
abbrev pub kept_window : RateLimiter → String → ℕ
kept_window s key = or_else (get key s.key_window_ms) s.config.window_ms

pub prune_entry : ℕ → String × List ℕ → RateLimiter → RateLimiter
unfolding store_active
prune_entry now (key, log) s = store_active key (active (kept_window s key) now log) s

pub prune_entries : ℕ → List (String × List ℕ) → RateLimiter → RateLimiter
prune_entries now [] s = s
prune_entries now (entry ∷ entries) s = prune_entries now entries (prune_entry now entry s)

pub prune_expired_logs : RateLimiter → ℕ → RateLimiter
prune_expired_logs s now = prune_entries now s.logs s

pub destroy : RateLimiter → RateLimiter
destroy s = record s { cleanup_timer = false; logs = []; key_window_ms = []; destroyed = true }
