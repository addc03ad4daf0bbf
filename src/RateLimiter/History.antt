-- ===== src/RateLimiter/History.antt =====
-- Histories of the limiter of src/rate-limiter.ts: checks, cleanups and resets, and the requests of
-- a key that they let through.
use ssh_mcp_pro.Base.{
  ℕ, ◌≤◌, ◌≡◌, ◌≢◌, String, string_eq, List, [], ◌∷◌, ◌++◌, if◌then◌else◌, or_else, ◌==◌, ◌⊎◌, ◌&&◌,
}
use ssh_mcp_pro.RateLimiter.{
  RateLimiter, RateLimiterConfig, RateLimitCheckOptions, check, reset, prune_expired_logs,
}

pub data Event : Type 0 where
  checks : String → RateLimitCheckOptions → ℕ → Event
  prunes : ℕ → Event
  resets : String → Event

unfoldable pub step : RateLimiter → Event → RateLimiter
step s (checks key options now) = (check s key options now).0
step s (prunes now) = prune_expired_logs s now
step s (resets key) = reset s key

-- The time at which an event lets a request of `k` through.
unfoldable pub granted : String → RateLimiter → Event → List ℕ
granted k s (checks key options now) =
    if key == k && (check s key options now).1.allowed then now ∷ [] else []
granted k s _ = []

-- All such times of a history, in order.
unfoldable pub grants : String → RateLimiter → List Event → List ℕ
unfolding granted step
grants k s [] = []
grants k s (e ∷ events) = granted k s e ++ grants k (step s e) events

-- The clock does not run backwards, every check of `k` has the limit `M` and the window `W`, and
-- `k` is not reset.
abbrev pub IsRegular : String → ℕ → ℕ → RateLimiterConfig → ℕ → List Event → Type 0
IsRegular k M W c last [] = Unit
IsRegular k M W c last (checks key options now ∷ events) =
    (last ≤ now)
    × ((key ≢ k)
        ⊎ ((or_else options.max_requests c.max_requests ≡ M)
            × (or_else options.window_ms c.window_ms ≡ W)))
    × IsRegular k M W c now events
IsRegular k M W c last (prunes now ∷ events) = (last ≤ now) × IsRegular k M W c now events
IsRegular k M W c last (resets key ∷ events) = (key ≢ k) × IsRegular k M W c last events
