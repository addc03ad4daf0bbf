-- ===== src/RateLimiter/Isolation.antt =====
-- What one call of src/rate-limiter.ts tells about other keys and about the periodic cleanup.
use mathlib.Core.List.{append-nil}
use ssh_mcp_pro.Base.{
  Option, ℕ, ◌≤◌, ◌≡◌, ◌≢◌, refl, ap, sym, ◌∙◌, String, string_eq, List, [], ◌∷◌, or_else, arith,
}
use ssh_mcp_pro.Table.{get, IsMap}
use ssh_mcp_pro.RateLimiter.{
  RateLimiter, RateLimitCheckOptions, RateLimiterConfig, usage_in, active, log_of, kept_window,
  drop_expired, check, get_usage, prune_entries, prune_entry, store_active, prune_expired_logs,
  window_of,
}
use ssh_mcp_pro.RateLimiter.Prune.{log_of-prune}
use ssh_mcp_pro.RateLimiter.Window.{check-other}
use ssh_mcp_pro.RateLimiter.Log.{IsAscending, active-eq-drop_expired, drop_expired_later}

-- The verdict depends on the key's trimmed log, the configuration and `destroyed` alone.
check-verdict :
    (s t : RateLimiter) (k : String) (options : RateLimitCheckOptions) (now : ℕ)
    → drop_expired (window_of s options) now (log_of k t)
      ≡ drop_expired (window_of s options) now (log_of k s)
    → t.config ≡ s.config
    → t.destroyed ≡ s.destroyed
    → (check t k options now).1 ≡ (check s k options now).1
unfolding check
check-verdict s t k options now e c d = ground arith

usage-same :
    (s t : RateLimiter) (k : String) (options : RateLimitCheckOptions) (now : ℕ)
    → get k t.logs ≡ get k s.logs
    → get k t.key_window_ms ≡ get k s.key_window_ms
    → t.config ≡ s.config
    → get_usage t k options now ≡ get_usage s k options now
unfolding get_usage
usage-same s t k options now log window config = same log window config
  where
    same :
        {l l' : Option (List ℕ)} {w w' : Option ℕ} {c c' : RateLimiterConfig}
        → l ≡ l'
        → w ≡ w'
        → c ≡ c'
        → usage_in
            (or_else options.max_requests c.max_requests)
            (or_else options.window_ms (or_else w c.window_ms))
            now
            l
          ≡ usage_in
              (or_else options.max_requests c'.max_requests)
              (or_else options.window_ms (or_else w' c'.window_ms))
              now
              l'
    same p q r = cc

check-destroyed :
    (s : RateLimiter) (key : String) (options : RateLimitCheckOptions) (now : ℕ)
    → (check s key options now).0.destroyed ≡ s.destroyed
unfolding check
check-destroyed s key options now = ground arith

-- A check of one key changes neither the verdict of a check of any other key, with any options and
-- at any time, nor that key's reported usage.
pub check-isolated :
    (s : RateLimiter) (key k : String) (options other : RateLimitCheckOptions) (now later : ℕ)
    → key ≢ k
    → ((check (check s key options now).0 k other later).1 ≡ (check s k other later).1)
      × (get_usage (check s key options now).0 k other later ≡ get_usage s k other later)
check-isolated s key k options other now later ne =
    let t = (check s key options now).0 in
    let (log, window, config) = check-other k s key options now ne in
    (
      check-verdict s t k other later
          (ap (λ o. drop_expired (window_of s other) later (or_else o [])) log) config
          (check-destroyed s key options now),
      usage-same s t k other later log window config,
    )

store_active-destroyed :
    (key : String) (log : List ℕ) (s : RateLimiter)
    → (store_active key log s).destroyed ≡ s.destroyed
unfolding store_active
store_active-destroyed key [] s = refl
store_active-destroyed key (t ∷ log) s = refl

prune_entries-destroyed :
    (now : ℕ) (entries : List (String × List ℕ)) (s : RateLimiter)
    → (prune_entries now entries s).destroyed ≡ s.destroyed
unfolding prune_entries prune_entry
prune_entries-destroyed now [] s = refl
prune_entries-destroyed now ((key, log) ∷ entries) s =
    prune_entries-destroyed now entries _
    ∙ store_active-destroyed key (active (kept_window s key) now log) s

-- The periodic cleanup at `t` does not change the verdict of a later check, if the log of the key is
-- in order of time and the check uses the window that the key was last checked with.
pub check-prune :
    (s : RateLimiter) (k : String) (options : RateLimitCheckOptions) (t now : ℕ)
    → IsMap s.logs
    → IsAscending 0 (log_of k s)
    → kept_window s k ≡ window_of s options
    → t ≤ now
    → (check (prune_expired_logs s t) k options now).1 ≡ (check s k options now).1
unfolding prune_expired_logs
check-prune s k options t now u a w h =
    let (log, config, _) = log_of-prune k s t u in
    let W = window_of s options in
    let kept : log_of k (prune_expired_logs s t) ≡ drop_expired W t (log_of k s) =
      log ∙ ap (λ n. active n t (log_of k s)) w ∙ active-eq-drop_expired W t 0 (log_of k s) a in
    check-verdict s (prune_expired_logs s t) k options now
      (ap (drop_expired W now) kept
        ∙ ap (drop_expired W now) (sym (append-nil _))
        ∙ drop_expired_later W t now (log_of k s) [] h
        ∙ ap (drop_expired W now) (append-nil _))
      config (prune_entries-destroyed t s.logs s)
