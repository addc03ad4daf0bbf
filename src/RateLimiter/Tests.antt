-- ===== src/RateLimiter/Tests.antt =====
-- Runs of src/rate-limiter.ts: two keys, a limit of two checks in 1000 ms.
use ssh_mcp_pro.Base.{
  ◌+◌, ◌≡◌, ◌≢◌, ◌≤◌, inl, inr, refl, true, false, String, string_eq, List, [], ◌∷◌, none, arith,
}
use ssh_mcp_pro.Table.{get, IsMap}
use ssh_mcp_pro.RateLimiter.{
  RateLimiter, RateLimitCheckOptions, create, check, get_usage, prune_expired_logs, prune_entries,
  prune_entry, store_active, drop_expired, reset,
}
use ssh_mcp_pro.RateLimiter.Log.{count_in}
use ssh_mcp_pro.RateLimiter.History.{
  Event, checks, prunes, resets, grants, granted, step, IsRegular,
}
use ssh_mcp_pro.RateLimiter.Bound.{grants-le-max_requests}
use ssh_mcp_pro.RateLimiter.Refinement.{spec_grants, grants-eq-spec_grants}
use ssh_mcp_pro.RateLimiter.Isolation.{check-isolated, check-prune}

abbrev defaults : RateLimitCheckOptions
defaults = record { max_requests = none; window_ms = none }

abbrev limiter : RateLimiter
limiter = record {
  logs = ("a", 100 ∷ 200 ∷ []) ∷ ("b", 150 ∷ []) ∷ [];
  key_window_ms = ("a", 1000) ∷ ("b", 1000) ∷ [];
  config = record { max_requests = 2; window_ms = 1000; block_on_limit = true };
  cleanup_timer = true;
  destroyed = false;
}

limiter_distinct : IsMap limiter.logs
unfolding ssh_mcp_pro.Table.get
limiter_distinct = (refl, (refl, tt))

abbrev history : List Event
history =
    checks "c" defaults 300
    ∷ checks "a" defaults 400
    ∷ checks "c" defaults 500
    ∷ prunes 600
    ∷ checks "c" defaults 700
    ∷ resets "b"
    ∷ checks "c" defaults 1350
    ∷ []

a_not_c : ◌≢◌ {A = String} "a" "c"
a_not_c = ground (arith, string_eq.equal_iff "a" "c")

b_not_c : ◌≢◌ {A = String} "b" "c"
b_not_c = ground (arith, string_eq.equal_iff "b" "c")

-- The third check of the key within the window is refused, the fourth comes after it.
grants_of_history : grants "c" limiter history ≡ 300 ∷ 500 ∷ 1350 ∷ []
unfolding grants granted step create check prune_expired_logs prune_entries prune_entry store_active
    drop_expired reset ssh_mcp_pro.Table.get ssh_mcp_pro.Table.set ssh_mcp_pro.Table.delete
grants_of_history = refl

history-IsRegular : IsRegular "c" 2 1000 limiter.config 0 history
history-IsRegular = (
  omega arith,
  inr (refl, refl),
  (
    omega arith,
    inl a_not_c,
    (
      omega arith,
      inr (refl, refl),
      (
        omega arith,
        (omega arith, inr (refl, refl), (b_not_c, (omega arith, inr (refl, refl), tt))),
      ),
    ),
  ),
)

grants-le-max_requests_example : count_in 200 (200 + 1000) (grants "c" limiter history) ≤ 2
unfolding ssh_mcp_pro.Table.get
grants-le-max_requests_example =
    grants-le-max_requests "c" 2 1000 limiter 0 history limiter_distinct refl refl history-IsRegular
      200

grants-eq-spec_grants_example : grants "c" limiter history ≡ spec_grants "c" 2 1000 [] history
unfolding ssh_mcp_pro.Table.get
grants-eq-spec_grants_example =
    grants-eq-spec_grants "c" 2 1000 limiter 0 history limiter_distinct refl refl refl
      history-IsRegular

check-isolated_example :
    ((check (check limiter "a" defaults 300).0 "b" defaults 400).1
      ≡ (check limiter "b" defaults 400).1)
    × (get_usage (check limiter "a" defaults 300).0 "b" defaults 400
        ≡ get_usage limiter "b" defaults 400)
check-isolated_example =
    check-isolated limiter "a" "b" defaults defaults 300 400
      (ground (arith, string_eq.equal_iff "a" "b"))

check-prune_example :
    (check (prune_expired_logs limiter 1150) "a" defaults 1160).1
    ≡ (check limiter "a" defaults 1160).1
unfolding ssh_mcp_pro.Table.get
check-prune_example =
    check-prune limiter "a" defaults 1150 1160 limiter_distinct (omega arith, (omega arith, tt))
      refl (omega arith)
