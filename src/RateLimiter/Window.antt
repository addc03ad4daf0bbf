-- ===== src/RateLimiter/Window.antt =====
-- One check of src/rate-limiter.ts: what it does to its own key and to the others.
use ssh_mcp_pro.Base.{
  ℕ, ◌≤◌, ◌<◌, ◌≡◌, ◌≢◌, Bool, true, false, String, string_eq, [], ◌∷◌, ◌++◌, some, leb, length,
  arith, inl, inr, Bool-cases, not,
}
use ssh_mcp_pro.Table.{get, IsMap, get-set, set-IsMap}
use ssh_mcp_pro.RateLimiter.{
  RateLimiter, RateLimitCheckOptions, log_of, drop_expired, check, max_of, window_of,
}
use ssh_mcp_pro.RateLimiter.Prune.{SameKey}

pub check-other :
    (k : String) (s : RateLimiter) (key : String) (options : RateLimitCheckOptions) (now : ℕ)
    → key ≢ k
    → SameKey k s (check s key options now).0
unfolding check
check-other k s key options now ne =
    let log = drop_expired (window_of s options) now (log_of key s) in
    ground (
      arith,
      string_eq.equal_iff key k,
      get-set key k log s.logs,
      get-set key k (log ++ now ∷ []) s.logs,
      get-set key k (window_of s options) s.key_window_ms,
    )

-- What a check does to its own key.
pub data Checked (k : String) (M W now : ℕ) (s : RateLimiter) (t : RateLimiter) (allowed : Bool)
    : Type 0 where
  refused : t ≡ s → allowed ≡ false → Checked k M W now s t allowed
  limited :
      log_of k t ≡ drop_expired W now (log_of k s)
      → get k t.key_window_ms ≡ some W
      → allowed ≡ not s.config.block_on_limit
      → M ≤ length (drop_expired W now (log_of k s))
      → Checked k M W now s t allowed
  admitted :
      log_of k t ≡ drop_expired W now (log_of k s) ++ now ∷ []
      → get k t.key_window_ms ≡ some W
      → allowed ≡ true
      → length (drop_expired W now (log_of k s)) < M
      → Checked k M W now s t allowed

pub check-Checked :
    (k : String) (s : RateLimiter) (options : RateLimitCheckOptions) (now : ℕ)
    → Checked k
        (max_of s options)
        (window_of s options)
        now
        s
        (check s k options now).0
        (check s k options now).1.allowed
unfolding check
check-Checked k s options now =
    let log = drop_expired (window_of s options) now (log_of k s) in
    elim (Bool-cases s.destroyed) [
      | inl e ↦ refused (ground arith) (ground arith)
      | inr e ↦ elim (Bool-cases (leb (max_of s options) (length log))) [
        | inl over ↦
            limited (ground (arith, get-set k k log s.logs, string_eq.equal_iff k k))
              (ground
                (arith, get-set k k (window_of s options) s.key_window_ms, string_eq.equal_iff k k))
              (ground arith) (ground arith)
        | inr under ↦
            admitted (ground (arith, get-set k k (log ++ now ∷ []) s.logs, string_eq.equal_iff k k))
              (ground
                (arith, get-set k k (window_of s options) s.key_window_ms, string_eq.equal_iff k k))
              (ground arith) (ground arith)
      ]
    ]

pub check-IsMap :
    (s : RateLimiter) (key : String) (options : RateLimitCheckOptions) (now : ℕ)
    → IsMap s.logs
    → IsMap (check s key options now).0.logs
unfolding check
check-IsMap s key options now u =
    let log = drop_expired (window_of s options) now (log_of key s) in
    ground (arith, set-IsMap key log s.logs u, set-IsMap key (log ++ now ∷ []) s.logs u)

pub check-config :
    (s : RateLimiter) (key : String) (options : RateLimitCheckOptions) (now : ℕ)
    → (check s key options now).0.config ≡ s.config
unfolding check
check-config s key options now = ground arith
