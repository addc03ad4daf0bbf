-- ===== src/RateLimiter/Prune.antt =====
-- The periodic cleanup of src/rate-limiter.ts, `pruneExpiredLogs`, on each key's log.
use ssh_mcp_pro.Base.{
  ℕ, ◌≡◌, ◌≢◌, refl, ◌∙◌, String, string_eq, List, [], ◌∷◌, none, some, arith, ◌==◌, inl, inr,
  Bool-cases, Option-cases, subst, ◌⊎◌,
}
use ssh_mcp_pro.Table.{get, IsMap, get-set, get-delete, set-IsMap, delete-IsMap}
use ssh_mcp_pro.RateLimiter.{
  RateLimiter, active, log_of, kept_window, store_active, prune_entry, prune_entries,
  prune_expired_logs,
}

-- Two states agree on a key: its log, its window and the configuration.
abbrev pub SameKey : String → RateLimiter → RateLimiter → Type 0
SameKey k s t =
    (get k t.logs ≡ get k s.logs)
    × (get k t.key_window_ms ≡ get k s.key_window_ms)
    × (t.config ≡ s.config)

store_active-other :
    (k key : String) (log : List ℕ) (s : RateLimiter)
    → key ≢ k
    → SameKey k s (store_active key log s)
unfolding store_active
store_active-other k key [] s ne =
    ground
      (arith, string_eq.equal_iff key k, get-delete key k s.logs, get-delete key k s.key_window_ms)
store_active-other k key (t ∷ log) s ne =
    ground (arith, string_eq.equal_iff key k, get-set key k (t ∷ log) s.logs)

store_active_self :
    (k : String) (log : List ℕ) (s : RateLimiter)
    → (log_of k (store_active k log s) ≡ log)
      × ((store_active k log s).config ≡ s.config)
      × ((log ≡ []) ⊎ (get k (store_active k log s).key_window_ms ≡ get k s.key_window_ms))
unfolding store_active
store_active_self k [] s = ground (arith, string_eq.equal_iff k k, get-delete k k s.logs)
store_active_self k (t ∷ log) s =
    ground (arith, string_eq.equal_iff k k, get-set k k (t ∷ log) s.logs)

prune_entries-other :
    (k : String) (now : ℕ) (entries : List (String × List ℕ)) (s : RateLimiter)
    → get k entries ≡ none
    → SameKey k s (prune_entries now entries s)
unfolding prune_entries prune_entry get
prune_entries-other k now [] s h = (refl, refl, refl)
prune_entries-other k now ((key, log) ∷ entries) s h =
    let next = store_active key (active (kept_window s key) now log) s in
    let ne : key ≢ k = ground (arith, string_eq.equal_iff key k) in
    let (a, b, c) = store_active-other k key (active (kept_window s key) now log) s ne in
    let (d, e, f) = prune_entries-other k now entries next (ground arith) in (d ∙ a, e ∙ b, f ∙ c)

prune_entries_self :
    (k : String) (now : ℕ) (entries : List (String × List ℕ)) (s : RateLimiter) (log : List ℕ)
    → IsMap entries
    → get k entries ≡ some log
    → (log_of k (prune_entries now entries s) ≡ active (kept_window s k) now log)
      × ((prune_entries now entries s).config ≡ s.config)
      × ((log_of k (prune_entries now entries s) ≡ [])
          ⊎ (get k (prune_entries now entries s).key_window_ms ≡ get k s.key_window_ms))
unfolding prune_entries prune_entry get
prune_entries_self k now [] s log u h = absurd (ground arith)
prune_entries_self k now ((key, first) ∷ entries) s log u h = elim (Bool-cases (key == k)) [
  | inl same ↦
      let e : key ≡ k = (string_eq.equal_iff key k).0 same in
      let next = store_active key (active (kept_window s key) now first) s in
      let rest = prune_entries-other k now entries next (subst (λ j. get j entries ≡ none) e u.0) in
      ground (arith, e, rest, store_active_self k (active (kept_window s k) now first) s)
  | inr other ↦
      let next = store_active key (active (kept_window s key) now first) s in
      let ne : key ≢ k = ground (arith, string_eq.equal_iff key k) in
      ground (
        arith,
        store_active-other k key (active (kept_window s key) now first) s ne,
        prune_entries_self k now entries next log u.1,
      )
]

-- A cleanup keeps of each key's log exactly the entries in the key's window, keeps the
-- configuration, and keeps the window of every key that still has entries.
pub log_of-prune :
    (k : String) (s : RateLimiter) (now : ℕ)
    → IsMap s.logs
    → (log_of k (prune_expired_logs s now) ≡ active (kept_window s k) now (log_of k s))
      × ((prune_expired_logs s now).config ≡ s.config)
      × ((log_of k (prune_expired_logs s now) ≡ [])
          ⊎ (get k (prune_expired_logs s now).key_window_ms ≡ get k s.key_window_ms))
unfolding prune_expired_logs
log_of-prune k s now u = elim (Option-cases (get k s.logs)) [
  | inl e ↦ ground (arith, prune_entries-other k now s.logs s e)
  | inr (log, e) ↦ ground (arith, prune_entries_self k now s.logs s log u e)
]

store_active-IsMap :
    (key : String) (log : List ℕ) (s : RateLimiter)
    → IsMap s.logs
    → IsMap (store_active key log s).logs
unfolding store_active
store_active-IsMap key [] s u = delete-IsMap key s.logs u
store_active-IsMap key (t ∷ log) s u = set-IsMap key (t ∷ log) s.logs u

prune_entries-IsMap :
    (now : ℕ) (entries : List (String × List ℕ)) (s : RateLimiter)
    → IsMap s.logs
    → IsMap (prune_entries now entries s).logs
unfolding prune_entries prune_entry
prune_entries-IsMap now [] s u = u
prune_entries-IsMap now ((key, log) ∷ entries) s u =
    prune_entries-IsMap now entries _
      (store_active-IsMap key (active (kept_window s key) now log) s u)

pub prune-IsMap : (s : RateLimiter) (now : ℕ) → IsMap s.logs → IsMap (prune_expired_logs s now).logs
unfolding prune_expired_logs
prune-IsMap s now u = prune_entries-IsMap now s.logs s u
