-- ===== src/RateLimiter/Refinement.antt =====
-- src/rate-limiter.ts against a limiter that never drops anything: per-key logs, expiry at a check and
-- the cleanups are an implementation of it.
use ssh_mcp_pro.Base.{
  ℕ, ◌≡◌, refl, ap, ◌∙◌, true, false, String, string_eq, List, [], ◌∷◌, ◌++◌, if◌then◌else◌, length,
  arith, ◌==◌, inl, inr, Bool-cases, ltb, ◌&&◌,
}
use ssh_mcp_pro.Table.{IsMap}
use ssh_mcp_pro.RateLimiter.{
  RateLimiter, RateLimiterConfig, RateLimitCheckOptions, active, log_of, drop_expired, check, reset,
  prune_expired_logs, prune_entries, prune_entry, store_active, kept_window, max_of, window_of,
}
use ssh_mcp_pro.RateLimiter.Log.{active-eq-drop_expired}
use ssh_mcp_pro.RateLimiter.History.{
  Event, checks, prunes, resets, step, granted, grants, IsRegular,
}
use ssh_mcp_pro.RateLimiter.Bound.{Inv, Inv-step, start-Inv}

-- The abstract limiter of `k` knows every time at which it let a request through: a request is let
-- through when fewer than `M` of them are active.
unfoldable pub spec_granted : String → ℕ → ℕ → List ℕ → Event → List ℕ
spec_granted k M W past (checks key options now) =
    if key == k && ltb (length (active W now past)) M then now ∷ [] else []
spec_granted k M W past _ = []

unfoldable pub spec_grants : String → ℕ → ℕ → List ℕ → List Event → List ℕ
unfolding spec_granted
spec_grants k M W past [] = []
spec_grants k M W past (e ∷ events) =
    spec_granted k M W past e ++ spec_grants k M W (past ++ spec_granted k M W past e) events

check-allowed :
    (s : RateLimiter) (k : String) (options : RateLimitCheckOptions) (now : ℕ)
    → s.destroyed ≡ false
    → s.config.block_on_limit ≡ true
    → (check s k options now).1.allowed
      ≡ ltb (length (drop_expired (window_of s options) now (log_of k s))) (max_of s options)
unfolding check
check-allowed s k options now running blocks = ground arith

store_active-destroyed :
    (key : String) (log : List ℕ) (s : RateLimiter)
    → (store_active key log s).destroyed ≡ s.destroyed
unfolding store_active
store_active-destroyed key [] s = refl
store_active-destroyed key (t ∷ log) s = refl

prune_entries-destroyed :
    (now : ℕ) (entries : List (String × List ℕ)) (s : RateLimiter)
    → (prune_entries now entries s).destroyed ≡ s.destroyed
unfolding prune_entries prune_entry
prune_entries-destroyed now [] s = refl
prune_entries-destroyed now ((key, log) ∷ entries) s =
    prune_entries-destroyed now entries (prune_entry now (key, log) s)
    ∙ store_active-destroyed key (active (kept_window s key) now log) s

check-destroyed :
    (s : RateLimiter) (k : String) (options : RateLimitCheckOptions) (now : ℕ)
    → (check s k options now).0.destroyed ≡ s.destroyed
unfolding check
check-destroyed s k options now = ground arith

step-destroyed : (s : RateLimiter) (e : Event) → (step s e).destroyed ≡ s.destroyed
unfolding step reset prune_expired_logs
step-destroyed s (checks key options now) = check-destroyed s key options now
step-destroyed s (prunes now) = prune_entries-destroyed now s.logs s
step-destroyed s (resets key) = refl

module _ {k : String} {M W : ℕ} {c : RateLimiterConfig} {s : RateLimiter} {past : List ℕ}
    {last : ℕ} where
  granted-agrees :
      (e : Event) (events : List Event)
      → Inv k M W c s past last
      → c.block_on_limit ≡ true
      → s.destroyed ≡ false
      → IsRegular k M W c last (e ∷ events)
      → granted k s e ≡ spec_granted k M W past e
  unfolding granted spec_granted
  granted-agrees (checks key options now) events v blocks running (h, limits, _) =
      elim (Bool-cases (key == k)) [
        | inl same ↦ elim limits [
          | inl ne ↦ absurd (ne ((string_eq.equal_iff key k).0 same))
          | inr (em, ew) ↦ ground (
            arith,
            string_eq.equal_iff key k,
            v.config,
            blocks,
            running,
            em,
            ew,
            check-allowed s key options now,
            v.agrees now h,
            active-eq-drop_expired W now 0 past v.past_ascending,
          )
        ]
        | inr other ↦ rw other refl
      ]
  granted-agrees (prunes now) events v blocks running r = refl
  granted-agrees (resets key) events v blocks running r = refl

grants-refine :
    (k : String) (M W : ℕ) (c : RateLimiterConfig) (s : RateLimiter) (past : List ℕ) (last : ℕ)
    (events : List Event)
    → Inv k M W c s past last
    → c.block_on_limit ≡ true
    → s.destroyed ≡ false
    → IsRegular k M W c last events
    → grants k s events ≡ spec_grants k M W past events
unfolding grants spec_grants
grants-refine k M W c s past last [] v b d r = refl
grants-refine k M W c s past last (e ∷ events) v b d r =
    let (next, v', r') = Inv-step e events b v r in
    rw (← granted-agrees e events v b d r) (
      ap (λ rest. granted k s e ++ rest)
        (grants-refine k M W c (step s e) (past ++ granted k s e) next events v' b
          (step-destroyed s e ∙ d) r'))

-- The limiter lets through what a limiter that forgets nothing lets through: from a state with no log
-- for `k` on, if it blocks and is not destroyed, and for every history in the order of the clock whose
-- checks of `k` have the limit `M` and the window `W` and which does not reset `k`, the times that
-- `grants` lists are those of `spec_grants`, which lets a request of `k` through exactly when fewer
-- than `M` of all the earlier ones are younger than `W`.
pub grants-eq-spec_grants :
    (k : String) (M W : ℕ) (s : RateLimiter) (last : ℕ) (events : List Event)
    → IsMap s.logs
    → log_of k s ≡ []
    → s.config.block_on_limit ≡ true
    → s.destroyed ≡ false
    → IsRegular k M W s.config last events
    → grants k s events ≡ spec_grants k M W [] events
grants-eq-spec_grants k M W s last events u e b d r =
    grants-refine k M W s.config s [] last events (start-Inv k M W s last u e) b d r
