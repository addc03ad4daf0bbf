-- ===== src/RateLimiter/Bound.antt =====
-- The limit of src/rate-limiter.ts over whole histories.
use ssh_mcp_pro.Base.{
  ℕ, ◌+◌, ◌≤◌, ◌<◌, ◌≡◌, ◌≢◌, refl, ap, ◌∙◌, Bool, true, false, String, string_eq, List, [], ◌∷◌,
  ◌++◌, some, if◌then◌else◌, sym, All-append, length, or_else, arith, ◌==◌, inl, inr, Bool-cases,
  subst, ◌⊎◌, not, All,
}
use native.Mathlib.Nat.{le_refl}
use mathlib.Core.List.{append_assoc, append-nil}
use ssh_mcp_pro.Table.{get, IsMap, get-delete, delete-IsMap}
use ssh_mcp_pro.RateLimiter.{
  RateLimiter, RateLimiterConfig, RateLimitCheckOptions, active, log_of, kept_window, drop_expired,
  check, reset, prune_expired_logs, max_of, window_of,
}
use ssh_mcp_pro.RateLimiter.Prune.{SameKey, log_of-prune, prune-IsMap}
use ssh_mcp_pro.RateLimiter.Window.{
  Checked, refused, limited, admitted, check-Checked, check-other, check-IsMap, check-config,
}
use ssh_mcp_pro.RateLimiter.Log.{
  drop_expired_later, IsAscending, active-eq-drop_expired, drop_expired-IsAscending,
  append-IsAscending, drop_expired-All, All-mono, count_in, count_in-append,
  count_in-le-drop_expired,
}
use ssh_mcp_pro.RateLimiter.History.{
  Event, checks, prunes, resets, step, granted, grants, IsRegular,
}

settled : {P Q : Type 0} → ¬ P → P ⊎ Q → Q
settled no_p (inl p) = absurd (no_p p)
settled no_p (inr q) = q

reset-other : (k : String) (s : RateLimiter) (key : String) → key ≢ k → SameKey k s (reset s key)
unfolding reset
reset-other k s key ne =
    ground
      (arith, string_eq.equal_iff key k, get-delete key k s.logs, get-delete key k s.key_window_ms)

-- The state at time `last`, after requests of `k` were let through at the times `past`.
pub record Inv (k : String) (M W : ℕ) (c : RateLimiterConfig) (s : RateLimiter) (past : List ℕ)
    (last : ℕ) : Type 0 where
  pub config : s.config ≡ c
  distinct : IsMap s.logs
  pub agrees : (now : ℕ) → last ≤ now → drop_expired W now (log_of k s) ≡ drop_expired W now past
  ascending : IsAscending 0 (log_of k s)
  earlier : All (λ t. t ≤ last) (log_of k s)
  window : (log_of k s ≡ []) ⊎ (get k s.key_window_ms ≡ some W)
  bounded : (a : ℕ) → count_in a (a + W) past ≤ M
  pub past_ascending : IsAscending 0 past
  past_earlier : All (λ t. t ≤ last) past

module _ {k : String} {M W : ℕ} {c : RateLimiterConfig} {s : RateLimiter} {past : List ℕ} {last : ℕ}
    (v : Inv k M W c s past last) where
  -- The log of `k` loses only what has expired at `now`.
  Inv-trimmed :
      (t : RateLimiter) (now : ℕ)
      → last ≤ now
      → t.config ≡ s.config
      → IsMap t.logs
      → log_of k t ≡ drop_expired W now (log_of k s)
      → (log_of k t ≡ []) ⊎ (get k t.key_window_ms ≡ some W)
      → Inv k M W c t past now
  Inv-trimmed t now h same u e w = record {
    config = same ∙ v.config;
    distinct = u;
    agrees = λ later h'. rw e (
        ap (drop_expired W later) (sym (append-nil _))
        ∙ drop_expired_later W now later (log_of k s) [] h'
        ∙ ap (drop_expired W later) (append-nil _)
        ∙ v.agrees later (omega arith));
    ascending = rw e (drop_expired-IsAscending W now 0 (log_of k s) v.ascending);
    earlier =
        rw e (drop_expired-All W now now (log_of k s) (All-mono last now (log_of k s) h v.earlier));
    window = w;
    bounded = v.bounded;
    past_ascending = v.past_ascending;
    past_earlier = All-mono last now past h v.past_earlier;
  }

  Inv-admitted :
      (t : RateLimiter) (now : ℕ)
      → last ≤ now
      → t.config ≡ s.config
      → IsMap t.logs
      → log_of k t ≡ drop_expired W now (log_of k s) ++ now ∷ []
      → get k t.key_window_ms ≡ some W
      → length (drop_expired W now (log_of k s)) < M
      → Inv k M W c t (past ++ now ∷ []) now
  Inv-admitted t now h same u e w few = record {
    config = same ∙ v.config;
    distinct = u;
    agrees = λ later h'. rw e (appended later h');
    ascending = rw e (
        append-IsAscending 0 now (drop_expired W now (log_of k s))
          (drop_expired-IsAscending W now 0 (log_of k s) v.ascending) before (omega arith));
    earlier =
        rw e (All-append (λ t. t ≤ now) (drop_expired W now (log_of k s)) _ before (omega arith));
    window = inr w;
    bounded = λ a. within a;
    past_ascending = append-IsAscending 0 now past v.past_ascending before_past (omega arith);
    past_earlier = All-append (λ t. t ≤ now) past _ before_past (omega arith);
  }
    where
      before_past : All (λ t. t ≤ now) past
      before_past = All-mono last now past h v.past_earlier

      before : All (λ t. t ≤ now) (drop_expired W now (log_of k s))
      before = drop_expired-All W now now (log_of k s) (All-mono last now (log_of k s) h v.earlier)

      appended :
          (later : ℕ)
          → now ≤ later
          → drop_expired W later (drop_expired W now (log_of k s) ++ now ∷ [])
            ≡ drop_expired W later (past ++ now ∷ [])
      appended later h' = rw (v.agrees now h) (drop_expired_later W now later past (now ∷ []) h')

      within : (a : ℕ) → count_in a (a + W) (past ++ now ∷ []) ≤ M
      within a = ground (
        arith,
        count_in-append a (a + W) now past,
        v.bounded a,
        count_in-le-drop_expired W now a past,
        ap length (v.agrees now h),
      )

  -- The state of `k` is untouched.
  Inv-same :
      (t : RateLimiter) (now : ℕ)
      → last ≤ now
      → SameKey k s t
      → IsMap t.logs
      → Inv k M W c t past now
  Inv-same t now h (log, window, config) u =
      let same : log_of k t ≡ log_of k s = ap (λ o. or_else o []) log in
      record {
        config = config ∙ v.config;
        distinct = u;
        agrees = λ later h'. rw same (v.agrees later (omega arith));
        ascending = rw same v.ascending;
        earlier = rw same (All-mono last now (log_of k s) h v.earlier);
        window = rw (same, window) v.window;
        bounded = v.bounded;
        past_ascending = v.past_ascending;
        past_earlier = All-mono last now past h v.past_earlier;
      }

  Inv-check :
      (options : RateLimitCheckOptions) (now : ℕ)
      → last ≤ now
      → c.block_on_limit ≡ true
      → (max_of s options ≡ M)
      → (window_of s options ≡ W)
      → Inv k M W c
          (check s k options now).0
          (past ++ (if (check s k options now).1.allowed then now ∷ [] else []))
          now
  Inv-check options now h blocks em ew =
      elim (subst (λ n. Checked k n W now s t allowed) em
        (subst (λ n. Checked k (max_of s options) n now s t allowed) ew
          (check-Checked k s options now))) [
            | refused e r ↦
                rw (r, append-nil past)
                  (Inv-same t now h (subst (SameKey k s) (sym e) (refl, refl, refl)) u)
            | limited e w r full ↦
                let denied : allowed ≡ false =
                  r ∙ ap not (ap (λ d. d.block_on_limit) v.config ∙ blocks) in
                rw (denied, append-nil past)
                  (Inv-trimmed t now h (check-config s k options now) u e (inr w))
            | admitted e w r few ↦
                rw r (Inv-admitted t now h (check-config s k options now) u e w few)
          ]
    where
      t : RateLimiter
      t = (check s k options now).0

      allowed : Bool
      allowed = (check s k options now).1.allowed

      u : IsMap t.logs
      u = check-IsMap s k options now v.distinct

  Inv-prune : (now : ℕ) → last ≤ now → Inv k M W c (prune_expired_logs s now) past now
  Inv-prune now h =
      let (log, config, window) = log_of-prune k s now v.distinct in
      elim v.window [
        | inl empty ↦
            let gone : log_of k (prune_expired_logs s now) ≡ [] =
              log ∙ ap (active (kept_window s k) now) empty in
            Inv-trimmed (prune_expired_logs s now) now h config (prune-IsMap s now v.distinct)
              (gone ∙ sym (ap (drop_expired W now) empty ∙ unfold drop_expired in refl)) (inl gone)
        | inr w ↦
            Inv-trimmed (prune_expired_logs s now) now h config (prune-IsMap s now v.distinct)
              (log
                ∙ ap (λ o. active (or_else o s.config.window_ms) now (log_of k s)) w
                ∙ active-eq-drop_expired W now 0 (log_of k s) v.ascending)
              (kept w window)
      ]
    where
      kept :
          get k s.key_window_ms ≡ some W
          → (log_of k (prune_expired_logs s now) ≡ [])
            ⊎ (get k (prune_expired_logs s now).key_window_ms ≡ get k s.key_window_ms)
          → (log_of k (prune_expired_logs s now) ≡ [])
            ⊎ (get k (prune_expired_logs s now).key_window_ms ≡ some W)
      kept w (inl e) = inl e
      kept w (inr e) = inr (e ∙ w)

-- Every event keeps the invariant, `past` growing by the time that it grants.
pub Inv-step :
    {k : String} {M W : ℕ} {c : RateLimiterConfig} {s : RateLimiter} {past : List ℕ} {last : ℕ}
    (e : Event) (events : List Event)
    → c.block_on_limit ≡ true
    → Inv k M W c s past last
    → IsRegular k M W c last (e ∷ events)
    → (next : ℕ) × Inv k M W c (step s e) (past ++ granted k s e) next
      × IsRegular k M W c next events
unfolding step granted
Inv-step {k} {M} {W} {c} {s} {past} {last} (checks key options now) events b v (h, limits, r) =
    elim (Bool-cases (key == k)) [
      | inl same ↦
          let e : key ≡ k = (string_eq.equal_iff key k).0 same in
          let (em, ew) = settled (λ ne. ne e) limits in
          (
            now,
            rw (same, e)
                (Inv-check v options now h b
                  (ap (λ d. or_else options.max_requests d.max_requests) v.config ∙ em)
                  (ap (λ d. or_else options.window_ms d.window_ms) v.config ∙ ew)),
            r,
          )
      | inr other ↦
          let ne : key ≢ k = ground (arith, string_eq.equal_iff key k) in
          (
            now,
            rw (other, append-nil past)
                (Inv-same v (check s key options now).0 now h (check-other k s key options now ne)
                  (check-IsMap s key options now v.distinct)),
            r,
          )
    ]
Inv-step {past} (prunes now) events b v (h, r) = (now, rw (append-nil past) (Inv-prune v now h), r)
Inv-step {k} {s} {past} {last} (resets key) events b v (ne, r) = (
  last,
  rw (append-nil past) (
      Inv-same v (reset s key) last (le_refl last) (reset-other k s key ne)
        (unfold reset in delete-IsMap key s.logs v.distinct)),
  r,
)

grants-bounded :
    (k : String) (M W : ℕ) (c : RateLimiterConfig) (s : RateLimiter) (past : List ℕ) (last : ℕ)
    (events : List Event)
    → c.block_on_limit ≡ true
    → Inv k M W c s past last
    → IsRegular k M W c last events
    → (a : ℕ) → count_in a (a + W) (past ++ grants k s events) ≤ M
unfolding grants
grants-bounded k M W c s past last [] b v r a = rw (append-nil past) (v.bounded a)
grants-bounded k M W c s past last (e ∷ events) b v r a =
    let (next, v', r') = Inv-step e events b v r in
    rw (← append_assoc past (granted k s e) (grants k (step s e) events))
      (grants-bounded k M W c (step s e) (past ++ granted k s e) next events b v' r' a)

pub start-Inv :
    (k : String) (M W : ℕ) (s : RateLimiter) (last : ℕ)
    → IsMap s.logs
    → log_of k s ≡ []
    → Inv k M W s.config s [] last
start-Inv k M W s last u e = record {
  config = refl;
  distinct = u;
  agrees = λ now h. ap (drop_expired W now) e;
  ascending = rw e tt;
  earlier = rw e tt;
  window = inl e;
  bounded = λ a. unfold count_in in omega arith;
  past_ascending = tt;
  past_earlier = tt;
}

-- From a state with no log for `k` on, whatever checks, cleanups and resets of other keys follow in
-- the order of the clock, and however the keys interleave: if the limiter blocks, and each check of
-- `k` has the limit `M` and the window `W`, then no interval of length `W`, from `a` excluded to
-- `a + W` included, holds more than `M` checks of `k` that were allowed.
pub grants-le-max_requests :
    (k : String) (M W : ℕ) (s : RateLimiter) (last : ℕ) (events : List Event)
    → IsMap s.logs
    → log_of k s ≡ []
    → s.config.block_on_limit ≡ true
    → IsRegular k M W s.config last events
    → (a : ℕ) → count_in a (a + W) (grants k s events) ≤ M
grants-le-max_requests k M W s last events u e b r =
    grants-bounded k M W s.config s [] last events b (start-Inv k M W s last u e) r
