-- ===== src/HttpSessions/Cleanup.antt =====
-- The sweep of idle sessions in src/http-session-registry.ts.
use ssh_mcp_pro.Base.{
  Option-cases, ℕ, ◌+◌, ◌≡◌, refl, ◌∙◌, true, false, String, string_eq, List, [], ◌∷◌, Option, none,
  some, ◌==◌, if◌then◌else◌, arith, inl, inr, Bool-cases, All,
}
use ssh_mcp_pro.Table.{size, get, IsMap, get-delete, delete-IsMap, size-delete}
use ssh_mcp_pro.HttpSessions.{
  HttpSession, HttpSessionRegistry, Reason, idle_timeout, is_expired, close, cleanup_entries,
  cleanup_expired,
}

module _ {A : Type 0} where
  -- What a closing leaves alone.
  pub record SameLimits (r t : HttpSessionRegistry A) : Type 0 where
    pub max_sessions : t.max_sessions ≡ r.max_sessions
    pub session_idle_ttl_ms : t.session_idle_ttl_ms ≡ r.session_idle_ttl_ms

  pub get-close :
      (id k : String) (reason : Reason) (r : HttpSessionRegistry A)
      → get k (close id reason r).0.sessions ≡ (if id == k then none else get k r.sessions)
  unfolding close
  get-close id k reason r = ground (arith, string_eq.equal_iff id k, get-delete id k r.sessions)

  pub close-SameLimits :
      (id : String) (reason : Reason) (r : HttpSessionRegistry A)
      → SameLimits r (close id reason r).0
  unfolding close
  close-SameLimits id reason r = ground arith

  pub close-IsMap :
      (id : String) (reason : Reason) (r : HttpSessionRegistry A)
      → IsMap r.sessions
      → IsMap (close id reason r).0.sessions
  unfolding close
  close-IsMap id reason r u = ground (arith, delete-IsMap id r.sessions u)

  size-close :
      (id : String) (s : HttpSession A) (reason : Reason) (r : HttpSessionRegistry A)
      → IsMap r.sessions
      → get id r.sessions ≡ some s
      → size (close id reason r).0.sessions + 1 ≡ size r.sessions
  unfolding close
  size-close id s reason r u h = ground (arith, size-delete id s r.sessions u h)

  -- The sweep of the entries `entries`, which are those of the registry not yet visited.
  record Swept (r : HttpSessionRegistry A) (now count : ℕ) (entries : List (String × HttpSession A))
      (t : HttpSessionRegistry A) (count' : ℕ) : Type 0 where
    limits : SameLimits r t
    distinct : IsMap t.sessions
    counted : size t.sessions + count' ≡ size r.sessions + count
    others : (k : String) → get k entries ≡ none → get k t.sessions ≡ get k r.sessions
    visited :
        (k : String) (s : HttpSession A)
        → get k entries ≡ some s
        → get k t.sessions ≡ (if is_expired r s now then none else get k r.sessions)

  abbrev Held : HttpSessionRegistry A → List (String × HttpSession A) → Type 0
  Held r entries = All (λ (e : String × HttpSession A). get e.0 r.sessions ≡ some e.1) entries

  Held-close :
      (id : String) (r : HttpSessionRegistry A) (entries : List (String × HttpSession A))
      → get id entries ≡ none
      → Held r entries
      → Held (close id idle_timeout r).0 entries
  unfolding get
  Held-close id r [] h held = tt
  Held-close id r ((k, t) ∷ entries) h (e, held) = (
    ground
        (arith, get-close id k idle_timeout r, string_eq.equal_iff id k, string_eq.equal_iff k id),
    Held-close id r entries (ground arith) held,
  )

  cleanup-live :
      (r t : HttpSessionRegistry A) (now count count' : ℕ) (id : String) (s : HttpSession A)
      (entries : List (String × HttpSession A))
      → is_expired r s now ≡ false
      → get id r.sessions ≡ some s
      → IsMap ((id, s) ∷ entries)
      → Swept r now count entries t count'
      → Swept r now count ((id, s) ∷ entries) t count'
  unfolding get
  cleanup-live r t now count count' id s entries live held u w = record {
    limits = w.limits;
    distinct = w.distinct;
    counted = w.counted;
    others = λ k h. w.others k (ground arith);
    visited = λ k s' h. elim (Bool-cases (id == k)) [
      | inl same ↦ ground (arith, string_eq.equal_iff id k, w.others k, u.0)
      | inr other ↦ w.visited k s' (ground arith)
    ];
  }

  cleanup-expired :
      (r t : HttpSessionRegistry A) (now count count' : ℕ) (id : String) (s : HttpSession A)
      (entries : List (String × HttpSession A))
      → is_expired r s now ≡ true
      → IsMap r.sessions
      → get id r.sessions ≡ some s
      → IsMap ((id, s) ∷ entries)
      → Swept (close id idle_timeout r).0 now (count + 1) entries t count'
      → Swept r now count ((id, s) ∷ entries) t count'
  unfolding get
  cleanup-expired r t now count count' id s entries dead u held v w =
      let limits = close-SameLimits id idle_timeout r in
      record {
        limits = record {
          max_sessions = w.limits.max_sessions ∙ limits.max_sessions;
          session_idle_ttl_ms = w.limits.session_idle_ttl_ms ∙ limits.session_idle_ttl_ms;
        };
        distinct = w.distinct;
        counted = omega (arith, w.counted, size-close id s idle_timeout r u held);
        others = λ k h. w.others k (ground arith) ∙ ground (arith, get-close id k idle_timeout r);
        visited = λ k s' h. elim (Bool-cases (id == k)) [
          | inl same ↦
              ground
                (arith, string_eq.equal_iff id k, w.others k, v.0, get-close id k idle_timeout r)
          | inr other ↦ ground (
            arith,
            w.visited k s' (ground arith),
            get-close id k idle_timeout r,
            limits.session_idle_ttl_ms,
          )
        ];
      }

  cleanup_entries-Swept :
      (now : ℕ) (entries : List (String × HttpSession A)) (r : HttpSessionRegistry A) (count : ℕ)
      → IsMap entries
      → IsMap r.sessions
      → Held r entries
      → Swept r now count entries
          (cleanup_entries now entries (r, count)).0
          (cleanup_entries now entries (r, count)).1
  unfolding cleanup_entries
  cleanup_entries-Swept now [] r count v u held = record {
    limits = record { max_sessions = refl; session_idle_ttl_ms = refl };
    distinct = u;
    counted = refl;
    others = λ k h. refl;
    visited = λ k s h. absurd (unfold get in ground arith);
  }
  cleanup_entries-Swept now ((id, s) ∷ entries) r count v u (e, held) =
      elim (Bool-cases (is_expired r s now)) [
        | inl dead ↦
            rw (dead, cleanup_entries)
              (cleanup-expired r _ now count _ id s entries dead u e v (
                cleanup_entries-Swept now entries (close id idle_timeout r).0 (count + 1) v.1
                  (close-IsMap id idle_timeout r u) (Held-close id r entries v.0 held)))
        | inr live ↦
            rw (live, cleanup_entries)
              (cleanup-live r _ now count _ id s entries live e v
                (cleanup_entries-Swept now entries r count v.1 u held))
      ]

  Held-weaken :
      (m entries : List (String × HttpSession A))
      → All (λ (e : String × HttpSession A). get e.0 m ≡ some e.1) entries
      → (id : String) (s : HttpSession A) → get id entries ≡ none
      → All (λ (e : String × HttpSession A). get e.0 ((id, s) ∷ m) ≡ some e.1) entries
  unfolding get
  Held-weaken m [] h id s e = tt
  Held-weaken m ((k, t) ∷ entries) (p, h) id s e = (
    ground (arith, string_eq.equal_iff id k, string_eq.equal_iff k id),
    Held-weaken m entries h id s (ground arith),
  )

  Held-self :
      (m : List (String × HttpSession A))
      → IsMap m
      → All (λ (e : String × HttpSession A). get e.0 m ≡ some e.1) m
  unfolding get
  Held-self [] u = tt
  Held-self ((k, t) ∷ m) u =
      (ground (arith, string_eq.equal_iff k k), Held-weaken m m (Held-self m u.1) k t u.0)

  -- A session that is still there after the sweep.
  abbrev pub live_at : HttpSessionRegistry A → ℕ → Option (HttpSession A) → Option (HttpSession A)
  live_at r now none = none
  live_at r now (some s) = if is_expired r s now then none else some s

  -- A sweep closes exactly the sessions idle for longer than the limit and leaves every other one
  -- as it was; the number that it returns is the number of sessions that are gone; the limits stay.
  pub cleanup_expired_lem :
      (now : ℕ) (r : HttpSessionRegistry A)
      → IsMap r.sessions
      → ((id : String)
          → get id (cleanup_expired now r).0.sessions ≡ live_at r now (get id r.sessions))
        × (size (cleanup_expired now r).0.sessions + (cleanup_expired now r).1 ≡ size r.sessions)
        × SameLimits r (cleanup_expired now r).0
        × IsMap (cleanup_expired now r).0.sessions
  unfolding cleanup_expired
  cleanup_expired_lem now r u =
      let w = cleanup_entries-Swept now r.sessions r 0 u u (Held-self r.sessions u) in
      (
        λ id. elim (Option-cases (get id r.sessions)) [
          | inl e ↦ w.others id e ∙ ground arith
          | inr (s, e) ↦ w.visited id s e ∙ ground arith
        ],
        omega (arith, w.counted),
        w.limits,
        w.distinct,
      )
