-- ===== src/HttpSessions/Capacity.antt =====
-- The capacity of src/http-session-registry.ts, and its lookups.
use ssh_mcp_pro.Base.{
  sym, ℕ, ◌+◌, ◌≤◌, ◌≡◌, ◌≢◌, ap, ◌∙◌, true, String, string_eq, [], ◌∷◌, ◌++◌, Option, none, some,
  ◌==◌, if◌then◌else◌, ltb, arith, inl, inr, Bool-cases, Option-cases,
}
use ssh_mcp_pro.Table.{size, get, delete, IsMap, get-set, size-delete, size-set}
use ssh_mcp_pro.HttpSessions.{
  HttpSession, HttpSessionRegistry, idle_timeout, capacity_evict_oldest, is_expired, put, lookup,
  refresh, get_active, cleanup_expired, evict_oldest, admit_after, reserve_capacity,
}
use ssh_mcp_pro.HttpSessions.Cleanup.{cleanup_expired_lem, get-close}
use ssh_mcp_pro.HttpSessions.Eviction.{
  Evicted, nothing, unnamed, closes, evict_oldest-Evicted, IsOldest,
}

module _ {A : Type 0} where
  abbrev pub WithinCapacity : HttpSessionRegistry A → Type 0
  WithinCapacity r = size r.sessions ≤ r.max_sessions

  reserve-after :
      (swept : HttpSessionRegistry A) (p : HttpSessionRegistry A × Option String)
      → IsMap swept.sessions
      → size swept.sessions ≤ swept.max_sessions
      → Evicted capacity_evict_oldest swept p
      → (admit_after p).1.allowed ≡ true
      → (size (admit_after p).0.sessions + 1 ≤ swept.max_sessions)
        × ((admit_after p).0.max_sessions ≡ swept.max_sessions)
  unfolding admit_after
  reserve-after swept p u h (nothing empty e) ok = ground arith
  reserve-after swept p u h (unnamed s blank e) ok = ground arith
  reserve-after swept p u h (closes id s named found all e) ok =
      ground (arith, size-delete id s swept.sessions u found, string_eq.equal_iff id "")

  -- If a registry is within its capacity and a reservation is allowed, there is room for one more
  -- session: after `set` of any session under any name it is still within the same capacity.
  pub reserve_capacity-room :
      (now : ℕ) (r : HttpSessionRegistry A) (id : String) (session : HttpSession A)
      → IsMap r.sessions
      → WithinCapacity r
      → (reserve_capacity now r).1.allowed ≡ true
      → WithinCapacity (put id session (reserve_capacity now r).0)
        × ((put id session (reserve_capacity now r).0).max_sessions ≡ r.max_sessions)
  unfolding reserve_capacity put
  reserve_capacity-room now r id session u h ok =
      let swept = (cleanup_expired now r).0 in
      let (_, counted, limits, v) = cleanup_expired_lem now r u in
      ground (
        arith,
        limits.max_sessions,
        counted,
        size-set id session swept.sessions,
        size-set id session (admit_after (evict_oldest capacity_evict_oldest swept)).0.sessions,
        reserve-after swept (evict_oldest capacity_evict_oldest swept) v
            (ground (arith, limits.max_sessions, counted))
            (evict_oldest-Evicted capacity_evict_oldest swept v),
      )

  evicts-after :
      (swept : HttpSessionRegistry A) (p : HttpSessionRegistry A × Option String) (id : String)
      → Evicted capacity_evict_oldest swept p
      → (admit_after p).1.evicted_session_id ≡ some id
      → (s : HttpSession A) × (get id swept.sessions ≡ some s)
        × IsOldest s swept.sessions
        × ((admit_after p).0.sessions ≡ delete id swept.sessions)
        × ((admit_after p).0.closed ≡ swept.closed ++ (id, s, capacity_evict_oldest) ∷ [])
  unfolding admit_after
  evicts-after swept p id (nothing empty e) h = absurd (ground arith)
  evicts-after swept p id (unnamed s blank e) h = absurd (ground arith)
  evicts-after swept p id (closes j s named found all e) h =
      let same : j ≡ id = ground (arith, string_eq.equal_iff j "") in
      (
        s,
        rw (← same) found,
        all,
        ground (arith, same, string_eq.equal_iff j ""),
        ground (arith, same, string_eq.equal_iff j ""),
      )

  -- A reservation evicts only when the registry is full after the sweep of the idle sessions, and
  -- then a session that was seen no later than any that the sweep left; it is reported to `onClose`
  -- with the reason `capacity-evict-oldest`, and no other session goes.
  pub reserve_capacity-evicts-IsOldest :
      (now : ℕ) (r : HttpSessionRegistry A) (id : String)
      → IsMap r.sessions
      → (reserve_capacity now r).1.evicted_session_id ≡ some id
      → let swept = (cleanup_expired now r).0 in
        (swept.max_sessions ≤ size swept.sessions)
        × ((s : HttpSession A) × (get id swept.sessions ≡ some s)
            × IsOldest s swept.sessions
            × ((reserve_capacity now r).0.sessions ≡ delete id swept.sessions)
            × ((reserve_capacity now r).0.closed
                ≡ swept.closed ++ (id, s, capacity_evict_oldest) ∷ []))
  unfolding reserve_capacity
  reserve_capacity-evicts-IsOldest now r id u h =
      let swept = (cleanup_expired now r).0 in
      let v = (cleanup_expired_lem now r u).3 in
      elim (Bool-cases (ltb (size swept.sessions) swept.max_sessions)) [
        | inl room ↦ absurd (ground arith)
        | inr full ↦
            let p = evict_oldest capacity_evict_oldest swept in
            let e : reserve_capacity now r ≡ admit_after p = ground arith in
            let (s, found, all, gone, told) =
              evicts-after swept p id (evict_oldest-Evicted capacity_evict_oldest swept v)
                (ap (λ q. q.1.evicted_session_id) (sym e) ∙ h) in
            (
              ground arith,
              (s, found, all, ap (λ q. q.0.sessions) e ∙ gone, ap (λ q. q.0.closed) e ∙ told),
            )
      ]

  -- The session, if it is there and not idle for too long, with its new time.
  abbrev pub touched :
      HttpSessionRegistry A → ℕ → ℕ → Option (HttpSession A) → Option (HttpSession A)
  touched r now then_now none = none
  touched r now then_now (some s) =
      if is_expired r s now then none else some (record s { last_seen_at = then_now })

  -- `getActive` of a name returns the session with its time renewed, or nothing if there is none or
  -- it was idle for too long, and afterwards the registry holds under that name what was returned;
  -- every other session stays as it was.
  pub get_active_lem :
      (id : String) (now then_now : ℕ) (r : HttpSessionRegistry A)
      → id ≢ ""
      → ((get_active (some id) now then_now r).1 ≡ touched r now then_now (get id r.sessions))
        × ((k : String)
            → get k (get_active (some id) now then_now r).0.sessions
              ≡ (if id == k then touched r now then_now (get id r.sessions) else get k r.sessions))
  unfolding get_active lookup refresh
  get_active_lem id now then_now r named = elim (Option-cases (get id r.sessions)) [
    | inl e ↦ (
      ground (arith, string_eq.equal_iff id ""),
      λ k. ground (arith, string_eq.equal_iff id "", string_eq.equal_iff id k),
    )
    | inr (s, e) ↦ (
      ground (arith, string_eq.equal_iff id ""),
      λ k. ground (
        arith,
        string_eq.equal_iff id "",
        string_eq.equal_iff id k,
        get-close id k idle_timeout r,
        get-set id k (record s { last_seen_at = then_now }) r.sessions,
      ),
    )
  ]
