-- ===== src/Session/Admission/Eviction.antt =====
-- The session that `reserveConnectionSlot` of src/session.ts evicts to make room.
use ssh_mcp_pro.Base.{
  ◌+◌, ◌≤◌, ◌<◌, ◌≡◌, refl, sym, true, false, ◌&&◌, String, string_eq, List, [], ◌∷◌, none, some,
  ◌==◌, ltb, arith, inl, inr, ◌⊎◌, Bool-cases, subst, All,
}
use ssh_mcp_pro.Table.{size, get, set, has, IsMap, size-delete}
use ssh_mcp_pro.Session.{
  SessionManager, SshSession, begin_close, finish_close, is_idle, is_older, oldest_idle,
}
use ssh_mcp_pro.Session.Admission.{
  Reservation, reserved, limit_reached, evicting, evict_start, reserve_start, reserve_resume,
  take_slot, is_full,
}

module _ (m : SessionManager) where
  -- A session used no later than every idle one.
  abbrev pub IsOldestIdle : SshSession → List (String × SshSession) → Type 0
  IsOldestIdle s = All (λ (e : String × SshSession).
      (is_idle m e.0 ≡ false) ⊎ (s.info.last_used ≤ e.1.info.last_used))

  abbrev NoneIdle : List (String × SshSession) → Type 0
  NoneIdle = All (λ (e : String × SshSession). is_idle m e.0 ≡ false)

  oldest_idle-from :
      (id : String) (best : SshSession) (entries : List (String × SshSession))
      → IsMap entries
      → (j : String) × (s : SshSession) × (oldest_idle m (some (id, best)) entries ≡ some (j, s))
        × (s.info.last_used ≤ best.info.last_used)
        × IsOldestIdle s entries
        × (((j ≡ id) × (s ≡ best)) ⊎ ((get j entries ≡ some s) × (is_idle m j ≡ true)))
  unfolding oldest_idle get
  oldest_idle-from id best [] u = (id, best, refl, ground arith, tt, inl (refl, refl))
  oldest_idle-from id best ((k, t) ∷ entries) u =
      elim (Bool-cases (is_idle m k && is_older t (some (id, best)))) [
        | inl better ↦
            let (j, s, e, le, all, found) = oldest_idle-from k t entries u.1 in
            let idle : is_idle m k ≡ true = ground arith in
            (
              j,
              s,
              rw (better, oldest_idle) e,
              ground arith,
              (inr le, all),
              inr (ground (arith, found, u.0, string_eq.equal_iff k j)),
            )
        | inr worse ↦
            let (j, s, e, le, all, found) = oldest_idle-from id best entries u.1 in
            (
              j,
              s,
              rw (worse, oldest_idle) e,
              le,
              (ground arith, all),
              elim found [
                | inl same ↦ inl same
                | inr later ↦ inr (ground (arith, later, u.0, string_eq.equal_iff k j))
              ],
            )
      ]

  oldest_idle-none :
      (entries : List (String × SshSession))
      → IsMap entries
      → (NoneIdle entries × (oldest_idle m none entries ≡ none))
        ⊎ ((id : String) × (s : SshSession) × (oldest_idle m none entries ≡ some (id, s))
            × (get id entries ≡ some s)
            × (is_idle m id ≡ true)
            × IsOldestIdle s entries)
  unfolding oldest_idle get
  oldest_idle-none [] u = inl (tt, refl)
  oldest_idle-none ((k, t) ∷ entries) u = elim (Bool-cases (is_idle m k)) [
    | inl idle ↦
        let (j, s, e, le, all, found) = oldest_idle-from k t entries u.1 in
        inr (
          j,
          s,
          ground arith,
          ground (arith, found, u.0, string_eq.equal_iff k j),
          ground (arith, found),
          (inr le, all),
        )
    | inr busy ↦ elim (oldest_idle-none entries u.1) [
      | inl (rest, e) ↦ inl ((busy, rest), ground arith)
      | inr (j, s, e, found, idle, all) ↦ inr (
        j,
        s,
        ground arith,
        ground (arith, found, u.0, string_eq.equal_iff k j),
        idle,
        (ground arith, all),
      )
    ]
  ]

  -- The outcomes of the first segment of a reservation.
  pub data Outcome (p : SessionManager × Reservation) : Type 0 where
    room :
        size m.sessions + m.pending_connections < m.max_sessions
        → p ≡ (take_slot m, reserved)
        → Outcome p
    connecting :
        m.max_sessions ≤ size m.sessions + m.pending_connections
        → 0 < m.pending_connections
        → p ≡ (m, limit_reached)
        → Outcome p
    all_busy :
        m.max_sessions ≤ size m.sessions → NoneIdle m.sessions → p ≡ (m, limit_reached) → Outcome p
    unnamed : has "" m.sessions ≡ true → p ≡ (m, limit_reached) → Outcome p
    evicts :
        (id : String) (s : SshSession)
        → m.max_sessions ≤ size m.sessions
        → m.pending_connections ≡ 0
        → get id m.sessions ≡ some s
        → is_idle m id ≡ true
        → IsOldestIdle s m.sessions
        → p ≡ (record m { closing_sessions = set id tt m.closing_sessions }, evicting id)
        → Outcome p

  evict_start-Outcome :
      m.max_sessions ≤ size m.sessions + m.pending_connections
      → m.pending_connections ≡ 0
      → IsMap m.sessions
      → Outcome (evict_start (oldest_idle m none m.sessions) m)
  unfolding evict_start
  evict_start-Outcome full alone u = elim (oldest_idle-none m.sessions u) [
    | inl (busy, e) ↦ all_busy (omega arith) busy (rw (e, evict_start))
    | inr (id, s, e, found, idle, all) ↦ elim (Bool-cases (id == "")) [
      | inl blank ↦
          unnamed
            (subst (λ k. has k m.sessions ≡ true) ((string_eq.equal_iff id "").0 blank)
              (unfold has in ground (arith, found)))
            (rw (e, evict_start) (rw blank))
      | inr named ↦
          evicts id s (omega arith) alone found idle all
            (rw (e, evict_start) (unfold begin_close has in ground arith))
    ]
  ]

  -- The first segment of a reservation takes a slot if there is room; with no room it is refused
  -- while a connection is being made, refused if every session is busy or being closed, and
  -- otherwise starts to close a session that is neither busy nor being closed and was used no later
  -- than any other such session. (A session named by the empty text is not chosen.) Nothing else of
  -- the state changes.
  pub reserve_start-Outcome : IsMap m.sessions → Outcome (reserve_start m)
  unfolding reserve_start
  reserve_start-Outcome u = elim (Bool-cases (is_full m)) [
    | inr free ↦ room (ground arith) (rw free)
    | inl full ↦ elim (Bool-cases (ltb 0 m.pending_connections)) [
      | inl waits ↦ connecting (ground arith) (ground arith) (rw full (rw waits))
      | inr alone ↦
          subst Outcome (sym (rw full (rw alone)))
            (evict_start-Outcome (ground arith) (ground arith) u)
    ]
  ]

  -- If a reservation within the limit evicts, it gets its slot once the session is closed, when
  -- nothing else ran in between.
  pub reserve_resume-evicting :
      (m' : SessionManager) (id : String)
      → IsMap m.sessions
      → size m.sessions + m.pending_connections ≤ m.max_sessions
      → reserve_start m ≡ (m', evicting id)
      → reserve_resume (finish_close id m') ≡ (take_slot (finish_close id m'), reserved)
  unfolding reserve_resume finish_close
  reserve_resume-evicting m' id u within e = go (reserve_start-Outcome u)
    where
      go :
          Outcome (reserve_start m)
          → reserve_resume (finish_close id m') ≡ (take_slot (finish_close id m'), reserved)
      go (room h r) = absurd (ground (arith, e, r))
      go (connecting h k r) = absurd (ground (arith, e, r))
      go (all_busy h k r) = absurd (ground (arith, e, r))
      go (unnamed h r) = absurd (ground (arith, e, r))
      go (evicts j s full alone found idle all r) =
          ground (arith, e, r, size-delete j s m.sessions u found)
