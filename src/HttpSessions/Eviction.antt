-- ===== src/HttpSessions/Eviction.antt =====
-- The choice of the session that gives way in src/http-session-registry.ts.
use ssh_mcp_pro.Base.{
  subst, ◌++◌, ◌≤◌, ◌≡◌, ◌≢◌, refl, String, string_eq, List, [], ◌∷◌, Option, none, some, ◌==◌, ltb,
  arith, ◌⊎◌, inl, inr, Bool-cases, All,
}
use ssh_mcp_pro.Table.{get, delete, IsMap}
use ssh_mcp_pro.HttpSessions.{
  HttpSession, HttpSessionRegistry, Reason, close, oldest, evict, evict_oldest,
}

module _ {A : Type 0} where
  -- A session that is seen no later than every entry.
  abbrev pub IsOldest : HttpSession A → List (String × HttpSession A) → Type 0
  IsOldest session = All (λ (e : String × HttpSession A). session.last_seen_at ≤ e.1.last_seen_at)

  oldest-from :
      (id : String) (best : HttpSession A) (entries : List (String × HttpSession A))
      → IsMap entries
      → (j : String) × (s : HttpSession A) × (oldest (some (id, best)) entries ≡ some (j, s))
        × (s.last_seen_at ≤ best.last_seen_at)
        × IsOldest s entries
        × (((j ≡ id) × (s ≡ best)) ⊎ (get j entries ≡ some s))
  unfolding oldest get
  oldest-from id best [] u = (id, best, refl, ground arith, tt, inl (refl, refl))
  oldest-from id best ((k, t) ∷ entries) u =
      elim (Bool-cases (ltb t.last_seen_at best.last_seen_at)) [
        | inl older ↦
            let (j, s, e, le, all, found) = oldest-from k t entries u.1 in
            (
              j,
              s,
              rw (older, oldest) e,
              ground arith,
              (ground arith, all),
              inr (ground (arith, found, u.0, string_eq.equal_iff k j)),
            )
        | inr newer ↦
            let (j, s, e, le, all, found) = oldest-from id best entries u.1 in
            (
              j,
              s,
              rw (newer, oldest) e,
              le,
              (ground arith, all),
              elim found [
                | inl same ↦ inl same
                | inr later ↦ inr (ground (arith, later, u.0, string_eq.equal_iff k j))
              ],
            )
      ]

  -- The scan over all entries: nothing to choose from, or an entry seen no later than any other.
  oldest-none :
      (entries : List (String × HttpSession A))
      → IsMap entries
      → ((entries ≡ []) × (oldest none entries ≡ none))
        ⊎ ((id : String) × (s : HttpSession A) × (oldest none entries ≡ some (id, s))
            × (get id entries ≡ some s)
            × IsOldest s entries)
  unfolding oldest get
  oldest-none [] u = inl (refl, refl)
  oldest-none ((k, t) ∷ entries) u =
      let (j, s, e, le, all, found) = oldest-from k t entries u.1 in
      inr (j, s, e, ground (arith, found, u.0, string_eq.equal_iff k j), (le, all))

  -- The three outcomes of an eviction.
  pub data Evicted (reason : Reason) (r : HttpSessionRegistry A)
      (p : HttpSessionRegistry A × Option String) : Type 0 where
    nothing : r.sessions ≡ [] → p ≡ (r, none) → Evicted reason r p
    unnamed : (s : HttpSession A) → get "" r.sessions ≡ some s → p ≡ (r, none) → Evicted reason r p
    closes :
        (id : String) (s : HttpSession A)
        → id ≢ ""
        → get id r.sessions ≡ some s
        → IsOldest s r.sessions
        → p ≡ (
          record r { sessions = delete id r.sessions; closed = r.closed ++ (id, s, reason) ∷ [] },
          some id,
        )
        → Evicted reason r p

  -- An eviction closes a session that was seen no later than any other, with the reason that was
  -- given, or does nothing: when there is no session to choose, or when the session that the
  -- scan chooses is named by the empty text.
  pub evict_oldest-Evicted :
      (reason : Reason) (r : HttpSessionRegistry A)
      → IsMap r.sessions
      → Evicted reason r (evict_oldest reason r)
  unfolding evict_oldest
  evict_oldest-Evicted reason r u = elim (oldest-none r.sessions u) [
    | inl (empty, e) ↦ nothing empty (rw (e, evict))
    | inr (id, s, e, found, all) ↦ elim (Bool-cases (id == "")) [
      | inl blank ↦
          unnamed s
            (subst (λ k. get k r.sessions ≡ some s) ((string_eq.equal_iff id "").0 blank) found)
            (rw (e, evict) (rw blank))
      | inr named ↦
          closes id s (ground (arith, string_eq.equal_iff id "")) found all
            (rw (e, evict) (rw named (rw (found, close))))
    ]
  ]
