-- ===== src/Session/Operations.antt =====
-- src/session.ts: closing, cleaning up, looking up, and the counters of operations in flight.
use ssh_mcp_pro.Base.{
  includes, ◌-◌, ◌<◌, ◌≤◌, not, is_some, ltb, ◌↔◌, ◌==◌, ◌&&◌, ◌||◌, Bool, true, false, or_else,
  if◌then◌else◌, refl, List, [], ◌∷◌, Bool-cases, ℕ, ◌≡◌, String, string_eq, arith, inl, inr,
  Option-cases, ◌+◌, Option, none, some, ◌⊎◌,
}
use ssh_mcp_pro.Table.{get-delete, has-set, get-set, size, get, has, IsMap, size-set, set-IsMap}
use ssh_mcp_pro.Session.{
  SshSession, begin_operation, end_operation, has_active_operations, is_idle, SessionManager,
  begin_close, touch, get_session, expired_idle, begin_close_all, cleanup_expired_sessions,
}

-- What closing and cleaning up leave alone until the listeners are done.
pub record SameSessions (m t : SessionManager) : Type 0 where
  pub sessions : t.sessions ≡ m.sessions
  pub pending_connections : t.pending_connections ≡ m.pending_connections
  pub max_sessions : t.max_sessions ≡ m.max_sessions
  pub active_operations : t.active_operations ≡ m.active_operations

pub begin_close-SameSessions :
    (id : String) (m : SessionManager) → SameSessions m (begin_close id m).0
unfolding begin_close
begin_close-SameSessions id m = ground arith

pub begin_close_all-SameSessions :
    (ids : List String) (m : SessionManager) → SameSessions m (begin_close_all ids m)
unfolding begin_close_all
begin_close_all-SameSessions [] m = ground arith
begin_close_all-SameSessions (id ∷ ids) m =
    ground
      (arith, begin_close-SameSessions id m, begin_close_all-SameSessions ids (begin_close id m).0)

pub cleanup-SameSessions :
    (now : ℕ) (m : SessionManager) → SameSessions m (cleanup_expired_sessions now m)
unfolding cleanup_expired_sessions
cleanup-SameSessions now m = begin_close_all-SameSessions (expired_idle m now m.sessions) m

-- A lookup renames no session and changes no count.
pub get_session-size :
    (id : String) (now then_now : ℕ) (m : SessionManager)
    → (size (get_session id now then_now m).0.sessions ≡ size m.sessions)
      × ((get_session id now then_now m).0.pending_connections ≡ m.pending_connections)
      × ((get_session id now then_now m).0.max_sessions ≡ m.max_sessions)
unfolding get_session has
get_session-size id now then_now m = elim (Option-cases (get id m.sessions)) [
  | inl e ↦ ground arith
  | inr (s, e) ↦
      ground (arith, size-set id (touch s then_now) m.sessions, begin_close-SameSessions id m)
]

pub get_session-IsMap :
    (id : String) (now then_now : ℕ) (m : SessionManager)
    → IsMap m.sessions
    → IsMap (get_session id now then_now m).0.sessions
unfolding get_session
get_session-IsMap id now then_now m u = elim (Option-cases (get id m.sessions)) [
  | inl e ↦ ground arith
  | inr (s, e) ↦
      ground (arith, set-IsMap id (touch s then_now) m.sessions u, begin_close-SameSessions id m)
]

-- How many operations are in flight on a session.
abbrev pub in_flight : SessionManager → String → ℕ
in_flight m id = or_else (get id m.active_operations) 0

-- Starting an operation counts one more on that session, ending one counts one less but never below
-- zero; the counts of all other sessions stay, and a session is busy exactly while its count is
-- not zero.
pub operations_counted :
    (m : SessionManager) (id k : String)
    → (in_flight (begin_operation id m) k ≡ (if id == k then in_flight m k + 1 else in_flight m k))
      × (in_flight (end_operation id m) k ≡ (if id == k then in_flight m k - 1 else in_flight m k))
      × ((has_active_operations m k ≡ true) ↔ (0 < in_flight m k))
unfolding begin_operation end_operation has_active_operations
operations_counted m id k = (
  ground (arith, string_eq.equal_iff id k, get-set id k (in_flight m id + 1) m.active_operations),
  ended (get id m.active_operations) refl,
  ground arith,
)
  where
    ended :
        (o : Option ℕ)
        → get id m.active_operations ≡ o
        → in_flight (end_operation id m) k ≡ (if id == k then in_flight m k - 1 else in_flight m k)
    ended none e = ground (arith, string_eq.equal_iff id k, get-delete id k m.active_operations)
    ended (some n) e = ground (
      arith,
      string_eq.equal_iff id k,
      get-delete id k m.active_operations,
      get-set id k (n - 1) m.active_operations,
    )

closing-begin_close :
    (id k : String) (m : SessionManager)
    → has k (begin_close id m).0.closing_sessions
      ≡ (has k m.closing_sessions || (id == k && has k m.sessions))
unfolding begin_close
closing-begin_close id k m =
    ground (arith, string_eq.equal_iff id k, has-set id k tt m.closing_sessions)

closing-begin_close_all :
    (ids : List String) (k : String) (m : SessionManager)
    → has k (begin_close_all ids m).closing_sessions
      ≡ (has k m.closing_sessions || (includes ids k && has k m.sessions))
unfolding begin_close_all
closing-begin_close_all [] k m = ground arith
closing-begin_close_all (id ∷ ids) k m = ground (
  arith,
  closing-begin_close id k m,
  closing-begin_close_all ids k (begin_close id m).0,
  begin_close-SameSessions id m,
)

-- Whether a session, if there is one, is past its expiry.
abbrev pub is_overdue : ℕ → Option SshSession → Bool
is_overdue now none = false
is_overdue now (some s) = ltb s.info.expires_at now

expired_idle-absent :
    (m : SessionManager) (now : ℕ) (k : String) (entries : List (String × SshSession))
    → get k entries ≡ none
    → includes (expired_idle m now entries) k ≡ false
unfolding expired_idle get
expired_idle-absent m now k [] h = refl
expired_idle-absent m now k ((id, s) ∷ entries) h =
    ground (arith, expired_idle-absent m now k entries)

includes-expired_idle :
    (m : SessionManager) (now : ℕ) (k : String) (entries : List (String × SshSession))
    → IsMap entries
    → includes (expired_idle m now entries) k ≡ (is_idle m k && is_overdue now (get k entries))
unfolding expired_idle get
includes-expired_idle m now k [] u = ground arith
includes-expired_idle m now k ((id, s) ∷ entries) u = elim (Bool-cases (id == k)) [
  | inl same ↦
      let e : id ≡ k = (string_eq.equal_iff id k).0 same in
      ground (
        arith,
        e,
        u.0,
        expired_idle-absent m now k entries,
        includes-expired_idle m now k entries u.1,
      )
  | inr other ↦ ground (arith, includes-expired_idle m now k entries u.1)
]

has_of_overdue :
    (now : ℕ) (k : String) (m : SessionManager)
    → is_overdue now (get k m.sessions) ≡ true
    → has k m.sessions ≡ true
unfolding has
has_of_overdue now k m h = ground arith

-- The periodic cleanup starts to close exactly the sessions that are past their expiry, idle and
-- not being closed already; it removes none by itself and touches no counter.
pub cleanup_expired_sessions_lem :
    (now : ℕ) (m : SessionManager) (k : String)
    → IsMap m.sessions
    → (has k (cleanup_expired_sessions now m).closing_sessions
        ≡ (has k m.closing_sessions || (is_idle m k && is_overdue now (get k m.sessions))))
      × SameSessions m (cleanup_expired_sessions now m)
unfolding cleanup_expired_sessions
cleanup_expired_sessions_lem now m k u = (
  ground (
    arith,
    closing-begin_close_all (expired_idle m now m.sessions) k m,
    includes-expired_idle m now k m.sessions u,
    has_of_overdue now k m,
  ),
  cleanup-SameSessions now m,
)

-- There is no session under that name, or one at its expiry or past it with no operations in flight.
pub IsLapsed : String → ℕ → SessionManager → Type 0
IsLapsed id now m =
    (get id m.sessions ≡ none)
    ⊎ ((t : SshSession) × (get id m.sessions ≡ some t)
        × (t.info.expires_at ≤ now)
        × (has_active_operations m id ≡ false))

-- A lookup returns nothing exactly when there is no session under that name, or one at its expiry or
-- past it with no operations in flight. A session that it returns is the one stored under the name,
-- with the time of its last use set if it is not yet at its expiry, and is stored so afterwards. The
-- lookup starts to close a session exactly if it is one under that name and nothing is returned; all
-- other sessions stay as they were.
pub get_session_lem :
    (id k : String) (now then_now : ℕ) (m : SessionManager)
    → (((get_session id now then_now m).1 ≡ none) ↔ IsLapsed id now m)
      × ((s : SshSession)
          → (get_session id now then_now m).1 ≡ some s
          → (t : SshSession) × (get id m.sessions ≡ some t)
            × (s ≡ (if ltb now t.info.expires_at then touch t then_now else t))
            × (get id (get_session id now then_now m).0.sessions ≡ some s))
      × (has k (get_session id now then_now m).0.closing_sessions ≡ (
          has k m.closing_sessions
          || (id == k && has id m.sessions && not (is_some (get_session id now then_now m).1))))
      × ((id ≡ k) ⊎ (get k (get_session id now then_now m).0.sessions ≡ get k m.sessions))
unfolding get_session has touch IsLapsed
get_session_lem id k now then_now m = elim (Option-cases (get id m.sessions)) [
  | inl e ↦ (
    (λ h. inl e, λ h. ground arith),
    λ s h. absurd (ground arith),
    ground arith,
    inr (ground arith),
  )
  | inr (t, e) ↦
      let closing = closing-begin_close id k m in
      let same = begin_close-SameSessions id m in
      (
        (
          λ h. inr (t, e, ground (arith, e), ground (arith, e)),
          λ h. elim h [
            | inl gone ↦ absurd (ground (arith, gone, e))
            | inr (u, at, over, idle) ↦ ground (arith, at, over, idle)
          ],
        ),
        λ s h. (
          t,
          e,
          ground (arith, e),
          ground (arith, e, get-set id id (touch t then_now) m.sessions, string_eq.equal_iff id id),
        ),
        ground (arith, e, closing, string_eq.equal_iff id k),
        elim (Bool-cases (id == k)) [
          | inl is_same ↦ inl ((string_eq.equal_iff id k).0 is_same)
          | inr other ↦ inr (ground (arith, e, same, get-set id k (touch t then_now) m.sessions))
        ],
      )
]
