-- ===== src/HttpSessions.antt =====
-- src/http-session-registry.ts: the sessions of the HTTP transport, with an idle timeout and a
-- capacity. `HttpSession` is a `TSession`, its `payload` what the record adds. The calls of
-- `onClose` are the list `closed`; each reading of `this.now()` is an argument.
pub mod Cleanup
pub mod Eviction
pub mod Capacity
mod Tests
use ssh_mcp_pro.Base.{
  ℕ, suc, ◌+◌, Bool, true, false, String, string_eq, List, [], ◌∷◌, ◌++◌, Option, none, some, ◌==◌,
  if◌then◌else◌, ltb,
}
use ssh_mcp_pro.Table.{Table, size, get, set, delete}

pub record HttpSession (A : Type 0) : Type 0 where
  pub last_seen_at : ℕ
  pub payload : A

pub data Reason : Type 0 where
  idle_timeout capacity_evict_oldest capacity_full : Reason
  other : String → Reason

pub record HttpSessionRegistry (A : Type 0) : Type 0 where
  pub sessions : Table String (HttpSession A)
  pub max_sessions : ℕ
  pub session_idle_ttl_ms : ℕ
  pub closed : List (String × HttpSession A × Reason)

pub record HttpSessionCapacityResult : Type 0 where
  pub allowed : Bool
  pub evicted_session_id : Option String
  pub reason : Option Reason

module _ {A : Type 0} where
  pub create : ℕ → ℕ → HttpSessionRegistry A
  create max_sessions ttl = record {
    sessions = [];
    max_sessions = max_sessions;
    session_idle_ttl_ms = ttl;
    closed = [];
  }

  pub put : String → HttpSession A → HttpSessionRegistry A → HttpSessionRegistry A
  put id session r = record r { sessions = set id session r.sessions }

  -- `undefined` and the empty text find nothing.
  pub lookup : Option String → HttpSessionRegistry A → Option (HttpSession A)
  lookup none r = none
  lookup (some id) r = if id == "" then none else get id r.sessions

  -- `now - session.lastSeenAt > this.sessionIdleTtlMs`.
  abbrev pub is_expired : HttpSessionRegistry A → HttpSession A → ℕ → Bool
  is_expired r session now = ltb (session.last_seen_at + r.session_idle_ttl_ms) now

  pub close : String → Reason → HttpSessionRegistry A → HttpSessionRegistry A × Bool
  close id reason r = elim (get id r.sessions) [
    | none ↦ (r, false)
    | some session ↦ (
      record r { sessions = delete id r.sessions; closed = r.closed ++ (id, session, reason) ∷ [] },
      true,
    )
  ]

  pub refresh :
      String
      → HttpSession A
      → ℕ
      → ℕ
      → HttpSessionRegistry A
      → HttpSessionRegistry A × Option (HttpSession A)
  unfolding close
  refresh id session now then_now r =
      if is_expired r session now
      then ((close id idle_timeout r).0, none)
      else let seen : HttpSession A = record session { last_seen_at = then_now } in
        (record r { sessions = set id seen r.sessions }, some seen)

  -- `now` is read for the test, `then_now` for the new `lastSeenAt`.
  pub get_active :
      Option String → ℕ → ℕ → HttpSessionRegistry A → HttpSessionRegistry A × Option (HttpSession A)
  get_active none now then_now r = (r, none)
  get_active (some id) now then_now r = elim (lookup (some id) r) [
    | none ↦ (r, none)
    | some session ↦ refresh id session now then_now r
  ]

  -- The loop of `cleanupExpired` over the entries, with the number closed so far.
  pub cleanup_entries :
      ℕ → List (String × HttpSession A) → HttpSessionRegistry A × ℕ → HttpSessionRegistry A × ℕ
  unfolding close
  cleanup_entries now [] (r, count) = (r, count)
  cleanup_entries now ((id, session) ∷ entries) (r, count) =
      cleanup_entries now entries
        (if is_expired r session now then ((close id idle_timeout r).0, count + 1) else (r, count))

  pub cleanup_expired : ℕ → HttpSessionRegistry A → HttpSessionRegistry A × ℕ
  unfolding cleanup_entries
  cleanup_expired now r = cleanup_entries now r.sessions (r, 0)

  -- `session.lastSeenAt < oldestLastSeenAt`, where `none` stands for infinity.
  abbrev pub is_older : HttpSession A → Option (String × HttpSession A) → Bool
  is_older session none = true
  is_older session (some (id, best)) = ltb session.last_seen_at best.last_seen_at

  pub oldest :
      Option (String × HttpSession A)
      → List (String × HttpSession A)
      → Option (String × HttpSession A)
  oldest best [] = best
  oldest best ((id, session) ∷ entries) =
      oldest (if is_older session best then some (id, session) else best) entries

  evict :
      Option (String × HttpSession A)
      → Reason
      → HttpSessionRegistry A
      → HttpSessionRegistry A × Option String
  unfolding close
  evict none reason r = (r, none)
  evict (some (id, session)) reason r =
      if id == "" then (r, none) else ((close id reason r).0, some id)

  pub evict_oldest : Reason → HttpSessionRegistry A → HttpSessionRegistry A × Option String
  unfolding oldest evict
  evict_oldest reason r = evict (oldest none r.sessions) reason r

  admit_after :
      HttpSessionRegistry A × Option String → HttpSessionRegistry A × HttpSessionCapacityResult
  admit_after (r, none) =
      (r, record { allowed = false; evicted_session_id = none; reason = some capacity_full })
  admit_after (r, some id) =
      if id == ""
      then (r, record { allowed = false; evicted_session_id = none; reason = some capacity_full })
      else (
        r,
        record {
          allowed = true;
          evicted_session_id = some id;
          reason = some capacity_evict_oldest;
        },
      )

  pub reserve_capacity :
      ℕ → HttpSessionRegistry A → HttpSessionRegistry A × HttpSessionCapacityResult
  unfolding admit_after
  reserve_capacity now r =
      let swept = (cleanup_expired now r).0 in
      if ltb (size swept.sessions) swept.max_sessions
      then (swept, record { allowed = true; evicted_session_id = none; reason = none })
      else admit_after (evict_oldest capacity_evict_oldest swept)
