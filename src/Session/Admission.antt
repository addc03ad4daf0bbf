-- ===== src/Session/Admission.antt =====
-- The admission of connections: `reserveConnectionSlot`, `evictOldestSession` and the part of
-- `openSession` between the reservation and its `finally`. Reservations run one at a time, since
-- each waits for the promise `admission` of the one before; what runs between their `await`s is a
-- step of the machine below.
pub mod Bound
pub mod Eviction
mod Tests
use ssh_mcp_pro.Base.{
  ℕ, suc, ◌+◌, ◌-◌, ◌<◌, ◌≡◌, Bool, true, false, String, string_eq, List, [], ◌∷◌, Option, none,
  some, ◌==◌, if◌then◌else◌, ltb, leb,
}
use ssh_mcp_pro.Table.{Table, size, get, set, delete, has}
use ssh_mcp_pro.Session.{
  SessionManager, SshSession, begin_operation, end_operation, begin_close, finish_close,
  get_session, oldest_idle, cleanup_expired_sessions,
}

-- Where a reservation stands after its first segment.
pub data Reservation : Type 0 where
  reserved limit_reached : Reservation
  -- It waits for the session to be closed.
  evicting : String → Reservation

evict_start : Option (String × SshSession) → SessionManager → SessionManager × Reservation
evict_start none m = (m, limit_reached)
evict_start (some (id, s)) m =
    if id == ""
    then (m, limit_reached)
    else let (m', closing) = begin_close id m in
      if closing then (m', evicting id) else (m', limit_reached)

abbrev pub take_slot : SessionManager → SessionManager
take_slot m = record m { pending_connections = m.pending_connections + 1 }

abbrev pub is_full : SessionManager → Bool
is_full m = leb m.max_sessions (size m.sessions + m.pending_connections)

-- `reserveConnectionSlot` up to the wait for an eviction.
pub reserve_start : SessionManager → SessionManager × Reservation
unfolding evict_start
reserve_start m =
    if is_full m
    then if ltb 0 m.pending_connections
      then (m, limit_reached)
      else evict_start (oldest_idle m none m.sessions) m
    else (take_slot m, reserved)

-- `reserveConnectionSlot` after the eviction.
pub reserve_resume : SessionManager → SessionManager × Reservation
reserve_resume m = if is_full m then (m, limit_reached) else (take_slot m, reserved)

-- A connection attempt ends: with a session under a new name, or with an error.
pub connected : String → SshSession → SessionManager → SessionManager
connected id s m = record m {
  sessions = set id s m.sessions;
  pending_connections = m.pending_connections - 1;
}

pub connection_failed : SessionManager → SessionManager
connection_failed m = record m { pending_connections = m.pending_connections - 1 }

-- Who holds the admission: nobody, a reservation whose eviction runs, or one whose eviction is done.
pub data Holder : Type 0 where
  free : Holder
  closing closed : String → Holder

pub record Machine : Type 0 where
  pub manager : SessionManager
  pub holder : Holder

abbrev pub held_by : Reservation → Holder
held_by reserved = free
held_by limit_reached = free
held_by (evicting id) = closing id

abbrev pub after_close : String → Holder → Holder
after_close id free = free
after_close id (closing j) = if id == j then closed j else closing j
after_close id (closed j) = closed j

-- What may happen next. `connects` takes a name that no session has, since it is a random UUID.
pub data Step (c d : Machine) : Type 0 where
  reserves :
      c.holder ≡ free
      → d ≡ record {
        manager = (reserve_start c.manager).0;
        holder = held_by (reserve_start c.manager).1;
      }
      → Step c d
  resumes :
      (id : String)
      → c.holder ≡ closed id
      → d ≡ record { manager = (reserve_resume c.manager).0; holder = free }
      → Step c d
  connects :
      (id : String) (s : SshSession)
      → 0 < c.manager.pending_connections
      → has id c.manager.sessions ≡ false
      → d ≡ record c { manager = connected id s c.manager }
      → Step c d
  fails :
      0 < c.manager.pending_connections
      → d ≡ record c { manager = connection_failed c.manager }
      → Step c d
  begins_close : (id : String) → d ≡ record c { manager = (begin_close id c.manager).0 } → Step c d
  finishes_close :
      (id : String)
      → has id c.manager.closing_sessions ≡ true
      → d ≡ record { manager = finish_close id c.manager; holder = after_close id c.holder }
      → Step c d
  begins_operation :
      (id : String) → d ≡ record c { manager = begin_operation id c.manager } → Step c d
  ends_operation : (id : String) → d ≡ record c { manager = end_operation id c.manager } → Step c d
  gets_session :
      (id : String) (now then_now : ℕ)
      → d ≡ record c { manager = (get_session id now then_now c.manager).0 }
      → Step c d
  cleans_up :
      (now : ℕ) → d ≡ record c { manager = cleanup_expired_sessions now c.manager } → Step c d

pub data Reach (c : Machine) : Machine → Type 0 where
  unmoved : Reach c c
  moved : {between after : Machine} → Step between after → Reach c between → Reach c after
