-- ===== src/Session.antt =====
-- src/session.ts: the session manager. `sessions` is the `Map` of open SSH sessions; a session's
-- `ssh` and `sftp` handles are left out but for whether there is an SFTP channel. A promise splits
-- an operation at its `await`s: `begin_close` is `closeSession` up to the wait for the listeners,
-- `finish_close` what follows. Each reading of `Date.now()` is an argument.
pub mod Operations
pub mod Admission
pub mod HostKeys
mod Tests
use ssh_mcp_pro.Base.{
  ℕ, suc, ◌+◌, ◌-◌, Bool, true, false, not, ◌&&◌, ◌||◌, String, string_eq, List, [], ◌∷◌, map,
  Option, none, some, ◌==◌, if◌then◌else◌, ltb, leb, nat_beq, or_else, filter,
}
use ssh_mcp_pro.Table.{Table, size, get, set, delete, has}

pub data PolicyMode : Type 0 where
  enforce explain : PolicyMode

pub data HostKeyPolicy : Type 0 where
  strict accept_new insecure : HostKeyPolicy

pub data AuthStrategy : Type 0 where
  auto password key agent : AuthStrategy

pub record ConnectionParams : Type 0 where
  pub host : String
  pub policy_host : Option String
  pub username : String
  pub port : Option ℕ
  pub auth : Option AuthStrategy
  pub password : Option String
  pub private_key : Option String
  pub private_key_path : Option String
  pub passphrase : Option String
  pub ttl_ms : Option ℕ
  pub strict_host_key_checking : Option Bool
  pub host_key_policy : Option HostKeyPolicy
  pub known_hosts_path : Option String
  pub expected_host_key_sha256 : Option String
  pub policy_mode : Option PolicyMode

pub record SessionInfo : Type 0 where
  pub session_id : String
  pub host : String
  pub username : String
  pub port : ℕ
  pub created_at : ℕ
  pub expires_at : ℕ
  pub last_used : ℕ
  pub policy_mode : PolicyMode
  pub host_key_policy : HostKeyPolicy

pub record SshSession : Type 0 where
  pub info : SessionInfo
  pub sftp : Bool
  pub connection_params : Option ConnectionParams

pub record Security : Type 0 where
  pub allow_root_login : Bool
  pub host_key_policy : HostKeyPolicy
  pub known_hosts_path : String

pub record SessionManager : Type 0 where
  pub sessions : Table String SshSession
  pub pending_connections : ℕ
  pub max_sessions : ℕ
  pub default_ttl_ms : ℕ
  pub accepted_host_keys : Table String String
  pub closing_sessions : Table String (Unit {0})
  pub active_operations : Table String ℕ
  pub security : Security

pub create : ℕ → ℕ → Security → SessionManager
create max_sessions default_ttl_ms security = record {
  sessions = [];
  pending_connections = 0;
  max_sessions = max_sessions;
  default_ttl_ms = default_ttl_ms;
  accepted_host_keys = [];
  closing_sessions = [];
  active_operations = [];
  security = security;
}

pub begin_operation : String → SessionManager → SessionManager
begin_operation id m = record m {
  active_operations = set id (or_else (get id m.active_operations) 0 + 1) m.active_operations;
}

pub end_operation : String → SessionManager → SessionManager
end_operation id m = elim (get id m.active_operations) [
  | none ↦ record m { active_operations = delete id m.active_operations }
  | some current ↦
      if leb current 0
      then record m { active_operations = delete id m.active_operations }
      else if nat_beq current 1
      then record m { active_operations = delete id m.active_operations }
      else record m { active_operations = set id (current - 1) m.active_operations }
]

pub has_active_operations : SessionManager → String → Bool
has_active_operations m id = ltb 0 (or_else (get id m.active_operations) 0)

-- `closeSession` as far as the call of the close listeners; the answer is `false` where it returns
-- `false` at once.
pub begin_close : String → SessionManager → SessionManager × Bool
begin_close id m =
    if has id m.closing_sessions
    then (m, false)
    else if not (has id m.sessions)
    then (m, false)
    else (record m { closing_sessions = set id tt m.closing_sessions }, true)

-- `closeSession` once the listeners are done, failed or not.
pub finish_close : String → SessionManager → SessionManager
finish_close id m = record m {
  sessions = delete id m.sessions;
  closing_sessions = delete id m.closing_sessions;
  active_operations = delete id m.active_operations;
}

-- `info.lastUsed = now` on the shared session object.
pub touch : SshSession → ℕ → SshSession
touch s now = record s { info = record (s.info) { last_used = now } }

pub get_session : String → ℕ → ℕ → SessionManager → SessionManager × Option SshSession
unfolding touch has_active_operations begin_close
get_session id now then_now m = elim (get id m.sessions) [
  | none ↦ (m, none)
  | some s ↦
      if leb s.info.expires_at now
      then if has_active_operations m id then (m, some s) else ((begin_close id m).0, none)
      else (record m { sessions = set id (touch s then_now) m.sessions }, some (touch s then_now))
]

-- Neither being closed nor busy.
abbrev pub is_idle : SessionManager → String → Bool
is_idle m id = not (has id m.closing_sessions || has_active_operations m id)

-- The scan of `evictOldestSession`; `none` for `oldestTime` is infinity.
abbrev pub is_older : SshSession → Option (String × SshSession) → Bool
is_older s none = true
is_older s (some (id, best)) = ltb s.info.last_used best.info.last_used

pub oldest_idle :
    SessionManager
    → Option (String × SshSession)
    → List (String × SshSession)
    → Option (String × SshSession)
unfolding has_active_operations
oldest_idle m best [] = best
oldest_idle m best ((id, s) ∷ entries) =
    oldest_idle m (if is_idle m id && is_older s best then some (id, s) else best) entries

-- The sessions that `cleanupExpiredSessions` collects.
pub expired_idle : SessionManager → ℕ → List (String × SshSession) → List String
unfolding has_active_operations
expired_idle m now [] = []
expired_idle m now ((id, s) ∷ entries) =
    let rest = expired_idle m now entries in
    if is_idle m id && ltb s.info.expires_at now then id ∷ rest else rest

pub begin_close_all : List String → SessionManager → SessionManager
unfolding begin_close
begin_close_all [] m = m
begin_close_all (id ∷ ids) m = begin_close_all ids (begin_close id m).0

pub cleanup_expired_sessions : ℕ → SessionManager → SessionManager
unfolding expired_idle begin_close_all
cleanup_expired_sessions now m = begin_close_all (expired_idle m now m.sessions) m

abbrev pub is_listed : SessionManager → ℕ → String × SshSession → Bool
is_listed m now (id, s) =
    if has id m.closing_sessions
    then false
    else if leb s.info.expires_at now
    then has_active_operations m id
    else true

pub get_active_sessions : ℕ → SessionManager → List SessionInfo
unfolding has_active_operations
get_active_sessions now m =
    map (λ (e : String × SshSession). e.1.info) (filter (is_listed m now) m.sessions)

-- `closeAllSessions` up to the waits.
pub begin_close_all_sessions : SessionManager → SessionManager
unfolding begin_close_all
begin_close_all_sessions m = begin_close_all (map (λ (e : String × SshSession). e.0) m.sessions) m
