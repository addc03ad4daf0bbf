-- ===== src/Session/Tests.antt =====
-- Runs of src/session.ts: two sessions and a limit of two.
use ssh_mcp_pro.Base.{
  ◌↔◌, ◌⊎◌, ◌||◌, ◌&&◌, ◌==◌, not, is_some, if◌then◌else◌, ltb, none, ℕ, ◌≡◌, refl, true, false,
  String, string_eq, [], ◌∷◌, some,
}
use ssh_mcp_pro.Table.{get, set, delete, size, has, IsMap}
use ssh_mcp_pro.Session.{
  enforce, strict, SshSession, Security, SessionManager, create, touch, get_session, is_idle,
  cleanup_expired_sessions,
}
use ssh_mcp_pro.Session.Operations.{
  cleanup_expired_sessions_lem, get_session_lem, IsLapsed, is_overdue, SameSessions,
}

abbrev pub security : Security
security = record {
  allow_root_login = false;
  host_key_policy = strict;
  known_hosts_path = "known_hosts";
}

abbrev pub session_at : ℕ → SshSession
session_at t = record {
  info = record {
    session_id = "id";
    host = "host";
    username = "user";
    port = 22;
    created_at = 0;
    expires_at = 1000;
    last_used = t;
    policy_mode = enforce;
    host_key_policy = strict;
  };
  sftp = true;
  connection_params = none;
}

abbrev pub manager : SessionManager
manager = record (create 2 900000 security) {
  sessions = ("a", session_at 200) ∷ ("b", session_at 100) ∷ [];
}

pub manager_distinct : IsMap manager.sessions
unfolding ssh_mcp_pro.Table.get create
manager_distinct = (refl, (refl, tt))

cleanup_expired_sessions_lem_example :
    (has "a" (cleanup_expired_sessions 1500 manager).closing_sessions ≡ (
      has "a" manager.closing_sessions
      || (is_idle manager "a" && is_overdue 1500 (get "a" manager.sessions))))
    × SameSessions manager (cleanup_expired_sessions 1500 manager)
cleanup_expired_sessions_lem_example =
    cleanup_expired_sessions_lem 1500 manager "a" manager_distinct

get_session_lem_example :
    (((get_session "a" 500 501 manager).1 ≡ none) ↔ IsLapsed "a" 500 manager)
    × ((s : SshSession)
        → (get_session "a" 500 501 manager).1 ≡ some s
        → (t : SshSession) × (get "a" manager.sessions ≡ some t)
          × (s ≡ (if ltb 500 t.info.expires_at then touch t 501 else t))
          × (get "a" (get_session "a" 500 501 manager).0.sessions ≡ some s))
    × (has "b" (get_session "a" 500 501 manager).0.closing_sessions ≡ (
        has "b" manager.closing_sessions
        || (◌==◌ {A = String} "a" "b"
            && has "a" manager.sessions
            && not (is_some (get_session "a" 500 501 manager).1))))
    × ((◌≡◌ {A = String} "a" "b")
        ⊎ (get "b" (get_session "a" 500 501 manager).0.sessions ≡ get "b" manager.sessions))
get_session_lem_example = get_session_lem "a" "b" 500 501 manager
