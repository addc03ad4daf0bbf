-- ===== src/Session/Admission/Tests.antt =====
-- Runs of the admission of src/session.ts: a limit of two.
use ssh_mcp_pro.Base.{◌+◌, ◌≡◌, ◌≤◌, refl, string_eq, [], ◌∷◌, arith}
use ssh_mcp_pro.Table.{get, set, delete, size, has, IsMap}
use ssh_mcp_pro.Session.{
  finish_close, enforce, strict, SshSession, Security, SessionManager, create, begin_operation,
  end_operation, has_active_operations, get_session, is_idle, cleanup_expired_sessions,
}
use ssh_mcp_pro.Session.Admission.{
  Machine, free, reserve_start, reserve_resume, connected, take_slot, reserved, Reach, unmoved,
  moved, reserves, connects,
}
use ssh_mcp_pro.Session.Admission.Bound.{Reach-create-within}
use ssh_mcp_pro.Session.Admission.Eviction.{Outcome, reserve_start-Outcome, reserve_resume-evicting}
use ssh_mcp_pro.Session.Tests.{security, session_at, manager, manager_distinct}

abbrev one_reserved : Machine
one_reserved = record { manager = take_slot (create 2 900000 security); holder = free }

abbrev one_connected : Machine
one_connected = record {
  manager = connected "a" (session_at 200) (take_slot (create 2 900000 security));
  holder = free;
}

-- A reservation, then a connection.
Reach-connected : Reach (record { manager = create 2 900000 security; holder = free }) one_connected
unfolding create reserve_start ssh_mcp_pro.Table.has
Reach-connected =
    moved (connects "a" (session_at 200) (omega arith) refl refl)
      (moved (reserves refl refl) unmoved)

Reach-create-within_example :
    size one_connected.manager.sessions + one_connected.manager.pending_connections ≤ 2
Reach-create-within_example = Reach-create-within 2 900000 security one_connected Reach-connected

reserve_start-Outcome_example : Outcome manager (reserve_start manager)
reserve_start-Outcome_example = reserve_start-Outcome manager manager_distinct

abbrev closing_b : SessionManager
closing_b = record manager { closing_sessions = ("b", tt) ∷ [] }

reserve_resume-evicting_example :
    reserve_resume (finish_close "b" closing_b) ≡ (take_slot (finish_close "b" closing_b), reserved)
unfolding create reserve_start ssh_mcp_pro.Session.oldest_idle has ssh_mcp_pro.Session.begin_close
    set
reserve_resume-evicting_example =
    reserve_resume-evicting manager closing_b "b" manager_distinct (omega arith) refl
