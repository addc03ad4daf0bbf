-- ===== src/Session/Admission/Bound.antt =====
-- The limit on the sessions and the reserved slots of src/session.ts.
use ssh_mcp_pro.Base.{
  refl, ◌∙◌, ℕ, ◌+◌, ◌≤◌, ◌<◌, ◌≡◌, false, String, string_eq, Option, none, some, arith,
}
use ssh_mcp_pro.Table.{size, has, IsMap, size-set, size-delete-le, set-IsMap, delete-IsMap}
use ssh_mcp_pro.Session.{
  SessionManager, SshSession, Security, create, begin_operation, end_operation, finish_close,
  oldest_idle,
}
use ssh_mcp_pro.Session.Operations.{
  SameSessions, begin_close-SameSessions, cleanup-SameSessions, get_session-size, get_session-IsMap,
}
use ssh_mcp_pro.Session.Admission.{
  Machine, free, evict_start, reserve_start, reserve_resume, connected, connection_failed, Step,
  reserves, resumes, connects, fails, begins_close, finishes_close, begins_operation,
  ends_operation, gets_session, cleans_up, Reach, unmoved, moved,
}

pub record Bounded (m : SessionManager) : Type 0 where
  pub within : size m.sessions + m.pending_connections ≤ m.max_sessions
  pub distinct : IsMap m.sessions

evict_start-Bounded :
    (best : Option (String × SshSession)) (m : SessionManager)
    → Bounded m
    → Bounded (evict_start best m).0
unfolding evict_start
evict_start-Bounded none m b = b
evict_start-Bounded (some (id, s)) m b = ground (arith, begin_close-SameSessions id m)

reserve_start-Bounded : (m : SessionManager) → Bounded m → Bounded (reserve_start m).0
unfolding reserve_start
reserve_start-Bounded m b = ground (arith, evict_start-Bounded (oldest_idle m none m.sessions) m b)

reserve_resume-Bounded : (m : SessionManager) → Bounded m → Bounded (reserve_resume m).0
unfolding reserve_resume
reserve_resume-Bounded m b = ground arith

SameSessions-Bounded : (m t : SessionManager) → SameSessions m t → Bounded m → Bounded t
SameSessions-Bounded m t e b = record {
  within = rw (e.sessions, e.pending_connections, e.max_sessions) b.within;
  distinct = rw (e.sessions) b.distinct;
}

connected-Bounded :
    (id : String) (s : SshSession) (m : SessionManager)
    → 0 < m.pending_connections
    → has id m.sessions ≡ false
    → Bounded m
    → Bounded (connected id s m)
unfolding connected
connected-Bounded id s m p new b = record {
  within = ground (arith, size-set id s m.sessions, b.within);
  distinct = set-IsMap id s m.sessions b.distinct;
}

finish_close-Bounded : (id : String) (m : SessionManager) → Bounded m → Bounded (finish_close id m)
unfolding finish_close
finish_close-Bounded id m b = record {
  within = omega (arith, size-delete-le id m.sessions, b.within);
  distinct = delete-IsMap id m.sessions b.distinct;
}

end_operation-sessions :
    (id : String) (m : SessionManager)
    → ((end_operation id m).sessions ≡ m.sessions)
      × ((end_operation id m).pending_connections ≡ m.pending_connections)
      × ((end_operation id m).max_sessions ≡ m.max_sessions)
unfolding end_operation
end_operation-sessions id m = ground arith

-- Every step keeps the number of open sessions and reserved slots within the limit.
Step-Bounded : {c d : Machine} → Step c d → Bounded c.manager → Bounded d.manager
unfolding begin_operation connection_failed
Step-Bounded {c} (reserves h e) b = rw e (reserve_start-Bounded c.manager b)
Step-Bounded {c} (resumes id h e) b = rw e (reserve_resume-Bounded c.manager b)
Step-Bounded {c} (connects id s p new e) b = rw e (connected-Bounded id s c.manager p new b)
Step-Bounded {c} (fails p e) b =
    rw e (record { within = omega (arith, b.within); distinct = b.distinct })
Step-Bounded {c} (begins_close id e) b =
    rw e (SameSessions-Bounded c.manager _ (begin_close-SameSessions id c.manager) b)
Step-Bounded {c} (finishes_close id h e) b = rw e (finish_close-Bounded id c.manager b)
Step-Bounded (begins_operation id e) b = rw e (record { within = b.within; distinct = b.distinct })
Step-Bounded {c} (ends_operation id e) b =
    let (s, p, x) = end_operation-sessions id c.manager in
    rw e (record { within = rw (s, p, x) b.within; distinct = rw s b.distinct })
Step-Bounded {c} (gets_session id now then_now e) b =
    let (s, p, x) = get_session-size id now then_now c.manager in
    rw e (record {
      within = rw (s, p, x) b.within;
      distinct = get_session-IsMap id now then_now c.manager b.distinct;
    })
Step-Bounded {c} (cleans_up now e) b =
    rw e (SameSessions-Bounded c.manager _ (cleanup-SameSessions now c.manager) b)

Reach-Bounded : {c d : Machine} → Reach c d → Bounded c.manager → Bounded d.manager
Reach-Bounded unmoved b = b
Reach-Bounded (moved st r) b = Step-Bounded st (Reach-Bounded r b)

evict_start-max :
    (best : Option (String × SshSession)) (m : SessionManager)
    → (evict_start best m).0.max_sessions ≡ m.max_sessions
unfolding evict_start
evict_start-max none m = refl
evict_start-max (some (id, s)) m = ground (arith, begin_close-SameSessions id m)

Step-max : {c d : Machine} → Step c d → d.manager.max_sessions ≡ c.manager.max_sessions
unfolding begin_operation connection_failed connected finish_close reserve_start reserve_resume
Step-max {c} (reserves h e) =
    ground (arith, e, evict_start-max (oldest_idle c.manager none c.manager.sessions) c.manager)
Step-max (resumes id h e) = ground (arith, e)
Step-max (connects id s p new e) = rw e
Step-max (fails p e) = rw e
Step-max {c} (begins_close id e) = rw e (begin_close-SameSessions id c.manager).max_sessions
Step-max (finishes_close id h e) = rw e
Step-max (begins_operation id e) = rw e
Step-max {c} (ends_operation id e) = rw e (end_operation-sessions id c.manager).2
Step-max {c} (gets_session id now then_now e) = rw e (get_session-size id now then_now c.manager).2
Step-max {c} (cleans_up now e) = rw e (cleanup-SameSessions now c.manager).max_sessions

Reach-max : {c d : Machine} → Reach c d → d.manager.max_sessions ≡ c.manager.max_sessions
Reach-max unmoved = refl
Reach-max (moved st r) = Step-max st ∙ Reach-max r

-- From a new manager with the limit `max_sessions` on, whatever reservations, evictions,
-- connections, closings, lookups, operations and cleanups interleave, the open sessions and the
-- reserved slots together never exceed `max_sessions`.
pub Reach-create-within :
    (max_sessions default_ttl_ms : ℕ) (security : Security) (d : Machine)
    → Reach (record { manager = create max_sessions default_ttl_ms security; holder = free }) d
    → size d.manager.sessions + d.manager.pending_connections ≤ max_sessions
unfolding create
Reach-create-within max_sessions default_ttl_ms security d r =
    let b = Reach-Bounded r (record { within = omega arith; distinct = tt }) in
    rw (← Reach-max r) b.within
