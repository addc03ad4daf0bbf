-- ===== src/HttpSessions/Tests.antt =====
-- Runs of src/http-session-registry.ts: two sessions, and a limit of two.
use ssh_mcp_pro.Base.{ℕ, ◌+◌, ◌≡◌, ◌≤◌, refl, true, String, string_eq, [], ◌∷◌, ◌++◌, some, arith}
use ssh_mcp_pro.Table.{get, set, delete, size, IsMap}
use ssh_mcp_pro.HttpSessions.{
  HttpSession, HttpSessionRegistry, capacity_evict_oldest, put, cleanup_expired, reserve_capacity,
  evict_oldest, oldest, evict, close, admit_after, cleanup_entries,
}
use ssh_mcp_pro.HttpSessions.Cleanup.{cleanup_expired_lem, live_at, SameLimits}
use ssh_mcp_pro.HttpSessions.Eviction.{IsOldest}
use ssh_mcp_pro.HttpSessions.Capacity.{
  WithinCapacity, reserve_capacity-room, reserve_capacity-evicts-IsOldest,
}

abbrev at_time : ℕ → HttpSession String
at_time t = record { last_seen_at = t; payload = "transport" }

abbrev full : HttpSessionRegistry String
full = record {
  sessions = ("a", at_time 200) ∷ ("b", at_time 100) ∷ [];
  max_sessions = 2;
  session_idle_ttl_ms = 1000;
  closed = [];
}

full_distinct : IsMap full.sessions
unfolding ssh_mcp_pro.Table.get
full_distinct = (refl, (refl, tt))

cleanup_expired_lem_example :
    ((id : String)
      → get id (cleanup_expired 1150 full).0.sessions ≡ live_at full 1150 (get id full.sessions))
    × (size (cleanup_expired 1150 full).0.sessions + (cleanup_expired 1150 full).1 ≡ 2)
    × SameLimits full (cleanup_expired 1150 full).0
    × IsMap (cleanup_expired 1150 full).0.sessions
cleanup_expired_lem_example = cleanup_expired_lem 1150 full full_distinct

reserved_at_500 : (reserve_capacity 500 full).1.evicted_session_id ≡ some "b"
unfolding reserve_capacity cleanup_expired cleanup_entries evict_oldest oldest evict close
    admit_after ssh_mcp_pro.Table.get ssh_mcp_pro.Table.delete
reserved_at_500 = refl

admitted_at_500 : (reserve_capacity 500 full).1.allowed ≡ true
unfolding reserve_capacity cleanup_expired cleanup_entries evict_oldest oldest evict close
    admit_after ssh_mcp_pro.Table.get ssh_mcp_pro.Table.delete
admitted_at_500 = refl

reserve_capacity-room_example :
    WithinCapacity (put "c" (at_time 500) (reserve_capacity 500 full).0)
    × ((put "c" (at_time 500) (reserve_capacity 500 full).0).max_sessions ≡ 2)
reserve_capacity-room_example =
    reserve_capacity-room 500 full "c" (at_time 500) full_distinct (omega arith) admitted_at_500

reserve_capacity-evicts-IsOldest_example :
    (let swept = (cleanup_expired 500 full).0 in
      (swept.max_sessions ≤ size swept.sessions)
      × ((s : HttpSession String) × (get "b" swept.sessions ≡ some s)
          × IsOldest s swept.sessions
          × ((reserve_capacity 500 full).0.sessions ≡ delete "b" swept.sessions)
          × ((reserve_capacity 500 full).0.closed
              ≡ swept.closed ++ ("b", s, capacity_evict_oldest) ∷ [])))
reserve_capacity-evicts-IsOldest_example =
    reserve_capacity-evicts-IsOldest 500 full "b" full_distinct reserved_at_500
