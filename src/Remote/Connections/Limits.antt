-- ===== src/Remote/Connections/Limits.antt =====
-- Histories of the connections of src/remote/agent-connection-lifecycle.ts, and their limits.
use ssh_mcp_pro.Base.{ℕ, ◌≡◌, ◌≢◌, inl, refl, Bool, false, String, string_eq, nat_eq, some, arith}
use ssh_mcp_pro.Table.{get, has}
use ssh_mcp_pro.Remote.Connections.{
  LifecycleConfig, Lifecycle, create, handle_upgrade, release_pending, attach, close_connection,
  claim, mark_authenticated, agent_id_for, run_heartbeat, close, record_activity, message_failed,
  handle_hello_timeout, handle_close,
}
use ssh_mcp_pro.Remote.Connections.Frame.{
  IsLimited, Same-IsLimited, update_managed-Same, close_connection-Same, refuse-Same,
  handle_hello_timeout-Same, mark_authenticated-Same, handle_upgrade-Same, run_heartbeat-Same,
  release_pending-Same,
}
use ssh_mcp_pro.Remote.Connections.Claims.{
  attach-IsLimited, claim-IsLimited, handle_close-IsLimited, close-IsLimited,
}

-- What may happen to the connections. `attaches` takes a new connection, `claims` an agent with a
-- name, and `authenticates` a connection that the agent has claimed.
pub data Happens (s t : Lifecycle) : Type 0 where
  upgrades : (socket : ℕ) → t ≡ handle_upgrade socket s → Happens s t
  releases : (socket : ℕ) → t ≡ release_pending socket s → Happens s t
  attaches :
      (connection now : ℕ)
      → has connection s.managed_connections ≡ false
      → t ≡ (attach connection now s).0
      → Happens s t
  claims :
      (connection : ℕ) (agent : String)
      → agent ≢ ""
      → t ≡ (claim connection agent s).0
      → Happens s t
  authenticates :
      (connection : ℕ) (agent : String)
      → agent_id_for connection s ≡ some agent
      → t ≡ mark_authenticated connection agent s
      → Happens s t
  is_active : (connection now : ℕ) → t ≡ record_activity connection now s → Happens s t
  fails_message : (connection : ℕ) → t ≡ message_failed connection s → Happens s t
  closes_connection : (connection code : ℕ) → t ≡ close_connection connection code s → Happens s t
  misses_hello : (connection : ℕ) → t ≡ handle_hello_timeout connection s → Happens s t
  beats : (now : ℕ) → t ≡ run_heartbeat now s → Happens s t
  ends : (connection : ℕ) (told : Bool) → t ≡ handle_close connection told s → Happens s t
  shuts_down : t ≡ close s → Happens s t

-- A history from one state to another, its last event first.
pub data History (s : Lifecycle) : Lifecycle → Type 0 where
  nothing_yet : History s s
  afterwards : {t u : Lifecycle} → Happens t u → History s t → History s u

Happens-IsLimited : {s t : Lifecycle} → Happens s t → IsLimited s → IsLimited t
unfolding record_activity message_failed
Happens-IsLimited {s} (upgrades socket e) v = rw e (Same-IsLimited (handle_upgrade-Same socket s) v)
Happens-IsLimited {s} (releases socket e) v =
    rw e (Same-IsLimited (release_pending-Same socket s) v)
Happens-IsLimited {s} (attaches connection now fresh e) v =
    rw e (attach-IsLimited connection now s fresh v)
Happens-IsLimited {s} (claims connection agent named e) v =
    rw e (claim-IsLimited connection agent s named v)
Happens-IsLimited {s} (authenticates connection agent h e) v =
    rw e (Same-IsLimited (mark_authenticated-Same connection agent s h) v)
Happens-IsLimited {s} (is_active connection now e) v = rw e (
    Same-IsLimited
      (update_managed-Same connection (λ m. record m { last_activity_at = now }) s (λ m h. refl)) v)
Happens-IsLimited {s} (fails_message connection e) v =
    rw e (Same-IsLimited (refuse-Same _ connection 1008 s) v)
Happens-IsLimited {s} (closes_connection connection code e) v =
    rw e (Same-IsLimited (close_connection-Same connection code s) v)
Happens-IsLimited {s} (misses_hello connection e) v =
    rw e (Same-IsLimited (handle_hello_timeout-Same connection s) v)
Happens-IsLimited {s} (beats now e) v = rw e (Same-IsLimited (run_heartbeat-Same now s) v)
Happens-IsLimited {s} (ends connection told e) v = rw e (handle_close-IsLimited connection told s v)
Happens-IsLimited {s} (shuts_down e) v = rw e (close-IsLimited s v)

create-IsLimited : (config : LifecycleConfig) → IsLimited (create config)
unfolding create agent_id_for has get
create-IsLimited config = record {
  within = omega arith;
  claims_within = λ a. omega arith;
  claims_owned = λ a c. inl refl;
  unnamed = refl;
}

-- From an empty lifecycle on, whatever upgrades, claims, messages, timeouts and closings follow: the
-- managed connections never exceed their limit, no agent claims more than its limit, and every
-- claimed connection is managed and bound to the agent that claims it, so that a connection that
-- ended holds no claim. (A claim names an agent; an authentication follows the claim.)
pub History-create-IsLimited :
    (config : LifecycleConfig) (s : Lifecycle) → History (create config) s → IsLimited s
History-create-IsLimited config s nothing_yet = create-IsLimited config
History-create-IsLimited config s (afterwards step past) =
    Happens-IsLimited step (History-create-IsLimited config _ past)
