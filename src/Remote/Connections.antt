-- ===== src/Remote/Connections.antt =====
-- src/remote/agent-connection-lifecycle.ts: the WebSocket connections of agents. A connection or a
-- socket is a number, its identity; what the class calls on them and on `audit` is the list `calls`.
-- Its callbacks run later, as operations of their own, and so do the timers: a timer is a flag.
pub mod Frame
pub mod Claims
pub mod Limits
mod Tests
use ssh_mcp_pro.Base.{
  ℕ, ◌+◌, Bool, true, false, not, ◌&&◌, ◌||◌, String, string_eq, nat_eq, List, [], ◌∷◌, ◌++◌, map,
  Option, none, some, ◌==◌, if◌then◌else◌, ltb, leb, or_else, filter, length,
}
use ssh_mcp_pro.Table.{Table, size, get, set, delete, has}

pub record LifecycleConfig : Type 0 where
  pub agent_hello_timeout_ms : Option ℕ
  pub agent_idle_timeout_ms : Option ℕ
  pub max_agent_connections : Option ℕ
  pub max_agent_connections_per_agent : Option ℕ

pub record ManagedAgentConnection : Type 0 where
  pub last_activity_at : ℕ
  pub authenticated : Bool
  pub agent_id : Option String
  pub hello_timeout : Bool
  pub termination_timeout : Bool

pub data ErrorCode : Type 0 where
  forbidden internal_error agent_timeout : ErrorCode

-- An audit names the agent that the connection is bound to, if the store still has it.
pub data Call : Type 0 where
  rejects_upgrade destroys_socket pings terminates : ℕ → Call
  closes : ℕ → ℕ → Call
  sends_error : ℕ → ErrorCode → Call
  audits_global_limit : Call
  audits_agent_limit : String → Call
  audits_idle_timeout audits_hello_timeout audits_closed : Option String → Call

pub record Lifecycle : Type 0 where
  pub config : LifecycleConfig
  pub managed_connections : Table ℕ ManagedAgentConnection
  pub agent_claims : Table String (Table ℕ (Unit {0}))
  pub pending_upgrade_sockets : Table ℕ (Unit {0})
  pub shutting_down : Bool
  pub calls : List Call

pub create : LifecycleConfig → Lifecycle
create config = record {
  config = config;
  managed_connections = [];
  agent_claims = [];
  pending_upgrade_sockets = [];
  shutting_down = false;
  calls = [];
}

abbrev pub max_connections : LifecycleConfig → ℕ
max_connections config = or_else config.max_agent_connections 128

abbrev pub max_connections_per_agent : LifecycleConfig → ℕ
max_connections_per_agent config = or_else config.max_agent_connections_per_agent 2

abbrev pub idle_timeout : LifecycleConfig → ℕ
idle_timeout config = or_else config.agent_idle_timeout_ms 90000

abbrev call : Call → Lifecycle → Lifecycle
call c s = record s { calls = s.calls ++ c ∷ [] }

-- `handleUpgrade` up to the call of `acceptWebSocketUpgrade`.
pub handle_upgrade : ℕ → Lifecycle → Lifecycle
handle_upgrade socket s =
    if s.shutting_down
    then call (rejects_upgrade socket) s
    else if not (
        ltb (size s.managed_connections + size s.pending_upgrade_sockets)
          (max_connections s.config))
    then record s { calls = s.calls ++ audits_global_limit ∷ rejects_upgrade socket ∷ [] }
    else record s { pending_upgrade_sockets = set socket tt s.pending_upgrade_sockets }

pub release_pending : ℕ → Lifecycle → Lifecycle
release_pending socket s = record s {
  pending_upgrade_sockets = delete socket s.pending_upgrade_sockets;
}

-- The codes are those of the close frames.
pub attach : ℕ → ℕ → Lifecycle → Lifecycle × Bool
attach connection now s =
    if s.shutting_down
    then (call (closes connection 1013) s, false)
    else if leb (max_connections s.config) (size s.managed_connections)
    then (record s { calls = s.calls ++ audits_global_limit ∷ closes connection 1013 ∷ [] }, false)
    else (
      record s {
        managed_connections =
            set connection
              (record {
                last_activity_at = now;
                authenticated = false;
                agent_id = none;
                hello_timeout = true;
                termination_timeout = false;
              })
              s.managed_connections;
      },
      true,
    )

abbrev pub update_managed :
    ℕ → (ManagedAgentConnection → ManagedAgentConnection) → Lifecycle → Lifecycle
update_managed connection f s = elim (get connection s.managed_connections) [
  | none ↦ s
  | some m ↦ record s { managed_connections = set connection (f m) s.managed_connections }
]

pub close_connection : ℕ → ℕ → Lifecycle → Lifecycle
close_connection connection code s =
    call (closes connection code)
      (update_managed connection (λ m. record m { termination_timeout = true }) s)

abbrev pub claims_of : String → Lifecycle → Table ℕ (Unit {0})
claims_of agent s = or_else (get agent s.agent_claims) []

-- `managed.agentId && managed.agentId !== agent.id`.
abbrev pub is_bound_elsewhere : Option String → String → Bool
is_bound_elsewhere none agent = false
is_bound_elsewhere (some bound) agent = not (bound == "") && not (bound == agent)

pub claim_managed : ℕ → String → ManagedAgentConnection → Lifecycle → Lifecycle × Bool
unfolding close_connection
claim_managed connection agent m s =
    if is_bound_elsewhere m.agent_id agent
    then (close_connection connection 1008 (call (sends_error connection forbidden) s), false)
    else if not (has connection (claims_of agent s))
        && leb (max_connections_per_agent s.config) (size (claims_of agent s))
    then (
      close_connection connection 1008 (record s {
        calls = s.calls ++ audits_agent_limit agent ∷ sends_error connection forbidden ∷ [];
      }),
      false,
    )
    else (
      record s {
        agent_claims = set agent (set connection tt (claims_of agent s)) s.agent_claims;
        managed_connections =
            set connection (record m { agent_id = some agent }) s.managed_connections;
      },
      true,
    )

unfoldable pub claim : ℕ → String → Lifecycle → Lifecycle × Bool
unfolding claim_managed
claim connection agent s = elim (get connection s.managed_connections) [
  | none ↦ (s, true)
  | some m ↦ claim_managed connection agent m s
]

unfoldable pub mark_authenticated : ℕ → String → Lifecycle → Lifecycle
mark_authenticated connection agent =
    update_managed connection
      (λ m. record m { authenticated = true; agent_id = some agent; hello_timeout = false })

pub agent_id_for : ℕ → Lifecycle → Option String
agent_id_for connection s = elim (get connection s.managed_connections) [
  | none ↦ none
  | some m ↦ m.agent_id
]

-- The body of the loop of `runHeartbeat`, and the loop.
pub heartbeat_entry : ℕ → ℕ × ManagedAgentConnection → Lifecycle → Lifecycle
unfolding close_connection
heartbeat_entry now (connection, m) s =
    if leb (m.last_activity_at + idle_timeout s.config) now
    then close_connection connection 1001 (call (audits_idle_timeout m.agent_id) s)
    else call (pings connection) s

pub heartbeat_entries : ℕ → List (ℕ × ManagedAgentConnection) → Lifecycle → Lifecycle
unfolding heartbeat_entry
heartbeat_entries now [] s = s
heartbeat_entries now (entry ∷ entries) s =
    heartbeat_entries now entries (heartbeat_entry now entry s)

pub run_heartbeat : ℕ → Lifecycle → Lifecycle
unfolding heartbeat_entries
run_heartbeat now s = if s.shutting_down then s else heartbeat_entries now s.managed_connections s

pub close : Lifecycle → Lifecycle
close s = if s.shutting_down then s else record s {
  managed_connections = [];
  agent_claims = [];
  pending_upgrade_sockets = [];
  shutting_down = true;
  calls =
      s.calls
      ++ map (λ (e : ℕ × Unit {0}). destroys_socket e.0) s.pending_upgrade_sockets
      ++ map (λ (e : ℕ × ManagedAgentConnection). terminates e.0) s.managed_connections;
}

-- `receiveMessage` up to the callback, and `recordActivity`.
pub record_activity : ℕ → ℕ → Lifecycle → Lifecycle
record_activity connection now =
    update_managed connection (λ m. record m { last_activity_at = now })

-- The `catch` of the callback.
pub message_failed : ℕ → Lifecycle → Lifecycle
unfolding close_connection
message_failed connection s =
    close_connection connection 1008 (call (sends_error connection internal_error) s)

pub handle_hello_timeout : ℕ → Lifecycle → Lifecycle
unfolding close_connection
handle_hello_timeout connection s = elim (get connection s.managed_connections) [
  | none ↦ s
  | some m ↦
      if m.authenticated
      then s
      else close_connection connection 1008 (record s {
        calls =
            s.calls ++ audits_hello_timeout m.agent_id ∷ sends_error connection agent_timeout ∷ [];
      })
]

-- The claims of the agent without the connection; an agent without claims has no entry.
pub release_agent_claim : Option String → ℕ → Lifecycle → Lifecycle
release_agent_claim none connection s = s
release_agent_claim (some agent) connection s =
    if agent == "" then s else elim (get agent s.agent_claims) [
      | none ↦ s
      | some claims ↦
          let rest = delete connection claims in
          if length rest == 0
          then record s { agent_claims = delete agent s.agent_claims }
          else record s { agent_claims = set agent rest s.agent_claims }
    ]

-- `told` is the answer of `onAuthenticatedClose`.
pub handle_close : ℕ → Bool → Lifecycle → Lifecycle
unfolding release_agent_claim
handle_close connection told s = elim (get connection s.managed_connections) [
  | none ↦ s
  | some m ↦
      let released =
        release_agent_claim m.agent_id connection
          (record s { managed_connections = delete connection s.managed_connections }) in
      if s.shutting_down || m.authenticated && not (or_else m.agent_id "" == "") && told
      then released
      else call (audits_closed m.agent_id) released
]
