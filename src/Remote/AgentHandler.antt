-- ===== src/Remote/AgentHandler.antt =====
-- src/remote/agent-handler.ts: the signed messages of agents, on the state that it shares with the
-- control plane. `verify_hello` and `verify_result` stand for `verifyEnvelope`; a connection is a
-- number; `sent` lists what is sent and closed by the control plane itself, in order.
pub mod Replay
use ssh_mcp_pro.Base.{
  ℕ, ◌+◌, Bool, true, false, not, ◌&&◌, ◌||◌, String, string_eq, nat_eq, List, [], ◌∷◌, ◌++◌,
  Option, none, some, ◌==◌, if◌then◌else◌, ℤ, older_than, later_than, or_else, is_some, length, ltb,
  leb,
}
use ssh_mcp_pro.Table.{Table, get, set, delete, has}
use ssh_mcp_pro.Remote.Types.{
  RemoteAgentRecord, AgentPolicy, AgentHelloEnvelope, ActionResultEnvelope, ActionRecord,
  RemoteErrorCode, online, offline, agent_not_found, agent_timeout, signature_invalid,
  action_expired, action_replay_detected, internal_error, forbidden, ActionStatus,
}
use ssh_mcp_pro.Remote.Store.{
  Store, AuditEvent, AuditEventType, insert_audit, get_agent, update_agent, update_action,
  is_revoked,
}
use ssh_mcp_pro.Remote.Nonces.{
  agent_nonce_ttl_ms, prune_nonce_window, has_seen_nonce, remember_nonce,
}
use ssh_mcp_pro.Remote.Connections.{
  Lifecycle, ManagedAgentConnection, agent_id_for, claim, mark_authenticated, close_connection,
  handle_close,
}

pub record AgentConnection : Type 0 where
  pub agent : RemoteAgentRecord
  pub connection : ℕ
  pub seen_nonces : Table String ℕ

pub data Message : Type 0 where
  error_to : ℕ → RemoteErrorCode → Message
  ready : ℕ → String → AgentPolicy → Message
  policy_update : ℕ → String → AgentPolicy → ℕ → Message
  action_request : ℕ → ActionRecord → ℕ → Message
  closes : ℕ → Message

-- How the promise of an action ends.
pub data Settlement : Type 0 where
  resolved : ActionResultEnvelope → Settlement
  rejected : RemoteErrorCode → Settlement

-- The maps that the control plane shares with this handler, the store, and the connections.
pub record Plane : Type 0 where
  pub store : Store
  pub lifecycle : Lifecycle
  pub agent_connections : Table String AgentConnection
  pub agent_hello_nonces : Table String (Table String ℕ)
  pub pending_actions : Table String ActionRecord
  pub sent : List Message
  pub settled : List (String × Settlement)

abbrev pub send : Message → Plane → Plane
send message p = record p { sent = p.sent ++ message ∷ [] }

abbrev pub agent_event : AuditEventType → RemoteAgentRecord → AuditEvent
agent_event event_type agent = record {
  user_id = some agent.user_id;
  agent_id = some agent.id;
  action_id = none;
  event_type = event_type;
}

abbrev pub audit_agent : AuditEventType → RemoteAgentRecord → Plane → Plane
audit_agent event_type agent p = record p {
  store = insert_audit (agent_event event_type agent) p.store;
}

abbrev pub audit_action : AuditEventType → ActionRecord → Plane → Plane
audit_action event_type action p = record p {
  store =
      insert_audit
        (record {
          user_id = some action.user_id;
          agent_id = some action.agent_id;
          action_id = some action.id;
          event_type = event_type;
        })
        p.store;
}

-- An error message, and the connection closed with a policy violation.
unfoldable pub reject_hello : ℕ → RemoteErrorCode → Plane → Plane
reject_hello connection code p =
    send (error_to connection code)
      (record p { lifecycle = close_connection connection 1008 p.lifecycle })

prune_hello_nonces : ℕ → Table String (Table String ℕ) → Table String (Table String ℕ)
prune_hello_nonces now [] = []
prune_hello_nonces now ((agent, nonces) ∷ rows) =
    let rest = prune_hello_nonces now rows in
    let live = prune_nonce_window nonces now in
    if length live == 0 then rest else (agent, live) ∷ rest

prune_seen_nonces : ℕ → Table String AgentConnection → Table String AgentConnection
prune_seen_nonces now [] = []
prune_seen_nonces now ((agent, live) ∷ rows) =
    (agent, record live { seen_nonces = prune_nonce_window live.seen_nonces now })
    ∷ prune_seen_nonces now rows

unfoldable pub cleanup_ephemeral_state : ℕ → Plane → Plane
unfolding prune_hello_nonces prune_seen_nonces
cleanup_ephemeral_state now p = record p {
  agent_hello_nonces = prune_hello_nonces now p.agent_hello_nonces;
  agent_connections = prune_seen_nonces now p.agent_connections;
}

replaced_events : Option AgentConnection → RemoteAgentRecord → List AuditEvent
replaced_events none agent = []
replaced_events (some existing) agent =
    agent_event AuditEventType.agent_connection_replaced agent ∷ []

close_existing : Option AgentConnection → Lifecycle → Lifecycle
close_existing none lifecycle = lifecycle
close_existing (some existing) lifecycle = close_connection existing.connection 1000 lifecycle

unfoldable pub replace_existing_connection :
    Option AgentConnection → RemoteAgentRecord → Plane → Plane
unfolding replaced_events close_existing
replace_existing_connection existing agent p = record p {
  store = record p.store { audit_events = p.store.audit_events ++ replaced_events existing agent };
  lifecycle = close_existing existing p.lifecycle;
}

-- What an accepted hello changes, from `rememberNonce` on.
unfoldable pub connect : RemoteAgentRecord → ℕ → AgentHelloEnvelope → ℕ → Plane → Plane
unfolding replace_existing_connection
connect agent connection hello now p =
    let replaced = replace_existing_connection (get agent.id p.agent_connections) agent (record p {
      agent_connections =
          set agent.id
            (record {
              agent = agent;
              connection = connection;
              seen_nonces = remember_nonce [] hello.nonce now;
            })
            p.agent_connections;
      lifecycle = mark_authenticated connection agent.id p.lifecycle;
    }) in
    let updated = record replaced {
      store =
          update_agent
            (record agent {
              status = online;
              last_seen_at = some now;
              host_metadata = some hello.host;
              updated_at = now;
            })
            replaced.store;
    } in
    send (ready connection agent.id agent.policy)
      (audit_agent AuditEventType.agent_connected agent updated)

abbrev pub hello_nonces_of : String → Plane → Table String ℕ
hello_nonces_of agent p = or_else (get agent p.agent_hello_nonces) []

-- `live?.connection === connection`.
abbrev pub is_live_on : ℕ → Option AgentConnection → Bool
is_live_on connection none = false
is_live_on connection (some live) = live.connection == connection

-- A hello whose signature and time are right.
unfoldable pub greet : RemoteAgentRecord → ℕ → AgentHelloEnvelope → ℕ → Plane → Plane
unfolding connect reject_hello
greet agent connection hello now p =
    if is_live_on connection (get agent.id p.agent_connections)
    then reject_hello connection action_replay_detected
        (audit_agent AuditEventType.agent_duplicate_hello_rejected agent p)
    else if has hello.nonce (hello_nonces_of agent.id p)
    then reject_hello connection action_replay_detected
        (audit_agent AuditEventType.agent_hello_replay_detected agent p)
    else connect agent connection hello now (record p {
      agent_hello_nonces =
          set agent.id (set hello.nonce (now + agent_nonce_ttl_ms) (hello_nonces_of agent.id p))
            p.agent_hello_nonces;
    })

module _ (parse_date : String → Option ℤ) where
  unfoldable pub is_stale_hello : AgentHelloEnvelope → ℕ → Bool
  is_stale_hello hello now = elim (parse_date hello.timestamp) [
    | none ↦ true
    | some timestamp ↦ older_than now timestamp 300000 || later_than now timestamp 300000
  ]

  module _ (verify_hello : AgentHelloEnvelope → String → Bool) where
    -- After the claim.
    unfoldable pub verify_agent_hello :
        RemoteAgentRecord → String → ℕ → AgentHelloEnvelope → ℕ → Plane → Plane
    unfolding reject_hello cleanup_ephemeral_state greet is_stale_hello
    verify_agent_hello agent key connection hello now p =
        if not (verify_hello hello key)
        then reject_hello connection signature_invalid
            (audit_agent AuditEventType.agent_signature_invalid agent p)
        else if is_stale_hello hello now
        then reject_hello connection action_expired
            (audit_agent AuditEventType.agent_hello_expired agent p)
        else greet agent connection hello now (cleanup_ephemeral_state now p)

    unfoldable pub claim_agent_hello :
        RemoteAgentRecord → String → ℕ → AgentHelloEnvelope → ℕ → Plane → Plane
    unfolding verify_agent_hello
    claim_agent_hello agent key connection hello now p =
        let (lifecycle, claimed) = claim connection agent.id p.lifecycle in
        let q = record p { lifecycle = lifecycle } in
        if claimed then verify_agent_hello agent key connection hello now q else q

    -- An empty key counts as none.
    unfoldable pub hello_with_key :
        Option String → RemoteAgentRecord → ℕ → AgentHelloEnvelope → ℕ → Plane → Plane
    unfolding claim_agent_hello reject_hello
    hello_with_key none agent connection hello now p = reject_hello connection agent_not_found p
    hello_with_key (some key) agent connection hello now p =
        if is_revoked agent.status || key == ""
        then reject_hello connection agent_not_found p
        else claim_agent_hello agent key connection hello now p

    unfoldable pub handle_agent_hello : ℕ → AgentHelloEnvelope → ℕ → Plane → Plane
    unfolding hello_with_key reject_hello
    handle_agent_hello connection hello now p = elim (get_agent hello.agent_id p.store) [
      | none ↦ reject_hello connection agent_not_found p
      | some agent ↦ hello_with_key agent.public_key agent connection hello now p
    ]

abbrev pub status_after : Settlement → ActionStatus
status_after (resolved result) = if result.is_ok then ActionStatus.completed else ActionStatus.error
status_after (rejected agent_timeout) = ActionStatus.timeout
status_after (rejected _) = ActionStatus.error

abbrev pub result_of : Settlement → Option ActionResultEnvelope
result_of (resolved result) = some result
result_of (rejected code) = none

abbrev pub code_of : Settlement → Option RemoteErrorCode
code_of (resolved result) = result.error_code
code_of (rejected code) = some code

abbrev pub audit_of : Settlement → AuditEventType
audit_of (resolved result) =
    if result.is_ok then AuditEventType.action_completed else AuditEventType.action_denied_or_failed
audit_of (rejected code) = AuditEventType.action_denied_or_failed

-- The promise settles, and `dispatchAction` goes on after its `await`.
unfoldable pub settle : String → ActionRecord → Settlement → ℕ → Plane → Plane
settle action_id action outcome now p = audit_action (audit_of outcome) action (record p {
  pending_actions = delete action_id p.pending_actions;
  settled = p.settled ++ (action_id, outcome) ∷ [];
  store =
      update_action
        (record action {
          status = status_after outcome;
          completed_at = some now;
          result = result_of outcome;
          error_code = code_of outcome;
        })
        p.store;
})

unfoldable pub reject_pending_action :
    String → ActionRecord → AuditEventType → RemoteErrorCode → ℕ → Plane → Plane
unfolding settle
reject_pending_action action_id action event_type code now p =
    settle action_id action (rejected code) now (audit_action event_type action p)

-- The nonce window of a live connection is pruned in place.
unfoldable pub answer_live :
    AgentConnection → ActionResultEnvelope → ActionRecord → ℕ → Plane → Plane
unfolding settle reject_pending_action
answer_live live result action now p =
    let (window, seen) = has_seen_nonce live.seen_nonces result.nonce now in
    let kept = if seen then window else remember_nonce window result.nonce now in
    let q = record p {
      agent_connections =
          set result.agent_id (record live { seen_nonces = kept }) p.agent_connections;
    } in
    if seen
    then reject_pending_action result.action_id action AuditEventType.agent_result_replay_detected
        action_replay_detected now q
    else settle result.action_id action (resolved result) now q

unfoldable pub answer_signed : ℕ → ActionResultEnvelope → ActionRecord → ℕ → Plane → Plane
unfolding answer_live reject_pending_action
answer_signed connection result action now p =
    let refused =
      reject_pending_action result.action_id action AuditEventType.agent_result_connection_invalid
        signature_invalid now p in
    elim (get result.agent_id p.agent_connections) [
      | none ↦ refused
      | some live ↦
          if action.agent_id == result.agent_id && live.connection == connection
          then answer_live live result action now p
          else refused
    ]

abbrev pub public_key_of : String → Store → Option String
public_key_of agent_id s = elim (get_agent agent_id s) [
  | none ↦ none
  | some agent ↦ agent.public_key
]

module _ (verify_result : ActionResultEnvelope → String → Bool) where
  -- `agent?.publicKey && verifyEnvelope(result, agent.publicKey)`.
  abbrev pub is_signed : ActionResultEnvelope → Option String → Bool
  is_signed result none = false
  is_signed result (some key) = not (key == "") && verify_result result key

  unfoldable pub handle_action_result : ℕ → ActionResultEnvelope → ℕ → Plane → Plane
  unfolding answer_signed reject_pending_action
  handle_action_result connection result now p = elim (get result.action_id p.pending_actions) [
    | none ↦ p
    | some action ↦
        if is_signed result (public_key_of result.agent_id p.store)
        then answer_signed connection result action now p
        else reject_pending_action result.action_id action
            AuditEventType.agent_result_signature_invalid internal_error now p
  ]

-- A message of a connection as `handleAgentMessage` reads it: no JSON object, or one of a known type,
-- or one of another.
pub data AgentMessage : Type 0 where
  unreadable unknown : AgentMessage
  hello_message : AgentHelloEnvelope → AgentMessage
  result_message : ActionResultEnvelope → AgentMessage

-- `isManaged(connection) && !isAuthenticated(connection)`.
abbrev pub awaits_hello : Option ManagedAgentConnection → Bool
awaits_hello none = false
awaits_hello (some m) = not m.authenticated

unfoldable pub reject_before_hello : ℕ → Plane → Plane
unfolding reject_hello
reject_before_hello connection p = reject_hello connection forbidden (record p {
  store =
      insert_audit
        (record {
          user_id = none;
          agent_id = agent_id_for connection p.lifecycle;
          action_id = none;
          event_type = AuditEventType.agent_message_before_hello;
        })
        p.store;
})

-- A message that is an object but no hello.
unfoldable pub handle_other_message : ℕ → (Plane → Plane) → Plane → Plane
unfolding reject_before_hello
handle_other_message connection handle p =
    if awaits_hello (get connection p.lifecycle.managed_connections)
    then reject_before_hello connection p
    else handle p

module _ (parse_date : String → Option ℤ) (verify_hello : AgentHelloEnvelope → String → Bool)
    (verify_result : ActionResultEnvelope → String → Bool) where
  unfoldable pub handle_agent_message : ℕ → AgentMessage → ℕ → Plane → Plane
  unfolding handle_agent_hello handle_action_result handle_other_message reject_hello
  handle_agent_message connection unreadable now p = reject_hello connection internal_error p
  handle_agent_message connection unknown now p =
      handle_other_message connection (reject_hello connection internal_error) p
  handle_agent_message connection (hello_message hello) now p =
      handle_agent_hello parse_date verify_hello connection hello now p
  handle_agent_message connection (result_message result) now p =
      handle_other_message connection (handle_action_result verify_result connection result now) p

-- `latest` is the row that the agent has now.
unfoldable pub set_offline : Option RemoteAgentRecord → ℕ → Store → Store
set_offline none now s = s
set_offline (some latest) now s =
    if is_revoked latest.status
    then s
    else update_agent (record latest { status = offline; updated_at = now }) s

-- `agent` is the record that the connection was opened with, or the row of a managed one. The answer
-- says whether the connection was the live one.
unfoldable pub handle_live_connection_closed : RemoteAgentRecord → ℕ → ℕ → Plane → Plane × Bool
unfolding set_offline
handle_live_connection_closed agent connection now p =
    if is_live_on connection (get agent.id p.agent_connections)
    then (
      audit_agent AuditEventType.agent_disconnected agent (record p {
        agent_connections = delete agent.id p.agent_connections;
        store = set_offline (get_agent agent.id p.store) now p.store;
      }),
      true,
    )
    else (p, false)

unfoldable pub handle_live_connection_closed_by_id : String → ℕ → ℕ → Plane → Plane × Bool
unfolding handle_live_connection_closed
handle_live_connection_closed_by_id agent_id connection now p = elim (get_agent agent_id p.store) [
  | none ↦ (p, false)
  | some agent ↦ handle_live_connection_closed agent connection now p
]

-- A managed connection closes: the callback of the lifecycle, and its own cleaning up.
unfoldable pub close_managed : ManagedAgentConnection → ℕ → ℕ → Plane → Plane
unfolding handle_live_connection_closed_by_id
close_managed m connection now p =
    if p.lifecycle.shutting_down || not m.authenticated || or_else m.agent_id "" == ""
    then record p { lifecycle = handle_close connection false p.lifecycle }
    else let (q, told) =
        handle_live_connection_closed_by_id (or_else m.agent_id "") connection now p in
      record q { lifecycle = handle_close connection told q.lifecycle }

unfoldable pub connection_closed : ℕ → ℕ → Plane → Plane
unfolding close_managed
connection_closed connection now p = elim (get connection p.lifecycle.managed_connections) [
  | none ↦ p
  | some m ↦ close_managed m connection now p
]
