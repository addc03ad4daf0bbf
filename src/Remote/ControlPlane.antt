-- ===== src/Remote/ControlPlane.antt =====
-- src/remote/control-plane.ts: what principals ask for, over the state of Remote/AgentHandler.antt.
-- What `id`, `randomToken` and the clock give are arguments, a token by its hash, and so is the policy that
-- the arguments of a call merge to. The endpoints that await a request's body resolve the agent
-- before, in a step of its own.
pub mod Events
pub mod Consistency
pub mod History
pub mod Stale
pub mod Requests
pub mod Settlement
pub mod Aliases
pub mod Pending
mod Tests
use ssh_mcp_pro.Base.{
  ℕ, ◌+◌, ◌*◌, Bool, true, false, not, ◌&&◌, ◌||◌, String, string_eq, List, [], ◌∷◌, ◌++◌, Option,
  none, some, ◌==◌, if◌then◌else◌, ltb, is_some, min, or_else,
}
use ssh_mcp_pro.Table.{Table, get, set, delete}
use ssh_mcp_pro.Remote.Types.{
  RemoteAgentRecord, AgentPolicy, AgentHostMetadata, AgentEnrollmentTokenRecord, ActionRecord,
  AgentStatus, RemoteErrorCode, RemotePrincipal, RemoteCapability, RemoteToolName,
  tool_capability_map, forbidden, invalid_token, invalid_scope, agent_not_found, agent_offline,
  agent_revoked, capability_denied, agents_admin, agent_timeout, ActionStatus, agent_admin,
}
use ssh_mcp_pro.Remote.Scopes.{has_capability}
use ssh_mcp_pro.Remote.Store.{
  Store, AuditEventType, get_agent, get_agent_by_alias, insert_agent, update_agent,
  insert_enrollment_token, get_enrollment_token_by_hash, mark_enrollment_token_used, insert_action,
  remove_revoked_agent, is_revoked,
}
use ssh_mcp_pro.Remote.AgentHandler.{
  Plane, AgentConnection, Message, policy_update, action_request, closes, send, audit_agent,
  audit_action, settle, rejected,
}

pub record ControlConfig : Type 0 where
  pub enrollment_token_ttl_seconds : ℕ
  pub max_action_timeout_seconds : ℕ
  pub max_output_bytes : ℕ

-- `thrown` is an exception of the database, which no handler gives a code.
pub data Reply : Type 0 where
  done : RemoteAgentRecord → Reply
  refused : RemoteErrorCode → Reply
  thrown : Reply

abbrev pub issued_token :
    ControlConfig → RemoteAgentRecord → String → String → ℕ → AgentEnrollmentTokenRecord
issued_token config agent token_id token_hash now = record {
  id = token_id;
  agent_id = agent.id;
  user_id = agent.user_id;
  token_hash = token_hash;
  expires_at = now + config.enrollment_token_ttl_seconds * 1000;
  used_at = none;
  created_at = now;
}

-- The body of `createEnrollmentToken` after the checks of its arguments: `alias` is trimmed and not
-- empty, `policy` is that of the requested profile.
pub insert_pending_agent :
    ControlConfig → RemoteAgentRecord → String → String → ℕ → Plane → Plane × Reply
unfolding insert_agent insert_enrollment_token
insert_pending_agent config agent token_id token_hash now p = elim (insert_agent agent p.store) [
  | none ↦ (p, thrown)
  | some inserted ↦
      elim (insert_enrollment_token (issued_token config agent token_id token_hash now) inserted) [
        | none ↦ (record p { store = inserted }, thrown)
        | some stored ↦ (
          audit_agent AuditEventType.enrollment_token_created agent (record p { store = stored }),
          done agent,
        )
      ]
]

abbrev pub is_taken : Option RemoteAgentRecord → Bool
is_taken none = false
is_taken (some existing) = not (is_revoked existing.status)

abbrev pub pending_agent : RemotePrincipal → String → String → AgentPolicy → ℕ → RemoteAgentRecord
pending_agent principal id alias policy now = record {
  id = id;
  user_id = principal.user_id;
  alias = alias;
  status = AgentStatus.pending;
  public_key = none;
  profile = policy.profile;
  policy = policy;
  policy_version = policy.version;
  host_metadata = none;
  last_seen_at = none;
  created_at = now;
  updated_at = now;
}

pub create_enrollment_token :
    ControlConfig
    → RemotePrincipal
    → String
    → AgentPolicy
    → String
    → String
    → String
    → ℕ
    → Plane
    → Plane × Reply
unfolding insert_pending_agent
create_enrollment_token config principal alias policy id token_id token_hash now p =
    if not (has_capability principal.capabilities agents_admin)
    then (p, refused invalid_scope)
    else if alias == ""
    then (p, refused forbidden)
    else if is_taken (get_agent_by_alias principal.user_id alias p.store)
    then (p, refused forbidden)
    else insert_pending_agent config (pending_agent principal id alias policy now) token_id
        token_hash now p

-- The key is one that `isValidEd25519PublicKey` accepts.
pub enroll :
    AgentEnrollmentTokenRecord
    → RemoteAgentRecord
    → String
    → AgentHostMetadata
    → ℕ
    → Plane
    → Plane × Reply
enroll enrollment agent public_key host now p =
    elim (mark_enrollment_token_used enrollment.token_hash now p.store) [
      | none ↦ (p, refused invalid_token)
      | some marked ↦
          let updated = record agent {
            status = AgentStatus.offline;
            public_key = some public_key;
            host_metadata = some host;
            updated_at = now;
          } in
          (
            audit_agent AuditEventType.agent_enrolled agent
                (record p { store = update_agent updated marked }),
            done updated,
          )
    ]

pub enroll_with :
    AgentEnrollmentTokenRecord → String → AgentHostMetadata → ℕ → Plane → Plane × Reply
unfolding enroll
enroll_with enrollment public_key host now p =
    if is_some enrollment.used_at || ltb enrollment.expires_at now
    then (p, refused invalid_token)
    else elim (get_agent enrollment.agent_id p.store) [
      | none ↦ (p, refused agent_not_found)
      | some agent ↦
          if is_revoked agent.status
          then (p, refused agent_not_found)
          else enroll enrollment agent public_key host now p
    ]

pub handle_agent_enroll : String → String → AgentHostMetadata → ℕ → Plane → Plane × Reply
unfolding enroll_with
handle_agent_enroll token_hash public_key host now p =
    elim (get_enrollment_token_by_hash token_hash p.store) [
      | none ↦ (p, refused invalid_token)
      | some enrollment ↦ enroll_with enrollment public_key host now p
    ]

pub resolve_agent : String → String → Store → Option RemoteAgentRecord
resolve_agent user_id value s = if value == "" then none else elim (get_agent value s) [
  | none ↦ get_agent_by_alias user_id value s
  | some agent ↦ if agent.user_id == user_id then some agent else get_agent_by_alias user_id value s
]

-- The limits of the configuration bind every policy, and the version is the next one.
abbrev pub limited_policy : ControlConfig → AgentPolicy → ℕ → AgentPolicy
limited_policy config merged version = record merged {
  max_action_timeout_seconds =
      min merged.max_action_timeout_seconds config.max_action_timeout_seconds;
  max_output_bytes = min merged.max_output_bytes config.max_output_bytes;
  version = version;
}

pushed_policy : Option AgentConnection → RemoteAgentRecord → List Message
pushed_policy none agent = []
pushed_policy (some live) agent =
    policy_update live.connection agent.id agent.policy agent.policy_version ∷ []

-- `agent` is the record that the caller has read.
pub update_agent_policy :
    ControlConfig → RemotePrincipal → RemoteAgentRecord → AgentPolicy → ℕ → Plane → Plane × Reply
unfolding pushed_policy
update_agent_policy config principal agent merged now p =
    if not (has_capability principal.capabilities agents_admin)
    then (p, refused invalid_scope)
    else let policy = limited_policy config merged (agent.policy_version + 1) in
      let updated = record agent {
        profile = policy.profile;
        policy = policy;
        policy_version = agent.policy_version + 1;
        updated_at = now;
      } in
      (
        audit_agent AuditEventType.policy_updated agent (record p {
          store = update_agent updated p.store;
          sent = p.sent ++ pushed_policy (get agent.id p.agent_connections) updated;
        }),
        done updated,
      )

closed_live : Option AgentConnection → List Message
closed_live none = []
closed_live (some live) = closes live.connection ∷ []

pub revoke_agent : RemotePrincipal → RemoteAgentRecord → ℕ → Plane → Plane × Reply
unfolding closed_live
revoke_agent principal agent now p =
    if not (has_capability principal.capabilities agents_admin)
    then (p, refused invalid_scope)
    else let updated = record agent { status = AgentStatus.revoked; updated_at = now } in
      (
        audit_agent AuditEventType.agent_revoked agent (record p {
          store = update_agent updated p.store;
          sent = p.sent ++ closed_live (get agent.id p.agent_connections);
          agent_connections = delete agent.id p.agent_connections;
        }),
        done updated,
      )

-- A request for an action: the tool, its arguments, and `args.timeout_seconds` where it is given.
pub record ActionRequest : Type 0 where
  pub action_id : String
  pub tool : RemoteToolName
  pub args : String
  pub timeout_seconds : Option ℕ

abbrev pub action_timeout : ControlConfig → RemoteAgentRecord → ActionRequest → ℕ
action_timeout config agent request =
    min (or_else request.timeout_seconds agent.policy.max_action_timeout_seconds)
      (min agent.policy.max_action_timeout_seconds config.max_action_timeout_seconds)

abbrev pub requested_action :
    ControlConfig → RemotePrincipal → RemoteAgentRecord → ActionRequest → ℕ → ActionRecord
requested_action config principal agent request now = record {
  id = request.action_id;
  user_id = principal.user_id;
  agent_id = agent.id;
  tool = request.tool;
  capability = tool_capability_map request.tool;
  args = request.args;
  status = ActionStatus.sent;
  issued_at = now;
  deadline = now + action_timeout config agent request * 1000;
  completed_at = none;
  result = none;
  error_code = none;
}

-- Why a call comes back at once, or that the action is under way.
pub data Dispatch : Type 0 where
  underway : ActionRecord → Dispatch
  denied : RemoteErrorCode → Dispatch
  failed : Dispatch

-- Up to the `await` of the result.
pub send_action : ActionRecord → RemoteAgentRecord → AgentConnection → Plane → Plane × Dispatch
send_action action agent live p = elim (insert_action action p.store) [
  | none ↦ (p, failed)
  | some stored ↦
      let audited =
        audit_action AuditEventType.action_allowed action
          (audit_action AuditEventType.action_requested action (record p { store = stored })) in
      (
        send (action_request live.connection action agent.policy_version)
            (record audited { pending_actions = set action.id action audited.pending_actions }),
        underway action,
      )
]

pub dispatch_action :
    ControlConfig
    → RemotePrincipal
    → RemoteAgentRecord
    → ActionRequest
    → ℕ
    → Plane
    → Plane × Dispatch
unfolding send_action
dispatch_action config principal agent request now p =
    if is_revoked agent.status
    then (p, denied agent_revoked)
    else elim (get agent.id p.agent_connections) [
      | none ↦ (p, denied agent_offline)
      | some live ↦ send_action (requested_action config principal agent request now) agent live p
    ]

-- `callRemoteTool` for the tools that an agent carries out; `name` is `args.agent_id_or_alias`.
pub call_agent_tool :
    ControlConfig → RemotePrincipal → String → ActionRequest → ℕ → Plane → Plane × Dispatch
unfolding dispatch_action
call_agent_tool config principal name request now p =
    let capability = tool_capability_map request.tool in
    if not (has_capability principal.capabilities capability)
    then (p, denied invalid_scope)
    else elim (resolve_agent principal.user_id name p.store) [
      | none ↦ (p, denied agent_not_found)
      | some agent ↦
          if not (agent.policy.capabilities capability)
          then (audit_agent AuditEventType.action_denied agent p, denied capability_denied)
          else dispatch_action config principal agent request now p
    ]

-- The timer of a pending action; `clearTimeout` stops it once the action is settled.
pub action_timed_out : String → ℕ → Plane → Plane
unfolding settle
action_timed_out action_id now p = elim (get action_id p.pending_actions) [
  | none ↦ p
  | some action ↦ settle action_id action (rejected agent_timeout) now p
]

-- The calls of `callRemoteTool` that change an agent's record: it is read in the same step.
pub call_update_agent_policy :
    ControlConfig → RemotePrincipal → String → AgentPolicy → ℕ → Plane → Plane × Reply
unfolding update_agent_policy
call_update_agent_policy config principal name merged now p =
    elim (resolve_agent principal.user_id name p.store) [
      | none ↦ (p, refused agent_not_found)
      | some agent ↦ update_agent_policy config principal agent merged now p
    ]

pub call_revoke_agent : RemotePrincipal → String → ℕ → Plane → Plane × Reply
unfolding revoke_agent
call_revoke_agent principal name now p = elim (resolve_agent principal.user_id name p.store) [
  | none ↦ (p, refused agent_not_found)
  | some agent ↦ revoke_agent principal agent now p
]

-- `handleApiRemoveDevice` of src/remote/web-dashboard.ts.
pub removed : RemotePrincipal → RemoteAgentRecord → Plane → Plane × Reply
unfolding remove_revoked_agent
removed principal agent p =
    let (store, gone) = remove_revoked_agent principal.user_id agent.id p.store in
    if gone
    then (audit_agent AuditEventType.agent_removed agent (record p { store = store }), done agent)
    else (p, refused agent_not_found)

pub removed_after : RemotePrincipal → Plane × Reply → Plane × Reply
unfolding removed
removed_after principal (p, done agent) = removed principal agent p
removed_after principal (p, refused code) = (p, refused code)
removed_after principal (p, thrown) = (p, thrown)

pub handle_api_remove_device : RemotePrincipal → String → ℕ → Plane → Plane × Reply
unfolding removed_after revoke_agent
handle_api_remove_device principal name now p =
    elim (resolve_agent principal.user_id name p.store) [
      | none ↦ (p, refused agent_not_found)
      | some agent ↦
          if is_revoked agent.status
          then removed principal agent p
          else removed_after principal (revoke_agent principal agent now p)
    ]
