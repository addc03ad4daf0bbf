-- ===== src/Remote/ControlPlane/Tests.antt =====
-- The control plane of src/remote/control-plane.ts on concrete events.
use ssh_mcp_pro.Base.{
  inr, ◌≡◌, inl, refl, Bool, true, false, String, string_eq, List, [], ◌∷◌, none, some, is_some,
  arith, pos,
}
use ssh_mcp_pro.Table.{get, has, set}
use ssh_mcp_pro.Remote.Types.{
  RemoteAgentRecord, AgentPolicy, AgentHostMetadata, AgentHelloEnvelope, ActionResultEnvelope,
  ActionRecord, RemotePrincipal, RemoteCapability, AgentStatus, AgentEnrollmentTokenRecord, pending,
  revoked, online, offline, operations, agents_admin, system_read, get_system_status, invalid_token,
}
use ssh_mcp_pro.Remote.Scopes.{has_capability, capability_beq}
use ssh_mcp_pro.Remote.Store.{
  get_enrollment_token_by_hash, mark_enrollment_token_used, insert_action, get_agent, update_agent,
  get_agent_by_alias,
}
use ssh_mcp_pro.Remote.Connections.{Lifecycle, claim}
use ssh_mcp_pro.Remote.AgentHandler.{
  handle_agent_message, Plane, AgentConnection, handle_agent_hello, handle_action_result, is_signed,
  public_key_of, resolved,
}
use ssh_mcp_pro.Remote.ControlPlane.{
  resolve_agent, ControlConfig, ActionRequest, revoke_agent, update_agent_policy, refused, thrown,
  handle_agent_enroll, requested_action, call_agent_tool, action_timed_out, create_enrollment_token,
}
use ssh_mcp_pro.Remote.ControlPlane.Events.{patches_policy, Event, Verifier, step, run, says_hello}
use ssh_mcp_pro.Remote.ControlPlane.Consistency.{IsConsistent, IsIssued, IsSingle}
use ssh_mcp_pro.Remote.ControlPlane.History.{unmarked, run-live, run-enrolled_once}
use ssh_mcp_pro.Remote.ControlPlane.Stale.{update_agent_policy-unrevokes}
use ssh_mcp_pro.Remote.ControlPlane.Requests.{Sent, call_agent_tool-Sent}
use ssh_mcp_pro.Remote.ControlPlane.Settlement.{Settles, ComesLive, handle_action_result-Settles}
use ssh_mcp_pro.Remote.ControlPlane.Pending.{is_settled, action_timed_out-settles}
use ssh_mcp_pro.Remote.ControlPlane.Aliases.{create_enrollment_token-taken}
use ssh_mcp_pro.Remote.Nonces.{has_seen_nonce}

abbrev all_capabilities : RemoteCapability → Bool
all_capabilities capability = true

abbrev policy : AgentPolicy
policy = record {
  profile = operations;
  capabilities = all_capabilities;
  allow_paths = [];
  deny_paths = [];
  allow_services = [];
  allow_containers = [];
  max_output_bytes = 1000;
  max_action_timeout_seconds = 60;
  version = 1;
}

abbrev agent_in : AgentStatus → RemoteAgentRecord
agent_in status = record {
  id = "agt_1";
  user_id = "github:1";
  alias = "web";
  status = status;
  public_key = some "pem";
  profile = operations;
  policy = policy;
  policy_version = 1;
  host_metadata = none;
  last_seen_at = none;
  created_at = 0;
  updated_at = 0;
}

abbrev config : ControlConfig
config = record {
  enrollment_token_ttl_seconds = 900;
  max_action_timeout_seconds = 30;
  max_output_bytes = 500;
}

abbrev verifier : Verifier
verifier = record {
  verify_hello = λ hello key. true;
  verify_result = λ result key. true;
  parse_date = λ text. some (pos 1000);
}

abbrev admin : RemotePrincipal
admin = record { user_id = "github:1"; scopes = []; capabilities = agents_admin ∷ system_read ∷ [] }

abbrev no_connections : Lifecycle
no_connections = record {
  config = record {
    agent_hello_timeout_ms = none;
    agent_idle_timeout_ms = none;
    max_agent_connections = none;
    max_agent_connections_per_agent = none;
  };
  managed_connections = [];
  agent_claims = [];
  pending_upgrade_sockets = [];
  shutting_down = false;
  calls = [];
}

abbrev plane_with : RemoteAgentRecord → Plane
plane_with agent = record {
  store = record {
    agents = ("agt_1", agent) ∷ [];
    enrollment_tokens = [];
    authorization_codes = [];
    actions = [];
    audit_events = [];
  };
  lifecycle = no_connections;
  agent_connections = [];
  agent_hello_nonces = [];
  pending_actions = [];
  sent = [];
  settled = [];
}

abbrev host : AgentHostMetadata
host = record { hostname = "web"; os = "linux"; arch = "x64"; platform = "linux" }

abbrev hello : AgentHelloEnvelope
hello = record {
  agent_id = "agt_1";
  timestamp = "1970-01-01T00:00:01.000Z";
  nonce = "n1";
  capabilities = [];
  agent_version = "1";
  host = host;
  signature = "s";
}

abbrev status_request : ActionRequest
status_request = record {
  action_id = "act_1";
  tool = get_system_status;
  args = "{}";
  timeout_seconds = none;
}

plane_with-IsConsistent :
    (status : AgentStatus) → IsConsistent unmarked (plane_with (agent_in status))
unfolding get has
plane_with-IsConsistent status = record {
  keyed = λ id. ground (arith, string_eq.equal_iff "agt_1" id);
  agent_map = (refl, tt);
  token_map = tt;
  issued = λ h. tt;
  single = λ h k. tt;
  live = λ id. inl refl;
  barred = λ id. inl refl;
  spent = λ h. inl refl;
}

abbrev greeted : List Event
greeted = says_hello 7 hello 1000 ∷ []

hello_goes_online :
    get "agt_1" (run config verifier greeted (plane_with (agent_in offline))).store.agents
    ≡ some (record (agent_in offline) {
      status = online;
      last_seen_at = some 1000;
      host_metadata = some host;
      updated_at = 1000;
    })
unfolding run step handle_agent_hello claim has get_agent update_agent set handle_agent_message
hello_goes_online = refl

-- A policy is changed by a request that read the agent when it was online.
abbrev patched : List Event
patched = says_hello 7 hello 1000 ∷ patches_policy admin (agent_in online) policy 1500 ∷ []

-- The same, of an agent that was revoked.
abbrev patched_again : List Event
patched_again = says_hello 7 hello 1000 ∷ patches_policy admin (agent_in revoked) policy 1500 ∷ []

run-live_example :
    (agent : RemoteAgentRecord) × (get "agt_1"
        (run config verifier patched (plane_with (agent_in offline))).store.agents
      ≡ some agent)
    × (agent.id ≡ "agt_1")
    × (agent.status ≡ online)
    × (is_some agent.public_key ≡ true)
unfolding run step handle_agent_hello claim has get_agent update_agent set handle_agent_message
    update_agent_policy has_capability capability_beq
run-live_example =
    run-live config verifier patched (plane_with (agent_in offline)) "agt_1"
      (plane_with-IsConsistent offline) (tt, (inr (refl, refl), tt)) refl

abbrev issued : AgentEnrollmentTokenRecord
issued = record {
  id = "enr_1";
  agent_id = "agt_1";
  user_id = "github:1";
  token_hash = "h1";
  expires_at = 900000;
  used_at = none;
  created_at = 0;
}

abbrev new_agent : RemoteAgentRecord
new_agent = record (agent_in pending) { public_key = none }

abbrev enrolling : Plane
enrolling = record (plane_with new_agent) {
  store = record (plane_with new_agent).store { enrollment_tokens = ("h1", issued) ∷ [] };
}

issued-IsIssued :
    (h : String)
    → IsIssued (λ id. true) h enrolling.store.agents (get h enrolling.store.enrollment_tokens)
unfolding get
issued-IsIssued h = ground (arith, string_eq.equal_iff "h1" h)

issued-IsSingle :
    (h k : String)
    → IsSingle h k
        (get h enrolling.store.enrollment_tokens)
        (get k enrolling.store.enrollment_tokens)
unfolding get
issued-IsSingle h k = ground (arith, string_eq.equal_iff "h1" h, string_eq.equal_iff "h1" k)

enrolling-IsConsistent : IsConsistent unmarked enrolling
unfolding get has
enrolling-IsConsistent = record {
  keyed = λ id. ground (arith, string_eq.equal_iff "agt_1" id);
  agent_map = (refl, tt);
  token_map = (refl, tt);
  issued = issued-IsIssued;
  single = issued-IsSingle;
  live = λ id. inl refl;
  barred = λ id. inl refl;
  spent = λ h. inl refl;
}

run-enrolled_once_example :
    (handle_agent_enroll "h1" "other" host 3000
      (run config verifier greeted (handle_agent_enroll "h1" "pem" host 500 enrolling).0)).1
    ≡ refused invalid_token
unfolding handle_agent_enroll get get_enrollment_token_by_hash get_agent mark_enrollment_token_used
run-enrolled_once_example =
    run-enrolled_once config verifier greeted enrolling "h1" "pem" "other" host host 500 3000
      (record new_agent {
        status = offline;
        public_key = some "pem";
        host_metadata = some host;
        updated_at = 500;
      })
      enrolling-IsConsistent refl (tt, tt)

update_agent_policy-unrevokes_example :
    let revoked : Plane =
      (revoke_agent admin (agent_in online) 1 (plane_with (agent_in online))).0 in
    let updated : Plane = (update_agent_policy config admin (agent_in online) policy 2 revoked).0 in
    (get "agt_1" revoked.store.agents
      ≡ some (record (agent_in online) { status = AgentStatus.revoked; updated_at = 1 }))
    × ((row : RemoteAgentRecord) × (get "agt_1" updated.store.agents ≡ some row)
        × (row.status ≡ online)
        × (row.public_key ≡ some "pem")
        × (row.user_id ≡ "github:1"))
unfolding get has_capability capability_beq
update_agent_policy-unrevokes_example =
    update_agent_policy-unrevokes config admin admin (agent_in online) policy
      (plane_with (agent_in online)) 1 2 refl refl refl

abbrev connected : Plane
connected = record (plane_with (agent_in online)) {
  agent_connections =
      ("agt_1", record { agent = agent_in offline; connection = 7; seen_nonces = [] }) ∷ [];
}

connected-IsConsistent : IsConsistent unmarked connected
unfolding get has
connected-IsConsistent = record {
  keyed = λ id. ground (arith, string_eq.equal_iff "agt_1" id);
  agent_map = (refl, tt);
  token_map = tt;
  issued = λ h. tt;
  single = λ h k. tt;
  live = λ id. ground (arith, string_eq.equal_iff "agt_1" id);
  barred = λ id. inl refl;
  spent = λ h. inl refl;
}

abbrev status_action : ActionRecord
status_action = requested_action config admin (agent_in online) status_request 5000

call_agent_tool-Sent_example :
    (agent : RemoteAgentRecord) × ((live : AgentConnection) × Sent config admin status_request 5000
        connected
        (call_agent_tool config admin "web" status_request 5000 connected).0
        status_action
        agent
        live)
unfolding call_agent_tool get has_capability capability_beq resolve_agent get_agent
    get_agent_by_alias insert_action has
call_agent_tool-Sent_example =
    call_agent_tool-Sent config admin "web" status_request 5000 connected status_action
      connected-IsConsistent refl

abbrev waiting : Plane
waiting = record connected { pending_actions = ("act_1", status_action) ∷ [] }

abbrev answer : ActionResultEnvelope
answer = record {
  action_id = "act_1";
  agent_id = "agt_1";
  nonce = "r1";
  is_ok = true;
  exit_code = some (pos 0);
  stdout = some "up";
  stderr = none;
  started_at = "";
  finished_at = "";
  truncated = false;
  error_code = none;
  message = none;
  signature = "s";
}

handle_action_result-Settles_example :
    Settles waiting answer (handle_action_result verifier.verify_result 7 answer 6000 waiting) (
      (is_signed verifier.verify_result answer (public_key_of "agt_1" waiting.store) ≡ true)
      × ((status_action.agent_id ≡ answer.agent_id) × ComesLive 7 answer 6000 waiting))
unfolding get
handle_action_result-Settles_example =
    handle_action_result-Settles verifier.verify_result 7 answer 6000 waiting status_action refl

answer_is_resolved :
    (handle_action_result verifier.verify_result 7 answer 6000 waiting).settled
    ≡ ("act_1", resolved answer) ∷ []
unfolding handle_action_result get get_agent has_seen_nonce has
answer_is_resolved = refl

action_timed_out-settles_example :
    (is_settled "act_1" (action_timed_out "act_1" 40000 (run config verifier greeted waiting))
      ≡ true)
    × (has "act_1"
          (action_timed_out "act_1" 40000 (run config verifier greeted waiting)).pending_actions
        ≡ false)
unfolding has
action_timed_out-settles_example =
    action_timed_out-settles config verifier "act_1" greeted waiting 40000 refl

create_enrollment_token-taken_example :
    create_enrollment_token config admin "web" policy "agt_2" "enr_2" "h2" 100
      (plane_with (agent_in revoked))
    ≡ (plane_with (agent_in revoked), thrown)
unfolding has_capability get_agent_by_alias capability_beq
create_enrollment_token-taken_example =
    create_enrollment_token-taken config admin "web" policy "agt_2" "enr_2" "h2" 100
      (plane_with (agent_in revoked)) (agent_in revoked) refl
      (λ e. cc ((string_eq.equal_iff "web" "").1 e)) refl
