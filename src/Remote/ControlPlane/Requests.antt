-- ===== src/Remote/ControlPlane/Requests.antt =====
-- Who may have an action carried out, and on which agent: `callRemoteTool` and `dispatchAction` of
-- src/remote/control-plane.ts.
use ssh_mcp_pro.Base.{
  ℕ, ◌≤◌, ◌+◌, ◌*◌, ◌≡◌, true, false, String, string_eq, some, arith, Option-cases, inl, inr, [],
  ◌∷◌, ◌++◌,
}
use ssh_mcp_pro.Table.{get, set}
use ssh_mcp_pro.Remote.Types.{RemoteAgentRecord, RemotePrincipal, ActionRecord, tool_capability_map}
use ssh_mcp_pro.Remote.Scopes.{has_capability}
use ssh_mcp_pro.Remote.Store.{insert_action, is_revoked}
use ssh_mcp_pro.Remote.AgentHandler.{Plane, AgentConnection, action_request}
use ssh_mcp_pro.Remote.ControlPlane.{
  ControlConfig, ActionRequest, underway, resolve_agent, requested_action, send_action,
  dispatch_action, call_agent_tool,
}
use ssh_mcp_pro.Remote.ControlPlane.Consistency.{IsConsistent}
use ssh_mcp_pro.Remote.ControlPlane.Consistency.Requests.{resolve_agent-own_row}
use ssh_mcp_pro.Remote.ControlPlane.History.{unmarked}

-- The agent is the principal's own, not revoked, and its policy has the capability; the action is
-- stored, pending and sent on the agent's live connection.
pub record Sent (config : ControlConfig) (principal : RemotePrincipal) (request : ActionRequest)
    (now : ℕ) (p q : Plane) (action : ActionRecord) (agent : RemoteAgentRecord)
    (live : AgentConnection) : Type 0 where
  pub granted : has_capability principal.capabilities (tool_capability_map request.tool) ≡ true
  pub allowed : agent.policy.capabilities (tool_capability_map request.tool) ≡ true
  pub stored_agent : get agent.id p.store.agents ≡ some agent
  pub own : agent.user_id ≡ principal.user_id
  pub in_force : is_revoked agent.status ≡ false
  pub connected : get agent.id p.agent_connections ≡ some live
  pub requested : action ≡ requested_action config principal agent request now
  pub in_time :
      (action.deadline ≤ now + config.max_action_timeout_seconds * 1000)
      × (action.deadline ≤ now + agent.policy.max_action_timeout_seconds * 1000)
  pub sent : q.sent ≡ p.sent ++ action_request live.connection action agent.policy_version ∷ []
  pub pending : q.pending_actions ≡ set action.id action p.pending_actions

sent_action :
    (action : ActionRecord) (agent : RemoteAgentRecord) (live : AgentConnection) (p : Plane)
    (started : ActionRecord)
    → (send_action action agent live p).1 ≡ underway started
    → let q : Plane = (send_action action agent live p).0 in
      (started ≡ action)
      × (q.sent ≡ p.sent ++ action_request live.connection action agent.policy_version ∷ [])
      × (q.pending_actions ≡ set action.id action p.pending_actions)
unfolding send_action insert_action
sent_action action agent live p started h = ground arith

-- An action gets under way only for a principal and on an agent whose scopes and policy both grant
-- the capability of the tool; the agent is the principal's own, is not revoked and has a live
-- connection, to which the action is sent, within the time limits of the policy and of the
-- configuration.
pub call_agent_tool-Sent :
    (config : ControlConfig) (principal : RemotePrincipal) (name : String) (request : ActionRequest)
    (now : ℕ) (p : Plane) (action : ActionRecord)
    → IsConsistent unmarked p
    → (call_agent_tool config principal name request now p).1 ≡ underway action
    → (agent : RemoteAgentRecord) × ((live : AgentConnection) × Sent config principal request now p
          (call_agent_tool config principal name request now p).0
          action
          agent
          live)
unfolding call_agent_tool dispatch_action
call_agent_tool-Sent config principal name request now p action v h =
    elim (Option-cases (resolve_agent principal.user_id name p.store)) [
      | inl e ↦ absurd (ground arith)
      | inr (agent, e) ↦ elim (Option-cases (get agent.id p.agent_connections)) [
        | inl f ↦ absurd (ground arith)
        | inr (live, f) ↦
            let (at, own) = resolve_agent-own_row principal.user_id name p agent v e in
            let to_send = requested_action config principal agent request now in
            let s = sent_action to_send agent live p action in
            (
              agent,
              (
                live,
                record {
                  granted = ground arith;
                  allowed = ground arith;
                  stored_agent = at;
                  own = own;
                  in_force = ground arith;
                  connected = f;
                  requested = ground (arith, s);
                  in_time = ground (arith, s);
                  sent = ground (arith, s);
                  pending = ground (arith, s);
                },
              ),
            )
      ]
    ]
