-- ===== src/Remote/ControlPlane/Consistency/Requests.antt =====
-- What principals ask for, src/remote/control-plane.ts, on a consistent state.
use ssh_mcp_pro.Base.{
  ℕ, ◌+◌, ◌≡◌, ◌⊎◌, inl, inr, refl, true, false, String, string_eq, some, none, Option, arith,
  Option-cases, Bool-cases,
}
use ssh_mcp_pro.Table.{get, has}
use ssh_mcp_pro.Remote.Types.{
  RemoteAgentRecord, AgentPolicy, ActionRecord, RemotePrincipal, agents_admin, tool_capability_map,
  agent_timeout,
}
use ssh_mcp_pro.Remote.Scopes.{has_capability}
use ssh_mcp_pro.Remote.Store.{
  get_agent, is_revoked, get_agent_by_alias, insert_action, remove_revoked_agent, removable,
}
use ssh_mcp_pro.Remote.Store.Laws.{find_alias-get}
use ssh_mcp_pro.Remote.AgentHandler.{AgentConnection, Plane, rejected}
use ssh_mcp_pro.Remote.ControlPlane.{
  ControlConfig, ActionRequest, Reply, done, refused, thrown, resolve_agent, limited_policy,
  update_agent_policy, revoke_agent, call_update_agent_policy, call_revoke_agent, removed,
  removed_after, handle_api_remove_device, send_action, dispatch_action, call_agent_tool,
  action_timed_out,
}
use ssh_mcp_pro.Remote.ControlPlane.Consistency.{Marks, IsConsistent, own_row}
use ssh_mcp_pro.Remote.ControlPlane.Consistency.Agents.{update-away, update-kept, update-absent}
use ssh_mcp_pro.Remote.ControlPlane.Consistency.Tokens.{remove-Consistent}
use ssh_mcp_pro.Remote.ControlPlane.Consistency.Handler.{settle-IsConsistent}

alias-own_row :
    {m : Marks} (user_id value : String) (p : Plane) (agent : RemoteAgentRecord)
    → IsConsistent m p
    → get_agent_by_alias user_id value p.store ≡ some agent
    → (get agent.id p.store.agents ≡ some agent) × (agent.user_id ≡ user_id)
unfolding get_agent_by_alias
alias-own_row user_id value p agent v e =
    let (id, at, same) = find_alias-get user_id value p.store.agents agent v.agent_map e in
    (own_row _ _ _ id agent v at, ground (arith, string_eq.equal_iff agent.user_id user_id, same))

pub resolve_agent-own_row :
    {m : Marks} (user_id value : String) (p : Plane) (agent : RemoteAgentRecord)
    → IsConsistent m p
    → resolve_agent user_id value p.store ≡ some agent
    → (get agent.id p.store.agents ≡ some agent) × (agent.user_id ≡ user_id)
unfolding resolve_agent get_agent
resolve_agent-own_row user_id value p agent v e = ground (
  arith,
  alias-own_row user_id value p agent v,
  v.keyed value,
  string_eq.equal_iff agent.user_id user_id,
)

-- The status and the key of the record are those of the row, if there is one.
abbrev pub Agrees : RemoteAgentRecord → Option RemoteAgentRecord → Type 0
Agrees agent none = Unit
Agrees agent (some row) = (agent.public_key ≡ row.public_key) × (agent.status ≡ row.status)

lasting :
    (agent : RemoteAgentRecord)
    → (is_revoked agent.status ≡ false) ⊎ (is_revoked agent.status ≡ true)
lasting agent = ground arith

module _ {m : Marks} (p : Plane) (v : IsConsistent m p) (principal : RemotePrincipal)
    (now : ℕ) where
  module _ (agent : RemoteAgentRecord) (at : get agent.id p.store.agents ≡ some agent) where
    update_agent_policy-IsConsistent :
        (config : ControlConfig) (merged : AgentPolicy)
        → IsConsistent m (update_agent_policy config principal agent merged now p).0
    unfolding update_agent_policy
    update_agent_policy-IsConsistent config merged =
        elim (Bool-cases (has_capability principal.capabilities agents_admin)) [
          | inl e ↦ rw e (
              update-kept p.store p.agent_connections agent _ v at (inr refl) (inr (lasting agent))
                (inr refl))
          | inr e ↦ rw e v
        ]

    revoke_agent-IsConsistent : IsConsistent m (revoke_agent principal agent now p).0
    unfolding revoke_agent
    revoke_agent-IsConsistent =
        elim (Bool-cases (has_capability principal.capabilities agents_admin)) [
          | inl e ↦
              rw e
                (update-away p.store p.agent_connections agent _ v at (inr refl) (inr (inr refl)))
          | inr e ↦ rw e v
        ]

  -- The same for a record that is not the row: where it is tracked, its status and key are the row's.
  pub stale_policy-IsConsistent :
      (config : ControlConfig) (agent : RemoteAgentRecord) (merged : AgentPolicy)
      → (m.barred agent.id ≡ false) ⊎ (is_revoked agent.status ≡ true)
      → (m.tracked agent.id ≡ false) ⊎ Agrees agent (get agent.id p.store.agents)
      → IsConsistent m (update_agent_policy config principal agent merged now p).0
  unfolding update_agent_policy
  stale_policy-IsConsistent config agent merged out agrees =
      let policy = limited_policy config merged (agent.policy_version + 1) in
      let written : RemoteAgentRecord = record agent {
        profile = policy.profile;
        policy = policy;
        policy_version = agent.policy_version + 1;
        updated_at = now;
      } in
      elim (Bool-cases (has_capability principal.capabilities agents_admin)) [
        | inl e ↦ elim (Option-cases (get agent.id p.store.agents)) [
          | inl gone ↦ rw e (update-absent p.store p.agent_connections written gone v)
          | inr (row, at) ↦
              let same_key : (m.tracked agent.id ≡ false) ⊎ (agent.public_key ≡ row.public_key) =
                ground (arith, at, agrees) in
              let same_status : (m.tracked agent.id ≡ false) ⊎ (agent.status ≡ row.status) =
                ground (arith, at, agrees) in
              let lasts : (m.barred agent.id ≡ false)
                  ⊎ ((is_revoked row.status ≡ false) ⊎ (is_revoked agent.status ≡ true)) =
                ground (arith, out) in
              rw e (
                update-kept p.store p.agent_connections row written v at same_key lasts same_status)
        ]
        | inr e ↦ rw e v
      ]

  pub call_update_agent_policy-IsConsistent :
      (config : ControlConfig) (name : String) (merged : AgentPolicy)
      → IsConsistent m (call_update_agent_policy config principal name merged now p).0
  unfolding call_update_agent_policy
  call_update_agent_policy-IsConsistent config name merged =
      elim (Option-cases (resolve_agent principal.user_id name p.store)) [
        | inl e ↦ rw (e, call_update_agent_policy) v
        | inr (agent, e) ↦
            rw (e, call_update_agent_policy)
              (update_agent_policy-IsConsistent agent
                (resolve_agent-own_row principal.user_id name p agent v e).0 config merged)
      ]

  pub call_revoke_agent-IsConsistent :
      (name : String) → IsConsistent m (call_revoke_agent principal name now p).0
  unfolding call_revoke_agent
  call_revoke_agent-IsConsistent name =
      elim (Option-cases (resolve_agent principal.user_id name p.store)) [
        | inl e ↦ rw (e, call_revoke_agent) v
        | inr (agent, e) ↦
            rw (e, call_revoke_agent)
              (revoke_agent-IsConsistent agent
                (resolve_agent-own_row principal.user_id name p agent v e).0)
      ]

removable-row :
    (principal : RemotePrincipal) (agent_id : String) (p : Plane)
    → removable principal.user_id agent_id p.store ≡ true
    → (row : RemoteAgentRecord) × (get agent_id p.store.agents ≡ some row)
      × (row.user_id ≡ principal.user_id)
      × (is_revoked row.status ≡ true)
unfolding removable
removable-row principal agent_id p h = elim (Option-cases (get agent_id p.store.agents)) [
  | inl e ↦ absurd (ground arith)
  | inr (row, e) ↦
      (row, e, ground (arith, string_eq.equal_iff row.user_id principal.user_id), ground arith)
]

module _ {m : Marks} (principal : RemotePrincipal) where
  removed-IsConsistent :
      (p : Plane) (agent : RemoteAgentRecord)
      → IsConsistent m p
      → IsConsistent m (removed principal agent p).0
  unfolding removed remove_revoked_agent
  removed-IsConsistent p agent v =
      elim (Bool-cases (removable principal.user_id agent.id p.store)) [
        | inl e ↦
            let (row, at, own, revoked) = removable-row principal agent.id p e in
            rw e (
              remove-Consistent p.store.agents p.store.enrollment_tokens p.agent_connections row
                agent.id principal.user_id v at own revoked)
        | inr e ↦ rw e v
      ]

  removed_after-IsConsistent :
      (reply : Plane × Reply)
      → IsConsistent m reply.0
      → IsConsistent m (removed_after principal reply).0
  unfolding removed_after
  removed_after-IsConsistent (p, done agent) v = removed-IsConsistent p agent v
  removed_after-IsConsistent (p, refused code) v = v
  removed_after-IsConsistent (p, thrown) v = v

  pub handle_api_remove_device-IsConsistent :
      (p : Plane) (name : String) (now : ℕ)
      → IsConsistent m p
      → IsConsistent m (handle_api_remove_device principal name now p).0
  unfolding handle_api_remove_device
  handle_api_remove_device-IsConsistent p name now v =
      elim (Option-cases (resolve_agent principal.user_id name p.store)) [
        | inl e ↦ rw (e, handle_api_remove_device) v
        | inr (agent, e) ↦
            let w =
              revoke_agent-IsConsistent p v principal now agent
                (resolve_agent-own_row principal.user_id name p agent v e).0 in
            elim (Bool-cases (is_revoked agent.status)) [
              | inl r ↦ rw (e, handle_api_remove_device) (rw r (removed-IsConsistent p agent v))
              | inr r ↦ rw (e, handle_api_remove_device) (rw r (removed_after-IsConsistent _ w))
            ]
      ]

module _ {m : Marks} (p : Plane) (v : IsConsistent m p) (now : ℕ) where
  pub action_timed_out-IsConsistent :
      (action_id : String) → IsConsistent m (action_timed_out action_id now p)
  unfolding action_timed_out
  action_timed_out-IsConsistent action_id = elim (Option-cases (get action_id p.pending_actions)) [
    | inl e ↦ rw (e, action_timed_out) v
    | inr (action, e) ↦
        rw (e, action_timed_out)
          (settle-IsConsistent p v now action_id action (rejected agent_timeout))
  ]

  send_action-IsConsistent :
      (action : ActionRecord) (agent : RemoteAgentRecord) (live : AgentConnection)
      → IsConsistent m (send_action action agent live p).0
  unfolding send_action insert_action
  send_action-IsConsistent action agent live = elim (Bool-cases (has action.id p.store.actions)) [
    | inl e ↦ rw (e, send_action, insert_action) v
    | inr e ↦ rw (e, send_action, insert_action) v
  ]

  dispatch_action-IsConsistent :
      (config : ControlConfig) (principal : RemotePrincipal) (agent : RemoteAgentRecord)
      (request : ActionRequest)
      → IsConsistent m (dispatch_action config principal agent request now p).0
  unfolding dispatch_action
  dispatch_action-IsConsistent config principal agent request =
      elim (Bool-cases (is_revoked agent.status)) [
        | inl e ↦ rw e v
        | inr e ↦ elim (Option-cases (get agent.id p.agent_connections)) [
          | inl none_live ↦ rw (e, none_live, dispatch_action) v
          | inr (live, at) ↦ rw (e, at, dispatch_action) (send_action-IsConsistent _ agent live)
        ]
      ]

  pub call_agent_tool-IsConsistent :
      (config : ControlConfig) (principal : RemotePrincipal) (name : String)
      (request : ActionRequest)
      → IsConsistent m (call_agent_tool config principal name request now p).0
  unfolding call_agent_tool
  call_agent_tool-IsConsistent config principal name request =
      let capability = tool_capability_map request.tool in
      elim (Bool-cases (has_capability principal.capabilities capability)) [
        | inr e ↦ rw e v
        | inl e ↦ elim (Option-cases (resolve_agent principal.user_id name p.store)) [
          | inl unknown ↦ rw (e, unknown, call_agent_tool) v
          | inr (agent, at) ↦ elim (Bool-cases (agent.policy.capabilities capability)) [
            | inl able ↦
                rw (e, at, able, call_agent_tool)
                  (dispatch_action-IsConsistent config principal agent request)
            | inr unable ↦ rw (e, at, unable, call_agent_tool) v
          ]
        ]
      ]
