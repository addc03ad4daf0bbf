-- ===== src/Remote/ControlPlane/Stale.antt =====
-- `handleAgentApiRoute` of src/remote/control-plane.ts and `handleApiUpdateDevicePolicy` of
-- src/remote/web-dashboard.ts read the agent before they await the body of the request.
use ssh_mcp_pro.Base.{ℕ, ◌+◌, ◌≡◌, refl, true, string_eq, some, ==_refl}
use ssh_mcp_pro.Table.{get, get-set}
use ssh_mcp_pro.Remote.Types.{
  RemoteAgentRecord, AgentPolicy, RemotePrincipal, agents_admin, AgentStatus,
}
use ssh_mcp_pro.Remote.Scopes.{has_capability}
use ssh_mcp_pro.Remote.Store.{update_agent}
use ssh_mcp_pro.Remote.AgentHandler.{Plane}
use ssh_mcp_pro.Remote.ControlPlane.{
  ControlConfig, limited_policy, revoke_agent, update_agent_policy,
}

updated_row :
    (config : ControlConfig) (principal : RemotePrincipal) (agent row : RemoteAgentRecord)
    (merged : AgentPolicy) (q : Plane) (later : ℕ)
    → get agent.id q.store.agents ≡ some row
    → row.user_id ≡ agent.user_id
    → has_capability principal.capabilities agents_admin ≡ true
    → let updated : Plane = (update_agent_policy config principal agent merged later q).0 in
      (found : RemoteAgentRecord) × (get agent.id updated.store.agents ≡ some found)
      × (found.status ≡ agent.status)
      × (found.public_key ≡ agent.public_key)
      × (found.user_id ≡ agent.user_id)
unfolding update_agent_policy update_agent
updated_row config principal agent row merged q later at same may_update =
    let policy = limited_policy config merged (agent.policy_version + 1) in
    let found : RemoteAgentRecord = record agent {
      profile = policy.profile;
      policy = policy;
      policy_version = agent.policy_version + 1;
      updated_at = later;
      user_id = row.user_id;
      created_at = row.created_at;
    } in
    (
      found,
      rw (may_update, at, update_agent_policy, update_agent)
          (rw (get-set agent.id agent.id found q.store.agents, ==_refl agent.id) refl),
      refl,
      refl,
      same,
    )

module _ (config : ControlConfig) (revoker principal : RemotePrincipal) (agent : RemoteAgentRecord)
    (merged : AgentPolicy) (p : Plane) (now later : ℕ)
    (at : get agent.id p.store.agents ≡ some agent)
    (may_revoke : has_capability revoker.capabilities agents_admin ≡ true) where
  revoked_row :
      get agent.id (revoke_agent revoker agent now p).0.store.agents
      ≡ some (record agent { status = AgentStatus.revoked; updated_at = now })
  unfolding revoke_agent update_agent
  revoked_row =
      rw (may_revoke, at, revoke_agent, update_agent)
        (rw
          (
            get-set agent.id agent.id
                (record agent { status = AgentStatus.revoked; updated_at = now }) p.store.agents,
            ==_refl agent.id,
          )
          refl)

  -- A policy update undoes a revocation that came after the update had read the agent: the row that
  -- was revoked has again the status, the key and the owner that it had before.
  pub update_agent_policy-unrevokes :
      has_capability principal.capabilities agents_admin ≡ true
      → let revoked : Plane = (revoke_agent revoker agent now p).0 in
        let updated : Plane = (update_agent_policy config principal agent merged later revoked).0 in
        (get agent.id revoked.store.agents
          ≡ some (record agent { status = AgentStatus.revoked; updated_at = now }))
        × ((row : RemoteAgentRecord) × (get agent.id updated.store.agents ≡ some row)
            × (row.status ≡ agent.status)
            × (row.public_key ≡ agent.public_key)
            × (row.user_id ≡ agent.user_id))
  update_agent_policy-unrevokes may_update = (
    revoked_row,
    updated_row config principal agent
        (record agent { status = AgentStatus.revoked; updated_at = now }) merged
        (revoke_agent revoker agent now p).0 later revoked_row refl may_update,
  )
