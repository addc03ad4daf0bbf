-- ===== src/Remote/ControlPlane/Aliases.antt =====
-- The aliases of new agents: `createEnrollmentToken` of src/remote/control-plane.ts.
use ssh_mcp_pro.Base.{
  ℕ, ◌≡◌, ◌≢◌, refl, true, String, string_eq, ◌==◌, some, Bool-cases, inl, inr, if◌then◌else◌,
}
use ssh_mcp_pro.Table.{has}
use ssh_mcp_pro.Remote.Types.{
  RemoteAgentRecord, RemotePrincipal, AgentPolicy, agents_admin, forbidden,
}
use ssh_mcp_pro.Remote.Scopes.{has_capability}
use ssh_mcp_pro.Remote.Store.{insert_agent, is_revoked, get_agent_by_alias}
use ssh_mcp_pro.Remote.AgentHandler.{Plane}
use ssh_mcp_pro.Remote.ControlPlane.{
  ControlConfig, thrown, refused, create_enrollment_token, insert_pending_agent, pending_agent,
}

insert_agent_taken :
    (config : ControlConfig) (agent existing : RemoteAgentRecord) (token_id token_hash : String)
    (now : ℕ) (p : Plane)
    → get_agent_by_alias agent.user_id agent.alias p.store ≡ some existing
    → insert_pending_agent config agent token_id token_hash now p ≡ (p, thrown)
unfolding insert_pending_agent insert_agent
insert_agent_taken config agent existing token_id token_hash now p e =
    elim (Bool-cases (has agent.id p.store.agents)) [
      | inl old ↦ rw (old, insert_pending_agent, insert_agent) refl
      | inr new ↦ rw (new, e, insert_pending_agent, insert_agent) refl
    ]

-- An alias that an agent of the same user has is not given again, and the request changes nothing:
-- it is refused if that agent is not revoked, and if it is revoked, the constraint of the table
-- throws, which the check before it does not foresee.
pub create_enrollment_token-taken :
    (config : ControlConfig) (principal : RemotePrincipal) (alias : String) (policy : AgentPolicy)
    (id token_id token_hash : String) (now : ℕ) (p : Plane) (existing : RemoteAgentRecord)
    → has_capability principal.capabilities agents_admin ≡ true
    → alias ≢ ""
    → get_agent_by_alias principal.user_id alias p.store ≡ some existing
    → create_enrollment_token config principal alias policy id token_id token_hash now p
      ≡ (p, if is_revoked existing.status then thrown else refused forbidden)
unfolding create_enrollment_token
create_enrollment_token-taken config principal alias policy id token_id token_hash now p existing
      admin named e =
    elim (Bool-cases (alias == "")) [
      | inl empty ↦ absurd (named ((string_eq.equal_iff alias "").0 empty))
      | inr n ↦ elim (Bool-cases (is_revoked existing.status)) [
        | inl r ↦
            rw (admin, n, e, r)
              (insert_agent_taken config (pending_agent principal id alias policy now) existing
                token_id token_hash now p e)
        | inr r ↦ rw (admin, n, e, r) refl
      ]
    ]
