-- ===== src/Remote/ControlPlane/Consistency/Handler.antt =====
-- The operations of src/remote/agent-handler.ts on a consistent state.
use ssh_mcp_pro.Base.{
  ℕ, ◌≡◌, inl, inr, refl, ap, Bool, true, false, not, String, string_eq, nat_eq, Option, none, some,
  is_some, ◌==◌, Option-cases, Bool-cases, ℤ,
}
use ssh_mcp_pro.Table.{get, has}
use ssh_mcp_pro.Remote.Types.{RemoteAgentRecord, AgentHelloEnvelope, ActionRecord}
use ssh_mcp_pro.Remote.Store.{get_agent, is_revoked, update_action}
use ssh_mcp_pro.Remote.Connections.{Lifecycle, claim}
use ssh_mcp_pro.Remote.AgentHandler.{
  Plane, connect, replace_existing_connection, greet, is_live_on, hello_nonces_of,
  cleanup_ephemeral_state, verify_agent_hello, claim_agent_hello, hello_with_key,
  handle_agent_hello, is_stale_hello, reject_hello, settle, Settlement,
}
use ssh_mcp_pro.Remote.AgentHandler.Replay.{has-cleanup_ephemeral_state}
use ssh_mcp_pro.Remote.ControlPlane.Consistency.{
  Marks, IsConsistent, same_live-Consistent, own_row, if-IsConsistent,
}
use ssh_mcp_pro.Remote.ControlPlane.Consistency.Agents.{update-online}

module _ {m : Marks} (agent : RemoteAgentRecord) (connection : ℕ) (hello : AgentHelloEnvelope)
    (now : ℕ) where
  connect-IsConsistent :
      (p : Plane)
      → IsConsistent m p
      → get agent.id p.store.agents ≡ some agent
      → is_some agent.public_key ≡ true
      → is_revoked agent.status ≡ false
      → IsConsistent m (connect agent connection hello now p)
  unfolding connect replace_existing_connection
  connect-IsConsistent p v at key welcome =
      update-online _ p.agent_connections agent _ v at (inr refl) (inr (inl welcome)) _ (refl, key)
        welcome

  greet-IsConsistent :
      (p : Plane)
      → IsConsistent m p
      → get agent.id p.store.agents ≡ some agent
      → is_some agent.public_key ≡ true
      → is_revoked agent.status ≡ false
      → IsConsistent m (greet agent connection hello now p)
  unfolding greet reject_hello
  greet-IsConsistent p v at key welcome =
      if-IsConsistent (is_live_on connection (get agent.id p.agent_connections)) _ _ v (
        if-IsConsistent (has hello.nonce (hello_nonces_of agent.id p)) _ _ v
          (connect-IsConsistent p v at key welcome))

  -- The windows of the nonces do not matter.
  cleanup-IsConsistent :
      (p : Plane) → IsConsistent m p → IsConsistent m (cleanup_ephemeral_state now p)
  unfolding cleanup_ephemeral_state
  cleanup-IsConsistent p v =
      same_live-Consistent _ _ _ _ v (λ id. has-cleanup_ephemeral_state now p id)

  module _ (parse_date : String → Option ℤ) (verify_hello : AgentHelloEnvelope → String → Bool)
      (key : String) (p : Plane) (v : IsConsistent m p)
      (at : get agent.id p.store.agents ≡ some agent) (has_key : agent.public_key ≡ some key)
      (welcome : is_revoked agent.status ≡ false) where
    verify-IsConsistent :
        (lifecycle : Lifecycle)
        → IsConsistent m (
            verify_agent_hello parse_date verify_hello agent key connection hello now
              (record p { lifecycle = lifecycle }))
    unfolding verify_agent_hello reject_hello cleanup_ephemeral_state
    verify-IsConsistent lifecycle =
        let q : Plane = record p { lifecycle = lifecycle } in
        if-IsConsistent (not (verify_hello hello key)) _ _ v (
          if-IsConsistent (is_stale_hello parse_date hello now) _ _ v (
            greet-IsConsistent (cleanup_ephemeral_state now q) (cleanup-IsConsistent q v) at
              (ap is_some has_key) welcome))

    claim-IsConsistent :
        IsConsistent m (claim_agent_hello parse_date verify_hello agent key connection hello now p)
    unfolding claim_agent_hello
    claim-IsConsistent =
        if-IsConsistent (claim connection agent.id p.lifecycle).1 _ _ (verify-IsConsistent _) v

  module _ (parse_date : String → Option ℤ) (verify_hello : AgentHelloEnvelope → String → Bool)
      (p : Plane) (v : IsConsistent m p) where
    key-IsConsistent :
        (key : Option String)
        → agent.public_key ≡ key
        → get agent.id p.store.agents ≡ some agent
        → IsConsistent m (hello_with_key parse_date verify_hello key agent connection hello now p)
    unfolding hello_with_key reject_hello
    key-IsConsistent none has_key at = v
    key-IsConsistent (some key) has_key at = elim (Bool-cases (is_revoked agent.status)) [
      | inl barred ↦ rw barred v
      | inr welcome ↦ rw welcome (
          if-IsConsistent (key == "") _ _ v
            (claim-IsConsistent parse_date verify_hello key p v at has_key welcome))
    ]

module _ {m : Marks} (p : Plane) (v : IsConsistent m p) (now : ℕ) where
  pub handle_agent_hello-IsConsistent :
      (parse_date : String → Option ℤ) (verify_hello : AgentHelloEnvelope → String → Bool)
      (connection : ℕ) (hello : AgentHelloEnvelope)
      → IsConsistent m (handle_agent_hello parse_date verify_hello connection hello now p)
  unfolding handle_agent_hello reject_hello get_agent
  handle_agent_hello-IsConsistent parse_date verify_hello connection hello =
      elim (Option-cases (get hello.agent_id p.store.agents)) [
        | inl e ↦ rw (e, handle_agent_hello) v
        | inr (agent, e) ↦
            rw (e, handle_agent_hello)
              (key-IsConsistent agent connection hello now parse_date verify_hello p v
                agent.public_key refl (own_row _ _ _ hello.agent_id agent v e))
      ]

  pub settle-IsConsistent :
      (action_id : String) (action : ActionRecord) (outcome : Settlement)
      → IsConsistent m (settle action_id action outcome now p)
  unfolding settle update_action
  settle-IsConsistent action_id action outcome =
      elim (Option-cases (get action.id p.store.actions)) [
        | inl e ↦ rw (e, settle, update_action) v
        | inr (row, e) ↦ rw (e, settle, update_action) v
      ]
