-- ===== src/Remote/ControlPlane/Consistency/Results.antt =====
-- Results of actions and closed connections, src/remote/agent-handler.ts, on a consistent state.
use ssh_mcp_pro.Base.{
  ℕ, ◌≡◌, inl, inr, refl, Bool, not, ◌||◌, ◌&&◌, String, string_eq, nat_eq, some, none, Option, ℤ,
  arith, ◌==◌, if◌then◌else◌, Option-cases, Bool-cases, or_else,
}
use ssh_mcp_pro.Table.{get, set, delete, has-set, has-get}
use ssh_mcp_pro.Remote.Types.{
  RemoteAgentRecord, offline, ActionResultEnvelope, AgentHelloEnvelope, ActionRecord,
  RemoteErrorCode, action_replay_detected, signature_invalid, internal_error,
}
use ssh_mcp_pro.Remote.Store.{AuditEventType, get_agent, is_revoked}
use ssh_mcp_pro.Remote.Nonces.{has_seen_nonce, remember_nonce}
use ssh_mcp_pro.Remote.Connections.{ManagedAgentConnection}
use ssh_mcp_pro.Remote.AgentHandler.{
  AgentConnection, Plane, is_live_on, reject_pending_action, answer_live, answer_signed,
  handle_action_result, public_key_of, is_signed, handle_live_connection_closed,
  handle_live_connection_closed_by_id, set_offline, AgentMessage, hello_message, result_message,
  unknown, unreadable, handle_agent_message, handle_other_message, reject_before_hello,
  reject_hello, awaits_hello, connection_closed, close_managed, audit_action, rejected, resolved,
  settle,
}
use ssh_mcp_pro.Remote.ControlPlane.Consistency.{
  Marks, Consistent, IsConsistent, same_live-Consistent, delete-Consistent, own_row,
  if-IsConsistent,
}
use ssh_mcp_pro.Remote.ControlPlane.Consistency.Agents.{update-away}
use ssh_mcp_pro.Remote.ControlPlane.Consistency.Handler.{
  settle-IsConsistent, handle_agent_hello-IsConsistent,
}

module _ {m : Marks} (now : ℕ) (result : ActionResultEnvelope) (action : ActionRecord) where
  reject-IsConsistent :
      (p : Plane) (event_type : AuditEventType) (code : RemoteErrorCode)
      → IsConsistent m p
      → IsConsistent m (reject_pending_action result.action_id action event_type code now p)
  unfolding reject_pending_action
  reject-IsConsistent p event_type code v =
      settle-IsConsistent (audit_action event_type action p) v now result.action_id action
        (rejected code)

  answer_live-IsConsistent :
      (p : Plane) (live : AgentConnection)
      → IsConsistent m p
      → get result.agent_id p.agent_connections ≡ some live
      → IsConsistent m (answer_live live result action now p)
  unfolding answer_live
  answer_live-IsConsistent p live v e =
      let window = has_seen_nonce live.seen_nonces result.nonce now in
      let kept : AgentConnection = record live {
        seen_nonces = if window.1 then window.0 else remember_nonce window.0 result.nonce now;
      } in
      let q : Plane = record p {
        agent_connections = set result.agent_id kept p.agent_connections;
      } in
      let w : IsConsistent m q = same_live-Consistent _ _ p.agent_connections _ v (λ id. ground (
        arith,
        has-set result.agent_id id kept p.agent_connections,
        string_eq.equal_iff result.agent_id id,
        has-get result.agent_id live p.agent_connections e,
      )) in
      if-IsConsistent window.1
        (reject_pending_action result.action_id action AuditEventType.agent_result_replay_detected
          action_replay_detected now q)
        (settle result.action_id action (resolved result) now q)
        (reject-IsConsistent q AuditEventType.agent_result_replay_detected action_replay_detected w)
        (settle-IsConsistent q w now result.action_id action (resolved result))

  answer_signed-IsConsistent :
      (p : Plane) (connection : ℕ)
      → IsConsistent m p
      → IsConsistent m (answer_signed connection result action now p)
  unfolding answer_signed
  answer_signed-IsConsistent p connection v =
      elim (Option-cases (get result.agent_id p.agent_connections)) [
        | inl e ↦ rw (e, answer_signed) (reject-IsConsistent p _ _ v)
        | inr (live, e) ↦
            rw (e, answer_signed)
              (if-IsConsistent (action.agent_id == result.agent_id && live.connection == connection)
                (answer_live live result action now p)
                (reject_pending_action result.action_id action
                  AuditEventType.agent_result_connection_invalid signature_invalid now p)
                (answer_live-IsConsistent p live v e) (reject-IsConsistent p _ _ v))
      ]

module _ {m : Marks} (p : Plane) (v : IsConsistent m p) (now : ℕ) where
  pub handle_action_result-IsConsistent :
      (verify_result : ActionResultEnvelope → String → Bool) (connection : ℕ)
      (result : ActionResultEnvelope)
      → IsConsistent m (handle_action_result verify_result connection result now p)
  unfolding handle_action_result
  handle_action_result-IsConsistent verify_result connection result =
      elim (Option-cases (get result.action_id p.pending_actions)) [
        | inl e ↦ rw (e, handle_action_result) v
        | inr (action, e) ↦
            rw (e, handle_action_result)
              (if-IsConsistent
                (is_signed verify_result result (public_key_of result.agent_id p.store))
                (answer_signed connection result action now p)
                (reject_pending_action result.action_id action
                  AuditEventType.agent_result_signature_invalid internal_error now p)
                (answer_signed-IsConsistent now result action p connection v)
                (reject-IsConsistent now result action p _ _ v))
      ]

  offline-IsConsistent :
      (id : String) (latest : Option RemoteAgentRecord)
      → get id p.store.agents ≡ latest
      → Consistent m
          (set_offline latest now p.store).agents
          (set_offline latest now p.store).enrollment_tokens
          (delete id p.agent_connections)
  unfolding set_offline
  offline-IsConsistent id none at =
      delete-Consistent p.store.agents p.store.enrollment_tokens p.agent_connections id v
  offline-IsConsistent id (some latest) at =
      let own : latest.id ≡ id = ground (arith, v.keyed id, at) in
      let w = delete-Consistent p.store.agents p.store.enrollment_tokens p.agent_connections id v in
      elim (Bool-cases (is_revoked latest.status)) [
        | inl e ↦ rw e w
        | inr e ↦ rw e (
            rw (← own) (
              update-away p.store p.agent_connections latest
                (record latest { status = offline; updated_at = now }) v
                (own_row _ _ _ id latest v at) (inr refl) (inr (inl e))))
      ]

  pub handle_live_connection_closed-IsConsistent :
      (agent : RemoteAgentRecord) (connection : ℕ)
      → IsConsistent m (handle_live_connection_closed agent connection now p).0
  unfolding handle_live_connection_closed get_agent
  handle_live_connection_closed-IsConsistent agent connection =
      elim (Bool-cases (is_live_on connection (get agent.id p.agent_connections))) [
        | inl live ↦ rw live (offline-IsConsistent agent.id (get agent.id p.store.agents) refl)
        | inr other ↦ rw other v
      ]

  closed_by_id-IsConsistent :
      (agent_id : String) (connection : ℕ)
      → IsConsistent m (handle_live_connection_closed_by_id agent_id connection now p).0
  unfolding handle_live_connection_closed_by_id get_agent
  closed_by_id-IsConsistent agent_id connection =
      elim (Option-cases (get agent_id p.store.agents)) [
        | inl e ↦ rw (e, handle_live_connection_closed_by_id) v
        | inr (agent, e) ↦
            rw (e, handle_live_connection_closed_by_id)
              (handle_live_connection_closed-IsConsistent agent connection)
      ]

  managed-IsConsistent :
      (managed : ManagedAgentConnection) (connection : ℕ)
      → IsConsistent m (close_managed managed connection now p)
  unfolding close_managed
  managed-IsConsistent managed connection =
      if-IsConsistent
        (p.lifecycle.shutting_down
          || not managed.authenticated
          || or_else managed.agent_id "" == "")
        _ _ v (closed_by_id-IsConsistent (or_else managed.agent_id "") connection)

  pub connection_closed-IsConsistent :
      (connection : ℕ) → IsConsistent m (connection_closed connection now p)
  unfolding connection_closed
  connection_closed-IsConsistent connection =
      elim (Option-cases (get connection p.lifecycle.managed_connections)) [
        | inl e ↦ rw (e, connection_closed) v
        | inr (managed, e) ↦ rw (e, connection_closed) (managed-IsConsistent managed connection)
      ]

  handle_other_message-IsConsistent :
      (connection : ℕ) (handle : Plane → Plane)
      → IsConsistent m (handle p)
      → IsConsistent m (handle_other_message connection handle p)
  unfolding handle_other_message reject_before_hello reject_hello
  handle_other_message-IsConsistent connection handle w =
      if-IsConsistent (awaits_hello (get connection p.lifecycle.managed_connections))
        (reject_before_hello connection p) (handle p) v w

  pub handle_agent_message-IsConsistent :
      (parse_date : String → Option ℤ) (verify_hello : AgentHelloEnvelope → String → Bool)
      (verify_result : ActionResultEnvelope → String → Bool) (connection : ℕ)
      (message : AgentMessage)
      → IsConsistent m
          (handle_agent_message parse_date verify_hello verify_result connection message now p)
  unfolding handle_agent_message reject_hello
  handle_agent_message-IsConsistent parse_date verify_hello verify_result connection unreadable = v
  handle_agent_message-IsConsistent parse_date verify_hello verify_result connection unknown =
      handle_other_message-IsConsistent connection (reject_hello connection internal_error) v
  handle_agent_message-IsConsistent parse_date verify_hello verify_result connection
        (hello_message hello) =
      handle_agent_hello-IsConsistent p v now parse_date verify_hello connection hello
  handle_agent_message-IsConsistent parse_date verify_hello verify_result connection
        (result_message result) =
      handle_other_message-IsConsistent connection
        (handle_action_result verify_result connection result now)
        (handle_action_result-IsConsistent verify_result connection result)
