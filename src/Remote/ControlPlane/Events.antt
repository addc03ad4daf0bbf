-- ===== src/Remote/ControlPlane/Events.antt =====
-- The events that reach the control plane, each handled to its end before the next one: requests,
-- messages and closed connections of agents, and timers.
use ssh_mcp_pro.Base.{ℕ, String, if◌then◌else◌, Bool, Option, List, [], ◌∷◌, ℤ}
use ssh_mcp_pro.Remote.Types.{
  RemoteAgentRecord, AgentPolicy, AgentHostMetadata, AgentHelloEnvelope, ActionResultEnvelope,
  RemotePrincipal,
}
use ssh_mcp_pro.Remote.Store.{prune_expired_transient_records}
use ssh_mcp_pro.Remote.AgentHandler.{
  Plane, AgentMessage, hello_message, result_message, unknown, unreadable, handle_agent_message,
  handle_live_connection_closed, connection_closed, cleanup_ephemeral_state,
}
use ssh_mcp_pro.Remote.ControlPlane.{
  ControlConfig, ActionRequest, create_enrollment_token, handle_agent_enroll, call_agent_tool,
  action_timed_out, call_update_agent_policy, update_agent_policy, call_revoke_agent,
  handle_api_remove_device,
}

-- A request to change a policy reads the agent before it waits for its body: `patches_policy` is what
-- it does after that, with a record that it may have read at any earlier time. The tool that changes a
-- policy, `updates_policy`, does not wait. `sends_garbage` is a message that is no JSON object, or one
-- of an unknown type if the flag is set.
pub data Event : Type 0 where
  creates_token : RemotePrincipal → String → AgentPolicy → String → String → String → ℕ → Event
  enrolls : String → String → AgentHostMetadata → ℕ → Event
  says_hello : ℕ → AgentHelloEnvelope → ℕ → Event
  answers : ℕ → ActionResultEnvelope → ℕ → Event
  closes_connection : ℕ → ℕ → Event
  closes_unmanaged : RemoteAgentRecord → ℕ → ℕ → Event
  sends_garbage : ℕ → Bool → ℕ → Event
  calls_tool : RemotePrincipal → String → ActionRequest → ℕ → Event
  times_out : String → ℕ → Event
  updates_policy : RemotePrincipal → String → AgentPolicy → ℕ → Event
  patches_policy : RemotePrincipal → RemoteAgentRecord → AgentPolicy → ℕ → Event
  revokes removes : RemotePrincipal → String → ℕ → Event
  cleans_up : ℕ → Event

-- What the control plane takes from elsewhere: the signatures of agents, and `Date.parse`.
pub record Verifier : Type 0 where
  pub verify_hello : AgentHelloEnvelope → String → Bool
  pub verify_result : ActionResultEnvelope → String → Bool
  pub parse_date : String → Option ℤ

module _ (config : ControlConfig) (verifier : Verifier) where
  abbrev pub receive : ℕ → AgentMessage → ℕ → Plane → Plane
  receive = handle_agent_message verifier.parse_date verifier.verify_hello verifier.verify_result

  unfoldable pub step : Event → Plane → Plane
  unfolding prune_expired_transient_records
  step (creates_token principal alias policy id token_id token_hash now) p =
      (create_enrollment_token config principal alias policy id token_id token_hash now p).0
  step (enrolls token_hash public_key host now) p =
      (handle_agent_enroll token_hash public_key host now p).0
  step (says_hello connection hello now) p = receive connection (hello_message hello) now p
  step (answers connection result now) p = receive connection (result_message result) now p
  step (closes_connection connection now) p = connection_closed connection now p
  step (closes_unmanaged agent connection now) p =
      (handle_live_connection_closed agent connection now p).0
  step (sends_garbage connection readable now) p =
      receive connection (if readable then unknown else unreadable) now p
  step (calls_tool principal name request now) p =
      (call_agent_tool config principal name request now p).0
  step (times_out action_id now) p = action_timed_out action_id now p
  step (updates_policy principal name merged now) p =
      (call_update_agent_policy config principal name merged now p).0
  step (patches_policy principal agent merged now) p =
      (update_agent_policy config principal agent merged now p).0
  step (revokes principal name now) p = (call_revoke_agent principal name now p).0
  step (removes principal name now) p = (handle_api_remove_device principal name now p).0
  step (cleans_up now) p =
      let q = cleanup_ephemeral_state now p in
      record q { store = prune_expired_transient_records now q.store }

  unfoldable pub run : List Event → Plane → Plane
  run [] p = p
  run (event ∷ events) p = run events (step event p)
