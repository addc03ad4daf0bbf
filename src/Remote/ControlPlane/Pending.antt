-- ===== src/Remote/ControlPlane/Pending.antt =====
-- Pending and settled actions of src/remote/control-plane.ts over the events.
use ssh_mcp_pro.Base.{
  ℕ, ◌≡◌, ◌⊎◌, inl, inr, refl, Bool, true, false, ◌||◌, String, string_eq, ◌==◌, ==_refl, List, [],
  ◌∷◌, ◌++◌, Option, none, any, arith, Option-cases, Bool-cases, if◌then◌else◌, nat_eq, ℤ,
}
use ssh_mcp_pro.Table.{get, delete, has, has-set, has-delete}
use ssh_mcp_pro.Remote.Types.{
  AgentPolicy, AgentHostMetadata, AgentHelloEnvelope, ActionRecord, ActionResultEnvelope,
  RemotePrincipal, agent_timeout, RemoteAgentRecord, internal_error,
}
use ssh_mcp_pro.Remote.Store.{prune_expired_transient_records, insert_action, remove_revoked_agent}
use ssh_mcp_pro.Remote.AgentHandler.{
  Plane, Settlement, AgentConnection, rejected, settle, handle_agent_hello, hello_with_key,
  claim_agent_hello, verify_agent_hello, greet, connect, reject_hello, replace_existing_connection,
  cleanup_ephemeral_state, handle_live_connection_closed, connection_closed, close_managed,
  handle_action_result, handle_live_connection_closed_by_id, AgentMessage, hello_message,
  result_message, unknown, unreadable, handle_agent_message, handle_other_message,
  reject_before_hello, awaits_hello,
}
use ssh_mcp_pro.Remote.ControlPlane.{
  ControlConfig, ActionRequest, create_enrollment_token, insert_pending_agent, handle_agent_enroll,
  enroll_with, enroll, update_agent_policy, revoke_agent, call_update_agent_policy,
  call_revoke_agent, removed, removed_after, handle_api_remove_device, send_action, dispatch_action,
  call_agent_tool, action_timed_out, requested_action, resolve_agent,
}
use ssh_mcp_pro.Remote.ControlPlane.Events.{
  Event, Verifier, step, run, creates_token, enrolls, says_hello, answers, closes_connection,
  closes_unmanaged, sends_garbage, patches_policy, receive, calls_tool, times_out, updates_policy,
  revokes, removes, cleans_up,
}
use ssh_mcp_pro.Remote.ControlPlane.Settlement.{handle_action_result-Settles}

abbrev pub is_settled : String → Plane → Bool
is_settled action_id p = any (λ (e : String × Settlement). e.0 == action_id) p.settled

-- The operation leaves both alone.
abbrev Untouched : Plane → Plane → Type 0
Untouched p q = (q.pending_actions ≡ p.pending_actions) × (q.settled ≡ p.settled)

module _ (p : Plane) (now : ℕ) where
  hello-Untouched :
      (parse_date : String → Option ℤ) (verify_hello : AgentHelloEnvelope → String → Bool)
      (connection : ℕ) (hello : AgentHelloEnvelope)
      → Untouched p (handle_agent_hello parse_date verify_hello connection hello now p)
  unfolding handle_agent_hello hello_with_key claim_agent_hello verify_agent_hello greet connect
      reject_hello replace_existing_connection cleanup_ephemeral_state
  hello-Untouched parse_date verify_hello connection hello = ground arith

  live_closed-Untouched :
      (agent : RemoteAgentRecord) (connection : ℕ)
      → Untouched p (handle_live_connection_closed agent connection now p).0
  unfolding handle_live_connection_closed
  live_closed-Untouched agent connection = ground arith

  patch-Untouched :
      (config : ControlConfig) (principal : RemotePrincipal) (agent : RemoteAgentRecord)
      (merged : AgentPolicy)
      → Untouched p (update_agent_policy config principal agent merged now p).0
  unfolding update_agent_policy
  patch-Untouched config principal agent merged = ground arith

  closed-Untouched : (connection : ℕ) → Untouched p (connection_closed connection now p)
  unfolding connection_closed close_managed handle_live_connection_closed
      handle_live_connection_closed_by_id
  closed-Untouched connection = ground arith

  create-Untouched :
      (config : ControlConfig) (principal : RemotePrincipal) (alias : String) (policy : AgentPolicy)
      (id token_id token_hash : String)
      → Untouched p
          (create_enrollment_token config principal alias policy id token_id token_hash now p).0
  unfolding create_enrollment_token insert_pending_agent
  create-Untouched config principal alias policy id token_id token_hash = ground arith

  enroll-Untouched :
      (token_hash public_key : String) (host : AgentHostMetadata)
      → Untouched p (handle_agent_enroll token_hash public_key host now p).0
  unfolding handle_agent_enroll enroll_with enroll
  enroll-Untouched token_hash public_key host = ground arith

  policy-Untouched :
      (config : ControlConfig) (principal : RemotePrincipal) (name : String) (merged : AgentPolicy)
      → Untouched p (call_update_agent_policy config principal name merged now p).0
  unfolding call_update_agent_policy update_agent_policy
  policy-Untouched config principal name merged = ground arith

  revoke-Untouched :
      (principal : RemotePrincipal) (name : String)
      → Untouched p (call_revoke_agent principal name now p).0
  unfolding call_revoke_agent revoke_agent
  revoke-Untouched principal name = ground arith

  remove-Untouched :
      (principal : RemotePrincipal) (name : String)
      → Untouched p (handle_api_remove_device principal name now p).0
  unfolding handle_api_remove_device revoke_agent removed removed_after remove_revoked_agent
  remove-Untouched principal name = ground arith

abbrev Tracks : String → Plane → Type 0
Tracks action_id p = (has action_id p.pending_actions ≡ true) ⊎ (is_settled action_id p ≡ true)

any-append :
    (action_id : String) (l m : List (String × Settlement))
    → any (λ (e : String × Settlement). e.0 == action_id) (l ++ m) ≡ (
        any (λ (e : String × Settlement). e.0 == action_id) l
        || any (λ (e : String × Settlement). e.0 == action_id) m)
any-append action_id [] m = refl
any-append action_id (e ∷ l) m = ground (arith, any-append action_id l m)

-- One action is settled.
settled-Tracks :
    (action_id other : String) (outcome : Settlement) (p q : Plane)
    → q.settled ≡ p.settled ++ (other, outcome) ∷ []
    → q.pending_actions ≡ delete other p.pending_actions
    → Tracks action_id p
    → Tracks action_id q
settled-Tracks action_id other outcome p q settled pending t = ground (
  arith,
  any-append action_id p.settled ((other, outcome) ∷ []),
  has-delete other action_id p.pending_actions,
  string_eq.equal_iff other action_id,
  settled,
  pending,
  t,
)

settle-Tracks :
    (action_id other : String) (action : ActionRecord) (outcome : Settlement) (now : ℕ) (p : Plane)
    → Tracks action_id p
    → Tracks action_id (settle other action outcome now p)
unfolding settle
settle-Tracks action_id other action outcome now p t =
    settled-Tracks action_id other outcome p (settle other action outcome now p) refl refl t

timed_out-Tracks :
    (action_id other : String) (now : ℕ) (p : Plane)
    → Tracks action_id p
    → Tracks action_id (action_timed_out other now p)
unfolding action_timed_out
timed_out-Tracks action_id other now p t = elim (Option-cases (get other p.pending_actions)) [
  | inl e ↦ rw (e, action_timed_out) t
  | inr (action, e) ↦
      rw (e, action_timed_out)
        (settle-Tracks action_id other action (rejected agent_timeout) now p t)
]

answer-Tracks :
    (action_id : String) (verify_result : ActionResultEnvelope → String → Bool) (connection : ℕ)
    (result : ActionResultEnvelope) (now : ℕ) (p : Plane)
    → Tracks action_id p
    → Tracks action_id (handle_action_result verify_result connection result now p)
unfolding handle_action_result
answer-Tracks action_id verify_result connection result now p t =
    elim (Option-cases (get result.action_id p.pending_actions)) [
      | inl e ↦ rw (e, handle_action_result) t
      | inr (action, e) ↦
          let (outcome, settled, pending, _) =
            handle_action_result-Settles verify_result connection result now p action e in
          settled-Tracks action_id result.action_id outcome p
            (handle_action_result verify_result connection result now p) settled pending t
    ]

other-Tracks :
    (action_id : String) (connection : ℕ) (handle : Plane → Plane) (p : Plane)
    → Tracks action_id p
    → Tracks action_id (handle p)
    → Tracks action_id (handle_other_message connection handle p)
unfolding handle_other_message reject_before_hello reject_hello
other-Tracks action_id connection handle p t u =
    elim (Bool-cases (awaits_hello (get connection p.lifecycle.managed_connections))) [
      | inl e ↦ rw e t
      | inr e ↦ rw e u
    ]

message-Tracks :
    (action_id : String) (parse_date : String → Option ℤ)
    (verify_hello : AgentHelloEnvelope → String → Bool)
    (verify_result : ActionResultEnvelope → String → Bool) (connection : ℕ) (message : AgentMessage)
    (now : ℕ) (p : Plane)
    → Tracks action_id p
    → Tracks action_id
        (handle_agent_message parse_date verify_hello verify_result connection message now p)
unfolding handle_agent_message reject_hello
message-Tracks action_id parse_date verify_hello verify_result connection unreadable now p t = t
message-Tracks action_id parse_date verify_hello verify_result connection unknown now p t =
    other-Tracks action_id connection (reject_hello connection internal_error) p t t
message-Tracks action_id parse_date verify_hello verify_result connection (hello_message hello) now
      p t =
    ground (arith, hello-Untouched p now parse_date verify_hello connection hello, t)
message-Tracks action_id parse_date verify_hello verify_result connection (result_message result)
      now p t =
    other-Tracks action_id connection (handle_action_result verify_result connection result now) p t
      (answer-Tracks action_id verify_result connection result now p t)

send-Tracks :
    (action_id : String) (action : ActionRecord) (agent : RemoteAgentRecord)
    (live : AgentConnection) (p : Plane)
    → Tracks action_id p
    → Tracks action_id (send_action action agent live p).0
unfolding send_action insert_action
send-Tracks action_id action agent live p t =
    ground (arith, has-set action.id action_id action p.pending_actions)

dispatch-Tracks :
    (action_id : String) (config : ControlConfig) (principal : RemotePrincipal)
    (agent : RemoteAgentRecord) (request : ActionRequest) (now : ℕ) (p : Plane)
    → Tracks action_id p
    → Tracks action_id (dispatch_action config principal agent request now p).0
unfolding dispatch_action
dispatch-Tracks action_id config principal agent request now p t =
    elim (Option-cases (get agent.id p.agent_connections)) [
      | inl e ↦ ground arith
      | inr (live, e) ↦ ground (
        arith,
        send-Tracks action_id (requested_action config principal agent request now) agent live p t,
      )
    ]

tool-Tracks :
    (action_id : String) (config : ControlConfig) (principal : RemotePrincipal) (name : String)
    (request : ActionRequest) (now : ℕ) (p : Plane)
    → Tracks action_id p
    → Tracks action_id (call_agent_tool config principal name request now p).0
unfolding call_agent_tool
tool-Tracks action_id config principal name request now p t =
    elim (Option-cases (resolve_agent principal.user_id name p.store)) [
      | inl e ↦ ground arith
      | inr (agent, e) ↦
          ground (arith, dispatch-Tracks action_id config principal agent request now p t)
    ]

settle_ends :
    (action_id : String) (action : ActionRecord) (outcome : Settlement) (now : ℕ) (p : Plane)
    → (is_settled action_id (settle action_id action outcome now p) ≡ true)
      × (has action_id (settle action_id action outcome now p).pending_actions ≡ false)
unfolding settle
settle_ends action_id action outcome now p = ground (
  arith,
  any-append action_id p.settled ((action_id, outcome) ∷ []),
  has-delete action_id action_id p.pending_actions,
  ==_refl action_id,
)

no_longer_pending :
    (action_id : String) (p : Plane)
    → get action_id p.pending_actions ≡ none
    → Tracks action_id p
    → (is_settled action_id p ≡ true) × (has action_id p.pending_actions ≡ false)
unfolding has
no_longer_pending action_id p e t = ground (arith, e, t)

module _ (config : ControlConfig) (verifier : Verifier) (action_id : String) where
  receive-Tracks :
      (connection : ℕ) (message : AgentMessage) (now : ℕ) (p : Plane)
      → Tracks action_id p
      → Tracks action_id (receive config verifier connection message now p)
  receive-Tracks connection message now p t =
      message-Tracks action_id verifier.parse_date verifier.verify_hello verifier.verify_result
        connection message now p t

  step-Tracks :
      (event : Event) (p : Plane)
      → Tracks action_id p
      → Tracks action_id (step config verifier event p)
  unfolding step prune_expired_transient_records cleanup_ephemeral_state
  step-Tracks (creates_token principal alias policy id token_id token_hash now) p t =
      ground (arith, create-Untouched p now config principal alias policy id token_id token_hash, t)
  step-Tracks (enrolls token_hash public_key host now) p t =
      ground (arith, enroll-Untouched p now token_hash public_key host, t)
  step-Tracks (says_hello connection hello now) p t =
      receive-Tracks connection (hello_message hello) now p t
  step-Tracks (answers connection result now) p t =
      receive-Tracks connection (result_message result) now p t
  step-Tracks (closes_connection connection now) p t =
      ground (arith, closed-Untouched p now connection, t)
  step-Tracks (closes_unmanaged agent connection now) p t =
      ground (arith, live_closed-Untouched p now agent connection, t)
  step-Tracks (sends_garbage connection readable now) p t =
      receive-Tracks connection (if readable then unknown else unreadable) now p t
  step-Tracks (patches_policy principal agent merged now) p t =
      ground (arith, patch-Untouched p now config principal agent merged, t)
  step-Tracks (calls_tool principal name request now) p t =
      tool-Tracks action_id config principal name request now p t
  step-Tracks (times_out other now) p t = timed_out-Tracks action_id other now p t
  step-Tracks (updates_policy principal name merged now) p t =
      ground (arith, policy-Untouched p now config principal name merged, t)
  step-Tracks (revokes principal name now) p t =
      ground (arith, revoke-Untouched p now principal name, t)
  step-Tracks (removes principal name now) p t =
      ground (arith, remove-Untouched p now principal name, t)
  step-Tracks (cleans_up now) p t = t

  run-Tracks :
      (events : List Event) (p : Plane)
      → Tracks action_id p
      → Tracks action_id (run config verifier events p)
  unfolding run
  run-Tracks [] p t = t
  run-Tracks (event ∷ events) p t =
      run-Tracks events (step config verifier event p) (step-Tracks event p t)

  -- An action that is pending is settled at the latest when its timer fires: whatever events came
  -- before that, it has then ended, and is no longer pending.
  pub action_timed_out-settles :
      (events : List Event) (p : Plane) (now : ℕ)
      → has action_id p.pending_actions ≡ true
      → let q : Plane = action_timed_out action_id now (run config verifier events p) in
        (is_settled action_id q ≡ true) × (has action_id q.pending_actions ≡ false)
  unfolding action_timed_out
  action_timed_out-settles events p now pending =
      let q = run config verifier events p in
      let t = run-Tracks events p (inl pending) in
      elim (Option-cases (get action_id q.pending_actions)) [
        | inl e ↦ rw (e, action_timed_out) (no_longer_pending action_id q e t)
        | inr (action, e) ↦
            rw (e, action_timed_out) (settle_ends action_id action (rejected agent_timeout) now q)
      ]
