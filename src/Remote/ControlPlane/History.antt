-- ===== src/Remote/ControlPlane/History.antt =====
-- What holds after any events at the control plane of src/remote/control-plane.ts.
use ssh_mcp_pro.Base.{
  ℕ, ◌==◌, ==_refl, ◌≡◌, inl, inr, refl, true, false, String, string_eq, List, [], ◌∷◌, some,
  is_some, arith, not, leb, Option-cases, All, Bool, ◌⊎◌, Option, none, if◌then◌else◌,
}
use ssh_mcp_pro.Table.{get, has, get-set}
use ssh_mcp_pro.Remote.Types.{
  AgentHostMetadata, invalid_token, RemoteAgentRecord, AgentEnrollmentTokenRecord, online,
}
use ssh_mcp_pro.Remote.Store.{
  prune_expired_transient_records, is_revoked, get_enrollment_token_by_hash,
  mark_enrollment_token_used, update_agent, get_agent,
}
use ssh_mcp_pro.Remote.AgentHandler.{
  Plane, cleanup_ephemeral_state, AgentMessage, hello_message, result_message, unknown, unreadable,
}
use ssh_mcp_pro.Remote.AgentHandler.Replay.{has-cleanup_ephemeral_state}
use ssh_mcp_pro.Remote.ControlPlane.{
  ControlConfig, done, refused, handle_agent_enroll, enroll_with, enroll,
}
use ssh_mcp_pro.Remote.ControlPlane.Events.{
  Event, Verifier, step, run, creates_token, enrolls, says_hello, answers, closes_connection,
  closes_unmanaged, sends_garbage, calls_tool, times_out, updates_policy, patches_policy, receive,
  revokes, removes, cleans_up,
}
use ssh_mcp_pro.Remote.ControlPlane.Consistency.{
  Marks, Agents, IsIssued, IsSpent, IsConsistent, same_live-Consistent,
}
use ssh_mcp_pro.Remote.ControlPlane.Consistency.Tokens.{filter-Consistent}
use ssh_mcp_pro.Remote.ControlPlane.Consistency.Results.{
  handle_agent_message-IsConsistent, handle_live_connection_closed-IsConsistent,
  connection_closed-IsConsistent,
}
use ssh_mcp_pro.Remote.ControlPlane.Consistency.Requests.{
  action_timed_out-IsConsistent, call_agent_tool-IsConsistent, Agrees, stale_policy-IsConsistent,
  call_update_agent_policy-IsConsistent, call_revoke_agent-IsConsistent,
  handle_api_remove_device-IsConsistent,
}
use ssh_mcp_pro.Remote.ControlPlane.Consistency.Enrollment.{
  create_enrollment_token-IsConsistent, handle_agent_enroll-IsConsistent,
}

-- A new agent takes no marked identifier, a new token no marked hash, and a request to change the
-- policy of a marked agent has read it after the revocation.
abbrev pub IsFresh : Marks → Event → Type 0
IsFresh m (creates_token principal alias policy id token_id token_hash now) =
    (m.barred id ≡ false) × (m.spent token_hash ≡ false)
IsFresh m (patches_policy principal agent merged now) =
    (m.barred agent.id ≡ false) ⊎ (is_revoked agent.status ≡ true)
IsFresh m _ = Unit

-- A record that a request to change a policy writes back has, where its agent is tracked, the status
-- and the key that the row has by then.
abbrev pub IsTimely : (String → Bool) → Event → Plane → Type 0
IsTimely tracked (patches_policy principal agent merged now) p =
    (tracked agent.id ≡ false) ⊎ Agrees agent (get agent.id p.store.agents)
IsTimely tracked _ p = Unit

-- So do all, each in the state that it comes to.
abbrev pub AreTimely : ControlConfig → Verifier → (String → Bool) → List Event → Plane → Type 0
AreTimely config verifier tracked [] p = Unit
AreTimely config verifier tracked (event ∷ events) p =
    IsTimely tracked event p
    × AreTimely config verifier tracked events (step config verifier event p)

module _ {m : Marks} (config : ControlConfig) (verifier : Verifier) where
  receive-IsConsistent :
      (p : Plane)
      → IsConsistent m p
      → (now connection : ℕ) (message : AgentMessage)
      → IsConsistent m (receive config verifier connection message now p)
  receive-IsConsistent p v now connection message =
      handle_agent_message-IsConsistent p v now verifier.parse_date verifier.verify_hello
        verifier.verify_result connection message

  step-IsConsistent :
      (event : Event) (p : Plane)
      → IsConsistent m p
      → IsFresh m event
      → IsTimely m.tracked event p
      → IsConsistent m (step config verifier event p)
  unfolding step prune_expired_transient_records cleanup_ephemeral_state
  step-IsConsistent (creates_token principal alias policy id token_id token_hash now) p v f t =
      create_enrollment_token-IsConsistent p config principal alias policy id token_id token_hash
        now v f.0 f.1
  step-IsConsistent (enrolls token_hash public_key host now) p v f t =
      handle_agent_enroll-IsConsistent p token_hash public_key host now v
  step-IsConsistent (says_hello connection hello now) p v f t =
      receive-IsConsistent p v now connection (hello_message hello)
  step-IsConsistent (answers connection result now) p v f t =
      receive-IsConsistent p v now connection (result_message result)
  step-IsConsistent (closes_connection connection now) p v f t =
      connection_closed-IsConsistent p v now connection
  step-IsConsistent (closes_unmanaged agent connection now) p v f t =
      handle_live_connection_closed-IsConsistent p v now agent connection
  step-IsConsistent (sends_garbage connection readable now) p v f t =
      receive-IsConsistent p v now connection (if readable then unknown else unreadable)
  step-IsConsistent (calls_tool principal name request now) p v f t =
      call_agent_tool-IsConsistent p v now config principal name request
  step-IsConsistent (times_out action_id now) p v f t =
      action_timed_out-IsConsistent p v now action_id
  step-IsConsistent (updates_policy principal name merged now) p v f t =
      call_update_agent_policy-IsConsistent p v principal now config name merged
  step-IsConsistent (patches_policy principal agent merged now) p v f t =
      stale_policy-IsConsistent p v principal now config agent merged f t
  step-IsConsistent (revokes principal name now) p v f t =
      call_revoke_agent-IsConsistent p v principal now name
  step-IsConsistent (removes principal name now) p v f t =
      handle_api_remove_device-IsConsistent principal p name now v
  step-IsConsistent (cleans_up now) p v f t =
      filter-Consistent _ _ _
        (same_live-Consistent _ _ _ _ v (λ id. has-cleanup_ephemeral_state now p id))
        (λ (row : String × AgentEnrollmentTokenRecord). not (leb row.1.expires_at now))

  run-IsConsistent :
      (events : List Event) (p : Plane)
      → IsConsistent m p
      → All (IsFresh m) events
      → AreTimely config verifier m.tracked events p
      → IsConsistent m (run config verifier events p)
  unfolding run
  run-IsConsistent [] p v f t = v
  run-IsConsistent (event ∷ events) p v f t =
      run-IsConsistent events (step config verifier event p) (step-IsConsistent event p v f.0 t.0)
        f.1 t.1

abbrev pub unmarked : Marks
unmarked = record { tracked = λ id. true; barred = λ id. false; spent = λ token_hash. false }

abbrev pub tracking : String → Marks
tracking agent_id = record {
  tracked = λ id. id == agent_id;
  barred = λ id. false;
  spent = λ token_hash. false;
}

event-IsFresh : (agent_id : String) (event : Event) → IsFresh (tracking agent_id) event
event-IsFresh k (creates_token principal alias policy id token_id token_hash now) = (refl, refl)
event-IsFresh k (patches_policy principal agent merged now) = inl refl
event-IsFresh k _ = tt

tracking-IsFresh :
    (agent_id : String) (events : List Event) → All (IsFresh (tracking agent_id)) events
tracking-IsFresh k [] = tt
tracking-IsFresh k (event ∷ events) = (event-IsFresh k event, tracking-IsFresh k events)

abbrev none_tracked : String → Bool
none_tracked id = false

event-IsTimely : (event : Event) (p : Plane) → IsTimely none_tracked event p
event-IsTimely (patches_policy principal agent merged now) p = inl refl
event-IsTimely _ p = tt

none_tracked-AreTimely :
    (config : ControlConfig) (verifier : Verifier) (events : List Event) (p : Plane)
    → AreTimely config verifier none_tracked events p
none_tracked-AreTimely config verifier [] p = tt
none_tracked-AreTimely config verifier (event ∷ events) p = (
  event-IsTimely event p,
  none_tracked-AreTimely config verifier events (step config verifier event p),
)

abbrev pub barring : String → Marks
barring agent_id = record {
  tracked = none_tracked;
  barred = λ id. id == agent_id;
  spent = λ token_hash. false;
}

abbrev pub spending : String → Marks
spending spent_hash = record {
  tracked = none_tracked;
  barred = λ id. false;
  spent = λ token_hash. token_hash == spent_hash;
}

IsIssued-fewer :
    (tracked : String → Bool) (h : String) (agents : Agents)
    (token : Option AgentEnrollmentTokenRecord)
    → IsIssued (λ id. true) h agents token
    → IsIssued tracked h agents token
IsIssued-fewer tracked h agents none i = tt
IsIssued-fewer tracked h agents (some token) i = ground (arith, i)

-- Fewer agents are tracked.
fewer-IsConsistent :
    (tracked : String → Bool) (p : Plane)
    → IsConsistent unmarked p
    → IsConsistent (record unmarked { tracked = tracked }) p
fewer-IsConsistent tracked p v = record {
  keyed = v.keyed;
  agent_map = v.agent_map;
  token_map = v.token_map;
  issued =
      λ h. IsIssued-fewer tracked h p.store.agents (get h p.store.enrollment_tokens) (v.issued h);
  single = v.single;
  live = λ id. ground (arith, v.live id);
  barred = λ id. inl refl;
  spent = λ h. inl refl;
}

spent-refused :
    (p : Plane) (token_hash key : String) (host : AgentHostMetadata) (now : ℕ)
    → IsSpent (get token_hash p.store.enrollment_tokens)
    → (handle_agent_enroll token_hash key host now p).1 ≡ refused invalid_token
unfolding handle_agent_enroll enroll_with get_enrollment_token_by_hash
spent-refused p token_hash key host now h = ground arith

enroll-IsSpent :
    (p : Plane) (enrollment : AgentEnrollmentTokenRecord) (key : String) (host : AgentHostMetadata)
    (now : ℕ) (agent updated : RemoteAgentRecord)
    → (enroll enrollment agent key host now p).1 ≡ done updated
    → IsSpent (
        get enrollment.token_hash
          (enroll enrollment agent key host now p).0.store.enrollment_tokens)
unfolding enroll mark_enrollment_token_used update_agent
enroll-IsSpent p enrollment key host now agent updated accepted =
    elim (Option-cases (get enrollment.token_hash p.store.enrollment_tokens)) [
      | inl e ↦ absurd (ground arith)
      | inr (token, e) ↦ ground (
        arith,
        get-set enrollment.token_hash enrollment.token_hash (record token { used_at = some now })
            p.store.enrollment_tokens,
        ==_refl enrollment.token_hash,
      )
    ]

enroll_with-IsSpent :
    (p : Plane) (enrollment : AgentEnrollmentTokenRecord) (key : String) (host : AgentHostMetadata)
    (now : ℕ) (updated : RemoteAgentRecord)
    → (enroll_with enrollment key host now p).1 ≡ done updated
    → IsSpent (
        get enrollment.token_hash (enroll_with enrollment key host now p).0.store.enrollment_tokens)
unfolding enroll_with get_agent
enroll_with-IsSpent p enrollment key host now updated accepted =
    elim (Option-cases (get enrollment.agent_id p.store.agents)) [
      | inl e ↦ absurd (ground arith)
      | inr (agent, e) ↦ ground (arith, enroll-IsSpent p enrollment key host now agent updated)
    ]

enrolled-IsSpent :
    (p : Plane) (token_hash key : String) (host : AgentHostMetadata) (now : ℕ)
    (agent : RemoteAgentRecord)
    → IsConsistent unmarked p
    → (handle_agent_enroll token_hash key host now p).1 ≡ done agent
    → IsSpent
        (get token_hash (handle_agent_enroll token_hash key host now p).0.store.enrollment_tokens)
unfolding handle_agent_enroll get_enrollment_token_by_hash
enrolled-IsSpent p token_hash key host now agent v accepted =
    elim (Option-cases (get token_hash p.store.enrollment_tokens)) [
      | inl e ↦ absurd (ground arith)
      | inr (token, e) ↦
          ground (arith, v.issued token_hash, enroll_with-IsSpent p token key host now agent)
    ]

enrolled-IsConsistent :
    (p : Plane) (token_hash key : String) (host : AgentHostMetadata) (now : ℕ)
    (agent : RemoteAgentRecord)
    → IsConsistent unmarked p
    → (handle_agent_enroll token_hash key host now p).1 ≡ done agent
    → IsConsistent (spending token_hash) (handle_agent_enroll token_hash key host now p).0
enrolled-IsConsistent p token_hash key host now agent v accepted =
    let w =
      handle_agent_enroll-IsConsistent p token_hash key host now
        (fewer-IsConsistent none_tracked p v) in
    let used = enrolled-IsSpent p token_hash key host now agent v accepted in
    record {
      keyed = w.keyed;
      agent_map = w.agent_map;
      token_map = w.token_map;
      issued = w.issued;
      single = w.single;
      live = w.live;
      barred = λ id. inl refl;
      spent = λ h. ground (arith, string_eq.equal_iff h token_hash, used);
    }

module _ (config : ControlConfig) (verifier : Verifier) where
  -- Whatever events arrive, in whatever order, an agent that has a live connection is stored as
  -- online and with a public key, so it is enrolled and not revoked, if this and the bookkeeping of
  -- enrollment tokens held before, and if each request that waited for its body before it changes the
  -- policy of this agent writes back a record whose status and key are those that the agent's row
  -- has by then.
  pub run-live :
      (events : List Event) (p : Plane) (agent_id : String)
      → IsConsistent unmarked p
      → AreTimely config verifier (λ id. id == agent_id) events p
      → has agent_id (run config verifier events p).agent_connections ≡ true
      → (agent : RemoteAgentRecord) × (get agent_id (run config verifier events p).store.agents
          ≡ some agent)
        × (agent.id ≡ agent_id)
        × (agent.status ≡ online)
        × (is_some agent.public_key ≡ true)
  run-live events p agent_id v timely live =
      let end = run config verifier events p in
      let w =
        run-IsConsistent {m = tracking agent_id} config verifier events p
          (fewer-IsConsistent (λ id. id == agent_id) p v) (tracking-IsFresh agent_id events)
          timely in
      elim (Option-cases (get agent_id end.store.agents)) [
        | inl e ↦ absurd (ground (arith, w.live agent_id, ==_refl agent_id))
        | inr (agent, e) ↦
            let own = w.keyed agent_id in
            let ok = w.live agent_id in
            (
              agent,
              e,
              ground (arith, own),
              ground (arith, ok, ==_refl agent_id),
              ground (arith, ok, ==_refl agent_id),
            )
      ]

  -- A token enrolls at most once: after it has been accepted, it is refused whatever events come
  -- between, as long as no new token has the same hash.
  pub run-enrolled_once :
      (events : List Event) (p : Plane) (token_hash key key' : String)
      (host host' : AgentHostMetadata) (now later : ℕ) (agent : RemoteAgentRecord)
      → IsConsistent unmarked p
      → (handle_agent_enroll token_hash key host now p).1 ≡ done agent
      → All (IsFresh (spending token_hash)) events
      → (handle_agent_enroll token_hash key' host' later
          (run config verifier events (handle_agent_enroll token_hash key host now p).0)).1
        ≡ refused invalid_token
  run-enrolled_once events p token_hash key key' host host' now later agent v accepted fresh =
      let w =
        run-IsConsistent config verifier events (handle_agent_enroll token_hash key host now p).0
          (enrolled-IsConsistent p token_hash key host now agent v accepted) fresh
          (none_tracked-AreTimely config verifier events _) in
      spent-refused _ token_hash key' host' later
        (ground (arith, ==_refl token_hash, w.spent token_hash))
