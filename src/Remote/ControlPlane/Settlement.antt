-- ===== src/Remote/ControlPlane/Settlement.antt =====
-- How an action ends, src/remote/agent-handler.ts and src/remote/control-plane.ts.
use ssh_mcp_pro.Base.{
  ℕ, ◌&&◌, Bool-cases, Option-cases, inl, inr, ap, ◌≡◌, ◌↔◌, refl, true, false, String, string_eq,
  nat_eq, some, none, arith, ◌==◌, List, [], ◌∷◌, ◌++◌, Bool,
}
use ssh_mcp_pro.Table.{get, set, delete}
use ssh_mcp_pro.Remote.Store.{AuditEventType}
use ssh_mcp_pro.Remote.Types.{
  RemoteErrorCode, action_replay_detected, signature_invalid, internal_error, ActionResultEnvelope,
  ActionRecord,
}
use ssh_mcp_pro.Remote.Nonces.{has_seen_nonce}
use ssh_mcp_pro.Remote.AgentHandler.{
  Plane, AgentConnection, Settlement, resolved, rejected, handle_action_result, answer_signed,
  answer_live, reject_pending_action, settle, is_signed, public_key_of,
}

-- The action is settled once, is no longer pending, and ends with the result exactly if `C` holds.
abbrev pub Settles : Plane → ActionResultEnvelope → Plane → Type 0 → Type 0
Settles p result after C =
    (outcome : Settlement) × (after.settled ≡ p.settled ++ (result.action_id, outcome) ∷ [])
    × (after.pending_actions ≡ delete result.action_id p.pending_actions)
    × ((outcome ≡ resolved result) ↔ C)

-- The result comes on the live connection of the agent, with a new nonce.
unfoldable pub ComesLive : ℕ → ActionResultEnvelope → ℕ → Plane → Type 0
ComesLive connection result now p =
    (live : AgentConnection) × (get result.agent_id p.agent_connections ≡ some live)
    × (live.connection ≡ connection)
    × ((has_seen_nonce live.seen_nonces result.nonce now).1 ≡ false)

module _ (connection : ℕ) (result : ActionResultEnvelope) (now : ℕ) (p : Plane)
    (action : ActionRecord) where
  rejects-Settles :
      (q : Plane) (event_type : AuditEventType) (code : RemoteErrorCode) {C : Type 0}
      → q.settled ≡ p.settled
      → q.pending_actions ≡ p.pending_actions
      → ¬ C
      → Settles p result (reject_pending_action result.action_id action event_type code now q) C
  unfolding reject_pending_action settle
  rejects-Settles q event_type code same_settled same_pending refuted = (
    rejected code,
    ap (λ (l : List (String × Settlement)). l ++ (result.action_id, rejected code) ∷ [])
        same_settled,
    ap (delete result.action_id) same_pending,
    (λ e. absurd (ground arith), λ c. absurd (refuted c)),
  )

  answer_live-Settles :
      (live : AgentConnection)
      → get result.agent_id p.agent_connections ≡ some live
      → live.connection ≡ connection
      → Settles p result (answer_live live result action now p) (ComesLive connection result now p)
  unfolding answer_live settle ComesLive
  answer_live-Settles live at same =
      elim (Bool-cases (has_seen_nonce live.seen_nonces result.nonce now).1) [
        | inl seen ↦
            let window = (has_seen_nonce live.seen_nonces result.nonce now).0 in
            let q : Plane = record p {
              agent_connections =
                  set result.agent_id (record live { seen_nonces = window }) p.agent_connections;
            } in
            rw seen (
              rejects-Settles q AuditEventType.agent_result_replay_detected action_replay_detected
                refl refl (λ (l, e, c, n). ground arith))
        | inr new ↦ rw new (resolved result, refl, refl, (λ e. (live, at, same, new), λ c. refl))
      ]

  none_live : get result.agent_id p.agent_connections ≡ none → ¬ ComesLive connection result now p
  unfolding ComesLive
  none_live e (live, at, same, new) = ground (arith, e, at)

  other_live :
      (live : AgentConnection)
      → get result.agent_id p.agent_connections ≡ some live
      → (action.agent_id == result.agent_id && live.connection == connection) ≡ false
      → ¬ ((action.agent_id ≡ result.agent_id) × ComesLive connection result now p)
  unfolding ComesLive
  other_live live e other (same_agent, (found, at, same, new)) = ground (
    arith,
    string_eq.equal_iff action.agent_id result.agent_id,
    nat_eq.equal_iff live.connection connection,
    e,
    at,
  )

  answer_signed-Settles :
      Settles p result
        (answer_signed connection result action now p)
        ((action.agent_id ≡ result.agent_id) × ComesLive connection result now p)
  unfolding answer_signed
  answer_signed-Settles = elim (Option-cases (get result.agent_id p.agent_connections)) [
    | inl e ↦
        rw (e, answer_signed)
          (rejects-Settles p AuditEventType.agent_result_connection_invalid signature_invalid refl
            refl (λ c. absurd (none_live e c.1)))
    | inr (live, e) ↦
        elim (Bool-cases (action.agent_id == result.agent_id && live.connection == connection)) [
          | inl ours ↦
              let (outcome, settled, pending, (to, from)) =
                answer_live-Settles live e
                  (ground (arith, nat_eq.equal_iff live.connection connection)) in
              rw (e, answer_signed)
                (rw ours (
                  outcome,
                  settled,
                  pending,
                  (
                    λ o.
                        (ground (arith, string_eq.equal_iff action.agent_id result.agent_id), to o),
                    λ c. from c.1,
                  ),
                ))
          | inr other ↦
              rw (e, answer_signed)
                (rw other (
                  rejects-Settles p AuditEventType.agent_result_connection_invalid signature_invalid
                    refl refl (other_live live e other)))
        ]
  ]

-- A result settles the action with itself exactly when it is signed with the stored key of the agent
-- that the action was sent to, comes on that agent's live connection and has a new nonce; any other
-- result for a pending action settles it with an error. Either way the action is settled once and is
-- no longer pending.
pub handle_action_result-Settles :
    (verify_result : ActionResultEnvelope → String → Bool) (connection : ℕ)
    (result : ActionResultEnvelope) (now : ℕ) (p : Plane) (action : ActionRecord)
    → get result.action_id p.pending_actions ≡ some action
    → Settles p result (handle_action_result verify_result connection result now p) (
        (is_signed verify_result result (public_key_of result.agent_id p.store) ≡ true)
        × ((action.agent_id ≡ result.agent_id) × ComesLive connection result now p))
unfolding handle_action_result
handle_action_result-Settles verify_result connection result now p action e =
    elim (Bool-cases (is_signed verify_result result (public_key_of result.agent_id p.store))) [
      | inl signed ↦
          let (outcome, settled, pending, (to, from)) =
            answer_signed-Settles connection result now p action in
          rw (e, handle_action_result)
            (rw signed (outcome, settled, pending, (λ o. (refl, to o), λ c. from c.1)))
      | inr unsigned ↦
          rw (e, handle_action_result)
            (rw unsigned (
              rejects-Settles connection result now p action p
                AuditEventType.agent_result_signature_invalid internal_error refl refl
                (λ c. ground arith)))
    ]
