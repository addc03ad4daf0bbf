-- ===== src/Remote/ControlPlane/Consistency/Enrollment.antt =====
-- New agents and enrollment, src/remote/control-plane.ts, on a consistent state.
use ssh_mcp_pro.Base.{
  ℕ, ◌≡◌, inl, inr, refl, false, ◌||◌, String, string_eq, none, some, is_some, arith, ◌==◌,
  Option-cases, Bool-cases, ltb,
}
use ssh_mcp_pro.Table.{Table, get, has}
use ssh_mcp_pro.Remote.Types.{
  RemoteAgentRecord, AgentPolicy, AgentHostMetadata, AgentEnrollmentTokenRecord, RemotePrincipal,
  AgentStatus, agents_admin,
}
use ssh_mcp_pro.Remote.Scopes.{has_capability}
use ssh_mcp_pro.Remote.Store.{
  update_agent, get_agent, is_revoked, get_agent_by_alias, insert_agent, insert_enrollment_token,
  mark_enrollment_token_used, get_enrollment_token_by_hash,
}
use ssh_mcp_pro.Remote.AgentHandler.{Plane}
use ssh_mcp_pro.Remote.ControlPlane.{
  ControlConfig, create_enrollment_token, insert_pending_agent, pending_agent, issued_token,
  is_taken, handle_agent_enroll, enroll_with, enroll,
}
use ssh_mcp_pro.Remote.ControlPlane.Consistency.{Marks, IsConsistent}
use ssh_mcp_pro.Remote.ControlPlane.Consistency.Tokens.{
  add-Consistent, add_token-Consistent, enroll-Consistent,
}

get_absent : (id : String) (m : Table String RemoteAgentRecord) → has id m ≡ false → get id m ≡ none
unfolding has
get_absent id m h = ground (arith, h)

insert_pending_agent-IsConsistent :
    {m : Marks} (p : Plane) (config : ControlConfig) (agent : RemoteAgentRecord)
    (token_id token_hash : String) (now : ℕ)
    → IsConsistent m p
    → agent.public_key ≡ none
    → m.barred agent.id ≡ false
    → m.spent token_hash ≡ false
    → IsConsistent m (insert_pending_agent config agent token_id token_hash now p).0
unfolding insert_pending_agent insert_agent insert_enrollment_token has
insert_pending_agent-IsConsistent p config agent token_id token_hash now v no_key unbarred unspent =
    elim (Option-cases (get agent.id p.store.agents)) [
      | inr (row, e) ↦ rw (e, insert_pending_agent, insert_agent) v
      | inl new ↦ elim (Option-cases (get_agent_by_alias agent.user_id agent.alias p.store)) [
        | inr (row, e) ↦ rw (new, e, insert_pending_agent, insert_agent) v
        | inl free ↦ elim (Option-cases (get token_hash p.store.enrollment_tokens)) [
          | inr (row, e) ↦
              rw (new, free, e, insert_pending_agent, insert_agent, insert_enrollment_token)
                (add-Consistent _ _ _ agent v new no_key unbarred)
          | inl fresh ↦
              rw (new, free, fresh, insert_pending_agent, insert_agent, insert_enrollment_token)
                (add_token-Consistent _ _ _ agent v new no_key unbarred
                  (issued_token config agent token_id token_hash now) fresh unspent refl refl)
        ]
      ]
    ]

pub create_enrollment_token-IsConsistent :
    {m : Marks} (p : Plane) (config : ControlConfig) (principal : RemotePrincipal) (alias : String)
    (policy : AgentPolicy) (id token_id token_hash : String) (now : ℕ)
    → IsConsistent m p
    → m.barred id ≡ false
    → m.spent token_hash ≡ false
    → IsConsistent m
        (create_enrollment_token config principal alias policy id token_id token_hash now p).0
unfolding create_enrollment_token
create_enrollment_token-IsConsistent p config principal alias policy id token_id token_hash now v
      unbarred unspent =
    elim (Bool-cases (has_capability principal.capabilities agents_admin)) [
      | inr e ↦ rw (e, create_enrollment_token) v
      | inl e ↦ elim (Bool-cases (alias == "")) [
        | inl empty ↦ rw (e, empty, create_enrollment_token) v
        | inr named ↦
            elim (Bool-cases (is_taken (get_agent_by_alias principal.user_id alias p.store))) [
              | inl taken ↦ rw (e, named, taken, create_enrollment_token) v
              | inr free ↦
                  rw (e, named, free, create_enrollment_token)
                    (insert_pending_agent-IsConsistent p config
                      (pending_agent principal id alias policy now) token_id token_hash now v refl
                      unbarred unspent)
            ]
      ]
    ]

module _ {m : Marks} (p : Plane) (v : IsConsistent m p) (enrollment : AgentEnrollmentTokenRecord)
    (public_key : String) (host : AgentHostMetadata) (now : ℕ)
    (issued : get enrollment.token_hash p.store.enrollment_tokens ≡ some enrollment) where
  enroll-IsConsistent :
      (agent : RemoteAgentRecord)
      → enrollment.agent_id ≡ agent.id
      → get agent.id p.store.agents ≡ some agent
      → enrollment.used_at ≡ none
      → is_revoked agent.status ≡ false
      → IsConsistent m (enroll enrollment agent public_key host now p).0
  unfolding enroll mark_enrollment_token_used update_agent
  enroll-IsConsistent agent same at unused welcome =
      rw (issued, enroll, mark_enrollment_token_used)
        (rw (unused, at, enroll, mark_enrollment_token_used, update_agent)
          (enroll-Consistent p.store.agents p.store.enrollment_tokens p.agent_connections agent
            (record agent {
              status = AgentStatus.offline;
              public_key = some public_key;
              host_metadata = some host;
              updated_at = now;
            })
            enrollment (record enrollment { used_at = some now }) v at refl issued refl refl unused
            refl same welcome))

  enroll_with-IsConsistent : IsConsistent m (enroll_with enrollment public_key host now p).0
  unfolding enroll_with get_agent
  enroll_with-IsConsistent =
      elim (Bool-cases (is_some enrollment.used_at || ltb enrollment.expires_at now)) [
        | inl e ↦ rw (e, enroll_with) v
        | inr e ↦ elim (Option-cases (get enrollment.agent_id p.store.agents)) [
          | inl unknown ↦ rw (e, unknown, enroll_with) v
          | inr (agent, at) ↦
              let own = v.keyed enrollment.agent_id in
              elim (Bool-cases (is_revoked agent.status)) [
                | inl r ↦ rw (e, at, r, enroll_with) v
                | inr r ↦
                    rw (e, at, r, enroll_with)
                      (enroll-IsConsistent agent (ground (arith, own)) (ground (arith, own))
                        (ground arith) r)
              ]
        ]
      ]

pub handle_agent_enroll-IsConsistent :
    {m : Marks} (p : Plane) (token_hash public_key : String) (host : AgentHostMetadata) (now : ℕ)
    → IsConsistent m p
    → IsConsistent m (handle_agent_enroll token_hash public_key host now p).0
unfolding handle_agent_enroll get_enrollment_token_by_hash
handle_agent_enroll-IsConsistent p token_hash public_key host now v =
    elim (Option-cases (get token_hash p.store.enrollment_tokens)) [
      | inl e ↦ rw (e, handle_agent_enroll) v
      | inr (enrollment, e) ↦
          rw (e, handle_agent_enroll)
            (enroll_with-IsConsistent p v enrollment public_key host now
              (ground (arith, v.issued token_hash)))
    ]
