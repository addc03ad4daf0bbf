-- ===== src/Remote/ControlPlane/Consistency/Agents.antt =====
-- A change of one agent's row that keeps its owner, with the live connections it comes with.
use ssh_mcp_pro.Base.{◌≡◌, ◌⊎◌, refl, true, false, String, string_eq, Option, none, some, arith}
use ssh_mcp_pro.Table.{Table, get, set, delete, has, get-set, has-set, has-delete, set-IsMap}
use ssh_mcp_pro.Remote.Types.{RemoteAgentRecord, AgentEnrollmentTokenRecord}
use ssh_mcp_pro.Remote.Store.{Store, update_agent, is_revoked}
use ssh_mcp_pro.Remote.AgentHandler.{AgentConnection}
use ssh_mcp_pro.Remote.ControlPlane.Consistency.{
  Marks, Agents, Tokens, IsKeyed, IsOnline, IsIssued, IsLive, Consistent,
}

-- The change does not bring a revoked agent back.
abbrev pub IsLasting : Marks → RemoteAgentRecord → RemoteAgentRecord → Type 0
IsLasting m row agent =
    (m.barred agent.id ≡ false)
    ⊎ ((is_revoked row.status ≡ false) ⊎ (is_revoked agent.status ≡ true))

module _ {m : Marks} (agents : Agents) (tokens : Tokens)
    (connections : Table String AgentConnection) (row agent : RemoteAgentRecord)
    (v : Consistent m agents tokens connections) (at : get agent.id agents ≡ some row)
    (same_user : agent.user_id ≡ row.user_id)
    (same_key : (m.tracked agent.id ≡ false) ⊎ (agent.public_key ≡ row.public_key))
    (lasting : IsLasting m row agent) where
  IsKeyed-set : (k : String) → IsKeyed k (get k (set agent.id agent agents))
  IsKeyed-set k =
      ground (arith, get-set agent.id k agent agents, v.keyed k, string_eq.equal_iff agent.id k)

  IsIssued-set :
      (h : String) (token : Option AgentEnrollmentTokenRecord)
      → IsIssued m.tracked h agents token
      → IsIssued m.tracked h (set agent.id agent agents) token
  IsIssued-set h none i = tt
  IsIssued-set h (some token) i = ground (
    arith,
    get-set agent.id token.agent_id agent agents,
    string_eq.equal_iff agent.id token.agent_id,
    at,
    same_user,
    same_key,
    i,
  )

  set_agent-Consistent :
      (next : Table String AgentConnection)
      → ((k : String) → IsLive m next (set agent.id agent agents) k)
      → ((k : String) → (m.barred k ≡ false) ⊎ ((has k connections ≡ true) ⊎ (has k next ≡ false)))
      → Consistent m (set agent.id agent agents) tokens next
  set_agent-Consistent next live calm = record {
    keyed = IsKeyed-set;
    agent_map = set-IsMap agent.id agent agents v.agent_map;
    token_map = v.token_map;
    issued = λ h. IsIssued-set h (get h tokens) (v.issued h);
    single = v.single;
    live = live;
    barred = λ k. ground (
      arith,
      get-set agent.id k agent agents,
      string_eq.equal_iff agent.id k,
      v.barred k,
      calm k,
      at,
      lasting,
    );
    spent = v.spent;
  }

  -- The agent goes online on a connection.
  online-Consistent :
      (live : AgentConnection)
      → IsOnline (some agent)
      → is_revoked row.status ≡ false
      → Consistent m (set agent.id agent agents) tokens (set agent.id live connections)
  online-Consistent live o welcome =
      set_agent-Consistent (set agent.id live connections)
        (λ k. ground (
          arith,
          get-set agent.id k agent agents,
          has-set agent.id k live connections,
          v.live k,
          string_eq.equal_iff agent.id k,
          o,
        ))
        (λ k. ground (
          arith,
          has-set agent.id k live connections,
          v.barred k,
          string_eq.equal_iff agent.id k,
          at,
          welcome,
        ))

  -- Its connection goes.
  away-Consistent : Consistent m (set agent.id agent agents) tokens (delete agent.id connections)
  away-Consistent =
      set_agent-Consistent (delete agent.id connections)
        (λ k. ground (
          arith,
          get-set agent.id k agent agents,
          has-delete agent.id k connections,
          v.live k,
          string_eq.equal_iff agent.id k,
        ))
        (λ k. ground (arith, has-delete agent.id k connections, v.barred k))

  -- Its status stays, if it is tracked.
  kept-Consistent :
      (m.tracked agent.id ≡ false) ⊎ (agent.status ≡ row.status)
      → Consistent m (set agent.id agent agents) tokens connections
  kept-Consistent same_status =
      set_agent-Consistent connections
        (λ k. ground (
          arith,
          get-set agent.id k agent agents,
          v.live k,
          string_eq.equal_iff agent.id k,
          at,
          same_status,
          same_key,
        ))
        (λ k. ground (arith, v.barred k))

-- The same, by the statement of the store.
module _ {m : Marks} (s : Store) (connections : Table String AgentConnection)
    (row agent : RemoteAgentRecord) (v : Consistent m s.agents s.enrollment_tokens connections)
    (at : get agent.id s.agents ≡ some row)
    (same_key : (m.tracked agent.id ≡ false) ⊎ (agent.public_key ≡ row.public_key))
    (lasting : IsLasting m row agent) where
  pub update-online :
      (live : AgentConnection)
      → IsOnline (some agent)
      → is_revoked row.status ≡ false
      → Consistent m
          (update_agent agent s).agents
          (update_agent agent s).enrollment_tokens
          (set agent.id live connections)
  unfolding update_agent
  update-online live o welcome =
      rw (at, update_agent)
        (online-Consistent s.agents s.enrollment_tokens connections row
          (record agent { user_id = row.user_id; created_at = row.created_at }) v at refl same_key
          lasting live o welcome)

  pub update-away :
      Consistent m
        (update_agent agent s).agents
        (update_agent agent s).enrollment_tokens
        (delete agent.id connections)
  unfolding update_agent
  update-away =
      rw (at, update_agent)
        (away-Consistent s.agents s.enrollment_tokens connections row
          (record agent { user_id = row.user_id; created_at = row.created_at }) v at refl same_key
          lasting)

  pub update-kept :
      (m.tracked agent.id ≡ false) ⊎ (agent.status ≡ row.status)
      → Consistent m
          (update_agent agent s).agents
          (update_agent agent s).enrollment_tokens
          connections
  unfolding update_agent
  update-kept same_status =
      rw (at, update_agent)
        (kept-Consistent s.agents s.enrollment_tokens connections row
          (record agent { user_id = row.user_id; created_at = row.created_at }) v at refl same_key
          lasting same_status)

-- The row is gone.
pub update-absent :
    {m : Marks} (s : Store) (connections : Table String AgentConnection) (agent : RemoteAgentRecord)
    → get agent.id s.agents ≡ none
    → Consistent m s.agents s.enrollment_tokens connections
    → Consistent m
        (update_agent agent s).agents
        (update_agent agent s).enrollment_tokens
        connections
unfolding update_agent
update-absent s connections agent gone v = rw (gone, update_agent) v
