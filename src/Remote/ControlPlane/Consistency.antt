-- ===== src/Remote/ControlPlane/Consistency.antt =====
-- What holds of the agents, the enrollment tokens and the live connections of
-- src/remote/control-plane.ts, and how changes of one row bear on it.
pub mod Agents
pub mod Tokens
pub mod Handler
pub mod Results
pub mod Requests
pub mod Enrollment
use ssh_mcp_pro.Base.{
  ◌≡◌, ◌≢◌, ◌⊎◌, inl, inr, Bool, true, false, String, string_eq, Option, none, some, is_some, arith,
  ◌==◌, if◌then◌else◌, Option-cases, Bool-cases,
}
use ssh_mcp_pro.Table.{Table, get, set, delete, has, IsMap, get-set, has-delete}
use ssh_mcp_pro.Remote.Types.{RemoteAgentRecord, AgentEnrollmentTokenRecord, online}
use ssh_mcp_pro.Remote.Store.{is_revoked}
use ssh_mcp_pro.Remote.AgentHandler.{AgentConnection, Plane}

abbrev pub Agents : Type 0
Agents = Table String RemoteAgentRecord

abbrev pub Tokens : Type 0
Tokens = Table String AgentEnrollmentTokenRecord

abbrev pub IsKeyed : String → Option RemoteAgentRecord → Type 0
IsKeyed id none = Unit
IsKeyed id (some agent) = agent.id ≡ id

-- Online, and enrolled with a key.
abbrev pub IsOnline : Option RemoteAgentRecord → Type 0
IsOnline none = ⊥
IsOnline (some agent) = (agent.status ≡ online) × (is_some agent.public_key ≡ true)

abbrev pub IsOwnedBy : String → Option RemoteAgentRecord → Type 0
IsOwnedBy user_id none = ⊥
IsOwnedBy user_id (some agent) = agent.user_id ≡ user_id

abbrev pub key_in : Option RemoteAgentRecord → Option String
key_in none = none
key_in (some agent) = agent.public_key

-- The token is for an agent of the same owner, and is used if that agent is tracked and has a key.
abbrev pub IsIssued : (String → Bool) → String → Agents → Option AgentEnrollmentTokenRecord → Type 0
IsIssued tracked token_hash agents none = Unit
IsIssued tracked token_hash agents (some token) =
    (token.token_hash ≡ token_hash)
    × IsOwnedBy token.user_id (get token.agent_id agents)
    × ((is_some token.used_at ≡ true)
        ⊎ ((key_in (get token.agent_id agents) ≡ none) ⊎ (tracked token.agent_id ≡ false)))

-- Two tokens are for two agents.
abbrev pub IsSingle :
    String → String → Option AgentEnrollmentTokenRecord → Option AgentEnrollmentTokenRecord → Type 0
IsSingle h k none u = Unit
IsSingle h k (some t) none = Unit
IsSingle h k (some t) (some u) = (h ≡ k) ⊎ (t.agent_id ≢ u.agent_id)

-- The agents of which it is claimed that they are online while they have a live connection; those that
-- have been revoked, and the hashes of tokens that have been used, at some earlier time.
pub record Marks : Type 0 where
  pub tracked : String → Bool
  pub barred : String → Bool
  pub spent : String → Bool

-- Not in the store any more, or revoked.
abbrev pub IsBarred : Option RemoteAgentRecord → Type 0
IsBarred none = Unit
IsBarred (some agent) = is_revoked agent.status ≡ true

-- Not in the store any more, or used.
abbrev pub IsSpent : Option AgentEnrollmentTokenRecord → Type 0
IsSpent none = Unit
IsSpent (some token) = is_some token.used_at ≡ true

-- A tracked agent with a live connection is online.
abbrev pub IsLive : Marks → Table String AgentConnection → Agents → String → Type 0
IsLive m connections agents id =
    (has id connections ≡ false) ⊎ (IsOnline (get id agents) ⊎ (m.tracked id ≡ false))

-- An agent that has been revoked is not back, and has no live connection.
abbrev pub IsOut : Marks → Table String AgentConnection → Agents → String → Type 0
IsOut m connections agents id =
    (m.barred id ≡ false) ⊎ (IsBarred (get id agents) × (has id connections ≡ false))

pub record Consistent (m : Marks) (agents : Agents) (tokens : Tokens)
    (connections : Table String AgentConnection) : Type 0 where
  pub keyed : (id : String) → IsKeyed id (get id agents)
  pub agent_map : IsMap agents
  pub token_map : IsMap tokens
  pub issued : (token_hash : String) → IsIssued m.tracked token_hash agents (get token_hash tokens)
  pub single : (h k : String) → IsSingle h k (get h tokens) (get k tokens)
  pub live : (id : String) → IsLive m connections agents id
  pub barred : (id : String) → IsOut m connections agents id
  pub spent : (h : String) → (m.spent h ≡ false) ⊎ IsSpent (get h tokens)

abbrev pub IsConsistent : Marks → Plane → Type 0
IsConsistent m p = Consistent m p.store.agents p.store.enrollment_tokens p.agent_connections

pub if-IsConsistent :
    {m : Marks} (test : Bool) (p q : Plane)
    → IsConsistent m p
    → IsConsistent m q
    → IsConsistent m (if test then p else q)
if-IsConsistent true p q v w = v
if-IsConsistent false p q v w = w

pub same_live-Consistent :
    {m : Marks} (agents : Agents) (tokens : Tokens)
    (connections next : Table String AgentConnection)
    → Consistent m agents tokens connections
    → ((id : String) → has id next ≡ has id connections)
    → Consistent m agents tokens next
same_live-Consistent agents tokens connections next v same = record {
  keyed = v.keyed;
  agent_map = v.agent_map;
  token_map = v.token_map;
  issued = v.issued;
  single = v.single;
  live = λ id. ground (arith, v.live id, same id);
  barred = λ id. ground (arith, v.barred id, same id);
  spent = v.spent;
}

-- A row stands under its own identifier.
pub own_row :
    {m : Marks} (agents : Agents) (tokens : Tokens) (connections : Table String AgentConnection)
    (id : String) (agent : RemoteAgentRecord)
    → Consistent m agents tokens connections
    → get id agents ≡ some agent
    → get agent.id agents ≡ some agent
own_row agents tokens connections id agent v at = ground (arith, v.keyed id, at)

pub delete-Consistent :
    {m : Marks} (agents : Agents) (tokens : Tokens) (connections : Table String AgentConnection)
    (id : String)
    → Consistent m agents tokens connections
    → Consistent m agents tokens (delete id connections)
delete-Consistent agents tokens connections id v = record {
  keyed = v.keyed;
  agent_map = v.agent_map;
  token_map = v.token_map;
  issued = v.issued;
  single = v.single;
  live = λ k. ground (arith, v.live k, has-delete id k connections);
  barred = λ k. ground (arith, v.barred k, has-delete id k connections);
  spent = v.spent;
}
