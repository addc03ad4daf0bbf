-- ===== src/Remote/ControlPlane/Consistency/Tokens.antt =====
-- The tokens: one is used up and its agent gets a key, an agent is added with its token, an agent is
-- removed with its tokens, and expired tokens go.
use ssh_mcp_pro.Base.{
  ◌≡◌, ◌⊎◌, inr, refl, Bool, true, false, not, String, string_eq, Option, none, some, is_some,
  arith, ◌==◌, filter,
}
use ssh_mcp_pro.Table.{
  Table, get, set, get-set, set-IsMap, kept_if, get-filter, filter-IsMap, get-filter_key,
}
use ssh_mcp_pro.Remote.Types.{RemoteAgentRecord, AgentEnrollmentTokenRecord}
use ssh_mcp_pro.Remote.Store.{is_revoked, is_owned_by}
use ssh_mcp_pro.Remote.AgentHandler.{AgentConnection}
use ssh_mcp_pro.Remote.ControlPlane.Consistency.{
  Marks, Agents, Tokens, IsKeyed, IsIssued, Consistent, IsLive, IsSingle, IsSpent,
}

module _ {m : Marks} (agents : Agents) (tokens : Tokens)
    (connections : Table String AgentConnection) (row agent : RemoteAgentRecord)
    (token used : AgentEnrollmentTokenRecord) (v : Consistent m agents tokens connections)
    (at : get agent.id agents ≡ some row) (same_user : agent.user_id ≡ row.user_id)
    (issued : get used.token_hash tokens ≡ some token) (same_agent : used.agent_id ≡ token.agent_id)
    (same_owner : used.user_id ≡ token.user_id) (unused : token.used_at ≡ none)
    (spent : is_some used.used_at ≡ true) (for_agent : token.agent_id ≡ agent.id)
    (welcome : is_revoked row.status ≡ false) where
  IsKeyed-enroll : (k : String) → IsKeyed k (get k (set agent.id agent agents))
  IsKeyed-enroll k =
      ground (arith, get-set agent.id k agent agents, v.keyed k, string_eq.equal_iff agent.id k)

  IsIssued-enroll :
      (h : String) (other : Option AgentEnrollmentTokenRecord)
      → get h (set used.token_hash used tokens) ≡ other
      → IsIssued m.tracked h (set agent.id agent agents) other
  IsIssued-enroll h none e = tt
  IsIssued-enroll h (some other) e = ground (
    arith,
    get-set used.token_hash h used tokens,
    string_eq.equal_iff used.token_hash h,
    get-set agent.id other.agent_id agent agents,
    string_eq.equal_iff agent.id other.agent_id,
    v.issued h,
    v.issued used.token_hash,
    v.single used.token_hash h,
  )

  IsSingle-enroll :
      (h k : String)
      → IsSingle h k
          (get h (set used.token_hash used tokens))
          (get k (set used.token_hash used tokens))
  IsSingle-enroll h k = ground (
    arith,
    get-set used.token_hash h used tokens,
    get-set used.token_hash k used tokens,
    string_eq.equal_iff used.token_hash h,
    string_eq.equal_iff used.token_hash k,
    v.single h k,
    v.single used.token_hash k,
    v.single h used.token_hash,
  )

  offline-enroll : (k : String) → IsLive m connections (set agent.id agent agents) k
  offline-enroll k = ground (
    arith,
    get-set agent.id k agent agents,
    string_eq.equal_iff agent.id k,
    v.live k,
    v.issued used.token_hash,
  )

  pub enroll-Consistent :
      Consistent m (set agent.id agent agents) (set used.token_hash used tokens) connections
  enroll-Consistent = record {
    keyed = IsKeyed-enroll;
    agent_map = set-IsMap agent.id agent agents v.agent_map;
    token_map = set-IsMap used.token_hash used tokens v.token_map;
    issued = λ h. IsIssued-enroll h (get h (set used.token_hash used tokens)) refl;
    single = IsSingle-enroll;
    live = offline-enroll;
    barred = λ k. ground (
      arith,
      get-set agent.id k agent agents,
      string_eq.equal_iff agent.id k,
      v.barred k,
      at,
      welcome,
    );
    spent = λ h. ground (
      arith,
      get-set used.token_hash h used tokens,
      string_eq.equal_iff used.token_hash h,
      v.spent h,
      spent,
    );
  }

module _ {m : Marks} (agents : Agents) (tokens : Tokens)
    (connections : Table String AgentConnection) (agent : RemoteAgentRecord)
    (v : Consistent m agents tokens connections) (new : get agent.id agents ≡ none)
    (no_key : agent.public_key ≡ none) (unbarred : m.barred agent.id ≡ false) where
  IsIssued-add :
      (h : String) (token : Option AgentEnrollmentTokenRecord)
      → IsIssued m.tracked h agents token
      → IsIssued m.tracked h (set agent.id agent agents) token
  IsIssued-add h none i = tt
  IsIssued-add h (some token) i = ground (
    arith,
    get-set agent.id token.agent_id agent agents,
    string_eq.equal_iff agent.id token.agent_id,
    i,
  )

  -- An agent without a token.
  pub add-Consistent : Consistent m (set agent.id agent agents) tokens connections
  add-Consistent = record {
    keyed = λ k.
        ground (arith, get-set agent.id k agent agents, v.keyed k, string_eq.equal_iff agent.id k);
    agent_map = set-IsMap agent.id agent agents v.agent_map;
    token_map = v.token_map;
    issued = λ h. IsIssued-add h (get h tokens) (v.issued h);
    single = v.single;
    live = λ k.
        ground (arith, get-set agent.id k agent agents, v.live k, string_eq.equal_iff agent.id k);
    barred = λ k. ground (
      arith,
      get-set agent.id k agent agents,
      v.barred k,
      string_eq.equal_iff agent.id k,
      unbarred,
    );
    spent = v.spent;
  }

  module _ (token : AgentEnrollmentTokenRecord) (fresh : get token.token_hash tokens ≡ none)
      (unspent : m.spent token.token_hash ≡ false) (for_agent : token.agent_id ≡ agent.id)
      (same_owner : token.user_id ≡ agent.user_id) where
    IsIssued-add_token :
        (h : String) (other : Option AgentEnrollmentTokenRecord)
        → get h (set token.token_hash token tokens) ≡ other
        → IsIssued m.tracked h (set agent.id agent agents) other
    IsIssued-add_token h none e = tt
    IsIssued-add_token h (some other) e = ground (
      arith,
      get-set token.token_hash h token tokens,
      string_eq.equal_iff token.token_hash h,
      get-set agent.id other.agent_id agent agents,
      string_eq.equal_iff agent.id other.agent_id,
      v.issued h,
    )

    IsSingle-add_token :
        (h k : String)
        → IsSingle h k
            (get h (set token.token_hash token tokens))
            (get k (set token.token_hash token tokens))
    IsSingle-add_token h k = ground (
      arith,
      get-set token.token_hash h token tokens,
      get-set token.token_hash k token tokens,
      string_eq.equal_iff token.token_hash h,
      string_eq.equal_iff token.token_hash k,
      v.single h k,
      v.issued h,
      v.issued k,
    )

    pub add_token-Consistent :
        Consistent m (set agent.id agent agents) (set token.token_hash token tokens) connections
    add_token-Consistent = record {
      keyed = add-Consistent.keyed;
      agent_map = add-Consistent.agent_map;
      token_map = set-IsMap token.token_hash token tokens v.token_map;
      issued = λ h. IsIssued-add_token h (get h (set token.token_hash token tokens)) refl;
      single = IsSingle-add_token;
      live = add-Consistent.live;
      barred = add-Consistent.barred;
      spent = λ h. ground (
        arith,
        get-set token.token_hash h token tokens,
        string_eq.equal_iff token.token_hash h,
        v.spent h,
        unspent,
      );
    }

module _ {m : Marks} (agents : Agents) (tokens : Tokens)
    (connections : Table String AgentConnection) (v : Consistent m agents tokens connections)
    (p : String × AgentEnrollmentTokenRecord → Bool) where
  IsIssued-filter :
      (h : String) (token : Option AgentEnrollmentTokenRecord)
      → IsIssued m.tracked h agents token
      → IsIssued m.tracked h agents (kept_if p h token)
  IsIssued-filter h none i = tt
  IsIssued-filter h (some token) i = ground (arith, i)

  IsSingle-filter :
      (h k : String) (t u : Option AgentEnrollmentTokenRecord)
      → IsSingle h k t u
      → IsSingle h k (kept_if p h t) (kept_if p k u)
  IsSingle-filter h k none u i = tt
  IsSingle-filter h k (some t) none i = ground arith
  IsSingle-filter h k (some t) (some u) i = ground (arith, i)

  IsSpent-filter :
      (h : String) (token : Option AgentEnrollmentTokenRecord)
      → (m.spent h ≡ false) ⊎ IsSpent token
      → (m.spent h ≡ false) ⊎ IsSpent (kept_if p h token)
  IsSpent-filter h none i = inr tt
  IsSpent-filter h (some token) i = ground (arith, i)

  -- Some tokens go.
  pub filter-Consistent : Consistent m agents (filter p tokens) connections
  filter-Consistent = record {
    keyed = v.keyed;
    agent_map = v.agent_map;
    token_map = filter-IsMap p tokens v.token_map;
    issued =
        λ h. rw (get-filter p h tokens v.token_map) (IsIssued-filter h (get h tokens) (v.issued h));
    single = λ h k.
        rw (get-filter p h tokens v.token_map, get-filter p k tokens v.token_map)
          (IsSingle-filter h k (get h tokens) (get k tokens) (v.single h k));
    live = v.live;
    barred = v.barred;
    spent =
        λ h. rw (get-filter p h tokens v.token_map) (IsSpent-filter h (get h tokens) (v.spent h));
  }

module _ {m : Marks} (agents : Agents) (tokens : Tokens)
    (connections : Table String AgentConnection) (agent : RemoteAgentRecord) (id user_id : String)
    (v : Consistent m agents tokens connections) (at : get id agents ≡ some agent)
    (own : agent.user_id ≡ user_id) (revoked : is_revoked agent.status ≡ true) where
  abbrev stays : String × AgentEnrollmentTokenRecord → Bool
  stays row = not (is_owned_by user_id id row.1.user_id row.1.agent_id)

  abbrev others : Agents
  others = filter (λ (row : String × RemoteAgentRecord). not (row.0 == id)) agents

  IsIssued-remove :
      (h : String) (token : Option AgentEnrollmentTokenRecord)
      → IsIssued m.tracked h agents token
      → IsIssued m.tracked h others (kept_if stays h token)
  IsIssued-remove h none i = tt
  IsIssued-remove h (some token) i = ground (
    arith,
    get-filter_key id token.agent_id agents,
    string_eq.equal_iff id token.agent_id,
    string_eq.equal_iff token.agent_id id,
    string_eq.equal_iff token.user_id user_id,
    own,
    at,
    i,
  )

  -- An agent that is revoked goes, and its tokens with it.
  pub remove-Consistent : Consistent m others (filter stays tokens) connections
  remove-Consistent =
      let w = filter-Consistent agents tokens connections v stays in
      record {
        keyed = λ k. ground (arith, get-filter_key id k agents, v.keyed k);
        agent_map =
            filter-IsMap (λ (row : String × RemoteAgentRecord). not (row.0 == id)) agents
              v.agent_map;
        token_map = w.token_map;
        issued = λ h.
            rw (get-filter stays h tokens v.token_map)
              (IsIssued-remove h (get h tokens) (v.issued h));
        single = w.single;
        live = λ k.
            ground
              (arith, get-filter_key id k agents, v.live k, string_eq.equal_iff id k, at, revoked);
        barred = λ k. ground (arith, get-filter_key id k agents, v.barred k);
        spent = w.spent;
      }
