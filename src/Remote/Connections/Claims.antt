-- ===== src/Remote/Connections/Claims.antt =====
-- The limits under the operations of src/remote/agent-connection-lifecycle.ts that change
-- connections and claims.
use ssh_mcp_pro.Base.{
  ℕ, ◌≤◌, ◌≡◌, ◌≢◌, inl, inr, refl, Bool, true, false, not, ◌&&◌, String, string_eq, nat_eq, [],
  ◌∷◌, Option, none, some, ◌||◌, ◌==◌, if◌then◌else◌, or_else, leb, arith, Option-cases, Bool-cases,
}
use ssh_mcp_pro.Table.{
  Table, size, get, set, delete, has, get-set, get-delete, size-set, size-delete-le,
}
use ssh_mcp_pro.Remote.Connections.{
  ManagedAgentConnection, Lifecycle, max_connections_per_agent, attach, claims_of, claim_managed,
  claim, agent_id_for, close, release_agent_claim, handle_close, is_bound_elsewhere,
}
use ssh_mcp_pro.Remote.Connections.Frame.{IsLimited, Same-IsLimited, called-Same, refuse-Same}

pub attach-IsLimited :
    (connection now : ℕ) (s : Lifecycle)
    → has connection s.managed_connections ≡ false
    → IsLimited s
    → IsLimited (attach connection now s).0
unfolding attach agent_id_for has
attach-IsLimited connection now s fresh v =
    let fresh_entry : ManagedAgentConnection = record {
      last_activity_at = now;
      authenticated = false;
      agent_id = none;
      hello_timeout = true;
      termination_timeout = false;
    } in
    record {
      within = ground (arith, v.within, size-set connection fresh_entry s.managed_connections);
      claims_within = λ agent. ground (arith, v.claims_within agent);
      claims_owned = λ agent c. ground (
        arith,
        v.claims_owned agent c,
        nat_eq.equal_iff connection c,
        get-set connection c fresh_entry s.managed_connections,
      );
      unnamed = ground (arith, v.unnamed);
    }

admitted-IsLimited :
    (connection : ℕ) (agent : String) (m : ManagedAgentConnection) (s : Lifecycle)
    → agent ≢ ""
    → get connection s.managed_connections ≡ some m
    → is_bound_elsewhere m.agent_id agent ≡ false
    → size (set connection tt (claims_of agent s)) ≤ max_connections_per_agent s.config
    → IsLimited s
    → IsLimited (record s {
      agent_claims = set agent (set connection tt (claims_of agent s)) s.agent_claims;
      managed_connections =
          set connection (record m { agent_id = some agent }) s.managed_connections;
    })
unfolding agent_id_for has get
admitted-IsLimited connection agent m s named e free room v =
    let bound : ManagedAgentConnection = record m { agent_id = some agent } in
    let claims = claims_of agent s in
    record {
      within = ground (arith, e, v.within, size-set connection bound s.managed_connections);
      claims_within = λ a. ground (
        arith,
        room,
        v.claims_within a,
        get-set agent a (set connection tt claims) s.agent_claims,
      );
      claims_owned = λ a c. ground (
        arith,
        e,
        free,
        v.claims_owned a c,
        v.unnamed,
        string_eq.equal_iff agent a,
        string_eq.equal_iff a agent,
        string_eq.equal_iff a "",
        nat_eq.equal_iff connection c,
        get-set agent a (set connection tt claims) s.agent_claims,
        get-set connection c tt claims,
        get-set connection c bound s.managed_connections,
      );
      unnamed = ground (
        arith,
        named,
        v.unnamed,
        string_eq.equal_iff agent "",
        get-set agent "" (set connection tt claims) s.agent_claims,
      );
    }

claim_managed-IsLimited :
    (connection : ℕ) (agent : String) (m : ManagedAgentConnection) (s : Lifecycle)
    → agent ≢ ""
    → get connection s.managed_connections ≡ some m
    → IsLimited s
    → IsLimited (claim_managed connection agent m s).0
unfolding claim_managed
claim_managed-IsLimited connection agent m s named e v =
    elim (Bool-cases (is_bound_elsewhere m.agent_id agent)) [
      | inl elsewhere ↦
          rw (elsewhere, claim_managed) (Same-IsLimited (refuse-Same _ connection 1008 s) v)
      | inr free ↦
          elim (Bool-cases (
            not (has connection (claims_of agent s))
            && leb (max_connections_per_agent s.config) (size (claims_of agent s)))) [
              | inl full ↦
                  rw (free, claim_managed)
                    (rw full (Same-IsLimited (refuse-Same _ connection 1008 s) v))
              | inr room ↦
                  rw (free, claim_managed)
                    (rw room (
                      admitted-IsLimited connection agent m s named e free
                        (ground (
                          arith,
                          room,
                          v.claims_within agent,
                          size-set connection tt (claims_of agent s),
                        ))
                        v))
            ]
    ]

pub claim-IsLimited :
    (connection : ℕ) (agent : String) (s : Lifecycle)
    → agent ≢ ""
    → IsLimited s
    → IsLimited (claim connection agent s).0
unfolding claim
claim-IsLimited connection agent s named v =
    elim (Option-cases (get connection s.managed_connections)) [
      | inl e ↦ rw (e, claim) v
      | inr (m, e) ↦ rw (e, claim) (claim_managed-IsLimited connection agent m s named e v)
    ]

length_zero : (claims : Table ℕ (Unit {0})) → size claims ≡ 0 → claims ≡ []
length_zero [] h = refl
length_zero (c ∷ claims) h = absurd (ground arith)

claims_of-release :
    (agent a : String) (connection : ℕ) (s : Lifecycle)
    → claims_of a (release_agent_claim (some agent) connection s) ≡ (
        if agent == a && not (agent == "")
        then delete connection (claims_of a s)
        else claims_of a s)
unfolding release_agent_claim delete
claims_of-release agent a connection s = elim (Option-cases (get agent s.agent_claims)) [
  | inl e ↦ ground (arith, e, string_eq.equal_iff agent a)
  | inr (claims, e) ↦ ground (
    arith,
    e,
    string_eq.equal_iff agent a,
    length_zero (delete connection claims),
    get-set agent a (delete connection claims) s.agent_claims,
    get-delete agent a s.agent_claims,
  )
]

release-keeps :
    (agent : Option String) (connection : ℕ) (s : Lifecycle)
    → ((release_agent_claim agent connection s).config ≡ s.config)
      × ((release_agent_claim agent connection s).managed_connections ≡ s.managed_connections)
unfolding release_agent_claim
release-keeps none connection s = (refl, refl)
release-keeps (some agent) connection s = (ground arith, ground arith)

-- The state without the connection, before its claim is released.
abbrev removed : ℕ → Lifecycle → Lifecycle
removed connection s = record s { managed_connections = delete connection s.managed_connections }

release_unnamed :
    (agent : String) (connection : ℕ) (s : Lifecycle)
    → get "" s.agent_claims ≡ none
    → get "" (release_agent_claim (some agent) connection s).agent_claims ≡ none
unfolding release_agent_claim
release_unnamed agent connection s h = elim (Option-cases (get agent s.agent_claims)) [
  | inl e ↦ ground (arith, e)
  | inr (claims, e) ↦ ground (
    arith,
    e,
    string_eq.equal_iff agent "",
    get-set agent "" (delete connection claims) s.agent_claims,
    get-delete agent "" s.agent_claims,
  )
]

unbound-IsLimited :
    (connection : ℕ) (m : ManagedAgentConnection) (s : Lifecycle)
    → get connection s.managed_connections ≡ some m
    → m.agent_id ≡ none
    → IsLimited s
    → IsLimited (release_agent_claim none connection (removed connection s))
unfolding agent_id_for has get release_agent_claim
unbound-IsLimited connection m s e unbound v = record {
  within = ground (arith, v.within, size-delete-le connection s.managed_connections);
  claims_within = λ a. ground (arith, v.claims_within a);
  claims_owned = λ a c. ground (
    arith,
    e,
    unbound,
    v.claims_owned a c,
    nat_eq.equal_iff connection c,
    get-delete connection c s.managed_connections,
  );
  unnamed = ground (arith, v.unnamed);
}

bound-IsLimited :
    (connection : ℕ) (m : ManagedAgentConnection) (agent : String) (s : Lifecycle)
    → get connection s.managed_connections ≡ some m
    → m.agent_id ≡ some agent
    → IsLimited s
    → IsLimited (release_agent_claim (some agent) connection (removed connection s))
unfolding agent_id_for has get
bound-IsLimited connection m agent s e bound v =
    let (config, managed) = release-keeps (some agent) connection (removed connection s) in
    record {
      within =
          ground
            (arith, v.within, config, managed, size-delete-le connection s.managed_connections);
      claims_within = λ a. ground (
        arith,
        v.claims_within a,
        config,
        claims_of-release agent a connection (removed connection s),
        size-delete-le connection (claims_of a s),
      );
      claims_owned = λ a c. ground (
        arith,
        e,
        bound,
        managed,
        v.claims_owned a c,
        v.unnamed,
        nat_eq.equal_iff connection c,
        string_eq.equal_iff agent a,
        string_eq.equal_iff agent "",
        claims_of-release agent a connection (removed connection s),
        get-delete connection c (claims_of a s),
        get-delete connection c s.managed_connections,
      );
      unnamed = release_unnamed agent connection (removed connection s) v.unnamed;
    }

released-IsLimited :
    (connection : ℕ) (m : ManagedAgentConnection) (bound : Option String) (s : Lifecycle)
    → get connection s.managed_connections ≡ some m
    → m.agent_id ≡ bound
    → IsLimited s
    → IsLimited (release_agent_claim bound connection (removed connection s))
released-IsLimited connection m none s e h v = unbound-IsLimited connection m s e h v
released-IsLimited connection m (some agent) s e h v = bound-IsLimited connection m agent s e h v

pub handle_close-IsLimited :
    (connection : ℕ) (told : Bool) (s : Lifecycle)
    → IsLimited s
    → IsLimited (handle_close connection told s)
unfolding handle_close
handle_close-IsLimited connection told s v =
    elim (Option-cases (get connection s.managed_connections)) [
      | inl e ↦ rw (e, handle_close) v
      | inr (m, e) ↦
          let w = released-IsLimited connection m m.agent_id s e refl v in
          elim (Bool-cases
            (s.shutting_down || m.authenticated && not (or_else m.agent_id "" == "") && told)) [
              | inl silent ↦ rw (e, handle_close) (rw silent w)
              | inr audited ↦ rw (e, handle_close) (rw audited (Same-IsLimited (called-Same _ _) w))
            ]
    ]

pub close-IsLimited : (s : Lifecycle) → IsLimited s → IsLimited (close s)
unfolding close agent_id_for has get
close-IsLimited s v = record {
  within = ground (arith, v.within);
  claims_within = λ a. ground (arith, v.claims_within a);
  claims_owned = λ a c. ground (arith, v.claims_owned a c);
  unnamed = ground (arith, v.unnamed);
}
