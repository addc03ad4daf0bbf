-- ===== src/Remote/Connections/Frame.antt =====
-- The limits on the connections of src/remote/agent-connection-lifecycle.ts, and the operations that
-- change neither connections nor claims.
use ssh_mcp_pro.Base.{
  ℕ, ◌+◌, ◌≤◌, ◌≡◌, ◌⊎◌, inl, inr, refl, ◌∙◌, Bool, true, false, String, string_eq, nat_eq, List,
  [], ◌∷◌, none, some, if◌then◌else◌, leb, arith, Option-cases, Bool-cases,
}
use ssh_mcp_pro.Table.{size, get, has, get-set, size-set}
use ssh_mcp_pro.Remote.Connections.{
  ManagedAgentConnection, Lifecycle, max_connections, max_connections_per_agent, idle_timeout,
  handle_upgrade, release_pending, update_managed, close_connection, claims_of, mark_authenticated,
  agent_id_for, heartbeat_entry, heartbeat_entries, Call, run_heartbeat, handle_hello_timeout,
}

-- The connections are within their limit, each agent's claims are within theirs, a connection that
-- is claimed is managed and bound to the agent, and no claims stand under the empty name.
pub record IsLimited (s : Lifecycle) : Type 0 where
  pub within : size s.managed_connections ≤ max_connections s.config
  pub claims_within :
      (agent : String) → size (claims_of agent s) ≤ max_connections_per_agent s.config
  pub claims_owned :
      (agent : String) (connection : ℕ)
      → (has connection (claims_of agent s) ≡ false) ⊎ (agent_id_for connection s ≡ some agent)
  pub unnamed : get "" s.agent_claims ≡ none

-- What leaves the limits and the bindings alone.
pub record Same (s t : Lifecycle) : Type 0 where
  pub config : t.config ≡ s.config
  pub claims : t.agent_claims ≡ s.agent_claims
  pub managed : size t.managed_connections ≡ size s.managed_connections
  pub bound : (connection : ℕ) → agent_id_for connection t ≡ agent_id_for connection s

pub Same-IsLimited : {s t : Lifecycle} → Same s t → IsLimited s → IsLimited t
Same-IsLimited {s} {t} same v = record {
  within = ground (arith, same.config, same.managed, v.within);
  claims_within = λ agent. ground (arith, same.config, same.claims, v.claims_within agent);
  claims_owned = λ agent connection.
      ground (arith, same.claims, same.bound connection, v.claims_owned agent connection);
  unnamed = ground (arith, same.claims, v.unnamed);
}

pub Same-trans : {s t u : Lifecycle} → Same s t → Same t u → Same s u
Same-trans a b = record {
  config = b.config ∙ a.config;
  claims = b.claims ∙ a.claims;
  managed = b.managed ∙ a.managed;
  bound = λ connection. b.bound connection ∙ a.bound connection;
}

pub update_managed-Same :
    (connection : ℕ) (f : ManagedAgentConnection → ManagedAgentConnection) (s : Lifecycle)
    → ((m : ManagedAgentConnection)
        → get connection s.managed_connections ≡ some m
        → (f m).agent_id ≡ m.agent_id)
    → Same s (update_managed connection f s)
unfolding agent_id_for has
update_managed-Same connection f s keeps =
    elim (Option-cases (get connection s.managed_connections)) [
      | inl e ↦ record {
        config = ground (arith, e);
        claims = ground (arith, e);
        managed = ground (arith, e);
        bound = λ c. ground (arith, e);
      }
      | inr (m, e) ↦ record {
        config = ground (arith, e);
        claims = ground (arith, e);
        managed = ground (arith, e, size-set connection (f m) s.managed_connections);
        bound = λ c. ground (
          arith,
          e,
          keeps m e,
          nat_eq.equal_iff connection c,
          get-set connection c (f m) s.managed_connections,
        );
      }
    ]

pub close_connection-Same :
    (connection code : ℕ) (s : Lifecycle) → Same s (close_connection connection code s)
unfolding close_connection agent_id_for
close_connection-Same connection code s =
    let u =
      update_managed-Same connection (λ m. record m { termination_timeout = true }) s
        (λ m e. refl) in
    record { config = u.config; claims = u.claims; managed = u.managed; bound = u.bound }

pub called-Same : (calls : List Call) (s : Lifecycle) → Same s (record s { calls = calls })
unfolding agent_id_for
called-Same calls s = record { config = refl; claims = refl; managed = refl; bound = λ c. refl }

pub refuse-Same :
    (calls : List Call) (connection code : ℕ) (s : Lifecycle)
    → Same s (close_connection connection code (record s { calls = calls }))
refuse-Same calls connection code s =
    Same-trans (called-Same calls s)
      (close_connection-Same connection code (record s { calls = calls }))

pub heartbeat_entry-Same :
    (now : ℕ) (entry : ℕ × ManagedAgentConnection) (s : Lifecycle)
    → Same s (heartbeat_entry now entry s)
unfolding heartbeat_entry
heartbeat_entry-Same now (connection, m) s =
    elim (Bool-cases (leb (m.last_activity_at + idle_timeout s.config) now)) [
      | inl idle ↦ rw (idle, heartbeat_entry) (refuse-Same _ connection 1001 s)
      | inr live ↦ rw (live, heartbeat_entry) (called-Same _ s)
    ]

pub heartbeat_entries-Same :
    (now : ℕ) (entries : List (ℕ × ManagedAgentConnection)) (s : Lifecycle)
    → Same s (heartbeat_entries now entries s)
unfolding heartbeat_entries
heartbeat_entries-Same now [] s = called-Same s.calls s
heartbeat_entries-Same now (entry ∷ entries) s =
    Same-trans (heartbeat_entry-Same now entry s)
      (heartbeat_entries-Same now entries (heartbeat_entry now entry s))

pub handle_hello_timeout-Same :
    (connection : ℕ) (s : Lifecycle) → Same s (handle_hello_timeout connection s)
unfolding handle_hello_timeout
handle_hello_timeout-Same connection s =
    elim (Option-cases (get connection s.managed_connections)) [
      | inl e ↦ rw (e, handle_hello_timeout) (called-Same s.calls s)
      | inr (m, e) ↦ elim (Bool-cases m.authenticated) [
        | inl yes_it_is ↦ rw (e, handle_hello_timeout) (rw yes_it_is (called-Same s.calls s))
        | inr not_yet ↦ rw (e, handle_hello_timeout) (rw not_yet (refuse-Same _ connection 1008 s))
      ]
    ]

pub mark_authenticated-Same :
    (connection : ℕ) (agent : String) (s : Lifecycle)
    → agent_id_for connection s ≡ some agent
    → Same s (mark_authenticated connection agent s)
unfolding mark_authenticated agent_id_for
mark_authenticated-Same connection agent s bound =
    update_managed-Same connection
      (λ m. record m { authenticated = true; agent_id = some agent; hello_timeout = false }) s
      (λ m e. ground (arith, bound, e))

pub handle_upgrade-Same : (socket : ℕ) (s : Lifecycle) → Same s (handle_upgrade socket s)
unfolding handle_upgrade agent_id_for
handle_upgrade-Same socket s = record {
  config = ground arith;
  claims = ground arith;
  managed = ground arith;
  bound = λ c. ground arith;
}

pub unless-Same : (b : Bool) (s t : Lifecycle) → Same s t → Same s (if b then s else t)
unless-Same true s t same = called-Same s.calls s
unless-Same false s t same = same

pub run_heartbeat-Same : (now : ℕ) (s : Lifecycle) → Same s (run_heartbeat now s)
unfolding run_heartbeat
run_heartbeat-Same now s =
    unless-Same s.shutting_down s (heartbeat_entries now s.managed_connections s)
      (heartbeat_entries-Same now s.managed_connections s)

pub release_pending-Same : (socket : ℕ) (s : Lifecycle) → Same s (release_pending socket s)
unfolding release_pending agent_id_for
release_pending-Same socket s = record {
  config = refl;
  claims = refl;
  managed = refl;
  bound = λ c. refl;
}
