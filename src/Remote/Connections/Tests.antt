-- ===== src/Remote/Connections/Tests.antt =====
-- A run of src/remote/agent-connection-lifecycle.ts: two connections of one agent, and a third.
use ssh_mcp_pro.Base.{◌≡◌, ◌≢◌, refl, true, false, String, string_eq, none, arith}
use ssh_mcp_pro.Remote.Connections.{
  LifecycleConfig, Lifecycle, create, attach, claim, claim_managed, close_connection, handle_close,
  release_agent_claim,
}
use ssh_mcp_pro.Remote.Connections.Frame.{IsLimited}
use ssh_mcp_pro.Remote.Connections.Limits.{
  History, nothing_yet, afterwards, attaches, claims, ends, History-create-IsLimited,
}

abbrev defaults : LifecycleConfig
defaults = record {
  agent_hello_timeout_ms = none;
  agent_idle_timeout_ms = none;
  max_agent_connections = none;
  max_agent_connections_per_agent = none;
}

abbrev attached : Lifecycle
attached = (attach 3 20 (attach 2 10 (attach 1 0 (create defaults)).0).0).0

abbrev claimed : Lifecycle
claimed = (claim 2 "a" (claim 1 "a" attached).0).0

a_is_named : ◌≢◌ {A = String} "a" ""
a_is_named = ground (arith, string_eq.equal_iff "a" "")

-- A third claim of the agent is refused while two stand, and granted once one connection ended.
third_claim :
    ((claim 3 "a" claimed).1 ≡ false) × ((claim 3 "a" (handle_close 1 true claimed)).1 ≡ true)
unfolding create attach claim claim_managed close_connection handle_close release_agent_claim
    ssh_mcp_pro.Table.get ssh_mcp_pro.Table.set ssh_mcp_pro.Table.has ssh_mcp_pro.Table.delete
third_claim = (refl, refl)

claimed-History : History (create defaults) (handle_close 1 true claimed)
unfolding create attach ssh_mcp_pro.Table.get ssh_mcp_pro.Table.set ssh_mcp_pro.Table.has
claimed-History = afterwards (ends 1 true refl) (
    afterwards (claims 2 "a" a_is_named refl) (
      afterwards (claims 1 "a" a_is_named refl) (
        afterwards (attaches 3 20 refl refl) (
          afterwards (attaches 2 10 refl refl) (afterwards (attaches 1 0 refl refl) nothing_yet)))))

History-create-IsLimited_example : IsLimited (handle_close 1 true claimed)
History-create-IsLimited_example =
    History-create-IsLimited defaults (handle_close 1 true claimed) claimed-History
