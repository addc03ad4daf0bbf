-- ===== src/Remote/AgentHandler/Replay.antt =====
-- Replays of hellos and results, src/remote/agent-handler.ts.
use ssh_mcp_pro.Base.{ℕ, ◌≡◌, refl, String, string_eq, [], ◌∷◌, arith}
use ssh_mcp_pro.Table.{Table, has}
use ssh_mcp_pro.Remote.AgentHandler.{
  AgentConnection, Plane, prune_seen_nonces, cleanup_ephemeral_state,
}

has-prune_seen_nonces :
    (now : ℕ) (m : Table String AgentConnection) (id : String)
    → has id (prune_seen_nonces now m) ≡ has id m
unfolding prune_seen_nonces has
has-prune_seen_nonces now [] id = refl
has-prune_seen_nonces now ((agent, live) ∷ m) id = ground (arith, has-prune_seen_nonces now m id)

pub has-cleanup_ephemeral_state :
    (now : ℕ) (p : Plane) (id : String)
    → has id (cleanup_ephemeral_state now p).agent_connections ≡ has id p.agent_connections
unfolding cleanup_ephemeral_state
has-cleanup_ephemeral_state now p id = has-prune_seen_nonces now p.agent_connections id
