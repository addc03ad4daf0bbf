-- ===== src/Remote/Nonces.antt =====
-- The nonce windows of src/remote/http-util.ts: a `Map` from a nonce to the time at which it may
-- be forgotten.
pub mod Window
mod Tests
use ssh_mcp_pro.Base.{ℕ, ◌+◌, Bool, String, string_eq, [], ◌∷◌, if◌then◌else◌, leb, ltb, length}
use ssh_mcp_pro.Table.{Table, set, has}

abbrev pub agent_nonce_ttl_ms : ℕ
agent_nonce_ttl_ms = 300000

abbrev pub max_agent_connection_nonces : ℕ
max_agent_connection_nonces = 4096

pub prune_nonce_window : Table String ℕ → ℕ → Table String ℕ
prune_nonce_window [] now = []
prune_nonce_window ((nonce, expires_at) ∷ nonces) now =
    let rest = prune_nonce_window nonces now in
    if leb expires_at now then rest else (nonce, expires_at) ∷ rest

-- The nonces that remain, and the answer.
unfoldable pub has_seen_nonce : Table String ℕ → String → ℕ → Table String ℕ × Bool
unfolding prune_nonce_window
has_seen_nonce nonces nonce now = let live = prune_nonce_window nonces now in (live, has nonce live)

-- `while (nonces.size > limit) nonces.delete(oldest)`: the oldest key is the first one.
pub drop_oldest : ℕ → Table String ℕ → Table String ℕ
drop_oldest limit [] = []
drop_oldest limit (entry ∷ nonces) =
    let rest = drop_oldest limit nonces in
    if ltb limit (length (entry ∷ nonces)) then rest else entry ∷ nonces

unfoldable pub remember_nonce : Table String ℕ → String → ℕ → Table String ℕ
unfolding prune_nonce_window drop_oldest
remember_nonce nonces nonce now =
    drop_oldest max_agent_connection_nonces
      (set nonce (now + agent_nonce_ttl_ms) (prune_nonce_window nonces now))
