-- ===== src/Remote/Nonces/Tests.antt =====
-- Runs of the nonce windows of src/remote/http-util.ts.
use ssh_mcp_pro.Base.{◌≡◌, ◌≤◌, true, refl, string_eq, [], ◌∷◌, length, arith}
use ssh_mcp_pro.Remote.Nonces.{max_agent_connection_nonces, has_seen_nonce, remember_nonce}
use ssh_mcp_pro.Remote.Nonces.Window.{has_seen_nonce-remember, length-remember_nonce, remember_all}

has_seen_nonce-remember_example :
    (has_seen_nonce (remember_all (remember_nonce [] "a" 1000) (("b", 2000) ∷ [])) "a" 300999).1
    ≡ true
unfolding has_seen_nonce ssh_mcp_pro.Table.has
has_seen_nonce-remember_example =
    has_seen_nonce-remember "a" [] 1000 300999 (("b", 2000) ∷ []) refl (omega arith)
      ((ground (arith, string_eq.equal_iff "b" "a"), omega arith), tt) (omega arith)

length-remember_nonce_example :
    length (remember_nonce (("b", 2000) ∷ []) "a" 1000) ≤ max_agent_connection_nonces
length-remember_nonce_example = length-remember_nonce (("b", 2000) ∷ []) "a" 1000
