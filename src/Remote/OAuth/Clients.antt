-- ===== src/Remote/OAuth/Clients.antt =====
-- The limit on clients of src/remote/oauth-handler.ts.
use ssh_mcp_pro.Base.{ℕ, ◌+◌, ◌≤◌, ◌≡◌, true, String, string_eq, none, arith, [], ◌∷◌}
use ssh_mcp_pro.Table.{get, set, size, has, size-set}
use ssh_mcp_pro.Remote.OAuth.{
  Outside, OAuthConfig, OAuthState, OAuthClient, AuthorizeRequest, granted, handle_register,
  insert_client, handle_authorize, client_for, restored, start_transaction,
}

module _ (outside : Outside) (config : OAuthConfig) (s : OAuthState) where
  start_transaction-clients :
      (request : AuthorizeRequest) (transaction_id : String) (now : ℕ) (t : OAuthState)
      (client : OAuthClient)
      → (start_transaction outside config request transaction_id now
          (t, granted client)).0.oauth_clients
        ≡ t.oauth_clients
  unfolding start_transaction
  start_transaction-clients request transaction_id now t client = ground arith

  -- Where `OAUTH_DCR_MAX_CLIENTS` clients are there, no registration adds one, but an authorization
  -- request does: one whose client is unknown, with an identifier of the right form and a safe address
  -- at ChatGPT, leaves one client more than before, whether or not its other checks pass.
  pub handle_authorize-exceeds :
      (client : OAuthClient) (peer : String) (request : AuthorizeRequest)
      (id transaction_id : String) (now : ℕ)
      → config.max_oauth_clients ≤ size s.oauth_clients
      → get request.client_id s.oauth_clients ≡ none
      → outside.is_client_id request.client_id ≡ true
      → outside.is_safe_redirect_uri request.redirect_uri ≡ true
      → outside.is_chat_gpt_uri request.redirect_uri ≡ true
      → ((handle_register outside config client peer now s).0.oauth_clients ≡ s.oauth_clients)
        × (size (handle_authorize outside config request id transaction_id now s).0.oauth_clients
            ≡ size s.oauth_clients + 1)
  unfolding handle_register handle_authorize client_for insert_client restored has
  handle_authorize-exceeds client peer request id transaction_id now full unknown form safe chat =
      let made : OAuthClient = record {
        id = id;
        client_id = request.client_id;
        client_name = "Restored ChatGPT Connector";
        redirect_uris = request.redirect_uri ∷ [];
        created_at = now;
      } in
      (
        ground arith,
        ground (
          arith,
          size-set request.client_id made s.oauth_clients,
          start_transaction-clients request transaction_id now
              (record s { oauth_clients = set request.client_id made s.oauth_clients }) made,
        ),
      )
