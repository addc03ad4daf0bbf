-- ===== src/Remote/OAuth/Authorization.antt =====
-- src/remote/oauth-handler.ts: from an authorization request to the code, and `cleanupExpired`.
use ssh_mcp_pro.Base.{
  ℕ, ◌+◌, ◌*◌, true, false, not, ◌&&◌, ◌||◌, String, string_eq, List, none, some, ◌==◌,
  if◌then◌else◌, ltb, leb, includes, filter, nat_eq,
}
use ssh_mcp_pro.Table.{get, set, delete}
use ssh_mcp_pro.Remote.Types.{
  RemoteScope, invalid_redirect_uri, invalid_client, pkce_validation_failed, invalid_token,
  invalid_scope,
}
use ssh_mcp_pro.Remote.Store.{insert_authorization_code}
use ssh_mcp_pro.Remote.OAuth.State.{
  OAuthClient, PendingAuthorize, RegistrationWindow, OAuthConfig, Outside, OAuthState, Answer,
  granted, refused, thrown,
}
use ssh_mcp_pro.Remote.OAuth.Registration.{client_for}

-- The parameters of an authorization request.
pub record AuthorizeRequest : Type 0 where
  pub client_id : String
  pub redirect_uri : String
  pub response_type : String
  pub code_challenge : String
  pub code_challenge_method : String
  pub resource : String
  pub scope : String
  pub state : String

module _ (outside : Outside) (config : OAuthConfig) where
  -- The checks of `validateAuthorizeParams` after the client is there.
  unfoldable pub check_authorize : AuthorizeRequest → OAuthClient → Answer (List RemoteScope)
  check_authorize request client =
      if not (
        includes client.redirect_uris request.redirect_uri
        && outside.is_safe_redirect_uri request.redirect_uri)
      then refused invalid_redirect_uri
      else if not (request.response_type == "code")
      then refused invalid_client
      else if request.code_challenge == "" || not (request.code_challenge_method == "S256")
      then refused pkce_validation_failed
      else if not (request.resource == config.mcp_resource_url)
      then refused invalid_token
      else elim (outside.scope_list request.scope) [
        | none ↦ refused invalid_scope
        | some scopes ↦ granted scopes
      ]

  abbrev pub pending_for : AuthorizeRequest → ℕ → PendingAuthorize
  pending_for request now = record {
    client_id = request.client_id;
    redirect_uri = request.redirect_uri;
    code_challenge = request.code_challenge;
    resource = request.resource;
    scope = request.scope;
    state = request.state;
    expires_at = now + config.auth_code_ttl_seconds * 1000;
    approved = false;
  }

  unfoldable pub start_transaction :
      AuthorizeRequest → String → ℕ → OAuthState × Answer OAuthClient → OAuthState × Answer String
  unfolding check_authorize
  start_transaction request transaction_id now (s, thrown) = (s, thrown)
  start_transaction request transaction_id now (s, refused code) = (s, refused code)
  start_transaction request transaction_id now (s, granted client) =
      elim (check_authorize request client) [
        | thrown ↦ (s, thrown)
        | refused code ↦ (s, refused code)
        | granted scopes ↦ (
          record s {
            authorize_transactions =
                set transaction_id (pending_for request now) s.authorize_transactions;
          },
          granted transaction_id,
        )
      ]

  -- `handleAuthorize` where an identity provider is configured and no test user is.
  unfoldable pub handle_authorize :
      AuthorizeRequest → String → String → ℕ → OAuthState → OAuthState × Answer String
  unfolding client_for start_transaction
  handle_authorize request id transaction_id now s =
      start_transaction request transaction_id now
        (client_for outside config id request.client_id request.redirect_uri now s)

  -- `handleApprove` where the provider is configured; `cookie` is the transaction of the browser.
  unfoldable pub handle_approve : String → String → ℕ → OAuthState → OAuthState × Answer String
  handle_approve transaction_id cookie now s = elim (get transaction_id s.authorize_transactions) [
    | none ↦ (s, refused invalid_token)
    | some pending ↦
        if ltb pending.expires_at now || not (cookie == transaction_id)
        then (s, refused invalid_token)
        else (
          record s {
            authorize_transactions =
                set transaction_id (record pending { approved = true }) s.authorize_transactions;
          },
          granted transaction_id,
        )
  ]

  -- The transaction is gone whatever comes of it.
  unfoldable pub consume_oauth_callback :
      String → String → String → ℕ → OAuthState → OAuthState × Answer PendingAuthorize
  consume_oauth_callback code transaction_id cookie now s =
      let consumed = record s {
        authorize_transactions = delete transaction_id s.authorize_transactions;
      } in
      elim (get transaction_id s.authorize_transactions) [
        | none ↦ (consumed, refused invalid_token)
        | some pending ↦
            if code == ""
              || not pending.approved
              || ltb pending.expires_at now
              || not (cookie == transaction_id)
            then (consumed, refused invalid_token)
            else (consumed, granted pending)
      ]

  -- `code` is the random code and `id` the identifier of its row.
  unfoldable pub issue_authorization_code :
      PendingAuthorize → String → String → String → ℕ → OAuthState → OAuthState × Answer String
  issue_authorization_code pending user_id id code now s =
      elim (insert_authorization_code
        (record {
          id = id;
          code_hash = outside.hash_secret code;
          client_id = pending.client_id;
          user_id = user_id;
          redirect_uri = pending.redirect_uri;
          code_challenge = pending.code_challenge;
          resource = pending.resource;
          scope = pending.scope;
          expires_at = now + config.auth_code_ttl_seconds * 1000;
          used_at = none;
          created_at = now;
        })
        s.store) [ none ↦ (s, thrown) | some stored ↦ (record s { store = stored }, granted code) ]

unfoldable pub cleanup_expired : ℕ → OAuthState → OAuthState
cleanup_expired now s = record s {
  registration_attempts =
      filter (λ (row : String × RegistrationWindow). not (leb row.1.expires_at now))
        s.registration_attempts;
  authorize_transactions =
      filter (λ (row : String × PendingAuthorize). not (leb row.1.expires_at now))
        s.authorize_transactions;
}
