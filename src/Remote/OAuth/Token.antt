-- ===== src/Remote/OAuth/Token.antt =====
-- src/remote/oauth-handler.ts: `handleToken`, the exchange of a code.
use ssh_mcp_pro.Base.{
  ℕ, not, ◌&&◌, ◌||◌, String, string_eq, List, none, some, ◌==◌, if◌then◌else◌, ltb, is_some,
  nat_eq,
}
use ssh_mcp_pro.Table.{has}
use ssh_mcp_pro.Remote.Types.{
  OAuthAuthorizationCode, RemoteScope, invalid_client, pkce_validation_failed, invalid_token,
  unauthorized, invalid_scope,
}
use ssh_mcp_pro.Remote.Store.{get_authorization_code_by_hash, mark_authorization_code_used}
use ssh_mcp_pro.Remote.OAuth.State.{Outside, OAuthState, Answer, granted, refused}

-- The body of a token request.
pub record TokenRequest : Type 0 where
  pub grant_type : String
  pub client_id : String
  pub code : String
  pub redirect_uri : String
  pub code_verifier : String

-- What an access token is issued for: the user and the scopes.
pub record Grant : Type 0 where
  pub user : String
  pub scopes : List RemoteScope

module _ (outside : Outside) where
  -- The scopes, and the code that is used up.
  unfoldable pub redeem :
      OAuthAuthorizationCode → String → ℕ → OAuthState → OAuthState × Answer Grant
  redeem code user now s = elim (outside.scope_list code.scope) [
    | none ↦ (s, refused invalid_scope)
    | some scopes ↦ elim (mark_authorization_code_used code.code_hash now s.store) [
      | none ↦ (s, refused invalid_token)
      | some marked ↦
          (record s { store = marked }, granted (record { user = user; scopes = scopes }))
    ]
  ]

  -- The checks of the code.
  unfoldable pub exchange :
      TokenRequest → OAuthAuthorizationCode → ℕ → OAuthState → OAuthState × Answer Grant
  unfolding redeem
  exchange request code now s =
      if not (code.client_id == request.client_id && code.redirect_uri == request.redirect_uri)
      then (s, refused invalid_token)
      else if is_some code.used_at || ltb code.expires_at now
      then (s, refused invalid_token)
      else if request.code_verifier == ""
          || not (outside.pkce_challenge request.code_verifier == code.code_challenge)
      then (s, refused pkce_validation_failed)
      else elim (outside.find_user code.user_id) [
        | none ↦ (s, refused unauthorized)
        | some user ↦ redeem code user now s
      ]

  unfoldable pub handle_token : TokenRequest → ℕ → OAuthState → OAuthState × Answer Grant
  unfolding exchange
  handle_token request now s =
      if not (request.grant_type == "authorization_code")
      then (s, refused invalid_client)
      else if not (has request.client_id s.oauth_clients)
      then (s, refused invalid_client)
      else elim (get_authorization_code_by_hash (outside.hash_secret request.code) s.store) [
        | none ↦ (s, refused invalid_token)
        | some code ↦ exchange request code now s
      ]
