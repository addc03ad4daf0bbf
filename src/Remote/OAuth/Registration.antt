-- ===== src/Remote/OAuth/Registration.antt =====
-- src/remote/oauth-handler.ts: `handleRegister`, and the client of an authorization request.
use ssh_mcp_pro.Base.{
  ℕ, ◌+◌, not, ◌&&◌, ◌||◌, String, string_eq, [], ◌∷◌, ◌++◌, Option, none, some, ◌==◌,
  if◌then◌else◌, ltb, leb, any, includes, length, nat_eq,
}
use ssh_mcp_pro.Table.{size, get, set, has}
use ssh_mcp_pro.Remote.Types.{invalid_redirect_uri, forbidden, invalid_client}
use ssh_mcp_pro.Remote.OAuth.State.{
  OAuthClient, RegistrationWindow, OAuthConfig, Outside, OAuthState, Answer, granted, refused,
  thrown,
}

-- The window of the peer, or a new one.
abbrev pub window_at : Option RegistrationWindow → ℕ → RegistrationWindow
window_at none now = record { count = 0; expires_at = now + 300000 }
window_at (some previous) now =
    if ltb now previous.expires_at
    then previous
    else record { count = 0; expires_at = now + 300000 }

module _ (outside : Outside) (config : OAuthConfig) where
  unfoldable pub insert_client : OAuthClient → OAuthState → OAuthState × Answer OAuthClient
  insert_client client s = if has client.client_id s.oauth_clients then (s, thrown) else (
    record s { oauth_clients = set client.client_id client s.oauth_clients },
    granted client,
  )

  -- `client` has the redirect URIs of the request.
  unfoldable pub handle_register :
      OAuthClient → String → ℕ → OAuthState → OAuthState × Answer OAuthClient
  unfolding insert_client
  handle_register client peer now s =
      if length client.redirect_uris == 0
        || any (λ uri. not (outside.is_safe_redirect_uri uri)) client.redirect_uris
      then (s, refused invalid_redirect_uri)
      else let window = window_at (get peer s.registration_attempts) now in
        let counted = record s {
          registration_attempts =
              set peer (record window { count = window.count + 1 }) s.registration_attempts;
        } in
        if leb 20 window.count
        then (s, refused forbidden)
        else if leb config.max_oauth_clients (size s.oauth_clients)
        then (counted, refused forbidden)
        else insert_client client counted

  -- The client that `restoreChatGptClient` makes, if it makes one.
  unfoldable pub restored : String → String → String → ℕ → Option OAuthClient
  restored id client_id redirect_uri now =
      if outside.is_client_id client_id
        && outside.is_safe_redirect_uri redirect_uri
        && outside.is_chat_gpt_uri redirect_uri
      then some (record {
        id = id;
        client_id = client_id;
        client_name = "Restored ChatGPT Connector";
        redirect_uris = redirect_uri ∷ [];
        created_at = now;
      })
      else none

  abbrev extended : OAuthClient → String → OAuthClient
  extended client redirect_uri = record client {
    redirect_uris = client.redirect_uris ++ redirect_uri ∷ [];
  }

  -- `addChatGptRedirectUri(client, redirectUri) ?? client`.
  unfoldable pub with_redirect_uri : OAuthClient → String → OAuthState → OAuthState × OAuthClient
  with_redirect_uri client redirect_uri s =
      if outside.is_safe_redirect_uri redirect_uri && outside.is_chat_gpt_uri redirect_uri
      then (
        record s {
          oauth_clients = set client.client_id (extended client redirect_uri) s.oauth_clients;
        },
        extended client redirect_uri,
      )
      else (s, client)

  -- The client of an authorization request; the last argument is the row of a client that is made.
  unfoldable pub client_for :
      String → String → String → ℕ → OAuthState → OAuthState × Answer OAuthClient
  unfolding insert_client restored with_redirect_uri
  client_for id client_id redirect_uri now s = elim (get client_id s.oauth_clients) [
    | none ↦ elim (restored id client_id redirect_uri now) [
      | none ↦ (s, refused invalid_client)
      | some client ↦ insert_client client s
    ]
    | some client ↦
        if includes client.redirect_uris redirect_uri
        then (s, granted client)
        else let (updated, found) = with_redirect_uri client redirect_uri s in
          (updated, granted found)
  ]
