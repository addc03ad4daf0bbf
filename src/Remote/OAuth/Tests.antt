-- ===== src/Remote/OAuth/Tests.antt =====
-- The OAuth requests of src/remote/oauth-handler.ts on concrete inputs.
use ssh_mcp_pro.Base.{
  List, ◌≡◌, ◌≢◌, ◌≤◌, any, String, arith, refl, true, string_eq, [], ◌∷◌, none, some,
}
use ssh_mcp_pro.Table.{set, get, has, size}
use ssh_mcp_pro.Remote.Types.{status_read, OAuthAuthorizationCode}
use ssh_mcp_pro.Remote.Store.{get_authorization_code_by_hash, mark_authorization_code_used}
use ssh_mcp_pro.Remote.OAuth.{
  cleanup_expired, handle_approve, Outside, OAuthConfig, OAuthState, OAuthClient, TokenRequest,
  Grant, granted, handle_token, AuthorizeRequest, handle_authorize, pending_for, PendingAuthorize,
  consume_oauth_callback, handle_register,
}
use ssh_mcp_pro.Remote.OAuth.Exchange.{Fits, handle_token-Fits}
use ssh_mcp_pro.Remote.OAuth.Transactions.{is_approval, Vouched, run-calls_back}
use ssh_mcp_pro.Remote.OAuth.Clients.{handle_authorize-exceeds}
use ssh_mcp_pro.Remote.OAuth.Registered.{AreOwn, is_registered}
use ssh_mcp_pro.Remote.OAuth.Once.{
  Event, run, authorizes, cleans_up, approves, prunes, redeems, run-exchanged_once,
}

abbrev outside : Outside
outside = record {
  hash_secret = λ secret. secret;
  pkce_challenge = λ verifier. verifier;
  is_safe_redirect_uri = λ uri. true;
  is_chat_gpt_uri = λ uri. true;
  is_client_id = λ id. true;
  scope_list = λ scope. some (status_read ∷ []);
  find_user = λ user. some user;
}

abbrev config : OAuthConfig
config = record {
  max_oauth_clients = 10;
  auth_code_ttl_seconds = 60;
  mcp_resource_url = "https://mcp";
}

abbrev client : OAuthClient
client = record {
  id = "row_1";
  client_id = "cli_1";
  client_name = "ChatGPT";
  redirect_uris = "https://chatgpt.com/cb" ∷ [];
  created_at = 0;
}

abbrev issued : OAuthAuthorizationCode
issued = record {
  id = "code_1";
  code_hash = "c0de";
  client_id = "cli_1";
  user_id = "github:1";
  redirect_uri = "https://chatgpt.com/cb";
  code_challenge = "pkce";
  resource = "https://mcp";
  scope = "status:read";
  expires_at = 60000;
  used_at = none;
  created_at = 0;
}

abbrev with_code : OAuthState
with_code = record {
  store = record {
    agents = [];
    enrollment_tokens = [];
    authorization_codes = ("c0de", issued) ∷ [];
    actions = [];
    audit_events = [];
  };
  oauth_clients = ("cli_1", client) ∷ [];
  authorize_transactions = [];
  registration_attempts = [];
}

abbrev request : TokenRequest
request = record {
  grant_type = "authorization_code";
  client_id = "cli_1";
  code = "c0de";
  redirect_uri = "https://chatgpt.com/cb";
  code_verifier = "pkce";
}

abbrev grant : Grant
grant = record { user = "github:1"; scopes = status_read ∷ [] }

first_exchange : (handle_token outside request 1000 with_code).1 ≡ granted grant
unfolding handle_token has get_authorization_code_by_hash mark_authorization_code_used
first_exchange = refl

abbrev authorization : AuthorizeRequest
authorization = record {
  client_id = "cli_1";
  redirect_uri = "https://chatgpt.com/cb";
  response_type = "code";
  code_challenge = "pkce";
  code_challenge_method = "S256";
  resource = "https://mcp";
  scope = "status:read";
  state = "";
}

authorized :
    (handle_authorize outside config authorization "row_2" "tx_1" 0
      with_code).0.authorize_transactions
    ≡ ("tx_1", pending_for outside config authorization 0) ∷ []
unfolding handle_authorize get set
authorized = refl

handle_token-Fits_example :
    (has "cli_1" with_code.oauth_clients ≡ true)
    × ((code : OAuthAuthorizationCode) × (get "c0de" with_code.store.authorization_codes
          ≡ some code)
        × Fits outside request 1000 code
        × (outside.find_user code.user_id ≡ some grant.user)
        × (outside.scope_list code.scope ≡ some grant.scopes))
handle_token-Fits_example = handle_token-Fits outside request 1000 with_code grant first_exchange

run-exchanged_once_example :
    (handle_token outside request 2000 (
      run outside config
        (redeems request 1500 ∷ prunes 1600 ∷ [])
        (handle_token outside request 1000 with_code).0)).1
    ≢ granted grant
unfolding get
run-exchanged_once_example =
    run-exchanged_once outside config (redeems request 1500 ∷ prunes 1600 ∷ []) with_code request
      request 1000 2000 grant grant (refl, tt) refl first_exchange refl (tt, (tt, tt))

abbrev approval_history : List Event
approval_history =
    authorizes authorization "row_2" "tx_1" 0 ∷ cleans_up 50 ∷ approves "tx_1" "tx_1" 100 ∷ []

abbrev approved_request : PendingAuthorize
approved_request = record (pending_for outside config authorization 0) { approved = true }

called_back :
    (consume_oauth_callback outside config "gh" "tx_1" "tx_1" 200
      (run outside config approval_history with_code)).1
    ≡ granted approved_request
unfolding consume_oauth_callback run get handle_approve cleanup_expired handle_authorize set
called_back = refl

with_code-AreOwn : AreOwn with_code
unfolding get
with_code-AreOwn id = ground (arith, string_eq.equal_iff "cli_1" id)

run-calls_back_example :
    (any (is_approval "tx_1") approval_history ≡ true)
    × (◌≡◌ {A = String} "tx_1" "tx_1")
    × (200 ≤ 60000)
    × Vouched outside config (any (is_approval "tx_1") approval_history) approved_request
    × (is_registered approved_request (run outside config approval_history with_code) ≡ true)
    × (get "tx_1"
          (consume_oauth_callback outside config "gh" "tx_1" "tx_1" 200
            (run outside config approval_history with_code)).0.authorize_transactions
        ≡ none)
run-calls_back_example =
    run-calls_back outside config approval_history with_code "gh" "tx_1" "tx_1" 200 approved_request
      refl with_code-AreOwn called_back

abbrev one_client : OAuthConfig
one_client = record config { max_oauth_clients = 1 }

abbrev unknown_client : AuthorizeRequest
unknown_client = record authorization { client_id = "cli_2" }

handle_authorize-exceeds_example :
    ((handle_register outside one_client client "peer" 10 with_code).0.oauth_clients
      ≡ with_code.oauth_clients)
    × (size
          (handle_authorize outside one_client unknown_client "row_3" "tx_3" 10
            with_code).0.oauth_clients
        ≡ 2)
unfolding get
handle_authorize-exceeds_example =
    handle_authorize-exceeds outside one_client with_code client "peer" unknown_client "row_3"
      "tx_3" 10 (omega arith) refl refl refl refl
