-- ===== src/Remote/OAuth/State.antt =====
-- src/remote/oauth-handler.ts: clients, transactions and what the handler looks up elsewhere. Hashes,
-- PKCE challenges, URLs, scopes and users are looked up by the functions of `Outside`.
use ssh_mcp_pro.Base.{ℕ, Bool, String, string_eq, List, Option, ◌≡◌, ◌⊎◌, inl, inr, refl, nat_eq}
use ssh_mcp_pro.Table.{Table}
use ssh_mcp_pro.Remote.Types.{RemoteErrorCode, RemoteScope}
use ssh_mcp_pro.Remote.Store.{Store}

-- The grant and response types and the method of authentication are constants.
pub record OAuthClient : Type 0 where
  pub id : String
  pub client_id : String
  pub client_name : String
  pub redirect_uris : List String
  pub created_at : ℕ

pub record PendingAuthorize : Type 0 where
  pub client_id : String
  pub redirect_uri : String
  pub code_challenge : String
  pub resource : String
  pub scope : String
  pub state : String
  pub expires_at : ℕ
  pub approved : Bool

pub record RegistrationWindow : Type 0 where
  pub count : ℕ
  pub expires_at : ℕ

pub record OAuthConfig : Type 0 where
  pub max_oauth_clients : ℕ
  pub auth_code_ttl_seconds : ℕ
  pub mcp_resource_url : String

-- `scope_list` is `none` where it throws, and so is `find_user`.
pub record Outside : Type 0 where
  pub hash_secret : String → String
  pub pkce_challenge : String → String
  pub is_safe_redirect_uri : String → Bool
  pub is_chat_gpt_uri : String → Bool
  pub is_client_id : String → Bool
  pub scope_list : String → Option (List RemoteScope)
  pub find_user : String → Option String

pub record OAuthState : Type 0 where
  pub store : Store
  pub oauth_clients : Table String OAuthClient
  pub authorize_transactions : Table String PendingAuthorize
  pub registration_attempts : Table String RegistrationWindow

pub data Answer {ℓ} (A : Type ℓ) : Type ℓ where
  granted : A → Answer A
  refused : RemoteErrorCode → Answer A
  thrown : Answer A

pub Answer-cases {ℓ} :
    {A : Type ℓ} (a : Answer A)
    → (a ≡ thrown) ⊎ ((code : RemoteErrorCode) × (a ≡ refused code)) ⊎ ((x : A) × (a ≡ granted x))
Answer-cases thrown = inl refl
Answer-cases (refused code) = inr (inl (code, refl))
Answer-cases (granted x) = inr (inr (x, refl))
