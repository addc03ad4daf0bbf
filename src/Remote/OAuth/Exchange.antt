-- ===== src/Remote/OAuth/Exchange.antt =====
-- The exchange of authorization codes for tokens: `handleToken` of src/remote/oauth-handler.ts.
use ssh_mcp_pro.Base.{
  ℕ, ◌≤◌, ◌≡◌, ◌≢◌, inl, inr, refl, ◌∙◌, true, String, string_eq, none, some, arith, Option-cases,
}
use ssh_mcp_pro.Table.{get, set, has}
use ssh_mcp_pro.Remote.Types.{OAuthAuthorizationCode}
use ssh_mcp_pro.Remote.Store.{get_authorization_code_by_hash, mark_authorization_code_used}
use ssh_mcp_pro.Remote.OAuth.{
  Outside, OAuthState, TokenRequest, Grant, granted, redeem, exchange, handle_token,
}

-- The code fits the request: it was issued to this client for this address, is unused and in time,
-- and the verifier answers its challenge.
pub record Fits (outside : Outside) (request : TokenRequest) (now : ℕ)
    (code : OAuthAuthorizationCode) : Type 0 where
  pub client : code.client_id ≡ request.client_id
  pub address : code.redirect_uri ≡ request.redirect_uri
  pub unused : code.used_at ≡ none
  pub in_time : now ≤ code.expires_at
  pub verified : outside.pkce_challenge request.code_verifier ≡ code.code_challenge
  pub some_verifier : request.code_verifier ≢ ""

module _ (outside : Outside) (request : TokenRequest) (now : ℕ) (s : OAuthState)
    (grant : Grant) where
  pub redeem-granted :
      (code : OAuthAuthorizationCode) (user : String)
      → (redeem outside code user now s).1 ≡ granted grant
      → (grant.user ≡ user)
        × (outside.scope_list code.scope ≡ some grant.scopes)
        × ((row : OAuthAuthorizationCode) × ((redeem outside code user now
                s).0.store.authorization_codes
              ≡ set code.code_hash row s.store.authorization_codes)
            × (row.used_at ≡ some now))
  unfolding redeem mark_authorization_code_used
  redeem-granted code user h = elim (Option-cases (outside.scope_list code.scope)) [
    | inl e ↦ absurd (ground arith)
    | inr (scopes, e) ↦ elim (Option-cases (get code.code_hash s.store.authorization_codes)) [
      | inl f ↦ absurd (ground arith)
      | inr (row, f) ↦
          (ground arith, ground arith, (record row { used_at = some now }, ground arith, refl))
    ]
  ]

  exchange-granted :
      (code : OAuthAuthorizationCode)
      → (exchange outside request code now s).1 ≡ granted grant
      → Fits outside request now code
        × (outside.find_user code.user_id ≡ some grant.user)
        × (outside.scope_list code.scope ≡ some grant.scopes)
        × ((exchange outside request code now s).0 ≡ (redeem outside code grant.user now s).0)
        × ((redeem outside code grant.user now s).1 ≡ granted grant)
  unfolding exchange
  exchange-granted code h = elim (Option-cases (outside.find_user code.user_id)) [
    | inl e ↦ absurd (ground arith)
    | inr (user, e) ↦
        let r = redeem-granted code user in
        (
          record {
            client = ground (arith, string_eq.equal_iff code.client_id request.client_id);
            address = ground (arith, string_eq.equal_iff code.redirect_uri request.redirect_uri);
            unused = ground arith;
            in_time = ground arith;
            verified = ground (
              arith,
              string_eq.equal_iff (outside.pkce_challenge request.code_verifier)
                  code.code_challenge,
            );
            some_verifier = ground (arith, string_eq.equal_iff request.code_verifier "");
          },
          ground (arith, r),
          ground (arith, r),
          ground (arith, r),
          ground (arith, r),
        )
  ]

  handle_token-exchange :
      (handle_token outside request now s).1 ≡ granted grant
      → (code : OAuthAuthorizationCode) × (get
            (outside.hash_secret request.code)
            s.store.authorization_codes
          ≡ some code)
        × (has request.client_id s.oauth_clients ≡ true)
        × ((exchange outside request code now s).1 ≡ granted grant)
        × ((handle_token outside request now s).0 ≡ (exchange outside request code now s).0)
  unfolding handle_token get_authorization_code_by_hash
  handle_token-exchange h =
      elim (Option-cases (get (outside.hash_secret request.code) s.store.authorization_codes)) [
        | inl e ↦ absurd (ground arith)
        | inr (code, e) ↦ (code, e, ground arith, ground arith, ground arith)
      ]

  -- A token is granted only to a registered client that presents a code which was issued to it for
  -- this redirect URI, is unused and not expired, with a verifier that answers the code's PKCE
  -- challenge; the token is for the user that the code was issued for and the scopes that it names.
  pub handle_token-Fits :
      (handle_token outside request now s).1 ≡ granted grant
      → (has request.client_id s.oauth_clients ≡ true)
        × ((code : OAuthAuthorizationCode) × (get
                (outside.hash_secret request.code)
                s.store.authorization_codes
              ≡ some code)
            × Fits outside request now code
            × (outside.find_user code.user_id ≡ some grant.user)
            × (outside.scope_list code.scope ≡ some grant.scopes))
  handle_token-Fits h =
      let (code, at, known, h', same) = handle_token-exchange h in
      let (fits, user, scopes, _, _) = exchange-granted code h' in
      (known, (code, at, fits, user, scopes))

  pub handle_token-redeems :
      (handle_token outside request now s).1 ≡ granted grant
      → (code : OAuthAuthorizationCode) × (get
            (outside.hash_secret request.code)
            s.store.authorization_codes
          ≡ some code)
        × ((handle_token outside request now s).0 ≡ (redeem outside code grant.user now s).0)
        × ((redeem outside code grant.user now s).1 ≡ granted grant)
  handle_token-redeems h =
      let (code, at, known, h', same) = handle_token-exchange h in
      let (fits, user, scopes, redeemed, granting) = exchange-granted code h' in
      (code, at, same ∙ redeemed, granting)
