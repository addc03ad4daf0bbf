-- ===== src/Remote/OAuth/Registered.antt =====
-- The clients of src/remote/oauth-handler.ts: a redirect URI that is registered stays registered, and
-- that of a transaction is registered with its client.
use ssh_mcp_pro.Base.{
  ℕ, ◌≡◌, ◌⊎◌, inl, inr, refl, Bool, true, false, not, ◌||◌, String, string_eq, ◌==◌, Option, none,
  some, arith, Option-cases, Bool-cases, List, [], ◌∷◌, ◌++◌, includes, leb, ltb,
}
use ssh_mcp_pro.Table.{get, has, delete, get-set, get-delete, IsMap, get-filter}
use ssh_mcp_pro.Remote.OAuth.{
  Outside, OAuthConfig, OAuthState, OAuthClient, AuthorizeRequest, PendingAuthorize, Answer,
  granted, refused, thrown, Answer-cases, insert_client, handle_register, restored,
  with_redirect_uri, client_for, check_authorize, pending_for, start_transaction, handle_authorize,
  handle_approve, consume_oauth_callback, cleanup_expired, issue_authorization_code, handle_token,
  exchange, redeem,
}
use ssh_mcp_pro.Remote.OAuth.Once.{
  Event, registers, authorizes, approves, calls_back, issues, redeems, cleans_up, prunes, step,
}

abbrev pub registered_in : Option OAuthClient → String → Bool
registered_in none redirect_uri = false
registered_in (some client) redirect_uri = includes client.redirect_uris redirect_uri

-- The redirect URI of the request is one of its client's.
abbrev pub is_registered : PendingAuthorize → OAuthState → Bool
is_registered pending s = registered_in (get pending.client_id s.oauth_clients) pending.redirect_uri

abbrev pub IsOwn : String → Option OAuthClient → Type 0
IsOwn id none = Unit
IsOwn id (some client) = client.client_id ≡ id

-- Each client stands under its own identifier.
abbrev pub AreOwn : OAuthState → Type 0
AreOwn s = (id : String) → IsOwn id (get id s.oauth_clients)

pub record Registered (transaction_id : String) (s : OAuthState) : Type 0 where
  pub own : AreOwn s
  pub allowed :
      (pending : PendingAuthorize)
      → get transaction_id s.authorize_transactions ≡ some pending
      → is_registered pending s ≡ true

-- Clients keep their redirect URIs.
record Grown (s t : OAuthState) : Type 0 where
  own : AreOwn t
  kept :
      (id redirect_uri : String)
      → registered_in (get id s.oauth_clients) redirect_uri ≡ true
      → registered_in (get id t.oauth_clients) redirect_uri ≡ true

includes-append :
    (l m : List String) (x : String) → includes (l ++ m) x ≡ (includes l x || includes m x)
includes-append [] m x = refl
includes-append (y ∷ l) m x = ground (arith, includes-append l m x)

same-Grown : (s t : OAuthState) → AreOwn s → t.oauth_clients ≡ s.oauth_clients → Grown s t
same-Grown s t own same = record { own = rw same own; kept = λ id uri h. rw same h }

module _ (outside : Outside) (config : OAuthConfig) where
  insert-Grown :
      (client : OAuthClient) (s : OAuthState)
      → AreOwn s
      → Grown s (insert_client outside config client s).0
  unfolding insert_client has
  insert-Grown client s own = record {
    own = λ id. ground (
      arith,
      get-set client.client_id id client s.oauth_clients,
      own id,
      string_eq.equal_iff client.client_id id,
    );
    kept = λ id uri h. ground (
      arith,
      get-set client.client_id id client s.oauth_clients,
      string_eq.equal_iff client.client_id id,
      h,
    );
  }

  extend-Grown :
      (client : OAuthClient) (redirect_uri : String) (s : OAuthState)
      → AreOwn s
      → get client.client_id s.oauth_clients ≡ some client
      → Grown s (with_redirect_uri outside config client redirect_uri s).0
  unfolding with_redirect_uri
  extend-Grown client redirect_uri s own at =
      let extended : OAuthClient = record client {
        redirect_uris = client.redirect_uris ++ redirect_uri ∷ [];
      } in
      record {
        own = λ id. ground (
          arith,
          get-set client.client_id id extended s.oauth_clients,
          own id,
          string_eq.equal_iff client.client_id id,
        );
        kept = λ id uri h. ground (
          arith,
          get-set client.client_id id extended s.oauth_clients,
          string_eq.equal_iff client.client_id id,
          includes-append client.redirect_uris (redirect_uri ∷ []) uri,
          at,
          h,
        );
      }

  register-Grown :
      (client : OAuthClient) (peer : String) (now : ℕ) (s : OAuthState)
      → AreOwn s
      → Grown s (handle_register outside config client peer now s).0
  unfolding handle_register insert_client has
  register-Grown client peer now s own = record {
    own = λ id. ground (
      arith,
      get-set client.client_id id client s.oauth_clients,
      own id,
      string_eq.equal_iff client.client_id id,
    );
    kept = λ id uri h. ground (
      arith,
      get-set client.client_id id client s.oauth_clients,
      string_eq.equal_iff client.client_id id,
      h,
    );
  }

  client_for-Grown :
      (id client_id redirect_uri : String) (now : ℕ) (s : OAuthState)
      → AreOwn s
      → Grown s (client_for outside config id client_id redirect_uri now s).0
  unfolding client_for
  client_for-Grown id client_id redirect_uri now s own =
      elim (Option-cases (get client_id s.oauth_clients)) [
        | inl e ↦ elim (Option-cases (restored outside config id client_id redirect_uri now)) [
          | inl f ↦ rw (e, f, client_for) (same-Grown s s own refl)
          | inr (client, f) ↦ rw (e, f, client_for) (insert-Grown client s own)
        ]
        | inr (client, e) ↦ elim (Bool-cases (includes client.redirect_uris redirect_uri)) [
          | inl f ↦ rw (e, client_for) (rw f (same-Grown s s own refl))
          | inr f ↦
              rw (e, client_for)
                (rw f (extend-Grown client redirect_uri s own (ground (arith, own client_id, e))))
        ]
      ]

  pub client_for-transactions :
      (id client_id redirect_uri : String) (now : ℕ) (s : OAuthState)
      → (client_for outside config id client_id redirect_uri now s).0.authorize_transactions
        ≡ s.authorize_transactions
  unfolding client_for restored with_redirect_uri insert_client
  client_for-transactions id client_id redirect_uri now s = ground arith

  -- The client that is found is stored under the identifier of the request.
  client_for-stored :
      (id client_id redirect_uri : String) (now : ℕ) (s : OAuthState) (client : OAuthClient)
      → AreOwn s
      → (client_for outside config id client_id redirect_uri now s).1 ≡ granted client
      → get client_id (client_for outside config id client_id redirect_uri now s).0.oauth_clients
        ≡ some client
  unfolding client_for restored insert_client with_redirect_uri
  client_for-stored id client_id redirect_uri now s client own h =
      let made : OAuthClient = record {
        id = id;
        client_id = client_id;
        client_name = "Restored ChatGPT Connector";
        redirect_uris = redirect_uri ∷ [];
        created_at = now;
      } in
      elim (Option-cases (get client_id s.oauth_clients)) [
        | inl e ↦ ground (
          arith,
          e,
          get-set client_id client_id made s.oauth_clients,
          string_eq.equal_iff client_id client_id,
        )
        | inr (found, e) ↦
            let extended : OAuthClient = record found {
              redirect_uris = found.redirect_uris ++ redirect_uri ∷ [];
            } in
            ground (
              arith,
              e,
              own client_id,
              get-set found.client_id client_id extended s.oauth_clients,
              string_eq.equal_iff found.client_id client_id,
            )
      ]

  module _ (transaction_id : String) where
    -- The transaction is the same, or gone, or has still the same client and address.
    Grown-Registered :
        (s t : OAuthState)
        → Registered transaction_id s
        → Grown s t
        → ((pending : PendingAuthorize)
            → get transaction_id t.authorize_transactions ≡ some pending
            → (is_registered pending t ≡ true)
              ⊎ ((old : PendingAuthorize) × (get transaction_id s.authorize_transactions ≡ some old)
                  × (old.client_id ≡ pending.client_id)
                  × (old.redirect_uri ≡ pending.redirect_uri)))
        → Registered transaction_id t
    Grown-Registered s t r g at = record {
      own = g.own;
      allowed = λ pending e. elim (at pending e) [
        | inl done ↦ done
        | inr (old, f, same_client, same_uri) ↦
            g.kept pending.client_id pending.redirect_uri
              (rw (← same_client, ← same_uri) (r.allowed old f))
      ];
    }

    same-Registered :
        (s t : OAuthState)
        → Registered transaction_id s
        → t.oauth_clients ≡ s.oauth_clients
        → t.authorize_transactions ≡ s.authorize_transactions
        → Registered transaction_id t
    same-Registered s t r clients same =
        Grown-Registered s t r (same-Grown s t r.own clients)
          (λ pending e. inr (pending, ground (arith, e, same), refl, refl))

    start-Registered :
        (request : AuthorizeRequest) (other : String) (now : ℕ) (s : OAuthState)
        (answer : Answer OAuthClient)
        → Registered transaction_id s
        → ((client : OAuthClient)
            → answer ≡ granted client
            → get request.client_id s.oauth_clients ≡ some client)
        → Registered transaction_id
            (start_transaction outside config request other now (s, answer)).0
    unfolding start_transaction check_authorize
    start-Registered request other now s thrown r stored = r
    start-Registered request other now s (refused code) r stored = r
    start-Registered request other now s (granted client) r stored =
        Grown-Registered s
          (start_transaction outside config request other now (s, granted client)).0 r
          (same-Grown s (start_transaction outside config request other now (s, granted client)).0
            r.own (ground arith))
          (λ pending e. elim (Bool-cases (includes client.redirect_uris request.redirect_uri)) [
            | inl listed ↦ started pending listed e
            | inr unlisted ↦ inr (pending, ground (arith, e, unlisted), refl, refl)
          ])
      where
        started :
            (pending : PendingAuthorize)
            → includes client.redirect_uris request.redirect_uri ≡ true
            → get transaction_id
                (start_transaction outside config request other now
                  (s, granted client)).0.authorize_transactions
              ≡ some pending
            → (is_registered pending
                  (start_transaction outside config request other now (s, granted client)).0
                ≡ true)
              ⊎ ((old : PendingAuthorize) × (get transaction_id s.authorize_transactions ≡ some old)
                  × (old.client_id ≡ pending.client_id)
                  × (old.redirect_uri ≡ pending.redirect_uri))
        started pending listed e =
            let asked = pending_for outside config request now in
            elim (Bool-cases (other == transaction_id)) [
              | inl same ↦ elim (Answer-cases (check_authorize outside config request client)) [
                | inl f ↦ inr (pending, ground (arith, e, f), refl, refl)
                | inr (inl (code, f)) ↦ inr (pending, ground (arith, e, f), refl, refl)
                | inr (inr (scopes, f)) ↦ inl (
                    ground (
                      arith,
                      e,
                      f,
                      listed,
                      same,
                      stored client refl,
                      get-set other transaction_id asked s.authorize_transactions,
                    ))
              ]
              | inr differs ↦ inr (
                pending,
                ground (
                  arith,
                  e,
                  differs,
                  get-set other transaction_id asked s.authorize_transactions,
                ),
                refl,
                refl,
              )
            ]

    authorize-Registered :
        (request : AuthorizeRequest) (id other : String) (now : ℕ) (s : OAuthState)
        → Registered transaction_id s
        → Registered transaction_id (handle_authorize outside config request id other now s).0
    unfolding handle_authorize
    authorize-Registered request id other now s r =
        let found = client_for outside config id request.client_id request.redirect_uri now s in
        let same = client_for-transactions id request.client_id request.redirect_uri now s in
        start-Registered request other now found.0 found.1
          (Grown-Registered s found.0 r
            (client_for-Grown id request.client_id request.redirect_uri now s r.own)
            (λ pending e. inr (pending, ground (arith, e, same), refl, refl)))
          (λ client e.
            client_for-stored id request.client_id request.redirect_uri now s client r.own e)

    approve-Registered :
        (other cookie : String) (now : ℕ) (s : OAuthState)
        → Registered transaction_id s
        → Registered transaction_id (handle_approve outside config other cookie now s).0
    unfolding handle_approve
    approve-Registered other cookie now s r =
        let t = (handle_approve outside config other cookie now s).0 in
        Grown-Registered s t r (same-Grown s t r.own (ground arith)) (λ pending e.
          elim (Option-cases (get other s.authorize_transactions)) [
            | inl f ↦ inr (pending, ground (arith, e, f), refl, refl)
            | inr (old, f) ↦ elim (Bool-cases (ltb old.expires_at now || not (cookie == other))) [
              | inl refusal ↦ inr (pending, ground (arith, e, f, refusal), refl, refl)
              | inr pass ↦ elim (Bool-cases (other == transaction_id)) [
                | inl same ↦ inr (
                  old,
                  ground (arith, f, same, string_eq.equal_iff other transaction_id),
                  ground (
                    arith,
                    e,
                    f,
                    pass,
                    same,
                    get-set other transaction_id (record old { approved = true })
                        s.authorize_transactions,
                  ),
                  ground (
                    arith,
                    e,
                    f,
                    pass,
                    same,
                    get-set other transaction_id (record old { approved = true })
                        s.authorize_transactions,
                  ),
                )
                | inr differs ↦ inr (
                  pending,
                  ground (
                    arith,
                    e,
                    f,
                    pass,
                    differs,
                    get-set other transaction_id (record old { approved = true })
                        s.authorize_transactions,
                  ),
                  refl,
                  refl,
                )
              ]
            ]
          ])

    callback-Registered :
        (code other cookie : String) (now : ℕ) (s : OAuthState)
        → Registered transaction_id s
        → Registered transaction_id
            (consume_oauth_callback outside config code other cookie now s).0
    unfolding consume_oauth_callback
    callback-Registered code other cookie now s r =
        let t = (consume_oauth_callback outside config code other cookie now s).0 in
        let gone : t.authorize_transactions ≡ delete other s.authorize_transactions =
          ground arith in
        Grown-Registered s t r (same-Grown s t r.own (ground arith)) (λ pending e. inr (
          pending,
          ground (arith, e, gone, get-delete other transaction_id s.authorize_transactions),
          refl,
          refl,
        ))

    cleanup-Registered :
        (now : ℕ) (s : OAuthState)
        → IsMap s.authorize_transactions
        → Registered transaction_id s
        → Registered transaction_id (cleanup_expired now s)
    unfolding cleanup_expired
    cleanup-Registered now s unique r =
        let keep = λ (row : String × PendingAuthorize). not (leb row.1.expires_at now) in
        Grown-Registered s (cleanup_expired now s) r
          (same-Grown s (cleanup_expired now s) r.own refl)
          (λ pending e. elim (Option-cases (get transaction_id s.authorize_transactions)) [
            | inl f ↦ absurd (
                ground
                  (arith, e, f, get-filter keep transaction_id s.authorize_transactions unique))
            | inr (old, f) ↦ inr (
              pending,
              ground (arith, e, f, get-filter keep transaction_id s.authorize_transactions unique),
              refl,
              refl,
            )
          ])

    pub step-Registered :
        (event : Event) (s : OAuthState)
        → IsMap s.authorize_transactions
        → Registered transaction_id s
        → Registered transaction_id (step outside config event s)
    unfolding step
    step-Registered (registers client peer now) s unique r =
        let t = (handle_register outside config client peer now s).0 in
        let same : t.authorize_transactions ≡ s.authorize_transactions =
          unfold handle_register insert_client in ground arith in
        Grown-Registered s t r (register-Grown client peer now s r.own)
          (λ pending e. inr (pending, ground (arith, e, same), refl, refl))
    step-Registered (authorizes request id other now) s unique r =
        authorize-Registered request id other now s r
    step-Registered (approves other cookie now) s unique r = approve-Registered other cookie now s r
    step-Registered (calls_back code other cookie now) s unique r =
        callback-Registered code other cookie now s r
    step-Registered (issues pending user_id id code now) s unique r =
        same-Registered s (issue_authorization_code outside config pending user_id id code now s).0
          r (unfold issue_authorization_code in ground arith)
          (unfold issue_authorization_code in ground arith)
    step-Registered (redeems request now) s unique r =
        same-Registered s (handle_token outside request now s).0 r
          (unfold handle_token exchange redeem in ground arith)
          (unfold handle_token exchange redeem in ground arith)
    step-Registered (cleans_up now) s unique r = cleanup-Registered now s unique r
    step-Registered (prunes now) s unique r =
        same-Registered s (step outside config (prunes now) s) r refl refl
