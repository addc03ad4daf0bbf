-- ===== src/Remote/OAuth/Transactions.antt =====
-- The authorization transactions of src/remote/oauth-handler.ts over any sequence of requests: from
-- the request over the approval to the callback of the identity provider.
use ssh_mcp_pro.Base.{
  ℕ, ◌≤◌, ◌≡◌, ◌≢◌, ◌∙◌, refl, inl, inr, Bool, true, false, not, String, string_eq, ◌==◌, Option,
  none, some, is_some, arith, Option-cases, Bool-cases, List, [], ◌∷◌, leb, ◌||◌, ◌&&◌, any, ◌⊎◌,
  subst, ltb, ap, sym,
}
use ssh_mcp_pro.Table.{
  Table, get, get-set, set, set-IsMap, IsMap, get-filter, filter-IsMap, get-delete, delete-IsMap,
  delete, kept_if,
}
use ssh_mcp_pro.Remote.OAuth.{
  Outside, OAuthConfig, OAuthState, OAuthClient, AuthorizeRequest, PendingAuthorize, granted,
  thrown, refused, Answer, Answer-cases, handle_token, handle_register, insert_client,
  handle_authorize, check_authorize, pending_for, client_for, start_transaction, handle_approve,
  consume_oauth_callback, issue_authorization_code, cleanup_expired, exchange, redeem,
}
use ssh_mcp_pro.Remote.OAuth.Registered.{
  AreOwn, Registered, is_registered, step-Registered, client_for-transactions,
}
use ssh_mcp_pro.Remote.OAuth.Once.{
  Event, registers, authorizes, approves, calls_back, issues, redeems, cleans_up, prunes, step, run,
}

-- The browser that started `transaction_id` approves it.
abbrev pub is_approval : String → Event → Bool
is_approval transaction_id (approves other cookie now) =
    other == transaction_id && cookie == transaction_id
is_approval transaction_id _ = false

module _ (outside : Outside) (config : OAuthConfig) where
  -- The request passed the checks, and it is approved only if `asked`.
  pub record Vouched (asked : Bool) (pending : PendingAuthorize) : Type 0 where
    pub approval : pending.approved ≡ true → asked ≡ true
    pub safe : outside.is_safe_redirect_uri pending.redirect_uri ≡ true
    pub challenge : pending.code_challenge ≢ ""
    pub resource : pending.resource ≡ config.mcp_resource_url
    pub scope : is_some (outside.scope_list pending.scope) ≡ true

  abbrev VouchedAt : Bool → Option PendingAuthorize → Type 0
  VouchedAt asked none = Unit
  VouchedAt asked (some pending) = Vouched asked pending

  abbrev IsVouchedIn : String → Bool → OAuthState → Type 0
  IsVouchedIn transaction_id asked s =
      IsMap s.authorize_transactions × VouchedAt asked (get transaction_id s.authorize_transactions)

  VouchedAt-mono :
      (asked more : Bool) (pending : Option PendingAuthorize)
      → VouchedAt asked pending
      → VouchedAt (asked || more) pending
  VouchedAt-mono asked more none v = tt
  VouchedAt-mono asked more (some pending) v = record {
    approval = λ h. ground (arith, v.approval h);
    safe = v.safe;
    challenge = v.challenge;
    resource = v.resource;
    scope = v.scope;
  }

  weaken : (more : Bool) (pending : PendingAuthorize) → Vouched false pending → Vouched more pending
  weaken more pending v = VouchedAt-mono false more (some pending) v

  check_authorize-Vouched :
      (request : AuthorizeRequest) (client : OAuthClient) (now : ℕ) (scopes : _)
      → check_authorize outside config request client ≡ granted scopes
      → Vouched false (pending_for outside config request now)
  unfolding check_authorize
  check_authorize-Vouched request client now scopes h = record {
    approval = λ h'. ground arith;
    safe = ground arith;
    challenge = ground (arith, string_eq.equal_iff request.code_challenge "");
    resource = ground (arith, string_eq.equal_iff request.resource config.mcp_resource_url);
    scope = ground arith;
  }

  -- A request starts nothing, or a transaction that passed the checks.
  abbrev IsStart : String → Table String PendingAuthorize → Table String PendingAuthorize → Type 0
  IsStart other before after =
      (after ≡ before)
      ⊎ ((pending : PendingAuthorize) × (after ≡ set other pending before) × Vouched false pending)

  start_transaction-IsStart :
      (request : AuthorizeRequest) (other : String) (now : ℕ) (r : OAuthState × Answer OAuthClient)
      → IsStart other r.0.authorize_transactions
          (start_transaction outside config request other now r).0.authorize_transactions
  unfolding start_transaction
  start_transaction-IsStart request other now (s, thrown) = inl refl
  start_transaction-IsStart request other now (s, refused code) = inl refl
  start_transaction-IsStart request other now (s, granted client) =
      elim (Answer-cases (check_authorize outside config request client)) [
        | inl e ↦ rw (e, start_transaction) (inl refl)
        | inr (inl (code, e)) ↦ rw (e, start_transaction) (inl refl)
        | inr (inr (scopes, e)) ↦
            rw (e, start_transaction)
              (inr (
                pending_for outside config request now,
                refl,
                check_authorize-Vouched request client now scopes e,
              ))
      ]

  handle_authorize-IsStart :
      (request : AuthorizeRequest) (id other : String) (now : ℕ) (s : OAuthState)
      → IsStart other s.authorize_transactions
          (handle_authorize outside config request id other now s).0.authorize_transactions
  unfolding handle_authorize
  handle_authorize-IsStart request id other now s =
      subst
        (λ before.
          IsStart other before
            (handle_authorize outside config request id other now s).0.authorize_transactions)
        (client_for-transactions outside config id request.client_id request.redirect_uri now s)
        (start_transaction-IsStart request other now
          (client_for outside config id request.client_id request.redirect_uri now s))

  module _ (transaction_id : String) (asked : Bool) (s : OAuthState)
      (v : IsVouchedIn transaction_id asked s) where
    same-IsVouchedIn :
        (more : Bool) (t : OAuthState)
        → t.authorize_transactions ≡ s.authorize_transactions
        → IsVouchedIn transaction_id (asked || more) t
    same-IsVouchedIn more t same =
        rw same (v.0, VouchedAt-mono asked more (get transaction_id s.authorize_transactions) v.1)

    set-IsVouchedIn :
        (more : Bool) (other : String) (pending : PendingAuthorize) (t : OAuthState)
        → t.authorize_transactions ≡ set other pending s.authorize_transactions
        → ((other == transaction_id) ≡ true → Vouched (asked || more) pending)
        → IsVouchedIn transaction_id (asked || more) t
    set-IsVouchedIn more other pending t same vouched = rw same (
      set-IsMap other pending s.authorize_transactions v.0,
      rw (get-set other transaction_id pending s.authorize_transactions)
          (elim (Bool-cases (other == transaction_id)) [
            | inl e ↦ rw e (vouched e)
            | inr e ↦
                rw e (VouchedAt-mono asked more (get transaction_id s.authorize_transactions) v.1)
          ]),
    )

    authorize-IsVouchedIn :
        (request : AuthorizeRequest) (id other : String) (now : ℕ)
        → IsVouchedIn transaction_id
            (asked || false)
            (handle_authorize outside config request id other now s).0
    authorize-IsVouchedIn request id other now =
        elim (handle_authorize-IsStart request id other now s) [
          | inl same ↦
              same-IsVouchedIn false (handle_authorize outside config request id other now s).0 same
          | inr (pending, same, vouched) ↦
              set-IsVouchedIn false other pending
                (handle_authorize outside config request id other now s).0 same
                (λ e. weaken (asked || false) pending vouched)
        ]

    approved-Vouched :
        (more : Bool) (pending : PendingAuthorize)
        → more ≡ true
        → Vouched asked pending
        → Vouched (asked || more) (record pending { approved = true })
    approved-Vouched more pending e old = record {
      approval = λ h. ground arith;
      safe = old.safe;
      challenge = old.challenge;
      resource = old.resource;
      scope = old.scope;
    }

    approve-IsVouchedIn :
        (other cookie : String) (now : ℕ)
        → IsVouchedIn transaction_id
            (asked || (other == transaction_id && cookie == transaction_id))
            (handle_approve outside config other cookie now s).0
    unfolding handle_approve
    approve-IsVouchedIn other cookie now =
        let more = other == transaction_id && cookie == transaction_id in
        elim (Option-cases (get other s.authorize_transactions)) [
          | inl e ↦
              same-IsVouchedIn more (handle_approve outside config other cookie now s).0
                (ground arith)
          | inr (pending, e) ↦
              elim (Bool-cases (ltb pending.expires_at now || not (cookie == other))) [
                | inl refusal ↦
                    same-IsVouchedIn more (handle_approve outside config other cookie now s).0
                      (ground arith)
                | inr pass ↦
                    set-IsVouchedIn more other (record pending { approved = true })
                      (handle_approve outside config other cookie now s).0 (ground arith)
                      (λ same.
                        approved-Vouched more pending
                          (ground (
                            arith,
                            string_eq.equal_iff other transaction_id,
                            string_eq.equal_iff cookie other,
                            string_eq.equal_iff cookie transaction_id,
                          ))
                          (subst (VouchedAt asked)
                            (ap (λ k. get k s.authorize_transactions)
                                (sym ((string_eq.equal_iff other transaction_id).0 same))
                              ∙ e)
                            v.1))
              ]
        ]

    callback-IsVouchedIn :
        (code other cookie : String) (now : ℕ)
        → IsVouchedIn transaction_id
            (asked || false)
            (consume_oauth_callback outside config code other cookie now s).0
    unfolding consume_oauth_callback
    callback-IsVouchedIn code other cookie now =
        let kept = VouchedAt-mono asked false (get transaction_id s.authorize_transactions) v.1 in
        let t = (consume_oauth_callback outside config code other cookie now s).0 in
        let same : t.authorize_transactions ≡ delete other s.authorize_transactions =
          ground arith in
        rw same (
          delete-IsMap other s.authorize_transactions v.0,
          rw (get-delete other transaction_id s.authorize_transactions)
              (elim (Bool-cases (other == transaction_id)) [ inl e ↦ rw e tt | inr e ↦ rw e kept ]),
        )

    cleanup-IsVouchedIn :
        (now : ℕ) → IsVouchedIn transaction_id (asked || false) (cleanup_expired now s)
    unfolding cleanup_expired
    cleanup-IsVouchedIn now =
        let keep = λ (row : String × PendingAuthorize). not (leb row.1.expires_at now) in
        (
          filter-IsMap keep s.authorize_transactions v.0,
          rw (get-filter keep transaction_id s.authorize_transactions v.0) (
              kept-VouchedAt keep (asked || false) (get transaction_id s.authorize_transactions)
                (VouchedAt-mono asked false (get transaction_id s.authorize_transactions) v.1)),
        )
      where
        kept-VouchedAt :
            (keep : String × PendingAuthorize → Bool) (b : Bool) (pending : Option PendingAuthorize)
            → VouchedAt b pending
            → VouchedAt b (kept_if keep transaction_id pending)
        kept-VouchedAt keep b none w = tt
        kept-VouchedAt keep b (some pending) w =
            elim (Bool-cases (keep (transaction_id, pending))) [ inl e ↦ rw e w | inr e ↦ rw e tt ]

    step-IsVouchedIn :
        (event : Event)
        → IsVouchedIn transaction_id
            (asked || is_approval transaction_id event)
            (step outside config event s)
    unfolding step
    step-IsVouchedIn (registers client peer now) =
        same-IsVouchedIn false (handle_register outside config client peer now s).0
          (unfold handle_register insert_client in ground arith)
    step-IsVouchedIn (authorizes request id other now) = authorize-IsVouchedIn request id other now
    step-IsVouchedIn (approves other cookie now) = approve-IsVouchedIn other cookie now
    step-IsVouchedIn (calls_back code other cookie now) = callback-IsVouchedIn code other cookie now
    step-IsVouchedIn (issues pending user_id id code now) =
        same-IsVouchedIn false
          (issue_authorization_code outside config pending user_id id code now s).0
          (unfold issue_authorization_code in ground arith)
    step-IsVouchedIn (redeems request now) =
        same-IsVouchedIn false (handle_token outside request now s).0
          (unfold handle_token exchange redeem in ground arith)
    step-IsVouchedIn (cleans_up now) = cleanup-IsVouchedIn now
    step-IsVouchedIn (prunes now) = same-IsVouchedIn false (step outside config (prunes now) s) refl

  run-IsVouchedIn :
      (transaction_id : String) (events : List Event) (asked : Bool) (s : OAuthState)
      → IsVouchedIn transaction_id asked s
      → IsVouchedIn transaction_id
          (asked || any (is_approval transaction_id) events)
          (run outside config events s)
  unfolding run
  run-IsVouchedIn tx [] asked s v = same-IsVouchedIn tx asked s v false s refl
  run-IsVouchedIn tx (event ∷ events) asked s v =
      subst (λ b. IsVouchedIn tx b (run outside config events (step outside config event s)))
        (or_assoc asked (is_approval tx event) (any (is_approval tx) events))
        (run-IsVouchedIn tx events (asked || is_approval tx event) (step outside config event s)
          (step-IsVouchedIn tx asked s v event))
    where
      or_assoc : (a b c : Bool) → ((a || b) || c) ≡ (a || (b || c))
      or_assoc true b c = refl
      or_assoc false b c = refl

  run-Registered :
      (transaction_id : String) (events : List Event) (asked : Bool) (s : OAuthState)
      → IsVouchedIn transaction_id asked s
      → Registered transaction_id s
      → Registered transaction_id (run outside config events s)
  unfolding run
  run-Registered tx [] asked s v r = r
  run-Registered tx (event ∷ events) asked s v r =
      run-Registered tx events (asked || is_approval tx event) (step outside config event s)
        (step-IsVouchedIn tx asked s v event) (step-Registered outside config tx event s v.0 r)

  consume-pending :
      (code transaction_id cookie : String) (now : ℕ) (s : OAuthState) (pending : PendingAuthorize)
      → (consume_oauth_callback outside config code transaction_id cookie now s).1 ≡ granted pending
      → (get transaction_id s.authorize_transactions ≡ some pending)
        × (pending.approved ≡ true)
        × (now ≤ pending.expires_at)
        × (cookie ≡ transaction_id)
        × (get transaction_id
              (consume_oauth_callback outside config code transaction_id cookie now
                s).0.authorize_transactions
            ≡ none)
  unfolding consume_oauth_callback
  consume-pending code tx cookie now s pending h =
      elim (Option-cases (get tx s.authorize_transactions)) [
        | inl e ↦ absurd (ground arith)
        | inr (found, e) ↦ (
          ground arith,
          ground arith,
          ground arith,
          ground (arith, string_eq.equal_iff cookie tx),
          ground (arith, get-delete tx tx s.authorize_transactions, string_eq.equal_iff tx tx),
        )
      ]

  -- Whatever requests come in whatever order after a start without transactions: a callback of the
  -- identity provider is answered only if, before it, a browser with the transaction's own cookie
  -- approved that transaction; it comes from a browser with the same cookie, before the transaction
  -- expires; the request that it goes back to has a redirect URI that is safe and is registered with
  -- its client, a PKCE challenge, the resource of this server and readable scopes; and the transaction
  -- is gone after it. (Each client stands under its own identifier at the start.)
  pub run-calls_back :
      (events : List Event) (s : OAuthState) (code transaction_id cookie : String) (now : ℕ)
      (pending : PendingAuthorize)
      → s.authorize_transactions ≡ []
      → AreOwn s
      → (consume_oauth_callback outside config code transaction_id cookie now
          (run outside config events s)).1
        ≡ granted pending
      → (any (is_approval transaction_id) events ≡ true)
        × (cookie ≡ transaction_id)
        × (now ≤ pending.expires_at)
        × Vouched (any (is_approval transaction_id) events) pending
        × (is_registered pending (run outside config events s) ≡ true)
        × (get transaction_id
              (consume_oauth_callback outside config code transaction_id cookie now
                (run outside config events s)).0.authorize_transactions
            ≡ none)
  unfolding get
  run-calls_back events s code tx cookie now pending empty own h =
      let (at, approved, in_time, same, gone) =
        consume-pending code tx cookie now (run outside config events s) pending h in
      let v = run-IsVouchedIn tx events false s (rw empty (tt, tt)) in
      let start : Registered tx s = record {
        own = own;
        allowed = λ q e. absurd (ground (arith, e, empty));
      } in
      let r = run-Registered tx events false s (rw empty (tt, tt)) start in
      let vouched : Vouched (any (is_approval tx) events) pending =
        subst (VouchedAt (any (is_approval tx) events)) at v.1 in
      (vouched.approval approved, same, in_time, vouched, r.allowed pending at, gone)
