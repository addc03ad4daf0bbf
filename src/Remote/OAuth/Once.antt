-- ===== src/Remote/OAuth/Once.antt =====
-- The authorization codes of src/remote/oauth-handler.ts over any sequence of requests.
use ssh_mcp_pro.Base.{
  ℕ, ◌+◌, ◌*◌, ◌≡◌, ◌≢◌, inl, inr, true, false, not, String, string_eq, ◌==◌, Option, none, some,
  is_some, arith, Option-cases, Bool-cases, List, [], ◌∷◌, All, leb,
}
use ssh_mcp_pro.Table.{
  Table, get, has, get-set, set-IsMap, IsMap, get-filter, filter-IsMap, kept_if,
}
use ssh_mcp_pro.Remote.Types.{OAuthAuthorizationCode}
use ssh_mcp_pro.Remote.Store.{
  get_authorization_code_by_hash, mark_authorization_code_used, insert_authorization_code,
  prune_expired_transient_records,
}
use ssh_mcp_pro.Remote.OAuth.{
  Outside, OAuthConfig, OAuthState, OAuthClient, AuthorizeRequest, PendingAuthorize, TokenRequest,
  Grant, granted, redeem, exchange, handle_token, handle_register, insert_client, handle_authorize,
  client_for, restored, with_redirect_uri, start_transaction, handle_approve,
  consume_oauth_callback, issue_authorization_code, cleanup_expired,
}
use ssh_mcp_pro.Remote.OAuth.Exchange.{handle_token-Fits, handle_token-redeems, redeem-granted}

-- The requests, and the timers of the cleanup. Between a callback and the code that it leads to, the
-- identity provider is asked, so these are two events.
pub data Event : Type 0 where
  registers : OAuthClient → String → ℕ → Event
  authorizes : AuthorizeRequest → String → String → ℕ → Event
  approves : String → String → ℕ → Event
  calls_back : String → String → String → ℕ → Event
  issues : PendingAuthorize → String → String → String → ℕ → Event
  redeems : TokenRequest → ℕ → Event
  cleans_up prunes : ℕ → Event

abbrev Codes : Type 0
Codes = Table String OAuthAuthorizationCode

-- Not in the store any more, or used.
abbrev pub IsUsed : Option OAuthAuthorizationCode → Type 0
IsUsed none = Unit
IsUsed (some code) = is_some code.used_at ≡ true

-- The row stands under its own hash.
abbrev pub IsUnder : String → Option OAuthAuthorizationCode → Type 0
IsUnder code_hash none = Unit
IsUnder code_hash (some code) = code.code_hash ≡ code_hash

-- The code is used or gone.
abbrev pub IsSpentIn : String → OAuthState → Type 0
IsSpentIn code_hash s =
    IsMap s.store.authorization_codes × IsUsed (get code_hash s.store.authorization_codes)

module _ (outside : Outside) (config : OAuthConfig) where
  unfoldable pub step : Event → OAuthState → OAuthState
  step (registers client peer now) s = (handle_register outside config client peer now s).0
  step (authorizes request id transaction_id now) s =
      (handle_authorize outside config request id transaction_id now s).0
  step (approves transaction_id cookie now) s =
      (handle_approve outside config transaction_id cookie now s).0
  step (calls_back code transaction_id cookie now) s =
      (consume_oauth_callback outside config code transaction_id cookie now s).0
  step (issues pending user_id id code now) s =
      (issue_authorization_code outside config pending user_id id code now s).0
  step (redeems request now) s = (handle_token outside request now s).0
  step (cleans_up now) s = cleanup_expired now s
  step (prunes now) s = record s { store = prune_expired_transient_records now s.store }

  unfoldable pub run : List Event → OAuthState → OAuthState
  unfolding step
  run [] s = s
  run (event ∷ events) s = run events (step event s)

  -- A new code has another hash.
  abbrev pub IsFresh : String → Event → Type 0
  IsFresh code_hash (issues pending user_id id code now) =
      (outside.hash_secret code == code_hash) ≡ false
  IsFresh code_hash _ = Unit

  module _ (s : OAuthState) where
    register-store :
        (client : OAuthClient) (peer : String) (now : ℕ)
        → (handle_register outside config client peer now s).0.store ≡ s.store
    unfolding handle_register insert_client
    register-store client peer now = ground arith

    approve-store :
        (transaction_id cookie : String) (now : ℕ)
        → (handle_approve outside config transaction_id cookie now s).0.store ≡ s.store
    unfolding handle_approve
    approve-store transaction_id cookie now = ground arith

    callback-store :
        (code transaction_id cookie : String) (now : ℕ)
        → (consume_oauth_callback outside config code transaction_id cookie now s).0.store ≡ s.store
    unfolding consume_oauth_callback
    callback-store code transaction_id cookie now = ground arith

    authorize-store :
        (request : AuthorizeRequest) (id transaction_id : String) (now : ℕ)
        → (handle_authorize outside config request id transaction_id now s).0.store ≡ s.store
    unfolding handle_authorize client_for restored with_redirect_uri start_transaction insert_client
    authorize-store request id transaction_id now = ground arith

  module _ (code_hash : String) (s : OAuthState) (v : IsSpentIn code_hash s) where
    same-IsSpentIn : (t : OAuthState) → t.store ≡ s.store → IsSpentIn code_hash t
    same-IsSpentIn t same = rw same v

    issue-IsSpentIn :
        (pending : PendingAuthorize) (user_id id code : String) (now : ℕ)
        → (outside.hash_secret code == code_hash) ≡ false
        → IsSpentIn code_hash
            (issue_authorization_code outside config pending user_id id code now s).0
    unfolding issue_authorization_code insert_authorization_code
    issue-IsSpentIn pending user_id id code now fresh =
        let row : OAuthAuthorizationCode = record {
          id = id;
          code_hash = outside.hash_secret code;
          client_id = pending.client_id;
          user_id = user_id;
          redirect_uri = pending.redirect_uri;
          code_challenge = pending.code_challenge;
          resource = pending.resource;
          scope = pending.scope;
          expires_at = now + config.auth_code_ttl_seconds * 1000;
          used_at = none;
          created_at = now;
        } in
        elim (Bool-cases (has (outside.hash_secret code) s.store.authorization_codes)) [
          | inl e ↦ rw (e, issue_authorization_code, insert_authorization_code) v
          | inr e ↦
              rw (e, issue_authorization_code, insert_authorization_code)
                (
                  set-IsMap (outside.hash_secret code) row s.store.authorization_codes v.0,
                  rw (get-set (outside.hash_secret code) code_hash row s.store.authorization_codes)
                      (rw fresh v.1),
                )
        ]

    redeem-IsSpentIn :
        (code : OAuthAuthorizationCode) (user : String) (now : ℕ)
        → IsSpentIn code_hash (redeem outside code user now s).0
    unfolding redeem mark_authorization_code_used
    redeem-IsSpentIn code user now = elim (Option-cases (outside.scope_list code.scope)) [
      | inl e ↦ rw (e, redeem) v
      | inr (scopes, e) ↦ elim (Option-cases (get code.code_hash s.store.authorization_codes)) [
        | inl f ↦ rw (e, f, redeem, mark_authorization_code_used) v
        | inr (row, f) ↦ elim (Bool-cases (is_some row.used_at)) [
          | inl used ↦ rw (e, f, used, redeem, mark_authorization_code_used) v
          | inr unused ↦
              let marked : OAuthAuthorizationCode = record row { used_at = some now } in
              rw (e, f, unused, redeem, mark_authorization_code_used)
                (
                  set-IsMap code.code_hash marked s.store.authorization_codes v.0,
                  ground (
                    arith,
                    get-set code.code_hash code_hash marked s.store.authorization_codes,
                    v.1,
                  ),
                )
        ]
      ]
    ]

    exchange-IsSpentIn :
        (request : TokenRequest) (code : OAuthAuthorizationCode) (now : ℕ)
        → IsSpentIn code_hash (exchange outside request code now s).0
    unfolding exchange
    exchange-IsSpentIn request code now = elim (Option-cases (outside.find_user code.user_id)) [
      | inl e ↦ ground (arith, e, v)
      | inr (user, e) ↦ ground (arith, e, v, redeem-IsSpentIn code user now)
    ]

    token-IsSpentIn :
        (request : TokenRequest) (now : ℕ)
        → IsSpentIn code_hash (handle_token outside request now s).0
    unfolding handle_token get_authorization_code_by_hash
    token-IsSpentIn request now =
        elim (Option-cases (get (outside.hash_secret request.code) s.store.authorization_codes)) [
          | inl e ↦ ground (arith, e, v)
          | inr (code, e) ↦ ground (arith, e, v, exchange-IsSpentIn request code now)
        ]

    prune-IsUsed :
        (now : ℕ) (code : Option OAuthAuthorizationCode)
        → IsUsed code
        → IsUsed (
            kept_if
              (λ (row : String × OAuthAuthorizationCode). not (leb row.1.expires_at now))
              code_hash
              code)
    prune-IsUsed now none used = tt
    prune-IsUsed now (some code) used = ground (arith, used)

    prune-IsSpentIn :
        (now : ℕ)
        → IsSpentIn code_hash (record s { store = prune_expired_transient_records now s.store })
    unfolding prune_expired_transient_records
    prune-IsSpentIn now =
        let keep = λ (row : String × OAuthAuthorizationCode). not (leb row.1.expires_at now) in
        (
          filter-IsMap keep s.store.authorization_codes v.0,
          rw (get-filter keep code_hash s.store.authorization_codes v.0)
              (prune-IsUsed now (get code_hash s.store.authorization_codes) v.1),
        )

  step-IsSpentIn :
      (code_hash : String) (event : Event) (s : OAuthState)
      → IsSpentIn code_hash s
      → IsFresh code_hash event
      → IsSpentIn code_hash (step event s)
  unfolding step cleanup_expired
  step-IsSpentIn h (registers client peer now) s v f = rw (register-store s client peer now) v
  step-IsSpentIn h (authorizes request id transaction_id now) s v f =
      rw (authorize-store s request id transaction_id now) v
  step-IsSpentIn h (approves transaction_id cookie now) s v f =
      rw (approve-store s transaction_id cookie now) v
  step-IsSpentIn h (calls_back code transaction_id cookie now) s v f =
      rw (callback-store s code transaction_id cookie now) v
  step-IsSpentIn h (issues pending user_id id code now) s v f =
      issue-IsSpentIn h s v pending user_id id code now f
  step-IsSpentIn h (redeems request now) s v f = token-IsSpentIn h s v request now
  step-IsSpentIn h (cleans_up now) s v f = v
  step-IsSpentIn h (prunes now) s v f = prune-IsSpentIn h s v now

  run-IsSpentIn :
      (code_hash : String) (events : List Event) (s : OAuthState)
      → IsSpentIn code_hash s
      → All (IsFresh code_hash) events
      → IsSpentIn code_hash (run events s)
  unfolding run
  run-IsSpentIn h [] s v f = v
  run-IsSpentIn h (event ∷ events) s v f =
      run-IsSpentIn h events (step event s) (step-IsSpentIn h event s v f.0) f.1

  granted-IsSpentIn :
      (request : TokenRequest) (now : ℕ) (s : OAuthState) (grant : Grant)
      → IsMap s.store.authorization_codes
      → IsUnder
          (outside.hash_secret request.code)
          (get (outside.hash_secret request.code) s.store.authorization_codes)
      → (handle_token outside request now s).1 ≡ granted grant
      → IsSpentIn (outside.hash_secret request.code) (handle_token outside request now s).0
  granted-IsSpentIn request now s grant unique under h =
      let (code, at, same, granting) = handle_token-redeems outside request now s grant h in
      let (_, _, (row, codes, used)) =
        redeem-granted outside request now s grant code grant.user granting in
      rw same (
        rw codes (
          set-IsMap code.code_hash row s.store.authorization_codes unique,
          ground (
            arith,
            get-set code.code_hash (outside.hash_secret request.code) row
                s.store.authorization_codes,
            string_eq.equal_iff code.code_hash (outside.hash_secret request.code),
            at,
            under,
            used,
          ),
        ))

  -- An authorization code is exchanged at most once: after a token has been granted for it, no
  -- request with the same code is granted one, whatever requests and cleanups come between, as long
  -- as no new code has the same hash.
  pub run-exchanged_once :
      (events : List Event) (s : OAuthState) (request again : TokenRequest) (now later : ℕ)
      (grant second : Grant)
      → IsMap s.store.authorization_codes
      → IsUnder
          (outside.hash_secret request.code)
          (get (outside.hash_secret request.code) s.store.authorization_codes)
      → (handle_token outside request now s).1 ≡ granted grant
      → again.code ≡ request.code
      → All (IsFresh (outside.hash_secret request.code)) events
      → (handle_token outside again later (run events (handle_token outside request now s).0)).1
        ≢ granted second
  run-exchanged_once events s request again now later grant second unique under first same fresh
        retried =
      let h = outside.hash_secret request.code in
      let w =
        run-IsSpentIn h events (handle_token outside request now s).0
          (granted-IsSpentIn request now s grant unique under first) fresh in
      let (known, (code, at, fits, _, _)) =
        handle_token-Fits outside again later (run events (handle_token outside request now s).0)
          second retried in
      ground (arith, w.1, at, same, fits.unused)
