-- ===== src/Remote/Store.antt =====
-- src/remote/store.ts: the tables that the control plane works on, each keyed by the column that its
-- statements select by. `none` is an exception: a constraint of the table, or a conflict. Times are
-- milliseconds, which their ISO texts are ordered like. Users, clients and dashboard sessions are
-- left out, and so are the severity and the metadata of an audit event.
pub mod Laws
use ssh_mcp_pro.Base.{
  ℕ, Bool, true, false, not, ◌&&◌, ◌||◌, String, string_eq, List, [], ◌∷◌, ◌++◌, Option, none, some,
  ◌==◌, if◌then◌else◌, leb, filter, is_some,
}
use ssh_mcp_pro.Table.{Table, get, set, has}
use ssh_mcp_pro.Remote.Types.{
  RemoteAgentRecord, AgentEnrollmentTokenRecord, OAuthAuthorizationCode, ActionRecord, AgentStatus,
  revoked,
}

pub data AuditEventType : Type 0 where
  agent_enrolled action_denied enrollment_token_created policy_updated : AuditEventType
  agent_revoked action_requested action_allowed action_denied_or_failed : AuditEventType
  action_completed agent_signature_invalid agent_hello_expired : AuditEventType
  agent_duplicate_hello_rejected agent_hello_replay_detected : AuditEventType
  agent_connection_replaced agent_connected agent_result_signature_invalid : AuditEventType
  agent_result_connection_invalid agent_result_replay_detected : AuditEventType
  agent_disconnected agent_removed agent_message_before_hello : AuditEventType

pub record AuditEvent : Type 0 where
  pub user_id : Option String
  pub agent_id : Option String
  pub action_id : Option String
  pub event_type : AuditEventType

pub record Store : Type 0 where
  pub agents : Table String RemoteAgentRecord
  pub enrollment_tokens : Table String AgentEnrollmentTokenRecord
  pub authorization_codes : Table String OAuthAuthorizationCode
  pub actions : Table String ActionRecord
  pub audit_events : List AuditEvent

abbrev pub insert_audit : AuditEvent → Store → Store
insert_audit event s = record s { audit_events = s.audit_events ++ event ∷ [] }

unfoldable pub get_agent : String → Store → Option RemoteAgentRecord
get_agent id s = get id s.agents

abbrev pub has_alias : String → String → RemoteAgentRecord → Bool
has_alias user_id alias agent = agent.user_id == user_id && agent.alias == alias

pub find_alias : String → String → Table String RemoteAgentRecord → Option RemoteAgentRecord
find_alias user_id alias [] = none
find_alias user_id alias ((id, agent) ∷ rows) =
    if has_alias user_id alias agent then some agent else find_alias user_id alias rows

unfoldable pub get_agent_by_alias : String → String → Store → Option RemoteAgentRecord
unfolding find_alias
get_agent_by_alias user_id alias s = find_alias user_id alias s.agents

-- PRIMARY KEY (id), UNIQUE (user_id, alias).
unfoldable pub insert_agent : RemoteAgentRecord → Store → Option Store
unfolding get_agent_by_alias
insert_agent agent s =
    if has agent.id s.agents || is_some (get_agent_by_alias agent.user_id agent.alias s)
    then none
    else some (record s { agents = set agent.id agent s.agents })

-- The owner and the time of creation are no columns of the statement. Its callers pass the alias
-- that the row has.
unfoldable pub update_agent : RemoteAgentRecord → Store → Store
update_agent agent s = elim (get agent.id s.agents) [
  | none ↦ s
  | some row ↦ record s {
    agents =
        set agent.id (record agent { user_id = row.user_id; created_at = row.created_at }) s.agents;
  }
]

abbrev pub is_revoked : AgentStatus → Bool
is_revoked revoked = true
is_revoked _ = false

abbrev pub is_owned_by : String → String → String → String → Bool
is_owned_by user_id agent_id row_user row_agent = row_user == user_id && row_agent == agent_id

unfoldable pub removable : String → String → Store → Bool
removable user_id agent_id s = elim (get agent_id s.agents) [
  | none ↦ false
  | some agent ↦ agent.user_id == user_id && is_revoked agent.status
]

unfoldable pub remove_revoked_agent : String → String → Store → Store × Bool
unfolding removable
remove_revoked_agent user_id agent_id s =
    if removable user_id agent_id s
    then (
      record s {
        agents = filter (λ (row : String × RemoteAgentRecord). not (row.0 == agent_id)) s.agents;
        enrollment_tokens =
            filter
              (λ (row : String × AgentEnrollmentTokenRecord).
                not (is_owned_by user_id agent_id row.1.user_id row.1.agent_id))
              s.enrollment_tokens;
        actions =
            filter
              (λ (row : String × ActionRecord).
                not (is_owned_by user_id agent_id row.1.user_id row.1.agent_id))
              s.actions;
      },
      true,
    )
    else (s, false)

-- UNIQUE (token_hash).
unfoldable pub insert_enrollment_token : AgentEnrollmentTokenRecord → Store → Option Store
insert_enrollment_token token s =
    if has token.token_hash s.enrollment_tokens
    then none
    else some (record s { enrollment_tokens = set token.token_hash token s.enrollment_tokens })

unfoldable pub get_enrollment_token_by_hash : String → Store → Option AgentEnrollmentTokenRecord
get_enrollment_token_by_hash token_hash s = get token_hash s.enrollment_tokens

unfoldable pub mark_enrollment_token_used : String → ℕ → Store → Option Store
mark_enrollment_token_used token_hash used_at s = elim (get token_hash s.enrollment_tokens) [
  | none ↦ none
  | some token ↦
      if is_some token.used_at
      then none
      else some (record s {
        enrollment_tokens =
            set token_hash (record token { used_at = some used_at }) s.enrollment_tokens;
      })
]

-- UNIQUE (code_hash).
unfoldable pub insert_authorization_code : OAuthAuthorizationCode → Store → Option Store
insert_authorization_code code s =
    if has code.code_hash s.authorization_codes
    then none
    else some (record s { authorization_codes = set code.code_hash code s.authorization_codes })

unfoldable pub get_authorization_code_by_hash : String → Store → Option OAuthAuthorizationCode
get_authorization_code_by_hash code_hash s = get code_hash s.authorization_codes

unfoldable pub mark_authorization_code_used : String → ℕ → Store → Option Store
mark_authorization_code_used code_hash used_at s = elim (get code_hash s.authorization_codes) [
  | none ↦ none
  | some code ↦
      if is_some code.used_at
      then none
      else some (record s {
        authorization_codes =
            set code_hash (record code { used_at = some used_at }) s.authorization_codes;
      })
]

-- PRIMARY KEY (id).
unfoldable pub insert_action : ActionRecord → Store → Option Store
insert_action action s =
    if has action.id s.actions
    then none
    else some (record s { actions = set action.id action s.actions })

unfoldable pub update_action : ActionRecord → Store → Store
update_action action s = elim (get action.id s.actions) [
  | none ↦ s
  | some row ↦ record s {
    actions =
        set action.id
          (record row {
            status = action.status;
            completed_at = action.completed_at;
            result = action.result;
            error_code = action.error_code;
          })
          s.actions;
  }
]

unfoldable pub prune_expired_transient_records : ℕ → Store → Store
prune_expired_transient_records now s = record s {
  authorization_codes =
      filter (λ (row : String × OAuthAuthorizationCode). not (leb row.1.expires_at now))
        s.authorization_codes;
  enrollment_tokens =
      filter (λ (row : String × AgentEnrollmentTokenRecord). not (leb row.1.expires_at now))
        s.enrollment_tokens;
}
