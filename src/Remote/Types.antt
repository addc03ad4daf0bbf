-- ===== src/Remote/Types.antt =====
-- src/remote/types.ts: capabilities, scopes, tools, policies and the records of the control plane.
-- An ISO timestamp is a `String` where it is only stored, and milliseconds where it is compared.
use mathlib.Core.Bool.{Bool}
use mathlib.Core.List.{List, [], ◌∷◌}
use ssh_mcp_pro.Base.{ℕ, String, Option, ℤ}

pub data RemoteCapability : Type 0 where
  hosts_read agents_read agents_admin system_read logs_read service_manage : RemoteCapability
  docker_manage files_read files_write shell_exec sudo_exec agent_admin audit_read :
      RemoteCapability

pub data RemoteScope : Type 0 where
  hosts_read agents_read agents_admin status_read logs_read service_manage : RemoteScope
  docker_manage files_read files_write shell_exec sudo_exec : RemoteScope

abbrev pub scope_capability_map : RemoteScope → List RemoteCapability
scope_capability_map RemoteScope.hosts_read = RemoteCapability.hosts_read ∷ []
scope_capability_map RemoteScope.agents_read = RemoteCapability.agents_read ∷ []
scope_capability_map RemoteScope.agents_admin =
    RemoteCapability.agents_admin ∷ RemoteCapability.agent_admin ∷ RemoteCapability.audit_read ∷ []
scope_capability_map RemoteScope.status_read = RemoteCapability.system_read ∷ []
scope_capability_map RemoteScope.logs_read = RemoteCapability.logs_read ∷ []
scope_capability_map RemoteScope.service_manage = RemoteCapability.service_manage ∷ []
scope_capability_map RemoteScope.docker_manage = RemoteCapability.docker_manage ∷ []
scope_capability_map RemoteScope.files_read = RemoteCapability.files_read ∷ []
scope_capability_map RemoteScope.files_write = RemoteCapability.files_write ∷ []
scope_capability_map RemoteScope.shell_exec = RemoteCapability.shell_exec ∷ []
scope_capability_map RemoteScope.sudo_exec = RemoteCapability.sudo_exec ∷ []

pub data AgentProfileName : Type 0 where
  read_only operations full_admin custom : AgentProfileName

pub record AgentPolicy : Type 0 where
  pub profile : AgentProfileName
  pub capabilities : RemoteCapability → Bool
  pub allow_paths : List String
  pub deny_paths : List String
  pub allow_services : List String
  pub allow_containers : List String
  pub max_output_bytes : ℕ
  pub max_action_timeout_seconds : ℕ
  pub version : ℕ

pub data AgentStatus : Type 0 where
  pending online offline revoked : AgentStatus

pub data RemoteToolName : Type 0 where
  list_hosts list_agents create_enrollment_token get_agent_install_command : RemoteToolName
  get_system_status tail_logs restart_service docker_ps docker_logs : RemoteToolName
  docker_restart file_read file_write run_shell run_shell_as_root : RemoteToolName
  update_agent_policy revoke_agent get_audit_events : RemoteToolName

abbrev pub tool_capability_map : RemoteToolName → RemoteCapability
tool_capability_map list_hosts = RemoteCapability.hosts_read
tool_capability_map list_agents = RemoteCapability.agents_read
tool_capability_map create_enrollment_token = RemoteCapability.agents_admin
tool_capability_map get_agent_install_command = RemoteCapability.agents_admin
tool_capability_map get_system_status = RemoteCapability.system_read
tool_capability_map tail_logs = RemoteCapability.logs_read
tool_capability_map restart_service = RemoteCapability.service_manage
tool_capability_map docker_ps = RemoteCapability.docker_manage
tool_capability_map docker_logs = RemoteCapability.docker_manage
tool_capability_map docker_restart = RemoteCapability.docker_manage
tool_capability_map file_read = RemoteCapability.files_read
tool_capability_map file_write = RemoteCapability.files_write
tool_capability_map run_shell = RemoteCapability.shell_exec
tool_capability_map run_shell_as_root = RemoteCapability.sudo_exec
tool_capability_map update_agent_policy = RemoteCapability.agents_admin
tool_capability_map revoke_agent = RemoteCapability.agents_admin
tool_capability_map get_audit_events = RemoteCapability.audit_read

pub record PolicyUpdateEnvelope : Type 0 where
  pub agent_id : String
  pub policy : AgentPolicy
  pub policy_version : ℕ
  pub issued_at : String
  pub nonce : String
  pub signature : String

pub record AgentHostMetadata : Type 0 where
  pub hostname : String
  pub os : String
  pub arch : String
  pub platform : String

pub record RemoteAgentRecord : Type 0 where
  pub id : String
  pub user_id : String
  pub alias : String
  pub status : AgentStatus
  pub public_key : Option String
  pub profile : AgentProfileName
  pub policy : AgentPolicy
  pub policy_version : ℕ
  pub host_metadata : Option AgentHostMetadata
  pub last_seen_at : Option ℕ
  pub created_at : ℕ
  pub updated_at : ℕ

pub record AgentEnrollmentTokenRecord : Type 0 where
  pub id : String
  pub agent_id : String
  pub user_id : String
  pub token_hash : String
  pub expires_at : ℕ
  pub used_at : Option ℕ
  pub created_at : ℕ

pub record OAuthAuthorizationCode : Type 0 where
  pub id : String
  pub code_hash : String
  pub client_id : String
  pub user_id : String
  pub redirect_uri : String
  pub code_challenge : String
  pub resource : String
  pub scope : String
  pub expires_at : ℕ
  pub used_at : Option ℕ
  pub created_at : ℕ

pub data RemoteErrorCode : Type 0 where
  unauthorized forbidden invalid_token invalid_scope invalid_client : RemoteErrorCode
  invalid_redirect_uri pkce_validation_failed agent_not_found agent_offline : RemoteErrorCode
  agent_revoked agent_timeout policy_denied capability_denied action_expired : RemoteErrorCode
  action_replay_detected signature_invalid command_timeout output_truncated : RemoteErrorCode
  unsupported_platform unsupported_platform_or_privilege internal_error : RemoteErrorCode

pub record AgentHelloEnvelope : Type 0 where
  pub agent_id : String
  pub timestamp : String
  pub nonce : String
  pub capabilities : List RemoteCapability
  pub agent_version : String
  pub host : AgentHostMetadata
  pub signature : String

-- The status is a Boolean: `"ok"` or `"error"`.
pub record ActionResultEnvelope : Type 0 where
  pub action_id : String
  pub agent_id : String
  pub nonce : String
  pub is_ok : Bool
  pub exit_code : Option ℤ
  pub stdout : Option String
  pub stderr : Option String
  pub started_at : String
  pub finished_at : String
  pub truncated : Bool
  pub error_code : Option RemoteErrorCode
  pub message : Option String
  pub signature : String

pub data ActionStatus : Type 0 where
  pending sent completed denied timeout error : ActionStatus

pub record ActionRecord : Type 0 where
  pub id : String
  pub user_id : String
  pub agent_id : String
  pub tool : RemoteToolName
  pub capability : RemoteCapability
  pub args : String
  pub status : ActionStatus
  pub issued_at : ℕ
  pub deadline : ℕ
  pub completed_at : Option ℕ
  pub result : Option ActionResultEnvelope
  pub error_code : Option RemoteErrorCode

-- The names of the identity provider are left out.
pub record RemotePrincipal : Type 0 where
  pub user_id : String
  pub scopes : List RemoteScope
  pub capabilities : List RemoteCapability
