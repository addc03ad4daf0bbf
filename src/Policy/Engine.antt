-- ===== src/Policy/Engine.antt =====
-- src/policy.ts: the configuration, the context of an operation, the decision and the engine. A reason
-- stands for the message and the hint that the source writes for it.
use ssh_mcp_pro.Base.{
  ℕ, Bool, true, false, ◌||◌, List, [], ◌∷◌, Option, none, some, Text, codes, text_eq,
}
use ssh_mcp_pro.Policy.Paths.{NodePath}
use ssh_mcp_pro.Policy.Safety.{RiskLevel, DangerousPattern}
use ssh_mcp_pro.Session.{PolicyMode}

pub record PolicyConfig : Type 0 where
  pub mode : PolicyMode
  pub allow_root_login : Bool
  pub allow_raw_sudo : Bool
  pub allow_destructive_commands : Bool
  pub allow_destructive_fs : Bool
  pub allowed_hosts : List Text
  pub command_allow : List Text
  pub command_deny : List Text
  pub path_allow_prefixes : List Text
  pub path_deny_prefixes : List Text
  pub local_path_allow_prefixes : List Text
  pub local_path_deny_prefixes : List Text
  pub tunnel_allow_bind_hosts : List Text
  pub tunnel_deny_bind_hosts : List Text
  pub tunnel_allow_remote_hosts : List Text
  pub tunnel_deny_remote_hosts : List Text
  pub tunnel_allow_ports : List Text
  pub tunnel_deny_ports : List Text

pub data PolicyAction : Type 0 where
  ssh_open : PolicyAction
  proc_exec : PolicyAction
  proc_sudo : PolicyAction
  fs_read : PolicyAction
  fs_stat : PolicyAction
  fs_list : PolicyAction
  fs_write : PolicyAction
  fs_remove : PolicyAction
  fs_mkdir : PolicyAction
  fs_rename : PolicyAction
  ensure_package : PolicyAction
  ensure_service : PolicyAction
  ensure_lines : PolicyAction
  patch_apply : PolicyAction
  transfer_upload : PolicyAction
  transfer_download : PolicyAction
  transfer_local_read : PolicyAction
  transfer_local_write : PolicyAction
  transfer_local_create : PolicyAction
  transfer_local_overwrite : PolicyAction
  tunnel_local : PolicyAction
  tunnel_remote : PolicyAction

pub record PolicyContext : Type 0 where
  pub action : PolicyAction
  pub host : Option Text
  pub username : Option Text
  pub command : Option Text
  pub path : Option Text
  pub secondary_path : Option Text
  pub local_bind_host : Option Text
  pub local_port : Option ℕ
  pub remote_host : Option Text
  pub remote_port : Option ℕ
  pub mode : Option PolicyMode
  pub raw_sudo : Option Bool
  pub destructive : Option Bool

-- The messages of the denials, with the values that they name.
pub data DenyReason : Type 0 where
  host_not_allowed : Text → DenyReason
  bind_host_denied : Text → DenyReason
  bind_host_outside : Text → DenyReason
  remote_host_denied : Text → DenyReason
  remote_host_outside : Text → DenyReason
  port_denied : ℕ → DenyReason
  port_outside : ℕ → DenyReason
  root_login_disabled : DenyReason
  raw_sudo_disabled : DenyReason
  command_denied : DenyReason
  command_not_allowed : DenyReason
  command_unsafe : DangerousPattern → DenyReason
  local_path_has_nul : DenyReason
  local_path_denied : Text → DenyReason
  no_local_prefixes : DenyReason
  local_path_outside : Text → DenyReason
  path_has_nul : DenyReason
  path_denied : Text → DenyReason
  destructive_outside : Text → DenyReason

pub record PolicyDecision : Type 0 where
  pub allowed : Bool
  pub mode : PolicyMode
  pub action : PolicyAction
  pub reason : Option DenyReason
  pub risk_level : Option RiskLevel

-- What the engine takes from the platform: `compile` is `none` for a pattern that does not compile.
pub record Platform : Type 0 where
  pub node : NodePath
  pub compile : Text → Option (Text → Bool)
  pub matches : DangerousPattern → Text → Bool

-- The engine after its constructor.
pub record PolicyEngine : Type 0 where
  pub config : PolicyConfig
  pub path_allow_prefixes : List Text
  pub path_deny_prefixes : List Text
  pub default_path_allow_prefixes : List Text
  pub local_path_allow_prefixes : List Text
  pub local_path_deny_prefixes : List Text

abbrev pub default_allowed_mutation_prefixes : List Text
default_allowed_mutation_prefixes =
    codes "/tmp" ∷ codes "/var/tmp" ∷ codes "/home" ∷ codes "/Users" ∷ []

-- The value where the source tests it for truth: an absent or an empty text is false.
unfoldable pub truthy : Option Text → Option Text
truthy none = none
truthy (some []) = none
truthy (some (c ∷ s)) = some (c ∷ s)

abbrev pub is_true : Option Bool → Bool
is_true none = false
is_true (some b) = b

abbrev pub is_nonempty : List Text → Bool
is_nonempty [] = false
is_nonempty (x ∷ xs) = true

-- `paths.filter(Boolean)`, and the ports that are numbers.
abbrev pub present {ℓ} : {A : Type ℓ} → Option A → Option A → List A
present none none = []
present none (some b) = b ∷ []
present (some a) none = a ∷ []
present (some a) (some b) = a ∷ b ∷ []

abbrev pub is_tunnel : PolicyAction → Bool
is_tunnel tunnel_local = true
is_tunnel tunnel_remote = true
is_tunnel _ = false

-- `LOCAL_TRANSFER_ACTIONS.has(action)`.
abbrev pub is_local_transfer : PolicyAction → Bool
is_local_transfer transfer_local_read = true
is_local_transfer transfer_local_write = true
is_local_transfer transfer_local_create = true
is_local_transfer transfer_local_overwrite = true
is_local_transfer _ = false

abbrev pub is_fs_remove : PolicyAction → Bool
is_fs_remove fs_remove = true
is_fs_remove _ = false

abbrev pub is_destructive_fs : PolicyContext → Bool
is_destructive_fs context = is_true context.destructive || is_fs_remove context.action

-- The first denial of two checks, the second run only if the first finds none.
infixr 40 ◌then_check◌
abbrev pub ◌then_check◌ : Option DenyReason → Option DenyReason → Option DenyReason
none then_check next = next
some reason then_check next = some reason

abbrev pub deny_when : Bool → DenyReason → Option DenyReason
deny_when true reason = some reason
deny_when false reason = none
