-- ===== src/Policy/Checks.antt =====
-- The checks of `evaluate` in src/policy.ts, each with the denial that it finds.
use ssh_mcp_pro.Base.{
  ℕ, Bool, true, false, not, ◌&&◌, ◌||◌, List, [], ◌∷◌, Option, none, some, Text, codes, text_eq,
  ◌==◌, if◌then◌else◌, any, or_else, ◌>>=◌,
}
use ssh_mcp_pro.Policy.Paths.{
  slash, normalize_remote_posix_path, normalize_local_policy_path, normalize_policy_paths,
  is_path_under,
}
use ssh_mcp_pro.Policy.Ports.{matches_port_policy}
use ssh_mcp_pro.Policy.Safety.{RiskLevel, DangerousPattern, risk_level, check_command_safety}
use ssh_mcp_pro.Session.{PolicyMode}
use ssh_mcp_pro.Policy.Engine.{
  PolicyConfig, PolicyAction, PolicyContext, DenyReason, PolicyDecision, Platform, PolicyEngine,
  default_allowed_mutation_prefixes, truthy, is_true, is_nonempty, present, is_tunnel,
  is_local_transfer, is_destructive_fs, ◌then_check◌, deny_when, host_not_allowed, bind_host_denied,
  bind_host_outside, remote_host_denied, remote_host_outside, port_denied, port_outside,
  root_login_disabled, raw_sudo_disabled, command_denied, command_not_allowed, command_unsafe,
  local_path_has_nul, local_path_denied, no_local_prefixes, local_path_outside, path_has_nul,
  path_denied, destructive_outside,
}

abbrev pub risk_of : DenyReason → Option RiskLevel
risk_of (command_unsafe pattern) = some (risk_level pattern)
risk_of _ = none

-- `allowed(…)` and `denied(…)`.
abbrev pub decide : PolicyMode → PolicyAction → Option DenyReason → PolicyDecision
decide mode action none = record {
  allowed = true;
  mode = mode;
  action = action;
  reason = none;
  risk_level = none;
}
decide mode action (some reason) = record {
  allowed = false;
  mode = mode;
  action = action;
  reason = some reason;
  risk_level = risk_of reason;
}

abbrev pub tests : Option (Text → Bool) → Text → Bool
tests none value = false
tests (some test) value = test value

module _ (platform : Platform) where
  -- `compile(pattern)?.test(value)` for some pattern.
  abbrev pub matches_any : Text → List Text → Bool
  matches_any value patterns = any (λ pattern. tests (platform.compile pattern) value) patterns

  abbrev pub matches_policy_value : Text → List Text → Bool
  matches_policy_value value policies =
      any (λ policy. policy == value || matches_any value (policy ∷ [])) policies

  -- The constructor; `none` where it throws.
  abbrev pub create : PolicyConfig → Option PolicyEngine
  create config = do
    let normalize_remote = normalize_remote_posix_path platform.node
    let normalize_local = normalize_local_policy_path platform.node
    path_allow ← normalize_policy_paths normalize_remote config.path_allow_prefixes
    path_deny ← normalize_policy_paths normalize_remote config.path_deny_prefixes
    defaults ← normalize_policy_paths normalize_remote default_allowed_mutation_prefixes
    local_allow ← normalize_policy_paths normalize_local config.local_path_allow_prefixes
    local_deny ← normalize_policy_paths normalize_local config.local_path_deny_prefixes
    some (record {
      config = config;
      path_allow_prefixes = path_allow;
      path_deny_prefixes = path_deny;
      default_path_allow_prefixes = defaults;
      local_path_allow_prefixes = local_allow;
      local_path_deny_prefixes = local_deny;
    })

  -- A value is refused by a list that denies it, then by a list that allows others only.
  abbrev pub check_lists :
      List Text → List Text → DenyReason → DenyReason → Text → Option DenyReason
  check_lists deny allow denied outside value =
      deny_when (is_nonempty deny && matches_policy_value value deny) denied
      then_check deny_when (is_nonempty allow && not (matches_policy_value value allow)) outside

  module _ (engine : PolicyEngine) where
    abbrev pub check_host : Option Text → Option DenyReason
    check_host none = none
    check_host (some host) =
        deny_when
          (is_nonempty engine.config.allowed_hosts
            && not (matches_policy_value host engine.config.allowed_hosts))
          (host_not_allowed host)

    abbrev pub check_tunnel_bind_host : Option Text → Option DenyReason
    check_tunnel_bind_host none = none
    check_tunnel_bind_host (some host) =
        check_lists engine.config.tunnel_deny_bind_hosts engine.config.tunnel_allow_bind_hosts
          (bind_host_denied host) (bind_host_outside host) host

    abbrev pub check_tunnel_remote_host : Option Text → Option DenyReason
    check_tunnel_remote_host none = none
    check_tunnel_remote_host (some host) =
        check_lists engine.config.tunnel_deny_remote_hosts engine.config.tunnel_allow_remote_hosts
          (remote_host_denied host) (remote_host_outside host) host

    abbrev pub check_tunnel_ports : List ℕ → Option DenyReason
    check_tunnel_ports [] = none
    check_tunnel_ports (port ∷ ports) =
        deny_when
          (is_nonempty engine.config.tunnel_deny_ports
            && matches_port_policy port engine.config.tunnel_deny_ports)
          (port_denied port)
        then_check deny_when
            (is_nonempty engine.config.tunnel_allow_ports
              && not (matches_port_policy port engine.config.tunnel_allow_ports))
            (port_outside port)
        then_check check_tunnel_ports ports

    abbrev pub check_tunnel_policy : PolicyContext → Option DenyReason
    check_tunnel_policy context =
        if is_tunnel context.action
        then check_tunnel_bind_host (truthy context.local_bind_host)
          then_check check_tunnel_remote_host (truthy context.remote_host)
          then_check check_tunnel_ports (present context.local_port context.remote_port)
        else none

    -- `root` on a login that the policy does not allow, then raw sudo.
    abbrev pub check_root_login : Option Text → Option DenyReason
    check_root_login none = none
    check_root_login (some username) =
        deny_when (username == codes "root" && not engine.config.allow_root_login)
          root_login_disabled

    abbrev pub check_raw_sudo : Option Bool → Option DenyReason
    check_raw_sudo raw_sudo =
        deny_when (is_true raw_sudo && not engine.config.allow_raw_sudo) raw_sudo_disabled

    abbrev pub check_safety : Option DangerousPattern → Option DenyReason
    check_safety none = none
    check_safety (some pattern) =
        deny_when (not engine.config.allow_destructive_commands) (command_unsafe pattern)

    abbrev pub check_command_policy : Option Text → Option DenyReason
    check_command_policy none = none
    check_command_policy (some command) =
        deny_when
          (is_nonempty engine.config.command_deny && matches_any command engine.config.command_deny)
          command_denied
        then_check deny_when
            (is_nonempty engine.config.command_allow
              && not (matches_any command engine.config.command_allow))
            command_not_allowed
        then_check check_safety (check_command_safety platform.matches command)

    abbrev pub is_under_any : Text → List Text → ℕ → Bool
    is_under_any path prefixes separator =
        any (λ prefix. is_path_under platform.node path prefix (separator ∷ [])) prefixes

    -- One turn of the loop of `checkLocalPaths`, on the path that was given and on its normal form.
    abbrev pub check_local_path : Text → Option Text → Option DenyReason
    check_local_path path none = some local_path_has_nul
    check_local_path path (some normalized) =
        deny_when (is_under_any normalized engine.local_path_deny_prefixes platform.node.sep)
          (local_path_denied path)
        then_check deny_when (not (is_nonempty engine.local_path_allow_prefixes)) no_local_prefixes
        then_check deny_when
            (not (is_under_any normalized engine.local_path_allow_prefixes platform.node.sep))
            (local_path_outside path)

    abbrev pub check_local_paths : List Text → Option DenyReason
    check_local_paths [] = none
    check_local_paths (path ∷ paths) =
        check_local_path path (normalize_local_policy_path platform.node path)
        then_check check_local_paths paths

    abbrev pub effective_allow_prefixes : List Text
    effective_allow_prefixes =
        if is_nonempty engine.path_allow_prefixes
        then engine.path_allow_prefixes
        else engine.default_path_allow_prefixes

    -- One turn of the loop of `checkRemotePaths`.
    abbrev pub check_remote_path : PolicyContext → Text → Option Text → Option DenyReason
    check_remote_path context path none = some path_has_nul
    check_remote_path context path (some normalized) =
        deny_when (is_under_any normalized engine.path_deny_prefixes slash) (path_denied path)
        then_check deny_when
            (is_destructive_fs context
              && not engine.config.allow_destructive_fs
              && not (is_under_any normalized effective_allow_prefixes slash))
            (destructive_outside path)

    abbrev pub check_remote_paths : PolicyContext → List Text → Option DenyReason
    check_remote_paths context [] = none
    check_remote_paths context (path ∷ paths) =
        check_remote_path context path (normalize_remote_posix_path platform.node path)
        then_check check_remote_paths context paths

    abbrev pub check_path_policy : PolicyContext → Option DenyReason
    check_path_policy context =
        let paths = present (truthy context.path) (truthy context.secondary_path) in
        if is_local_transfer context.action
        then check_local_paths paths
        else check_remote_paths context paths

    -- The denial that `evaluate` returns, `none` where it allows.
    unfoldable pub find_denial : PolicyContext → Option DenyReason
    find_denial context =
        check_host (truthy context.host)
        then_check check_tunnel_policy context
        then_check check_root_login context.username
        then_check check_raw_sudo context.raw_sudo
        then_check check_command_policy (truthy context.command)
        then_check check_path_policy context

    unfoldable pub evaluate : PolicyContext → PolicyDecision
    unfolding find_denial
    evaluate context =
        decide (or_else context.mode engine.config.mode) context.action (find_denial context)
