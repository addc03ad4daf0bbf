-- ===== src/Policy/Requests.antt =====
-- When the checks of src/policy.ts on hosts, tunnels, logins and commands find no denial.
use ssh_mcp_pro.Base.{
  ℕ, ◌≡◌, ◌≢◌, ◌↔◌, ◌⊎◌, inl, refl, Bool, true, false, not, ◌&&◌, List, [], ◌∷◌, Option, none, some,
  Text, codes, text_eq, arith, All,
}
use ssh_mcp_pro.Policy.Ports.{matches_port_policy}
use ssh_mcp_pro.Policy.Safety.{DangerousPattern, check_command_safety}
use ssh_mcp_pro.Policy.Engine.{
  PolicyContext, DenyReason, Platform, PolicyEngine, truthy, is_true, is_nonempty, present,
  is_tunnel, ◌then_check◌, deny_when,
}
use ssh_mcp_pro.Policy.Checks.{
  matches_any, matches_policy_value, check_lists, check_host, check_tunnel_bind_host,
  check_tunnel_remote_host, check_tunnel_ports, check_tunnel_policy, check_root_login,
  check_raw_sudo, check_safety, check_command_policy,
}
use ssh_mcp_pro.Policy.Combine.{then_check-none, deny_when-none, checks_iff, when_iff}
use ssh_mcp_pro.Policy.Conditions.{
  Passes, PortPasses, Given, CommandPasses, TunnelPasses, HostPasses,
}

module _ (platform : Platform) where
  module _ (engine : PolicyEngine) where
    lists_iff :
        (matching : Text → List Text → Bool) (empty : (v : Text) → matching v [] ≡ false)
        (deny allow : List Text) (value : Text)
        → (((is_nonempty deny && matching value deny) ≡ false)
            × ((is_nonempty allow && not (matching value allow)) ≡ false))
          ↔ Passes matching deny allow value
    lists_iff matching empty [] [] value = (λ h. (empty value, inl refl), λ h. (refl, refl))
    lists_iff matching empty [] (a ∷ as') value = ground (arith, empty value)
    lists_iff matching empty (d ∷ ds) [] value = ground (arith)
    lists_iff matching empty (d ∷ ds) (a ∷ as') value = ground (arith)

    lists_then_iff :
        {Q : Type 0} (matching : Text → List Text → Bool)
        (empty : (v : Text) → matching v [] ≡ false) (deny allow : List Text)
        (denied outside : DenyReason) (rest : Option DenyReason) (value : Text)
        → ((rest ≡ none) ↔ Q)
        → (deny_when (is_nonempty deny && matching value deny) denied
              then_check deny_when (is_nonempty allow && not (matching value allow)) outside
              then_check rest
            ≡ none)
          ↔ (Passes matching deny allow value × Q)
    lists_then_iff matching empty deny allow denied outside rest value h =
        let refused = is_nonempty deny && matching value deny in
        let left_out = is_nonempty allow && not (matching value allow) in
        let (there, back) =
          checks_iff (deny_when refused denied) (deny_when left_out outside then_check rest)
            (deny_when-none refused denied)
            (checks_iff (deny_when left_out outside) rest (deny_when-none left_out outside) h) in
        let (to, from) = lists_iff matching empty deny allow value in
        (
          λ e. (to ((there e).0, (there e).1.0), (there e).1.1),
          λ (passes, q). back ((from passes).0, ((from passes).1, q)),
        )

    policy_value-empty : (v : Text) → matches_policy_value platform v [] ≡ false
    policy_value-empty v = refl

    any_pattern-empty : (v : Text) → matches_any platform v [] ≡ false
    any_pattern-empty v = refl

    check_lists_iff :
        (deny allow : List Text) (denied outside : DenyReason) (value : Text)
        → (check_lists platform deny allow denied outside value ≡ none)
          ↔ Passes (matches_policy_value platform) deny allow value
    check_lists_iff deny allow denied outside value =
        let split =
          then_check-none
            (deny_when (is_nonempty deny && matches_policy_value platform value deny) denied)
            (deny_when (is_nonempty allow && not (matches_policy_value platform value allow))
              outside) in
        let first_is =
          deny_when-none (is_nonempty deny && matches_policy_value platform value deny) denied in
        let second_is =
          deny_when-none (is_nonempty allow && not (matches_policy_value platform value allow))
            outside in
        let lists = lists_iff (matches_policy_value platform) policy_value-empty deny allow value in
        (
          λ h. lists.0 (first_is.0 (split.0 h).0, second_is.0 (split.0 h).1),
          λ h. split.1 (first_is.1 (lists.1 h).0, second_is.1 (lists.1 h).1),
        )

    pub check_host_iff :
        (host : Option Text)
        → (check_host platform engine host ≡ none) ↔ Given (HostPasses platform engine) host
    check_host_iff none = (λ h. tt, λ h. refl)
    check_host_iff (some host) = ground (arith)

    check_bind_iff :
        (host : Option Text)
        → (check_tunnel_bind_host platform engine host ≡ none)
          ↔ Given
              (Passes
                (matches_policy_value platform)
                engine.config.tunnel_deny_bind_hosts
                engine.config.tunnel_allow_bind_hosts)
              host
    check_bind_iff none = (λ h. tt, λ h. refl)
    check_bind_iff (some host) =
        check_lists_iff engine.config.tunnel_deny_bind_hosts engine.config.tunnel_allow_bind_hosts
          (DenyReason.bind_host_denied host) (DenyReason.bind_host_outside host) host

    check_remote_iff :
        (host : Option Text)
        → (check_tunnel_remote_host platform engine host ≡ none)
          ↔ Given
              (Passes
                (matches_policy_value platform)
                engine.config.tunnel_deny_remote_hosts
                engine.config.tunnel_allow_remote_hosts)
              host
    check_remote_iff none = (λ h. tt, λ h. refl)
    check_remote_iff (some host) =
        check_lists_iff engine.config.tunnel_deny_remote_hosts
          engine.config.tunnel_allow_remote_hosts (DenyReason.remote_host_denied host)
          (DenyReason.remote_host_outside host) host

    check_ports_iff :
        (ports : List ℕ)
        → (check_tunnel_ports platform engine ports ≡ none) ↔ All (PortPasses platform engine) ports
    unfolding matches_port_policy
    check_ports_iff [] = (λ h. tt, λ h. refl)
    check_ports_iff (port ∷ ports) =
        lists_then_iff (λ v ports'. matches_port_policy port ports') (λ v. refl)
          engine.config.tunnel_deny_ports engine.config.tunnel_allow_ports
          (DenyReason.port_denied port) (DenyReason.port_outside port)
          (check_tunnel_ports platform engine ports) [] (check_ports_iff ports)

    pub check_tunnel_iff :
        (context : PolicyContext)
        → (check_tunnel_policy platform engine context ≡ none)
          ↔ ((is_tunnel context.action ≡ false) ⊎ TunnelPasses platform engine context)
    check_tunnel_iff context =
        let bind = check_tunnel_bind_host platform engine (truthy context.local_bind_host) in
        let remote = check_tunnel_remote_host platform engine (truthy context.remote_host) in
        let numbers = present context.local_port context.remote_port in
        let ports = check_tunnel_ports platform engine numbers in
        when_iff (is_tunnel context.action) (bind then_check remote then_check ports) (
          checks_iff bind (remote then_check ports)
            (check_bind_iff (truthy context.local_bind_host))
            (checks_iff remote ports (check_remote_iff (truthy context.remote_host))
              (check_ports_iff numbers)))

    pub check_root_iff :
        (username : Option Text)
        → (check_root_login platform engine username ≡ none)
          ↔ ((username ≢ some (codes "root")) ⊎ (engine.config.allow_root_login ≡ true))
    check_root_iff none = (λ h. inl (λ e. ground (arith, e)), λ h. refl)
    check_root_iff (some username) = ground (arith, text_eq.equal_iff username (codes "root"))

    pub check_sudo_iff :
        (raw : Option Bool)
        → (check_raw_sudo platform engine raw ≡ none)
          ↔ ((is_true raw ≡ false) ⊎ (engine.config.allow_raw_sudo ≡ true))
    check_sudo_iff none = ground arith
    check_sudo_iff (some b) = ground arith

    check_safety_iff :
        (found : Option DangerousPattern)
        → (check_safety platform engine found ≡ none)
          ↔ ((found ≡ none) ⊎ (engine.config.allow_destructive_commands ≡ true))
    check_safety_iff none = (λ h. inl refl, λ h. refl)
    check_safety_iff (some pattern) = ground arith

    pub check_command_iff :
        (command : Option Text)
        → (check_command_policy platform engine command ≡ none)
          ↔ Given (CommandPasses platform engine) command
    check_command_iff none = (λ h. tt, λ h. refl)
    check_command_iff (some command) =
        lists_then_iff (matches_any platform) any_pattern-empty engine.config.command_deny
          engine.config.command_allow DenyReason.command_denied DenyReason.command_not_allowed
          (check_safety platform engine (check_command_safety platform.matches command)) command
          (check_safety_iff (check_command_safety platform.matches command))
