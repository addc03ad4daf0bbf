-- ===== src/Policy/Verdict.antt =====
-- What the verdict of src/policy.ts means.
use ssh_mcp_pro.Base.{◌≡◌, ◌↔◌, refl, true, Option, none, some, text_eq, or_else, arith}
use ssh_mcp_pro.Policy.Engine.{
  PolicyContext, DenyReason, Platform, PolicyEngine, truthy, ◌then_check◌,
}
use ssh_mcp_pro.Policy.Checks.{
  check_host, check_tunnel_policy, check_root_login, check_raw_sudo, check_command_policy,
  check_path_policy, find_denial, decide, evaluate,
}
use ssh_mcp_pro.Session.{PolicyMode}
use ssh_mcp_pro.Policy.Engine.{PolicyAction}
use ssh_mcp_pro.Policy.Combine.{checks_iff}
use ssh_mcp_pro.Policy.Conditions.{Permitted}
use ssh_mcp_pro.Policy.Requests.{
  check_host_iff, check_tunnel_iff, check_root_iff, check_sudo_iff, check_command_iff,
}
use ssh_mcp_pro.Policy.Files.{check_path_policy_iff}

decide-allowed_iff :
    (mode : PolicyMode) (action : PolicyAction) (o : Option DenyReason)
    → ((decide mode action o).allowed ≡ true) ↔ (o ≡ none)
decide-allowed_iff mode action none = (λ h. refl, λ h. refl)
decide-allowed_iff mode action (some r) = ground arith

module _ (platform : Platform) where
  module _ (engine : PolicyEngine) where
    find_denial_iff :
        (context : PolicyContext)
        → (find_denial platform engine context ≡ none) ↔ Permitted platform engine context
    unfolding find_denial
    find_denial_iff context =
        let host = check_host platform engine (truthy context.host) in
        let tunnel = check_tunnel_policy platform engine context in
        let root = check_root_login platform engine context.username in
        let sudo = check_raw_sudo platform engine context.raw_sudo in
        let command = check_command_policy platform engine (truthy context.command) in
        let paths = check_path_policy platform engine context in
        checks_iff host (tunnel then_check root then_check sudo then_check command then_check paths)
          (check_host_iff platform engine (truthy context.host))
          (checks_iff tunnel (root then_check sudo then_check command then_check paths)
            (check_tunnel_iff platform engine context)
            (checks_iff root (sudo then_check command then_check paths)
              (check_root_iff platform engine context.username)
              (checks_iff sudo (command then_check paths)
                (check_sudo_iff platform engine context.raw_sudo)
                (checks_iff command paths
                  (check_command_iff platform engine (truthy context.command))
                  (check_path_policy_iff platform engine context)))))

    -- The engine allows an operation exactly when it is permitted: its host is allowed, its tunnel's
    -- hosts and ports pass their lists, a root login or raw sudo is enabled, its command passes its
    -- lists and is safe or allowed to be destructive, and each of its paths has a normal form that is
    -- under no denied prefix and, where the policy asks for it, under an allowed one.
    pub evaluate-allowed_iff :
        (context : PolicyContext)
        → ((evaluate platform engine context).allowed ≡ true) ↔ Permitted platform engine context
    unfolding evaluate
    evaluate-allowed_iff context =
        let (to, from) =
          decide-allowed_iff (or_else context.mode engine.config.mode) context.action
            (find_denial platform engine context) in
        let (permit, clear) = find_denial_iff context in (λ h. permit (to h), λ p. from (clear p))
