-- ===== src/Policy/Conditions.antt =====
-- The conditions under which the policy of src/policy.ts allows an operation, one by one and without
-- the order of the checks.
use ssh_mcp_pro.Base.{
  ℕ, ◌≡◌, ◌≢◌, ◌⊎◌, Bool, true, false, List, [], Option, none, some, Text, codes, text_eq, All,
}
use ssh_mcp_pro.Policy.Paths.{slash, normalize_remote_posix_path, normalize_local_policy_path}
use ssh_mcp_pro.Policy.Ports.{matches_port_policy}
use ssh_mcp_pro.Policy.Safety.{check_command_safety}
use ssh_mcp_pro.Policy.Engine.{
  PolicyContext, Platform, PolicyEngine, truthy, is_true, present, is_tunnel, is_local_transfer,
  is_destructive_fs,
}
use ssh_mcp_pro.Policy.Checks.{
  matches_any, matches_policy_value, is_under_any, effective_allow_prefixes,
}

-- A value that a pair of lists lets pass: no entry of the first matches it, and the second is empty
-- or has an entry that does.
abbrev pub Passes : (Text → List Text → Bool) → List Text → List Text → Text → Type 0
Passes matching deny allow value =
    (matching value deny ≡ false) × ((allow ≡ []) ⊎ (matching value allow ≡ true))

abbrev pub Given : (Text → Type 0) → Option Text → Type 0
Given P none = Unit
Given P (some value) = P value

module _ (platform : Platform) where
  module _ (engine : PolicyEngine) where
    abbrev pub PortPasses : ℕ → Type 0
    PortPasses port =
        (matches_port_policy port engine.config.tunnel_deny_ports ≡ false)
        × ((engine.config.tunnel_allow_ports ≡ [])
            ⊎ (matches_port_policy port engine.config.tunnel_allow_ports ≡ true))

    abbrev pub CommandPasses : Text → Type 0
    CommandPasses command =
        Passes (matches_any platform) engine.config.command_deny engine.config.command_allow command
        × ((check_command_safety platform.matches command ≡ none)
            ⊎ (engine.config.allow_destructive_commands ≡ true))

    -- A path of the server's host: its normal form is under an allowed prefix and under no denied one.
    abbrev pub LocalPathPasses : Text → Type 0
    LocalPathPasses path =
        (normal : Text) × (normalize_local_policy_path platform.node path ≡ some normal)
        × ((is_under_any platform engine normal engine.local_path_deny_prefixes platform.node.sep
              ≡ false)
            × (is_under_any platform engine normal engine.local_path_allow_prefixes
                  platform.node.sep
                ≡ true))

    -- A path of the remote host: under no denied prefix, and under an allowed one for a destructive
    -- operation, unless these are allowed everywhere.
    abbrev pub RemotePathPasses : PolicyContext → Text → Type 0
    RemotePathPasses context path =
        (normal : Text) × (normalize_remote_posix_path platform.node path ≡ some normal)
        × ((is_under_any platform engine normal engine.path_deny_prefixes slash ≡ false)
            × ((is_destructive_fs context ≡ false)
                ⊎ (engine.config.allow_destructive_fs ≡ true)
                ⊎ (is_under_any platform engine normal (effective_allow_prefixes platform engine)
                      slash
                    ≡ true)))

    abbrev pub PathsPass : PolicyContext → List Text → Type 0
    PathsPass context paths =
        ((is_local_transfer context.action ≡ true) × All LocalPathPasses paths)
        ⊎ ((is_local_transfer context.action ≡ false) × All (RemotePathPasses context) paths)

    abbrev pub TunnelPasses : PolicyContext → Type 0
    TunnelPasses context =
        Given
          (Passes (matches_policy_value platform) engine.config.tunnel_deny_bind_hosts
            engine.config.tunnel_allow_bind_hosts)
          (truthy context.local_bind_host)
        × (Given
              (Passes (matches_policy_value platform) engine.config.tunnel_deny_remote_hosts
                engine.config.tunnel_allow_remote_hosts)
              (truthy context.remote_host)
            × All PortPasses (present context.local_port context.remote_port))

    abbrev pub HostPasses : Text → Type 0
    HostPasses host =
        (engine.config.allowed_hosts ≡ [])
        ⊎ (matches_policy_value platform host engine.config.allowed_hosts ≡ true)

    abbrev pub Permitted : PolicyContext → Type 0
    Permitted context =
        Given HostPasses (truthy context.host)
        × (((is_tunnel context.action ≡ false) ⊎ TunnelPasses context)
            × (((context.username ≢ some (codes "root")) ⊎ (engine.config.allow_root_login ≡ true))
                × (((is_true context.raw_sudo ≡ false) ⊎ (engine.config.allow_raw_sudo ≡ true))
                    × (Given CommandPasses (truthy context.command)
                        × PathsPass context
                            (present (truthy context.path) (truthy context.secondary_path))))))
