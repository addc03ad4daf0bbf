-- ===== src/Policy/Files.antt =====
-- When the checks of src/policy.ts on local and remote paths find no denial.
use ssh_mcp_pro.Base.{
  ◌≡◌, ◌↔◌, ◌⊎◌, refl, true, false, List, [], ◌∷◌, Option, none, some, Text, text_eq, arith, All,
}
use ssh_mcp_pro.Policy.Paths.{
  slash, is_path_under, normalize_remote_posix_path, normalize_local_policy_path,
}
use ssh_mcp_pro.Policy.Engine.{
  PolicyContext, DenyReason, Platform, PolicyEngine, truthy, present, is_local_transfer,
  is_destructive_fs,
}
use ssh_mcp_pro.Policy.Checks.{
  is_under_any, check_local_path, check_local_paths, effective_allow_prefixes, check_remote_path,
  check_remote_paths, check_path_policy,
}
use ssh_mcp_pro.Policy.Combine.{
  checks_iff, either_iff, at_normal_iff, local_verdict_iff, remote_verdict_iff,
}
use ssh_mcp_pro.Policy.Conditions.{LocalPathPasses, RemotePathPasses, PathsPass}

module _ (platform : Platform) where
  module _ (engine : PolicyEngine) where
    check_local_path_iff :
        (path : Text) (normalized : Option Text)
        → (check_local_path platform engine path normalized ≡ none) ↔ (
            (normal : Text) × (normalized ≡ some normal)
            × ((is_under_any platform engine normal engine.local_path_deny_prefixes
                    platform.node.sep
                  ≡ false)
                × (is_under_any platform engine normal engine.local_path_allow_prefixes
                      platform.node.sep
                    ≡ true)))
    check_local_path_iff path none = (λ h. absurd (ground arith), λ h. absurd (ground (arith, h.1)))
    check_local_path_iff path (some normal) =
        at_normal_iff
          (λ x.
            (is_under_any platform engine x engine.local_path_deny_prefixes platform.node.sep
              ≡ false)
            × (is_under_any platform engine x engine.local_path_allow_prefixes platform.node.sep
                ≡ true))
          (check_local_path platform engine path (some normal)) normal
          (local_verdict_iff
            (λ prefix. is_path_under platform.node normal prefix (platform.node.sep ∷ []))
            (is_under_any platform engine normal engine.local_path_deny_prefixes platform.node.sep)
            engine.local_path_allow_prefixes (DenyReason.local_path_denied path)
            DenyReason.no_local_prefixes (DenyReason.local_path_outside path))

    check_local_paths_iff :
        (paths : List Text)
        → (check_local_paths platform engine paths ≡ none)
          ↔ All (LocalPathPasses platform engine) paths
    check_local_paths_iff [] = (λ h. tt, λ h. refl)
    check_local_paths_iff (path ∷ paths) =
        let normalized = normalize_local_policy_path platform.node path in
        checks_iff (check_local_path platform engine path normalized)
          (check_local_paths platform engine paths) (check_local_path_iff path normalized)
          (check_local_paths_iff paths)

    check_remote_path_iff :
        (context : PolicyContext) (path : Text) (normalized : Option Text)
        → (check_remote_path platform engine context path normalized ≡ none) ↔ (
            (normal : Text) × (normalized ≡ some normal)
            × ((is_under_any platform engine normal engine.path_deny_prefixes slash ≡ false)
                × ((is_destructive_fs context ≡ false)
                    ⊎ (engine.config.allow_destructive_fs ≡ true)
                    ⊎ (is_under_any platform engine normal
                          (effective_allow_prefixes platform engine)
                          slash
                        ≡ true))))
    check_remote_path_iff context path none =
        (λ h. absurd (ground arith), λ h. absurd (ground (arith, h.1)))
    check_remote_path_iff context path (some normal) =
        at_normal_iff
          (λ x.
            (is_under_any platform engine x engine.path_deny_prefixes slash ≡ false)
            × ((is_destructive_fs context ≡ false)
                ⊎ (engine.config.allow_destructive_fs ≡ true)
                ⊎ (is_under_any platform engine x (effective_allow_prefixes platform engine) slash
                    ≡ true)))
          (check_remote_path platform engine context path (some normal)) normal
          (remote_verdict_iff (is_under_any platform engine normal engine.path_deny_prefixes slash)
            (is_destructive_fs context) engine.config.allow_destructive_fs
            (is_under_any platform engine normal (effective_allow_prefixes platform engine) slash)
            (DenyReason.path_denied path) (DenyReason.destructive_outside path))

    check_remote_paths_iff :
        (context : PolicyContext) (paths : List Text)
        → (check_remote_paths platform engine context paths ≡ none)
          ↔ All (RemotePathPasses platform engine context) paths
    check_remote_paths_iff context [] = (λ h. tt, λ h. refl)
    check_remote_paths_iff context (path ∷ paths) =
        let normalized = normalize_remote_posix_path platform.node path in
        checks_iff (check_remote_path platform engine context path normalized)
          (check_remote_paths platform engine context paths)
          (check_remote_path_iff context path normalized) (check_remote_paths_iff context paths)

    pub check_path_policy_iff :
        (context : PolicyContext)
        → (check_path_policy platform engine context ≡ none)
          ↔ PathsPass platform engine context
              (present (truthy context.path) (truthy context.secondary_path))
    check_path_policy_iff context =
        let paths = present (truthy context.path) (truthy context.secondary_path) in
        either_iff (is_local_transfer context.action) (check_local_paths platform engine paths)
          (check_remote_paths platform engine context paths) (check_local_paths_iff paths)
          (check_remote_paths_iff context paths)
