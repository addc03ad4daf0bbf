-- ===== src/Policy/Enforcement.antt =====
-- What the entry points of src/policy.ts do with the verdict.
use ssh_mcp_pro.Base.{
  ◌≡◌, ◌↔◌, refl, true, [], ◌∷◌, ◌++◌, Option, none, some, or_else, arith, sym, subst, ap,
}
use ssh_mcp_pro.Session.{PolicyMode, enforce, explain as explaining}
use ssh_mcp_pro.Policy.Engine.{
  PolicyAction, PolicyContext, PolicyDecision, Platform, PolicyEngine, DenyReason,
}
use ssh_mcp_pro.Policy.Checks.{evaluate, decide, find_denial}
use ssh_mcp_pro.Policy.Conditions.{Permitted}
use ssh_mcp_pro.Policy.Verdict.{evaluate-allowed_iff}
use ssh_mcp_pro.Policy.Entry.{returned, Notices, raise_denied, assert_allowed, check, explain}

raise_denied-enforce :
    (action : PolicyAction) (o : Option DenyReason)
    → ((out : PolicyDecision) × (raise_denied (decide enforce action o) ≡ returned out))
      ↔ ((decide enforce action o).allowed ≡ true)
raise_denied-enforce action none = (λ h. refl, λ h. (decide enforce action none, refl))
raise_denied-enforce action (some r) =
    (λ h. absurd (ground (arith, h.1)), λ h. absurd (ground arith))

decide-mode :
    (mode : PolicyMode) (action : PolicyAction) (o : Option DenyReason)
    → decide explaining action o ≡ record (decide mode action o) { mode = explaining }
decide-mode mode action none = refl
decide-mode mode action (some r) = refl

module _ (platform : Platform) (engine : PolicyEngine) where
  -- In the mode `enforce`, the assertion returns exactly when the operation is permitted, and throws
  -- otherwise.
  pub assert_allowed-enforces :
      (context : PolicyContext) (notices : Notices)
      → or_else context.mode engine.config.mode ≡ enforce
      → ((out : PolicyDecision) × ((assert_allowed platform engine context notices).0
            ≡ returned out))
        ↔ Permitted platform engine context
  unfolding assert_allowed evaluate
  assert_allowed-enforces context notices h =
      let mode = or_else context.mode engine.config.mode in
      let denial = find_denial platform engine context in
      let (to, from) = evaluate-allowed_iff platform engine context in
      let (allow, return) =
        subst
          (λ m.
            ((out : PolicyDecision) × (raise_denied (decide m context.action denial)
                ≡ returned out))
            ↔ ((decide mode context.action denial).allowed ≡ true))
          (sym h)
          (subst
            (λ m.
              ((out : PolicyDecision) × (raise_denied (decide enforce context.action denial)
                  ≡ returned out))
              ↔ ((decide m context.action denial).allowed ≡ true))
            (sym h) (raise_denied-enforce context.action denial)) in
      (λ r. to (allow r), λ permitted. return (from permitted))

  -- An explanation is the decision that a check of the same operation takes, but in the mode
  -- `explain`, so it is allowed exactly when the operation is permitted. The check, the assertion and
  -- the explanation each tell the observer once, after what it had been told before: the check and the
  -- assertion the decision and the context, the explanation its own decision and the context in the
  -- mode `explain`.
  pub explain-agrees :
      (context : PolicyContext) (notices : Notices)
      → let decision : PolicyDecision = (check platform engine context notices).0 in
        let explained : PolicyDecision = record decision { mode = explaining } in
        ((explain platform engine context notices).0 ≡ explained)
        × ((explained.allowed ≡ true) ↔ Permitted platform engine context)
        × ((explain platform engine context notices).1
            ≡ notices ++ (explained, record context { mode = some explaining }) ∷ [])
        × ((check platform engine context notices).1 ≡ notices ++ (decision, context) ∷ [])
        × ((assert_allowed platform engine context notices).1 ≡ notices ++ (decision, context) ∷ [])
  unfolding explain check assert_allowed evaluate find_denial
  explain-agrees context notices =
      let mode = or_else context.mode engine.config.mode in
      let same = decide-mode mode context.action (find_denial platform engine context) in
      (
        same,
        evaluate-allowed_iff platform engine context,
        ap (λ (d : PolicyDecision). notices ++ (d, record context { mode = some explaining }) ∷ [])
            same,
        refl,
        refl,
      )
