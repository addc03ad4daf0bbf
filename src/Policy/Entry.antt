-- ===== src/Policy/Entry.antt =====
-- The entry points of src/policy.ts: `assertAllowed`, `check` and `explain`, with what the observer is told.
use ssh_mcp_pro.Base.{
  Bool, true, false, not, ◌&&◌, List, [], ◌∷◌, ◌++◌, Option, some, if◌then◌else◌,
}
use ssh_mcp_pro.Policy.Engine.{PolicyContext, PolicyDecision, Platform, PolicyEngine, DenyReason}
use ssh_mcp_pro.Policy.Checks.{evaluate}
use ssh_mcp_pro.Session.{PolicyMode, enforce, explain as explaining}

-- A decision, or the policy error of `createPolicyError`.
pub data Outcome : Type 0 where
  returned : PolicyDecision → Outcome
  policy_error : Option DenyReason → Outcome

abbrev pub Notices : Type 0
Notices = List (PolicyDecision × PolicyContext)

abbrev pub is_enforce : PolicyMode → Bool
is_enforce enforce = true
is_enforce explaining = false

-- Throws the denial in the mode `enforce`.
abbrev pub raise_denied : PolicyDecision → Outcome
raise_denied decision =
    if not decision.allowed && is_enforce decision.mode
    then policy_error decision.reason
    else returned decision

module _ (platform : Platform) (engine : PolicyEngine) where
  unfoldable pub assert_allowed : PolicyContext → Notices → Outcome × Notices
  assert_allowed context notices =
      let decision = evaluate platform engine context in
      (raise_denied decision, notices ++ (decision, context) ∷ [])

  unfoldable pub check : PolicyContext → Notices → PolicyDecision × Notices
  check context notices =
      let decision = evaluate platform engine context in
      (decision, notices ++ (decision, context) ∷ [])

  unfoldable pub explain : PolicyContext → Notices → PolicyDecision × Notices
  explain context notices =
      let explained = record context { mode = some explaining } in
      let decision = evaluate platform engine explained in
      (decision, notices ++ (decision, explained) ∷ [])
