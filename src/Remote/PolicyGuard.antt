-- ===== src/Remote/PolicyGuard.antt =====
-- src/remote/policy-update-guard.ts, and how src/remote/agent-cli.ts applies a signed policy
-- update. `parse_date` is JavaScript's `Date.parse`, with `none` for NaN.
pub mod Replay
mod Tests
use ssh_mcp_pro.Base.{
  ℕ, ◌+◌, Bool, true, false, not, String, Option, none, some, ℤ, older_than, later_than,
  if◌then◌else◌, nat_beq, leb,
}
use ssh_mcp_pro.Table.{Table}
use ssh_mcp_pro.Remote.Types.{AgentPolicy, PolicyUpdateEnvelope}
use ssh_mcp_pro.Remote.Nonces.{agent_nonce_ttl_ms, has_seen_nonce, remember_nonce}

abbrev pub policy_update_max_age_ms : ℕ
policy_update_max_age_ms = agent_nonce_ttl_ms

abbrev pub policy_update_max_future_skew_ms : ℕ
policy_update_max_future_skew_ms = 30000

pub data PolicyUpdateRejectionReason : Type 0 where
  replay stale future version_mismatch not_newer : PolicyUpdateRejectionReason

pub data PolicyUpdateValidation : Type 0 where
  accepted : PolicyUpdateValidation
  rejected : PolicyUpdateRejectionReason → PolicyUpdateValidation

module _ (parse_date : String → Option ℤ) where
  -- The tests after the one for a replay.
  pub validate_unseen : PolicyUpdateEnvelope → ℕ → ℕ → PolicyUpdateValidation
  validate_unseen update current now = elim (parse_date update.issued_at) [
    | none ↦ rejected stale
    | some issued_at ↦
        if older_than now issued_at policy_update_max_age_ms
        then rejected stale
        else if later_than now issued_at policy_update_max_future_skew_ms
        then rejected future
        else if not (nat_beq update.policy_version update.policy.version)
        then rejected version_mismatch
        else if leb update.policy_version current
        then rejected not_newer
        else accepted
  ]

  -- The pruned window, and the verdict.
  unfoldable pub validate_policy_update :
      PolicyUpdateEnvelope → ℕ → Table String ℕ → ℕ → Table String ℕ × PolicyUpdateValidation
  unfolding validate_unseen
  validate_policy_update update current seen_nonces now =
      let (live, seen) = has_seen_nonce seen_nonces update.nonce now in
      (live, if seen then rejected replay else validate_unseen update current now)

-- What the agent process keeps: its policy, which the executor shares, and the nonces.
pub record PolicyState : Type 0 where
  pub policy : AgentPolicy
  pub seen_nonces : Table String ℕ

-- `saveConfig` succeeds; `now` is read once for the check and once for the memory.
unfoldable pub apply_agent_policy_update :
    (String → Option ℤ) → PolicyUpdateEnvelope → PolicyState → ℕ → ℕ → PolicyState
apply_agent_policy_update parse_date update s now then_now =
    let (live, verdict) =
      validate_policy_update parse_date update s.policy.version s.seen_nonces now in
    elim verdict [
      | rejected reason ↦ record s { seen_nonces = live }
      | accepted ↦ record {
        policy = update.policy;
        seen_nonces = remember_nonce live update.nonce then_now;
      }
    ]
