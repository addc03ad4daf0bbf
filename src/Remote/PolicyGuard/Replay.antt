-- ===== src/Remote/PolicyGuard/Replay.antt =====
-- Sequences of policy updates, for src/remote/policy-update-guard.ts and `applyAgentPolicyUpdate` of
-- src/remote/agent-cli.ts.
use ssh_mcp_pro.Base.{
  ap, ◌↔◌, ◌⊎◌, inl, inr, ℕ, ◌≤◌, ◌<◌, ◌≡◌, ◌≢◌, refl, false, String, List, [], ◌∷◌, Option, none,
  some, ℤ, older_than, later_than, arith,
}
use ssh_mcp_pro.Table.{Table}
use ssh_mcp_pro.Remote.Types.{PolicyUpdateEnvelope}
use ssh_mcp_pro.Remote.Nonces.{has_seen_nonce}
use ssh_mcp_pro.Remote.PolicyGuard.{
  policy_update_max_age_ms, policy_update_max_future_skew_ms, PolicyUpdateValidation, accepted,
  rejected, PolicyUpdateRejectionReason, validate_policy_update, PolicyState,
  apply_agent_policy_update,
}

-- What an accepted update satisfies.
pub record IsAcceptable (parse_date : String → Option ℤ) (update : PolicyUpdateEnvelope)
    (current now : ℕ) (seen_nonces : Table String ℕ) : Type 0 where
  pub unseen : (has_seen_nonce seen_nonces update.nonce now).1 ≡ false
  pub issued : ℤ
  pub dated : parse_date update.issued_at ≡ some issued
  pub recent : older_than now issued policy_update_max_age_ms ≡ false
  pub not_ahead : later_than now issued policy_update_max_future_skew_ms ≡ false
  pub versioned : update.policy_version ≡ update.policy.version
  pub newer : current < update.policy_version

module _ (parse_date : String → Option ℤ) where
  -- An update is accepted exactly when its nonce is unseen, its date parses and lies at most
  -- 300000 ms in the past and 30000 ms in the future, its two versions agree, and the version is
  -- newer than the current one.
  pub validate_policy_update-accepted_iff :
      (update : PolicyUpdateEnvelope) (current : ℕ) (seen_nonces : Table String ℕ) (now : ℕ)
      → ((validate_policy_update parse_date update current seen_nonces now).1 ≡ accepted)
        ↔ IsAcceptable parse_date update current now seen_nonces
  unfolding validate_policy_update
  validate_policy_update-accepted_iff update current seen_nonces now =
      (to (parse_date update.issued_at) refl, from)
    where
      to :
          (d : Option ℤ)
          → parse_date update.issued_at ≡ d
          → (validate_policy_update parse_date update current seen_nonces now).1 ≡ accepted
          → IsAcceptable parse_date update current now seen_nonces
      to none e h = ground arith
      to (some issued) e h = record {
        unseen = ground arith;
        issued = issued;
        dated = e;
        recent = ground arith;
        not_ahead = ground arith;
        versioned = ground arith;
        newer = ground arith;
      }

      from :
          IsAcceptable parse_date update current now seen_nonces
          → (validate_policy_update parse_date update current seen_nonces now).1 ≡ accepted
      from a = ground arith

  -- The updates that reach the agent, each with the two readings of the clock.
  pub apply_all : PolicyState → List (PolicyUpdateEnvelope × ℕ × ℕ) → PolicyState
  apply_all s [] = s
  apply_all s ((update, now, then_now) ∷ later) =
      apply_all (apply_agent_policy_update parse_date update s now then_now) later

  apply_step :
      (update : PolicyUpdateEnvelope) (s : PolicyState) (now then_now : ℕ)
      → ((apply_agent_policy_update parse_date update s now then_now).policy ≡ s.policy)
        ⊎ (((apply_agent_policy_update parse_date update s now then_now).policy ≡ update.policy)
            × (s.policy.version < update.policy.version))
  unfolding apply_agent_policy_update
  apply_step update s now then_now =
      elim (verdict
        (validate_policy_update parse_date update s.policy.version s.seen_nonces now).1) [
          | inl e ↦
              let a =
                (validate_policy_update-accepted_iff update s.policy.version s.seen_nonces now).0
                  e in
              inr (ground arith, ground (arith, a.versioned, a.newer))
          | inr (r, e) ↦ inl (ground arith)
        ]
    where
      verdict :
          (v : PolicyUpdateValidation)
          → (v ≡ accepted) ⊎ ((r : PolicyUpdateRejectionReason) × (v ≡ rejected r))
      verdict accepted = inl refl
      verdict (rejected r) = inr (r, refl)

  version-apply-le :
      (update : PolicyUpdateEnvelope) (s : PolicyState) (now then_now : ℕ)
      → s.policy.version
        ≤ (apply_agent_policy_update parse_date update s now then_now).policy.version
  version-apply-le update s now then_now = ground (arith, apply_step update s now then_now)

  -- Whatever updates arrive, and at whatever times, the version of the policy in force never falls.
  pub version-apply_all-le :
      (s : PolicyState) (updates : List (PolicyUpdateEnvelope × ℕ × ℕ))
      → s.policy.version ≤ (apply_all s updates).policy.version
  unfolding apply_all
  version-apply_all-le s [] = omega arith
  version-apply_all-le s ((update, now, then_now) ∷ later) = omega (
    arith,
    version-apply-le update s now then_now,
    version-apply_all-le (apply_agent_policy_update parse_date update s now then_now) later,
  )

  -- An update that changed the policy in force changes it never again: replayed after any further
  -- updates and at any time, it leaves the policy as it is.
  pub apply-replay :
      (update : PolicyUpdateEnvelope) (s : PolicyState) (now then_now : ℕ)
      (later : List (PolicyUpdateEnvelope × ℕ × ℕ)) (again then_again : ℕ)
      → (apply_agent_policy_update parse_date update s now then_now).policy ≢ s.policy
      → let t = apply_all (apply_agent_policy_update parse_date update s now then_now) later in
        (apply_agent_policy_update parse_date update t again then_again).policy ≡ t.policy
  apply-replay update s now then_now later again then_again changed =
      let first = apply_agent_policy_update parse_date update s now then_now in
      let t = apply_all first later in
      elim (apply_step update s now then_now) [
        | inl same ↦ absurd (changed same)
        | inr (installed, newer) ↦ elim (apply_step update t again then_again) [
          | inl same ↦ same
          | inr (_, later_newer) ↦
              absurd
                (omega (arith, ap (λ p. p.version) installed, version-apply_all-le first later))
        ]
      ]
