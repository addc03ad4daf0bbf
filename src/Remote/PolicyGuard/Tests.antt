-- ===== src/Remote/PolicyGuard/Tests.antt =====
-- Runs of src/remote/policy-update-guard.ts with a reading of dates that knows one date.
use ssh_mcp_pro.Base.{
  ◌≡◌, ◌≤◌, ◌↔◌, refl, ap, false, String, string_eq, ◌==◌, if◌then◌else◌, Option, none, some, ℤ,
  pos, [], ◌∷◌, arith,
}
use ssh_mcp_pro.Remote.Types.{AgentPolicy, PolicyUpdateEnvelope, read_only, operations}
use ssh_mcp_pro.Remote.PolicyGuard.{
  validate_policy_update, apply_agent_policy_update, PolicyState, accepted,
}
use ssh_mcp_pro.Remote.PolicyGuard.Replay.{
  validate_policy_update-accepted_iff, version-apply_all-le, apply-replay, apply_all, IsAcceptable,
}

abbrev read_date : String → Option ℤ
read_date date = if date == "1970-01-01T00:16:40Z" then some (pos 1000000) else none

abbrev old_policy : AgentPolicy
old_policy = record {
  profile = read_only;
  capabilities = λ c. false;
  allow_paths = [];
  deny_paths = [];
  allow_services = [];
  allow_containers = [];
  max_output_bytes = 200000;
  max_action_timeout_seconds = 60;
  version = 1;
}

abbrev new_policy : AgentPolicy
new_policy = record old_policy { profile = operations; version = 2 }

abbrev example_update : PolicyUpdateEnvelope
example_update = record {
  agent_id = "agent";
  policy = new_policy;
  policy_version = 2;
  issued_at = "1970-01-01T00:16:40Z";
  nonce = "n";
  signature = "s";
}

abbrev start_state : PolicyState
start_state = record { policy = old_policy; seen_nonces = [] }

validate_policy_update-accepted_iff_example :
    ((validate_policy_update read_date example_update 1 [] 1000500).1 ≡ accepted)
    ↔ IsAcceptable read_date example_update 1 1000500 []
validate_policy_update-accepted_iff_example =
    validate_policy_update-accepted_iff read_date example_update 1 [] 1000500

-- The update of the example is accepted.
example_update_accepted :
    (validate_policy_update read_date example_update 1 [] 1000500).1 ≡ accepted
unfolding validate_policy_update ssh_mcp_pro.Remote.Nonces.has_seen_nonce ssh_mcp_pro.Table.has
example_update_accepted = refl

example_update_applied :
    (apply_agent_policy_update read_date example_update start_state 1000500 1000501).policy.version
    ≡ 2
unfolding apply_agent_policy_update validate_policy_update ssh_mcp_pro.Remote.Nonces.has_seen_nonce
    ssh_mcp_pro.Table.has
example_update_applied = refl

version-apply_all-le_example :
    1 ≤ (apply_all read_date start_state ((example_update, 1000500, 1000501) ∷ [])).policy.version
version-apply_all-le_example =
    version-apply_all-le read_date start_state ((example_update, 1000500, 1000501) ∷ [])

apply-replay_example :
    (apply_agent_policy_update read_date example_update
      (apply_all read_date
        (apply_agent_policy_update read_date example_update start_state 1000500 1000501)
        [])
      9000000
      9000001).policy
    ≡ (apply_all read_date
        (apply_agent_policy_update read_date example_update start_state 1000500 1000501)
        []).policy
apply-replay_example =
    apply-replay read_date example_update start_state 1000500 1000501 [] 9000000 9000001
      (λ e. absurd (omega (arith, ap (λ p. p.version) e, example_update_applied)))
