-- ===== src/Policy/Tests.antt =====
-- Runs of src/policy.ts, with paths that are in normal form already.
use ssh_mcp_pro.Base.{
  ◌≡◌, ◌↔◌, ◌⊎◌, ◌≤◌, refl, true, false, [], ◌∷◌, ◌++◌, none, some, Text, codes, text_eq,
  starts_with, includes,
}
use ssh_mcp_pro.Session.{enforce, explain as explaining}
use ssh_mcp_pro.Policy.Paths.{
  NodePath, slash, is_segment_boundary_path_match, strip_trailing_separators,
  resolve_local_existing_prefix,
}
use ssh_mcp_pro.Policy.Paths.Boundary.{is_segment_boundary_path_match_iff}
use ssh_mcp_pro.Policy.Ports.{PortRange, parse_port_range, matches_port_policy}
use ssh_mcp_pro.Policy.Ports.Ranges.{matches_port_policy-within}
use ssh_mcp_pro.Policy.Engine.{
  PolicyConfig, PolicyContext, PolicyDecision, Platform, PolicyEngine, fs_remove, proc_exec,
}
use ssh_mcp_pro.Policy.Checks.{create, evaluate}
use ssh_mcp_pro.Policy.Conditions.{Permitted}
use ssh_mcp_pro.Policy.Verdict.{evaluate-allowed_iff}
use ssh_mcp_pro.Policy.Entry.{returned, assert_allowed, check, explain}
use ssh_mcp_pro.Policy.Enforcement.{assert_allowed-enforces, explain-agrees}

abbrev parent_of : Text → Text
parent_of path = []

abbrev node : NodePath
node = record {
  posix_normalize = λ s. s;
  resolve = λ s. s;
  normalize = λ s. s;
  dirname = parent_of;
  basename = λ s. s;
  join = λ s pending. s;
  root_of = λ s. slash ∷ [];
  sep = slash;
  realpath = λ s. none;
}

-- A pattern matches the values that begin with it, and no command is dangerous.
abbrev platform : Platform
platform = record {
  node = node;
  compile = λ pattern. some (λ value. starts_with value pattern);
  matches = λ pattern command. false;
}

abbrev config : PolicyConfig
config = record {
  mode = enforce;
  allow_root_login = false;
  allow_raw_sudo = false;
  allow_destructive_commands = false;
  allow_destructive_fs = false;
  allowed_hosts = codes "web" ∷ [];
  command_allow = [];
  command_deny = codes "rm" ∷ [];
  path_allow_prefixes = codes "/srv" ∷ [];
  path_deny_prefixes = codes "/srv/keys" ∷ [];
  local_path_allow_prefixes = [];
  local_path_deny_prefixes = [];
  tunnel_allow_bind_hosts = [];
  tunnel_deny_bind_hosts = [];
  tunnel_allow_remote_hosts = [];
  tunnel_deny_remote_hosts = [];
  tunnel_allow_ports = [];
  tunnel_deny_ports = [];
}

abbrev engine : PolicyEngine
engine = record {
  config = config;
  path_allow_prefixes = codes "/srv" ∷ [];
  path_deny_prefixes = codes "/srv/keys" ∷ [];
  default_path_allow_prefixes =
      codes "/tmp" ∷ codes "/var/tmp" ∷ codes "/home" ∷ codes "/Users" ∷ [];
  local_path_allow_prefixes = [];
  local_path_deny_prefixes = [];
}

-- The constructor makes this engine of the configuration.
created : create platform config ≡ some engine
unfolding ssh_mcp_pro.Policy.Paths.normalize_policy_paths ssh_mcp_pro.Policy.Paths.normalize_each
    ssh_mcp_pro.Policy.Paths.distinct ssh_mcp_pro.Policy.Paths.normalize_remote_posix_path
    ssh_mcp_pro.Policy.Paths.strip_trailing_separators ssh_mcp_pro.Policy.Paths.strip_reversed
created = refl

abbrev removal : Text → PolicyContext
removal path = record {
  action = fs_remove;
  host = some (codes "web1");
  username = some (codes "deploy");
  command = none;
  path = some path;
  secondary_path = none;
  local_bind_host = none;
  local_port = none;
  remote_host = none;
  remote_port = none;
  mode = none;
  raw_sudo = none;
  destructive = none;
}

-- A removal under the allowed prefix passes; a longer name, and a denied prefix, do not.
removals :
    ((evaluate platform engine (removal (codes "/srv/app"))).allowed ≡ true)
    × ((evaluate platform engine (removal (codes "/srvx/app"))).allowed ≡ false)
    × ((evaluate platform engine (removal (codes "/srv/keys/id"))).allowed ≡ false)
unfolding evaluate ssh_mcp_pro.Policy.Checks.find_denial ssh_mcp_pro.Policy.Engine.truthy
    ssh_mcp_pro.Policy.Paths.normalize_remote_posix_path
    ssh_mcp_pro.Policy.Paths.strip_trailing_separators ssh_mcp_pro.Policy.Paths.strip_reversed
    ssh_mcp_pro.Policy.Paths.is_path_under is_segment_boundary_path_match
removals = (refl, refl, refl)

is_segment_boundary_path_match_iff_example :
    (is_segment_boundary_path_match (codes "/srv/app") (codes "/srv") (codes "/") ≡ true) ↔ (
      (codes "/srv/app" ≡ codes "/srv")
      ⊎ ((rest : Text) × (codes "/srv/app" ≡ codes "/srv" ++ codes "/" ++ rest)))
is_segment_boundary_path_match_iff_example =
    is_segment_boundary_path_match_iff (codes "/srv/app") (codes "/srv") (codes "/")

matched : matches_port_policy 8080 (codes "22" ∷ codes " 8000-8100 " ∷ []) ≡ true
unfolding matches_port_policy parse_port_range ssh_mcp_pro.Policy.Ports.trim
    ssh_mcp_pro.Policy.Ports.drop_spaces ssh_mcp_pro.Policy.Ports.is_space
matched = refl

matches_port_policy-within_example :
    (policy : Text) × (range : PortRange) × (includes (codes "22" ∷ codes " 8000-8100 " ∷ []) policy
      ≡ true)
    × (parse_port_range policy ≡ some range)
    × (range.start ≤ 8080)
    × (8080 ≤ range.end)
    × (range.end ≤ 65535)
matches_port_policy-within_example =
    matches_port_policy-within 8080 (codes "22" ∷ codes " 8000-8100 " ∷ []) matched

evaluate-allowed_iff_example :
    ((evaluate platform engine (removal (codes "/srv/app"))).allowed ≡ true)
    ↔ Permitted platform engine (removal (codes "/srv/app"))
evaluate-allowed_iff_example = evaluate-allowed_iff platform engine (removal (codes "/srv/app"))

assert_allowed-enforces_example :
    ((out : PolicyDecision) × ((assert_allowed platform engine (removal (codes "/srv/app")) []).0
        ≡ returned out))
    ↔ Permitted platform engine (removal (codes "/srv/app"))
assert_allowed-enforces_example =
    assert_allowed-enforces platform engine (removal (codes "/srv/app")) [] refl

explain-agrees_example :
    let context = removal (codes "/etc") in
    let decision : PolicyDecision = (check platform engine context []).0 in
    let explained : PolicyDecision = record decision { mode = explaining } in
    ((explain platform engine context []).0 ≡ explained)
    × ((explained.allowed ≡ true) ↔ Permitted platform engine context)
    × ((explain platform engine context []).1
        ≡ [] ++ (explained, record context { mode = some explaining }) ∷ [])
    × ((check platform engine context []).1 ≡ [] ++ (decision, context) ∷ [])
    × ((assert_allowed platform engine context []).1 ≡ [] ++ (decision, context) ∷ [])
explain-agrees_example = explain-agrees platform engine (removal (codes "/etc")) []
