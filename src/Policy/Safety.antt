-- ===== src/Policy/Safety.antt =====
-- `checkCommandSafety` of src/safety.ts: the list of dangerous patterns, in their order, and the first
-- that matches. What a pattern matches is decided by the regular expressions, the parameter `matches`.
use ssh_mcp_pro.Base.{Bool, List, [], ◌∷◌, Option, none, some, Text, if◌then◌else◌}
use ssh_mcp_pro.Policy.Ports.{trim}

pub data RiskLevel : Type 0 where
  low : RiskLevel
  medium : RiskLevel
  high : RiskLevel
  critical : RiskLevel

-- One constructor for each entry of DANGEROUS_PATTERNS.
pub data DangerousPattern : Type 0 where
  remove_root : DangerousPattern
  remove_root_files : DangerousPattern
  make_filesystem : DangerousPattern
  writes_to_block_device : DangerousPattern
  chmod_root : DangerousPattern
  changes_root_ownership : DangerousPattern
  fork_bomb : DangerousPattern
  redirect_to_disk : DangerousPattern
  shutdown : DangerousPattern
  stop_network_service : DangerousPattern
  flush_firewall : DangerousPattern
  disable_firewall : DangerousPattern
  remove_current_directory : DangerousPattern
  overwrite_system_file : DangerousPattern
  curl_to_shell : DangerousPattern
  wget_to_shell : DangerousPattern

abbrev pub dangerous_patterns : List DangerousPattern
dangerous_patterns =
    remove_root ∷ remove_root_files ∷ make_filesystem ∷ writes_to_block_device ∷ chmod_root
    ∷ changes_root_ownership ∷ fork_bomb ∷ redirect_to_disk ∷ shutdown ∷ stop_network_service
    ∷ flush_firewall ∷ disable_firewall ∷ remove_current_directory ∷ overwrite_system_file
    ∷ curl_to_shell ∷ wget_to_shell ∷ []

unfoldable pub risk_level : DangerousPattern → RiskLevel
risk_level remove_root = critical
risk_level remove_root_files = critical
risk_level make_filesystem = critical
risk_level writes_to_block_device = critical
risk_level chmod_root = high
risk_level changes_root_ownership = high
risk_level fork_bomb = critical
risk_level redirect_to_disk = critical
risk_level shutdown = medium
risk_level stop_network_service = high
risk_level flush_firewall = medium
risk_level disable_firewall = medium
risk_level remove_current_directory = low
risk_level overwrite_system_file = high
risk_level curl_to_shell = medium
risk_level wget_to_shell = medium

abbrev pub first_match : (DangerousPattern → Bool) → List DangerousPattern → Option DangerousPattern
first_match p [] = none
first_match p (x ∷ xs) = let rest = first_match p xs in if p x then some x else rest

-- `none` is `{ safe: true }`; a pattern stands for its warning, its suggestion and its risk level.
unfoldable pub check_command_safety :
    (DangerousPattern → Text → Bool) → Text → Option DangerousPattern
unfolding trim
check_command_safety matches [] = none
check_command_safety matches (c ∷ s) =
    let normalized_command = trim (c ∷ s) in
    first_match (λ pattern. matches pattern normalized_command) dangerous_patterns
