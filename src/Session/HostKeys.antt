-- ===== src/Session/HostKeys.antt =====
-- Host key verification: `resolveHostKeyPolicy`, `configureHostKeyVerification` and the verifiers of
-- src/session.ts, with `parseKnownHostLine` and `knownHostPatternMatches` of src/session-auth.ts.

pub mod Entries
pub mod Trust
mod Tests
use ssh_mcp_pro.Base.{
  ℕ, Bool, true, false, not, ◌&&◌, ◌||◌, String, string_eq, List, [], ◌∷◌, Option, none, some, ◌==◌,
  if◌then◌else◌, or_else, any, includes, is_some,
}
use ssh_mcp_pro.Table.{Table, get, set}
use ssh_mcp_pro.Session.{
  ConnectionParams, HostKeyPolicy, strict, accept_new, insecure, Security, SessionManager,
}

-- What the verifiers take from JavaScript and Node.js.
pub record Platform : Type 0 where
  -- `value.trim()`, `value.split(/\s+/)`, `value.split(",")`, `value.startsWith(prefix)`.
  pub trim : String → String
  pub split_spaces : String → List String
  pub split_commas : String → List String
  pub starts_with : String → String → Bool
  -- The text `host:port`, and `[host]:port`.
  pub host_port : String → ℕ → String
  pub bracketed : String → ℕ → String
  -- The replacement of `normalizeSha256Fingerprint`, without the `trim`.
  pub strip_sha256 : String → String
  -- The test of `host` by the regular expression made of a pattern with `*` and `?`.
  pub glob : String → String → Bool
  -- Whether the hashed pattern is that of the candidate, by HMAC-SHA1.
  pub hashed_matches : String → String → Bool
  -- `knownHostKeyFingerprints`; `none` where it throws.
  pub fingerprints : String → Option (List String)

pub resolve_host_key_policy : Security → ConnectionParams → HostKeyPolicy
resolve_host_key_policy security params = elim params.host_key_policy [
  | some policy ↦ policy
  | none ↦ elim params.strict_host_key_checking [
    | some checks ↦ if checks then strict else insecure
    | none ↦ security.host_key_policy
  ]
]

pub record KnownHost : Type 0 where
  pub marker : Option String
  pub hosts : String
  pub key_blob : String

abbrev pub known_host_key_types : List String
known_host_key_types =
    "ssh-ed25519" ∷ "ssh-ed25519-cert-v01@openssh.com" ∷ "ssh-rsa" ∷ "ssh-rsa-cert-v01@openssh.com"
    ∷ "rsa-sha2-256" ∷ "rsa-sha2-256-cert-v01@openssh.com" ∷ "rsa-sha2-512"
    ∷ "rsa-sha2-512-cert-v01@openssh.com" ∷ "ecdsa-sha2-nistp256"
    ∷ "ecdsa-sha2-nistp256-cert-v01@openssh.com" ∷ "ecdsa-sha2-nistp384"
    ∷ "ecdsa-sha2-nistp384-cert-v01@openssh.com" ∷ "ecdsa-sha2-nistp521"
    ∷ "ecdsa-sha2-nistp521-cert-v01@openssh.com" ∷ "sk-ssh-ed25519@openssh.com"
    ∷ "sk-ssh-ed25519-cert-v01@openssh.com" ∷ "sk-ecdsa-sha2-nistp256@openssh.com"
    ∷ "sk-ecdsa-sha2-nistp256-cert-v01@openssh.com" ∷ []

-- What one line of the file says: nothing, or the answer.
pub data Line : Type 0 where
  skip trusted revoked : Line

module _ (p : Platform) where
  pub normalize_sha256_fingerprint : String → String
  normalize_sha256_fingerprint fingerprint = p.trim (p.strip_sha256 fingerprint)

  -- The parts of a line that begins with a marker, of which there are four at least.
  parse_marked : List String → Option KnownHost
  parse_marked (marker ∷ hosts ∷ key_type ∷ key_blob ∷ _) =
      if includes known_host_key_types key_type
      then some (record { marker = some marker; hosts = hosts; key_blob = key_blob })
      else none
  parse_marked _ = none

  parse_plain : List String → Option KnownHost
  parse_plain (hosts ∷ key_type ∷ key_blob ∷ _) =
      if includes known_host_key_types key_type
      then some (record { marker = none; hosts = hosts; key_blob = key_blob })
      else none
  parse_plain _ = none

  parse_parts : List String → Option KnownHost
  unfolding parse_marked parse_plain
  parse_parts [] = none
  parse_parts (first ∷ rest) =
      if p.starts_with first "@" then parse_marked (first ∷ rest) else parse_plain (first ∷ rest)

  pub parse_known_host_line : String → Option KnownHost
  unfolding parse_parts
  parse_known_host_line line =
      let trimmed = p.trim line in
      if trimmed == "" || p.starts_with trimmed "#"
      then none
      else parse_parts (p.split_spaces trimmed)

  -- One pattern of the comma-separated list; the candidates are `host` and `[host]:port`.
  pattern_matches : String → ℕ → String → Bool
  pattern_matches host port pattern_text =
      if p.starts_with pattern_text "|"
      then p.hashed_matches pattern_text host
        || p.hashed_matches pattern_text (p.bracketed host port)
      else host == pattern_text || p.bracketed host port == pattern_text || p.glob pattern_text host

  pub known_host_pattern_matches : String → String → ℕ → Bool
  unfolding pattern_matches
  known_host_pattern_matches hosts host port =
      any (pattern_matches host port) (p.split_commas hosts)

  key_matches : Option (List String) → String → Bool
  unfolding normalize_sha256_fingerprint
  key_matches none expected = false
  key_matches (some fingerprints) expected =
      any (λ f. normalize_sha256_fingerprint f == expected) fingerprints

  judge : KnownHost → String → ℕ → String → Line
  unfolding known_host_pattern_matches key_matches
  judge entry host port expected =
      if not (known_host_pattern_matches entry.hosts host port)
      then skip
      else if or_else entry.marker "" == "@revoked"
      then revoked
      else if key_matches (p.fingerprints entry.key_blob) expected
      then trusted
      else skip

  pub judge_line : String → ℕ → String → String → Line
  unfolding judge parse_known_host_line
  judge_line host port expected line = elim (parse_known_host_line line) [
    | none ↦ skip
    | some entry ↦ judge entry host port expected
  ]

  verify_lines : String → ℕ → String → List String → Bool
  unfolding judge_line
  verify_lines host port expected [] = false
  verify_lines host port expected (line ∷ lines) =
      let rest = verify_lines host port expected lines in
      elim (judge_line host port expected line) [ skip ↦ rest | trusted ↦ true | revoked ↦ false ]

  -- `contents` are the lines of the known_hosts file, `none` if it cannot be read.
  pub verify_known_host_key : String → ℕ → String → Option (List String) → String → Bool
  unfolding verify_lines normalize_sha256_fingerprint
  verify_known_host_key host port known_hosts_path contents hashed_key =
      if known_hosts_path == "" then false else elim contents [
        | none ↦ false
        | some lines ↦ verify_lines host port (normalize_sha256_fingerprint hashed_key) lines
      ]

  pub verify_accept_new_host_key : String → ℕ → String → SessionManager → SessionManager × Bool
  unfolding normalize_sha256_fingerprint
  verify_accept_new_host_key host port hashed_key m =
      let key = p.host_port host port in
      let normalized = normalize_sha256_fingerprint hashed_key in
      let first_seen : SessionManager × Bool =
        (record m { accepted_host_keys = set key normalized m.accepted_host_keys }, true) in
      elim (get key m.accepted_host_keys) [
        | none ↦ first_seen
        | some accepted ↦ if accepted == "" then first_seen else (m, accepted == normalized)
      ]

  -- The `hostVerifier` that `configureHostKeyVerification` installs, called with the key's hash.
  pub host_verifier :
      ConnectionParams
      → HostKeyPolicy
      → String
      → Option (List String)
      → String
      → SessionManager
      → SessionManager × Bool
  unfolding verify_accept_new_host_key verify_known_host_key
  host_verifier params policy known_hosts_path contents hashed_key m =
      let port = or_else params.port 22 in
      let by_policy : SessionManager × Bool = elim policy [
        | insecure ↦ (m, true)
        | accept_new ↦ verify_accept_new_host_key params.host port hashed_key m
        | strict ↦ (m, verify_known_host_key params.host port known_hosts_path contents hashed_key)
      ] in
      elim params.expected_host_key_sha256 [
        | none ↦ by_policy
        | some expected ↦ if expected == "" then by_policy else (
          m,
          normalize_sha256_fingerprint hashed_key == normalize_sha256_fingerprint expected,
        )
      ]
