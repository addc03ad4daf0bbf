-- ===== src/Session/HostKeys/Tests.antt =====
-- Runs of the verifiers of src/session.ts, with a file of known hosts that has one line.
use ssh_mcp_pro.Base.{
  ◌≡◌, ◌≢◌, ◌↔◌, refl, true, false, String, string_eq, List, [], ◌∷◌, some, arith,
}
use ssh_mcp_pro.Table.{get, set, delete, size, has, IsMap}
use ssh_mcp_pro.Session.{create}
use ssh_mcp_pro.Session.HostKeys.{
  Platform, normalize_sha256_fingerprint, verify_known_host_key, verify_accept_new_host_key,
}
use ssh_mcp_pro.Session.HostKeys.Trust.{
  Vouched, verify_known_host_key_iff, verify_all, accept_new-pins_first,
}
use ssh_mcp_pro.Session.Tests.{manager}

-- A reading of the texts in which a line names the host and carries its own fingerprint.
abbrev plain : Platform
plain = record {
  trim = λ s. s;
  split_spaces = λ s. "host" ∷ "ssh-ed25519" ∷ s ∷ [];
  split_commas = λ s. s ∷ [];
  starts_with = λ s t. false;
  host_port = λ h n. h;
  bracketed = λ h n. h;
  strip_sha256 = λ s. s;
  glob = λ a b. false;
  hashed_matches = λ a b. false;
  fingerprints = λ blob. some (blob ∷ []);
}

verify_known_host_key_iff_example :
    (verify_known_host_key plain "host" 22 "known_hosts" (some ("key" ∷ [])) "key" ≡ true) ↔ (
      (◌≢◌ {A = String} "known_hosts" "")
      × ((lines : List String) × (some ("key" ∷ []) ≡ some lines)
          × Vouched plain "host" 22 (normalize_sha256_fingerprint plain "key") lines))
verify_known_host_key_iff_example =
    verify_known_host_key_iff plain "host" 22 "known_hosts" (some ("key" ∷ [])) "key"

-- The key of the line is accepted, another key is not.
key_of_line_is_accepted :
    (verify_known_host_key plain "host" 22 "known_hosts" (some ("key" ∷ [])) "key" ≡ true)
    × (verify_known_host_key plain "host" 22 "known_hosts" (some ("key" ∷ [])) "other" ≡ false)
unfolding verify_known_host_key
key_of_line_is_accepted = (refl, refl)

accept_new-pins_first_example :
    ((verify_accept_new_host_key plain "host" 22 "key" manager).1 ≡ true)
    × (((verify_accept_new_host_key plain "host" 22 "other"
            (verify_all plain [] (verify_accept_new_host_key plain "host" 22 "key" manager).0)).1
          ≡ true)
        ↔ (normalize_sha256_fingerprint plain "other" ≡ normalize_sha256_fingerprint plain "key"))
unfolding create normalize_sha256_fingerprint ssh_mcp_pro.Table.get
accept_new-pins_first_example =
    accept_new-pins_first plain "host" 22 "key" "other" manager [] refl
      (ground (arith, string_eq.equal_iff "key" ""))
