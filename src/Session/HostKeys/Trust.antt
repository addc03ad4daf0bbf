-- ===== src/Session/HostKeys/Trust.antt =====
-- Which host keys the verifiers of src/session.ts trust.
use ssh_mcp_pro.Base.{
  ℕ, ◌≡◌, ◌≢◌, ◌↔◌, refl, ap, true, String, string_eq, List, [], ◌∷◌, ◌++◌, Option, none, some, All,
  arith, inl, inr, ◌⊎◌,
}
use ssh_mcp_pro.Table.{get, get-set}
use ssh_mcp_pro.Session.{SessionManager}
use ssh_mcp_pro.Session.HostKeys.{
  Platform, normalize_sha256_fingerprint, Line, skip, trusted, revoked, judge_line, verify_lines,
  verify_known_host_key, verify_accept_new_host_key,
}
use ssh_mcp_pro.Session.HostKeys.Entries.{
  Passes, Vouches, judge_line-trusted_iff, judge_line-skip_iff,
}

module _ (p : Platform) where
  -- A line that vouches for the key, with only lines before it that say nothing about the host.
  pub record Vouched (host : String) (port : ℕ) (expected : String) (lines : List String)
      : Type 0 where
    pub before : List String
    pub line : String
    pub after : List String
    pub split : lines ≡ before ++ line ∷ after
    pub passed : All (Passes p host port expected) before
    pub vouches : Vouches p host port expected line

  line-cases : (l : Line) → (l ≡ skip) ⊎ ((l ≡ trusted) ⊎ (l ≡ revoked))
  line-cases skip = inl refl
  line-cases trusted = inr (inl refl)
  line-cases revoked = inr (inr refl)

  verify_lines-Vouched :
      (host : String) (port : ℕ) (expected : String) (lines : List String)
      → verify_lines p host port expected lines ≡ true
      → Vouched host port expected lines
  unfolding verify_lines
  verify_lines-Vouched host port expected [] h = absurd (ground arith)
  verify_lines-Vouched host port expected (l ∷ lines) h =
      elim (line-cases (judge_line p host port expected l)) [
        | inl e ↦
            let v = verify_lines-Vouched host port expected lines (ground arith) in
            record {
              before = l ∷ v.before;
              line = v.line;
              after = v.after;
              split = ap (◌∷◌ l) v.split;
              passed = ((judge_line-skip_iff p host port expected l).0 e, v.passed);
              vouches = v.vouches;
            }
        | inr (inl e) ↦ record {
          before = [];
          line = l;
          after = lines;
          split = refl;
          passed = tt;
          vouches = (judge_line-trusted_iff p host port expected l).0 e;
        }
        | inr (inr e) ↦ absurd (ground arith)
      ]

  verify_lines_complete :
      (host : String) (port : ℕ) (expected : String) (before : List String) (line : String)
      (after : List String)
      → All (Passes p host port expected) before
      → Vouches p host port expected line
      → verify_lines p host port expected (before ++ line ∷ after) ≡ true
  unfolding verify_lines
  verify_lines_complete host port expected [] line after a h =
      rw ((judge_line-trusted_iff p host port expected line).1 h, verify_lines)
  verify_lines_complete host port expected (l ∷ before) line after (e, a) h =
      rw ((judge_line-skip_iff p host port expected l).1 e, verify_lines)
        (verify_lines_complete host port expected before line after a h)

  -- Strict verification accepts a key exactly when a known_hosts file is named and readable and one
  -- of its lines is an unrevoked entry for the host and port with a key of this fingerprint, every
  -- earlier line being no entry for the host and port or an unrevoked one with another key.
  pub verify_known_host_key_iff :
      (host : String) (port : ℕ) (path : String) (contents : Option (List String))
      (hashed_key : String)
      → (verify_known_host_key p host port path contents hashed_key ≡ true) ↔ (
          (path ≢ "")
          × ((lines : List String) × (contents ≡ some lines)
              × Vouched host port (normalize_sha256_fingerprint p hashed_key) lines))
  unfolding verify_known_host_key
  verify_known_host_key_iff host port path none hashed_key =
      (λ h. absurd (ground arith), λ (named, (lines, e, v)). absurd (ground arith))
  verify_known_host_key_iff host port path (some lines) hashed_key =
      let expected = normalize_sha256_fingerprint p hashed_key in
      (
        λ h. (
          ground (arith, string_eq.equal_iff path ""),
          (lines, refl, verify_lines-Vouched host port expected lines (ground arith)),
        ),
        λ (named, (lines', e, v)).
            let complete =
              verify_lines_complete host port expected v.before v.line v.after v.passed v.vouches in
            let same : lines ≡ v.before ++ v.line ∷ v.after = ground (arith, v.split) in
            ground (arith, string_eq.equal_iff path "", same, complete),
      )

  -- The verifications of a process, each with a host, a port and the hash of the key offered.
  pub verify_all : List (String × ℕ × String) → SessionManager → SessionManager
  verify_all [] m = m
  verify_all ((host, port, hashed_key) ∷ later) m =
      verify_all later (verify_accept_new_host_key p host port hashed_key m).0

  pinned-step :
      (name n : String) (host : String) (port : ℕ) (hashed_key : String) (m : SessionManager)
      → n ≢ ""
      → get name m.accepted_host_keys ≡ some n
      → get name (verify_accept_new_host_key p host port hashed_key m).0.accepted_host_keys ≡ some n
  unfolding verify_accept_new_host_key
  pinned-step name n host port hashed_key m real e = ground (
    arith,
    string_eq.equal_iff n "",
    string_eq.equal_iff (p.host_port host port) name,
    get-set (p.host_port host port) name (normalize_sha256_fingerprint p hashed_key)
        m.accepted_host_keys,
  )

  pinned :
      (name n : String) (later : List (String × ℕ × String)) (m : SessionManager)
      → n ≢ ""
      → get name m.accepted_host_keys ≡ some n
      → get name (verify_all later m).accepted_host_keys ≡ some n
  unfolding verify_all
  pinned name n [] m real e = e
  pinned name n ((host, port, hashed_key) ∷ later) m real e =
      pinned name n later (verify_accept_new_host_key p host port hashed_key m).0 real
        (pinned-step name n host port hashed_key m real e)

  -- Under accept-new the first key that a host and port offer is accepted, and after any further
  -- verifications, of that host or others, a key is accepted for them exactly when its normalised
  -- fingerprint is that of the first. (The first fingerprint must not be empty.)
  pub accept_new-pins_first :
      (host : String) (port : ℕ) (first hashed_key : String) (m : SessionManager)
      (later : List (String × ℕ × String))
      → get (p.host_port host port) m.accepted_host_keys ≡ none
      → normalize_sha256_fingerprint p first ≢ ""
      → ((verify_accept_new_host_key p host port first m).1 ≡ true)
        × (((verify_accept_new_host_key p host port hashed_key
                (verify_all later (verify_accept_new_host_key p host port first m).0)).1
              ≡ true)
            ↔ (normalize_sha256_fingerprint p hashed_key ≡ normalize_sha256_fingerprint p first))
  unfolding verify_accept_new_host_key
  accept_new-pins_first host port first hashed_key m later new real =
      let name = p.host_port host port in
      let n = normalize_sha256_fingerprint p first in
      let start : get name (verify_accept_new_host_key p host port first m).0.accepted_host_keys
          ≡ some n =
        ground (arith, string_eq.equal_iff name name, get-set name name n m.accepted_host_keys) in
      let kept =
        pinned name n later (verify_accept_new_host_key p host port first m).0 real start in
      (
        ground arith,
        (
          λ h. ground (
            arith,
            kept,
            string_eq.equal_iff n "",
            string_eq.equal_iff n (normalize_sha256_fingerprint p hashed_key),
          ),
          λ h. ground (
            arith,
            kept,
            string_eq.equal_iff n "",
            string_eq.equal_iff n (normalize_sha256_fingerprint p hashed_key),
          ),
        ),
      )
