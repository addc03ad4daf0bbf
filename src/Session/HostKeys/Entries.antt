-- ===== src/Session/HostKeys/Entries.antt =====
-- What a line of a known_hosts file says about a host, without the order of the tests of
-- `parseKnownHostLine` and `knownHostPatternMatches`, src/session-auth.ts, and of src/session.ts.
use ssh_mcp_pro.Base.{
  ℕ, ◌≡◌, ◌≢◌, ◌↔◌, ◌⊎◌, inl, inr, refl, Bool, true, false, String, string_eq, ◌==◌, List, [], ◌∷◌,
  Option, none, some, or_else, any, includes, arith, Option-cases, Bool-cases, ap, sym, subst,
  if◌then◌else◌, ◌∙◌,
}
use ssh_mcp_pro.Session.HostKeys.{
  Platform, KnownHost, known_host_key_types, normalize_sha256_fingerprint, parse_known_host_line,
  parse_parts, parse_marked, parse_plain, pattern_matches, known_host_pattern_matches, key_matches,
  judge, judge_line, skip, trusted,
}

abbrev pub Exists : (String → Type 0) → List String → Type 0
Exists P [] = ⊥
Exists P (x ∷ l) = P x ⊎ Exists P l

any_iff :
    (f : String → Bool) (P : String → Type 0) (l : List String)
    → ((x : String) → (f x ≡ true) ↔ P x)
    → (any f l ≡ true) ↔ Exists P l
any_iff f P [] each = (λ h. absurd (ground arith), λ h. absurd h)
any_iff f P (x ∷ l) each = (
  λ h. elim (Bool-cases (f x)) [
    | inl e ↦ inl ((each x).0 e)
    | inr e ↦ inr ((any_iff f P l each).0 (ground arith))
  ],
  λ h. elim h [
    | inl here ↦ ground (arith, (each x).1 here)
    | inr later ↦ ground (arith, (any_iff f P l each).1 later)
  ],
)

chosen_some :
    (known : Bool) (built entry : KnownHost)
    → (if known then some built else none) ≡ some entry
    → (known ≡ true) × (built ≡ entry)
chosen_some true built entry h = (refl, ground arith)
chosen_some false built entry h = absurd (ground arith)

none_is_some : (entry : KnownHost) → ◌≡◌ {A = Option KnownHost} none (some entry) → ⊥
none_is_some entry h = ground arith

module _ (p : Platform) where
  -- The parts of an entry: a marker that begins with `@` or none, the hosts, a type of key that is
  -- known, and the key.
  abbrev pub AreParts : List String → KnownHost → Type 0
  AreParts parts entry =
      ((marker : String) × (key_type : String) × (rest : List String) × (parts
          ≡ marker ∷ entry.hosts ∷ key_type ∷ entry.key_blob ∷ rest)
        × (entry.marker ≡ some marker)
        × (p.starts_with marker "@" ≡ true)
        × (includes known_host_key_types key_type ≡ true))
      ⊎ ((key_type : String) × (rest : List String) × (parts
            ≡ entry.hosts ∷ key_type ∷ entry.key_blob ∷ rest)
          × (entry.marker ≡ none)
          × (p.starts_with entry.hosts "@" ≡ false)
          × (includes known_host_key_types key_type ≡ true))

  -- The line is an entry, neither blank nor a comment.
  abbrev pub IsEntry : String → KnownHost → Type 0
  IsEntry line entry =
      (p.trim line ≢ "")
      × (p.starts_with (p.trim line) "#" ≡ false)
      × AreParts (p.split_spaces (p.trim line)) entry

  -- A hashed pattern, or a name or a pattern with wildcards.
  abbrev pub FitsPattern : String → ℕ → String → Type 0
  FitsPattern host port pattern_text =
      ((p.starts_with pattern_text "|" ≡ true)
        × ((p.hashed_matches pattern_text host ≡ true)
            ⊎ (p.hashed_matches pattern_text (p.bracketed host port) ≡ true)))
      ⊎ ((p.starts_with pattern_text "|" ≡ false)
          × ((host ≡ pattern_text)
              ⊎ ((p.bracketed host port ≡ pattern_text) ⊎ (p.glob pattern_text host ≡ true))))

  abbrev pub NamesHost : KnownHost → String → ℕ → Type 0
  NamesHost entry host port = Exists (FitsPattern host port) (p.split_commas entry.hosts)

  abbrev pub HasKey : KnownHost → String → Type 0
  HasKey entry expected =
      (fingerprints : List String) × (p.fingerprints entry.key_blob ≡ some fingerprints)
      × Exists (λ f. normalize_sha256_fingerprint p f ≡ expected) fingerprints

  -- The line is an unrevoked entry for the host with the key.
  abbrev pub Vouches : String → ℕ → String → String → Type 0
  Vouches host port expected line =
      (entry : KnownHost) × IsEntry line entry
      × NamesHost entry host port
      × (entry.marker ≢ some "@revoked")
      × HasKey entry expected

  -- The line is no entry for the host, or an unrevoked one with another key.
  abbrev pub Passes : String → ℕ → String → String → Type 0
  Passes host port expected line =
      (entry : KnownHost)
      → IsEntry line entry
      → NamesHost entry host port
      → (entry.marker ≢ some "@revoked") × ¬ HasKey entry expected

  parse_plain_sound :
      (a b c : String) (rest : List String) (entry : KnownHost)
      → p.starts_with a "@" ≡ false
      → parse_plain p (a ∷ b ∷ c ∷ rest) ≡ some entry
      → AreParts (a ∷ b ∷ c ∷ rest) entry
  unfolding parse_plain
  parse_plain_sound a b c rest entry e h =
      let (known, same) =
        chosen_some (includes known_host_key_types b)
          (record { marker = none; hosts = a; key_blob = c }) entry h in
      inr (
        b,
        rest,
        ap (λ (x : KnownHost). x.hosts ∷ b ∷ x.key_blob ∷ rest) same,
        sym (ap (λ (x : KnownHost). x.marker) same),
        subst (λ (x : KnownHost). p.starts_with x.hosts "@" ≡ false) same e,
        known,
      )

  parse_marked_sound :
      (a b c d : String) (rest : List String) (entry : KnownHost)
      → p.starts_with a "@" ≡ true
      → parse_marked p (a ∷ b ∷ c ∷ d ∷ rest) ≡ some entry
      → AreParts (a ∷ b ∷ c ∷ d ∷ rest) entry
  unfolding parse_marked
  parse_marked_sound a b c d rest entry e h =
      let (known, same) =
        chosen_some (includes known_host_key_types c)
          (record { marker = some a; hosts = b; key_blob = d }) entry h in
      inl (
        a,
        c,
        rest,
        ap (λ (x : KnownHost). a ∷ x.hosts ∷ c ∷ x.key_blob ∷ rest) same,
        sym (ap (λ (x : KnownHost). x.marker) same),
        e,
        known,
      )

  parse_parts_sound :
      (parts : List String) (entry : KnownHost)
      → parse_parts p parts ≡ some entry
      → AreParts parts entry
  unfolding parse_parts parse_marked parse_plain
  parse_parts_sound [] entry h = absurd (ground arith)
  parse_parts_sound (a ∷ []) entry h = absurd (ground arith)
  parse_parts_sound (a ∷ b ∷ []) entry h = absurd (ground arith)
  parse_parts_sound (a ∷ b ∷ c ∷ []) entry h = elim (Bool-cases (p.starts_with a "@")) [
    | inl e ↦ absurd (
        none_is_some entry (
          subst
            (λ t.
              (if t then parse_marked p (a ∷ b ∷ c ∷ []) else parse_plain p (a ∷ b ∷ c ∷ []))
              ≡ some entry)
            e h))
    | inr e ↦ parse_plain_sound a b c [] entry e (
        subst
          (λ t.
            (if t then parse_marked p (a ∷ b ∷ c ∷ []) else parse_plain p (a ∷ b ∷ c ∷ []))
            ≡ some entry)
          e h)
  ]
  parse_parts_sound (a ∷ b ∷ c ∷ d ∷ rest) entry h =
      let chosen : Bool → Type 0 = λ t.
        (if t then parse_marked p (a ∷ b ∷ c ∷ d ∷ rest) else parse_plain p (a ∷ b ∷ c ∷ d ∷ rest))
        ≡ some entry in
      elim (Bool-cases (p.starts_with a "@")) [
        | inl e ↦ parse_marked_sound a b c d rest entry e (subst chosen e h)
        | inr e ↦ parse_plain_sound a b c (d ∷ rest) entry e (subst chosen e h)
      ]

  parse_parts_complete :
      (parts : List String) (entry : KnownHost)
      → AreParts parts entry
      → parse_parts p parts ≡ some entry
  unfolding parse_parts parse_marked parse_plain
  parse_parts_complete parts entry (inl (marker, key_type, rest, e, m, at, known)) =
      rw e (ground (arith, m, at, known))
  parse_parts_complete parts entry (inr (key_type, rest, e, m, at, known)) =
      rw e (elim (list-cases rest) [
        | inl empty ↦ rw empty (ground (arith, m, at, known))
        | inr (d, more, longer) ↦ rw longer (ground (arith, m, at, known))
      ])
    where
      list-cases : (l : List String) → (l ≡ []) ⊎ ((d : String) × (m : List String) × (l ≡ d ∷ m))
      list-cases [] = inl refl
      list-cases (d ∷ m) = inr (d, m, refl)

  parse_iff :
      (line : String) (entry : KnownHost)
      → (parse_known_host_line p line ≡ some entry) ↔ IsEntry line entry
  unfolding parse_known_host_line
  parse_iff line entry =
      let parts = p.split_spaces (p.trim line) in
      (
        λ h. (
          ground (arith, string_eq.equal_iff (p.trim line) ""),
          ground arith,
          parse_parts_sound parts entry (ground arith),
        ),
        λ (text, no_comment, are).
            ground
              (arith, string_eq.equal_iff (p.trim line) "", parse_parts_complete parts entry are),
      )

  pattern_iff :
      (host : String) (port : ℕ) (pattern_text : String)
      → (pattern_matches p host port pattern_text ≡ true) ↔ FitsPattern host port pattern_text
  unfolding pattern_matches
  pattern_iff host port pattern_text =
      let same = string_eq.equal_iff host pattern_text in
      let same_bracketed = string_eq.equal_iff (p.bracketed host port) pattern_text in
      (
        λ h. elim (Bool-cases (p.starts_with pattern_text "|")) [
          | inl e ↦ inl (e, ground arith)
          | inr e ↦ inr (e, ground (arith, same, same_bracketed))
        ],
        λ h. elim h [
          | inl (e, f) ↦ ground arith
          | inr (e, f) ↦ ground (arith, same, same_bracketed)
        ],
      )

  names_iff :
      (entry : KnownHost) (host : String) (port : ℕ)
      → (known_host_pattern_matches p entry.hosts host port ≡ true) ↔ NamesHost entry host port
  unfolding known_host_pattern_matches
  names_iff entry host port =
      any_iff (pattern_matches p host port) (FitsPattern host port) (p.split_commas entry.hosts)
        (pattern_iff host port)

  one_of_iff :
      (found : Option (List String)) (expected : String)
      → (key_matches p found expected ≡ true) ↔ (
          (fingerprints : List String) × (found ≡ some fingerprints)
          × Exists (λ f. normalize_sha256_fingerprint p f ≡ expected) fingerprints)
  unfolding key_matches
  one_of_iff none expected = (λ h. absurd (ground arith), λ (l, f, _). absurd (ground arith))
  one_of_iff (some l) expected =
      let (to, from) =
        any_iff (λ f. normalize_sha256_fingerprint p f == expected)
          (λ f. normalize_sha256_fingerprint p f ≡ expected) l
          (λ f. string_eq.equal_iff (normalize_sha256_fingerprint p f) expected) in
      (
        λ h. (l, refl, to h),
        λ (k, e, x).
            from
              (subst (Exists (λ f. normalize_sha256_fingerprint p f ≡ expected)) (same_list k e) x),
      )
    where
      same_list : (k : List String) → ◌≡◌ {A = Option (List String)} (some l) (some k) → k ≡ l
      same_list k h = ground arith

  key_iff :
      (entry : KnownHost) (expected : String)
      → (key_matches p (p.fingerprints entry.key_blob) expected ≡ true) ↔ HasKey entry expected
  key_iff entry expected = one_of_iff (p.fingerprints entry.key_blob) expected

  marker_iff :
      (marker : Option String)
      → ((or_else marker "" == "@revoked") ≡ false) ↔ (marker ≢ some "@revoked")
  marker_iff none = (λ h e. ground arith, λ h. ground (arith, string_eq.equal_iff "" "@revoked"))
  marker_iff (some marker) = (
    λ h e. ground (arith, string_eq.equal_iff marker "@revoked"),
    λ h. elim (Bool-cases (marker == "@revoked")) [
      | inl same ↦ absurd (h (ap some ((string_eq.equal_iff marker "@revoked").0 same)))
      | inr other ↦ other
    ],
  )

  module _ (host : String) (port : ℕ) (expected : String) (entry : KnownHost) where
    judge-trusted_iff :
        (judge p entry host port expected ≡ trusted)
        ↔ (NamesHost entry host port × (entry.marker ≢ some "@revoked") × HasKey entry expected)
    unfolding judge
    judge-trusted_iff =
        let (names_to, names_from) = names_iff entry host port in
        let (key_to, key_from) = key_iff entry expected in
        let (marker_to, marker_from) = marker_iff entry.marker in
        (
          λ h. (names_to (ground arith), marker_to (ground arith), key_to (ground arith)),
          λ (named, unrevoked, keyed).
              let a = names_from named in
              let b = marker_from unrevoked in let c = key_from keyed in ground arith,
        )

    judge-skip_iff :
        (judge p entry host port expected ≡ skip)
        ↔ (NamesHost entry host port → (entry.marker ≢ some "@revoked") × ¬ HasKey entry expected)
    unfolding judge
    judge-skip_iff =
        let (names_to, names_from) = names_iff entry host port in
        let (key_to, key_from) = key_iff entry expected in
        let (marker_to, marker_from) = marker_iff entry.marker in
        (
          λ h named.
              let a = names_from named in
              (marker_to (ground arith), λ keyed. let c = key_from keyed in ground arith),
          λ h. elim (Bool-cases (known_host_pattern_matches p entry.hosts host port)) [
            | inr other ↦ ground arith
            | inl named ↦
                let (unrevoked, no_key) = h (names_to named) in
                let b = marker_from unrevoked in
                elim (Bool-cases (key_matches p (p.fingerprints entry.key_blob) expected)) [
                  | inl keyed ↦ absurd (no_key (key_to keyed))
                  | inr other ↦ ground arith
                ]
          ],
        )

  same_entry : (a b : KnownHost) → ◌≡◌ {A = Option KnownHost} (some a) (some b) → a ≡ b
  same_entry a b h = ground arith

  module _ (host : String) (port : ℕ) (expected line : String) where
    judged :
        (entry : KnownHost)
        → parse_known_host_line p line ≡ some entry
        → judge_line p host port expected line ≡ judge p entry host port expected
    unfolding judge_line
    judged entry e = rw (e, judge_line) refl

    pub judge_line-trusted_iff :
        (judge_line p host port expected line ≡ trusted) ↔ Vouches host port expected line
    unfolding judge_line
    judge_line-trusted_iff = elim (Option-cases (parse_known_host_line p line)) [
      | inl e ↦ (
        λ h. absurd (ground arith),
        λ (entry, is_entry, _, _, _).
            absurd (none_is_some entry (sym e ∙ (parse_iff line entry).1 is_entry)),
      )
      | inr (entry, e) ↦
          let (to, from) = judge-trusted_iff host port expected entry in
          (
            λ h.
                let (named, unrevoked, keyed) = to (sym (judged entry e) ∙ h) in
                (entry, (parse_iff line entry).0 e, named, unrevoked, keyed),
            λ (other, is_entry, named, unrevoked, keyed).
                rw (e, judge_line)
                  (from (
                    subst
                      (λ x.
                        NamesHost x host port × (x.marker ≢ some "@revoked") × HasKey x expected)
                      (same_entry other entry (sym ((parse_iff line other).1 is_entry) ∙ e))
                      (named, unrevoked, keyed))),
          )
    ]

    pub judge_line-skip_iff :
        (judge_line p host port expected line ≡ skip) ↔ Passes host port expected line
    unfolding judge_line
    judge_line-skip_iff = elim (Option-cases (parse_known_host_line p line)) [
      | inl e ↦ (
        λ h entry is_entry. absurd (none_is_some entry (sym e ∙ (parse_iff line entry).1 is_entry)),
        λ h. rw (e, judge_line) refl,
      )
      | inr (entry, e) ↦
          let (to, from) = judge-skip_iff host port expected entry in
          (
            λ h other is_entry.
                subst
                  (λ x. NamesHost x host port → (x.marker ≢ some "@revoked") × ¬ HasKey x expected)
                  (same_entry entry other (sym e ∙ (parse_iff line other).1 is_entry))
                  (to (sym (judged entry e) ∙ h)),
            λ h. rw (e, judge_line) (from (h entry ((parse_iff line entry).0 e))),
          )
    ]
