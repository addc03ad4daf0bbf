-- ===== src/Policy/Paths/Boundary.antt =====
-- The prefixes and the loops of the path functions of src/policy.ts.
use mathlib.Core.List.{reverse-reverse, reverse-append, reverse-cons}
use ssh_mcp_pro.Base.{
  ℕ, zero, suc, ◌≤◌, ◌<◌, ◌≡◌, ◌≢◌, ◌↔◌, ◌⊎◌, inl, inr, refl, ap, sym, ◌∙◌, ◌++◌, true, Bool, none,
  ◌&&◌, List, [], ◌∷◌, reverse, some, Text, text_eq, nat_eq, starts_with_iff, ◌==◌, ltb, length,
  length-append, arith, Bool-cases, Option-cases,
}
use ssh_mcp_pro.Policy.Paths.{
  NodePath, is_segment_boundary_path_match, strip_reversed, strip_trailing_separators, resolve_from,
  resolve_local_existing_prefix, normalize_local_policy_path, strip_local, has_nul,
}

-- A path matches a prefix exactly when it is the prefix, or the prefix, a separator and a rest: a
-- longer name that merely begins like the prefix does not match.
pub is_segment_boundary_path_match_iff :
    (candidate prefix separator : Text)
    → (is_segment_boundary_path_match candidate prefix separator ≡ true)
      ↔ ((candidate ≡ prefix) ⊎ ((rest : Text) × (candidate ≡ prefix ++ separator ++ rest)))
unfolding is_segment_boundary_path_match
is_segment_boundary_path_match_iff candidate prefix separator =
    let (to, from) = starts_with_iff candidate (prefix ++ separator) in
    (
      λ h. elim (Bool-cases (candidate == prefix)) [
        | inl same ↦ inl ((text_eq.equal_iff candidate prefix).0 same)
        | inr other ↦ let (rest, e) = to (ground arith) in inr (rest, e)
      ],
      λ h. elim h [
        | inl e ↦ ground (arith, text_eq.equal_iff candidate prefix)
        | inr (rest, e) ↦ ground (arith, from (rest, e))
      ],
    )

strip_reversed_stops :
    (separator n : ℕ) (s : Text)
    → (length (strip_reversed separator n s) ≤ n)
      ⊎ ((c : ℕ) × (t : Text) × (strip_reversed separator n s ≡ c ∷ t) × (c ≢ separator))
unfolding strip_reversed
strip_reversed_stops separator n [] = inl (omega arith)
strip_reversed_stops separator n (c ∷ s) =
    elim (Bool-cases (ltb n (length (c ∷ s)) && c == separator)) [
      | inl more ↦ rw (more, strip_reversed) (strip_reversed_stops separator n s)
      | inr done ↦ elim (Bool-cases (c == separator)) [
        | inl same ↦ inl (ground arith)
        | inr other ↦ inr (c, s, ground arith, ground arith)
      ]
    ]

strip_reversed_suffix :
    (separator n : ℕ) (s : Text) → (cut : Text) × (s ≡ cut ++ strip_reversed separator n s)
unfolding strip_reversed
strip_reversed_suffix separator n [] = ([], refl)
strip_reversed_suffix separator n (c ∷ s) =
    elim (Bool-cases (ltb n (length (c ∷ s)) && c == separator)) [
      | inl more ↦
          let (cut, e) = strip_reversed_suffix separator n s in
          (c ∷ cut, rw (more, strip_reversed) (ap (◌∷◌ c) e))
      | inr done ↦ ([], rw (done, strip_reversed))
    ]

pub length-reverse : (s : Text) → length (reverse s) ≡ length s
length-reverse [] = refl
length-reverse (c ∷ s) =
    rw (reverse-cons c s) (omega (arith, length-reverse s, length-append (reverse s) (c ∷ [])))

-- Stripping takes a tail off the value, and what is left is either no longer than the root or ends
-- in something else than the separator.
pub strip_trailing_separators_lem :
    (value root : Text) (separator : ℕ)
    → ((cut : Text) × (value ≡ strip_trailing_separators value separator root ++ cut))
      × ((length (strip_trailing_separators value separator root) ≤ length root)
          ⊎ ((init : Text) × (c : ℕ) × (strip_trailing_separators value separator root
                ≡ init ++ (c ∷ []))
              × (c ≢ separator)))
unfolding strip_trailing_separators
strip_trailing_separators_lem value root separator =
    let (cut, e) = strip_reversed_suffix separator (length root) (reverse value) in
    let kept = strip_reversed separator (length root) (reverse value) in
    (
      (reverse cut, sym (reverse-reverse value) ∙ ap reverse e ∙ reverse-append cut kept),
      elim (strip_reversed_stops separator (length root) (reverse value)) [
        | inl short ↦ inl (ground (arith, short, length-reverse kept))
        | inr (c, t, eq, other) ↦ inr (reverse t, c, ap reverse eq ∙ reverse-cons c t, other)
      ],
    )

-- `is_absolute` is Node's `path.isAbsolute`.
module _ (node : NodePath) (is_absolute : Text → Bool) where
  -- The parent of an absolute path is absolute, and is the path itself or shorter.
  abbrev pub Shrinks : Type 0
  Shrinks =
      (path : Text)
      → is_absolute path ≡ true
      → (is_absolute (node.dirname path) ≡ true)
        × ((node.dirname path ≡ path) ⊎ (length (node.dirname path) < length path))

  -- `path.normalize(path.resolve(value))` is absolute.
  abbrev pub Resolves : Type 0
  Resolves = (value : Text) → is_absolute (node.normalize (node.resolve value)) ≡ true

  resolve_from-returns :
      Shrinks
      → (fuel : ℕ) (original candidate : Text) (pending : List Text) → is_absolute candidate ≡ true
      → length candidate < fuel
      → (out : Text) × (resolve_from node fuel original candidate pending ≡ some out)
  unfolding resolve_from
  resolve_from-returns shrinks zero original candidate pending absolute h = absurd (omega arith)
  resolve_from-returns shrinks (suc fuel) original candidate pending absolute h =
      elim (Option-cases (node.realpath candidate)) [
        | inr (resolved, e) ↦ (node.join resolved pending, rw (e, resolve_from) refl)
        | inl e ↦ elim (Bool-cases (node.dirname candidate == candidate)) [
          | inl same ↦ (original, rw (e, same, resolve_from) refl)
          | inr other ↦
              let (parent_absolute, shorter) = shrinks candidate absolute in
              let next =
                resolve_from-returns shrinks fuel original (node.dirname candidate)
                  (node.basename candidate ∷ pending) parent_absolute
                  (elim shorter [
                    | inl s ↦
                        absurd
                          (ground (arith, text_eq.equal_iff (node.dirname candidate) candidate))
                    | inr less ↦ omega arith
                  ]) in
              (next.0, rw (e, other, resolve_from) next.1)
        ]
      ]

  -- The normalisation of a local path throws exactly if the path has a NUL byte, and otherwise ends
  -- with a path: the search for the longest prefix that exists comes to an end. (What `resolve` and
  -- `normalize` make of a path is absolute, and the parent of an absolute path is absolute, and the
  -- path itself or shorter.)
  pub normalize_local_policy_path-returns :
      Shrinks
      → Resolves
      → (value : Text)
      → ((normalize_local_policy_path node value ≡ none) ↔ (has_nul value ≡ true))
        × ((has_nul value ≡ true)
            ⊎ ((out : Text) × (normalize_local_policy_path node value ≡ some out)))
  unfolding normalize_local_policy_path resolve_local_existing_prefix strip_local
  normalize_local_policy_path-returns shrinks resolves value =
      let path = node.normalize (node.resolve value) in
      let (out, e) =
        resolve_from-returns shrinks (suc (length path)) path path [] (resolves value)
          (omega arith) in
      elim (Bool-cases (has_nul value)) [
        | inl nul ↦ ((λ h. nul, λ h. ground (arith, nul)), inl nul)
        | inr clean ↦ (
          (λ h. absurd (ground (arith, e, clean, h)), λ h. absurd (ground (arith, clean, h))),
          inr (strip_trailing_separators out node.sep (node.root_of out), ground (arith, e, clean)),
        )
      ]
