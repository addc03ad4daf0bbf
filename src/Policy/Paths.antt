-- ===== src/Policy/Paths.antt =====
-- The path functions of src/policy.ts, over code units. Node's `path` and `fs` are the parameters.
pub mod Boundary
mod Tests
use ssh_mcp_pro.Base.{
  ℕ, zero, suc, ◌++◌, Bool, true, false, ◌&&◌, ◌||◌, List, [], ◌∷◌, map, reverse, Option, none,
  some, Text, text_eq, nat_eq, starts_with, codes, ◌==◌, if◌then◌else◌, ltb, length, includes,
  filter, not,
}

abbrev pub slash : ℕ
slash = b'/'

abbrev pub backslash : ℕ
backslash = 92

-- What the engine takes from `node:path` and `node:fs`; `realpath` is `none` where it throws.
pub record NodePath : Type 0 where
  pub posix_normalize : Text → Text
  pub resolve : Text → Text
  pub normalize : Text → Text
  pub dirname : Text → Text
  pub basename : Text → Text
  pub join : Text → List Text → Text
  pub root_of : Text → Text
  pub sep : ℕ
  pub realpath : Text → Option Text

unfoldable pub is_segment_boundary_path_match : Text → Text → Text → Bool
is_segment_boundary_path_match candidate prefix separator =
    candidate == prefix || starts_with candidate (prefix ++ separator)

-- The loop over the text read backwards.
unfoldable pub strip_reversed : ℕ → ℕ → Text → Text
strip_reversed separator root_length [] = []
strip_reversed separator root_length (c ∷ s) =
    let shorter = strip_reversed separator root_length s in
    if ltb root_length (length (c ∷ s)) && c == separator then shorter else c ∷ s

unfoldable pub strip_trailing_separators : Text → ℕ → Text → Text
unfolding strip_reversed
strip_trailing_separators value separator root =
    reverse (strip_reversed separator (length root) (reverse value))

-- `value.includes("\0")`.
abbrev pub has_nul : Text → Bool
has_nul value = includes value 0

abbrev pub unix_separators : Text → Text
unix_separators = map (λ c. if c == backslash then slash else c)

module _ (node : NodePath) where
  -- `none` where the source throws.
  unfoldable pub normalize_remote_posix_path : Text → Option Text
  unfolding strip_trailing_separators
  normalize_remote_posix_path value =
      if has_nul value
      then none
      else let unix = unix_separators value in
        let absolute = if starts_with unix (slash ∷ []) then unix else slash ∷ unix in
        some (strip_trailing_separators (node.posix_normalize absolute) slash (slash ∷ []))

  -- The loop of `resolveLocalExistingPrefix`; the newest pending segment stands first, as after the
  -- `reverse`. `none` is the lack of fuel.
  pub resolve_from : ℕ → Text → Text → List Text → Option Text
  resolve_from zero original candidate pending = none
  resolve_from (suc fuel) original candidate pending =
      let parent = node.dirname candidate in
      let rest = resolve_from fuel original parent (node.basename candidate ∷ pending) in
      elim (node.realpath candidate) [
        | some resolved ↦ some (node.join resolved pending)
        | none ↦ if parent == candidate then some original else rest
      ]

  pub resolve_local_existing_prefix : Text → Option Text
  unfolding resolve_from
  resolve_local_existing_prefix path = resolve_from (suc (length path)) path path []

  strip_local : Option Text → Option Text
  unfolding strip_trailing_separators
  strip_local none = none
  strip_local (some path) = some (strip_trailing_separators path node.sep (node.root_of path))

  pub normalize_local_policy_path : Text → Option Text
  unfolding strip_local resolve_local_existing_prefix
  normalize_local_policy_path value =
      if has_nul value
      then none
      else strip_local (resolve_local_existing_prefix (node.normalize (node.resolve value)))

  unfoldable pub is_path_under : Text → Text → Text → Bool
  unfolding is_segment_boundary_path_match
  is_path_under path prefix separator =
      if prefix == (slash ∷ []) || prefix == node.root_of prefix
      then true
      else is_segment_boundary_path_match path prefix separator

-- `[...new Set(paths)]`: the first of equal entries stays.
unfoldable pub distinct : List Text → List Text → List Text
distinct seen [] = []
distinct seen (p ∷ ps) =
    let fresh = distinct (p ∷ seen) ps in
    let rest = distinct seen ps in if includes seen p then rest else p ∷ fresh

unfoldable pub normalize_each : (Text → Option Text) → List Text → Option (List Text)
normalize_each normalizer [] = some []
normalize_each normalizer (p ∷ ps) = elim (normalizer p) [
  | none ↦ none
  | some q ↦ elim (normalize_each normalizer ps) [ none ↦ none | some qs ↦ some (q ∷ qs) ]
]

unfoldable pub normalize_policy_paths : (Text → Option Text) → List Text → Option (List Text)
unfolding distinct normalize_each
normalize_policy_paths normalizer paths = elim (normalize_each normalizer paths) [
  | none ↦ none
  | some qs ↦ some (distinct [] qs)
]
