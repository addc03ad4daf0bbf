-- ===== src/Policy/Paths/Tests.antt =====
-- The path functions of src/policy.ts with the parent that Node.js takes on POSIX systems, where no
-- path exists. Paths have no dot segments, and the current directory is the root.
use ssh_mcp_pro.Base.{
  ℕ, ◌+◌, ◌≤◌, ◌<◌, ◌≡◌, ◌⊎◌, ◌↔◌, inl, inr, refl, Bool, true, false, none, some, Option, [], ◌∷◌,
  ◌==◌, if◌then◌else◌, Text, text_eq, nat_eq, codes, reverse, length, arith,
}
use ssh_mcp_pro.Policy.Paths.{NodePath, slash, has_nul, normalize_local_policy_path}
use ssh_mcp_pro.Policy.Paths.Boundary.{
  Shrinks, Resolves, length-reverse, normalize_local_policy_path-returns,
}

-- The path read backwards, without its first code unit: what stands before the last separator that
-- does not end it.
skip_name : Text → Option Text
skip_name [] = none
skip_name (c ∷ s) = let rest = skip_name s in if c == slash then some s else rest

skip_slashes : Text → Option Text
unfolding skip_name
skip_slashes [] = none
skip_slashes (c ∷ s) = let rest = skip_slashes s in if c == slash then rest else skip_name s

abbrev parent_before : ℕ → Option Text → Text
parent_before c none = if c == slash then codes "/" else codes "."
parent_before c (some []) = if c == slash then codes "//" else c ∷ []
parent_before c (some (d ∷ r)) = c ∷ reverse (d ∷ r)

dirname : Text → Text
unfolding skip_slashes
dirname [] = codes "."
dirname (c ∷ s) = parent_before c (skip_slashes (reverse s))

abbrev is_absolute : Text → Bool
is_absolute [] = false
is_absolute (c ∷ s) = c == slash

abbrev absolute_of : Text → Text
absolute_of value = if is_absolute value then value else slash ∷ value

abbrev posix : NodePath
posix = record {
  posix_normalize = λ s. s;
  resolve = absolute_of;
  normalize = λ s. s;
  dirname = dirname;
  basename = λ s. s;
  join = λ s pending. s;
  root_of = λ s. slash ∷ [];
  sep = slash;
  realpath = λ s. none;
}

dirname_runs :
    (dirname (codes "/a//b/") ≡ codes "/a/")
    × (dirname (codes "/a") ≡ codes "/")
    × (dirname (codes "/") ≡ codes "/")
    × (dirname (codes "a/b") ≡ codes "a")
    × (dirname (codes "foo") ≡ codes ".")
    × (dirname [] ≡ codes ".")
unfolding dirname
dirname_runs = (refl, refl, refl, refl, refl, refl)

length-skip_name : (s r : Text) → skip_name s ≡ some r → length r + 1 ≤ length s
unfolding skip_name
length-skip_name [] r h = absurd (ground arith)
length-skip_name (c ∷ s) r h = ground (arith, length-skip_name s r)

length-skip_slashes : (s r : Text) → skip_slashes s ≡ some r → length r + 2 ≤ length s
unfolding skip_slashes
length-skip_slashes [] r h = absurd (ground arith)
length-skip_slashes (c ∷ s) r h = ground (arith, length-skip_slashes s r, length-skip_name s r)

parent_shrinks :
    (c : ℕ) (s : Text) (before : Option Text)
    → (c == slash) ≡ true
    → ((r : Text) → before ≡ some r → length r + 2 ≤ length s)
    → (is_absolute (parent_before c before) ≡ true)
      × ((parent_before c before ≡ c ∷ s) ⊎ (length (parent_before c before) < length (c ∷ s)))
parent_shrinks c [] none e h = (ground arith, inl (ground arith))
parent_shrinks c (d ∷ s) none e h = (ground arith, inr (ground arith))
parent_shrinks c s (some []) e h = (ground arith, inr (ground (arith, h [] refl)))
parent_shrinks c s (some (d ∷ r)) e h =
    (e, inr (ground (arith, h (d ∷ r) refl, length-reverse (d ∷ r))))

posix-Shrinks : Shrinks posix is_absolute
unfolding dirname
posix-Shrinks [] absolute = absurd (ground arith)
posix-Shrinks (c ∷ s) absolute =
    parent_shrinks c s (skip_slashes (reverse s)) absolute
      (λ r h. ground (arith, length-skip_slashes (reverse s) r h, length-reverse s))

posix-Resolves : Resolves posix is_absolute
posix-Resolves [] = refl
posix-Resolves (c ∷ s) = ground arith

normalize_local_policy_path-returns_example :
    ((normalize_local_policy_path posix (codes "a/b") ≡ none) ↔ (has_nul (codes "a/b") ≡ true))
    × ((has_nul (codes "a/b") ≡ true)
        ⊎ ((out : Text) × (normalize_local_policy_path posix (codes "a/b") ≡ some out)))
normalize_local_policy_path-returns_example =
    normalize_local_policy_path-returns posix is_absolute posix-Shrinks posix-Resolves (codes "a/b")
