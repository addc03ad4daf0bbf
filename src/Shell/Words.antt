-- ===== src/Shell/Words.antt =====
-- How a shell reads the words that src/shell.ts writes.
use ssh_mcp_pro.Base.{
  ℕ, ◌≡◌, refl, ap, sym, Bool, true, false, [], ◌∷◌, ◌++◌, Option, none, some, Text, nat_eq, ◌==◌,
  if◌then◌else◌, includes, arith, Bool-cases, inl, inr,
}
use mathlib.Core.List.{append_assoc}
use ssh_mcp_pro.Shell.{
  quote, double_quote, replace_quotes, escaped_quote, shell_quote, power_shell_quote,
}

-- The quoting states of POSIX 2.2.
pub data Quoting : Type 0 where
  plain single double : Quoting

-- What ends a word, and what is special between double quotes.
abbrev is_delimiter : ℕ → Bool
is_delimiter = includes (32 ∷ 9 ∷ 10 ∷ b';' ∷ b'&' ∷ b'|' ∷ b'<' ∷ b'>' ∷ b'(' ∷ b')' ∷ [])

abbrev is_special : ℕ → Bool
is_special = includes (b'$' ∷ 96 ∷ 92 ∷ [])

prepend : ℕ → Option (Text × Text) → Option (Text × Text)
prepend c none = none
prepend c (some (word, rest)) = some (c ∷ word, rest)

-- A POSIX shell's reading of a word made of quoted parts: its value, and the text from the delimiter
-- on. `none` is a word that is not closed, or that has an unquoted or an expanded part.
pub read_word : Quoting → Text → Option (Text × Text)
unfolding prepend
read_word plain [] = some ([], [])
read_word plain (c ∷ s) =
    let quoted = read_word single s in
    let doubly = read_word double s in
    if c == quote
    then quoted
    else if c == double_quote
    then doubly
    else if is_delimiter c
    then some ([], c ∷ s)
    else none
read_word single [] = none
read_word single (c ∷ s) =
    let closed = read_word plain s in
    let more = read_word single s in if c == quote then closed else prepend c more
read_word double [] = none
read_word double (c ∷ s) =
    let closed = read_word plain s in
    let more = read_word double s in
    if c == double_quote then closed else if is_special c then none else prepend c more

abbrev pub ends_word : Text → Bool
ends_word [] = true
ends_word (c ∷ s) = is_delimiter c

read-rest : (rest : Text) → ends_word rest ≡ true → read_word plain rest ≡ some ([], rest)
unfolding read_word
read-rest [] h = refl
read-rest (c ∷ s) h = ground arith

read-single :
    (c : ℕ) (s : Text)
    → (c == quote) ≡ false
    → read_word single (c ∷ s) ≡ prepend c (read_word single s)
unfolding read_word
read-single c s h = rw h refl

read-replaced :
    (value rest : Text)
    → ends_word rest ≡ true
    → read_word single (replace_quotes escaped_quote value ++ (quote ∷ rest)) ≡ some (value, rest)
unfolding read_word replace_quotes
read-replaced [] rest h = read-rest rest h
read-replaced (c ∷ s) rest h = elim (Bool-cases (c == quote)) [
  | inl e ↦ rw e (
      rw (read-replaced s rest h)
        (ap (λ x. some (x ∷ s, rest)) (sym ((nat_eq.equal_iff c quote).0 e))))
  | inr e ↦ ground (
    arith,
    read-single c (replace_quotes escaped_quote s ++ (quote ∷ rest)) e,
    read-replaced s rest h,
  )
]

-- Whatever the value holds, a POSIX shell reads its quoted form as one word, the value itself, up to
-- the delimiter that follows it.
pub shell_quote-read :
    (value rest : Text)
    → ends_word rest ≡ true
    → read_word plain (shell_quote value ++ rest) ≡ some (value, rest)
unfolding read_word shell_quote
shell_quote-read value rest h =
    rw (append_assoc (replace_quotes escaped_quote value) (quote ∷ []) rest)
      (read-replaced value rest h)

-- A PowerShell reading of a single-quoted text: a doubled quote stands for one.
read_literal : Text → Option (Text × Text)
unfolding prepend
read_literal [] = none
read_literal (c ∷ []) = if c == quote then some ([], []) else none
read_literal (c ∷ d ∷ s) =
    let escaped = prepend quote (read_literal s) in
    let more = prepend c (read_literal (d ∷ s)) in
    if c == quote then if d == quote then escaped else some ([], d ∷ s) else more

pub read_power_shell : Text → Option (Text × Text)
unfolding read_literal
read_power_shell [] = none
read_power_shell (c ∷ s) = if c == quote then read_literal s else none

abbrev pub starts_quoted : Text → Bool
starts_quoted [] = false
starts_quoted (c ∷ s) = c == quote

read_literal-unquoted :
    (c : ℕ) (s : Text) → (c == quote) ≡ false → read_literal (c ∷ s) ≡ prepend c (read_literal s)
unfolding read_literal prepend
read_literal-unquoted c [] h = rw h refl
read_literal-unquoted c (d ∷ s) h = rw h refl

read_literal-closed :
    (rest : Text) → starts_quoted rest ≡ false → read_literal (quote ∷ rest) ≡ some ([], rest)
unfolding read_literal
read_literal-closed [] h = refl
read_literal-closed (c ∷ s) h = rw h refl

read_literal-doubled :
    (s : Text) → read_literal (quote ∷ quote ∷ s) ≡ prepend quote (read_literal s)
unfolding read_literal
read_literal-doubled s = refl

read_literal-replaced :
    (value rest : Text)
    → starts_quoted rest ≡ false
    → read_literal (replace_quotes (quote ∷ quote ∷ []) value ++ (quote ∷ rest))
      ≡ some (value, rest)
unfolding replace_quotes prepend
read_literal-replaced [] rest h = read_literal-closed rest h
read_literal-replaced (c ∷ s) rest h = elim (Bool-cases (c == quote)) [
  | inl e ↦ ground (
    arith,
    read_literal-doubled (replace_quotes (quote ∷ quote ∷ []) s ++ (quote ∷ rest)),
    read_literal-replaced s rest h,
  )
  | inr e ↦ ground (
    arith,
    read_literal-unquoted c (replace_quotes (quote ∷ quote ∷ []) s ++ (quote ∷ rest)) e,
    read_literal-replaced s rest h,
  )
]

pub power_shell_quote-read :
    (value rest : Text)
    → starts_quoted rest ≡ false
    → read_power_shell (power_shell_quote value ++ rest) ≡ some (value, rest)
unfolding read_power_shell power_shell_quote
power_shell_quote-read value rest h =
    rw (append_assoc (replace_quotes (quote ∷ quote ∷ []) value) (quote ∷ []) rest)
      (read_literal-replaced value rest h)
