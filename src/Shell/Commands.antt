-- ===== src/Shell/Commands.antt =====
-- What a POSIX shell reads of the command lines of src/shell.ts.
use ssh_mcp_pro.Base.{
  ◌≡◌, ◌≢◌, refl, ap, sym, ◌∙◌, Bool-cases, inl, inr, true, [], ◌∷◌, ◌++◌, Option, some, Text,
  codes, arith, All,
}
use mathlib.Core.List.{append_assoc, append-nil}
use ssh_mcp_pro.Shell.{
  Environment, ShellName, shell_text, shell_quote, posix_script, build_posix_command,
  assert_valid_environment, is_posix_env_key, with_exports,
}
use ssh_mcp_pro.Shell.Words.{plain, read_word, shell_quote-read}

valid_keys :
    (env : Environment)
    → assert_valid_environment env ≡ true
    → All (λ (e : Text × Text). is_posix_env_key e.0 ≡ true) env
unfolding assert_valid_environment
valid_keys [] h = tt
valid_keys ((key, value) ∷ env) h = ground (arith, valid_keys env)

-- A command line that is built names the shell, and gives it after `-lc` one word, which the shell
-- reads as the whole script and nothing more; every name of the environment is then a POSIX name.
pub build_posix_command-reads :
    (command : Text) (cwd : Option Text) (env : Environment) (shell_name : ShellName) (line : Text)
    → build_posix_command command cwd env shell_name ≡ some line
    → (word : Text) × (line ≡ shell_text shell_name ++ codes " -lc " ++ word)
      × (read_word plain word ≡ some (posix_script command cwd env, []))
      × All (λ (e : Text × Text). is_posix_env_key e.0 ≡ true) env
unfolding build_posix_command
build_posix_command-reads command cwd env shell_name line h =
    let script = posix_script command cwd env in
    elim (Bool-cases (assert_valid_environment env)) [
      | inl e ↦ (
        shell_quote script,
        ground arith,
        ap (read_word plain) (sym (append-nil (shell_quote script)))
            ∙ shell_quote-read script [] refl,
        valid_keys env e,
      )
      | inr e ↦ ground arith
    ]

-- A script with a directory begins with `cd`, and the shell reads the word after it as that very
-- directory, up to the ` && ` before the exports and the command.
pub posix_script-directory :
    (command directory : Text) (env : Environment)
    → directory ≢ []
    → (word : Text) × (posix_script command (some directory) env ≡ codes "cd " ++ word)
      × (read_word plain word ≡ some (directory, codes " && " ++ with_exports env command))
unfolding posix_script
posix_script-directory command [] env h = absurd (h refl)
posix_script-directory command (c ∷ s) env h =
    let rest = codes " && " ++ with_exports env command in
    (shell_quote (c ∷ s) ++ rest, simp (append_assoc {0}), shell_quote-read (c ∷ s) rest refl)
