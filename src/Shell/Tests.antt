-- ===== src/Shell/Tests.antt =====
-- The command lines of src/shell.ts on concrete inputs.
use ssh_mcp_pro.Base.{◌≡◌, refl, [], ◌∷◌, ◌++◌, some, none, codes, true, false, Text, All}
use ssh_mcp_pro.Shell.{
  quote, sh, shell_quote, build_posix_command, build_remote_command_with_timeout,
  build_sudo_command, OsInfo, posix_script, is_posix_env_key, shell_text, Environment,
}
use ssh_mcp_pro.Shell.Words.{plain, read_word, shell_quote-read}
use ssh_mcp_pro.Shell.Commands.{build_posix_command-reads}

-- don't
abbrev awkward : Text
awkward = codes "don" ++ quote ∷ codes "t"

abbrev environment : Environment
environment = (codes "LANG", codes "C") ∷ []

abbrev linux : OsInfo
linux = record { is_windows = false; is_bash = true }

bad_name_refused : build_posix_command (codes "ls") none ((codes "1A", codes "x") ∷ []) sh ≡ none
unfolding build_posix_command
bad_name_refused = refl

timed_command :
    build_remote_command_with_timeout (λ n. codes "2") (codes "ls") linux 1001 none []
    ≡ some (
        codes "if command -v timeout >/dev/null 2>&1; then timeout -k 2s 2s bash -lc "
        ++ shell_quote (codes "ls")
        ++ codes "; else bash -lc "
        ++ shell_quote (codes "ls")
        ++ codes "; fi")
unfolding build_remote_command_with_timeout
timed_command = refl

sudo_command :
    build_sudo_command (codes "ls") linux none
    ≡ some (codes "bash -lc " ++ shell_quote (codes "sudo -n ls"))
unfolding build_sudo_command
sudo_command = refl

shell_quote-read_example :
    read_word plain (shell_quote awkward ++ codes "; rm") ≡ some (awkward, codes "; rm")
shell_quote-read_example = shell_quote-read awkward (codes "; rm") refl

build_posix_command-reads_example :
    (word : Text) × (codes "sh -lc "
        ++ shell_quote (codes "export LANG=" ++ shell_quote (codes "C") ++ codes "; ls")
      ≡ shell_text sh ++ codes " -lc " ++ word)
    × (read_word plain word ≡ some (posix_script (codes "ls") none environment, []))
    × All (λ (e : Text × Text). is_posix_env_key e.0 ≡ true) environment
unfolding build_posix_command
build_posix_command-reads_example =
    build_posix_command-reads (codes "ls") none environment sh
      (codes "sh -lc "
        ++ shell_quote (codes "export LANG=" ++ shell_quote (codes "C") ++ codes "; ls"))
      refl
