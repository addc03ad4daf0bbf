-- ===== src/Shell.antt =====
-- src/shell.ts: the command lines that are sent to a host, over code units. An environment is the
-- list of its entries; `none` is the exception of `assertValidEnvironment`.
pub mod Words
mod Commands
mod Tests
use ssh_mcp_pro.Base.{
  ℕ, ◌+◌, ◌/◌, Bool, true, false, not, ◌&&◌, ◌||◌, List, [], ◌∷◌, ◌++◌, Option, none, some, ◌>>=◌,
  Text, codes, nat_eq, ◌==◌, if◌then◌else◌, leb, all, max, String,
}

abbrev pub quote : ℕ
quote = 39

abbrev pub double_quote : ℕ
double_quote = 34

-- `value.replaceAll("'", replacement)`.
unfoldable pub replace_quotes : Text → Text → Text
replace_quotes replacement [] = []
replace_quotes replacement (c ∷ s) =
    let rest = replace_quotes replacement s in if c == quote then replacement ++ rest else c ∷ rest

-- The five units ' " ' " ' .
abbrev pub escaped_quote : Text
escaped_quote = quote ∷ double_quote ∷ quote ∷ double_quote ∷ quote ∷ []

unfoldable pub shell_quote : Text → Text
unfolding replace_quotes
shell_quote value = quote ∷ replace_quotes escaped_quote value ++ quote ∷ []

unfoldable pub power_shell_quote : Text → Text
unfolding replace_quotes
power_shell_quote value = quote ∷ replace_quotes (quote ∷ quote ∷ []) value ++ quote ∷ []

abbrev pub is_letter : ℕ → Bool
is_letter c = leb b'A' c && leb c b'Z' || leb b'a' c && leb c b'z'

abbrev pub is_word_start : ℕ → Bool
is_word_start c = is_letter c || c == b'_'

abbrev pub is_word_unit : ℕ → Bool
is_word_unit c = is_word_start c || leb b'0' c && leb c b'9'

-- `POSIX_ENV_KEY_PATTERN.test(key)`.
abbrev pub is_posix_env_key : Text → Bool
is_posix_env_key [] = false
is_posix_env_key (c ∷ s) = is_word_start c && all is_word_unit s

-- An absent environment is the empty one: the source treats both alike.
abbrev pub Environment : Type 0
Environment = List (Text × Text)

pub assert_valid_environment : Environment → Bool
assert_valid_environment env = all (λ (e : Text × Text). is_posix_env_key e.0) env

-- `parts.join(separator)`.
unfoldable pub join : Text → List Text → Text
join separator [] = []
join separator (part ∷ []) = part
join separator (part ∷ next ∷ parts) = part ++ separator ++ join separator (next ∷ parts)

-- `cwd` where the source tests it for truth.
abbrev pub with_directory : Option Text → (Text → Text) → Text → Text
with_directory none prefix command = command
with_directory (some []) prefix command = command
with_directory (some (c ∷ s)) prefix command = prefix (c ∷ s) ++ command

exports : Environment → List Text
unfolding shell_quote
exports [] = []
exports ((key, value) ∷ env) =
    (codes "export " ++ key ++ codes "=" ++ shell_quote value) ∷ exports env

pub with_exports : Environment → Text → Text
unfolding exports join
with_exports [] command = command
with_exports (entry ∷ env) command =
    join (codes "; ") (exports (entry ∷ env)) ++ codes "; " ++ command

abbrev pub change_directory : Text → Text
change_directory cwd = codes "cd " ++ shell_quote cwd ++ codes " && "

pub data ShellName : Type 0 where
  sh bash : ShellName

abbrev pub shell_text : ShellName → Text
shell_text sh = codes "sh"
shell_text bash = codes "bash"

pub posix_script : Text → Option Text → Environment → Text
unfolding with_exports
posix_script command cwd env = with_directory cwd change_directory (with_exports env command)

pub build_posix_command : Text → Option Text → Environment → ShellName → Option Text
unfolding posix_script assert_valid_environment shell_quote
build_posix_command command cwd env shell_name =
    if assert_valid_environment env
    then some (shell_text shell_name ++ codes " -lc " ++ shell_quote (posix_script command cwd env))
    else none

assignments : Environment → List Text
unfolding power_shell_quote
assignments [] = []
assignments ((key, value) ∷ env) =
    (codes "$env:" ++ key ++ codes " = " ++ power_shell_quote value) ∷ assignments env

with_assignments : Environment → Text → Text
unfolding assignments join
with_assignments [] command = command
with_assignments (entry ∷ env) command =
    join (codes "; ") (assignments (entry ∷ env)) ++ codes "; " ++ command

abbrev set_location : Text → Text
set_location cwd = codes "Set-Location -Path " ++ power_shell_quote cwd ++ codes "; "

pub power_shell_script : Text → Option Text → Environment → Text
unfolding with_assignments
power_shell_script command cwd env = with_assignments env (with_directory cwd set_location command)

pub build_power_shell_command : Text → Option Text → Environment → Option Text
unfolding power_shell_script assert_valid_environment power_shell_quote
build_power_shell_command command cwd env =
    if assert_valid_environment env
    then some (
        codes "powershell -NoLogo -NoProfile -NonInteractive -ExecutionPolicy Bypass -Command "
        ++ power_shell_quote (power_shell_script command cwd env))
    else none

-- Of the operating system: whether it is Windows, and whether its default shell is bash.
pub record OsInfo : Type 0 where
  pub is_windows : Bool
  pub is_bash : Bool

abbrev pub shell_of : OsInfo → ShellName
shell_of os = if os.is_bash then bash else sh

pub build_remote_command : Text → OsInfo → Option Text → Environment → Option Text
unfolding build_posix_command build_power_shell_command
build_remote_command command os cwd env =
    if os.is_windows
    then build_power_shell_command command cwd env
    else build_posix_command command cwd env (shell_of os)

-- `Math.max(1, Math.ceil(timeoutMs / 1000))`.
abbrev pub timeout_seconds : ℕ → ℕ
timeout_seconds timeout_ms = max 1 ((timeout_ms + 999) / 1000)

-- `print` writes a number in decimal.
with_timeout : (ℕ → Text) → ℕ → Text → Text
unfolding join
with_timeout print timeout_ms remote = join (codes " ") (
    codes "if command -v timeout >/dev/null 2>&1; then"
    ∷ (codes "timeout -k 2s "
        ++ print (timeout_seconds timeout_ms)
        ++ codes "s "
        ++ remote
        ++ codes ";")
    ∷ codes "else"
    ∷ (remote ++ codes ";")
    ∷ codes "fi"
    ∷ [])

pub build_remote_command_with_timeout :
    (ℕ → Text) → Text → OsInfo → ℕ → Option Text → Environment → Option Text
unfolding build_remote_command with_timeout
build_remote_command_with_timeout print command os timeout_ms cwd env = do
  remote ← build_remote_command command os cwd env
  some (if os.is_windows then remote else with_timeout print timeout_ms remote)

-- `none` on Windows, where the source throws.
pub build_sudo_command : Text → OsInfo → Option Text → Option Text
unfolding build_posix_command
build_sudo_command command os cwd =
    if os.is_windows
    then none
    else build_posix_command (codes "sudo -n " ++ with_directory cwd change_directory command) none
        [] (shell_of os)
