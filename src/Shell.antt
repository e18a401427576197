-- ===== src/Shell.antt =====
-- The launch script of apps/cloud-api/src/microsandbox/microsandbox-adapter.service.ts:
-- buildLaunchScript, toShellCommand and shellEscape.
pub mod Words
pub mod Quoting
mod Tests
use microsanbox_cloud.Prelude.{
  ℕ, Bool, true, false, not, ◌&&◌, ◌||◌, List, [], ◌∷◌, ◌++◌, map, Option, none, some, Text, codes,
  leb, ◌==◌, is_empty, truthy, if◌then◌else◌,
}
use microsanbox_cloud.Text.{trim, join}

abbrev pub quote : ℕ
quote = 39

abbrev pub double_quote : ℕ
double_quote = 34

-- [A-Za-z0-9_./:-]
unfoldable pub is_plain : ℕ → Bool
is_plain c =
    leb b'A' c && leb c b'Z'
    || leb b'a' c && leb c b'z'
    || leb b'0' c && leb c b'9'
    || c == b'_'
    || c == b'.'
    || c == b'/'
    || c == b':'
    || c == b'-'

unfoldable pub all_plain : Text → Bool
unfolding is_plain
all_plain [] = true
all_plain (c ∷ s) = is_plain c && all_plain s

-- `value.replace(/'/g, ...)`: the quoting is closed, the quote stands in double quotes, and the
-- quoting is opened again.
unfoldable pub replace_quotes : Text → Text
replace_quotes [] = []
replace_quotes (c ∷ s) =
    if c == quote
    then quote ∷ double_quote ∷ quote ∷ double_quote ∷ quote ∷ replace_quotes s
    else c ∷ replace_quotes s

unfoldable pub shell_escape : Text → Text
unfolding all_plain replace_quotes
shell_escape value =
    if not (is_empty value) && all_plain value
    then value
    else quote ∷ (replace_quotes value ++ quote ∷ [])

unfoldable pub to_shell_command : List Text → Text
unfolding shell_escape
to_shell_command command = join (codes " ") (map shell_escape command)

-- The lines for the working directory, for SSH, and for the command.
unfoldable pub directory_lines : Option Text → List Text
unfolding shell_escape
directory_lines none = []
directory_lines (some dir) =
    if truthy (trim dir) then (codes "cd " ++ shell_escape (trim dir)) ∷ [] else []

unfoldable pub ssh_lines : Bool → List Text
ssh_lines ssh =
    if ssh
    then codes
        "SSHD_PORT=22 SSHD_HOST_KEY=/etc/ssh/host_key SSHD_AUTHORIZED_KEYS=/root/.ssh/authorized_keys /usr/local/sbin/inject-sshd >/tmp/inject-sshd.log 2>&1 </dev/null &"
      ∷ codes "ssh_pid=$!"
      ∷ codes "sleep 0.5"
      ∷ []
    else []

unfoldable pub command_lines : Option (List Text) → List Text
unfolding to_shell_command
command_lines none = []
command_lines (some []) = []
command_lines (some (part ∷ parts)) =
    (to_shell_command (part ∷ parts) ++ codes " >/tmp/microsandbox-app.log 2>&1 </dev/null &")
    ∷ codes "sleep 0.5"
    ∷ []

unfoldable pub build_launch_script : Option (List Text) → Option Text → Bool → Text
unfolding directory_lines ssh_lines command_lines
build_launch_script command working_dir ssh =
    join (10 ∷ [])
      (codes "set -eu" ∷ (directory_lines working_dir ++ (ssh_lines ssh ++ command_lines command)))
