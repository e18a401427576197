-- ===== src/Shell/Tests.antt =====
-- Launch scripts at concrete commands.
use microsanbox_cloud.Text.{join, trim}
use microsanbox_cloud.Prelude.{◌≡◌, refl, List, [], ◌∷◌, ◌++◌, some, Text, codes, false}
use microsanbox_cloud.Shell.{quote, to_shell_command, build_launch_script, is_plain}
use microsanbox_cloud.Shell.Words.{words, between}
use microsanbox_cloud.Shell.Quoting.{to_shell_command-words}

-- The command `node` with the argument `it's $HOME; rm`.
abbrev tricky : List Text
tricky = codes "node" ∷ (codes "it" ++ (quote ∷ codes "s $HOME; rm")) ∷ []

tricky_script :
    build_launch_script (some (codes "ls" ∷ codes "-l" ∷ [])) (some (codes " /srv/app ")) false
    ≡ codes "set -eu"
      ++ (10 ∷ codes "cd /srv/app")
      ++ (10 ∷ codes "ls -l >/tmp/microsandbox-app.log 2>&1 </dev/null &")
      ++ (10 ∷ codes "sleep 0.5")
unfolding build_launch_script join trim
tricky_script = refl

to_shell_command-words_example :
    (words between (to_shell_command tricky) ≡ some tricky)
    × (words between (to_shell_command tricky ++ 32 ∷ codes "-v")
        ≡ some (tricky ++ codes "-v" ∷ []))
unfolding words is_plain
to_shell_command-words_example = to_shell_command-words tricky (codes "-v" ∷ []) (codes "-v") refl
