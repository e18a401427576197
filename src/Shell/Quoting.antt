-- ===== src/Shell/Quoting.antt =====
-- The words of what `shellEscape` and `toShellCommand` write.
use mathlib.Core.List.{append-nil, append_assoc}
use microsanbox_cloud.Prelude.{
  ℕ, ◌≡◌, refl, ap, ◌∙◌, true, false, List, [], ◌∷◌, ◌++◌, some, Text, ◌==◌, arith, Bool-cases, inl,
  inr,
}
use microsanbox_cloud.Text.{join}
use microsanbox_cloud.Shell.{
  quote, is_plain, all_plain, replace_quotes, shell_escape, to_shell_command,
}
use microsanbox_cloud.Shell.Words.{
  is_literal, bare, single, reads, read_char, between, inside, words,
}

read_plain : (c : ℕ) → is_plain c ≡ true → read_char bare c ≡ reads bare (c ∷ [])
unfolding read_char is_plain is_literal
read_plain c h = ground (arith, h)

read_single : (c : ℕ) → (c == quote) ≡ false → read_char single c ≡ reads single (c ∷ [])
unfolding read_char
read_single c h = rw h

-- Plain text is read as it stands.
words-plain :
    (v word rest : Text)
    → all_plain v ≡ true
    → words (inside bare word) (v ++ rest) ≡ words (inside bare (word ++ v)) rest
unfolding words all_plain
words-plain [] word rest h = rw append-nil
words-plain (c ∷ v) word rest h =
    let first : is_plain c ≡ true = ground (arith, h) in
    rw (words, read_plain c first)
      (words-plain v (word ++ c ∷ []) rest (ground (arith, h)) ∙ rw append_assoc)

-- So is text in single quotes, with its quotes replaced.
words-replace_quotes :
    (v word rest : Text)
    → words (inside single word) (replace_quotes v ++ quote ∷ rest)
      ≡ words (inside bare (word ++ v)) rest
unfolding words replace_quotes read_char
words-replace_quotes [] word rest = rw append-nil
words-replace_quotes (c ∷ v) word rest = elim (Bool-cases (c == quote)) [
  | inl e ↦
      let same : c ≡ quote = ground (arith, e) in
      rw (e, same) (words-replace_quotes v _ rest ∙ simp (append-nil, append_assoc))
  | inr e ↦ rw (e, words, read_single c e) (words-replace_quotes v _ rest ∙ rw append_assoc)
]

plain_head : (c : ℕ) (v : Text) → all_plain (c ∷ v) ≡ true → is_plain c ≡ true
unfolding all_plain
plain_head c v e = ground (arith, e)

plain_tail : (c : ℕ) (v : Text) → all_plain (c ∷ v) ≡ true → all_plain v ≡ true
unfolding all_plain
plain_tail c v e = ground (arith, e)

-- A word that was escaped is read back, whatever follows it.
words-shell_escape :
    (v rest : Text) → words between (shell_escape v ++ rest) ≡ words (inside bare v) rest
unfolding words shell_escape
words-shell_escape [] rest = refl
words-shell_escape (c ∷ v) rest = elim (Bool-cases (all_plain (c ∷ v))) [
  | inl e ↦
      let first : is_plain c ≡ true = plain_head c v e in
      let others : all_plain v ≡ true = plain_tail c v e in
      rw (e, words, read_plain c first) (words-plain v (c ∷ []) rest others)
  | inr e ↦
      rw (e, append_assoc (replace_quotes (c ∷ v)) (quote ∷ []) rest)
        (words-replace_quotes (c ∷ v) [] rest)
]

module _ (rest : Text) (ws : List Text)
    (after_word : (w : Text) → words (inside bare w) rest ≡ some (w ∷ ws))
    (after_none : words between rest ≡ some ws) where
  words-to_shell_command :
      (command : List Text)
      → words between (to_shell_command command ++ rest) ≡ some (command ++ ws)
  unfolding to_shell_command join words
  words-to_shell_command [] = after_none
  words-to_shell_command (v ∷ []) = words-shell_escape v rest ∙ after_word v
  words-to_shell_command (v ∷ u ∷ us) =
      let behind = words-to_shell_command (u ∷ us) in
      let first = words-shell_escape v (32 ∷ (to_shell_command (u ∷ us) ++ rest)) in
      let shape : to_shell_command (v ∷ u ∷ us) ++ rest
          ≡ shell_escape v ++ (32 ∷ (to_shell_command (u ∷ us) ++ rest)) =
        simp append_assoc in
      ap (words between) shape ∙ first ∙ rw behind

-- A command is read back word for word, whatever texts its words are, and none of them adds a word
-- or ends the command; also where other words follow it on the line.
pub to_shell_command-words :
    (command ws : List Text) (rest : Text)
    → words between rest ≡ some ws
    → (words between (to_shell_command command) ≡ some command)
      × (words between (to_shell_command command ++ 32 ∷ rest) ≡ some (command ++ ws))
unfolding words
to_shell_command-words command ws rest h = (
  simp append-nil at (words-to_shell_command [] [] (λ w. refl) refl command),
  words-to_shell_command (32 ∷ rest) ws (λ w. rw h) h command,
)
