-- ===== src/Paths.antt =====
-- The directories that apps/cloud-api/src/microsandbox/microsandbox-adapter.service.ts makes:
-- parentDirectories and bootstrapDirectories, over `normalize` and `dirname` of node:path/posix.
pub mod Climb
mod Tests
use mathlib.Core.List.{reverse}
use microsanbox_cloud.Prelude.{
  ℕ, zero, suc, ◌+◌, Bool, true, false, not, ◌&&◌, ◌||◌, List, [], ◌∷◌, ◌++◌, Option, none, some,
  Text, codes, text_eq, ◌==◌, is_empty, any, length, if◌then◌else◌,
}
use microsanbox_cloud.Text.{split, join}

abbrev pub is_slash : ℕ → Bool
is_slash c = c == b'/'

-- The text without the characters at its start that pass the test.
unfoldable pub drop_while : (ℕ → Bool) → Text → Text
drop_while p [] = []
drop_while p (c ∷ s) = if p c then drop_while p s else c ∷ s

-- What stands before the last slash, of the reversed text behind the first character.
unfoldable pub before_last : Text → Text
unfolding drop_while
before_last s = drop_while (λ c. not (is_slash c)) (drop_while is_slash (reverse s))

unfoldable pub dirname_of : ℕ → Text → Text
dirname_of c [] = if is_slash c then codes "/" else codes "."
dirname_of c (slash ∷ []) = if is_slash c then codes "//" else c ∷ []
dirname_of c (slash ∷ d ∷ s) = c ∷ reverse (d ∷ s)

unfoldable pub dirname : Text → Text
unfolding before_last dirname_of
dirname [] = codes "."
dirname (c ∷ s) = dirname_of c (before_last s)

-- A segment is put on the segments before it, the last of them first.
unfoldable pub put_segment : Bool → Text → List Text → List Text
put_segment above segment stack =
    if is_empty segment || text_eq segment (codes ".")
    then stack
    else if text_eq segment (codes "..")
    then elim stack [
      | [] ↦ if above then codes ".." ∷ [] else []
      | top ∷ rest ↦ if text_eq top (codes "..") then codes ".." ∷ top ∷ rest else rest
    ]
    else segment ∷ stack

unfoldable pub resolve_segments : Bool → List Text → List Text → List Text
unfolding put_segment
resolve_segments above stack [] = reverse stack
resolve_segments above stack (segment ∷ segments) =
    resolve_segments above (put_segment above segment stack) segments

abbrev starts_with_slash : Text → Bool
starts_with_slash [] = false
starts_with_slash (c ∷ s) = is_slash c

unfoldable pub normalize : Text → Text
unfolding resolve_segments
normalize [] = codes "."
normalize (c ∷ s) =
    let trailing = starts_with_slash (reverse (c ∷ s)) in
    let path = join (codes "/") (resolve_segments (not (is_slash c)) [] (split b'/' (c ∷ s))) in
    if is_empty path
    then (if is_slash c then codes "/" else if trailing then codes "./" else codes ".")
    else (if is_slash c then codes "/" else []) ++ (path ++ (if trailing then codes "/" else []))

-- Where the climb to the root ends.
unfoldable pub is_top : Text → Bool
is_top dir = is_empty dir || text_eq dir (codes ".") || text_eq dir (codes "/")

-- `while (current && ...)`, and the reversal. The first argument bounds the rounds.
unfoldable pub climb : ℕ → Text → List Text
unfolding is_top dirname
climb zero dir = []
climb (suc rounds) dir =
    let above = climb rounds (dirname dir) in if is_top dir then [] else above ++ dir ∷ []

unfoldable pub parent_directories : Text → List Text
unfolding climb normalize dirname
parent_directories file = let dir = dirname (normalize file) in climb (suc (length dir)) dir

-- `dirs.add(dir)` on a Set.
unfoldable pub add_dir : List Text → Text → List Text
add_dir dirs dir = if any (text_eq dir) dirs then dirs else dirs ++ dir ∷ []

unfoldable pub add_dirs : List Text → List Text → List Text
unfolding add_dir
add_dirs dirs [] = dirs
add_dirs dirs (dir ∷ rest) = add_dirs (add_dir dirs dir) rest

-- The directories for a working directory or a mount.
unfoldable pub add_path : List Text → Text → List Text
unfolding add_dirs parent_directories
add_path dirs path =
    add_dir (add_dirs dirs (parent_directories (path ++ codes "/.keep"))) (normalize path)

unfoldable pub add_paths : List Text → List Text → List Text
unfolding add_path
add_paths dirs [] = dirs
add_paths dirs (path ∷ paths) = add_paths (add_path dirs path) paths

unfoldable pub bootstrap_directories : Option Text → List Text → List Text
unfolding add_paths add_path
bootstrap_directories none mounts = add_paths [] mounts
bootstrap_directories (some []) mounts = add_paths [] mounts
bootstrap_directories (some (c ∷ dir)) mounts = add_paths (add_path [] (c ∷ dir)) mounts

-- `join` of node:path on parts that are not empty.
abbrev pub join_path : List Text → Text
join_path parts = normalize (join (codes "/") parts)
