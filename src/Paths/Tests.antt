-- ===== src/Paths/Tests.antt =====
-- Directories at concrete paths.
use microsanbox_cloud.Text.{join, split}
use microsanbox_cloud.Prelude.{◌≡◌, List, Text, true, refl, [], ◌∷◌, codes, some, text_eq}
use microsanbox_cloud.Paths.Climb.{make_dirs, is_made, make_dirs-parent_directories}
use microsanbox_cloud.Paths.{dirname, normalize, parent_directories, bootstrap_directories}

of_file :
    parent_directories (codes "/srv//app/./x/../conf/a.txt")
    ≡ codes "/srv" ∷ codes "/srv/app" ∷ codes "/srv/app/conf" ∷ []
unfolding parent_directories join split text_eq
of_file = refl

of_relative : parent_directories (codes "../a/b") ≡ codes ".." ∷ codes "../a" ∷ []
unfolding parent_directories join split text_eq
of_relative = refl

trailing : normalize (codes "/a/b/") ≡ codes "/a/b/"
unfolding normalize join split text_eq
trailing = refl

of_work_dir :
    bootstrap_directories (some (codes "/srv/app")) (codes "/srv/data" ∷ [])
    ≡ codes "/srv" ∷ codes "/srv/app" ∷ codes "/srv/data" ∷ []
unfolding bootstrap_directories join split text_eq
of_work_dir = refl

make_dirs-parent_directories_example :
    (more : List Text) × (make_dirs [] (parent_directories (codes "/srv/app/a.txt")) ≡ some more)
    × (is_made (dirname (normalize (codes "/srv/app/a.txt"))) more ≡ true)
make_dirs-parent_directories_example = make_dirs-parent_directories (codes "/srv/app/a.txt") []
