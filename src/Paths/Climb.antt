-- ===== src/Paths/Climb.antt =====
-- The parent directories of a file, made one by one.
use mathlib.Core.List.{reverse, reverse-cons}
use microsanbox_cloud.Prelude.{
  ℕ, zero, suc, ◌≤◌, ◌<◌, ◌≡◌, refl, ◌⊎◌, inl, inr, Bool, true, false, not, ◌||◌, List, [], ◌∷◌,
  ◌++◌, Option, none, some, Text, text_eq, text_eq_refl, any, any-append_last, length,
  length-append, if◌then◌else◌, arith, Bool-cases, Option-cases,
}
use microsanbox_cloud.Paths.{
  is_slash, drop_while, before_last, dirname_of, dirname, normalize, is_top, climb,
  parent_directories,
}

-- `mkdir` of one directory: the directory above it must be there, or be the top.
pub make_dir : List Text → Text → Option (List Text)
make_dir made dir =
    if is_top (dirname dir) || any (text_eq (dirname dir)) made
    then some (made ++ dir ∷ [])
    else none

pub make_dirs : List Text → List Text → Option (List Text)
make_dirs made [] = some made
make_dirs made (dir ∷ dirs) = elim (make_dir made dir) [
  | none ↦ none
  | some more ↦ make_dirs more dirs
]

make_dirs-append :
    (dirs : List Text) (made more next : List Text) (dir : Text)
    → make_dirs made dirs ≡ some more
    → make_dir more dir ≡ some next
    → make_dirs made (dirs ++ dir ∷ []) ≡ some next
unfolding make_dirs
make_dirs-append [] made more next dir h k =
    let same : made ≡ more = cc in rw (same, make_dirs, k) refl
make_dirs-append (d ∷ dirs) made more next dir h k = elim (Option-cases (make_dir made d)) [
  | inl e ↦ absurd (let z : none ≡ some more = rw (e, make_dirs) at h in cc)
  | inr (m, e) ↦
      rw (e, make_dirs) (make_dirs-append dirs m more next dir (rw (e, make_dirs) at h) k)
]

length-drop_while : (p : ℕ → Bool) (s : Text) → length (drop_while p s) ≤ length s
unfolding drop_while
length-drop_while p [] = omega arith
length-drop_while p (c ∷ s) = ground (arith, length-drop_while p s)

length-reverse : (s : Text) → length (reverse s) ≡ length s
length-reverse [] = refl
length-reverse (c ∷ s) =
    rw (reverse-cons c s) (omega (arith, length-append (reverse s) (c ∷ []), length-reverse s))

abbrev not_slash : ℕ → Bool
not_slash c = not (is_slash c)

last_dropped :
    (r : Text)
    → (drop_while not_slash (drop_while is_slash r) ≡ [])
      ⊎ (length (drop_while not_slash (drop_while is_slash r)) < length r)
unfolding drop_while
last_dropped [] = inl refl
last_dropped (c ∷ r) = elim (Bool-cases (is_slash c)) [
  | inl e ↦ rw e (or_less (last_dropped r))
  | inr e ↦ rw (e, e) (inr (omega (arith, length-drop_while not_slash r)))
]
  where
    or_less :
        (drop_while not_slash (drop_while is_slash r) ≡ [])
          ⊎ (length (drop_while not_slash (drop_while is_slash r)) < length r)
        → (drop_while not_slash (drop_while is_slash r) ≡ [])
          ⊎ (length (drop_while not_slash (drop_while is_slash r)) < suc (length r))
    or_less (inl e) = inl e
    or_less (inr h) = inr (omega (arith, h))

-- Nothing is left, or at least the last segment is gone.
before_last-shorter : (s : Text) → (before_last s ≡ []) ⊎ (length (before_last s) < length s)
unfolding before_last
before_last-shorter s = rw (length-reverse s) at (last_dropped (reverse s))

-- The directory above is the top, or its path is shorter.
dirname_of-shorter :
    (c : ℕ) (s above : Text)
    → (above ≡ []) ⊎ (length above < length s)
    → (is_top (dirname_of c above) ≡ true) ⊎ (length (dirname_of c above) < suc (length s))
unfolding dirname_of is_top text_eq
dirname_of-shorter c s [] h = elim (Bool-cases (is_slash c)) [
  | inl e ↦ inl (rw e refl)
  | inr e ↦ inl (rw e refl)
]
dirname_of-shorter c s above (inl e) = cc
dirname_of-shorter c s (slash ∷ []) (inr h) = elim (Bool-cases (is_slash c)) [
  | inl e ↦ rw e (inr (omega (arith, h)))
  | inr e ↦ rw e (inr (omega (arith, h)))
]
dirname_of-shorter c s (slash ∷ d ∷ t) (inr h) = inr (omega (arith, h, length-reverse (d ∷ t)))

dirname-shorter : (p : Text) → (is_top (dirname p) ≡ true) ⊎ (length (dirname p) < length p)
unfolding dirname is_top text_eq
dirname-shorter [] = inl refl
dirname-shorter (c ∷ s) = dirname_of-shorter c s (before_last s) (before_last-shorter s)

-- The directory is there, or is the top.
abbrev pub is_made : Text → List Text → Bool
is_made dir made = is_top dir || any (text_eq dir) made

is_made-last : (dir : Text) (made : List Text) → is_made dir (made ++ dir ∷ []) ≡ true
is_made-last dir made =
    or_true (is_top dir) _ (any-append_last (text_eq dir) made dir (text_eq_refl dir))
  where
    or_true : (a b : Bool) → b ≡ true → (a || b) ≡ true
    or_true a b h = ground (arith, h)

make_dir-is_made :
    (dir : Text) (made : List Text)
    → is_made (dirname dir) made ≡ true
    → make_dir made dir ≡ some (made ++ dir ∷ [])
unfolding make_dir
make_dir-is_made dir made h = rw h refl

make_climb :
    (rounds : ℕ) (dir : Text) (made : List Text)
    → (is_top dir ≡ true) ⊎ (length dir < rounds)
    → (more : List Text) × (make_dirs made (climb rounds dir) ≡ some more)
      × (is_made dir more ≡ true)
unfolding climb make_dirs
make_climb zero dir made (inl top) = (made, refl, rw top refl)
make_climb zero dir made (inr h) = absurd (omega (arith, h))
make_climb (suc rounds) dir made h = elim (Bool-cases (is_top dir)) [
  | inl top ↦ rw top (made, refl, refl)
  | inr low ↦ rw low (
      let (more, built, above) = make_climb rounds (dirname dir) made (higher low) in
      (
        more ++ dir ∷ [],
        make_dirs-append (climb rounds (dirname dir)) made more _ dir built
            (make_dir-is_made dir more above),
        rw low at (is_made-last dir more),
      ))
]
  where
    higher : is_top dir ≡ false → (is_top (dirname dir) ≡ true) ⊎ (length (dirname dir) < rounds)
    higher low = shorter (dirname-shorter dir) h
      where
        shorter :
            (is_top (dirname dir) ≡ true) ⊎ (length (dirname dir) < length dir)
            → (is_top dir ≡ true) ⊎ (length dir < suc rounds)
            → (is_top (dirname dir) ≡ true) ⊎ (length (dirname dir) < rounds)
        shorter (inl t) k = inl t
        shorter (inr l) (inl t) = cc
        shorter (inr l) (inr k) = inr (omega (arith, l, k))

-- The parent directories of a file can be made one by one in their order, each under a directory
-- that is there or the top, and then the directory of the file is there or is the top.
pub make_dirs-parent_directories :
    (file : Text) (made : List Text)
    → (more : List Text) × (make_dirs made (parent_directories file) ≡ some more)
      × (is_made (dirname (normalize file)) more ≡ true)
unfolding parent_directories
make_dirs-parent_directories file made =
    make_climb (suc (length (dirname (normalize file)))) (dirname (normalize file)) made
      (inr (omega arith))
