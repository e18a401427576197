-- ===== src/Ssh/Entries.antt =====
-- The map of the session service: `set`, `get` and `delete` of a JavaScript Map with text keys.
use microsanbox_cloud.Prelude.{
  ℕ, ◌≡◌, refl, not, List, [], ◌∷◌, Option, none, some, Text, text_eq, text_eq_refl, keep,
  if◌then◌else◌, Bool-cases, inl, inr,
}

pub record SessionEntry : Type 0 where
  pub sandbox_id : Text
  pub host_port : ℕ
  pub expires_at : ℕ

unfoldable pub entry_of : Text → List (Text × SessionEntry) → Option SessionEntry
entry_of key [] = none
entry_of key ((k, e) ∷ entries) = if text_eq k key then some e else entry_of key entries

unfoldable pub set : Text → SessionEntry → List (Text × SessionEntry) → List (Text × SessionEntry)
set key entry [] = (key, entry) ∷ []
set key entry ((k, e) ∷ entries) =
    if text_eq k key then (k, entry) ∷ entries else (k, e) ∷ set key entry entries

unfoldable pub delete_entry : Text → List (Text × SessionEntry) → List (Text × SessionEntry)
delete_entry key entries = keep (λ e. not (text_eq e.0 key)) entries

pub entry_of-set :
    (key : Text) (entry : SessionEntry) (entries : List (Text × SessionEntry))
    → entry_of key (set key entry entries) ≡ some entry
unfolding entry_of set
entry_of-set key entry [] = rw (text_eq_refl key) refl
entry_of-set key entry ((k, e) ∷ entries) = elim (Bool-cases (text_eq k key)) [
  | inl f ↦ rw (f, f) refl
  | inr f ↦ rw (f, f) (entry_of-set key entry entries)
]

pub entry_of-delete_entry :
    (key : Text) (entries : List (Text × SessionEntry))
    → entry_of key (delete_entry key entries) ≡ none
unfolding entry_of delete_entry
entry_of-delete_entry key [] = refl
entry_of-delete_entry key ((k, e) ∷ entries) = elim (Bool-cases (text_eq k key)) [
  | inl f ↦ rw f (entry_of-delete_entry key entries)
  | inr f ↦ rw (f, f) (entry_of-delete_entry key entries)
]
