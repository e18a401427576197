-- ===== src/Registry/Tokens.antt =====
-- The signed preview tokens of the registry.
use microsanbox_cloud.Prelude.{
  ℕ, ◌+◌, ◌*◌, ◌≡◌, refl, ap, Bool, true, not, ◌&&◌, List, [], ◌∷◌, Option, none, some, Text, arith,
  text_eq, text_eq_refl, leb, ◌==◌, if◌then◌else◌, find?, keep, any, inl, inr, Bool-cases,
}
use microsanbox_cloud.Effects.{Outcome, ok, err, constraint, ok_parts, err_ne_ok}
use microsanbox_cloud.Database.{Db, SignedPreviewTokenEntity}
use microsanbox_cloud.Registry.{Reg}

unfoldable pub on_sandbox : Text → ℕ → SignedPreviewTokenEntity → Bool
on_sandbox sandbox_id port t = text_eq t.sandbox_id sandbox_id && t.port == port

unfoldable pub is_token : Text → ℕ → SignedPreviewTokenEntity → Bool
is_token token port t = text_eq t.token token && t.port == port

abbrev pub new_token : ℕ → Text → Text → ℕ → ℕ → SignedPreviewTokenEntity
new_token now drawn sandbox_id port ttl_seconds = record {
  token = drawn;
  sandbox_id = sandbox_id;
  port = port;
  expires_at = now + ttl_seconds * 1000;
}

-- `drawn` is the text that `randomBytes(24)` gives, `now` the time in milliseconds.
unfoldable pub create_signed_preview_token : ℕ → Text → Text → ℕ → ℕ → Reg SignedPreviewTokenEntity
unfolding on_sandbox is_token
create_signed_preview_token now drawn sandbox_id port ttl_seconds db =
    let rest = keep (λ t. not (on_sandbox sandbox_id port t)) db.preview_tokens in
    let row = new_token now drawn sandbox_id port ttl_seconds in
    if any (is_token drawn port) rest
    then (err constraint, record db { preview_tokens = rest })
    else (ok row, record db { preview_tokens = row ∷ rest })

unfoldable pub get_signed_preview_token : Text → ℕ → Reg (Option SignedPreviewTokenEntity)
unfolding is_token
get_signed_preview_token token port db = (ok (find? (is_token token port) db.preview_tokens), db)

unfoldable pub expire_signed_preview_token : Text → ℕ → Db → Db
unfolding is_token
expire_signed_preview_token token port db = record db {
  preview_tokens = keep (λ t. not (is_token token port t)) db.preview_tokens;
}

unfoldable pub has_signed_preview_token_expired : ℕ → SignedPreviewTokenEntity → Bool
has_signed_preview_token_expired now t = leb t.expires_at now

is_token_new :
    (now : ℕ) (drawn sandbox_id : Text) (port ttl : ℕ)
    → is_token drawn port (new_token now drawn sandbox_id port ttl) ≡ true
unfolding is_token
is_token_new now drawn sandbox_id port ttl = ground (arith, text_eq_refl drawn)

find?-keep :
    (token : Text) (port : ℕ) (rows : List SignedPreviewTokenEntity)
    → find? (is_token token port) (keep (λ t. not (is_token token port t)) rows) ≡ none
find?-keep token port [] = refl
find?-keep token port (t ∷ rows) = ground (arith, find?-keep token port rows)

-- A new token is found under its port with its sandbox and an expiry of the given number of
-- seconds from now, until it is expired by hand; then it is not found.
pub preview_token_cycle :
    (now : ℕ) (drawn sandbox_id : Text) (port ttl : ℕ) (db db' : Db)
    (row : SignedPreviewTokenEntity)
    → create_signed_preview_token now drawn sandbox_id port ttl db ≡ (ok row, db')
    → (get_signed_preview_token drawn port db'
        ≡ (ok (some (new_token now drawn sandbox_id port ttl)), db'))
      × (get_signed_preview_token drawn port (expire_signed_preview_token drawn port db')
          ≡ (ok none, expire_signed_preview_token drawn port db'))
unfolding create_signed_preview_token get_signed_preview_token expire_signed_preview_token
preview_token_cycle now drawn sandbox_id port ttl db db' row h =
    (found, rw (find?-keep drawn port db'.preview_tokens))
  where
    rest : List SignedPreviewTokenEntity
    rest = keep (λ t. not (on_sandbox sandbox_id port t)) db.preview_tokens

    found :
        ◌≡◌ {A = Outcome (Option SignedPreviewTokenEntity) × Db}
          (ok (find? (is_token drawn port) db'.preview_tokens), db')
          (ok (some (new_token now drawn sandbox_id port ttl)), db')
    found = elim (Bool-cases (any (is_token drawn port) rest)) [
      | inl e ↦ absurd (err_ne_ok (rw e at h))
      | inr e ↦
          let (_, after) = ok_parts (rw e at h) in
          rw (← after) (rw (is_token_new now drawn sandbox_id port ttl))
    ]

-- A token that was made is the row of its text and port, and no sandbox has changed.
pub create_signed_preview_token-eq-ok :
    (now : ℕ) (drawn sandbox_id : Text) (port ttl : ℕ) (db db' : Db)
    (row : SignedPreviewTokenEntity)
    → create_signed_preview_token now drawn sandbox_id port ttl db ≡ (ok row, db')
    → (new_token now drawn sandbox_id port ttl ≡ row)
      × (find? (is_token drawn port) db'.preview_tokens ≡ some row)
      × (db.runtimes ≡ db'.runtimes)
unfolding create_signed_preview_token
create_signed_preview_token-eq-ok now drawn sandbox_id port ttl db db' row h =
    elim (Bool-cases (
      any (is_token drawn port)
        (keep (λ t. not (on_sandbox sandbox_id port t)) db.preview_tokens))) [
          | inl e ↦ absurd (err_ne_ok (rw e at h))
          | inr e ↦
              let (answer, after) = ok_parts (rw e at h) in
              (
                answer,
                rw (← after) (rw (is_token_new now drawn sandbox_id port ttl) (ap some answer)),
                ap (λ d. d.runtimes) after,
              )
        ]
