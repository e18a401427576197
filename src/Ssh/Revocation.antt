-- ===== src/Ssh/Revocation.antt =====
-- A revoked token stays revoked, whatever the service is asked for.
use microsanbox_cloud.Prelude.{
  ℕ, ◌≡◌, refl, inl, inr, Bool, true, false, ◌||◌, List, [], ◌∷◌, Option, none, some, Text, text_eq,
  text_eq_refl, arith, Bool-cases, any,
}
use microsanbox_cloud.Ssh.Entries.{SessionEntry, delete_entry}
use microsanbox_cloud.Ssh.{
  Sessions, is_expired, is_revoked, prune_expired, create_session, validate_entry, validate_session,
  revoke_session,
}

-- The calls of the service, with the times and random texts that they read.
pub data Call : Type 0 where
  creates :
      (ttl now later : ℕ) (token sandbox_id : Text) (host_port : ℕ) (minutes : Option ℕ) → Call
  validates : (now : ℕ) (token : Text) → Call
  revokes : (refused : Bool) (token : Text) → Call

module _ (hash : Text → Text) where
  unfoldable pub answer : Call → Sessions → Sessions
  unfolding create_session validate_session revoke_session
  answer (creates ttl now later token sandbox_id host_port minutes) s =
      (create_session hash ttl now later token sandbox_id host_port minutes s).1
  answer (validates now token) s = (validate_session hash now token s).1
  answer (revokes refused token) s = (revoke_session hash refused token s).1

  unfoldable pub answer_all : List Call → Sessions → Sessions
  unfolding answer
  answer_all [] s = s
  answer_all (c ∷ calls) s = answer_all calls (answer c s)

  entry_kept :
      (now : ℕ) (key token_key : Text) (found : Option SessionEntry) (s : Sessions)
      → is_revoked key s ≡ true
      → is_revoked key (validate_entry hash now token_key found s).1 ≡ true
  unfolding validate_entry is_revoked
  entry_kept now key token_key none s h = h
  entry_kept now key token_key (some e) s h = elim (Bool-cases (is_expired now e)) [
    | inl f ↦ rw f h
    | inr f ↦ rw f h
  ]

  answer_kept :
      (key : Text) (c : Call) (s : Sessions)
      → is_revoked key s ≡ true
      → is_revoked key (answer c s) ≡ true
  unfolding answer create_session prune_expired validate_session revoke_session is_revoked
  answer_kept key (creates ttl now later token sandbox_id host_port minutes) s h = h
  answer_kept key (validates now token) s h =
      elim (Bool-cases (any (text_eq (hash token)) s.revoked)) [
        | inl e ↦ rw (answer, e) h
        | inr e ↦ rw (answer, e) (entry_kept now key (hash token) _ s h)
      ]
  answer_kept key (revokes refused token) s h =
      elim (Bool-cases (refused || any (text_eq (hash token)) s.revoked)) [
        | inl e ↦ rw (answer, e) h
        | inr e ↦ rw (answer, e, h) (ground arith)
      ]

  all_kept :
      (key : Text) (calls : List Call) (s : Sessions)
      → is_revoked key s ≡ true
      → is_revoked key (answer_all calls s) ≡ true
  unfolding answer_all
  all_kept key [] s h = h
  all_kept key (c ∷ calls) s h = all_kept key calls (answer c s) (answer_kept key c s h)

  revoked_after :
      (refused : Bool) (token : Text) (s s' : Sessions)
      → revoke_session hash refused token s ≡ (true, s')
      → is_revoked (hash token) s' ≡ true
  unfolding revoke_session is_revoked
  revoked_after refused token s s' h =
      elim (Bool-cases (refused || any (text_eq (hash token)) s.revoked)) [
        | inl e ↦ absurd (let z : false ≡ true = λ i. ((rw e at h) i).0 in cc)
        | inr e ↦
            let same : record s {
              entries = delete_entry (hash token) s.entries;
              revoked = hash token ∷ s.revoked;
            }
                ≡ s' =
              λ i. ((rw e at h) i).1 in
            rw (← same, text_eq_refl (hash token)) refl
      ]

  -- Once `revokeSession` has answered true, the token is refused for good: after any calls of the
  -- service, at any time, and also if the same random token is drawn again.
  pub revoke_session-validate :
      (refused : Bool) (token : Text) (s s' : Sessions) (calls : List Call) (now : ℕ)
      → revoke_session hash refused token s ≡ (true, s')
      → validate_session hash now token (answer_all calls s') ≡ (none, answer_all calls s')
  unfolding validate_session
  revoke_session-validate refused token s s' calls now h =
      rw (all_kept (hash token) calls s' (revoked_after refused token s s' h)) refl
