-- ===== src/Ssh/Validity.antt =====
-- Which tokens are valid.
use microsanbox_cloud.Prelude.{
  ℕ, ◌+◌, ◌≤◌, ◌≡◌, refl, ap, ◌∙◌, ◌↔◌, false, Option, none, some, Text, arith, Bool-cases, inl,
  inr, ltb,
}
use microsanbox_cloud.Ssh.Entries.{SessionEntry, entry_of, entry_of-set}
use microsanbox_cloud.Ssh.{
  Sessions, is_expired, is_revoked, expiry_ms, prune_expired, create_session, validate_entry,
  validate_session,
}

-- The token is known, not revoked, and its session has not ended.
pub record IsValid (hash : Text → Text) (now : ℕ) (token : Text) (s : Sessions)
    (entry : SessionEntry) : Type 0 where
  pub kept : is_revoked (hash token) s ≡ false
  pub known : entry_of (hash token) s.entries ≡ some entry
  pub in_time : now ≤ entry.expires_at

module _ (hash : Text → Text) (now : ℕ) (token : Text) (s : Sessions) (entry : SessionEntry) where
  IsValid-of_entry :
      is_revoked (hash token) s ≡ false
      → (found : Option SessionEntry) → entry_of (hash token) s.entries ≡ found
      → (validate_entry hash now (hash token) found s).0 ≡ some entry
      → IsValid hash now token s entry
  unfolding validate_entry is_expired
  IsValid-of_entry kept none known h = cc
  IsValid-of_entry kept (some e) known h = elim (Bool-cases (ltb e.expires_at now)) [
    | inl f ↦ absurd (let z : none ≡ some entry = rw f at h in cc)
    | inr f ↦
        let z : some e ≡ some entry = rw f at h in
        let same : e ≡ entry = cc in
        record { kept = kept; known = known ∙ z; in_time = rw (← same) (ground arith) }
  ]

  IsValid-of_answer :
      (validate_session hash now token s).0 ≡ some entry → IsValid hash now token s entry
  unfolding validate_session
  IsValid-of_answer h = elim (Bool-cases (is_revoked (hash token) s)) [
    | inl e ↦ absurd (let z : none ≡ some entry = rw e at h in cc)
    | inr e ↦ IsValid-of_entry e _ refl (rw e at h)
  ]

  answer_of_valid :
      IsValid hash now token s entry → validate_session hash now token s ≡ (some entry, s)
  unfolding validate_session validate_entry is_expired
  answer_of_valid v =
      let early : ltb entry.expires_at now ≡ false = (let t = v.in_time in ground arith) in
      rw (v.kept, v.known, early) refl

  -- A token is answered with an entry exactly if it is not revoked, the entry is the one under its
  -- hash, and its time is not over.
  pub validate_session_iff :
      ((validate_session hash now token s).0 ≡ some entry) ↔ IsValid hash now token s entry
  validate_session_iff = (IsValid-of_answer, λ v. ap (λ p. p.0) (answer_of_valid v))

-- A token whose hash is not revoked opens its sandbox and host port from its creation until its
-- time is over, if no other call comes between.
pub create_session-validate :
    (hash : Text → Text) (ttl now later at : ℕ) (token sandbox_id : Text) (host_port : ℕ)
    (minutes : Option ℕ) (s : Sessions)
    → is_revoked (hash token) s ≡ false
    → at ≤ later + expiry_ms ttl minutes
    → validate_session hash at token
        (create_session hash ttl now later token sandbox_id host_port minutes s).1
      ≡ (
        some (record {
          sandbox_id = sandbox_id;
          host_port = host_port;
          expires_at = later + expiry_ms ttl minutes;
        }),
        (create_session hash ttl now later token sandbox_id host_port minutes s).1,
      )
unfolding create_session prune_expired is_revoked
create_session-validate hash ttl now later at token sandbox_id host_port minutes s kept h =
    answer_of_valid hash at token _ _
      (record { kept = kept; known = entry_of-set (hash token) _ _; in_time = h })
