-- ===== src/ProxyToken/Signing.antt =====
-- What becomes of a token that was signed.
use microsanbox_cloud.Prelude.{
  ◌≡◌, refl, ap, ◌∙◌, ltb, ℕ, if◌then◌else◌, ◌+◌, ◌*◌, ◌/◌, true, false, List, [], ◌∷◌, ◌++◌, some,
  Text, text_eq_refl, is_empty, leb, arith, Bool-cases, inl, inr,
}
use microsanbox_cloud.Text.{split}
use microsanbox_cloud.Text.Split.{IsSegment, split_all, split-append}
use microsanbox_cloud.ProxyToken.{
  ProxyTokenPayload, ParsedPayload, TokenLibrary, verified, refused, audience, expired_token,
  is_expired, check_payload, sign_payload, base64_url, payload_of, sign, verify_parts, verify,
}
use microsanbox_cloud.ProxyToken.Verification.{checked_parts}

-- The payload as `JSON.parse` gives it back.
unfoldable pub parsed : ProxyTokenPayload → ParsedPayload
parsed p = record {
  sub = some p.sub;
  aud = some p.aud;
  sandbox_id = some p.sandbox_id;
  sandbox = some p.sandbox;
  runtime_id = some p.runtime_id;
  exp = some p.exp;
}

module _ (lib : TokenLibrary) (secret : Text) where
  -- The library reads back the payload that it wrote as JSON and encoded, and its encoded text and
  -- the digest of that text are not empty and have no dot.
  pub record IsReadBack (p : ProxyTokenPayload) : Type 0 where
    pub decoded : lib.from_base64url (lib.to_base64url (lib.stringify p)) ≡ lib.stringify p
    pub read : lib.parse (lib.stringify p) ≡ some (parsed p)
    pub body_part : IsSegment b'.' (lib.to_base64url (lib.stringify p))
    pub body_nonempty : is_empty (lib.to_base64url (lib.stringify p)) ≡ false
    pub digest_part : IsSegment b'.' (lib.hmac secret (lib.to_base64url (lib.stringify p)))
    pub digest_nonempty : is_empty (lib.hmac secret (lib.to_base64url (lib.stringify p))) ≡ false

  own_payload :
      (later : ℕ) (p : ProxyTokenPayload)
      → p.aud ≡ audience
      → p.sub ≡ p.sandbox_id
      → check_payload later p.sandbox_id (some (parsed p))
        ≡ (if ltb (later / 1000) p.exp then verified (parsed p) else refused expired_token)
  unfolding check_payload is_expired parsed
  own_payload later p a s =
      rw (a, s, text_eq_refl p.sandbox_id, text_eq_refl audience)
        (elim (Bool-cases (ltb (later / 1000) p.exp)) [
          | inl e ↦
              let past : leb p.exp (later / 1000) ≡ false = ground (arith, e) in rw (e, past) refl
          | inr e ↦
              let past : leb p.exp (later / 1000) ≡ true = ground (arith, e) in rw (e, past) refl
        ])

  -- A token that was signed is accepted for its sandbox, with the payload that was signed, in each
  -- second before the one of its expiry, and is refused as expired from that second on.
  pub sign-verify :
      (ttl now later : ℕ) (sandbox_id runtime_id sandbox_name : Text)
      → IsReadBack (payload_of ttl now sandbox_id runtime_id sandbox_name)
      → verify lib secret later
          (sign lib secret ttl now sandbox_id runtime_id sandbox_name).0
          sandbox_id
        ≡ (if ltb (later / 1000) (now / 1000 + ttl)
            then verified (parsed (payload_of ttl now sandbox_id runtime_id sandbox_name))
            else refused expired_token)
  unfolding verify sign base64_url sign_payload
  sign-verify ttl now later sandbox_id runtime_id sandbox_name l =
      let p = payload_of ttl now sandbox_id runtime_id sandbox_name in
      let body = lib.to_base64url (lib.stringify p) in
      ap (verify_parts lib secret later sandbox_id) (two_parts body l.body_part l.digest_part)
      ∙ checked_parts lib secret later sandbox_id body (lib.hmac secret body) []
          (rw (l.body_nonempty, l.digest_nonempty) refl) refl
      ∙ ap (check_payload later sandbox_id) (ap lib.parse (l.decoded) ∙ l.read)
      ∙ own_payload later p refl refl
      ∙ ap (λ (e : ℕ). if ltb (later / 1000) e then verified (parsed p) else refused expired_token)
          whole_seconds
    where
      whole_seconds : (now + ttl * 1000) / 1000 ≡ now / 1000 + ttl
      whole_seconds = omega arith

      two_parts :
          (body : Text)
          → IsSegment b'.' body
          → IsSegment b'.' (lib.hmac secret body)
          → split b'.' (body ++ b'.' ∷ lib.hmac secret body) ≡ body ∷ lib.hmac secret body ∷ []
      two_parts body h k =
          split-append b'.' body (lib.hmac secret body) h
          ∙ ap (λ (ps : List Text). body ∷ ps) (split_all b'.' (lib.hmac secret body) k)
