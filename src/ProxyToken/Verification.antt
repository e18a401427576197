-- ===== src/ProxyToken/Verification.antt =====
-- Which tokens are accepted.
use microsanbox_cloud.Prelude.{
  ◌≡◌, refl, ap, ◌∙◌, subst, ℕ, if◌then◌else◌, ◌/◌, ◌<◌, ◌↔◌, Bool, true, false, not, ◌||◌, List,
  [], ◌∷◌, Option, none, some, Text, text_eq_refl, eq_of_text_eq, option_text_eq, is_empty, leb,
  arith,
}
use microsanbox_cloud.Text.{split}
use microsanbox_cloud.ProxyToken.{
  ParsedPayload, TokenLibrary, Verdict, verified, refused, audience, malformed_token, bad_signature,
  audience_mismatch, sandbox_id_mismatch, expired_token, is_expired, check_payload, sign_payload,
  signature_equals, verify_parts, verify,
}

-- What an accepted payload says.
pub record IsGranted (now : ℕ) (sandbox_id : Text) (p : ParsedPayload) : Type 0 where
  pub aud : p.aud ≡ some audience
  pub id : p.sandbox_id ≡ some sandbox_id
  pub sub : p.sub ≡ some sandbox_id
  pub exp : ℕ
  pub expires : p.exp ≡ some exp
  pub later : now / 1000 < exp

same_text : (o : Option Text) (t : Text) → option_text_eq o (some t) ≡ true → o ≡ some t
same_text none t h = cc
same_text (some s) t h = ap some (eq_of_text_eq s t h)

-- The tests of `check_payload`, in their order, where they let the payload pass.
passed :
    (aud id sub expired : Bool) (q p : ParsedPayload)
    → (if not aud
        then refused audience_mismatch
        else if not id || not sub
        then refused sandbox_id_mismatch
        else if expired
        then refused expired_token
        else verified q)
      ≡ verified p
    → (q ≡ p) × (aud ≡ true) × (id ≡ true) × (sub ≡ true) × (expired ≡ false)
passed true true true false q p h = (cc, refl, refl, refl, refl)
passed true true true true q p h = cc
passed true true false expired q p h = cc
passed true false sub expired q p h = cc
passed false id sub expired q p h = cc

not_expired :
    (now : ℕ) (o : Option ℕ)
    → is_expired now o ≡ false
    → (exp : ℕ) × (o ≡ some exp) × (now / 1000 < exp)
unfolding is_expired
not_expired now none h = cc
not_expired now (some exp) h = (exp, refl, ground (arith, h))

check_payload-IsGranted :
    (now : ℕ) (sandbox_id : Text) (o : Option ParsedPayload) (p : ParsedPayload)
    → check_payload now sandbox_id o ≡ verified p
    → (o ≡ some p) × IsGranted now sandbox_id p
unfolding check_payload
check_payload-IsGranted now sandbox_id none p h = cc
check_payload-IsGranted now sandbox_id (some q) p h =
    let (same, a, i, u, x) = passed _ _ _ _ q p h in
    let (exp, e, l) = not_expired now q.exp x in
    (
      ap some same,
      subst (IsGranted now sandbox_id) same (record {
        aud = same_text q.aud audience a;
        id = same_text q.sandbox_id sandbox_id i;
        sub = same_text q.sub sandbox_id u;
        exp = exp;
        expires = e;
        later = l;
      }),
    )

IsGranted-check_payload :
    (now : ℕ) (sandbox_id : Text) (p : ParsedPayload)
    → IsGranted now sandbox_id p
    → check_payload now sandbox_id (some p) ≡ verified p
unfolding check_payload is_expired
IsGranted-check_payload now sandbox_id p g =
    let exp_false : leb g.exp (now / 1000) ≡ false = ground (arith, g.later) in
    rw (g.aud, g.id, g.sub, g.expires, text_eq_refl sandbox_id, exp_false)
      (rw (text_eq_refl audience) refl)

module _ (lib : TokenLibrary) (secret : Text) where
  -- The first two parts of a token that is accepted.
  pub record IsSigned (now : ℕ) (token sandbox_id : Text) (p : ParsedPayload) : Type 0 where
    pub payload : Text
    pub signature : Text
    pub rest : List Text
    pub parts : split b'.' token ≡ payload ∷ signature ∷ rest
    pub nonempty : (is_empty payload || is_empty signature) ≡ false
    pub signed : lib.bytes signature ≡ lib.bytes (lib.hmac secret payload)
    pub read : lib.parse (lib.from_base64url payload) ≡ some p
    pub granted : IsGranted now sandbox_id p

  signature_equals_iff :
      (a e : Text) → (signature_equals lib secret a e ≡ true) ↔ (lib.bytes a ≡ lib.bytes e)
  unfolding signature_equals
  signature_equals_iff a e = (
    λ h. eq_of_text_eq (lib.bytes a) (lib.bytes e) (ground (arith, h)),
    λ h. rw (h, text_eq_refl (lib.bytes e)) (ground arith),
  )

  parts_passed :
      (malformed equal : Bool) (v : Verdict) (p : ParsedPayload)
      → (if malformed
          then refused malformed_token
          else if not equal
          then refused bad_signature
          else v)
        ≡ verified p
      → (malformed ≡ false) × (equal ≡ true) × (v ≡ verified p)
  parts_passed false true v p h = (refl, refl, h)
  parts_passed false false v p h = cc
  parts_passed true equal v p h = cc

  verify_parts-passed :
      (now : ℕ) (sandbox_id : Text) (parts : List Text) (p : ParsedPayload)
      → verify_parts lib secret now sandbox_id parts ≡ verified p
      → (payload : Text) × (signature : Text) × (rest : List Text) × (parts
          ≡ payload ∷ signature ∷ rest)
        × ((is_empty payload || is_empty signature) ≡ false)
        × (lib.bytes signature ≡ lib.bytes (lib.hmac secret payload))
        × (check_payload now sandbox_id (lib.parse (lib.from_base64url payload)) ≡ verified p)
  unfolding verify_parts sign_payload
  verify_parts-passed now sandbox_id [] p h = cc
  verify_parts-passed now sandbox_id (payload ∷ []) p h = cc
  verify_parts-passed now sandbox_id (payload ∷ signature ∷ rest) p h =
      let (f, e, c) = parts_passed _ _ _ p h in
      (payload, signature, rest, refl, f, (signature_equals_iff _ _).0 e, c)

  pub checked_parts :
      (now : ℕ) (sandbox_id payload signature : Text) (rest : List Text)
      → (is_empty payload || is_empty signature) ≡ false
      → lib.bytes signature ≡ lib.bytes (lib.hmac secret payload)
      → verify_parts lib secret now sandbox_id (payload ∷ signature ∷ rest)
        ≡ check_payload now sandbox_id (lib.parse (lib.from_base64url payload))
  unfolding verify_parts sign_payload
  checked_parts now sandbox_id payload signature rest f s =
      rw (f, (signature_equals_iff signature (lib.hmac secret payload)).1 s) refl

  -- A token is accepted for a sandbox exactly if its first two parts are a payload and the HMAC of
  -- that payload under the secret, and the payload names the audience and, twice, the sandbox, and
  -- expires after the current second. What is accepted is that payload.
  pub verify_iff :
      (now : ℕ) (token sandbox_id : Text) (p : ParsedPayload)
      → (verify lib secret now token sandbox_id ≡ verified p) ↔ IsSigned now token sandbox_id p
  unfolding verify
  verify_iff now token sandbox_id p = (signed_of, passes)
    where
      signed_of :
          verify lib secret now token sandbox_id ≡ verified p → IsSigned now token sandbox_id p
      signed_of h =
          let (payload, signature, rest, e, f, s, c) =
            verify_parts-passed now sandbox_id (split b'.' token) p h in
          let (r, g) = check_payload-IsGranted now sandbox_id _ p c in
          record {
            payload = payload;
            signature = signature;
            rest = rest;
            parts = e;
            nonempty = f;
            signed = s;
            read = r;
            granted = g;
          }

      passes : IsSigned now token sandbox_id p → verify lib secret now token sandbox_id ≡ verified p
      passes s =
          ap (verify_parts lib secret now sandbox_id) s.parts
          ∙ checked_parts now sandbox_id s.payload s.signature s.rest s.nonempty s.signed
          ∙ (ap (check_payload now sandbox_id) s.read
              ∙ IsGranted-check_payload now sandbox_id p s.granted)
