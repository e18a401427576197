-- ===== src/ProxyToken.antt =====
-- apps/cloud-api/src/auth/proxy-token.service.ts: the signed tokens of the proxy. The HMAC, the
-- encodings and the JSON text are parameters.
pub mod Verification
pub mod Signing
mod Tests
use microsanbox_cloud.Prelude.{
  ℕ, ◌+◌, ◌*◌, ◌/◌, Bool, true, false, not, ◌&&◌, ◌||◌, List, [], ◌∷◌, ◌++◌, Option, none, some,
  Text, codes, text_eq, option_text_eq, leb, ◌==◌, length, is_empty, if◌then◌else◌,
}
use microsanbox_cloud.Text.{split}

pub record ProxyTokenPayload : Type 0 where
  pub sub : Text
  pub aud : Text
  pub sandbox_id : Text
  pub sandbox : Text
  pub runtime_id : Text
  pub exp : ℕ

-- The object that `JSON.parse` returns. A text is none where the property is absent or not a text;
-- `exp` is none where it is not a finite number, and a fraction counts as the next whole number.
pub record ParsedPayload : Type 0 where
  pub sub : Option Text
  pub aud : Option Text
  pub sandbox_id : Option Text
  pub sandbox : Option Text
  pub runtime_id : Option Text
  pub exp : Option ℕ

-- `Date.toISOString`, `createHmac('sha256', secret).update(text).digest('base64url')`,
-- `Buffer.from(text, 'utf8')`, its base64url text and back, and `JSON`. A text that is not JSON or
-- is `null` parses to none.
pub record TokenLibrary : Type 0 where
  pub to_iso_string : ℕ → Text
  pub hmac : Text → Text → Text
  pub bytes : Text → List ℕ
  pub to_base64url : Text → Text
  pub from_base64url : Text → Text
  pub stringify : ProxyTokenPayload → Text
  pub parse : Text → Option ParsedPayload

-- Why a token is refused, which is part of the message of the UnauthorizedException.
pub data Refusal : Type 0 where
  malformed_token bad_signature bad_payload audience_mismatch sandbox_id_mismatch expired_token :
      Refusal

pub data Verdict : Type 0 where
  verified : ParsedPayload → Verdict
  refused : Refusal → Verdict

abbrev pub audience : Text
audience = codes "microsandbox-cloud-proxy"

-- `payload.exp <= Math.floor(Date.now() / 1000)`, or `exp` is not a finite number.
unfoldable pub is_expired : ℕ → Option ℕ → Bool
is_expired now none = true
is_expired now (some exp) = leb exp (now / 1000)

unfoldable pub check_payload : ℕ → Text → Option ParsedPayload → Verdict
unfolding is_expired
check_payload now sandbox_id none = refused bad_payload
check_payload now sandbox_id (some payload) =
    if not (option_text_eq payload.aud (some audience))
    then refused audience_mismatch
    else if not (option_text_eq payload.sandbox_id (some sandbox_id))
        || not (option_text_eq payload.sub (some sandbox_id))
    then refused sandbox_id_mismatch
    else if is_expired now payload.exp
    then refused expired_token
    else verified payload

unfoldable pub payload_of : ℕ → ℕ → Text → Text → Text → ProxyTokenPayload
payload_of ttl_seconds now sandbox_id runtime_id sandbox_name = record {
  sub = sandbox_id;
  aud = audience;
  sandbox_id = sandbox_id;
  sandbox = sandbox_name;
  runtime_id = runtime_id;
  exp = (now + ttl_seconds * 1000) / 1000;
}

module _ (lib : TokenLibrary) (secret : Text) where
  unfoldable pub sign_payload : Text → Text
  sign_payload payload = lib.hmac secret payload

  unfoldable pub signature_equals : Text → Text → Bool
  signature_equals actual expected =
      length (lib.bytes actual) == length (lib.bytes expected)
      && text_eq (lib.bytes actual) (lib.bytes expected)

  unfoldable pub base64_url : Text → Text
  base64_url value = lib.to_base64url value

  -- The token and the time of its expiry; `now` is the time in milliseconds.
  unfoldable pub sign : ℕ → ℕ → Text → Text → Text → Text × Text
  unfolding payload_of base64_url sign_payload
  sign ttl_seconds now sandbox_id runtime_id sandbox_name =
      let payload =
        base64_url
          (lib.stringify (payload_of ttl_seconds now sandbox_id runtime_id sandbox_name)) in
      (payload ++ b'.' ∷ sign_payload payload, lib.to_iso_string (now + ttl_seconds * 1000))

  -- The first two parts of the token.
  unfoldable pub verify_parts : ℕ → Text → List Text → Verdict
  unfolding sign_payload signature_equals check_payload
  verify_parts now sandbox_id [] = refused malformed_token
  verify_parts now sandbox_id (payload ∷ []) = refused malformed_token
  verify_parts now sandbox_id (payload ∷ signature ∷ rest) =
      if is_empty payload || is_empty signature
      then refused malformed_token
      else if not (signature_equals signature (sign_payload payload))
      then refused bad_signature
      else check_payload now sandbox_id (lib.parse (lib.from_base64url payload))

  unfoldable pub verify : ℕ → Text → Text → Verdict
  unfolding verify_parts
  verify now token sandbox_id = verify_parts now sandbox_id (split b'.' token)
