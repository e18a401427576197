-- ===== src/ProxyToken/Tests.antt =====
-- Tokens over a library whose encodings and digest are short texts.
use microsanbox_cloud.Prelude.{
  ◌≡◌, ◌↔◌, refl, [], ◌∷◌, ◌++◌, Option, none, some, Text, codes, text_eq,
}
use microsanbox_cloud.Text.{split}
use microsanbox_cloud.ProxyToken.{
  ProxyTokenPayload, ParsedPayload, TokenLibrary, verified, refused, expired_token, bad_signature,
  audience, payload_of, sign, verify,
}
use microsanbox_cloud.ProxyToken.Verification.{IsSigned, verify_iff}
use microsanbox_cloud.ProxyToken.Signing.{parsed, IsReadBack, sign-verify}

-- The text of a payload is its expiry and its subject.
abbrev read_payload : Text → Option ParsedPayload
read_payload [] = none
read_payload (exp ∷ id) = some (record {
  sub = some id;
  aud = some audience;
  sandbox_id = some id;
  sandbox = some (codes "main");
  runtime_id = some (codes "r1");
  exp = some exp;
})

abbrev decoded_text : Text → Text
decoded_text [] = []
decoded_text (c ∷ t) = t

abbrev short : TokenLibrary
short = record {
  to_iso_string = λ ms. ms ∷ [];
  hmac = λ secret t. secret ++ t;
  bytes = λ t. t;
  to_base64url = λ t. b'e' ∷ t;
  from_base64url = decoded_text;
  stringify = λ p. p.exp ∷ p.sub;
  parse = read_payload;
}

-- Ten minutes from 1000 seconds on.
abbrev box_token : Text
box_token = (sign short (codes "key") 600 1000000 (codes "box") (codes "r1") (codes "main")).0

abbrev box_payload : ProxyTokenPayload
box_payload = payload_of 600 1000000 (codes "box") (codes "r1") (codes "main")

read_back : IsReadBack short (codes "key") box_payload
unfolding payload_of parsed
read_back = record {
  decoded = refl;
  read = refl;
  body_part = (refl, (refl, (refl, (refl, (refl, tt)))));
  body_nonempty = refl;
  digest_part = (refl, (refl, (refl, (refl, (refl, (refl, (refl, (refl, tt))))))));
  digest_nonempty = refl;
}

sign-verify_example :
    verify short (codes "key") 1200000 box_token (codes "box") ≡ verified (parsed box_payload)
sign-verify_example =
    sign-verify short (codes "key") 600 1000000 1200000 (codes "box") (codes "r1") (codes "main")
      read_back

too_late : verify short (codes "key") 1600000 box_token (codes "box") ≡ refused expired_token
unfolding verify split sign text_eq
too_late = refl

-- A token signed with another key.
other_key : verify short (codes "other") 1200000 box_token (codes "box") ≡ refused bad_signature
unfolding verify split sign
other_key = refl

verify_iff_example :
    (verify short (codes "key") 1200000 box_token (codes "box") ≡ verified (parsed box_payload))
    ↔ IsSigned short (codes "key") 1200000 box_token (codes "box") (parsed box_payload)
verify_iff_example =
    verify_iff short (codes "key") 1200000 box_token (codes "box") (parsed box_payload)
