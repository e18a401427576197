-- ===== src/Text/Encode.antt =====
-- `encodeURIComponent`: the code points of a string in UTF-8, each byte but those of a few ASCII
-- characters as a percent sign and two hexadecimal digits.
use microsanbox_cloud.Prelude.{
  ℕ, ◌+◌, ◌-◌, ◌*◌, ◌/◌, ◌%◌, ◌≡◌, refl, Bool, true, false, ◌&&◌, ◌||◌, [], ◌∷◌, ◌++◌, Option, none,
  some, Text, codes, ltb, leb, ◌==◌, if◌then◌else◌, arith, All,
}

-- A-Z a-z 0-9 - _ . ! ~ * ' ( )
unfoldable pub is_unreserved : ℕ → Bool
is_unreserved c =
    leb b'A' c && leb c b'Z'
    || leb b'a' c && leb c b'z'
    || leb b'0' c && leb c b'9'
    || c == b'-'
    || c == b'_'
    || c == b'.'
    || c == b'!'
    || c == b'~'
    || leb 39 c && leb c 42

unfoldable pub hex_digit : ℕ → ℕ
hex_digit n = if ltb n 10 then b'0' + n else b'A' + (n - 10)

unfoldable pub percent : ℕ → Text
unfolding hex_digit
percent byte = b'%' ∷ hex_digit (byte / 16) ∷ hex_digit (byte % 16) ∷ []

unfoldable pub encode_point : ℕ → Text
unfolding is_unreserved percent
encode_point p =
    if is_unreserved p
    then p ∷ []
    else if ltb p 0x80
    then percent p
    else if ltb p 0x800
    then percent (0xc0 + p / 64) ++ percent (0x80 + p % 64)
    else if ltb p 0x10000
    then percent (0xe0 + p / 4096) ++ (percent (0x80 + p / 64 % 64) ++ percent (0x80 + p % 64))
    else percent (0xf0 + p / 262144)
      ++ (percent (0x80 + p / 4096 % 64)
          ++ (percent (0x80 + p / 64 % 64) ++ percent (0x80 + p % 64)))

abbrev is_high : ℕ → Bool
is_high c = leb 0xd800 c && leb c 0xdbff

abbrev is_low : ℕ → Bool
is_low c = leb 0xdc00 c && leb c 0xdfff

abbrev before : Text → Option Text → Option Text
before t none = none
before t (some s) = some (t ++ s)

-- The first argument is the high surrogate that waits for its low one. A lone surrogate is refused.
unfoldable pub encode_from : Option ℕ → Text → Option Text
unfolding encode_point
encode_from none [] = some []
encode_from (some h) [] = none
encode_from pending (c ∷ s) =
    let rest = encode_from (if is_high c then some c else none) s in
    elim pending [
      | some h ↦
          if is_low c
          then before (encode_point ((h - 0xd800) * 1024 + (c - 0xdc00) + 0x10000)) rest
          else none
      | none ↦ if is_high c then rest else if is_low c then none else before (encode_point c) rest
    ]

unfoldable pub encode_uri_component : Text → Option Text
unfolding encode_from
encode_uri_component s = encode_from none s

abbrev pub IsUnreserved : Text → Type 0
IsUnreserved = All (λ c. is_unreserved c ≡ true)

encode_step : (c : ℕ) (s : Text) → is_unreserved c ≡ true → (is_high c ≡ false) × (is_low c ≡ false)
unfolding is_unreserved
encode_step c s h = (ground (arith, h), ground (arith, h))

-- A text of those characters is encoded as it is.
pub encode-IsUnreserved : (s : Text) → IsUnreserved s → encode_uri_component s ≡ some s
unfolding encode_uri_component
encode-IsUnreserved [] h = refl
encode-IsUnreserved (c ∷ s) (x, h) =
    let (high, low) = encode_step c s x in
    rw (high, low) (unfold encode_point in rw (x, encode-IsUnreserved s h) refl)

encoded :
    encode_uri_component (codes "a b/" ++ (0xe9 ∷ 0x20ac ∷ 0xd83d ∷ 0xde00 ∷ []))
    ≡ some (codes "a%20b%2F%C3%A9%E2%82%AC%F0%9F%98%80")
unfolding encode_uri_component
encoded = refl
