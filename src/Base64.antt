-- ===== src/Base64.antt =====
-- encoding/base64 without padding: the URL alphabet of the opaque IDs and the standard alphabet of
-- SSH fingerprints. A decoder skips line ends and does not look at left-over bits.
pub mod Laws
use dhcp_lease_observer.Prelude.{
  ℕ, ◌+◌, ◌-◌, ◌*◌, ◌/◌, ◌%◌, ◌||◌, Option, none, some, [], ◌∷◌, ltb, nat_beq, if◌then◌else◌,
}
use dhcp_lease_observer.Text.{Bytes, within}

-- The character of a six-bit group.
unfoldable pub url_digit : ℕ → ℕ
url_digit n =
    if ltb n 26
    then n + 65
    else if ltb n 52
    then n + 71
    else if ltb n 62
    then n - 4
    else if nat_beq n 62
    then b'-'
    else b'_'

abbrev digit_with : ℕ → ℕ → ℕ → Option ℕ
digit_with plus slash c =
    if within b'A' b'Z' c
    then some (c - 65)
    else if within b'a' b'z' c
    then some (c - 71)
    else if within b'0' b'9' c
    then some (c + 4)
    else if nat_beq c plus
    then some 62
    else if nat_beq c slash
    then some 63
    else none

unfoldable pub url_value : ℕ → Option ℕ
url_value = digit_with b'-' b'_'

unfoldable pub std_value : ℕ → Option ℕ
std_value = digit_with b'+' b'/'

-- `base64.RawURLEncoding.EncodeToString`
unfoldable pub encode_url : Bytes → Bytes
encode_url [] = []
encode_url (a ∷ []) = url_digit (a / 4) ∷ url_digit (a % 4 * 16) ∷ []
encode_url (a ∷ b ∷ []) =
    url_digit (a / 4) ∷ url_digit (a % 4 * 16 + b / 16) ∷ url_digit (b % 16 * 4) ∷ []
encode_url (a ∷ b ∷ c ∷ rest) =
    url_digit (a / 4)
    ∷ url_digit (a % 4 * 16 + b / 16)
    ∷ url_digit (b % 16 * 4 + c / 64)
    ∷ url_digit (c % 64)
    ∷ encode_url rest

abbrev values : (ℕ → Option ℕ) → Bytes → Option Bytes
values value [] = some []
values value (c ∷ cs) = elim (value c) [
  | none ↦ none
  | some v ↦ elim (values value cs) [ none ↦ none | some vs ↦ some (v ∷ vs) ]
]

-- The bytes of six-bit groups; one group alone is an error.
unfoldable pub join_groups : Bytes → Option Bytes
join_groups [] = some []
join_groups (p ∷ []) = none
join_groups (p ∷ q ∷ []) = some ((p * 4 + q / 16) ∷ [])
join_groups (p ∷ q ∷ r ∷ []) = some ((p * 4 + q / 16) ∷ (q % 16 * 16 + r / 4) ∷ [])
join_groups (p ∷ q ∷ r ∷ s ∷ rest) = elim (join_groups rest) [
  | none ↦ none
  | some bytes ↦ some ((p * 4 + q / 16) ∷ (q % 16 * 16 + r / 4) ∷ (r % 4 * 64 + s) ∷ bytes)
]

unfoldable pub drop_line_ends : Bytes → Bytes
drop_line_ends [] = []
drop_line_ends (c ∷ cs) =
    let rest = drop_line_ends cs in if nat_beq c b'\r' || nat_beq c b'\n' then rest else c ∷ rest

-- `DecodeString` of the encoding with these digits
unfoldable pub decode : (ℕ → Option ℕ) → Bytes → Option Bytes
unfolding drop_line_ends join_groups
decode value s = elim (values value (drop_line_ends s)) [ none ↦ none | some vs ↦ join_groups vs ]
