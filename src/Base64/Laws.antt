-- ===== src/Base64/Laws.antt =====
-- Laws of the encoding: its alphabet, its lengths, and decoding what was encoded.
use dhcp_lease_observer.Prelude.{
  ℕ, zero, suc, ◌+◌, ◌*◌, ◌/◌, ◌%◌, ◌<◌, ◌≡◌, refl, Bool, true, ◌&&◌, ◌≢◌, ap, ◌∙◌, inl, inr,
  Option-cases, none, some, [], ◌∷◌, arith, All, all, length,
}
use dhcp_lease_observer.Text.{Bytes, is_id_byte, is_alnum}
use dhcp_lease_observer.Base64.{
  url_digit, url_value, encode_url, values, join_groups, drop_line_ends, decode,
}

pub url_value-url_digit : (n : ℕ) → n < 64 → url_value (url_digit n) ≡ some n
unfolding url_value url_digit
url_value-url_digit n h = ground arith

pub is_id_byte-url_digit : (n : ℕ) → n < 64 → is_id_byte (url_digit n) ≡ true
unfolding is_id_byte is_alnum url_digit
is_id_byte-url_digit n h = ground arith

-- A character of the pattern's class is a digit, and no line end.
url_value-is_id_byte : (c : ℕ) → is_id_byte c ≡ true → url_value c ≢ none
unfolding url_value is_id_byte is_alnum
url_value-is_id_byte c h = ground arith

drop_line_ends-all : (s : Bytes) → all is_id_byte s ≡ true → drop_line_ends s ≡ s
unfolding drop_line_ends is_id_byte is_alnum
drop_line_ends-all [] h = refl
drop_line_ends-all (c ∷ cs) h = ground (arith, drop_line_ends-all cs)

and-both : (a b : Bool) → (a && b) ≡ true → (a ≡ true) × (b ≡ true)
and-both a b h = ground arith

values-all :
    (s : Bytes)
    → all is_id_byte s ≡ true
    → (vs : Bytes) × (values url_value s ≡ some vs) × (length vs ≡ length s)
values-all [] h = ([], refl, refl)
values-all (c ∷ cs) h =
    let (hc, hs) = and-both (is_id_byte c) (all is_id_byte cs) h in
    let (vs, e, l) = values-all cs hs in
    elim (Option-cases (url_value c)) [
      | inl n ↦ absurd (url_value-is_id_byte c hc n)
      | inr (v, w) ↦ (v ∷ vs, ground (arith, w, e), ap suc l)
    ]

length-join_groups :
    (k : ℕ) (vs : Bytes)
    → length vs ≡ 4 * k + 2
    → (bytes : Bytes) × (join_groups vs ≡ some bytes) × (length bytes ≡ 3 * k + 1)
unfolding join_groups
length-join_groups zero (p ∷ q ∷ []) h = ((p * 4 + q / 16) ∷ [], refl, refl)
length-join_groups (suc k) (p ∷ q ∷ r ∷ s ∷ rest) h =
    let (bytes, e, l) = length-join_groups k rest (omega arith) in
    ((p * 4 + q / 16) ∷ (q % 16 * 16 + r / 4) ∷ (r % 4 * 64 + s) ∷ bytes, rw e, omega arith)
length-join_groups zero [] h = absurd (omega arith)
length-join_groups zero (p ∷ []) h = absurd (omega arith)
length-join_groups zero (p ∷ q ∷ r ∷ vs) h = absurd (omega arith)
length-join_groups (suc k) [] h = absurd (omega arith)
length-join_groups (suc k) (p ∷ []) h = absurd (omega arith)
length-join_groups (suc k) (p ∷ q ∷ []) h = absurd (omega arith)
length-join_groups (suc k) (p ∷ q ∷ r ∷ []) h = absurd (omega arith)

-- Every text of 22 characters of the URL alphabet decodes, and to 16 bytes.
pub decode-all :
    (s : Bytes)
    → length s ≡ 22
    → all is_id_byte s ≡ true
    → (bytes : Bytes) × (decode url_value s ≡ some bytes) × (length bytes ≡ 16)
unfolding decode
decode-all s l h =
    let (vs, e, m) = values-all s h in
    let (bytes, f, n) = length-join_groups 5 vs (m ∙ l) in
    (bytes, ground (arith, drop_line_ends-all s h, e, f), n)

abbrev pub IsBytes : Bytes → Type 0
IsBytes = All (λ b. b < 256)

all-encode_url : (s : Bytes) → IsBytes s → all is_id_byte (encode_url s) ≡ true
unfolding encode_url
all-encode_url [] h = refl
all-encode_url (a ∷ []) h =
    ground (arith, is_id_byte-url_digit (a / 4), is_id_byte-url_digit (a % 4 * 16))
all-encode_url (a ∷ b ∷ []) h = ground (
  arith,
  is_id_byte-url_digit (a / 4),
  is_id_byte-url_digit (a % 4 * 16 + b / 16),
  is_id_byte-url_digit (b % 16 * 4),
)
all-encode_url (a ∷ b ∷ c ∷ rest) h = ground (
  arith,
  is_id_byte-url_digit (a / 4),
  is_id_byte-url_digit (a % 4 * 16 + b / 16),
  is_id_byte-url_digit (b % 16 * 4 + c / 64),
  is_id_byte-url_digit (c % 64),
  all-encode_url rest,
)

length-encode_url : (k : ℕ) (s : Bytes) → length s ≡ 3 * k + 1 → length (encode_url s) ≡ 4 * k + 2
unfolding encode_url
length-encode_url zero (a ∷ []) h = refl
length-encode_url (suc k) (a ∷ b ∷ c ∷ rest) h =
    omega (arith, length-encode_url k rest (omega arith))
length-encode_url zero [] h = absurd (omega arith)
length-encode_url zero (a ∷ b ∷ s) h = absurd (omega arith)
length-encode_url (suc k) [] h = absurd (omega arith)
length-encode_url (suc k) (a ∷ []) h = absurd (omega arith)
length-encode_url (suc k) (a ∷ b ∷ []) h = absurd (omega arith)

pub encode_url_16 :
    (s : Bytes)
    → length s ≡ 16
    → IsBytes s
    → (length (encode_url s) ≡ 22) × (all is_id_byte (encode_url s) ≡ true)
encode_url_16 s l h = (length-encode_url 5 s l, all-encode_url s h)

join_groups-values-encode_url :
    (s : Bytes)
    → IsBytes s
    → (vs : Bytes) × (values url_value (encode_url s) ≡ some vs) × (join_groups vs ≡ some s)
unfolding encode_url join_groups
join_groups-values-encode_url [] h = ([], refl, refl)
join_groups-values-encode_url (a ∷ []) h = (
  a / 4 ∷ (a % 4 * 16) ∷ [],
  ground (arith, url_value-url_digit (a / 4), url_value-url_digit (a % 4 * 16)),
  ground arith,
)
join_groups-values-encode_url (a ∷ b ∷ []) h = (
  a / 4 ∷ (a % 4 * 16 + b / 16) ∷ (b % 16 * 4) ∷ [],
  ground (
    arith,
    url_value-url_digit (a / 4),
    url_value-url_digit (a % 4 * 16 + b / 16),
    url_value-url_digit (b % 16 * 4),
  ),
  ground arith,
)
join_groups-values-encode_url (a ∷ b ∷ c ∷ rest) h =
    let (vs, e, f) = join_groups-values-encode_url rest h.1.1.1 in
    (
      a / 4 ∷ (a % 4 * 16 + b / 16) ∷ (b % 16 * 4 + c / 64) ∷ c % 64 ∷ vs,
      ground (
        arith,
        url_value-url_digit (a / 4),
        url_value-url_digit (a % 4 * 16 + b / 16),
        url_value-url_digit (b % 16 * 4 + c / 64),
        url_value-url_digit (c % 64),
        e,
      ),
      ground (arith, f),
    )

-- `DecodeString` reads back what `EncodeToString` wrote, for every list of bytes.
pub decode-encode_url : (s : Bytes) → IsBytes s → decode url_value (encode_url s) ≡ some s
unfolding decode
decode-encode_url s h =
    let (vs, e, f) = join_groups-values-encode_url s h in
    ground (arith, drop_line_ends-all (encode_url s) (all-encode_url s h), e, f)
