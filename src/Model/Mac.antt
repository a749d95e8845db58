-- ===== src/Model/Mac.antt =====
-- The hardware address of internal/model/snapshot.go, with `net.ParseMAC` and the text form.
pub mod Json
use dhcp_lease_observer.Prelude.{
  ℕ, ◌+◌, ◌-◌, ◌*◌, ◌/◌, ◌%◌, ◌<◌, ◌≡◌, ◌↔◌, Bool, true, ◌&&◌, ◌||◌, Option, none, some, [], ◌∷◌,
  arith, ltb, nat_beq, Keyed, if◌then◌else◌,
}
use dhcp_lease_observer.Text.{Bytes, within}

-- `[6]byte`
pub record MacAddress : Type 0 where
  pub b0 : ℕ
  pub b1 : ℕ
  pub b2 : ℕ
  pub b3 : ℕ
  pub b4 : ℕ
  pub b5 : ℕ

unfoldable pub mac_beq : MacAddress → MacAddress → Bool
mac_beq a b =
    nat_beq a.b0 b.b0
    && nat_beq a.b1 b.b1
    && nat_beq a.b2 b.b2
    && nat_beq a.b3 b.b3
    && nat_beq a.b4 b.b4
    && nat_beq a.b5 b.b5

pub mac_beq_iff : (a b : MacAddress) → (mac_beq a b ≡ true) ↔ (a ≡ b)
unfolding mac_beq
mac_beq_iff a b = ground arith

instance abbrev pub mac_eq : Keyed MacAddress
mac_eq = record { same = mac_beq; same_iff = mac_beq_iff }

-- `address.IsZero()`
unfoldable pub is_zero : MacAddress → Bool
unfolding mac_beq
is_zero a = mac_beq a (record { b0 = 0; b1 = 0; b2 = 0; b3 = 0; b4 = 0; b5 = 0 })

-- One hexadecimal digit, in either case.
unfoldable pub hex_value : ℕ → Option ℕ
hex_value c =
    if within b'0' b'9' c
    then some (c - 48)
    else if within b'a' b'f' c
    then some (c - 87)
    else if within b'A' b'F' c
    then some (c - 55)
    else none

unfoldable pub hex_pair : ℕ → ℕ → Option ℕ
hex_pair a b = elim (hex_value a) [
  | none ↦ none
  | some h ↦ elim (hex_value b) [ none ↦ none | some l ↦ some (h * 16 + l) ]
]

abbrev prepend : Option ℕ → Option Bytes → Option Bytes
prepend none _ = none
prepend (some v) none = none
prepend (some v) (some vs) = some (v ∷ vs)

-- `xx:xx:…` or `xx-xx-…`
unfoldable pub parse_pairs : ℕ → Bytes → Option Bytes
parse_pairs sep (a ∷ b ∷ []) = prepend (hex_pair a b) (some [])
parse_pairs sep (a ∷ b ∷ s ∷ rest) =
    let more = parse_pairs sep rest in if nat_beq s sep then prepend (hex_pair a b) more else none
parse_pairs sep _ = none

-- `xxxx.xxxx.…`
unfoldable pub parse_quads : Bytes → Option Bytes
parse_quads (a ∷ b ∷ c ∷ d ∷ []) = prepend (hex_pair a b) (prepend (hex_pair c d) (some []))
parse_quads (a ∷ b ∷ c ∷ d ∷ s ∷ rest) =
    let more = parse_quads rest in
    if nat_beq s b'.' then prepend (hex_pair a b) (prepend (hex_pair c d) more) else none
parse_quads _ = none

abbrev six_bytes : Bytes → Option MacAddress
six_bytes (a ∷ b ∷ c ∷ d ∷ e ∷ f ∷ []) =
    some (record { b0 = a; b1 = b; b2 = c; b3 = d; b4 = e; b5 = f })
six_bytes _ = none

-- `ParseMACAddress`: what `net.ParseMAC` reads, if it is six bytes. The separator is the third byte.
unfoldable pub parse_mac_address : Bytes → Option MacAddress
parse_mac_address (a ∷ b ∷ s ∷ rest) =
    elim (if nat_beq s b':' || nat_beq s b'-'
      then parse_pairs s (a ∷ b ∷ s ∷ rest)
      else parse_quads (a ∷ b ∷ s ∷ rest)) [ none ↦ none | some bytes ↦ six_bytes bytes ]
parse_mac_address _ = none

unfoldable pub hex_digit : ℕ → ℕ
hex_digit n = if ltb n 10 then n + 48 else n + 87

abbrev hex_byte : ℕ → Bytes → Bytes
hex_byte b rest = hex_digit (b / 16) ∷ hex_digit (b % 16) ∷ rest

-- `address.String()`
unfoldable pub mac_string : MacAddress → Bytes
mac_string a = hex_byte a.b0 (
    b':'
    ∷ hex_byte a.b1 (
        b':'
        ∷ hex_byte a.b2 (b':' ∷ hex_byte a.b3 (b':' ∷ hex_byte a.b4 (b':' ∷ hex_byte a.b5 [])))))

-- Every octet is a byte.
pub record IsMac (a : MacAddress) : Type 0 where
  pub byte0 : a.b0 < 256
  pub byte1 : a.b1 < 256
  pub byte2 : a.b2 < 256
  pub byte3 : a.b3 < 256
  pub byte4 : a.b4 < 256
  pub byte5 : a.b5 < 256

hex_pair-hex_digit : (b : ℕ) → b < 256 → hex_pair (hex_digit (b / 16)) (hex_digit (b % 16)) ≡ some b
unfolding hex_pair hex_value hex_digit
hex_pair-hex_digit b h = ground arith

-- A hardware address printed by `String` is read back by `ParseMACAddress`.
pub parse_mac_address-mac_string :
    (a : MacAddress) → IsMac a → parse_mac_address (mac_string a) ≡ some a
unfolding parse_mac_address parse_pairs mac_string
parse_mac_address-mac_string a h = ground (
  arith,
  hex_pair-hex_digit a.b0 h.byte0,
  hex_pair-hex_digit a.b1 h.byte1,
  hex_pair-hex_digit a.b2 h.byte2,
  hex_pair-hex_digit a.b3 h.byte3,
  hex_pair-hex_digit a.b4 h.byte4,
  hex_pair-hex_digit a.b5 h.byte5,
)
