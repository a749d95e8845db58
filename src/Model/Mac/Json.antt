-- ===== src/Model/Mac/Json.antt =====
-- MarshalJSON and UnmarshalJSON of hardware addresses in internal/model/snapshot.go. The strings of
-- package encoding/json are a parameter.
use dhcp_lease_observer.Prelude.{ℕ, ◌≡◌, ◌<◌, ◌/◌, ◌%◌, refl, Option, none, some, All, arith}
use dhcp_lease_observer.Text.{Bytes}
use dhcp_lease_observer.Model.Mac.{
  MacAddress, IsMac, hex_digit, mac_string, parse_mac_address, parse_mac_address-mac_string,
}

-- `json.Marshal` and `json.Unmarshal` of a string.
pub record JsonStrings : Type 0 where
  pub marshal : Bytes → Option Bytes
  pub unmarshal : Bytes → Option Bytes

pub data MacError : Type 0 where
  not_a_string invalid_address : MacError

-- `address.MarshalJSON()`
unfoldable pub marshal_mac : JsonStrings → MacAddress → Option Bytes
marshal_mac json address = json.marshal (mac_string address)

-- `address.UnmarshalJSON(text)`: the error, if there is one, and what the address is then.
unfoldable pub unmarshal_mac : JsonStrings → Bytes → MacAddress → Option MacError × MacAddress
unmarshal_mac json text address = elim (json.unmarshal text) [
  | none ↦ (some not_a_string, address)
  | some value ↦ elim (parse_mac_address value) [
    | none ↦ (some invalid_address, address)
    | some parsed ↦ (none, parsed)
  ]
]

hex_digit-ascii : (n : ℕ) → n < 16 → hex_digit n < 128
unfolding hex_digit
hex_digit-ascii n h = ground arith

hex_pair-ascii : (b : ℕ) → b < 256 → (hex_digit (b / 16) < 128) × (hex_digit (b % 16) < 128)
hex_pair-ascii b h =
    (hex_digit-ascii (b / 16) (omega arith), hex_digit-ascii (b % 16) (omega arith))

-- A hardware address prints as ASCII.
mac_string-ascii : (a : MacAddress) → IsMac a → All (λ c. c < 128) (mac_string a)
unfolding mac_string
mac_string-ascii a m =
    let (a0, b0) = hex_pair-ascii a.b0 m.byte0 in
    let (a1, b1) = hex_pair-ascii a.b1 m.byte1 in
    let (a2, b2) = hex_pair-ascii a.b2 m.byte2 in
    let (a3, b3) = hex_pair-ascii a.b3 m.byte3 in
    let (a4, b4) = hex_pair-ascii a.b4 m.byte4 in
    let (a5, b5) = hex_pair-ascii a.b5 m.byte5 in
    let colon : 58 < 128 = omega arith in
    (
      a0,
      (
        b0,
        (
          colon,
          (
            a1,
            (
              b1,
              (
                colon,
                (a2, (b2, (colon, (a3, (b3, (colon, (a4, (b4, (colon, (a5, (b5, tt))))))))))),
              ),
            ),
          ),
        ),
      ),
    )

-- With a library that reads a string of ASCII characters back as it wrote it: a hardware address of
-- six bytes that MarshalJSON writes is what UnmarshalJSON reads, whatever the address was before.
pub unmarshal_mac-marshal_mac :
    (json : JsonStrings)
    → ((value text : Bytes)
        → All (λ c. c < 128) value
        → json.marshal value ≡ some text
        → json.unmarshal text ≡ some value)
    → (a before : MacAddress) (text : Bytes) → IsMac a
    → marshal_mac json a ≡ some text
    → unmarshal_mac json text before ≡ (none, a)
unfolding marshal_mac unmarshal_mac
unmarshal_mac-marshal_mac json reads a before text m h =
    rw
      (
        reads (mac_string a) text (mac_string-ascii a m) h,
        parse_mac_address-mac_string a m,
        unmarshal_mac,
      )
      refl
