-- ===== src/Identity.antt =====
-- internal/identity/device.go: opaque device and key IDs. HMAC-SHA256 is a parameter, `hmac key
-- message`. A method takes the pointer to its generator, which may be nil.
pub mod Valid
use dhcp_lease_observer.Prelude.{
  ℕ, ◌+◌, Option, none, some, [], ◌∷◌, ◌++◌, map, take, length, ltb, Result, ok, err, ◌>>=◌, ◌>>◌,
  reject_if,
}
use dhcp_lease_observer.Text.{Bytes, codes}
use dhcp_lease_observer.Model.Mac.{MacAddress, is_zero, mac_string}
use dhcp_lease_observer.Base64.{encode_url}

abbrev pub minimum_key_bytes : ℕ
minimum_key_bytes = 32

abbrev pub id_bytes : ℕ
id_bytes = 16

-- Each domain ends in a zero byte.
abbrev pub device_domain : Bytes
device_domain = codes "dhcp-lease-observer/device-id/v1" ++ (0 ∷ [])

abbrev pub key_domain : Bytes
key_domain = codes "dhcp-lease-observer/identity-key-id/v1" ++ (0 ∷ [])

pub data IdentityError : Type 0 where
  key_too_short not_initialized mac_empty : IdentityError

pub record Generator : Type 0 where
  pub key : Bytes

unfoldable pub new_generator : Bytes → Result IdentityError Generator
new_generator key = do
  reject_if (ltb (length key) minimum_key_bytes) key_too_short
  ok (record { key = key })

-- The guard of both methods: `generator == nil || len(generator.key) < MinimumKeyBytes`
unfoldable pub initialized : Option Generator → Result IdentityError Generator
initialized none = err not_initialized
initialized (some g) = do reject_if (ltb (length g.key) minimum_key_bytes) not_initialized; ok g

-- `Clear`: the key's array, overwritten, and the generator that is left.
unfoldable pub clear : Option Generator → Bytes × Option Generator
clear none = ([], none)
clear (some g) = (map (λ _. 0) g.key, some (record { key = [] }))

module _ (hmac : Bytes → Bytes → Bytes) where
  unfoldable pub sum : Generator → Bytes → Bytes → Bytes
  sum g domain value = hmac g.key (domain ++ value)

  unfoldable pub device_id : Option Generator → MacAddress → Result IdentityError Bytes
  device_id generator address = do
    g ← initialized generator
    reject_if (is_zero address) mac_empty
    ok (codes "d1_" ++ encode_url (take id_bytes (sum g device_domain (mac_string address))))

  unfoldable pub key_id : Option Generator → Result IdentityError Bytes
  key_id generator = do
    g ← initialized generator
    ok (codes "k1_" ++ encode_url (take id_bytes (sum g key_domain [])))
