-- ===== src/Identity/Valid.antt =====
-- What the generator derives is a valid opaque ID, and a cleared generator derives nothing.
use dhcp_lease_observer.Prelude.{
  ℕ, zero, suc, ◌≤◌, ◌≡◌, refl, false, some, [], ◌∷◌, ◌++◌, arith, take, length, ok,
}
use dhcp_lease_observer.Text.{Bytes}
use dhcp_lease_observer.Model.Mac.{MacAddress, is_zero, mac_string}
use dhcp_lease_observer.Base64.{encode_url}
use dhcp_lease_observer.Base64.Laws.{IsBytes, encode_url_16}
use dhcp_lease_observer.State.OpaqueId.{IsOpaqueId}
use dhcp_lease_observer.Identity.{
  Generator, initialized, sum, device_id, key_id, device_domain, key_domain, minimum_key_bytes,
  id_bytes,
}

-- What the program relies on of HMAC-SHA256: a digest is 32 bytes.
pub record IsHmac (hmac : Bytes → Bytes → Bytes) : Type 0 where
  pub size : (key message : Bytes) → length (hmac key message) ≡ 32
  pub bytes : (key message : Bytes) → IsBytes (hmac key message)

take_16 :
    (n : ℕ) (s : Bytes) → n ≤ length s → IsBytes s → (length (take n s) ≡ n) × IsBytes (take n s)
take_16 zero s l h = (refl, tt)
take_16 (suc n) [] l h = absurd (omega arith)
take_16 (suc n) (b ∷ s) l h = let (m, t) = take_16 n s (omega arith) h.1 in (omega arith, (h.0, t))

module _ (hmac : Bytes → Bytes → Bytes) (is_hmac : IsHmac hmac) where
  opaque :
      (g : Generator) (domain value : Bytes) (kind : ℕ)
      → IsOpaqueId kind (kind ∷ b'1' ∷ b'_' ∷ encode_url (take id_bytes (sum hmac g domain value)))
  unfolding sum
  opaque g domain value kind =
      let digest = hmac g.key (domain ++ value) in
      let (l, b) =
        take_16 16 digest (omega (arith, is_hmac.size g.key (domain ++ value)))
          (is_hmac.bytes g.key (domain ++ value)) in
      let (long, alphabet) = encode_url_16 (take 16 digest) l b in
      record {
        text = encode_url (take 16 digest);
        spelled = refl;
        long = long;
        alphabet = alphabet;
      }

  -- With a key of at least 32 bytes, each device with a hardware address gets a valid device ID.
  pub device_id-IsOpaqueId :
      (g : Generator) (a : MacAddress)
      → minimum_key_bytes ≤ length g.key
      → is_zero a ≡ false
      → (value : Bytes) × (device_id hmac (some g) a ≡ ok value) × IsOpaqueId b'd' value
  unfolding device_id initialized
  device_id-IsOpaqueId g a k h = (_, ground (arith, h), opaque g device_domain (mac_string a) b'd')

  pub key_id-IsOpaqueId :
      (g : Generator)
      → minimum_key_bytes ≤ length g.key
      → (value : Bytes) × (key_id hmac (some g) ≡ ok value) × IsOpaqueId b'k' value
  unfolding key_id initialized
  key_id-IsOpaqueId g k = (_, ground arith, opaque g key_domain [] b'k')
