-- ===== src/State/OpaqueId.antt =====
-- `validOpaqueID` of internal/state/snapshot.go, and what it accepts.
use dhcp_lease_observer.Prelude.{
  ℕ, ◌≡◌, ◌↔◌, ◌⊎◌, Bool, true, false, ◌&&◌, ◌||◌, none, some, [], ◌∷◌, arith, nat_beq, all, length,
  drop,
}
use dhcp_lease_observer.Text.{Bytes, is_id_byte}
use dhcp_lease_observer.Base64.{decode, url_value}
use dhcp_lease_observer.Base64.Laws.{decode-all}

-- `^[dk]1_[A-Za-z0-9_-]{22}$`
unfoldable pub opaque_id_pattern : Bytes → Bool
opaque_id_pattern (a ∷ b ∷ c ∷ rest) =
    (nat_beq a b'd' || nat_beq a b'k')
    && nat_beq b b'1'
    && nat_beq c b'_'
    && nat_beq (length rest) 22
    && all is_id_byte rest
opaque_id_pattern _ = false

abbrev first_is : ℕ → Bytes → Bool
first_is kind [] = false
first_is kind (c ∷ _) = nat_beq c kind

abbrev decodes_to_16 : Bytes → Bool
decodes_to_16 s = elim (decode url_value s) [
  | none ↦ false
  | some bytes ↦ nat_beq (length bytes) 16
]

unfoldable pub valid_opaque_id : Bytes → ℕ → Bool
unfolding opaque_id_pattern
valid_opaque_id value kind =
    opaque_id_pattern value && first_is kind value && decodes_to_16 (drop 3 value)

-- An ID of version 1: its kind, `1_`, and 22 characters of the base64url alphabet.
pub record IsOpaqueId (kind : ℕ) (value : Bytes) : Type 0 where
  pub text : Bytes
  pub spelled : value ≡ kind ∷ b'1' ∷ b'_' ∷ text
  pub long : length text ≡ 22
  pub alphabet : all is_id_byte text ≡ true

decodes-all : (s : Bytes) → length s ≡ 22 → all is_id_byte s ≡ true → decodes_to_16 s ≡ true
decodes-all s l h = let (bytes, e, n) = decode-all s l h in ground (arith, e, n)

-- The test accepts exactly the IDs of the kind that is asked for; the check of the decoded length
-- refuses none that the pattern admits.
pub valid_opaque_id_iff :
    (value : Bytes) (kind : ℕ)
    → (kind ≡ b'd') ⊎ (kind ≡ b'k')
    → (valid_opaque_id value kind ≡ true) ↔ IsOpaqueId kind value
unfolding valid_opaque_id
valid_opaque_id_iff value kind k = (to value, from value)
  where
    to : (value : Bytes) → valid_opaque_id value kind ≡ true → IsOpaqueId kind value
    to (a ∷ b ∷ c ∷ rest) h = record {
      text = rest;
      spelled = ground arith;
      long = ground arith;
      alphabet = ground arith;
    }
    to [] h = cc
    to (a ∷ []) h = cc
    to (a ∷ b ∷ []) h = cc

    from : (value : Bytes) → IsOpaqueId kind value → valid_opaque_id value kind ≡ true
    from value v =
        rw v.spelled (ground (arith, decodes-all v.text v.long v.alphabet, v.long, v.alphabet))
