-- ===== src/Parser/Fields.antt =====
-- The regular expressions of internal/parser/ix2106: the fields of a row and of a summary.
use dhcp_lease_observer.Prelude.{
  ℕ, Bool, ◌&&◌, ◌||◌, Option, none, some, List, [], ◌∷◌, nat_beq, all, length, if◌then◌else◌,
}
use dhcp_lease_observer.Text.{Bytes, is_digit, is_empty, within}
use dhcp_lease_observer.Session.Prompt.{is_pattern_space}

abbrev onto_first : ℕ → List Bytes → List Bytes
onto_first c [] = (c ∷ []) ∷ []
onto_first c (f ∷ fs) = (c ∷ f) ∷ fs

-- The pieces between single separators.
unfoldable pub split_at : (ℕ → Bool) → Bytes → List Bytes
split_at separates [] = [] ∷ []
split_at separates (c ∷ cs) =
    let rest = split_at separates cs in if separates c then [] ∷ rest else onto_first c rest

-- Two separators with nothing between them are one.
unfoldable pub squeeze : List Bytes → List Bytes
squeeze [] = []
squeeze (f ∷ []) = f ∷ []
squeeze (f ∷ g ∷ fs) = let rest = squeeze (g ∷ fs) in if is_empty f then rest else f ∷ rest

-- `^(\S+)\s+(\S+)…$`: the fields of a row. White space at either end leaves an empty field.
unfoldable pub row_fields : Bytes → List Bytes
unfolding split_at squeeze
row_fields [] = []
row_fields (c ∷ cs) =
    if is_pattern_space c then [] ∷ [] else squeeze (split_at is_pattern_space (c ∷ cs))

-- The longest run of digits at the start, and the rest.
unfoldable pub span_digits : Bytes → Bytes × Bytes
span_digits [] = ([], [])
span_digits (c ∷ cs) =
    let rest = span_digits cs in if is_digit c then (c ∷ rest.0, rest.1) else ([], c ∷ cs)

-- `[0-9]{1,3}(?:\.[0-9]{1,3}){3}`
unfoldable pub is_address_field : Bytes → Bool
unfolding split_at is_digit
is_address_field s =
    let parts = split_at (λ c. nat_beq c b'.') s in
    nat_beq (length parts) 4 && all (λ p. within 1 3 (length p) && all is_digit p) parts

is_hex : ℕ → Bool
is_hex c = is_digit c || within b'A' b'F' c || within b'a' b'f' c

-- `[0-9A-Fa-f]{2}(?::[0-9A-Fa-f]{2}){5}`
unfoldable pub is_mac_field : Bytes → Bool
unfolding split_at is_hex is_digit
is_mac_field s =
    let parts = split_at (λ c. nat_beq c b':') s in
    nat_beq (length parts) 6 && all (λ p. nat_beq (length p) 2 && all is_hex p) parts

-- The rest of a text behind a prefix.
unfoldable pub after_prefix : Bytes → Bytes → Option Bytes
after_prefix [] s = some s
after_prefix (p ∷ ps) [] = none
after_prefix (p ∷ ps) (c ∷ cs) = let rest = after_prefix ps cs in if nat_beq p c then rest else none

-- `prefix([0-9]+)`, and the rest
unfoldable pub number_after : Bytes → Bytes → Option (Bytes × Bytes)
unfolding span_digits after_prefix is_digit
number_after prefix s = elim (after_prefix prefix s) [
  | none ↦ none
  | some rest ↦
      let (digits, behind) = span_digits rest in
      if is_empty digits then none else some (digits, behind)
]
