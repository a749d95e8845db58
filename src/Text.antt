-- ===== src/Text.antt =====
-- Go strings as lists of bytes: comparison, character classes of the regular expressions, and the
-- functions of package strings that the program calls.
pub mod Order
pub mod Space
pub mod Path
use Prim.Native.Char.{code}
use Prim.Native.String.{String}
use dhcp_lease_observer.Prelude.{
  ℕ, ◌-◌, ◌≡◌, ◌↔◌, Bool, true, false, not, ◌&&◌, ◌||◌, List, [], ◌∷◌, arith, leb, ltb, nat_beq,
  Keyed, all, length,
}

abbrev pub Bytes : Type 0
Bytes = List ℕ

-- The bytes of an ASCII literal.
abbrev pub codes : String → Bytes
codes String.[] = []
codes (String.◌∷◌ c s) = code c ∷ codes s

-- `a == b` on strings.
unfoldable pub bytes_beq : Bytes → Bytes → Bool
bytes_beq [] [] = true
bytes_beq (x ∷ xs) (y ∷ ys) = nat_beq x y && bytes_beq xs ys
bytes_beq _ _ = false

pub bytes_beq_iff : (a b : Bytes) → (bytes_beq a b ≡ true) ↔ (a ≡ b)
unfolding bytes_beq
bytes_beq_iff (x ∷ xs) (y ∷ ys) = ground (arith, bytes_beq_iff xs ys)
bytes_beq_iff _ _ = ground arith

instance abbrev pub bytes_eq : Keyed Bytes
bytes_eq = record { same = bytes_beq; same_iff = bytes_beq_iff }

-- `a < b` on strings.
unfoldable pub bytes_less : Bytes → Bytes → Bool
bytes_less _ [] = false
bytes_less [] (y ∷ ys) = true
bytes_less (x ∷ xs) (y ∷ ys) = ltb x y || (nat_beq x y && bytes_less xs ys)

-- `strings.HasPrefix`
unfoldable pub has_prefix : Bytes → Bytes → Bool
has_prefix s [] = true
has_prefix [] (p ∷ ps) = false
has_prefix (c ∷ cs) (p ∷ ps) = nat_beq c p && has_prefix cs ps

-- `strings.Contains`
unfoldable pub contains : Bytes → Bytes → Bool
unfolding has_prefix
contains [] p = has_prefix [] p
contains (c ∷ cs) p = has_prefix (c ∷ cs) p || contains cs p

abbrev pub within : ℕ → ℕ → ℕ → Bool
within lo hi c = leb lo c && leb c hi

-- [0-9]
unfoldable pub is_digit : ℕ → Bool
is_digit c = within b'0' b'9' c

-- [A-Za-z0-9]
unfoldable pub is_alnum : ℕ → Bool
is_alnum c = within b'A' b'Z' c || within b'a' b'z' c || within b'0' b'9' c

-- [A-Za-z0-9._-]
unfoldable pub is_label_byte : ℕ → Bool
unfolding is_alnum
is_label_byte c = is_alnum c || nat_beq c b'.' || nat_beq c b'_' || nat_beq c b'-'

-- [A-Za-z0-9_-], which is also the base64url alphabet
unfoldable pub is_id_byte : ℕ → Bool
unfolding is_alnum
is_id_byte c = is_alnum c || nat_beq c b'_' || nat_beq c b'-'

abbrev pub is_empty : Bytes → Bool
is_empty [] = true
is_empty (_ ∷ _) = false

-- `^[class]+$`
abbrev pub one_or_more : (ℕ → Bool) → Bytes → Bool
one_or_more class s = not (is_empty s) && all class s

-- `^[a-z][a-z0-9_]{0,63}$`, the failureClassPattern of packages state and output
unfoldable pub is_failure_class : Bytes → Bool
is_failure_class [] = false
is_failure_class (c ∷ cs) =
    within b'a' b'z' c
    && leb (length cs) 63
    && all (λ d. within b'a' b'z' d || within b'0' b'9' d || nat_beq d b'_') cs
