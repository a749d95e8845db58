-- ===== src/Parser/Numbers.antt =====
-- The numbers in a transcript: `strconv.Atoi` and `strconv.ParseInt` in base ten, 64 bits wide.
use dhcp_lease_observer.Prelude.{
  ℕ, ◌+◌, ◌-◌, ◌*◌, ◌^◌, not, ◌&&◌, Option, none, some, [], ◌∷◌, ℤ, pos, negsuc, leb, nat_beq, all,
  if◌then◌else◌,
}
use dhcp_lease_observer.Text.{Bytes, is_digit, is_empty}

unfoldable pub decimal : ℕ → Bytes → ℕ
decimal v [] = v
decimal v (c ∷ cs) = decimal (v * 10 + (c - 48)) cs

-- The number behind a sign, if it is one and fits.
unfoldable pub magnitude : ℕ → Bytes → Option ℕ
unfolding decimal is_digit
magnitude bound s =
    if not (is_empty s) && all is_digit s && leb (decimal 0 s) bound
    then some (decimal 0 s)
    else none

abbrev negate_ℕ : ℕ → ℤ
negate_ℕ n = if nat_beq n 0 then pos 0 else negsuc (n - 1)

-- `strconv.ParseInt(s, 10, 64)`, and `strconv.Atoi(s)` where int has 64 bits
unfoldable pub parse_int : Bytes → Option ℤ
parse_int [] = none
parse_int (c ∷ cs) =
    if nat_beq c b'-'
    then elim (magnitude (2 ^ 63) cs) [ none ↦ none | some n ↦ some (negate_ℕ n) ]
    else elim (magnitude (2 ^ 63 - 1) (if nat_beq c b'+' then cs else c ∷ cs)) [
      | none ↦ none
      | some n ↦ some (pos n)
    ]
