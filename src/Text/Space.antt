-- ===== src/Text/Space.antt =====
-- White space: `strings.TrimSpace` on UTF-8 bytes, `strings.Split` into lines, and letter case as
-- far as an ASCII phrase can tell.
pub mod Lines
use dhcp_lease_observer.Prelude.{
  ℕ, zero, suc, ◌+◌, Bool, ◌&&◌, ◌||◌, List, [], ◌∷◌, ◌++◌, reverse, leb, nat_beq, if◌then◌else◌,
}
use dhcp_lease_observer.Text.{Bytes, within, is_empty}

-- `\t \n \v \f \r` and the blank.
unfoldable pub is_ascii_space : ℕ → Bool
is_ascii_space c = within 9 13 c || nat_beq c 32

-- The byte length of the white space rune that the bytes c, d, e begin with, or 0.
unfoldable pub space_width : ℕ → ℕ → ℕ → ℕ
unfolding is_ascii_space
space_width c d e =
    if is_ascii_space c
    then 1
    else if nat_beq c 0xc2 && (nat_beq d 0x85 || nat_beq d 0xa0)
    then 2
    else if (nat_beq c 0xe1 && nat_beq d 0x9a && nat_beq e 0x80)
        || (nat_beq c 0xe2
            && nat_beq d 0x80
            && (within 0x80 0x8a e || within 0xa8 0xa9 e || nat_beq e 0xaf))
        || (nat_beq c 0xe2 && nat_beq d 0x81 && nat_beq e 0x9f)
        || (nat_beq c 0xe3 && nat_beq d 0x80 && nat_beq e 0x80)
    then 3
    else 0

abbrev pub nth : ℕ → Bytes → ℕ
nth n [] = 0
nth zero (c ∷ cs) = c
nth (suc n) (c ∷ cs) = nth n cs

-- Drop leading white space; `skip` bytes of a rune are still to be dropped.
unfoldable pub trim_left_from : (ℕ → ℕ → ℕ → ℕ) → ℕ → Bytes → Bytes
trim_left_from width skip [] = []
trim_left_from width (suc skip) (c ∷ cs) = trim_left_from width skip cs
trim_left_from width zero (c ∷ cs) = elim (width c (nth 0 cs) (nth 1 cs)) [
  | zero ↦ c ∷ cs
  | suc more ↦ trim_left_from width more cs
]

-- The same from the right end, on the reversed bytes.
unfoldable pub space_width_back : ℕ → ℕ → ℕ → ℕ
unfolding space_width
space_width_back c d e =
    if is_ascii_space c
    then 1
    else if leb 2 (space_width d c 0)
    then 2
    else if leb 3 (space_width e d c)
    then 3
    else 0

-- `strings.TrimSpace`
unfoldable pub trim_space : Bytes → Bytes
unfolding trim_left_from space_width space_width_back
trim_space s =
    reverse (trim_left_from space_width_back 0 (reverse (trim_left_from space_width 0 s)))

-- `strings.TrimSpace(line) == ""`
abbrev pub is_blank : Bytes → Bool
is_blank line = is_empty (trim_space line)

-- `strings.Split(text, "\n")`
unfoldable pub split_onto : Bytes → Bytes → List Bytes
split_onto line [] = line ∷ []
split_onto line (c ∷ cs) =
    let here = line ∷ split_onto [] cs in
    let more = split_onto (line ++ (c ∷ [])) cs in if nat_beq c b'\n' then here else more

unfoldable pub split_lines : Bytes → List Bytes
unfolding split_onto
split_lines = split_onto []

-- `strings.Join(lines, "\n")`
unfoldable pub join_lines : List Bytes → Bytes
join_lines [] = []
join_lines (l ∷ []) = l
join_lines (l ∷ m ∷ ls) = l ++ (b'\n' ∷ join_lines (m ∷ ls))

-- `strings.ReplaceAll(text, "\r\n", "\n")`
unfoldable pub replace_crlf : Bytes → Bytes
replace_crlf [] = []
replace_crlf (c ∷ []) = c ∷ []
replace_crlf (c ∷ d ∷ rest) =
    let joined = b'\n' ∷ replace_crlf rest in
    let kept = c ∷ replace_crlf (d ∷ rest) in
    if nat_beq c b'\r' && nat_beq d b'\n' then joined else kept

unfoldable pub ascii_lower : ℕ → ℕ
ascii_lower c = if within b'A' b'Z' c then c + 32 else c

-- `strings.ToLower`, as far as a search for an ASCII phrase can tell: the ASCII letters, and the
-- two other runes with an ASCII lower case, U+0130 (i) and U+212A (k). Other runes stay.
unfoldable pub to_lower : Bytes → Bytes
unfolding ascii_lower
to_lower [] = []
to_lower (c ∷ []) = ascii_lower c ∷ []
to_lower (c ∷ d ∷ []) =
    let rest = to_lower (d ∷ []) in
    if nat_beq c 0xc4 && nat_beq d 0xb0 then b'i' ∷ [] else ascii_lower c ∷ rest
to_lower (c ∷ d ∷ e ∷ cs) =
    let dotted = b'i' ∷ to_lower (e ∷ cs) in
    let kelvin = b'k' ∷ to_lower cs in
    let rest = ascii_lower c ∷ to_lower (d ∷ e ∷ cs) in
    if nat_beq c 0xc4 && nat_beq d 0xb0
    then dotted
    else if nat_beq c 0xe2 && nat_beq d 0x84 && nat_beq e 0xaa
    then kelvin
    else rest
