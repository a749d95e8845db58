-- ===== src/Text/Space/Lines.antt =====
-- Splitting joined lines gives the lines back; text without carriage returns is left as it is.
use dhcp_lease_observer.Prelude.{
  ◌≡◌, refl, ◌∙◌, ap, Bool, true, not, ◌&&◌, List, [], ◌∷◌, ◌++◌, arith, nat_beq, all, All,
}
use mathlib.Core.List.{append-nil, append_assoc}
use dhcp_lease_observer.Text.{Bytes}
use dhcp_lease_observer.Text.Space.{split_onto, split_lines, join_lines, replace_crlf}

-- A line with no line end in it.
abbrev pub is_line : Bytes → Bool
is_line = all (λ c. not (nat_beq c b'\n') && not (nat_beq c b'\r'))

abbrev pub has_no_return : Bytes → Bool
has_no_return = all (λ c. not (nat_beq c b'\r'))

pub replace_crlf_plain : (s : Bytes) → has_no_return s ≡ true → replace_crlf s ≡ s
unfolding replace_crlf
replace_crlf_plain [] h = refl
replace_crlf_plain (c ∷ []) h = refl
replace_crlf_plain (c ∷ d ∷ s) h = ground (arith, replace_crlf_plain (d ∷ s))

split_onto-line : (acc l : Bytes) → is_line l ≡ true → split_onto acc l ≡ (acc ++ l) ∷ []
unfolding split_onto
split_onto-line acc [] h = rw append-nil
split_onto-line acc (c ∷ l) h =
    ground (arith, split_onto-line (acc ++ (c ∷ [])) l, append_assoc acc (c ∷ []) l)

split_onto-append :
    (acc l rest : Bytes)
    → is_line l ≡ true
    → split_onto acc (l ++ (b'\n' ∷ rest)) ≡ (acc ++ l) ∷ split_onto [] rest
unfolding split_onto
split_onto-append acc [] rest h = rw append-nil
split_onto-append acc (c ∷ l) rest h =
    ground (arith, split_onto-append (acc ++ (c ∷ [])) l rest, append_assoc acc (c ∷ []) l)

-- `Split` of `Join` gives back a list of lines, if it has a line.
pub split_lines-join_lines :
    (l : Bytes) (ls : List Bytes)
    → All (λ k. is_line k ≡ true) (l ∷ ls)
    → split_lines (join_lines (l ∷ ls)) ≡ l ∷ ls
unfolding split_lines join_lines
split_lines-join_lines l [] h = split_onto-line [] l h.0
split_lines-join_lines l (m ∷ ls) h =
    split_onto-append [] l (join_lines (m ∷ ls)) h.0 ∙ ap (◌∷◌ l) (split_lines-join_lines m ls h.1)

has_no_return-append :
    (a b : Bytes) → has_no_return a ≡ true → has_no_return b ≡ true → has_no_return (a ++ b) ≡ true
has_no_return-append [] b h k = k
has_no_return-append (c ∷ a) b h k = ground (arith, has_no_return-append a b)

is_line-has_no_return : (l : Bytes) → is_line l ≡ true → has_no_return l ≡ true
is_line-has_no_return [] h = refl
is_line-has_no_return (c ∷ l) h = ground (arith, is_line-has_no_return l)

pub has_no_return-join_lines :
    (ls : List Bytes) → All (λ k. is_line k ≡ true) ls → has_no_return (join_lines ls) ≡ true
unfolding join_lines
has_no_return-join_lines [] h = refl
has_no_return-join_lines (l ∷ []) h = is_line-has_no_return l h.0
has_no_return-join_lines (l ∷ m ∷ ls) h =
    has_no_return-append l (b'\n' ∷ join_lines (m ∷ ls)) (is_line-has_no_return l h.0)
      (has_no_return-join_lines (m ∷ ls) h.1)
