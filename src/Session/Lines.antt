-- ===== src/Session/Lines.antt =====
-- The lines of a transcript that hold more than white space.
use dhcp_lease_observer.Prelude.{
  ℕ, zero, suc, ◌≡◌, refl, Option, none, some, List, [], ◌∷◌, ◌++◌, length, if◌then◌else◌, false,
}
use dhcp_lease_observer.Text.{Bytes}
use dhcp_lease_observer.Text.Space.{is_blank}

-- `firstContentLine`; none stands for -1.
unfoldable pub first_content_line : List Bytes → Option ℕ
first_content_line [] = none
first_content_line (l ∷ ls) =
    let later : Option ℕ = elim (first_content_line ls) [ none ↦ none | some n ↦ some (suc n) ] in
    if is_blank l then later else some 0

-- `lastContentLine`
unfoldable pub last_content_line : List Bytes → Option ℕ
last_content_line [] = none
last_content_line (l ∷ ls) = elim (last_content_line ls) [
  | none ↦ if is_blank l then none else some 0
  | some n ↦ some (suc n)
]

abbrev pub line_at : ℕ → List Bytes → Bytes
line_at n [] = []
line_at zero (l ∷ ls) = l
line_at (suc n) (l ∷ ls) = line_at n ls

-- The last line with content stands where the list ends in one.
pub last_content_line-append :
    (ls : List Bytes) (l : Bytes)
    → is_blank l ≡ false
    → last_content_line (ls ++ l ∷ []) ≡ some (length ls)
unfolding last_content_line
last_content_line-append [] l h = rw h
last_content_line-append (k ∷ ls) l h = rw (last_content_line-append ls l h)

pub line_at-append : (ls : List Bytes) (l : Bytes) → line_at (length ls) (ls ++ l ∷ []) ≡ l
line_at-append [] l = refl
line_at-append (k ∷ ls) l = line_at-append ls l
