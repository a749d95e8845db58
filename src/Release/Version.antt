-- ===== src/Release/Version.antt =====
-- versionPattern of cmd/package-release/main.go, which is `^v[0-9]+\.[0-9]+\.[0-9]+` and then
-- `(?:-[0-9A-Za-z][0-9A-Za-z.-]*)?$`.
pub mod Plain
use dhcp_lease_observer.Prelude.{
  ℕ, ◌≡◌, ◌↔◌, refl, subst, ap, inl, inr, Bool, true, false, not, ◌&&◌, ◌||◌, [], ◌∷◌, ◌++◌, arith,
  nat_beq, all, Bool-cases, if◌then◌else◌,
}
use dhcp_lease_observer.Text.{Bytes, is_digit, is_alnum, one_or_more}

-- What stands behind the longest run of digits.
unfoldable pub skip_digits : Bytes → Bytes
skip_digits [] = []
skip_digits (c ∷ s) = let rest = skip_digits s in if is_digit c then rest else c ∷ s

-- `[0-9]+` and what matches behind it
unfoldable pub digits_then : (Bytes → Bool) → Bytes → Bool
digits_then next [] = false
digits_then next (c ∷ s) = is_digit c && next (skip_digits s)

-- One character and what matches behind it.
unfoldable pub literal_then : ℕ → (Bytes → Bool) → Bytes → Bool
literal_then a next [] = false
literal_then a next (c ∷ s) = nat_beq c a && next s

-- [0-9A-Za-z.-]
unfoldable pub is_version_byte : ℕ → Bool
is_version_byte c = is_alnum c || nat_beq c b'.' || nat_beq c b'-'

-- `(?:-[0-9A-Za-z][0-9A-Za-z.-]*)?$`
unfoldable pub is_suffix : Bytes → Bool
is_suffix [] = true
is_suffix (a ∷ []) = false
is_suffix (a ∷ b ∷ s) = nat_beq a b'-' && is_alnum b && all is_version_byte s

-- `versionPattern.MatchString`
unfoldable pub is_version : Bytes → Bool
is_version =
    literal_then b'v'
      (digits_then (literal_then b'.' (digits_then (literal_then b'.' (digits_then is_suffix)))))

-- Nothing, or a `-`, a letter or digit, and letters, digits, dots and dashes.
pub data IsSuffix : Bytes → Type 0 where
  unmarked : IsSuffix []
  marked :
      (c : ℕ) (s : Bytes)
      → is_alnum c ≡ true
      → all is_version_byte s ≡ true
      → IsSuffix (b'-' ∷ c ∷ s)

is_suffix-IsSuffix : (s : Bytes) → is_suffix s ≡ true → IsSuffix s
unfolding is_suffix
is_suffix-IsSuffix [] h = unmarked
is_suffix-IsSuffix (a ∷ []) h = absurd (cc)
is_suffix-IsSuffix (a ∷ c ∷ s) h =
    let e : b'-' ≡ a = ground arith in
    subst (λ x. IsSuffix (x ∷ c ∷ s)) e (marked c s (ground arith) (ground arith))

pub IsSuffix-is_suffix : (s : Bytes) → IsSuffix s → is_suffix s ≡ true
unfolding is_suffix
IsSuffix-is_suffix _ unmarked = refl
IsSuffix-is_suffix _ (marked c s a h) = rw (a, h) refl

-- The three numbers and what may follow them.
pub record IsVersion (s : Bytes) : Type 0 where
  pub major : Bytes
  pub minor : Bytes
  pub patch : Bytes
  pub suffix : Bytes
  pub written : s ≡ b'v' ∷ (major ++ (b'.' ∷ (minor ++ (b'.' ∷ (patch ++ suffix)))))
  pub major_digits : one_or_more is_digit major ≡ true
  pub minor_digits : one_or_more is_digit minor ≡ true
  pub patch_digits : one_or_more is_digit patch ≡ true
  pub ends : IsSuffix suffix

-- A text is a run of digits and a rest.
record IsRun (next : Bytes → Bool) (s : Bytes) : Type 0 where
  pub run : Bytes
  pub rest : Bytes
  pub split : s ≡ run ++ rest
  pub digits : all is_digit run ≡ true
  pub matches : next rest ≡ true

skip_digits-IsRun : (next : Bytes → Bool) (s : Bytes) → next (skip_digits s) ≡ true → IsRun next s
unfolding skip_digits
skip_digits-IsRun next [] h = record {
  run = [];
  rest = [];
  split = refl;
  digits = refl;
  matches = h;
}
skip_digits-IsRun next (c ∷ s) h = elim (Bool-cases (is_digit c)) [
  | inr f ↦ record { run = []; rest = c ∷ s; split = refl; digits = refl; matches = rw f at h }
  | inl t ↦
      let r = skip_digits-IsRun next s (rw t at h) in
      record {
        run = c ∷ r.run;
        rest = r.rest;
        split = ap (◌∷◌ c) r.split;
        digits = rw t r.digits;
        matches = r.matches;
      }
]

record IsNumber (next : Bytes → Bool) (s : Bytes) : Type 0 where
  pub run : Bytes
  pub rest : Bytes
  pub split : s ≡ run ++ rest
  pub digits : one_or_more is_digit run ≡ true
  pub matches : next rest ≡ true

digits_then-IsNumber :
    (next : Bytes → Bool) (s : Bytes) → digits_then next s ≡ true → IsNumber next s
unfolding digits_then
digits_then-IsNumber next [] h = absurd (cc)
digits_then-IsNumber next (c ∷ s) h =
    let t : is_digit c ≡ true = ground arith in
    let r = skip_digits-IsRun next s (ground arith) in
    record {
      run = c ∷ r.run;
      rest = r.rest;
      split = ap (◌∷◌ c) r.split;
      digits = rw t r.digits;
      matches = r.matches;
    }

literal_then-split :
    (a : ℕ) (next : Bytes → Bool) (s : Bytes)
    → literal_then a next s ≡ true
    → (rest : Bytes) × ((s ≡ a ∷ rest) × (next rest ≡ true))
unfolding literal_then
literal_then-split a next [] h = absurd (cc)
literal_then-split a next (c ∷ s) h = (s, (ap (λ x. x ∷ s) (ground arith), ground arith))

pub is_version-IsVersion : (s : Bytes) → is_version s ≡ true → IsVersion s
unfolding is_version
is_version-IsVersion s h =
    let (s₁, (e₁, h₁)) = literal_then-split b'v' _ s h in
    let major = digits_then-IsNumber _ s₁ h₁ in
    let (s₂, (e₂, h₂)) = literal_then-split b'.' _ major.rest major.matches in
    let minor = digits_then-IsNumber _ s₂ h₂ in
    let (s₃, (e₃, h₃)) = literal_then-split b'.' _ minor.rest minor.matches in
    let patch = digits_then-IsNumber _ s₃ h₃ in
    record {
      major = major.run;
      minor = minor.run;
      patch = patch.run;
      suffix = patch.rest;
      written = cc (e₁, major.split, e₂, minor.split, e₃, patch.split);
      major_digits = major.digits;
      minor_digits = minor.digits;
      patch_digits = patch.digits;
      ends = is_suffix-IsSuffix patch.rest patch.matches;
    }

-- No digit stands at the start.
abbrev ends_digits : Bytes → Bool
ends_digits [] = true
ends_digits (c ∷ s) = not (is_digit c)

skip_digits-run :
    (run rest : Bytes)
    → all is_digit run ≡ true
    → ends_digits rest ≡ true
    → skip_digits (run ++ rest) ≡ rest
unfolding skip_digits
skip_digits-run [] [] h e = refl
skip_digits-run [] (c ∷ rest) h e = ground arith
skip_digits-run (c ∷ run) rest h e =
    let t : is_digit c ≡ true = ground arith in rw t (skip_digits-run run rest (rw t at h) e)

digits_then-run :
    (next : Bytes → Bool) (run rest : Bytes)
    → one_or_more is_digit run ≡ true
    → ends_digits rest ≡ true
    → next rest ≡ true
    → digits_then next (run ++ rest) ≡ true
unfolding digits_then
digits_then-run next [] rest h e n = absurd (cc)
digits_then-run next (c ∷ run) rest h e n =
    let t : is_digit c ≡ true = ground arith in rw (t, skip_digits-run run rest (rw t at h) e) n

suffix-ends_digits : (s : Bytes) → is_suffix s ≡ true → ends_digits s ≡ true
unfolding is_suffix is_digit
suffix-ends_digits [] h = refl
suffix-ends_digits (a ∷ []) h = absurd (cc)
suffix-ends_digits (a ∷ b ∷ s) h = ground arith

dot-ends_digits : (s : Bytes) → ends_digits (b'.' ∷ s) ≡ true
unfolding is_digit
dot-ends_digits s = refl

IsVersion-is_version : (s : Bytes) → IsVersion s → is_version s ≡ true
unfolding is_version literal_then
IsVersion-is_version s v =
    let ends = IsSuffix-is_suffix v.suffix v.ends in
    let behind_minor = b'.' ∷ (v.patch ++ v.suffix) in
    let behind_major = b'.' ∷ (v.minor ++ behind_minor) in
    let patch =
      digits_then-run is_suffix v.patch v.suffix v.patch_digits (suffix-ends_digits v.suffix ends)
        ends in
    let minor =
      digits_then-run _ v.minor behind_minor v.minor_digits (dot-ends_digits (v.patch ++ v.suffix))
        patch in
    rw v.written (
      digits_then-run _ v.major behind_major v.major_digits
        (dot-ends_digits (v.minor ++ behind_minor)) minor)

-- The pattern accepts a text just if it is a `v`, three numbers with a dot between them, and the
-- suffix that may follow; no longest run of digits keeps it from a match.
pub is_version_iff : (s : Bytes) → (is_version s ≡ true) ↔ IsVersion s
is_version_iff s = (is_version-IsVersion s, IsVersion-is_version s)
