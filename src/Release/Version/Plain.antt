-- ===== src/Release/Version/Plain.antt =====
-- The bytes of a release's version.
use dhcp_lease_observer.Prelude.{ℕ, ◌≡◌, refl, Bool, true, [], ◌∷◌, ◌++◌, arith, all}
use dhcp_lease_observer.Text.{Bytes, is_digit, is_alnum, one_or_more}
use dhcp_lease_observer.Release.Version.{
  is_version, is_version_byte, is_suffix, IsSuffix-is_suffix, IsVersion, is_version-IsVersion,
}

pub all-append :
    (p : ℕ → Bool) (s t : Bytes) → all p s ≡ true → all p t ≡ true → all p (s ++ t) ≡ true
all-append p [] t h k = k
all-append p (c ∷ s) t h k =
    let a : p c ≡ true = ground arith in rw a (all-append p s t (rw a at h) k)

all-digits : (s : Bytes) → all is_digit s ≡ true → all is_version_byte s ≡ true
unfolding is_digit is_version_byte is_alnum
all-digits [] h = refl
all-digits (c ∷ s) h = ground (arith, all-digits s)

all-number : (s : Bytes) → one_or_more is_digit s ≡ true → all is_version_byte s ≡ true
all-number [] h = absurd (cc)
all-number (c ∷ s) h = all-digits (c ∷ s) h

all-suffix : (s : Bytes) → is_suffix s ≡ true → all is_version_byte s ≡ true
unfolding is_suffix is_version_byte is_alnum
all-suffix [] h = refl
all-suffix (a ∷ []) h = absurd (cc)
all-suffix (a ∷ b ∷ s) h = ground arith

IsVersion-plain : (s : Bytes) → IsVersion s → all is_version_byte s ≡ true
unfolding is_version_byte is_alnum
IsVersion-plain s v =
    let p = all-append is_version_byte in
    let patch =
      p v.patch v.suffix (all-number v.patch v.patch_digits)
        (all-suffix v.suffix (IsSuffix-is_suffix v.suffix v.ends)) in
    let minor =
      p v.minor (b'.' ∷ (v.patch ++ v.suffix)) (all-number v.minor v.minor_digits) patch in
    rw v.written (
      p v.major (b'.' ∷ (v.minor ++ (b'.' ∷ (v.patch ++ v.suffix))))
        (all-number v.major v.major_digits) minor)

-- A version that the pattern accepts has no slash, no space and no other separator: it stays one
-- argument of the linker, and one name in a path.
pub is_version-plain : (s : Bytes) → is_version s ≡ true → all is_version_byte s ≡ true
is_version-plain s h = IsVersion-plain s (is_version-IsVersion s h)
