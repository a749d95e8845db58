-- ===== src/Config/Secrets/Wiped.antt =====
-- What the loading of credentials leaves in memory.
use dhcp_lease_observer.Prelude.{
  ℕ, ◌+◌, ◌≡◌, ◌⊎◌, ◌∙◌, refl, sym, ap, subst, inl, inr, true, ◌||◌, [], ◌∷◌, ◌++◌, arith, take,
  length, replicate, ltb, Result, ok, err, Result-cases, Bool-cases, nat_beq,
}
use mathlib.Core.List.{append_assoc}
use dhcp_lease_observer.Text.{Bytes}
use dhcp_lease_observer.Files.{Disk}
use dhcp_lease_observer.SafeFile.{
  OpenCalls, unsafe_file, not_exist, open_failed, stat_failed, open_regular,
}
use dhcp_lease_observer.Config.Credentials.{
  CredentialsError, invalid_credentials, open_error, trim_last, parse_credential, read_credential,
}
use dhcp_lease_observer.Config.Secrets.{
  Memory, Slice, array_at, update_at, overwrite, keep_content, keep_credential,
}

-- What stands behind a credential in its array.
pub data IsEnd : Bytes → Type 0 where
  nothing : IsEnd []
  newline : IsEnd (b'\n' ∷ [])
  return : IsEnd (b'\r' ∷ [])
  both : IsEnd (b'\r' ∷ b'\n' ∷ [])

trim_last-split :
    (c : ℕ) (s : Bytes) → (e : Bytes) × ((s ≡ trim_last c s ++ e) × ((e ≡ []) ⊎ (e ≡ c ∷ [])))
unfolding trim_last
trim_last-split c [] = ([], (refl, inl refl))
trim_last-split c (d ∷ []) = elim (Bool-cases (nat_beq c d)) [
  | inl t ↦ (c ∷ [], (rw t (ap (λ x. x ∷ []) (ground arith)), inr refl))
  | inr f ↦ ([], (rw f refl, inl refl))
]
trim_last-split c (d ∷ x ∷ s) =
    let (e, (h, k)) = trim_last-split c (x ∷ s) in (e, (ap (◌∷◌ d) h, k))

-- The credential and its end, in the array.
record IsTrimmed (s t : Bytes) : Type 0 where
  pub end : Bytes
  pub split : s ≡ t ++ end
  pub line : IsEnd end

trim_last-IsTrimmed : (s : Bytes) → IsTrimmed s (trim_last b'\r' (trim_last b'\n' s))
trim_last-IsTrimmed s =
    let (e, (h, k)) = trim_last-split b'\n' s in
    let (f, (g, l)) = trim_last-split b'\r' (trim_last b'\n' s) in
    record {
      end = f ++ e;
      split = h ∙ ap (λ x. x ++ e) g ∙ append_assoc (trim_last b'\r' (trim_last b'\n' s)) f e;
      line = ends f e l k;
    }
  where
    ends :
        (f e : Bytes)
        → ((f ≡ []) ⊎ (f ≡ b'\r' ∷ []))
        → ((e ≡ []) ⊎ (e ≡ b'\n' ∷ []))
        → IsEnd (f ++ e)
    ends f e (inl a) (inl b) = rw (a, b) nothing
    ends f e (inl a) (inr b) = rw (a, b) newline
    ends f e (inr a) (inl b) = rw (a, b) return
    ends f e (inr a) (inr b) = rw (a, b) both

pub overwrite-append : (t e : Bytes) → overwrite (length t) (t ++ e) ≡ replicate (length t) 0 ++ e
unfolding overwrite
overwrite-append [] e = refl
overwrite-append (c ∷ t) e = ap (◌∷◌ 0) (overwrite-append t e)

pub take-append : (t e : Bytes) → take (length t) (t ++ e) ≡ t
take-append [] e = refl
take-append (c ∷ t) e = ap (◌∷◌ c) (take-append t e)

pub array_at-append :
    (m : Memory) (a : Bytes) (more : Memory) → array_at (length m) (m ++ a ∷ more) ≡ a
unfolding array_at
array_at-append [] a more = refl
array_at-append (b ∷ m) a more = array_at-append m a more

pub update_at-append :
    (f : Bytes → Bytes) (m : Memory) (a : Bytes) (more : Memory)
    → update_at (length m) f (m ++ a ∷ more) ≡ m ++ f a ∷ more
unfolding update_at
update_at-append f [] a more = refl
update_at-append f (b ∷ m) a more = ap (◌∷◌ b) (update_at-append f m a more)

-- The bytes are zero, but for the line end behind the credential.
pub record IsWiped (a : Bytes) : Type 0 where
  pub zeros : ℕ
  pub end : Bytes
  pub wiped : a ≡ replicate zeros 0 ++ end
  pub line : IsEnd end

-- How a credential comes to memory: not at all, in an array that `readCredential` refuses, or in an
-- array that holds it and its line end.
pub data Kept (calls : OpenCalls) (max_bytes : ℕ) (memory : Memory)
    : Result CredentialsError Bytes → Result CredentialsError Slice × Memory → Type 0 where
  unopened : (e : CredentialsError) → Kept calls max_bytes memory (err e) (err e, memory)
  refused :
      (a : Bytes)
      → (calls.read_fails || ltb max_bytes (length a)) ≡ true
      → Kept calls max_bytes memory
          (err invalid_credentials)
          (err invalid_credentials, memory ++ a ∷ [])
  held :
      (t e : Bytes)
      → IsEnd e
      → Kept calls max_bytes memory
          (ok t)
          (ok (record { array = length memory; size = length t }), memory ++ (t ++ e) ∷ [])

keep_content-Kept :
    (calls : OpenCalls) (max_bytes : ℕ) (content : Bytes) (memory : Memory)
    → Kept calls max_bytes memory
        (parse_credential calls max_bytes content)
        (keep_content calls max_bytes content memory)
unfolding parse_credential keep_content
keep_content-Kept calls max_bytes content memory =
    let s = take (max_bytes + 1) content in
    let t = trim_last b'\r' (trim_last b'\n' s) in
    let i = trim_last-IsTrimmed s in
    elim (Bool-cases (calls.read_fails || ltb max_bytes (length s))) [
      | inl b ↦ rw b (refused s b)
      | inr b ↦ rw b (
          subst
            (λ x.
              Kept calls max_bytes memory (ok t)
                (ok (record { array = length memory; size = length t }), memory ++ x ∷ []))
            (sym i.split) (held t i.end i.line))
    ]

pub keep_credential-Kept :
    (calls : OpenCalls) (disk : Disk) (path : Bytes) (max_bytes : ℕ) (memory : Memory)
    → Kept calls max_bytes memory
        (read_credential calls disk path max_bytes)
        (keep_credential calls disk path max_bytes memory)
unfolding read_credential keep_credential
keep_credential-Kept calls disk path max_bytes memory =
    elim (Result-cases (open_regular calls disk path 23 max_bytes)) [
      | inl (content, o) ↦
          rw (o, read_credential, keep_credential)
            (keep_content-Kept calls max_bytes content memory)
      | inr (unsafe_file, o) ↦
          rw (o, read_credential, keep_credential) (unopened invalid_credentials)
      | inr (not_exist, o) ↦
          rw (o, read_credential, keep_credential) (unopened (open_error not_exist))
      | inr (open_failed, o) ↦
          rw (o, read_credential, keep_credential) (unopened (open_error open_failed))
      | inr (stat_failed, o) ↦
          rw (o, read_credential, keep_credential) (unopened (open_error stat_failed))
    ]
