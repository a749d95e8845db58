-- ===== src/Config/Accepted.antt =====
-- What credentials that load are good for.
use dhcp_lease_observer.Prelude.{
  ℕ, ◌+◌, ◌≤◌, ◌≡◌, refl, inl, inr, false, not, [], ◌∷◌, arith, length, take, Result, ok, err,
  ◌>>=◌, reject-eq-ok, Result-cases, ok-injective, subst,
}
use dhcp_lease_observer.Text.{Bytes, codes, is_empty}
use dhcp_lease_observer.Text.Path.{is_clean_absolute, join_path}
use dhcp_lease_observer.Files.{Disk}
use dhcp_lease_observer.SafeFile.{OpenCalls, open_regular}
use dhcp_lease_observer.Identity.{new_generator}
use dhcp_lease_observer.Config.Credentials.{
  Credentials, invalid_credentials, max_password_bytes, max_identity_key_bytes, trim_last,
  holds_byte, holds_line_end, parse_credential, read_credential, invalid_pair, load_credentials,
}

pub record IsAccepted (c : Credentials) : Type 0 where
  pub password_given : is_empty c.password ≡ false
  pub password_fits : length c.password ≤ max_password_bytes
  pub password_zero : holds_byte 0 c.password ≡ false
  pub password_line : holds_line_end c.password ≡ false
  pub key_fits : length c.identity_key ≤ max_identity_key_bytes
  pub key_line : holds_line_end c.identity_key ≡ false
  pub generator : new_generator c.identity_key ≡ ok (record { key = c.identity_key })

length-trim_last : (c : ℕ) (s : Bytes) → length (trim_last c s) ≤ length s
unfolding trim_last
length-trim_last c [] = omega arith
length-trim_last c (d ∷ []) = ground arith
length-trim_last c (d ∷ e ∷ s) = omega (arith, length-trim_last c (e ∷ s))

parse_credential-fits :
    (calls : OpenCalls) (max_bytes : ℕ) (content data_read : Bytes)
    → parse_credential calls max_bytes content ≡ ok data_read
    → length data_read ≤ max_bytes
unfolding parse_credential
parse_credential-fits calls max_bytes content data_read h =
    let s = take (max_bytes + 1) content in
    ground (arith, length-trim_last b'\n' s, length-trim_last b'\r' (trim_last b'\n' s))

read_credential-fits :
    (calls : OpenCalls) (disk : Disk) (path : Bytes) (max_bytes : ℕ) (data_read : Bytes)
    → read_credential calls disk path max_bytes ≡ ok data_read
    → length data_read ≤ max_bytes
unfolding read_credential
read_credential-fits calls disk path max_bytes data_read h =
    elim (Result-cases (open_regular calls disk path 23 max_bytes)) [
      | inl (content, o) ↦
          parse_credential-fits calls max_bytes content data_read (rw (o, read_credential) at h)
      | inr (e, o) ↦ absurd (ground (arith, o))
    ]

bind-eq-ok {ℓ κ μ} :
    {E : Type ℓ} {A : Type κ} {B : Type μ} (m : Result E A) (f : A → Result E B) {b : B}
    → (m >>= f) ≡ ok b
    → (a : A) × ((m ≡ ok a) × (f a ≡ ok b))
bind-eq-ok (ok a) f h = (a, (refl, h))
bind-eq-ok (err e) f h = absurd (cc)

pair-IsAccepted :
    (password identity_key : Bytes)
    → length password ≤ max_password_bytes
    → length identity_key ≤ max_identity_key_bytes
    → invalid_pair password identity_key ≡ false
    → IsAccepted (record { password = password; identity_key = identity_key })
unfolding invalid_pair new_generator
pair-IsAccepted password identity_key p k h = record {
  password_given = ground (arith, h);
  password_fits = p;
  password_zero = ground (arith, h);
  password_line = ground (arith, h);
  key_fits = k;
  key_line = ground (arith, h);
  generator = ground (arith, h);
}

-- Credentials that LoadCredentials returns have a password of 1 to 1024 bytes with no zero byte and
-- no line end, and an identity key of at most 4096 bytes with no line end that NewGenerator takes.
pub load_credentials-IsAccepted :
    (password_calls key_calls : OpenCalls) (disk : Disk) (directory : Bytes) (c : Credentials)
    → load_credentials password_calls key_calls disk directory ≡ ok c
    → IsAccepted c
unfolding load_credentials
load_credentials-IsAccepted password_calls key_calls disk directory c h =
    let (d, h₁) = reject-eq-ok (not (is_clean_absolute directory)) invalid_credentials _ h in
    let (password, (p, h₂)) =
      bind-eq-ok
        (read_credential password_calls disk (join_path directory (codes "ix2106-password"))
          max_password_bytes)
        _ h₁ in
    let (key, (k, h₃)) =
      bind-eq-ok
        (read_credential key_calls disk (join_path directory (codes "identity-key"))
          max_identity_key_bytes)
        _ h₂ in
    let (i, h₄) = reject-eq-ok (invalid_pair password key) invalid_credentials _ h₃ in
    subst IsAccepted (ok-injective h₄) (
      pair-IsAccepted password key (read_credential-fits _ _ _ _ _ p)
        (read_credential-fits _ _ _ _ _ k) i)
