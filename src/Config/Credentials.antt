-- ===== src/Config/Credentials.antt =====
-- The credentials of internal/config/config.go.
use dhcp_lease_observer.Prelude.{
  ℕ, ◌+◌, Bool, false, not, ◌||◌, [], ◌∷◌, take, length, ltb, nat_beq, Result, ok, err, ◌>>=◌, ◌>>◌,
  reject_if, if◌then◌else◌,
}
use dhcp_lease_observer.Text.{Bytes, codes, is_empty}
use dhcp_lease_observer.Text.Path.{is_clean_absolute, join_path}
use dhcp_lease_observer.Files.{Disk}
use dhcp_lease_observer.SafeFile.{OpenCalls, OpenError, unsafe_file, open_regular}

pub record Credentials : Type 0 where
  pub password : Bytes
  pub identity_key : Bytes

pub data CredentialsError : Type 0 where
  invalid_credentials : CredentialsError
  open_error : OpenError → CredentialsError

abbrev pub max_password_bytes : ℕ
max_password_bytes = 1024

abbrev pub max_identity_key_bytes : ℕ
max_identity_key_bytes = 4096

-- `bytes.TrimSuffix` with one byte.
unfoldable pub trim_last : ℕ → Bytes → Bytes
trim_last c [] = []
trim_last c (d ∷ []) = if nat_beq c d then [] else d ∷ []
trim_last c (d ∷ e ∷ s) = d ∷ trim_last c (e ∷ s)

-- `bytes.IndexByte(s, c) >= 0`
unfoldable pub holds_byte : ℕ → Bytes → Bool
holds_byte c [] = false
holds_byte c (d ∷ s) = nat_beq c d || holds_byte c s

-- `bytes.ContainsAny(s, "\r\n")`
unfoldable pub holds_line_end : Bytes → Bool
holds_line_end s = holds_byte b'\r' s || holds_byte b'\n' s

-- `readCredential` on the content of the file.
unfoldable pub parse_credential : OpenCalls → ℕ → Bytes → Result CredentialsError Bytes
parse_credential calls max_bytes content =
    let data_read = take (max_bytes + 1) content in
    if calls.read_fails || ltb max_bytes (length data_read)
    then err invalid_credentials
    else ok (trim_last b'\r' (trim_last b'\n' data_read))

-- `readCredential`, which refuses the permission bits 0o027.
unfoldable pub read_credential : OpenCalls → Disk → Bytes → ℕ → Result CredentialsError Bytes
read_credential calls disk path max_bytes = elim (open_regular calls disk path 23 max_bytes) [
  | err unsafe_file ↦ err invalid_credentials
  | err e ↦ err (open_error e)
  | ok content ↦ parse_credential calls max_bytes content
]

-- The test of both.
unfoldable pub invalid_pair : Bytes → Bytes → Bool
invalid_pair password identity_key =
    is_empty password
    || ltb (length identity_key) 32
    || holds_byte 0 password
    || holds_line_end password
    || holds_line_end identity_key

-- `LoadCredentials`; the calls are those for each of the two files.
unfoldable pub load_credentials :
    OpenCalls → OpenCalls → Disk → Bytes → Result CredentialsError Credentials
load_credentials password_calls key_calls disk directory = do
  reject_if (not (is_clean_absolute directory)) invalid_credentials
  password ←
      read_credential password_calls disk (join_path directory (codes "ix2106-password"))
        max_password_bytes
  identity_key ←
      read_credential key_calls disk (join_path directory (codes "identity-key"))
        max_identity_key_bytes
  reject_if (invalid_pair password identity_key) invalid_credentials
  ok (record { password = password; identity_key = identity_key })
