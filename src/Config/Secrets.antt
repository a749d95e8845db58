-- ===== src/Config/Secrets.antt =====
-- The arrays of the credentials in memory: LoadCredentials, readCredential, clearBytes and Clear of
-- internal/config/config.go with what they leave there.
pub mod Wiped
pub mod Loaded
use dhcp_lease_observer.Prelude.{
  ℕ, zero, suc, ◌+◌, not, ◌||◌, Option, none, some, List, [], ◌∷◌, ◌++◌, take, length, ltb, Result,
  ok, err, if◌then◌else◌,
}
use dhcp_lease_observer.Text.{Bytes, codes}
use dhcp_lease_observer.Text.Path.{is_clean_absolute, join_path}
use dhcp_lease_observer.Files.{Disk}
use dhcp_lease_observer.SafeFile.{OpenCalls, unsafe_file, open_regular}
use dhcp_lease_observer.Config.Credentials.{
  CredentialsError, invalid_credentials, open_error, max_password_bytes, max_identity_key_bytes,
  trim_last, invalid_pair,
}

-- The arrays that were allocated, the first one first.
abbrev pub Memory : Type 0
Memory = List Bytes

-- A slice from the start of an array.
pub record Slice : Type 0 where
  pub array : ℕ
  pub size : ℕ

unfoldable pub array_at : ℕ → Memory → Bytes
array_at n [] = []
array_at zero (a ∷ memory) = a
array_at (suc n) (a ∷ memory) = array_at n memory

unfoldable pub update_at : ℕ → (Bytes → Bytes) → Memory → Memory
update_at n f [] = []
update_at zero f (a ∷ memory) = f a ∷ memory
update_at (suc n) f (a ∷ memory) = a ∷ update_at n f memory

abbrev pub bytes_of : Slice → Memory → Bytes
bytes_of slice memory = take slice.size (array_at slice.array memory)

-- The loop of `clearBytes`
unfoldable pub overwrite : ℕ → Bytes → Bytes
overwrite zero s = s
overwrite (suc n) [] = []
overwrite (suc n) (c ∷ s) = 0 ∷ overwrite n s

-- `clearBytes`
unfoldable pub clear_bytes : Slice → Memory → Memory
clear_bytes slice memory = update_at slice.array (overwrite slice.size) memory

-- `readCredential` on the content of the file. TrimSuffix gives a part of the array that was read.
unfoldable pub keep_content :
    OpenCalls → ℕ → Bytes → Memory → Result CredentialsError Slice × Memory
keep_content calls max_bytes content memory =
    let data_read = take (max_bytes + 1) content in
    let slice : Slice = record {
      array = length memory;
      size = length (trim_last b'\r' (trim_last b'\n' data_read));
    } in
    (
      (if calls.read_fails || ltb max_bytes (length data_read)
          then err invalid_credentials
          else ok slice),
      memory ++ data_read ∷ [],
    )

-- `readCredential`
unfoldable pub keep_credential :
    OpenCalls → Disk → Bytes → ℕ → Memory → Result CredentialsError Slice × Memory
keep_credential calls disk path max_bytes memory =
    elim (open_regular calls disk path 23 max_bytes) [
      | err unsafe_file ↦ (err invalid_credentials, memory)
      | err e ↦ (err (open_error e), memory)
      | ok content ↦ keep_content calls max_bytes content memory
    ]

-- `Credentials`, as slices.
pub record Held : Type 0 where
  pub password : Slice
  pub identity_key : Slice

-- `LoadCredentials` behind both reads.
unfoldable pub check_pair : Slice → Slice → Memory → Result CredentialsError Held × Memory
check_pair password identity_key memory =
    if invalid_pair (bytes_of password memory) (bytes_of identity_key memory)
    then (err invalid_credentials, clear_bytes identity_key (clear_bytes password memory))
    else (ok (record { password = password; identity_key = identity_key }), memory)

-- `LoadCredentials` behind the read of the identity key.
unfoldable pub behind_key :
    Slice → Result CredentialsError Slice × Memory → Result CredentialsError Held × Memory
behind_key password (err e, memory) = (err e, clear_bytes password memory)
behind_key password (ok identity_key, memory) = check_pair password identity_key memory

-- `LoadCredentials` behind the read of the password.
unfoldable pub behind_password :
    (Memory → Result CredentialsError Slice × Memory)
    → Result CredentialsError Slice × Memory
    → Result CredentialsError Held × Memory
behind_password read_key (err e, memory) = (err e, memory)
behind_password read_key (ok password, memory) = behind_key password (read_key memory)

-- `LoadCredentials`
unfoldable pub hold_credentials :
    OpenCalls → OpenCalls → Disk → Bytes → Memory → Result CredentialsError Held × Memory
hold_credentials password_calls key_calls disk directory memory =
    if not (is_clean_absolute directory)
    then (err invalid_credentials, memory)
    else behind_password
        (keep_credential key_calls disk (join_path directory (codes "identity-key"))
          max_identity_key_bytes)
        (keep_credential password_calls disk (join_path directory (codes "ix2106-password"))
          max_password_bytes memory)

abbrev no_slice : Slice
no_slice = record { array = 0; size = 0 }

-- `Clear`; a nil slice is one of no bytes.
unfoldable pub clear_held : Option Held → Memory → Option Held × Memory
clear_held none memory = (none, memory)
clear_held (some held) memory = (
  some (record { password = no_slice; identity_key = no_slice }),
  clear_bytes held.identity_key (clear_bytes held.password memory),
)
