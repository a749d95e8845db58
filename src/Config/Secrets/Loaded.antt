-- ===== src/Config/Secrets/Loaded.antt =====
-- LoadCredentials and Clear in memory: the credentials are there while they are held, and gone then.
use dhcp_lease_observer.Prelude.{
  ◌≡◌, true, some, ◌||◌, List, [], ◌∷◌, ◌++◌, length, replicate, ltb, Result, ok, err, ◌>>=◌, ◌>>◌,
  reject_if, All,
}
use dhcp_lease_observer.Text.{Bytes}
use dhcp_lease_observer.SafeFile.{OpenCalls}
use dhcp_lease_observer.Config.Credentials.{
  Credentials, CredentialsError, invalid_credentials, max_password_bytes, max_identity_key_bytes,
  invalid_pair,
}
use dhcp_lease_observer.Config.Secrets.{Memory, Slice, bytes_of, Held, clear_held}
use dhcp_lease_observer.Config.Secrets.Wiped.{IsWiped}

module _ (memory : Memory) where
  abbrev slice_at : Memory → Bytes → Slice
  slice_at m t = record { array = length m; size = length t }

  abbrev zeros : Bytes → Bytes → Bytes
  zeros t e = replicate (length t) 0 ++ e

  -- Behind the read of the password.
  abbrev found : Bytes → Bytes → Memory
  found p pe = memory ++ (p ++ pe) ∷ []

  module _ (p pe k ke : Bytes) where
    abbrev password : Slice
    password = slice_at memory p

    abbrev identity_key : Slice
    identity_key = slice_at (found p pe) k

    abbrev two : Memory
    two = found p pe ++ (k ++ ke) ∷ []

module _ (password_calls key_calls : OpenCalls) (memory : Memory) where
  -- An array is wiped, or of a file that was too long or could not be read to its end.
  pub data IsLeft (a : Bytes) : Type 0 where
    wiped : IsWiped a → IsLeft a
    password_refused :
        (password_calls.read_fails || ltb max_password_bytes (length a)) ≡ true → IsLeft a
    key_refused : (key_calls.read_fails || ltb max_identity_key_bytes (length a)) ≡ true → IsLeft a

  -- The loading in memory gives what the loading gives; the arrays that it leaves, behind those that
  -- were there, have no credential that was accepted by its read, and none at all behind Clear.
  pub data IsHeld (loaded : Result CredentialsError Credentials)
      (out : Result CredentialsError Held × Memory) : Type 0 where
    none_held :
        (e : CredentialsError) (arrays : List Bytes)
        → loaded ≡ err e
        → out.0 ≡ err e
        → out.1 ≡ memory ++ arrays
        → All IsLeft arrays
        → IsHeld loaded out
    both_held :
        (c : Credentials) (h : Held) (arrays : List Bytes)
        → loaded ≡ ok c
        → out.0 ≡ ok h
        → bytes_of h.password out.1 ≡ c.password
        → bytes_of h.identity_key out.1 ≡ c.identity_key
        → (clear_held (some h) out.1).1 ≡ memory ++ arrays
        → All IsWiped arrays
        → IsHeld loaded out

  -- `LoadCredentials` behind its guard, on what the two reads give.
  abbrev pair_of :
      Result CredentialsError Bytes
      → Result CredentialsError Bytes
      → Result CredentialsError Credentials
  pair_of password identity_key = do
    p ← password
    k ← identity_key
    reject_if (invalid_pair p k) invalid_credentials
    ok (record { password = p; identity_key = k })
