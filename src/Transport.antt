-- ===== src/Transport.antt =====
-- internal/transport/ix2106/transport.go: the configuration and the errors of the SSH transport.
pub mod Buffer
pub mod Dial
pub mod Collect
pub mod Connection
use dhcp_lease_observer.Prelude.{
  ℕ, suc, ◌+◌, ◌*◌, ◌^◌, Bool, true, false, not, ◌&&◌, ◌||◌, Option, none, some, List, [], ◌∷◌,
  ◌++◌, drop, length, nat_beq, Result, Validation, ok, err, ◌>>=◌, ◌>>◌, reject_if, ℤ, pos, leb_ℤ,
  ltb_ℤ, if◌then◌else◌,
}
use dhcp_lease_observer.Text.{Bytes, codes, is_empty, has_prefix, is_label_byte, one_or_more}
use dhcp_lease_observer.Base64.{decode, std_value}
use dhcp_lease_observer.Clock.{nanoseconds}
use dhcp_lease_observer.Parser.Numbers.{parse_int}

pub data ErrorKind : Type 0 where
  invalid_config connect_failed handshake_failed handshake_timeout : ErrorKind
  authentication_timeout session_failed response_limit : ErrorKind

-- The strings of the constants.
abbrev pub error_text : ErrorKind → Bytes
error_text invalid_config = codes "invalid_config"
error_text connect_failed = codes "connect_failed"
error_text handshake_failed = codes "handshake_failed"
error_text handshake_timeout = codes "handshake_timeout"
error_text authentication_timeout = codes "authentication_timeout"
error_text session_failed = codes "session_failed"
error_text response_limit = codes "response_limit_exceeded"

pub record TransportError : Type 0 where
  pub kind : ErrorKind
  pub retryable : Bool

-- `transportErrorMessages`, which has every kind.
unfoldable pub transport_message : ErrorKind → Bytes
transport_message invalid_config = codes "IX2106 SSH transport configuration is invalid"
transport_message connect_failed = codes "TCP connection to IX2106 failed"
transport_message handshake_failed = codes "SSH handshake with IX2106 failed"
transport_message handshake_timeout = codes "SSH handshake deadline expired"
transport_message authentication_timeout = codes "SSH authentication deadline expired"
transport_message session_failed = codes "IX2106 SSH shell session failed"
transport_message response_limit = codes "IX2106 command response exceeded the configured limit"

-- `transportError.Error()`
unfoldable pub transport_text : TransportError → Bytes
transport_text e = transport_message e.kind

abbrev pub transport_failure : ErrorKind → Bool → TransportError
transport_failure kind retryable = record { kind = kind; retryable = retryable }

pub record Config : Type 0 where
  pub address : Bytes
  pub username : Bytes
  pub host_key_sha256 : Bytes
  pub connect_timeout : ℤ
  pub handshake_timeout : ℤ
  pub auth_timeout : ℤ
  pub command_timeout : ℤ
  pub max_frame_bytes : ℤ

abbrev pub default_max_frame_bytes : ℕ
default_max_frame_bytes = 2 ^ 20

-- `NewConfig`, with the default timeouts.
unfoldable pub new_config : Bytes → Bytes → Bytes → Config
new_config address username host_key_sha256 = record {
  address = address;
  username = username;
  host_key_sha256 = host_key_sha256;
  connect_timeout = pos (5 * nanoseconds);
  handshake_timeout = pos (10 * nanoseconds);
  auth_timeout = pos (5 * nanoseconds);
  command_timeout = pos (10 * nanoseconds);
  max_frame_bytes = pos default_max_frame_bytes;
}

-- The parts before and behind the last, or the first, of a byte.
unfoldable pub split_last : ℕ → Bytes → Option (Bytes × Bytes)
split_last c [] = none
split_last c (d ∷ s) = elim (split_last c s) [
  | none ↦ if nat_beq c d then some ([], s) else none
  | some (a, b) ↦ some (d ∷ a, b)
]

unfoldable pub split_first : ℕ → Bytes → Option (Bytes × Bytes)
split_first c [] = none
split_first c (d ∷ s) =
    let later : Option (Bytes × Bytes) = elim (split_first c s) [
      | none ↦ none
      | some (a, b) ↦ some (d ∷ a, b)
    ] in
    if nat_beq c d then some ([], s) else later

unfoldable pub has_byte : ℕ → Bytes → Bool
has_byte c [] = false
has_byte c (d ∷ s) = nat_beq c d || has_byte c s

-- `[host]:port`: the colon behind the bracket is the last one.
unfoldable pub split_bracketed : Bytes → Bytes → Bytes → Option (Bytes × Bytes)
split_bracketed s before port = elim (split_first b']' s) [
  | none ↦ none
  | some (opened, rest) ↦
      if not (nat_beq (length before) (length opened + 1))
        || has_byte b'[' (drop 1 s)
        || has_byte b']' rest
      then none
      else some (drop 1 opened, port)
]

-- `net.SplitHostPort`
unfoldable pub split_host_port : Bytes → Option (Bytes × Bytes)
unfolding split_last split_first has_byte split_bracketed
split_host_port s = elim (split_last b':' s) [
  | none ↦ none
  | some (before, port) ↦
      if has_prefix s (codes "[")
      then split_bracketed s before port
      else if has_byte b':' before || has_byte b'[' s || has_byte b']' s
      then none
      else some (before, port)
]

-- `validSHA256Fingerprint`
unfoldable pub valid_sha256_fingerprint : Bytes → Bool
valid_sha256_fingerprint value =
    has_prefix value (codes "SHA256:") && elim (decode std_value (drop 7 value)) as (λ _. Bool) [
      | none ↦ false
      | some digest ↦ nat_beq (length digest) 32
    ]

-- `^[A-Za-z0-9._-]+$`
abbrev pub username_pattern : Bytes → Bool
username_pattern = one_or_more is_label_byte

-- The address: a host, and a port between 1 and 65535.
unfoldable pub valid_address : Bytes → Bool
valid_address address = elim (split_host_port address) [
  | none ↦ false
  | some (host, port) ↦
      not (is_empty host) && not (is_empty port) && elim (parse_int port) as (λ _. Bool) [
        | none ↦ false
        | some n ↦ not (ltb_ℤ n (pos 1)) && not (ltb_ℤ (pos 65535) n)
      ]
]

abbrev invalid : TransportError
invalid = transport_failure invalid_config false

-- `config.Validate()`
unfoldable pub config_validate : Config → Validation TransportError
config_validate c = do
  reject_if (not (valid_address c.address)) invalid
  reject_if (not (username_pattern c.username)) invalid
  reject_if (not (valid_sha256_fingerprint c.host_key_sha256)) invalid
  reject_if
      (leb_ℤ c.connect_timeout (pos 0)
        || leb_ℤ c.handshake_timeout (pos 0)
        || leb_ℤ c.auth_timeout (pos 0)
        || leb_ℤ c.command_timeout (pos 0))
      invalid
  reject_if
      (leb_ℤ c.max_frame_bytes (pos 0) || ltb_ℤ (pos default_max_frame_bytes) c.max_frame_bytes)
      invalid
