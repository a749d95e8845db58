-- ===== src/Config.antt =====
-- internal/config/config.go: the configuration file and the credentials. Package encoding/json is a
-- parameter.
pub mod Credentials
pub mod Usable
pub mod Accepted
pub mod Secrets
use dhcp_lease_observer.Prelude.{
  ℕ, ◌+◌, ◌*◌, ◌^◌, Bool, true, false, not, ◌&&◌, ◌||◌, Option, none, some, [], ◌∷◌, take, length,
  leb, Result, Validation, ok, err, ◌>>=◌, ◌>>◌, reject_if, wrap_err, ℤ, pos, scale, wrap64, leb_ℤ,
  ltb_ℤ, eqb_ℤ, ◌==◌, if◌then◌else◌,
}
use dhcp_lease_observer.Text.{Bytes, codes, is_empty, bytes_eq, is_label_byte, one_or_more}
use dhcp_lease_observer.Text.Path.{is_clean_absolute}
use dhcp_lease_observer.Clock.{seconds}
use dhcp_lease_observer.Files.{Disk}
use dhcp_lease_observer.SafeFile.{OpenCalls, OpenError, unsafe_file, open_regular}
use dhcp_lease_observer.Transport
use dhcp_lease_observer.Transport.{TransportError, default_max_frame_bytes}

-- `IX2106`
pub record Ix2106 : Type 0 where
  pub address : Bytes
  pub username : Bytes
  pub host_key_sha256 : Bytes
  pub connect_timeout_seconds : ℤ
  pub handshake_timeout_seconds : ℤ
  pub auth_timeout_seconds : ℤ
  pub command_timeout_seconds : ℤ
  pub max_frame_bytes : ℤ

pub record Config : Type 0 where
  pub schema_version : ℤ
  pub source_instance : Bytes
  pub scope : Bytes
  pub collection_timeout_seconds : ℤ
  pub ix2106 : Ix2106
  pub state_path : Bytes
  pub prometheus_path : Bytes

abbrev pub max_config_bytes : ℕ
max_config_bytes = 64 * 2 ^ 10

pub data ConfigError : Type 0 where
  invalid_config : ConfigError
  open_error : OpenError → ConfigError

-- `validLabel`
unfoldable pub valid_label : Bytes → Bool
valid_label value =
    not (is_empty value) && leb (length value) 128 && one_or_more is_label_byte value

-- `validTimeout`
unfoldable pub valid_timeout : ℤ → ℤ → Bool
valid_timeout value overall = leb_ℤ (pos 1) value && leb_ℤ value (pos 60) && leb_ℤ value overall

-- `strings.HasSuffix` behind the test of the path.
unfoldable pub has_suffix : Bytes → Bytes → Bool
has_suffix [] suffix = [] == suffix
has_suffix (c ∷ s) suffix = (c ∷ s) == suffix || has_suffix s suffix

-- `validAbsolutePath`
unfoldable pub valid_absolute_path : Bytes → Bytes → Bool
valid_absolute_path path extension = is_clean_absolute path && has_suffix path extension

-- `config.CollectionTimeout()`
unfoldable pub collection_timeout : Config → ℤ
collection_timeout c = seconds c.collection_timeout_seconds

-- `config.Transport()`
unfoldable pub transport : Config → Transport.Config
transport c = record {
  address = c.ix2106.address;
  username = c.ix2106.username;
  host_key_sha256 = c.ix2106.host_key_sha256;
  connect_timeout = seconds c.ix2106.connect_timeout_seconds;
  handshake_timeout = seconds c.ix2106.handshake_timeout_seconds;
  auth_timeout = seconds c.ix2106.auth_timeout_seconds;
  command_timeout = seconds c.ix2106.command_timeout_seconds;
  max_frame_bytes = c.ix2106.max_frame_bytes;
}

abbrev as_invalid : TransportError → ConfigError
as_invalid e = invalid_config

-- The tests of `config.Validate()`.
abbrev pub names_invalid : Config → Bool
names_invalid c =
    not (eqb_ℤ c.schema_version (pos 1))
    || not (valid_label c.source_instance)
    || not (valid_label c.scope)

abbrev pub overall_invalid : Config → Bool
overall_invalid c =
    ltb_ℤ c.collection_timeout_seconds (pos 1) || ltb_ℤ (pos 300) c.collection_timeout_seconds

abbrev pub timeouts_invalid : Config → Bool
timeouts_invalid c =
    not (valid_timeout c.ix2106.connect_timeout_seconds c.collection_timeout_seconds)
    || not (valid_timeout c.ix2106.handshake_timeout_seconds c.collection_timeout_seconds)
    || not (valid_timeout c.ix2106.auth_timeout_seconds c.collection_timeout_seconds)
    || not (valid_timeout c.ix2106.command_timeout_seconds c.collection_timeout_seconds)

abbrev pub frame_limit_invalid : Config → Bool
frame_limit_invalid c =
    ltb_ℤ c.ix2106.max_frame_bytes (pos 4096)
    || ltb_ℤ (pos default_max_frame_bytes) c.ix2106.max_frame_bytes

abbrev pub paths_invalid : Config → Bool
paths_invalid c =
    not (valid_absolute_path c.state_path (codes ".json"))
    || not (valid_absolute_path c.prometheus_path (codes ".prom"))
    || c.state_path == c.prometheus_path

-- `config.Validate()`
unfoldable pub validate : Config → Validation ConfigError
validate c = do
  reject_if (names_invalid c) invalid_config
  reject_if (overall_invalid c) invalid_config
  reject_if (timeouts_invalid c) invalid_config
  reject_if (frame_limit_invalid c) invalid_config
  reject_if (paths_invalid c) invalid_config
  wrap_err as_invalid (Transport.config_validate (transport c))

-- `Decode` of a text into a configuration and what is not read yet, with unknown fields refused, and
-- whether a second `Decode` reports the end.
pub record Codec : Type 0 where
  pub decode : Bytes → Option (Config × Bytes)
  pub at_end : Bytes → Bool

-- `Load` on the content of the file.
unfoldable pub parse_config : Codec → OpenCalls → Bytes → Result ConfigError Config
parse_config codec calls content =
    if calls.read_fails
    then err invalid_config
    else elim (codec.decode (take (max_config_bytes + 1) content)) [
      | none ↦ err invalid_config
      | some (c, rest) ↦ do reject_if (not (codec.at_end rest)) invalid_config; validate c; ok c
    ]

-- `Load`, which refuses the permission bits 0o022.
unfoldable pub load : Codec → OpenCalls → Bytes → Disk → Result ConfigError Config
load codec calls path disk = elim (open_regular calls disk path 18 max_config_bytes) [
  | err unsafe_file ↦ err invalid_config
  | err e ↦ err (open_error e)
  | ok content ↦ parse_config codec calls content
]
