-- ===== src/Tests/App.antt =====
-- A start with a configuration and credentials, and one with a wrong option.
use dhcp_lease_observer.Prelude.{
  ◌≡◌, refl, true, none, some, [], ◌∷◌, Result, ok, pos, replicate, wrap64, scale,
}
use dhcp_lease_observer.Text
use dhcp_lease_observer.Text.{Bytes, codes, bytes_beq, is_empty, has_prefix}
use dhcp_lease_observer.Text.Path.{
  path_parts, enter, resolve, join_parts, clean, is_abs, is_clean_absolute, join_path,
}
use dhcp_lease_observer.Base64.{decode, std_value}
use dhcp_lease_observer.Parser.Numbers.{parse_int, magnitude}
use dhcp_lease_observer.Clock.{seconds}
use dhcp_lease_observer.Files.{Disk, put}
use dhcp_lease_observer.AtomicFile.{file_of}
use dhcp_lease_observer.SafeFile.{open_regular}
use dhcp_lease_observer.Collector.{unchanged}
use dhcp_lease_observer.Transport.{
  config_validate, valid_address, split_host_port, valid_sha256_fingerprint,
}
use dhcp_lease_observer.Config
use dhcp_lease_observer.Config.{
  Config, ConfigError, validate, valid_label, valid_timeout, has_suffix, valid_absolute_path,
  transport, parse_config,
}
use dhcp_lease_observer.Config.Usable.{IsUsable, validate-IsUsable}
use dhcp_lease_observer.Config.Credentials.{
  Credentials, load_credentials, read_credential, parse_credential, trim_last, holds_byte,
  holds_line_end, invalid_pair,
}
use dhcp_lease_observer.Config.Accepted.{IsAccepted, load_credentials-IsAccepted}
use dhcp_lease_observer.App.{Machine, run}
use dhcp_lease_observer.App.Ready.{IsReady, start-IsReady}
use dhcp_lease_observer.App.Refused.{IsKept, run-IsKept}
use dhcp_lease_observer.Tests.Samples.{checksum, noon}
use dhcp_lease_observer.Tests.Files
use dhcp_lease_observer.Tests.Transport
use dhcp_lease_observer.Tests.Transport.{rsa, fingerprint, handshake, dial_calls}
use dhcp_lease_observer.Tests.Collector.{world}

abbrev pub config : Config
config = record {
  schema_version = pos 1;
  source_instance = codes "router";
  scope = codes "lan";
  collection_timeout_seconds = pos 30;
  ix2106 = record {
    address = codes "192.0.2.1:22";
    username = codes "reader";
    host_key_sha256 = fingerprint;
    connect_timeout_seconds = pos 5;
    handshake_timeout_seconds = pos 10;
    auth_timeout_seconds = pos 5;
    command_timeout_seconds = pos 10;
    max_frame_bytes = pos 4096;
  };
  state_path = codes "/s.json";
  prometheus_path = codes "/m.prom";
}

-- What a run of `Validate` computes with.
unfoldable pub validate_run : Config → Result ConfigError (Unit {0})
unfolding wrap64 scale validate valid_label valid_timeout has_suffix valid_absolute_path seconds
    transport config_validate valid_address split_host_port valid_sha256_fingerprint decode
    std_value parse_int magnitude path_parts enter resolve join_parts clean is_abs is_clean_absolute
    bytes_beq has_prefix Text.is_label_byte Text.is_alnum
validate_run c = validate c

accepted : validate config ≡ ok tt
unfolding validate_run
accepted = refl

validate-IsUsable_example : IsUsable config
validate-IsUsable_example = validate-IsUsable config accepted

abbrev pub directory : Bytes
directory = codes "/d"

abbrev key : Bytes
key = replicate 32 107

abbrev disk : Disk
disk = put (codes "/c.json") (some (file_of 384 (codes "{}"))) (
    put (codes "/d/ix2106-password") (some (file_of 256 (codes "secret\n")))
      (put (codes "/d/identity-key") (some (file_of 256 key)) (λ _. none)))

abbrev pub machine : Machine
machine = record {
  config_codec = record { decode = λ _. some (config, []); at_end = is_empty };
  state_codec = Files.codec;
  config_calls = Files.opened;
  password_calls = Files.opened;
  key_calls = Files.opened;
  state_calls = Files.opened;
  disk = disk;
  started = noon;
  now = λ _. noon;
  sink = λ _. true;
  dial_calls = dial_calls;
  session_calls = Transport.calls;
  state_write = unchanged;
  metrics_write = unchanged;
}

abbrev pub credentials : Credentials
credentials = record { password = codes "secret"; identity_key = key }

pub loads : load_credentials Files.opened Files.opened disk directory ≡ ok credentials
unfolding load_credentials read_credential parse_credential trim_last holds_byte holds_line_end
    invalid_pair open_regular put bytes_beq path_parts enter resolve join_parts clean is_abs
    is_clean_absolute join_path has_prefix
loads = refl

load_credentials-IsAccepted_example : IsAccepted credentials
load_credentials-IsAccepted_example =
    load_credentials-IsAccepted Files.opened Files.opened disk directory credentials loads

pub configured :
    Config.load machine.config_codec machine.config_calls (codes "/c.json") disk ≡ ok config
unfolding Config.load parse_config open_regular put bytes_beq validate_run
configured = refl

start-IsReady_example : IsReady checksum rsa handshake machine config credentials world
start-IsReady_example =
    start-IsReady checksum rsa handshake machine (codes "/c.json") directory config credentials
      world configured loads

run-IsKept_example : IsKept world (run checksum rsa handshake machine (codes "-version" ∷ []) world)
run-IsKept_example = run-IsKept checksum rsa handshake machine world (codes "-version" ∷ [])
