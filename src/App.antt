-- ===== src/App.antt =====
-- internal/app/app.go: one start of the program, from its arguments to its exit status. What it
-- meets outside is the record Machine; the texts that it prints are the data type Message.
pub mod Flags
pub mod Ready
pub mod Refused
pub mod Observed
use dhcp_lease_observer.Prelude.{
  ℕ, Bool, true, false, not, ◌&&◌, ◌||◌, none, some, List, [], ◌∷◌, Result, ok, err, pos, ◌==◌,
  if◌then◌else◌,
}
use dhcp_lease_observer.Text.{Bytes, codes, is_empty, has_prefix, bytes_eq}
use dhcp_lease_observer.Text.Path.{is_clean_absolute}
use dhcp_lease_observer.Clock.{Time, utc}
use dhcp_lease_observer.Files.{Disk}
use dhcp_lease_observer.SafeFile.{OpenCalls}
use dhcp_lease_observer.Identity.{Generator, new_generator}
use dhcp_lease_observer.State.Store
use dhcp_lease_observer.Config
use dhcp_lease_observer.Config.{Config}
use dhcp_lease_observer.Config.Credentials.{Credentials, load_credentials}
use dhcp_lease_observer.Transport.Dial.{ClientConfig, Handshake, DialCalls}
use dhcp_lease_observer.Transport.Collect.{SessionCalls, collect}
use dhcp_lease_observer.Output.{Sink, StartupFailureEvent, write_startup_failure_event}
use dhcp_lease_observer.Collector.{Env, World, WriteOutcome, Runner, Failure, RunResult, succeeded}
use dhcp_lease_observer.Collector.Files.{load_previous}
use dhcp_lease_observer.Collector.Source.{source_result}
use dhcp_lease_observer.Collector.Run
use Flags.{Options, FlagsError, help, bad_flags, default_options, parse_flags}

pub data Message : Type 0 where
  invalid_form usage positional version_text configuration_valid log_failed : Message

-- What a start leaves: its exit status, what it changed, and its messages.
pub record Ended : Type 0 where
  pub exit : ℕ
  pub world : World
  pub messages : List Message

-- What a start meets: the codecs of the two files, the calls that open the files, the disk, the
-- clock, the log's writer, and what the network and the writes of a run give.
pub record Machine : Type 0 where
  pub config_codec : Config.Codec
  pub state_codec : Store.Codec
  pub config_calls : OpenCalls
  pub password_calls : OpenCalls
  pub key_calls : OpenCalls
  pub state_calls : OpenCalls
  pub disk : Disk
  pub started : Time
  pub now : ℕ → Time
  pub sink : Sink
  pub dial_calls : DialCalls
  pub session_calls : SessionCalls
  pub state_write : WriteOutcome
  pub metrics_write : WriteOutcome

abbrev pub source_name : Bytes
source_name = codes "ix2106_cli"

abbrev pub exit_success : ℕ
exit_success = 0

abbrev pub exit_failure : ℕ
exit_failure = 1

abbrev pub exit_usage : ℕ
exit_usage = 2

-- `validateOptionForm`
unfoldable pub valid_option_form : List Bytes → Bool
valid_option_form [] = true
valid_option_form (a ∷ args) =
    a == codes "--"
    || ((a == codes "-h" || not (has_prefix a (codes "-")) || has_prefix a (codes "--"))
        && valid_option_form args)

abbrev pub startup_failure : Time → Bytes → Bytes → Bytes → StartupFailureEvent
startup_failure at source source_instance class = record {
  version = pos 1;
  observed_at = utc at;
  event = codes "collector_start_failed";
  severity = codes "error";
  source = source;
  source_instance = source_instance;
  failure_class = class;
  retryable = false;
}

-- `writeStartupFailure`, and the exit behind it.
unfoldable pub refuse : Machine → Bytes → Bytes → Bytes → World → Ended
refuse machine source source_instance class w =
    let (result, log) =
      write_startup_failure_event machine.sink
        (startup_failure machine.started source source_instance class) w.log in
    record {
      exit = exit_usage;
      world = record w { log = log };
      messages = (if succeeded result then [] else log_failed ∷ []);
    }

-- The runner of `Run`; its source, its writer and its clock are there.
unfoldable pub runner_of : Config → Generator → Runner
runner_of c g = record {
  complete = not (is_empty c.state_path) && not (is_empty c.prometheus_path);
  identity = some g;
  source_name = source_name;
  source_instance = c.source_instance;
  scope = c.scope;
}

-- The exit of `Run` by what the runner gives.
unfoldable pub exit_of : Result Failure RunResult × World → Ended
exit_of (ok r, w) = record { exit = exit_success; world = w; messages = [] }
exit_of (err f, w) = record {
  exit = exit_failure;
  world = w;
  messages = (if f.kind == codes "event_output_failed" then log_failed ∷ [] else []);
}

module _ (hmac : Bytes → Bytes → Bytes) (rsa : Bytes) (handshake : ClientConfig → Handshake) where
  -- What the runner meets.
  unfoldable pub env_of : Machine → Config → Credentials → Env
  env_of machine c credentials = record {
    load = load_previous machine.state_codec machine.state_calls c.state_path machine.disk;
    collected =
        source_result
          (collect rsa handshake machine.dial_calls machine.session_calls (Config.transport c)
            credentials.password).0;
    now = machine.now;
    sink = machine.sink;
    state_write = machine.state_write;
    metrics_write = machine.metrics_write;
  }

  -- `Run` from the credentials on.
  unfoldable pub start : Machine → Config → Credentials → World → Ended
  start machine c credentials w = elim (new_generator credentials.identity_key) [
    | err _ ↦ refuse machine source_name c.source_instance (codes "identity_key_invalid") w
    | ok g ↦ exit_of (Run.run hmac (env_of machine c credentials) (runner_of c g) w)
  ]

  -- `Run` from the configuration on.
  unfoldable pub start_with : Machine → Bytes → Config → World → Ended
  start_with machine directory c w =
      if not (is_clean_absolute directory)
      then refuse machine source_name c.source_instance (codes "credentials_invalid") w
      else elim (load_credentials machine.password_calls machine.key_calls machine.disk directory) [
        | err _ ↦ refuse machine source_name c.source_instance (codes "credentials_invalid") w
        | ok credentials ↦ start machine c credentials w
      ]

  -- `Run` from the options on.
  unfoldable pub run_options : Machine → Options → World → Ended
  run_options machine o w =
      if o.show_version
      then record { exit = exit_success; world = w; messages = version_text ∷ [] }
      else elim (Config.load machine.config_codec machine.config_calls o.config_path machine.disk) [
        | err _ ↦ refuse machine [] [] (codes "configuration_invalid") w
        | ok c ↦
            if o.check_config
            then record { exit = exit_success; world = w; messages = configuration_valid ∷ [] }
            else start_with machine o.credentials_directory c w
      ]

  -- What follows the flags.
  unfoldable pub run_flags : Machine → Result FlagsError (Options × List Bytes) → World → Ended
  run_flags machine (err help) w = record { exit = exit_success; world = w; messages = usage ∷ [] }
  run_flags machine (err bad_flags) w = record {
    exit = exit_usage;
    world = w;
    messages = usage ∷ [];
  }
  run_flags machine (ok (o, a ∷ args)) w = record {
    exit = exit_usage;
    world = w;
    messages = positional ∷ [];
  }
  run_flags machine (ok (o, [])) w = run_options machine o w

  -- `Run`
  unfoldable pub run : Machine → List Bytes → World → Ended
  run machine args w =
      if not (valid_option_form args)
      then record { exit = exit_usage; world = w; messages = invalid_form ∷ [] }
      else run_flags machine (parse_flags none args default_options) w
