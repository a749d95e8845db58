-- ===== src/Tests/Observed.antt =====
-- A start of the program that ends well.
use dhcp_lease_observer.Prelude.{ℕ, zero, suc, ◌≡◌, refl, [], ◌∷◌, List}
use dhcp_lease_observer.Text.{Bytes, codes}
use dhcp_lease_observer.Text.Path.{join_path}
use dhcp_lease_observer.SafeFile.{open_regular}
use dhcp_lease_observer.Files.{put}
use dhcp_lease_observer.Config
use dhcp_lease_observer.Config.{parse_config}
use dhcp_lease_observer.Config.Credentials.{
  load_credentials, read_credential, parse_credential, trim_last, holds_byte, holds_line_end,
  invalid_pair,
}
use dhcp_lease_observer.State.Store
use dhcp_lease_observer.State.Store.{parse_state}
use dhcp_lease_observer.Identity.{new_generator}
use dhcp_lease_observer.Collector.{replaced}
use dhcp_lease_observer.Collector.Files.{load_previous}
use dhcp_lease_observer.Collector.Source.{collect_error}
use dhcp_lease_observer.App.Flags.{
  apply_flag, cut_equals, flag_named, parse_bool, parse_flags, read_argument, read_name,
}
use dhcp_lease_observer.App
use dhcp_lease_observer.App.{
  Machine, Ended, env_of, exit_of, refuse, run_flags, run_options, runner_of, start, start_with,
  valid_option_form,
}
use dhcp_lease_observer.App.Observed.{IsObserved, run-IsObserved}
use dhcp_lease_observer.Transport.Buffer.{FrameResult, frame, limit}
use dhcp_lease_observer.Tests.Samples.{checksum}
use dhcp_lease_observer.Tests.Transport.{calls, rsa, handshake, handshake-VerifiesKeys, collect_run}
use dhcp_lease_observer.Tests.Collector.{world}
use dhcp_lease_observer.Tests.Whole.{run_of}
use dhcp_lease_observer.Tests.App.{validate_run}
use dhcp_lease_observer.Tests.App as Samples

abbrev frames : ℕ → FrameResult
frames zero = frame (codes "router%")
frames (suc zero) = frame (codes "configure\nrouter(config)%")
frames (suc (suc zero)) = frame (codes "terminal length 0\nrouter(config)%")
frames (suc (suc (suc zero))) = frame (
    codes
      "show ip dhcp lease\nLeased to 1 clients\nCodes : D - Dynamic assignments, F - Fixed assignments\nIP Address      MAC Address       BoundTime LeaseTime State     Profile\nD 192.0.2.10 02:00:00:ab:cd:01 60 3600 Bound lan\nrouter(config)%")
frames _ = limit

-- A machine whose device has one lease, and no answer to the ARP command.
abbrev machine : Machine
machine = record Samples.machine {
  session_calls = record calls { frames = frames };
  state_write = replaced;
  metrics_write = replaced;
}

abbrev args : List Bytes
args = codes "--config=/c.json" ∷ codes "--credentials-dir=/d" ∷ []

-- What a start computes with.
ended_of : Machine → Ended
unfolding run_of collect_run validate_run join_path open_regular put parse_config load_credentials
    read_credential parse_credential trim_last holds_byte holds_line_end invalid_pair parse_state
    new_generator load_previous collect_error apply_flag cut_equals flag_named parse_bool
    parse_flags read_argument read_name env_of exit_of refuse run_flags run_options runner_of start
    start_with valid_option_form App.run Config.load Store.load
ended_of m = App.run checksum rsa handshake m args world

ends_well : (App.run checksum rsa handshake machine args world).exit ≡ 0
unfolding ended_of
ends_well = refl

ends_silent : (App.run checksum rsa handshake machine args world).messages ≡ []
unfolding ended_of
ends_silent = refl

run-IsObserved_example :
    IsObserved checksum rsa handshake handshake-VerifiesKeys machine args world
      (App.run checksum rsa handshake machine args world).world
run-IsObserved_example =
    run-IsObserved checksum rsa handshake handshake-VerifiesKeys machine args world ends_well
      ends_silent
