-- ===== src/Tests/Transport.antt =====
-- Two collections over SSH: one to the end, and one to another host.
use dhcp_lease_observer.Prelude.{
  ℕ, suc, zero, ◌≡◌, ◌≢◌, ◌∙◌, refl, sym, ap, List, true, false, some, [], Result, ok, err,
  if◌then◌else◌, inl, inr, Bool-cases, arith,
}
use dhcp_lease_observer.Text
use dhcp_lease_observer.Text.{Bytes, codes, bytes_beq}
use dhcp_lease_observer.Text.Space.{trim_space, split_lines, join_lines, replace_crlf, to_lower}
use dhcp_lease_observer.Base64.{decode, std_value}
use dhcp_lease_observer.Parser.Numbers.{parse_int, magnitude}
use dhcp_lease_observer.Session
use dhcp_lease_observer.Session.Prompt.{
  is_prompt_like, is_config_prompt, is_command_echo, span_label, fold_case,
}
use dhcp_lease_observer.Session.Lines.{first_content_line, last_content_line}
use dhcp_lease_observer.Transport.{
  Config, new_config, config_validate, valid_address, split_host_port, valid_sha256_fingerprint,
  connect_failed, response_limit, transport_failure,
}
use dhcp_lease_observer.Transport.Buffer.{FrameResult, frame, limit, last_content}
use dhcp_lease_observer.Transport.Dial.{
  CallError, ClientConfig, HostKey, Handshake, connected, key_mismatch, DialCalls, pinned_host_key,
  client_config, handshake_result, dial, transport_error,
}
use dhcp_lease_observer.Transport.Dial.Pinned.{VerifiesKeys}
use dhcp_lease_observer.Transport.Collect.{
  Bodies, SessionCalls, next_frame, event_failure, receive, run_command, finish_bodies,
  run_commands, check_initial, open_shell, collect_bodies, check_arguments, collect,
  is_operation_prompt,
}
use dhcp_lease_observer.Transport.Collect.Script.{script, IsScripted, collect-IsScripted}
use dhcp_lease_observer.Transport.Collect.Answers.{
  IsCollected, IsAuthorised, collect_bodies-IsCollected, collect-IsAuthorised,
}
use dhcp_lease_observer.Transport.Connection.{IsClosed, collect_network, collect_network-IsClosed}
use dhcp_lease_observer.Collector.{Env, is_label, classify_error}
use dhcp_lease_observer.Collector.Run.{runner_valid, run}
use dhcp_lease_observer.Collector.Source.{collect_error, source_result}
use dhcp_lease_observer.Collector.Announced.{IsAnnounced, run-IsAnnounced}
use dhcp_lease_observer.Tests.Samples.{noon, checksum}
use dhcp_lease_observer.Tests.Collector.{env, runner, world}

abbrev pub rsa : Bytes
rsa = codes "ssh-rsa"

abbrev pub fingerprint : Bytes
fingerprint = codes "SHA256:AAAAAAAAAAAAAAAAAAAAAAAAAAAAAAAAAAAAAAAAAAA"

abbrev config : Config
config = new_config (codes "192.0.2.1:22") (codes "reader") fingerprint

abbrev key : HostKey
key = record { algorithm = rsa; fingerprint = fingerprint }

-- A library that shows the callback one key.
abbrev pub handshake : ClientConfig → Handshake
handshake c = record {
  key = key;
  end = if c.host_key_callback key then connected else key_mismatch;
  auth_started = true;
}

pub handshake-VerifiesKeys : VerifiesKeys handshake
handshake-VerifiesKeys c h = elim (Bool-cases (c.host_key_callback key)) [
  | inl t ↦ t
  | inr f ↦ absurd (ground (arith, f))
]

abbrev pub dial_calls : DialCalls
dial_calls = record {
  connects = true;
  sets_deadline = true;
  context_over = false;
  clears_deadline = true;
}

abbrev frames : ℕ → FrameResult
frames zero = frame (codes "router%")
frames (suc zero) = frame (codes "configure\nrouter(config)%")
frames (suc (suc zero)) = frame (codes "terminal length 0\nrouter(config)%")
frames (suc (suc (suc zero))) = frame (codes "Leased to 0 clients\nrouter(config)%")
frames _ = limit

abbrev pub calls : SessionCalls
calls = record {
  starts_deadline = true;
  new_session = true;
  opens_input = true;
  requests_pty = true;
  starts_shell = true;
  sets_deadline = λ _. true;
  writes = λ _. true;
  frames = frames;
  now = noon;
}

abbrev password : Bytes
password = codes "secret"

collect-IsScripted_example :
    IsScripted
      (collect rsa handshake dial_calls calls config password).1
      (collect rsa handshake dial_calls calls config password).0
collect-IsScripted_example = collect-IsScripted rsa handshake dial_calls calls config password

-- What a session computes with.
unfoldable pub session_run : SessionCalls → Result CallError Bodies × List Bytes
unfolding collect_bodies run_commands run_command open_shell check_initial next_frame receive
    finish_bodies is_operation_prompt event_failure last_content Session.extract Session.frame_body
    Session.accept_body Session.strip_echo Session.authorization_rejected Session.framing_failure
    Session.new_failure first_content_line last_content_line is_config_prompt is_prompt_like
    is_command_echo fold_case span_label trim_space split_lines join_lines replace_crlf to_lower
    bytes_beq Text.contains Text.has_prefix Text.is_label_byte Text.is_alnum
session_run calls = collect_bodies calls

abbrev bodies : Bodies
bodies = record {
  lease_observed_at = noon;
  lease = codes "Leased to 0 clients";
  arp = [];
  arp_failure = some (transport_error (transport_failure response_limit false));
}

collected : (collect_bodies calls).0 ≡ ok bodies
unfolding session_run
collected = refl

collect_bodies-IsCollected_example : IsCollected calls bodies
collect_bodies-IsCollected_example = collect_bodies-IsCollected calls bodies collected

-- What a whole collection computes with.
unfoldable pub collect_run : DialCalls → Result CallError Bodies × List Bytes
unfolding session_run collect check_arguments dial client_config pinned_host_key handshake_result
    Session.connection_failure config_validate new_config valid_address split_host_port
    valid_sha256_fingerprint decode std_value parse_int magnitude
collect_run dial_calls = collect rsa handshake dial_calls calls config password

sent : (collect rsa handshake dial_calls calls config password).1 ≡ script
unfolding collect_run
sent = refl

script-ne-empty : script ≢ []
script-ne-empty h = cc

sends : (collect rsa handshake dial_calls calls config password).1 ≢ []
sends h = script-ne-empty (sym sent ∙ h)

collect-IsAuthorised_example : IsAuthorised rsa config password key calls
collect-IsAuthorised_example =
    collect-IsAuthorised rsa handshake handshake-VerifiesKeys dial_calls calls config password sends

abbrev unreachable : DialCalls
unreachable = record dial_calls { connects = false }

abbrev failure : CallError
failure = transport_error (transport_failure connect_failed true)

fails : (collect rsa handshake unreachable calls config password).0 ≡ err failure
unfolding collect_run
fails = refl

abbrev failing : Env
failing = record env { collected = source_result (err failure) }

runner_ok : runner_valid runner ≡ true
unfolding runner_valid is_label Text.is_label_byte Text.is_alnum
runner_ok = refl

run-IsAnnounced_example :
    IsAnnounced runner
      (classify_error (collect_error failure))
      world
      (run checksum failing runner world)
run-IsAnnounced_example =
    run-IsAnnounced failing runner runner_ok (λ _. refl) (λ _. refl) checksum rsa handshake
      unreachable calls config password failure world fails (ap source_result (sym fails)) (λ h. cc)

collect_network-IsClosed_example :
    IsClosed rsa handshake true dial_calls calls config password
      (collect_network rsa handshake true dial_calls calls config password)
collect_network-IsClosed_example =
    collect_network-IsClosed rsa handshake true dial_calls calls config password refl
