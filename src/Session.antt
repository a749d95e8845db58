-- ===== src/Session.antt =====
-- internal/session/ix2106/session.go: the failures of a session, and the body of a command's output.
pub mod Prompt
pub mod Lines
pub mod Safety
pub mod Failures
pub mod RoundTrip
use dhcp_lease_observer.Prelude.{
  ℕ, suc, Bool, true, false, not, ◌&&◌, Option, none, some, List, [], ◌∷◌, ◌++◌, take, drop,
  nat_beq, Result, ok, err, ◌>>=◌, ◌>>◌, reject_if, ◌==◌, if◌then◌else◌,
}
use dhcp_lease_observer.Text.{Bytes, codes, contains, bytes_eq}
use dhcp_lease_observer.Text.Space.{trim_space, split_lines, join_lines, replace_crlf, to_lower}
use Prompt.{is_config_prompt, is_prompt_like, is_command_echo, is_fixed_command}
use Lines.{first_content_line, last_content_line, line_at}

-- `other` stands for a string that is none of the constants.
pub data FailureKind : Type 0 where
  unexpected_eof timeout authentication authorization host_key_mismatch : FailureKind
  config_occupied pager_detected prompt_mismatch parse command_echo_mismatch : FailureKind
  other : Bytes → FailureKind

-- The strings of the constants.
abbrev pub kind_text : FailureKind → Bytes
kind_text unexpected_eof = codes "unexpected_eof"
kind_text timeout = codes "timeout"
kind_text authentication = codes "authentication_failed"
kind_text authorization = codes "authorization_failed"
kind_text host_key_mismatch = codes "host_key_mismatch"
kind_text config_occupied = codes "config_occupied"
kind_text pager_detected = codes "pager_detected"
kind_text prompt_mismatch = codes "prompt_mismatch"
kind_text parse = codes "parse_failed"
kind_text command_echo_mismatch = codes "command_echo_mismatch"
kind_text (other text) = text

pub data TerminalEvent : Type 0 where
  eof timed_out : TerminalEvent
  other_event : Bytes → TerminalEvent

pub record Failure : Type 0 where
  pub kind : FailureKind
  pub retryable : Bool
  pub command : Bytes

pub record FailureContract : Type 0 where
  pub kind : FailureKind
  pub retryable : Bool
  pub snapshot_usable : Bool
  pub emit_removals : Bool

-- `failureMessages`
unfoldable pub failure_message : FailureKind → Option Bytes
failure_message unexpected_eof =
    some (codes "SSH channel reached EOF before the expected config prompt")
failure_message timeout = some (codes "command deadline expired before the expected config prompt")
failure_message authentication = some (codes "SSH authentication was rejected")
failure_message authorization =
    some (codes "authenticated SSH user is not authorized to run a fixed command")
failure_message host_key_mismatch = some (codes "SSH host key did not match the pinned identity")
failure_message config_occupied =
    some (codes "IX2106 config process is occupied by another session")
failure_message pager_detected = some (codes "pager marker appeared after paging was disabled")
failure_message prompt_mismatch =
    some (codes "session ended at a prompt other than the expected Monitor config prompt")
failure_message parse = some (codes "complete command output did not match the supported schema")
failure_message command_echo_mismatch =
    some (codes "received command echo did not match the fixed command")
failure_message (other text) = none

-- `failure.Error()`
unfoldable pub failure_error : Failure → Bytes
failure_error f = elim (failure_message f.kind) [
  | none ↦ codes "IX2106 session failed"
  | some message ↦ message
]

-- `failure.Contract()`
unfoldable pub contract : Failure → FailureContract
contract f = record {
  kind = f.kind;
  retryable = f.retryable;
  snapshot_usable = false;
  emit_removals = false;
}

abbrev pub retryable_kind : FailureKind → Bool
retryable_kind unexpected_eof = true
retryable_kind timeout = true
retryable_kind config_occupied = true
retryable_kind _ = false

unfoldable pub new_failure : FailureKind → Failure
new_failure kind = record { kind = kind; retryable = retryable_kind kind; command = [] }

pub data SessionError : Type 0 where
  unsupported_kind : FailureKind → SessionError
  command_not_allowed no_error unsupported_event : SessionError

unfoldable pub connection_failure : FailureKind → Result SessionError Failure
connection_failure authentication = ok (new_failure authentication)
connection_failure host_key_mismatch = ok (new_failure host_key_mismatch)
connection_failure kind = err (unsupported_kind kind)

unfoldable pub command_failure : FailureKind → Bytes → Result SessionError Failure
command_failure authorization command = do
  reject_if (not (is_fixed_command command)) command_not_allowed
  ok (record (new_failure authorization) { command = command })
command_failure kind command = err (unsupported_kind kind)

unfoldable pub framing_failure : FailureKind → Result SessionError Failure
framing_failure unexpected_eof = ok (new_failure unexpected_eof)
framing_failure timeout = ok (new_failure timeout)
framing_failure config_occupied = ok (new_failure config_occupied)
framing_failure pager_detected = ok (new_failure pager_detected)
framing_failure prompt_mismatch = ok (new_failure prompt_mismatch)
framing_failure command_echo_mismatch = ok (new_failure command_echo_mismatch)
framing_failure kind = err (unsupported_kind kind)

-- Whether the parser returned an error.
unfoldable pub parser_failure : Bool → Result SessionError Failure
parser_failure true = ok (new_failure parse)
parser_failure false = err no_error

-- An error of `ExtractCompleteCommandBody` is a Failure or a plain error.
pub data ExtractError : Type 0 where
  failed : Failure → ExtractError
  plain : SessionError → ExtractError

abbrev pub fail : FailureKind → Result ExtractError (Unit {0})
fail kind = err (failed (new_failure kind))

abbrev pub fail_if : Bool → FailureKind → Result ExtractError (Unit {0})
fail_if test kind = reject_if test (failed (new_failure kind))

unfoldable pub authorization_rejected : List Bytes → Bool
authorization_rejected lines = elim (first_content_line lines) [
  | none ↦ false
  | some first ↦ elim (last_content_line lines) [
    | none ↦ false
    | some last ↦ nat_beq last first && trim_space (line_at first lines) == codes "?Invalid command"
  ]
]

abbrev remove_at : ℕ → List Bytes → List Bytes
remove_at n lines = take n lines ++ drop (suc n) lines

-- The body without its echo, if a command is expected and its first line is one.
unfoldable pub strip_echo : Bytes → List Bytes → Result ExtractError (List Bytes)
strip_echo [] body = ok body
strip_echo (c ∷ cs) body = elim (first_content_line body) [
  | none ↦ ok body
  | some first ↦
      let echo = trim_space (line_at first body) in
      if echo == c ∷ cs
      then ok (remove_at first body)
      else if is_command_echo echo
      then err (failed (new_failure command_echo_mismatch))
      else ok body
]

abbrev as_extract_error : Result SessionError Failure → ExtractError
as_extract_error (ok failure) = failed failure
as_extract_error (err e) = plain e

-- What follows once the output ends in something like a prompt.
unfoldable pub accept_body : Bytes → Bytes → List Bytes → Result ExtractError Bytes
accept_body expected prompt lines = do
  body ← strip_echo expected lines
  reject_if (authorization_rejected body)
      (as_extract_error (command_failure authorization expected))
  fail_if (not (is_config_prompt prompt)) prompt_mismatch
  ok (join_lines body)

-- What follows if the output has no prompt at its end.
unfoldable pub incomplete : TerminalEvent → Result ExtractError Bytes
incomplete eof = err (failed (new_failure unexpected_eof))
incomplete timed_out = err (failed (new_failure timeout))
incomplete (other_event _) = err (plain unsupported_event)

unfoldable pub frame_body : List Bytes → TerminalEvent → Bytes → Result ExtractError Bytes
frame_body lines event expected = elim (last_content_line lines) [
  | none ↦ incomplete event
  | some last ↦
      let prompt = trim_space (line_at last lines) in
      if is_prompt_like prompt
      then accept_body expected prompt (take last lines)
      else incomplete event
]

-- `ExtractCompleteCommandBody`
unfoldable pub extract : Bytes → TerminalEvent → Bytes → Result ExtractError Bytes
extract transcript event expected = do
  let text = replace_crlf transcript
  fail_if (contains text (codes "--More--")) pager_detected
  fail_if (contains (to_lower text) (codes "config process is occupied")) config_occupied
  frame_body (split_lines text) event expected
