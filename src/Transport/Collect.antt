-- ===== src/Transport/Collect.antt =====
-- Collect, collect, runCommand and nextFrame of internal/transport/ix2106/transport.go. What the
-- calls give (the deadlines, the writes, the frames of the output buffer) is the record
-- SessionCalls; the lines given to the shell's input are part of the result.
pub mod Script
pub mod Answers
pub mod Failures
use dhcp_lease_observer.Prelude.{
  ℕ, Bool, true, false, not, ◌&&◌, ◌==◌, Option, none, some, List, [], ◌∷◌, ◌++◌, Result, ok, err,
  ◌>>=◌, ◌>>◌, reject_if, wrap_err, if◌then◌else◌,
}
use dhcp_lease_observer.Text.{Bytes, codes, is_empty, bytes_eq}
use dhcp_lease_observer.Clock.{Time, utc}
use dhcp_lease_observer.Session
use dhcp_lease_observer.Session.Prompt.{span_label}
use dhcp_lease_observer.Transport.{
  Config, transport_failure, invalid_config, session_failed, response_limit, config_validate,
}
use dhcp_lease_observer.Transport.Buffer.{FrameResult, frame, ended, timed_out, limit, last_content}
use dhcp_lease_observer.Transport.Dial.{
  CallError, session_failure, transport_error, plain_error, failure_of, transport_fault,
  ClientConfig, Handshake, DialCalls, dial,
}

abbrev pub command_configure : Bytes
command_configure = codes "configure"

abbrev pub command_pager_off : Bytes
command_pager_off = codes "terminal length 0"

abbrev pub command_lease : Bytes
command_lease = codes "show ip dhcp lease"

abbrev pub command_arp : Bytes
command_arp = codes "show arp entry"

abbrev pub command_exit : Bytes
command_exit = codes "exit"

-- `commandBodies`
pub record Bodies : Type 0 where
  pub lease_observed_at : Time
  pub lease : Bytes
  pub arp : Bytes
  pub arp_failure : Option CallError

-- What the calls of a session give: whether a deadline can be set for it, whether the session, its
-- input, its terminal and its shell start, and, for the first frame and for each command from 1 on,
-- whether its deadline can be set and its line written, and what the output buffer's nextFrame gives.
pub record SessionCalls : Type 0 where
  pub starts_deadline : Bool
  pub new_session : Bool
  pub opens_input : Bool
  pub requests_pty : Bool
  pub starts_shell : Bool
  pub sets_deadline : ℕ → Bool
  pub writes : ℕ → Bool
  pub frames : ℕ → FrameResult
  pub now : Time

-- `^[A-Za-z0-9._-]+%$`
unfoldable pub is_operation_prompt : Bytes → Bool
is_operation_prompt s = let (name, rest) = span_label s in not (is_empty name) && rest == codes "%"

abbrev pub no_event : Session.TerminalEvent
no_event = Session.other_event []

-- `client.nextFrame`
unfoldable pub next_frame : FrameResult → Result CallError (Bytes × Session.TerminalEvent)
next_frame (frame d) = ok (d, no_event)
next_frame limit = transport_fault (transport_failure response_limit false)
next_frame (timed_out d) = ok (d, Session.timed_out)
next_frame (ended d) = ok (d, Session.eof)

-- `eventFailure`
unfoldable pub event_failure : Session.TerminalEvent → Session.FailureKind
event_failure Session.timed_out = Session.timeout
event_failure Session.eof = Session.unexpected_eof
event_failure (Session.other_event e) = Session.unexpected_eof

abbrev pub session_fault {ℓ} : {A : Type ℓ} → Bool → Result CallError A
session_fault retryable = transport_fault (transport_failure session_failed retryable)

abbrev pub extract_error : Session.ExtractError → CallError
extract_error (Session.failed f) = session_failure f
extract_error (Session.plain e) = plain_error e

-- The end of `runCommand`, on a frame.
unfoldable pub receive : Bytes → FrameResult → Result CallError Bytes
receive command result = do
  (transcript, event) ← next_frame result
  wrap_err extract_error (Session.extract transcript event command)

abbrev line_of : Bytes → Bytes
line_of command = command ++ codes "\n"

-- `runCommand` for the `n`th command, and the lines sent so far.
unfoldable pub run_command :
    SessionCalls → ℕ → Bytes → List Bytes → Result CallError Bytes × List Bytes
run_command calls n command sent =
    if not (calls.sets_deadline n)
    then (session_fault true, sent)
    else if not (calls.writes n)
    then (session_fault true, sent ++ line_of command ∷ [])
    else (receive command (calls.frames n), sent ++ line_of command ∷ [])

-- What follows a command that has a body.
abbrev pub and_then {ℓ} :
    {A : Type ℓ}
    → Result CallError Bytes × List Bytes
    → (Bytes → List Bytes → Result CallError A × List Bytes)
    → Result CallError A × List Bytes
and_then (ok body, sent) next = next body sent
and_then (err e, sent) next = (err e, sent)

-- The end of `collect`, on the outcome of the last command.
unfoldable pub finish_bodies :
    SessionCalls
    → Bytes
    → Result CallError Bytes × List Bytes
    → Result CallError Bodies × List Bytes
finish_bodies calls lease (ok arp, sent) = (
  ok (record { lease_observed_at = utc calls.now; lease = lease; arp = arp; arp_failure = none }),
  sent ++ (line_of command_exit ++ line_of command_exit) ∷ [],
)
finish_bodies calls lease (err e, sent) = (
  ok (record { lease_observed_at = utc calls.now; lease = lease; arp = []; arp_failure = some e }),
  sent ++ (line_of command_exit ++ line_of command_exit) ∷ [],
)

-- The commands of `collect`.
unfoldable pub run_commands : SessionCalls → Result CallError Bodies × List Bytes
run_commands calls = and_then (run_command calls 1 command_configure []) (λ _ sent₁.
    and_then (run_command calls 2 command_pager_off sent₁) (λ _ sent₂.
      and_then (run_command calls 3 command_lease sent₂)
        (λ lease sent₃. finish_bodies calls lease (run_command calls 4 command_arp sent₃))))

-- What `collect` asks of the first frame.
unfoldable pub check_initial : Bytes → Session.TerminalEvent → Result CallError (Unit {0})
check_initial initial Session.eof =
    err (failure_of (Session.framing_failure (event_failure Session.eof)))
check_initial initial Session.timed_out =
    err (failure_of (Session.framing_failure (event_failure Session.timed_out)))
check_initial initial (Session.other_event (c ∷ e)) =
    err (failure_of (Session.framing_failure (event_failure (Session.other_event (c ∷ e)))))
check_initial initial (Session.other_event []) =
    reject_if (not (is_operation_prompt (last_content initial)))
      (failure_of (Session.framing_failure Session.prompt_mismatch))

-- `collect` before its first command.
unfoldable pub open_shell : SessionCalls → Result CallError (Unit {0})
open_shell calls = do
  reject_if (not calls.starts_deadline) (transport_error (transport_failure session_failed true))
  reject_if (not calls.new_session) (transport_error (transport_failure session_failed true))
  reject_if (not calls.opens_input) (transport_error (transport_failure session_failed true))
  reject_if (not calls.requests_pty) (transport_error (transport_failure session_failed false))
  reject_if (not calls.starts_shell) (transport_error (transport_failure session_failed false))
  (initial, event) ← next_frame (calls.frames 0)
  check_initial initial event

-- The commands follow only what has no error.
abbrev pub behind {ℓ} :
    {A : Type ℓ}
    → Result CallError (Unit {0})
    → Result CallError A × List Bytes
    → Result CallError A × List Bytes
behind (ok _) rest = rest
behind (err e) rest = (err e, [])

-- `client.collect`
unfoldable pub collect_bodies : SessionCalls → Result CallError Bodies × List Bytes
collect_bodies calls = behind (open_shell calls) (run_commands calls)

-- The guards of `Collect`.
unfoldable pub check_arguments : Config → Bytes → Result CallError (Unit {0})
check_arguments config password = do
  wrap_err transport_error (config_validate config)
  reject_if (is_empty password) (transport_error (transport_failure invalid_config false))

module _ (rsa : Bytes) (handshake : ClientConfig → Handshake) where
  -- `Collect`
  unfoldable pub collect :
      DialCalls → SessionCalls → Config → Bytes → Result CallError Bodies × List Bytes
  collect dial_calls calls config password =
      behind (check_arguments config password)
        (behind (dial rsa handshake dial_calls config password) (collect_bodies calls))
