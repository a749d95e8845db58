-- ===== src/Transport/Collect/Failures.antt =====
-- The errors that a collection returns.
use dhcp_lease_observer.Prelude.{
  ℕ, ◌≡◌, refl, Bool, true, false, not, none, some, List, [], ◌∷◌, Result, ok, err, ◌>>=◌, ◌>>◌,
  wrap_err, reject_if, if_rule,
}
use dhcp_lease_observer.Text.{Bytes, is_empty}
use dhcp_lease_observer.Session
use dhcp_lease_observer.Session.Failures.{
  IsFraming, eof-IsFraming, timeout-IsFraming, prompt-IsFraming, extract-IsFraming,
}
use dhcp_lease_observer.Transport.{Config, TransportError, config_validate}
use dhcp_lease_observer.Transport.Buffer.{FrameResult, frame, ended, timed_out, limit, last_content}
use dhcp_lease_observer.Transport.Dial
use dhcp_lease_observer.Transport.Dial.{
  CallError, session_failure, transport_error, plain_error, ClientConfig, Handshake, HandshakeEnd,
  DialCalls, handshake_result, client_config, dial,
}
use dhcp_lease_observer.Transport.Collect.{
  Bodies, SessionCalls, command_configure, command_pager_off, command_lease, command_arp,
  next_frame, extract_error, event_failure, receive, run_command, and_then, finish_bodies,
  run_commands, check_initial, open_shell, behind, collect_bodies, check_arguments, collect,
  is_operation_prompt,
}

-- A failure of the framing or of the connection, a transport error, or an error without a class.
pub data IsKnown : CallError → Type 0 where
  framing : (f : Session.Failure) → IsFraming f → IsKnown (session_failure f)
  refused : IsKnown (session_failure (Session.new_failure Session.authentication))
  other_host : IsKnown (session_failure (Session.new_failure Session.host_key_mismatch))
  transport : (e : TransportError) → IsKnown (transport_error e)
  plain : (e : Session.SessionError) → IsKnown (plain_error e)

abbrev pub IsKnownResult {ℓ} : {A : Type ℓ} → Result CallError A → Type 0
IsKnownResult (ok a) = Unit
IsKnownResult (err e) = IsKnown e

bind-IsKnown {ℓ κ} :
    {A : Type ℓ} {B : Type κ} (m : Result CallError A) (f : A → Result CallError B)
    → IsKnownResult m
    → ((a : A) → IsKnownResult (f a))
    → IsKnownResult (m >>= f)
bind-IsKnown (ok a) f k l = l a
bind-IsKnown (err e) f k l = k

reject_if-IsKnown : (b : Bool) (e : CallError) → IsKnown e → IsKnownResult (reject_if b e)
reject_if-IsKnown true e k = k
reject_if-IsKnown false e k = tt

guard-IsKnown {ℓ} :
    {A : Type ℓ} (b : Bool) (e : CallError) (rest : Result CallError A)
    → IsKnown e
    → IsKnownResult rest
    → IsKnownResult (reject_if b e >> rest)
guard-IsKnown true e rest k l = k
guard-IsKnown false e rest k l = l

next_frame-IsKnown : (r : FrameResult) → IsKnownResult (next_frame r)
unfolding next_frame
next_frame-IsKnown (frame d) = tt
next_frame-IsKnown (ended d) = tt
next_frame-IsKnown (timed_out d) = tt
next_frame-IsKnown limit = transport _

extract-IsKnown :
    (transcript : Bytes) (event : Session.TerminalEvent) (command : Bytes)
    (r : Result Session.ExtractError Bytes)
    → Session.extract transcript event command ≡ r
    → IsKnownResult (wrap_err extract_error r)
extract-IsKnown transcript event command (ok body) h = tt
extract-IsKnown transcript event command (err (Session.failed f)) h =
    framing f (extract-IsFraming transcript event command f h)
extract-IsKnown transcript event command (err (Session.plain e)) h = plain e

receive-IsKnown : (command : Bytes) (r : FrameResult) → IsKnownResult (receive command r)
unfolding receive
receive-IsKnown command r =
    bind-IsKnown (next_frame r) _ (next_frame-IsKnown r)
      (λ a. extract-IsKnown a.0 a.1 command _ refl)

run_command-IsKnown :
    (calls : SessionCalls) (n : ℕ) (command : Bytes) (sent : List Bytes)
    → IsKnownResult (run_command calls n command sent).0
unfolding run_command
run_command-IsKnown calls n command sent =
    if_rule (λ (x : Result CallError Bytes × List Bytes). IsKnownResult x.0)
      (not (calls.sets_deadline n)) (λ _. transport _)
      (λ _.
        if_rule (λ (x : Result CallError Bytes × List Bytes). IsKnownResult x.0)
          (not (calls.writes n)) (λ _. transport _) (λ _. receive-IsKnown command (calls.frames n)))

check_initial-IsKnown :
    (initial : Bytes) (event : Session.TerminalEvent) → IsKnownResult (check_initial initial event)
unfolding check_initial event_failure Session.framing_failure
check_initial-IsKnown initial Session.eof = framing _ eof-IsFraming
check_initial-IsKnown initial Session.timed_out = framing _ timeout-IsFraming
check_initial-IsKnown initial (Session.other_event (c ∷ e)) = framing _ eof-IsFraming
check_initial-IsKnown initial (Session.other_event []) =
    reject_if-IsKnown (not (is_operation_prompt (last_content initial))) _
      (framing _ prompt-IsFraming)

open_shell-IsKnown : (calls : SessionCalls) → IsKnownResult (open_shell calls)
unfolding open_shell
open_shell-IsKnown calls = guard-IsKnown (not calls.starts_deadline) _ _ (transport _) (
    guard-IsKnown (not calls.new_session) _ _ (transport _) (
      guard-IsKnown (not calls.opens_input) _ _ (transport _) (
        guard-IsKnown (not calls.requests_pty) _ _ (transport _) (
          guard-IsKnown (not calls.starts_shell) _ _ (transport _) (
            bind-IsKnown (next_frame (calls.frames 0)) _ (next_frame-IsKnown _)
              (λ a. check_initial-IsKnown a.0 a.1))))))

handshake_result-IsKnown :
    (end : HandshakeEnd) (auth_started context_over : Bool)
    → IsKnownResult (handshake_result end auth_started context_over)
unfolding handshake_result Session.connection_failure
handshake_result-IsKnown Dial.connected a c = tt
handshake_result-IsKnown Dial.key_mismatch a c = other_host
handshake_result-IsKnown Dial.timed_out a c =
    if_rule IsKnownResult a (λ _. transport _) (λ _. transport _)
handshake_result-IsKnown Dial.broken a c =
    if_rule IsKnownResult c (λ _. transport _)
      (λ _. if_rule IsKnownResult a (λ _. refused) (λ _. transport _))

dial-IsKnown :
    (rsa : Bytes) (handshake : ClientConfig → Handshake) (calls : DialCalls) (config : Config)
    (password : Bytes)
    → IsKnownResult (dial rsa handshake calls config password)
unfolding dial
dial-IsKnown rsa handshake calls config password =
    let h = handshake (client_config rsa config password) in
    guard-IsKnown (not calls.connects) _ _ (transport _) (
      guard-IsKnown (not calls.sets_deadline) _ _ (transport _) (
        bind-IsKnown (handshake_result h.end h.auth_started calls.context_over) _
          (handshake_result-IsKnown h.end h.auth_started calls.context_over)
          (λ _. reject_if-IsKnown (not calls.clears_deadline) _ (transport _))))

-- The error of a collection, and the ARP failure of one that returns bodies.
pub data IsKnownOutcome : Result CallError Bodies → Type 0 where
  fails : {e : CallError} → IsKnown e → IsKnownOutcome (err e)
  complete : {b : Bodies} → b.arp_failure ≡ none → IsKnownOutcome (ok b)
  partial :
      {b : Bodies} {e : CallError} → b.arp_failure ≡ some e → IsKnown e → IsKnownOutcome (ok b)

and_then-IsKnown :
    (out : Result CallError Bytes × List Bytes)
    (next : Bytes → List Bytes → Result CallError Bodies × List Bytes)
    → IsKnownResult out.0
    → ((body : Bytes) → IsKnownOutcome (next body out.1).0)
    → IsKnownOutcome (and_then out next).0
and_then-IsKnown (ok body, sent) next k l = l body
and_then-IsKnown (err e, sent) next k l = fails k

finish_bodies-IsKnown :
    (calls : SessionCalls) (lease : Bytes) (out : Result CallError Bytes × List Bytes)
    → IsKnownResult out.0
    → IsKnownOutcome (finish_bodies calls lease out).0
unfolding finish_bodies
finish_bodies-IsKnown calls lease (ok arp, sent) k = complete refl
finish_bodies-IsKnown calls lease (err e, sent) k = partial refl k

run_commands-IsKnown : (calls : SessionCalls) → IsKnownOutcome (run_commands calls).0
unfolding run_commands
run_commands-IsKnown calls =
    and_then-IsKnown _ _ (run_command-IsKnown calls 1 command_configure _) (λ _.
      and_then-IsKnown _ _ (run_command-IsKnown calls 2 command_pager_off _) (λ _.
        and_then-IsKnown _ _ (run_command-IsKnown calls 3 command_lease _) (λ lease.
          finish_bodies-IsKnown calls lease _ (run_command-IsKnown calls 4 command_arp _))))

behind-IsKnown :
    (r : Result CallError (Unit {0})) (rest : Result CallError Bodies × List Bytes)
    → IsKnownResult r
    → IsKnownOutcome rest.0
    → IsKnownOutcome (behind r rest).0
behind-IsKnown (ok u) rest k l = l
behind-IsKnown (err e) rest k l = fails k

check_arguments-IsKnown :
    (config : Config) (password : Bytes) → IsKnownResult (check_arguments config password)
unfolding check_arguments
check_arguments-IsKnown config password =
    bind-IsKnown (wrap_err transport_error (config_validate config)) _
      (wrapped (config_validate config))
      (λ _. reject_if-IsKnown (is_empty password) _ (transport _))
  where
    wrapped : (r : Result TransportError (Unit {0})) → IsKnownResult (wrap_err transport_error r)
    wrapped (ok u) = tt
    wrapped (err e) = transport e

pub collect-IsKnown :
    (rsa : Bytes) (handshake : ClientConfig → Handshake) (dial_calls : DialCalls)
    (calls : SessionCalls) (config : Config) (password : Bytes)
    → IsKnownOutcome (collect rsa handshake dial_calls calls config password).0
unfolding collect collect_bodies
collect-IsKnown rsa handshake dial_calls calls config password =
    behind-IsKnown (check_arguments config password) _ (check_arguments-IsKnown config password) (
      behind-IsKnown (dial rsa handshake dial_calls config password) _
        (dial-IsKnown rsa handshake dial_calls config password)
        (behind-IsKnown (open_shell calls) _ (open_shell-IsKnown calls)
          (run_commands-IsKnown calls)))
