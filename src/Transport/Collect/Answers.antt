-- ===== src/Transport/Collect/Answers.antt =====
-- To whom lines are sent, and which of the device's answers are taken.
use dhcp_lease_observer.Prelude.{
  ℕ, ◌≡◌, ◌≢◌, ◌∙◌, refl, sym, subst, ap, ok-injective, inl, inr, true, false, none, List, [], ◌∷◌,
  arith, Result, ok, err, wrap_err, reject_if, then-eq-ok, wrap-eq-ok, Result-cases,
}
use dhcp_lease_observer.Text.{Bytes, is_empty}
use dhcp_lease_observer.Clock.{utc}
use dhcp_lease_observer.Session
use dhcp_lease_observer.Session.Safety.{IsComplete, extract-IsComplete, extract_event}
use dhcp_lease_observer.Transport.{Config, config_validate, transport_failure, invalid_config}
use dhcp_lease_observer.Transport.Buffer.{FrameResult, last_content}
use dhcp_lease_observer.Transport.Dial.{
  CallError, ClientConfig, HostKey, Handshake, DialCalls, client_config, dial, transport_error,
}
use dhcp_lease_observer.Transport.Dial.Pinned.{VerifiesKeys, IsPinned, dial-IsPinned}
use dhcp_lease_observer.Transport.Collect.{
  Bodies, SessionCalls, command_configure, command_pager_off, command_lease, command_arp, no_event,
  next_frame, extract_error, receive, run_command, and_then, finish_bodies, run_commands,
  check_initial, open_shell, behind, collect_bodies, check_arguments, collect, is_operation_prompt,
}

-- The answer to a command ends in the config prompt and holds no pager and no lock, and `body` is
-- what `extract` gives for it.
pub record IsAnswer (result : FrameResult) (command body : Bytes) : Type 0 where
  pub transcript : Bytes
  pub event : Session.TerminalEvent
  pub given : next_frame result ≡ ok (transcript, event)
  pub complete : IsComplete transcript
  pub extracted : Session.extract transcript no_event command ≡ ok body

pub record IsCollected (calls : SessionCalls) (b : Bodies) : Type 0 where
  pub initial : Bytes
  pub greeted : next_frame (calls.frames 0) ≡ ok (initial, no_event)
  pub operation : is_operation_prompt (last_content initial) ≡ true
  pub configure : (body : Bytes) × IsAnswer (calls.frames 1) command_configure body
  pub pager_off : (body : Bytes) × IsAnswer (calls.frames 2) command_pager_off body
  pub lease : IsAnswer (calls.frames 3) command_lease b.lease
  pub arp : b.arp_failure ≡ none → IsAnswer (calls.frames 4) command_arp b.arp
  pub no_arp : b.arp_failure ≢ none → b.arp ≡ []
  pub observed : b.lease_observed_at ≡ utc calls.now

wrap-ok :
    (r : Result Session.ExtractError Bytes) {body : Bytes}
    → wrap_err extract_error r ≡ ok body
    → r ≡ ok body
wrap-ok (ok b) h = cc
wrap-ok (err e) h = cc

receive-IsAnswer :
    (command : Bytes) (result : FrameResult) (body : Bytes)
    → receive command result ≡ ok body
    → IsAnswer result command body
unfolding receive
receive-IsAnswer command result body h = elim (Result-cases (next_frame result)) [
  | inr (e, n) ↦ absurd (ground (arith, n))
  | inl (a, n) ↦ answer a n (rw n at h)
]
  where
    answer :
        (a : Bytes × Session.TerminalEvent)
        → next_frame result ≡ ok a
        → wrap_err extract_error (Session.extract a.0 a.1 command) ≡ ok body
        → IsAnswer result command body
    answer (transcript, event) n h =
        let e = wrap-ok (Session.extract transcript event command) h in
        record {
          transcript = transcript;
          event = event;
          given = n;
          complete = extract-IsComplete transcript event command body e;
          extracted = extract_event transcript event no_event command body e;
        }

run_command-IsAnswer :
    (calls : SessionCalls) (n : ℕ) (command : Bytes) (sent : List Bytes) (body : Bytes)
    → (run_command calls n command sent).0 ≡ ok body
    → IsAnswer (calls.frames n) command body
unfolding run_command
run_command-IsAnswer calls n command sent body h =
    receive-IsAnswer command (calls.frames n) body (ground arith)

and_then-eq-ok :
    (out : Result CallError Bytes × List Bytes)
    (next : Bytes → List Bytes → Result CallError Bodies × List Bytes) (b : Bodies)
    → (and_then out next).0 ≡ ok b
    → (body : Bytes) × ((out.0 ≡ ok body) × ((next body out.1).0 ≡ ok b))
and_then-eq-ok (ok body, sent) next b h = (body, (refl, h))
and_then-eq-ok (err e, sent) next b h = absurd (cc)

pub behind-eq-ok :
    (r : Result CallError (Unit {0})) (rest : Result CallError Bodies × List Bytes) (b : Bodies)
    → (behind r rest).0 ≡ ok b
    → (r ≡ ok tt) × (rest.0 ≡ ok b)
behind-eq-ok (ok u) rest b h = (refl, h)
behind-eq-ok (err e) rest b h = absurd (cc)

check_initial-ok :
    (initial : Bytes) (event : Session.TerminalEvent)
    → check_initial initial event ≡ ok tt
    → (event ≡ no_event) × (is_operation_prompt (last_content initial) ≡ true)
unfolding check_initial
check_initial-ok initial Session.eof h = absurd (cc)
check_initial-ok initial Session.timed_out h = absurd (cc)
check_initial-ok initial (Session.other_event (c ∷ e)) h = absurd (cc)
check_initial-ok initial (Session.other_event []) h = (refl, ground arith)

abbrev IsGreeted : SessionCalls → Type 0
IsGreeted calls =
    (initial : Bytes) × ((next_frame (calls.frames 0) ≡ ok (initial, no_event))
      × (is_operation_prompt (last_content initial) ≡ true))

open_shell-IsGreeted : (calls : SessionCalls) → open_shell calls ≡ ok tt → IsGreeted calls
unfolding open_shell
open_shell-IsGreeted calls h = elim (Result-cases (next_frame (calls.frames 0))) [
  | inr (e, n) ↦ absurd (ground (arith, n))
  | inl (a, n) ↦ greeted a n (ground (arith, n))
]
  where
    greeted :
        (a : Bytes × Session.TerminalEvent)
        → next_frame (calls.frames 0) ≡ ok a
        → check_initial a.0 a.1 ≡ ok tt
        → IsGreeted calls
    greeted (initial, event) n c =
        let (e, p) = check_initial-ok initial event c in
        (initial, (n ∙ ap (λ x. ok (initial, x)) e, p))

-- The end of a collection with bodies.
record IsFinished (calls : SessionCalls) (body : Bytes) (out : Result CallError Bytes) (b : Bodies)
    : Type 0 where
  pub lease : b.lease ≡ body
  pub arp : b.arp_failure ≡ none → out ≡ ok b.arp
  pub no_arp : b.arp_failure ≢ none → b.arp ≡ []
  pub observed : b.lease_observed_at ≡ utc calls.now

finish_bodies-IsFinished :
    (calls : SessionCalls) (lease : Bytes) (out : Result CallError Bytes × List Bytes) (b : Bodies)
    → (finish_bodies calls lease out).0 ≡ ok b
    → IsFinished calls lease out.0 b
unfolding finish_bodies
finish_bodies-IsFinished calls lease (ok arp, sent) b h =
    subst (IsFinished calls lease (ok arp)) (ok-injective h)
      (record { lease = refl; arp = λ _. refl; no_arp = λ n. absurd (n refl); observed = refl })
finish_bodies-IsFinished calls lease (err e, sent) b h =
    subst (IsFinished calls lease (err e)) (ok-injective h)
      (record { lease = refl; arp = λ n. absurd (cc); no_arp = λ _. refl; observed = refl })

-- Bodies are returned only if the device first showed its operation prompt and answered the
-- configure command, the command that turns the pager off and the lease command, each by a
-- transcript that ends in the config prompt and shows no pager and no occupied config process; the
-- lease body is from the last of these. The ARP body is from such an answer to the ARP command, or
-- there is an ARP failure and no ARP body. The time is the clock's.
pub collect_bodies-IsCollected :
    (calls : SessionCalls) (b : Bodies) → (collect_bodies calls).0 ≡ ok b → IsCollected calls b
unfolding collect_bodies run_commands
collect_bodies-IsCollected calls b h =
    let (o, h₀) = behind-eq-ok (open_shell calls) (run_commands calls) b h in
    let (initial, (greeted, operation)) = open_shell-IsGreeted calls o in
    let (configured, (c, h₁)) = and_then-eq-ok (run_command calls 1 command_configure []) _ b h₀ in
    let (unpaged, (p, h₂)) = and_then-eq-ok (run_command calls 2 command_pager_off _) _ b h₁ in
    let (lease, (l, h₃)) = and_then-eq-ok (run_command calls 3 command_lease _) _ b h₂ in
    let f = finish_bodies-IsFinished calls lease (run_command calls 4 command_arp _) b h₃ in
    record {
      initial = initial;
      greeted = greeted;
      operation = operation;
      configure = (configured, run_command-IsAnswer calls 1 command_configure _ _ c);
      pager_off = (unpaged, run_command-IsAnswer calls 2 command_pager_off _ _ p);
      lease =
          subst (IsAnswer (calls.frames 3) command_lease) (sym f.lease)
            (run_command-IsAnswer calls 3 command_lease _ _ l);
      arp = λ n. run_command-IsAnswer calls 4 command_arp _ _ (f.arp n);
      no_arp = f.no_arp;
      observed = f.observed;
    }

behind-sent :
    (r : Result CallError (Unit {0})) (rest : Result CallError Bodies × List Bytes)
    → (behind r rest).1 ≢ []
    → (r ≡ ok tt) × (rest.1 ≢ [])
behind-sent (ok u) rest h = (refl, h)
behind-sent (err e) rest h = absurd (h refl)

-- What holds before a line is sent; `key` is the peer's.
pub record IsAuthorised (rsa : Bytes) (config : Config) (password : Bytes) (key : HostKey)
    (calls : SessionCalls) : Type 0 where
  pub valid : config_validate config ≡ ok tt
  pub password_given : is_empty password ≡ false
  pub pinned : IsPinned rsa config key
  pub initial : Bytes
  pub greeted : next_frame (calls.frames 0) ≡ ok (initial, no_event)
  pub operation : is_operation_prompt (last_content initial) ≡ true

-- With a library whose handshake succeeds only if the callback accepts the peer's host key, a line
-- is sent only if the configuration is valid, there is a password, the peer's key is an RSA key with
-- the configured fingerprint, and its first frame ends in the operation prompt.
pub collect-IsAuthorised :
    (rsa : Bytes) (handshake : ClientConfig → Handshake)
    → VerifiesKeys handshake
    → (dial_calls : DialCalls) (calls : SessionCalls) (config : Config) (password : Bytes)
    → (collect rsa handshake dial_calls calls config password).1 ≢ []
    → IsAuthorised rsa config password (handshake (client_config rsa config password)).key calls
unfolding collect collect_bodies check_arguments
collect-IsAuthorised rsa handshake v dial_calls calls config password h =
    let (a, h₁) = behind-sent (check_arguments config password) _ h in
    let (d, h₂) = behind-sent (dial rsa handshake dial_calls config password) _ h₁ in
    let (o, _) = behind-sent (open_shell calls) _ h₂ in
    let (valid, p) =
      then-eq-ok (wrap_err transport_error (config_validate config))
        (reject_if (is_empty password) (transport_error (transport_failure invalid_config false)))
        a in
    let pinned = dial-IsPinned rsa handshake v dial_calls config password d in
    let (initial, (greeted, operation)) = open_shell-IsGreeted calls o in
    record {
      valid = wrap-eq-ok transport_error (config_validate config) valid;
      password_given = ground arith;
      pinned = pinned;
      initial = initial;
      greeted = greeted;
      operation = operation;
    }
