-- ===== src/App/Observed.antt =====
-- What stands behind a start of the program that ends well without a message: the whole way from the
-- device to the files.
use dhcp_lease_observer.Prelude.{
  ◌≡◌, ◌∙◌, refl, sym, ap, inl, inr, not, Option, none, List, [], ◌∷◌, arith, Result, ok, err,
  ok-injective, Result-cases, if_rule,
}
use dhcp_lease_observer.Text.{Bytes}
use dhcp_lease_observer.Text.Path.{is_clean_absolute}
use dhcp_lease_observer.Identity.{Generator, new_generator}
use dhcp_lease_observer.State.{Snapshot}
use dhcp_lease_observer.Config
use dhcp_lease_observer.Config.{Config, validate}
use dhcp_lease_observer.Config.Credentials.{Credentials, load_credentials}
use dhcp_lease_observer.Transport.Dial.{CallError, ClientConfig, Handshake, client_config, dial}
use dhcp_lease_observer.Transport.Dial.Pinned.{VerifiesKeys, IsPinned, dial-IsPinned}
use dhcp_lease_observer.Transport.Collect.{Bodies, check_arguments, collect_bodies, collect}
use dhcp_lease_observer.Transport.Collect.Answers.{
  IsCollected, collect_bodies-IsCollected, behind-eq-ok,
}
use dhcp_lease_observer.Collector.{CollectError, CommandBodies, World, Runner, Failure, RunResult}
use dhcp_lease_observer.Collector.Prepare.{Plan, prepare}
use dhcp_lease_observer.Collector.Source.{command_bodies, source_result}
use dhcp_lease_observer.Collector.Run
use dhcp_lease_observer.Collector.Done.{IsSuccess, run-IsSuccess}
use dhcp_lease_observer.App.Flags.{
  Options, FlagsError, help, bad_flags, default_options, parse_flags,
}
use dhcp_lease_observer.App.Ready.{load-validate}
use dhcp_lease_observer.App.{
  Machine, Ended, valid_option_form, refuse, runner_of, exit_of, env_of, start, start_with,
  run_options, run_flags, run,
}

-- The source has given bodies if a plan came of its answer.
prepare-collected :
    (hmac : Bytes → Bytes → Bytes) (runner : Runner) (previous : Option Snapshot)
    (collected : Result CollectError CommandBodies) (plan : Plan)
    → prepare hmac runner previous collected ≡ ok plan
    → (bodies : CommandBodies) × (collected ≡ ok bodies)
unfolding prepare
prepare-collected hmac runner previous (ok bodies) plan h = (bodies, refl)
prepare-collected hmac runner previous (err e) plan h = absurd (cc)

source_result-ok :
    (r : Result CallError Bodies) (b : CommandBodies)
    → source_result r ≡ ok b
    → (bodies : Bodies) × ((r ≡ ok bodies) × (b ≡ command_bodies bodies))
source_result-ok (ok bodies) b h = (bodies, (refl, sym (ok-injective h)))
source_result-ok (err e) b h = absurd (cc)

module _ (hmac : Bytes → Bytes → Bytes) (rsa : Bytes) (handshake : ClientConfig → Handshake)
    (verifies : VerifiesKeys handshake) (machine : Machine) where
  -- What Load gives for the path of the options.
  abbrev IsConfigured : Options → Config → Type 0
  IsConfigured o c =
      Config.load machine.config_codec machine.config_calls o.config_path machine.disk ≡ ok c

  -- What LoadCredentials gives for a directory.
  abbrev IsTrusted : Bytes → Credentials → Type 0
  IsTrusted directory credentials =
      load_credentials machine.password_calls machine.key_calls machine.disk directory
      ≡ ok credentials

  -- An attempt with the configuration and the credentials that the options name, on the device with
  -- the pinned key: its answers were read, and the log, the state file and the metrics file have what
  -- came of them.
  pub record IsObserved (args : List Bytes) (w w' : World) : Type 0 where
    pub options : Options
    pub config : Config
    pub credentials : Credentials
    pub generator : Generator
    pub result : RunResult
    pub bodies : Bodies
    pub parsed : parse_flags none args default_options ≡ ok (options, [])
    pub configured : IsConfigured options config
    pub trusted : IsTrusted options.credentials_directory credentials
    pub valid : validate config ≡ ok tt
    pub keyed : new_generator credentials.identity_key ≡ ok generator
    pub pinned :
        IsPinned rsa
          (Config.transport config)
          (handshake (client_config rsa (Config.transport config) credentials.password)).key
    pub answered : IsCollected machine.session_calls bodies
    pub given :
        (env_of hmac rsa handshake machine config credentials).collected
        ≡ ok (command_bodies bodies)
    pub success :
        IsSuccess hmac
          (env_of hmac rsa handshake machine config credentials)
          (runner_of config generator)
          result
          w
          w'

  -- The end is the exit status 0 without a message.
  abbrev Silent : Ended → Type 0
  Silent e = (e.exit ≡ 0) × (e.messages ≡ [])

  exit_of-ok :
      (out : Result Failure RunResult × World)
      → Silent (exit_of out)
      → (r : RunResult) × ((out.0 ≡ ok r) × ((exit_of out).world ≡ out.1))
  unfolding exit_of
  exit_of-ok (ok r, w) s = (r, (refl, refl))
  exit_of-ok (err f, w) s = absurd (cc)

  abbrev Ends : List Bytes → World → Ended → Type 0
  Ends args w e = Silent e → IsObserved args w e.world

  module _ (args : List Bytes) (o : Options)
      (parsed : parse_flags none args default_options ≡ ok (o, [])) where
    attempt-IsObserved :
        (c : Config) (credentials : Credentials) (g : Generator) (r : RunResult) (w w' : World)
        → IsConfigured o c
        → IsTrusted o.credentials_directory credentials
        → new_generator credentials.identity_key ≡ ok g
        → IsSuccess hmac (env_of hmac rsa handshake machine c credentials) (runner_of c g) r w w'
        → IsObserved args w w'
    unfolding env_of collect
    attempt-IsObserved c credentials g r w w' l t k s =
        let config = Config.transport c in
        let (b, e) = prepare-collected hmac (runner_of c g) _ _ s.plan s.prepared in
        let (bodies, (given, same)) =
          source_result-ok
            (collect rsa handshake machine.dial_calls machine.session_calls config
              credentials.password).0
            b e in
        let (a, h₁) = behind-eq-ok (check_arguments config credentials.password) _ bodies given in
        let (d, h₂) =
          behind-eq-ok (dial rsa handshake machine.dial_calls config credentials.password)
            (collect_bodies machine.session_calls) bodies h₁ in
        let pinned =
          dial-IsPinned rsa handshake verifies machine.dial_calls config credentials.password d in
        record {
          options = o;
          config = c;
          credentials = credentials;
          generator = g;
          result = r;
          parsed = parsed;
          configured = l;
          trusted = t;
          bodies = bodies;
          valid =
              load-validate machine.config_codec machine.config_calls o.config_path machine.disk c
                l;
          keyed = k;
          pinned = pinned;
          answered = collect_bodies-IsCollected machine.session_calls bodies h₂;
          given = e ∙ ap (λ x. ok x) same;
          success = s;
        }

    start-IsObserved :
        (c : Config) (credentials : Credentials) (w : World)
        → IsConfigured o c
        → IsTrusted o.credentials_directory credentials
        → Silent (start hmac rsa handshake machine c credentials w)
        → IsObserved args w (start hmac rsa handshake machine c credentials w).world
    unfolding start refuse
    start-IsObserved c credentials w l t s =
        elim (Result-cases (new_generator credentials.identity_key)) [
          | inr (e, n) ↦ absurd (ground (arith, n))
          | inl (g, n) ↦
              let out =
                Run.run hmac (env_of hmac rsa handshake machine c credentials) (runner_of c g) w in
              let (r, (o, x)) = exit_of-ok out (rw (n, start) at s) in
              rw (n, start)
                (rw x (
                  attempt-IsObserved c credentials g r w out.1 l t n
                    (run-IsSuccess hmac _ _ w r o)))
        ]

    refuse-Ends :
        (source instance_name class : Bytes) (w : World)
        → Ends args w (refuse machine source instance_name class w)
    unfolding refuse
    refuse-Ends source instance_name class w s = absurd (cc)

    start_with-Ends :
        (c : Config) (w : World)
        → IsConfigured o c
        → Ends args w (start_with hmac rsa handshake machine o.credentials_directory c w)
    unfolding start_with
    start_with-Ends c w l =
        if_rule (Ends args w) (not (is_clean_absolute o.credentials_directory))
          (λ _. refuse-Ends _ _ _ w)
          (λ _.
            elim (Result-cases (
              load_credentials machine.password_calls machine.key_calls machine.disk
                o.credentials_directory)) [
                  | inr (e, h) ↦ rw h (refuse-Ends _ _ _ w)
                  | inl (credentials, h) ↦ rw h (start-IsObserved c credentials w l h)
                ])

    run_options-Ends : (w : World) → Ends args w (run_options hmac rsa handshake machine o w)
    unfolding run_options
    run_options-Ends w =
        if_rule (Ends args w) o.show_version (λ _ s. absurd (cc))
          (λ _.
            elim (Result-cases
              (Config.load machine.config_codec machine.config_calls o.config_path machine.disk)) [
                | inr (e, h) ↦ rw h (refuse-Ends _ _ _ w)
                | inl (c, h) ↦ rw h (
                    if_rule (Ends args w) o.check_config (λ _ s. absurd (cc))
                      (λ _. start_with-Ends c w h))
              ])

  run_flags-Ends :
      (args : List Bytes) (r : Result FlagsError (Options × List Bytes)) (w : World)
      → parse_flags none args default_options ≡ r
      → Ends args w (run_flags hmac rsa handshake machine r w)
  unfolding run_flags
  run_flags-Ends args (err help) w e s = absurd (cc)
  run_flags-Ends args (err bad_flags) w e s = absurd (cc)
  run_flags-Ends args (ok (o, a ∷ more)) w e s = absurd (cc)
  run_flags-Ends args (ok (o, [])) w e s = run_options-Ends args o e w s

  -- With a library whose handshake succeeds only if the callback accepts the peer's host key: if a
  -- start of the program ends with the exit status 0 and without a message, its arguments are flags,
  -- the configuration at their path loads and is valid, and the credentials in their directory load.
  -- The peer's key for these is an RSA key with the configured fingerprint. The device answered the
  -- configure, the pager and the lease command by complete transcripts, the last with the lease body,
  -- and the ARP command by one with the ARP body, or there is an ARP failure and no ARP body. The run
  -- on these bodies has succeeded: the log, the state file and the metrics file have just what came
  -- of them.
  pub run-IsObserved :
      (args : List Bytes) (w : World)
      → (run hmac rsa handshake machine args w).exit ≡ 0
      → (run hmac rsa handshake machine args w).messages ≡ []
      → IsObserved args w (run hmac rsa handshake machine args w).world
  unfolding run
  run-IsObserved args w e m =
      if_rule (Ends args w) (not (valid_option_form args)) (λ _ s. absurd (cc))
        (λ _. run_flags-Ends args (parse_flags none args default_options) w refl) (e, m)
