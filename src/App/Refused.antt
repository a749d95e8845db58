-- ===== src/App/Refused.antt =====
-- Starts that end with the exit status for usage.
use dhcp_lease_observer.Prelude.{
  ◌≡◌, refl, ap, inl, inr, not, none, List, [], ◌∷◌, arith, Result, ok, err, Result-cases, if_rule,
  if◌then◌else◌,
}
use dhcp_lease_observer.Text.{Bytes, codes}
use dhcp_lease_observer.Text.Path.{is_clean_absolute}
use dhcp_lease_observer.Identity.{new_generator}
use dhcp_lease_observer.Config
use dhcp_lease_observer.Config.{Config, ConfigError}
use dhcp_lease_observer.Config.Credentials.{Credentials, CredentialsError, load_credentials}
use dhcp_lease_observer.Transport.Dial.{ClientConfig, Handshake}
use dhcp_lease_observer.Collector.{World, Failure, RunResult}
use dhcp_lease_observer.App.Flags.{
  Options, FlagsError, help, bad_flags, default_options, parse_flags,
}
use dhcp_lease_observer.App
use dhcp_lease_observer.App.{
  Machine, Ended, exit_usage, refuse, exit_of, start, start_with, run_options, run_flags, run,
  valid_option_form, source_name,
}

-- A start that ends with the status for usage leaves the two files and the clock as they were.
pub record IsKept (w : World) (e : Ended) : Type 0 where
  pub store : e.exit ≡ exit_usage → e.world.store ≡ w.store
  pub metrics : e.exit ≡ exit_usage → e.world.metrics ≡ w.metrics
  pub readings : e.exit ≡ exit_usage → e.world.readings ≡ w.readings

same-IsKept : (w : World) (e : Ended) → e.world ≡ w → IsKept w e
same-IsKept w e h = record {
  store = λ _. ap (λ v. v.store) h;
  metrics = λ _. ap (λ v. v.metrics) h;
  readings = λ _. ap (λ v. v.readings) h;
}

refuse-IsKept :
    (machine : Machine) (source source_instance class : Bytes) (w : World)
    → IsKept w (refuse machine source source_instance class w)
unfolding refuse
refuse-IsKept machine source source_instance class w = record {
  store = λ _. refl;
  metrics = λ _. refl;
  readings = λ _. refl;
}

exit_of-IsKept : (w : World) (out : Result Failure RunResult × World) → IsKept w (exit_of out)
unfolding exit_of
exit_of-IsKept w (ok r, v) = record {
  store = λ h. absurd (omega arith);
  metrics = λ h. absurd (omega arith);
  readings = λ h. absurd (omega arith);
}
exit_of-IsKept w (err f, v) = record {
  store = λ h. absurd (omega arith);
  metrics = λ h. absurd (omega arith);
  readings = λ h. absurd (omega arith);
}

module _ (hmac : Bytes → Bytes → Bytes) (rsa : Bytes) (handshake : ClientConfig → Handshake)
    (machine : Machine) (w : World) where
  start-IsKept :
      (c : Config) (credentials : Credentials)
      → IsKept w (start hmac rsa handshake machine c credentials w)
  unfolding start
  start-IsKept c credentials = elim (Result-cases (new_generator credentials.identity_key)) [
    | inr (e, h) ↦ rw (h, start) (refuse-IsKept machine source_name c.source_instance _ w)
    | inl (g, h) ↦ rw (h, start) (exit_of-IsKept w _)
  ]

  start_with-IsKept :
      (directory : Bytes) (c : Config)
      → IsKept w (start_with hmac rsa handshake machine directory c w)
  unfolding start_with
  start_with-IsKept directory c =
      if_rule (IsKept w) (not (is_clean_absolute directory))
        (λ _. refuse-IsKept machine source_name c.source_instance _ w)
        (λ _.
          loaded (load_credentials machine.password_calls machine.key_calls machine.disk directory))
    where
      loaded :
          (r : Result CredentialsError Credentials)
          → IsKept w (elim r [
            | err _ ↦ refuse machine source_name c.source_instance (codes "credentials_invalid") w
            | ok credentials ↦ start hmac rsa handshake machine c credentials w
          ])
      loaded (ok credentials) = start-IsKept c credentials
      loaded (err e) = refuse-IsKept machine source_name c.source_instance _ w

  run_options-IsKept : (o : Options) → IsKept w (run_options hmac rsa handshake machine o w)
  unfolding run_options
  run_options-IsKept o =
      if_rule (IsKept w) o.show_version (λ _. same-IsKept w _ refl)
        (λ _.
          loaded (Config.load machine.config_codec machine.config_calls o.config_path machine.disk))
    where
      loaded :
          (r : Result ConfigError Config)
          → IsKept w (elim r [
            | err _ ↦ refuse machine [] [] (codes "configuration_invalid") w
            | ok c ↦
                if o.check_config
                then record { exit = 0; world = w; messages = App.configuration_valid ∷ [] }
                else start_with hmac rsa handshake machine o.credentials_directory c w
          ])
      loaded (err e) = refuse-IsKept machine [] [] _ w
      loaded (ok c) =
          if_rule (IsKept w) o.check_config (λ _. same-IsKept w _ refl)
            (λ _. start_with-IsKept o.credentials_directory c)

  run_flags-IsKept :
      (r : Result FlagsError (Options × List Bytes))
      → IsKept w (run_flags hmac rsa handshake machine r w)
  unfolding run_flags
  run_flags-IsKept (err help) = same-IsKept w _ refl
  run_flags-IsKept (err bad_flags) = same-IsKept w _ refl
  run_flags-IsKept (ok (o, a ∷ args)) = same-IsKept w _ refl
  run_flags-IsKept (ok (o, [])) = run_options-IsKept o

  -- Whatever the arguments are, and whatever a start meets, if it ends with the exit status for
  -- usage, then it neither read the runner's clock nor changed the state file or the metrics.
  pub run-IsKept : (args : List Bytes) → IsKept w (run hmac rsa handshake machine args w)
  unfolding run
  run-IsKept args =
      if_rule (IsKept w) (not (valid_option_form args)) (λ _. same-IsKept w _ refl)
        (λ _. run_flags-IsKept (parse_flags none args default_options))
