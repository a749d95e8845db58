-- ===== src/App/Ready.antt =====
-- A start whose configuration and credentials load.
use dhcp_lease_observer.Prelude.{
  ◌+◌, ◌≡◌, refl, inl, inr, true, false, not, [], ◌∷◌, arith, take, Result, ok, ◌>>◌, reject-eq-ok,
  then-eq-ok, Result-cases, Option-cases, ok-injective, subst, Bool-cases,
}
use dhcp_lease_observer.Text
use dhcp_lease_observer.Text.{Bytes, codes, is_empty, has_prefix, bytes_eq}
use dhcp_lease_observer.Text.Path.{is_clean_absolute, is_abs}
use dhcp_lease_observer.Files.{Disk}
use dhcp_lease_observer.SafeFile.{
  OpenCalls, open_regular, unsafe_file, not_exist, open_failed, stat_failed,
}
use dhcp_lease_observer.Identity.{Generator}
use dhcp_lease_observer.Config
use dhcp_lease_observer.Config.{
  Config, ConfigError, invalid_config, validate, parse_config, max_config_bytes,
  valid_absolute_path, paths_invalid, names_invalid, overall_invalid, timeouts_invalid,
  frame_limit_invalid,
}
use dhcp_lease_observer.Config.Usable.{validate-IsUsable}
use dhcp_lease_observer.Config.Credentials.{Credentials, load_credentials}
use dhcp_lease_observer.Config.Accepted.{load_credentials-IsAccepted}
use dhcp_lease_observer.Transport.Dial.{ClientConfig, Handshake}
use dhcp_lease_observer.Transport.Collect.{check_arguments}
use dhcp_lease_observer.Collector.{World, is_label}
use dhcp_lease_observer.Collector.Run
use dhcp_lease_observer.Collector.Run.{runner_valid}
use dhcp_lease_observer.App.{Machine, source_name, runner_of, env_of, exit_of, start}

validated :
    (c d : Config)
    → ◌≡◌ {A = Result ConfigError Config} (validate c >> ok c) (ok d)
    → validate d ≡ ok tt
validated c d h =
    let (v, e) = then-eq-ok (validate c) (ok c) h in
    subst (λ x. validate x ≡ ok tt) (ok-injective e) v

parse_config-validate :
    (codec : Config.Codec) (calls : OpenCalls) (content : Bytes) (c : Config)
    → parse_config codec calls content ≡ ok c
    → validate c ≡ ok tt
unfolding parse_config
parse_config-validate codec calls content c h = elim (Bool-cases calls.read_fails) [
  | inl r ↦ absurd (ground (arith, r))
  | inr r ↦ elim (Option-cases (codec.decode (take (max_config_bytes + 1) content))) [
    | inl n ↦ absurd (ground (arith, r, n))
    | inr (d, s) ↦
        let (a, h₁) =
          reject-eq-ok (not (codec.at_end d.1)) invalid_config _ (rw (r, s, parse_config) at h) in
        validated d.0 c h₁
  ]
]

pub load-validate :
    (codec : Config.Codec) (calls : OpenCalls) (path : Bytes) (disk : Disk) (c : Config)
    → Config.load codec calls path disk ≡ ok c
    → validate c ≡ ok tt
unfolding Config.load
load-validate codec calls path disk c h =
    elim (Result-cases (open_regular calls disk path 18 max_config_bytes)) [
      | inl (content, o) ↦ parse_config-validate codec calls content c (rw (o, Config.load) at h)
      | inr (unsafe_file, o) ↦ absurd (ground (arith, o))
      | inr (not_exist, o) ↦ absurd (ground (arith, o))
      | inr (open_failed, o) ↦ absurd (ground (arith, o))
      | inr (stat_failed, o) ↦ absurd (ground (arith, o))
    ]

is_abs-given : (path : Bytes) → is_abs path ≡ true → is_empty path ≡ false
unfolding is_abs has_prefix
is_abs-given [] h = absurd (cc)
is_abs-given (c ∷ path) h = refl

path_given :
    (path extension : Bytes) → valid_absolute_path path extension ≡ true → is_empty path ≡ false
unfolding valid_absolute_path is_clean_absolute
path_given path extension h = is_abs-given path (ground arith)

paths_given :
    (c : Config)
    → validate c ≡ ok tt
    → (is_empty c.state_path ≡ false) × (is_empty c.prometheus_path ≡ false)
unfolding validate
paths_given c h =
    let (names, h₁) = reject-eq-ok (names_invalid c) invalid_config _ h in
    let (overall, h₂) = reject-eq-ok (overall_invalid c) invalid_config _ h₁ in
    let (timeouts, h₃) = reject-eq-ok (timeouts_invalid c) invalid_config _ h₂ in
    let (limits, h₄) = reject-eq-ok (frame_limit_invalid c) invalid_config _ h₃ in
    let (paths, h₅) = reject-eq-ok (paths_invalid c) invalid_config _ h₄ in
    (
      path_given c.state_path (codes ".json") (ground (arith, paths)),
      path_given c.prometheus_path (codes ".prom") (ground (arith, paths)),
    )

source_name-is_label : is_label source_name ≡ true
unfolding is_label Text.is_label_byte Text.is_alnum
source_name-is_label = refl

runner_of-valid :
    (c : Config) (g : Generator) → validate c ≡ ok tt → runner_valid (runner_of c g) ≡ true
unfolding runner_of runner_valid
runner_of-valid c g h =
    let (s, p) = paths_given c h in
    let u = validate-IsUsable c h in
    rw (s, p, u.instance_label, u.scope_label, source_name-is_label) refl

-- The attempt is made: the runner takes its arguments, the transport the configuration and the
-- password, and the program ends as the run does.
pub record IsReady (hmac : Bytes → Bytes → Bytes) (rsa : Bytes)
    (handshake : ClientConfig → Handshake) (machine : Machine) (c : Config)
    (credentials : Credentials) (w : World) : Type 0 where
  pub key : Generator
  pub valid : runner_valid (runner_of c key) ≡ true
  pub arguments : check_arguments (Config.transport c) credentials.password ≡ ok tt
  pub ends :
      start hmac rsa handshake machine c credentials w
      ≡ exit_of (Run.run hmac (env_of hmac rsa handshake machine c credentials) (runner_of c key) w)

-- Once the configuration file and the credentials load, the identity key is long enough, the runner
-- accepts its arguments and the transport the configuration and the password: the program makes one
-- attempt, and ends as the run ends.
pub start-IsReady :
    (hmac : Bytes → Bytes → Bytes) (rsa : Bytes) (handshake : ClientConfig → Handshake)
    (machine : Machine) (path directory : Bytes) (c : Config) (credentials : Credentials)
    (w : World)
    → Config.load machine.config_codec machine.config_calls path machine.disk ≡ ok c
    → load_credentials machine.password_calls machine.key_calls machine.disk directory
      ≡ ok credentials
    → IsReady hmac rsa handshake machine c credentials w
unfolding start check_arguments
start-IsReady hmac rsa handshake machine path directory c credentials w h k =
    let v = load-validate machine.config_codec machine.config_calls path machine.disk c h in
    let u = validate-IsUsable c v in
    let a =
      load_credentials-IsAccepted machine.password_calls machine.key_calls machine.disk directory
        credentials k in
    record {
      key = record { key = credentials.identity_key };
      valid = runner_of-valid c _ v;
      arguments = rw (u.accepted, a.password_given) refl;
      ends = rw (a.generator, start) refl;
    }
