-- ===== src/Config/Usable.antt =====
-- What a configuration and credentials that load are good for.
use dhcp_lease_observer.Prelude.{
  ℕ, ◌*◌, ◌≤◌, ◌≡◌, ◌≢◌, refl, true, false, arith, ok, reject-eq-ok, wrap-eq-ok, ℤ, pos, negsuc,
  leb_ℤ, ltb_ℤ, ne_of_eq_false,
}
use dhcp_lease_observer.Text.{Bytes, bytes_eq}
use dhcp_lease_observer.Clock.{nanoseconds, seconds, seconds-pos}
use dhcp_lease_observer.Transport
use dhcp_lease_observer.Collector.{is_label}
use dhcp_lease_observer.Config.{
  Config, invalid_config, valid_label, valid_timeout, collection_timeout, transport, validate,
  as_invalid, names_invalid, overall_invalid, timeouts_invalid, frame_limit_invalid, paths_invalid,
}

-- A duration of so many seconds, exactly, and between one second and a minute.
pub record IsTimeout (value : ℤ) (overall duration : ℤ) : Type 0 where
  pub count : ℕ
  pub value_is : value ≡ pos count
  pub exact : duration ≡ pos (count * nanoseconds)
  pub positive : 1 ≤ count
  pub small : count ≤ 60
  pub within : leb_ℤ duration overall ≡ true

valid_timeout-IsTimeout :
    (value overall : ℤ)
    → valid_timeout value overall ≡ true
    → ltb_ℤ (pos 300) overall ≡ false
    → IsTimeout value (seconds overall) (seconds value)
unfolding valid_timeout
valid_timeout-IsTimeout (negsuc n) o h b = absurd (ground arith)
valid_timeout-IsTimeout (pos n) (negsuc o) h b = absurd (ground arith)
valid_timeout-IsTimeout (pos n) (pos o) h b = record {
  count = n;
  value_is = refl;
  exact = seconds-pos n (ground arith);
  positive = ground arith;
  small = ground arith;
  within = rw (seconds-pos n (ground arith), seconds-pos o (ground arith)) (ground arith);
}

-- What follows from a valid configuration: names that a runner and the events take, timeouts that
-- are exact, between a second and a minute and within the one of the collection, a limit of frames
-- and a configuration that the transport takes, and two different files.
pub record IsUsable (c : Config) : Type 0 where
  pub instance_label : is_label c.source_instance ≡ true
  pub scope_label : is_label c.scope ≡ true
  pub connect :
      IsTimeout c.ix2106.connect_timeout_seconds
        (collection_timeout c)
        (transport c).connect_timeout
  pub handshake :
      IsTimeout c.ix2106.handshake_timeout_seconds
        (collection_timeout c)
        (transport c).handshake_timeout
  pub auth :
      IsTimeout c.ix2106.auth_timeout_seconds (collection_timeout c) (transport c).auth_timeout
  pub command :
      IsTimeout c.ix2106.command_timeout_seconds
        (collection_timeout c)
        (transport c).command_timeout
  pub frames : leb_ℤ (pos 4096) (transport c).max_frame_bytes ≡ true
  pub accepted : Transport.config_validate (transport c) ≡ ok tt
  pub apart : c.state_path ≢ c.prometheus_path

valid_label-is_label : (s : Bytes) → valid_label s ≡ true → is_label s ≡ true
unfolding valid_label is_label
valid_label-is_label s h = ground arith

-- A configuration that Validate accepts has labels that a runner takes, four timeouts that become
-- exact durations from a second to a minute, none longer than the collection's, with no overflow, a
-- limit of at least 4096 bytes for a frame, a transport configuration that the transport's Validate
-- accepts, and two different output files.
pub validate-IsUsable : (c : Config) → validate c ≡ ok tt → IsUsable c
unfolding validate transport collection_timeout
validate-IsUsable c h =
    let (names, h₁) = reject-eq-ok (names_invalid c) invalid_config _ h in
    let (overall, h₂) = reject-eq-ok (overall_invalid c) invalid_config _ h₁ in
    let (timeouts, h₃) = reject-eq-ok (timeouts_invalid c) invalid_config _ h₂ in
    let (limits, h₄) = reject-eq-ok (frame_limit_invalid c) invalid_config _ h₃ in
    let (paths, h₅) = reject-eq-ok (paths_invalid c) invalid_config _ h₄ in
    let timeout : (v : ℤ)
        → valid_timeout v c.collection_timeout_seconds ≡ true
        → IsTimeout v (seconds c.collection_timeout_seconds) (seconds v) =
      λ v t. valid_timeout-IsTimeout v c.collection_timeout_seconds t (ground (arith, overall)) in
    record {
      instance_label = valid_label-is_label c.source_instance (ground (arith, names));
      scope_label = valid_label-is_label c.scope (ground (arith, names));
      connect = timeout c.ix2106.connect_timeout_seconds (ground (arith, timeouts));
      handshake = timeout c.ix2106.handshake_timeout_seconds (ground (arith, timeouts));
      auth = timeout c.ix2106.auth_timeout_seconds (ground (arith, timeouts));
      command = timeout c.ix2106.command_timeout_seconds (ground (arith, timeouts));
      frames = ground (arith, limits);
      accepted = wrap-eq-ok as_invalid (Transport.config_validate (transport c)) h₅;
      apart = ne_of_eq_false c.state_path c.prometheus_path (ground (arith, paths));
    }
