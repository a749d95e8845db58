-- ===== src/Collector/Reportable.antt =====
-- Every failure of the transport can be told in the log.
use dhcp_lease_observer.Prelude.{
  ◌≡◌, ◌≢◌, ◌∙◌, refl, sym, inl, inr, Bool, true, false, [], ◌∷◌, ◌++◌, arith, ok, ltb, length,
  differ,
}
use dhcp_lease_observer.Text.{Bytes, codes, is_failure_class, bytes_eq, bytes_beq}
use dhcp_lease_observer.Clock.{Time, utc, is_zero_time}
use dhcp_lease_observer.Session
use dhcp_lease_observer.Session.Prompt.{is_fixed_command}
use dhcp_lease_observer.Session.Failures.{IsFraming}
use dhcp_lease_observer.Transport
use dhcp_lease_observer.Transport.{ErrorKind, error_text}
use dhcp_lease_observer.Transport.Dial.{CallError}
use dhcp_lease_observer.Transport.Collect.Failures.{
  IsKnown, framing, refused, other_host, transport, plain,
}
use dhcp_lease_observer.Output.{
  valid_fixed_command, is_authorization, status_validate, valid_label_id,
}
use dhcp_lease_observer.Collector.{Runner, Failure, classify_error, failure_status, is_label}
use dhcp_lease_observer.Collector.Source.{collect_error}

-- A class that the log takes, alone and for the ARP table, with a fixed command just for a rejected
-- authorization.
pub record IsReportable (class command : Bytes) : Type 0 where
  pub class_valid : is_failure_class class ≡ true
  pub command_valid : differ (is_authorization class) (valid_fixed_command command) ≡ false
  pub arp_short : ltb 64 (length (codes "arp_" ++ class)) ≡ false
  pub arp_class_valid : is_failure_class (codes "arp_" ++ class) ≡ true
  pub arp_command_valid :
      differ (is_authorization (codes "arp_" ++ class)) (valid_fixed_command command) ≡ false

error_text-IsReportable : (kind : ErrorKind) → IsReportable (error_text kind) []
unfolding is_failure_class is_authorization valid_fixed_command bytes_beq
error_text-IsReportable Transport.invalid_config = record {
  class_valid = refl;
  command_valid = refl;
  arp_short = refl;
  arp_class_valid = refl;
  arp_command_valid = refl;
}
error_text-IsReportable Transport.connect_failed = record {
  class_valid = refl;
  command_valid = refl;
  arp_short = refl;
  arp_class_valid = refl;
  arp_command_valid = refl;
}
error_text-IsReportable Transport.handshake_failed = record {
  class_valid = refl;
  command_valid = refl;
  arp_short = refl;
  arp_class_valid = refl;
  arp_command_valid = refl;
}
error_text-IsReportable Transport.handshake_timeout = record {
  class_valid = refl;
  command_valid = refl;
  arp_short = refl;
  arp_class_valid = refl;
  arp_command_valid = refl;
}
error_text-IsReportable Transport.authentication_timeout = record {
  class_valid = refl;
  command_valid = refl;
  arp_short = refl;
  arp_class_valid = refl;
  arp_command_valid = refl;
}
error_text-IsReportable Transport.session_failed = record {
  class_valid = refl;
  command_valid = refl;
  arp_short = refl;
  arp_class_valid = refl;
  arp_command_valid = refl;
}
error_text-IsReportable Transport.response_limit = record {
  class_valid = refl;
  command_valid = refl;
  arp_short = refl;
  arp_class_valid = refl;
  arp_command_valid = refl;
}

acquisition-IsReportable : IsReportable (codes "acquisition_failed") []
unfolding is_failure_class is_authorization valid_fixed_command bytes_beq
acquisition-IsReportable = record {
  class_valid = refl;
  command_valid = refl;
  arp_short = refl;
  arp_class_valid = refl;
  arp_command_valid = refl;
}

abbrev is_silent : Session.FailureKind → Bool
is_silent Session.authorization = false
is_silent (Session.other text) = false
is_silent _ = true

kind_text-IsReportable :
    (kind : Session.FailureKind) → is_silent kind ≡ true → IsReportable (Session.kind_text kind) []
unfolding is_failure_class is_authorization valid_fixed_command bytes_beq
kind_text-IsReportable Session.unexpected_eof h = record {
  class_valid = refl;
  command_valid = refl;
  arp_short = refl;
  arp_class_valid = refl;
  arp_command_valid = refl;
}
kind_text-IsReportable Session.timeout h = record {
  class_valid = refl;
  command_valid = refl;
  arp_short = refl;
  arp_class_valid = refl;
  arp_command_valid = refl;
}
kind_text-IsReportable Session.authentication h = record {
  class_valid = refl;
  command_valid = refl;
  arp_short = refl;
  arp_class_valid = refl;
  arp_command_valid = refl;
}
kind_text-IsReportable Session.authorization h = absurd (cc)
kind_text-IsReportable Session.host_key_mismatch h = record {
  class_valid = refl;
  command_valid = refl;
  arp_short = refl;
  arp_class_valid = refl;
  arp_command_valid = refl;
}
kind_text-IsReportable Session.config_occupied h = record {
  class_valid = refl;
  command_valid = refl;
  arp_short = refl;
  arp_class_valid = refl;
  arp_command_valid = refl;
}
kind_text-IsReportable Session.pager_detected h = record {
  class_valid = refl;
  command_valid = refl;
  arp_short = refl;
  arp_class_valid = refl;
  arp_command_valid = refl;
}
kind_text-IsReportable Session.prompt_mismatch h = record {
  class_valid = refl;
  command_valid = refl;
  arp_short = refl;
  arp_class_valid = refl;
  arp_command_valid = refl;
}
kind_text-IsReportable Session.parse h = record {
  class_valid = refl;
  command_valid = refl;
  arp_short = refl;
  arp_class_valid = refl;
  arp_command_valid = refl;
}
kind_text-IsReportable Session.command_echo_mismatch h = record {
  class_valid = refl;
  command_valid = refl;
  arp_short = refl;
  arp_class_valid = refl;
  arp_command_valid = refl;
}
kind_text-IsReportable (Session.other text) h = absurd (cc)

authorization-IsReportable :
    (command : Bytes)
    → is_fixed_command command ≡ true
    → IsReportable (Session.kind_text Session.authorization) command
unfolding is_failure_class is_authorization valid_fixed_command is_fixed_command bytes_beq
authorization-IsReportable command h = record {
  class_valid = refl;
  command_valid = rw h refl;
  arp_short = refl;
  arp_class_valid = refl;
  arp_command_valid = rw h refl;
}

framing-IsReportable :
    (f : Session.Failure) → IsFraming f → IsReportable (Session.kind_text f.kind) f.command
framing-IsReportable f i = elim i.kinds [
  | inl h ↦ silent h (λ a. cc) refl
  | inr (inl h) ↦ silent h (λ a. cc) refl
  | inr (inr (inl h)) ↦ silent h (λ a. cc) refl
  | inr (inr (inr (inl h))) ↦ silent h (λ a. cc) refl
  | inr (inr (inr (inr (inl h)))) ↦ silent h (λ a. cc) refl
  | inr (inr (inr (inr (inr (inl h))))) ↦ silent h (λ a. cc) refl
  | inr (inr (inr (inr (inr (inr h))))) ↦ rw h (authorization-IsReportable f.command (i.named h))
]
  where
    silent :
        {k : Session.FailureKind}
        → f.kind ≡ k
        → k ≢ Session.authorization
        → is_silent k ≡ true
        → IsReportable (Session.kind_text f.kind) f.command
    silent {k} h n s = rw (h, i.silent (λ a. n (sym h ∙ a))) (kind_text-IsReportable k s)

pub IsKnown-IsReportable :
    (e : CallError)
    → IsKnown e
    → IsReportable
        (classify_error (collect_error e)).kind
        (classify_error (collect_error e)).command
unfolding classify_error collect_error Session.new_failure
IsKnown-IsReportable e (framing f i) = framing-IsReportable f i
IsKnown-IsReportable e refused = kind_text-IsReportable Session.authentication refl
IsKnown-IsReportable e other_host = kind_text-IsReportable Session.host_key_mismatch refl
IsKnown-IsReportable e (transport t) = error_text-IsReportable t.kind
IsKnown-IsReportable e (plain s) = acquisition-IsReportable

is_label-valid_label_id : (s : Bytes) → is_label s ≡ true → valid_label_id s ≡ true
unfolding is_label valid_label_id
is_label-valid_label_id [] h = cc
is_label-valid_label_id (c ∷ s) h = ground arith

pub failure_status-valid :
    (runner : Runner) (t : Time) (f : Failure)
    → is_label runner.source_name ≡ true
    → is_label runner.source_instance ≡ true
    → is_zero_time t ≡ false
    → is_failure_class f.kind ≡ true
    → differ (is_authorization f.kind) (valid_fixed_command f.command) ≡ false
    → status_validate (failure_status runner (utc t) f) ≡ ok tt
unfolding status_validate bytes_beq
failure_status-valid runner t f n i z c d =
    rw
      (
        is_label-valid_label_id runner.source_name n,
        is_label-valid_label_id runner.source_instance i,
        z,
        c,
        d,
      )
      refl
