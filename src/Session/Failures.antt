-- ===== src/Session/Failures.antt =====
-- What the failures of `ExtractCompleteCommandBody` hold.
use dhcp_lease_observer.Prelude.{
  ◌≡◌, ◌≢◌, refl, ◌⊎◌, subst, ◌↔◌, inl, inr, true, false, List, [], ◌∷◌, take, arith, Result, ok,
  err, Bool-cases, Option-cases, Result-cases,
}
use dhcp_lease_observer.Text.{Bytes, codes, contains, bytes_eq}
use dhcp_lease_observer.Text.Space.{trim_space, split_lines, replace_crlf, to_lower}
use dhcp_lease_observer.Session.Prompt.{is_prompt_like, is_fixed_command}
use dhcp_lease_observer.Session.Lines.{last_content_line, line_at}
use dhcp_lease_observer.Session.{
  unexpected_eof, timeout, authorization, config_occupied, pager_detected, prompt_mismatch,
  command_echo_mismatch, TerminalEvent, eof, timed_out, other_event, Failure, new_failure,
  command_failure, failed, authorization_rejected, strip_echo, accept_body, incomplete, frame_body,
  extract, ExtractError,
}

-- What a failure of framing holds: a kind of its own, retryable just for these three kinds, and a
-- fixed command beside a rejected authorization, and none beside the others.
pub record IsFraming (f : Failure) : Type 0 where
  pub kinds :
      (f.kind ≡ unexpected_eof)
      ⊎ (f.kind ≡ timeout)
      ⊎ (f.kind ≡ config_occupied)
      ⊎ (f.kind ≡ pager_detected)
      ⊎ (f.kind ≡ prompt_mismatch)
      ⊎ (f.kind ≡ command_echo_mismatch)
      ⊎ (f.kind ≡ authorization)
  pub retry :
      (f.retryable ≡ true)
      ↔ ((f.kind ≡ unexpected_eof) ⊎ (f.kind ≡ timeout) ⊎ (f.kind ≡ config_occupied))
  pub silent : f.kind ≢ authorization → f.command ≡ []
  pub named : f.kind ≡ authorization → is_fixed_command f.command ≡ true

pub eof-IsFraming : IsFraming (new_failure unexpected_eof)
unfolding new_failure
eof-IsFraming = record {
  kinds = ground arith;
  retry = (λ _. inl refl, λ _. refl);
  silent = λ _. refl;
  named = λ h. absurd (cc);
}

pub timeout-IsFraming : IsFraming (new_failure timeout)
unfolding new_failure
timeout-IsFraming = record {
  kinds = ground arith;
  retry = (λ _. ground arith, λ _. refl);
  silent = λ _. refl;
  named = λ h. absurd (cc);
}

occupied-IsFraming : IsFraming (new_failure config_occupied)
unfolding new_failure
occupied-IsFraming = record {
  kinds = ground arith;
  retry = (λ _. ground arith, λ _. refl);
  silent = λ _. refl;
  named = λ h. absurd (cc);
}

pager-IsFraming : IsFraming (new_failure pager_detected)
unfolding new_failure
pager-IsFraming = record {
  kinds = ground arith;
  retry = (λ h. ground arith, λ h. ground arith);
  silent = λ _. refl;
  named = λ h. absurd (cc);
}

pub prompt-IsFraming : IsFraming (new_failure prompt_mismatch)
unfolding new_failure
prompt-IsFraming = record {
  kinds = ground arith;
  retry = (λ h. ground arith, λ h. ground arith);
  silent = λ _. refl;
  named = λ h. absurd (cc);
}

echo-IsFraming : IsFraming (new_failure command_echo_mismatch)
unfolding new_failure
echo-IsFraming = record {
  kinds = ground arith;
  retry = (λ h. ground arith, λ h. ground arith);
  silent = λ _. refl;
  named = λ h. absurd (cc);
}

command-IsFraming :
    (command : Bytes)
    → is_fixed_command command ≡ true
    → IsFraming (record (new_failure authorization) { command = command })
unfolding new_failure
command-IsFraming command h = record {
  kinds = ground arith;
  retry = (λ h. ground arith, λ h. ground arith);
  silent = λ n. absurd (n refl);
  named = λ _. h;
}

same-IsFraming :
    {A : Type 0} (f g : Failure)
    → ◌≡◌ {A = Result ExtractError A} (err (failed f)) (err (failed g))
    → IsFraming f
    → IsFraming g
same-IsFraming {A} f g h v = subst IsFraming (failure-injective h) v
  where
    failure-injective : ◌≡◌ {A = Result ExtractError A} (err (failed f)) (err (failed g)) → f ≡ g
    failure-injective h = cc

strip_echo-IsFraming :
    (expected : Bytes) (body : List Bytes) (f : Failure)
    → strip_echo expected body ≡ err (failed f)
    → IsFraming f
unfolding strip_echo
strip_echo-IsFraming [] body f h = absurd (cc)
strip_echo-IsFraming (c ∷ cs) body f h =
    same-IsFraming {A = List Bytes} (new_failure command_echo_mismatch) f (ground arith)
      echo-IsFraming

accept_body-IsFraming :
    (expected prompt : Bytes) (lines : List Bytes) (f : Failure)
    → accept_body expected prompt lines ≡ err (failed f)
    → IsFraming f
unfolding accept_body
accept_body-IsFraming expected prompt lines f h = elim (Result-cases (strip_echo expected lines)) [
  | inr (e, s) ↦ strip_echo-IsFraming expected lines f (ground (arith, s))
  | inl (body, s) ↦ elim (Bool-cases (authorization_rejected body)) [
    | inl r ↦ rejected body s r (Bool-cases (is_fixed_command expected))
    | inr n ↦
        same-IsFraming {A = Bytes} (new_failure prompt_mismatch) f (ground (arith, s, n))
          prompt-IsFraming
  ]
]
  where
    rejected :
        (body : List Bytes)
        → strip_echo expected lines ≡ ok body
        → authorization_rejected body ≡ true
        → (is_fixed_command expected ≡ true) ⊎ (is_fixed_command expected ≡ false)
        → IsFraming f
    rejected body s r (inl fixed) =
        same-IsFraming {A = Bytes} (record (new_failure authorization) { command = expected }) f
          (unfold command_failure in ground (arith, s, r, fixed)) (command-IsFraming expected fixed)
    rejected body s r (inr free) = absurd (unfold command_failure in ground (arith, s, r, free))

frame_body-IsFraming :
    (lines : List Bytes) (event : TerminalEvent) (expected : Bytes) (f : Failure)
    → frame_body lines event expected ≡ err (failed f)
    → IsFraming f
unfolding frame_body
frame_body-IsFraming lines event expected f h = elim (Option-cases (last_content_line lines)) [
  | inl e ↦ incomplete-IsFraming event (rw (e, frame_body) at h)
  | inr (n, e) ↦ elim (Bool-cases (is_prompt_like (trim_space (line_at n lines)))) [
    | inl p ↦
        accept_body-IsFraming expected (trim_space (line_at n lines)) (take n lines) f
          (rw (e, p, frame_body) at h)
    | inr q ↦ incomplete-IsFraming event (rw (e, q, frame_body) at h)
  ]
]
  where
    incomplete-IsFraming : (event : TerminalEvent) → incomplete event ≡ err (failed f) → IsFraming f
    incomplete-IsFraming eof h =
        same-IsFraming {A = Bytes} (new_failure unexpected_eof) f (unfold incomplete in h)
          eof-IsFraming
    incomplete-IsFraming timed_out h =
        same-IsFraming {A = Bytes} (new_failure timeout) f (unfold incomplete in h)
          timeout-IsFraming
    incomplete-IsFraming (other_event e) h = absurd (unfold incomplete in cc)

-- Every failure of `ExtractCompleteCommandBody` is of one of seven kinds, retryable exactly for the
-- end of the channel, the timeout and the occupied config process, and names one of the five fixed
-- commands for a rejected authorization, and no command for the others.
pub extract-IsFraming :
    (transcript : Bytes) (event : TerminalEvent) (expected : Bytes) (f : Failure)
    → extract transcript event expected ≡ err (failed f)
    → IsFraming f
unfolding extract
extract-IsFraming transcript event expected f h =
    let text = replace_crlf transcript in
    elim (Bool-cases (contains text (codes "--More--"))) [
      | inl p ↦
          same-IsFraming {A = Bytes} (new_failure pager_detected) f (rw p at h) pager-IsFraming
      | inr p ↦ elim (Bool-cases (contains (to_lower text) (codes "config process is occupied"))) [
        | inl l ↦
            same-IsFraming {A = Bytes} (new_failure config_occupied) f (rw (p, l) at h)
              occupied-IsFraming
        | inr l ↦ frame_body-IsFraming (split_lines text) event expected f (rw (p, l) at h)
      ]
    ]
