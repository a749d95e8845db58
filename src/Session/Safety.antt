-- ===== src/Session/Safety.antt =====
-- When `ExtractCompleteCommandBody` accepts a transcript, and what its failures hold.
use dhcp_lease_observer.Prelude.{
  ℕ, ◌≡◌, ◌∙◌, ◌≢◌, inl, inr, true, false, some, List, take, arith, ok, Bool-cases, Option-cases,
  reject-eq-ok,
}
use dhcp_lease_observer.Text.{Bytes, codes, contains, bytes_eq}
use dhcp_lease_observer.Text.Space.{trim_space, split_lines, replace_crlf, to_lower}
use dhcp_lease_observer.Session.Prompt.{is_config_prompt, is_prompt_like}
use dhcp_lease_observer.Session.Lines.{last_content_line, line_at}
use dhcp_lease_observer.Session.{
  TerminalEvent, eof, timed_out, other_event, accept_body, incomplete, frame_body, extract,
}

-- A transcript that ends, but for white space, in the config prompt, with no pager and no lock.
pub record IsComplete (transcript : Bytes) : Type 0 where
  pub no_pager : contains (replace_crlf transcript) (codes "--More--") ≡ false
  pub no_lock :
      contains (to_lower (replace_crlf transcript)) (codes "config process is occupied") ≡ false
  pub last : ℕ
  pub last_line : last_content_line (split_lines (replace_crlf transcript)) ≡ some last
  pub prompt :
      is_config_prompt (trim_space (line_at last (split_lines (replace_crlf transcript)))) ≡ true

accept_body-is_config_prompt :
    (expected prompt : Bytes) (lines : List Bytes) {body : Bytes}
    → accept_body expected prompt lines ≡ ok body
    → is_config_prompt prompt ≡ true
unfolding accept_body
accept_body-is_config_prompt expected prompt lines h = ground arith

incomplete-ne-ok : (event : TerminalEvent) (body : Bytes) → incomplete event ≢ ok body
unfolding incomplete
incomplete-ne-ok eof body h = cc
incomplete-ne-ok timed_out body h = cc
incomplete-ne-ok (other_event e) body h = cc

-- An accepted list of lines has a last line with content, it looks like a prompt, and the result
-- is that of the lines before it.
frame_body-ok :
    (lines : List Bytes) (event : TerminalEvent) (expected body : Bytes)
    → frame_body lines event expected ≡ ok body
    → (n : ℕ) × (last_content_line lines ≡ some n)
      × (is_prompt_like (trim_space (line_at n lines)) ≡ true)
      × (accept_body expected (trim_space (line_at n lines)) (take n lines) ≡ ok body)
unfolding frame_body
frame_body-ok lines event expected body h = elim (Option-cases (last_content_line lines)) [
  | inl e ↦ absurd (incomplete-ne-ok event body (rw (e, frame_body) at h))
  | inr (n, e) ↦ elim (Bool-cases (is_prompt_like (trim_space (line_at n lines)))) [
    | inl p ↦ (n, e, p, rw (e, p, frame_body) at h)
    | inr q ↦ absurd (incomplete-ne-ok event body (rw (e, q, frame_body) at h))
  ]
]

pub frame_body_lem :
    (lines : List Bytes) (event : TerminalEvent) (expected : Bytes) (n : ℕ)
    → last_content_line lines ≡ some n
    → is_prompt_like (trim_space (line_at n lines)) ≡ true
    → frame_body lines event expected
      ≡ accept_body expected (trim_space (line_at n lines)) (take n lines)
unfolding frame_body
frame_body_lem lines event expected n e p = ground (arith, e, p)

-- A body is returned only for a transcript that ends in the config prompt, shows no pager and no
-- occupied config process.
pub extract-IsComplete :
    (transcript : Bytes) (event : TerminalEvent) (expected body : Bytes)
    → extract transcript event expected ≡ ok body
    → IsComplete transcript
unfolding extract
extract-IsComplete transcript event expected body h =
    let text = replace_crlf transcript in
    let (p, h₁) = reject-eq-ok (contains text (codes "--More--")) _ _ h in
    let (l, h₂) =
      reject-eq-ok (contains (to_lower text) (codes "config process is occupied")) _ _ h₁ in
    let (n, e, q, a) = frame_body-ok (split_lines text) event expected body h₂ in
    record {
      no_pager = p;
      no_lock = l;
      last = n;
      last_line = e;
      prompt = accept_body-is_config_prompt expected _ (take n (split_lines text)) a;
    }

-- A body that `extract` returns for one terminal event is returned for every other.
pub extract_event :
    (transcript : Bytes) (event event' : TerminalEvent) (expected body : Bytes)
    → extract transcript event expected ≡ ok body
    → extract transcript event' expected ≡ ok body
unfolding extract
extract_event transcript event event' expected body h =
    let text = replace_crlf transcript in
    let (p, h₁) = reject-eq-ok (contains text (codes "--More--")) _ _ h in
    let (l, h₂) =
      reject-eq-ok (contains (to_lower text) (codes "config process is occupied")) _ _ h₁ in
    let (n, e, q, a) = frame_body-ok (split_lines text) event expected body h₂ in
    rw (p, l) (frame_body_lem (split_lines text) event' expected n e q ∙ a)
