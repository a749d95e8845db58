-- ===== src/Session/RoundTrip.antt =====
-- A complete response is read back: the echo and the prompt go, the body stays.
use dhcp_lease_observer.Prelude.{
  suc, ◌≡◌, refl, ◌∙◌, ◌≢◌, true, false, List, [], ◌∷◌, ◌++◌, take, arith, ok, All, length, eq_self,
  ap,
}
use dhcp_lease_observer.Text.{Bytes, codes, contains, bytes_eq, is_empty}
use dhcp_lease_observer.Text.Space.{trim_space, join_lines, to_lower}
use dhcp_lease_observer.Text.Space.Lines.{
  is_line, replace_crlf_plain, split_lines-join_lines, has_no_return-join_lines,
}
use dhcp_lease_observer.Session.Prompt.{is_config_prompt, is_prompt_like, span_label}
use dhcp_lease_observer.Session.Lines.{
  first_content_line, line_at, last_content_line-append, line_at-append,
}
use dhcp_lease_observer.Session.Safety.{frame_body_lem}
use dhcp_lease_observer.Session.{
  TerminalEvent, authorization_rejected, strip_echo, accept_body, frame_body, extract,
}

-- A response: the echo of a command, the lines of its body, and a config prompt.
pub record IsResponse (command echo : Bytes) (body : List Bytes) (prompt : Bytes) : Type 0 where
  pub lines : All (λ l. is_line l ≡ true) (echo ∷ (body ++ prompt ∷ []))
  pub named : command ≢ []
  pub echoed : trim_space echo ≡ command
  pub prompted : is_config_prompt (trim_space prompt) ≡ true
  pub no_pager : contains (join_lines (echo ∷ (body ++ prompt ∷ []))) (codes "--More--") ≡ false
  pub no_lock :
      contains
        (to_lower (join_lines (echo ∷ (body ++ prompt ∷ []))))
        (codes "config process is occupied")
      ≡ false
  pub authorized : authorization_rejected body ≡ false

is_prompt_like_config : (s : Bytes) → is_config_prompt s ≡ true → is_prompt_like s ≡ true
unfolding is_config_prompt is_prompt_like
is_prompt_like_config s h = ground arith

nonempty_prompt : (s : Bytes) → is_config_prompt s ≡ true → is_empty s ≡ false
unfolding is_config_prompt span_label
nonempty_prompt [] h = cc
nonempty_prompt (c ∷ s) h = refl

take-length : (ls : List Bytes) (l : Bytes) → take (length ls) (ls ++ l ∷ []) ≡ ls
take-length [] l = refl
take-length (k ∷ ls) l = ap (◌∷◌ k) (take-length ls l)

strip_echo_first :
    (command echo : Bytes) (body : List Bytes)
    → command ≢ []
    → trim_space echo ≡ command
    → strip_echo command (echo ∷ body) ≡ ok body
unfolding strip_echo first_content_line
strip_echo_first [] echo body n e = absurd (n refl)
strip_echo_first (c ∷ cs) echo body n e = ground (arith, e, eq_self (c ∷ cs))

frame_body-append :
    (command echo : Bytes) (body : List Bytes) (prompt : Bytes) (event : TerminalEvent)
    → IsResponse command echo body prompt
    → frame_body (echo ∷ (body ++ prompt ∷ [])) event command ≡ ok (join_lines body)
unfolding accept_body
frame_body-append command echo body prompt event r =
    frame_body_lem (echo ∷ (body ++ prompt ∷ [])) event command (suc (length body))
      (last_content_line-append (echo ∷ body) prompt (nonempty_prompt _ r.prompted))
      (ap is_prompt_like (ap trim_space (line_at-append body prompt))
        ∙ is_prompt_like_config _ r.prompted)
    ∙ accepted
  where
    accepted :
        accept_body command
          (trim_space (line_at (length body) (body ++ prompt ∷ [])))
          (echo ∷ take (length body) (body ++ prompt ∷ []))
        ≡ ok (join_lines body)
    accepted = rw (
      line_at-append body prompt,
      take-length body prompt,
      strip_echo_first command echo body r.named r.echoed,
      r.authorized,
      r.prompted,
    )

-- From a response to a non-empty command, without a carriage return, a pager line or a lock message,
-- whose first line without the spaces around it is the command, whose last line without the spaces
-- around it is a config prompt, and whose body is not one that rejects the authorization, `extract`
-- returns exactly the body's lines, whatever the terminal event was.
pub extract-join_lines :
    (command echo : Bytes) (body : List Bytes) (prompt : Bytes) (event : TerminalEvent)
    → IsResponse command echo body prompt
    → extract (join_lines (echo ∷ (body ++ prompt ∷ []))) event command ≡ ok (join_lines body)
unfolding extract
extract-join_lines command echo body prompt event r =
    let response = echo ∷ (body ++ prompt ∷ []) in
    rw
      (
        replace_crlf_plain (join_lines response) (has_no_return-join_lines response r.lines),
        r.no_pager,
        r.no_lock,
        split_lines-join_lines echo (body ++ prompt ∷ []) r.lines,
      )
      (frame_body-append command echo body prompt event r)
