-- ===== src/Tests/Session.antt =====
-- Transcripts of one command, and the theorems on them.
use dhcp_lease_observer.Prelude.{◌≡◌, refl, ok, err, List, [], ◌∷◌, arith}
use dhcp_lease_observer.Text.{Bytes, codes, bytes_beq}
use dhcp_lease_observer.Text
use dhcp_lease_observer.Text.Space.{trim_space, split_lines, join_lines, replace_crlf, to_lower}
use dhcp_lease_observer.Session.Prompt.{span_label, is_config_prompt, is_prompt_like}
use dhcp_lease_observer.Session.Lines.{first_content_line, last_content_line}
use dhcp_lease_observer.Session.Safety.{IsComplete, extract-IsComplete, extract_event}
use dhcp_lease_observer.Session.Failures.{IsFraming, extract-IsFraming}
use dhcp_lease_observer.Session.RoundTrip.{IsResponse, extract-join_lines}
use dhcp_lease_observer.Session.{
  eof, timed_out, pager_detected, failed, new_failure, authorization_rejected, strip_echo,
  accept_body, frame_body, extract,
}

abbrev command : Bytes
command = codes "show arp entry"

abbrev prompt : Bytes
prompt = codes "ix2106(config)%"

abbrev body : List Bytes
body = codes "first row" ∷ codes "second row" ∷ []

abbrev transcript : Bytes
transcript = codes "show arp entry\nfirst row\nsecond row\nix2106(config)%"

abbrev paged_transcript : Bytes
paged_transcript = codes "show arp entry\n--More--"

accepted : extract transcript timed_out command ≡ ok (codes "first row\nsecond row")
unfolding extract frame_body accept_body strip_echo authorization_rejected first_content_line
    last_content_line is_config_prompt is_prompt_like span_label trim_space split_lines join_lines
    replace_crlf to_lower bytes_beq Text.contains Text.has_prefix Text.is_label_byte Text.is_alnum
accepted = refl

paged : extract paged_transcript eof command ≡ err (failed (new_failure pager_detected))
unfolding extract replace_crlf Text.contains Text.has_prefix
paged = refl

extract-IsComplete_example : IsComplete transcript
extract-IsComplete_example =
    extract-IsComplete transcript timed_out command (codes "first row\nsecond row") accepted

accepted_at_end : extract transcript eof command ≡ ok (codes "first row\nsecond row")
accepted_at_end =
    extract_event transcript timed_out eof command (codes "first row\nsecond row") accepted

extract-IsFraming_example : IsFraming (new_failure pager_detected)
extract-IsFraming_example =
    extract-IsFraming paged_transcript eof command (new_failure pager_detected) paged

response : IsResponse command command body prompt
unfolding authorization_rejected first_content_line last_content_line is_config_prompt span_label
    trim_space join_lines to_lower bytes_beq Text.contains Text.has_prefix Text.is_label_byte
    Text.is_alnum
response = record {
  lines = ground arith;
  named = λ e. cc;
  echoed = refl;
  prompted = refl;
  no_pager = refl;
  no_lock = refl;
  authorized = refl;
}

extract-join_lines_example :
    extract
      (join_lines (command ∷ codes "first row" ∷ codes "second row" ∷ prompt ∷ []))
      eof
      command
    ≡ ok (join_lines body)
extract-join_lines_example = extract-join_lines command command body prompt eof response
