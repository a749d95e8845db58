-- ===== src/Tests/Buffer.antt =====
-- A frame that arrives, and a reader that waits for it.
use dhcp_lease_observer.Prelude.{◌+◌, ◌*◌, ◌≤◌, ◌≡◌, refl, true, ◌++◌, Bool, arith}
use dhcp_lease_observer.Text.{
  Bytes, codes, contains, has_prefix, bytes_beq, is_label_byte, is_alnum,
}
use dhcp_lease_observer.Text.Space.{trim_space, split_lines, replace_crlf, to_lower}
use dhcp_lease_observer.Session.Prompt.{is_prompt_like, span_label}
use dhcp_lease_observer.Session.Lines.{last_content_line}
use dhcp_lease_observer.Transport.Buffer.{
  System, signal, signal_reader, Reach, here, next, arrive, examine, initial, waiting, write_bytes,
  look, complete_frame, last_content, is_ready,
}
use dhcp_lease_observer.Transport.Buffer.Ending.{OwnRun, start, then_own, CanGoOn, OwnRun-ends}
use dhcp_lease_observer.Transport.Buffer.Invariant.{IsInvariant, Reach-IsInvariant}
use dhcp_lease_observer.Transport.Buffer.Progress.{
  Returns, answer, waiting-Returns, IsLost, arrived-IsLost,
}

abbrev prompt : Bytes
prompt = codes "r(config)%"

-- The reader finds nothing; then a frame arrives, and its signal is still to come.
abbrev state : System
state = record (initial 16) {
  buffer = write_bytes prompt (initial 16).buffer;
  signals = 1;
  reader = look (initial 16).buffer;
}

abbrev run : Reach (initial 16) state
run = next (next here (examine refl)) (arrive prompt)

Reach-IsInvariant_example : IsInvariant 16 state
Reach-IsInvariant_example = Reach-IsInvariant 16 run

-- What a reader computes with.
complete_run : Bytes → Bool
unfolding complete_frame last_content last_content_line is_prompt_like span_label trim_space
    split_lines replace_crlf to_lower bytes_beq contains has_prefix is_label_byte is_alnum
complete_run d = complete_frame d

waits : state.reader ≡ waiting
unfolding look complete_run
waits = refl

ready : is_ready state.buffer ≡ true
unfolding write_bytes complete_run
ready = refl

waiting-Returns_example : Returns state (answer state.buffer)
waiting-Returns_example = waiting-Returns 16 run waits ready

prompt_complete : complete_frame prompt ≡ true
unfolding complete_run
prompt_complete = refl

arrived-IsLost_example : (s : System) × IsLost 16 prompt (prompt ++ codes "more") s
arrived-IsLost_example = arrived-IsLost 16 prompt (codes "more") prompt_complete (omega arith)

-- The writer gives its signal.
abbrev signalled : System
signalled = record state { buffer = signal_reader state.buffer; signals = 0 }

one_step : OwnRun state 1 signalled
one_step = then_own start (signal 0 refl) refl

OwnRun-ends_example : (1 ≤ 4 * state.signals + 7) × CanGoOn signalled
OwnRun-ends_example = OwnRun-ends one_step
