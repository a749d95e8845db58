-- ===== src/Tests/Whole.antt =====
-- A run that succeeds, from the source's answer to the files.
use dhcp_lease_observer.Prelude.{
  ◌≡◌, refl, false, Result, ok, scale, wrap64, ◌+ℤ◌, ◌-ℤ◌, check_each, seen, insert_sorted,
  sort_slice,
}
use dhcp_lease_observer.State
use dhcp_lease_observer.Parser.Arp.{
  arp_lines, arp_table, counted_table, match_refresh, match_summary, parse_arp, parse_arp_counts,
  parse_arp_row, scan_neighbors,
}
use dhcp_lease_observer.Parser.Fields.{
  after_prefix, is_address_field, is_mac_field, number_after, row_fields, span_digits, split_at,
  squeeze,
}
use dhcp_lease_observer.Parser.Lease.{
  classify_row, drop_prompt, lease_lines, lease_table, match_count, match_row, parse_lease,
  parse_lease_row, reported, scan_rows,
}
use dhcp_lease_observer.Parser.Numbers.{decimal, magnitude, parse_int}
use dhcp_lease_observer.Parser.Transcript.{
  drop_empty_end, drop_return, limit_reader, read_lines, read_transcript_lines,
}
use dhcp_lease_observer.Session.Prompt.{is_config_prompt, span_label}
use dhcp_lease_observer.Text.{
  bytes_beq, bytes_less, contains, has_prefix, is_alnum, is_digit, is_failure_class, is_id_byte,
  is_label_byte,
}
use dhcp_lease_observer.Text.Space.{
  to_lower, is_ascii_space, join_lines, space_width, space_width_back, split_lines, split_onto,
  trim_left_from, trim_space,
}
use dhcp_lease_observer.Net.{parse_addr4}
use dhcp_lease_observer.Model.Mac.{
  hex_digit, hex_pair, hex_value, is_zero, mac_beq, mac_string, parse_mac_address, parse_pairs,
  parse_quads,
}
use dhcp_lease_observer.Model.{
  arp_table_validate, check_neighbors, lease_table_validate, neighbor_validate, record_validate,
  snapshot_validate,
}
use dhcp_lease_observer.State.{arp_validate, lease_validate}
use dhcp_lease_observer.State.Diff.{
  bound_events, by_device, current_events, diff, finish, removed_events, transition,
}
use dhcp_lease_observer.State.Event.{
  event_from_lease, event_less, event_validate, type_validate, validate_events,
}
use dhcp_lease_observer.State.Normalize.{normalize, normalize_record, normalize_records}
use dhcp_lease_observer.State.OpaqueId.{opaque_id_pattern, valid_opaque_id}
use dhcp_lease_observer.Identity.{device_id, initialized, key_id, sum}
use dhcp_lease_observer.Base64.{decode, url_value, encode_url, url_digit}
use dhcp_lease_observer.Clock.{add_time, negate, seconds, sub_time}
use dhcp_lease_observer.Output.{
  check_events, encode, encode_events, is_authorization, status_validate, valid_fixed_command,
  valid_label_id, write_events, write_status_event,
}
use dhcp_lease_observer.Output.Metrics.{device_id_pattern, metrics_validate}
use dhcp_lease_observer.Collector.{
  classify_error, fail, is_label, metrics_of, report, save_prometheus, save_state,
}
use dhcp_lease_observer.Collector.Prepare.{prepare, read_arp}
use dhcp_lease_observer.Collector.Run.{
  attempt, commit, log_plan, publish, run, runner_valid, store_plan,
}
use dhcp_lease_observer.Collector.{Env, World, Failure, RunResult, replaced}
use dhcp_lease_observer.Collector.Done.{IsSuccess, run-IsSuccess}
use dhcp_lease_observer.Tests.Samples.{checksum}
use dhcp_lease_observer.Tests.Collector.{env, runner, world}

abbrev writable : Env
writable = record env { metrics_write = replaced }

-- What a run computes with.
unfoldable pub run_of : Env → Result Failure RunResult × World
unfolding arp_lines arp_table counted_table match_refresh match_summary parse_arp parse_arp_counts
    parse_arp_row scan_neighbors after_prefix is_address_field is_mac_field number_after row_fields
    span_digits split_at squeeze classify_row drop_prompt lease_lines lease_table match_count
    match_row parse_lease parse_lease_row reported scan_rows decimal magnitude parse_int
    drop_empty_end drop_return limit_reader read_lines read_transcript_lines bytes_less contains
    has_prefix is_alnum is_digit is_failure_class is_id_byte is_label_byte is_ascii_space join_lines
    space_width space_width_back split_lines split_onto trim_left_from trim_space parse_addr4
    hex_digit hex_pair hex_value is_zero mac_beq mac_string parse_mac_address parse_pairs
    parse_quads arp_table_validate check_neighbors lease_table_validate neighbor_validate
    record_validate snapshot_validate scale wrap64 ◌+ℤ◌ ◌-ℤ◌ check_each seen insert_sorted
    sort_slice arp_validate lease_validate State.validate bound_events by_device current_events diff
    finish removed_events transition event_from_lease event_less event_validate type_validate
    validate_events normalize normalize_record normalize_records opaque_id_pattern valid_opaque_id
    device_id initialized key_id sum encode_url url_digit add_time negate seconds sub_time
    check_events encode encode_events is_authorization status_validate valid_fixed_command
    valid_label_id write_events write_status_event device_id_pattern metrics_validate classify_error
    fail is_label metrics_of report save_prometheus save_state prepare read_arp attempt commit
    log_plan publish run runner_valid store_plan to_lower bytes_beq is_config_prompt span_label
    decode url_value
run_of e = run checksum e runner world

succeeds :
    (run checksum writable runner world).0 ≡ ok (record { events = 1; arp_available = false })
unfolding run_of
succeeds = refl

run-IsSuccess_example :
    IsSuccess checksum writable runner
      (record { events = 1; arp_available = false })
      world
      (run checksum writable runner world).1
run-IsSuccess_example = run-IsSuccess checksum writable runner world _ succeeds
