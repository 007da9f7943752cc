-- ===== src/Tests/Parsers.antt =====
-- The parsers of mmparse.py and the helpers of utils.py on small inputs.
use vatic_udp.Prelude.{
  ℕ, ◌+◌, ◌*◌, List, [], ◌∷◌, ◌≡◌, ◌≢◌, ◌↔◌, refl, arith, length, range_from, get_elem?, false,
  some, ℤ, pos, ok, ◌*ℤ◌, map,
}
use vatic_udp.Py.Text.{codes}
use vatic_udp.Py.Decimal.{parse_int}
use vatic_udp.Mmparse.TraceFile.{TraceState, trace_start, trace_loop, parse_trace_file}
use vatic_udp.Mmparse.TraceFile.Counts.{parse_trace_file-counts}
use vatic_udp.Mmparse.Throughput.{
  TputState, tput_start, tput_loop, read_line, LogLine, init_line, base_line, event_line, comment,
  Column, capacity, arrival, departure,
}
use vatic_udp.Mmparse.Throughput.Columns.{cell_at, total, column_sum}
use vatic_udp.Mmparse.Throughput.Log.{
  read_log, events, bits_at, bits_total, tput_loop-bits_at, tput_loop-bits_total,
}
use vatic_udp.Mmparse.Throughput.Order.{bits_of_bin, tput_loop-InOrder}
use vatic_udp.Mmparse.Throughput.Report.{Report, scaled, result_dict, parse_mm_throughput}
use vatic_udp.Mmparse.Throughput.Report.Outcome.{
  parse_mm_throughput-ok_iff, parse_mm_throughput-bits_at, reported,
}
use vatic_udp.ChannelCapacity.{CapacityState, capacity_start, capacity_loop, read_fields}
use vatic_udp.ChannelCapacity.OnePacket.{in_megabits, capacity_loop-parse_trace_file}
use vatic_udp.Tests.Samples.{fraction_floats, trace_lines, log_lines}

trace_reads : parse_trace_file 1492 trace_lines ≡ ok ((2 * 1492 * 8) ∷ (1 * 1492 * 8) ∷ [])
unfolding parse_trace_file codes parse_int
trace_reads = refl

parse_trace_file-counts_example :
    (s : TraceState) × (trace_loop 1492 trace_lines trace_start ≡ ok s)
    × (s.bw ≡ (2 * 1492 * 8) ∷ (1 * 1492 * 8) ∷ [])
    × (35808 + 1492 * 8 * (2 + s.cnt) ≡ 1492 * 8 * 5)
    × (s.next_time ≡ 1000 * 3)
parse_trace_file-counts_example =
    parse_trace_file-counts 1492 trace_lines ((2 * 1492 * 8) ∷ (1 * 1492 * 8) ∷ []) trace_reads

abbrev log_state : TputState
log_state = record {
  init_timestamp = some (pos 1000000);
  base_timestamp = pos 100;
  ms_index = 0 ∷ 1 ∷ 2 ∷ [];
  rows =
      record { cap = pos 24000; arr = pos 11200; dep = pos 0 }
      ∷ record { cap = pos 0; arr = pos 0; dep = pos 0 }
      ∷ record { cap = pos 0; arr = pos 0; dep = pos 11200 }
      ∷ [];
  cap_total = pos 24000;
  dep_total = pos 11200;
  arr_total = pos 11200;
  bin_cur = 2;
  ms_elapsed = some (pos 220);
}

log_reads : tput_loop (pos 100) log_lines tput_start ≡ ok log_state
unfolding tput_loop codes parse_int
log_reads = refl

abbrev log_read : List LogLine
log_read =
    init_line (pos 1000000)
    ∷ base_line (pos 100)
    ∷ comment
    ∷ event_line (record { elapsed = pos 0; bin = pos 0; column = some capacity; bits = pos 12000 })
    ∷ event_line (record { elapsed = pos 50; bin = pos 0; column = some arrival; bits = pos 11200 })
    ∷ event_line
        (record { elapsed = pos 99; bin = pos 0; column = some capacity; bits = pos 12000 })
    ∷ event_line
        (record { elapsed = pos 220; bin = pos 2; column = some departure; bits = pos 11200 })
    ∷ []

log_is_read : read_log (pos 100) (pos 0) log_lines ≡ ok log_read
unfolding read_log read_line codes parse_int
log_is_read = refl

tput_loop-bits_at_example :
    (ls : List LogLine) × (read_log (pos 100) (pos 0) log_lines ≡ ok ls)
    × (0 ∷ 1 ∷ 2 ∷ [] ≡ range_from 0 (2 + 1))
    × (length log_state.rows ≡ 2 + 1)
    × ((c : Column) (i : ℕ) → cell_at c i log_state.rows ≡ bits_at c i 0 (events ls))
tput_loop-bits_at_example = tput_loop-bits_at (pos 100) log_lines log_state log_reads

tput_loop-bits_total_example :
    (ls : List LogLine) × (read_log (pos 100) (pos 0) log_lines ≡ ok ls)
    × ((c : Column)
        → (total c log_state ≡ bits_total c (events ls))
          × (column_sum c log_state.rows ≡ bits_total c (events ls)))
tput_loop-bits_total_example = tput_loop-bits_total (pos 100) log_lines log_state log_reads

tput_loop-InOrder_example :
    cell_at capacity 0 log_state.rows ≡ bits_of_bin capacity 0 (events log_read)
tput_loop-InOrder_example =
    tput_loop-InOrder (pos 100) log_lines log_state log_read capacity 0 log_reads log_is_read (
      0,
      refl,
      omega arith,
      (0, refl, omega arith, (0, refl, omega arith, (2, refl, omega arith, tt))),
    )

abbrev log_report : Report fraction_floats
log_report =
    result_dict fraction_floats (pos 100) log_state (pos 220) (pos 1000000) (pos 24000, pos 220000)
      (pos 11200, pos 220000) (pos 11200, pos 220000)
      (pos 11200 *ℤ pos 220000, pos 220000 *ℤ pos 24000)

log_reported : parse_mm_throughput fraction_floats (pos 100) log_lines ≡ ok log_report
unfolding parse_mm_throughput codes parse_int ◌*ℤ◌
log_reported = refl

parse_mm_throughput-bits_at_example :
    (ls : List LogLine) × (read_log (pos 100) (pos 0) log_lines ≡ ok ls)
    × (get_elem? (reported fraction_floats capacity log_report) 0
        ≡ some (scaled fraction_floats (pos 100) (bits_at capacity 0 0 (events ls))))
parse_mm_throughput-bits_at_example =
    parse_mm_throughput-bits_at fraction_floats (pos 100) log_lines log_report capacity 0
      log_reported (omega arith)

-- A log with no event: no report is made.
parse_mm_throughput-ok_iff_example :
    ((r : Report fraction_floats) × (parse_mm_throughput fraction_floats (pos 100) [] ≡ ok r)) ↔ (
      (s : TputState) × (ms : ℤ) × (init : ℤ) × (tput_loop (pos 100) [] tput_start ≡ ok s)
      × (s.ms_elapsed ≡ some ms)
      × (s.init_timestamp ≡ some init)
      × (ms ≢ pos 0)
      × (fraction_floats.is_zero (
            fraction_floats.div
              (fraction_floats.true_div s.cap_total ms)
              (fraction_floats.of_int (pos 1000)))
          ≡ false))
parse_mm_throughput-ok_iff_example = parse_mm_throughput-ok_iff fraction_floats (pos 100) []

-- One packet at 10 ms and one at 1500 ms, in the forms of the two scripts
capacity_loop-parse_trace_file_example :
    (bw : List ℕ) × (s : CapacityState fraction_floats) × (parse_trace_file 1450
        (codes "10\n" ∷ codes "1500\n" ∷ [])
      ≡ ok bw)
    × (capacity_loop fraction_floats
          (codes "10 1\n" ∷ codes "1500 1\n" ∷ [])
          (capacity_start fraction_floats)
        ≡ ok s)
    × (s.bw ≡ map (in_megabits fraction_floats) bw)
unfolding codes parse_int read_fields
capacity_loop-parse_trace_file_example =
    capacity_loop-parse_trace_file fraction_floats (codes "10 1\n" ∷ codes "1500 1\n" ∷ [])
      (codes "10\n" ∷ codes "1500\n" ∷ [])
      (
        (pos 10, codes "10", codes "1\n", refl, refl, refl, refl),
        ((pos 1500, codes "1500", codes "1\n", refl, refl, refl, refl), tt),
      )
