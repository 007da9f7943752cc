-- ===== src/Mmparse/TraceFile.antt =====
-- `parse_trace_file` of mmparse.py: the bits that a channel trace lets through in each second. Every
-- line of a trace is the time, in milliseconds, at which one packet may leave.
pub mod Counts
use vatic_udp.Prelude.{
  ℕ, ◌+◌, ◌*◌, List, [], ◌∷◌, ◌++◌, if◌then◌else◌, ℤ, pos, ltb_ℤ, Result, ok, ◌>>=◌,
}
use vatic_udp.Py.Text.{Text, strip}
use vatic_udp.Py.Decimal.{parse_int}

-- The variables `BW`, `nextTime` and `cnt`.
pub record TraceState : Type 0 where
  pub bw : List ℕ
  pub next_time : ℕ
  pub cnt : ℕ

abbrev pub trace_start : TraceState
trace_start = record { bw = []; next_time = 1000; cnt = 0 }

-- The body of the loop, at the time that the line holds.
unfoldable pub count_packet : ℕ → ℤ → TraceState → TraceState
count_packet pkt_size time s =
    if ltb_ℤ (pos s.next_time) time
    then record {
      bw = s.bw ++ (s.cnt * pkt_size * 8) ∷ [];
      next_time = s.next_time + 1000;
      cnt = 0;
    }
    else record s { cnt = s.cnt + 1 }

-- The loop over the lines.
unfoldable pub trace_loop : ℕ → List Text → TraceState → Result TraceState
trace_loop pkt_size [] s = ok s
trace_loop pkt_size (line ∷ lines) s = do
  time ← parse_int (strip line)
  trace_loop pkt_size lines (count_packet pkt_size time s)

unfoldable pub parse_trace_file : ℕ → List Text → Result (List ℕ)
unfolding trace_loop count_packet
parse_trace_file pkt_size lines = do s ← trace_loop pkt_size lines trace_start; ok s.bw
