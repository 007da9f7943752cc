-- ===== src/Tests/Flows.antt =====
-- The blocks that sender_receiver/sender.cc sends at concrete inputs, and the receiver's log of them.
use vatic_udp.Prelude.{
  length, ◌+◌, ℕ, ◌≡◌, refl, arith, List, [], ◌∷◌, ◌++◌, true, false, Option, none, some, sum, ◌*◌,
  pos, ok, err, map, range_from,
}
use vatic_udp.Py.Text.{Text, codes}
use vatic_udp.Py.Decimal.{parse_int}
use vatic_udp.Tcp.Sending.{Time, Flow, no_flow, send_block, send_nblocks, send_ttr}
use vatic_udp.Tcp.Sending.Ends.{send_each, send_ttr-rounds}
use vatic_udp.Tcp.Receiving.{Arrival, Line, flow_log}
use vatic_udp.Tcp.Receiving.Counts.{flow_log-counts, flow_log-late, Rising}
use vatic_udp.Tcp.FromTrace.{Number, number, no_number, fgets_from, send_fromtrace}
use vatic_udp.Tcp.FromTrace.Left.{packets, trailing, entries_of, send_fromtrace-left}
use vatic_udp.Tcp.RoundTrip.{logs-agree, sender_entry, receiver_entry}

-- The clock shows the number of the block, and each `send` takes two packets.
abbrev clock : ℕ → Time
clock k = (k, 0)

abbrev two_packets : ℕ → Option ℕ
two_packets k = some 2048

abbrev two_blocks : Flow
two_blocks = send_each clock two_packets 2 false (range_from 1 2) no_flow

abbrev arrival : ℕ → ℕ → Arrival
arrival k t = record {
  packet = record { seq = k; sent = (k, 0); probe = false };
  nrecv = 1024;
  at = (t, 0);
}

abbrev four_arrivals : List Arrival
four_arrivals = arrival 1 5 ∷ arrival 1 6 ∷ arrival 2 8 ∷ arrival 2 9 ∷ []

logs-agree_example :
    (send_nblocks clock two_packets 2 false 3 2 ≡ some two_blocks)
    × (map receiver_entry (flow_log four_arrivals).0 ≡ map sender_entry two_blocks.log)
unfolding send_each send_block
logs-agree_example =
    logs-agree clock two_packets 1 false (λ k. refl) (omega arith) 3 1 (omega arith) (omega arith)
      two_blocks refl four_arrivals refl

-- Three rounds, started at second 0 with three seconds to run
send_ttr-rounds_example :
    send_ttr clock two_packets 2 false clock 9 0 3 ≡ send_nblocks clock two_packets 2 false 4 3
send_ttr-rounds_example =
    send_ttr-rounds clock two_packets 2 false clock 0 3 9 2 (omega arith) (omega arith)
      (λ j h k. omega arith) (omega arith)

flow_log-counts_example :
    (sum (map (λ l. l.bytes) (flow_log four_arrivals).0) ≡ 4 * 1024)
    × Rising 1 (flow_log four_arrivals).0
    × ((flow_log four_arrivals).1 ≡ 4096)
flow_log-counts_example = flow_log-counts four_arrivals (omega arith)

flow_log-late_example :
    (lines : List Line) × (bytes : ℕ) × (more : List Line) × ((flow_log four_arrivals).0
      ≡ lines
        ++ record { seq = 1; bytes = bytes; recv_time = some (8, 0); sent_time = some (1, 0) }
          ∷ more)
flow_log-late_example =
    flow_log-late (arrival 1 5 ∷ []) (arrival 1 6) (arrival 2 8) (arrival 2 9 ∷ []) (omega arith)
      (omega arith, tt) (omega arith)

-- A connection on which nothing comes is logged as a block of no bytes, with times never set.
silent : flow_log [] ≡ (record { seq = 1; bytes = 0; recv_time = none; sent_time = none } ∷ [], 0)
unfolding flow_log
silent = refl

test_strtol : Text → Number
unfolding parse_int
test_strtol t = elim (parse_int t) [ ok n ↦ number n | err e ↦ no_number ]

-- A change to 5, one to a probe, an empty line, and a change to 7 with two more packets at that time
abbrev trace_text : Text
trace_text = codes "0\n5\n5*\n\n7\n7\n7\n"

send_fromtrace-left_example :
    packets (send_fromtrace clock two_packets test_strtol trace_text).flow
      + trailing (pos 0, false) (entries_of test_strtol (fgets_from 8 trace_text))
    ≡ length (entries_of test_strtol (fgets_from 8 trace_text))
send_fromtrace-left_example = send_fromtrace-left clock two_packets test_strtol trace_text

-- Six packets in the trace; two are left, and each block has the probe flag of the line before.
sent_blocks :
    (map
        (λ b. map (λ p. p.probe) b)
        (send_fromtrace clock two_packets test_strtol trace_text).flow.sends
      ≡ (false ∷ false ∷ []) ∷ (false ∷ []) ∷ (true ∷ []) ∷ [])
    × ((send_fromtrace clock two_packets test_strtol trace_text).count ≡ 2)
    × ((send_fromtrace clock two_packets test_strtol trace_text).slept ≡ 5 ∷ 2 ∷ [])
unfolding send_fromtrace test_strtol codes parse_int
sent_blocks = (refl, refl, refl)
