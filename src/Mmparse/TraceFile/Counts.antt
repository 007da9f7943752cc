-- ===== src/Mmparse/TraceFile/Counts.antt =====
-- What `parse_trace_file` counts and what it leaves out.
use vatic_udp.Prelude.{
  ℕ, ◌+◌, ◌*◌, List, [], ◌∷◌, ◌≡◌, arith, length, length-append, sum, sum-append, ℤ, ok, >>=-eq-ok,
  pos, ltb_ℤ, Bool-cases, inl, inr,
}
use vatic_udp.Py.Text.{Text, strip}
use vatic_udp.Py.Decimal.{parse_int}
use vatic_udp.Mmparse.TraceFile.{
  TraceState, trace_start, count_packet, trace_loop, parse_trace_file,
}

-- The bits accounted for: those of the closed seconds, and `pkt_size * 8` for each packet counted
-- since and for each second closed.
abbrev accounted : ℕ → TraceState → ℕ
accounted pkt_size s = sum s.bw + pkt_size * 8 * (length s.bw + s.cnt)

accounted-count_packet :
    (p : ℕ) (time : ℤ) (s : TraceState)
    → accounted p (count_packet p time s) ≡ accounted p s + p * 8
unfolding count_packet
accounted-count_packet p time s = elim (Bool-cases (ltb_ℤ (pos s.next_time) time)) [
  | inl late ↦ rw (late, sum-append, length-append) (grind arith)
  | inr early ↦ rw early (grind arith)
]

accounted-trace_loop :
    (p : ℕ) (lines : List Text) (s t : TraceState)
    → trace_loop p lines s ≡ ok t
    → accounted p t ≡ accounted p s + p * 8 * length lines
unfolding trace_loop
accounted-trace_loop p [] s t h = ground arith
accounted-trace_loop p (line ∷ lines) s t h =
    let (time, _, rest) = >>=-eq-ok (parse_int (strip line)) _ h in
    omega (
      arith,
      accounted-trace_loop p lines (count_packet p time s) t rest,
      accounted-count_packet p time s,
    )

next_time-count_packet :
    (p : ℕ) (time : ℤ) (s : TraceState)
    → s.next_time ≡ 1000 * (length s.bw + 1)
    → (count_packet p time s).next_time ≡ 1000 * (length (count_packet p time s).bw + 1)
unfolding count_packet
next_time-count_packet p time s h = elim (Bool-cases (ltb_ℤ (pos s.next_time) time)) [
  | inl late ↦ rw (late, length-append) (omega arith)
  | inr early ↦ rw early h
]

next_time-trace_loop :
    (p : ℕ) (lines : List Text) (s t : TraceState)
    → trace_loop p lines s ≡ ok t
    → s.next_time ≡ 1000 * (length s.bw + 1)
    → t.next_time ≡ 1000 * (length t.bw + 1)
unfolding trace_loop
next_time-trace_loop p [] s t h e = ground arith
next_time-trace_loop p (line ∷ lines) s t h e =
    let (time, _, rest) = >>=-eq-ok (parse_int (strip line)) _ h in
    next_time-trace_loop p lines (count_packet p time s) t rest (next_time-count_packet p time s e)

-- If a trace is read, then the loop ends in a state with the returned list, the packets in that
-- list together with one packet for each of its seconds and with those of the unfinished second
-- are all the lines (in bits of `pkt_size` bytes), and the unfinished second ends at `next_time`,
-- one second for each entry of the list and one more.
pub parse_trace_file-counts :
    (pkt_size : ℕ) (lines : List Text) (bw : List ℕ)
    → parse_trace_file pkt_size lines ≡ ok bw
    → (s : TraceState) × (trace_loop pkt_size lines trace_start ≡ ok s)
      × (s.bw ≡ bw)
      × (sum bw + pkt_size * 8 * (length bw + s.cnt) ≡ pkt_size * 8 * length lines)
      × (s.next_time ≡ 1000 * (length bw + 1))
unfolding parse_trace_file
parse_trace_file-counts p lines bw h =
    let (s, e, q) = >>=-eq-ok (trace_loop p lines trace_start) _ h in
    let same : s.bw ≡ bw = cc q in
    (
      s,
      e,
      same,
      rw (← same) (omega (arith, accounted-trace_loop p lines trace_start s e)),
      rw (← same) (next_time-trace_loop p lines trace_start s e (omega arith)),
    )
