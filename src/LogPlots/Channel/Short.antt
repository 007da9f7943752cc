-- ===== src/LogPlots/Channel/Short.antt =====
-- What `plot_bgtrace` of plot.py does with a trace that does not get past its first second.
use vatic_udp.Prelude.{
  ℕ, ◌+◌, ◌≡◌, refl, ap, arith, List, [], ◌∷◌, ◌++◌, true, false, Result, ok, err,
  zero_division_error, ℤ, pos, ltb_ℤ, ◌≤ℤ◌,
}
use vatic_udp.Py.Text.{Text, codes, strip}
use vatic_udp.Py.Decimal.{parse_int}
use vatic_udp.Py.Format.{path_join}
use vatic_udp.Py.Floats.{Floats}
use vatic_udp.Mmparse.TraceFile.{
  TraceState, trace_start, count_packet, trace_loop, parse_trace_file,
}
use vatic_udp.LogPlots.Channel.{Sums, plot_bgtrace, average}

-- Lines that are read as times of at most `limit` milliseconds
abbrev pub TimesUpTo : ℕ → List Text → Type 0
TimesUpTo limit [] = Unit
TimesUpTo limit (line ∷ lines) =
    ((t : ℤ) × (parse_int (strip line) ≡ ok t) × (t ≤ℤ pos limit)) × TimesUpTo limit lines

count_packet-inside :
    (size : ℕ) (t : ℤ) (s : TraceState)
    → ltb_ℤ (pos s.next_time) t ≡ false
    → count_packet size t s ≡ record s { cnt = s.cnt + 1 }
unfolding count_packet
count_packet-inside size t s h = rw h refl

trace_loop-TimesUpTo :
    (size : ℕ) (lines : List Text) (s : TraceState)
    → TimesUpTo s.next_time lines
    → (u : TraceState) × (trace_loop size lines s ≡ ok u) × (u.bw ≡ s.bw)
unfolding trace_loop
trace_loop-TimesUpTo size [] s h = (s, refl, refl)
trace_loop-TimesUpTo size (line ∷ lines) s ((t, read, small), h) =
    let stays : ltb_ℤ (pos s.next_time) t ≡ false = ground arith in
    let next : count_packet size t s ≡ record s { cnt = s.cnt + 1 } =
      count_packet-inside size t s stays in
    let (u, loop, same) = trace_loop-TimesUpTo size lines (record s { cnt = s.cnt + 1 }) h in
    (u, rw (read, next) loop, same)

parse_trace_file-short :
    (size : ℕ) (lines : List Text) → TimesUpTo 1000 lines → parse_trace_file size lines ≡ ok []
unfolding parse_trace_file
parse_trace_file-short size lines h =
    let (u, loop, same) = trace_loop-TimesUpTo size lines trace_start h in rw loop (ap ok same)

-- A trace that can be opened and whose times are all in the first second, also an empty one, has no
-- complete second to plot, and `plot_bgtrace` raises ZeroDivisionError, if 0 as a float is zero.
pub plot_bgtrace-short :
    (fl : Floats) (sums : Sums fl) (files : Text → Result (List Text)) (tracename inpdir : Text)
    (lines : List Text)
    → fl.is_zero (fl.of_int (pos 0)) ≡ true
    → files (path_join inpdir (tracename ++ codes ".trace1")) ≡ ok lines
    → TimesUpTo 1000 lines
    → plot_bgtrace fl sums files tracename inpdir ≡ err zero_division_error
unfolding plot_bgtrace average
plot_bgtrace-short fl sums files tracename inpdir lines zero found h =
    rw (found, parse_trace_file-short 1472 lines h, zero) refl
