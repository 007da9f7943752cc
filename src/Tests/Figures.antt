-- ===== src/Tests/Figures.antt =====
-- What plot.py makes of small logs, with a pandas that keeps every row.
use vatic_udp.Prelude.{
  ◌≡◌, refl, List, [], ◌∷◌, true, false, none, some, pos, ◌*ℤ◌, Result, ok, err, Error, inl,
  zero_division_error, arith,
}
use vatic_udp.Py.Text.{Text, codes, text_eq}
use vatic_udp.Py.Decimal.{print_int, parse_int}
use vatic_udp.Mmparse.Delays.{parse_mm_queue_delays}
use vatic_udp.Mmparse.Throughput.Report.{Report, parse_mm_throughput}
use vatic_udp.Simulation.Effects.{Effect, raised, unlinked}
use vatic_udp.Simulation.Mm2.Main
use vatic_udp.Simulation.Mm2.Main.{CommandLine}
use vatic_udp.LogPlots.{nothing, words, Series, Pandas, zip_with}
use vatic_udp.LogPlots.TputDelay.{Figure, Saved, plot_tput_delay, save_path}
use vatic_udp.LogPlots.TputDelay.Saves.{data_files, full_files, plot_tput_delay-full}
use vatic_udp.LogPlots.Channel.{Sums, plot_bgtrace}
use vatic_udp.LogPlots.Channel.Short.{plot_bgtrace-short}
use vatic_udp.LogPlots.Dispatch.{PlotArgs, Call, tput_delay, title_as_skip, main}
use vatic_udp.LogPlots.Dispatch.Skips.{PassedOn, main-PassedOn}
use vatic_udp.LogPlots.Captures.Ends.{captures_ends, main-plot_captures}
use vatic_udp.Tests.Samples.{fraction_floats, Fraction, log_lines}

abbrev first_of : List Fraction → Fraction
first_of [] = (pos 0, pos 1)
first_of (x ∷ xs) = x

abbrev all_rows : Pandas fraction_floats
all_rows = record {
  group_mean = λ values times. zip_with times values;
  second_mean = λ s. s;
  second_sum = λ s. s;
  keep_series = λ skip s. ok s;
  keep_table = λ skip t. ok t;
  mean = first_of;
  min = first_of;
  max = first_of;
  utilization = λ rows. (pos 1, pos 1);
  show = λ x. print_int x.0;
  show_three = λ x. print_int x.0;
}

abbrev first_sums : Sums fraction_floats
first_sums = record { sum_of = first_of; max_of = λ x xs. x; round_three = λ x. x }

abbrev drawn : Result (Figure fraction_floats all_rows × List (Saved fraction_floats all_rows))
drawn =
    plot_tput_delay fraction_floats all_rows (codes "out/x_downlink.csv") log_lines (pos 100)
      nothing none true

abbrev blank : Figure fraction_floats all_rows
blank = record {
  suptitle = [];
  capacity = [];
  throughput = [];
  delays = [];
  cap_avg = (pos 0, pos 1);
  tput_avg = (pos 0, pos 1);
  util = (pos 0, pos 1);
  delay_min = (pos 0, pos 1);
  delay_max = (pos 0, pos 1);
  delay_avg = (pos 0, pos 1);
}

abbrev value_or {ℓ} : {A : Type ℓ} → A → Result A → A
value_or a (ok b) = b
value_or a (err e) = a

is_drawn : drawn ≡ ok ((value_or (blank, []) drawn).0, (value_or (blank, []) drawn).1)
unfolding plot_tput_delay codes parse_int ◌*ℤ◌
is_drawn = refl

plot_tput_delay-full_example :
    (delays : List Fraction) × (delaytimes : List Fraction) × (report : Report fraction_floats)
    × (parse_mm_queue_delays fraction_floats log_lines ≡ ok (delays, delaytimes))
    × (parse_mm_throughput fraction_floats (pos 100) log_lines ≡ ok report)
    × (data_files fraction_floats all_rows (value_or (blank, []) drawn).1
        ≡ full_files fraction_floats all_rows
            (save_path fraction_floats all_rows (codes "out/x_downlink.csv") (pos 100))
            delays
            delaytimes
            report)
plot_tput_delay-full_example =
    plot_tput_delay-full fraction_floats all_rows (codes "out/x_downlink.csv") log_lines (pos 100)
      nothing none (value_or (blank, []) drawn).0 (value_or (blank, []) drawn).1 is_drawn

-- A trace with two packets in its first second
abbrev short_file : Text → Result (List Text)
short_file path = ok (codes "10" ∷ codes "1000" ∷ [])

abbrev two_logs : PlotArgs fraction_floats
two_logs = record {
  plot_type = some (codes "tput_delay");
  names = [];
  trace_dir = codes "traces";
  mmfilepaths = codes "a.csv" ∷ codes "b.csv" ∷ [];
  title = some (codes "t");
  ms_per_bin = pos 500;
  skip_seconds = (pos 3, pos 1);
  dir = false;
}

abbrev two_calls : List (Call fraction_floats)
two_calls =
    tput_delay (codes "a.csv") (pos 500) (words (codes "t")) none true true
    ∷ tput_delay (codes "b.csv") (pos 500) (words (codes "t")) none true true
    ∷ []

main-PassedOn_example : PassedOn fraction_floats (λ p. []) (λ ps. ps) false two_logs two_calls
unfolding main text_eq codes title_as_skip
main-PassedOn_example = main-PassedOn fraction_floats (λ p. []) (λ ps. ps) two_logs two_calls refl

-- An alias of a plot type is accepted by the parser, and nothing is done for it.
alias :
    main fraction_floats (λ p. []) (λ ps. ps) (record two_logs { plot_type = some (codes "tput") })
    ≡ ok []
unfolding main text_eq codes
alias = refl

abbrev one_row : Text → Result (Series fraction_floats)
one_row path = ok (((pos 1, pos 1), (pos 2, pos 1)) ∷ [])

-- runmm2.py without `--save-plot`.
abbrev unsaved : CommandLine
unsaved = record {
  trace = codes "t";
  port = none;
  ttr = some (codes "30");
  n_blocks = none;
  filepath = none;
  blksize = none;
  cc_algo = none;
  buf_len = none;
  mm_delay = some 20;
  dir = none;
  log = true;
  skip_seconds = none;
  verbose = 0;
  save_plot = false;
}

abbrev same_log : Text → List Text
same_log path = log_lines

main-plot_captures_example :
    (es : List Effect) × (e : Error) × (Main.main
        (captures_ends fraction_floats all_rows one_row same_log)
        (λ p. false)
        unsaved
      ≡ raised es e)
    × (unlinked es ≡ [])
main-plot_captures_example =
    main-plot_captures fraction_floats all_rows one_row same_log (λ p. false) unsaved (inl refl)

plot_bgtrace-short_example :
    plot_bgtrace fraction_floats first_sums short_file (codes "t") (codes "traces")
    ≡ err zero_division_error
unfolding codes parse_int
plot_bgtrace-short_example =
    plot_bgtrace-short fraction_floats first_sums short_file (codes "t") (codes "traces")
      (codes "10" ∷ codes "1000" ∷ []) refl refl
      ((pos 10, refl, omega arith), ((pos 1000, refl, omega arith), tt))
