-- ===== src/LogPlots/TputDelay/Saves.antt =====
-- What `plot_tput_delay` of plot.py saves, whatever it skips.
use vatic_udp.Prelude.{
  ◌≡◌, sym, ap, List, [], ◌∷◌, ◌++◌, true, Option, ok, ℤ, >>=-eq-ok, ok-injective,
}
use vatic_udp.Py.Text.{Text, codes}
use vatic_udp.Py.Floats.{Floats}
use vatic_udp.Mmparse.Delays.{parse_mm_queue_delays}
use vatic_udp.Mmparse.Throughput.Report.{Report, parse_mm_throughput}
use vatic_udp.LogPlots.{Skip, Pandas, table_of}
use vatic_udp.LogPlots.TputDelay.{
  Figure, Saved, figure, series, table, summary, save_path, files_of, plot_tput_delay,
}

module _ (fl : Floats) (pd : Pandas fl) where
  open fl use {Float}

  -- The files with data, without the figure
  abbrev pub data_files : List (Saved fl pd) → List (Saved fl pd)
  data_files [] = []
  data_files (figure name f ∷ ss) = data_files ss
  data_files (series name s ∷ ss) = series name s ∷ data_files ss
  data_files (table name summary t ∷ ss) = table name summary t ∷ data_files ss

  -- The two files with data, from what the log is parsed to
  unfoldable pub full_files : Text → List Float → List Float → Report fl → List (Saved fl pd)
  unfolding summary table_of codes
  full_files savepath delays delaytimes report =
      series (savepath ++ codes "_delays.csv") (pd.group_mean delays delaytimes)
      ∷ table (savepath ++ codes "_tput.csv") (summary fl pd report) (table_of fl report)
      ∷ []

  -- A plot that is saved comes with the whole of the parsed delays and the whole of the parsed
  -- throughput, under the name of the log and the bin size, however many seconds the figure skips.
  pub plot_tput_delay-full :
      (filepath : Text) (lines : List Text) (ms_per_bin : ℤ) (skip : Skip fl) (title : Option Text)
      (fig : Figure fl pd) (saved : List (Saved fl pd))
      → plot_tput_delay fl pd filepath lines ms_per_bin skip title true ≡ ok (fig, saved)
      → (delays : List Float) × (delaytimes : List Float) × (report : Report fl)
        × (parse_mm_queue_delays fl lines ≡ ok (delays, delaytimes))
        × (parse_mm_throughput fl ms_per_bin lines ≡ ok report)
        × (data_files saved
            ≡ full_files (save_path fl pd filepath ms_per_bin) delays delaytimes report)
  unfolding plot_tput_delay full_files files_of
  plot_tput_delay-full filepath lines ms_per_bin skip title fig saved h =
      let (parsed, delays_read, h1) = >>=-eq-ok (parse_mm_queue_delays fl lines) _ h in
      let (report, log_read, h2) = >>=-eq-ok (parse_mm_throughput fl ms_per_bin lines) _ h1 in
      let (kept_delays, k1, h3) =
        >>=-eq-ok (pd.keep_series skip (pd.group_mean parsed.0 parsed.1)) _ h2 in
      let (kept, k2, h4) = >>=-eq-ok (pd.keep_table skip (table_of fl report)) _ h3 in
      (
        parsed.0,
        parsed.1,
        report,
        delays_read,
        log_read,
        sym (ap (λ p. data_files p.1) (ok-injective h4)),
      )
