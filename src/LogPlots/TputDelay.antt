-- ===== src/LogPlots/TputDelay.antt =====
-- `plot_tput_delay` of plot.py.
pub mod Saves
use vatic_udp.Prelude.{
  ℕ, List, [], ◌∷◌, ◌++◌, map, Bool, true, false, if◌then◌else◌, ◌||◌, Option, none, some, Result,
  ok, err, ◌>>=◌, ℤ,
}
use vatic_udp.Py.Text.{Text, codes}
use vatic_udp.Py.Decimal.{print_int}
use vatic_udp.Py.Format.{basename, splitext_root}
use vatic_udp.Py.Floats.{Floats}
use vatic_udp.Mmparse.Delays.{parse_mm_queue_delays}
use vatic_udp.Mmparse.Throughput.Report.{Report, parse_mm_throughput}
use vatic_udp.LogPlots.{
  Skip, seconds, nothing, words, Series, Table, Pandas, table_of, capacities, throughputs, times,
  zip_with,
}

module _ (fl : Floats) (pd : Pandas fl) where
  open fl use {Float, is_zero}

  -- What the figure shows: its title, the curves, and the numbers above them
  pub record Figure : Type 0 where
    pub suptitle : Text
    pub capacity : Series fl
    pub throughput : Series fl
    pub delays : Series fl
    pub cap_avg : Float
    pub tput_avg : Float
    pub util : Float
    pub delay_min : Float
    pub delay_max : Float
    pub delay_avg : Float

  -- The files that are written: a figure, a series, and a table behind comment lines
  pub data Saved : Type 0 where
    figure : Text → Figure → Saved
    series : Text → Series fl → Saved
    table : Text → List Text → Table fl → Saved

  -- `'{}'.format(skip_seconds)`
  unfoldable pub shown_skip : Skip fl → Text
  unfolding codes
  shown_skip (seconds x) = pd.show x
  shown_skip nothing = codes "None"
  shown_skip (words t) = t

  -- `skip_seconds is None or skip_seconds == 0`
  unfoldable pub no_skip : Skip fl → Bool
  no_skip (seconds x) = is_zero x
  no_skip nothing = true
  no_skip (words t) = false

  unfoldable pub figure_name : Text → Skip fl → Text
  unfolding codes shown_skip no_skip
  figure_name savepath skip =
      if no_skip skip
      then savepath ++ codes ".pdf"
      else savepath ++ (codes "-skip_" ++ shown_skip skip ++ codes ".pdf")

  -- The comment lines over the saved table
  unfoldable pub summary : Report fl → List Text
  unfolding codes print_int
  summary r =
      (codes "# duration_ms: " ++ print_int r.duration_ms)
      ∷ (codes "# ingress_avg: " ++ pd.show_three r.ingress_avg)
      ∷ (codes "# throughput_avg: " ++ pd.show_three r.throughput_avg)
      ∷ (codes "# capacity_avg: " ++ pd.show_three r.capacity_avg)
      ∷ (codes "# utilization: " ++ pd.show_three r.utilization)
      ∷ []

  -- `title`, or the name of the log without its suffix
  unfoldable pub title_of : Option Text → Text → Text
  unfolding basename splitext_root
  title_of none filepath = splitext_root (basename filepath)
  title_of (some t) filepath = t

  unfoldable pub figure_of : Text → Series fl → Table fl → Figure
  figure_of suptitle delays tput = record {
    suptitle = suptitle;
    capacity = zip_with (times fl tput) (capacities fl tput);
    throughput = zip_with (times fl tput) (throughputs fl tput);
    delays = delays;
    cap_avg = pd.mean (capacities fl tput);
    tput_avg = pd.mean (throughputs fl tput);
    util = pd.utilization (zip_with (throughputs fl tput) (capacities fl tput));
    delay_min = pd.min (map (λ r. r.1) delays);
    delay_max = pd.max (map (λ r. r.1) delays);
    delay_avg = pd.mean (map (λ r. r.1) delays);
  }

  -- `savepath`
  unfoldable pub save_path : Text → ℤ → Text
  unfolding codes splitext_root print_int
  save_path filepath ms_per_bin = splitext_root filepath ++ (codes "_res-" ++ print_int ms_per_bin)

  unfoldable pub files_of : Text → Skip fl → Figure → Series fl → Report fl → List Saved
  unfolding codes figure_name summary table_of
  files_of savepath skip fig delays report =
      figure (figure_name savepath skip) fig
      ∷ series (savepath ++ codes "_delays.csv") delays
      ∷ table (savepath ++ codes "_tput.csv") (summary report) (table_of fl report)
      ∷ []

  -- The figure that is drawn, and the files that are written; the lines are those of the log.
  unfoldable pub plot_tput_delay :
      Text → List Text → ℤ → Skip fl → Option Text → Bool → Result (Figure × List Saved)
  unfolding parse_mm_queue_delays parse_mm_throughput title_of figure_of save_path files_of table_of
  plot_tput_delay filepath lines ms_per_bin skip title save = do
    (delays, delaytimes) ← parse_mm_queue_delays fl lines
    let delays_full = pd.group_mean delays delaytimes
    report ← parse_mm_throughput fl ms_per_bin lines
    kept_delays ← pd.keep_series skip delays_full
    kept ← pd.keep_table skip (table_of fl report)
    let fig = figure_of (title_of title filepath) kept_delays kept
    ok (
      fig,
      if save then files_of (save_path filepath ms_per_bin) skip fig delays_full report else [],
    )
