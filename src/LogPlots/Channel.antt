-- ===== src/LogPlots/Channel.antt =====
-- `plot_bgtrace` of plot.py: the bandwidth of a channel trace.
pub mod Short
use vatic_udp.Prelude.{
  ℕ, List, [], ◌∷◌, ◌++◌, map, length, Result, ok, err, value_error, ◌>>=◌, ℤ, pos,
}
use vatic_udp.Py.Text.{Text, codes}
use vatic_udp.Py.Format.{path_join}
use vatic_udp.Py.Floats.{Floats, float_quotient}
use vatic_udp.Mmparse.TraceFile.{parse_trace_file}

module _ (fl : Floats) where
  open fl use {Float, of_int, mul, div}

  -- `sum` and `max` of Python on floats, and `round(x, 3)`
  pub record Sums : Type 1 where
    pub sum_of : List Float → Float
    pub max_of : Float → List Float → Float
    pub round_three : Float → Float

  -- The curve, the numbers in its title, and the path without a suffix under which all is saved
  pub record ChannelPlot : Type 0 where
    pub suptitle : Text
    pub bw_scaled : List Float
    pub avgbw : Float
    pub maxbw : Float
    pub saveprefix : Text

  module _ (sums : Sums) where
    -- `round(sum(bw_scaled) * 1.0 / len(bw_scaled), 3)`.
    average : List Float → Result Float
    average xs = do
      mean ← float_quotient fl (mul (sums.sum_of xs) (of_int (pos 1))) (of_int (pos (length xs)))
      ok (sums.round_three mean)

    -- `max` raises for an empty list, but then the average has raised before.
    largest : List Float → Result Float
    largest [] = err value_error
    largest (x ∷ xs) = ok (sums.round_three (sums.max_of x xs))

    unfoldable pub plot_bgtrace : (Text → Result (List Text)) → Text → Text → Result ChannelPlot
    unfolding codes path_join parse_trace_file average largest
    plot_bgtrace files tracename inpdir = do
      lines ← files (path_join inpdir (tracename ++ codes ".trace1"))
      bw ← parse_trace_file 1472 lines
      let bw_scaled = map (λ v. div (of_int (pos v)) (of_int (pos 1000000))) bw
      avgbw ← average bw_scaled
      maxbw ← largest bw_scaled
      ok (record {
        suptitle = tracename;
        bw_scaled = bw_scaled;
        avgbw = avgbw;
        maxbw = maxbw;
        saveprefix = path_join inpdir (tracename ++ codes "_Mbps");
      })
