-- ===== src/LogPlots/Dispatch.antt =====
-- The code behind the command line of plot.py, from the parsed options on: the calls that it makes.
pub mod Skips
use vatic_udp.Prelude.{
  ℕ, List, [], ◌∷◌, ◌++◌, map, Bool, true, false, not, ◌==◌, if◌then◌else◌, length, Option, none,
  some, Result, ok, err, assertion_error, ℤ,
}
use vatic_udp.Py.Text.{Text, codes, text_eq}
use vatic_udp.Py.Format.{path_join}
use vatic_udp.Py.Floats.{Floats}
use vatic_udp.LogPlots.{Skip, seconds, nothing, words}

module _ (fl : Floats) where
  open fl use {Float}

  -- `args`, with the options of both plot types; `dir` of the traces is `trace_dir`.
  pub record PlotArgs : Type 0 where
    pub plot_type : Option Text
    pub names : List Text
    pub trace_dir : Text
    pub mmfilepaths : List Text
    pub title : Option Text
    pub ms_per_bin : ℤ
    pub skip_seconds : Float
    pub dir : Bool

  pub data Call : Type 0 where
    bgtrace : Text → Text → Call
    -- `plot_tput_delay` with its path, `ms_per_bin`, `skip_seconds`, `title`, `disp` and `save`
    tput_delay : Text → ℤ → Skip fl → Option Text → Bool → Bool → Call

  -- The title stands where `skip_seconds` is expected.
  unfoldable pub title_as_skip : Option Text → Skip fl
  title_as_skip none = nothing
  title_as_skip (some t) = words t

  direct_call : PlotArgs → Text → Call
  unfolding title_as_skip
  direct_call args path = tput_delay path args.ms_per_bin (title_as_skip args.title) none true true

  batch_call : PlotArgs → Text → Call
  batch_call args path =
      tput_delay path args.ms_per_bin (seconds args.skip_seconds) args.title false true

  module _ (glob : Text → List Text) (sort : List Text → List Text) where
    -- `glob(os.path.join(args.mmfilepaths[0], '*_downlink.csv'))`, sorted, for one directory
    batch_calls : PlotArgs → List Text → Result (List Call)
    unfolding path_join codes batch_call
    batch_calls args (path ∷ []) =
        ok (map (batch_call args) (sort (glob (path_join path (codes "*_downlink.csv")))))
    batch_calls args paths = err assertion_error

    unfoldable pub tput_delay_calls : PlotArgs → Result (List Call)
    unfolding direct_call batch_calls
    tput_delay_calls args =
        if not args.dir
        then ok (map (direct_call args) args.mmfilepaths)
        else batch_calls args args.mmfilepaths

    -- The dispatch on `args.plot_type`
    unfoldable pub calls_of : Option Text → PlotArgs → Result (List Call)
    unfolding codes text_eq tput_delay_calls
    calls_of none args = ok []
    calls_of (some plot_type) args =
        if text_eq plot_type (codes "bgtrace")
        then ok (map (λ name. bgtrace name args.trace_dir) args.names)
        else if text_eq plot_type (codes "tput_delay")
        then tput_delay_calls args
        else ok []

    unfoldable pub main : PlotArgs → Result (List Call)
    unfolding calls_of
    main args = calls_of args.plot_type args
