-- ===== src/LogPlots/Captures/Ends.antt =====
-- `plot_tput_delay_tcpdump` of plot.py at the end of a run of runmm2.py.
use vatic_udp.Prelude.{
  ◌≡◌, refl, ◌+◌, ◌<◌, ◌⊎◌, List, [], ◌++◌, Bool, false, some, Result, ok, err, ◌>>=◌, Error, pos,
  unbound_local_error,
}
use vatic_udp.Py.Text.{Text, codes}
use vatic_udp.Py.Format.{basename}
use vatic_udp.Py.Floats.{Floats}
use vatic_udp.Simulation.Mode.{given}
use vatic_udp.Simulation.Effects.{Effect, PlotEnds, plot_tcpdump, raised, unlinked}
use vatic_udp.Simulation.Mm2
use vatic_udp.Simulation.Mm2.Runs.{Refuses}
use vatic_udp.Simulation.Mm2.Main
use vatic_udp.Simulation.Mm2.Main.{CommandLine, main-raises}
use vatic_udp.LogPlots.{Skip, seconds, Series, Pandas, table_of}
use vatic_udp.LogPlots.Captures.{
  rtt_savepath, receiver_tput_savepath, rtt_series, tput_series, figure_of, save_files,
  plot_captures,
}
use vatic_udp.Mmparse.Throughput.Report.{parse_mm_throughput}

-- Whether a step has raised, and what
abbrev pub ended {ℓ} : {A : Type ℓ} → Result A → Result (Unit {0})
ended (ok a) = ok tt
ended (err e) = err e

-- A last step that always raises
err_behind {ℓ κ} :
    {A : Type ℓ} {B : Type κ} (m : Result A) (f : A → Result B)
    → ((a : A) → (e : Error) × (f a ≡ err e))
    → (e : Error) × ((m >>= f) ≡ err e)
err_behind (ok a) f h = h a
err_behind (err e) f h = (e, refl)

module _ (fl : Floats) (pd : Pandas fl) (read_csv : Text → Result (Series fl)) where
  open fl use {of_int}

  -- Whatever can be read, a figure that is not saved makes the call raise.
  pub plot_captures-unsaved :
      (lines : List Text) (sender_pcap receiver_pcap log : Text) (skip : Skip fl) (t : Text)
      → (e : Error) × (plot_captures fl pd read_csv lines sender_pcap receiver_pcap log skip
            (some t)
            false
          ≡ err e)
  unfolding plot_captures save_files
  plot_captures-unsaved lines sender_pcap receiver_pcap log skip t =
      err_behind (read_csv (rtt_savepath sender_pcap)) _ λ rtt_rows.
        err_behind (read_csv (receiver_tput_savepath receiver_pcap)) _ λ tput_rows.
          err_behind (parse_mm_throughput fl (pos 1000) lines) _ λ report.
            err_behind (pd.keep_series skip (rtt_series fl pd rtt_rows)) _ λ rtts.
              err_behind (pd.keep_series skip (tput_series fl pd tput_rows)) _ λ tput.
                err_behind (pd.keep_table skip (table_of fl report)) _ λ mm.
                  err_behind (figure_of fl pd report rtts tput mm (some t)) _
                    λ fig. (unbound_local_error, refl)

  module _ (read_log : Text → List Text) where
    -- How the calls of runmm2.py end, for a log that `read_log` gives the lines of
    abbrev pub captures_ends : PlotEnds
    captures_ends (plot_tcpdump sender_pcap receiver_pcap ip log skip title disp save) = ended (
        plot_captures fl pd read_csv (read_log log) sender_pcap receiver_pcap log
          (seconds (of_int (pos skip))) (some title) save)
    captures_ends _ = ok tt

    captures_ends-Refuses : Refuses captures_ends
    unfolding Mm2.plot_call
    captures_ends-Refuses path o off =
        let (e, d) =
          plot_captures-unsaved (read_log (path ++ codes "_uplink.csv"))
            (path ++ codes "_sender.pcap") (path ++ codes "_receiver.pcap")
            (path ++ codes "_uplink.csv") (seconds (of_int (pos o.skip_seconds))) (basename path) in
        (e, rw (off, d) refl)

    -- With `plot_tput_delay_tcpdump` of plot.py at the end of its runs, the program runmm2.py raises
    -- whenever it is called without `--save-plot`, whatever the captures and the log hold, and
    -- whenever it is to send blocks or to replay a trace file. It then leaves every packet capture
    -- where it is.
    pub main-plot_captures :
        (exists : Text → Bool) (a : CommandLine)
        → (a.save_plot ≡ false) ⊎ (0 < given a.n_blocks + given a.filepath)
        → (es : List Effect) × (e : Error) × (Main.main captures_ends exists a ≡ raised es e)
          × (unlinked es ≡ [])
    main-plot_captures exists a h = main-raises captures_ends exists a captures_ends-Refuses h
