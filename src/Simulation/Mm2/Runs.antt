-- ===== src/Simulation/Mm2/Runs.antt =====
-- How the runs of runmm2.py end, and what they leave behind.
use vatic_udp.Prelude.{
  ℕ, ◌+◌, ◌<◌, List, [], ◌∷◌, ◌++◌, ◌≡◌, ◌∙◌, arith, Bool, false, not, ◌&&◌, if◌then◌else◌, inl,
  inr, Option, none, some, ℤ, ok, err, Error, Result-cases, ok-injective,
}
use vatic_udp.Py.Text.{Text, codes}
use vatic_udp.Py.Format.{format_one, path_join}
use vatic_udp.Simulation.Mode.{Mode, given, choose_mode}
use vatic_udp.Simulation.Effects.{
  PlotEnds, Effect, done, raised, Run-cases, effects, done-injective, communicated, unlinked,
  communicated-with_directories, unlinked-with_directories,
}
use vatic_udp.Simulation.Mm2.{
  Simulation, Options, init, save_prefix, receiver_command, sender_command, session, shown_time,
  stop_all, plot_call, experiment, run,
}

-- What a run that returns has done.
record Finished (ends : PlotEnds) (sim : Simulation) (o : Options) (es : List Effect) : Type 0 where
  path : Text
  cmd : Text
  plot_ok : ends (plot_call path o) ≡ ok tt
  formatted : format_one (sender_command sim path o.log) (codes "100.64.0.1") ≡ ok cmd
  shell : communicated es ≡ session sim path cmd ∷ []
  removed : unlinked es ≡ (path ++ codes "_sender.pcap") ∷ (path ++ codes "_receiver.pcap") ∷ []

module _ (ends : PlotEnds) (sim : Simulation) (o : Options) (path receiver_cmd : Text) where
  experiment-Finished :
      {es : List Effect}
      → experiment ends sim o path receiver_cmd ≡ done es tt
      → Finished ends sim o es
  unfolding experiment stop_all plot_call
  experiment-Finished {es} h =
      elim (Result-cases (format_one (sender_command sim path o.log) (codes "100.64.0.1"))) [
        | inl (e, bad) ↦ cc (rw bad at h)
        | inr (cmd, fine) ↦ elim (Result-cases (ends (plot_call path o))) [
          | inr (u, on) ↦
              let (same, _) = done-injective (rw (fine, on) at h) in
              record {
                path = path;
                cmd = cmd;
                plot_ok = on;
                formatted = fine;
                shell = rw (← same);
                removed = rw (← same);
              }
          | inl (e, bad) ↦ cc (rw (fine, bad) at h)
        ]
      ]

  experiment_unsaved :
      (e : Error)
      → ends (plot_call path o) ≡ err e
      → unlinked (effects (experiment ends sim o path receiver_cmd)) ≡ []
  unfolding experiment stop_all plot_call
  experiment_unsaved e off =
      elim (Result-cases (format_one (sender_command sim path o.log) (codes "100.64.0.1"))) [
        | inl (e', bad) ↦ rw bad
        | inr (cmd, fine) ↦ rw (fine, off)
      ]

-- A call of `plot_tput_delay_tcpdump` that is not to save its plot raises.
abbrev pub Refuses : PlotEnds → Type 0
Refuses ends =
    (path : Text) (o : Options)
    → o.save_plot ≡ false
    → (e : Error) × (ends (plot_call path o) ≡ err e)

module _ (ends : PlotEnds) (exists : Text → Bool) (sim : Simulation) (o : Options) where
  run-Finished : {es : List Effect} → run ends exists sim o ≡ done es tt → Finished ends sim o es
  unfolding run
  run-Finished {es} h = elim (Result-cases (save_prefix sim o.suffix)) [
    | inl (e, bad) ↦ cc (rw bad at h)
    | inr (prefix, named) ↦
        let path = path_join o.savedir prefix in
        let logs = path ++ codes "_receiver" in
        let b = not (exists o.savedir) in
        let c = o.log && not (exists logs) in
        let receiver_cmd =
          receiver_command sim.port o.verbose (if o.log then some logs else none) in
        elim (Run-cases (experiment ends sim o path receiver_cmd)) [
          | inl (fs, e, bad) ↦ cc (rw (named, bad) at h)
          | inr (fs, u, good) ↦
              let f = experiment-Finished ends sim o path receiver_cmd good in
              let (same, _) = done-injective (rw (named, good) at h) in
              record {
                path = f.path;
                cmd = f.cmd;
                plot_ok = f.plot_ok;
                formatted = f.formatted;
                shell = rw (← same) (communicated-with_directories o.savedir logs fs b c ∙ f.shell);
                removed = rw (← same) (unlinked-with_directories o.savedir logs fs b c ∙ f.removed);
              }
        ]
  ]

  run_unsaved-unlinked :
      Refuses ends → o.save_plot ≡ false → unlinked (effects (run ends exists sim o)) ≡ []
  unfolding run
  run_unsaved-unlinked refuses off = elim (Result-cases (save_prefix sim o.suffix)) [
    | inl (e, bad) ↦
        rw bad (unlinked-with_directories o.savedir [] [] (not (exists o.savedir)) false)
    | inr (prefix, named) ↦
        let path = path_join o.savedir prefix in
        let logs = path ++ codes "_receiver" in
        let b = not (exists o.savedir) in
        let c = o.log && not (exists logs) in
        let receiver_cmd =
          receiver_command sim.port o.verbose (if o.log then some logs else none) in
        let (e, refused) = refuses path o off in
        let quiet = experiment_unsaved ends sim o path receiver_cmd e refused in
        elim (Run-cases (experiment ends sim o path receiver_cmd)) [
          | inl (fs, e, bad) ↦
              rw (named, bad) (unlinked-with_directories o.savedir logs fs b c ∙ rw bad at quiet)
          | inr (fs, u, good) ↦
              rw (named, good) (unlinked-with_directories o.savedir logs fs b c ∙ rw good at quiet)
        ]
  ]

  -- If the plotting code raises whenever it is not to save its plot, then a run that is not to save
  -- its plot raises, and it leaves both packet captures behind: it removes no file before it raises.
  pub run_unsaved :
      Refuses ends
      → o.save_plot ≡ false
      → (es : List Effect) × (e : Error) × (run ends exists sim o ≡ raised es e)
        × (unlinked es ≡ [])
  run_unsaved refuses off = elim (Run-cases (run ends exists sim o)) [
    | inl (es, e, bad) ↦ (es, e, bad, rw bad at run_unsaved-unlinked refuses off)
    | inr (es, u, good) ↦
        let f = run-Finished good in
        let (e, refused) = refuses f.path o off in cc (f.plot_ok, refused)
  ]

  -- A run that returns has removed the two packet captures of its own results, in order, and nothing
  -- else, and has talked to mahimahi's shell once.
  pub run-removes :
      (es : List Effect)
      → run ends exists sim o ≡ done es tt
      → (path : Text) × (cmd : Text) × (communicated es ≡ session sim path cmd ∷ [])
        × (unlinked es ≡ (path ++ codes "_sender.pcap") ∷ (path ++ codes "_receiver.pcap") ∷ [])
  run-removes es h = let f = run-Finished h in (f.path, f.cmd, f.shell, f.removed)

shown_time-none : (m : Mode) → m.ttr ≡ none → shown_time m ≡ codes "None"
unfolding shown_time
shown_time-none m h = rw h

init-ttr :
    (trace : Text) (port : Option ℤ) (ttr n_blks filepath : Option Text) (blksize : Option ℤ)
    (cc_algo : Option Text) (buf_len mm_delay : Option ℕ) (sim : Simulation)
    → init trace port ttr n_blks filepath blksize cc_algo buf_len mm_delay ≡ ok sim
    → 0 < given n_blks + given filepath
    → sim.mode.ttr ≡ none
unfolding init choose_mode
init-ttr trace port ttr none none blksize cc_algo buf_len mm_delay sim h k = absurd (omega arith)
init-ttr trace port none (some n) none blksize cc_algo buf_len mm_delay sim h k =
    rw (← ok-injective h)
init-ttr trace port none none (some f) blksize cc_algo buf_len mm_delay sim h k =
    rw (← ok-injective h)
init-ttr trace port none (some n) (some f) blksize cc_algo buf_len mm_delay sim h k = cc h
init-ttr trace port (some t) (some n) none blksize cc_algo buf_len mm_delay sim h k = cc h
init-ttr trace port (some t) none (some f) blksize cc_algo buf_len mm_delay sim h k = cc h
init-ttr trace port (some t) (some n) (some f) blksize cc_algo buf_len mm_delay sim h k = cc h

-- A simulation that is to send blocks or to replay a trace file gives mahimahi's shell the command
-- `sleep None`, and a sender's command that is the same for every way of sending.
pub run-sleep_none :
    (ends : PlotEnds) (exists : Text → Bool) (trace : Text) (port : Option ℤ)
    (ttr n_blks filepath : Option Text) (blksize : Option ℤ) (cc_algo : Option Text)
    (buf_len mm_delay : Option ℕ) (sim : Simulation) (o : Options) (es : List Effect)
    → init trace port ttr n_blks filepath blksize cc_algo buf_len mm_delay ≡ ok sim
    → 0 < given n_blks + given filepath
    → run ends exists sim o ≡ done es tt
    → (path : Text) × (cmd : Text) × ((m : Mode)
        → format_one (sender_command (record sim { mode = m }) path o.log) (codes "100.64.0.1")
          ≡ ok cmd)
      × (communicated es
          ≡ ((codes "sudo tcpdump -i any -s96 -w " ++ path ++ codes "_sender.pcap & ")
              ++ cmd
              ++ codes " & \n sleep "
              ++ codes "None"
              ++ codes " \n exit")
            ∷ [])
unfolding session sender_command
run-sleep_none ends exists trace port ttr n_blks filepath blksize cc_algo buf_len mm_delay sim o es
      made asked h =
    let f = run-Finished ends exists sim o h in
    let no_time =
      init-ttr trace port ttr n_blks filepath blksize cc_algo buf_len mm_delay sim made asked in
    (f.path, f.cmd, λ m. f.formatted, f.shell ∙ rw (shown_time-none sim.mode no_time))
