-- ===== src/Simulation/Multi/Processes.antt =====
-- Which processes `run` of runmm_multi.py starts, and which it waits for.
use vatic_udp.Prelude.{
  List, [], ◌∷◌, ◌++◌, append-nil, map, ◌≡◌, ◌∙◌, ap, Bool, true, false, not, ◌&&◌, if◌then◌else◌,
  inl, inr, ok, Result-cases, range_from,
}
use vatic_udp.Py.Text.{Text, codes}
use vatic_udp.Py.Format.{path_join, basename}
use vatic_udp.Simulation.Effects.{
  receiver, sender, Effect, makedirs, mkdir, wait, plot, done, done-injective, Run-cases, spawned,
  waited, plotted, argvs, argvs-append, PlotEnds, spawned-append, waited-append, plotted-append,
}
use vatic_udp.Simulation.Multi.{
  Simulation, Options, save_prefix, mm_command, effective_side, launch, run,
}
use vatic_udp.Simulation.Multi.Launch.{sender_count, side_log, Launched, launch-Launched}

-- The effects of a run around those of its launch.
abbrev framed : Bool → Bool → Text → Text → List Effect → Effect → List Effect
framed b c p q es last =
    (if b then makedirs p ∷ [] else [])
    ++ ((if c then mkdir q ∷ [] else []) ++ (es ++ wait receiver ∷ last ∷ []))

module _ (p q : Text) (es : List Effect) (log title : Text) (disp save : Bool) where
  abbrev whole : Bool → Bool → List Effect
  whole b c = framed b c p q es (plot log title disp save)

  spawned-framed : (b c : Bool) → spawned (whole b c) ≡ spawned es
  spawned-framed true true = spawned-append es _ ∙ append-nil _
  spawned-framed true false = spawned-append es _ ∙ append-nil _
  spawned-framed false true = spawned-append es _ ∙ append-nil _
  spawned-framed false false = spawned-append es _ ∙ append-nil _

  waited-framed : (b c : Bool) → waited (whole b c) ≡ waited es ++ receiver ∷ []
  waited-framed true true = waited-append es _
  waited-framed true false = waited-append es _
  waited-framed false true = waited-append es _
  waited-framed false false = waited-append es _

  argvs-framed : (b c : Bool) → argvs (whole b c) ≡ argvs es
  argvs-framed true true = argvs-append es _ ∙ append-nil _
  argvs-framed true false = argvs-append es _ ∙ append-nil _
  argvs-framed false true = argvs-append es _ ∙ append-nil _
  argvs-framed false false = argvs-append es _ ∙ append-nil _

  plotted-framed : (b c : Bool) → plotted (whole b c) ≡ plotted es ++ log ∷ []
  plotted-framed true true = plotted-append es _
  plotted-framed true false = plotted-append es _
  plotted-framed false true = plotted-append es _
  plotted-framed false false = plotted-append es _

-- What a run that returns has done.
pub record Completed (ends : PlotEnds) (exists : Text → Bool) (sim : Simulation) (o : Options)
    (es : List Effect) : Type 0 where
  pub prefix : Text
  pub log : Text
  pub by_launch : List Effect
  pub prefix_ok : save_prefix sim ≡ ok prefix
  pub launched :
      Launched
        (effective_side sim.n_senders o.mm_side)
        sim.n_senders
        (path_join o.savedir prefix)
        (mm_command sim o.mm_side (path_join o.savedir prefix))
        by_launch
        log
  pub starts : spawned es ≡ spawned by_launch
  pub waits : waited es ≡ waited by_launch ++ receiver ∷ []
  pub plots : plotted es ≡ plotted by_launch ++ log ∷ []
  pub arguments : argvs es ≡ argvs by_launch
  pub plot_ok :
      ends (plot log (basename (path_join o.savedir prefix)) o.disp_plot o.save_plot) ≡ ok tt

pub run-Completed :
    (ends : PlotEnds) (exists : Text → Bool) (sim : Simulation) (o : Options) {es : List Effect}
    → run ends exists sim o ≡ done es tt
    → Completed ends exists sim o es
unfolding run
run-Completed ends exists sim o {es} h = elim (Result-cases (save_prefix sim)) [
  | inl (e, bad) ↦ cc (rw bad at h)
  | inr (prefix, prefix_ok) ↦ elim (Run-cases (launch sim o (path_join o.savedir prefix))) [
    | inl (fs, e, bad) ↦ cc (rw (prefix_ok, bad) at h)
    | inr (fs, log, good) ↦
        let path = path_join o.savedir prefix in
        let title = basename path in
        let logs = path ++ codes "_receiver" in
        let b = not (exists o.savedir) in
        let c = o.log && not (exists logs) in
        elim (Result-cases (ends (plot log title o.disp_plot o.save_plot))) [
          | inl (e, bad) ↦ cc (rw (prefix_ok, good, bad) at h)
          | inr (u, plotted_ok) ↦
              let (same, _) = done-injective (rw (prefix_ok, good, plotted_ok) at h) in
              record {
                prefix = prefix;
                log = log;
                by_launch = fs;
                prefix_ok = prefix_ok;
                launched = launch-Launched sim o path good;
                starts =
                    rw (← same)
                      (spawned-framed o.savedir logs fs log title o.disp_plot o.save_plot b c);
                waits =
                    rw (← same)
                      (waited-framed o.savedir logs fs log title o.disp_plot o.save_plot b c);
                plots =
                    rw (← same)
                      (plotted-framed o.savedir logs fs log title o.disp_plot o.save_plot b c);
                arguments =
                    rw (← same)
                      (argvs-framed o.savedir logs fs log title o.disp_plot o.save_plot b c);
                plot_ok = plotted_ok;
              }
        ]
  ]
]

module _ (ends : PlotEnds) (exists : Text → Bool) (sim : Simulation) (o : Options)
    {es : List Effect} where
  -- A run that returns has started the receiver first and then the senders, as many as were asked for
  -- (one, if the channel is emulated on the sender's side), and has waited for every sender, in the
  -- order of their start, and last for the receiver.
  pub run-waits :
      run ends exists sim o ≡ done es tt
      → (spawned es
          ≡ receiver
            ∷ map sender (
                range_from 0 (sender_count (effective_side sim.n_senders o.mm_side) sim.n_senders)))
        × (waited es
            ≡ map sender
                (range_from 0 (sender_count (effective_side sim.n_senders o.mm_side) sim.n_senders))
              ++ receiver ∷ [])
  run-waits h =
      let c = run-Completed ends exists sim o h in
      (c.starts ∙ c.launched.starts, c.waits ∙ ap (λ r. r ++ receiver ∷ []) c.launched.waits)

  -- The one log that a run plots.
  pub run-plots :
      (c : Completed ends exists sim o es)
      → plotted es
        ≡ side_log (effective_side sim.n_senders o.mm_side) (path_join o.savedir c.prefix) ∷ []
  run-plots c =
      c.plots ∙ ap (λ r. r ++ c.log ∷ []) c.launched.plots ∙ ap (λ r. r ∷ []) c.launched.log_file
