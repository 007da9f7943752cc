-- ===== src/Tests/Simulations.antt =====
-- Runs of runmm_multi.py and runmm2.py on small inputs.
use vatic_udp.Prelude.{
  err, file_not_found_error, List, [], ◌∷◌, ◌++◌, ◌≡◌, ◌⊎◌, refl, Bool, true, false, Option, none,
  some, pos, ok,
}
use vatic_udp.Py.Text.{Text, codes, text_eq, words}
use vatic_udp.Py.Format.{format_one, path_join}
use vatic_udp.Simulation.Mode.{Mode, choose_mode}
use vatic_udp.Simulation.Effects.{
  PlotEnds, argvs, Effect, receiver, sender, done, effects, spawned, waited, plotted, communicated,
  unlinked,
}
use vatic_udp.Simulation.Multi
use vatic_udp.Simulation.Mm2
use vatic_udp.Simulation.Multi.Processes.{run-waits}
use vatic_udp.Simulation.Multi.LinkLog.{
  link_log, link_option, link_start, switched, run-plots-link_log,
}
use vatic_udp.Simulation.Multi.Main.{CommandLine}
use vatic_udp.Simulation.Mm2.Runs.{run-removes}

abbrev pub nothing_exists : Text → Bool
nothing_exists p = false

-- Every plot returns, and none does.
abbrev pub all_plots : PlotEnds
all_plots p = ok tt

abbrev pub failing_plots : PlotEnds
failing_plots p = err file_not_found_error

abbrev pub two_senders : Multi.Simulation
two_senders = record {
  trace = codes "t";
  port = pos 9999;
  n_senders = pos 2;
  mode = record { ttr = some (codes "10"); n_blks = none; filepath = none };
  blksize = pos 128;
  cc_algo = none;
  buf_len = none;
}

abbrev pub on_sender : Multi.Options
on_sender = record {
  savedir = codes "o";
  mm_side = codes "sender";
  log = false;
  verbose = 0;
  disp_plot = false;
  save_plot = true;
}

abbrev two_effects : List Effect
two_effects = effects (Multi.run all_plots nothing_exists two_senders on_sender)

two_return : Multi.run all_plots nothing_exists two_senders on_sender ≡ done two_effects tt
unfolding Multi.run Multi.launch Multi.run_side Multi.save_prefix Multi.effective_side
    Multi.run_sender_side Multi.run_receiver_side Multi.sender_command codes format_one
two_return = refl

run-waits_example :
    (spawned two_effects ≡ receiver ∷ sender 0 ∷ sender 1 ∷ [])
    × (waited two_effects ≡ sender 0 ∷ sender 1 ∷ receiver ∷ [])
unfolding Multi.effective_side codes text_eq
run-waits_example = run-waits all_plots nothing_exists two_senders on_sender two_return

run-plots-link_log_example :
    (path : Text) × (prefix : Text) × (Multi.save_prefix two_senders ≡ ok prefix)
    × (path ≡ path_join (codes "o") prefix)
    × ((command : Text) × (before : List (List Text)) × (behind : List (List Text)) × (argvs
            two_effects
          ≡ before
            ++ words (Multi.mm_command two_senders (codes "sender") path ++ codes " -- " ++ command)
              ∷ behind))
    × (Multi.mm_command two_senders (codes "sender") path
        ≡ link_start two_senders
          ++ (link_option (codes "sender") ++ link_log (codes "sender") path)
          ++ Multi.queue_options none)
    × (((switched (pos 2) (codes "sender") ≡ false)
          × (plotted two_effects ≡ link_log (codes "sender") path ∷ []))
        ⊎ ((switched (pos 2) (codes "sender") ≡ true)
            × (link_log (codes "sender") path ≡ path ++ codes "_uplink.csv")
            × (plotted two_effects ≡ (path ++ codes "_downlink.csv") ∷ [])))
run-plots-link_log_example =
    run-plots-link_log all_plots nothing_exists two_senders on_sender two_effects two_return

abbrev pub blocks_wanted : CommandLine
blocks_wanted = record {
  trace = codes "t";
  port = none;
  num_senders = none;
  ttr = none;
  n_blocks = some (codes "40");
  filepath = none;
  blksize = none;
  cc_algo = none;
  buf_len = none;
  dir = none;
  mm_side = none;
  verbose = 0;
  save_plot = false;
}

abbrev no_time : Option Text
no_time = none

abbrev block_mode : Mode
block_mode = record { ttr = none; n_blks = some (codes "40"); filepath = none }

block_mode_chosen : choose_mode (codes "10") none (some (codes "40")) none ≡ ok block_mode
unfolding choose_mode codes
block_mode_chosen = refl

abbrev one_delay : Mode → Mm2.Simulation
one_delay m = record {
  trace = codes "t";
  port = pos 9999;
  mode = m;
  blksize = pos 1000;
  cc_algo = none;
  buf_len = none;
  mm_delay = some 5;
}

abbrev saving : Bool → Mm2.Options
saving b = record {
  savedir = codes "o";
  log = false;
  skip_seconds = 0;
  verbose = 0;
  disp_plot = false;
  save_plot = b;
  suffix = none;
}

abbrev delay_effects : List Effect
delay_effects = effects (Mm2.run all_plots nothing_exists (one_delay block_mode) (saving true))

delay_return :
    Mm2.run all_plots nothing_exists (one_delay block_mode) (saving true) ≡ done delay_effects tt
unfolding Mm2.run Mm2.save_prefix Mm2.mode_prefix Mm2.experiment Mm2.plot_call Mm2.sender_command
    codes format_one
delay_return = refl

run-removes_example :
    (path : Text) × (cmd : Text) × (communicated delay_effects
      ≡ Mm2.session (one_delay block_mode) path cmd ∷ [])
    × (unlinked delay_effects
        ≡ (path ++ codes "_sender.pcap") ∷ (path ++ codes "_receiver.pcap") ∷ [])
run-removes_example =
    run-removes all_plots nothing_exists (one_delay block_mode) (saving true) delay_effects
      delay_return

delay_made :
    Mm2.init (codes "t") none none (some (codes "40")) none none none none (some 5)
    ≡ ok (one_delay block_mode)
unfolding Mm2.init choose_mode codes
delay_made = refl
