-- ===== src/Tests/Programs.antt =====
-- Runs of runmm.py and runmmVatic.py on small inputs.
use vatic_udp.Prelude.{
  List, [], ◌∷◌, ◌≡◌, ◌⊎◌, refl, false, none, some, ℤ, pos, false, exception, Result, ok, err,
  Error, Every, file_not_found_error,
}
use vatic_udp.Py.Text.{Text, codes, starts_with, split, strip}
use vatic_udp.Py.Decimal.{parse_int, print_nat, print_int}
use vatic_udp.Simulation.Effects.{PlotEnds, plot_vatic, Effect, done, raised, effects}
use vatic_udp.Simulation.Multi.Main
use vatic_udp.Simulation.Single
use vatic_udp.Simulation.Batch
use vatic_udp.Simulation.Single.Equivalence.{main-as_multi}
use vatic_udp.Simulation.Vatic
use vatic_udp.Simulation.Vatic.Address.{systems, log_of, own_plots, FirstError, run-stops}
use vatic_udp.Tests.Simulations.{nothing_exists, blocks_wanted, all_plots}

abbrev one_sender : Single.Simulation
one_sender = record {
  trace = codes "t";
  port = pos 9999;
  mode = record { ttr = some (codes "10"); n_blks = none; filepath = none };
  blksize = pos 64;
  cc_algo = some (codes "bbr");
  buf_len = some 30000;
}

main-as_multi_example :
    Single.main all_plots nothing_exists blocks_wanted
    ≡ Main.main all_plots nothing_exists (record blocks_wanted { num_senders = none })
main-as_multi_example = main-as_multi all_plots nothing_exists blocks_wanted

abbrev five_blocks : Vatic.Simulation
five_blocks = record {
  trace = codes "t";
  n_blks = some (codes "5");
  pkts_blk = some (pos 10);
  inter_block_time = none;
  pkt_size = none;
  buf_len = some 30000;
  mm_delay = some 0;
  savedir = codes "results";
  send_rate = some (pos 7);
  send_time = none;
}

abbrev small_log : List Text
small_log =
    codes "# mahimahi mm-link\n" ∷ codes "# init timestamp: 1700\n" ∷ codes "0 # 1504\n" ∷ []

-- The log can be read, and the plot of Vatic's results returns, but those of the throughput raise.
abbrev small_file : Text → Result (List Text)
small_file path = ok small_log

abbrev ends_at_bins : PlotEnds
ends_at_bins (plot_vatic dir prefix base) = ok tt
ends_at_bins p = err file_not_found_error

run-stops_example :
    (systems (effects (Vatic.run ends_at_bins nothing_exists small_file print_nat five_blocks))
      ≡ codes "sudo ip route add 100.64.0.0/24 via 100.64.0.1"
        ∷ Vatic.receiver_command (some 0) (Vatic.save_prefix print_nat five_blocks)
        ∷ Vatic.stop_commands)
    × (((base : ℤ) × (es : List Effect) × (log_of small_file print_nat five_blocks ≡ ok base)
          × Every (λ p. ends_at_bins p ≡ ok tt) (own_plots print_nat five_blocks base)
          × (Vatic.run ends_at_bins nothing_exists small_file print_nat five_blocks ≡ done es tt))
        ⊎ ((e : Error) × (es : List Effect) × ((log_of small_file print_nat five_blocks ≡ err e)
              ⊎ ((base : ℤ) × (log_of small_file print_nat five_blocks ≡ ok base)
                  × FirstError ends_at_bins (own_plots print_nat five_blocks base) e))
            × (Vatic.run ends_at_bins nothing_exists small_file print_nat five_blocks
                ≡ raised es e)))
run-stops_example = run-stops ends_at_bins nothing_exists small_file print_nat five_blocks

small_log_base : Vatic.base_time small_log ≡ ok (pos 1700)
unfolding Vatic.base_time codes starts_with strip split parse_int
small_log_base = refl

vatic_prefix : Vatic.save_prefix print_nat five_blocks ≡ codes "t-N_5-Q_30000-rate_07"
unfolding Vatic.save_prefix codes
vatic_prefix = refl

vatic_sender :
    Vatic.sender_command five_blocks (codes "t")
    ≡ codes
        "vatic/src/server_program --send_addr=100.64.0.1 --log_name=t --num_pkts_block=10 --num_blocks=5 --send_rate=7"
unfolding Vatic.sender_command codes print_int
vatic_sender = refl

-- script_runmm2.py with the option for blocks.
abbrev batch_of_blocks : Batch.BatchLine
batch_of_blocks = record {
  savedir = none;
  ttr = none;
  n_blocks = some (codes "5");
  filepath = none;
  blksize = none;
  cc_algo = none;
  log = false;
  skip_seconds = none;
  verbose = 0;
}

main-batch_of_blocks : Batch.main all_plots nothing_exists batch_of_blocks ≡ raised [] exception
unfolding Batch.main vatic_udp.Simulation.Mm2.init
main-batch_of_blocks = refl
