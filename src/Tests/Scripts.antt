-- ===== src/Tests/Scripts.antt =====
-- The commands of runVerus.py and runCopa.py, and runs of run.py.
use vatic_udp.Prelude.{◌≡◌, refl, [], ◌∷◌, true, none, pos, err, name_error, length}
use vatic_udp.Py.Text.{codes, text_eq}
use vatic_udp.Py.Decimal.{parse_int}
use vatic_udp.Simulation.Effects.{system, raised}
use vatic_udp.BatchRuns.{run_all, run_verus, run_copa}
use vatic_udp.RunScript.{RunArgs, positive_int, simple_run}

both_lists : (length run_verus ≡ 44) × (length run_copa ≡ 44)
unfolding run_verus run_copa
both_lists = (refl, refl)

one_command :
    run_all (codes "copa") (codes "RMa_1" ∷ []) (13000 ∷ 1 ∷ [])
    ≡ system (
        codes
          "python run.py -tr traces/channels/RMa_1 -t 60 -q 13000 --name RMa_1_T60_128KiB_Q13000 --dir output --algo copa")
      ∷ []
unfolding run_all codes
one_command = refl

abbrev copa_args : RunArgs
copa_args = record {
  dir = codes "output";
  trace = codes "traces/channels/RMa_1";
  time = pos 60;
  name = codes "x";
  algo = codes "copa";
  queue = none;
}

-- A run of Copa, and a queue of no bytes, end in NameError.
undefined_names :
    (simple_run (λ p. true) copa_args ≡ raised [] name_error)
    × (positive_int (codes "0") ≡ err name_error)
unfolding simple_run positive_int codes text_eq parse_int
undefined_names = (refl, refl)
