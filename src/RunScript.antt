-- ===== src/RunScript.antt =====
-- run.py: one run of Verus over an emulated link.
pub mod Order
use vatic_udp.Prelude.{
  ℕ, List, [], ◌∷◌, ◌++◌, Bool, true, false, not, if◌then◌else◌, Option, none, some, ℤ, pos, ltb_ℤ,
  Result, ok, err, name_error,
}
use vatic_udp.Prelude.Results
use vatic_udp.Py.Text.{Text, codes, text_eq}
use vatic_udp.Py.Decimal.{parse_int, print_int}
use vatic_udp.Simulation.Effects.{
  Effect, makedirs, spawn_shell, communicate, system, sleep, Run, raised, ◌>>=◌, ◌>>◌, emits, emit,
  emit_if, lift,
}

-- `positive_int`: the module argparse is not imported, so a number out of range ends in NameError.
unfoldable pub positive_int : Text → Result ℤ
unfolding parse_int
positive_int arg =
    Results.◌>>=◌ (parse_int arg) λ n. if ltb_ℤ (pos 0) n then ok n else err name_error

-- `args`; `queue` is `None` if it is not given.
pub record RunArgs : Type 0 where
  pub dir : Text
  pub trace : Text
  pub time : ℤ
  pub name : Text
  pub algo : Text
  pub queue : Option ℤ

unfoldable pub shown_queue : Option ℤ → Text
unfolding codes print_int
shown_queue none = codes "None"
shown_queue (some n) = print_int n

-- The directory of the run
unfoldable pub run_dir : RunArgs → Text
unfolding codes
run_dir args = args.dir ++ codes "/output_verus/" ++ args.name

unfoldable pub server_command : RunArgs → Text
unfolding codes run_dir print_int
server_command args =
    codes "./verus_protocol/verus/src/verus_server -name "
    ++ run_dir args
    ++ codes " -p 60001 -t "
    ++ print_int args.time

unfoldable pub link_command : RunArgs → Text
unfolding codes run_dir shown_queue
link_command args =
    codes "mm-link ./"
    ++ args.trace
    ++ codes " ./"
    ++ args.trace
    ++ codes " --meter-all --uplink-log "
    ++ (run_dir args ++ codes "/" ++ args.name ++ codes "_uplink.csv")
    ++ codes " --downlink-log "
    ++ (run_dir args ++ codes "/" ++ args.name ++ codes "_downlink.csv")
    ++ codes " --uplink-queue=droptail --uplink-queue-args=bytes="
    ++ shown_queue args.queue

-- `RunVERUS`; `exists` answers `os.path.exists`.
unfoldable pub run_verus_once : (Text → Bool) → RunArgs → Run (Unit {0})
unfolding codes run_dir server_command link_command
run_verus_once exists args = do
  emit_if (not (exists (args.dir ++ codes "/output_verus")))
      (makedirs (args.dir ++ codes "/output_verus"))
  emit_if (not (exists (run_dir args))) (makedirs (run_dir args))
  emit (spawn_shell (server_command args))
  emit (spawn_shell (link_command args))
  emit (
      communicate (codes "./verus_protocol/verus/src/verus_client $MAHIMAHI_BASE -p 60001\nexit\n"))
  emit (system (codes "ps | pgrep -f verus_server | xargs kill -9"))
  emit (system (codes "ps | pgrep -f verus_client | xargs kill -9"))
  emit (system (codes "mv client_60001* " ++ run_dir args ++ codes "/"))
  emit (sleep 5)

-- `simpleRun`: `RunCopa` is defined nowhere.
unfoldable pub simple_run : (Text → Bool) → RunArgs → Run (Unit {0})
unfolding codes text_eq run_verus_once
simple_run exists args =
    if text_eq args.algo (codes "verus")
    then run_verus_once exists args
    else if text_eq args.algo (codes "copa")
    then raised [] name_error
    else emits []
