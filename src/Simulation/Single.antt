-- ===== src/Simulation/Single.antt =====
-- `Simulation` of runmm.py: one sender on one emulated channel. The options of its `run` and its
-- command line are those of runmm_multi.py without the number of senders.
pub mod Equivalence
use vatic_udp.Prelude.{
  ℕ, List, [], ◌∷◌, ◌++◌, Bool, true, false, not, ◌&&◌, leb, ltb, ◌+◌, if◌then◌else◌, Option, none,
  some, ℤ, pos, eqb_ℤ, Result, ok, err, assertion_error, exception, system_exit,
}
use vatic_udp.Prelude.Results
use vatic_udp.Py.Text.{Text, codes, text_eq, words}
use vatic_udp.Py.Decimal.{print_nat, print_int}
use vatic_udp.Py.Format.{format_one, path_join, basename, splitext_root}
use vatic_udp.Simulation.Mode.{Mode, given, choose_mode}
use vatic_udp.Simulation.Effects.{
  PlotEnds, call, receiver, sender, makedirs, mkdir, spawn, sleep, wait, plot, Run, raised, ◌>>=◌,
  ◌>>◌, emit, emit_if, lift,
}
use vatic_udp.Simulation.Multi.{Options, default}
use vatic_udp.Simulation.Multi.Main.{CommandLine}

pub record Simulation : Type 0 where
  pub trace : Text
  pub port : ℤ
  pub mode : Mode
  pub blksize : ℤ
  pub cc_algo : Option Text
  pub buf_len : Option ℕ

abbrev pub blksize_default : ℤ
blksize_default = pos 128

-- `__init__`. The field `iperf` is set and never read.
unfoldable pub init :
    Text
    → Option ℤ
    → Option Text
    → Option Text
    → Option Text
    → Option ℤ
    → Option Text
    → Option ℕ
    → Result Simulation
unfolding codes choose_mode
init trace port ttr n_blks filepath blksize cc_algo buf_len =
    Results.◌>>=◌ (choose_mode (codes "10") ttr n_blks filepath) λ mode. ok (record {
      trace = trace;
      port = default (pos 9999) port;
      mode = mode;
      blksize = default blksize_default blksize;
      cc_algo = cc_algo;
      buf_len = buf_len;
    })

-- `saveprefix` before the block size
unfoldable pub mode_prefix : Text → Mode → Result Text
unfolding codes basename splitext_root
mode_prefix trace m = elim m.ttr [
  | some t ↦ ok (trace ++ codes "_T" ++ t)
  | none ↦ elim m.n_blks [
    | some n ↦ ok (trace ++ codes "_N" ++ n)
    | none ↦ elim m.filepath [
      | some f ↦ ok (trace ++ codes "_file_" ++ splitext_root (basename f))
      | none ↦ err assertion_error
    ]
  ]
]

unfoldable pub save_prefix : Simulation → Result Text
unfolding codes mode_prefix print_int print_nat
save_prefix sim = Results.◌>>=◌ (mode_prefix sim.trace sim.mode) λ prefix.
    let sized = prefix ++ (codes "_" ++ print_int sim.blksize ++ codes "KiB") in
    elim sim.buf_len [ none ↦ ok sized | some n ↦ ok (sized ++ codes "_Q" ++ print_nat n) ]

-- `receiver_cmd`, from the port, the verbosity, `log` and `recvlogdir`
unfoldable pub receiver_command : ℤ → ℕ → Bool → Text → Text
unfolding codes print_int path_join
receiver_command port verbose log recvlogdir =
    let cmd =
      codes "sender_receiver/receiver "
      ++ print_int port
      ++ codes " 1 "
      ++ (if leb 1 verbose then codes "1" else codes "0") in
    if log then cmd ++ codes " --log " ++ path_join recvlogdir (codes "recvlog") else cmd

-- `mm_cmd`
unfoldable pub mm_command : Simulation → Text → Text → Text
unfolding codes text_eq path_join print_nat
mm_command sim mm_side path =
    let tracepath = path_join (path_join (codes "traces") (codes "channels")) sim.trace in
    let link = codes "mm-link " ++ tracepath ++ codes " " ++ tracepath in
    let cmd =
      (if text_eq mm_side (codes "receiver")
        then link ++ (codes " --downlink-log " ++ (path ++ codes "_downlink.csv"))
        else link ++ (codes " --uplink-log " ++ (path ++ codes "_uplink.csv"))) in
    elim sim.buf_len [
      | none ↦ cmd
      | some n ↦
          cmd
          ++ (codes " --uplink-queue=droptail --uplink-queue-args=bytes=" ++ print_nat n)
          ++ (codes " --downlink-queue=droptail --downlink-queue-args=bytes=" ++ print_nat n)
    ]

-- `sender_cmd`, a template whose field is the address of the receiver
unfoldable pub sender_command : Simulation → Text → Bool → Text
unfolding codes print_int
sender_command sim path log =
    codes "sender_receiver/sender {} "
    ++ print_int sim.port
    ++ elim sim.mode.filepath [
      | some f ↦ codes " -f " ++ f
      | none ↦ elim sim.mode.n_blks [
        | some n ↦ codes " -n " ++ n
        | none ↦ codes " -t " ++ elim sim.mode.ttr [ some t ↦ t | none ↦ codes "None" ]
      ]
    ]
    ++ (if eqb_ℤ sim.blksize blksize_default then [] else codes " -b " ++ print_int sim.blksize)
    ++ elim sim.cc_algo [ none ↦ [] | some a ↦ codes " -C " ++ a ]
    ++ (if log then codes " -l " ++ (path ++ codes "_sender.log") else [])

-- `if mm_side == 'sender'`: the result is `mmlogfpath`.
unfoldable pub start_sender_side : Bool → Text → Text → Text → Text → Run Text
start_sender_side piped path receiver_cmd mm_cmd sender_cmd = do
  emit (spawn receiver piped (words receiver_cmd))
  cmd ← lift (format_one sender_cmd (codes "100.64.0.1"))
  emit (spawn (sender 0) piped (words (mm_cmd ++ codes " -- " ++ cmd)))
  lift (ok (path ++ codes "_uplink.csv"))

-- `elif mm_side == 'receiver'`
unfoldable pub start_receiver_side : Bool → Text → Text → Text → Text → Run Text
start_receiver_side piped path receiver_cmd mm_cmd sender_cmd = do
  emit (spawn receiver piped (words (mm_cmd ++ codes " -- " ++ receiver_cmd)))
  emit (sleep 1)
  cmd ← lift (format_one sender_cmd (codes "100.64.0.2"))
  emit (spawn (sender 0) piped (words cmd))
  lift (ok (path ++ codes "_downlink.csv"))

unfoldable pub start_side : Text → Bool → Text → Text → Text → Text → Run Text
start_side side piped path receiver_cmd mm_cmd sender_cmd =
    if text_eq side (codes "sender")
    then start_sender_side piped path receiver_cmd mm_cmd sender_cmd
    else if text_eq side (codes "receiver")
    then start_receiver_side piped path receiver_cmd mm_cmd sender_cmd
    else raised [] exception

-- `run`; `exists` answers `os.path.exists`, and `ends` tells how `plot_tput_delay` ends.
unfoldable pub run : PlotEnds → (Text → Bool) → Simulation → Options → Run (Unit {0})
run ends exists sim o = do
  emit_if (not (exists o.savedir)) (makedirs o.savedir)
  prefix ← lift (save_prefix sim)
  let path = path_join o.savedir prefix
  let recvlogdir = path ++ codes "_receiver"
  emit_if (o.log && not (exists recvlogdir)) (mkdir recvlogdir)
  log_file ←
      start_side o.mm_side (not (leb 2 o.verbose)) path
        (receiver_command sim.port o.verbose o.log recvlogdir) (mm_command sim o.mm_side path)
        (sender_command sim path o.log)
  emit (wait (sender 0))
  emit (wait receiver)
  call ends (plot log_file (basename path) o.disp_plot o.save_plot)

-- The program, from its command line; the number of senders is not one of its options and is not
-- read. As in runmm_multi.py, `--log` and `--disp-plot` are always on.
unfoldable pub main : PlotEnds → (Text → Bool) → CommandLine → Run (Unit {0})
main ends exists a =
    if ltb 1 (given a.ttr + given a.n_blocks + given a.filepath) then raised [] system_exit else (do
      sim ← lift (
          init a.trace (some (default (pos 9999) a.port)) (some (default (codes "10") a.ttr))
            a.n_blocks a.filepath (some (default blksize_default a.blksize)) a.cc_algo a.buf_len)
      run ends exists sim (record {
        savedir = default (codes "output") a.dir;
        mm_side = default (codes "receiver") a.mm_side;
        log = true;
        verbose = a.verbose;
        disp_plot = true;
        save_plot = a.save_plot;
      }))
