-- ===== src/Simulation/Multi.antt =====
-- `Simulation` of runmm_multi.py: several senders on one emulated channel.
pub mod Launch
pub mod Processes
pub mod LinkLog
pub mod Main
use vatic_udp.Prelude.{
  ℕ, zero, suc, ◌+◌, List, [], ◌∷◌, ◌++◌, Bool, true, false, not, ◌&&◌, leb, if◌then◌else◌, Option,
  none, some, ℤ, pos, pos_part, ltb_ℤ, eqb_ℤ, Result, ok, err, assertion_error, exception,
}
use vatic_udp.Prelude.Results
use vatic_udp.Py.Text.{Text, codes, text_eq, words}
use vatic_udp.Py.Decimal.{print_nat, print_int}
use vatic_udp.Py.Format.{format_one, path_join, basename, splitext_root}
use vatic_udp.Simulation.Mode.{Mode, choose_mode}
use vatic_udp.Simulation.Effects.{
  PlotEnds, call, Process, receiver, sender, Effect, makedirs, mkdir, spawn, sleep, wait, plot, Run,
  raised, ◌>>=◌, ◌>>◌, emits, emit, emit_if, lift,
}

pub record Simulation : Type 0 where
  pub trace : Text
  pub port : ℤ
  pub n_senders : ℤ
  pub mode : Mode
  pub blksize : ℤ
  pub cc_algo : Option Text
  pub buf_len : Option ℕ

-- `x if x is not None else default`
abbrev pub default {ℓ} : {A : Type ℓ} → A → Option A → A
default d none = d
default d (some a) = a

abbrev pub blksize_default : ℤ
blksize_default = pos 128

-- `__init__`. The field `iperf` is set and never read.
unfoldable pub init :
    Text
    → Option ℤ
    → ℤ
    → Option Text
    → Option Text
    → Option Text
    → Option ℤ
    → Option Text
    → Option ℕ
    → Result Simulation
unfolding codes choose_mode
init trace port n_senders ttr n_blks filepath blksize cc_algo buf_len =
    Results.◌>>=◌ (choose_mode (codes "10") ttr n_blks filepath) λ mode. ok (record {
      trace = trace;
      port = default (pos 9999) port;
      n_senders = n_senders;
      mode = mode;
      blksize = default blksize_default blksize;
      cc_algo = cc_algo;
      buf_len = buf_len;
    })

-- The options of `run`.
pub record Options : Type 0 where
  pub savedir : Text
  pub mm_side : Text
  pub log : Bool
  pub verbose : ℕ
  pub disp_plot : Bool
  pub save_plot : Bool

-- `saveprefix` from the mode, before the block size
unfoldable pub mode_prefix : Text → Mode → Result Text
unfolding codes basename splitext_root
mode_prefix trace m = elim m.ttr [
  | some t ↦ ok (trace ++ codes "_T" ++ t)
  | none ↦ elim m.n_blks [
    | some n ↦ ok (trace ++ codes "_N" ++ n)
    | none ↦ elim m.filepath [
      | some f ↦ ok (trace ++ codes "_file_" ++ splitext_root (basename f))
      | none ↦ err assertion_error
    ]
  ]
]

unfoldable pub buffer_suffix : Option ℕ → Text
buffer_suffix none = []
buffer_suffix (some n) = codes "_Q" ++ print_nat n

unfoldable pub save_prefix : Simulation → Result Text
unfolding codes mode_prefix buffer_suffix print_int basename splitext_root
save_prefix sim = Results.◌>>=◌ (mode_prefix sim.trace sim.mode) λ prefix.
    ok (prefix ++ (codes "_" ++ print_int sim.blksize ++ codes "KiB") ++ buffer_suffix sim.buf_len)

-- `receiver_cmd`; the last argument is `recvlogdir` if a log is wanted.
unfoldable pub receiver_command : ℤ → ℕ → Option Text → Text
unfolding codes print_int path_join
receiver_command port verbose recvlogdir =
    codes "sender_receiver/receiver "
    ++ print_int port
    ++ codes " 1 "
    ++ (if leb 1 verbose then codes "1" else codes "0")
    ++ elim recvlogdir [ none ↦ [] | some dir ↦ codes " --log " ++ path_join dir (codes "recvlog") ]

-- The droptail queue of both directions.
unfoldable pub queue_options : Option ℕ → Text
unfolding codes print_nat
queue_options none = []
queue_options (some n) =
    codes " --uplink-queue=droptail --uplink-queue-args=bytes="
    ++ print_nat n
    ++ (codes " --downlink-queue=droptail --downlink-queue-args=bytes=" ++ print_nat n)

-- `mm_cmd`, from the side that was asked for
unfoldable pub mm_command : Simulation → Text → Text → Text
unfolding codes text_eq path_join queue_options
mm_command sim mm_side path =
    let tracepath = path_join (path_join (codes "traces") (codes "channels")) sim.trace in
    let link = codes "mm-link " ++ tracepath ++ codes " " ++ tracepath in
    (if text_eq mm_side (codes "receiver")
      then link ++ (codes " --downlink-log " ++ (path ++ codes "_downlink.csv"))
      else link ++ (codes " --uplink-log " ++ (path ++ codes "_uplink.csv")))
    ++ queue_options sim.buf_len

abbrev pub option_text : Text → Option Text → Text
option_text name none = []
option_text name (some v) = name ++ v

unfoldable pub mode_options : Mode → Text
mode_options m = elim m.filepath [
  | some f ↦ codes " -f " ++ f
  | none ↦ elim m.n_blks [
    | some n ↦ codes " -n " ++ n
    | none ↦ codes " -t " ++ elim m.ttr [ some t ↦ t | none ↦ codes "None" ]
  ]
]

-- `sender_cmd`, a template whose field is the address of the receiver
unfoldable pub sender_command : Simulation → Text → Bool → Text
unfolding codes print_int mode_options
sender_command sim path log =
    codes "sender_receiver/sender {} "
    ++ print_int sim.port
    ++ mode_options sim.mode
    ++ (if eqb_ℤ sim.blksize blksize_default then [] else codes " -b " ++ print_int sim.blksize)
    ++ option_text (codes " -C ") sim.cc_algo
    ++ (if log then codes " -l " ++ (path ++ codes "_sender.log") else [])

-- The side on which the channel is emulated in the end.
unfoldable pub effective_side : ℤ → Text → Text
unfolding codes text_eq
effective_side n_senders mm_side =
    if ltb_ℤ (pos 1) n_senders && text_eq mm_side (codes "sender")
    then codes "receiver"
    else mm_side

-- One sender after the other, from number `i` on: how they are started, and how they are waited for.
unfoldable pub sender_starts : Bool → List Text → ℕ → ℕ → List Effect
sender_starts piped argv zero i = []
sender_starts piped argv (suc n) i =
    spawn (sender i) piped argv ∷ sender_starts piped argv n (i + 1)

unfoldable pub sender_waits : ℕ → ℕ → List Effect
sender_waits zero i = []
sender_waits (suc n) i = wait (sender i) ∷ sender_waits n (i + 1)

-- `if mm_side == 'sender'`: the result is `mmlogfpath`.
unfoldable pub run_sender_side : Bool → Text → Text → Text → Text → Run Text
run_sender_side piped path receiver_cmd mm_cmd sender_cmd = do
  emit (spawn receiver piped (words receiver_cmd))
  cmd ← lift (format_one sender_cmd (codes "100.64.0.1"))
  emit (spawn (sender 0) piped (words (mm_cmd ++ codes " -- " ++ cmd)))
  emit (wait (sender 0))
  lift (ok (path ++ codes "_uplink.csv"))

-- `elif mm_side == 'receiver'`
unfoldable pub run_receiver_side : Bool → ℤ → Text → Text → Text → Text → Run Text
run_receiver_side piped n_senders path receiver_cmd mm_cmd sender_cmd = do
  emit (spawn receiver piped (words (mm_cmd ++ codes " -- " ++ receiver_cmd)))
  emit (sleep 1)
  cmd ← lift (format_one sender_cmd (codes "100.64.0.2"))
  emits (sender_starts piped (words cmd) (pos_part n_senders) 0)
  emits (sender_waits (pos_part n_senders) 0)
  lift (ok (path ++ codes "_downlink.csv"))

unfoldable pub run_side : Text → Bool → ℤ → Text → Text → Text → Text → Run Text
run_side side piped n_senders path receiver_cmd mm_cmd sender_cmd =
    if text_eq side (codes "sender")
    then run_sender_side piped path receiver_cmd mm_cmd sender_cmd
    else if text_eq side (codes "receiver")
    then run_receiver_side piped n_senders path receiver_cmd mm_cmd sender_cmd
    else raised [] exception

-- The three commands, and the side that runs them; the path is `savepathprefix`.
unfoldable pub launch : Simulation → Options → Text → Run Text
launch sim o path =
    run_side (effective_side sim.n_senders o.mm_side) (not (leb 2 o.verbose)) sim.n_senders path
      (receiver_command sim.port o.verbose
        (if o.log then some (path ++ codes "_receiver") else none))
      (mm_command sim o.mm_side path) (sender_command sim path o.log)

-- `run`; `exists` answers `os.path.exists`, and `ends` tells how `plot_tput_delay` ends.
unfoldable pub run : PlotEnds → (Text → Bool) → Simulation → Options → Run (Unit {0})
run ends exists sim o = do
  emit_if (not (exists o.savedir)) (makedirs o.savedir)
  prefix ← lift (save_prefix sim)
  let path = path_join o.savedir prefix
  let recvlogdir = path ++ codes "_receiver"
  emit_if (o.log && not (exists recvlogdir)) (mkdir recvlogdir)
  log_file ← launch sim o path
  emit (wait receiver)
  call ends (plot log_file (basename path) o.disp_plot o.save_plot)
