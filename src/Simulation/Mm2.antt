-- ===== src/Simulation/Mm2.antt =====
-- `Simulation` of runmm2.py: one sender inside mahimahi, with tcpdump on both ends.
pub mod Runs
pub mod Main
use vatic_udp.Prelude.{
  ℕ, List, [], ◌∷◌, ◌++◌, Bool, true, false, not, ◌&&◌, leb, ltb, if◌then◌else◌, Option, none, some,
  ℤ, pos, eqb_ℤ, Result, ok, err, assertion_error, unbound_local_error, name_error,
}
use vatic_udp.Prelude.Results
use vatic_udp.Py.Text.{Text, codes}
use vatic_udp.Py.Decimal.{print_nat, print_int, print_two}
use vatic_udp.Py.Format.{format_one, path_join, basename, splitext_root}
use vatic_udp.Simulation.Mode.{Mode, choose_mode}
use vatic_udp.Simulation.Effects.{
  PlotEnds, call, Effect, makedirs, mkdir, spawn_shell, communicate, system, sleep, unlink,
  plot_tcpdump, Run, raised, ◌>>=◌, ◌>>◌, emits, emit, emit_if, lift,
}

-- The fields of a simulation. `buf_len` is a number that a float holds exactly, at most 2^53.
pub record Simulation : Type 0 where
  pub trace : Text
  pub port : ℤ
  pub mode : Mode
  pub blksize : ℤ
  pub cc_algo : Option Text
  pub buf_len : Option ℕ
  pub mm_delay : Option ℕ

abbrev pub default {ℓ} : {A : Type ℓ} → A → Option A → A
default d none = d
default d (some a) = a

abbrev pub blksize_default : ℤ
blksize_default = pos 1000

-- `__init__`. The field `iperf` is set and never read.
unfoldable pub init :
    Text
    → Option ℤ
    → Option Text
    → Option Text
    → Option Text
    → Option ℤ
    → Option Text
    → Option ℕ
    → Option ℕ
    → Result Simulation
unfolding codes choose_mode
init trace port ttr n_blks filepath blksize cc_algo buf_len mm_delay =
    Results.◌>>=◌ (choose_mode (codes "10") ttr n_blks filepath) λ mode. ok (record {
      trace = trace;
      port = default (pos 9999) port;
      mode = mode;
      blksize = default blksize_default blksize;
      cc_algo = cc_algo;
      buf_len = buf_len;
      mm_delay = mm_delay;
    })

-- The options of `run`.
pub record Options : Type 0 where
  pub savedir : Text
  pub log : Bool
  pub skip_seconds : ℕ
  pub verbose : ℕ
  pub disp_plot : Bool
  pub save_plot : Bool
  pub suffix : Option Text

unfoldable pub mode_prefix : Text → Mode → Result Text
unfolding codes basename splitext_root
mode_prefix trace m = elim m.ttr [
  | some t ↦ ok (splitext_root trace ++ codes "_T" ++ t)
  | none ↦ elim m.n_blks [
    | some n ↦ ok (trace ++ codes "_N" ++ n)
    | none ↦ elim m.filepath [
      | some f ↦ ok (trace ++ codes "_file_" ++ splitext_root (basename f))
      | none ↦ err assertion_error
    ]
  ]
]

-- The delay if `mm_delay is not None and mm_delay > 0`
abbrev pub active_delay : Option ℕ → Option ℕ
active_delay none = none
active_delay (some d) = if ltb 0 d then some d else none

abbrev pub suffix_of : (ℕ → Text) → Option ℕ → Text
suffix_of f none = []
suffix_of f (some n) = f n

unfoldable pub save_prefix : Simulation → Option Text → Result Text
unfolding codes mode_prefix print_int print_two
save_prefix sim suffix = Results.◌>>=◌ (mode_prefix sim.trace sim.mode) λ prefix. ok (
    prefix
    ++ (codes "_" ++ print_int sim.blksize ++ codes "KiB")
    ++ suffix_of (λ n. codes "_Q" ++ print_nat n) sim.buf_len
    ++ suffix_of (λ d. codes "_delay" ++ print_two d) (active_delay sim.mm_delay)
    ++ elim suffix [ none ↦ [] | some t ↦ codes "_" ++ t ])

-- `receiver_cmd`; the last argument is `recvlogdir` if a log is wanted.
unfoldable pub receiver_command : ℤ → ℕ → Option Text → Text
unfolding codes print_int path_join
receiver_command port verbose recvlogdir =
    codes "sender_receiver/receiver "
    ++ print_int port
    ++ codes " 1 "
    ++ (if leb 1 verbose then codes "1" else codes "0")
    ++ elim recvlogdir [ none ↦ [] | some dir ↦ codes " --log " ++ path_join dir (codes "recvlog") ]

-- `mm_cmd`
unfoldable pub mm_command : Simulation → Text → Text
unfolding codes print_nat path_join
mm_command sim path =
    let tracepath = path_join (path_join (codes "traces") (codes "channels")) sim.trace in
    suffix_of (λ d. codes "mm-delay " ++ print_nat d ++ codes " ") (active_delay sim.mm_delay)
    ++ (codes "mm-link "
        ++ tracepath
        ++ codes " "
        ++ tracepath
        ++ codes " --uplink-log "
        ++ path
        ++ codes "_uplink.csv")
    ++ suffix_of
        (λ n.
          codes " --uplink-queue=droptail --uplink-queue-args=bytes="
          ++ print_nat n
          ++ (codes " --downlink-queue=droptail --downlink-queue-args=bytes=" ++ print_nat n))
        sim.buf_len

-- `sender_cmd`: the way of sending is not asked for, and the sender always runs for 305 seconds.
unfoldable pub sender_command : Simulation → Text → Bool → Text
unfolding codes print_int
sender_command sim path log =
    codes "sender_receiver/sender {} "
    ++ print_int sim.port
    ++ codes " -t 305"
    ++ (if eqb_ℤ sim.blksize blksize_default then [] else codes " -b " ++ print_int sim.blksize)
    ++ elim sim.cc_algo [ none ↦ [] | some a ↦ codes " -C " ++ a ]
    ++ (if log then codes " -l " ++ (path ++ codes "_sender.log") else [])

-- `str(self.ttr)`
unfoldable pub shown_time : Mode → Text
unfolding codes
shown_time m = elim m.ttr [ none ↦ codes "None" | some t ↦ t ]

-- What mahimahi's shell is given: tcpdump and the sender in the background, a wait, and the end.
unfoldable pub session : Simulation → Text → Text → Text
session sim path sender_cmd =
    (codes "sudo tcpdump -i any -s96 -w " ++ path ++ codes "_sender.pcap & ")
    ++ sender_cmd
    ++ codes " & \n sleep "
    ++ shown_time sim.mode
    ++ codes " \n exit"

-- The commands that stop what still runs.
unfoldable pub stop_all : List Effect
unfolding codes
stop_all =
    system (codes "ps | pgrep -f sender_receiver/sender | xargs kill -TERM")
    ∷ system (codes "ps | pgrep -f sender_receiver/receiver | xargs kill -TERM")
    ∷ system (codes "ps | pgrep -f tcpdump | sudo xargs kill -TERM")
    ∷ system (codes "ps | pgrep -f tcpdump | sudo xargs kill -TERM")
    ∷ []

-- The call of `plot_tput_delay_tcpdump`, which `ends` tells the end of. A title is always given.
unfoldable pub plot_call : Text → Options → Effect
plot_call path o =
    plot_tcpdump (path ++ codes "_sender.pcap") (path ++ codes "_receiver.pcap")
      (codes "100.64.0.1") (path ++ codes "_uplink.csv") o.skip_seconds (basename path) o.disp_plot
      o.save_plot

-- From the receiver's start to the end of the run.
unfoldable pub experiment : PlotEnds → Simulation → Options → Text → Text → Run (Unit {0})
experiment ends sim o path receiver_cmd = do
  emit (
      system (
        (codes "sudo tcpdump -i any -s 96 -w " ++ path ++ codes "_receiver.pcap & ")
        ++ receiver_cmd
        ++ codes " &"))
  emit (sleep 2)
  emit (spawn_shell (mm_command sim path))
  emit (sleep 2)
  cmd ← lift (format_one (sender_command sim path o.log) (codes "100.64.0.1"))
  emit (communicate (session sim path cmd))
  emits stop_all
  call ends (plot_call path o)
  emits (unlink (path ++ codes "_sender.pcap") ∷ unlink (path ++ codes "_receiver.pcap") ∷ [])

-- `run`; `exists` answers `os.path.exists`.
unfoldable pub run : PlotEnds → (Text → Bool) → Simulation → Options → Run (Unit {0})
run ends exists sim o = do
  emit_if (not (exists o.savedir)) (makedirs o.savedir)
  prefix ← lift (save_prefix sim o.suffix)
  let path = path_join o.savedir prefix
  let recvlogdir = path ++ codes "_receiver"
  emit_if (o.log && not (exists recvlogdir)) (mkdir recvlogdir)
  experiment ends sim o path
      (receiver_command sim.port o.verbose (if o.log then some recvlogdir else none))
