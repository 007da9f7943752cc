-- ===== src/Simulation/Vatic.antt =====
-- `Simulation` of runmmVatic.py, and `GetBaseTime` of PlotvaticTrace.py: the two Vatic programs on the
-- two ends of an emulated channel.
pub mod Address
pub mod BaseTime
use vatic_udp.Prelude.{
  ℕ, List, [], ◌∷◌, ◌++◌, Bool, true, false, not, ltb, if◌then◌else◌, Option, none, some, last?, ℤ,
  pos, negsuc, eqb_ℤ, Result, ok, err, or_raise, index_error,
}
use vatic_udp.Prelude.Results
use vatic_udp.Py.Text.{Text, codes, starts_with, split, strip}
use vatic_udp.Py.Decimal.{parse_int, print_nat, print_int, print_two}
use vatic_udp.Py.Format.{path_join}
use vatic_udp.Simulation.Effects.{
  PlotEnds, call, Effect, makedirs, spawn_shell, communicate, system, sleep, plot_vatic, plot_bins,
  Run, ◌>>=◌, ◌>>◌, emits, emit, emit_if, lift,
}

-- The fields that `__init__` copies from the command line; `port` is never read.
pub record Simulation : Type 0 where
  pub trace : Text
  pub n_blks : Option Text
  pub pkts_blk : Option ℤ
  pub inter_block_time : Option ℤ
  pub pkt_size : Option ℤ
  pub buf_len : Option ℕ
  pub mm_delay : Option ℕ
  pub savedir : Text
  pub send_rate : Option ℤ
  pub send_time : Option ℤ

-- `GetBaseTime`, from the lines of the file
unfoldable pub base_time : List Text → Result ℤ
unfolding codes
base_time [] = ok (negsuc 0)
base_time (raw ∷ lines) =
    let line = strip raw in
    let rest = base_time lines in
    if starts_with line (codes "# init timestamp")
    then Results.◌>>=◌ (or_raise index_error (last? (split line b':'))) parse_int
    else rest

-- `'{:02d}'.format(n)`; a sign fills the width.
unfoldable pub print_rate : ℤ → Text
unfolding print_two print_int
print_rate (pos n) = print_two n
print_rate (negsuc n) = print_int (negsuc n)

abbrev pub part {ℓ} : {A : Type ℓ} → (A → Text) → Option A → Text
part f none = []
part f (some a) = f a

abbrev pub positive_delay : Option ℕ → Option ℕ
positive_delay none = none
positive_delay (some d) = if ltb 0 d then some d else none

-- `saveprefix`; `fixed` is `'{:.0f}'.format` of an integer.
unfoldable pub save_prefix : (ℕ → Text) → Simulation → Text
unfolding codes print_two print_rate
save_prefix fixed sim =
    sim.trace
    ++ part (λ n. codes "-N_" ++ n) sim.n_blks
    ++ part (λ n. codes "-Q_" ++ fixed n) sim.buf_len
    ++ part (λ d. codes "-delay_" ++ print_two d) (positive_delay sim.mm_delay)
    ++ part (λ r. codes "-rate_" ++ print_rate r) sim.send_rate

-- `server_ip_for_client`
unfoldable pub server_ip_for_client : Option ℕ → Text
unfolding codes
server_ip_for_client none = codes "100.64.0.2"
server_ip_for_client (some d) = codes "100.64.0.4"

-- `receiver_cmd`
unfoldable pub receiver_command : Option ℕ → Text → Text
unfolding codes server_ip_for_client
receiver_command mm_delay prefix =
    codes "vatic/src/client_program --send_addr="
    ++ server_ip_for_client mm_delay
    ++ codes " --log_name="
    ++ prefix
    ++ codes " &"

-- `mm_cmd`
unfoldable pub mm_command : Simulation → Text → Text
unfolding codes print_nat path_join
mm_command sim path =
    let tracepath = path_join (path_join (codes "traces") (codes "channels")) sim.trace in
    part (λ d. codes "mm-delay " ++ print_nat d ++ codes " ") (positive_delay sim.mm_delay)
    ++ (codes "mm-link "
        ++ tracepath
        ++ codes " "
        ++ tracepath
        ++ codes " --uplink-log "
        ++ path
        ++ codes "_uplink.csv")
    ++ part
        (λ n.
          codes " --uplink-queue=droptail --uplink-queue-args=bytes="
          ++ print_nat n
          ++ (codes " --downlink-queue=droptail --downlink-queue-args=bytes=" ++ print_nat n))
        sim.buf_len

-- `if x: sender_cmd += …`, for a number
abbrev pub option_number : Text → Option ℤ → Text
option_number name none = []
option_number name (some n) = if eqb_ℤ n (pos 0) then [] else name ++ print_int n

-- The same for a text.
abbrev pub option_text : Text → Option Text → Text
option_text name none = []
option_text name (some []) = []
option_text name (some (c ∷ s)) = name ++ c ∷ s

-- `sender_cmd`
unfoldable pub sender_command : Simulation → Text → Text
unfolding codes
sender_command sim prefix =
    codes "vatic/src/server_program --send_addr=100.64.0.1 --log_name="
    ++ prefix
    ++ option_number (codes " --num_pkts_block=") sim.pkts_blk
    ++ option_text (codes " --num_blocks=") sim.n_blks
    ++ option_number (codes " --inter_block_time=") sim.inter_block_time
    ++ option_number (codes " --pkt_size=") sim.pkt_size
    ++ option_number (codes " --send_rate=") sim.send_rate
    ++ option_number (codes " --send_time=") sim.send_time

-- The commands that stop what still runs.
unfoldable pub stop_commands : List Text
unfolding codes
stop_commands =
    codes "sudo killall server_program"
    ∷ codes "sudo killall client_program"
    ∷ codes "sudo killall mm-delay"
    ∷ codes "sudo killall mm-link"
    ∷ codes "ps | pgrep -f server_program | xargs kill -TERM"
    ∷ codes "ps | pgrep -f client_program | xargs kill -TERM"
    ∷ codes "ps | pgrep -f mm-delay | sudo xargs kill -TERM"
    ∷ codes "ps | pgrep -f mm-link | sudo xargs kill -TERM"
    ∷ []

unfoldable pub call_all : List Text → List Effect
call_all [] = []
call_all (c ∷ cs) = system c ∷ call_all cs

-- The plots, from the base time on.
unfoldable pub plots : Text → Text → ℤ → List Effect
unfolding codes
plots prefix path base =
    let log_file = path ++ codes "_uplink.csv" in
    plot_vatic (codes "results") prefix base
    ∷ plot_bins log_file 6 10
    ∷ plot_bins log_file 6 100
    ∷ plot_bins log_file 6 500
    ∷ plot_bins log_file 6 1000
    ∷ []

-- One call of the plotting code after the other; an error leaves out the rest.
unfoldable pub plot_all : PlotEnds → List Effect → Run (Unit {0})
plot_all ends [] = emits []
plot_all ends (p ∷ ps) = do call ends p; plot_all ends ps

-- The emulated session, up to the end of all programs.
unfoldable pub session : Simulation → Text → Text → List Effect
unfolding codes call_all
session sim prefix path =
    spawn_shell (mm_command sim path)
    ∷ sleep 2
    ∷ system (codes "sudo ip route add 100.64.0.0/24 via 100.64.0.1")
    ∷ sleep 2
    ∷ system (receiver_command sim.mm_delay prefix)
    ∷ sleep 2
    ∷ communicate (sender_command sim prefix)
    ∷ call_all stop_commands

-- `run`; `ends` tells how the calls of the plotting code end, `exists` answers `os.path.exists`, and
-- `read` gives the lines of a file, once the session is over, or the error of `open`.
unfoldable pub run :
    PlotEnds
    → (Text → Bool)
    → (Text → Result (List Text))
    → (ℕ → Text)
    → Simulation
    → Run (Unit {0})
unfolding codes
run ends exists read fixed sim = do
  emit_if (not (exists sim.savedir)) (makedirs sim.savedir)
  let prefix = save_prefix fixed sim
  let path = path_join sim.savedir prefix
  emits (session sim prefix path)
  lines ← lift (read (path ++ codes "_uplink.csv"))
  base ← lift (base_time lines)
  plot_all ends (plots prefix path base)
