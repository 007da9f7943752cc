-- ===== src/BatchRuns.antt =====
-- runVerus.py and runCopa.py: the commands that they hand to the shell.
pub mod Commands
use vatic_udp.Prelude.{ℕ, List, [], ◌∷◌, ◌++◌, map}
use vatic_udp.Py.Text.{Text, codes}
use vatic_udp.Py.Decimal.{print_nat}
use vatic_udp.Simulation.Effects.{Effect, system}

-- `time` and `dir`
abbrev pub run_time : ℕ
run_time = 60

unfoldable pub trace_list : List Text
unfolding codes
trace_list =
    codes "humanmotion"
    ∷ codes "walkandturn"
    ∷ codes "fanrunning"
    ∷ codes "stationary"
    ∷ codes "Building1_1"
    ∷ codes "Building1_2"
    ∷ codes "Building2_1"
    ∷ codes "Building2_2"
    ∷ codes "Building3_1"
    ∷ codes "Building3_2"
    ∷ codes "Building4_1"
    ∷ codes "Building4_2"
    ∷ codes "Building5_1"
    ∷ codes "Building5_2"
    ∷ codes "InHM_1"
    ∷ codes "InHM_2"
    ∷ codes "InHO_1"
    ∷ codes "InHO_2"
    ∷ codes "RMa_1"
    ∷ codes "RMa_2"
    ∷ codes "UMa_1"
    ∷ codes "UMa_2"
    ∷ []

abbrev pub verus_bdp : List ℕ
verus_bdp =
    60000 ∷ 300000 ∷ 25000 ∷ 300000 ∷ 540000 ∷ 655000 ∷ 652000 ∷ 664000 ∷ 499000 ∷ 582000 ∷ 780000
    ∷ 1670000 ∷ 550000 ∷ 612000 ∷ 980000 ∷ 980000 ∷ 730000 ∷ 750000 ∷ 13300000 ∷ 13300000 ∷ 12600000
    ∷ 13200000 ∷ []

abbrev pub verus_two_bdp : List ℕ
verus_two_bdp =
    120000 ∷ 600000 ∷ 50000 ∷ 600000 ∷ 1080000 ∷ 1310000 ∷ 1304000 ∷ 1328000 ∷ 998000 ∷ 1164000
    ∷ 1560000 ∷ 3340000 ∷ 1100000 ∷ 124000 ∷ 1960000 ∷ 1960000 ∷ 1460000 ∷ 1500000 ∷ 26600000
    ∷ 26600000 ∷ 25200000 ∷ 26400000 ∷ []

abbrev pub copa_bdp : List ℕ
copa_bdp =
    15400 ∷ 26000 ∷ 21000 ∷ 26000 ∷ 130000 ∷ 130000 ∷ 130000 ∷ 130000 ∷ 131000 ∷ 133000 ∷ 125000
    ∷ 124000 ∷ 130000 ∷ 130000 ∷ 129000 ∷ 130000 ∷ 130000 ∷ 130000 ∷ 13000 ∷ 13000 ∷ 15000 ∷ 13000
    ∷ []

abbrev pub copa_two_bdp : List ℕ
copa_two_bdp =
    30800 ∷ 52000 ∷ 42000 ∷ 52000 ∷ 260000 ∷ 260000 ∷ 260000 ∷ 260000 ∷ 262000 ∷ 266000 ∷ 250000
    ∷ 248000 ∷ 260000 ∷ 260000 ∷ 258000 ∷ 260000 ∷ 260000 ∷ 260000 ∷ 26000 ∷ 26000 ∷ 30000 ∷ 26000
    ∷ []

-- `"{0}_T{1}_128KiB_Q{2}".format(traces,time,buf_len)`
unfoldable pub run_name : Text → ℕ → Text
unfolding codes print_nat
run_name trace buf_len =
    trace ++ codes "_T" ++ print_nat run_time ++ codes "_128KiB_Q" ++ print_nat buf_len

-- `command`; the last text is what stands behind `--algo`.
unfoldable pub command : Text → Text → ℕ → Text
unfolding codes print_nat run_name
command algo trace buf_len =
    codes "python run.py -tr "
    ++ (codes "traces/channels/" ++ trace)
    ++ (codes " -t " ++ print_nat run_time)
    ++ (codes " -q " ++ print_nat buf_len)
    ++ (codes " --name " ++ run_name trace buf_len)
    ++ (codes " --dir " ++ codes "output")
    ++ (codes " --algo " ++ algo)

-- The loop over `zip(trace_list, buf_len_list)`
unfoldable pub run_all : Text → List Text → List ℕ → List Effect
unfolding command
run_all algo (t ∷ ts) (n ∷ ns) = system (command algo t n) ∷ run_all algo ts ns
run_all algo ts ns = []

unfoldable pub run_verus : List Effect
unfolding codes run_all trace_list
run_verus =
    run_all (codes "verus --tcp_probe ") (trace_list ++ trace_list) (verus_bdp ++ verus_two_bdp)

unfoldable pub run_copa : List Effect
unfolding codes run_all trace_list
run_copa = run_all (codes "copa") (trace_list ++ trace_list) (copa_bdp ++ copa_two_bdp)
