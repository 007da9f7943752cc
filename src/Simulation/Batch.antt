-- ===== src/Simulation/Batch.antt =====
-- script_runmm2.py: runs of runmm2.py one after the other, each with the controller started afresh.
-- The script's lists hold one trace, one delay and the infinite queue.
pub mod Ends
use vatic_udp.Prelude.{
  ℕ, zero, suc, ◌+◌, List, [], ◌∷◌, ◌++◌, Bool, true, ltb, if◌then◌else◌, Option, none, some, ℤ,
  pos, Result, system_exit,
}
use vatic_udp.Py.Text.{Text, codes}
use vatic_udp.Simulation.Mode.{given}
use vatic_udp.Simulation.Effects.{
  PlotEnds, Effect, system, Run, done, raised, ◌>>=◌, ◌>>◌, emits, lift,
}
use vatic_udp.Simulation.Mm2.{Simulation, Options, default, blksize_default, init, run}

-- The options that a command line gives; an option that is left out is `none` or `false`.
pub record BatchLine : Type 0 where
  pub savedir : Option Text
  pub ttr : Option Text
  pub n_blocks : Option Text
  pub filepath : Option Text
  pub blksize : Option ℤ
  pub cc_algo : Option Text
  pub log : Bool
  pub skip_seconds : Option ℕ
  pub verbose : ℕ

-- `CleanState`
unfoldable pub clean_state : List Effect
unfolding codes
clean_state =
    system (codes "sudo killall python2 receiver sender mm-link mm-delay >/dev/null 2>&1 ")
    ∷ system (codes "sudo sysctl -w net.ipv4.ip_forward=1 >/dev/null 2>&1")
    ∷ system (codes "sleep 5")
    ∷ []

-- `RunCCP`
unfoldable pub run_ccp : List Effect
unfolding codes clean_state
run_ccp =
    clean_state
    ++ system (
        codes
          "sudo nohup python2 ../ccp_bicdctcp/python/bic_dctcp_centroids.py 10000000 -P exp -A 0.5 >./nohup_vatic.log 2>&1 &")
      ∷ system (codes "sleep 5")
      ∷ []

-- `try: … except: …`, which catches every exception and goes on
abbrev pub attempt : Run (Unit {0}) → Run (Unit {0})
attempt (done es u) = done es tt
attempt (raised es e) = done es tt

abbrev pub for_each {ℓ} : {A : Type ℓ} → (A → Run (Unit {0})) → List A → Run (Unit {0})
for_each f [] = done [] tt
for_each f (a ∷ as') = f a >> for_each f as'

abbrev pub options_of : BatchLine → Options
options_of a = record {
  savedir = default (codes "results") a.savedir;
  log = a.log;
  skip_seconds = default 0 a.skip_seconds;
  verbose = a.verbose;
  disp_plot = Bool.false;
  save_plot = true;
  suffix = none;
}

abbrev pub made : BatchLine → Text → ℕ → Result Simulation
made a trace delay =
    init trace (some (pos 9999)) (some (default (codes "30") a.ttr)) a.n_blocks a.filepath
      (some (default blksize_default a.blksize)) (some (default (codes "bbr") a.cc_algo)) none
      (some delay)

-- The body of the loops over the traces and the delays: the constructor stands before the `try`, and
-- one run is made.
unfoldable pub scenario : PlotEnds → (Text → Bool) → BatchLine → Text → ℕ → Run (Unit {0})
unfolding run_ccp
scenario ends exists a trace delay = do
  sim ← lift (made a trace delay)
  attempt (do emits run_ccp; run ends exists sim (options_of a))

-- The code behind the command line. `parser.parse_args()` exits if more than one option of the
-- exclusive group is given.
unfoldable pub main : PlotEnds → (Text → Bool) → BatchLine → Run (Unit {0})
unfolding codes scenario
main ends exists a =
    if ltb 1 (given a.ttr + given a.n_blocks + given a.filepath)
    then raised [] system_exit
    else for_each (λ trace. for_each (scenario ends exists a trace) (5 ∷ []))
        (codes "LOW_10-HIGH_100" ∷ [])
