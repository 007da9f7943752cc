-- ===== src/Simulation/Batch/Ends.antt =====
-- How script_runmm2.py ends.
use vatic_udp.Prelude.{
  ℕ, ◌+◌, ◌<◌, List, [], ◌++◌, append-nil, ◌≡◌, refl, ap, ◌∙◌, arith, Bool, false, ltb, Bool-cases,
  Option, none, some, ℤ, pos, Error, ok, system_exit, exception, ◌⊎◌, inl, inr,
}
use vatic_udp.Py.Text.{Text, codes}
use vatic_udp.Simulation.Mode.{given, choose_mode}
use vatic_udp.Simulation.Effects.{PlotEnds, Effect, Run, done, raised, after, effects}
use vatic_udp.Simulation.Mm2.{Simulation, default, blksize_default, init, run}
use vatic_udp.Simulation.Mm2.Main.{init-raises}
use vatic_udp.Simulation.Batch.{BatchLine, run_ccp, attempt, options_of, made, scenario, main}

attempt-after :
    (es : List Effect) (r : Run (Unit {0})) → attempt (after es r) ≡ done (es ++ effects r) tt
attempt-after es (done fs u) = refl
attempt-after es (raised fs e) = refl

abbrev pub only_trace : Text
only_trace = codes "LOW_10-HIGH_100"

init-time_only :
    (trace : Text) (port : Option ℤ) (t : Text) (n_blks filepath : Option Text) (blksize : Option ℤ)
    (cc_algo : Option Text) (buf_len mm_delay : Option ℕ)
    → given n_blks + given filepath ≡ 0
    → (sim : Simulation) × (init trace port
          (some t)
          n_blks
          filepath
          blksize
          cc_algo
          buf_len
          mm_delay
        ≡ ok sim)
unfolding init choose_mode
init-time_only trace port t none none blksize cc_algo buf_len mm_delay h = (_, refl)
init-time_only trace port t (some b) none blksize cc_algo buf_len mm_delay h = absurd (omega arith)
init-time_only trace port t none (some f) blksize cc_algo buf_len mm_delay h = absurd (omega arith)
init-time_only trace port t (some b) (some f) blksize cc_algo buf_len mm_delay h =
    absurd (omega arith)

scenario-attempts :
    (ends : PlotEnds) (exists : Text → Bool) (a : BatchLine) (trace : Text) (delay : ℕ)
    (sim : Simulation)
    → made a trace delay ≡ ok sim
    → scenario ends exists a trace delay
      ≡ done (run_ccp ++ effects (run ends exists sim (options_of a))) tt
unfolding scenario
scenario-attempts ends exists a trace delay sim e =
    rw e (ap (after []) (attempt-after run_ccp (run ends exists sim (options_of a))))

scenario-raises :
    (ends : PlotEnds) (exists : Text → Bool) (a : BatchLine) (trace : Text) (delay : ℕ)
    → 0 < given a.n_blocks + given a.filepath
    → scenario ends exists a trace delay ≡ raised [] exception
unfolding scenario
scenario-raises ends exists a trace delay h = rw (
    init-raises trace (some (pos 9999)) (default (codes "30") a.ttr) a.n_blocks a.filepath
      (some (default blksize_default a.blksize)) (some (default (codes "bbr") a.cc_algo)) none
      (some delay) h)

few_options : (ttr : Option Text) (n f : ℕ) → n + f ≡ 0 → ltb 1 (given ttr + n + f) ≡ false
few_options none n f h = ground arith
few_options (some t) n f h = ground arith

main-done :
    (ends : PlotEnds) (exists : Text → Bool) (a : BatchLine) (es : List Effect)
    → ltb 1 (given a.ttr + given a.n_blocks + given a.filepath) ≡ false
    → scenario ends exists a only_trace 5 ≡ done es tt
    → main ends exists a ≡ done es tt
unfolding main
main-done ends exists a es few e =
    rw (few, e) (ap (λ (fs : List Effect). done fs tt) (append-nil (es ++ []) ∙ append-nil es))

-- With no option but the time, the script starts the controller and then makes its run, and it
-- returns, whether that run returns or raises. With the option for blocks or for a trace file it
-- raises and does nothing.
pub main-ends :
    (ends : PlotEnds) (exists : Text → Bool) (a : BatchLine)
    → ((given a.n_blocks + given a.filepath ≡ 0)
        × ((sim : Simulation) × (made a only_trace 5 ≡ ok sim)
            × (main ends exists a
                ≡ done (run_ccp ++ effects (run ends exists sim (options_of a))) tt)))
      ⊎ ((0 < given a.n_blocks + given a.filepath)
          × ((e : Error) × (main ends exists a ≡ raised [] e)))
unfolding main
main-ends ends exists a = elim (Bool-cases (ltb 0 (given a.n_blocks + given a.filepath))) [
  | inl asked ↦ inr (
    ground arith,
    elim (Bool-cases (ltb 1 (given a.ttr + given a.n_blocks + given a.filepath))) [
      | inl many ↦ (system_exit, rw many)
      | inr few ↦ (exception, rw (few, scenario-raises ends exists a only_trace 5 (ground arith)))
    ],
  )
  | inr time_only ↦
      let none_asked : given a.n_blocks + given a.filepath ≡ 0 = ground arith in
      let (sim, e) =
        init-time_only only_trace (some (pos 9999)) (default (codes "30") a.ttr) a.n_blocks
          a.filepath (some (default blksize_default a.blksize))
          (some (default (codes "bbr") a.cc_algo)) none (some 5) none_asked in
      let few : ltb 1 (given a.ttr + given a.n_blocks + given a.filepath) ≡ false =
        few_options a.ttr (given a.n_blocks) (given a.filepath) none_asked in
      inl (
        none_asked,
        (
          sim,
          e,
          main-done ends exists a _ few (scenario-attempts ends exists a only_trace 5 sim e),
        ),
      )
]
