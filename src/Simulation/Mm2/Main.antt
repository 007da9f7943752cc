-- ===== src/Simulation/Mm2/Main.antt =====
-- The command line of runmm2.py, and which runs it can complete.
use vatic_udp.Prelude.{
  ℕ, ◌+◌, ◌<◌, ◌≡◌, ◌⊎◌, inl, inr, refl, arith, ltb, Bool, true, false, if◌then◌else◌, Bool-cases,
  Option, none, some, ℤ, pos, List, [], err, Result-cases, Error, system_exit, exception,
}
use vatic_udp.Py.Text.{Text, codes}
use vatic_udp.Simulation.Mode.{given, choose_mode}
use vatic_udp.Simulation.Effects.{PlotEnds, Effect, Run, raised, ◌>>=◌, lift, unlinked}
use vatic_udp.Simulation.Mm2.{default, blksize_default, init, run}
use vatic_udp.Simulation.Mm2.Runs.{Refuses, run_unsaved}

-- The options that a command line gives; an option that is left out is `none` or `false`.
pub record CommandLine : Type 0 where
  pub trace : Text
  pub port : Option ℤ
  pub ttr : Option Text
  pub n_blocks : Option Text
  pub filepath : Option Text
  pub blksize : Option ℤ
  pub cc_algo : Option Text
  pub buf_len : Option ℕ
  pub mm_delay : Option ℕ
  pub dir : Option Text
  pub log : Bool
  pub skip_seconds : Option ℕ
  pub verbose : ℕ
  pub save_plot : Bool

-- `parser.parse_args()` exits if more than one option of the exclusive group is given. `--disp-plot`
-- is on by default, so it is always on.
unfoldable pub main : PlotEnds → (Text → Bool) → CommandLine → Run (Unit {0})
main ends exists a =
    if ltb 1 (given a.ttr + given a.n_blocks + given a.filepath) then raised [] system_exit else (do
      sim ← lift (
          init a.trace (some (default (pos 9999) a.port)) (some (default (codes "10") a.ttr))
            a.n_blocks a.filepath (some (default blksize_default a.blksize)) a.cc_algo a.buf_len
            a.mm_delay)
      run ends exists sim (record {
        savedir = default (codes "output") a.dir;
        log = a.log;
        skip_seconds = default 0 a.skip_seconds;
        verbose = a.verbose;
        disp_plot = true;
        save_plot = a.save_plot;
        suffix = none;
      }))

pub init-raises :
    (trace : Text) (port : Option ℤ) (t : Text) (n_blks filepath : Option Text) (blksize : Option ℤ)
    (cc_algo : Option Text) (buf_len mm_delay : Option ℕ)
    → 0 < given n_blks + given filepath
    → init trace port (some t) n_blks filepath blksize cc_algo buf_len mm_delay ≡ err exception
unfolding init choose_mode
init-raises trace port t none none blksize cc_algo buf_len mm_delay h = absurd (omega arith)
init-raises trace port t (some b) none blksize cc_algo buf_len mm_delay h = refl
init-raises trace port t none (some f) blksize cc_algo buf_len mm_delay h = refl
init-raises trace port t (some b) (some f) blksize cc_algo buf_len mm_delay h = refl

-- If the plotting code raises whenever it is not to save its plot, then the program raises whenever it
-- is called without `--save-plot`, and whenever it is to send blocks
-- or to replay a trace file; it then leaves every packet capture where it is.
pub main-raises :
    (ends : PlotEnds) (exists : Text → Bool) (a : CommandLine)
    → Refuses ends
    → (a.save_plot ≡ false) ⊎ (0 < given a.n_blocks + given a.filepath)
    → (es : List Effect) × (e : Error) × (main ends exists a ≡ raised es e) × (unlinked es ≡ [])
unfolding main
main-raises ends exists a refuses (inr asked) =
    elim (Bool-cases (ltb 1 (given a.ttr + given a.n_blocks + given a.filepath))) [
      | inl many ↦ ([], system_exit, rw many, refl)
      | inr few ↦ (
        [],
        exception,
        rw (
          few,
          init-raises a.trace _ (default (codes "10") a.ttr) a.n_blocks a.filepath _ a.cc_algo
              a.buf_len a.mm_delay asked,
        ),
        refl,
      )
    ]
main-raises ends exists a refuses (inl off) =
    elim (Bool-cases (ltb 1 (given a.ttr + given a.n_blocks + given a.filepath))) [
      | inl many ↦ ([], system_exit, rw many, refl)
      | inr few ↦
          elim (Result-cases (
            init a.trace (some (default (pos 9999) a.port)) (some (default (codes "10") a.ttr))
              a.n_blocks a.filepath (some (default blksize_default a.blksize)) a.cc_algo a.buf_len
              a.mm_delay)) [
                | inl (e, bad) ↦ ([], e, rw (few, bad), refl)
                | inr (sim, made) ↦
                    let (es, e, ends, kept) =
                      run_unsaved ends exists sim
                        (record {
                          savedir = default (codes "output") a.dir;
                          log = a.log;
                          skip_seconds = default 0 a.skip_seconds;
                          verbose = a.verbose;
                          disp_plot = true;
                          save_plot = a.save_plot;
                          suffix = none;
                        })
                        refuses off in
                    (es, e, rw (few, made, ends), kept)
              ]
    ]
