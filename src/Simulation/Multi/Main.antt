-- ===== src/Simulation/Multi/Main.antt =====
-- The command line of runmm_multi.py, and which runs it can start.
use vatic_udp.Prelude.{
  Result, ℕ, ◌+◌, ◌<◌, ◌≡◌, refl, arith, ltb, Bool, true, if◌then◌else◌, Bool-cases, inl, inr,
  Option, none, some, ℤ, pos, [], err, Error, system_exit, exception,
}
use vatic_udp.Py.Text.{Text, codes, text_eq}
use vatic_udp.Py.Format.{format_one, path_join, basename}
use vatic_udp.Simulation.Mode.{Mode, given, choose_mode}
use vatic_udp.Simulation.Effects.{PlotEnds, plot, Run, raised, ◌>>=◌, lift}
use vatic_udp.Simulation.Multi.Launch.{side_log}
use vatic_udp.Simulation.Multi.{
  Simulation, Options, default, blksize_default, init, sender_command, effective_side, run,
}

-- The options that a command line gives; an option that is left out is `none` or `false`.
pub record CommandLine : Type 0 where
  pub trace : Text
  pub port : Option ℤ
  pub num_senders : Option ℤ
  pub ttr : Option Text
  pub n_blocks : Option Text
  pub filepath : Option Text
  pub blksize : Option ℤ
  pub cc_algo : Option Text
  pub buf_len : Option ℕ
  pub dir : Option Text
  pub mm_side : Option Text
  pub verbose : ℕ
  pub save_plot : Bool

-- `parser.parse_args()` exits if more than one option of the exclusive group is given. All options
-- take their defaults; `--log` and `--disp-plot` are on by default, so they are always on.
unfoldable pub main : PlotEnds → (Text → Bool) → CommandLine → Run (Unit {0})
main ends exists a =
    if ltb 1 (given a.ttr + given a.n_blocks + given a.filepath) then raised [] system_exit else (do
      sim ← lift (
          init a.trace (some (default (pos 9999) a.port)) (default (pos 1) a.num_senders)
            (some (default (codes "10") a.ttr)) a.n_blocks a.filepath
            (some (default blksize_default a.blksize)) a.cc_algo a.buf_len)
      run ends exists sim (record {
        savedir = default (codes "output") a.dir;
        mm_side = default (codes "receiver") a.mm_side;
        log = true;
        verbose = a.verbose;
        disp_plot = true;
        save_plot = a.save_plot;
      }))

init-raises :
    (trace : Text) (port : Option ℤ) (n : ℤ) (t : Text) (n_blks filepath : Option Text)
    (blksize : Option ℤ) (cc_algo : Option Text) (buf_len : Option ℕ)
    → 0 < given n_blks + given filepath
    → init trace port n (some t) n_blks filepath blksize cc_algo buf_len ≡ err exception
unfolding init choose_mode
init-raises trace port n t none none blksize cc_algo buf_len h = absurd (omega arith)
init-raises trace port n t (some b) none blksize cc_algo buf_len h = refl
init-raises trace port n t none (some f) blksize cc_algo buf_len h = refl
init-raises trace port n t (some b) (some f) blksize cc_algo buf_len h = refl

-- Because the time to run has a default, the command line can never send blocks or replay a trace
-- file: with either option given, the program raises before it has any effect.
pub main-time_only :
    (ends : PlotEnds) (exists : Text → Bool) (a : CommandLine)
    → 0 < given a.n_blocks + given a.filepath
    → (e : Error) × (main ends exists a ≡ raised [] e)
unfolding main
main-time_only ends exists a h =
    elim (Bool-cases (ltb 1 (given a.ttr + given a.n_blocks + given a.filepath))) [
      | inl many ↦ (system_exit, rw many)
      | inr few ↦ (
        exception,
        rw (
          few,
          init-raises a.trace _ _ (default (codes "10") a.ttr) a.n_blocks a.filepath _ a.cc_algo
              a.buf_len h,
        ),
      )
    ]

-- The address that a template of the sender's command is formatted with.
abbrev pub receiver_address : Text → Text
receiver_address side =
    if text_eq side (codes "sender") then codes "100.64.0.1" else codes "100.64.0.2"

-- The sender's command of a run, with the address of the receiver.
abbrev pub addressed : Simulation → Options → Text → Result Text
addressed sim o prefix =
    format_one (sender_command sim (path_join o.savedir prefix) o.log)
      (receiver_address (effective_side sim.n_senders o.mm_side))

-- How the plot of a run ends, for the log of the side on which the channel is emulated.
abbrev pub plot_end : PlotEnds → Simulation → Options → Text → Result (Unit {0})
plot_end ends sim o prefix =
    let path = path_join o.savedir prefix in
    ends (
      plot (side_log (effective_side sim.n_senders o.mm_side) path) (basename path) o.disp_plot
        o.save_plot)
