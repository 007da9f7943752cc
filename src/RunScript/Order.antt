-- ===== src/RunScript/Order.antt =====
-- What a run of run.py does, in which order.
use vatic_udp.Prelude.{
  ◌≡◌, inl, inr, refl, List, [], ◌∷◌, ◌++◌, Bool, not, if◌then◌else◌, Bool-cases, name_error,
}
use vatic_udp.Py.Text.{Text, codes, text_eq}
use vatic_udp.Simulation.Effects.{
  Effect, makedirs, spawn_shell, communicate, system, sleep, done, raised, effects,
}
use vatic_udp.RunScript.{RunArgs, run_dir, server_command, link_command, run_verus_once, simple_run}

-- The directories that a run of Verus makes: those that are not there
abbrev pub made : (Text → Bool) → List Text → List Effect
made exists [] = []
made exists (path ∷ paths) =
    (if not (exists path) then makedirs path ∷ [] else []) ++ made exists paths

-- The experiment itself, from the server's start to the pause at the end
unfoldable pub experiment : RunArgs → List Effect
unfolding codes server_command link_command run_dir
experiment args =
    spawn_shell (server_command args)
    ∷ spawn_shell (link_command args)
    ∷ communicate (codes "./verus_protocol/verus/src/verus_client $MAHIMAHI_BASE -p 60001\nexit\n")
    ∷ system (codes "ps | pgrep -f verus_server | xargs kill -9")
    ∷ system (codes "ps | pgrep -f verus_client | xargs kill -9")
    ∷ system (codes "mv client_60001* " ++ run_dir args ++ codes "/")
    ∷ sleep 5
    ∷ []

run_verus_once-made :
    (exists : Text → Bool) (args : RunArgs)
    → run_verus_once exists args
      ≡ done
          (made exists ((args.dir ++ codes "/output_verus") ∷ run_dir args ∷ []) ++ experiment args)
          tt
unfolding run_verus_once experiment
run_verus_once-made exists args = elim (Bool-cases (exists (args.dir ++ codes "/output_verus"))) [
  | inl a ↦ elim (Bool-cases (exists (run_dir args))) [
    | inl b ↦ rw (a, b) refl
    | inr b ↦ rw (a, b) refl
  ]
  | inr a ↦ elim (Bool-cases (exists (run_dir args))) [
    | inl b ↦ rw (a, b) refl
    | inr b ↦ rw (a, b) refl
  ]
]

-- A run with `--algo verus` makes the directories that are missing, and only then starts the server;
-- with `--algo copa` it does nothing and ends in NameError, and with any other name it does nothing.
pub simple_run-cases :
    (exists : Text → Bool) (args : RunArgs)
    → if text_eq args.algo (codes "verus")
      then simple_run exists args
        ≡ done
            (made exists ((args.dir ++ codes "/output_verus") ∷ run_dir args ∷ [])
              ++ experiment args)
            tt
      else (effects (simple_run exists args) ≡ [])
        × (if text_eq args.algo (codes "copa")
            then simple_run exists args ≡ raised [] name_error
            else simple_run exists args ≡ done [] tt)
unfolding simple_run
simple_run-cases exists args = elim (Bool-cases (text_eq args.algo (codes "verus"))) [
  | inl e ↦ rw e (run_verus_once-made exists args)
  | inr e ↦ elim (Bool-cases (text_eq args.algo (codes "copa"))) [
    | inl k ↦ rw (e, k) (refl, refl)
    | inr k ↦ rw (e, k) (refl, refl)
  ]
]
