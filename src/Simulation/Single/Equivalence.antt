-- ===== src/Simulation/Single/Equivalence.antt =====
-- runmm.py against runmm_multi.py with one sender.
use vatic_udp.Prelude.{
  ℕ, ◌+◌, ltb, List, [], ◌∷◌, ◌++◌, append-nil, append_assoc, ◌≡◌, refl, sym, ap, Bool, true, false,
  not, ◌&&◌, if◌then◌else◌, Bool-cases, Option-cases, inl, inr, Option, none, some, ℤ, pos, ok,
  Result-cases,
}
use vatic_udp.Py.Text.{Text, codes, text_eq}
use vatic_udp.Py.Format.{format_one, path_join, basename}
use vatic_udp.Simulation.Mode.{Mode, given, choose_mode}
use vatic_udp.Simulation.Effects.{
  PlotEnds, call, Effect, after, Process, sender, receiver, wait, makedirs, mkdir, plot, emit_if,
  Run, done, raised, ◌>>=◌, ◌>>◌, emit, lift,
}
use vatic_udp.Prelude.Results
use vatic_udp.Simulation.Multi.{default}
use vatic_udp.Simulation.Multi
use vatic_udp.Simulation.Multi.Main.{CommandLine}
use vatic_udp.Simulation.Multi.Main
use vatic_udp.Simulation.Single.{
  Simulation, blksize_default, init, mode_prefix, save_prefix, receiver_command, mm_command,
  sender_command, start_sender_side, start_receiver_side, start_side, run,
}
use vatic_udp.Simulation.Single

-- The same simulation in runmm_multi.py.
abbrev pub as_multi : Simulation → Multi.Simulation
as_multi sim = record {
  trace = sim.trace;
  port = sim.port;
  n_senders = pos 1;
  mode = sim.mode;
  blksize = sim.blksize;
  cc_algo = sim.cc_algo;
  buf_len = sim.buf_len;
}

ruleset append_laws = (append_assoc, append-nil)

mode_prefix-as_multi : (trace : Text) (m : Mode) → Multi.mode_prefix trace m ≡ mode_prefix trace m
unfolding mode_prefix Multi.mode_prefix
mode_prefix-as_multi trace m = refl

save_prefix-as_multi : (sim : Simulation) → Multi.save_prefix (as_multi sim) ≡ save_prefix sim
unfolding save_prefix Multi.save_prefix Multi.buffer_suffix
save_prefix-as_multi sim = elim (Result-cases (mode_prefix sim.trace sim.mode)) [
  | inl (e, bad) ↦ rw (mode_prefix-as_multi sim.trace sim.mode, bad)
  | inr (p, good) ↦ elim (Option-cases sim.buf_len) [
    | inl q ↦ rw (mode_prefix-as_multi sim.trace sim.mode, good, q) (simp append_laws)
    | inr (n, q) ↦ rw (mode_prefix-as_multi sim.trace sim.mode, good, q) (simp append_laws)
  ]
]

receiver_command-as_multi :
    (port : ℤ) (verbose : ℕ) (log : Bool) (dir : Text)
    → Multi.receiver_command port verbose (if log then some dir else none)
      ≡ receiver_command port verbose log dir
unfolding receiver_command Multi.receiver_command
receiver_command-as_multi port verbose true dir = simp append_laws
receiver_command-as_multi port verbose false dir = simp append_laws

mm_command-as_multi :
    (sim : Simulation) (side path : Text)
    → Multi.mm_command (as_multi sim) side path ≡ mm_command sim side path
unfolding mm_command Multi.mm_command Multi.queue_options
mm_command-as_multi sim side path = elim (Option-cases sim.buf_len) [
  | inl q ↦ rw q (simp append_laws)
  | inr (n, q) ↦ rw q (simp append_laws)
]

sender_command-as_multi :
    (sim : Simulation) (path : Text) (log : Bool)
    → Multi.sender_command (as_multi sim) path log ≡ sender_command sim path log
unfolding sender_command Multi.sender_command Multi.mode_options
sender_command-as_multi sim path log = elim (Option-cases sim.cc_algo) [
  | inl e ↦ rw e
  | inr (a, e) ↦ rw e
]

module _ (piped : Bool) (path receiver_cmd mm_cmd sender_cmd : Text) where
  sender_side-as_multi : Multi.run_sender_side piped path receiver_cmd mm_cmd sender_cmd ≡ (
      start_sender_side piped path receiver_cmd mm_cmd sender_cmd >>= λ log.
      emit (wait (sender 0)) >> lift (ok log))
  unfolding start_sender_side Multi.run_sender_side
  sender_side-as_multi = elim (Result-cases (format_one sender_cmd (codes "100.64.0.1"))) [
    | inl (e, bad) ↦ rw bad
    | inr (cmd, fine) ↦ rw fine
  ]

  receiver_side-as_multi :
      Multi.run_receiver_side piped (pos 1) path receiver_cmd mm_cmd sender_cmd ≡ (
        start_receiver_side piped path receiver_cmd mm_cmd sender_cmd >>= λ log.
        emit (wait (sender 0)) >> lift (ok log))
  unfolding start_receiver_side Multi.run_receiver_side Multi.sender_starts Multi.sender_waits
  receiver_side-as_multi = elim (Result-cases (format_one sender_cmd (codes "100.64.0.2"))) [
    | inl (e, bad) ↦ rw bad
    | inr (cmd, fine) ↦ rw fine
  ]

-- The two waits of runmm_multi.py's sides stand behind the sides in runmm.py.
side-as_multi :
    (side : Text) (piped : Bool) (path receiver_cmd mm_cmd sender_cmd : Text)
    → Multi.run_side
        (Multi.effective_side (pos 1) side)
        piped
        (pos 1)
        path
        receiver_cmd
        mm_cmd
        sender_cmd
      ≡ (start_side side piped path receiver_cmd mm_cmd sender_cmd >>= λ log.
          emit (wait (sender 0)) >> lift (ok log))
unfolding start_side Multi.run_side Multi.effective_side
side-as_multi side piped path receiver_cmd mm_cmd sender_cmd =
    elim (Bool-cases (text_eq side (codes "sender"))) [
      | inl s ↦ rw s (sender_side-as_multi piped path receiver_cmd mm_cmd sender_cmd)
      | inr s ↦ elim (Bool-cases (text_eq side (codes "receiver"))) [
        | inl r ↦ rw (s, r) (receiver_side-as_multi piped path receiver_cmd mm_cmd sender_cmd)
        | inr r ↦ rw (s, r)
      ]
    ]

after-append :
    (es fs : List Effect) (r : Run (Unit {0})) → after (es ++ fs) r ≡ after es (after fs r)
after-append es fs (done gs u) = ap (λ hs. done hs u) (append_assoc es fs gs)
after-append es fs (raised gs e) = ap (λ hs. raised hs e) (append_assoc es fs gs)

-- A wait behind the sides is a wait at their end.
wait_inside :
    (r : Run Text) (p q : Process) (last : Text → Run (Unit {0}))
    → (r >>= λ log. emit (wait p) >> (emit (wait q) >> last log))
      ≡ ((r >>= λ log. emit (wait p) >> lift (ok log)) >>= λ log. emit (wait q) >> last log)
wait_inside (done es log) p q last =
    sym (after-append es (wait p ∷ []) (after (wait q ∷ []) (last log)))
wait_inside (raised es e) p q last = refl

-- A run of runmm.py has the effects of a run of runmm_multi.py with one sender, in the same order, and
-- returns or raises as that one does.
pub run-as_multi :
    (ends : PlotEnds) (exists : Text → Bool) (sim : Simulation) (o : Multi.Options)
    → run ends exists sim o ≡ Multi.run ends exists (as_multi sim) o
unfolding run Multi.run Multi.launch
run-as_multi ends exists sim o = elim (Result-cases (save_prefix sim)) [
  | inl (e, bad) ↦ rw (save_prefix-as_multi sim, bad)
  | inr (prefix, good) ↦
      let path = path_join o.savedir prefix in
      let around : Run (Unit {0}) → Run (Unit {0}) = λ rest.
        (emit_if (not (exists o.savedir)) (makedirs o.savedir)
          >> (lift (ok prefix)
              >> (emit_if (o.log && not (exists (path ++ codes "_receiver")))
                    (mkdir (path ++ codes "_receiver"))
                  >> rest))) in
      rw
        (
          save_prefix-as_multi sim,
          good,
          receiver_command-as_multi sim.port o.verbose o.log (path ++ codes "_receiver"),
          mm_command-as_multi sim o.mm_side path,
          sender_command-as_multi sim path o.log,
          side-as_multi o.mm_side,
        )
        (ap around (
          wait_inside _ (sender 0) receiver
            (λ log. call ends (plot log (basename path) o.disp_plot o.save_plot))))
]

init-as_multi :
    (trace : Text) (port : Option ℤ) (ttr n_blks filepath : Option Text) (blksize : Option ℤ)
    (cc_algo : Option Text) (buf_len : Option ℕ)
    → Multi.init trace port (pos 1) ttr n_blks filepath blksize cc_algo buf_len
      ≡ Results.◌>>=◌
          (init trace port ttr n_blks filepath blksize cc_algo buf_len)
          (λ sim. ok (as_multi sim))
unfolding init Multi.init
init-as_multi trace port ttr n_blks filepath blksize cc_algo buf_len =
    elim (Result-cases (choose_mode (codes "10") ttr n_blks filepath)) [
      | inl (e, bad) ↦ rw bad
      | inr (m, good) ↦ rw good
    ]

-- The program runmm.py does the same as runmm_multi.py on the same command line, if the number of
-- senders is left out there: it is refused, it raises, or it has the same effects in the same order,
-- if the plotting code that both call ends in the same way.
pub main-as_multi :
    (ends : PlotEnds) (exists : Text → Bool) (a : CommandLine)
    → Single.main ends exists a ≡ Multi.Main.main ends exists (record a { num_senders = none })
unfolding Single.main Multi.Main.main
main-as_multi ends exists a =
    elim (Bool-cases (ltb 1 (given a.ttr + given a.n_blocks + given a.filepath))) [
      | inl many ↦ rw many
      | inr few ↦
          let made =
            init a.trace (some (default (pos 9999) a.port)) (some (default (codes "10") a.ttr))
              a.n_blocks a.filepath (some (default blksize_default a.blksize)) a.cc_algo
              a.buf_len in
          elim (Result-cases made) [
            | inl (e, bad) ↦ rw (few, init-as_multi a.trace, bad)
            | inr (sim, good) ↦
                rw (few, init-as_multi a.trace, good)
                  (ap (after []) (run-as_multi ends exists sim _))
          ]
    ]
