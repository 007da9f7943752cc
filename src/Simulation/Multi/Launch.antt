-- ===== src/Simulation/Multi/Launch.antt =====
-- What `launch` of runmm_multi.py does on either side.
use vatic_udp.Prelude.{
  ℕ, zero, suc, ◌+◌, List, [], ◌∷◌, ◌++◌, append-nil, map, ◌≡◌, ◌⊎◌, refl, ap, Bool, true, false,
  not, leb, if◌then◌else◌, Bool-cases, inl, inr, none, some, ℤ, pos_part, Result-cases, range_from,
}
use vatic_udp.Py.Text.{Text, codes, text_eq, words}
use vatic_udp.Py.Format.{format_one}
use vatic_udp.Simulation.Effects.{
  receiver, sender, Effect, done, done-injective, spawned, waited, plotted, argvs, spawned-append,
  waited-append, plotted-append,
}
use vatic_udp.Simulation.Multi.{
  Simulation, Options, receiver_command, mm_command, sender_command, effective_side, sender_starts,
  sender_waits, run_sender_side, run_receiver_side, run_side, launch,
}

spawned-sender_starts :
    (piped : Bool) (argv : List Text) (n i : ℕ)
    → spawned (sender_starts piped argv n i) ≡ map sender (range_from i n)
unfolding sender_starts
spawned-sender_starts piped argv zero i = refl
spawned-sender_starts piped argv (suc n) i =
    ap (λ r. sender i ∷ r) (spawned-sender_starts piped argv n (i + 1))

waited-sender_starts :
    (piped : Bool) (argv : List Text) (n i : ℕ) → waited (sender_starts piped argv n i) ≡ []
unfolding sender_starts
waited-sender_starts piped argv zero i = refl
waited-sender_starts piped argv (suc n) i = waited-sender_starts piped argv n (i + 1)

plotted-sender_starts :
    (piped : Bool) (argv : List Text) (n i : ℕ) → plotted (sender_starts piped argv n i) ≡ []
unfolding sender_starts
plotted-sender_starts piped argv zero i = refl
plotted-sender_starts piped argv (suc n) i = plotted-sender_starts piped argv n (i + 1)

spawned-sender_waits : (n i : ℕ) → spawned (sender_waits n i) ≡ []
unfolding sender_waits
spawned-sender_waits zero i = refl
spawned-sender_waits (suc n) i = spawned-sender_waits n (i + 1)

waited-sender_waits : (n i : ℕ) → waited (sender_waits n i) ≡ map sender (range_from i n)
unfolding sender_waits
waited-sender_waits zero i = refl
waited-sender_waits (suc n) i = ap (λ r. sender i ∷ r) (waited-sender_waits n (i + 1))

plotted-sender_waits : (n i : ℕ) → plotted (sender_waits n i) ≡ []
unfolding sender_waits
plotted-sender_waits zero i = refl
plotted-sender_waits (suc n) i = plotted-sender_waits n (i + 1)

ruleset loop_laws = (
  append-nil, spawned-append, waited-append, plotted-append, spawned-sender_starts,
  waited-sender_starts, plotted-sender_starts, spawned-sender_waits, waited-sender_waits,
  plotted-sender_waits,
)

-- How many senders a run starts: one inside the emulated channel, or as many as were asked for.
abbrev pub sender_count : Text → ℤ → ℕ
sender_count side n_senders = if text_eq side (codes "sender") then 1 else pos_part n_senders

-- The log that the chosen side plots.
abbrev pub side_log : Text → Text → Text
side_log side path =
    if text_eq side (codes "sender")
    then path ++ codes "_uplink.csv"
    else path ++ codes "_downlink.csv"

-- What a launch on either side does: the receiver and then the senders are started, all senders are
-- waited for, nothing is plotted, and mahimahi's command
-- with a command to run in it is started as one of the processes.
pub record Launched (side : Text) (n : ℤ) (path mm_cmd : Text) (es : List Effect) (log : Text)
    : Type 0 where
  pub starts : spawned es ≡ receiver ∷ map sender (range_from 0 (sender_count side n))
  pub waits : waited es ≡ map sender (range_from 0 (sender_count side n))
  pub plots : plotted es ≡ []
  pub command : Text
  pub argvs_before : List (List Text)
  pub argvs_behind : List (List Text)
  pub emulated : argvs es ≡ argvs_before ++ words (mm_cmd ++ codes " -- " ++ command) ∷ argvs_behind
  pub log_file : log ≡ side_log side path
  pub known : (text_eq side (codes "sender") ≡ true) ⊎ (text_eq side (codes "receiver") ≡ true)

module _ (piped : Bool) (n : ℤ) (path receiver_cmd mm_cmd sender_cmd : Text) where
  sender_side-Launched :
      (side : Text) {es : List Effect} {log : Text}
      → text_eq side (codes "sender") ≡ true
      → run_sender_side piped path receiver_cmd mm_cmd sender_cmd ≡ done es log
      → Launched side n path mm_cmd es log
  unfolding run_sender_side
  sender_side-Launched side {es} {log} s h =
      elim (Result-cases (format_one sender_cmd (codes "100.64.0.1"))) [
        | inl (e, bad) ↦ cc (rw bad at h)
        | inr (cmd, fine) ↦
            let (same, log_eq) = done-injective (rw fine at h) in
            record {
              starts = rw (← same, s);
              waits = rw (← same, s);
              plots = rw (← same);
              command = cmd;
              argvs_before = words receiver_cmd ∷ [];
              argvs_behind = [];
              emulated = rw (← same);
              log_file = rw (← log_eq, s);
              known = inl s;
            }
      ]

  receiver_side-Launched :
      (side : Text) {es : List Effect} {log : Text}
      → text_eq side (codes "sender") ≡ false
      → text_eq side (codes "receiver") ≡ true
      → run_receiver_side piped n path receiver_cmd mm_cmd sender_cmd ≡ done es log
      → Launched side n path mm_cmd es log
  unfolding run_receiver_side
  receiver_side-Launched side {es} {log} s r h =
      elim (Result-cases (format_one sender_cmd (codes "100.64.0.2"))) [
        | inl (e, bad) ↦ cc (rw bad at h)
        | inr (cmd, fine) ↦
            let (same, log_eq) = done-injective (rw fine at h) in
            record {
              starts = rw (← same, s) (simp loop_laws);
              waits = rw (← same, s) (simp loop_laws);
              plots = rw (← same) (simp loop_laws);
              command = receiver_cmd;
              argvs_before = [];
              argvs_behind = argvs (
                  sender_starts piped (words cmd) (pos_part n) 0
                  ++ (sender_waits (pos_part n) 0 ++ []));
              emulated = rw (← same) refl;
              log_file = rw (← log_eq, s);
              known = inr r;
            }
      ]

run_side-Launched :
    (side : Text) (piped : Bool) (n : ℤ) (path receiver_cmd mm_cmd sender_cmd : Text)
    {es : List Effect} {log : Text}
    → run_side side piped n path receiver_cmd mm_cmd sender_cmd ≡ done es log
    → Launched side n path mm_cmd es log
unfolding run_side
run_side-Launched side piped n path receiver_cmd mm_cmd sender_cmd h =
    elim (Bool-cases (text_eq side (codes "sender"))) [
      | inl s ↦ sender_side-Launched piped n path receiver_cmd mm_cmd sender_cmd side s (rw s at h)
      | inr s ↦ elim (Bool-cases (text_eq side (codes "receiver"))) [
        | inl r ↦
            receiver_side-Launched piped n path receiver_cmd mm_cmd sender_cmd side s r
              (rw (s, r) at h)
        | inr r ↦ cc (rw (s, r) at h)
      ]
    ]

pub launch-Launched :
    (sim : Simulation) (o : Options) (path : Text) {es : List Effect} {log : Text}
    → launch sim o path ≡ done es log
    → Launched
        (effective_side sim.n_senders o.mm_side)
        sim.n_senders
        path
        (mm_command sim o.mm_side path)
        es
        log
unfolding launch
launch-Launched sim o path h =
    run_side-Launched (effective_side sim.n_senders o.mm_side) (not (leb 2 o.verbose)) sim.n_senders
      path
      (receiver_command sim.port o.verbose
        (if o.log then some (path ++ codes "_receiver") else none))
      (mm_command sim o.mm_side path) (sender_command sim path o.log) h
