-- ===== src/Simulation/Multi/LinkLog.antt =====
-- The log that mahimahi writes in a run of runmm_multi.py, and the log that the run plots.
use vatic_udp.Prelude.{
  List, [], ◌∷◌, ◌++◌, ◌≡◌, refl, ◌∙◌, ap, ◌⊎◌, inl, inr, arith, Bool, true, false, ◌&&◌, ok,
  if◌then◌else◌, Bool-cases, ℤ, pos, ltb_ℤ,
}
use vatic_udp.Py.Text.{Text, codes, text_eq, text_eq_iff, words}
use vatic_udp.Py.Format.{path_join}
use vatic_udp.Simulation.Effects.{PlotEnds, argvs, Effect, done, plotted}
use vatic_udp.Simulation.Multi.{
  save_prefix, Simulation, Options, mm_command, queue_options, effective_side, run,
}
use vatic_udp.Simulation.Multi.Launch.{side_log}
use vatic_udp.Simulation.Multi.Processes.{run-Completed, run-plots}

-- The log file that mahimahi is told to write.
abbrev pub link_log : Text → Text → Text
link_log side path =
    if text_eq side (codes "receiver")
    then path ++ codes "_downlink.csv"
    else path ++ codes "_uplink.csv"

abbrev pub link_option : Text → Text
link_option side =
    if text_eq side (codes "receiver") then codes " --downlink-log " else codes " --uplink-log "

abbrev pub link_start : Simulation → Text
link_start sim =
    let tracepath = path_join (path_join (codes "traces") (codes "channels")) sim.trace in
    codes "mm-link " ++ tracepath ++ codes " " ++ tracepath

mm_command-link_log :
    (sim : Simulation) (side path : Text)
    → mm_command sim side path
      ≡ link_start sim ++ (link_option side ++ link_log side path) ++ queue_options sim.buf_len
unfolding mm_command
mm_command-link_log sim side path = elim (Bool-cases (text_eq side (codes "receiver"))) [
  | inl r ↦ rw r
  | inr r ↦ rw r
]

-- The switch to the receiver's side.
abbrev pub switched : ℤ → Text → Bool
switched n side = ltb_ℤ (pos 1) n && text_eq side (codes "sender")

effective_side_lem :
    (n : ℤ) (side : Text)
    → effective_side n side ≡ (if switched n side then codes "receiver" else side)
unfolding effective_side
effective_side_lem n side = refl

-- Words that differ.
receiver_sender : text_eq (codes "receiver") (codes "sender") ≡ false
unfolding codes text_eq
receiver_sender = refl

sender_receiver : text_eq (codes "sender") (codes "receiver") ≡ false
unfolding codes text_eq
sender_receiver = refl

sender-receiver :
    (side : Text) → text_eq side (codes "sender") ≡ true → text_eq side (codes "receiver") ≡ false
sender-receiver side h = rw ((text_eq_iff side (codes "sender")).0 h) sender_receiver

receiver-sender :
    (side : Text) → text_eq side (codes "receiver") ≡ true → text_eq side (codes "sender") ≡ false
receiver-sender side h = rw ((text_eq_iff side (codes "receiver")).0 h) receiver_sender

side_log-switched :
    (n : ℤ) (side path : Text)
    → switched n side ≡ true
    → (side_log (effective_side n side) path ≡ path ++ codes "_downlink.csv")
      × (link_log side path ≡ path ++ codes "_uplink.csv")
side_log-switched n side path h =
    let is_sender : text_eq side (codes "sender") ≡ true = ground arith in
    (rw (effective_side_lem, h, receiver_sender), rw (sender-receiver side is_sender))

side_log-kept :
    (n : ℤ) (side path : Text)
    → switched n side ≡ false
    → (text_eq (effective_side n side) (codes "sender") ≡ true)
      ⊎ (text_eq (effective_side n side) (codes "receiver") ≡ true)
    → side_log (effective_side n side) path ≡ link_log side path
side_log-kept n side path h known =
    let same : effective_side n side ≡ side = rw (effective_side_lem, h) in
    rw same (go (rw same at known))
  where
    go :
        (text_eq side (codes "sender") ≡ true) ⊎ (text_eq side (codes "receiver") ≡ true)
        → side_log side path ≡ link_log side path
    go (inl s) = rw (s, sender-receiver side s)
    go (inr r) = rw (r, receiver-sender side r)

-- A run that returns has started a process with mahimahi's command, which has the option to write a
-- log under the name of the run's results, and has plotted one log. If it is not so that several
-- senders were asked for with the emulation on the sender's side, then the two are the same file. If it
-- is so, then mahimahi was told to log the uplink, and the one log that was plotted is the one of the
-- downlink.
pub run-plots-link_log :
    (ends : PlotEnds) (exists : Text → Bool) (sim : Simulation) (o : Options) (es : List Effect)
    → run ends exists sim o ≡ done es tt
    → (path : Text) × (prefix : Text) × (save_prefix sim ≡ ok prefix)
      × (path ≡ path_join o.savedir prefix)
      × ((command : Text) × (before : List (List Text)) × (behind : List (List Text)) × (argvs es
            ≡ before ++ words (mm_command sim o.mm_side path ++ codes " -- " ++ command) ∷ behind))
      × (mm_command sim o.mm_side path
          ≡ link_start sim
            ++ (link_option o.mm_side ++ link_log o.mm_side path)
            ++ queue_options sim.buf_len)
      × (((switched sim.n_senders o.mm_side ≡ false) × (plotted es ≡ link_log o.mm_side path ∷ []))
          ⊎ ((switched sim.n_senders o.mm_side ≡ true)
              × (link_log o.mm_side path ≡ path ++ codes "_uplink.csv")
              × (plotted es ≡ (path ++ codes "_downlink.csv") ∷ [])))
run-plots-link_log ends exists sim o es h =
    let c = run-Completed ends exists sim o h in
    let path = path_join o.savedir c.prefix in
    let l = c.launched in
    (
      path,
      c.prefix,
      c.prefix_ok,
      refl,
      (l.command, l.argvs_before, l.argvs_behind, c.arguments ∙ l.emulated),
      mm_command-link_log sim o.mm_side path,
      elim (Bool-cases (switched sim.n_senders o.mm_side)) [
        | inl s ↦
            let (down, up) = side_log-switched sim.n_senders o.mm_side path s in
            inr (s, up, run-plots ends exists sim o c ∙ ap (λ l. l ∷ []) down)
        | inr k ↦ inl (
          k,
          run-plots ends exists sim o c
              ∙ ap (λ l. l ∷ []) (side_log-kept sim.n_senders o.mm_side path k l.known),
        )
      ],
    )
