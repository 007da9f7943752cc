-- ===== src/Simulation/Vatic/Address.antt =====
-- The address that runmmVatic.py gives to the receiver, and the end of a run.
use vatic_udp.Prelude.{
  ℕ, zero, suc, List, [], ◌∷◌, ◌++◌, append_assoc, ◌≡◌, ◌≢◌, refl, sym, ◌∙◌, ap, ◌↔◌, ◌⊎◌, inl, inr,
  arith, Bool, true, not, Bool-cases, Option, none, some, ℤ, Result, ok, err, Error, Every,
  Result-cases, ltb, if◌then◌else◌,
}
use vatic_udp.Prelude.Results
use vatic_udp.Py.Text.{Text, codes, starts_with, text_eq}
use vatic_udp.Py.Format.{path_join}
use vatic_udp.Simulation.Effects.{
  PlotEnds, after, Effect, system, makedirs, Run, done, raised, effects, ◌>>=◌, ◌>>◌, lift, emits,
}
use vatic_udp.Simulation.Vatic.{
  Simulation, base_time, save_prefix, server_ip_for_client, receiver_command, mm_command,
  stop_commands, call_all, plots, plot_all, session, run,
}

-- The address behind mahimahi's delay shell.
abbrev pub behind_delay : Option ℕ → Bool
behind_delay d = text_eq (server_ip_for_client d) (codes "100.64.0.4")

abbrev pub in_delay_shell : Simulation → Text → Bool
in_delay_shell sim path = starts_with (mm_command sim path) (codes "mm-delay ")

ltb-zero-suc : (d : ℕ) → ltb 0 (suc d) ≡ true
ltb-zero-suc d = ground arith

-- The receiver is given the address behind a delay shell exactly when the emulation runs in a delay
-- shell, unless the delay that was asked for is 0: then there is no delay shell and the receiver is
-- given its address all the same.
pub server_ip-mm_command :
    (sim : Simulation) (path : Text)
    → ((behind_delay sim.mm_delay ≡ true) ↔ (in_delay_shell sim path ≡ true))
      ↔ (sim.mm_delay ≢ some 0)
unfolding server_ip_for_client mm_command codes text_eq starts_with
server_ip-mm_command sim path = go sim.mm_delay refl
  where
    go :
        (d : Option ℕ)
        → sim.mm_delay ≡ d
        → ((behind_delay sim.mm_delay ≡ true) ↔ (in_delay_shell sim path ≡ true))
          ↔ (sim.mm_delay ≢ some 0)
    go none e = rw e (λ _ k. cc k, λ _. (λ b. cc b, λ b. cc b))
    go (some zero) e = rw e (λ k. cc (k.0 refl), λ k. absurd (k refl))
    go (some (suc d)) e = rw (e, ltb-zero-suc d) (λ _ k. cc k, λ _. (λ _. refl, λ _. refl))

-- The commands that are given to the system, in order.
abbrev pub systems : List Effect → List Text
systems [] = []
systems (system t ∷ es) = t ∷ systems es
systems (_ ∷ es) = systems es

abbrev pub log_of : (Text → Result (List Text)) → (ℕ → Text) → Simulation → Result ℤ
log_of read fixed sim =
    Results.◌>>=◌ (read (path_join sim.savedir (save_prefix fixed sim) ++ codes "_uplink.csv"))
      base_time

-- A run, from what the log holds.
abbrev opening : (Text → Bool) → (ℕ → Text) → Simulation → List Effect
opening exists fixed sim =
    (if not (exists sim.savedir) then makedirs sim.savedir ∷ [] else [])
    ++ session sim (save_prefix fixed sim) (path_join sim.savedir (save_prefix fixed sim))

-- The plots of a run.
abbrev pub own_plots : (ℕ → Text) → Simulation → ℤ → List Effect
own_plots fixed sim base =
    plots (save_prefix fixed sim) (path_join sim.savedir (save_prefix fixed sim)) base

-- A run behind its session
abbrev behind_session : PlotEnds → (ℕ → Text) → Simulation → Result ℤ → Run (Unit {0})
behind_session ends fixed sim r = lift r >>= λ base. plot_all ends (own_plots fixed sim base)

after-nil : (r : Run (Unit {0})) → after [] r ≡ r
after-nil (done es u) = refl
after-nil (raised es e) = refl

run-log_of :
    (ends : PlotEnds) (exists : Text → Bool) (read : Text → Result (List Text)) (fixed : ℕ → Text)
    (sim : Simulation)
    → run ends exists read fixed sim ≡ (
        emits (opening exists fixed sim)
        >> (lift (log_of read fixed sim) >>= λ base.
            plot_all ends
              (plots (save_prefix fixed sim) (path_join sim.savedir (save_prefix fixed sim)) base)))
unfolding run
run-log_of ends exists read fixed sim =
    elim (Result-cases
      (read (path_join sim.savedir (save_prefix fixed sim) ++ codes "_uplink.csv"))) [
        | inl (e, bad) ↦ rw bad (ap (λ es. raised es e) (opened []))
        | inr (lines, good) ↦ elim (Result-cases (base_time lines)) [
          | inl (e, bad) ↦ rw (good, bad) (ap (λ es. raised es e) (opened []))
          | inr (t, known) ↦ rw (good, known) (opened_plots t)
        ]
      ]
  where
    opened :
        (es : List Effect)
        → (if not (exists sim.savedir) then makedirs sim.savedir ∷ [] else [])
            ++ (session sim (save_prefix fixed sim) (path_join sim.savedir (save_prefix fixed sim))
                ++ es)
          ≡ opening exists fixed sim ++ es
    opened es = sym (append_assoc _ _ es)

    opened_after :
        (r : Run (Unit {0}))
        → after (if not (exists sim.savedir) then makedirs sim.savedir ∷ [] else []) (
            after
              (session sim (save_prefix fixed sim) (path_join sim.savedir (save_prefix fixed sim)))
              r)
          ≡ after (opening exists fixed sim) r
    opened_after (done es u) = ap (λ fs. done fs u) (opened es)
    opened_after (raised es e) = ap (λ fs. raised fs e) (opened es)

    opened_plots :
        (base : ℤ)
        → after (if not (exists sim.savedir) then makedirs sim.savedir ∷ [] else []) (
            after
              (session sim (save_prefix fixed sim) (path_join sim.savedir (save_prefix fixed sim)))
              (after [] (behind_session ends fixed sim (ok base))))
          ≡ after (opening exists fixed sim) (behind_session ends fixed sim (ok base))
    opened_plots base =
        opened_after (after [] (behind_session ends fixed sim (ok base)))
        ∙ ap (after (opening exists fixed sim))
            (after-nil (behind_session ends fixed sim (ok base)))

systems-opening :
    (exists : Text → Bool) (fixed : ℕ → Text) (sim : Simulation) (es : List Effect)
    → systems es ≡ []
    → systems (opening exists fixed sim ++ es)
      ≡ codes "sudo ip route add 100.64.0.0/24 via 100.64.0.1"
        ∷ receiver_command sim.mm_delay (save_prefix fixed sim)
        ∷ stop_commands
unfolding session stop_commands call_all
systems-opening exists fixed sim es quiet = elim (Bool-cases (exists sim.savedir)) [
  | inl b ↦ rw (b, quiet) refl
  | inr b ↦ rw (b, quiet) refl
]

effects-after : (es : List Effect) (r : Run (Unit {0})) → effects (after es r) ≡ es ++ effects r
effects-after es (done fs u) = refl
effects-after es (raised fs e) = refl

-- Calls of the plotting code give no command to the system.
systems-plot_all :
    (ends : PlotEnds) (ps : List Effect)
    → systems ps ≡ []
    → systems (effects (plot_all ends ps)) ≡ []
unfolding plot_all
systems-plot_all ends [] h = refl
systems-plot_all ends (system t ∷ ps) h = cc h
systems-plot_all ends (p ∷ ps) h = elim (Result-cases (ends p)) [
  | inl (e, bad) ↦ rw bad refl
  | inr (u, fine) ↦
      rw (fine, effects-after (p ∷ []) (plot_all ends ps)) (systems-plot_all ends ps h)
]

-- The first of these calls that does not return raises `e`.
abbrev pub FirstError : PlotEnds → List Effect → Error → Type 0
FirstError ends ps e =
    (before : List Effect) × (p : Effect) × (behind : List Effect) × (ps ≡ before ++ p ∷ behind)
    × Every (λ q. ends q ≡ ok tt) before
    × (ends p ≡ err e)

plot_all-ends :
    (ends : PlotEnds) (ps : List Effect)
    → ((es : List Effect) × Every (λ p. ends p ≡ ok tt) ps × (plot_all ends ps ≡ done es tt))
      ⊎ ((e : Error) × (es : List Effect) × FirstError ends ps e × (plot_all ends ps ≡ raised es e))
unfolding plot_all
plot_all-ends ends [] = inl ([], tt, refl)
plot_all-ends ends (p ∷ ps) = elim (Result-cases (ends p)) [
  | inl (e, bad) ↦ inr (e, p ∷ [], ([], p, ps, refl, tt, bad), rw bad)
  | inr (u, fine) ↦ elim (plot_all-ends ends ps) [
    | inl (es, all, d) ↦ inl (p ∷ es, (fine, all), rw (fine, d))
    | inr (e, es, (before, q, behind, split, all, bad), d) ↦
        inr (
          e,
          p ∷ es,
          (p ∷ before, q, behind, ap (λ r. p ∷ r) split, (fine, all), bad),
          rw (fine, d),
        )
  ]
]

module _ (ends : PlotEnds) (exists : Text → Bool) (read : Text → Result (List Text))
    (fixed : ℕ → Text) (sim : Simulation) where
  systems-behind_session : (r : Result ℤ) → systems (effects (behind_session ends fixed sim r)) ≡ []
  unfolding plots
  systems-behind_session (err e) = refl
  systems-behind_session (ok base) =
      rw (effects-after [] (plot_all ends (own_plots fixed sim base)))
        (systems-plot_all ends (own_plots fixed sim base) refl)

  run-behind_session :
      run ends exists read fixed sim
      ≡ after (opening exists fixed sim) (behind_session ends fixed sim (log_of read fixed sim))
  run-behind_session = run-log_of ends exists read fixed sim

  -- Whether the log can be read or not, and however the plots end, a run adds the route, starts the
  -- receiver, and then stops all programs. It returns if the base time can be read and all plots
  -- return; otherwise it raises: the error of reading the base time, or else the error of the first
  -- plot that does not return.
  pub run-stops :
      (systems (effects (run ends exists read fixed sim))
        ≡ codes "sudo ip route add 100.64.0.0/24 via 100.64.0.1"
          ∷ receiver_command sim.mm_delay (save_prefix fixed sim)
          ∷ stop_commands)
      × (((base : ℤ) × (es : List Effect) × (log_of read fixed sim ≡ ok base)
            × Every (λ p. ends p ≡ ok tt) (own_plots fixed sim base)
            × (run ends exists read fixed sim ≡ done es tt))
          ⊎ ((e : Error) × (es : List Effect) × ((log_of read fixed sim ≡ err e)
                ⊎ ((base : ℤ) × (log_of read fixed sim ≡ ok base)
                    × FirstError ends (own_plots fixed sim base) e))
              × (run ends exists read fixed sim ≡ raised es e)))
  run-stops = (
    rw
        (
          run-behind_session,
          effects-after (opening exists fixed sim)
              (behind_session ends fixed sim (log_of read fixed sim)),
        )
        (systems-opening exists fixed sim _ (systems-behind_session (log_of read fixed sim))),
    elim (Result-cases (log_of read fixed sim)) [
      | inl (e, bad) ↦ inr (
        e,
        _,
        inl bad,
        run-behind_session
            ∙ ap (λ r. after (opening exists fixed sim) (behind_session ends fixed sim r)) bad,
      )
      | inr (base, known) ↦
          let whole =
            run-behind_session
            ∙ ap (λ r. after (opening exists fixed sim) (behind_session ends fixed sim r)) known in
          elim (plot_all-ends ends (own_plots fixed sim base)) [
            | inl (es, all, d) ↦ inl (
              base,
              opening exists fixed sim ++ es,
              known,
              all,
              whole ∙ ap (λ r. after (opening exists fixed sim) (after [] r)) d,
            )
            | inr (e, es, stops, d) ↦ inr (
              e,
              opening exists fixed sim ++ es,
              inr (base, known, stops),
              whole ∙ ap (λ r. after (opening exists fixed sim) (after [] r)) d,
            )
          ]
    ],
  )
