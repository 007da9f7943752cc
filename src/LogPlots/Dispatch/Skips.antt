-- ===== src/LogPlots/Dispatch/Skips.antt =====
-- What becomes of `--skip-seconds`, of `--title` and of the aliases of the plot types in plot.py.
use vatic_udp.Prelude.{
  ◌≡◌, refl, sym, ap, ◌∙◌, ok-injective, List, [], ◌∷◌, map, Bool, true, false, not, if◌then◌else◌,
  Option, none, some, Result, ok, Every, Bool-cases, inl, inr,
}
use vatic_udp.Py.Text.{Text, codes, text_eq}
use vatic_udp.Py.Format.{path_join}
use vatic_udp.Py.Floats.{Floats}
use vatic_udp.LogPlots.{Skip, seconds}
use vatic_udp.LogPlots.Dispatch.{
  PlotArgs, Call, bgtrace, tput_delay, title_as_skip, direct_call, batch_call, batch_calls,
  tput_delay_calls, calls_of, main,
}

module _ (fl : Floats) where
  open fl use {Float}

  -- The `skip_seconds` and the `title` that a call passes on
  abbrev pub Passes : Skip fl → Option Text → Call fl → Type 0
  Passes skip title (bgtrace name dir) = Unit
  Passes skip title (tput_delay path ms_per_bin s t disp save) = (s ≡ skip) × (t ≡ title)

  map-Passes :
      (skip : Skip fl) (title : Option Text) (f : Text → Call fl)
      → ((path : Text) → Passes skip title (f path))
      → (paths : List Text) → Every (Passes skip title) (map f paths)
  map-Passes skip title f h [] = tt
  map-Passes skip title f h (path ∷ paths) = (h path, map-Passes skip title f h paths)

  module _ (glob : Text → List Text) (sort : List Text → List Text) where
    batch_calls-Passes :
        (args : PlotArgs fl) (paths : List Text) (calls : List (Call fl))
        → batch_calls fl glob sort args paths ≡ ok calls
        → Every (Passes (seconds args.skip_seconds) args.title) calls
    unfolding batch_calls batch_call
    batch_calls-Passes args [] calls h = cc h
    batch_calls-Passes args (path ∷ []) calls h = rw (← ok-injective h) (
        map-Passes (seconds args.skip_seconds) args.title (batch_call fl args) (λ p. (refl, refl))
          (sort (glob (path_join path (codes "*_downlink.csv")))))
    batch_calls-Passes args (path ∷ p ∷ paths) calls h = cc h

    -- What the calls pass on, with `--dir` and without it
    abbrev pub PassedOn : Bool → PlotArgs fl → List (Call fl) → Type 0
    PassedOn true args = Every (Passes (seconds args.skip_seconds) args.title)
    PassedOn false args = Every (Passes (title_as_skip fl args.title) none)

    direct : (args : PlotArgs fl) → Result (List (Call fl))
    unfolding direct_call
    direct args = ok (map (direct_call fl args) args.mmfilepaths)

    tput_delay_calls-dir :
        (args : PlotArgs fl) (d : Bool)
        → args.dir ≡ d
        → tput_delay_calls fl glob sort args
          ≡ (if not d then direct args else batch_calls fl glob sort args args.mmfilepaths)
    unfolding tput_delay_calls direct
    tput_delay_calls-dir args d h =
        ap (λ b. if not b then direct args else batch_calls fl glob sort args args.mmfilepaths) h

    tput_delay_calls-PassedOn :
        (args : PlotArgs fl) (d : Bool) (calls : List (Call fl))
        → args.dir ≡ d
        → tput_delay_calls fl glob sort args ≡ ok calls
        → PassedOn d args calls
    unfolding direct direct_call
    tput_delay_calls-PassedOn args true calls e h =
        batch_calls-Passes args args.mmfilepaths calls (sym (tput_delay_calls-dir args true e) ∙ h)
    tput_delay_calls-PassedOn args false calls e h =
        rw (← ok-injective (sym (tput_delay_calls-dir args false e) ∙ h)) (
          map-Passes (title_as_skip fl args.title) none (direct_call fl args) (λ p. (refl, refl))
            args.mmfilepaths)

    PassedOn-bgtrace :
        (args : PlotArgs fl) (d : Bool) (names : List Text) (dir : Text)
        → PassedOn d args (map (λ name. bgtrace name dir) names)
    PassedOn-bgtrace args true [] dir = tt
    PassedOn-bgtrace args false [] dir = tt
    PassedOn-bgtrace args true (name ∷ names) dir = (tt, PassedOn-bgtrace args true names dir)
    PassedOn-bgtrace args false (name ∷ names) dir = (tt, PassedOn-bgtrace args false names dir)

    PassedOn-nil : (args : PlotArgs fl) (d : Bool) → PassedOn d args []
    PassedOn-nil args true = tt
    PassedOn-nil args false = tt

    calls_of-PassedOn :
        (plot_type : Option Text) (args : PlotArgs fl) (calls : List (Call fl))
        → calls_of fl glob sort plot_type args ≡ ok calls
        → PassedOn args.dir args calls
    unfolding calls_of
    calls_of-PassedOn none args calls h = rw (← ok-injective h) (PassedOn-nil args args.dir)
    calls_of-PassedOn (some t) args calls h = elim (Bool-cases (text_eq t (codes "bgtrace"))) [
      | inl e ↦
          rw (← ok-injective (rw e at h)) (PassedOn-bgtrace args args.dir args.names args.trace_dir)
      | inr e ↦ elim (Bool-cases (text_eq t (codes "tput_delay"))) [
        | inl k ↦ tput_delay_calls-PassedOn args args.dir calls refl (rw (e, k) at h)
        | inr k ↦ rw (← ok-injective (rw (e, k) at h)) (PassedOn-nil args args.dir)
      ]
    ]

    -- With `--dir` every `plot_tput_delay` gets the seconds to skip and the title of the command line.
    -- Without it each gets the title, or `None`, as the seconds to skip, and no title.
    pub main-PassedOn :
        (args : PlotArgs fl) (calls : List (Call fl))
        → main fl glob sort args ≡ ok calls
        → PassedOn args.dir args calls
    unfolding main
    main-PassedOn args calls h = calls_of-PassedOn args.plot_type args calls h
