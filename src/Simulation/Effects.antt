-- ===== src/Simulation/Effects.antt =====
-- The effects of a simulation run, and the monad in which `run` is written.
use vatic_udp.Prelude.{
  ℕ, List, [], ◌∷◌, ◌++◌, Bool, true, false, if◌then◌else◌, ◌≡◌, refl, ◌⊎◌, inl, inr, ap, Error,
  Result, ok, err, ℤ,
}
use vatic_udp.Py.Text.{Text}

-- The processes that a run starts and waits for.
pub data Process : Type 0 where
  receiver : Process
  sender : ℕ → Process

pub data Effect : Type 0 where
  makedirs : Text → Effect
  mkdir : Text → Effect
  -- `sp.Popen(argv)`, with its standard streams piped or not
  spawn : Process → Bool → List Text → Effect
  -- `sp.Popen(command, shell=True)`
  spawn_shell : Text → Effect
  -- the text that is handed to the shell, with a wait for its end
  communicate : Text → Effect
  system : Text → Effect
  sleep : ℕ → Effect
  wait : Process → Effect
  unlink : Text → Effect
  -- `plot_tput_delay(path, title=…, disp=…, save=…)`
  plot : Text → Text → Bool → Bool → Effect
  -- the same with `skip_seconds` and `ms_per_bin`
  plot_bins : Text → ℕ → ℕ → Effect
  -- `plot_tput_delay_tcpdump(sender_pcap, receiver_pcap, server_ip, log, skip, title, disp, save)`
  plot_tcpdump : Text → Text → Text → Text → ℕ → Text → Bool → Bool → Effect
  -- `PlotVatic(path, prefix, baseTimeStamp)`
  plot_vatic : Text → Text → ℤ → Effect

pub data Run {ℓ} (A : Type ℓ) : Type ℓ where
  done : List Effect → A → Run A
  raised : List Effect → Error → Run A

abbrev pub after {ℓ} : {A : Type ℓ} → List Effect → Run A → Run A
after es (done fs a) = done (es ++ fs) a
after es (raised fs e) = raised (es ++ fs) e

infixl 5 ◌>>=◌ ◌>>◌
abbrev pub ◌>>=◌ {ℓ κ} : {A : Type ℓ} {B : Type κ} → Run A → (A → Run B) → Run B
done es a >>= f = after es (f a)
raised es e >>= f = raised es e

abbrev pub ◌>>◌ {ℓ κ} : {A : Type ℓ} {B : Type κ} → Run A → Run B → Run B
m >> k = m >>= λ _. k

abbrev pub emits : List Effect → Run (Unit {0})
emits es = done es tt

abbrev pub emit : Effect → Run (Unit {0})
emit e = done (e ∷ []) tt

abbrev pub emit_if : Bool → Effect → Run (Unit {0})
emit_if b e = done (if b then e ∷ [] else []) tt

-- A step that may raise and has no effect.
abbrev pub lift {ℓ} : {A : Type ℓ} → Result A → Run A
lift (ok a) = done [] a
lift (err e) = raised [] e

-- How each call of the plotting code ends: it returns, or it raises an error. That depends on the
-- files that the processes of the run have left behind, and so it is a parameter of the runs.
abbrev pub PlotEnds : Type 0
PlotEnds = Effect → Result (Unit {0})

abbrev pub call : PlotEnds → Effect → Run (Unit {0})
call ends e = after (e ∷ []) (lift (ends e))

-- All effects of a run, whether it returns or raises.
abbrev pub effects {ℓ} : {A : Type ℓ} → Run A → List Effect
effects (done es a) = es
effects (raised es e) = es

-- The processes that these effects start, their arguments, and the processes that are waited for, in
-- order.
abbrev pub spawned : List Effect → List Process
spawned [] = []
spawned (spawn p b argv ∷ es) = p ∷ spawned es
spawned (_ ∷ es) = spawned es

abbrev pub argvs : List Effect → List (List Text)
argvs [] = []
argvs (spawn p b argv ∷ es) = argv ∷ argvs es
argvs (_ ∷ es) = argvs es

abbrev pub waited : List Effect → List Process
waited [] = []
waited (wait p ∷ es) = p ∷ waited es
waited (_ ∷ es) = waited es

-- The log files that are plotted.
abbrev pub plotted : List Effect → List Text
plotted [] = []
plotted (plot p t d s ∷ es) = p ∷ plotted es
plotted (_ ∷ es) = plotted es

pub Run-cases {ℓ} :
    {A : Type ℓ} (r : Run A)
    → ((es : List Effect) × (e : Error) × (r ≡ raised es e))
      ⊎ ((es : List Effect) × (a : A) × (r ≡ done es a))
Run-cases (raised es e) = inl (es, e, refl)
Run-cases (done es a) = inr (es, a, refl)

pub spawned-append : (es fs : List Effect) → spawned (es ++ fs) ≡ spawned es ++ spawned fs
spawned-append [] fs = refl
spawned-append (spawn p b argv ∷ es) fs = ap (λ r. p ∷ r) (spawned-append es fs)
spawned-append (_ ∷ es) fs = spawned-append es fs

pub argvs-append : (es fs : List Effect) → argvs (es ++ fs) ≡ argvs es ++ argvs fs
argvs-append [] fs = refl
argvs-append (spawn p b argv ∷ es) fs = ap (λ r. argv ∷ r) (argvs-append es fs)
argvs-append (_ ∷ es) fs = argvs-append es fs

pub waited-append : (es fs : List Effect) → waited (es ++ fs) ≡ waited es ++ waited fs
waited-append [] fs = refl
waited-append (wait p ∷ es) fs = ap (λ r. p ∷ r) (waited-append es fs)
waited-append (_ ∷ es) fs = waited-append es fs

pub plotted-append : (es fs : List Effect) → plotted (es ++ fs) ≡ plotted es ++ plotted fs
plotted-append [] fs = refl
plotted-append (plot p t d s ∷ es) fs = ap (λ r. p ∷ r) (plotted-append es fs)
plotted-append (_ ∷ es) fs = plotted-append es fs

pub done-injective {ℓ} :
    {A : Type ℓ} {es fs : List Effect} {a b : A} → done es a ≡ done fs b → (es ≡ fs) × (a ≡ b)
done-injective h = (cc h, cc h)

-- The texts handed to a shell, and the files removed.
abbrev pub communicated : List Effect → List Text
communicated [] = []
communicated (communicate t ∷ es) = t ∷ communicated es
communicated (_ ∷ es) = communicated es

abbrev pub unlinked : List Effect → List Text
unlinked [] = []
unlinked (unlink p ∷ es) = p ∷ unlinked es
unlinked (_ ∷ es) = unlinked es

-- Making two directories, each only if it is missing, talks to no shell and removes no file.
module _ (p q : Text) (es : List Effect) where
  abbrev pub with_directories : Bool → Bool → List Effect
  with_directories b c =
      (if b then makedirs p ∷ [] else []) ++ ((if c then mkdir q ∷ [] else []) ++ es)

  pub communicated-with_directories :
      (b c : Bool) → communicated (with_directories b c) ≡ communicated es
  communicated-with_directories true true = refl
  communicated-with_directories true false = refl
  communicated-with_directories false true = refl
  communicated-with_directories false false = refl

  pub unlinked-with_directories : (b c : Bool) → unlinked (with_directories b c) ≡ unlinked es
  unlinked-with_directories true true = refl
  unlinked-with_directories true false = refl
  unlinked-with_directories false true = refl
  unlinked-with_directories false false = refl
