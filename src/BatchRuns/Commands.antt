-- ===== src/BatchRuns/Commands.antt =====
-- What the shell makes of the commands of runVerus.py and runCopa.py.
use vatic_udp.Prelude.{
  ℕ, ◌≡◌, ◌≢◌, refl, ap, ◌∙◌, List, [], ◌∷◌, ◌++◌, append-nil, append_assoc, false, Every-append,
}
use vatic_udp.Py.Text.{Text, codes, is_space, words}
use vatic_udp.Py.Text.Words.{spaced, NoSpace, Word, words-spaced}
use vatic_udp.Py.Decimal.{print_nat}
use vatic_udp.Py.Decimal.RoundTrip.{print_nat-ne-nil}
use vatic_udp.Tcp.CommandLine.{print_nat-Plain, Every-of_none, any_char}
use vatic_udp.BatchRuns.{run_time, run_name, command}

run_name-NoSpace : (trace : Text) (n : ℕ) → NoSpace trace → NoSpace (run_name trace n)
unfolding run_name codes
run_name-NoSpace trace n h =
    Every-append (λ c. is_space c ≡ false)
      (trace ++ codes "_T" ++ print_nat run_time ++ codes "_128KiB_Q") (print_nat n)
      (Every-append (λ c. is_space c ≡ false) (trace ++ codes "_T" ++ print_nat run_time)
        (codes "_128KiB_Q")
        (Every-append (λ c. is_space c ≡ false) (trace ++ codes "_T") (print_nat run_time)
          (Every-append (λ c. is_space c ≡ false) trace (codes "_T") h
            (Every-of_none is_space (codes "_T") refl))
          (print_nat-Plain run_time).word.no_space)
        (Every-of_none is_space (codes "_128KiB_Q") refl))
      (print_nat-Plain n).word.no_space

append-eq-nil : (s t : Text) → s ++ t ≡ [] → t ≡ []
append-eq-nil [] t h = h
append-eq-nil (c ∷ s) t h = cc h

run_name-nonempty : (trace : Text) (n : ℕ) → run_name trace n ≢ []
unfolding run_name
run_name-nonempty trace n h = print_nat-ne-nil n (append-eq-nil _ (print_nat n) h)

regroup :
    (a b c d e f g : Text)
    → a ++ b ++ c ++ d ++ e ++ f ++ g ≡ a ++ (b ++ (c ++ (d ++ (e ++ (f ++ g)))))
regroup a b c d e f g = simp append_assoc

-- The words behind the first one
abbrev arguments_of : Text → Text → ℕ → List Text
arguments_of algo trace n =
    codes "run.py"
    ∷ codes "-tr"
    ∷ (codes "traces/channels/" ++ trace)
    ∷ codes "-t"
    ∷ print_nat run_time
    ∷ codes "-q"
    ∷ print_nat n
    ∷ codes "--name"
    ∷ run_name trace n
    ∷ codes "--dir"
    ∷ codes "output"
    ∷ codes "--algo"
    ∷ algo
    ∷ []

command-spaced :
    (algo trace : Text) (n : ℕ)
    → command algo trace n ≡ codes "python" ++ spaced (arguments_of algo trace n)
unfolding command codes
command-spaced algo trace n = rw (append-nil algo) (
    regroup (codes "python run.py -tr ") (codes "traces/channels/" ++ trace)
      (codes " -t " ++ print_nat run_time) (codes " -q " ++ print_nat n)
      (codes " --name " ++ run_name trace n) (codes " --dir " ++ codes "output")
      (codes " --algo " ++ algo))

-- A literal word
literal : (t : Text) → t ≢ [] → any_char is_space t ≡ false → Word t
literal t h k = record { not_nil = h; no_space = Every-of_none is_space t k }

-- The words of a command name the options of run.py, each with its value, for a trace whose name has
-- no white space and an algorithm that is one word.
pub command-words :
    (algo trace : Text) (n : ℕ)
    → Word algo
    → NoSpace trace
    → words (command algo trace n)
      ≡ codes "python"
        ∷ codes "run.py"
        ∷ codes "-tr"
        ∷ (codes "traces/channels/" ++ trace)
        ∷ codes "-t"
        ∷ print_nat run_time
        ∷ codes "-q"
        ∷ print_nat n
        ∷ codes "--name"
        ∷ run_name trace n
        ∷ codes "--dir"
        ∷ codes "output"
        ∷ codes "--algo"
        ∷ algo
        ∷ []
unfolding command codes
command-words algo trace n h k =
    ap words (command-spaced algo trace n)
    ∙ words-spaced (codes "python") (arguments_of algo trace n)
        (literal (codes "python") (λ e. cc e) refl)
        (
          literal (codes "run.py") (λ e. cc e) refl,
          (
            literal (codes "-tr") (λ e. cc e) refl,
            (
              record {
                not_nil = λ e. cc e;
                no_space =
                    Every-append (λ c. is_space c ≡ false) (codes "traces/channels/") trace
                      (Every-of_none is_space (codes "traces/channels/") refl) k;
              },
              (
                literal (codes "-t") (λ e. cc e) refl,
                (
                  (print_nat-Plain run_time).word,
                  (
                    literal (codes "-q") (λ e. cc e) refl,
                    (
                      (print_nat-Plain n).word,
                      (
                        literal (codes "--name") (λ e. cc e) refl,
                        (
                          record {
                            not_nil = run_name-nonempty trace n;
                            no_space = run_name-NoSpace trace n k;
                          },
                          (
                            literal (codes "--dir") (λ e. cc e) refl,
                            (
                              literal (codes "output") (λ e. cc e) refl,
                              (literal (codes "--algo") (λ e. cc e) refl, (h, tt)),
                            ),
                          ),
                        ),
                      ),
                    ),
                  ),
                ),
              ),
            ),
          ),
        )
