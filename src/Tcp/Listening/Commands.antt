-- ===== src/Tcp/Listening/Commands.antt =====
-- The command line of runmm_multi.py as sender_receiver/receiver.cc reads it.
use vatic_udp.Prelude.{
  ℕ, ◌≤◌, length, true, ◌≡◌, refl, ap, ◌∙◌, arith, List, [], ◌∷◌, ◌++◌, append-nil, append_assoc,
  leb, if◌then◌else◌, Option, none, some, ℤ, pos, pos_part, Bool-cases, inl, inr, Every,
}
use vatic_udp.Py.Text.{Text, codes, is_space, text_eq, words}
use vatic_udp.Py.Text.Words.{spaced, Word, words-spaced}
use vatic_udp.Py.Decimal.{print_int}
use vatic_udp.Py.Format.{path_join}
use vatic_udp.Simulation.Multi.{receiver_command}
use vatic_udp.Tcp.Options.{IsInt, IsAtoi}
use vatic_udp.Tcp.CommandLine.{print_int-Plain, arguments, Every-of_none}
use vatic_udp.Tcp.Listening.{
  Start, usage, too_many, overflows, longest_name, listens, start_with, checked_log, receiver_main,
  Event, serve,
}
use vatic_udp.Tcp.Listening.Served.{first_connections, Undisturbed, serve-first}

abbrev pub log_prefix : Text → Text
log_prefix dir = path_join dir (codes "recvlog")

abbrev verbose_word : ℕ → Text
verbose_word verbose = if leb 1 verbose then codes "1" else codes "0"

abbrev log_words : Option Text → List Text
log_words none = []
log_words (some dir) = codes "--log" ∷ log_prefix dir ∷ []

-- The path of the log, if there is one, is one word that the receiver has room for.
abbrev pub PlainLog : Option Text → Type 0
PlainLog none = Unit
PlainLog (some dir) = Word (log_prefix dir) × (length (log_prefix dir) ≤ longest_name)

verbose_word-Word : (verbose : ℕ) → Word (verbose_word verbose)
unfolding codes
verbose_word-Word verbose = elim (Bool-cases (leb 1 verbose)) [
  | inl e ↦ rw e (record { not_nil = λ n. cc n; no_space = (refl, tt) })
  | inr e ↦ rw e (record { not_nil = λ n. cc n; no_space = (refl, tt) })
]

log_words-Word : (log : Option Text) → PlainLog log → Every Word (log_words log)
unfolding codes
log_words-Word none h = tt
log_words-Word (some dir) (h, fits) = (
  record { not_nil = λ n. cc n; no_space = Every-of_none is_space (codes "--log") refl },
  (h, tt),
)

regroup : (a p o v l : Text) → a ++ p ++ o ++ v ++ l ≡ a ++ (p ++ (o ++ (v ++ l)))
regroup a p o v l = simp append_assoc

receiver_command-spaced :
    (port : ℤ) (verbose : ℕ) (log : Option Text)
    → receiver_command port verbose log
      ≡ codes "sender_receiver/receiver"
        ++ spaced (print_int port ∷ codes "1" ∷ verbose_word verbose ∷ log_words log)
unfolding receiver_command codes
receiver_command-spaced port verbose none =
    regroup (codes "sender_receiver/receiver ") (print_int port) (codes " 1 ")
      (verbose_word verbose) []
receiver_command-spaced port verbose (some dir) = rw (append-nil (log_prefix dir)) (
    regroup (codes "sender_receiver/receiver ") (print_int port) (codes " 1 ")
      (verbose_word verbose) (codes " --log " ++ log_prefix dir))

receiver_command-words :
    (port : ℤ) (verbose : ℕ) (log : Option Text)
    → PlainLog log
    → words (receiver_command port verbose log)
      ≡ codes "sender_receiver/receiver"
        ∷ print_int port
        ∷ codes "1"
        ∷ verbose_word verbose
        ∷ log_words log
unfolding codes
receiver_command-words port verbose log h =
    ap words (receiver_command-spaced port verbose log)
    ∙ words-spaced (codes "sender_receiver/receiver")
        (print_int port ∷ codes "1" ∷ verbose_word verbose ∷ log_words log)
        (record {
          not_nil = λ n. cc n;
          no_space = Every-of_none is_space (codes "sender_receiver/receiver") refl;
        })
        (
          (print_int-Plain port).word,
          (
            record { not_nil = λ n. cc n; no_space = (refl, tt) },
            (verbose_word-Word verbose, log_words-Word log h),
          ),
        )

abbrev pub log_file : Option Text → Option Text
log_file none = none
log_file (some dir) = some (codes "./" ++ log_prefix dir)

module _ (atoi : Text → ℤ) (is_atoi : IsAtoi atoi) where
  atoi_one : atoi (codes "1") ≡ pos 1
  unfolding codes print_int
  atoi_one = is_atoi (pos 1) (omega arith)

  atoi_zero : atoi (codes "0") ≡ pos 0
  unfolding codes print_int
  atoi_zero = is_atoi (pos 0) (omega arith)

  checked :
      (port : ℤ) (verbose : ℕ)
      → IsInt port
      → start_with atoi (print_int port) (codes "1") (verbose_word verbose) none
        ≡ listens
            (record { port = port; n_clients_max = pos 1; verbose = leb 1 verbose; log = none })
  unfolding start_with
  checked port verbose h = elim (Bool-cases (leb 1 verbose)) [
    | inl e ↦ rw (e, atoi_one, is_atoi port h) refl
    | inr e ↦ rw (e, atoi_zero, atoi_one, is_atoi port h) refl
  ]

  fits_name : (dir : Text) → PlainLog (some dir) → leb (length (log_prefix dir)) longest_name ≡ true
  fits_name dir (plain, fits) = ground arith

  -- The receiver that runmm_multi.py starts listens at the port of the simulation, with the wanted
  -- log, and for one client, however many senders there are: for a port that fits in an `int`, and a
  -- log whose path is one word of at most 61 characters.
  pub receiver_command-started :
      (port : ℤ) (verbose : ℕ) (log : Option Text)
      → IsInt port
      → PlainLog log
      → receiver_main atoi (arguments (words (receiver_command port verbose log)))
        ≡ listens (record {
          port = port;
          n_clients_max = pos 1;
          verbose = leb 1 verbose;
          log = log_file log;
        })
  unfolding receiver_main checked_log codes text_eq
  receiver_command-started port verbose none h k =
      ap (λ r. receiver_main atoi (arguments r)) (receiver_command-words port verbose none k)
      ∙ checked port verbose h
  receiver_command-started port verbose (some dir) h k =
      ap (λ r. receiver_main atoi (arguments r)) (receiver_command-words port verbose (some dir) k)
      ∙ rw (receiver_main, checked port verbose h, fits_name dir k) refl

-- The connections that the receiver of a command line gives a child, if it does not overflow
unfoldable pub serves {ℓ} : {A : Type ℓ} → Start → List (Event A) → List A
unfolding serve
serves (listens r) es = serve (pos_part r.n_clients_max) 0 es
serves usage es = []
serves too_many es = []
serves overflows es = []

-- The receiver that runmm_multi.py starts gives a child only to the sender that connects first, also when the
-- simulation has several senders: with no interrupt from the keyboard, a port that fits in an `int`,
-- and a log whose path is one word of at most 61 characters.
pub receiver_command-one :
    (atoi : Text → ℤ)
    → IsAtoi atoi
    → (port : ℤ) (verbose : ℕ) (log : Option Text) → IsInt port
    → PlainLog log
    → (es : List (Event ℕ)) → Undisturbed es
    → serves (receiver_main atoi (arguments (words (receiver_command port verbose log)))) es
      ≡ first_connections 1 es
unfolding serves
receiver_command-one atoi is_atoi port verbose log h k es u =
    ap (λ r. serves r es) (receiver_command-started atoi is_atoi port verbose log h k)
    ∙ serve-first 1 es (omega arith) u
