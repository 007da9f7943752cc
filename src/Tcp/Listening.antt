-- ===== src/Tcp/Listening.antt =====
-- The command line of sender_receiver/receiver.cc, and the loop in which it accepts connections. What
-- happens at the socket is a list of events; `atoi` is a parameter.
pub mod Served
pub mod Commands
use vatic_udp.Prelude.{
  ℕ, suc, ◌+◌, List, [], ◌∷◌, ◌++◌, Bool, true, false, not, ◌&&◌, ◌||◌, ◌==◌, ltb, leb, length,
  if◌then◌else◌, Option, none, some, ℤ, pos, ltb_ℤ, eqb_ℤ,
}
use vatic_udp.Py.Text.{Text, codes, text_eq}

-- `PORT`, `n_clients_max`, `verbose`, and `filename` if packets are logged
pub record Receiver : Type 0 where
  pub port : ℤ
  pub n_clients_max : ℤ
  pub verbose : Bool
  pub log : Option Text

-- What `main` returns at once, that it writes behind the end of `filename`, after which nothing is
-- known of it, or the receiver that it becomes.
pub data Start : Type 0 where
  usage too_many overflows : Start
  listens : Receiver → Start

abbrev pub longest_name : ℕ
longest_name = 61

module _ (atoi : Text → ℤ) where
  unfoldable pub start_with : Text → Text → Text → Option Text → Start
  start_with port clients verbose log =
      if ltb_ℤ (atoi clients) (pos 0) || ltb_ℤ (pos 10000) (atoi clients)
      then too_many
      else listens (record {
        port = atoi port;
        n_clients_max = atoi clients;
        verbose = not (eqb_ℤ (atoi verbose) (pos 0));
        log = log;
      })

  -- The bound on the clients is looked at before the option is. `sprintf(filename, "./%s", argv[5])`
  -- has 64 characters for the prefix, the name and the closing zero; a character of a text is one byte.
  unfoldable pub checked_log : Text → Text → Start → Start
  unfolding codes text_eq
  checked_log option file usage = usage
  checked_log option file too_many = too_many
  checked_log option file overflows = overflows
  checked_log option file (listens r) =
      if text_eq option (codes "--log")
      then (if leb (length file) longest_name
          then listens (record r { log = some (codes "./" ++ file) })
          else overflows)
      else usage

  -- `main` on the arguments behind the program's name, up to the socket
  unfoldable pub receiver_main : List Text → Start
  unfolding start_with checked_log
  receiver_main (port ∷ clients ∷ verbose ∷ []) = start_with port clients verbose none
  receiver_main (port ∷ clients ∷ verbose ∷ option ∷ file ∷ []) =
      checked_log option file (start_with port clients verbose none)
  receiver_main other = usage

-- What `accept` does: it returns a connection, it is interrupted, or it fails otherwise.
pub data Accept {ℓ} (A : Type ℓ) : Type ℓ where
  connection : A → Accept A
  interrupted failed : Accept A

-- One round of the loop: whether `quit` is set as it begins, and what `accept` does
abbrev pub Event {ℓ} : Type ℓ → Type ℓ
Event A = Bool × Accept A

-- `!quit && (n_clients < n_clients_max || n_clients_max == 0)`
abbrev pub goes_round : ℕ → ℕ → Bool → Bool
goes_round limit n quit = not quit && (ltb n limit || limit == 0)

-- The connections that get a child, from `n_clients` on, among the events so far
unfoldable pub serve {ℓ} : {A : Type ℓ} → ℕ → ℕ → List (Event A) → List A
serve limit n [] = []
serve limit n ((quit, connection c) ∷ es) =
    let rest = serve limit (n + 1) es in if goes_round limit n quit then c ∷ rest else []
serve limit n ((quit, interrupted) ∷ es) =
    let rest = serve limit n es in if goes_round limit n quit then rest else []
serve limit n ((quit, failed) ∷ es) = []
