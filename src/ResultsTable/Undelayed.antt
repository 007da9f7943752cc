-- ===== src/ResultsTable/Undelayed.antt =====
-- The names of runs without a delay in make_table.py.
use vatic_udp.Prelude.{
  ℕ, Result-cases, Option-cases, inl, inr, [], ◌∷◌, ◌++◌, ◌≡◌, ◌≢◌, refl, Option, none, some, ℤ,
  pos, Result, ok, Every,
}
use vatic_udp.Py.Text.{Text, codes, starts_with, contains, drop}
use vatic_udp.Py.Text.Cuts.{Lacks, joined, split_max-joined}
use vatic_udp.Py.Decimal.{print_nat, parse_int}
use vatic_udp.Py.Format.{splitext_root}
use vatic_udp.Simulation.Mm2.{Simulation, active_delay, save_prefix}
use vatic_udp.ResultsTable.{ResultName, read_name, result_name}
use vatic_udp.ResultsTable.Names.{
  rtt_name, name_parts, queue_part, ending, contains_behind_size, time-Lacks, queue-Lacks,
  kib-Lacks, queue_parts, delay_parts, rtt_name-save_prefix,
}

-- What stands where the delay is expected.
abbrev sender_word : Text
sender_word = codes "sender"

sender-Lacks : Lacks b'_' sender_word
unfolding codes
sender-Lacks = (refl, (refl, (refl, (refl, (refl, (refl, tt))))))

-- It is read as the number `r`.
read_name-sender :
    (root t k : Text) (q : Option ℤ) (r : ResultName) → read_name root t k q sender_word ≢ ok r
unfolding read_name drop codes parse_int
read_name-sender root t k q r h = elim (Result-cases (parse_int (drop 1 t))) [
  | inl (e, bad) ↦ cc (rw bad at h)
  | inr (n, good) ↦ cc (rw good at h)
]

module _ (root : Text) (seconds blk : ℕ) (plain : Lacks b'_' root) (f : Text → Result ℤ)
    (r : ResultName) where
  result_name-no_queue :
      result_name f (joined b'_' (name_parts root seconds blk (ending ∷ []))) ≢ ok r
  unfolding result_name starts_with contains codes
  result_name-no_queue h =
      let parts = name_parts root seconds blk (sender_word ∷ []) in
      let lacks : Every (Lacks b'_') parts =
        (plain, (time-Lacks seconds, (kib-Lacks blk, (sender-Lacks, tt)))) in
      let cuts = split_max-joined b'_' parts (codes "RTT.csv") lacks in
      read_name-sender root (codes "T" ++ print_nat seconds) (print_nat blk ++ codes "KiB") none r
        (rw (contains_behind_size root seconds blk 0 plain ending [], cuts) at h)

  result_name-queue :
      (n : ℕ)
      → result_name f (joined b'_' (name_parts root seconds blk (queue_part n ∷ ending ∷ [])))
        ≢ ok r
  unfolding result_name starts_with codes
  result_name-queue n h =
      let parts = name_parts root seconds blk (queue_part n ∷ sender_word ∷ []) in
      let lacks : Every (Lacks b'_') parts =
        (plain, (time-Lacks seconds, (kib-Lacks blk, (queue-Lacks n, (sender-Lacks, tt))))) in
      let cuts = split_max-joined b'_' parts (codes "RTT.csv") lacks in
      let h' =
        rw (contains_behind_size root seconds blk 0 plain (queue_part n) (ending ∷ []), cuts) at
          h in
      elim (Result-cases (f (drop 1 (queue_part n)))) [
        | inl (e, bad) ↦ cc (rw bad at h')
        | inr (q, good) ↦
            read_name-sender root (codes "T" ++ print_nat seconds) (print_nat blk ++ codes "KiB")
              (some q) r (rw good at h')
      ]

-- The name of a timed run without a delay above 0, with a trace whose name holds no underscore, is
-- never read: make_table.py looks for the delay in the word `sender`.
pub result_name-undelayed :
    (float_int : Text → Result ℤ) (sim : Simulation) (seconds blk : ℕ) (p : Text) (r : ResultName)
    → sim.mode.ttr ≡ some (print_nat seconds)
    → sim.blksize ≡ pos blk
    → active_delay sim.mm_delay ≡ none
    → Lacks b'_' (splitext_root sim.trace)
    → save_prefix sim none ≡ ok p
    → ¬ (result_name float_int (rtt_name p) ≡ ok r)
unfolding queue_parts delay_parts
result_name-undelayed float_int sim seconds blk p r t b w plain h =
    elim (Option-cases sim.buf_len) [
      | inl e ↦
          rw (rtt_name-save_prefix sim seconds blk none p t b w h, e)
            (result_name-no_queue (splitext_root sim.trace) seconds blk plain float_int r)
      | inr (n, e) ↦
          rw (rtt_name-save_prefix sim seconds blk none p t b w h, e)
            (result_name-queue (splitext_root sim.trace) seconds blk plain float_int r n)
    ]
