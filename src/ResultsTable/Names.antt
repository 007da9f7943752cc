-- ===== src/ResultsTable/Names.antt =====
-- The parts of the names that runmm2.py and plot.py give to results, and what make_table.py finds in
-- them.
use mathlib.Core.List.{reverse-append, reverse_aux-eq, reverse-reverse}
use vatic_udp.Prelude.{
  ℕ, suc, ◌<◌, Option-cases, inl, inr, ok-injective, List, [], ◌∷◌, ◌++◌, reverse, append_assoc,
  append-nil, ◌≡◌, ◌≢◌, refl, sym, ◌∙◌, ap, arith, Bool, true, false, ◌&&◌, ◌||◌, ltb, ◌==◌,
  if◌then◌else◌, Option, none, some, ℤ, pos, Result, ok, err, value_error, Every, Every-append,
  Every-mono,
}
use vatic_udp.Py.Text.{Text, codes, starts_with, contains, drop}
use vatic_udp.Py.Text.Cuts.{Lacks, joined, contains-append}
use vatic_udp.Py.Decimal.{is_digit, print_nat, print_int, print_two}
use vatic_udp.Py.Decimal.RoundTrip.{
  IsDigits, print_nat-IsDigits, print_two-IsDigits, parse_int-print_nat, parse_int-print_two,
  print_nat-ne-nil,
}
use vatic_udp.Py.Format.{splitext_root}
use vatic_udp.Simulation.Mm2.{Simulation, active_delay, save_prefix, mode_prefix}
use vatic_udp.ResultsTable.{read_name}

pub ruleset append_laws = (append_assoc, append-nil)

pub ltb-zero-suc : (d : ℕ) → ltb 0 (suc d) ≡ true
ltb-zero-suc d = ground arith

-- `rtt_savepath` of plot.py, from the prefix of a run's files
abbrev pub rtt_name : Text → Text
rtt_name prefix = splitext_root (prefix ++ codes "_sender.pcap") ++ codes "_RTT.csv"

pub splitext_root-sender :
    (p : Text) → splitext_root (p ++ codes "_sender.pcap") ≡ p ++ codes "_sender"
unfolding splitext_root codes
splitext_root-sender p = rw (reverse-append p (codes "_sender.pcap")) (
    reverse_aux-eq (reverse p) (codes "_sender")
    ∙ ap (λ r. r ++ codes "_sender") (reverse-reverse p))

pub no_underscore : (s : Text) → IsDigits s → Lacks b'_' s
no_underscore = Every-mono (λ c. is_digit c ≡ true) (λ c. (c == b'_') ≡ false) (λ c h. ground arith)

no_q : (s rest : Text) → IsDigits s → s ≢ [] → starts_with (s ++ rest) (codes "Q") ≡ false
unfolding starts_with codes
no_q [] rest h k = absurd (k refl)
no_q (c ∷ s) rest (d, h) k = let other : (c == b'Q') ≡ false = ground arith in rw other

pub kib-Lacks : (b : ℕ) → Lacks b'_' (print_nat b ++ codes "KiB")
unfolding codes
kib-Lacks b =
    Every-append _ (print_nat b) (codes "KiB") (no_underscore _ (print_nat-IsDigits b))
      (refl, (refl, (refl, tt)))

-- The parts of the name of a run's file that stand before `sender_RTT.csv`.
abbrev pub name_parts : Text → ℕ → ℕ → List Text → List Text
name_parts root seconds blk more =
    root ∷ (codes "T" ++ print_nat seconds) ∷ (print_nat blk ++ codes "KiB") ∷ more

abbrev pub queue_part : ℕ → Text
queue_part n = codes "Q" ++ print_nat n

abbrev pub delay_part : ℕ → Text
delay_part d = codes "delay" ++ print_two d

abbrev pub ending : Text
ending = codes "sender_RTT.csv"

pub time-Lacks : (n : ℕ) → Lacks b'_' (codes "T" ++ print_nat n)
unfolding codes
time-Lacks n = (refl, no_underscore _ (print_nat-IsDigits n))

pub queue-Lacks : (n : ℕ) → Lacks b'_' (queue_part n)
unfolding codes
queue-Lacks n = (refl, no_underscore _ (print_nat-IsDigits n))

pub delay-Lacks : (d : ℕ) → Lacks b'_' (delay_part d)
unfolding codes
delay-Lacks d = (refl, (refl, (refl, (refl, (refl, no_underscore _ (print_two-IsDigits d))))))

module _ (root : Text) (seconds blk d : ℕ) (plain : Lacks b'_' root) where
  abbrev pub queued : ℕ → List Text
  queued n = name_parts root seconds blk (queue_part n ∷ delay_part d ∷ [])

  abbrev pub unqueued : List Text
  unqueued = name_parts root seconds blk (delay_part d ∷ [])

  pub unqueued-Lacks : Every (Lacks b'_') unqueued
  unqueued-Lacks = (plain, (time-Lacks seconds, (kib-Lacks blk, (delay-Lacks d, tt))))

  pub queued-Lacks : (n : ℕ) → Every (Lacks b'_') (queued n)
  queued-Lacks n =
      (plain, (time-Lacks seconds, (kib-Lacks blk, (queue-Lacks n, (delay-Lacks d, tt)))))

  pub read_name-parts :
      (q : Option ℤ)
      → read_name root
          (codes "T" ++ print_nat seconds)
          (print_nat blk ++ codes "KiB")
          q
          (delay_part d)
        ≡ ok (record {
          trace = root;
          duration = pos seconds;
          blksize = print_nat blk ++ codes "KiB";
          qsize = q;
          mmdelay = pos d;
        })
  unfolding read_name drop codes
  read_name-parts q = rw (parse_int-print_nat seconds, parse_int-print_two d)

  -- The first parts hold no queue.
  pub contains_behind_size :
      (r : Text) (rs : List Text)
      → contains (joined b'_' (name_parts root seconds blk (r ∷ rs))) (codes "_Q") ≡ (
          starts_with (joined b'_' (r ∷ rs)) (codes "Q")
          || contains (joined b'_' (r ∷ rs)) (codes "_Q"))
  unfolding codes starts_with
  contains_behind_size r rs =
      let after : Text = joined b'_' (r ∷ rs) in
      let kib : Text = print_nat blk ++ codes "KiB" in
      let one =
        contains-append b'_' b'Q' root
          (joined b'_' ((codes "T" ++ print_nat seconds) ∷ kib ∷ r ∷ rs)) plain in
      let two =
        contains-append b'_' b'Q' (codes "T" ++ print_nat seconds) (joined b'_' (kib ∷ r ∷ rs))
          (time-Lacks seconds) in
      let three = contains-append b'_' b'Q' kib after (kib-Lacks blk) in
      let digit : starts_with (joined b'_' (kib ∷ r ∷ rs)) (codes "Q") ≡ false =
        rw (append_assoc (print_nat blk) (codes "KiB") (b'_' ∷ after))
          (no_q (print_nat blk) _ (print_nat-IsDigits blk) (print_nat-ne-nil blk)) in
      one ∙ two ∙ ap (λ b. b || contains (joined b'_' (kib ∷ r ∷ rs)) (codes "_Q")) digit ∙ three

  pub contains-queued :
      (n : ℕ) → contains (joined b'_' (queued n ++ ending ∷ [])) (codes "_Q") ≡ true
  unfolding starts_with codes
  contains-queued n = contains_behind_size (queue_part n) (delay_part d ∷ ending ∷ [])

  pub contains-unqueued : contains (joined b'_' (unqueued ++ ending ∷ [])) (codes "_Q") ≡ false
  unfolding starts_with contains codes
  contains-unqueued =
      contains_behind_size (delay_part d) (ending ∷ [])
      ∙ contains-append b'_' b'Q' (delay_part d) ending (delay-Lacks d)

-- The parts of a run's file name behind the block size.
unfoldable pub queue_parts : Option ℕ → List Text → List Text
queue_parts none more = more
queue_parts (some n) more = queue_part n ∷ more

unfoldable pub delay_parts : Option ℕ → List Text → List Text
delay_parts none more = more
delay_parts (some d) more = delay_part d ∷ more

-- The whole name of the file, from the fields of the simulation.
pub rtt_name-save_prefix :
    (sim : Simulation) (seconds blk : ℕ) (delay : Option ℕ) (p : Text)
    → sim.mode.ttr ≡ some (print_nat seconds)
    → sim.blksize ≡ pos blk
    → active_delay sim.mm_delay ≡ delay
    → save_prefix sim none ≡ ok p
    → rtt_name p
      ≡ joined b'_' (
          name_parts
            (splitext_root sim.trace)
            seconds
            blk
            (queue_parts sim.buf_len (delay_parts delay (ending ∷ []))))
unfolding save_prefix mode_prefix print_int queue_parts delay_parts codes
rtt_name-save_prefix sim seconds blk none p t b w h = elim (Option-cases sim.buf_len) [
  | inl e ↦ rw (← ok-injective (rw (t, b, w, e) at h), splitext_root-sender, e) (simp append_laws)
  | inr (n, e) ↦
      rw (← ok-injective (rw (t, b, w, e) at h), splitext_root-sender, e) (simp append_laws)
]
rtt_name-save_prefix sim seconds blk (some d) p t b w h = elim (Option-cases sim.buf_len) [
  | inl e ↦ rw (← ok-injective (rw (t, b, w, e) at h), splitext_root-sender, e) (simp append_laws)
  | inr (n, e) ↦
      rw (← ok-injective (rw (t, b, w, e) at h), splitext_root-sender, e) (simp append_laws)
]
