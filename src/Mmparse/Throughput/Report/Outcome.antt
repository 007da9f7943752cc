-- ===== src/Mmparse/Throughput/Report/Outcome.antt =====
-- When `parse_mm_throughput` succeeds, and what the report's table holds.
use vatic_udp.Prelude.{
  ℕ, zero, suc, ◌<◌, List, [], ◌∷◌, ◌≡◌, ◌≢◌, refl, sym, ap, ◌↔◌, arith, map, Option, none, some, ℤ,
  pos, eqb_ℤ, eqb_ℤ_iff, ok, false, length, length-map, get_elem?, >>=-eq-ok, Bool-cases, inl, inr,
  or_raise, Error, unbound_local_error, type_error,
}
use vatic_udp.Py.Text.{Text}
use vatic_udp.Py.Floats.{Floats, float_quotient}
use vatic_udp.Mmparse.Throughput.{
  Row, TputState, tput_start, tput_loop, Column, capacity, arrival, departure, LogLine,
}
use vatic_udp.Mmparse.Throughput.Columns.{cell, cell_at}
use vatic_udp.Mmparse.Throughput.Log.{read_log, events, bits_at, tput_loop-bits_at}
use vatic_udp.Mmparse.Throughput.Report.{
  Report, average, scaled, result_dict, report, parse_mm_throughput,
}

or_raise-eq-ok {ℓ} :
    {A : Type ℓ} (e : Error) (o : Option A) {a : A} → or_raise e o ≡ ok a → o ≡ some a
or_raise-eq-ok e none h = cc
or_raise-eq-ok e (some a) h = cc

get_elem?-map {ℓ} :
    {A : Type ℓ} (g : ℤ → A) (c : Column) (rows : List Row) (i : ℕ)
    → i < length rows
    → get_elem? (map (λ r. g (cell c r)) rows) i ≡ some (g (cell_at c i rows))
get_elem?-map g c [] i h = absurd (omega arith)
get_elem?-map g c (r ∷ rows) zero h = refl
get_elem?-map g c (r ∷ rows) (suc i) h = get_elem?-map g c rows i (omega arith)

module _ (fl : Floats) where
  open fl use {Float, of_int, div, true_div, is_zero}

  average-nonzero :
      (bits ms : ℤ)
      → ms ≢ pos 0
      → average fl bits ms ≡ ok (div (true_div bits ms) (of_int (pos 1000)))
  unfolding average
  average-nonzero bits ms h = elim (Bool-cases (eqb_ℤ ms (pos 0))) [
    | inl e ↦ absurd (h ((eqb_ℤ_iff ms (pos 0)).0 e))
    | inr e ↦ rw e
  ]

  average-eq-ok :
      (bits ms : ℤ) {x : Float}
      → average fl bits ms ≡ ok x
      → (ms ≢ pos 0) × (x ≡ div (true_div bits ms) (of_int (pos 1000)))
  unfolding average
  average-eq-ok bits ms {x} h = ground arith

  float_quotient-eq-ok :
      (a b : Float) {x : Float} → float_quotient fl a b ≡ ok x → (is_zero b ≡ false) × (x ≡ div a b)
  float_quotient-eq-ok a b {x} h = ground arith

  report-eq-ok :
      (m : ℤ) (s : TputState) {r : Report fl}
      → report fl m s ≡ ok r
      → (ms : ℤ) × (init : ℤ) × (s.ms_elapsed ≡ some ms)
        × (s.init_timestamp ≡ some init)
        × (ms ≢ pos 0)
        × (is_zero (div (true_div s.cap_total ms) (of_int (pos 1000))) ≡ false)
        × (r.capacity ≡ map (λ row. scaled fl m row.cap) s.rows)
        × (r.ingress ≡ map (λ row. scaled fl m row.arr) s.rows)
        × (r.throughput ≡ map (λ row. scaled fl m row.dep) s.rows)
  unfolding report
  report-eq-ok m s {r} h =
      let (ms, e1, h1) = >>=-eq-ok (or_raise unbound_local_error s.ms_elapsed) _ h in
      let (cap, e2, h2) = >>=-eq-ok (average fl s.cap_total ms) _ h1 in
      let (ing, e3, h3) = >>=-eq-ok (average fl s.arr_total ms) _ h2 in
      let (tput, e4, h4) = >>=-eq-ok (average fl s.dep_total ms) _ h3 in
      let (init, e5, h5) = >>=-eq-ok (or_raise type_error s.init_timestamp) _ h4 in
      let (used, e6, h6) = >>=-eq-ok (float_quotient fl tput cap) _ h5 in
      let (nonzero, cap_eq) = average-eq-ok s.cap_total ms e2 in
      let (positive, _) = float_quotient-eq-ok tput cap e6 in
      let same : result_dict fl m s ms init cap ing tput used ≡ r = cc h6 in
      (
        ms,
        init,
        or_raise-eq-ok _ _ e1,
        or_raise-eq-ok _ _ e5,
        nonzero,
        rw (← cap_eq) positive,
        ap (λ (q : Report fl). q.capacity) (sym same),
        ap (λ (q : Report fl). q.ingress) (sym same),
        ap (λ (q : Report fl). q.throughput) (sym same),
      )

  -- The column of the table that shows `c`.
  abbrev pub reported : Column → Report fl → List Float
  reported capacity r = r.capacity
  reported arrival r = r.ingress
  reported departure r = r.throughput

  reported_lem :
      (m : ℤ) (s : TputState) {r : Report fl} (c : Column)
      → report fl m s ≡ ok r
      → reported c r ≡ map (λ row. scaled fl m (cell c row)) s.rows
  reported_lem m s capacity h = let (_, _, _, _, _, _, e, _, _) = report-eq-ok m s h in e
  reported_lem m s arrival h = let (_, _, _, _, _, _, _, e, _) = report-eq-ok m s h in e
  reported_lem m s departure h = let (_, _, _, _, _, _, _, _, e) = report-eq-ok m s h in e

  report_succeeds :
      (m : ℤ) (s : TputState) (ms init : ℤ)
      → s.ms_elapsed ≡ some ms
      → s.init_timestamp ≡ some init
      → ms ≢ pos 0
      → is_zero (div (true_div s.cap_total ms) (of_int (pos 1000))) ≡ false
      → (r : Report fl) × (report fl m s ≡ ok r)
  unfolding report
  report_succeeds m s ms init e i nonzero positive =
      rw
        (
          e,
          average-nonzero s.cap_total ms nonzero,
          average-nonzero s.arr_total ms nonzero,
          average-nonzero s.dep_total ms nonzero,
          i,
          positive,
        )
        (_, refl)

  -- A report is made exactly when the loop ends, some event was read, the last event is not at time
  -- 0, an initial timestamp was read, and the average capacity is not 0.
  pub parse_mm_throughput-ok_iff :
      (m : ℤ) (lines : List Text)
      → ((r : Report fl) × (parse_mm_throughput fl m lines ≡ ok r)) ↔ (
          (s : TputState) × (ms : ℤ) × (init : ℤ) × (tput_loop m lines tput_start ≡ ok s)
          × (s.ms_elapsed ≡ some ms)
          × (s.init_timestamp ≡ some init)
          × (ms ≢ pos 0)
          × (is_zero (div (true_div s.cap_total ms) (of_int (pos 1000))) ≡ false))
  unfolding parse_mm_throughput
  parse_mm_throughput-ok_iff m lines = (
    λ (r, h).
        let (s, e, g) = >>=-eq-ok (tput_loop m lines tput_start) _ h in
        let (ms, init, e1, e5, nonzero, positive, _, _, _) = report-eq-ok m s g in
        (s, ms, init, e, e1, e5, nonzero, positive),
    λ (s, ms, init, e, e1, e5, nonzero, positive).
        rw e (report_succeeds m s ms init e1 e5 nonzero positive),
  )

  -- In the report of a log, entry `i` of the column that shows `c` is the sum of the bits of the
  -- log's events that count in `c` and belong to bin `i`, divided by 1000 * `ms_per_bin`.
  pub parse_mm_throughput-bits_at :
      (m : ℤ) (lines : List Text) (r : Report fl) (c : Column) (i : ℕ)
      → parse_mm_throughput fl m lines ≡ ok r
      → i < length (reported c r)
      → (ls : List LogLine) × (read_log m (pos 0) lines ≡ ok ls)
        × (get_elem? (reported c r) i ≡ some (scaled fl m (bits_at c i 0 (events ls))))
  unfolding parse_mm_throughput
  parse_mm_throughput-bits_at m lines r c i h below =
      let (s, e, g) = >>=-eq-ok (tput_loop m lines tput_start) _ h in
      let shown = reported_lem m s c g in
      let (ls, read, _, _, cells) = tput_loop-bits_at m lines s e in
      let inside : i < length s.rows =
        omega (arith, ap length shown, length-map s.rows (λ row. scaled fl m (cell c row))) in
      (ls, read, rw (shown, ← cells c i) (get_elem?-map (scaled fl m) c s.rows i inside))
