-- ===== src/Mmparse/LogSimple/Ticks.antt =====
-- The times in the table of `parse_lines`.
use vatic_udp.Prelude.{
  ℕ, zero, suc, ◌+◌, List, [], ◌∷◌, ◌++◌, map, ◌≡◌, refl, sym, ap, arith, true, false, Bool-cases,
  inl, inr, Option, Option-cases, none, some, ℤ, pos, pos_part, neg_part, negsuc, ◌<◌, ◌≤◌, ◌≢◌,
  ◌+ℤ◌, ◌-ℤ◌, ◌≤ℤ◌, ltb_ℤ, eqb_ℤ, eqb_ℤ_iff, eq_of_parts, int_laws, +ℤ-zero, ok, >>=-eq-ok,
  ok-injective,
}
use vatic_udp.Py.Text.{Text}
use vatic_udp.Mmparse.LogSimple.{
  Count, Tick, SimpleState, simple_start, quiet_ticks, closed_tick, settled, close_ticks,
  count_bytes, apply_simple_event, QueueMatch, SimpleLine, timestamp_line, queue_line,
  operation_line, skipped_line, read_simple_line, apply_simple_line, simple_loop, Parsed, finish,
  parse_lines,
}
use vatic_udp.Mmparse.LogSimple.Conservation.{read_simple_log, limit_after, limit-apply_simple_line}

-- One row for every millisecond from `a` to the one before `b`.
abbrev pub RunsTo : ℤ → List Tick → ℤ → Type 0
RunsTo a [] b = a ≡ b
RunsTo a (t ∷ ts) b = (t.time ≡ a) × RunsTo (a +ℤ pos 1) ts b

-- The operations of a log stand in the order of their times, from `cur` on.
abbrev pub InOrder : ℤ → List SimpleLine → Type 0
InOrder cur [] = Unit {0}
InOrder cur (operation_line e ∷ ls) = (cur ≤ℤ e.tick) × InOrder e.tick ls
InOrder cur (_ ∷ ls) = InOrder cur ls

runs-append :
    (a b c : ℤ) (ts us : List Tick) → RunsTo a ts b → RunsTo b us c → RunsTo a (ts ++ us) c
runs-append a b c [] us h k = rw h k
runs-append a b c (t ∷ ts) us (own, h) k = (own, runs-append (a +ℤ pos 1) b c ts us h k)

runs-quiet_ticks : (n : ℕ) (t q : ℤ) → RunsTo t (quiet_ticks n t q) (t +ℤ pos n)
unfolding quiet_ticks
runs-quiet_ticks zero t q = sym (+ℤ-zero t)
runs-quiet_ticks (suc n) t q =
    let last : t +ℤ pos 1 +ℤ pos n ≡ t +ℤ pos (suc n) = omega int_laws in
    let rest = runs-quiet_ticks n (t +ℤ pos 1) q in (refl, rw last at rest)

pos-pos_part : (z : ℤ) → pos 0 ≤ℤ z → pos (pos_part z) ≡ z
pos-pos_part (pos n) h = refl
pos-pos_part (negsuc n) h = absurd (omega arith)

gap : (a b : ℤ) → ltb_ℤ a b ≡ true → a +ℤ pos 1 +ℤ pos (pos_part (b -ℤ (a +ℤ pos 1))) ≡ b
gap a b h =
    let below : pos_part a + neg_part b < pos_part b + neg_part a = ground arith in
    rw (pos-pos_part (b -ℤ (a +ℤ pos 1)) (omega int_laws)) (omega int_laws)

runs-shifted :
    (d a b : ℤ) (ts : List Tick)
    → RunsTo a ts b
    → RunsTo (a +ℤ d) (map (λ (t : Tick). record t { time = t.time +ℤ d }) ts) (b +ℤ d)
runs-shifted d a b [] h = ap (λ x. x +ℤ d) h
runs-shifted d a b (t ∷ ts) (own, h) =
    let next : a +ℤ pos 1 +ℤ d ≡ a +ℤ d +ℤ pos 1 = omega int_laws in
    let rest = runs-shifted d (a +ℤ pos 1) b ts h in (ap (λ x. x +ℤ d) own, rw next at rest)

at_least : (a b : ℤ) → pos 0 ≤ℤ a → a ≤ℤ b → pos 0 ≤ℤ b
at_least a b h k = omega arith

not_zero : (a b : ℤ) → pos 0 ≤ℤ a → ltb_ℤ a b ≡ true → b ≢ pos 0
not_zero a b h late e =
    let below : pos_part a + neg_part b < pos_part b + neg_part a = ground arith in
    omega (arith, ap pos_part e)

no_later : (a b : ℤ) → a ≤ℤ b → ltb_ℤ a b ≡ false → a ≡ b
no_later a b h k =
    let above : pos_part b + neg_part a ≤ pos_part a + neg_part b = ground arith in
    eq_of_parts a b (omega arith)

-- The rows so far end before the open millisecond; there are none before the first time other than 0.
record Even (s : SimpleState) : Type 0 where
  first : ℤ
  runs : RunsTo first s.ticks s.tick_last
  none_at_zero : s.tick_last ≡ pos 0 → s.ticks ≡ []
  from_zero : pos 0 ≤ℤ s.tick_last

close_ticks-Even :
    (tick : ℤ) (q : ℤ) (s : SimpleState)
    → Even s
    → s.tick_last ≤ℤ tick
    → Even (record (close_ticks tick s) { tick_last = tick; qsize_last = q })
unfolding close_ticks
close_ticks-Even tick q s v order = elim (Bool-cases (ltb_ℤ s.tick_last tick)) [
  | inr same ↦
      let here : s.tick_last ≡ tick = no_later s.tick_last tick order same in
      rw same (record {
        first = v.first;
        runs = rw (← here) v.runs;
        none_at_zero = rw (← here) v.none_at_zero;
        from_zero = rw (← here) v.from_zero;
      })
  | inl late ↦ elim (Bool-cases (eqb_ℤ s.tick_last (pos 0))) [
    | inl zero_tick ↦
        let empty = v.none_at_zero ((eqb_ℤ_iff s.tick_last (pos 0)).0 zero_tick) in
        rw (late, zero_tick)
          (record {
            first = tick;
            runs = rw empty refl;
            none_at_zero = λ _. empty;
            from_zero = at_least s.tick_last tick v.from_zero order;
          })
    | inr open_tick ↦
        let next = s.tick_last +ℤ pos 1 in
        let quiet = runs-quiet_ticks (pos_part (tick -ℤ next)) next (settled s) in
        rw (late, open_tick)
          (record {
            first = v.first;
            runs =
                runs-append v.first s.tick_last tick s.ticks _ v.runs
                  (refl, rw (gap s.tick_last tick late) at quiet);
            none_at_zero = λ e. absurd (not_zero s.tick_last tick v.from_zero late e);
            from_zero = at_least s.tick_last tick v.from_zero order;
          })
  ]
]

count_bytes-Even : (c : Option (Count × ℤ)) (s : SimpleState) → Even s → Even (count_bytes c s)
unfolding count_bytes
count_bytes-Even none s v = record {
  first = v.first;
  runs = v.runs;
  none_at_zero = v.none_at_zero;
  from_zero = v.from_zero;
}
count_bytes-Even (some (j, n)) s v = record {
  first = v.first;
  runs = v.runs;
  none_at_zero = v.none_at_zero;
  from_zero = v.from_zero;
}

tick_last-count_bytes :
    (c : Option (Count × ℤ)) (s : SimpleState) → (count_bytes c s).tick_last ≡ s.tick_last
unfolding count_bytes
tick_last-count_bytes none s = refl
tick_last-count_bytes (some (j, n)) s = refl

apply_simple_line-Even :
    (l : SimpleLine) (ls : List SimpleLine) (s : SimpleState)
    → Even s
    → InOrder s.tick_last (l ∷ ls)
    → Even (apply_simple_line l s) × InOrder (apply_simple_line l s).tick_last ls
unfolding apply_simple_line apply_simple_event
apply_simple_line-Even (timestamp_line t) ls s v h = (
  record { first = v.first; runs = v.runs; none_at_zero = v.none_at_zero; from_zero = v.from_zero },
  h,
)
apply_simple_line-Even (queue_line q) ls s v h = (
  record { first = v.first; runs = v.runs; none_at_zero = v.none_at_zero; from_zero = v.from_zero },
  h,
)
apply_simple_line-Even (operation_line e) ls s v (order, h) = (
  count_bytes-Even e.counted _ (close_ticks-Even e.tick e.queue_size s v order),
  rw (tick_last-count_bytes e.counted) h,
)
apply_simple_line-Even skipped_line ls s v h = (v, h)

simple_loop-Even :
    (match_queue : QueueMatch) (lines : List Text) (ls : List SimpleLine) (s t : SimpleState)
    → simple_loop match_queue lines s ≡ ok t
    → read_simple_log match_queue s.queue.qsize_limit lines ≡ ok ls
    → InOrder s.tick_last ls
    → Even s
    → Even t
unfolding simple_loop read_simple_log
simple_loop-Even match_queue [] ls s t h read order v = rw (← ok-injective h) v
simple_loop-Even match_queue (line ∷ lines) ls s t h read order v =
    let (l, now, later) = >>=-eq-ok (read_simple_line match_queue s.queue.qsize_limit line) _ h in
    let (l', now', more) =
      >>=-eq-ok (read_simple_line match_queue s.queue.qsize_limit line) _ read in
    let (ls', rest, made) =
      >>=-eq-ok (read_simple_log match_queue (limit_after l' s.queue.qsize_limit) lines) _ more in
    let same : l' ≡ l = cc (now, now') in
    let own : l ∷ ls' ≡ ls = cc (ok-injective made, same) in
    let (v', order') = apply_simple_line-Even l ls' s v (rw (← own) at order) in
    simple_loop-Even match_queue lines ls' (apply_simple_line l s) t later
      (rw (limit-apply_simple_line l s) (rw same at rest)) order' v'

runs-finish :
    (s : SimpleState) (r : Parsed)
    → finish s ≡ ok r
    → Even s
    → (a : ℤ) × RunsTo a r.table (s.tick_last +ℤ s.init_timestamp +ℤ pos 1)
unfolding finish
runs-finish s r h v = elim (Option-cases s.queue.qsize_limit) [
  | inl e ↦ cc (rw e at h)
  | inr (n, e) ↦
      let whole =
        runs-append v.first s.tick_last (s.tick_last +ℤ pos 1) s.ticks (closed_tick s ∷ []) v.runs
          (refl, refl) in
      let shifted = runs-shifted s.init_timestamp _ _ _ whole in
      let last : s.tick_last +ℤ pos 1 +ℤ s.init_timestamp
          ≡ s.tick_last +ℤ s.init_timestamp +ℤ pos 1 =
        omega int_laws in
      (v.first +ℤ s.init_timestamp, rw (← ok-injective (rw e at h)) (rw last at shifted))
]

start-Even : Even simple_start
start-Even = record {
  first = pos 0;
  runs = refl;
  none_at_zero = λ _. refl;
  from_zero = omega arith;
}

-- If the operations of a log stand in order of time, from 0 on, then the table that
-- `parse_lines` returns has exactly one row for each millisecond, with no gap, from its first
-- row up to the last operation, whose time is that of the log's start and the operation's own.
pub parse_lines-runs :
    (match_queue : QueueMatch) (lines : List Text) (r : Parsed) (ls : List SimpleLine)
    → parse_lines match_queue lines ≡ ok r
    → read_simple_log match_queue none lines ≡ ok ls
    → InOrder (pos 0) ls
    → (s : SimpleState) × (a : ℤ) × (simple_loop match_queue lines simple_start ≡ ok s)
      × RunsTo a r.table (s.tick_last +ℤ s.init_timestamp +ℤ pos 1)
unfolding parse_lines
parse_lines-runs match_queue lines r ls h read order =
    let (s, looped, ended) = >>=-eq-ok (simple_loop match_queue lines simple_start) _ h in
    let v = simple_loop-Even match_queue lines ls simple_start s looped read order start-Even in
    let (a, runs) = runs-finish s r ended v in (s, a, looped, runs)
