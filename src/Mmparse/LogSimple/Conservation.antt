-- ===== src/Mmparse/LogSimple/Conservation.antt =====
-- The bytes in the table of `parse_lines` and in the log.
use vatic_udp.Prelude.{
  ℕ, zero, suc, List, [], ◌∷◌, ◌++◌, map, ◌≡◌, refl, sym, ◌∙◌, ap, Bool, true, false, not, ◌&&◌,
  if◌then◌else◌, Bool-cases, inl, inr, Option, Option-cases, none, some, ℤ, pos, ◌+ℤ◌, ltb_ℤ, eqb_ℤ,
  int_laws, +ℤ-zero, zero-+ℤ, Result, ok, ◌>>=◌, >>=-eq-ok, ok-injective,
}
use vatic_udp.Py.Text.{Text}
use vatic_udp.Mmparse.LogSimple.{
  Count, ingress, egress, dropped, capacity, Bytes, no_bytes, Tick, SimpleState, simple_start,
  SimpleEvent, quiet_ticks, close_ticks, add_bytes, count_bytes, apply_simple_event, QueueMatch,
  SimpleLine, timestamp_line, queue_line, operation_line, skipped_line, read_simple_line,
  apply_simple_line, simple_loop, Parsed, finish, parse_lines,
}

abbrev pub bytes_of : Count → Bytes → ℤ
bytes_of ingress b = b.ingress_bytes
bytes_of egress b = b.egress_bytes
bytes_of dropped b = b.dropped_bytes
bytes_of capacity b = b.capacity_bytes

-- The bytes of a kind in a table.
abbrev pub table_sum : Count → List Tick → ℤ
table_sum k [] = pos 0
table_sum k (t ∷ ts) = bytes_of k t.bytes +ℤ table_sum k ts

abbrev pub same_count : Count → Count → Bool
same_count ingress ingress = true
same_count egress egress = true
same_count dropped dropped = true
same_count capacity capacity = true
same_count _ _ = false

-- The bytes of a kind that an event counts.
abbrev pub event_bytes : Count → Option (Count × ℤ) → ℤ
event_bytes k none = pos 0
event_bytes k (some (j, n)) = if same_count k j then n else pos 0

-- The bytes of a kind in all operations of a log.
abbrev pub log_bytes : Count → List SimpleLine → ℤ
log_bytes k [] = pos 0
log_bytes k (operation_line e ∷ ls) = event_bytes k e.counted +ℤ log_bytes k ls
log_bytes k (_ ∷ ls) = log_bytes k ls

abbrev pub limit_after : SimpleLine → Option ℤ → Option ℤ
limit_after (queue_line q) limit = q.qsize_limit
limit_after (timestamp_line t) limit = limit
limit_after (operation_line e) limit = limit
limit_after skipped_line limit = limit

-- All lines of a log, each read behind the lines before it.
unfoldable pub read_simple_log : QueueMatch → Option ℤ → List Text → Result (List SimpleLine)
read_simple_log match_queue limit [] = ok []
read_simple_log match_queue limit (line ∷ lines) = do
  l ← read_simple_line match_queue limit line
  ls ← read_simple_log match_queue (limit_after l limit) lines
  ok (l ∷ ls)

-- The bytes in the table so far, with those of the open millisecond.
abbrev held : Count → SimpleState → ℤ
held k s = table_sum k s.ticks +ℤ bytes_of k s.bytes_ms_last

bytes_of-no_bytes : (k : Count) → bytes_of k no_bytes ≡ pos 0
bytes_of-no_bytes ingress = refl
bytes_of-no_bytes egress = refl
bytes_of-no_bytes dropped = refl
bytes_of-no_bytes capacity = refl

table_sum-append :
    (k : Count) (ts us : List Tick) → table_sum k (ts ++ us) ≡ table_sum k ts +ℤ table_sum k us
table_sum-append k [] us = sym (zero-+ℤ _)
table_sum-append k (t ∷ ts) us = rw (table_sum-append k ts us) (omega int_laws)

table_sum-quiet_ticks : (k : Count) (n : ℕ) (t q : ℤ) → table_sum k (quiet_ticks n t q) ≡ pos 0
unfolding quiet_ticks
table_sum-quiet_ticks k zero t q = refl
table_sum-quiet_ticks k (suc n) t q =
    rw (table_sum-quiet_ticks k n (t +ℤ pos 1) q, bytes_of-no_bytes k) (zero-+ℤ _)

held-close_ticks : (k : Count) (tick : ℤ) (s : SimpleState) → held k (close_ticks tick s) ≡ held k s
unfolding close_ticks
held-close_ticks k tick s =
    elim (Bool-cases (ltb_ℤ s.tick_last tick && not (eqb_ℤ s.tick_last (pos 0)))) [
      | inl late ↦
          rw (late, table_sum-append k, table_sum-quiet_ticks k, bytes_of-no_bytes k)
            (omega int_laws)
      | inr early ↦ rw early
    ]

bytes_of-add_bytes :
    (k j : Count) (n : ℤ) (b : Bytes)
    → bytes_of k (add_bytes j n b) ≡ bytes_of k b +ℤ event_bytes k (some (j, n))
bytes_of-add_bytes ingress ingress n b = refl
bytes_of-add_bytes egress egress n b = refl
bytes_of-add_bytes dropped dropped n b = refl
bytes_of-add_bytes capacity capacity n b = refl
bytes_of-add_bytes ingress egress n b = sym (+ℤ-zero _)
bytes_of-add_bytes ingress dropped n b = sym (+ℤ-zero _)
bytes_of-add_bytes ingress capacity n b = sym (+ℤ-zero _)
bytes_of-add_bytes egress ingress n b = sym (+ℤ-zero _)
bytes_of-add_bytes egress dropped n b = sym (+ℤ-zero _)
bytes_of-add_bytes egress capacity n b = sym (+ℤ-zero _)
bytes_of-add_bytes dropped ingress n b = sym (+ℤ-zero _)
bytes_of-add_bytes dropped egress n b = sym (+ℤ-zero _)
bytes_of-add_bytes dropped capacity n b = sym (+ℤ-zero _)
bytes_of-add_bytes capacity ingress n b = sym (+ℤ-zero _)
bytes_of-add_bytes capacity egress n b = sym (+ℤ-zero _)
bytes_of-add_bytes capacity dropped n b = sym (+ℤ-zero _)

held-count_bytes :
    (k : Count) (c : Option (Count × ℤ)) (s : SimpleState)
    → held k (count_bytes c s) ≡ held k s +ℤ event_bytes k c
unfolding count_bytes
held-count_bytes k none s = sym (+ℤ-zero _)
held-count_bytes k (some (j, n)) s = rw (bytes_of-add_bytes k j n s.bytes_ms_last) (omega int_laws)

held-apply_simple_event :
    (k : Count) (e : SimpleEvent) (s : SimpleState)
    → held k (apply_simple_event e s) ≡ held k s +ℤ event_bytes k e.counted
unfolding apply_simple_event
held-apply_simple_event k e s =
    held-count_bytes k e.counted
      (record (close_ticks e.tick s) { tick_last = e.tick; qsize_last = e.queue_size })
    ∙ ap (λ x. x +ℤ event_bytes k e.counted) (held-close_ticks k e.tick s)

queue-close_ticks : (tick : ℤ) (s : SimpleState) → (close_ticks tick s).queue ≡ s.queue
unfolding close_ticks
queue-close_ticks tick s =
    elim (Bool-cases (ltb_ℤ s.tick_last tick && not (eqb_ℤ s.tick_last (pos 0)))) [
      | inl late ↦ rw late
      | inr early ↦ rw early
    ]

queue-count_bytes : (c : Option (Count × ℤ)) (s : SimpleState) → (count_bytes c s).queue ≡ s.queue
unfolding count_bytes
queue-count_bytes none s = refl
queue-count_bytes (some (j, n)) s = refl

pub limit-apply_simple_line :
    (l : SimpleLine) (s : SimpleState)
    → (apply_simple_line l s).queue.qsize_limit ≡ limit_after l s.queue.qsize_limit
unfolding apply_simple_line apply_simple_event
limit-apply_simple_line (timestamp_line t) s = refl
limit-apply_simple_line (queue_line q) s = refl
limit-apply_simple_line (operation_line e) s =
    ap (λ q. q.qsize_limit) (queue-count_bytes e.counted _ ∙ queue-close_ticks e.tick s)
limit-apply_simple_line skipped_line s = refl

held-apply_simple_line :
    (k : Count) (l : SimpleLine) (s : SimpleState)
    → held k (apply_simple_line l s) ≡ held k s +ℤ log_bytes k (l ∷ [])
unfolding apply_simple_line
held-apply_simple_line k (timestamp_line t) s = sym (+ℤ-zero _)
held-apply_simple_line k (queue_line q) s = sym (+ℤ-zero _)
held-apply_simple_line k (operation_line e) s =
    held-apply_simple_event k e s ∙ ap (λ x. held k s +ℤ x) (sym (+ℤ-zero _))
held-apply_simple_line k skipped_line s = sym (+ℤ-zero _)

log_bytes-cons :
    (k : Count) (l : SimpleLine) (ls : List SimpleLine)
    → log_bytes k (l ∷ ls) ≡ log_bytes k (l ∷ []) +ℤ log_bytes k ls
log_bytes-cons k (timestamp_line t) ls = sym (zero-+ℤ _)
log_bytes-cons k (queue_line q) ls = sym (zero-+ℤ _)
log_bytes-cons k (operation_line e) ls = rw (+ℤ-zero (event_bytes k e.counted))
log_bytes-cons k skipped_line ls = sym (zero-+ℤ _)

held-simple_loop :
    (match_queue : QueueMatch) (lines : List Text) (s t : SimpleState)
    → simple_loop match_queue lines s ≡ ok t
    → (ls : List SimpleLine) × (read_simple_log match_queue s.queue.qsize_limit lines ≡ ok ls)
      × ((k : Count) → held k t ≡ held k s +ℤ log_bytes k ls)
unfolding simple_loop read_simple_log
held-simple_loop match_queue [] s t h = ([], refl, λ k. rw (ok-injective h) (sym (+ℤ-zero _)))
held-simple_loop match_queue (line ∷ lines) s t h =
    let (l, now, later) = >>=-eq-ok (read_simple_line match_queue s.queue.qsize_limit line) _ h in
    let (ls, rest, sums) = held-simple_loop match_queue lines (apply_simple_line l s) t later in
    (
      l ∷ ls,
      rw (now, rw (limit-apply_simple_line l s) at rest),
      λ k. sums k ∙ rw (held-apply_simple_line k l s, log_bytes-cons k l ls) (omega int_laws),
    )

table_sum-shifted :
    (k : Count) (d : ℤ) (ts : List Tick)
    → table_sum k (map (λ (t : Tick). record t { time = t.time +ℤ d }) ts) ≡ table_sum k ts
table_sum-shifted k d [] = refl
table_sum-shifted k d (t ∷ ts) = ap (λ x. bytes_of k t.bytes +ℤ x) (table_sum-shifted k d ts)

held-finish :
    (k : Count) (s : SimpleState) (r : Parsed) → finish s ≡ ok r → table_sum k r.table ≡ held k s
unfolding finish
held-finish k s r h = elim (Option-cases s.queue.qsize_limit) [
  | inl e ↦ cc (rw e at h)
  | inr (n, e) ↦
      rw (← ok-injective (rw e at h), table_sum-shifted k s.init_timestamp, table_sum-append k)
        (omega int_laws)
]

-- If `parse_lines` returns a table, then it has read the whole log, and each column of the
-- table (bytes that arrived, left, were dropped, could have left) adds up to the bytes of the log's
-- operations of that kind.
pub parse_lines-log_bytes :
    (match_queue : QueueMatch) (lines : List Text) (r : Parsed)
    → parse_lines match_queue lines ≡ ok r
    → (ls : List SimpleLine) × (read_simple_log match_queue none lines ≡ ok ls)
      × ((k : Count) → table_sum k r.table ≡ log_bytes k ls)
unfolding parse_lines
parse_lines-log_bytes match_queue lines r h =
    let (s, looped, ended) = >>=-eq-ok (simple_loop match_queue lines simple_start) _ h in
    let (ls, read, sums) = held-simple_loop match_queue lines simple_start s looped in
    (ls, read, λ k. held-finish k s r ended ∙ sums k ∙ rw (bytes_of-no_bytes k) (omega int_laws))
