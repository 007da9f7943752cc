-- ===== src/Vatic/Acks.antt =====
-- `Receive` and `ReportAck` of Vatic.cpp.
use vatic_udp.Prelude.{
  ℕ, ◌+◌, ◌-◌, ◌*◌, ◌/◌, ◌%◌, List, [], ◌∷◌, ◌++◌, Bool, false, ltb, leb, ◌==◌, ◌||◌, if◌then◌else◌,
  Option, none, some,
}
use vatic_udp.Vatic.{u32, Packet, Cwnd, free_of, log_of, Conf, Sender}
use vatic_udp.Vatic.Floating.{Doubles}
use vatic_udp.Vatic.Sending.{min, max, refresh}
use vatic_udp.Vatic.Centroids.{learn, both_known}

-- `m_timeSentInflight.at(id)`, or none if the id is not in flight
unfoldable pub find_packet : ℕ → List Packet → Option Packet
find_packet id [] = none
find_packet id (p ∷ ps) = let rest = find_packet id ps in if p.id == id then some p else rest

-- `erase(id)`
unfoldable pub erase : ℕ → List Packet → List Packet
erase id [] = []
erase id (p ∷ ps) = let rest = erase id ps in if p.id == id then rest else p ∷ rest

-- The loop over the packets in flight: those before `id` are taken out.
unfoldable pub keep_from : ℕ → List Packet → List Packet
keep_from id [] = []
keep_from id (p ∷ ps) = let rest = keep_from id ps in if leb id p.id then p ∷ rest else rest

-- `losses`
unfoldable pub any_before : ℕ → List Packet → Bool
any_before id [] = false
any_before id (p ∷ ps) = ltb p.id id || any_before id ps

-- `m_cwndSize += (m_cwndMax - m_cwndSize) / 2.0`: the difference is taken in 32 bits; the sum is exact
-- in a double and is cut to 32 bits.
abbrev pub grow : ℕ → ℕ → ℕ
grow top size = (size * 2 + (top + u32 - size) % u32) / 2 % u32

abbrev pub resized : ℕ → Cwnd → Cwnd
resized size w = record w { size = size; free = free_of size w.used }

module _ (fl : Doubles) where
  open fl use {lt, shrink}

  abbrev pub resize : ℕ → ℕ → Sender fl → Sender fl
  resize now size s =
      let w = resized size s.cwnd in
      record s { cwnd = w; log_cwnds = s.log_cwnds ++ log_of now w ∷ [] }

  -- The new size of the window.
  unfoldable pub next_size : Conf fl → fl.Double → ℕ → ℕ
  next_size conf alpha size =
      if lt conf.alpha_thres alpha
      then max (shrink alpha size) conf.init_cwnd
      else min (grow conf.cwnd_max size) conf.cwnd_max

  -- `ReportAck`
  unfoldable pub report_ack : Conf fl → ℕ → ℕ → Bool → Sender fl → Sender fl
  unfolding learn next_size
  report_ack conf now rtt loss s =
      if loss
      then resize now (max (shrink s.clusters.alpha s.cwnd.size) conf.init_cwnd) s
      else (let c = learn fl conf rtt s.clusters in
          resize now (next_size conf c.alpha s.cwnd.size) (record s {
            clusters = c;
            log_alpha =
                if both_known fl s.clusters
                then s.log_alpha ++ s.clusters.alpha ∷ []
                else s.log_alpha;
            log_centroids = s.log_centroids ++ (c.first, c.second) ∷ [];
          }))

  -- The part of `Receive` that holds the lock, for the packet `p` that was in flight; the clock does
  -- not run backwards.
  unfoldable pub acknowledge : ℕ → Packet → Sender fl → Sender fl
  unfolding erase keep_from
  acknowledge now p s =
      let w = refresh (keep_from p.id (erase p.id s.cwnd.inflight)) s.cwnd in
      record s {
        cwnd = w;
        log_rtts = s.log_rtts ++ record { time = now; rtt = (now - p.sent) % u32; id = p.id } ∷ [];
        log_cwnds = s.log_cwnds ++ log_of now w ∷ [];
      }

  -- `Receive`, from whether the packet is an `ACK` and its id; times are milliseconds. At an id that is
  -- not in flight `.at()` throws, which nothing catches: the process ends, and there is no state.
  unfoldable pub receive : Conf fl → ℕ → Bool → ℕ → Sender fl → Option (Sender fl)
  unfolding find_packet acknowledge any_before report_ack
  receive conf now is_ack id s =
      if is_ack
      then elim (find_packet id s.cwnd.inflight) [
        | none ↦ none
        | some p ↦ some (
            report_ack conf now ((now - p.sent) % u32) (any_before id (erase id s.cwnd.inflight))
              (acknowledge now p s))
      ]
      else some s
