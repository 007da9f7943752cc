-- ===== src/Vatic/Window.antt =====
-- The congestion window of Vatic.cpp: an invariant of the sender, and what each operation does to it.
use vatic_udp.Prelude.{
  ℕ, suc, ◌+◌, ◌≤◌, ◌<◌, List, [], ◌++◌, append-nil, ◌≡◌, refl, sym, arith, Bool, true, false, ◌==◌,
  some, Bool-cases, inl, inr,
}
use vatic_udp.Vatic.{u64, Packet, Cwnd, bytes_in, Conf, Sender, start}
use vatic_udp.Vatic.Floating.{Doubles, Lawful}
use vatic_udp.Vatic.Sending.{refresh, filled, send_loop, send_pdus, receive_sdu}
use vatic_udp.Vatic.Acks.{resize, find_packet, acknowledge, report_ack, next_size}
use vatic_udp.Vatic.Centroids.{learn}
use vatic_udp.Vatic.Limits.{Proper, Valid, learn-Learned}
use vatic_udp.Vatic.Inflight
use vatic_udp.Vatic.Inflight.{Between, later}
use vatic_udp.Vatic.Burst.{Burst, Burst-nil, Sent, send_loop-Sent}

module _ {fl : Doubles} (law : Lawful fl) (conf : Conf fl) (proper : Proper conf) where
  pub start-Valid : (now : ℕ) → Valid fl law conf (start fl conf now)
  unfolding start
  start-Valid now = record {
    size_ge = omega arith;
    size_le = proper.init_le;
    used_eq = refl;
    free_eq = ground (arith, proper.init_pos);
    used_le = omega arith;
    ordered = omega arith;
    buffer_le = omega arith;
    learned = record { unit = law.half-IsUnit; backlog_le = omega arith };
  }

  pub receive_sdu-Valid :
      (n : ℕ) (s : Sender fl) → Valid fl law conf s → Valid fl law conf (receive_sdu fl conf n s).1
  unfolding receive_sdu
  receive_sdu-Valid n s v = ground (arith, v.buffer_le, proper.buffer_fits)

  -- All free bytes are in flight, in as few packets as possible.
  pub record Filled (now : ℕ) (s s' : Sender fl) : Type 0 where
    pub new : List Packet
    pub inflight_eq : s'.cwnd.inflight ≡ s.cwnd.inflight ++ new
    pub burst : Burst now s.curr_pkt_id s'.curr_pkt_id s.cwnd.free new
    pub size_eq : s'.cwnd.size ≡ s.cwnd.size
    pub full : s'.cwnd.free ≡ 0
    pub valid : Valid fl law conf s'

  -- The counters, in 32 bits, of packets that fit the largest window
  refresh-used :
      (ps : List Packet) (w : Cwnd)
      → bytes_in ps ≤ conf.cwnd_max
      → (refresh ps w).used ≡ bytes_in ps
  refresh-used ps w h = omega (arith, proper.max_fits)

  refresh-Valid :
      (ps : List Packet) (s : Sender fl) (id : ℕ) (s' : Sender fl)
      → Valid fl law conf s
      → bytes_in ps ≤ conf.cwnd_max
      → Between 1 id ps
      → s'.cwnd ≡ refresh ps s.cwnd
      → s'.curr_pkt_id ≡ id
      → s'.buffer_offset ≡ s.buffer_offset
      → s'.clusters ≡ s.clusters
      → Valid fl law conf s'
  refresh-Valid ps s id s' v h ordered w next buffer clusters =
      let used = refresh-used ps s.cwnd h in
      record {
        size_ge = rw w v.size_ge;
        size_le = rw w v.size_le;
        used_eq = rw w used;
        free_eq = rw w refl;
        used_le = rw w (rw used h);
        ordered = rw (w, next) ordered;
        buffer_le = rw buffer v.buffer_le;
        learned = rw clusters v.learned;
      }

  -- With options that are `Proper`, from a valid state, and while the ids stay below 2 ^ 64,
  -- `send_pdus` leaves all free bytes of the window in flight, in as few packets as possible behind
  -- those that were there, and a valid state that has a window of the same size and no free byte.
  pub send_pdus-Filled :
      (now : ℕ) (s : Sender fl)
      → Valid fl law conf s
      → s.curr_pkt_id + s.cwnd.free < u64
      → Filled now s (send_pdus fl now s)
  unfolding send_pdus
  send_pdus-Filled now s v bound = elim (Bool-cases (s.cwnd.free == 0)) [
    | inl full ↦
        let none_free : s.cwnd.free ≡ 0 = ground arith in
        rw full (record {
          new = [];
          inflight_eq = sym (append-nil {A = Packet} s.cwnd.inflight);
          burst = rw none_free (Burst-nil now s.curr_pkt_id);
          size_eq = refl;
          full = none_free;
          valid = v;
        })
    | inr room ↦ rw room (
        after (send_loop now s.cwnd.free s.cwnd.free s.curr_pkt_id s.cwnd.inflight) (
          send_loop-Sent now s.cwnd.free s.cwnd.free s.curr_pkt_id 1 s.cwnd.inflight (omega arith)
            v.ordered bound))
  ]
    where
      after :
          (r : ℕ × List Packet)
          → Sent now s.cwnd.free s.curr_pkt_id s.cwnd.inflight r
          → Filled now s (filled fl now s r)
      after r (hi, new, e, b) =
          let ps = s.cwnd.inflight ++ new in
          let s' = filled fl now s (hi, ps) in
          let total = Inflight.bytes_in-append s.cwnd.inflight new in
          let bound' : bytes_in ps ≤ conf.cwnd_max =
            ground (arith, total, b.bytes, v.free_eq, v.used_eq, v.used_le, v.size_le) in
          let used = refresh-used ps s.cwnd bound' in
          let ordered =
            Inflight.Between-append 1 s.curr_pkt_id hi s.cwnd.inflight new v.ordered b.ordered in
          let no_room : s'.cwnd.free ≡ 0 =
            rw used (ground (arith, total, b.bytes, v.free_eq, v.used_eq)) in
          rw e (record {
            new = new;
            inflight_eq = refl;
            burst = b;
            size_eq = refl;
            full = no_room;
            valid = refresh-Valid ps s hi s' v bound' ordered refl refl refl refl;
          })

  pub acknowledge-Valid :
      (now id : ℕ) (p : Packet) (s : Sender fl)
      → find_packet id s.cwnd.inflight ≡ some p
      → Valid fl law conf s
      → Valid fl law conf (acknowledge fl now p s)
  unfolding acknowledge
  acknowledge-Valid now id p s e v =
      let same : p.id ≡ id = Inflight.find_packet-id id s.cwnd.inflight p e in
      let newer = Inflight.find_packet-lt id 1 s.curr_pkt_id s.cwnd.inflight p v.ordered e in
      let left = Inflight.keep_from-erase id s.cwnd.inflight in
      let ordered = Inflight.later-Between id 1 s.curr_pkt_id s.cwnd.inflight v.ordered newer.1 in
      refresh-Valid (later id s.cwnd.inflight) s s.curr_pkt_id (acknowledge fl now p s) v
        (omega (arith, Inflight.bytes_in-later-le id s.cwnd.inflight, v.used_le, v.used_eq))
        (Inflight.Between-mono 1 (suc id) s.curr_pkt_id (later id s.cwnd.inflight) (omega arith)
          ordered)
        (rw (same, left)) refl refl refl

  -- The new sizes, in the limits
  next_size_bounds :
      (alpha : fl.Double) (size : ℕ)
      → law.IsUnit alpha
      → conf.init_cwnd ≤ size
      → size ≤ conf.cwnd_max
      → (conf.init_cwnd ≤ next_size fl conf alpha size)
        × (next_size fl conf alpha size ≤ conf.cwnd_max)
  unfolding next_size
  next_size_bounds alpha size u lo hi =
      ground (arith, law.shrink-le alpha size u, proper.init_le, proper.max_fits)

  -- A new size keeps the packets, and so what depends on them.
  resize-Valid :
      (now size : ℕ) (s : Sender fl)
      → conf.init_cwnd ≤ size
      → size ≤ conf.cwnd_max
      → Valid fl law conf s
      → Valid fl law conf (resize fl now size s)
  resize-Valid now size s lo hi v = record {
    size_ge = lo;
    size_le = hi;
    used_eq = v.used_eq;
    free_eq = refl;
    used_le = v.used_le;
    ordered = v.ordered;
    buffer_le = v.buffer_le;
    learned = v.learned;
  }

  pub report_ack-Valid :
      (now rtt : ℕ) (loss : Bool) (s : Sender fl)
      → Valid fl law conf s
      → Valid fl law conf (report_ack fl conf now rtt loss s)
  unfolding report_ack
  report_ack-Valid now rtt true s v =
      let shrunk = law.shrink-le s.clusters.alpha s.cwnd.size v.learned.unit in
      resize-Valid now _ s (ground arith) (ground (arith, shrunk, v.size_le, proper.init_le)) v
  report_ack-Valid now rtt false s v =
      let l = learn-Learned law conf proper rtt s.clusters v.learned in
      let c = learn fl conf rtt s.clusters in
      let bounds = next_size_bounds c.alpha s.cwnd.size l.unit v.size_ge v.size_le in
      resize-Valid now (next_size fl conf c.alpha s.cwnd.size) _ bounds.0 bounds.1 (record {
        size_ge = v.size_ge;
        size_le = v.size_le;
        used_eq = v.used_eq;
        free_eq = v.free_eq;
        used_le = v.used_le;
        ordered = v.ordered;
        buffer_le = v.buffer_le;
        learned = l;
      })
