-- ===== src/Vatic/Limits.antt =====
-- The limits that the sender of Vatic.cpp keeps to, and its learning from round-trip times.
use vatic_udp.Prelude.{
  ℕ, ◌-◌, ◌≤◌, ◌<◌, List, [], ◌∷◌, ◌≡◌, arith, ◌==◌, some, length, length-map, map, Bool-cases,
  Option-cases, inl, inr,
}
use vatic_udp.Vatic.{u32, bytes_in, free_of, Conf, Clusters, Sample, Sender}
use vatic_udp.Vatic.Floating.{Doubles, Lawful}
use vatic_udp.Vatic.Centroids.{
  learn, cluster, push_sample, drop_last, update_alpha, count_high, relabel, rtt_feature,
}
use vatic_udp.Vatic.Inflight.{Between}

-- What the sender's options promise.
pub record Proper {fl : Doubles} (conf : Conf fl) : Type 0 where
  pub init_pos : 0 < conf.init_cwnd
  pub init_le : conf.init_cwnd ≤ conf.cwnd_max
  pub max_fits : conf.cwnd_max < u32
  pub backlog_pos : 0 < conf.backlog_len
  pub buffer_fits : conf.buffer_size < u32

module _ (fl : Doubles) (law : Lawful fl) where
  pub record Learned (conf : Conf fl) (c : Clusters fl) : Type 0 where
    pub unit : law.IsUnit c.alpha
    pub backlog_le : length c.backlog ≤ conf.backlog_len

  -- The window's size keeps to its limits, its two counters agree with the packets in flight, which
  -- stay below the largest size, and every later packet has a larger id.
  pub record Valid (conf : Conf fl) (s : Sender fl) : Type 0 where
    pub size_ge : conf.init_cwnd ≤ s.cwnd.size
    pub size_le : s.cwnd.size ≤ conf.cwnd_max
    pub used_eq : s.cwnd.used ≡ bytes_in s.cwnd.inflight
    pub free_eq : s.cwnd.free ≡ free_of s.cwnd.size s.cwnd.used
    pub used_le : s.cwnd.used ≤ conf.cwnd_max
    pub ordered : Between 1 s.curr_pkt_id s.cwnd.inflight
    pub buffer_le : s.buffer_offset ≤ conf.buffer_size
    pub learned : Learned conf s.clusters

module _ {fl : Doubles} (law : Lawful fl) (conf : Conf fl) (proper : Proper conf) where
  count_high-le : (b : List (Sample fl)) → count_high fl b ≤ length b
  unfolding count_high
  count_high-le [] = omega arith
  count_high-le (x ∷ b) = ground (arith, count_high-le b)

  update_alpha-IsUnit : (b : List (Sample fl)) → 0 < length b → law.IsUnit (update_alpha fl b)
  unfolding update_alpha
  update_alpha-IsUnit b h = law.ratio-IsUnit (count_high fl b) (length b) (count_high-le b) h

  length-drop_last : (b : List (Sample fl)) → length (drop_last b) ≡ length b - 1
  unfolding drop_last
  length-drop_last [] = omega arith
  length-drop_last (x ∷ []) = omega arith
  length-drop_last (x ∷ y ∷ b) = omega (arith, length-drop_last (y ∷ b))

  length-push_sample :
      (x : fl.Double) (b : List (Sample fl))
      → length b ≤ conf.backlog_len
      → (0 < length (push_sample fl conf.backlog_len x b))
        × (length (push_sample fl conf.backlog_len x b) ≤ conf.backlog_len)
  unfolding push_sample
  length-push_sample x b h = elim (Bool-cases (length b == conf.backlog_len)) [
    | inl full ↦ rw full (ground (arith, length-drop_last b, proper.backlog_pos))
    | inr room ↦ rw room (ground arith)
  ]

  -- With both centroids, each sample has a label and alpha is counted again.
  relabelled :
      (c : Clusters fl) (c1 c2 d1 d2 far : fl.Double)
      → 0 < length c.backlog
      → Learned fl law conf c
      → Learned fl law conf (record {
        backlog = map (relabel fl c1 c2) c.backlog;
        first = some d1;
        second = some d2;
        max_cent_dist = far;
        alpha = update_alpha fl (map (relabel fl c1 c2) c.backlog);
      })
  relabelled c c1 c2 d1 d2 far pos l =
      let len = length-map c.backlog (relabel fl c1 c2) in
      record {
        unit = update_alpha-IsUnit (map (relabel fl c1 c2) c.backlog) (rw len pos);
        backlog_le = rw len l.backlog_le;
      }

  cluster-Learned :
      (x : fl.Double) (c : Clusters fl)
      → 0 < length c.backlog
      → Learned fl law conf c
      → Learned fl law conf (cluster fl x c)
  unfolding cluster
  cluster-Learned x c pos l = elim (Option-cases c.first) [
    | inl e ↦ rw e (record { unit = l.unit; backlog_le = l.backlog_le })
    | inr (c1, e) ↦ elim (Option-cases c.second) [
      | inl d ↦ elim (Bool-cases (fl.lt (fl.tenth_more c1) x)) [
        | inl above ↦ rw (e, d, above) (record { unit = l.unit; backlog_le = l.backlog_le })
        | inr near ↦ elim (Bool-cases (fl.lt x (fl.tenth_less c1))) [
          | inl below ↦ rw (e, d, near, below) (record { unit = l.unit; backlog_le = l.backlog_le })
          | inr between ↦
              rw (e, d, near, between) (record { unit = l.unit; backlog_le = l.backlog_le })
        ]
      ]
      | inr (c2, d) ↦ rw (e, d) (relabelled c c1 c2 _ _ _ pos l)
    ]
  ]

  -- With options that are `Proper`, a backlog that is not too long and an alpha between 0 and 1
  -- stay so when a round-trip time is learned.
  pub learn-Learned :
      (rtt : ℕ) (c : Clusters fl)
      → Learned fl law conf c
      → Learned fl law conf (learn fl conf rtt c)
  unfolding learn
  learn-Learned rtt c l =
      let x = fl.of_u32 (rtt_feature fl conf.preprocess rtt) in
      let len = length-push_sample x c.backlog l.backlog_le in
      cluster-Learned x (record c { backlog = push_sample fl conf.backlog_len x c.backlog }) len.0
        (record { unit = l.unit; backlog_le = len.1 })
