-- ===== src/Vatic/Centroids.antt =====
-- The backlog of round-trip times in Vatic.cpp: its two centroids, and the share of the samples that
-- lie near the higher one.
use vatic_udp.Prelude.{
  ℕ, ◌+◌, List, [], ◌∷◌, Bool, true, false, ltb, ◌==◌, if◌then◌else◌, none, some, length, map,
}
use vatic_udp.Vatic.{
  Preprocess, plain, exponential, hyperbolic, Label, low, high, invalid, Conf, Sample, Clusters,
}
use vatic_udp.Vatic.Floating.{Doubles}

-- `pop_back`
unfoldable pub drop_last {ℓ} : {A : Type ℓ} → List A → List A
drop_last [] = []
drop_last (x ∷ []) = []
drop_last (x ∷ y ∷ xs) = x ∷ drop_last (y ∷ xs)

abbrev pub is_high : Label → Bool
is_high high = true
is_high low = false
is_high invalid = false

abbrev pub is_low : Label → Bool
is_low low = true
is_low high = false
is_low invalid = false

module _ (fl : Doubles) where
  open fl use {
    Double, of_u32, exp_u32, tanh_u32, tenth_more, tenth_less, dist, add, over, ratio, lt, le,
  }

  -- `rtt_feature`, which has the type of `rttms`: 32 bits. It is always finite.
  abbrev pub rtt_feature : Preprocess → ℕ → ℕ
  rtt_feature plain rtt = rtt
  rtt_feature exponential rtt = exp_u32 rtt
  rtt_feature hyperbolic rtt = tanh_u32 rtt

  -- A new sample at the front, and no more than `len` of them.
  unfoldable pub push_sample : ℕ → Double → List (Sample fl) → List (Sample fl)
  unfolding drop_last
  push_sample len x b =
      record { feature = x; label = invalid } ∷ (if length b == len then drop_last b else b)

  abbrev pub relabel : Double → Double → Sample fl → Sample fl
  relabel c1 c2 item = record item {
    label = if le (dist item.feature c1) (dist item.feature c2) then low else high;
  }

  -- The sum and the count of the samples that pass the test, from the front on.
  unfoldable pub sum_where : (Label → Bool) → Double → ℕ → List (Sample fl) → Double × ℕ
  sum_where test acc n [] = (acc, n)
  sum_where test acc n (item ∷ items) =
      let taken = sum_where test (add acc item.feature) (n + 1) items in
      let passed = sum_where test acc n items in if test item.label then taken else passed

  -- The mean of the samples, or the old centroid if there are none.
  abbrev pub mean_or : Double → Double × ℕ → Double
  mean_or old (acc, n) = if ltb 0 n then over acc n else old

  -- `RecomputeCentroids`, from both centroids and the labelled backlog: the result is the centroids
  -- and their distance.
  unfoldable pub recompute_centroids :
      List (Sample fl) → Double → Double → Double → Double × Double × Double
  unfolding sum_where
  recompute_centroids b c1 c2 max_cent_dist =
      let aux0 = mean_or c1 (sum_where is_low (of_u32 0) 0 b) in
      let aux1 =
        mean_or c2
          (sum_where (λ l. elim (is_low l) [ true ↦ false | false ↦ true ]) (of_u32 0) 0 b) in
      if lt max_cent_dist (dist aux0 aux1)
      then (aux0, aux1, dist aux0 aux1)
      else (c1, c2, max_cent_dist)

  -- `highCtr`
  unfoldable pub count_high : List (Sample fl) → ℕ
  count_high [] = 0
  count_high (item ∷ items) = (if is_high item.label then 1 else 0) + count_high items

  -- `UpdateAlpha`
  unfoldable pub update_alpha : List (Sample fl) → Double
  unfolding count_high
  update_alpha b = ratio (count_high b) (length b)

  -- The three cases of the centroids, once the sample `x` is in the backlog.
  unfoldable pub cluster : Double → Clusters fl → Clusters fl
  unfolding recompute_centroids update_alpha
  cluster x c = elim c.first [
    | none ↦ record c { first = some x }
    | some c1 ↦ elim c.second [
      | none ↦
          if lt (tenth_more c1) x
          then record c { second = some x }
          else if lt x (tenth_less c1)
          then record c { first = some x; second = some c1 }
          else c
      | some c2 ↦
          let b = map (relabel c1 c2) c.backlog in
          let (d1, d2, far) = recompute_centroids b c1 c2 c.max_cent_dist in
          record {
            backlog = b;
            first = some d1;
            second = some d2;
            max_cent_dist = far;
            alpha = update_alpha b;
          }
    ]
  ]

  -- The part of `ReportAck` that learns from a round-trip time.
  unfoldable pub learn : Conf fl → ℕ → Clusters fl → Clusters fl
  unfolding push_sample cluster
  learn conf rtt c =
      let x = of_u32 (rtt_feature conf.preprocess rtt) in
      cluster x (record c { backlog = push_sample conf.backlog_len x c.backlog })

  -- Whether both centroids stand before, so that `m_alpha` is logged and updated.
  abbrev pub both_known : Clusters fl → Bool
  both_known c = elim c.first [
    | none ↦ false
    | some c1 ↦ elim c.second [ none ↦ false | some c2 ↦ true ]
  ]
