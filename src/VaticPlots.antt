-- ===== src/VaticPlots.antt =====
-- PlotvaticTrace.py: the curves that are drawn from the logs of Vatic's sender and receiver.
pub mod Groups
pub mod Missing
use vatic_udp.Prelude.{
  ℕ, List, [], ◌∷◌, ◌++◌, map, Bool, true, false, not, if◌then◌else◌, Option, none, some, ℤ, pos,
  negsuc, Result, ok, err, or_raise, ◌>>=◌, ◌>>◌, value_error, unbound_local_error,
}
use vatic_udp.Py.Text.{Text, codes, split}
use vatic_udp.Py.Floats.{Floats, float_quotient}

-- What the plots do with floats besides.
pub record Comparing (fl : Floats) : Type 0 where
  pub add : fl.Float → fl.Float → fl.Float
  -- `x < y`
  pub less : fl.Float → fl.Float → Bool

-- The content of a file, or what `open` raises
abbrev pub Files : Type 0
Files = Text → Result (List Text)

-- `os.path.isfile`: a file is one that can be opened.
unfoldable pub is_file : Files → Text → Bool
is_file files path = elim (files path) [ ok lines ↦ true | err e ↦ false ]

-- `'{}/{}_….dat'.format(dataPath, filePrefix)`
unfoldable pub log_path : Text → Text → Text → Text
unfolding codes
log_path dir prefix name = dir ++ codes "/" ++ prefix ++ codes "_" ++ name ++ codes ".dat"

module _ (fl : Floats) (cmp : Comparing fl) where
  open fl use {Float, of_int, parse_float, sub, mul, div}

  -- A curve: its points' places on both axes
  pub record Curve : Type 0 where
    pub xs : List Float
    pub ys : List Float

  -- `[float(x) for x in line.split('\t')]`
  unfoldable pub read_fields : List Text → Result (List Float)
  read_fields [] = ok []
  read_fields (t ∷ ts) = do x ← parse_float t; xs ← read_fields ts; ok (x ∷ xs)

  unfoldable pub read_row : Text → Result (List Float)
  unfolding read_fields split
  read_row line = read_fields (split line b'\t')

  abbrev pub unpack_two : List Float → Result (Float × Float)
  unpack_two (a ∷ b ∷ []) = ok (a, b)
  unpack_two _ = err value_error

  abbrev pub unpack_three : List Float → Result (Float × Float × Float)
  unpack_three (a ∷ b ∷ c ∷ []) = ok (a, b, c)
  unpack_three _ = err value_error

  abbrev pub unpack_four : List Float → Result (Float × Float × Float × Float)
  unpack_four (a ∷ b ∷ c ∷ d ∷ []) = ok (a, b, c, d)
  unpack_four _ = err value_error

  -- The local variables of `PlotThput`; the last time is unbound before the first line.
  pub record BinState : Type 0 where
    pub bw : List Float
    pub times : List Float
    pub cnt : Float
    pub next_time : Float
    pub time : Option Float

  abbrev pub bins_start : BinState
  bins_start = record {
    bw = [];
    times = [];
    cnt = of_int (pos 0);
    next_time = of_int (negsuc 0);
    time = none;
  }

  -- `nBits/(plotStepMs*1e3)`
  abbrev pub rate : ℤ → Float → Result Float
  rate step cnt =
      float_quotient fl (mul cnt (of_int (pos 8))) (mul (of_int step) (of_int (pos 1000)))

  -- The first line sets the end of the first bin.
  abbrev pub first_end : ℤ → Float → BinState → Float
  first_end step time s =
      if cmp.less s.next_time (of_int (pos 0)) then cmp.add time (of_int step) else s.next_time

  -- The body of the loop.
  unfoldable pub add_packet : ℤ → ℤ → Float → Float → BinState → Result BinState
  add_packet base step time size s =
      let end = first_end step time s in
      if cmp.less end time
      then (do
        r ← rate step s.cnt
        ok (record {
          bw = s.bw ++ r ∷ [];
          times = s.times ++ sub time (of_int base) ∷ [];
          cnt = size;
          next_time = cmp.add end (of_int step);
          time = some time;
        }))
      else ok (record s { cnt = cmp.add s.cnt size; next_time = end; time = some time })

  unfoldable pub thput_loop : ℤ → ℤ → List Text → BinState → Result BinState
  unfolding read_row add_packet
  thput_loop base step [] s = ok s
  thput_loop base step (line ∷ lines) s = do
    row ← read_row line
    (idx, time, size) ← unpack_three row
    s' ← add_packet base step time size s
    thput_loop base step lines s'

  abbrev pub seconds : List Float → List Float
  seconds = map (λ t. div t (of_int (pos 1000)))

  -- `PlotThput`, from the lines of its file
  unfoldable pub plot_thput : ℤ → ℤ → List Text → Result Curve
  unfolding thput_loop
  plot_thput base step lines = do
    s ← thput_loop base step lines bins_start
    r ← rate step s.cnt
    time ← or_raise unbound_local_error s.time
    ok (record { xs = seconds (s.times ++ sub time (of_int base) ∷ []); ys = s.bw ++ r ∷ [] })

  -- `max(xs)`, which raises for an empty list
  unfoldable pub largest_of : Float → List Float → Float
  largest_of m [] = m
  largest_of m (x ∷ xs) = largest_of (if cmp.less m x then x else m) xs

  unfoldable pub largest : List Float → Result Float
  unfolding largest_of
  largest [] = err value_error
  largest (x ∷ xs) = ok (largest_of x xs)

  -- The times, behind a base, and the other fields of a log's rows
  unfoldable pub columns :
      {F : Type 0}
      → (List Float → Result (Float × F))
      → ℤ
      → List Text
      → Result (List Float × List F)
  unfolding read_row
  columns unpack base [] = ok ([], [])
  columns unpack base (line ∷ lines) = do
    row ← read_row line
    (time, fields) ← unpack row
    (times, rest) ← columns unpack base lines
    ok (sub time (of_int base) ∷ times, fields ∷ rest)

  abbrev pub rtt_row : List Float → Result (Float × Float)
  rtt_row row = do (time, rtt, idx) ← unpack_three row; ok (time, rtt)

  -- `PlotRtts`, from the lines of its file: the curve and the largest round-trip time
  unfoldable pub plot_rtts : ℤ → List Text → Result (Curve × Float)
  unfolding columns largest
  plot_rtts base lines = do
    (times, rtts) ← columns rtt_row base lines
    top ← largest rtts
    ok (record { xs = seconds times; ys = rtts }, top)

  -- `PlotTraffic`: no figure if a file is missing.
  unfoldable pub plot_traffic :
      Files → Text → Text → ℤ → ℤ → Result (Option (Curve × Curve × Float))
  unfolding log_path is_file codes plot_thput plot_rtts
  plot_traffic files dir prefix base step =
      let thput_name = log_path dir prefix (codes "recv") in
      let rtt_name = log_path dir prefix (codes "rtts") in
      if not (is_file files thput_name)
      then ok none
      else if not (is_file files rtt_name)
      then ok none
      else (do
        thput_lines ← files thput_name
        thput ← plot_thput base step thput_lines
        rtt_lines ← files rtt_name
        rtts ← plot_rtts base rtt_lines
        ok (some (thput, rtts.0, rtts.1)))

  -- The three parts of the figure of `PlotVatic`, with the limits of the first and the last
  pub record VaticFigure : Type 0 where
    pub window_times : List Float
    pub windows : List (Float × Float × Float)
    pub window_top : Float
    pub alpha_times : List Float
    pub alphas : List Float
    pub centroid_times : List Float
    pub centroids : List (Float × Float)
    pub centroid_top : Float

  abbrev pub window_row : List Float → Result (Float × (Float × Float × Float))
  window_row row = do (time, cwnd, used, free) ← unpack_four row; ok (time, (cwnd, used, free))

  abbrev pub centroid_row : List Float → Result (Float × (Float × Float))
  centroid_row row = do (time, low, high) ← unpack_three row; ok (time, (low, high))

  -- `PlotVatic`: the third test is for the first file again.
  unfoldable pub plot_vatic : Files → Text → Text → ℤ → Result (Option VaticFigure)
  unfolding log_path is_file codes columns largest largest_of
  plot_vatic files dir prefix base =
      let cwnd_name = log_path dir prefix (codes "cwnd") in
      let alpha_name = log_path dir prefix (codes "alpha") in
      let centroids_name = log_path dir prefix (codes "centroids") in
      if not (is_file files cwnd_name)
      then ok none
      else if not (is_file files alpha_name)
      then ok none
      else if not (is_file files cwnd_name)
      then ok none
      else (do
        cwnd_lines ← files cwnd_name
        (window_times, windows) ← columns window_row base cwnd_lines
        alpha_lines ← files alpha_name
        (alpha_times, alphas) ← columns unpack_two base alpha_lines
        centroid_lines ← files centroids_name
        (centroid_times, centroids) ← columns centroid_row base centroid_lines
        window_top ← largest (map (λ (w : Float × Float × Float). w.0) windows)
        high ← largest (map (λ (c : Float × Float). c.1) centroids)
        low ← largest (map (λ (c : Float × Float). c.0) centroids)
        ok (
            some (record {
              window_times = seconds window_times;
              windows = windows;
              window_top = window_top;
              alpha_times = seconds alpha_times;
              alphas = alphas;
              centroid_times = seconds centroid_times;
              centroids = centroids;
              centroid_top = largest_of high (low ∷ []);
            })))
