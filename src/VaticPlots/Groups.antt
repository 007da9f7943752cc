-- ===== src/VaticPlots/Groups.antt =====
-- The bins of `PlotThput` of PlotvaticTrace.py as groups of neighbouring packets.
use mathlib.Core.List.{map-append}
use vatic_udp.Prelude.{
  List, [], ◌∷◌, ◌++◌, append_assoc, append-nil, map, length, length-append, length-map, ◌≡◌, refl,
  sym, ap, ◌∙◌, arith, Option, none, some, ℤ, pos, Result, ok, or_raise, ◌>>=◌, >>=-eq-ok,
  ok-injective, Bool-cases, inl, inr, unbound_local_error,
}
use vatic_udp.Py.Text.{Text}
use vatic_udp.Py.Floats.{Floats}
use vatic_udp.VaticPlots.{
  Comparing, Curve, BinState, bins_start, rate, first_end, add_packet, thput_loop, plot_thput,
  read_row, unpack_three, seconds,
}

module _ (fl : Floats) (cmp : Comparing fl) where
  open fl use {Float, of_int}

  -- The packets of one bin: all but the first bin are opened by a packet of their own.
  pub record Group : Type 0 where
    pub opening : Option Float
    pub others : List Float

  abbrev pub sizes_of : Group → List Float
  sizes_of g = elim g.opening [ none ↦ g.others | some x ↦ x ∷ g.others ]

  -- The sum from the left
  abbrev pub total_from : Float → List Float → Float
  total_from acc [] = acc
  total_from acc (x ∷ xs) = total_from (cmp.add acc x) xs

  abbrev pub total_of : Group → Float
  total_of g = elim g.opening [
    | none ↦ total_from (of_int (pos 0)) g.others
    | some x ↦ total_from x g.others
  ]

  abbrev pub all_sizes : List Group → List Float
  all_sizes [] = []
  all_sizes (g ∷ gs) = sizes_of g ++ all_sizes gs

  -- The third column of the file
  unfoldable pub read_sizes : List Text → Result (List Float)
  unfolding read_row
  read_sizes [] = ok []
  read_sizes (line ∷ lines) = do
    row ← read_row fl cmp line
    (idx, time, size) ← unpack_three fl cmp row
    rest ← read_sizes lines
    ok (size ∷ rest)

  unfoldable pub rates : ℤ → List Float → Result (List Float)
  rates step [] = ok []
  rates step (c ∷ cs) = do r ← rate fl cmp step c; rs ← rates step cs; ok (r ∷ rs)

  rates-append :
      (step : ℤ) (cs : List Float) (c : Float) (rs : List Float) (r : Float)
      → rates step cs ≡ ok rs
      → rate fl cmp step c ≡ ok r
      → rates step (cs ++ c ∷ []) ≡ ok (rs ++ r ∷ [])
  unfolding rates
  rates-append step [] c rs r h e = let d : [] ≡ rs = ok-injective h in rw (← d, e)
  rates-append step (b ∷ cs) c rs r h e =
      let (x, hx, h') = >>=-eq-ok (rate fl cmp step b) _ h in
      let (xs, hxs, h'') = >>=-eq-ok (rates step cs) _ h' in
      let d : x ∷ xs ≡ rs = ok-injective h'' in rw (← d, hx, rates-append step cs c xs r hxs e)

  total_from-append :
      (acc : Float) (xs : List Float) (x : Float)
      → total_from acc (xs ++ x ∷ []) ≡ cmp.add (total_from acc xs) x
  total_from-append acc [] x = refl
  total_from-append acc (y ∷ xs) x = total_from-append (cmp.add acc y) xs x

  all_sizes-append :
      (gs : List Group) (g : Group) → all_sizes (gs ++ g ∷ []) ≡ all_sizes gs ++ sizes_of g
  all_sizes-append [] g = append-nil (sizes_of g)
  all_sizes-append (h ∷ gs) g =
      ap (λ r. sizes_of h ++ r) (all_sizes-append gs g)
      ∙ sym (append_assoc (sizes_of h) (all_sizes gs) (sizes_of g))

  abbrev joined : Group → Float → Group
  joined g x = record g { others = g.others ++ x ∷ [] }

  sizes_of-joined : (g : Group) (x : Float) → sizes_of (joined g x) ≡ sizes_of g ++ x ∷ []
  sizes_of-joined g x =
      elim g.opening
        as (λ o.
          sizes_of (record { opening = o; others = g.others ++ x ∷ [] })
          ≡ sizes_of (record { opening = o; others = g.others }) ++ x ∷ []) [
            | none ↦ refl
            | some y ↦ refl
          ]

  total_of-joined : (g : Group) (x : Float) → total_of (joined g x) ≡ cmp.add (total_of g) x
  total_of-joined g x =
      elim g.opening
        as (λ o.
          total_of (record { opening = o; others = g.others ++ x ∷ [] })
          ≡ cmp.add (total_of (record { opening = o; others = g.others })) x) [
            | none ↦ total_from-append (of_int (pos 0)) g.others x
            | some y ↦ total_from-append y g.others x
          ]

  length-concat :
      (xs ys : List Float) (x y : Float)
      → length xs ≡ length ys
      → length (xs ++ x ∷ []) ≡ length (ys ++ y ∷ [])
  length-concat xs ys x y e = omega (arith, length-append xs (x ∷ []), length-append ys (y ∷ []))

  -- The closed bins and the open one, of the sizes that were read
  record Grouped (step : ℤ) (read : List Float) (s : BinState fl cmp) : Type 0 where
    closed : List Group
    current : Group
    sizes_eq : all_sizes closed ++ sizes_of current ≡ read
    bw_eq : rates step (map total_of closed) ≡ ok s.bw
    cnt_eq : total_of current ≡ s.cnt
    times_eq : length s.times ≡ length s.bw

  add_packet-Grouped :
      (base step : ℤ) (time size : Float) (read : List Float) (s s' : BinState fl cmp)
      → Grouped step read s
      → add_packet fl cmp base step time size s ≡ ok s'
      → Grouped step (read ++ size ∷ []) s'
  unfolding add_packet
  add_packet-Grouped base step time size read s s' g h =
      elim (Bool-cases (cmp.less (first_end fl cmp step time s) time)) [
        | inl past ↦
            let h' = rw (past, add_packet) at h in
            let (r, e, h'') = >>=-eq-ok (rate fl cmp step s.cnt) _ h' in
            let same = ok-injective h'' in
            rw (← same) (record {
              closed = g.closed ++ g.current ∷ [];
              current = record { opening = some size; others = [] };
              sizes_eq =
                  ap (λ xs. xs ++ size ∷ []) (all_sizes-append g.closed g.current ∙ g.sizes_eq);
              bw_eq = rw (map-append total_of g.closed (g.current ∷ [])) (
                  rates-append step (map total_of g.closed) (total_of g.current) s.bw r g.bw_eq
                    (rw g.cnt_eq e));
              cnt_eq = refl;
              times_eq = length-concat s.times s.bw _ _ g.times_eq;
            })
        | inr inside ↦
            let h' = rw (inside, add_packet) at h in
            let same = ok-injective h' in
            rw (← same) (record {
              closed = g.closed;
              current = joined g.current size;
              sizes_eq = rw (sizes_of-joined g.current size) (
                  sym (append_assoc (all_sizes g.closed) (sizes_of g.current) (size ∷ []))
                  ∙ ap (λ xs. xs ++ size ∷ []) g.sizes_eq);
              bw_eq = g.bw_eq;
              cnt_eq = total_of-joined g.current size ∙ ap (λ c. cmp.add c size) g.cnt_eq;
              times_eq = g.times_eq;
            })
      ]

  read_sizes-cons :
      (line : Text) (lines : List Text) (row : List Float) (fields : Float × Float × Float)
      (rest : List Float)
      → read_row fl cmp line ≡ ok row
      → unpack_three fl cmp row ≡ ok fields
      → read_sizes lines ≡ ok rest
      → read_sizes (line ∷ lines) ≡ ok (fields.2 ∷ rest)
  unfolding read_sizes
  read_sizes-cons line lines row fields rest r f e = rw (r, f, e)

  thput_loop-Grouped :
      (base step : ℤ) (lines : List Text) (read : List Float) (s s' : BinState fl cmp)
      → Grouped step read s
      → thput_loop fl cmp base step lines s ≡ ok s'
      → (rest : List Float) × (read_sizes lines ≡ ok rest) × Grouped step (read ++ rest) s'
  unfolding thput_loop read_sizes
  thput_loop-Grouped base step [] read s s' g h =
      let same : s ≡ s' = ok-injective h in ([], refl, rw (append-nil read, ← same) g)
  thput_loop-Grouped base step (line ∷ lines) read s s' g h =
      let (row, r, h1) = >>=-eq-ok (read_row fl cmp line) _ h in
      let (fields, f, h2) = >>=-eq-ok (unpack_three fl cmp row) _ h1 in
      let (t, a, h3) = >>=-eq-ok (add_packet fl cmp base step fields.1 fields.2 s) _ h2 in
      let g' = add_packet-Grouped base step fields.1 fields.2 read s t g a in
      let (rest, e, g'') = thput_loop-Grouped base step lines (read ++ fields.2 ∷ []) t s' g' h3 in
      (
        fields.2 ∷ rest,
        read_sizes-cons line lines row fields rest r f e,
        rw (append_assoc read (fields.2 ∷ []) rest) at g'',
      )

  -- A curve that `plot_thput` gives has as many times as rates. The rates are those of groups of
  -- neighbouring packets, one after the other, which hold each packet of the file once: no byte is
  -- lost or counted twice.
  pub plot_thput-groups :
      (base step : ℤ) (lines : List Text) (curve : Curve fl cmp)
      → plot_thput fl cmp base step lines ≡ ok curve
      → (sizes : List Float) × (groups : List Group) × (read_sizes lines ≡ ok sizes)
        × (all_sizes groups ≡ sizes)
        × (rates step (map total_of groups) ≡ ok curve.ys)
        × (length curve.xs ≡ length curve.ys)
  unfolding plot_thput rates
  plot_thput-groups base step lines curve h =
      let (s, l, h1) = >>=-eq-ok (thput_loop fl cmp base step lines (bins_start fl cmp)) _ h in
      let (r, e, h2) = >>=-eq-ok (rate fl cmp step s.cnt) _ h1 in
      let (time, t, h3) = >>=-eq-ok (or_raise unbound_local_error s.time) _ h2 in
      let last = fl.sub time (of_int base) in
      let whole = ok-injective h3 in
      let xs_eq : seconds fl cmp (s.times ++ last ∷ []) ≡ curve.xs =
        ap (λ (c : Curve fl cmp). c.xs) whole in
      let ys_eq : s.bw ++ r ∷ [] ≡ curve.ys = ap (λ (c : Curve fl cmp). c.ys) whole in
      let start : Grouped step [] (bins_start fl cmp) = record {
        closed = [];
        current = record { opening = none; others = [] };
        sizes_eq = refl;
        bw_eq = refl;
        cnt_eq = refl;
        times_eq = refl;
      } in
      let (sizes, read, g) = thput_loop-Grouped base step lines [] (bins_start fl cmp) s start l in
      let all =
        rates-append step (map total_of g.closed) (total_of g.current) s.bw r g.bw_eq
          (rw g.cnt_eq e) in
      (
        sizes,
        g.closed ++ g.current ∷ [],
        read,
        all_sizes-append g.closed g.current ∙ g.sizes_eq,
        rw (map-append total_of g.closed (g.current ∷ []), ← ys_eq) all,
        rw (← xs_eq, ← ys_eq, length-map (s.times ++ last ∷ []) (λ t. fl.div t (of_int (pos 1000))))
            (length-concat s.times s.bw last r g.times_eq),
      )
