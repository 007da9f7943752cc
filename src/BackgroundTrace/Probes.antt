-- ===== src/BackgroundTrace/Probes.antt =====
-- The probes in a background trace of generate_trace.py, and the packets between them.
use vatic_udp.Prelude.{
  ℕ, zero, suc, ◌≤◌, List, [], ◌∷◌, ◌++◌, map, replicate, length, Bool, ◌≡◌, refl, sym, ap, ◌∙◌,
  arith, Option, none, some, ℤ, pos_part, Result, ok, ◌>>=◌, >>=-eq-ok, ok-injective, Bool-cases,
  inl, inr,
}
use vatic_udp.Py.Text.{Text}
use vatic_udp.Py.Decimal.{parse_int}
use vatic_udp.Py.Floats.{Floats}
use vatic_udp.BackgroundTrace.{
  Random, Entry, packet, probe, Trace, with_probes, background, gen_trace,
}

unfoldable pub packets : List Entry → List ℕ
packets [] = []
packets (packet t ∷ es) = t ∷ packets es
packets (probe t ∷ es) = packets es

unfoldable pub probes : List Entry → List ℤ
probes [] = []
probes (packet t ∷ es) = probes es
probes (probe t ∷ es) = t ∷ probes es

packets-packet : (ts : List ℕ) → packets (map packet ts) ≡ ts
unfolding packets
packets-packet [] = refl
packets-packet (t ∷ ts) = ap (λ r. t ∷ r) (packets-packet ts)

packets-burst :
    (n : ℕ) (at : ℤ) (es : List Entry) → packets (replicate n (probe at) ++ es) ≡ packets es
unfolding packets
packets-burst zero at es = refl
packets-burst (suc n) at es = packets-burst n at es

probes-burst :
    (n : ℕ) (at : ℤ) (es : List Entry)
    → probes (replicate n (probe at) ++ es) ≡ replicate n at ++ probes es
unfolding probes
probes-burst zero at es = refl
probes-burst (suc n) at es = ap (λ r. at ∷ r) (probes-burst n at es)

module _ (fl : Floats) (rand : Random fl) where
  open fl use {Float}

  -- The bursts at a number of points that are an interval apart
  unfoldable pub bursts : Float → ℤ → Float → ℕ → Result (List ℤ)
  bursts interval len point zero = ok []
  bursts interval len point (suc k) = do
    at ← rand.trunc point
    rest ← bursts interval len (rand.add point interval) k
    ok (replicate (pos_part len) at ++ rest)

  -- The packets are kept, and the probes are bursts at the first points, at most one before each packet.
  pub record Mixed (interval : Float) (len : ℤ) (point : Float) (ts : List ℕ) (es : List Entry)
      : Type 0 where
    pub packets_eq : packets es ≡ ts
    pub bursts_made : ℕ
    pub bursts_le : bursts_made ≤ length ts
    pub probes_eq : bursts interval len point bursts_made ≡ ok (probes es)

  with_probes-Mixed :
      (interval : Float) (len : ℤ) (point : Float) (ts : List ℕ) (es : List Entry)
      → with_probes fl rand interval len point ts ≡ ok es
      → Mixed interval len point ts es
  unfolding with_probes packets probes bursts
  with_probes-Mixed interval len point [] es h =
      let e : [] ≡ es = ok-injective h in
      rw (← e)
        (record { packets_eq = refl; bursts_made = 0; bursts_le = omega arith; probes_eq = refl })
  with_probes-Mixed interval len point (t ∷ ts) es h = elim (Bool-cases (rand.reaches t point)) [
    | inl reached ↦
        let made = rw (reached, with_probes) at h in
        let (at, e, made') = >>=-eq-ok (rand.trunc point) _ made in
        let (rest, d, made'') =
          >>=-eq-ok (with_probes fl rand interval len (rand.add point interval) ts) _ made' in
        let m = with_probes-Mixed interval len (rand.add point interval) ts rest d in
        let whole : replicate (pos_part len) (probe at) ++ packet t ∷ rest ≡ es =
          ok-injective made'' in
        rw (← whole) (record {
          packets_eq =
              packets-burst (pos_part len) at (packet t ∷ rest) ∙ ap (λ r. t ∷ r) m.packets_eq;
          bursts_made = suc m.bursts_made;
          bursts_le = omega (arith, m.bursts_le);
          probes_eq = rw (e, m.probes_eq, probes-burst (pos_part len) at (packet t ∷ rest));
        })
    | inr before ↦
        let made = rw (before, with_probes) at h in
        let (rest, d, made') = >>=-eq-ok (with_probes fl rand interval len point ts) _ made in
        let m = with_probes-Mixed interval len point ts rest d in
        let whole : packet t ∷ rest ≡ es = ok-injective made' in
        rw (← whole) (record {
          packets_eq = ap (λ r. t ∷ r) m.packets_eq;
          bursts_made = m.bursts_made;
          bursts_le = omega (arith, m.bursts_le);
          probes_eq = m.probes_eq;
        })
  ]

  -- The entries that a trace without probes and one with probes should hold
  abbrev pub Wanted : Option (Text × Text) → List ℕ → List Entry → Type 0
  Wanted none ts es = es ≡ map packet ts
  Wanted (some (interval_text, length_text)) ts es =
      (interval : Float) × (len : ℤ) × (fl.parse_float interval_text ≡ ok interval)
      × (parse_int length_text ≡ ok len)
      × Mixed interval len interval ts es

  -- A trace that is made holds the packets at the random times, in order and each once. The probes in
  -- it are bursts of the wanted length at the first points of the wanted distance, at most one burst
  -- for each packet; without the option there is none.
  pub gen_trace-Wanted :
      (exists : Text → Bool) (send_rate : Text) (duration : ℤ) (probe_args : Option (Text × Text))
      (seed : ℤ) (savedir : Text) (trace : Trace)
      → gen_trace fl rand exists send_rate duration probe_args seed savedir ≡ ok trace
      → (ts : List ℕ) × (background fl rand send_rate duration seed ≡ ok ts)
        × (packets trace.entries ≡ ts)
        × Wanted probe_args ts trace.entries
  unfolding gen_trace
  gen_trace-Wanted exists send_rate duration none seed savedir trace h =
      let (ts, e, made) = >>=-eq-ok (background fl rand send_rate duration seed) _ h in
      let same : map packet ts ≡ trace.entries =
        ap (λ (t : Trace). t.entries) (ok-injective made) in
      (ts, e, rw (← same) (packets-packet ts), sym same)
  gen_trace-Wanted exists send_rate duration (some (interval_text, length_text)) seed savedir trace
        h =
      let (ts, e, made) = >>=-eq-ok (background fl rand send_rate duration seed) _ h in
      let (interval, i, made') = >>=-eq-ok (fl.parse_float interval_text) _ made in
      let (len, l, made'') = >>=-eq-ok (parse_int length_text) _ made' in
      let (es, d, whole) = >>=-eq-ok (with_probes fl rand interval len interval ts) _ made'' in
      let same : es ≡ trace.entries = ap (λ (t : Trace). t.entries) (ok-injective whole) in
      let m = with_probes-Mixed interval len interval ts es d in
      (ts, e, rw (← same) m.packets_eq, (interval, len, i, l, rw (← same) m))
