-- ===== src/Tcp/Listening/Served.antt =====
-- Which connections sender_receiver/receiver.cc serves.
use vatic_udp.Prelude.{
  ℕ, zero, suc, ◌+◌, ◌<◌, ◌≡◌, refl, ap, arith, List, [], ◌∷◌, true, false, ltb, ◌==◌, ◌||◌,
}
use vatic_udp.Tcp.Listening.{connection, interrupted, failed, Event, serve}

module _ {ℓ} {A : Type ℓ} where
  -- The first connections among the events of an undisturbed receiver
  abbrev pub first_connections : ℕ → List (Event A) → List A
  first_connections n [] = []
  first_connections zero (e ∷ es) = []
  first_connections (suc n) ((quit, connection c) ∷ es) = c ∷ first_connections n es
  first_connections (suc n) ((quit, interrupted) ∷ es) = first_connections (suc n) es
  first_connections (suc n) ((quit, failed) ∷ es) = []

  -- No event comes with `quit` set.
  abbrev pub Undisturbed : List (Event A) → Type 0
  Undisturbed [] = Unit
  Undisturbed ((quit, a) ∷ es) = (quit ≡ false) × Undisturbed es

  serve-from :
      (limit n left : ℕ) (es : List (Event A))
      → 0 < limit
      → n + left ≡ limit
      → Undisturbed es
      → serve limit n es ≡ first_connections left es
  unfolding serve
  serve-from limit n left [] h k u = refl
  serve-from limit n zero ((quit, connection c) ∷ es) h k (q, u) =
      let full : ltb n limit || limit == 0 ≡ false = ground arith in rw (q, full) refl
  serve-from limit n zero ((quit, interrupted) ∷ es) h k (q, u) =
      let full : ltb n limit || limit == 0 ≡ false = ground arith in rw (q, full) refl
  serve-from limit n zero ((quit, failed) ∷ es) h k (q, u) = refl
  serve-from limit n (suc left) ((quit, connection c) ∷ es) h k (q, u) =
      let room : ltb n limit || limit == 0 ≡ true = ground arith in
      rw (q, room) (ap (λ r. c ∷ r) (serve-from limit (n + 1) left es h (omega arith) u))
  serve-from limit n (suc left) ((quit, interrupted) ∷ es) h k (q, u) =
      let room : ltb n limit || limit == 0 ≡ true = ground arith in
      rw (q, room) (serve-from limit n (suc left) es h k u)
  serve-from limit n (suc left) ((quit, failed) ∷ es) h k (q, u) = refl

  -- With a limit above zero and no interrupt from the keyboard, the receiver serves the connections
  -- that come first, as many as the limit says, and no other; being interrupted by the end of a child
  -- does not count, and a failure of `accept` ends it.
  pub serve-first :
      (limit : ℕ) (es : List (Event A))
      → 0 < limit
      → Undisturbed es
      → serve limit 0 es ≡ first_connections limit es
  serve-first limit es h u = serve-from limit 0 limit es h (omega arith) u
