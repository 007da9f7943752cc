-- ===== src/Simulation/Vatic/BaseTime.antt =====
-- Which line of a log `GetBaseTime` reads.
use vatic_udp.Prelude.{
  List, [], ◌∷◌, ◌++◌, ◌≡◌, refl, ap, ◌⊎◌, inl, inr, Bool, true, false, Bool-cases, negsuc, ok,
}
use vatic_udp.Py.Text.{Text, codes, starts_with, strip}
use vatic_udp.Mmparse.Throughput.{header_number}
use vatic_udp.Simulation.Vatic.{base_time}

abbrev pub is_init : Text → Bool
is_init raw = starts_with (strip raw) (codes "# init timestamp")

-- No line holds an init timestamp.
pub data Quiet : List Text → Type 0 where
  nil : Quiet []
  cons : {raw : Text} {lines : List Text} → is_init raw ≡ false → Quiet lines → Quiet (raw ∷ lines)

-- The base time is the number behind the last colon of the first line with an init timestamp, and it
-- is -1 if no line has one.
pub base_time-first :
    (lines : List Text)
    → (Quiet lines × (base_time lines ≡ ok (negsuc 0)))
      ⊎ ((before : List Text) × (raw : Text) × (after : List Text) × (lines ≡ before ++ raw ∷ after)
          × Quiet before
          × (is_init raw ≡ true)
          × (base_time lines ≡ header_number (strip raw)))
unfolding base_time header_number
base_time-first [] = inl (nil, refl)
base_time-first (raw ∷ lines) = elim (Bool-cases (is_init raw)) [
  | inl found ↦ inr ([], raw, lines, refl, nil, found, rw found refl)
  | inr missing ↦ elim (base_time-first lines) [
    | inl (quiet, e) ↦ inl (cons missing quiet, rw (missing, e))
    | inr (before, r, after, e, quiet, found, number) ↦ inr (
      raw ∷ before,
      r,
      after,
      ap (λ ls. raw ∷ ls) e,
      cons missing quiet,
      found,
      rw (missing, number),
    )
  ]
]
