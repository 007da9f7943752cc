-- ===== src/Vatic/Link/Climbing.antt =====
-- Lists of growing ids, and the packets in flight that they name.
use vatic_udp.Prelude.{
  ℕ, suc, ◌≤◌, ◌<◌, List, [], ◌∷◌, ◌++◌, length, map, ◌≡◌, refl, arith, ◌==◌, some, Bool-cases, inl,
  inr,
}
use vatic_udp.Vatic.{Packet}
use vatic_udp.Vatic.Acks.{find_packet}
use vatic_udp.Vatic.Inflight.{Between}
use vatic_udp.Vatic.Interval.{Numbered}
use vatic_udp.Vatic.Link.{drop_packets}

-- Ids that grow, from `lo` on and below `hi`
abbrev pub Climbing : ℕ → ℕ → List ℕ → Type 0
Climbing lo hi [] = lo ≤ hi
Climbing lo hi (i ∷ is) = (lo ≤ i) × Climbing (suc i) hi is

pub Climbing-mono :
    (lo lo' hi : ℕ) (is : List ℕ) → lo ≤ lo' → Climbing lo' hi is → Climbing lo hi is
Climbing-mono lo lo' hi [] l h = omega arith
Climbing-mono lo lo' hi (i ∷ is) l (b, h) = (omega arith, h)

pub Climbing-le : (lo hi : ℕ) (is : List ℕ) → Climbing lo hi is → lo ≤ hi
Climbing-le lo hi [] h = h
Climbing-le lo hi (i ∷ is) (b, h) = omega (arith, Climbing-le (suc i) hi is h)

pub Climbing-append :
    (lo mid hi : ℕ) (is js : List ℕ)
    → Climbing lo mid is
    → Climbing mid hi js
    → Climbing lo hi (is ++ js)
Climbing-append lo mid hi [] js h k = Climbing-mono lo mid hi js h k
Climbing-append lo mid hi (i ∷ is) js (b, h) k = (b, Climbing-append (suc i) mid hi is js h k)

pub Climbing-remove :
    (lo hi : ℕ) (is : List ℕ) (j : ℕ) (js : List ℕ)
    → Climbing lo hi (is ++ j ∷ js)
    → Climbing lo hi (is ++ js)
Climbing-remove lo hi [] j js (b, h) = Climbing-mono lo (suc j) hi js (omega arith) h
Climbing-remove lo hi (i ∷ is) j js (b, h) = (b, Climbing-remove (suc i) hi is j js h)

abbrev pub ids : List Packet → List ℕ
ids = map (λ (p : Packet). p.id)

pub Between-Climbing : (lo hi : ℕ) (ps : List Packet) → Between lo hi ps → Climbing lo hi (ids ps)
Between-Climbing lo hi [] h = h
Between-Climbing lo hi (p ∷ ps) (b, h) = (b, Between-Climbing (suc p.id) hi ps h)

pub drop_packets-append : (ps qs : List Packet) → drop_packets (length ps) (ps ++ qs) ≡ qs
drop_packets-append [] qs = refl
drop_packets-append (p ∷ ps) qs = drop_packets-append ps qs

-- Every id of the interval is in flight.
pub find_packet-Numbered :
    (id lo hi : ℕ) (ps : List Packet)
    → Numbered lo hi ps
    → lo ≤ id
    → id < hi
    → (p : Packet) × (find_packet id ps ≡ some p)
unfolding find_packet
find_packet-Numbered id lo hi [] e l u = absurd (omega arith)
find_packet-Numbered id lo hi (p ∷ ps) (e, h) l u = elim (Bool-cases (p.id == id)) [
  | inl same ↦ (p, rw same)
  | inr other ↦
      let (q, d) = find_packet-Numbered id (suc lo) hi ps h (ground arith) u in (q, rw other d)
]
