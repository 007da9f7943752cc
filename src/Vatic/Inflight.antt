-- ===== src/Vatic/Inflight.antt =====
-- The packets in flight of Vatic.cpp: their order, their bytes, and what an acknowledgement leaves.
use vatic_udp.Prelude.{
  ℕ, suc, ◌+◌, ◌≤◌, ◌<◌, List, [], ◌∷◌, ◌++◌, ◌≡◌, refl, ap, arith, true, false, ltb, ◌==◌,
  if◌then◌else◌, none, some, Bool-cases, ◌⊎◌, inl, inr,
}
use vatic_udp.Vatic.{Packet, bytes_in}
use vatic_udp.Vatic.Sending.{insert}
use vatic_udp.Vatic.Acks.{find_packet, erase, keep_from, any_before}

-- The ids grow, from `lo` on, and lie below `hi`.
abbrev pub Between : ℕ → ℕ → List Packet → Type 0
Between lo hi [] = lo ≤ hi
Between lo hi (p ∷ ps) = (lo ≤ p.id) × Between (suc p.id) hi ps

pub Between-le : (lo hi : ℕ) (ps : List Packet) → Between lo hi ps → lo ≤ hi
Between-le lo hi [] h = h
Between-le lo hi (p ∷ ps) (b, h) = omega (arith, Between-le (suc p.id) hi ps h)

pub Between-mono :
    (lo lo' hi : ℕ) (ps : List Packet) → lo ≤ lo' → Between lo' hi ps → Between lo hi ps
Between-mono lo lo' hi [] l h = omega arith
Between-mono lo lo' hi (p ∷ ps) l (b, h) = (omega arith, h)

pub Between-append :
    (lo mid hi : ℕ) (ps qs : List Packet)
    → Between lo mid ps
    → Between mid hi qs
    → Between lo hi (ps ++ qs)
Between-append lo mid hi [] qs h k = Between-mono lo mid hi qs h k
Between-append lo mid hi (p ∷ ps) qs (b, h) k = (b, Between-append (suc p.id) mid hi ps qs h k)

pub bytes_in-append : (ps qs : List Packet) → bytes_in (ps ++ qs) ≡ bytes_in ps + bytes_in qs
bytes_in-append [] qs = omega arith
bytes_in-append (p ∷ ps) qs = omega (arith, bytes_in-append ps qs)

-- A packet with the next id goes to the end.
pub insert-last :
    (lo : ℕ) (p : Packet) (ps : List Packet) → Between lo p.id ps → insert p ps ≡ ps ++ p ∷ []
unfolding insert
insert-last lo p [] h = refl
insert-last lo p (q ∷ qs) (b, h) =
    let after = Between-le (suc q.id) p.id qs h in
    let e : ltb p.id q.id ≡ false = ground arith in
    let d : (p.id == q.id) ≡ false = ground arith in
    rw (e, d) (ap (λ r. q ∷ r) (insert-last (suc q.id) p qs h))

-- The packets behind an id, as a filter of its own
abbrev pub later : ℕ → List Packet → List Packet
later id [] = []
later id (p ∷ ps) = let rest = later id ps in if ltb id p.id then p ∷ rest else rest

pub find_packet-id :
    (id : ℕ) (ps : List Packet) (p : Packet) → find_packet id ps ≡ some p → p.id ≡ id
unfolding find_packet
find_packet-id id [] p h = cc
find_packet-id id (q ∷ qs) p h = ground (arith, find_packet-id id qs p)

-- An id outside the range is not in flight.
pub find_packet-outside :
    (id lo hi : ℕ) (ps : List Packet)
    → Between lo hi ps
    → (id < lo) ⊎ (hi ≤ id)
    → find_packet id ps ≡ none
unfolding find_packet
find_packet-outside id lo hi [] h out = refl
find_packet-outside id lo hi (p ∷ ps) (b, h) out =
    let top = Between-le (suc p.id) hi ps h in
    let step : (id < suc p.id) ⊎ (hi ≤ id) = elim out [
      | inl l ↦ inl (omega arith)
      | inr g ↦ inr g
    ] in
    let d : (p.id == id) ≡ false = elim out [ inl l ↦ ground arith | inr g ↦ ground arith ] in
    rw d (find_packet-outside id (suc p.id) hi ps h step)

pub find_packet-lt :
    (id lo hi : ℕ) (ps : List Packet) (p : Packet)
    → Between lo hi ps
    → find_packet id ps ≡ some p
    → (lo ≤ id) × (id < hi)
unfolding find_packet
find_packet-lt id lo hi [] p h e = cc
find_packet-lt id lo hi (q ∷ qs) p (b, h) e =
    let top = Between-le (suc q.id) hi qs h in
    ground (arith, find_packet-lt id (suc q.id) hi qs p h)

-- The erasure of an id and then of all before it leaves those behind it.
pub keep_from-erase : (id : ℕ) (ps : List Packet) → keep_from id (erase id ps) ≡ later id ps
unfolding keep_from erase
keep_from-erase id [] = refl
keep_from-erase id (p ∷ ps) = ground (arith, keep_from-erase id ps)

pub later-all : (id lo hi : ℕ) (ps : List Packet) → Between lo hi ps → id < lo → later id ps ≡ ps
later-all id lo hi [] h l = refl
later-all id lo hi (p ∷ ps) (b, h) l =
    let e : ltb id p.id ≡ true = ground arith in
    rw e (ap (λ r. p ∷ r) (later-all id (suc p.id) hi ps h (omega arith)))

pub later-Between :
    (id lo hi : ℕ) (ps : List Packet)
    → Between lo hi ps
    → id < hi
    → Between (suc id) hi (later id ps)
later-Between id lo hi [] h l = omega arith
later-Between id lo hi (p ∷ ps) (b, h) l = elim (Bool-cases (ltb id p.id)) [
  | inl e ↦
      let after : id < p.id = ground arith in
      rw (e, later-all id (suc p.id) hi ps h (omega arith)) (omega arith, h)
  | inr e ↦ rw e (later-Between id (suc p.id) hi ps h l)
]

pub bytes_in-later-le : (id : ℕ) (ps : List Packet) → bytes_in (later id ps) ≤ bytes_in ps
bytes_in-later-le id [] = omega arith
bytes_in-later-le id (p ∷ ps) = ground (arith, bytes_in-later-le id ps)

pub any_before-erase : (id : ℕ) (ps : List Packet) → any_before id (erase id ps) ≡ any_before id ps
unfolding any_before erase
any_before-erase id [] = refl
any_before-erase id (p ∷ ps) = ground (arith, any_before-erase id ps)

-- Without an older packet, only the acknowledged one leaves.
pub later-no_older :
    (id lo hi : ℕ) (ps : List Packet) (p : Packet)
    → Between lo hi ps
    → find_packet id ps ≡ some p
    → any_before id ps ≡ false
    → ps ≡ p ∷ later id ps
unfolding find_packet any_before
later-no_older id lo hi [] p h e n = cc
later-no_older id lo hi (q ∷ qs) p (b, h) e n = elim (Bool-cases (q.id == id)) [
  | inl same ↦
      let r : ltb id q.id ≡ false = ground arith in
      let first : some q ≡ some p = rw same at e in
      rw (r, later-all id (suc q.id) hi qs h (ground arith)) (cc)
  | inr other ↦
      let gone = find_packet-outside id (suc q.id) hi qs h in
      ground (arith, gone (inl (ground arith)))
]
