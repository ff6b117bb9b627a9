-- ===== src/Ring/Capacity.antt =====
-- What the choice of internal/domain/rm/ring.go promises: spare capacity, or the least load.
use astra_backend.Prelude.{
  ℕ, ◌≤◌, ◌<◌, ◌≡◌, refl, ◌⊎◌, inl, inr, Bool, true, false, Option, none, some, List, [], ◌∷◌, ◌++◌,
  arith, ltb→lt, ◌==◌, first, All, Has, Option-cases, Bool-cases, first-some, first-none,
  Has-append, All-append_left, All-append_right,
}
use astra_backend.Ring.{Slot, has_capacity, least_loaded, pick_next_rm}
use astra_backend.Ring.Rotation.{
  walk_from, walk, choose, pick_by_walk, pick_next_rm-eq-pick_by_walk,
}

-- The slots of a walk are those of the ring.
walk_from-Has :
    (a : Slot) (before : List Slot) (after : ℕ) (ring : List Slot)
    → Has a (walk_from before after ring)
    → Has a before ⊎ Has a ring
unfolding walk_from
walk_from-Has a before after [] h = inl h
walk_from-Has a before after (s ∷ rest) h = ground (
  arith,
  Has-append a rest (before ++ s ∷ []),
  Has-append a before (s ∷ []),
  walk_from-Has a (before ++ s ∷ []) after rest,
)

walk_from-All :
    (P : Slot → Type 0) (before : List Slot) (after : ℕ) (ring : List Slot)
    → All P (walk_from before after ring)
    → All P before × All P ring
unfolding walk_from
walk_from-All P before after [] h = (h, tt)
walk_from-All P before after (s ∷ rest) h = elim (Bool-cases (s.rm_id == after)) [
  | inl hit ↦
      let h' : All P (rest ++ (before ++ s ∷ [])) = rw (hit, walk_from) at h in
      let tail = All-append_right P rest (before ++ s ∷ []) h' in
      (
        All-append_left P before (s ∷ []) tail,
        ((All-append_right P before (s ∷ []) tail).0, All-append_left P rest (before ++ s ∷ []) h'),
      )
  | inr miss ↦
      let later = walk_from-All P (before ++ s ∷ []) after rest (rw (miss, walk_from) at h) in
      (
        All-append_left P before (s ∷ []) later.0,
        ((All-append_right P before (s ∷ []) later.0).0, later.1),
      )
]

-- The slot that `least_loaded` gives stands in the ring, and none holds fewer clients.
least_loaded-Has : (s : Slot) (rest : List Slot) → Has (least_loaded s rest) (s ∷ rest)
unfolding least_loaded
least_loaded-Has s [] = inl refl
least_loaded-Has s (t ∷ rest) = ground (arith, least_loaded-Has s rest, least_loaded-Has t rest)

abbrev HoldsAtLeast : ℕ → Slot → Type 0
HoldsAtLeast n s = n ≤ s.client_count

least_loaded-le :
    (s : Slot) (rest : List Slot) → (least_loaded s rest).client_count ≤ s.client_count
unfolding least_loaded
least_loaded-le s [] = omega arith
least_loaded-le s (t ∷ rest) = ground (arith, least_loaded-le s rest, least_loaded-le t rest)

least_loaded-All :
    (s : Slot) (rest : List Slot) → All (HoldsAtLeast (least_loaded s rest).client_count) (s ∷ rest)
unfolding least_loaded
least_loaded-All s [] = ground arith
least_loaded-All s (t ∷ rest) = ground (
  arith,
  least_loaded-All s rest,
  least_loaded-All t rest,
  least_loaded-le s rest,
  least_loaded-le t rest,
)

-- What a choice says of the ring: without overflow the chosen RM has spare capacity; with it every
-- RM is full, and the chosen one holds no more clients than any other.
abbrev pub IsSound : List Slot → Option (ℕ × Bool) → Type 0
IsSound ring none = ring ≡ []
IsSound ring (some (id, false)) =
    (s : Slot) × (s.rm_id ≡ id) × Has s ring × (s.client_count < s.max_portfolios)
IsSound ring (some (id, true)) =
    (s : Slot) × (s.rm_id ≡ id)
    × Has s ring
    × All (λ t. t.max_portfolios ≤ t.client_count) ring
    × All (HoldsAtLeast s.client_count) ring

full-All :
    (ring : List Slot)
    → All (λ s. has_capacity s ≡ false) ring
    → All (λ s. s.max_portfolios ≤ s.client_count) ring
full-All [] h = tt
full-All (s ∷ rest) h = (ground arith, full-All rest h.1)

pick_by_walk-IsSound : (ring : List Slot) (after : ℕ) → IsSound ring (pick_by_walk ring after)
unfolding pick_by_walk choose walk
pick_by_walk-IsSound [] after = refl
pick_by_walk-IsSound (s ∷ rest) after =
    elim (Option-cases (first has_capacity (walk_from [] after (s ∷ rest)))) [
      | inl e ↦
          let ring = s ∷ rest in
          let none_free = first-none has_capacity (walk_from [] after ring) e in
          rw (e, choose)
            (
              least_loaded s rest,
              refl,
              least_loaded-Has s rest,
              full-All ring (walk_from-All _ [] after ring none_free).1,
              least_loaded-All s rest,
            )
      | inr (t, e) ↦
          let ring = s ∷ rest in
          let free = first-some has_capacity (walk_from [] after ring) t e in
          rw (e, choose)
            (t, refl, ground (arith, walk_from-Has t [] after ring free.0), ltb→lt _ _ free.1)
    ]

-- Whoever is chosen is an RM of the ring. It has spare capacity, or the choice is marked as overflow,
-- every RM is full and the chosen one holds no more clients than any other. Only the empty ring
-- gives no choice.
pub pick_next_rm-IsSound : (ring : List Slot) (after : ℕ) → IsSound ring (pick_next_rm ring after)
pick_next_rm-IsSound ring after =
    rw (pick_next_rm-eq-pick_by_walk ring after) (pick_by_walk-IsSound ring after)
