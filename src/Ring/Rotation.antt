-- ===== src/Ring/Rotation.antt =====
-- The choice of internal/domain/rm/ring.go against a description with no index: the ring read once
-- round, from the slot behind the last one assigned.
use astra_backend.Prelude.{
  ℕ, zero, suc, ◌+◌, ◌-◌, ◌%◌, ◌≤◌, ◌<◌, ◌≡◌, refl, sym, ap, ap₂, ◌∙◌, inl, inr, Bool, true, false,
  Option, none, some, List, [], ◌∷◌, ◌++◌, arith, ◌==◌, if◌then◌else◌, length, get_elem?, drop,
  take, first, Bool-cases, get_elem?-append_left, get_elem?-append_right, get_elem?-drop,
  get_elem?-take, get_elem?_total, length-append, length-drop, length-take_le, drop-eq_cons,
  drop-eq_nil, drop-length_append, take-length_append,
}
use mathlib.Core.List.{append-nil, append_assoc}
use native.Mathlib.Decide.{dec_lt}
use astra_backend.Ring.{
  Slot, has_capacity, start_index, Lap, found, full, lap, least_loaded, after_lap, pick_next_rm,
}

-- The slots behind `after`, then those up to it; the ring itself if `after` is not there.
unfoldable pub walk_from : List Slot → ℕ → List Slot → List Slot
walk_from before after [] = before
walk_from before after (s ∷ rest) =
    if s.rm_id == after then rest ++ (before ++ s ∷ []) else walk_from (before ++ s ∷ []) after rest

unfoldable pub walk : ℕ → List Slot → List Slot
unfolding walk_from
walk after ring = walk_from [] after ring

-- The first slot of the walk with capacity, and failing that the least loaded of the ring.
unfoldable pub choose : Slot → List Slot → Option Slot → Option (ℕ × Bool)
choose s rest (some t) = some (t.rm_id, false)
choose s rest none = some ((least_loaded s rest).rm_id, true)

unfoldable pub pick_by_walk : List Slot → ℕ → Option (ℕ × Bool)
unfolding choose
pick_by_walk [] after = none
pick_by_walk (s ∷ rest) after = choose s rest (first has_capacity (walk after (s ∷ rest)))

turn : ℕ → List Slot → List Slot
turn start ring = drop start ring ++ take start ring

length-turn :
    (start : ℕ) (ring : List Slot) → start ≤ length ring → length (turn start ring) ≡ length ring
unfolding turn
length-turn start ring h = omega (
  arith,
  length-append (drop start ring) (take start ring),
  length-drop start ring,
  length-take_le start ring h,
)

mod_below : (a n : ℕ) → a < n → a % n ≡ a
mod_below a n h = grind arith

mod_wrap : (a n : ℕ) → n ≤ a → a < n + n → a % n ≡ a - n
mod_wrap a n h k = grind arith

get_elem?-turn :
    (start : ℕ) (ring : List Slot) (i : ℕ)
    → start < length ring
    → i < length ring
    → get_elem? (turn start ring) i ≡ get_elem? ring ((start + i) % length ring)
unfolding turn
get_elem?-turn start ring i hs hi = elim (dec_lt i (length ring - start)) [
  | yes p ↦
      get_elem?-append_left (drop start ring) (take start ring) i
        (omega (arith, length-drop start ring))
      ∙ get_elem?-drop start ring i
      ∙ ap (get_elem? ring) (sym (mod_below (start + i) (length ring) (omega arith)))
  | no p ↦
      get_elem?-append_right (drop start ring) (take start ring) i (i - (length ring - start))
        (omega (arith, length-drop start ring))
      ∙ get_elem?-take start ring (i - (length ring - start)) (omega arith)
      ∙ ap (get_elem? ring)
          (omega (arith, mod_wrap (start + i) (length ring) (omega arith) (omega arith)))
]

lap_result : Option Slot → Lap
lap_result none = full
lap_result (some s) = found s

-- The lap finds what the walk has first, and no index is out of range.
lap-first :
    (ring : List Slot) (start left off : ℕ)
    → start < length ring
    → left + off ≡ length ring
    → lap ring start left off ≡ lap_result (first has_capacity (drop off (turn start ring)))
unfolding lap lap_result
lap-first ring start zero off hs e =
    rw (drop-eq_nil (turn start ring) off (omega (arith, length-turn start ring (omega arith))))
      refl
lap-first ring start (suc left) off hs e =
    let there = get_elem?_total ring ((start + off) % length ring) (grind arith) in
    let s = there.0 in
    let step =
      drop-eq_cons (turn start ring) off s
        (get_elem?-turn start ring off hs (omega arith) ∙ there.1) in
    ground (arith, there.1, step, lap-first ring start left (off + 1) hs (omega arith))

start_index-lt : (n after i : ℕ) (ring : List Slot) → 0 < n → start_index n after i ring < n
unfolding start_index
start_index-lt n after i [] h = h
start_index-lt n after i (s ∷ rest) h = ground (arith, start_index-lt n after (i + 1) rest h)

-- At the slot `s` with `before` in front: the walk starts behind it.
turn_at_hit :
    (before : List Slot) (s : Slot) (rest : List Slot) (n : ℕ)
    → n ≡ length before + length (s ∷ rest)
    → turn ((length before + 1) % n) (before ++ s ∷ rest) ≡ rest ++ (before ++ s ∷ [])
unfolding turn
turn_at_hit before s [] n e =
    let zero_start : (length before + 1) % n ≡ 0 = grind arith in
    rw zero_start (append-nil (before ++ s ∷ []))
turn_at_hit before s (t ∷ rest) n e =
    let upto = before ++ s ∷ [] in
    let start : (length before + 1) % n ≡ length upto =
      mod_below (length before + 1) n (omega arith)
      ∙ omega (arith, length-append before (s ∷ [])) in
    rw (start, ← append_assoc before (s ∷ []) (t ∷ rest))
      (ap₂ ◌++◌ (drop-length_append upto (t ∷ rest)) (take-length_append upto (t ∷ rest)))

turn-start_index :
    (n after : ℕ) (before ring : List Slot)
    → n ≡ length before + length ring
    → turn (start_index n after (length before) ring) (before ++ ring) ≡ walk_from before after ring
unfolding start_index walk_from turn
turn-start_index n after before [] e = simp append-nil
turn-start_index n after before (s ∷ rest) e = elim (Bool-cases (s.rm_id == after)) [
  | inl hit ↦ rw hit (turn_at_hit before s rest n e)
  | inr miss ↦
      let size = length-append before (s ∷ []) in
      rw (miss, ← append_assoc before (s ∷ []) rest)
        (ap (λ k. turn (start_index n after k rest) ((before ++ s ∷ []) ++ rest))
            (omega (arith, size))
          ∙ turn-start_index n after (before ++ s ∷ []) rest (omega (arith, size)))
]

choose-lap_result :
    (s : Slot) (rest : List Slot) (o : Option Slot)
    → after_lap s rest (lap_result o) ≡ choose s rest o
unfolding after_lap lap_result choose
choose-lap_result s rest none = refl
choose-lap_result s rest (some t) = refl

-- The index arithmetic of the choice comes to this: it takes the first RM with spare capacity, in
-- ring order from the one behind the last assigned and once round, and if there is none the least
-- loaded RM, marked as overflow. It fails on the empty ring only.
pub pick_next_rm-eq-pick_by_walk :
    (ring : List Slot) (after : ℕ) → pick_next_rm ring after ≡ pick_by_walk ring after
unfolding pick_next_rm pick_by_walk walk
pick_next_rm-eq-pick_by_walk [] after = refl
pick_next_rm-eq-pick_by_walk (s ∷ rest) after =
    let ring = s ∷ rest in
    let start = start_index (length ring) after 0 ring in
    let laps =
      lap-first ring start (length ring) 0 (start_index-lt (length ring) after 0 ring (omega arith))
        (omega arith) in
    rw (laps, turn-start_index (length ring) after [] ring (omega arith))
      (choose-lap_result s rest (first has_capacity (walk_from [] after ring)))
