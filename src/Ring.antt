-- ===== src/Ring.antt =====
-- internal/domain/rm/ring.go: the assignment ring of the active RMs, and the choice of the next one.
pub mod Rotation
pub mod Capacity
use astra_backend.Prelude.{
  ℕ, zero, suc, ◌+◌, ◌%◌, Bool, true, false, Option, none, some, List, [], ◌∷◌, ltb, ◌==◌,
  if◌then◌else◌, length, get_elem?,
}

-- One active RM: its id, its capacity, and the clients that it holds.
pub record Slot : Type 0 where
  pub rm_id : ℕ
  pub max_portfolios : ℕ
  pub client_count : ℕ

abbrev pub has_capacity : Slot → Bool
has_capacity s = ltb s.client_count s.max_portfolios

-- The start index: just after `after` in the ring of `n` slots, or 0 if it is not there; `i` is the
-- index of the slot in front.
unfoldable pub start_index : ℕ → ℕ → ℕ → List Slot → ℕ
start_index n after i [] = 0
start_index n after i (s ∷ rest) =
    if s.rm_id == after then (i + 1) % n else start_index n after (i + 1) rest

-- How the lap ends: at a slot with capacity, with none found, or by an index out of range (a panic).
pub data Lap : Type 0 where
  found : Slot → Lap
  full : Lap
  out_of_range : Lap

-- The lap from `start`, with `left` slots to look at and `off` behind.
unfoldable pub lap : List Slot → ℕ → ℕ → ℕ → Lap
lap ring start zero off = full
lap ring start (suc left) off = elim (get_elem? ring ((start + off) % length ring)) [
  | none ↦ out_of_range
  | some s ↦ elim (has_capacity s) [ true ↦ found s | false ↦ lap ring start left (off + 1) ]
]

-- The least loaded slot; on a tie the first one stays.
unfoldable pub least_loaded : Slot → List Slot → Slot
least_loaded least [] = least
least_loaded least (s ∷ rest) =
    least_loaded (if ltb s.client_count least.client_count then s else least) rest

-- What the lap gives: the chosen id and whether it overflows. `none` after a panic.
unfoldable pub after_lap : Slot → List Slot → Lap → Option (ℕ × Bool)
unfolding least_loaded
after_lap s rest (found t) = some (t.rm_id, false)
after_lap s rest full = some ((least_loaded s rest).rm_id, true)
after_lap s rest out_of_range = none

-- `none` is the result `ok = false`, for the empty ring.
unfoldable pub pick_next_rm : List Slot → ℕ → Option (ℕ × Bool)
unfolding start_index lap after_lap
pick_next_rm [] after = none
pick_next_rm (s ∷ rest) after =
    let ring = s ∷ rest in
    let start = start_index (length ring) after 0 ring in
    after_lap s rest (lap ring start (length ring) 0)
