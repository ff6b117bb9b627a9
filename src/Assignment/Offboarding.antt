-- ===== src/Assignment/Offboarding.antt =====
-- internal/repository/rm_repo.go, OffboardRM: the clients of one RM go to the rest of the desk.
use astra_backend.Prelude.{
  ℕ, ◌≡◌, ◌≢◌, refl, ap, subst, ◌⊎◌, inl, Bool, true, false, not, Option, none, some, List, [], ◌∷◌,
  arith, ◌==◌, if◌then◌else◌, All, Has, select, Has-select, Has-map, Has-order_by,
}
use astra_backend.Ring.{Slot, pick_next_rm}
use astra_backend.Ring.Capacity.{IsSound, pick_next_rm-IsSound}
use astra_backend.Desk.{
  Desk, StaffUser, User, active_ring, slot_of, is_active_rm, owner_of, find_user, HistoryRow,
  is_held_by, set_owner,
}
use astra_backend.Assignment.Moves.{moved}

-- A row of the staff table is an active RM with this id.
abbrev pub IsActiveRm : List StaffUser → ℕ → Type 0
IsActiveRm staff rm = (s : StaffUser) × (s.id ≡ rm) × Has s staff × (is_active_rm s ≡ true)

active_ring-IsActiveRm : (d : Desk) (s : Slot) → Has s (active_ring d) → IsActiveRm d.staff s.rm_id
unfolding active_ring
active_ring-IsActiveRm d s h =
    let row = Has-map (slot_of d.users) s _ h in
    let member =
      Has-select is_active_rm row.0 d.staff (
        Has-order_by (λ (r : StaffUser). r.created_at) row.0 (select is_active_rm d.staff) row.1) in
    (row.0, ap (λ (t : Slot). t.rm_id) row.2, member.0, member.1)

unfoldable pub others : ℕ → List Slot → List Slot
others rm = select (λ (s : Slot). not (s.rm_id == rm))

-- Whoever the rest of the ring gives is another active RM.
pub chosen_other :
    (d : Desk) (rm after chosen : ℕ) (overflow : Bool)
    → pick_next_rm (others rm (active_ring d)) after ≡ some (chosen, overflow)
    → IsActiveRm d.staff chosen × (chosen ≢ rm)
unfolding others
chosen_other d rm after chosen overflow e = from_sound overflow (
    subst (IsSound (others rm (active_ring d))) e
      (pick_next_rm-IsSound (others rm (active_ring d)) after))
  where
    of_slot :
        (s : Slot)
        → s.rm_id ≡ chosen
        → Has s (others rm (active_ring d))
        → IsActiveRm d.staff chosen × (chosen ≢ rm)
    of_slot s same h =
        let member = Has-select (λ (t : Slot). not (t.rm_id == rm)) s (active_ring d) h in
        (subst (IsActiveRm d.staff) same (active_ring-IsActiveRm d s member.0), ground arith)

    from_sound :
        (b : Bool)
        → IsSound (others rm (active_ring d)) (some (chosen, b))
        → IsActiveRm d.staff chosen × (chosen ≢ rm)
    from_sound false h = of_slot h.0 h.1 h.2
    from_sound true h = of_slot h.0 h.1 h.2

find_user-set_owner_ne :
    (v user : ℕ) (to : Option ℕ) (users : List User)
    → v ≢ user
    → find_user v (set_owner user to users) ≡ find_user v users
unfolding set_owner
find_user-set_owner_ne v user to [] h = refl
find_user-set_owner_ne v user to (u ∷ users) h =
    ground (arith, find_user-set_owner_ne v user to users h)

owner_of_row : Option User → Option (Option ℕ)
owner_of_row o = elim o [ none ↦ none | some u ↦ some u.assigned_rm_id ]

owner_of_set :
    (user : ℕ) (to : Option ℕ) (users : List User)
    → ((owner_of_row (find_user user (set_owner user to users)) ≡ none)
        × (owner_of_row (find_user user users) ≡ none))
      ⊎ (owner_of_row (find_user user (set_owner user to users)) ≡ some to)
unfolding set_owner owner_of_row
owner_of_set user to [] = inl (refl, refl)
owner_of_set user to (u ∷ users) = ground (arith, owner_of_set user to users)

module _ (h : HistoryRow) (d : Desk) where
  -- A move sets the owner of its user, if there is one, and of no other.
  pub owner_of-moved : (v : ℕ) → v ≢ h.user_id → owner_of v (moved h d) ≡ owner_of v d
  unfolding owner_of_row
  owner_of-moved v ne = ap owner_of_row (find_user-set_owner_ne v h.user_id h.to_rm_id d.users ne)

  pub owner_of-moved_self :
      ((owner_of h.user_id (moved h d) ≡ none) × (owner_of h.user_id d ≡ none))
      ⊎ (owner_of h.user_id (moved h d) ≡ some h.to_rm_id)
  unfolding owner_of_row
  owner_of-moved_self = owner_of_set h.user_id h.to_rm_id d.users

module _ (rm : ℕ) where
  -- Each client that the RM still holds is one of those left.
  abbrev pub Remaining : List ℕ → List User → Type 0
  Remaining ids = All (λ (u : User). is_held_by rm u ≡ true → Has u.id ids)

  -- The user's owner is as before, or another active RM.
  abbrev pub IsRedirected : Desk → Desk → ℕ → Type 0
  IsRedirected d d' v =
      (owner_of v d' ≡ owner_of v d)
      ⊎ ((r : ℕ) × (owner_of v d' ≡ some (some r)) × IsActiveRm d.staff r × (r ≢ rm))

  pub Remaining-moved :
      (user chosen : ℕ) (rest : List ℕ) (users : List User)
      → chosen ≢ rm
      → Remaining (user ∷ rest) users
      → Remaining rest (set_owner user (some chosen) users)
  unfolding set_owner
  Remaining-moved user chosen rest [] h r = tt
  Remaining-moved user chosen rest (u ∷ users) h r =
      (head, Remaining-moved user chosen rest users h r.1)
    where
      head :
          is_held_by rm (if u.id == user then record u { assigned_rm_id = some chosen } else u)
            ≡ true
          → Has (if u.id == user then record u { assigned_rm_id = some chosen } else u).id rest
      head held = ground (arith, r.0)
