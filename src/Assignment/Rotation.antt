-- ===== src/Assignment/Rotation.antt =====
-- internal/repository/rm_repo.go, AssignNextRM: the round robin over the active RMs.
use astra_backend.Prelude.{
  ℕ, ◌+◌, ◌≡◌, refl, subst, ◌∙◌, ◌⊎◌, inl, inr, Bool, true, Option, none, some, [],
}
use astra_backend.Ring.{pick_next_rm}
use astra_backend.Ring.Capacity.{IsSound, pick_next_rm-IsSound}
use astra_backend.Store.{
  Error, store_failure, no_active_rm, failure, Result, World, Call, pure, ◌>>=◌, ◌>>◌, read, write,
  or_raise, raise,
}
use astra_backend.Store.Laws.{Ends, bind_step, read_step, write_step, transaction-Ends}
use astra_backend.Desk.{auto_assign, Desk, active_ring, owner_of, is_known_rm}
use astra_backend.Assignment.{or_nil, chosen_of, current_rm, apply_assignment, assign_next_rm}
use astra_backend.Assignment.Moves.{move_row, moved, apply_assignment-Ends, current_rm-Ends}

-- The desk after an automatic assignment.
abbrev pub advanced : ℕ → ℕ → Option ℕ → ℕ → Desk → Desk
advanced now user from chosen d =
    record (moved (move_row now user from (some chosen) auto_assign [] none) d) {
      last_assigned_rm_id = some chosen;
      rotation_seq = d.rotation_seq + 1;
    }

-- What the ring chooses at a desk.
abbrev pub next_of : Desk → Option (ℕ × Bool)
next_of d = pick_next_rm (active_ring d) (or_nil d.last_assigned_rm_id)

module _ (now user : ℕ) (w : World Desk) where
  abbrev pub Assigned : ℕ → Desk → Type 0
  Assigned chosen d =
      (overflow : Bool) × (from : Option ℕ) × (next_of w.tables ≡ some (chosen, overflow))
      × (owner_of user w.tables ≡ some from)
      × (is_known_rm w.tables.staff (some chosen) ≡ true)
      × (d ≡ advanced now user from chosen w.tables)

  abbrev pub Refused : Error → Type 0
  Refused e =
      (e ≡ store_failure)
      ⊎ ((e ≡ failure "read current rm") × (owner_of user w.tables ≡ none))
      ⊎ ((e ≡ no_active_rm) × (active_ring w.tables ≡ []))

  lost : Refused store_failure
  lost = inl refl

  -- The steps after the choice.
  assign_chosen : ℕ → Call Desk ℕ
  assign_chosen chosen = do
    from ← current_rm user
    apply_assignment now user from (some chosen) auto_assign [] none
    write (λ d. record d { last_assigned_rm_id = some chosen; rotation_seq = d.rotation_seq + 1 })
    pure chosen

  assign_chosen-Ends :
      (chosen : ℕ) (overflow : Bool) (w' : World Desk)
      → next_of w.tables ≡ some (chosen, overflow)
      → w'.tables ≡ w.tables
      → Ends Assigned (λ e _. Refused e) (assign_chosen chosen w')
  unfolding assign_chosen ◌>>=◌ pure
  assign_chosen-Ends chosen overflow w' picked same =
      bind_step _ _ R (current_rm user) _ w' (current_rm-Ends user w')
        (λ from w1 owner.
          bind_step _ _ R (apply_assignment now user from (some chosen) auto_assign [] none) _ w1
            (apply_assignment-Ends now user from (some chosen) auto_assign [] none w1)
            (λ u w2 done.
              write_step R w2
                (λ d. record d {
                  last_assigned_rm_id = some chosen;
                  rotation_seq = d.rotation_seq + 1;
                })
                (pure chosen) (λ fs. lost)
                (λ fs.
                  let same1 : w1.tables ≡ w.tables = owner.1 ∙ same in
                  (
                    overflow,
                    from,
                    picked,
                    subst (λ (d : Desk). owner_of user d ≡ some from) same owner.0,
                    subst (λ (d : Desk). is_known_rm d.staff (some chosen) ≡ true) same1 done.1,
                    rw (done.0, same1),
                  )))
            (λ e w2 h. inl h))
        (λ e w1 h. current_rm_refused e h)
    where
      R : Result ℕ × World Desk → Type 0
      R = Ends Assigned (λ e _. Refused e)

      current_rm_refused :
          (e : Error)
          → ((e ≡ store_failure)
              ⊎ ((e ≡ failure "read current rm") × (owner_of user w'.tables ≡ none)))
          → Refused e
      current_rm_refused e (inl h) = inl h
      current_rm_refused e (inr h) =
          inr (inl (h.0, subst (λ (d : Desk). owner_of user d ≡ none) same h.1))

  -- An automatic assignment moves the user to the RM that the ring chooses, logs it and turns the
  -- ring, all of it or, on any error, nothing. The error is that of the database, or there is no such
  -- user, or the ring of active RMs is empty.
  pub assign_next_rm-Ends :
      Ends Assigned (λ e d. Refused e × (d ≡ w.tables)) (assign_next_rm now user w)
  unfolding assign_next_rm assign_chosen ◌>>=◌ or_raise pure raise
  assign_next_rm-Ends = transaction-Ends Assigned Refused _ w lost λ fs.
      read_step R (record w { faults = fs }) (λ d. d.last_assigned_rm_id)
        (λ last. do
          ring ← read active_ring
          chosen ← or_raise (chosen_of (pick_next_rm ring (or_nil last))) no_active_rm
          assign_chosen chosen)
        (λ fs1. lost)
        λ fs1.
          read_step R (record w { faults = fs1 }) active_ring
            (λ ring.
              or_raise (chosen_of (pick_next_rm ring (or_nil w.tables.last_assigned_rm_id)))
                no_active_rm
              >>= assign_chosen)
            (λ fs2. lost) λ fs2. choice (next_of w.tables) refl (record w { faults = fs2 }) refl
    where
      R : Result ℕ × World Desk → Type 0
      R = Ends Assigned (λ e _. Refused e)

      choice :
          (o : Option (ℕ × Bool))
          → next_of w.tables ≡ o
          → (w' : World Desk) → w'.tables ≡ w.tables
          → R ((or_raise (chosen_of o) no_active_rm >>= assign_chosen) w')
      choice none e w' same = inr (
          inr (
            refl,
            subst (IsSound (active_ring w.tables)) e
                (pick_next_rm-IsSound (active_ring w.tables) (or_nil w.tables.last_assigned_rm_id)),
          ))
      choice (some (chosen, overflow)) e w' same = assign_chosen-Ends chosen overflow w' e same
