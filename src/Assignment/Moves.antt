-- ===== src/Assignment/Moves.antt =====
-- What one move of a client does to the tables (internal/repository/rm_repo.go, applyAssignmentTx).
use astra_backend.Prelude.{
  ℕ, ◌≡◌, refl, ap, ◌∙◌, true, ◌⊎◌, inl, inr, Option, none, some, ◌∷◌, arith, Text,
}
use astra_backend.Store.{Error, store_failure, World, write_checked, or_raise, failure, pure, raise}
use astra_backend.Store.Laws.{Ends, Ends-map, read_step, write_checked_step, write_checked-Ends}
use astra_backend.Desk.{Action, HistoryRow, Desk, is_known_rm, set_owner, owner_of}
use astra_backend.Assignment.{
  update_owner, insert_history, apply_assignment, reason_value, current_rm,
}

-- The row that a move appends to the history.
abbrev pub move_row : ℕ → ℕ → Option ℕ → Option ℕ → Action → Text → Option ℕ → HistoryRow
move_row now user from to action reason actor = record {
  user_id = user;
  from_rm_id = from;
  to_rm_id = to;
  action = action;
  reason = reason_value reason;
  actor_rm_id = actor;
  created_at = now;
}

-- The tables after a move: the user's owner is `to`, and the history has one more row.
abbrev pub moved : HistoryRow → Desk → Desk
moved h d = record d { users = set_owner h.user_id h.to_rm_id d.users; history = h ∷ d.history }

update_owner-ok :
    (user : ℕ) (to : Option ℕ) (d d' : Desk) (u : Unit {0})
    → update_owner user to d ≡ some (d', u)
    → (d' ≡ record d { users = set_owner user to d.users }) × (is_known_rm d.staff to ≡ true)
unfolding update_owner
update_owner-ok user to d d' u e = ground arith

insert_history-ok :
    (h : HistoryRow) (d d' : Desk) (u : Unit {0})
    → insert_history h d ≡ some (d', u)
    → d' ≡ record d { history = h ∷ d.history }
unfolding insert_history
insert_history-ok h d d' u e = ground arith

pub apply_assignment-Ends :
    (now user : ℕ) (from to : Option ℕ) (action : Action) (reason : Text) (actor : Option ℕ)
    (w : World Desk)
    → Ends
        (λ _ d.
          (d ≡ moved (move_row now user from to action reason actor) w.tables)
          × (is_known_rm w.tables.staff to ≡ true))
        (λ e _. e ≡ store_failure)
        (apply_assignment now user from to action reason actor w)
unfolding apply_assignment
apply_assignment-Ends now user from to action reason actor w =
    let row = move_row now user from to action reason actor in
    let P : Unit {0} → Desk → Type 0 =
      λ _ d. (d ≡ moved row w.tables) × (is_known_rm w.tables.staff to ≡ true) in
    let Q : Error → Desk → Type 0 = λ e _. e ≡ store_failure in
    write_checked_step (Ends P Q) w (update_owner user to) (λ _. write_checked (insert_history row))
      (λ fs. refl)
      λ fs t u e.
        let owned = update_owner-ok user to w.tables t u e in
        Ends-map {P' = P} {Q' = Q} _
          (λ u' t' inserted. (
            insert_history-ok row t t' u' inserted
                ∙ ap (λ (d : Desk). record d { history = row ∷ d.history }) owned.0,
            owned.1,
          ))
          (λ e' t' h. h.0)
          (write_checked-Ends (record w { tables = t; faults = fs }) (insert_history row))

-- `currentRMTx` gives the owner of a user that exists, and fails on any other.
pub current_rm-Ends :
    (user : ℕ) (w : World Desk)
    → Ends
        (λ from d. (owner_of user w.tables ≡ some from) × (d ≡ w.tables))
        (λ e _.
          (e ≡ store_failure) ⊎ ((e ≡ failure "read current rm") × (owner_of user w.tables ≡ none)))
        (current_rm user w)
unfolding current_rm or_raise pure raise
current_rm-Ends user w =
    read_step
      (Ends (λ from d. (owner_of user w.tables ≡ some from) × (d ≡ w.tables))
        (λ e _.
          (e ≡ store_failure)
          ⊎ ((e ≡ failure "read current rm") × (owner_of user w.tables ≡ none))))
      w (owner_of user) (λ o. or_raise o (failure "read current rm")) (λ fs. inl refl)
      (λ fs. known (owner_of user w.tables) (record w { faults = fs }) refl)
  where
    known :
        (o : Option (Option ℕ)) (w' : World Desk)
        → w'.tables ≡ w.tables
        → Ends
            (λ from d. (o ≡ some from) × (d ≡ w.tables))
            (λ e _. (e ≡ store_failure) ⊎ ((e ≡ failure "read current rm") × (o ≡ none)))
            (or_raise o (failure "read current rm") w')
    known none w' same = inr (refl, refl)
    known (some from) w' same = (refl, same)
