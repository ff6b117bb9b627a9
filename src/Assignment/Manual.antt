-- ===== src/Assignment/Manual.antt =====
-- internal/repository/rm_repo.go, ManualAssign and Unassign: one client, moved by an admin.
use astra_backend.Prelude.{ℕ, ◌≡◌, refl, ap, ◌∙◌, ◌⊎◌, inl, true, Option, none, some, Text, subst}
use astra_backend.Store.{Error, store_failure, failure, World, ◌>>=◌, transaction}
use astra_backend.Store.Laws.{Ends, Ends-map, bind_step, transaction-Ends}
use astra_backend.Desk.{Action, remove, Desk, owner_of, is_known_rm}
use astra_backend.Assignment.{current_rm, apply_assignment, actor_of, manual_assign, unassign}
use astra_backend.Assignment.Moves.{move_row, moved, apply_assignment-Ends, current_rm-Ends}

module _ (now user : ℕ) (to : Option ℕ) (action : Action) (reason : Text) (actor : Option ℕ)
    (before : Desk) where
  -- The user was moved from the owner that they had, and the move is logged.
  abbrev pub Moved : Desk → Type 0
  Moved after =
      (from : Option ℕ) × (owner_of user before ≡ some from)
      × (is_known_rm before.staff to ≡ true)
      × (after ≡ moved (move_row now user from to action reason actor) before)

  -- The error is that of the database, or there is no such user.
  abbrev pub Unmoved : Error → Type 0
  Unmoved e =
      (e ≡ store_failure) ⊎ ((e ≡ failure "read current rm") × (owner_of user before ≡ none))

  move-Ends :
      (w : World Desk)
      → w.tables ≡ before
      → Ends
          (λ _ after. Moved after)
          (λ e after. Unmoved e × (after ≡ before))
          (transaction
            (current_rm user >>= λ from. apply_assignment now user from to action reason actor)
            w)
  move-Ends w same =
      Ends-map {P' = λ _ after. Moved after} {Q' = λ e after. Unmoved e × (after ≡ before)} _
        (λ _ t m. m) (λ e t h. (h.0, h.1 ∙ same))
        (transaction-Ends (λ _ after. Moved after) Unmoved _ w (inl refl)
          λ fs.
            bind_step _ _ (Ends (λ _ after. Moved after) (λ e _. Unmoved e)) _ _ _
              (current_rm-Ends user (record w { faults = fs }))
              (λ from w' owned.
                let same' : w'.tables ≡ before = owned.1 ∙ same in
                Ends-map {P' = λ _ after. Moved after} {Q' = λ e _. Unmoved e} _
                  (λ _ t done. (
                    from,
                    subst (λ (d : Desk). owner_of user d ≡ some from) same owned.0,
                    subst (λ (d : Desk). is_known_rm d.staff to ≡ true) same' done.1,
                    done.0 ∙ ap (moved (move_row now user from to action reason actor)) same',
                  ))
                  (λ e t h. inl h) (apply_assignment-Ends now user from to action reason actor w'))
              (λ e w' h. rw same at h))

-- A manual assignment moves the user to the RM, who is on the staff, from the owner that the user
-- had, and logs it; on any error nothing changes.
pub manual_assign-Ends :
    (now user to_rm actor : ℕ) (action : Action) (reason : Text) (w : World Desk)
    → Ends
        (λ _ after. Moved now user (some to_rm) action reason (actor_of actor) w.tables after)
        (λ e after.
          Unmoved now user (some to_rm) action reason (actor_of actor) w.tables e
          × (after ≡ w.tables))
        (manual_assign now user to_rm actor action reason w)
unfolding manual_assign
manual_assign-Ends now user to_rm actor action reason w =
    move-Ends now user (some to_rm) action reason (actor_of actor) w.tables w refl

-- A removal leaves the user with no RM and logs it, whether or not they had one; on any error nothing
-- changes.
pub unassign-Ends :
    (now user actor : ℕ) (reason : Text) (w : World Desk)
    → Ends
        (λ _ after. Moved now user none remove reason (actor_of actor) w.tables after)
        (λ e after.
          Unmoved now user none remove reason (actor_of actor) w.tables e × (after ≡ w.tables))
        (unassign now user actor reason w)
unfolding unassign
unassign-Ends now user actor reason w =
    move-Ends now user none remove reason (actor_of actor) w.tables w refl
