-- ===== src/Admin/Moves.antt =====
-- How the requests of internal/service/rm_admin.go that move a client end.
use astra_backend.Prelude.{
  ℕ, ◌≡◌, refl, ap, ◌∙◌, subst, true, false, not, Option, none, some, [], arith, Text, text_eq,
  ◌==◌, first-some,
}
use astra_backend.Store.{Result, World, ◌>>=◌}
use astra_backend.Store.Laws.{Ends, Ends-map, read_step}
use astra_backend.Store.Guards.{raise_if_step, or_raise_step, assoc_step}
use astra_backend.Desk.{
  role_rm, status_active, remove, StaffUser, Desk, find_staff, owner_of, is_known_rm, is_active_rm,
}
use astra_backend.Assignment.{actor_of, manual_assign}
use astra_backend.Assignment.Moves.{move_row, moved}
use astra_backend.Assignment.Manual.{Moved, manual_assign-Ends, unassign-Ends}
use astra_backend.Assignment.Offboarding.{IsActiveRm}
use astra_backend.Admin.{
  action_for, require_staff, require_owner, require_active_rm, assign_client, transfer_client,
  remove_client,
}

module _ (now actor user : ℕ) (before : Desk) where
  -- The client went from their owner to an active RM, and the log says which: `assign` from no owner,
  -- `transfer` from another.
  abbrev pub Handed : ℕ → Text → Desk → Type 0
  Handed rm reason after =
      IsActiveRm before.staff rm
      × ((from : Option ℕ) × (owner_of user before ≡ some from)
          × (is_known_rm before.staff (some rm) ≡ true)
          × (after
              ≡ moved (move_row now user from (some rm) (action_for from) reason (actor_of actor))
                  before))

  abbrev pub Released : Text → Desk → Type 0
  Released reason after =
      (rm : ℕ) × (owner_of user before ≡ some (some rm))
      × (after ≡ moved (move_row now user (some rm) none remove reason (actor_of actor)) before)

  target_active :
      (rm : ℕ) (s : StaffUser)
      → find_staff rm before.staff ≡ some s
      → not (text_eq s.role role_rm) ≡ false
      → not (text_eq s.status status_active) ≡ false
      → IsActiveRm before.staff rm
  unfolding is_active_rm
  target_active rm s found role on =
      let row = first-some (λ (r : StaffUser). r.id == rm) before.staff s found in
      (s, ground (arith, row.1), row.0, ground arith)

  same_owner :
      (a b : Option ℕ) → owner_of user before ≡ some a → owner_of user before ≡ some b → a ≡ b
  same_owner a b x y = cc

  module _ (rm : ℕ) (reason : Text) where
    abbrev R : Result (Unit {0}) × World Desk → Type 0
    R r = Ends (λ _ after. Handed rm reason after) (λ _ after. after ≡ before) r

    hand-Ends :
        (owner : Option ℕ) (w : World Desk)
        → IsActiveRm before.staff rm
        → owner_of user before ≡ some owner
        → w.tables ≡ before
        → R (manual_assign now user rm actor (action_for owner) reason w)
    hand-Ends owner w target owned same =
        Ends-map {P' = λ _ after. Handed rm reason after} {Q' = λ _ after. after ≡ before} _
          (λ _ t m. handed t (
            subst
              (λ (d : Desk).
                Moved now user (some rm) (action_for owner) reason (actor_of actor) d t)
              same m))
          (λ e t h. h.1 ∙ same) (manual_assign-Ends now user rm actor (action_for owner) reason w)
      where
        handed :
            (t : Desk)
            → Moved now user (some rm) (action_for owner) reason (actor_of actor) before t
            → Handed rm reason t
        handed t (from, was, known, done) = (
          target,
          (
            owner,
            owned,
            known,
            done
                ∙ ap
                    (λ (o : Option ℕ).
                      moved
                        (move_row now user o (some rm) (action_for owner) reason (actor_of actor))
                        before)
                    (same_owner from owner was owned),
          ),
        )

    -- The checks on the target and the client, and the move.
    checked-Ends :
        (w : World Desk)
        → w.tables ≡ before
        → R (
            (require_staff rm >>= λ target. require_active_rm target >>= λ _.
            require_owner user >>= λ owner.
            manual_assign now user rm actor (action_for owner) reason)
              w)
    unfolding require_staff require_owner require_active_rm
    checked-Ends w same = assoc_step R w _ _ _ (
        read_step R w _ _ (λ _. same)
          λ fs.
            or_raise_step R _ _ _ _ (λ _. same)
              λ s found. assoc_step R _ _ _ _ (
                raise_if_step R _ _ _ _ (λ _. same)
                  λ role.
                    raise_if_step R _ _ _ _ (λ _. same)
                      λ on. assoc_step R _ _ _ _ (
                        read_step R _ _ _ (λ _. same)
                          λ fs'.
                            or_raise_step R _ _ _ _ (λ _. same)
                              λ owner owned.
                                hand-Ends owner _
                                  (target_active rm s
                                    (subst (λ (d : Desk). find_staff rm d.staff ≡ some s) same
                                      found)
                                    role on)
                                  (subst (λ (d : Desk). owner_of user d ≡ some owner) same owned)
                                  same)))

-- What Assign does, on every branch: the client goes to an active RM, as an `assign` if nobody had
-- them and as a `transfer` otherwise, and the move is logged; on any error nothing changes.
pub assign_client-Ends :
    (now actor user rm : ℕ) (w : World Desk)
    → Ends
        (λ _ after. Handed now actor user w.tables rm [] after)
        (λ _ after. after ≡ w.tables)
        (assign_client now actor user rm w)
unfolding assign_client
assign_client-Ends now actor user rm w =
    raise_if_step (R now actor user w.tables rm []) w _ _ _ (λ _. refl)
      λ _. checked-Ends now actor user w.tables rm [] w refl

-- What Transfer does, on every branch: as Assign, with the reason given.
pub transfer_client-Ends :
    (now actor user to_rm : ℕ) (reason : Text) (w : World Desk)
    → Ends
        (λ _ after. Handed now actor user w.tables to_rm reason after)
        (λ _ after. after ≡ w.tables)
        (transfer_client now actor user to_rm reason w)
unfolding transfer_client
transfer_client-Ends now actor user to_rm reason w =
    raise_if_step (R now actor user w.tables to_rm reason) w _ _ _ (λ _. refl)
      λ _. checked-Ends now actor user w.tables to_rm reason w refl

-- What Remove does, on every branch: a client whom an RM held is left with none, and the log says
-- whose they were; on any error nothing changes, and a client with no RM is an error.
pub remove_client-Ends :
    (now actor user : ℕ) (reason : Text) (w : World Desk)
    → Ends
        (λ _ after. Released now actor user w.tables reason after)
        (λ _ after. after ≡ w.tables)
        (remove_client now actor user reason w)
unfolding remove_client require_owner
remove_client-Ends now actor user reason w =
    let R' =
      Ends (λ _ after. Released now actor user w.tables reason after)
        (λ _ after. after ≡ w.tables) in
    raise_if_step R' w _ _ _ (λ _. refl)
      λ _. assoc_step R' w _ _ _ (
        read_step R' w _ _ (λ _. refl)
          λ fs.
            or_raise_step R' _ _ _ _ (λ _. refl)
              λ owner owned.
                or_raise_step R' _ owner _ _ (λ _. refl)
                  λ rm held.
                    Ends-map {P' = λ _ after. Released now actor user w.tables reason after}
                      {Q' = λ _ after. after ≡ w.tables} _
                      (λ _ t m. released rm owner t owned held m) (λ e t h. h.1)
                      (unassign-Ends now user actor reason (record w { faults = fs })))
  where
    released :
        (rm : ℕ) (owner : Option ℕ) (t : Desk)
        → owner_of user w.tables ≡ some owner
        → owner ≡ some rm
        → Moved now user none remove reason (actor_of actor) w.tables t
        → Released now actor user w.tables reason t
    released rm owner t owned held (from, was, known, done) = (
      rm,
      owned ∙ ap some held,
      done
          ∙ ap
              (λ (o : Option ℕ).
                moved (move_row now user o none remove reason (actor_of actor)) w.tables)
              (same_owner now actor user w.tables from owner was owned ∙ held),
    )
