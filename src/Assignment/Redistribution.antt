-- ===== src/Assignment/Redistribution.antt =====
-- internal/repository/rm_repo.go, OffboardRM: the loop over the clients, and the whole transaction.
use astra_backend.Prelude.{
  ℕ, ◌+◌, ◌≡◌, ◌≢◌, refl, sym, ap, subst, ◌∙◌, ◌⊎◌, inl, inr, Bool, true, false, All, All-map,
  Option, none, some, List, [], ◌∷◌, arith, Text, Has, length, select, order_by, order_by-Has,
  select-Has, map-Has, length-map, length-order_by,
}
use native.Mathlib.Decide.{ℕ_discrete}
use astra_backend.Ring.{pick_next_rm}
use astra_backend.Store.{
  Error, store_failure, no_active_rm, World, Call, pure, ◌>>=◌, ◌>>◌, read, write, or_raise, raise,
}
use astra_backend.Store.Laws.{Ends, Ends-map, bind_step, read_step, write_step, transaction-Ends}
use astra_backend.Desk.{
  transfer, HistoryRow, Desk, User, active_ring, owner_of, is_held_by, clients_of, count_clients,
  nil, is_known_rm,
}
use astra_backend.Assignment.{
  chosen_of, apply_assignment, offboard_loop, offboard_clients, offboard_rm, actor_of,
}
use astra_backend.Assignment.Moves.{move_row, moved, apply_assignment-Ends}
use astra_backend.Assignment.Steps.{move, turn, Reach, here, next, Reach-trans}
use astra_backend.Assignment.Offboarding.{
  IsActiveRm, others, chosen_other, owner_of-moved, owner_of-moved_self, Remaining, IsRedirected,
  Remaining-moved,
}

module _ (now rm : ℕ) (actor : Option ℕ) (reason : Text) where
  -- What the loop over `ids` has done between two desks.
  pub record IsRedistributed (ids : List ℕ) (d d' : Desk) : Type 0 where
    pub reached : Reach d d'
    pub kept : (v : ℕ) → Has v ids ⊎ (owner_of v d' ≡ owner_of v d)
    pub redirected : (v : ℕ) → IsRedirected rm d d' v
    pub emptied : All (λ (u : User). is_held_by rm u ≡ false) d'.users

  abbrev Done : List ℕ → ℕ → Desk → ℕ × ℕ → Desk → Type 0
  Done ids count d (after', count') d' = (count' ≡ count + length ids) × IsRedistributed ids d d'

  -- One move to another active RM, and then the rest.
  IsRedistributed-cons :
      (user chosen : ℕ) (rest : List ℕ) (d d' : Desk)
      → IsActiveRm d.staff chosen × (chosen ≢ rm)
      → is_known_rm d.staff (some chosen) ≡ true
      → let d1 = moved (move_row now user (some rm) (some chosen) transfer reason actor) d in
        IsRedistributed rest d1 d' → IsRedistributed (user ∷ rest) d d'
  IsRedistributed-cons user chosen rest d d' other known r = record {
    reached = Reach-trans (next here (move row d known)) r.reached;
    kept = λ v. then_kept v (ℕ_discrete v user) (r.kept v);
    redirected = λ v. then_redirected v (first_redirected v (ℕ_discrete v user)) (r.redirected v);
    emptied = r.emptied;
  }
    where
      row : HistoryRow
      row = move_row now user (some rm) (some chosen) transfer reason actor

      then_kept :
          (v : ℕ)
          → Dec (v ≡ user)
          → Has v rest ⊎ (owner_of v d' ≡ owner_of v (moved row d))
          → Has v (user ∷ rest) ⊎ (owner_of v d' ≡ owner_of v d)
      then_kept v (yes e) h = inl (inl (sym e))
      then_kept v (no ne) (inl h) = inl (inr h)
      then_kept v (no ne) (inr same) = inr (same ∙ owner_of-moved row d v ne)

      first_redirected : (v : ℕ) → Dec (v ≡ user) → IsRedirected rm d (moved row d) v
      first_redirected v (no ne) = inl (owner_of-moved row d v ne)
      first_redirected v (yes e) =
          subst (IsRedirected rm d (moved row d)) (sym e) (at_user (owner_of-moved_self row d))
        where
          at_user :
              ((owner_of user (moved row d) ≡ none) × (owner_of user d ≡ none))
                ⊎ (owner_of user (moved row d) ≡ some (some chosen))
              → IsRedirected rm d (moved row d) user
          at_user (inl h) = inl (h.0 ∙ sym h.1)
          at_user (inr h) = inr (chosen, h, other.0, other.1)

      then_redirected :
          (v : ℕ)
          → IsRedirected rm d (moved row d) v
          → IsRedirected rm (moved row d) d' v
          → IsRedirected rm d d' v
      then_redirected v h (inr later) = inr later
      then_redirected v (inl h) (inl same) = inl (same ∙ h)
      then_redirected v (inr h) (inl same) = inr (h.0, same ∙ h.1, h.2, h.3)

  -- The error of a run that ends early.
  abbrev pub Fails : Error → Type 0
  Fails e = (e ≡ store_failure) ⊎ (e ≡ no_active_rm)

  IsRedistributed-nil : (d : Desk) → Remaining rm [] d.users → IsRedistributed [] d d
  IsRedistributed-nil d r = record {
    reached = here;
    kept = λ v. inr refl;
    redirected = λ v. inl refl;
    emptied = All-map _ _ d.users (λ u out. unheld u.id (is_held_by rm u) out) r;
  }
    where
      unheld : (v : ℕ) (b : Bool) → (b ≡ true → Has v []) → b ≡ false
      unheld v false out = refl
      unheld v true out = absurd (out refl)

  -- The rest of one round, once the ring has given an RM.
  go_on : ℕ → List ℕ → ℕ → ℕ → Call Desk (ℕ × ℕ)
  go_on user rest count chosen =
      apply_assignment now user (some rm) (some chosen) transfer reason actor
      >> offboard_loop now rm actor reason rest chosen (count + 1)

  go_on-Ends :
      (user : ℕ) (rest : List ℕ) (count chosen : ℕ) (w w' : World Desk)
      → w'.tables ≡ w.tables
      → IsActiveRm w.tables.staff chosen × (chosen ≢ rm)
      → Remaining rm (user ∷ rest) w.tables.users
      → ((w1 : World Desk)
          → Remaining rm rest w1.tables.users
          → Ends
              (Done rest (count + 1) w1.tables)
              (λ e _. Fails e)
              (offboard_loop now rm actor reason rest chosen (count + 1) w1))
      → Ends (Done (user ∷ rest) count w.tables) (λ e _. Fails e) (go_on user rest count chosen w')
  unfolding go_on ◌>>=◌
  go_on-Ends user rest count chosen w w' same other r loop =
      bind_step _ _ (Ends (Done (user ∷ rest) count w.tables) (λ e _. Fails e))
        (apply_assignment now user (some rm) (some chosen) transfer reason actor)
        (λ _. offboard_loop now rm actor reason rest chosen (count + 1)) w'
        (apply_assignment-Ends now user (some rm) (some chosen) transfer reason actor w')
        (λ u w1 done.
          let row = move_row now user (some rm) (some chosen) transfer reason actor in
          let at : w1.tables ≡ moved row w.tables = done.0 ∙ ap (moved row) same in
          let known = subst (λ (d : Desk). is_known_rm d.staff (some chosen) ≡ true) same done.1 in
          Ends-map {P = Done rest (count + 1) w1.tables} {P' = Done (user ∷ rest) count w.tables}
            {Q = λ e _. Fails e} _
            (λ p d' h. (
              omega (arith, h.0),
              IsRedistributed-cons user chosen rest w.tables d' other known
                  (subst (λ (d : Desk). IsRedistributed rest d d') at h.1),
            ))
            (λ e d' h. h)
            (loop w1 (
              subst (λ (d : Desk). Remaining rm rest d.users) (sym at)
                (Remaining-moved rm user chosen rest w.tables.users other.1 r))))
        (λ e w1 h. inl h)

  offboard_loop-Ends :
      (ids : List ℕ) (after count : ℕ) (w : World Desk)
      → Remaining rm ids w.tables.users
      → Ends
          (Done ids count w.tables)
          (λ e _. Fails e)
          (offboard_loop now rm actor reason ids after count w)
  unfolding offboard_loop go_on others ◌>>=◌ or_raise pure raise
  offboard_loop-Ends [] after count w r = (omega arith, IsRedistributed-nil w.tables r)
  offboard_loop-Ends (user ∷ rest) after count w r =
      read_step (Ends (Done (user ∷ rest) count w.tables) (λ e _. Fails e)) w active_ring
        (λ ring.
          or_raise (chosen_of (pick_next_rm (others rm ring) after)) no_active_rm
          >>= go_on user rest count)
        (λ fs. inl refl)
        (λ fs.
          choice (pick_next_rm (others rm (active_ring w.tables)) after) refl
            (record w { faults = fs }) refl (λ chosen. offboard_loop-Ends rest chosen (count + 1)))
    where
      choice :
          (o : Option (ℕ × Bool))
          → pick_next_rm (others rm (active_ring w.tables)) after ≡ o
          → (w' : World Desk) → w'.tables ≡ w.tables
          → ((chosen : ℕ) (w1 : World Desk)
              → Remaining rm rest w1.tables.users
              → Ends
                  (Done rest (count + 1) w1.tables)
                  (λ e _. Fails e)
                  (offboard_loop now rm actor reason rest chosen (count + 1) w1))
          → Ends
              (Done (user ∷ rest) count w.tables)
              (λ e _. Fails e)
              ((or_raise (chosen_of o) no_active_rm >>= go_on user rest count) w')
      choice none e w' same loop = inr refl
      choice (some (chosen, overflow)) e w' same loop =
          go_on-Ends user rest count chosen w w' same
            (chosen_other w.tables rm after chosen overflow e) r (loop chosen)

  clients_of-Remaining :
      (d : Desk) (users : List User)
      → ((u : User) → Has u users → Has u d.users)
      → Remaining rm (clients_of rm d) users
  unfolding clients_of
  clients_of-Remaining d [] sub = tt
  clients_of-Remaining d (u ∷ users) sub = (
    (λ held.
        map-Has (λ (r : User). r.id) u _
          (order_by-Has (λ (r : User). r.created_at) u (select (is_held_by rm) d.users)
            (select-Has (is_held_by rm) u d.users (sub u (inl refl)) held))),
    clients_of-Remaining d users (λ r h. sub r (inr h)),
  )

  length-clients_of : (d : Desk) → length (clients_of rm d) ≡ count_clients rm d.users
  unfolding clients_of count_clients
  length-clients_of d =
      length-map (λ (u : User). u.id)
        (order_by (λ (u : User). u.created_at) (select (is_held_by rm) d.users))
      ∙ length-order_by (λ (u : User). u.created_at) (select (is_held_by rm) d.users)

  all_clients : (ids : List ℕ) (d : Desk) → clients_of rm d ≡ ids → Remaining rm ids d.users
  all_clients ids d e =
      subst (λ (l : List ℕ). Remaining rm l d.users) e (clients_of-Remaining d d.users (λ u h. h))

  -- What an offboarding that returns `moved` has done.
  abbrev pub Offboarded : Desk → ℕ → Desk → Type 0
  Offboarded d moved d' =
      (moved ≡ count_clients rm d.users) × IsRedistributed (clients_of rm d) d d'

  turned :
      (ids : List ℕ) (d d' : Desk) (last : Option ℕ)
      → IsRedistributed ids d d'
      → IsRedistributed ids d (record d' { last_assigned_rm_id = last })
  turned ids d d' last r = record {
    reached = next r.reached (turn last d'.rotation_seq d');
    kept = r.kept;
    redirected = r.redirected;
    emptied = r.emptied;
  }

  offboard_clients-Ends :
      (ids : List ℕ) (w : World Desk)
      → clients_of rm w.tables ≡ ids
      → Ends (Offboarded w.tables) (λ e _. Fails e) (offboard_clients now rm actor reason ids w)
  unfolding offboard_clients ◌>>=◌ pure
  offboard_clients-Ends [] w e = (
    omega (arith, length-clients_of w.tables, ap length e),
    subst (λ (ids : List ℕ). IsRedistributed ids w.tables w.tables) (sym e)
        (IsRedistributed-nil w.tables (all_clients [] w.tables e)),
  )
  offboard_clients-Ends (user ∷ rest) w e =
      bind_step (Done (user ∷ rest) 0 w.tables) (λ x _. Fails x)
        (Ends (Offboarded w.tables) (λ x _. Fails x))
        (offboard_loop now rm actor reason (user ∷ rest) nil 0)
        (λ p. write (λ d. record d { last_assigned_rm_id = some p.0 }) >> pure p.1) w
        (offboard_loop-Ends (user ∷ rest) nil 0 w (all_clients (user ∷ rest) w.tables e))
        (λ p w1 h.
          write_step (Ends (Offboarded w.tables) (λ x _. Fails x)) w1
            (λ d. record d { last_assigned_rm_id = some p.0 }) (pure p.1) (λ fs. inl refl)
            (λ fs. (
              omega (arith, h.0, length-clients_of w.tables, ap length e),
              subst
                  (λ (ids : List ℕ).
                    IsRedistributed ids w.tables
                      (record w1.tables { last_assigned_rm_id = some p.0 }))
                  (sym e) (turned (user ∷ rest) w.tables w1.tables (some p.0) h.1),
            )))
        (λ x w1 h. h)

-- An offboarding returns the number of clients that the RM held, and moves each of them to another
-- active RM: nobody is left with the RM, no other client changes hands. On any error, after any
-- number of moves, nothing has changed, and the error is that of the database or that no other RM is
-- active.
pub offboard_rm-Ends :
    (now rm actor : ℕ) (reason : Text) (w : World Desk)
    → Ends
        (Offboarded now rm (actor_of actor) reason w.tables)
        (λ e d. Fails now rm (actor_of actor) reason e × (d ≡ w.tables))
        (offboard_rm now rm actor reason w)
unfolding offboard_rm
offboard_rm-Ends now rm actor reason w =
    let P = Offboarded now rm (actor_of actor) reason w.tables in
    let Q = Fails now rm (actor_of actor) reason in
    transaction-Ends P Q _ w (inl refl) λ fs.
      read_step (Ends P (λ e _. Q e)) (record w { faults = fs }) (λ d. d.last_assigned_rm_id)
        (λ _. do
          clients ← read (clients_of rm)
          offboard_clients now rm (actor_of actor) reason clients)
        (λ fs1. inl refl)
        λ fs1.
          read_step (Ends P (λ e _. Q e)) (record w { faults = fs1 }) (clients_of rm)
            (offboard_clients now rm (actor_of actor) reason) (λ fs2. inl refl)
            λ fs2.
              offboard_clients-Ends now rm (actor_of actor) reason (clients_of rm w.tables)
                (record w { faults = fs2 }) refl
