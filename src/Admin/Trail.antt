-- ===== src/Admin/Trail.antt =====
-- Sequences of requests to the RM console (internal/service/rm_admin.go, internal/repository): what
-- the profiles of the clients and the assignment history keep saying of each other.
use astra_backend.Prelude.{
  ℕ, ◌≡◌, refl, sym, subst, ◌⊎◌, inl, inr, Bool, true, false, Option, none, some, List, [], ◌∷◌,
  ◌++◌, arith, Text, ◌==◌, All-map, change, Option-cases,
}
use astra_backend.Store.{Error, Result, ok, err, World, pure}
use astra_backend.Store.Laws.{Ends, read_step, write_checked_step}
use astra_backend.Store.Guards.{raise_if_step, or_raise_step, assoc_step}
use astra_backend.Desk.{Action, StaffUser, Desk, is_known_rm, remove}
use astra_backend.Staff.{Public, UpdateRmRequest, create_staff, update_staff, updated}
use astra_backend.Assignment.{actor_of}
use astra_backend.Assignment.Moves.{move_row, moved}
use astra_backend.Assignment.Manual.{Moved, unassign-Ends}
use astra_backend.Assignment.Rotation.{Assigned, assign_next_rm-Ends}
use astra_backend.Assignment.Redistribution.{Offboarded, Fails, offboard_rm-Ends}
use astra_backend.Assignment.Steps.{
  Reach, here, next, move, turn, IsTraced, IsReferenced, Reach-IsTraced, Reach-IsReferenced,
}
use astra_backend.Admin.{
  CreateRmRequest, create_rm, create_row, update_rm, update_row, assign_client, transfer_client,
  remove_client, require_staff, offboard, sync_rm_assignment,
}
use astra_backend.Admin.Moves.{
  Handed, Released, assign_client-Ends, transfer_client-Ends, remove_client-Ends,
}

-- The profile of each client names the RM that the history ends with, and that RM is on the staff.
pub record IsLogged (d : Desk) : Type 0 where
  pub traced : IsTraced d
  pub referenced : IsReferenced d

-- A request, with the acting admin; the last one is a client's change of the advisory opt-in.
pub data Request : Type 0 where
  create : ℕ → CreateRmRequest → Request
  update : ℕ → UpdateRmRequest → Request
  assign : ℕ → ℕ → ℕ → Request
  transfer : ℕ → ℕ → ℕ → Text → Request
  release : ℕ → ℕ → Text → Request
  leave : ℕ → ℕ → Text → Request
  opt_in : ℕ → Bool → Request

-- The tables, and what else there is of the world, after a request.
unfoldable pub serve : ℕ → Request → World Desk → World Desk
serve now (create id req) w = (create_rm now id req w).1
serve now (update rm req) w = (update_rm now rm req w).1
serve now (assign actor user rm) w = (assign_client now actor user rm w).1
serve now (transfer actor user rm reason) w = (transfer_client now actor user rm reason w).1
serve now (release actor user reason) w = (remove_client now actor user reason w).1
serve now (leave actor rm reason) w = (offboard now actor rm reason w).1
serve now (opt_in user wants) w = (sync_rm_assignment now user wants w).1

unfoldable pub serve_all : List (ℕ × Request) → World Desk → World Desk
unfolding serve
serve_all [] w = w
serve_all ((now, q) ∷ rest) w = serve_all rest (serve now q w)

Reach-IsLogged : {d e : Desk} → Reach d e → IsLogged d → IsLogged e
Reach-IsLogged r h = record {
  traced = Reach-IsTraced r h.traced;
  referenced = Reach-IsReferenced r h.referenced;
}

known_after_create :
    (staff : List StaffUser) (row : StaffUser) (rm : Option ℕ)
    → is_known_rm staff rm ≡ true
    → is_known_rm (staff ++ row ∷ []) rm ≡ true
unfolding is_known_rm
known_after_create staff row none h = refl
known_after_create [] row (some rm) h = absurd (ground arith)
known_after_create (s ∷ staff) row (some rm) h =
    ground (arith, known_after_create staff row (some rm))

known_after_update :
    (staff : List StaffUser) (id : ℕ) (f : StaffUser → StaffUser) (rm : Option ℕ)
    → ((s : StaffUser) → (f s).id ≡ s.id)
    → is_known_rm staff rm ≡ true
    → is_known_rm (change (λ r. r.id == id) f staff) rm ≡ true
unfolding is_known_rm
known_after_update staff id f none same h = refl
known_after_update [] id f (some rm) same h = h
known_after_update (s ∷ staff) id f (some rm) same h =
    ground (arith, same s, known_after_update staff id f (some rm) same)

-- Staff who come, or change in anything but their id, disturb nothing.
restaffed :
    (d : Desk) (staff : List StaffUser)
    → ((rm : Option ℕ) → is_known_rm d.staff rm ≡ true → is_known_rm staff rm ≡ true)
    → IsLogged d
    → IsLogged (record d { staff = staff })
restaffed d staff known h = record {
  traced = h.traced;
  referenced = All-map _ _ d.users (λ u. known u.assigned_rm_id) h.referenced;
}

create_staff-some :
    (now id : ℕ) (code email name phone role : Text) (limit : ℕ) (staff staff' : List StaffUser)
    (s : StaffUser)
    → create_staff now id code email name phone role limit staff ≡ some (staff', s)
    → staff' ≡ staff ++ s ∷ []
unfolding create_staff
create_staff-some now id code email name phone role limit staff staff' s e = ground arith

create_row-IsLogged :
    (now id : ℕ) (code email name phone role : Text) (limit : ℕ) (d d' : Desk) (s : StaffUser)
    → create_row now id code email name phone role limit d ≡ some (d', s)
    → IsLogged d
    → IsLogged d'
unfolding create_row
create_row-IsLogged now id code email name phone role limit d d' s e h =
    elim (Option-cases (create_staff now id code email name phone role limit d.staff)) [
      | inl n ↦ absurd (ground (arith, n))
      | inr ((staff, row), n) ↦
          let same : d' ≡ record d { staff = d.staff ++ row ∷ [] } = ground (
            arith,
            n,
            create_staff-some now id code email name phone role limit d.staff staff row n,
          ) in
          subst IsLogged (sym same)
            (restaffed d (d.staff ++ row ∷ []) (λ rm. known_after_create d.staff row rm) h)
    ]

update_staff-some :
    (now rm : ℕ) (req : UpdateRmRequest) (staff staff' : List StaffUser) (s : Option StaffUser)
    → update_staff now rm req staff ≡ some (staff', s)
    → (staff' ≡ staff) ⊎ (staff' ≡ change (λ r. r.id == rm) (updated now req) staff)
unfolding update_staff
update_staff-some now rm req staff staff' s e = ground arith

update_row-IsLogged :
    (now rm : ℕ) (req : UpdateRmRequest) (d d' : Desk) (s : Option StaffUser)
    → update_row now rm req d ≡ some (d', s)
    → IsLogged d
    → IsLogged d'
unfolding update_row updated
update_row-IsLogged now rm req d d' s e h = elim (Option-cases (update_staff now rm req d.staff)) [
  | inl n ↦ absurd (ground (arith, n))
  | inr ((staff, found), n) ↦
      let same : d' ≡ record d { staff = staff } = ground (arith, n) in
      subst IsLogged (sym same) (by_rows staff (update_staff-some now rm req d.staff staff found n))
]
  where
    by_rows :
        (staff : List StaffUser)
        → (staff ≡ d.staff) ⊎ (staff ≡ change (λ r. r.id == rm) (updated now req) d.staff)
        → IsLogged (record d { staff = staff })
    by_rows staff (inl e') =
        subst (λ (l : List StaffUser). IsLogged (record d { staff = l })) (sym e') h
    by_rows staff (inr e') =
        subst (λ (l : List StaffUser). IsLogged (record d { staff = l })) (sym e')
          (restaffed d _ (λ o. known_after_update d.staff rm (updated now req) o (λ r. refl)) h)

-- A call that only reaches from its tables, or leaves them.
Ends-IsLogged :
    {A : Type 0} {P : A → Desk → Type 0} {Q : Error → Desk → Type 0} (d : Desk)
    (r : Result A × World Desk)
    → IsLogged d
    → Ends P Q r
    → ((a : A) (t : Desk) → P a t → Reach d t)
    → ((e : Error) (t : Desk) → Q e t → t ≡ d)
    → IsLogged r.1.tables
Ends-IsLogged d (ok a, w) h e done lost = Reach-IsLogged (done a w.tables e) h
Ends-IsLogged d (err x, w) h e done lost = subst IsLogged (sym (lost x w.tables e)) h

Moved-Reach :
    (now user : ℕ) (from to : Option ℕ) (action : Action) (reason : Text) (actor : Option ℕ)
    (d t : Desk)
    → is_known_rm d.staff to ≡ true
    → t ≡ moved (move_row now user from to action reason actor) d
    → Reach d t
Moved-Reach now user from to action reason actor d t known e =
    subst (Reach d) (sym e)
      (next here (move (move_row now user from to action reason actor) d known))

nobody : (staff : List StaffUser) → is_known_rm staff none ≡ true
unfolding is_known_rm
nobody staff = refl

create_rm-IsLogged :
    (now id : ℕ) (req : CreateRmRequest) (w : World Desk)
    → IsLogged w.tables
    → IsLogged (create_rm now id req w).1.tables
unfolding create_rm pure
create_rm-IsLogged now id req w h =
    let R : Result Public × World Desk → Type 0 = λ r. IsLogged r.1.tables in
    raise_if_step R w _ _ _ (λ _. h)
      λ _.
        raise_if_step R w _ _ _ (λ _. h)
          λ _.
            raise_if_step R w _ _ _ (λ _. h)
              λ _.
                raise_if_step R w _ _ _ (λ _. h)
                  λ _.
                    raise_if_step R w _ _ _ (λ _. h)
                      λ _.
                        read_step R w _ _ (λ _. h)
                          λ _.
                            raise_if_step R _ _ _ _ (λ _. h)
                              λ _.
                                read_step R _ _ _ (λ _. h)
                                  λ _.
                                    raise_if_step R _ _ _ _ (λ _. h)
                                      λ _.
                                        write_checked_step R _ _ _ (λ _. h)
                                          λ fs t s e.
                                            create_row-IsLogged now id _ _ _ _ _ _ w.tables t s e h

update_rm-IsLogged :
    (now rm : ℕ) (req : UpdateRmRequest) (w : World Desk)
    → IsLogged w.tables
    → IsLogged (update_rm now rm req w).1.tables
unfolding update_rm pure
update_rm-IsLogged now rm req w h =
    let R : Result Public × World Desk → Type 0 = λ r. IsLogged r.1.tables in
    raise_if_step R w _ _ _ (λ _. h)
      λ _.
        raise_if_step R w _ _ _ (λ _. h)
          λ _.
            write_checked_step R w _ _ (λ _. h)
              λ fs t found e.
                let kept = update_row-IsLogged now rm req w.tables t found e h in
                or_raise_step R _ found _ _ (λ _. kept) (λ s there. kept)

offboard-IsLogged :
    (now actor rm : ℕ) (reason : Text) (w : World Desk)
    → IsLogged w.tables
    → IsLogged (offboard now actor rm reason w).1.tables
unfolding offboard require_staff
offboard-IsLogged now actor rm reason w h =
    let R : Result ℕ × World Desk → Type 0 = λ r. IsLogged r.1.tables in
    assoc_step R w _ _ _ (
      read_step R w _ _ (λ _. h)
        λ fs.
          or_raise_step R _ _ _ _ (λ _. h)
            λ s found.
              Ends-IsLogged w.tables _ h
                (offboard_rm-Ends now rm actor reason (record w { faults = fs }))
                (λ (moved : ℕ) (t : Desk)
                    (o : Offboarded now rm (actor_of actor) reason w.tables moved t).
                  o.1.reached)
                (λ (e : Error) (t : Desk)
                    (x : Fails now rm (actor_of actor) reason e × (t ≡ w.tables)).
                  x.1))

serve-IsLogged :
    (now : ℕ) (q : Request) (w : World Desk) → IsLogged w.tables → IsLogged (serve now q w).tables
unfolding serve sync_rm_assignment
serve-IsLogged now (create id req) w h = create_rm-IsLogged now id req w h
serve-IsLogged now (update rm req) w h = update_rm-IsLogged now rm req w h
serve-IsLogged now (assign actor user rm) w h =
    Ends-IsLogged w.tables _ h (assign_client-Ends now actor user rm w)
      (λ (_ : Unit {0}) (t : Desk) (m : Handed now actor user w.tables rm [] t).
        Moved-Reach _ _ _ _ _ _ _ w.tables t m.1.2 m.1.3)
      (λ e t same. same)
serve-IsLogged now (transfer actor user rm reason) w h =
    Ends-IsLogged w.tables _ h (transfer_client-Ends now actor user rm reason w)
      (λ (_ : Unit {0}) (t : Desk) (m : Handed now actor user w.tables rm reason t).
        Moved-Reach _ _ _ _ _ _ _ w.tables t m.1.2 m.1.3)
      (λ e t same. same)
serve-IsLogged now (release actor user reason) w h =
    Ends-IsLogged w.tables _ h (remove_client-Ends now actor user reason w)
      (λ (_ : Unit {0}) (t : Desk) (m : Released now actor user w.tables reason t).
        Moved-Reach _ _ _ _ _ _ _ w.tables t (nobody w.tables.staff) m.2)
      (λ e t same. same)
serve-IsLogged now (leave actor rm reason) w h = offboard-IsLogged now actor rm reason w h
serve-IsLogged now (opt_in user true) w h =
    Ends-IsLogged w.tables _ h (assign_next_rm-Ends now user w)
      (λ (chosen : ℕ) (t : Desk) (a : Assigned now user w chosen t).
        subst (Reach w.tables) (sym a.5) (
          next (next here (move (move_row now user a.1 (some chosen) _ [] none) w.tables a.4))
            (turn _ _ _)))
      (λ (e : Error) (t : Desk) (x : _ × (t ≡ w.tables)). x.1)
serve-IsLogged now (opt_in user false) w h =
    Ends-IsLogged w.tables _ h (unassign-Ends now user _ _ w)
      (λ (_ : Unit {0}) (t : Desk) (m : Moved now user none remove _ _ w.tables t).
        Moved-Reach _ _ _ _ _ _ _ w.tables t (nobody w.tables.staff) m.3)
      (λ (e : Error) (t : Desk) (x : _ × (t ≡ w.tables)). x.1)

-- After any sequence of requests, with any failures of the database in between, the profile of each
-- client still names the RM that the newest row of the history about them names, and that RM is on
-- the staff.
pub serve_all-IsLogged :
    (requests : List (ℕ × Request)) (w : World Desk)
    → IsLogged w.tables
    → IsLogged (serve_all requests w).tables
unfolding serve_all
serve_all-IsLogged [] w h = h
serve_all-IsLogged ((now, q) ∷ rest) w h =
    serve_all-IsLogged rest (serve now q w) (serve-IsLogged now q w h)
