-- ===== src/App/Returning.antt =====
-- internal/repository/user_repo.go: FindOrCreateUser for a known phone.
use astra_backend.Prelude.{
  ℕ, ◌≡◌, refl, sym, ap, subst, ◌∙◌, ◌⊎◌, inl, inr, Bool, true, false, not, ◌&&◌, Option, none,
  some, List, Text, text_eq, is_empty, trim_space, ◌==◌, if◌then◌else◌, first, first-some, change,
  IsApart,
}
use astra_backend.Store.{Result, ok, err, Error, store_failure, World, pure, ◌>>=◌, ◌>>◌, write}
use astra_backend.Store.Laws.{bind_exact, Ends, write_step, bind_step}
use astra_backend.Store.Outcomes.{later, write_at}
use astra_backend.Desk.{Desk}
use astra_backend.Admin.{sync_rm_assignment}
use astra_backend.App.{
  App, Person, on_desk, find_by_phone, person_of, is_unnamed, named, set_name, wanting,
  set_wants_rm, fill_name, flips, wish, change_opt_in, come_back,
}
use astra_backend.App.People.{
  fills, synced_desk, same_person, returned, Signed, Partly, person_of-Has, changed_other,
  changed_self, on_desk-sync,
}

module _ (now : ℕ) (astra phone name : Text) (wants : Option Bool) (start : World App) (v : ℕ)
    (p : Person) (found : find_by_phone phone start.tables ≡ some p)
    (apart : IsApart same_person start.tables.people) where
  abbrev before : App
  before = start.tables

  abbrev Lost : Error → App → Type 0
  Lost = Partly now astra phone name wants start

  -- Their row is this one, and another user's is as before.
  abbrev Stands : Person → List Person → Type 0
  Stands q people =
      (first (λ (r : Person). r.id == p.id) people ≡ some q)
      × ((v == p.id) ≡ true ⊎ (first (λ (r : Person). r.id == v) people ≡ person_of v before))

  abbrev name_after : Option Text
  name_after = if fills name p then some (trim_space name) else p.name

  -- The row with its name, and the tables behind an error from here on.
  abbrev Filled : Person → App → Type 0
  Filled q t =
      (q ≡ record p { name = name_after })
      × Stands q t.people
      × (t.desk ≡ before.desk)
      × ((e : Error) → Lost e t)

  -- The outcomes of round trips that are left behind the name.
  abbrev left_behind_name : List Bool → List Bool
  left_behind_name fs = if fills name p then later fs else fs

  fill_name-left :
      (w : World App) (q : Person) (w1 : World App)
      → fill_name name p w ≡ (ok q, w1)
      → (w1.faults ≡ left_behind_name w.faults) × (w1.entropy ≡ w.entropy)
  unfolding fill_name set_name pure
  fill_name-left w q w1 e = split (fills name p) w.faults e
    where
      Left : Bool → List Bool → Result Person × World App → Type 0
      Left b fs (ok r, w') = (w'.faults ≡ (if b then later fs else fs)) × (w'.entropy ≡ w.entropy)
      Left b fs (err e, w') = Unit

      named_in : App → App
      named_in a = record a {
        people = change (λ (q : Person). q.id == p.id) (named (trim_space name)) a.people;
      }

      split :
          (b : Bool) (fs : List Bool)
          → (if b then (write named_in >> pure (named (trim_space name) p)) else pure p)
              (record w { faults = fs })
            ≡ (ok q, w1)
          → (w1.faults ≡ (if b then later fs else fs)) × (w1.entropy ≡ w.entropy)
      split false fs k = subst (Left false fs) k (refl, refl)
      split true fs k =
          subst (Left true fs) k (
            write_at (Left true fs) named_in (pure (named (trim_space name) p)) fs w tt
              (refl, refl))

  fill_name-Ends : (w : World App) → w.tables ≡ before → Ends Filled Lost (fill_name name p w)
  unfolding fill_name set_name pure
  fill_name-Ends w same = split (not (is_empty (trim_space name)) && is_unnamed p.name)
    where
      mine : person_of p.id w.tables ≡ some p
      mine =
          subst (λ (t : App). person_of p.id t ≡ some p) (sym same)
            (person_of-Has before.people p apart
              (first-some (λ (q : Person). text_eq q.phone_number phone) before.people p found).0)

      unchanged : w.tables.people ≡ before.people
      unchanged = ap (λ (t : App). t.people) same

      Part : Bool → Person → App → Type 0
      Part b q t =
          (q ≡ record p { name = if b then some (trim_space name) else p.name })
          × Stands q t.people
          × (t.desk ≡ before.desk)
          × ((e : Error) → Lost e t)

      carried :
          (people : List Person)
          → (v == p.id) ≡ true ⊎ (first (λ (r : Person). r.id == v) people ≡ person_of v w.tables)
          → (v == p.id) ≡ true ⊎ (first (λ (r : Person). r.id == v) people ≡ person_of v before)
      carried people (inl h) = inl h
      carried people (inr h) = inr (h ∙ ap (person_of v) same)

      split :
          (b : Bool)
          → Ends (Part b) Lost (
              (if b
                  then (write (λ (a : App). record a {
                    people =
                        change (λ (q : Person). q.id == p.id) (named (trim_space name)) a.people;
                  })
                      >> pure (named (trim_space name) p))
                  else pure p)
                w)
      split true =
          write_step (Ends (Part true) Lost) w _ (pure (named (trim_space name) p))
            (λ fs. inl unchanged)
            λ fs. (
              refl,
              (
                changed_self p.id v (named (trim_space name)) (λ x. refl) w.tables p mine,
                carried _ (changed_other p.id v (named (trim_space name)) (λ x. refl) w.tables),
              ),
              ap (λ (t : App). t.desk) same,
              (λ e. inr (
                  inl (
                    p,
                    found,
                    ap (change (λ (q : Person). q.id == p.id) (named (trim_space name))) unchanged,
                  ))),
            )
      split false = (
        refl,
        (mine, inr (ap (person_of v) same)),
        ap (λ (t : App). t.desk) same,
        (λ e. inl unchanged),
      )

  wish_same : (o : Option Bool) (b : Bool) → flips o b ≡ false → b ≡ wish o b
  wish_same none b h = refl
  wish_same (some true) true h = refl
  wish_same (some true) false h = cc
  wish_same (some false) true h = cc
  wish_same (some false) false h = refl

  abbrev Returned : Person → App → Type 0
  Returned q t =
      (q ≡ returned name wants p)
      × Stands q t.people
      × (((flips wants p.wants_rm ≡ true) × (t.desk ≡ synced_desk now name wants start p))
          ⊎ ((flips wants p.wants_rm ≡ false) × (t.desk ≡ before.desk)))

  abbrev filled : Person
  filled = record p { name = name_after }

  change_opt_in-Ends :
      (w : World App)
      → Filled filled w.tables
      → w.faults ≡ left_behind_name (later start.faults)
      → w.entropy ≡ start.entropy
      → Ends Returned Lost (change_opt_in now wants filled w)
  unfolding change_opt_in set_wants_rm pure
  change_opt_in-Ends w h left same = split (flips wants p.wants_rm) refl
    where
      want : Bool
      want = wish wants p.wants_rm

      desk_from : Desk → List Bool → List (Option Text) → Desk
      desk_from d fs es =
          (sync_rm_assignment now p.id want
            (record { tables = d; faults = later fs; entropy = es })).1.tables

      step : App → App
      step a = record a { people = change (λ (q : Person). q.id == p.id) (wanting want) a.people }

      carried :
          (people : List Person)
          → (v == p.id) ≡ true ⊎ (first (λ (r : Person). r.id == v) people ≡ person_of v w.tables)
          → (v == p.id) ≡ true
            ⊎ (first (λ (r : Person). r.id == v) w.tables.people ≡ person_of v before)
          → (v == p.id) ≡ true ⊎ (first (λ (r : Person). r.id == v) people ≡ person_of v before)
      carried people (inl e) k = inl e
      carried people (inr e) (inl k) = inl k
      carried people (inr e) (inr k) = inr (e ∙ k)

      split :
          (b : Bool)
          → flips wants p.wants_rm ≡ b
          → Ends Returned Lost (
              (if b
                  then (write step >>= λ _. on_desk (sync_rm_assignment now p.id want) >>= λ _.
                      pure (wanting want filled))
                  else pure filled)
                w)
      split false e = (
        ap (λ (b : Bool). record filled { wants_rm = b }) (wish_same wants p.wants_rm e),
        h.1,
        inr (e, h.2),
      )
      split true e = write_at (Ends Returned Lost) step _ w.faults w (h.3 store_failure) (
          bind_step
            (λ _ t.
              (t.people ≡ (step w.tables).people)
              × (t.desk ≡ desk_from w.tables.desk w.faults w.entropy))
            (λ _ _. ⊥) (Ends Returned Lost) (on_desk (sync_rm_assignment now p.id want))
            (λ _. pure (wanting want filled))
            (record w { tables = step w.tables; faults = later w.faults })
            (on_desk-sync now p.id want
              (record w { tables = step w.tables; faults = later w.faults }))
            (λ u w' done. (
              refl,
              subst (Stands (wanting want filled)) (sym done.0) (
                changed_self p.id v (wanting want) (λ x. refl) w.tables filled h.1.0,
                carried _ (changed_other p.id v (wanting want) (λ x. refl) w.tables) h.1.1,
              ),
              inl (
                e,
                done.1
                    ∙ ap (λ (d : Desk). desk_from d w.faults w.entropy) h.2
                    ∙ ap (λ (fs : List Bool). desk_from before.desk fs w.entropy) left
                    ∙ ap
                        (λ (es : List (Option Text)).
                          desk_from before.desk (left_behind_name (later start.faults)) es)
                        same,
              ),
            ))
            (λ e' w' lost. absurd lost))

  pub come_back-Ends :
      (w : World App)
      → w.tables ≡ before
      → w.faults ≡ later start.faults
      → w.entropy ≡ start.entropy
      → Ends (Signed now astra phone name wants start v) Lost (come_back now name wants p w)
  unfolding come_back pure
  come_back-Ends w same left drawn =
      bind_exact Filled Lost (Ends (Signed now astra phone name wants start v) Lost)
        (fill_name name p) _ w (fill_name-Ends w same)
        (λ q w1 ran h.
          let behind = fill_name-left w q w1 ran in
          bind_step Returned Lost (Ends (Signed now astra phone name wants start v) Lost)
            (change_opt_in now wants q) (λ r. pure (r, false)) w1
            (subst (λ (r : Person). Ends Returned Lost (change_opt_in now wants r w1)) (sym h.0)
              (change_opt_in-Ends w1
                (refl, subst (λ (r : Person). Stands r w1.tables.people) h.0 h.1, h.2, h.3)
                (behind.0 ∙ ap left_behind_name left) (behind.1 ∙ drawn)))
            (λ r w2 k. inl (refl, p, found, k.0, k.1.0, k.1.1, k.2)) (λ e w2 lost. lost))
        (λ e w1 lost. lost)
