-- ===== src/App/People.antt =====
-- internal/repository/user_repo.go: what a sign-up or a return leaves, and one row among the users.
use astra_backend.Prelude.{
  ℕ, ◌≡◌, refl, ap, subst, ◌∙◌, ◌⊎◌, inl, inr, Bool, true, false, not, ◌&&◌, Option, none, some,
  List, [], ◌∷◌, arith, Text, is_empty, trim_space, ◌==◌, if◌then◌else◌, first, first-change,
  first-change_other, change, Has, All-Has, IsApart,
}
use astra_backend.Store.{Error, World}
use astra_backend.Store.Laws.{Ends, within-Ends}
use astra_backend.Store.Outcomes.{later}
use astra_backend.Desk.{Desk}
use astra_backend.Assignment.{assign_next_rm}
use astra_backend.Admin.{sync_rm_assignment}
use astra_backend.App.{
  App, Person, on_desk, find_by_phone, person_of, is_unnamed, named, flips, wish, new_person,
  with_person,
}

-- Ids are not shared.
abbrev pub same_person : Person → Person → Bool
same_person p q = q.id == p.id

-- The user of a known phone, with a name if there was none, and with the opt-in as wished.
abbrev pub returned : Text → Option Bool → Person → Person
returned name wants p = record p {
  name =
      if not (is_empty (trim_space name)) && is_unnamed p.name
      then some (trim_space name)
      else p.name;
  wants_rm = wish wants p.wants_rm;
}

-- A known user who has no name takes the one given.
abbrev pub fills : Text → Person → Bool
fills name p = not (is_empty (trim_space name)) && is_unnamed p.name

-- The desk of a user whose opt-in changed: the next RM, or none, as far as the outcomes of the round trips
-- behind the look-up, the name and the opt-in allow.
abbrev pub synced_desk : ℕ → Text → Option Bool → World App → Person → Desk
synced_desk now name wants w p =
    (sync_rm_assignment now p.id (wish wants p.wants_rm) (record {
      tables = w.tables.desk;
      faults = later (if fills name p then later (later w.faults) else later w.faults);
      entropy = w.entropy;
    })).1.tables

-- The desk with a new user, who has the next RM if they want one, as far as the outcomes of the round trips
-- behind the look-up, the row and the seeds allow.
abbrev pub welcomed_desk : ℕ → World App → Person → Desk
welcomed_desk now w p =
    if p.wants_rm
    then (assign_next_rm now p.id (record {
      tables = (with_person now p w.tables).desk;
      faults = later (later (later w.faults));
      entropy = w.entropy;
    })).1.tables
    else (with_person now p w.tables).desk

module _ (now : ℕ) (astra phone name : Text) (wants : Option Bool) (before : World App) where
  -- The user had the phone already: their row is the one that is returned, and another user `v` is as
  -- before; the desk is as before, or follows the opt-in if that was changed. Or nobody had it: one row is added, and
  -- the desk has the new user.
  abbrev pub Signed : ℕ → Person × Bool → App → Type 0
  Signed v r after =
      ((r.1 ≡ false)
        × (p : Person) × (find_by_phone phone before.tables ≡ some p)
        × (r.0 ≡ returned name wants p)
        × (person_of p.id after ≡ some r.0)
        × ((v == p.id) ≡ true ⊎ (person_of v after ≡ person_of v before.tables))
        × (((flips wants p.wants_rm ≡ true) × (after.desk ≡ synced_desk now name wants before p))
            ⊎ ((flips wants p.wants_rm ≡ false) × (after.desk ≡ before.tables.desk))))
      ⊎ ((r.1 ≡ true)
          × (find_by_phone phone before.tables ≡ none)
          × (r.0 ≡ new_person now astra phone name (wish wants false) before.tables.next_id)
          × (after.people ≡ r.0 ∷ before.tables.people)
          × (after.desk ≡ welcomed_desk now before r.0))

  -- What an error leaves: all as before, or the name was filled in, or the new user stands without the
  -- data that a sign-up seeds.
  abbrev pub Partly : Error → App → Type 0
  Partly e after =
      (after.people ≡ before.tables.people)
      ⊎ ((p : Person) × (find_by_phone phone before.tables ≡ some p)
          × (after.people
              ≡ change (λ q. q.id == p.id) (named (trim_space name)) before.tables.people))
      ⊎ ((find_by_phone phone before.tables ≡ none)
          × (after.people
              ≡ new_person now astra phone name (wish wants false) before.tables.next_id
                ∷ before.tables.people))

pub person_of-Has :
    (people : List Person) (p : Person)
    → IsApart same_person people
    → Has p people
    → first (λ (q : Person). q.id == p.id) people ≡ some p
person_of-Has [] p apart h = absurd h
person_of-Has (x ∷ rest) p apart (inl e) =
    subst (λ (q : Person). first (λ (r : Person). r.id == q.id) (x ∷ rest) ≡ some q) e
      (ground arith)
person_of-Has (x ∷ rest) p apart (inr h) =
    ground (
      arith,
      All-Has (λ y. same_person x y ≡ false) rest p apart.0 h,
      person_of-Has rest p apart.1 h,
    )

module _ (n v : ℕ) (f : Person → Person) (keeps : (x : Person) → (f x).id ≡ x.id) (a : App) where
  pub changed_other :
      (v == n) ≡ true
      ⊎ (first (λ (q : Person). q.id == v) (change (λ (q : Person). q.id == n) f a.people)
          ≡ person_of v a)
  changed_other = split (v == n) refl
    where
      apart_from : (v == n) ≡ false → (x : Person) → (x.id == n) ≡ true → (x.id == v) ≡ false
      apart_from e x h = ground arith

      split :
          (b : Bool)
          → (v == n) ≡ b
          → ((v == n) ≡ true)
            ⊎ (first (λ (q : Person). q.id == v) (change (λ (q : Person). q.id == n) f a.people)
                ≡ person_of v a)
      split true e = inl e
      split false e = inr (
          first-change_other (λ (q : Person). q.id == n) f (λ (q : Person). q.id == v) a.people
            (apart_from e) (λ x h. ap (λ (m : ℕ). m == v) (keeps x) ∙ apart_from e x h))

  pub changed_self :
      (q : Person)
      → person_of n a ≡ some q
      → first (λ (q : Person). q.id == n) (change (λ (q : Person). q.id == n) f a.people)
        ≡ some (f q)
  changed_self q h =
      first-change (λ (q : Person). q.id == n) f a.people q
        (λ x k. ap (λ (m : ℕ). m == n) (keeps x) ∙ k) h

sync-Ends :
    (now user : ℕ) (want : Bool) (w : World Desk)
    → Ends
        (λ _ d. d ≡ (sync_rm_assignment now user want w).1.tables)
        (λ _ _. ⊥)
        (sync_rm_assignment now user want w)
unfolding sync_rm_assignment
sync-Ends now user true w = refl
sync-Ends now user false w = refl

pub on_desk-sync :
    (now user : ℕ) (want : Bool) (w : World App)
    → Ends
        (λ _ t.
          (t.people ≡ w.tables.people)
          × (t.desk
              ≡ (sync_rm_assignment now user want (record {
                tables = w.tables.desk;
                faults = w.faults;
                entropy = w.entropy;
              })).1.tables))
        (λ _ _. ⊥)
        (on_desk (sync_rm_assignment now user want) w)
unfolding on_desk
on_desk-sync now user want w =
    within-Ends _ _
      (λ _ t.
        (t.people ≡ w.tables.people)
        × (t.desk
            ≡ (sync_rm_assignment now user want (record {
              tables = w.tables.desk;
              faults = w.faults;
              entropy = w.entropy;
            })).1.tables))
      (λ _ _. ⊥) _ w (sync-Ends now user want _) (λ u t h. (refl, h)) (λ e t h. h)
