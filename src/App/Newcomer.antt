-- ===== src/App/Newcomer.antt =====
-- internal/repository/user_repo.go: FindOrCreateUser for a phone that nobody has.
use astra_backend.Prelude.{
  List, ℕ, ◌≡◌, refl, sym, ap, subst, ◌∙◌, inl, inr, Bool, true, false, Option, none, some, Text,
  if◌then◌else◌,
}
use astra_backend.Store.{Result, ok, err, Error, World, Call, pure}
use astra_backend.Store.Laws.{Ends, within-Ends, attempt_step}
use astra_backend.Store.Outcomes.{later, reach_at, write_checked_at}
use astra_backend.Assignment.{assign_next_rm}
use astra_backend.Desk.{Desk}
use astra_backend.App.{
  with_person, App, Person, on_desk, find_by_phone, wish, insert_person, new_person, welcome,
  sign_up,
}
use astra_backend.App.People.{Signed, Partly}

ran :
    {A S : Type 0} (r : Result A × World S) → Ends (λ _ t. t ≡ r.1.tables) (λ _ t. t ≡ r.1.tables) r
ran (ok a, w) = refl
ran (err e, w) = refl

module _ (now : ℕ) (astra phone name : Text) (wants : Option Bool) (start : World App) (v : ℕ)
    (absent : find_by_phone phone start.tables ≡ none) where
  abbrev before : App
  before = start.tables

  abbrev Fails : Error → App → Type 0
  Fails = Partly now astra phone name wants start

  abbrev wanted : Bool
  wanted = wish wants false

  abbrev fresh : Person
  fresh = new_person now astra phone name wanted before.next_id

  abbrev added : App
  added = with_person now fresh before

  -- The next RM for the new user, from tables of the app, with these outcomes of round trips.
  abbrev desk_from : Bool → Desk → List Bool → List (Option Text) → Desk
  desk_from b d fs es =
      if b
      then (assign_next_rm now fresh.id (record { tables = d; faults = fs; entropy = es })).1.tables
      else d

  abbrev Greeted : Bool → World App → App → Type 0
  Greeted b w t =
      (t.people ≡ w.tables.people) × (t.desk ≡ desk_from b w.tables.desk w.faults w.entropy)

  greet-Ends :
      (b : Bool) (w : World App)
      → Ends
          (λ _ t. Greeted b w t)
          (λ _ t. Greeted b w t)
          ((if b then on_desk (assign_next_rm now fresh.id) else pure 0) w)
  unfolding pure on_desk
  greet-Ends true w =
      within-Ends _ _ (λ _ t. Greeted true w t) (λ _ t. Greeted true w t) _ w (ran _)
        (λ a t h. (refl, h)) (λ e t h. (refl, h))
  greet-Ends false w = (refl, refl)

  welcome-Ends :
      (w : World App)
      → w.tables ≡ added
      → w.faults ≡ later (later start.faults)
      → w.entropy ≡ start.entropy
      → Ends (Signed now astra phone name wants start v) Fails (welcome now fresh w)
  unfolding welcome pure
  welcome-Ends w same left drawn =
      reach_at R _ w.faults w (inr (inr (absent, ap (λ (t : App). t.people) same))) (
        attempt_step (λ _ t. Greeted wanted behind t) (λ _ t. Greeted wanted behind t) R
          (if wanted then on_desk (assign_next_rm now fresh.id) else pure 0)
          (λ _. pure (fresh, true)) behind (greet-Ends wanted behind)
          (λ a w' done. made w'.tables done) (λ e w' done. made w'.tables done))
    where
      R : Result (Person × Bool) × World App → Type 0
      R = Ends (Signed now astra phone name wants start v) Fails

      behind : World App
      behind = record w { faults = later w.faults }

      made :
          (t : App)
          → Greeted wanted behind t
          → Signed now astra phone name wants start v (fresh, true) t
      made t done = inr (
        refl,
        absent,
        refl,
        done.0 ∙ ap (λ (a : App). a.people) same,
        done.1
            ∙ ap (λ (a : App). desk_from wanted a.desk (later w.faults) w.entropy) same
            ∙ ap (λ (fs : List Bool). desk_from wanted added.desk (later fs) w.entropy) left
            ∙ ap
                (λ (es : List (Option Text)).
                  desk_from wanted added.desk (later (later (later start.faults))) es)
                drawn,
      )

  inserted :
      (t : App) (r : Person × Bool)
      → insert_person now astra phone name wanted before ≡ some (t, r)
      → ((fresh, true) ≡ r) × (added ≡ t)
  unfolding insert_person
  inserted t r e = split (find_by_phone phone before) _ absent e
    where
      out : Option (App × (Person × Bool)) → Type 0
      out none = Unit
      out (some (t', r')) = ((fresh, true) ≡ r') × (added ≡ t')

      split :
          (o : Option Person) (b : Bool)
          → o ≡ none
          → (elim o as (λ _. Option (App × (Person × Bool))) [
            | some p ↦ some (before, (p, false))
            | none ↦ if b then none else some (added, (fresh, true))
          ])
            ≡ some (t, r)
          → ((fresh, true) ≡ r) × (added ≡ t)
      split (some p) b gone k = cc
      split none true gone k = cc
      split none false gone k = subst out k (refl, refl)

  pub sign_up-Ends :
      (w : World App)
      → w.tables ≡ before
      → w.faults ≡ later start.faults
      → w.entropy ≡ start.entropy
      → Ends
          (Signed now astra phone name wants start v)
          Fails
          (sign_up now astra phone name wanted w)
  unfolding sign_up pure
  sign_up-Ends w same left drawn =
      write_checked_at R (insert_person now astra phone name wanted) _ w.faults w
        (inl (ap (λ (t : App). t.people) same))
        λ t r e.
          let made = inserted t r (ap (insert_person now astra phone name wanted) (sym same) ∙ e) in
          subst
            (λ (r : Person × Bool). R (next r (record w { tables = t; faults = later w.faults })))
            made.0
            (welcome-Ends (record w { tables = t; faults = later w.faults }) (sym made.1)
              (ap later left) drawn)
    where
      R : Result (Person × Bool) × World App → Type 0
      R = Ends (Signed now astra phone name wants start v) Fails

      next : Person × Bool → World App → Result (Person × Bool) × World App
      next r = elim r.1 as (λ _. Call App (Person × Bool)) [
        | false ↦ pure (r.0, false)
        | true ↦ welcome now r.0
      ]
