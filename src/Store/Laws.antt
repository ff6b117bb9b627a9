-- ===== src/Store/Laws.antt =====
-- Rules for calls: how a call ends, for every outcome of its round trips.
use astra_backend.Prelude.{◌≡◌, refl, List, Option, none, some, Bool, true, false, [], ◌∷◌}
use astra_backend.Store.{
  Error, store_failure, Result, ok, err, World, Call, pure, ◌>>=◌, settle, reach, read, write,
  write_returning, write_checked, roll_back, transaction, attempt, within,
}

-- What holds of the value and the tables after a success, and of the error and the tables after a
-- failure.
abbrev pub Ends :
    {S A : Type 0} → (A → S → Type 0) → (Error → S → Type 0) → Result A × World S → Type 0
Ends P Q (ok a, w) = P a w.tables
Ends P Q (err e, w) = Q e w.tables

module _ {S : Type 0} where
  settle_step :
      {B : Type 0} (R : Result B × World S → Type 0) (k : World S → Result B × World S)
      (faults : List Bool) (w : World S)
      → ((fs : List Bool) → R (err store_failure, record w { faults = fs }))
      → ((fs : List Bool) → R (k (record w { faults = fs })))
      → R ((settle faults >>= λ _. k) w)
  unfolding settle ◌>>=◌
  settle_step R k [] w lost done = done w.faults
  settle_step R k (true ∷ rest) w lost done = lost rest
  settle_step R k (false ∷ rest) w lost done = done rest

  settle_read :
      {A B : Type 0} (R : Result B × World S → Type 0) (g : Call S A) (k : A → Call S B)
      (faults : List Bool) (w : World S)
      → ((fs : List Bool) → R (err store_failure, record w { faults = fs }))
      → ((fs : List Bool) → R ((g >>= k) (record w { faults = fs })))
      → R (((settle faults >>= λ _. g) >>= k) w)
  unfolding settle ◌>>=◌
  settle_read R g k [] w lost done = done w.faults
  settle_read R g k (true ∷ rest) w lost done = lost rest
  settle_read R g k (false ∷ rest) w lost done = done rest

  module _ {A B : Type 0} (R : Result B × World S → Type 0) (w : World S) where
    pub read_step :
        (f : S → A) (k : A → Call S B)
        → ((fs : List Bool) → R (err store_failure, record w { faults = fs }))
        → ((fs : List Bool) → R (k (f w.tables) (record w { faults = fs })))
        → R ((read f >>= k) w)
    unfolding read reach ◌>>=◌
    read_step f k lost done = settle_read R (λ w'. (ok (f w'.tables), w')) k w.faults w lost done

    pub write_returning_step :
        (f : S → S × A) (k : A → Call S B)
        → ((fs : List Bool) → R (err store_failure, record w { faults = fs }))
        → ((fs : List Bool)
            → R (k (f w.tables).1 (record w { tables = (f w.tables).0; faults = fs })))
        → R ((write_returning f >>= k) w)
    unfolding write_returning reach ◌>>=◌
    write_returning_step f k lost done =
        settle_read R (λ w'. let (t, a) = f w'.tables in (ok a, record w' { tables = t })) k
          w.faults w lost done

    -- The constraints refuse the change and the tables stay, or they allow it.
    refusable_step :
        (o : Option (S × A)) (k : A → Call S B) (fs : List Bool)
        → R (err store_failure, record w { faults = fs })
        → ((t : S) (a : A) → o ≡ some (t, a) → R (k a (record w { tables = t; faults = fs })))
        → R (
            ((λ (w' : World S). elim o [
              | none ↦ (err store_failure, w')
              | some (t, a) ↦ (ok a, record w' { tables = t })
            ])
                >>= k)
              (record w { faults = fs }))
    unfolding ◌>>=◌
    refusable_step none k fs lost done = lost
    refusable_step (some (t, a)) k fs lost done = done t a refl

    pub write_checked_step :
        (f : S → Option (S × A)) (k : A → Call S B)
        → ((fs : List Bool) → R (err store_failure, record w { faults = fs }))
        → ((fs : List Bool) (t : S) (a : A)
            → f w.tables ≡ some (t, a)
            → R (k a (record w { tables = t; faults = fs })))
        → R ((write_checked f >>= k) w)
    unfolding write_checked reach ◌>>=◌
    write_checked_step f k lost done =
        settle_read R
          (λ w'. elim (f w'.tables) [
            | none ↦ (err store_failure, w')
            | some (t, a) ↦ (ok a, record w' { tables = t })
          ])
          k w.faults w lost (λ fs. refusable_step (f w.tables) k fs (lost fs) (done fs))

  module _ {B : Type 0} (R : Result B × World S → Type 0) (w : World S) where
    -- A round trip fails and the tables stay, or the rest goes on.
    pub reach_step :
        (k : Call S B)
        → ((fs : List Bool) → R (err store_failure, record w { faults = fs }))
        → ((fs : List Bool) → R (k (record w { faults = fs })))
        → R ((reach >>= λ _. k) w)
    unfolding reach ◌>>=◌
    reach_step k lost done = settle_step R k w.faults w lost done

    pub write_step :
        (f : S → S) (k : Call S B)
        → ((fs : List Bool) → R (err store_failure, record w { faults = fs }))
        → ((fs : List Bool) → R (k (record w { tables = f w.tables; faults = fs })))
        → R ((write f >>= λ _. k) w)
    unfolding write reach ◌>>=◌
    write_step f k lost done =
        settle_read R (λ w'. (ok tt, record w' { tables = f w'.tables })) (λ _. k) w.faults w lost
          done

  -- How one statement ends.
  module _ (w : World S) where
    pub write-Ends :
        (f : S → S)
        → Ends (λ _ t. t ≡ f w.tables) (λ e t. (e ≡ store_failure) × (t ≡ w.tables)) (write f w)
    unfolding write reach ◌>>=◌
    write-Ends f =
        reach_step (Ends (λ _ t. t ≡ f w.tables) (λ e t. (e ≡ store_failure) × (t ≡ w.tables))) w
          (λ w'. (ok tt, record w' { tables = f w'.tables })) (λ fs. (refl, refl)) (λ fs. refl)

  module _ {A : Type 0} (w : World S) where
    pub read-Ends :
        (f : S → A)
        → Ends
            (λ a t. (a ≡ f w.tables) × (t ≡ w.tables))
            (λ e t. (e ≡ store_failure) × (t ≡ w.tables))
            (read f w)
    unfolding read reach ◌>>=◌
    read-Ends f =
        reach_step
          (Ends (λ a t. (a ≡ f w.tables) × (t ≡ w.tables))
            (λ e t. (e ≡ store_failure) × (t ≡ w.tables)))
          w (λ w'. (ok (f w'.tables), w')) (λ fs. (refl, refl)) (λ fs. (refl, refl))

    pub write_checked-Ends :
        (f : S → Option (S × A))
        → Ends
            (λ a t. f w.tables ≡ some (t, a))
            (λ e t. (e ≡ store_failure) × (t ≡ w.tables))
            (write_checked f w)
    unfolding write_checked reach ◌>>=◌
    write_checked-Ends f =
        reach_step
          (Ends (λ a t. f w.tables ≡ some (t, a)) (λ e t. (e ≡ store_failure) × (t ≡ w.tables))) w
          (λ w'. elim (f w'.tables) [
            | none ↦ (err store_failure, w')
            | some (t, a) ↦ (ok a, record w' { tables = t })
          ])
          (λ fs. (refl, refl)) (λ fs. checked (f w.tables) (record w { faults = fs }) refl)
      where
        checked :
            (o : Option (S × A)) (w' : World S)
            → w'.tables ≡ w.tables
            → Ends
                (λ a t. o ≡ some (t, a))
                (λ e t. (e ≡ store_failure) × (t ≡ w.tables))
                (let r : Result A × World S = elim o [
                  | none ↦ (err store_failure, w')
                  | some (t, a) ↦ (ok a, record w' { tables = t })
                ] in
                  r)
        checked none w' same = (refl, same)
        checked (some (t, a)) w' same = refl

    -- One checked statement, and what follows of the tables that it makes.
    pub write_checked-Makes :
        (P : A → S → Type 0) (f : S → Option (S × A))
        → ((a : A) (t : S) → f w.tables ≡ some (t, a) → P a t)
        → Ends P (λ e t. (e ≡ store_failure) × (t ≡ w.tables)) (write_checked f w)
    write_checked-Makes P f made = weaken (write_checked f w) (write_checked-Ends f)
      where
        weaken :
            (r : Result A × World S)
            → Ends (λ a t. f w.tables ≡ some (t, a)) (λ e t. (e ≡ store_failure) × (t ≡ w.tables)) r
            → Ends P (λ e t. (e ≡ store_failure) × (t ≡ w.tables)) r
        weaken (ok a, w') h = made a w'.tables h
        weaken (err e, w') h = h

  -- Calls in sequence: what the first one ends with, the second one begins with.
  module _ {A B : Type 0} (P : A → S → Type 0) (Q : Error → S → Type 0)
      (R : Result B × World S → Type 0) where
    result_step :
        (f : A → Call S B) (r : Result A × World S)
        → Ends P Q r
        → ((a : A) (w : World S) → P a w.tables → R (f a w))
        → ((e : Error) (w : World S) → Q e w.tables → R (err e, w))
        → R (((λ (_ : World S). r) >>= f) r.1)
    unfolding ◌>>=◌
    result_step f (ok a, w) h next lost = next a w h
    result_step f (err e, w) h next lost = lost e w h

    pub bind_step :
        (m : Call S A) (f : A → Call S B) (w : World S)
        → Ends P Q (m w)
        → ((a : A) (w' : World S) → P a w'.tables → R (f a w'))
        → ((e : Error) (w' : World S) → Q e w'.tables → R (err e, w'))
        → R ((m >>= f) w)
    unfolding ◌>>=◌
    bind_step m f w h next lost = result_step f (m w) h next lost

    attempt_result :
        (f : Result A → Call S B) (r : Result A × World S)
        → Ends P Q r
        → ((a : A) (w : World S) → P a w.tables → R (f (ok a) w))
        → ((e : Error) (w : World S) → Q e w.tables → R (f (err e) w))
        → R ((attempt (λ (_ : World S). r) >>= f) r.1)
    unfolding ◌>>=◌ attempt
    attempt_result f (ok a, w) h done lost = done a w h
    attempt_result f (err e, w) h done lost = lost e w h

    -- A call whose error does not end the caller.
    pub attempt_step :
        (m : Call S A) (f : Result A → Call S B) (w : World S)
        → Ends P Q (m w)
        → ((a : A) (w' : World S) → P a w'.tables → R (f (ok a) w'))
        → ((e : Error) (w' : World S) → Q e w'.tables → R (f (err e) w'))
        → R ((attempt m >>= f) w)
    unfolding ◌>>=◌ attempt
    attempt_step m f w h done lost = attempt_result f (m w) h done lost

    bind_exact_result :
        (f : A → Call S B) (given r : Result A × World S)
        → given ≡ r
        → Ends P Q r
        → ((a : A) (w : World S) → given ≡ (ok a, w) → P a w.tables → R (f a w))
        → ((e : Error) (w : World S) → Q e w.tables → R (err e, w))
        → R (((λ (_ : World S). r) >>= f) r.1)
    unfolding ◌>>=◌
    bind_exact_result f given (ok a, w) same h next lost = next a w same h
    bind_exact_result f given (err e, w) same h next lost = lost e w h

    -- The same, and that the next step starts from what the call returned.
    pub bind_exact :
        (m : Call S A) (f : A → Call S B) (w : World S)
        → Ends P Q (m w)
        → ((a : A) (w' : World S) → m w ≡ (ok a, w') → P a w'.tables → R (f a w'))
        → ((e : Error) (w' : World S) → Q e w'.tables → R (err e, w'))
        → R ((m >>= f) w)
    unfolding ◌>>=◌
    bind_exact m f w h next lost = bind_exact_result f (m w) (m w) refl h next lost

    attempt_exact_result :
        (f : Result A → Call S B) (given r : Result A × World S)
        → given ≡ r
        → Ends P Q r
        → ((a : A) (w : World S) → given ≡ (ok a, w) → P a w.tables → R (f (ok a) w))
        → ((e : Error) (w : World S) → given ≡ (err e, w) → Q e w.tables → R (f (err e) w))
        → R ((attempt (λ (_ : World S). r) >>= f) r.1)
    unfolding ◌>>=◌ attempt
    attempt_exact_result f given (ok a, w) same h done lost = done a w same h
    attempt_exact_result f given (err e, w) same h done lost = lost e w same h

    pub attempt_exact :
        (m : Call S A) (f : Result A → Call S B) (w : World S)
        → Ends P Q (m w)
        → ((a : A) (w' : World S) → m w ≡ (ok a, w') → P a w'.tables → R (f (ok a) w'))
        → ((e : Error) (w' : World S) → m w ≡ (err e, w') → Q e w'.tables → R (f (err e) w'))
        → R ((attempt m >>= f) w)
    unfolding ◌>>=◌ attempt
    attempt_exact m f w h done lost = attempt_exact_result f (m w) (m w) refl h done lost

  -- A weaker description of how a call ends.
  module _ {A : Type 0} {P P' : A → S → Type 0} {Q Q' : Error → S → Type 0} where
    pub Ends-map :
        (r : Result A × World S)
        → ((a : A) (t : S) → P a t → P' a t)
        → ((e : Error) (t : S) → Q e t → Q' e t)
        → Ends P Q r
        → Ends P' Q' r
    Ends-map (ok a, w) done lost h = done a w.tables h
    Ends-map (err e, w) done lost h = lost e w.tables h

  -- Two descriptions of how a call ends.
  module _ {A : Type 0} (P P' : A → S → Type 0) (Q Q' : Error → S → Type 0) where
    pub Ends-both :
        (r : Result A × World S)
        → Ends P Q r
        → Ends P' Q' r
        → Ends (λ a t. P a t × P' a t) (λ e t. Q e t × Q' e t) r
    Ends-both (ok a, w) h k = (h, k)
    Ends-both (err e, w) h k = (h, k)

  -- A transaction ends with what its body did, or with the tables that it began with.
  module _ {A : Type 0} (P : A → S → Type 0) (Q : Error → Type 0) where
    roll_back-Ends :
        (before : S) (r : Result A × World S)
        → Ends P (λ e _. Q e) r
        → Ends P (λ e t. Q e × (t ≡ before)) (roll_back before r)
    unfolding roll_back
    roll_back-Ends before (ok a, w) h = h
    roll_back-Ends before (err e, w) h = (h, refl)

    pub transaction-Ends :
        (m : Call S A) (w : World S)
        → Q store_failure
        → ((fs : List Bool) → Ends P (λ e _. Q e) (m (record w { faults = fs })))
        → Ends P (λ e t. Q e × (t ≡ w.tables)) (transaction m w)
    unfolding transaction ◌>>=◌ pure
    transaction-Ends m w lost body = roll_back-Ends w.tables _ (
        reach_step (Ends P (λ e _. Q e)) w (m >>= λ a. reach >>= λ _. pure a) (λ fs. lost)
          (λ fs.
            bind_step P (λ e _. Q e) (Ends P (λ e _. Q e)) m (λ a. reach >>= λ _. pure a)
              (record w { faults = fs }) (body fs)
              (λ a w' h. reach_step (Ends P (λ e _. Q e)) w' (pure a) (λ fs'. lost) (λ fs'. h))
              (λ e w' h. h)))

-- A call on a part of the tables ends as it does on that part, with the rest as before.
module _ {S T A : Type 0} (get : S → T) (set : T → S → S) {P : A → T → Type 0}
    {Q : Error → T → Type 0} (P' : A → S → Type 0) (Q' : Error → S → Type 0) where
  within_result :
      (r : Result A × World T) (s : S)
      → Ends P Q r
      → ((a : A) (t : T) → P a t → P' a (set t s))
      → ((e : Error) (t : T) → Q e t → Q' e (set t s))
      → Ends P' Q'
          (r.0, record { tables = set r.1.tables s; faults = r.1.faults; entropy = r.1.entropy })
  within_result (ok a, w) s h done lost = done a w.tables h
  within_result (err e, w) s h done lost = lost e w.tables h

  pub within-Ends :
      (m : Call T A) (w : World S)
      → Ends P Q (m (record { tables = get w.tables; faults = w.faults; entropy = w.entropy }))
      → ((a : A) (t : T) → P a t → P' a (set t w.tables))
      → ((e : Error) (t : T) → Q e t → Q' e (set t w.tables))
      → Ends P' Q' (within get set m w)
  unfolding within
  within-Ends m w h done lost = within_result _ w.tables h done lost
