-- ===== src/Store/Outcomes.antt =====
-- Rules for calls, continued: steps by the outcome of their round trip.
use astra_backend.Prelude.{◌≡◌, refl, List, Option, none, some, Bool, true, false, [], ◌∷◌}
use astra_backend.Store.{
  store_failure, Result, ok, err, World, Call, ◌>>=◌, attempt, reach, read, write, write_checked,
}

-- Whether the next round trip fails, and the outcomes of those behind it.
abbrev pub fails : List Bool → Bool
fails [] = false
fails (b ∷ rest) = b

abbrev pub later : List Bool → List Bool
later [] = []
later (b ∷ rest) = rest

module _ {S : Type 0} where
  -- Steps by the outcome of their round trip, with what is left of the outcomes.
  module _ {B : Type 0} (R : Result B × World S → Type 0) where
    pub reach_at :
        (k : Call S B) (fs : List Bool) (w : World S)
        → R (err store_failure, record w { faults = later fs })
        → R (k (record w { faults = later fs }))
        → R ((reach >>= λ _. k) (record w { faults = fs }))
    unfolding ◌>>=◌ reach
    reach_at k [] w lost done = done
    reach_at k (true ∷ rest) w lost done = lost
    reach_at k (false ∷ rest) w lost done = done

    pub read_at :
        {A : Type 0} (f : S → A) (k : A → Call S B) (fs : List Bool) (w : World S)
        → R (err store_failure, record w { faults = later fs })
        → R (k (f w.tables) (record w { faults = later fs }))
        → R ((read f >>= k) (record w { faults = fs }))
    unfolding ◌>>=◌ read reach
    read_at f k [] w lost done = done
    read_at f k (true ∷ rest) w lost done = lost
    read_at f k (false ∷ rest) w lost done = done

    pub write_at :
        (f : S → S) (k : Call S B) (fs : List Bool) (w : World S)
        → R (err store_failure, record w { faults = later fs })
        → R (k (record w { tables = f w.tables; faults = later fs }))
        → R ((write f >>= λ _. k) (record w { faults = fs }))
    unfolding ◌>>=◌ write reach
    write_at f k [] w lost done = done
    write_at f k (true ∷ rest) w lost done = lost
    write_at f k (false ∷ rest) w lost done = done

    checked_at :
        {A : Type 0} (o : Option (S × A)) (k : A → Call S B) (w : World S)
        → R (err store_failure, w)
        → ((t : S) (a : A) → o ≡ some (t, a) → R (k a (record w { tables = t })))
        → R (
            ((λ (w' : World S). elim o as (λ _. Result A × World S) [
              | none ↦ (err store_failure, w')
              | some (t, a) ↦ (ok a, record w' { tables = t })
            ])
                >>= k)
              w)
    unfolding ◌>>=◌
    checked_at none k w lost done = lost
    checked_at (some (t, a)) k w lost done = done t a refl

    pub write_checked_at :
        {A : Type 0} (f : S → Option (S × A)) (k : A → Call S B) (fs : List Bool) (w : World S)
        → R (err store_failure, record w { faults = later fs })
        → ((t : S) (a : A)
            → f w.tables ≡ some (t, a)
            → R (k a (record w { tables = t; faults = later fs })))
        → R ((write_checked f >>= k) (record w { faults = fs }))
    unfolding ◌>>=◌ write_checked reach
    write_checked_at f k [] w lost done =
        checked_at (f w.tables) k (record w { faults = [] }) lost done
    write_checked_at f k (true ∷ rest) w lost done = lost
    write_checked_at f k (false ∷ rest) w lost done =
        checked_at (f w.tables) k (record w { faults = rest }) lost done

  -- A read whose error does not end the caller, by the outcome of its round trip.
  pub attempt_at :
      {A B : Type 0} (R : Result B × World S → Type 0) (f : S → A) (k : Result A → Call S B)
      (fs : List Bool) (w : World S)
      → (fails fs ≡ true → R (k (err store_failure) (record w { faults = later fs })))
      → (fails fs ≡ false → R (k (ok (f w.tables)) (record w { faults = later fs })))
      → R ((attempt (read f) >>= k) (record w { faults = fs }))
  unfolding ◌>>=◌ attempt read reach
  attempt_at R f k [] w lost done = done refl
  attempt_at R f k (true ∷ rest) w lost done = lost refl
  attempt_at R f k (false ∷ rest) w lost done = done refl
