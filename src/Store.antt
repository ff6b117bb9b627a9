-- ===== src/Store.antt =====
-- How the services reach PostgreSQL (github.com/jackc/pgx): calls that may fail, and transactions.
-- The outcome of each round trip is data of the world, so a theorem holds for every way to fail.
pub mod Laws
pub mod Outcomes
pub mod Guards
use astra_backend.Prelude.{
  Bool, true, false, String, Option, none, some, List, [], ◌∷◌, Text, if◌then◌else◌,
}

-- The sentinels of internal/apiresponse/errors.go with the message that they wrap, those of the
-- repositories, and the failures of what is called.
pub data Error : Type 0 where
  validation unauthorized forbidden not_found conflict : String → Error
  no_active_rm no_consent no_rows : Error
  store_failure entropy_failure signing_failure : Error
  failure : String → Error

pub data Result (A : Type 0) : Type 0 where
  ok : A → Result A
  err : Error → Result A

-- `faults`: whether each round trip to come fails; when the list is used up they all succeed.
-- `entropy`: the random texts to come (tokens in their encoding, codes of six digits), `none` for a
-- read of crypto/rand that fails.
pub record World (S : Type 0) : Type 0 where
  pub tables : S
  pub faults : List Bool
  pub entropy : List (Option Text)

abbrev pub Call : Type 0 → Type 0 → Type 0
Call S A = World S → Result A × World S

module _ {S : Type 0} {A : Type 0} where
  unfoldable pub pure : A → Call S A
  pure a w = (ok a, w)

  unfoldable pub raise : Error → Call S A
  raise e w = (err e, w)

infixl 5 ◌>>=◌ ◌>>◌
unfoldable pub ◌>>=◌ : {S A B : Type 0} → Call S A → (A → Call S B) → Call S B
◌>>=◌ m f w = let (r, w') = m w in elim r [ ok a ↦ f a w' | err e ↦ (err e, w') ]

-- A call whose error the caller looks at.
unfoldable pub attempt : {S A : Type 0} → Call S A → Call S (Result A)
attempt m w = let (r, w') = m w in (ok r, w')

abbrev pub ◌>>◌ : {S A B : Type 0} → Call S A → Call S B → Call S B
m >> k = m >>= λ _. k

abbrev pub raise_if : {S : Type 0} → Bool → Error → Call S (Unit {0})
raise_if b e = if b then raise e else pure tt

module _ {S : Type 0} where
  settle : List Bool → World S → Result (Unit {0}) × World S
  settle [] w = (ok tt, w)
  settle (true ∷ rest) w = (err store_failure, record w { faults = rest })
  settle (false ∷ rest) w = (ok tt, record w { faults = rest })

  -- One round trip.
  unfoldable pub reach : Call S (Unit {0})
  unfolding settle
  reach w = settle w.faults w

module _ {S : Type 0} {A : Type 0} where
  -- A statement that reads, and one that changes the tables and returns a value.
  unfoldable pub read : (S → A) → Call S A
  unfolding reach ◌>>=◌
  read f = reach >>= λ _ w. (ok (f w.tables), w)

  unfoldable pub write_returning : (S → S × A) → Call S A
  unfolding reach ◌>>=◌
  write_returning f = reach >>= λ _ w. let (t, a) = f w.tables in (ok a, record w { tables = t })

  -- A statement that the tables' constraints may refuse.
  unfoldable pub write_checked : (S → Option (S × A)) → Call S A
  unfolding reach ◌>>=◌
  write_checked f = reach >>= λ _ w. elim (f w.tables) [
    | none ↦ (err store_failure, w)
    | some (t, a) ↦ (ok a, record w { tables = t })
  ]

  unfoldable pub or_raise : Option A → Error → Call S A
  unfolding pure raise
  or_raise none e = raise e
  or_raise (some a) e = pure a

  -- The end of a transaction: an error rolls back, and so does a commit that fails.
  roll_back : S → Result A × World S → Result A × World S
  roll_back before (ok a, w) = (ok a, w)
  roll_back before (err e, w) = (err e, record w { tables = before })

  -- `pool.Begin`, the body, `tx.Commit`, with the deferred `tx.Rollback`.
  unfoldable pub transaction : Call S A → Call S A
  unfolding reach roll_back ◌>>=◌ pure
  transaction m w = roll_back w.tables ((reach >>= λ _. m >>= λ a. reach >>= λ _. pure a) w)

module _ {S : Type 0} where
  unfoldable pub write : (S → S) → Call S (Unit {0})
  unfolding reach ◌>>=◌
  write f = reach >>= λ _ w. (ok tt, record w { tables = f w.tables })

  -- A world in which every round trip succeeds.
  abbrev pub quiet : S → List (Option Text) → World S
  quiet t es = record { tables = t; faults = []; entropy = es }

  -- The next random text.
  abbrev pub draw : List (Option Text) → World S → Result Text × World S
  draw [] w = (err entropy_failure, w)
  draw (none ∷ rest) w = (err entropy_failure, record w { entropy = rest })
  draw (some t ∷ rest) w = (ok t, record w { entropy = rest })

  unfoldable pub random_text : Call S Text
  random_text w = draw w.entropy w

-- A call on a part of the tables.
unfoldable pub within : {S T A : Type 0} → (S → T) → (T → S → S) → Call T A → Call S A
within get set m w =
    let (r, w') = m (record { tables = get w.tables; faults = w.faults; entropy = w.entropy }) in
    (r, record { tables = set w'.tables w.tables; faults = w'.faults; entropy = w'.entropy })
