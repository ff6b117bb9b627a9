-- ===== src/Fetching/Stores.antt =====
-- internal/service/idbiaa/service.go: what FetchStatements stores of a statement.
use astra_backend.Prelude.{
  ℕ, ◌≡◌, refl, ap, ◌⊎◌, inl, inr, Bool, true, false, List, [], ◌∷◌, Text, if◌then◌else◌, IsApart,
}
use astra_backend.Store.{store_failure, Result, World, pure, read}
use astra_backend.Store.Laws.{Ends, within-Ends, read-Ends}
use astra_backend.Spend.{SpendRow}
use astra_backend.Spend.Table.{Spends, upsert_spend_transactions}
use astra_backend.Spend.Lookup.{clash}
use astra_backend.Spend.Upserted.{Upserted, upsert_spend_transactions-Ends}
use astra_backend.Consent.{Aggregator}
use astra_backend.Fetching.{Records, Source, source_aa, on_aggregator, on_spends, store_rows}

pub on_aggregator-Ends :
    {A : Type 0} (f : Aggregator → A) (w : World Records)
    → Ends
        (λ a r. (a ≡ f w.tables.aggregator) × (r ≡ w.tables))
        (λ e r. (e ≡ store_failure) × (r ≡ w.tables))
        (on_aggregator (read f) w)
unfolding on_aggregator
on_aggregator-Ends f w =
    within-Ends _ _ (λ a r. (a ≡ f w.tables.aggregator) × (r ≡ w.tables))
      (λ e r. (e ≡ store_failure) × (r ≡ w.tables)) _ w (read-Ends _ f)
      (λ a t h. (h.0, ap (λ (g : Aggregator). record w.tables { aggregator = g }) h.1))
      (λ e t h. (h.0, ap (λ (g : Aggregator). record w.tables { aggregator = g }) h.1))

module _ (src : Source) (now u : ℕ) (s i : Text) where
  -- The rows are stored, if there is a store for them.
  abbrev pub Stored : ℕ → List SpendRow → Spends → ℕ → Spends → Type 0
  Stored user_id rows before n after =
      ((src.has_spend ≡ true)
        × Upserted src.numerics now user_id source_aa u s i rows 0 before n after)
      ⊎ ((src.has_spend ≡ false) × (n ≡ 0) × (after ≡ before))

  pub store_rows-Ends :
      (user_id : ℕ) (rows : List SpendRow) (w : World Records)
      → IsApart clash w.tables.spends.rows
      → Ends
          (λ n r.
            (r.aggregator ≡ w.tables.aggregator) × Stored user_id rows w.tables.spends n r.spends)
          (λ e r. (e ≡ store_failure) × (r ≡ w.tables))
          (store_rows src now user_id rows w)
  unfolding store_rows pure on_spends upsert_spend_transactions
  store_rows-Ends user_id [] w apart = (refl, none_given src.has_spend refl)
    where
      none_given :
          (b : Bool) → src.has_spend ≡ b → Stored user_id [] w.tables.spends 0 w.tables.spends
      none_given true e = inl (
        e,
        upsert_spend_transactions-Ends src.numerics now user_id source_aa u s i []
            (record { tables = w.tables.spends; faults = []; entropy = [] }) apart,
      )
      none_given false e = inr (e, refl, refl)
  store_rows-Ends user_id (row ∷ rest) w apart = given src.has_spend refl
    where
      Done : Result ℕ × World Records → Type 0
      Done =
          Ends
            (λ n r.
              (r.aggregator ≡ w.tables.aggregator)
              × Stored user_id (row ∷ rest) w.tables.spends n r.spends)
            (λ e r. (e ≡ store_failure) × (r ≡ w.tables))

      given :
          (b : Bool)
          → src.has_spend ≡ b
          → Done (
              (if b
                  then on_spends
                      (upsert_spend_transactions src.numerics now user_id source_aa (row ∷ rest))
                  else pure 0)
                w)
      given true e =
          within-Ends _ _
            (λ n r.
              (r.aggregator ≡ w.tables.aggregator)
              × Stored user_id (row ∷ rest) w.tables.spends n r.spends)
            (λ e r. (e ≡ store_failure) × (r ≡ w.tables)) _ w
            (upsert_spend_transactions-Ends src.numerics now user_id source_aa u s i (row ∷ rest) _
              apart)
            (λ n t done. (refl, inl (e, done)))
            (λ e' t lost. (lost.0, ap (λ (t : Spends). record w.tables { spends = t }) lost.1))
      given false e = (refl, inr (e, refl, refl))
