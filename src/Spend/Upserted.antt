-- ===== src/Spend/Upserted.antt =====
-- internal/repository/idbi_repo.go: how UpsertSpendTransactions ends.
use astra_backend.Prelude.{
  ℕ, ◌+◌, ◌≡◌, refl, sym, ap, subst, ◌∙◌, Bool, true, false, ◌&&◌, Option, none, some, List, [],
  ◌∷◌, arith, Text, text_eq, ◌==◌, if◌then◌else◌, IsApart,
}
use astra_backend.Store.{store_failure, Result, World, pure, ◌>>=◌, write_checked}
use astra_backend.Store.Laws.{Ends, Ends-map, write_checked_step, transaction-Ends}
use astra_backend.Spend.{SpendRow}
use astra_backend.Spend.Table.{
  Numerics, SpendTxn, Spends, txn_of, put, put_checked, allowed, is_usable, upsert_rows,
  upsert_spend_transactions,
}
use astra_backend.Spend.Lookup.{
  Entry, entry_of, lookup, last_given, or_before, given_for, usable_count, clash, put-lookup,
  put-IsApart,
}

put_checked-put :
    (now : ℕ) (id : Text) (x : SpendTxn) (t t' : Spends) (u : Unit {0})
    → put_checked now id x t ≡ some (t', u)
    → put now id x t ≡ t'
unfolding put_checked
put_checked-put now id x t t' u e = split (allowed x t) e
  where
    split :
        (b : Bool)
        → (let made : Option (Spends × Unit {0}) = if b then some (put now id x t, tt) else none in
            made)
          ≡ some (t', u)
        → put now id x t ≡ t'
    split true e = cc
    split false e = cc

-- One row more in front of the rest.
one_more :
    (b c : Bool) (e : Entry) (rest old : Option Entry)
    → or_before (if b then rest else none) (if b && c then some e else old)
      ≡ or_before
          (if b
            then (elim rest as (λ _. Option Entry) [
              | some e' ↦ some e'
              | none ↦ if true && c then some e else none
            ])
            else none)
          old
one_more true true e none old = refl
one_more true false e none old = refl
one_more true c e (some e') old = refl
one_more false c e rest old = refl

passed_over :
    (b c : Bool) (e : Entry) (rest old : Option Entry)
    → or_before (if b then rest else none) old
      ≡ or_before
          (if b
            then (elim rest as (λ _. Option Entry) [
              | some e' ↦ some e'
              | none ↦ if false && c then some e else none
            ])
            else none)
          old
passed_over true c e none old = refl
passed_over true c e (some e') old = refl
passed_over false c e rest old = refl

module _ (d : Numerics) (now user_id : ℕ) (source : Text) (u : ℕ) (s i : Text) where
  -- So many more usable rows, and the entry that they give, or the one before.
  abbrev pub Upserted : List SpendRow → ℕ → Spends → ℕ → Spends → Type 0
  Upserted rows n before m after =
      (m ≡ n + usable_count rows)
      × IsApart clash after.rows
      × (lookup u s i after
          ≡ or_before (given_for d user_id source rows u s i) (lookup u s i before))

  upsert_rows-Ends :
      (rows : List SpendRow) (n : ℕ) (w : World Spends)
      → IsApart clash w.tables.rows
      → Ends
          (Upserted rows n w.tables)
          (λ e _. e ≡ store_failure)
          (upsert_rows d now user_id source rows n w)
  unfolding upsert_rows pure usable_count last_given txn_of
  upsert_rows-Ends [] n w apart = (omega arith, apart, nothing (user_id == u && text_eq source s))
    where
      nothing :
          (b : Bool)
          → lookup u s i w.tables ≡ or_before (if b then none else none) (lookup u s i w.tables)
      nothing true = refl
      nothing false = refl
  upsert_rows-Ends (row ∷ rest) n w apart =
      each (is_usable row) (λ k w'. upsert_rows-Ends rest k w')
    where
      x : SpendTxn
      x = txn_of d user_id source row

      mine : Bool
      mine = user_id == u && text_eq source s

      -- What the list leaves, if the first row is usable or not.
      Left : Bool → ℕ → Spends → Type 0
      Left b m t =
          (m ≡ n + ((if b then 1 else 0) + usable_count rest))
          × IsApart clash t.rows
          × (lookup u s i t
              ≡ or_before
                  (if mine
                    then (elim (last_given d user_id source i rest) as (λ _. Option Entry) [
                      | some e ↦ some e
                      | none ↦ if b && text_eq row.external_id i then some (entry_of x) else none
                    ])
                    else none)
                  (lookup u s i w.tables))

      each :
          (b : Bool)
          → ((k : ℕ) (w' : World Spends)
              → IsApart clash w'.tables.rows
              → Ends
                  (Upserted rest k w'.tables)
                  (λ e _. e ≡ store_failure)
                  (upsert_rows d now user_id source rest k w'))
          → Ends
              (Left b)
              (λ e _. e ≡ store_failure)
              (let call : World Spends → Result ℕ × World Spends = elim b [
                | false ↦ upsert_rows d now user_id source rest n
                | true ↦ write_checked (put_checked now row.external_id x) >>= λ _.
                    upsert_rows d now user_id source rest (n + 1)
              ] in
                call w)
      each false more =
          Ends-map {P = Upserted rest n w.tables} {Q = λ e _. e ≡ store_failure}
            (upsert_rows d now user_id source rest n w)
            (λ m t (h : Upserted rest n w.tables m t). (
              omega (arith, h.0),
              h.1,
              h.2
                  ∙ passed_over mine (text_eq row.external_id i) (entry_of x)
                      (last_given d user_id source i rest) (lookup u s i w.tables),
            ))
            (λ e t h. h) (more n w apart)
      each true more =
          write_checked_step (Ends (Left true) (λ e _. e ≡ store_failure)) w
            (put_checked now row.external_id x) (λ _. upsert_rows d now user_id source rest (n + 1))
            (λ fs. refl)
            (λ fs t a e. stored fs t (put_checked-put now row.external_id x w.tables t a e))
        where
          stored :
              (fs : List Bool) (t : Spends)
              → put now row.external_id x w.tables ≡ t
              → Ends
                  (Left true)
                  (λ e _. e ≡ store_failure)
                  (upsert_rows d now user_id source rest
                    (n + 1)
                    (record w { tables = t; faults = fs }))
          stored fs t same =
              Ends-map {P = Upserted rest (n + 1) t} {Q = λ e _. e ≡ store_failure}
                (upsert_rows d now user_id source rest (n + 1)
                  (record w { tables = t; faults = fs }))
                (λ m t' (h : Upserted rest (n + 1) t m t'). (
                  omega (arith, h.0),
                  h.1,
                  h.2
                      ∙ ap (or_before (if mine then last_given d user_id source i rest else none)) (
                          ap (lookup u s i) (sym same)
                          ∙ put-lookup now row.external_id x refl u s i w.tables)
                      ∙ one_more mine (text_eq row.external_id i) (entry_of x)
                          (last_given d user_id source i rest) (lookup u s i w.tables),
                ))
                (λ e t' h. h)
                (more (n + 1) (record w { tables = t; faults = fs })
                  (subst (λ (t : Spends). IsApart clash t.rows) same
                    (put-IsApart now row.external_id x refl w.tables apart)))

  -- UpsertSpendTransactions is one transaction: it stores, for each external id, the last usable row that was
  -- given, in place of what the user and the source had under that id, leaves all other entries, and
  -- returns the number of usable rows; or it fails and nothing has changed. At most one row has an id.
  pub upsert_spend_transactions-Ends :
      (rows : List SpendRow) (w : World Spends)
      → IsApart clash w.tables.rows
      → Ends
          (Upserted rows 0 w.tables)
          (λ e t. (e ≡ store_failure) × (t ≡ w.tables))
          (upsert_spend_transactions d now user_id source rows w)
  unfolding upsert_spend_transactions usable_count pure
  upsert_spend_transactions-Ends [] w apart = upsert_rows-Ends [] 0 w apart
  upsert_spend_transactions-Ends (row ∷ rest) w apart =
      transaction-Ends (Upserted (row ∷ rest) 0 w.tables) (λ e. e ≡ store_failure)
        (upsert_rows d now user_id source (row ∷ rest) 0) w refl
        (λ fs. upsert_rows-Ends (row ∷ rest) 0 (record w { faults = fs }) apart)
