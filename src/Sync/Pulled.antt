-- ===== src/Sync/Pulled.antt =====
-- internal/service/statementsync/service.go: what a run leaves in the tables.
use astra_backend.Prelude.{
  not, lit, ℕ, zero, suc, ◌+◌, ◌≡◌, refl, sym, ap, subst, ◌∙◌, ◌⊎◌, inl, inr, Bool, true, false,
  ◌&&◌, Option, none, some, List, [], ◌∷◌, arith, Text, text_eq, text_eq_iff, ◌==◌, ==_iff,
  if◌then◌else◌, IsApart, Has, Has-All, All, All-sort_before, Has-select,
}
use astra_backend.Store.{failure, Result, World, Call, pure, raise, ◌>>=◌}
use astra_backend.Store.Laws.{Ends, within-Ends, bind_step, attempt_step}
use astra_backend.Spend.{SpendRow, FullStatement, StatementTxn, full_statement_spend_rows}
use astra_backend.Spend.Table.{Numerics, Spends, txn_of, is_usable, upsert_spend_transactions}
use astra_backend.Spend.Lookup.{Entry, entry_of, lookup, last_given, given_for, or_before, clash}
use astra_backend.Spend.Upserted.{upsert_spend_transactions-Ends}
use astra_backend.Bank.{Bank, MirroredAccount, accounts_of, on_spends}
use astra_backend.Sync.{
  after_txn, last_of, start_of, Gateway, Config, Request, source_idbi, first_request, next_request,
  sync_pages, sync_account, sync_accounts,
}

last_given-Has :
    (d : Numerics) (user_id : ℕ) (source id : Text) (rows : List SpendRow) (e : Entry)
    → last_given d user_id source id rows ≡ some e
    → (row : SpendRow) × Has row rows × (entry_of (txn_of d user_id source row) ≡ e)
unfolding last_given
last_given-Has d user_id source id [] e h = cc
last_given-Has d user_id source id (row ∷ rest) e h =
    split (last_given d user_id source id rest) (is_usable row && text_eq row.external_id id)
      (last_given-Has d user_id source id rest e) h
  where
    here : Entry
    here = entry_of (txn_of d user_id source row)

    Given : List SpendRow → Type 0
    Given rows = (r : SpendRow) × Has r rows × (entry_of (txn_of d user_id source r) ≡ e)

    split :
        (o : Option Entry) (b : Bool)
        → (o ≡ some e → Given rest)
        → (elim o as (λ _. Option Entry) [
          | some e' ↦ some e'
          | none ↦ if b then some here else none
        ])
          ≡ some e
        → Given (row ∷ rest)
    split none true later k = (row, inl refl, cc)
    split none false later k = cc
    split (some e') b later k = let found = later k in (found.0, inr found.1, found.2)

chosen :
    (b : Bool) (x : Option Entry) (e : Entry)
    → (if b then x else none) ≡ some e
    → (b ≡ true) × (x ≡ some e)
chosen true x e h = (refl, h)
chosen false x e h = cc

module _ (g : Gateway) (cfg : Config) (now : ℕ) (before : Bank) (Who Since : ℕ → Type 0) (u : ℕ)
    (s i : Text) where
  -- A request for a page of that account, for the period from the latest transaction known, less the
  -- overlap, to now.
  abbrev pub IsAsked : MirroredAccount → Request → Type 0
  IsAsked a req =
      (last : ℕ) × Since last
      × (req.acid ≡ a.account_number)
      × (req.branch_id ≡ a.branch_id)
      × (req.from_date ≡ g.stamp (start_of cfg now last))
      × (req.to_date ≡ g.stamp now)
      × (req.sort_in ≡ lit "D")

  next_request-IsAsked :
      (a : MirroredAccount) (req req' : Request) (resp : FullStatement)
      → next_request req resp ≡ some req'
      → IsAsked a req
      → IsAsked a req'
  unfolding next_request after_txn
  next_request-IsAsked a req req' resp e h =
      more (text_eq resp.has_more_data (lit "Y")) (last_of resp.transaction_details) e
    where
      asked : Option Request → Type 0
      asked none = Unit
      asked (some q) = IsAsked a q

      more :
          (b : Bool) (o : Option StatementTxn)
          → (if not b then none else (elim o as (λ _. Option Request) [
            | none ↦ none
            | some last ↦ some (after_txn req last)
          ]))
            ≡ some req'
          → IsAsked a req'
      more false o k = cc
      more true none k = cc
      more true (some last) k = subst asked k (h.0, h.1, h.2, h.3, h.4, h.5, h.6)

  -- The entry of a row of a page that the bank answered to a request for one of the user's mirrored accounts.
  abbrev pub IsPulled : Entry → Type 0
  IsPulled e =
      (a : MirroredAccount) × (req : Request) × (resp : FullStatement) × (row : SpendRow) × Has a
        before.accounts
      × (a.user_id ≡ u)
      × IsAsked a req
      × (g.get_full_account_statement req ≡ some resp)
      × Has row (full_statement_spend_rows g.parser a.account_number resp)
      × (entry_of (txn_of g.numerics u source_idbi row) ≡ e)

  -- Links and accounts stay, at most one transaction has an id, and the entry of user `u`, source `s` and
  -- id `i` stays, or the user is one of those synced, the source is the bank and the entry was pulled.
  abbrev pub Synced : Bank → Type 0
  Synced after =
      (after.links ≡ before.links)
      × (after.accounts ≡ before.accounts)
      × IsApart clash after.spends.rows
      × ((lookup u s i after.spends ≡ lookup u s i before.spends)
          ⊎ (Who u
              × (source_idbi ≡ s)
              × (e : Entry) × (lookup u s i after.spends ≡ some e)
              × IsPulled e))

  abbrev Syncs : Result ℕ × World Bank → Type 0
  Syncs = Ends (λ _ b. Synced b) (λ _ b. Synced b)

  module _ (user_id : ℕ) (who : Who user_id) where
    -- One page of one account.
    page-Ends :
        (a : MirroredAccount) (req : Request) (resp : FullStatement) (w : World Bank)
        → Has a before.accounts
        → a.user_id ≡ user_id
        → IsAsked a req
        → g.get_full_account_statement req ≡ some resp
        → Synced w.tables
        → Ends
            (λ _ b. Synced b)
            (λ _ b. Synced b)
            (on_spends
              (upsert_spend_transactions g.numerics now user_id source_idbi
                (full_statement_spend_rows g.parser a.account_number resp))
              w)
    unfolding on_spends
    page-Ends a req resp w mirrored owned asked answered h =
        within-Ends _ _ (λ _ b. Synced b) (λ _ b. Synced b) _ w
          (upsert_spend_transactions-Ends g.numerics now user_id source_idbi u s i rows _ h.2)
          (λ n t done. (h.0, h.1, done.1, entry t done.2))
          (λ e t lost. (
            h.0,
            h.1,
            subst (λ (t : Spends). IsApart clash t.rows) (sym lost.1) h.2,
            subst (λ (t : Spends). Kept t) (sym lost.1) h.3,
          ))
      where
        rows : List SpendRow
        rows = full_statement_spend_rows g.parser a.account_number resp

        Kept : Spends → Type 0
        Kept t =
            (lookup u s i t ≡ lookup u s i before.spends)
            ⊎ (Who u × (source_idbi ≡ s) × (e : Entry) × (lookup u s i t ≡ some e) × IsPulled e)

        entry :
            (t : Spends)
            → lookup u s i t
              ≡ or_before
                  (given_for g.numerics user_id source_idbi rows u s i)
                  (lookup u s i w.tables.spends)
            → Kept t
        entry t same = split (given_for g.numerics user_id source_idbi rows u s i) refl same
          where
            carried : lookup u s i t ≡ lookup u s i w.tables.spends → Kept w.tables.spends → Kept t
            carried eq (inl kept) = inl (eq ∙ kept)
            carried eq (inr pulled) = inr (pulled.0, pulled.1, pulled.2, eq ∙ pulled.3, pulled.4)

            split :
                (o : Option Entry)
                → given_for g.numerics user_id source_idbi rows u s i ≡ o
                → lookup u s i t ≡ or_before o (lookup u s i w.tables.spends)
                → Kept t
            split none e eq = carried eq h.3
            split (some e) given eq = inr (
              subst Who mine.0 who,
              mine.1,
              e,
              eq,
              (
                a,
                req,
                resp,
                found.0,
                mirrored,
                owned ∙ mine.0,
                asked,
                answered,
                found.1,
                ap (λ (n : ℕ). entry_of (txn_of g.numerics n source_idbi found.0)) (sym mine.0)
                    ∙ found.2,
              ),
            )
              where
                here :
                    (user_id == u && text_eq source_idbi s ≡ true)
                    × (last_given g.numerics user_id source_idbi i rows ≡ some e)
                here = chosen (user_id == u && text_eq source_idbi s) _ e given

                mine : (user_id ≡ u) × (source_idbi ≡ s)
                mine =
                    (ground (arith, here.0), (text_eq_iff source_idbi s).0 (ground (arith, here.0)))

                found :
                    (row : SpendRow) × Has row rows
                    × (entry_of (txn_of g.numerics user_id source_idbi row) ≡ e)
                found = last_given-Has g.numerics user_id source_idbi i rows e here.1

    pages-Ends :
        (a : MirroredAccount)
        → Has a before.accounts
        → a.user_id ≡ user_id
        → (left : ℕ) (req : Request) (written : ℕ) (w : World Bank) → IsAsked a req
        → Synced w.tables
        → Syncs (sync_pages g now user_id a.account_number left req written w)
    unfolding sync_pages pure raise
    pages-Ends a mirrored owned zero req written w asked h = h
    pages-Ends a mirrored owned (suc left) req written w asked h =
        answer (g.get_full_account_statement req) refl (pages-Ends a mirrored owned left)
      where
        answer :
            (o : Option FullStatement)
            → g.get_full_account_statement req ≡ o
            → ((req' : Request) (n : ℕ) (w' : World Bank)
                → IsAsked a req'
                → Synced w'.tables
                → Syncs (sync_pages g now user_id a.account_number left req' n w'))
            → Syncs (
                let call : Call Bank ℕ = elim o [
                  | none ↦ raise (failure "393")
                  | some resp ↦
                      on_spends (
                        upsert_spend_transactions g.numerics now user_id source_idbi
                          (full_statement_spend_rows g.parser a.account_number resp))
                      >>= λ n. elim (next_request req resp) [
                        | none ↦ pure (written + n)
                        | some req' ↦
                            sync_pages g now user_id a.account_number left req' (written + n)
                      ]
                ] in
                call w)
        answer none e more = h
        answer (some resp) e more =
            bind_step (λ _ b. Synced b) (λ _ b. Synced b) Syncs
              (on_spends (
                upsert_spend_transactions g.numerics now user_id source_idbi
                  (full_statement_spend_rows g.parser a.account_number resp)))
              _ w (page-Ends a req resp w mirrored owned asked e h)
              (λ n w' h'. turn (next_request req resp) refl n w' h') (λ e' w' h'. h')
          where
            turn :
                (o : Option Request)
                → next_request req resp ≡ o
                → (n : ℕ) (w' : World Bank) → Synced w'.tables
                → Syncs (
                    let call : Call Bank ℕ = elim o [
                      | none ↦ pure (written + n)
                      | some req' ↦
                          sync_pages g now user_id a.account_number left req' (written + n)
                    ] in
                    call w')
            turn none follows n w' h' = h'
            turn (some req') follows n w' h' =
                more req' (written + n) w' (next_request-IsAsked a req req' resp follows asked) h'

    pub accounts-Ends :
        (last : ℕ)
        → Since last
        → (accts : List MirroredAccount)
        → All (λ (a : MirroredAccount). Has a before.accounts × (a.user_id ≡ user_id)) accts
        → (total : ℕ) (w : World Bank) → Synced w.tables
        → Ends
            (λ _ b. Synced b)
            (λ _ _. ⊥)
            (sync_accounts g cfg now user_id (start_of cfg now last) accts total w)
    unfolding sync_accounts sync_account pure
    accounts-Ends last since [] mine total w h = h
    accounts-Ends last since (a ∷ rest) mine total w h =
        attempt_step (λ _ b. Synced b) (λ _ b. Synced b) (Ends (λ _ b. Synced b) (λ _ _. ⊥))
          (sync_account g cfg now user_id a (start_of cfg now last) now) _ w
          (pages-Ends a mine.0.0 mine.0.1 cfg.max_pages
            (first_request g a (start_of cfg now last) now) 0 w
            (last, since, refl, refl, refl, refl, refl) h)
          (λ n w' h'. accounts-Ends last since rest mine.1 (total + n) w' h')
          (λ e w' h'. accounts-Ends last since rest mine.1 total w' h')

pub accounts_of-Has :
    (user_id : ℕ) (b : Bank)
    → All
        (λ (a : MirroredAccount). Has a b.accounts × (a.user_id ≡ user_id))
        (accounts_of user_id b)
unfolding accounts_of
accounts_of-Has user_id b = All-sort_before _ _ _ (
    Has-All _ _ (λ (a : MirroredAccount) h.
      let found = Has-select (λ (a : MirroredAccount). a.user_id == user_id) a b.accounts h in
      (found.0, (==_iff a.user_id user_id).0 found.1)))
