-- ===== src/Fetching/Served.antt =====
-- internal/service/idbiaa/service.go: whom FetchStatements serves, and what it stores.
use astra_backend.Prelude.{
  length, ℕ, ◌≡◌, refl, sym, ap, subst, ◌∙◌, ◌⊎◌, inl, inr, Bool, true, false, not, ◌||◌, Option,
  none, some, List, arith, Text, text_eq, lit, is_empty, equal_fold, ◌==◌, ==_iff, if◌then◌else◌,
  IsApart, select-change,
}
use astra_backend.Store.{
  failure, no_consent, Error, store_failure, Result, err, World, pure, ◌>>=◌, read, attempt,
}
use astra_backend.Store.Laws.{
  Ends, Ends-map, within-Ends, write-Ends, bind_step, bind_exact, attempt_step, attempt_exact,
}
use astra_backend.Store.Guards.{raise_if_step, or_raise_step}
use astra_backend.Spend.{SpendRow, StatementAccount, aggregator_spend_rows}
use astra_backend.Spend.Lookup.{clash}
use astra_backend.Consent.{Consent, Account, Aggregator, get_consent}
use astra_backend.Linking.{linked_to}
use astra_backend.Linking.Owners.{others}
use astra_backend.Fetching.{
  Records, Source, on_aggregator, fetched, mark_fetched, owned_by, refs_of, statement_of,
  store_rows, fetch_of, fetch_statements, fetch_if, handle_data_notification,
}
use astra_backend.Fetching.Stores.{on_aggregator-Ends, Stored, store_rows-Ends}

module _ (src : Source) (now : ℕ) (handle : Text) (u : ℕ) (s i : Text) where
  -- Other consents and all linked accounts stay, and the transaction of user `u`, source `s` and id `i` is
  -- what the statement of the consent says of it, or what it was.
  abbrev pub Fetched : Records → Consent → List StatementAccount → ℕ → Records → Type 0
  Fetched before row stmt n after =
      (after.aggregator.users ≡ before.aggregator.users)
      × (after.aggregator.accounts ≡ before.aggregator.accounts)
      × (others handle after.aggregator.consents ≡ others handle before.aggregator.consents)
      × Stored src now u s i row.user_id (aggregator_spend_rows src.parser stmt) before.spends n
          after.spends

  -- Why nothing is fetched: a statement failed, the consent is not the user's, or it has no linked account,
  -- no id yet, or no statement.
  abbrev pub Unfetched : ℕ → Records → Error → Type 0
  Unfetched user_id before e =
      (e ≡ store_failure)
      ⊎ ((e ≡ no_consent) × (owned_by user_id (get_consent handle before.aggregator) ≡ none))
      ⊎ ((row : Consent) × (get_consent handle before.aggregator ≡ some row)
          × (((e ≡ failure "consent has no linked accounts to fetch")
                × (length (refs_of (linked_to src.ref_before handle before.aggregator)) == 0
                    ≡ true))
              ⊎ ((e ≡ failure "consent has no consent_id yet") × (is_empty row.consent_id ≡ true))
              ⊎ ((e ≡ failure "getAccountStatement")
                  × (statement_of src row.consent_id
                        (refs_of (linked_to src.ref_before handle before.aggregator))
                      ≡ none))))

  -- A consent of the user with its statement.
  abbrev pub FetchedFor : ℕ → Records → ℕ → Records → Type 0
  FetchedFor user_id before n after =
      (row : Consent) × (stmt : List StatementAccount) × (get_consent handle before.aggregator
        ≡ some row)
      × (row.user_id ≡ user_id)
      × (statement_of src row.consent_id
            (refs_of (linked_to src.ref_before handle before.aggregator))
          ≡ some stmt)
      × Fetched before row stmt n after

  others-fetched :
      (a : Aggregator) → others handle (fetched now handle a).consents ≡ others handle a.consents
  unfolding others fetched
  others-fetched a =
      select-change (λ (c : Consent). text_eq c.handle handle)
        (λ (c : Consent). record c { last_fetched_at = some now; updated_at = now })
        (λ (c : Consent). not (text_eq c.handle handle)) a.consents (λ c e. ground arith)
        (λ c e. ground arith)

  mark_fetched-Ends :
      (before : Records) (row : Consent) (stmt : List StatementAccount) (n : ℕ) (w : World Records)
      → Fetched before row stmt n w.tables
      → Ends
          (λ _ r. Fetched before row stmt n r)
          (λ _ r. Fetched before row stmt n r)
          (on_aggregator (mark_fetched now handle) w)
  unfolding on_aggregator mark_fetched fetched
  mark_fetched-Ends before row stmt n w h =
      within-Ends _ _ (λ _ r. Fetched before row stmt n r) (λ _ r. Fetched before row stmt n r) _ w
        (write-Ends _ (fetched now handle))
        (λ a t same.
          subst (λ (g : Aggregator). Fetched before row stmt n (record w.tables { aggregator = g }))
            (sym same) (h.0, h.1, others-fetched w.tables.aggregator ∙ h.2, h.3))
        (λ e t lost.
          subst (λ (g : Aggregator). Fetched before row stmt n (record w.tables { aggregator = g }))
            (sym lost.1) h)

  owned_by-user :
      (user_id : ℕ) (o : Option Consent) (row : Consent)
      → owned_by user_id o ≡ some row
      → (o ≡ some row) × (row.user_id ≡ user_id)
  owned_by-user user_id none row e = cc
  owned_by-user user_id (some c) row e = split (c.user_id == user_id) refl e
    where
      split :
          (b : Bool)
          → (c.user_id == user_id) ≡ b
          → (if b then some c else none) ≡ some row
          → (some c ≡ some row) × (row.user_id ≡ user_id)
      split true same k = (k, (==_iff row.user_id user_id).0 (cc))
      split false same k = cc

  module _ (user_id : ℕ) (before : Records) (apart : IsApart clash before.spends.rows) where
    Ended : Result ℕ × World Records → Type 0
    Ended = Ends (FetchedFor user_id before) (λ e r. Unfetched user_id before e × (r ≡ before))

    -- The rows are stored, and the consent marked or not.
    stored-Ends :
        (row : Consent) (stmt : List StatementAccount) (w : World Records)
        → w.tables ≡ before
        → get_consent handle before.aggregator ≡ some row
        → row.user_id ≡ user_id
        → statement_of src row.consent_id
            (refs_of (linked_to src.ref_before handle before.aggregator))
          ≡ some stmt
        → Ended (
            (store_rows src now user_id (aggregator_spend_rows src.parser stmt) >>= λ n.
            attempt (on_aggregator (mark_fetched now handle)) >>= λ _. pure n)
              w)
    unfolding Ended pure
    stored-Ends row stmt w same there owned answered =
        bind_step (λ n r. Fetched before row stmt n r) (λ e r. (e ≡ store_failure) × (r ≡ before))
          Ended (store_rows src now user_id rows) _ w
          (Ends-map
            {P = λ n r.
              (r.aggregator ≡ w.tables.aggregator)
              × Stored src now u s i user_id rows w.tables.spends n r.spends}
            {Q = λ e r. (e ≡ store_failure) × (r ≡ w.tables)} (store_rows src now user_id rows w)
            (λ n r done. upserted n r done) (λ e r lost. (lost.0, lost.1 ∙ same))
            (store_rows-Ends src now u s i user_id rows w
              (subst (λ (r : Records). IsApart clash r.spends.rows) (sym same) apart)))
          (λ n w' h.
            attempt_step (λ _ r. Fetched before row stmt n r) (λ _ r. Fetched before row stmt n r)
              Ended (on_aggregator (mark_fetched now handle)) (λ _. pure n) w'
              (mark_fetched-Ends before row stmt n w' h)
              (λ a w'' k. (row, stmt, there, owned, answered, k))
              (λ e w'' k. (row, stmt, there, owned, answered, k)))
          (λ e w' lost. (inl lost.0, lost.1))
      where
        rows : List SpendRow
        rows = aggregator_spend_rows src.parser stmt

        upserted :
            (n : ℕ) (r : Records)
            → (r.aggregator ≡ w.tables.aggregator)
              × Stored src now u s i user_id rows w.tables.spends n r.spends
            → Fetched before row stmt n r
        upserted n r done =
            let kept : r.aggregator ≡ before.aggregator =
              done.0 ∙ ap (λ (r : Records). r.aggregator) same in
            (
              ap (λ (a : Aggregator). a.users) kept,
              ap (λ (a : Aggregator). a.accounts) kept,
              ap (λ (a : Aggregator). others handle a.consents) kept,
              subst (λ (v : ℕ). Stored src now u s i v rows before.spends n r.spends) (sym owned)
                  (subst (λ (t : Records). Stored src now u s i user_id rows t.spends n r.spends)
                    same done.1),
            )

    fetch_of-Ends :
        (row : Consent) (w : World Records)
        → w.tables ≡ before
        → get_consent handle before.aggregator ≡ some row
        → row.user_id ≡ user_id
        → Ended (fetch_of src now user_id handle row w)
    unfolding Ended fetch_of
    fetch_of-Ends row w same there owned =
        bind_step
          (λ a r. (a ≡ linked_to src.ref_before handle w.tables.aggregator) × (r ≡ w.tables))
          (λ e r. (e ≡ store_failure) × (r ≡ w.tables)) Ended
          (on_aggregator (read (linked_to src.ref_before handle))) _ w
          (on_aggregator-Ends (linked_to src.ref_before handle) w)
          (λ linked w1 h.
            raise_if_step Ended w1 _ _ _
              (λ none_linked. (
                inr (
                    inr (
                      row,
                      there,
                      inl (
                        refl,
                        ap (λ (l : List Account). length (refs_of l) == 0)
                              (sym (linked_then linked h.0))
                            ∙ none_linked,
                      ),
                    )),
                h.1 ∙ same,
              ))
              λ _.
                raise_if_step Ended w1 _ _ _
                  (λ no_id. (inr (inr (row, there, inr (inl (refl, no_id)))), h.1 ∙ same))
                  λ _.
                    or_raise_step Ended w1 (statement_of src row.consent_id (refs_of linked)) _ _
                      (λ refused. (
                        inr (
                            inr (
                              row,
                              there,
                              inr (
                                  inr (
                                    refl,
                                    ap
                                          (λ (l : List Account).
                                            statement_of src row.consent_id (refs_of l))
                                          (sym (linked_then linked h.0))
                                        ∙ refused,
                                  )),
                            )),
                        h.1 ∙ same,
                      ))
                      λ stmt answered. stored-Ends row stmt w1 (h.1 ∙ same) there owned (
                        ap (λ (l : List Account). statement_of src row.consent_id (refs_of l))
                          (sym (
                            h.0
                            ∙ ap (λ (r : Records). linked_to src.ref_before handle r.aggregator)
                                same))
                        ∙ answered))
          (λ e w1 lost. (inl lost.0, lost.1 ∙ same))
      where
        linked_then :
            (l : List Account)
            → l ≡ linked_to src.ref_before handle w.tables.aggregator
            → l ≡ linked_to src.ref_before handle before.aggregator
        linked_then l e =
            e ∙ ap (λ (r : Records). linked_to src.ref_before handle r.aggregator) same

  -- FetchStatements serves the owner of the consent and nobody else: it stores the statement that the
  -- aggregator answers for that consent and its linked references, under the source aa, and returns the
  -- number of usable rows; every other transaction, other consents and all linked accounts stay. On an
  -- error nothing has changed, and a statement failed or the error says why: the consent is not the user's,
  -- or it has no linked account, no id yet, or no statement.
  pub fetch_statements-Ends :
      (user_id : ℕ) (w : World Records)
      → IsApart clash w.tables.spends.rows
      → Ends
          (FetchedFor user_id w.tables)
          (λ e r. Unfetched user_id w.tables e × (r ≡ w.tables))
          (fetch_statements src now user_id handle w)
  unfolding fetch_statements Ended
  fetch_statements-Ends user_id w apart =
      bind_step (λ a r. (a ≡ get_consent handle w.tables.aggregator) × (r ≡ w.tables))
        (λ e r. (e ≡ store_failure) × (r ≡ w.tables)) (Ended user_id w.tables apart)
        (on_aggregator (read (get_consent handle))) _ w (on_aggregator-Ends (get_consent handle) w)
        (λ found w1 h.
          or_raise_step (Ended user_id w.tables apart) w1 (owned_by user_id found) _ _
            (λ refused. (inr (inl (refl, ap (owned_by user_id) (sym h.0) ∙ refused)), h.1))
            λ row e.
              let mine = owned_by-user user_id found row e in
              fetch_of-Ends user_id w.tables apart row w1 h.1 (sym h.0 ∙ mine.0) mine.1)
        (λ e w1 lost. (inl lost.0, lost.1))

  abbrev pub is_ready : Text → Bool
  is_ready event_status = not (is_empty handle || not (equal_fold event_status (lit "DATA_READY")))

  -- The world behind the read of the consent.
  abbrev pub looked_up : World Records → World Records
  looked_up w = (on_aggregator (read (get_consent handle)) w).1

  -- There was nothing to fetch, or the fetch for the owner of the consent failed.
  abbrev pub Idle : Text → World Records → Type 0
  Idle event_status w =
      (is_ready event_status ≡ false)
      ⊎ (get_consent handle w.tables.aggregator ≡ none)
      ⊎ ((row : Consent) × (e : Error) × (get_consent handle w.tables.aggregator ≡ some row)
          × ((fetch_statements src now row.user_id handle (looked_up w)).0 ≡ err e))

  -- The statement of the consent that is named was fetched for its owner.
  abbrev pub Notified : Text → World Records → Records → Type 0
  Notified event_status w after =
      (is_ready event_status ≡ true) × (user_id : ℕ) × (n : ℕ) × FetchedFor user_id w.tables n after

  -- A notification that data is ready fetches the statement of the consent that it names, for the consent's
  -- own owner. Nothing changes if it tells of another event or names no consent that is known, or if that
  -- fetch fails, which is no error; an error comes from a failed read of the consent only.
  pub handle_data_notification-Ends :
      (event_status : Text) (w : World Records)
      → IsApart clash w.tables.spends.rows
      → Ends
          (λ _ r. ((r ≡ w.tables) × Idle event_status w) ⊎ Notified event_status w r)
          (λ e r. (e ≡ store_failure) × (r ≡ w.tables))
          (handle_data_notification src now handle event_status w)
  unfolding handle_data_notification fetch_if pure
  handle_data_notification-Ends event_status w apart =
      split (is_empty handle || not (equal_fold event_status (lit "DATA_READY"))) refl
    where
      R : Result (Unit {0}) × World Records → Type 0
      R =
          Ends (λ _ r. ((r ≡ w.tables) × Idle event_status w) ⊎ Notified event_status w r)
            (λ e r. (e ≡ store_failure) × (r ≡ w.tables))

      known :
          (o : Option Consent) (w1 : World Records)
          → is_ready event_status ≡ true
          → get_consent handle w.tables.aggregator ≡ o
          → looked_up w ≡ w1
          → w1.tables ≡ w.tables
          → R (fetch_if src now handle o w1)
      known none w1 ready there at same = inl (same, inr (inl there))
      known (some row) w1 ready there at same =
          attempt_exact (FetchedFor row.user_id w.tables)
            (λ e r. Unfetched row.user_id w.tables e × (r ≡ w.tables)) R
            (fetch_statements src now row.user_id handle) (λ _. pure tt) w1
            (subst
              (λ (t : Records).
                Ends (FetchedFor row.user_id t) (λ e r. Unfetched row.user_id t e × (r ≡ t))
                  (fetch_statements src now row.user_id handle w1))
              same
              (fetch_statements-Ends row.user_id w1
                (subst (λ (r : Records). IsApart clash r.spends.rows) (sym same) apart)))
            (λ n w2 e h. inr (ready, row.user_id, n, h))
            (λ e' w2 e lost. inl (
              lost.1,
              inr (
                  inr (
                    row,
                    e',
                    there,
                    ap (λ (v : World Records). (fetch_statements src now row.user_id handle v).0) at
                        ∙ ap (λ (r : Result ℕ × World Records). r.0) e,
                  )),
            ))

      split :
          (b : Bool)
          → (is_empty handle || not (equal_fold event_status (lit "DATA_READY"))) ≡ b
          → R (
              (if b
                  then pure tt
                  else (on_aggregator (read (get_consent handle)) >>= fetch_if src now handle))
                w)
      split true e = inl (refl, inl (ap not e))
      split false e =
          bind_exact (λ a r. (a ≡ get_consent handle w.tables.aggregator) × (r ≡ w.tables))
            (λ e r. (e ≡ store_failure) × (r ≡ w.tables)) R
            (on_aggregator (read (get_consent handle))) (fetch_if src now handle) w
            (on_aggregator-Ends (get_consent handle) w)
            (λ found w1 at h.
              known found w1 (ap not e) (sym h.0)
                (ap (λ (r : Result (Option Consent) × World Records). r.1) at) h.1)
            (λ e w1 lost. lost)
