-- ===== src/Sync/Runs.antt =====
-- internal/service/statementsync/service.go: how SyncUser and SyncAllLinkedUsers end.
use astra_backend.Prelude.{
  ℕ, suc, ◌+◌, ◌≤◌, ◌≡◌, refl, sym, ap, subst, ◌∙◌, ◌⊎◌, inl, inr, true, none, some, List, [], ◌∷◌,
  map, arith, Text, ◌==◌, length, length-map, IsApart, Has, Has-All, All,
}
use astra_backend.Store.{Error, store_failure, failure, Result, World, pure}
use astra_backend.Store.Laws.{
  Ends, Ends-map, within-Ends, read_step, read-Ends, bind_step, attempt_step,
}
use astra_backend.Store.Guards.{or_raise_step, raise_if_step}
use astra_backend.Spend.Table.{Spends, latest_spend_sync, latest_sync_of}
use astra_backend.Spend.Lookup.{Entry, lookup, clash}
use astra_backend.Bank.{
  Bank, CustomerLink, MirroredAccount, link_of, accounts_of, get_customer_link, list_accounts,
  list_linked_user_ids, on_spends,
}
use astra_backend.Sync.{
  Gateway, Config, source_idbi, sync_accounts, start_of, sync_user, sync_each,
  sync_all_linked_users,
}
use astra_backend.Sync.Pulled.{Synced, IsPulled, accounts-Ends, accounts_of-Has}

-- Why a user is not synced.
abbrev pub Unsynced : Bank → ℕ → Error → Type 0
Unsynced b user_id e =
    (e ≡ store_failure)
    ⊎ ((e ≡ failure "no idbi customer link for user") × (link_of user_id b ≡ none))
    ⊎ ((e ≡ failure "statementsync: no mirrored accounts") × (accounts_of user_id b ≡ []))

abbrev pub linked_ids : Bank → List ℕ
linked_ids b = map (λ (l : CustomerLink). l.user_id) b.links

-- Where the period of SyncUser begins, and that of a run over all users.
abbrev pub Latest : Bank → ℕ → ℕ → Type 0
Latest b user_id last = last ≡ latest_sync_of user_id source_idbi b.spends

abbrev pub AnyTime : ℕ → Type 0
AnyTime last = Unit {0}

module _ (g : Gateway) (cfg : Config) (now : ℕ) (u : ℕ) (s i : Text) where
  latest-Ends :
      (user_id : ℕ) (w : World Bank)
      → Ends
          (λ a b. (a ≡ latest_sync_of user_id source_idbi w.tables.spends) × (b ≡ w.tables))
          (λ e b. (e ≡ store_failure) × (b ≡ w.tables))
          (on_spends (latest_spend_sync user_id source_idbi) w)
  unfolding on_spends latest_spend_sync
  latest-Ends user_id w =
      within-Ends _ _
        (λ a b. (a ≡ latest_sync_of user_id source_idbi w.tables.spends) × (b ≡ w.tables))
        (λ e b. (e ≡ store_failure) × (b ≡ w.tables)) _ w
        (read-Ends _ (latest_sync_of user_id source_idbi))
        (λ a t h. (h.0, ap (λ (t : Spends). record w.tables { spends = t }) h.1))
        (λ e t h. (h.0, ap (λ (t : Spends). record w.tables { spends = t }) h.1))

  started :
      (before : Bank) (Who Since : ℕ → Type 0)
      → IsApart clash before.spends.rows
      → Synced g cfg now before Who Since u s i before
  started before Who Since apart = (refl, refl, apart, inl refl)

  no_accounts : (accts : List MirroredAccount) → (length accts == 0) ≡ true → accts ≡ []
  no_accounts [] h = refl
  no_accounts (a ∷ rest) h = absurd (ground arith)

  -- SyncUser of a user with a link and mirrored accounts, whatever the bank answers and whichever accounts fail:
  -- for any user, source and external id, the stored transaction stays, or it is a row of a page that the
  -- bank answered to a request for a mirrored account of the synced user (its number, its branch, from the
  -- latest transaction stored less the overlap, to now), under the source idbi; links and accounts stay. An error
  -- comes before anything is stored: there is no link, no account, or a read failed.
  pub sync_user-Ends :
      (user_id : ℕ) (w : World Bank)
      → IsApart clash w.tables.spends.rows
      → Ends
          (λ _ b. Synced g cfg now w.tables (λ v. user_id ≡ v) (Latest w.tables user_id) u s i b)
          (λ e b. Unsynced w.tables user_id e × (b ≡ w.tables))
          (sync_user g cfg now user_id w)
  unfolding sync_user get_customer_link list_accounts
  sync_user-Ends user_id w apart =
      read_step R w (link_of user_id) _ (λ fs. (inl refl, refl))
        λ fs.
          or_raise_step R (record w { faults = fs }) (link_of user_id w.tables) _ _
            (λ missing. (inr (inl (refl, missing)), refl))
            λ link there.
              read_step R (record w { faults = fs }) (accounts_of user_id) _
                (λ fs'. (inl refl, refl))
                λ fs'.
                  raise_if_step R (record w { faults = fs' }) (length accts == 0) _ _
                    (λ empty. (inr (inr (refl, no_accounts accts empty)), refl))
                    λ some_account.
                      bind_step
                        (λ a b.
                          (a ≡ latest_sync_of user_id source_idbi w.tables.spends) × (b ≡ w.tables))
                        (λ e b. (e ≡ store_failure) × (b ≡ w.tables)) R
                        (on_spends (latest_spend_sync user_id source_idbi)) _
                        (record w { faults = fs' })
                        (latest-Ends user_id (record w { faults = fs' }))
                        (λ last w' same.
                          Ends-map
                            {P = λ _ b.
                              Synced g cfg now w.tables (λ v. user_id ≡ v) (Latest w.tables user_id)
                                u s i b}
                            {Q = λ _ _. ⊥}
                            (sync_accounts g cfg now user_id (start_of cfg now last) accts 0 w')
                            (λ n b h. h) (λ e b h. absurd h)
                            (accounts-Ends g cfg now w.tables (λ v. user_id ≡ v)
                              (Latest w.tables user_id) u s i user_id refl last same.0 accts
                              (accounts_of-Has user_id w.tables) 0 w'
                              (subst
                                (Synced g cfg now w.tables (λ v. user_id ≡ v)
                                  (Latest w.tables user_id) u s i)
                                (sym same.1)
                                (started w.tables (λ v. user_id ≡ v) (Latest w.tables user_id)
                                  apart))))
                        (λ e w' lost. (inl lost.0, lost.1))
    where
      accts : List MirroredAccount
      accts = accounts_of user_id w.tables

      R : Result ℕ × World Bank → Type 0
      R =
          Ends
            (λ _ b. Synced g cfg now w.tables (λ v. user_id ≡ v) (Latest w.tables user_id) u s i b)
            (λ e b. Unsynced w.tables user_id e × (b ≡ w.tables))

  then-Synced :
      (before b c : Bank) (Who : ℕ → Type 0) (user_id : ℕ)
      → Who user_id
      → Synced g cfg now before Who AnyTime u s i b
      → Synced g cfg now b (λ v. user_id ≡ v) (Latest b user_id) u s i c
      → Synced g cfg now before Who AnyTime u s i c
  then-Synced before b c Who user_id who x y = (y.0 ∙ x.0, y.1 ∙ x.1, y.2, entry x.3 y.3)
    where
      Kept : (ℕ → Type 0) → (ℕ → Type 0) → Bank → Bank → Type 0
      Kept W Since from to =
          (lookup u s i to.spends ≡ lookup u s i from.spends)
          ⊎ (W u
              × (source_idbi ≡ s)
              × (e : Entry) × (lookup u s i to.spends ≡ some e)
              × IsPulled g cfg now from W Since u s i e)

      entry :
          Kept Who AnyTime before b
          → Kept (λ v. user_id ≡ v) (Latest b user_id) b c
          → Kept Who AnyTime before c
      entry (inl p) (inl q) = inl (q ∙ p)
      entry (inr p) (inl q) = inr (p.0, p.1, p.2, q ∙ p.3, p.4)
      entry p (inr q) = inr (
        subst Who q.0 who,
        q.1,
        q.2,
        q.3,
        (
          q.4.0,
          q.4.1,
          q.4.2,
          q.4.3,
          subst (Has q.4.0) x.1 q.4.4,
          q.4.5,
          (q.4.6.0, tt, q.4.6.2, q.4.6.3, q.4.6.4, q.4.6.5, q.4.6.6),
          q.4.7,
          q.4.8,
          q.4.9,
        ),
      )

  -- Of so many users at most, the counts returned.
  abbrev AllSynced : Bank → List ℕ → ℕ → (ℕ × ℕ) → Bank → Type 0
  AllSynced before ids most counts after =
      Synced g cfg now before (λ v. Has v ids) AnyTime u s i after × (counts.0 ≤ most)

  sync_each-Ends :
      (before : Bank) (ids rest : List ℕ) (done rows : ℕ) (w : World Bank)
      → All (λ v. Has v ids) rest
      → Synced g cfg now before (λ v. Has v ids) AnyTime u s i w.tables
      → Ends
          (AllSynced before ids (done + length rest))
          (λ _ _. ⊥)
          (sync_each g cfg now rest done rows w)
  unfolding sync_each pure
  sync_each-Ends before ids [] done rows w known h = (h, omega arith)
  sync_each-Ends before ids (id ∷ rest) done rows w known h =
      attempt_step (λ _ b. Synced g cfg now w.tables (λ v. id ≡ v) (Latest w.tables id) u s i b)
        (λ e b. Unsynced w.tables id e × (b ≡ w.tables))
        (Ends (AllSynced before ids (done + suc (length rest))) (λ _ _. ⊥)) (sync_user g cfg now id)
        _ w (sync_user-Ends id w h.2)
        (λ n w' h'.
          Ends-map {P = AllSynced before ids (suc done + length rest)} {Q = λ _ _. ⊥}
            (sync_each g cfg now rest (suc done) (rows + n) w') (λ c b k. (k.0, omega (arith, k.1)))
            (λ e b k. k)
            (sync_each-Ends before ids rest (suc done) (rows + n) w' known.1
              (then-Synced before w.tables w'.tables (λ v. Has v ids) id known.0 h h')))
        (λ e w' lost.
          Ends-map {P = AllSynced before ids (done + length rest)} {Q = λ _ _. ⊥}
            (sync_each g cfg now rest done rows w') (λ c b k. (k.0, omega (arith, k.1)))
            (λ e b k. k)
            (sync_each-Ends before ids rest done rows w' known.1
              (subst (Synced g cfg now before (λ v. Has v ids) AnyTime u s i) (sym lost.1) h)))

  -- The nightly run never fails, whatever the bank answers and whichever statements fail: any stored
  -- transaction stays, or it is a row of a page that the bank answered to a request for a mirrored account of
  -- a linked user (its number, its branch, from a time as in SyncUser, to now), under the source idbi; links and accounts stay, and no more users are counted than are linked.
  pub sync_all_linked_users-Ends :
      (w : World Bank)
      → IsApart clash w.tables.spends.rows
      → Ends
          (λ counts b.
            Synced g cfg now w.tables (λ v. Has v (linked_ids w.tables)) AnyTime u s i b
            × (counts.0 ≤ length w.tables.links))
          (λ _ _. ⊥)
          (sync_all_linked_users g cfg now w)
  unfolding sync_all_linked_users list_linked_user_ids pure
  sync_all_linked_users-Ends w apart =
      attempt_step (λ ids b. (ids ≡ linked_ids w.tables) × (b ≡ w.tables))
        (λ e b. (e ≡ store_failure) × (b ≡ w.tables)) (Ends Run (λ _ _. ⊥)) list_linked_user_ids _ w
        (read-Ends w linked_ids)
        (λ ids w' found.
          subst (λ (l : List ℕ). Ends Run (λ _ _. ⊥) (sync_each g cfg now l 0 0 w')) (sym found.0)
            (Ends-map {P = AllSynced w.tables ids' (0 + length ids')} {Q = λ _ _. ⊥}
              (sync_each g cfg now ids' 0 0 w')
              (λ c b k. (
                k.0,
                omega (arith, k.1, length-map (λ (l : CustomerLink). l.user_id) w.tables.links),
              ))
              (λ e b k. k)
              (sync_each-Ends w.tables ids' ids' 0 0 w' (Has-All _ ids' (λ v h. h)) (
                subst (Synced g cfg now w.tables (λ v. Has v ids') AnyTime u s i) (sym found.1)
                  begun))))
        (λ e w' lost. (
          subst (Synced g cfg now w.tables (λ v. Has v ids') AnyTime u s i) (sym lost.1) begun,
          omega arith,
        ))
    where
      ids' : List ℕ
      ids' = linked_ids w.tables

      begun : Synced g cfg now w.tables (λ v. Has v ids') AnyTime u s i w.tables
      begun = started w.tables (λ v. Has v ids') AnyTime apart

      Run : (ℕ × ℕ) → Bank → Type 0
      Run counts b =
          Synced g cfg now w.tables (λ v. Has v (linked_ids w.tables)) AnyTime u s i b
          × (counts.0 ≤ length w.tables.links)
