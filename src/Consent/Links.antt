-- ===== src/Consent/Links.antt =====
-- internal/repository/idbi_aa_repo.go: what ReplaceLinkedAccounts leaves.
use astra_backend.Prelude.{
  ℕ, ◌≡◌, refl, sym, ap, subst, ◌∙◌, Bool, true, false, not, ◌&&◌, ◌||◌, List, [], ◌∷◌, arith, Text,
  text_eq, text_eq_iff, is_empty, if◌then◌else◌, select,
}
use astra_backend.Store.{store_failure, World, pure, ◌>>=◌, ◌>>◌, write}
use astra_backend.Store.Laws.{Ends, Ends-map, write-Ends, write_step, bind_step, transaction-Ends}
use astra_backend.Consent.{
  Account, Aggregator, is_at, upsert_account, upsert_all, is_among, prune, replace_linked_accounts,
}

-- The references that a set of rows asks for.
unfoldable pub refs_of : List Account → List Text
refs_of [] = []
refs_of (row ∷ rest) = if is_empty row.link_ref then refs_of rest else row.link_ref ∷ refs_of rest

-- The rows of the other handles.
unfoldable pub elsewhere : Text → List Account → List Account
elsewhere handle = select (λ (a : Account). not (text_eq a.handle handle))

-- Whether a reference is linked to a handle.
unfoldable pub is_linked : Text → Text → List Account → Bool
is_linked handle ref [] = false
is_linked handle ref (a ∷ rest) = if is_at handle ref a then true else is_linked handle ref rest

module _ (handle : Text) where
  elsewhere-upsert :
      (row : Account) (accounts : List Account)
      → text_eq row.handle handle ≡ true
      → elsewhere handle (upsert_account handle row accounts) ≡ elsewhere handle accounts
  unfolding elsewhere upsert_account
  elsewhere-upsert row [] h = ground arith
  elsewhere-upsert row (a ∷ rest) h = ground (arith, elsewhere-upsert row rest h)

  elsewhere-prune :
      (keep : List Text) (accounts : List Account)
      → elsewhere handle (
          select
            (λ (r : Account). not (text_eq r.handle handle) || is_among r.link_ref keep)
            accounts)
        ≡ elsewhere handle accounts
  unfolding elsewhere
  elsewhere-prune keep [] = refl
  elsewhere-prune keep (a ∷ rest) = ground (arith, elsewhere-prune keep rest)

handle_self : (handle : Text) → text_eq handle handle ≡ true
handle_self handle = (text_eq_iff handle handle).1 refl

module _ (handle ref : Text) where
  same_ref : (t u : Text) → text_eq t u ≡ true → text_eq t ref ≡ text_eq u ref
  same_ref t u e = ap (λ (v : Text). text_eq v ref) ((text_eq_iff t u).0 e)

  is_linked-upsert :
      (row : Account) (accounts : List Account)
      → text_eq row.handle handle ≡ true
      → is_linked handle ref (upsert_account handle row accounts)
        ≡ (text_eq row.link_ref ref || is_linked handle ref accounts)
  unfolding is_linked upsert_account
  is_linked-upsert row [] h = ground arith
  is_linked-upsert row (a ∷ rest) h =
      ground (arith, same_ref a.link_ref row.link_ref, is_linked-upsert row rest h)

  among_same :
      (t : Text) (keep : List Text) → text_eq t ref ≡ true → is_among t keep ≡ is_among ref keep
  among_same t keep e = ap (λ (v : Text). is_among v keep) ((text_eq_iff t ref).0 e)

  is_linked-prune :
      (keep : List Text) (accounts : List Account)
      → is_linked handle ref (
          select
            (λ (r : Account). not (text_eq r.handle handle) || is_among r.link_ref keep)
            accounts)
        ≡ (is_linked handle ref accounts && is_among ref keep)
  unfolding is_linked
  is_linked-prune keep [] = refl
  is_linked-prune keep (a ∷ rest) =
      ground (arith, among_same a.link_ref keep, is_linked-prune keep rest)

  module _ (before : Aggregator) where
    -- Every row was put in, and nothing else changed.
    abbrev Upserted : List Account → List Text → Aggregator → Type 0
    Upserted rows keep after =
        (keep ≡ refs_of rows)
        × (after.users ≡ before.users)
        × (after.consents ≡ before.consents)
        × (elsewhere handle after.accounts ≡ elsewhere handle before.accounts)
        × (is_linked handle ref after.accounts
            ≡ (is_among ref (refs_of rows) || is_linked handle ref before.accounts))

    -- The references of `rows` are those linked to the handle; other handles keep theirs, and no
    -- consent changes.
    abbrev pub Replaced : List Account → Aggregator → Type 0
    Replaced rows after =
        (after.users ≡ before.users)
        × (after.consents ≡ before.consents)
        × (elsewhere handle after.accounts ≡ elsewhere handle before.accounts)
        × (is_linked handle ref after.accounts ≡ is_among ref (refs_of rows))

  upsert_all-Ends :
      (now : ℕ) (rows : List Account) (w : World Aggregator)
      → Ends (Upserted w.tables rows) (λ e _. e ≡ store_failure) (upsert_all now handle rows w)
  unfolding upsert_all refs_of pure
  upsert_all-Ends now [] w = (refl, refl, refl, refl, refl)
  upsert_all-Ends now (row ∷ rest) w =
      one (is_empty row.link_ref) refl (λ w'. upsert_all-Ends now rest w')
    where
      placed : Account
      placed = record row { handle = handle; linked_at = now }

      grown :
          (keep : List Text) (t : Aggregator)
          → is_empty row.link_ref ≡ false
          → Upserted
              (record w.tables { accounts = upsert_account handle placed w.tables.accounts })
              rest
              keep
              t
          → Upserted w.tables (row ∷ rest) (row.link_ref ∷ keep) t
      grown keep t e (kept, users, consents, others, linked) = (
        ground (arith, kept),
        users,
        consents,
        others ∙ elsewhere-upsert handle placed w.tables.accounts (handle_self handle),
        ground (arith, linked, is_linked-upsert placed w.tables.accounts (handle_self handle)),
      )

      one :
          (b : Bool)
          → is_empty row.link_ref ≡ b
          → ((w' : World Aggregator)
              → Ends
                  (Upserted w'.tables rest)
                  (λ e _. e ≡ store_failure)
                  (upsert_all now handle rest w'))
          → Ends
              (Upserted w.tables (row ∷ rest))
              (λ e _. e ≡ store_failure)
              ((if b
                  then upsert_all now handle rest
                  else (write (λ (a : Aggregator). record a {
                    accounts = upsert_account handle placed a.accounts;
                  })
                      >> (upsert_all now handle rest >>= λ keep. pure (row.link_ref ∷ keep))))
                w)
      one true e ih =
          Ends-map {P = Upserted w.tables rest} {P' = Upserted w.tables (row ∷ rest)}
            {Q' = λ e _. e ≡ store_failure} _ (λ keep t u. ground (arith, u)) (λ e t h. h) (ih w)
      one false e ih =
          let R = Ends (Upserted w.tables (row ∷ rest)) (λ e _. e ≡ store_failure) in
          write_step R w _ _ (λ fs. refl)
            λ fs.
              bind_step _ _ R (upsert_all now handle rest) _ _ (ih _)
                (λ keep w' u. grown keep w'.tables e u) (λ e' w' h. h)

-- ReplaceLinkedAccounts leaves a handle linked to exactly the references that are given, those with no
-- reference passed over: one not given is linked no more. The accounts of other handles and all
-- consents are as before, and on any error so is everything.
pub replace_linked_accounts-Ends :
    (now : ℕ) (handle ref : Text) (rows : List Account) (w : World Aggregator)
    → Ends
        (λ _ after. Replaced handle ref w.tables rows after)
        (λ e after. (e ≡ store_failure) × (after ≡ w.tables))
        (replace_linked_accounts now handle rows w)
unfolding replace_linked_accounts prune
replace_linked_accounts-Ends now handle ref rows w =
    let P : Unit {0} → Aggregator → Type 0 = λ _ after. Replaced handle ref w.tables rows after in
    transaction-Ends P (λ e. e ≡ store_failure) _ w refl
      λ fs.
        bind_step (Upserted handle ref w.tables rows) (λ e _. e ≡ store_failure)
          (Ends P (λ e _. e ≡ store_failure)) (upsert_all now handle rows) _
          (record w { faults = fs })
          (upsert_all-Ends handle ref now rows (record w { faults = fs }))
          (λ keep w' u.
            Ends-map {P' = P} {Q' = λ e _. e ≡ store_failure} _
              (λ _ t done.
                subst (Replaced handle ref w.tables rows) (sym done) (pruned keep w'.tables u))
              (λ e t h. h.0) (write-Ends w' (prune handle keep)))
          (λ e w' h. h)
  where
    pruned :
        (keep : List Text) (t : Aggregator)
        → Upserted handle ref w.tables rows keep t
        → Replaced handle ref w.tables rows (prune handle keep t)
    pruned keep t (kept, users, consents, others, linked) = (
      users,
      consents,
      elsewhere-prune handle keep t.accounts ∙ others,
      ground (arith, linked, is_linked-prune handle ref keep t.accounts, ap (is_among ref) kept),
    )
