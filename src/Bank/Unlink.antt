-- ===== src/Bank/Unlink.antt =====
-- internal/repository/idbi_repo.go: what DeleteCustomerLink leaves.
use astra_backend.Prelude.{
  ℕ, ◌≡◌, refl, sym, subst, false, not, none, List, [], ◌∷◌, arith, ◌==◌, first, select,
}
use astra_backend.Store.{store_failure, Result, World, ◌>>=◌, write}
use astra_backend.Store.Laws.{Ends, Ends-map, write-Ends, write_step, transaction-Ends}
use astra_backend.Bank.{
  Bank, CustomerLink, MirroredAccount, link_of, drop_accounts, drop_link, delete_customer_link,
}

abbrev accounts_for : ℕ → Bank → List MirroredAccount
accounts_for user_id b = select (λ (a : MirroredAccount). a.user_id == user_id) b.accounts

-- The user has neither a link nor an account; the user `v` has what they had, and the spend transactions
-- stay.
abbrev pub Unlinked : ℕ → ℕ → Bank → Bank → Type 0
Unlinked user_id v before after =
    (link_of user_id after ≡ none)
    × (accounts_for user_id after ≡ [])
    × (after.spends ≡ before.spends)
    × (link_of v after ≡ link_of v before)
    × (accounts_for v after ≡ accounts_for v before)

module _ {A : Type 0} (user : A → ℕ) where
  select_gone :
      (n : ℕ) (xs : List A) → select (λ x. user x == n) (select (λ x. not (user x == n)) xs) ≡ []
  select_gone n [] = refl
  select_gone n (x ∷ xs) = ground (arith, select_gone n xs)

  first_gone :
      (n : ℕ) (xs : List A) → first (λ x. user x == n) (select (λ x. not (user x == n)) xs) ≡ none
  first_gone n [] = refl
  first_gone n (x ∷ xs) = ground (arith, first_gone n xs)

  select_kept :
      (v n : ℕ) (xs : List A)
      → (v == n) ≡ false
      → select (λ x. user x == v) (select (λ x. not (user x == n)) xs)
        ≡ select (λ x. user x == v) xs
  select_kept v n [] h = refl
  select_kept v n (x ∷ xs) h = ground (arith, select_kept v n xs)

  first_kept :
      (v n : ℕ) (xs : List A)
      → (v == n) ≡ false
      → first (λ x. user x == v) (select (λ x. not (user x == n)) xs) ≡ first (λ x. user x == v) xs
  first_kept v n [] h = refl
  first_kept v n (x ∷ xs) h = ground (arith, first_kept v n xs)

-- DeleteCustomerLink takes the link of a user and all their mirrored accounts together, so that no mirror
-- outlives its link, and nothing of any other user; or it fails and nothing has changed.
pub delete_customer_link-Ends :
    (user_id v : ℕ) (w : World Bank)
    → (v == user_id) ≡ false
    → Ends
        (λ _ b. Unlinked user_id v w.tables b)
        (λ e b. (e ≡ store_failure) × (b ≡ w.tables))
        (delete_customer_link user_id w)
unfolding delete_customer_link drop_accounts drop_link
delete_customer_link-Ends user_id v w other =
    transaction-Ends (λ _ b. Unlinked user_id v w.tables b) (λ e. e ≡ store_failure)
      (write (drop_accounts user_id) >>= λ _. write (drop_link user_id)) w refl
      (λ fs.
        write_step R (record w { faults = fs }) (drop_accounts user_id) (write (drop_link user_id))
          (λ fs'. refl)
          (λ fs'.
            Ends-map {P = λ _ b. b ≡ drop_link user_id (drop_accounts user_id w.tables)}
              {Q = λ e b. (e ≡ store_failure) × (b ≡ drop_accounts user_id w.tables)}
              (write (drop_link user_id)
                (record w { tables = drop_accounts user_id w.tables; faults = fs' }))
              (λ u b same. subst (Unlinked user_id v w.tables) (sym same) gone) (λ e b lost. lost.0)
              (write-Ends (record w { tables = drop_accounts user_id w.tables; faults = fs' })
                (drop_link user_id))))
  where
    R : Result (Unit {0}) × World Bank → Type 0
    R = Ends (λ _ b. Unlinked user_id v w.tables b) (λ e _. e ≡ store_failure)

    gone : Unlinked user_id v w.tables (drop_link user_id (drop_accounts user_id w.tables))
    gone = (
      first_gone (λ (l : CustomerLink). l.user_id) user_id w.tables.links,
      select_gone (λ (a : MirroredAccount). a.user_id) user_id w.tables.accounts,
      refl,
      first_kept (λ (l : CustomerLink). l.user_id) v user_id w.tables.links other,
      select_kept (λ (a : MirroredAccount). a.user_id) v user_id w.tables.accounts other,
    )
