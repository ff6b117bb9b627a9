-- ===== src/Bank.antt =====
-- internal/repository/idbi_repo.go: a user's link to a customer of the bank, the mirror of the customer's
-- accounts (migration 000027), and beside them the spend transactions.
pub mod Unlink
use astra_backend.Prelude.{
  ℕ, Bool, true, false, not, ◌&&◌, ◌||◌, Option, none, some, List, [], ◌∷◌, ◌++◌, map, Text, lit,
  text_eq, is_empty, ltb, ◌==◌, if◌then◌else◌, first, change, select, sort_before,
}
use astra_backend.Store.{Call, pure, ◌>>=◌, ◌>>◌, read, write, write_checked, transaction, within}
use astra_backend.Spend.Table.{Spends, has_user}

-- A row of idbi_customer_link.
pub record CustomerLink : Type 0 where
  pub user_id : ℕ
  pub cif_id : Text
  pub cust_id : Text
  pub source : Text
  pub linked_at : ℕ

-- A row of idbi_accounts: `MirroredAccount`, with its user and the columns that are not read back. The
-- balances are the bits of a float64.
pub record MirroredAccount : Type 0 where
  pub user_id : ℕ
  pub account_number : Text
  pub account_type : Text
  pub currency : Text
  pub cif_id : Text
  pub cust_id : Text
  pub holder_name : Text
  pub status : Text
  pub branch_id : Text
  pub branch_name : Text
  pub opened_at : Option ℕ
  pub ledger_balance : ℕ
  pub available_balance : ℕ
  pub effective_balance : ℕ
  pub lien_amount : ℕ
  pub synced_at : ℕ

pub record Bank : Type 0 where
  pub links : List CustomerLink
  pub accounts : List MirroredAccount
  pub spends : Spends

-- A call on the spend transactions.
unfoldable pub on_spends : {A : Type 0} → Call Spends A → Call Bank A
on_spends = within (λ (b : Bank). b.spends) (λ t b. record b { spends = t })

abbrev pub link_of : ℕ → Bank → Option CustomerLink
link_of user_id b = first (λ (l : CustomerLink). l.user_id == user_id) b.links

-- `GetCustomerLink`, with `none` for ErrNoCustomerLink.
unfoldable pub get_customer_link : ℕ → Call Bank (Option CustomerLink)
get_customer_link user_id = read (link_of user_id)

abbrev relinked : ℕ → Text → Text → Text → CustomerLink → CustomerLink
relinked now cif_id cust_id source old = record old {
  cif_id = cif_id;
  cust_id = if is_empty cust_id then old.cust_id else cust_id;
  source = source;
}

-- `UpsertCustomerLink`
unfoldable pub upsert_customer_link : ℕ → ℕ → Text → Text → Text → Call Bank (Unit {0})
upsert_customer_link now user_id cif_id cust_id source = write_checked λ (b : Bank).
    if has_user user_id b.spends.users then some (record b { links = placed b }, tt) else none
  where
    mine : CustomerLink → Bool
    mine l = l.user_id == user_id

    placed : Bank → List CustomerLink
    placed b = elim (link_of user_id b) [
      | some old ↦ change mine (relinked now cif_id cust_id source) b.links
      | none ↦
          record {
            user_id = user_id;
            cif_id = cif_id;
            cust_id = cust_id;
            source = source;
            linked_at = now;
          }
          ∷ b.links
    ]

-- `ListLinkedUserIDs`
unfoldable pub list_linked_user_ids : Call Bank (List ℕ)
list_linked_user_ids = read λ (b : Bank). map (λ (l : CustomerLink). l.user_id) b.links

unfoldable pub drop_accounts : ℕ → Bank → Bank
drop_accounts user_id b = record b {
  accounts = select (λ (a : MirroredAccount). not (a.user_id == user_id)) b.accounts;
}

unfoldable pub drop_link : ℕ → Bank → Bank
drop_link user_id b = record b {
  links = select (λ (l : CustomerLink). not (l.user_id == user_id)) b.links;
}

-- `DeleteCustomerLink`
unfoldable pub delete_customer_link : ℕ → Call Bank (Unit {0})
unfolding drop_accounts drop_link
delete_customer_link user_id =
    transaction (write (drop_accounts user_id) >> write (drop_link user_id))

-- The order of strings, by bytes.
unfoldable pub text_before : Text → Text → Bool
text_before [] t = true
text_before (a ∷ s) [] = false
text_before (a ∷ s) (b ∷ t) = ltb a b || (a == b && text_before s t)

-- `ORDER BY account_type, account_number`
abbrev account_before : MirroredAccount → MirroredAccount → Bool
account_before a b =
    if text_eq a.account_type b.account_type
    then text_before a.account_number b.account_number
    else text_before a.account_type b.account_type

unfoldable pub accounts_of : ℕ → Bank → List MirroredAccount
unfolding text_before
accounts_of user_id b =
    sort_before account_before (select (λ (a : MirroredAccount). a.user_id == user_id) b.accounts)

-- `ListAccounts`
unfoldable pub list_accounts : ℕ → Call Bank (List MirroredAccount)
unfolding accounts_of
list_accounts user_id = read (accounts_of user_id)
