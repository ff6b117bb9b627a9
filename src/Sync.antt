-- ===== src/Sync.antt =====
-- internal/service/statementsync/service.go: real transactions of linked customers, pulled page by page.
-- The bank's answer to a request is an argument, with `none` for an error, and so is the printing of
-- times; times are in seconds from Go's zero time. A run reads one clock.
pub mod Pulled
pub mod Runs
pub mod Start
use astra_backend.Prelude.{
  ℕ, zero, suc, ◌+◌, ◌-◌, ◌*◌, Bool, true, false, not, ◌&&◌, ◌||◌, Option, none, some, List, [],
  ◌∷◌, Text, lit, text_eq, ◌==◌, if◌then◌else◌, length,
}
use astra_backend.Store.{
  Error, failure, Result, ok, err, Call, pure, raise, ◌>>=◌, ◌>>◌, raise_if, or_raise, attempt,
}
use astra_backend.Spend.{Parser, Money, StatementTxn, FullStatement, full_statement_spend_rows}
use astra_backend.Spend.Table.{Numerics, upsert_spend_transactions, latest_spend_sync}
use astra_backend.Bank.{
  Bank, MirroredAccount, get_customer_link, list_accounts, list_linked_user_ids, on_spends,
}

abbrev pub source_idbi : Text
source_idbi = lit "idbi"

pub record Config : Type 0 where
  pub lookback : ℕ
  pub overlap : ℕ
  pub max_pages : ℕ

abbrev day : ℕ
day = 86400

-- The defaults of `New`.
unfoldable pub with_defaults : Config → Config
with_defaults cfg = record {
  lookback = if cfg.lookback == 0 then 180 * day else cfg.lookback;
  overlap = if cfg.overlap == 0 then 3 * day else cfg.overlap;
  max_pages = if cfg.max_pages == 0 then 20 else cfg.max_pages;
}

-- `idbi.FullStatementRequest`
pub record Request : Type 0 where
  pub acid : Text
  pub branch_id : Text
  pub from_date : Text
  pub to_date : Text
  pub sort_in : Text
  pub last_balance : Money
  pub last_pstd_date : Text
  pub last_txn_date : Text
  pub last_txn_id : Text
  pub last_txn_srl_no : Text

-- `Provider`, and what the mapping and the requests need of packages time and strconv.
pub record Gateway : Type 0 where
  pub get_full_account_statement : Request → Option FullStatement
  pub parser : Parser
  pub numerics : Numerics
  pub stamp : ℕ → Text

abbrev pub first_request : Gateway → MirroredAccount → ℕ → ℕ → Request
first_request g a from to = record {
  acid = a.account_number;
  branch_id = a.branch_id;
  from_date = g.stamp from;
  to_date = g.stamp to;
  sort_in = lit "D";
  last_balance = record { amount_value = []; currency_code = [] };
  last_pstd_date = [];
  last_txn_date = [];
  last_txn_id = [];
  last_txn_srl_no = [];
}

unfoldable pub after_txn : Request → StatementTxn → Request
after_txn req last = record req {
  last_txn_id = last.txn_id;
  last_txn_srl_no = last.txn_srl_no;
  last_pstd_date = last.pstd_date;
  last_txn_date = last.value_date;
  last_balance = last.txn_balance;
}

abbrev pub last_of : List StatementTxn → Option StatementTxn
last_of [] = none
last_of (t ∷ rest) = elim (last_of rest) [ none ↦ some t | some u ↦ some u ]

-- The request for the next page, unless there is none.
unfoldable pub next_request : Request → FullStatement → Option Request
unfolding after_txn
next_request req resp =
    if not (text_eq resp.has_more_data (lit "Y"))
    then none
    else (elim (last_of resp.transaction_details) [
      | none ↦ none
      | some last ↦ some (after_txn req last)
    ])

-- The loop of `syncAccount`, with the pages left and the rows written.
unfoldable pub sync_pages : Gateway → ℕ → ℕ → Text → ℕ → Request → ℕ → Call Bank ℕ
unfolding next_request
sync_pages g now user_id acct zero req written = pure written
sync_pages g now user_id acct (suc left) req written = elim (g.get_full_account_statement req) [
  | none ↦ raise (failure "393")
  | some resp ↦
      on_spends (
        upsert_spend_transactions g.numerics now user_id source_idbi
          (full_statement_spend_rows g.parser acct resp))
      >>= λ n. elim (next_request req resp) [
        | none ↦ pure (written + n)
        | some req' ↦ sync_pages g now user_id acct left req' (written + n)
      ]
]

-- `syncAccount`
unfoldable pub sync_account : Gateway → Config → ℕ → ℕ → MirroredAccount → ℕ → ℕ → Call Bank ℕ
unfolding sync_pages
sync_account g cfg now user_id a from to =
    sync_pages g now user_id a.account_number cfg.max_pages (first_request g a from to) 0

-- The loop of `SyncUser`: an account that fails is passed over.
unfoldable pub sync_accounts : Gateway → Config → ℕ → ℕ → ℕ → List MirroredAccount → ℕ → Call Bank ℕ
unfolding sync_account
sync_accounts g cfg now user_id from [] total = pure total
sync_accounts g cfg now user_id from (a ∷ rest) total =
    attempt (sync_account g cfg now user_id a from now) >>= λ r. elim r [
      | err e ↦ sync_accounts g cfg now user_id from rest total
      | ok n ↦ sync_accounts g cfg now user_id from rest (total + n)
    ]

-- The start of the period, from what LatestSpendSync answers.
unfoldable pub start_of : Config → ℕ → ℕ → ℕ
start_of cfg now last = if last == 0 then now - cfg.lookback else last - cfg.overlap

-- `SyncUser`
unfoldable pub sync_user : Gateway → Config → ℕ → ℕ → Call Bank ℕ
unfolding sync_accounts start_of
sync_user g cfg now user_id = do
  link ← get_customer_link user_id
  _ ← or_raise link (failure "no idbi customer link for user")
  accts ← list_accounts user_id
  raise_if (length accts == 0) (failure "statementsync: no mirrored accounts")
  last ← on_spends (latest_spend_sync user_id source_idbi)
  sync_accounts g cfg now user_id (start_of cfg now last) accts 0

-- The loop of `SyncAllLinkedUsers`.
unfoldable pub sync_each : Gateway → Config → ℕ → List ℕ → ℕ → ℕ → Call Bank (ℕ × ℕ)
unfolding sync_user
sync_each g cfg now [] users_synced rows_written = pure (users_synced, rows_written)
sync_each g cfg now (id ∷ rest) users_synced rows_written =
    attempt (sync_user g cfg now id) >>= λ r. elim r [
      | err e ↦ sync_each g cfg now rest users_synced rows_written
      | ok n ↦ sync_each g cfg now rest (suc users_synced) (rows_written + n)
    ]

-- `SyncAllLinkedUsers`
unfoldable pub sync_all_linked_users : Gateway → Config → ℕ → Call Bank (ℕ × ℕ)
unfolding sync_each
sync_all_linked_users g cfg now = attempt list_linked_user_ids >>= λ r. elim r [
  | err e ↦ pure (0, 0)
  | ok ids ↦ sync_each g cfg now ids 0 0
]
