-- ===== src/Spend/Table.antt =====
-- internal/repository/idbi_repo.go: UpsertSpendTransactions and LatestSpendSync, over the table
-- spend_transactions (migrations 000007 and 000028).
use astra_backend.Prelude.{
  ℕ, suc, ◌+◌, Bool, true, false, not, ◌&&◌, ◌||◌, Option, none, some, List, [], ◌∷◌, Text, lit,
  text_eq, is_empty, ltb, leb, ◌==◌, if◌then◌else◌, first, change, take, rune_count,
}
use astra_backend.Store.{Call, pure, ◌>>◌, read, write_checked, transaction}
use astra_backend.Spend.{SpendRow}

-- fmt.Sprintf of "%f" on a float64, pgtype.Numeric.Scan with `none` for an error, and what a column
-- NUMERIC(18,2) holds of a number, with `none` if it overflows.
pub record Numerics : Type 0 where
  pub print_float : ℕ → Text
  pub scan : Text → Option ℕ
  pub column : ℕ → Option ℕ

-- `amount` is null in no row of the table, only in one to be inserted.
pub record SpendTxn : Type 0 where
  pub id : ℕ
  pub user_id : ℕ
  pub amount : Option ℕ
  pub kind : Text
  pub category : Text
  pub merchant : Text
  pub occurred_at : ℕ
  pub source : Text
  pub external_id : Option Text
  pub account_ref : Option Text
  pub created_at : ℕ

-- The table, the ids given so far, and the ids of users.
pub record Spends : Type 0 where
  pub rows : List SpendTxn
  pub next_id : ℕ
  pub users : List ℕ

abbrev pub is_id : Text → Option Text → Bool
is_id id none = false
is_id id (some x) = text_eq x id

-- The unique index on (user_id, source, external_id).
abbrev pub keyed : ℕ → Text → Text → SpendTxn → Bool
keyed user_id source id x =
    x.user_id == user_id && text_eq x.source source && is_id id x.external_id

abbrev ref_or_null : Text → Option Text
ref_or_null ref = if is_empty ref then none else some ref

-- `numericFromFloat`: an error of Scan is dropped, and leaves null.
unfoldable pub numeric_from_float : Numerics → ℕ → Option ℕ
numeric_from_float d f = d.scan (d.print_float f)

abbrev pub in_column : Numerics → Option ℕ → Option ℕ
in_column d none = none
in_column d (some n) = d.column n

-- The values of `UpsertSpendTransactionParams`, the amount as its column holds it.
unfoldable pub txn_of : Numerics → ℕ → Text → SpendRow → SpendTxn
unfolding numeric_from_float
txn_of d user_id source row = record {
  id = 0;
  user_id = user_id;
  amount = in_column d (numeric_from_float d row.amount);
  kind = if is_empty row.kind then lit "DEBIT" else row.kind;
  category = if is_empty row.category then lit "Other" else row.category;
  merchant = take 100 row.merchant;
  occurred_at = row.occurred_at;
  source = source;
  external_id = some row.external_id;
  account_ref = ref_or_null row.account_ref;
  created_at = 0;
}

-- `DO UPDATE SET`
unfoldable pub overwritten : SpendTxn → SpendTxn → SpendTxn
overwritten x old = record old {
  amount = x.amount;
  kind = x.kind;
  category = x.category;
  merchant = x.merchant;
  occurred_at = x.occurred_at;
  account_ref = x.account_ref;
}

abbrev pub has_user : ℕ → List ℕ → Bool
has_user id [] = false
has_user id (u ∷ rest) = u == id || has_user id rest

abbrev fits : ℕ → Option Text → Bool
fits n none = true
fits n (some s) = leb (rune_count s) n

abbrev is_held : Option ℕ → Bool
is_held none = false
is_held (some n) = true

-- The reference to the user, an amount that its column holds, and the lengths of the columns.
unfoldable pub allowed : SpendTxn → Spends → Bool
allowed x t =
    has_user x.user_id t.users
    && is_held x.amount
    && leb (rune_count x.kind) 6
    && leb (rune_count x.category) 40
    && leb (rune_count x.merchant) 100
    && leb (rune_count x.source) 8
    && fits 64 x.external_id
    && fits 64 x.account_ref

-- `UpsertSpendTransaction` for an external id.
unfoldable pub put : ℕ → Text → SpendTxn → Spends → Spends
unfolding overwritten
put now id x t = elim (first (keyed x.user_id x.source id) t.rows) [
  | none ↦ record t {
    rows = record x { id = t.next_id; created_at = now } ∷ t.rows;
    next_id = suc t.next_id;
  }
  | some old ↦ record t { rows = change (keyed x.user_id x.source id) (overwritten x) t.rows }
]

unfoldable pub put_checked : ℕ → Text → SpendTxn → Spends → Option (Spends × Unit {0})
unfolding put allowed
put_checked now id x t = if allowed x t then some (put now id x t, tt) else none

-- A row without an id or a time is passed over.
unfoldable pub is_usable : SpendRow → Bool
is_usable row = not (is_empty row.external_id || row.occurred_at == 0)

-- The loop of `UpsertSpendTransactions`, with the count so far.
unfoldable pub upsert_rows : Numerics → ℕ → ℕ → Text → List SpendRow → ℕ → Call Spends ℕ
unfolding put_checked txn_of
upsert_rows d now user_id source [] n = pure n
upsert_rows d now user_id source (row ∷ rest) n = elim (is_usable row) [
  | false ↦ upsert_rows d now user_id source rest n
  | true ↦
      write_checked (put_checked now row.external_id (txn_of d user_id source row))
      >> upsert_rows d now user_id source rest (n + 1)
]

-- `UpsertSpendTransactions`
unfoldable pub upsert_spend_transactions : Numerics → ℕ → ℕ → Text → List SpendRow → Call Spends ℕ
unfolding upsert_rows
upsert_spend_transactions d now user_id source [] = pure 0
upsert_spend_transactions d now user_id source (row ∷ rest) =
    transaction (upsert_rows d now user_id source (row ∷ rest) 0)

-- 1970-01-01, in seconds from Go's zero time.
abbrev pub epoch : ℕ
epoch = 62135596800

unfoldable pub latest_of : ℕ → Text → List SpendTxn → Option ℕ
latest_of user_id source [] = none
latest_of user_id source (x ∷ rest) =
    let latest = latest_of user_id source rest in
    if x.user_id == user_id && text_eq x.source source
    then (elim latest [
      | none ↦ some x.occurred_at
      | some t ↦ some (if ltb t x.occurred_at then x.occurred_at else t)
    ])
    else latest

-- `COALESCE(MAX(occurred_at), '1970-01-01 00:00:00+00')`
unfoldable pub latest_sync_of : ℕ → Text → Spends → ℕ
unfolding latest_of
latest_sync_of user_id source t = elim (latest_of user_id source t.rows) [
  | none ↦ epoch
  | some at ↦ at
]

-- `LatestSpendSync`
unfoldable pub latest_spend_sync : ℕ → Text → Call Spends ℕ
unfolding latest_sync_of
latest_spend_sync user_id source = read (latest_sync_of user_id source)
