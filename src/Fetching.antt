-- ===== src/Fetching.antt =====
-- internal/service/idbiaa/service.go: FetchStatements and HandleDataNotification, which store what the
-- aggregator answers as spend transactions. The aggregator's answers (595 and 739) are arguments, with
-- `none` for an error.
pub mod Stores
pub mod Served
use astra_backend.Prelude.{
  ℕ, Bool, true, false, not, ◌&&◌, ◌||◌, Option, none, some, List, [], ◌∷◌, map, Text, lit, text_eq,
  is_empty, equal_fold, ◌==◌, if◌then◌else◌, change, length,
}
use astra_backend.Store.{
  Error, no_consent, failure, Result, ok, err, Call, pure, raise, ◌>>=◌, ◌>>◌, raise_if, or_raise,
  read, write, attempt, within,
}
use astra_backend.Spend.{Parser, SpendRow, StatementAccount, aggregator_spend_rows}
use astra_backend.Spend.Table.{Numerics, Spends, upsert_spend_transactions}
use astra_backend.Consent.{Consent, Account, Aggregator, get_consent}
use astra_backend.Linking.{linked_to}

-- The tables of the aggregator, and the spend transactions.
pub record Records : Type 0 where
  pub aggregator : Aggregator
  pub spends : Spends

-- `GetAAStatement` and `GetAAStatementFromFinPro`, of a consent id and references; whether `s.spend` is
-- set; and the order of the database on the column link_ref_number.
pub record Source : Type 0 where
  pub get_statement : Text → List Text → Option (List StatementAccount)
  pub get_statement_from_fin_pro : Text → List Text → Option (List StatementAccount)
  pub statement_source : Text
  pub parser : Parser
  pub numerics : Numerics
  pub has_spend : Bool
  pub ref_before : Text → Text → Bool

abbrev pub source_aa : Text
source_aa = lit "aa"

unfoldable pub on_aggregator : {A : Type 0} → Call Aggregator A → Call Records A
on_aggregator = within (λ (r : Records). r.aggregator) (λ a r. record r { aggregator = a })

unfoldable pub on_spends : {A : Type 0} → Call Spends A → Call Records A
on_spends = within (λ (r : Records). r.spends) (λ t r. record r { spends = t })

-- `MarkFetched`
unfoldable pub fetched : ℕ → Text → Aggregator → Aggregator
fetched now handle a = record a {
  consents =
      change (λ (c : Consent). text_eq c.handle handle)
        (λ (c : Consent). record c { last_fetched_at = some now; updated_at = now }) a.consents;
}

unfoldable pub mark_fetched : ℕ → Text → Call Aggregator (Unit {0})
unfolding fetched
mark_fetched now handle = write (fetched now handle)

-- `!ok || row.UserID != userID`
abbrev pub owned_by : ℕ → Option Consent → Option Consent
owned_by user_id none = none
owned_by user_id (some c) = if c.user_id == user_id then some c else none

unfoldable pub refs_of : List Account → List Text
refs_of [] = []
refs_of (l ∷ rest) =
    let refs = refs_of rest in if is_empty l.link_ref then refs else l.link_ref ∷ refs

unfoldable pub statement_of : Source → Text → List Text → Option (List StatementAccount)
statement_of src consent_id refs =
    if equal_fold src.statement_source (lit "finpro")
    then src.get_statement_from_fin_pro consent_id refs
    else src.get_statement consent_id refs

-- `if s.spend != nil && len(rows) > 0`
unfoldable pub store_rows : Source → ℕ → ℕ → List SpendRow → Call Records ℕ
store_rows src now user_id [] = pure 0
store_rows src now user_id (row ∷ rest) =
    if src.has_spend
    then on_spends (upsert_spend_transactions src.numerics now user_id source_aa (row ∷ rest))
    else pure 0

-- `FetchStatements`, from the consent on.
unfoldable pub fetch_of : Source → ℕ → ℕ → Text → Consent → Call Records ℕ
unfolding refs_of statement_of store_rows
fetch_of src now user_id handle row = do
  linked ← on_aggregator (read (linked_to src.ref_before handle))
  let refs = refs_of linked
  raise_if (length refs == 0) (failure "consent has no linked accounts to fetch")
  raise_if (is_empty row.consent_id) (failure "consent has no consent_id yet")
  stmt ← or_raise (statement_of src row.consent_id refs) (failure "getAccountStatement")
  n ← store_rows src now user_id (aggregator_spend_rows src.parser stmt)
  _ ← attempt (on_aggregator (mark_fetched now handle))
  pure n

-- `FetchStatements`
unfoldable pub fetch_statements : Source → ℕ → ℕ → Text → Call Records ℕ
unfolding fetch_of
fetch_statements src now user_id handle = do
  found ← on_aggregator (read (get_consent handle))
  row ← or_raise (owned_by user_id found) no_consent
  fetch_of src now user_id handle row

-- `HandleDataNotification`, from the consent on.
unfoldable pub fetch_if : Source → ℕ → Text → Option Consent → Call Records (Unit {0})
unfolding fetch_statements
fetch_if src now handle none = pure tt
fetch_if src now handle (some row) =
    attempt (fetch_statements src now row.user_id handle) >> pure tt

-- `HandleDataNotification`, of a handle and an event's status.
unfoldable pub handle_data_notification : Source → ℕ → Text → Text → Call Records (Unit {0})
unfolding fetch_if
handle_data_notification src now handle event_status =
    if is_empty handle || not (equal_fold event_status (lit "DATA_READY"))
    then pure tt
    else (on_aggregator (read (get_consent handle)) >>= fetch_if src now handle)
