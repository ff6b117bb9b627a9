-- ===== src/Tests/Spend.antt =====
-- Spend transactions, the bank's mirror, the sync and the fetching of statements on small data.
use astra_backend.Prelude.{
  refl, ltb, if◌then◌else◌, ◌≡◌, ◌⊎◌, ◌≤◌, ◌-◌, true, false, none, some, [], ◌∷◌, lit, length, Has,
  text_eq, trim_space, to_lower, to_upper, index,
}
use astra_backend.Store.{store_failure, World, quiet}
use astra_backend.Store.Laws.{Ends}
use astra_backend.Spend.{Parser, Money, SpendRow, StatementTxn, categorise, txn_type, first_present}
use astra_backend.Spend.Table.{Numerics, Spends, upsert_spend_transactions, latest_sync_of}
use astra_backend.Spend.Upserted.{Upserted, upsert_spend_transactions-Ends}
use astra_backend.Bank.{MirroredAccount, Bank, delete_customer_link}
use astra_backend.Bank.Unlink.{Unlinked, delete_customer_link-Ends}
use astra_backend.Sync.{Config, Gateway, source_idbi, start_of, sync_user, sync_all_linked_users}
use astra_backend.Sync.Pulled.{Synced}
use astra_backend.Sync.Runs.{
  Latest, AnyTime, Unsynced, linked_ids, sync_user-Ends, sync_all_linked_users-Ends,
}
use astra_backend.Sync.Start.{start_of-latest_sync_of}
use astra_backend.Consent.{Consent}
use astra_backend.Fetching.{Records, Source, fetch_statements, handle_data_notification}
use astra_backend.Fetching.Served.{
  FetchedFor, Unfetched, Idle, Notified, fetch_statements-Ends, handle_data_notification-Ends,
}

dining : categorise (lit "UPI/SWIGGY/bangalore") ≡ lit "Food & Dining"
unfolding categorise to_lower index
dining = refl

credited : txn_type (lit " cr ") ≡ lit "CREDIT"
unfolding txn_type trim_space to_upper text_eq
credited = refl

skips_null : first_present (lit "NULL" ∷ lit " " ∷ lit "2025-05-01" ∷ []) ≡ lit "2025-05-01"
unfolding first_present trim_space text_eq
skips_null = refl

-- Every date is read as one time, and every amount as its length.
abbrev parser : Parser
parser = record { parse_layout = λ layout s. some 63000000000; parse_float = λ s. some (length s) }

-- Amounts are kept as they are, up to a limit.
abbrev numerics : Numerics
numerics = record {
  print_float = λ f. f ∷ [];
  scan = λ s. some (length s);
  column = λ n. if ltb n 1000 then some n else none;
}

abbrev rupees : Money
rupees = record { amount_value = lit "250.00"; currency_code = lit "INR" }

abbrev txn : StatementTxn
txn = record {
  pstd_date = lit "2025-05-02";
  txn_amt = rupees;
  txn_date = lit "2025-05-01";
  txn_desc = lit "ATM CASH";
  txn_type_code = lit "D";
  txn_balance = rupees;
  txn_id = lit "T1";
  txn_srl_no = lit "1";
  value_date = lit "2025-05-01";
}

abbrev gateway : Gateway
gateway = record {
  get_full_account_statement =
      λ req. some (record { has_more_data = lit "N"; transaction_details = txn ∷ [] });
  parser = parser;
  numerics = numerics;
  stamp = λ t. lit "2025-05-03T00:00:00.000";
}

abbrev spends : Spends
spends = record { rows = []; next_id = 1; users = 7 ∷ 8 ∷ [] }

abbrev account : MirroredAccount
account = record {
  user_id = 7;
  account_number = lit "0011";
  account_type = lit "SAVINGS";
  currency = lit "INR";
  cif_id = lit "C1";
  cust_id = lit "K1";
  holder_name = lit "Asha";
  status = lit "A";
  branch_id = lit "B1";
  branch_name = lit "Fort";
  opened_at = none;
  ledger_balance = 0;
  available_balance = 0;
  effective_balance = 0;
  lien_amount = 0;
  synced_at = 5;
}

abbrev bank : Bank
bank = record {
  links =
      record {
        user_id = 7;
        cif_id = lit "C1";
        cust_id = lit "K1";
        source = lit "kyc";
        linked_at = 5;
      }
      ∷ [];
  accounts = account ∷ [];
  spends = spends;
}

abbrev cfg : Config
cfg = record { lookback = 15552000; overlap = 259200; max_pages = 20 }

abbrev row : SpendRow
row = record {
  external_id = lit "T1";
  account_ref = lit "0011";
  amount = 6;
  kind = lit "DEBIT";
  category = lit "Cash";
  merchant = lit "ATM CASH";
  occurred_at = 63000000000;
}

-- The last round trip of four fails.
abbrev faulty : {S : Type 0} → S → World S
faulty t = record { tables = t; faults = false ∷ false ∷ false ∷ true ∷ []; entropy = [] }

upsert_spend_transactions-Ends_example :
    Ends
      (Upserted numerics 50 7 source_idbi 7 (lit "idbi") (lit "T1") (row ∷ row ∷ []) 0 spends)
      (λ e t. (e ≡ store_failure) × (t ≡ spends))
      (upsert_spend_transactions numerics 50 7 source_idbi (row ∷ row ∷ []) (faulty spends))
upsert_spend_transactions-Ends_example =
    upsert_spend_transactions-Ends numerics 50 7 source_idbi 7 (lit "idbi") (lit "T1")
      (row ∷ row ∷ []) (faulty spends) tt

sync_user-Ends_example :
    Ends
      (λ _ b.
        Synced gateway cfg 64000000000 bank
          (λ v. 7 ≡ v)
          (Latest bank 7)
          7
          (lit "idbi")
          (lit "T1")
          b)
      (λ e b. Unsynced bank 7 e × (b ≡ bank))
      (sync_user gateway cfg 64000000000 7 (quiet bank []))
sync_user-Ends_example =
    sync_user-Ends gateway cfg 64000000000 7 (lit "idbi") (lit "T1") 7 (quiet bank []) tt

sync_all_linked_users-Ends_example :
    Ends
      (λ counts b.
        Synced gateway cfg 64000000000 bank
          (λ v. Has v (linked_ids bank))
          AnyTime
          8
          (lit "idbi")
          (lit "T1")
          b
        × (counts.0 ≤ length bank.links))
      (λ _ _. ⊥)
      (sync_all_linked_users gateway cfg 64000000000 (faulty bank))
sync_all_linked_users-Ends_example =
    sync_all_linked_users-Ends gateway cfg 64000000000 8 (lit "idbi") (lit "T1") (faulty bank) tt

start_of-latest_sync_of_example :
    start_of cfg 64000000000 (latest_sync_of 7 source_idbi spends)
    ≡ latest_sync_of 7 source_idbi spends - cfg.overlap
start_of-latest_sync_of_example = start_of-latest_sync_of cfg 64000000000 7 source_idbi spends tt

delete_customer_link-Ends_example :
    Ends
      (λ _ b. Unlinked 7 8 bank b)
      (λ e b. (e ≡ store_failure) × (b ≡ bank))
      (delete_customer_link 7 (faulty bank))
delete_customer_link-Ends_example = delete_customer_link-Ends 7 8 (faulty bank) refl

abbrev source : Source
source = record {
  get_statement = λ consent_id refs. some (
      record {
        link_reference_number = lit "L1";
        transactions =
            record {
              txn_id = lit "A1";
              amount = lit "90";
              code = lit "DEBIT";
              mode = lit "UPI";
              narration = lit "tea";
              transaction_timestamp = lit "2025-05-01";
              value_date = lit "NULL";
            }
            ∷ [];
      }
      ∷ []);
  get_statement_from_fin_pro = λ consent_id refs. none;
  statement_source = lit "default";
  has_spend = true;
  ref_before = λ a b. true;
  parser = parser;
  numerics = numerics;
}

abbrev consent : Consent
consent = record {
  handle = lit "H1";
  user_id = 7;
  consent_id = lit "C1";
  status = lit "ACTIVE";
  party_id_type = lit "MOBILE";
  party_id_value = lit "9812345678";
  vua = lit "9812345678@aa";
  product_id = lit "TEST";
  account_id = lit "1";
  redirect_url = [];
  web_redirect_url = [];
  approved_at = some 5;
  last_fetched_at = none;
  created_at = 5;
  updated_at = 5;
}

abbrev records : Records
records = record {
  aggregator = record {
    users = 7 ∷ [];
    consents = consent ∷ [];
    accounts =
        record {
          handle = lit "H1";
          link_ref = lit "L1";
          fip_id = lit "F1";
          fip_name = lit "Bank";
          account_type = lit "SAVINGS";
          fi_type = lit "DEPOSIT";
          masked_number = lit "XX11";
          linked_at = 5;
        }
        ∷ [];
  };
  spends = spends;
}

fetch_statements-Ends_example :
    Ends
      (FetchedFor source 60 (lit "H1") 7 (lit "aa") (lit "A1") 7 records)
      (λ e r. Unfetched source 60 (lit "H1") 7 (lit "aa") (lit "A1") 7 records e × (r ≡ records))
      (fetch_statements source 60 7 (lit "H1") (quiet records []))
fetch_statements-Ends_example =
    fetch_statements-Ends source 60 (lit "H1") 7 (lit "aa") (lit "A1") 7 (quiet records []) tt

handle_data_notification-Ends_example :
    Ends
      (λ _ r.
        ((r ≡ records)
          × Idle source 60 (lit "H1") 7 (lit "aa") (lit "A1") (lit "data_ready") (quiet records []))
        ⊎ Notified source 60
            (lit "H1")
            7
            (lit "aa")
            (lit "A1")
            (lit "data_ready")
            (quiet records [])
            r)
      (λ e r. (e ≡ store_failure) × (r ≡ records))
      (handle_data_notification source 60 (lit "H1") (lit "data_ready") (quiet records []))
handle_data_notification-Ends_example =
    handle_data_notification-Ends source 60 (lit "H1") 7 (lit "aa") (lit "A1") (lit "data_ready")
      (quiet records []) tt
