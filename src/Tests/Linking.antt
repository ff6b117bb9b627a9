-- ===== src/Tests/Linking.antt =====
-- The account aggregator consents on small data.
use astra_backend.Prelude.{ℕ, ◌≡◌, ◌⊎◌, true, none, some, [], ◌∷◌, Text, lit}
use astra_backend.Store.{World, quiet, store_failure}
use astra_backend.Store.Laws.{Ends}
use astra_backend.Consent.{Consent, Account, Aggregator, replace_linked_accounts}
use astra_backend.Consent.Links.{Replaced, replace_linked_accounts-Ends}
use astra_backend.Linking.{
  Config, Decoded, Provider, Notification, blank, refresh, complete_redirect,
  handle_consent_notification,
}
use astra_backend.Linking.Owners.{Within, Served}
use astra_backend.Linking.Calls.{
  refresh-Served, complete_redirect-Ends, handle_consent_notification-Within,
}

abbrev account : Text → Text → Account
account handle ref = record {
  handle = handle;
  link_ref = ref;
  fip_id = lit "IDBI";
  fip_name = lit "IDBI Bank";
  account_type = lit "SAVINGS";
  fi_type = lit "DEPOSIT";
  masked_number = lit "XX12";
  linked_at = 10;
}

abbrev consent : Text → ℕ → Consent
consent handle user = record blank {
  handle = handle;
  user_id = user;
  status = lit "PENDING";
  party_id_type = lit "MOBILE";
}

-- Two consents of two users, the first with one linked account.
abbrev tables : Aggregator
tables = record {
  users = 1 ∷ 2 ∷ [];
  consents = consent (lit "h1") 1 ∷ consent (lit "h2") 2 ∷ [];
  accounts = account (lit "h1") (lit "r1") ∷ account (lit "h2") (lit "r1") ∷ [];
}

abbrev at_tables : World Aggregator
at_tables = quiet tables []

abbrev cfg : Config
cfg = record {
  redirect_mode = lit "live";
  vua_suffix = lit "@onemoney";
  product_id = lit "TEST";
  callback_url = lit "https://app";
}

-- An aggregator that lists the first consent as active, with another account.
abbrev prov : Provider
prov = record {
  request_consent = λ mobile product id vua. some (lit "h1", lit "PENDING");
  consent_list = λ kind value product id vua. some (
      record {
        handle = lit "h1";
        consent_id = lit "c1";
        status = lit "active";
        created = [];
        accounts = account [] (lit "r2") ∷ [];
      }
      ∷ []);
  web_redirection_url = λ handle url. some (lit "https://aa" ∷ []);
  decrypt = λ ecres resdate fi.
      some (record { srcref = lit "h1"; errorcode = lit "0"; status = lit "S" });
  parse_time = λ t. none;
  ref_before = λ a b. true;
}

abbrev approved : Notification
approved = record {
  handle = lit "h1";
  consent_id = lit "c1";
  event_status = lit "CONSENT_APPROVED";
}

replace_linked_accounts-Ends_example :
    Ends
      (λ _ after. Replaced (lit "h1") (lit "r2") tables (account [] (lit "r2") ∷ []) after)
      (λ e after. (e ≡ store_failure) × (after ≡ tables))
      (replace_linked_accounts 20 (lit "h1") (account [] (lit "r2") ∷ []) at_tables)
replace_linked_accounts-Ends_example =
    replace_linked_accounts-Ends 20 (lit "h1") (lit "r2") (account [] (lit "r2") ∷ []) at_tables

refresh-Served_example :
    Ends
      (λ _ after. Served (lit "h1") tables 1 after)
      (λ _ after. (after ≡ tables) ⊎ Served (lit "h1") tables 1 after)
      (refresh prov cfg 20 1 (lit "h1") at_tables)
refresh-Served_example = refresh-Served prov cfg 20 1 (lit "h1") at_tables

complete_redirect-Ends_example :
    Ends
      (λ _ after.
        (dec : Decoded) × (prov.decrypt [] [] [] ≡ some dec) × Served dec.srcref tables 1 after)
      (λ _ after.
        (after ≡ tables)
        ⊎ ((dec : Decoded) × (prov.decrypt [] [] [] ≡ some dec) × Served dec.srcref tables 1 after))
      (complete_redirect prov cfg 20 1 [] [] [] at_tables)
complete_redirect-Ends_example = complete_redirect-Ends prov cfg 20 1 [] [] [] at_tables

handle_consent_notification-Within_example :
    Ends
      (λ _ after. Within (lit "h1") tables after)
      (λ _ after. Within (lit "h1") tables after)
      (handle_consent_notification prov cfg 20 approved at_tables)
handle_consent_notification-Within_example =
    handle_consent_notification-Within prov cfg 20 approved at_tables
