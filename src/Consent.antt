-- ===== src/Consent.antt =====
-- internal/service/idbiaa/service.go, the account aggregator consents, over the tables of
-- internal/repository/idbi_aa_repo.go (the queries stand in internal/db/query/idbi_aa_*.sql). What the
-- aggregator answers is an argument; fetching statements is left out.
pub mod Links
use astra_backend.Prelude.{
  ℕ, ◌+◌, Bool, true, false, not, ◌&&◌, ◌||◌, Option, none, some, List, [], ◌∷◌, ◌++◌, map, Text,
  lit, text_eq, is_empty, trim_space, to_upper, equal_fold, ◌==◌, if◌then◌else◌, first, change,
  select,
}
use astra_backend.Store.{
  Error, no_consent, failure, Result, ok, err, World, Call, pure, raise, ◌>>=◌, ◌>>◌, raise_if,
  read, write, write_checked, write_returning, or_raise, transaction,
}

-- A row of idbi_aa_consents (AAConsentRow).
pub record Consent : Type 0 where
  pub handle : Text
  pub user_id : ℕ
  pub consent_id : Text
  pub status : Text
  pub party_id_type : Text
  pub party_id_value : Text
  pub vua : Text
  pub product_id : Text
  pub account_id : Text
  pub redirect_url : Text
  pub web_redirect_url : Text
  pub approved_at : Option ℕ
  pub last_fetched_at : Option ℕ
  pub created_at : ℕ
  pub updated_at : ℕ

-- A row of idbi_aa_linked_accounts (AALinkedAccountRow); its key is the handle with the reference.
pub record Account : Type 0 where
  pub handle : Text
  pub link_ref : Text
  pub fip_id : Text
  pub fip_name : Text
  pub account_type : Text
  pub fi_type : Text
  pub masked_number : Text
  pub linked_at : ℕ

pub record Aggregator : Type 0 where
  pub users : List ℕ
  pub consents : List Consent
  pub accounts : List Account

-- `GetConsent`
unfoldable pub get_consent : Text → Aggregator → Option Consent
get_consent handle a = first (λ (c : Consent). text_eq c.handle handle) a.consents

-- `COALESCE(NULLIF(new, ''), old)`
abbrev pub new_or : Text → Text → Text
new_or new old = if is_empty new then old else new

abbrev pub default_to : Text → Text → Text
default_to d t = if is_empty t then d else t

-- `ON CONFLICT (consent_handle) DO UPDATE`: the owner stays, and so does a status other than PENDING.
unfoldable pub merged : ℕ → Consent → Consent → Consent
merged now row old = record old {
  consent_id = new_or row.consent_id old.consent_id;
  status = if text_eq old.status (lit "PENDING") then row.status else old.status;
  redirect_url = new_or row.redirect_url old.redirect_url;
  web_redirect_url = new_or row.web_redirect_url old.web_redirect_url;
  updated_at = now;
}

abbrev pub has_user : ℕ → List ℕ → Bool
has_user id [] = false
has_user id (u ∷ rest) = if u == id then true else has_user id rest

-- `CreateConsent`
unfoldable pub create_consent : ℕ → Consent → Aggregator → Option (Aggregator × Unit {0})
unfolding get_consent merged
create_consent now given a =
    if not (has_user given.user_id a.users) then none else (elim (get_consent row.handle a) [
      | none ↦ some (record a { consents = row ∷ a.consents }, tt)
      | some old ↦ some (
        record a {
          consents =
              change (λ (c : Consent). text_eq c.handle row.handle) (merged now row) a.consents;
        },
        tt,
      )
    ])
  where
    row : Consent
    row = record given {
      party_id_type = default_to (lit "MOBILE") given.party_id_type;
      status = default_to (lit "PENDING") given.status;
      created_at = now;
      updated_at = now;
    }

abbrev approved_or : Option ℕ → Option ℕ → Option ℕ
approved_or none old = old
approved_or (some t) old = some t

unfoldable pub restated : ℕ → Text → Text → Option ℕ → Consent → Consent
restated now status consent_id approved_at c = record c {
  status = status;
  consent_id = new_or consent_id c.consent_id;
  approved_at = approved_or approved_at c.approved_at;
  updated_at = now;
}

-- The statement of `UpdateConsentStatus`, with whether it changed a row.
unfoldable pub restate : ℕ → Text → Text → Text → Option ℕ → Aggregator → Aggregator × Bool
unfolding restated get_consent
restate now handle status consent_id approved_at a = (
  record a {
    consents =
        change (λ (c : Consent). text_eq c.handle handle)
          (restated now status consent_id approved_at) a.consents;
  },
  elim (get_consent handle a) [ none ↦ false | some _ ↦ true ],
)

-- `UpdateConsentStatus`
unfoldable pub update_consent_status :
    ℕ → Text → Text → Text → Option ℕ → Call Aggregator (Unit {0})
update_consent_status now handle status consent_id approved_at = do
  there ← write_returning (restate now handle status consent_id approved_at)
  raise_if (not there) no_consent

-- The key of a row.
abbrev pub is_at : Text → Text → Account → Bool
is_at handle ref a = text_eq a.handle handle && text_eq a.link_ref ref

-- `UpsertLinkedAccount`, whose conflict keeps linked_at.
unfoldable pub upsert_account : Text → Account → List Account → List Account
upsert_account handle row [] = row ∷ []
upsert_account handle row (a ∷ rest) =
    if is_at handle row.link_ref a
    then record row { handle = a.handle; link_ref = a.link_ref; linked_at = a.linked_at } ∷ rest
    else a ∷ upsert_account handle row rest

-- The loop of `ReplaceLinkedAccounts`: rows with no reference are passed over.
unfoldable pub upsert_all : ℕ → Text → List Account → Call Aggregator (List Text)
unfolding upsert_account
upsert_all now handle [] = pure []
upsert_all now handle (row ∷ rest) =
    if is_empty row.link_ref
    then upsert_all now handle rest
    else (write (λ a. record a {
      accounts = upsert_account handle (record row { handle = handle; linked_at = now }) a.accounts;
    })
        >> (upsert_all now handle rest >>= λ keep. pure (row.link_ref ∷ keep)))

abbrev pub is_among : Text → List Text → Bool
is_among t [] = false
is_among t (u ∷ rest) = if text_eq u t then true else is_among t rest

-- `DELETE … WHERE consent_handle = $1 AND link_ref_number <> ALL(keep)`, and of all rows for an
-- empty `keep`.
unfoldable pub prune : Text → List Text → Aggregator → Aggregator
prune handle keep a = record a {
  accounts =
      select (λ (r : Account). not (text_eq r.handle handle) || is_among r.link_ref keep)
        a.accounts;
}

-- `ReplaceLinkedAccounts`
unfoldable pub replace_linked_accounts : ℕ → Text → List Account → Call Aggregator (Unit {0})
unfolding upsert_all prune
replace_linked_accounts now handle rows =
    transaction (do keep ← upsert_all now handle rows; write (prune handle keep))
