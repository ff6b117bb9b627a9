-- ===== src/Linking.antt =====
-- internal/service/idbiaa/service.go: the life of a consent. What the aggregator answers to a call
-- (Provider) is data, `none` for an error, and so is the order of the database on texts; FetchStatements and the notification of data are left out.
pub mod Owners
pub mod Calls
use astra_backend.Prelude.{
  ℕ, ◌+◌, Bool, true, false, not, ◌&&◌, ◌||◌, Option, none, some, List, [], ◌∷◌, ◌++◌, map, Text,
  lit, text_eq, is_empty, trim_space, to_upper, equal_fold, ◌==◌, if◌then◌else◌, first, select,
  sort_before,
}
use astra_backend.Store.{
  Error, no_consent, failure, Result, ok, err, World, Call, pure, raise, ◌>>=◌, ◌>>◌, raise_if,
  read, write_checked, or_raise,
}
use astra_backend.Consent.{
  Consent, Account, Aggregator, get_consent, create_consent, update_consent_status,
  replace_linked_accounts,
}

-- `Config`, but for what chooses the statement API.
pub record Config : Type 0 where
  pub redirect_mode : Text
  pub vua_suffix : Text
  pub product_id : Text
  pub callback_url : Text

-- An entry of the answer to 591 getConsentList.
pub record Listed : Type 0 where
  pub handle : Text
  pub consent_id : Text
  pub status : Text
  pub created : Text
  pub accounts : List Account

-- What 593 generateDecryptedResponse gives.
pub record Decoded : Type 0 where
  pub srcref : Text
  pub errorcode : Text
  pub status : Text

-- The calls of `Provider`, and idbimap.MustParseTime with `none` for the zero time.
pub record Provider : Type 0 where
  pub request_consent : Text → Text → Text → Text → Option (Text × Text)
  pub consent_list : Text → Text → Text → Text → Text → Option (List Listed)
  pub web_redirection_url : Text → Text → Option (List Text)
  pub decrypt : Text → Text → Text → Option Decoded
  pub parse_time : Text → Option ℕ
  pub ref_before : Text → Text → Bool

-- `ConsentView`
pub record View : Type 0 where
  pub handle : Text
  pub consent_id : Text
  pub status : Text
  pub vua : Text
  pub account_id : Text
  pub redirect_url : Text
  pub linked : List Account
  pub approved_at : Option ℕ
  pub created_at : ℕ

unfoldable pub is_stub : Config → Bool
is_stub cfg = not (equal_fold cfg.redirect_mode (lit "live"))

abbrev pub first_non_empty : Text → Text → Text
first_non_empty a b =
    if is_empty (trim_space a) then (if is_empty (trim_space b) then [] else b) else a

-- `viewOf`
unfoldable pub view_of : Consent → List Account → View
view_of r linked = record {
  handle = r.handle;
  consent_id = r.consent_id;
  status = r.status;
  vua = r.vua;
  account_id = r.account_id;
  redirect_url = r.web_redirect_url;
  linked = linked;
  approved_at = r.approved_at;
  created_at = r.created_at;
}

-- The zero value of AAConsentRow.
abbrev pub blank : Consent
blank = record {
  handle = [];
  user_id = 0;
  consent_id = [];
  status = [];
  party_id_type = [];
  party_id_value = [];
  vua = [];
  product_id = [];
  account_id = [];
  redirect_url = [];
  web_redirect_url = [];
  approved_at = none;
  last_fetched_at = none;
  created_at = 0;
  updated_at = 0;
}

abbrev pub or_blank : Option Consent → Consent
or_blank none = blank
or_blank (some c) = c

abbrev only_unnamed : List Listed → Option Listed
only_unnamed [] = none
only_unnamed (l ∷ []) = if is_empty l.handle then some l else none
only_unnamed (l ∷ m ∷ rest) = none

abbrev pub picked_or : Option Listed → List Listed → Option Listed
picked_or (some l) list = some l
picked_or none list = only_unnamed list

-- `pickConsent`
unfoldable pub pick_consent : List Listed → Text → Option Listed
pick_consent list handle = picked_or (first (λ (l : Listed). text_eq l.handle handle) list) list

-- `consentStatusFromEvent`
unfoldable pub consent_status_from_event : Text → Text
consent_status_from_event event =
    let e = to_upper (trim_space event) in
    if text_eq e (lit "CONSENT_APPROVED") || text_eq e (lit "ACTIVE") || text_eq e (lit "APPROVED")
    then lit "ACTIVE"
    else (if text_eq e (lit "CONSENT_REJECTED")
          || text_eq e (lit "REJECTED")
          || text_eq e (lit "DENIED")
        then lit "REJECTED"
        else (if text_eq e (lit "CONSENT_REVOKED") || text_eq e (lit "REVOKED")
            then lit "REVOKED"
            else (if text_eq e (lit "CONSENT_EXPIRED") || text_eq e (lit "EXPIRED")
                then lit "EXPIRED"
                else (if text_eq e (lit "CONSENT_PAUSED") || text_eq e (lit "PAUSED")
                    then lit "PAUSED"
                    else lit "PENDING"))))

-- `ListLinkedAccounts`, `ORDER BY link_ref_number` in the order that the database has on texts.
unfoldable pub linked_to : (Text → Text → Bool) → Text → Aggregator → List Account
linked_to before handle a =
    sort_before (λ (r s : Account). before r.link_ref s.link_ref)
      (select (λ (r : Account). text_eq r.handle handle) a.accounts)

-- A call whose error is dropped.
abbrev pub kept_value : {A : Type 0} → A → Result A × World Aggregator → Result A × World Aggregator
kept_value d (ok a, w) = (ok a, w)
kept_value d (err e, w) = (ok d, w)

unfoldable pub or_else : {A : Type 0} → Call Aggregator A → A → Call Aggregator A
or_else m d w = kept_value d (m w)

abbrev pub approval : (Text → Option ℕ) → ℕ → Text → Text → Option ℕ
approval parse now status created =
    if text_eq status (lit "ACTIVE")
    then (elim (parse created) [ none ↦ some now | some t ↦ some t ])
    else none

-- What `Refresh` does with the entry for the handle.
unfoldable pub confirm : Provider → ℕ → Text → Consent → Option Listed → Call Aggregator View
unfolding linked_to view_of
confirm prov now handle row none = do
  linked ← or_else (read (linked_to prov.ref_before handle)) []
  pure (view_of row linked)
confirm prov now handle row (some m) = do
  let status = to_upper (first_non_empty m.status row.status)
  update_consent_status now handle status m.consent_id
      (approval prov.parse_time now status m.created)
  replace_linked_accounts now handle m.accounts
  after ← or_else (read (get_consent handle)) none
  linked ← or_else (read (linked_to prov.ref_before handle)) []
  pure (view_of (or_blank after) linked)

-- `Refresh`
unfoldable pub refresh : Provider → Config → ℕ → ℕ → Text → Call Aggregator View
unfolding confirm pick_consent
refresh prov cfg now user handle = do
  found ← read (get_consent handle)
  row ← or_raise found no_consent
  raise_if (not (row.user_id == user)) no_consent
  list ←
      or_raise
        (prov.consent_list row.party_id_type row.party_id_value
          (first_non_empty row.product_id cfg.product_id) row.account_id row.vua)
        (failure "591 getConsentList")
  confirm prov now handle row (pick_consent list handle)

abbrev pub rejected : ℕ → Text → Call Aggregator View
rejected now handle = do
  update_consent_status now handle (lit "REJECTED") [] none
  after ← or_else (read (get_consent handle)) none
  pure (view_of (or_blank after) [])

abbrev pub decided : Provider → Config → ℕ → ℕ → Decoded → Call Aggregator View
decided prov cfg now user dec =
    if text_eq dec.errorcode (lit "0") && equal_fold dec.status (lit "S")
    then refresh prov cfg now user dec.srcref
    else rejected now dec.srcref

-- `CompleteRedirect`
unfoldable pub complete_redirect :
    Provider → Config → ℕ → ℕ → Text → Text → Text → Call Aggregator View
complete_redirect prov cfg now user ecres resdate fi = do
  dec ← or_raise (prov.decrypt ecres resdate fi) (failure "593 generateDecryptedResponse")
  raise_if (is_empty dec.srcref) (failure "593 decode carried no srcref")
  found ← read (get_consent dec.srcref)
  row ← or_raise found no_consent
  raise_if (not (row.user_id == user)) no_consent
  decided prov cfg now user dec

-- `PushConsentNotification`
pub record Notification : Type 0 where
  pub handle : Text
  pub consent_id : Text
  pub event_status : Text

abbrev pub notify_known :
    Provider → Config → ℕ → Notification → Consent → Call Aggregator (Unit {0})
notify_known prov cfg now n row =
    let status = consent_status_from_event n.event_status in
    let active = text_eq status (lit "ACTIVE") in
    update_consent_status now n.handle status n.consent_id (if active then some now else none)
    >> (if active
        then or_else (refresh prov cfg now row.user_id n.handle >>= λ _. pure tt) tt
        else pure tt)

abbrev pub notify_if :
    Provider → Config → ℕ → Notification → Option Consent → Call Aggregator (Unit {0})
notify_if prov cfg now n none = pure tt
notify_if prov cfg now n (some row) = notify_known prov cfg now n row

-- `HandleConsentNotification`
unfoldable pub handle_consent_notification :
    Provider → Config → ℕ → Notification → Call Aggregator (Unit {0})
handle_consent_notification prov cfg now n =
    if is_empty n.handle
    then pure tt
    else (read (get_consent n.handle) >>= notify_if prov cfg now n)

-- `RequestConsent` once the consent has its handle.
unfoldable pub place_consent : Provider → Config → ℕ → Consent → Call Aggregator View
unfolding is_stub
place_consent prov cfg now row =
    if is_stub cfg
    then (write_checked (create_consent now row) >> λ w.
        confirm_or_stored (refresh prov cfg now row.user_id row.handle w))
    else (or_raise (prov.web_redirection_url row.handle cfg.callback_url)
          (failure "592 getWebRedirectionURL")
        >>= λ urls.
            let placed : Consent = record row {
              web_redirect_url = first_url urls;
              redirect_url = cfg.callback_url;
            } in
            write_checked (create_consent now placed) >> pure (fresh_view placed))
  where
    first_url : List Text → Text
    first_url [] = row.web_redirect_url
    first_url (u ∷ rest) = u

    fresh_view : Consent → View
    fresh_view c = record (view_of c []) { consent_id = []; created_at = now; approved_at = none }

    stored_or : Error → Option Consent → Call Aggregator View
    stored_or e none = raise e
    stored_or e (some stored) = pure (view_of stored [])

    confirm_or_stored : Result View × World Aggregator → Result View × World Aggregator
    confirm_or_stored (ok v, w) = (ok v, w)
    confirm_or_stored (err e, w) = (or_else (read (get_consent row.handle)) none >>= stored_or e) w

-- `RequestConsent`
unfoldable pub request_consent : Provider → Config → ℕ → ℕ → Text → Text → Call Aggregator View
unfolding place_consent
request_consent prov cfg now user given account_id = do
  let mobile = trim_space given
  let vua = mobile ++ cfg.vua_suffix
  raise_if (is_empty mobile) (failure "mobile is required to request consent")
  (handle, status) ←
      or_raise (prov.request_consent mobile cfg.product_id account_id vua)
        (failure "590 requestConsent")
  raise_if (is_empty handle) (failure "590 returned no consent handle")
  place_consent prov cfg now (record blank {
    handle = handle;
    user_id = user;
    status = first_non_empty status (lit "PENDING");
    party_id_type = lit "MOBILE";
    party_id_value = mobile;
    vua = vua;
    product_id = cfg.product_id;
    account_id = account_id;
  })
