-- ===== src/App.antt =====
-- internal/repository/user_repo.go: the users of the app and their refresh tokens (migrations 000001,
-- 000010, 000020). A row of users is a Person here and, for what the console reads of it, a User of the
-- desk, with one id. The demonstration data that a sign-up seeds is one round trip that may fail.
pub mod Session
pub mod People
pub mod Returning
pub mod Newcomer
pub mod Signup
pub mod Replay
use astra_backend.Prelude.{
  ℕ, suc, ◌+◌, Bool, true, false, not, ◌&&◌, ◌||◌, Option, none, some, List, [], ◌∷◌, Text, lit,
  text_eq, is_empty, trim_space, ltb, ◌==◌, if◌then◌else◌, first, change, select,
}
use astra_backend.Store.{
  Error, no_rows, failure, Result, ok, err, World, Call, pure, raise, ◌>>=◌, ◌>>◌, raise_if,
  or_raise, reach, read, write, write_checked, write_returning, transaction, attempt, within,
}
use astra_backend.Desk.{Desk}
use astra_backend.Assignment.{assign_next_rm}
use astra_backend.Admin.{sync_rm_assignment}
use astra_backend.Auth.{is_null}

pub record Person : Type 0 where
  pub id : ℕ
  pub astra_user_id : Text
  pub phone_number : Text
  pub name : Option Text
  pub wants_rm : Bool
  pub created_at : ℕ

pub record AppToken : Type 0 where
  pub id : ℕ
  pub user_id : ℕ
  pub token_hash : Text
  pub expires_at : ℕ
  pub revoked_at : Option ℕ

-- A row of idbi_ckyc, as far as it is read.
pub record Verified : Type 0 where
  pub user_id : ℕ
  pub pan : Text
  pub verified_at : ℕ

pub record App : Type 0 where
  pub desk : Desk
  pub people : List Person
  pub tokens : List AppToken
  pub verified : List Verified
  pub next_id : ℕ

unfoldable pub on_desk : {A : Type 0} → Call Desk A → Call App A
on_desk = within (λ (a : App). a.desk) (λ d a. record a { desk = d })

abbrev pub find_by_phone : Text → App → Option Person
find_by_phone phone a = first (λ (p : Person). text_eq p.phone_number phone) a.people

abbrev pub person_of : ℕ → App → Option Person
person_of id a = first (λ (p : Person). p.id == id) a.people

-- `existing.Name == nil || *existing.Name == ""`
abbrev pub is_unnamed : Option Text → Bool
is_unnamed none = true
is_unnamed (some name) = is_empty name

abbrev pub named : Text → Person → Person
named name p = record p { name = some name }

unfoldable pub set_name : ℕ → Text → App → App
set_name id name a = record a { people = change (λ (p : Person). p.id == id) (named name) a.people }

abbrev pub wanting : Bool → Person → Person
wanting b p = record p { wants_rm = b }

unfoldable pub set_wants_rm : ℕ → Bool → App → App
set_wants_rm id b a = record a { people = change (λ (p : Person). p.id == id) (wanting b) a.people }

-- The name, in the branch of `FindOrCreateUser` for a known phone.
unfoldable pub fill_name : Text → Person → Call App Person
unfolding set_name
fill_name given p =
    let name = trim_space given in
    if not (is_empty name) && is_unnamed p.name
    then (write (set_name p.id name) >> pure (named name p))
    else pure p

abbrev pub flips : Option Bool → Bool → Bool
flips none b = false
flips (some true) b = not b
flips (some false) b = b

abbrev pub wish : Option Bool → Bool → Bool
wish none b = b
wish (some want) b = want

-- The opt-in, in the same branch.
unfoldable pub change_opt_in : ℕ → Option Bool → Person → Call App Person
unfolding set_wants_rm on_desk
change_opt_in now wants p =
    let want = wish wants p.wants_rm in
    if flips wants p.wants_rm
    then (write (set_wants_rm p.id want) >>= λ _.
        on_desk (sync_rm_assignment now p.id want) >>= λ _. pure (wanting want p))
    else pure p

abbrev has_astra_id : Text → List Person → Bool
has_astra_id id [] = false
has_astra_id id (p ∷ rest) = text_eq p.astra_user_id id || has_astra_id id rest

abbrev pub new_person : ℕ → Text → Text → Text → Bool → ℕ → Person
new_person now astra_user_id phone name wants_rm id = record {
  id = id;
  astra_user_id = astra_user_id;
  phone_number = phone;
  name = some name;
  wants_rm = wants_rm;
  created_at = now;
}

-- A row of users more.
abbrev pub with_person : ℕ → Person → App → App
with_person now p a = record a {
  desk = record a.desk {
    users = record { id = p.id; assigned_rm_id = none; created_at = now } ∷ a.desk.users;
  };
  people = p ∷ a.people;
  next_id = suc a.next_id;
}

-- `INSERT INTO users ... ON CONFLICT (phone_number) DO UPDATE ... RETURNING`, with UNIQUE (astra_user_id).
unfoldable pub insert_person : ℕ → Text → Text → Text → Bool → App → Option (App × (Person × Bool))
insert_person now astra_user_id phone name wants_rm a = elim (find_by_phone phone a) [
  | some p ↦ some (a, (p, false))
  | none ↦
      let p = new_person now astra_user_id phone name wants_rm a.next_id in
      if has_astra_id astra_user_id a.people then none else some (with_person now p a, (p, true))
]

-- Behind the insertion of a new user: the seeds, and the next RM for one who wants it.
unfoldable pub welcome : ℕ → Person → Call App (Person × Bool)
unfolding on_desk
welcome now p = do
  reach
  _ ← attempt (if p.wants_rm then on_desk (assign_next_rm now p.id) else pure 0)
  pure (p, true)

unfoldable pub sign_up : ℕ → Text → Text → Text → Bool → Call App (Person × Bool)
unfolding insert_person welcome
sign_up now astra_user_id phone name wants_rm =
    write_checked (insert_person now astra_user_id phone name wants_rm) >>= λ r. elim r.1 [
      | false ↦ pure (r.0, false)
      | true ↦ welcome now r.0
    ]

unfoldable pub come_back : ℕ → Text → Option Bool → Person → Call App (Person × Bool)
unfolding fill_name change_opt_in
come_back now name wants p = do
  p' ← fill_name name p
  p'' ← change_opt_in now wants p'
  pure (p'', false)

-- `FindOrCreateUser`
unfoldable pub find_or_create_user : ℕ → Text → Text → Text → Option Bool → Call App (Person × Bool)
unfolding sign_up come_back
find_or_create_user now astra_user_id phone name wants = read (find_by_phone phone) >>= λ existing.
    elim existing [
      | some p ↦ come_back now name wants p
      | none ↦ sign_up now astra_user_id phone name (wish wants false)
    ]

abbrev pub is_there : {A : Type 0} → Option A → Bool
is_there none = false
is_there (some _) = true

-- `UpdateUserName`
unfoldable pub update_user_name : ℕ → Text → Call App (Unit {0})
unfolding set_name
update_user_name id given = do
  let name = trim_space given
  raise_if (is_empty name) (failure "name is required")
  there ← write_returning λ (a : App). (set_name id name a, is_there (person_of id a))
  raise_if (not there) no_rows

-- `GetByID`
unfoldable pub get_by_id : ℕ → Call App Person
get_by_id id = read (person_of id) >>= λ found. or_raise found no_rows

abbrev later : Verified → Option Verified → Verified
later v none = v
later v (some u) = if ltb v.verified_at u.verified_at then u else v

unfoldable pub latest_verified : ℕ → List Verified → Option Verified
latest_verified id [] = none
latest_verified id (v ∷ rest) =
    let best = latest_verified id rest in if v.user_id == id then some (later v best) else best

-- `GetLatestVerifiedPAN`
unfoldable pub get_latest_verified_pan : ℕ → Call App Text
unfolding latest_verified
get_latest_verified_pan id =
    read λ (a : App). elim (latest_verified id a.verified) [ none ↦ [] | some v ↦ v.pan ]

-- `DeleteUserByPhone`; the tables that refer to the user follow.
unfoldable pub delete_user_by_phone : Text → Call App (Unit {0})
delete_user_by_phone phone = write λ (a : App). elim (find_by_phone phone a) [
  | none ↦ a
  | some p ↦ record a {
    desk = record a.desk {
      users = select (λ u. not (u.id == p.id)) a.desk.users;
      history = select (λ h. not (h.user_id == p.id)) a.desk.history;
    };
    people = select (λ (q : Person). not (q.id == p.id)) a.people;
    tokens = select (λ (t : AppToken). not (t.user_id == p.id)) a.tokens;
    verified = select (λ (v : Verified). not (v.user_id == p.id)) a.verified;
  }
]

abbrev pub is_live : ℕ → Text → AppToken → Bool
is_live now h t = text_eq t.token_hash h && is_null t.revoked_at && ltb now t.expires_at

abbrev pub revoked : ℕ → AppToken → AppToken
revoked now t = record t { revoked_at = some now }

-- The insertion of `CreateRefreshToken`, with UNIQUE (token_hash) and the reference to the user.
unfoldable pub insert_token : ℕ → Text → ℕ → App → Option (App × Unit {0})
insert_token user_id token_hash expires_at a =
    if not (is_there (first (λ (t : AppToken). text_eq t.token_hash token_hash) a.tokens))
      && is_there (person_of user_id a)
    then some (record a { tokens = row ∷ a.tokens; next_id = suc a.next_id }, tt)
    else none
  where
    row : AppToken
    row = record {
      id = a.next_id;
      user_id = user_id;
      token_hash = token_hash;
      expires_at = expires_at;
      revoked_at = none;
    }

unfoldable pub create_refresh_token : ℕ → Text → ℕ → Call App (Unit {0})
unfolding insert_token
create_refresh_token user_id token_hash expires_at =
    write_checked (insert_token user_id token_hash expires_at)

-- `RevokeRefreshToken`
unfoldable pub revoke_refresh_token : ℕ → Text → Call App (Unit {0})
revoke_refresh_token now h = write λ (a : App). record a {
  tokens =
      change (λ (t : AppToken). text_eq t.token_hash h && is_null t.revoked_at) (revoked now)
        a.tokens;
}

-- `ConsumeRefreshToken`, which is the first statement of `RotateRefreshToken`.
unfoldable pub take_token : ℕ → Text → App → App × Option ℕ
take_token now h a = (
  record a { tokens = change (is_live now h) (revoked now) a.tokens },
  elim (first (is_live now h) a.tokens) [ none ↦ none | some t ↦ some t.user_id ],
)

unfoldable pub consume_refresh_token : ℕ → Text → Call App (Option ℕ)
unfolding take_token
consume_refresh_token now h = write_returning (take_token now h)

-- `errors.Is(err, pgx.ErrNoRows)`, behind the rollback.
abbrev pub or_absent : Result ℕ → Call App (Option ℕ)
or_absent (ok id) = pure (some id)
or_absent (err no_rows) = pure none
or_absent (err e) = raise e

-- `RotateRefreshToken`
unfoldable pub rotate_refresh_token : ℕ → Text → Text → ℕ → Call App (Option ℕ)
unfolding take_token insert_token
rotate_refresh_token now old_hash new_hash expires_at =
    attempt (
      transaction (do
        taken ← write_returning (take_token now old_hash)
        id ← or_raise taken no_rows
        write_checked (insert_token id new_hash expires_at)
        pure id))
    >>= or_absent
