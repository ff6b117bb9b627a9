-- ===== src/Staff.antt =====
-- internal/repository/rm_repo.go, the queries on rm_users, over the rows of the table; and
-- StaffUser.Public of internal/domain/rm/models.go.
use astra_backend.Prelude.{
  ℕ, ◌==◌, Bool, true, false, not, ◌&&◌, ◌||◌, Option, none, some, List, [], ◌∷◌, ◌++◌, Text,
  is_empty, leb, text_eq, trim_space, to_lower, to_upper, if◌then◌else◌, first, change,
}
use astra_backend.Desk.{StaffUser, find_staff, role_rm, role_admin, status_active}

-- The projection that handlers return.
pub record Public : Type 0 where
  pub id : ℕ
  pub employee_code : Text
  pub email : Text
  pub name : Text
  pub phone_number : Option Text
  pub role : Text
  pub status : Text
  pub max_portfolios : ℕ
  pub created_at : ℕ

abbrev pub public_of : StaffUser → Public
public_of s = record {
  id = s.id;
  employee_code = s.employee_code;
  email = s.email;
  name = s.name;
  phone_number = s.phone_number;
  role = s.role;
  status = s.status;
  max_portfolios = s.max_portfolios;
  created_at = s.created_at;
}

-- `GetByIdentifier`: by email in lower case or employee code in upper case.
unfoldable pub get_by_identifier : Text → List StaffUser → Option StaffUser
get_by_identifier identifier =
    let id = trim_space identifier in
    first (λ s. text_eq s.email (to_lower id) || text_eq s.employee_code (to_upper id))

unfoldable pub get_by_email : Text → List StaffUser → Option StaffUser
get_by_email email = first (λ s. text_eq s.email (to_lower (trim_space email)))

-- A request to change a row: `none` leaves the column.
pub record UpdateRmRequest : Type 0 where
  pub name : Option Text
  pub email : Option Text
  pub phone : Option Text
  pub status : Option Text
  pub max_portfolios : Option ℕ

abbrev pub or_keep {ℓ} : {A : Type ℓ} → Option A → A → A
or_keep none old = old
or_keep (some new) old = new

abbrev is_given {ℓ} : {A : Type ℓ} → Option A → Bool
is_given none = false
is_given (some _) = true

-- `len(sets) == 0`
abbrev is_blank : UpdateRmRequest → Bool
is_blank req = not (
    is_given req.name
    || is_given req.email
    || is_given req.phone
    || is_given req.status
    || is_given req.max_portfolios)

abbrev pub lower_given : Option Text → Option Text
lower_given none = none
lower_given (some e) = some (to_lower (trim_space e))

abbrev pub phone_given : Option Text → Option Text → Option Text
phone_given none old = old
phone_given (some p) old = some p

unfoldable pub updated : ℕ → UpdateRmRequest → StaffUser → StaffUser
updated now req s = record s {
  name = or_keep req.name s.name;
  email = or_keep (lower_given req.email) s.email;
  phone_number = phone_given req.phone s.phone_number;
  status = or_keep req.status s.status;
  max_portfolios = or_keep req.max_portfolios s.max_portfolios;
  updated_at = now;
}

-- Another row has this email: the column is UNIQUE.
abbrev email_taken : ℕ → Option Text → List StaffUser → Bool
email_taken id none staff = false
email_taken id (some e) staff =
    elim (first (λ (s : StaffUser). text_eq s.email e && not (s.id == id)) staff) [
      | none ↦ false
      | some _ ↦ true
    ]

-- `Update`: the rows, and the one updated, if there is one; `none` for a refused statement.
unfoldable pub update_staff :
    ℕ → ℕ → UpdateRmRequest → List StaffUser → Option (List StaffUser × Option StaffUser)
unfolding updated
update_staff now id req staff =
    if is_blank req then some (staff, find_staff id staff) else (elim (find_staff id staff) [
      | none ↦ some (staff, none)
      | some s ↦
          if email_taken id (lower_given req.email) staff
          then none
          else some (change (λ r. r.id == id) (updated now req) staff, some (updated now req s))
    ])

abbrev is_there {ℓ} : {A : Type ℓ} → Option A → Bool
is_there none = false
is_there (some _) = true

-- `Create`: the columns email and employee_code are UNIQUE, and role is 'rm' or 'admin'. A limit that
-- is not positive becomes 150. `id` is what `gen_random_uuid()` gives.
unfoldable pub create_staff :
    ℕ
    → ℕ
    → Text
    → Text
    → Text
    → Text
    → Text
    → ℕ
    → List StaffUser
    → Option (List StaffUser × StaffUser)
create_staff now id code email name phone role max_portfolios staff =
    if is_there (first clashes staff)
      || (not (text_eq role role_rm) && not (text_eq role role_admin))
    then none
    else some (staff ++ row ∷ [], row)
  where
    row : StaffUser
    row = record {
      id = id;
      employee_code = to_upper (trim_space code);
      email = to_lower (trim_space email);
      name = name;
      phone_number = if is_empty phone then none else some phone;
      role = role;
      status = status_active;
      max_portfolios = if leb max_portfolios 0 then 150 else max_portfolios;
      created_at = now;
      updated_at = now;
    }

    clashes : StaffUser → Bool
    clashes s =
        s.id == row.id || text_eq s.email row.email || text_eq s.employee_code row.employee_code
