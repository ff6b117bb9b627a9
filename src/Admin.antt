-- ===== src/Admin.antt =====
-- internal/service/rm_admin.go, the admin console: who is on the staff, and who holds which client.
pub mod Moves
pub mod Trail
use astra_backend.Prelude.{
  ℕ, ◌+◌, Bool, true, false, not, ◌&&◌, ◌||◌, Option, none, some, List, [], ◌∷◌, Text, lit, text_eq,
  is_empty, trim_space, to_lower, to_upper, contains_byte, leb, ltb, ◌==◌, if◌then◌else◌, length,
  select,
}
use astra_backend.Store.{
  Error, validation, conflict, not_found, no_active_rm, Result, ok, err, World, Call, pure, raise,
  ◌>>=◌, ◌>>◌, raise_if, read, write_checked, or_raise,
}
use astra_backend.Desk.{
  nil, role_rm, role_admin, status_active, status_inactive, Action, assign, transfer, StaffUser,
  Desk, find_staff, owner_of, count_clients,
}
use astra_backend.Staff.{
  Public, public_of, UpdateRmRequest, get_by_email, get_by_identifier, create_staff, update_staff,
}
use astra_backend.Assignment.{manual_assign, unassign, assign_next_rm, offboard_rm}

-- rmdomain.CreateRMRequest.
pub record CreateRmRequest : Type 0 where
  pub employee_code : Text
  pub email : Text
  pub name : Text
  pub phone : Text
  pub role : Text
  pub max_portfolios : ℕ

abbrev pub is_there {ℓ} : {A : Type ℓ} → Option A → Bool
is_there none = false
is_there (some _) = true

-- `s.rmRepo.Create` on the tables of the desk.
unfoldable pub create_row :
    ℕ → ℕ → Text → Text → Text → Text → Text → ℕ → Desk → Option (Desk × StaffUser)
create_row now id code email name phone role max_portfolios d =
    elim (create_staff now id code email name phone role max_portfolios d.staff) [
      | none ↦ none
      | some (staff, s) ↦ some (record d { staff = staff }, s)
    ]

-- `CreateRM`
unfoldable pub create_rm : ℕ → ℕ → CreateRmRequest → Call Desk Public
create_rm now id req = do
  let name = trim_space req.name
  let email = to_lower (trim_space req.email)
  let code = to_upper (trim_space req.employee_code)
  let phone = trim_space req.phone
  raise_if (is_empty name) (validation "name is required")
  raise_if (is_empty code) (validation "employee_code is required")
  raise_if (not (contains_byte b'@' email)) (validation "a valid email is required")
  raise_if (is_empty phone) (validation "phone is required — login codes are sent there")
  let role = if is_empty req.role then role_rm else req.role
  raise_if (not (text_eq role role_rm) && not (text_eq role role_admin))
      (validation "role must be 'rm' or 'admin'")
  by_email ← read (λ d. get_by_email email d.staff)
  raise_if (is_there by_email) (conflict "an account with that email already exists")
  by_code ← read (λ d. get_by_identifier code d.staff)
  raise_if (is_there by_code) (conflict "an account with that employee code already exists")
  s ← write_checked (create_row now id code email name phone role req.max_portfolios)
  pure (public_of s)

abbrev is_bad_status : Option Text → Bool
is_bad_status none = false
is_bad_status (some t) = not (text_eq t status_active) && not (text_eq t status_inactive)

abbrev is_bad_limit : Option ℕ → Bool
is_bad_limit none = false
is_bad_limit (some n) = leb n 0

-- `s.rmRepo.Update` on the tables of the desk.
unfoldable pub update_row : ℕ → ℕ → UpdateRmRequest → Desk → Option (Desk × Option StaffUser)
update_row now rm req d = elim (update_staff now rm req d.staff) [
  | none ↦ none
  | some (staff, found) ↦ some (record d { staff = staff }, found)
]

-- `UpdateRM`
unfoldable pub update_rm : ℕ → ℕ → UpdateRmRequest → Call Desk Public
unfolding update_row
update_rm now rm req = do
  raise_if (is_bad_status req.status) (validation "status must be 'active' or 'inactive'")
  raise_if (is_bad_limit req.max_portfolios) (validation "max_portfolios must be positive")
  found ← write_checked (update_row now rm req)
  s ← or_raise found (not_found "rm not found")
  pure (public_of s)

unfoldable pub require_staff : ℕ → Call Desk StaffUser
require_staff rm = do or_raise (← read (λ d. find_staff rm d.staff)) (not_found "rm not found")

-- The owner of the client, and that there is such a client.
unfoldable pub require_owner : ℕ → Call Desk (Option ℕ)
require_owner user = do or_raise (← read (owner_of user)) (not_found "client not found")

unfoldable pub require_active_rm : StaffUser → Call Desk (Unit {0})
require_active_rm s =
    raise_if (not (text_eq s.role role_rm))
      (validation "clients can only be assigned to an RM, not an admin")
    >> raise_if (not (text_eq s.status status_active)) (validation "target RM is inactive")

-- `assign` for a client with no owner, `transfer` for one with.
abbrev pub action_for : Option ℕ → Action
action_for none = assign
action_for (some _) = transfer

-- `Assign`
unfoldable pub assign_client : ℕ → ℕ → ℕ → ℕ → Call Desk (Unit {0})
unfolding require_staff require_owner require_active_rm
assign_client now actor user rm = do
  raise_if ((user == nil) || (rm == nil)) (validation "user_id and rm_id are required")
  target ← require_staff rm
  require_active_rm target
  owner ← require_owner user
  manual_assign now user rm actor (action_for owner) []

-- `Transfer`
unfoldable pub transfer_client : ℕ → ℕ → ℕ → ℕ → Text → Call Desk (Unit {0})
unfolding require_staff require_owner require_active_rm
transfer_client now actor user to_rm reason = do
  raise_if ((user == nil) || (to_rm == nil)) (validation "user_id and to_rm_id are required")
  target ← require_staff to_rm
  require_active_rm target
  owner ← require_owner user
  manual_assign now user to_rm actor (action_for owner) reason

-- `Remove`
unfoldable pub remove_client : ℕ → ℕ → ℕ → Text → Call Desk (Unit {0})
unfolding require_owner
remove_client now actor user reason = do
  raise_if (user == nil) (validation "user_id is required")
  owner ← require_owner user
  or_raise owner (conflict "client is already unassigned")
  unassign now user actor reason

-- `Offboard`
unfoldable pub offboard : ℕ → ℕ → ℕ → Text → Call Desk ℕ
unfolding require_staff
offboard now actor rm reason = do require_staff rm; offboard_rm now rm actor reason

-- `syncRMAssignment` of internal/repository/user_repo.go: errors are logged and dropped.
unfoldable pub sync_rm_assignment : ℕ → ℕ → Bool → Call Desk (Unit {0})
sync_rm_assignment now user true w = (ok tt, (assign_next_rm now user w).1)
sync_rm_assignment now user false w =
    (ok tt, (unassign now user nil (lit "user opted out of relationship manager") w).1)
