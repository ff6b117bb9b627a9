-- ===== src/Desk.antt =====
-- The tables behind the RM console (internal/database/migrations/000017_rm_dashboard.up.sql) and the
-- row types of internal/domain/rm/models.go. Ids are numbers, since they are only compared; `nil` is
-- uuid.Nil.
use astra_backend.Prelude.{
  ℕ, Bool, true, false, ◌&&◌, Option, none, some, List, map, Text, lit, text_eq, ◌==◌, length,
  select, first, change, order_by,
}
use astra_backend.Ring.{Slot}

abbrev pub nil : ℕ
nil = 0

abbrev pub role_rm : Text
role_rm = lit "rm"

abbrev pub role_admin : Text
role_admin = lit "admin"

abbrev pub status_active : Text
status_active = lit "active"

abbrev pub status_inactive : Text
status_inactive = lit "inactive"

pub data Action : Type 0 where
  auto_assign assign transfer remove : Action

-- A row of rm_users.
pub record StaffUser : Type 0 where
  pub id : ℕ
  pub employee_code : Text
  pub email : Text
  pub name : Text
  pub phone_number : Option Text
  pub role : Text
  pub status : Text
  pub max_portfolios : ℕ
  pub created_at : ℕ
  pub updated_at : ℕ

-- What the console reads of a row of users.
pub record User : Type 0 where
  pub id : ℕ
  pub assigned_rm_id : Option ℕ
  pub created_at : ℕ

-- A row of rm_assignment_history.
pub record HistoryRow : Type 0 where
  pub user_id : ℕ
  pub from_rm_id : Option ℕ
  pub to_rm_id : Option ℕ
  pub action : Action
  pub reason : Option Text
  pub actor_rm_id : Option ℕ
  pub created_at : ℕ

-- The newest row of the history comes first; the last two fields are the one row of rm_queue_state.
pub record Desk : Type 0 where
  pub staff : List StaffUser
  pub users : List User
  pub history : List HistoryRow
  pub last_assigned_rm_id : Option ℕ
  pub rotation_seq : ℕ

-- `assigned_rm_id = $1`
abbrev pub is_held_by : ℕ → User → Bool
is_held_by rm u = elim u.assigned_rm_id [ none ↦ false | some r ↦ r == rm ]

unfoldable pub count_clients : ℕ → List User → ℕ
count_clients rm users = length (select (is_held_by rm) users)

-- `r.status = 'active' AND r.role = 'rm'`
unfoldable pub is_active_rm : StaffUser → Bool
is_active_rm s = text_eq s.status status_active && text_eq s.role role_rm

unfoldable pub slot_of : List User → StaffUser → Slot
unfolding count_clients
slot_of users s = record {
  rm_id = s.id;
  max_portfolios = s.max_portfolios;
  client_count = count_clients s.id users;
}

-- The query of `activeRingTx`.
unfoldable pub active_ring : Desk → List Slot
unfolding slot_of is_active_rm
active_ring d =
    map (slot_of d.users) (order_by (λ (s : StaffUser). s.created_at) (select is_active_rm d.staff))

abbrev pub find_staff : ℕ → List StaffUser → Option StaffUser
find_staff id = first (λ s. s.id == id)

abbrev pub find_user : ℕ → List User → Option User
find_user id = first (λ u. u.id == id)

-- The query of `OwnerOf` and of `currentRMTx`: `none` when there is no such user.
abbrev pub owner_of : ℕ → Desk → Option (Option ℕ)
owner_of user d = elim (find_user user d.users) [ none ↦ none | some u ↦ some u.assigned_rm_id ]

-- The clients of an RM, by `created_at`.
unfoldable pub clients_of : ℕ → Desk → List ℕ
clients_of rm d =
    map (λ (u : User). u.id)
      (order_by (λ (u : User). u.created_at) (select (is_held_by rm) d.users))

-- `REFERENCES rm_users(id)`, which a null satisfies.
unfoldable pub is_known_rm : List StaffUser → Option ℕ → Bool
is_known_rm staff none = true
is_known_rm staff (some rm) = elim (find_staff rm staff) [ none ↦ false | some _ ↦ true ]

-- `UPDATE users SET assigned_rm_id = $1 WHERE id = $2`
unfoldable pub set_owner : ℕ → Option ℕ → List User → List User
set_owner user to = change (λ u. u.id == user) (λ u. record u { assigned_rm_id = to })
