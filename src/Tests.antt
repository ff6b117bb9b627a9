-- ===== src/Tests.antt =====
-- Runs of the model on small data, and the theorems at that data.
pub mod Console
pub mod Portal
pub mod Linking
pub mod App
pub mod Memory
pub mod Spend
use astra_backend.Prelude.{
  ℕ, ◌≡◌, refl, Bool, true, false, Option, none, some, List, [], ◌∷◌, Text, lit, text_eq,
  trim_space, order_by,
}
use astra_backend.Ring.{Slot, pick_next_rm}
use astra_backend.Ring.Rotation.{pick_by_walk, pick_next_rm-eq-pick_by_walk}
use astra_backend.Ring.Capacity.{IsSound, pick_next_rm-IsSound}
use astra_backend.Store.{
  Result, ok, err, World, quiet, transaction, read, write, write_checked, or_raise, validation,
  conflict,
}
use astra_backend.Store.Laws.{Ends}
use astra_backend.Desk.{
  StaffUser, User, HistoryRow, Desk, role_rm, role_admin, status_active, Action, auto_assign,
  assign, transfer, remove, is_known_rm, clients_of, active_ring, set_owner,
}
use astra_backend.Assignment.{assign_next_rm, manual_assign, unassign, offboard_rm, actor_of}
use astra_backend.Assignment.Rotation.{Assigned, Refused, assign_next_rm-Ends}
use astra_backend.Assignment.Redistribution.{Offboarded, Fails, offboard_rm-Ends}
use astra_backend.Assignment.Manual.{Moved, Unmoved, manual_assign-Ends, unassign-Ends}
use astra_backend.Admin.{assign_client, transfer_client, remove_client}
use astra_backend.Admin.Moves.{
  Handed, Released, assign_client-Ends, transfer_client-Ends, remove_client-Ends,
}
use astra_backend.Admin.Trail.{
  IsLogged, Request, transfer, release, leave, opt_in, serve_all, serve_all-IsLogged,
}

abbrev staff_row : ℕ → Text → Text → StaffUser
staff_row id code role = record {
  id = id;
  employee_code = code;
  email = lit "a@b.in";
  name = lit "Asha";
  phone_number = some (lit "9812345678");
  role = role;
  status = status_active;
  max_portfolios = 2;
  created_at = id;
  updated_at = id;
}

abbrev client : ℕ → Option ℕ → User
client id rm = record { id = id; assigned_rm_id = rm; created_at = id }

abbrev log_row : ℕ → ℕ → HistoryRow
log_row user rm = record {
  user_id = user;
  from_rm_id = none;
  to_rm_id = some rm;
  action = auto_assign;
  reason = none;
  actor_rm_id = none;
  created_at = 50;
}

-- Two RMs and an admin; two clients of the first RM, one of the second, and one of nobody.
abbrev desk : Desk
desk = record {
  staff =
      staff_row 1 (lit "RM1") role_rm
      ∷ staff_row 2 (lit "RM2") role_rm
      ∷ staff_row 3 (lit "AD1") role_admin
      ∷ [];
  users = client 11 (some 1) ∷ client 12 (some 1) ∷ client 13 (some 2) ∷ client 14 none ∷ [];
  history = log_row 13 2 ∷ log_row 12 1 ∷ log_row 11 1 ∷ [];
  last_assigned_rm_id = some 2;
  rotation_seq = 3;
}

abbrev at_desk : World Desk
at_desk = quiet desk []

desk-IsLogged : IsLogged desk
unfolding is_known_rm
desk-IsLogged = record {
  traced = (refl, (refl, (refl, (refl, tt))));
  referenced = (refl, (refl, (refl, (refl, tt))));
}

abbrev slots : List Slot
slots =
    record { rm_id = 1; max_portfolios = 2; client_count = 2 }
    ∷ record { rm_id = 2; max_portfolios = 2; client_count = 1 }
    ∷ []

abbrev requests : List (ℕ × Request)
requests =
    (100, opt_in 14 true)
    ∷ (101, Request.transfer 3 11 2 (lit "moved city"))
    ∷ (102, leave 3 1 (lit "left"))
    ∷ (103, release 3 13 (lit "asked"))
    ∷ []

-- The one behind the last is full, so the choice goes round to the other.
ring_wraps : pick_next_rm slots 2 ≡ some (2, false)
unfolding pick_next_rm
ring_wraps = refl

-- An offboarding of the first RM moves its two clients, the second of them past the limit.
offboard_moves : (offboard_rm 100 1 3 (lit "left") at_desk).0 ≡ ok 2
unfolding offboard_rm transaction read clients_of order_by or_raise pick_next_rm active_ring text_eq
    write_checked is_known_rm set_owner trim_space write
offboard_moves = refl

pick_next_rm-eq-pick_by_walk_example : pick_next_rm slots 2 ≡ pick_by_walk slots 2
pick_next_rm-eq-pick_by_walk_example = pick_next_rm-eq-pick_by_walk slots 2

pick_next_rm-IsSound_example : IsSound slots (pick_next_rm slots 2)
pick_next_rm-IsSound_example = pick_next_rm-IsSound slots 2

assign_next_rm-Ends_example :
    Ends
      (Assigned 100 14 at_desk)
      (λ e d. Refused 100 14 at_desk e × (d ≡ desk))
      (assign_next_rm 100 14 at_desk)
assign_next_rm-Ends_example = assign_next_rm-Ends 100 14 at_desk

offboard_rm-Ends_example :
    Ends
      (Offboarded 100 1 (actor_of 3) (lit "left") desk)
      (λ e d. Fails 100 1 (actor_of 3) (lit "left") e × (d ≡ desk))
      (offboard_rm 100 1 3 (lit "left") at_desk)
offboard_rm-Ends_example = offboard_rm-Ends 100 1 3 (lit "left") at_desk

manual_assign-Ends_example :
    Ends
      (λ _ after. Moved 100 13 (some 1) transfer [] (actor_of 3) desk after)
      (λ e after. Unmoved 100 13 (some 1) transfer [] (actor_of 3) desk e × (after ≡ desk))
      (manual_assign 100 13 1 3 transfer [] at_desk)
manual_assign-Ends_example = manual_assign-Ends 100 13 1 3 transfer [] at_desk

unassign-Ends_example :
    Ends
      (λ _ after. Moved 100 13 none remove [] (actor_of 3) desk after)
      (λ e after. Unmoved 100 13 none remove [] (actor_of 3) desk e × (after ≡ desk))
      (unassign 100 13 3 [] at_desk)
unassign-Ends_example = unassign-Ends 100 13 3 [] at_desk

assign_client-Ends_example :
    Ends
      (λ _ after. Handed 100 3 14 desk 1 [] after)
      (λ _ after. after ≡ desk)
      (assign_client 100 3 14 1 at_desk)
assign_client-Ends_example = assign_client-Ends 100 3 14 1 at_desk

transfer_client-Ends_example :
    Ends
      (λ _ after. Handed 100 3 11 desk 2 (lit "moved city") after)
      (λ _ after. after ≡ desk)
      (transfer_client 100 3 11 2 (lit "moved city") at_desk)
transfer_client-Ends_example = transfer_client-Ends 100 3 11 2 (lit "moved city") at_desk

remove_client-Ends_example :
    Ends
      (λ _ after. Released 100 3 11 desk (lit "asked") after)
      (λ _ after. after ≡ desk)
      (remove_client 100 3 11 (lit "asked") at_desk)
remove_client-Ends_example = remove_client-Ends 100 3 11 (lit "asked") at_desk

serve_all-IsLogged_example : IsLogged (serve_all requests at_desk).tables
serve_all-IsLogged_example = serve_all-IsLogged requests at_desk desk-IsLogged
