-- ===== src/Assignment.antt =====
-- internal/repository/rm_repo.go, the assignment repository: who holds which client. `now` is the
-- time of the call.
pub mod Moves
pub mod Rotation
pub mod Steps
pub mod Offboarding
pub mod Redistribution
pub mod Manual
use astra_backend.Prelude.{
  ℕ, suc, ◌+◌, ◌≡◌, Bool, true, false, not, ◌&&◌, Option, none, some, List, [], ◌∷◌, Text, is_empty,
  trim_space, leb, ◌==◌, if◌then◌else◌, length, select,
}
use astra_backend.Ring.{Slot, pick_next_rm}
use astra_backend.Store.{
  Result, ok, err, World, Call, pure, raise, ◌>>=◌, ◌>>◌, read, write, write_checked, or_raise,
  transaction, no_active_rm, failure,
}
use astra_backend.Desk.{
  nil, Action, auto_assign, transfer, remove, User, HistoryRow, Desk, active_ring, owner_of,
  find_user, clients_of, is_known_rm, set_owner,
}

-- `currentRMTx`
unfoldable pub current_rm : ℕ → Call Desk (Option ℕ)
current_rm user = do or_raise (← read (owner_of user)) (failure "read current rm")

-- An empty reason is stored as null.
unfoldable pub reason_value : Text → Option Text
reason_value reason = if is_empty (trim_space reason) then none else some reason

-- The first statement of `applyAssignmentTx`, with the foreign key of assigned_rm_id.
unfoldable pub update_owner : ℕ → Option ℕ → Desk → Option (Desk × Unit {0})
update_owner user to d =
    if is_known_rm d.staff to
    then some (record d { users = set_owner user to d.users }, tt)
    else none

-- `reason VARCHAR(300)`
abbrev fits : Option Text → Bool
fits none = true
fits (some t) = leb (length t) 300

-- `REFERENCES users(id)`
abbrev is_known_user : List User → ℕ → Bool
is_known_user users id = elim (find_user id users) [ none ↦ false | some _ ↦ true ]

-- The second one, with the foreign keys of the history and the length of `reason`.
unfoldable pub insert_history : HistoryRow → Desk → Option (Desk × Unit {0})
insert_history h d =
    if is_known_rm d.staff h.from_rm_id
      && is_known_rm d.staff h.to_rm_id
      && is_known_rm d.staff h.actor_rm_id
      && is_known_user d.users h.user_id
      && fits h.reason
    then some (record d { history = h ∷ d.history }, tt)
    else none

-- `applyAssignmentTx`
unfoldable pub apply_assignment :
    ℕ → ℕ → Option ℕ → Option ℕ → Action → Text → Option ℕ → Call Desk (Unit {0})
unfolding update_owner insert_history reason_value
apply_assignment now user from to action reason actor = do
  write_checked (update_owner user to)
  write_checked (
      insert_history (record {
        user_id = user;
        from_rm_id = from;
        to_rm_id = to;
        action = action;
        reason = reason_value reason;
        actor_rm_id = actor;
        created_at = now;
      }))

-- uuid.Nil stands for "none assigned yet".
abbrev pub or_nil : Option ℕ → ℕ
or_nil none = nil
or_nil (some rm) = rm

abbrev chosen_of : Option (ℕ × Bool) → Option ℕ
chosen_of none = none
chosen_of (some (rm, overflow)) = some rm

-- `SELECT last_assigned_rm_id … FOR UPDATE`, the ring, the choice, the move, the new pointer.
unfoldable pub assign_next_rm : ℕ → ℕ → Call Desk ℕ
unfolding current_rm apply_assignment
assign_next_rm now user = transaction (do
  last_assigned ← read (λ d. d.last_assigned_rm_id)
  ring ← read active_ring
  chosen ← or_raise (chosen_of (pick_next_rm ring (or_nil last_assigned))) no_active_rm
  from ← current_rm user
  apply_assignment now user from (some chosen) auto_assign [] none
  write (λ d. record d { last_assigned_rm_id = some chosen; rotation_seq = d.rotation_seq + 1 })
  pure chosen)

-- The admin who acts, or null for uuid.Nil.
abbrev pub actor_of : ℕ → Option ℕ
actor_of actor = if actor == nil then none else some actor

unfoldable pub manual_assign : ℕ → ℕ → ℕ → ℕ → Action → Text → Call Desk (Unit {0})
unfolding current_rm apply_assignment
manual_assign now user to_rm actor action reason = transaction (do
  from ← current_rm user
  apply_assignment now user from (some to_rm) action reason (actor_of actor))

unfoldable pub unassign : ℕ → ℕ → ℕ → Text → Call Desk (Unit {0})
unfolding current_rm apply_assignment
unassign now user actor reason =
    transaction (do
      from ← current_rm user
      apply_assignment now user from none remove reason (actor_of actor))

-- The loop of `OffboardRM` over the clients left, with the last RM chosen and the number moved.
unfoldable pub offboard_loop : ℕ → ℕ → Option ℕ → Text → List ℕ → ℕ → ℕ → Call Desk (ℕ × ℕ)
unfolding apply_assignment
offboard_loop now rm actor reason [] after moved = pure (after, moved)
offboard_loop now rm actor reason (user ∷ rest) after moved = do
  ring ← read active_ring
  let filtered = select (λ (s : Slot). not (s.rm_id == rm)) ring
  chosen ← or_raise (chosen_of (pick_next_rm filtered after)) no_active_rm
  apply_assignment now user (some rm) (some chosen) transfer reason actor
  offboard_loop now rm actor reason rest chosen (moved + 1)

unfoldable pub offboard_clients : ℕ → ℕ → Option ℕ → Text → List ℕ → Call Desk ℕ
unfolding offboard_loop
offboard_clients now rm actor reason [] = pure 0
offboard_clients now rm actor reason (user ∷ rest) = do
  (after, moved) ← offboard_loop now rm actor reason (user ∷ rest) nil 0
  write (λ d. record d { last_assigned_rm_id = some after })
  pure moved

unfoldable pub offboard_rm : ℕ → ℕ → ℕ → Text → Call Desk ℕ
unfolding offboard_clients
offboard_rm now rm actor reason = transaction (do
  read (λ d. d.last_assigned_rm_id)
  clients ← read (clients_of rm)
  offboard_clients now rm (actor_of actor) reason clients)
