-- ===== src/Assignment/Steps.antt =====
-- The desk as a state machine: what a sequence of moves of clients and turns of the ring preserves
-- (users.assigned_rm_id and rm_assignment_history of internal/repository/rm_repo.go).
use astra_backend.Prelude.{
  ℕ, ◌≡◌, refl, true, Option, none, List, [], ◌∷◌, arith, ◌==◌, if◌then◌else◌, All,
}
use astra_backend.Desk.{User, HistoryRow, StaffUser, Desk, is_known_rm, set_owner}
use astra_backend.Assignment.Moves.{moved}

-- A client changes hands, with a row in the history, or the ring's pointer moves.
pub data Step : Desk → Desk → Type 0 where
  move : (h : HistoryRow) (d : Desk) → is_known_rm d.staff h.to_rm_id ≡ true → Step d (moved h d)
  turn :
      (last : Option ℕ) (seq : ℕ) (d : Desk)
      → Step d (record d { last_assigned_rm_id = last; rotation_seq = seq })

pub data Reach (s : Desk) : Desk → Type 0 where
  here : Reach s s
  next : {t u : Desk} → Reach s t → Step t u → Reach s u

pub Reach-trans : {s t u : Desk} → Reach s t → Reach t u → Reach s u
Reach-trans r here = r
Reach-trans r (next q st) = next (Reach-trans r q) st

-- The RM that the newest row about a user names.
abbrev pub last_to : ℕ → List HistoryRow → Option ℕ
last_to user [] = none
last_to user (h ∷ rest) = if h.user_id == user then h.to_rm_id else last_to user rest

-- The owner on the profile of each user is the one that the log ends with.
abbrev pub IsTraced : Desk → Type 0
IsTraced d = All (λ (u : User). u.assigned_rm_id ≡ last_to u.id d.history) d.users

-- Each owner is a row of rm_users.
abbrev pub IsReferenced : Desk → Type 0
IsReferenced d = All (λ (u : User). is_known_rm d.staff u.assigned_rm_id ≡ true) d.users

move-IsTraced :
    (h : HistoryRow) (log : List HistoryRow) (users : List User)
    → All (λ (u : User). u.assigned_rm_id ≡ last_to u.id log) users
    → All
        (λ (u : User). u.assigned_rm_id ≡ last_to u.id (h ∷ log))
        (set_owner h.user_id h.to_rm_id users)
unfolding set_owner
move-IsTraced h log [] t = tt
move-IsTraced h log (u ∷ users) t = (ground arith, move-IsTraced h log users t.1)

move-IsReferenced :
    (staff : List StaffUser) (user : ℕ) (to : Option ℕ) (users : List User)
    → is_known_rm staff to ≡ true
    → All (λ (u : User). is_known_rm staff u.assigned_rm_id ≡ true) users
    → All (λ (u : User). is_known_rm staff u.assigned_rm_id ≡ true) (set_owner user to users)
unfolding set_owner
move-IsReferenced staff user to [] k t = tt
move-IsReferenced staff user to (u ∷ users) k t =
    (ground arith, move-IsReferenced staff user to users k t.1)

Step-IsTraced : {d e : Desk} → Step d e → IsTraced d → IsTraced e
Step-IsTraced (move h d k) t = move-IsTraced h d.history d.users t
Step-IsTraced (turn last seq d) t = t

Step-IsReferenced : {d e : Desk} → Step d e → IsReferenced d → IsReferenced e
Step-IsReferenced (move h d k) t = move-IsReferenced d.staff h.user_id h.to_rm_id d.users k t
Step-IsReferenced (turn last seq d) t = t

pub Reach-IsTraced : {d e : Desk} → Reach d e → IsTraced d → IsTraced e
Reach-IsTraced here t = t
Reach-IsTraced (next r st) t = Step-IsTraced st (Reach-IsTraced r t)

pub Reach-IsReferenced : {d e : Desk} → Reach d e → IsReferenced d → IsReferenced e
Reach-IsReferenced here t = t
Reach-IsReferenced (next r st) t = Step-IsReferenced st (Reach-IsReferenced r t)

pub Reach-staff : {d e : Desk} → Reach d e → e.staff ≡ d.staff
Reach-staff here = refl
Reach-staff (next r (move h d k)) = Reach-staff r
Reach-staff (next r (turn last seq d)) = Reach-staff r
