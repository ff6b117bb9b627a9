-- ===== src/Tests/App.antt =====
-- The app's own users and sessions on small data.
use astra_backend.Prelude.{ℕ, true, false, Option, none, some, [], ◌∷◌, ◌++◌, Text, lit, arith}
use astra_backend.Store.{World, quiet}
use astra_backend.Store.Laws.{Ends}
use astra_backend.Desk.{Desk}
use astra_backend.App.{App, Person}
use astra_backend.App.Session.{Service, refresh}
use astra_backend.App.Replay.{Renewed, Unrenewed, refresh-Trades}

abbrev desk : Desk
desk = record {
  staff = [];
  users =
      record { id = 7; assigned_rm_id = none; created_at = 1 }
      ∷ record { id = 8; assigned_rm_id = none; created_at = 2 }
      ∷ [];
  history = [];
  last_assigned_rm_id = none;
  rotation_seq = 0;
}

abbrev person : ℕ → Text → Option Text → Person
person id phone name = record {
  id = id;
  astra_user_id = lit "u" ++ phone;
  phone_number = phone;
  name = name;
  wants_rm = false;
  created_at = id;
}

abbrev service : Service
service = record { sign = λ user. some (lit "jwt"); hash = λ t. lit "#" ++ t }

abbrev app : App
app = record {
  desk = desk;
  people = person 7 (lit "98") none ∷ person 8 (lit "97") (some (lit "Ravi")) ∷ [];
  tokens =
      record { id = 9; user_id = 7; token_hash = lit "#old"; expires_at = 900; revoked_at = none }
      ∷ [];
  verified = [];
  next_id = 10;
}

-- The third round trip fails.
abbrev faulty : World App
faulty = record { tables = app; faults = false ∷ false ∷ true ∷ []; entropy = [] }

refresh-Trades_example :
    Ends
      (Renewed service 50 60 (lit "old") app)
      (Unrenewed service 50 60 (lit "old") app)
      (refresh service 50 (lit "old") (quiet app (some (lit "new") ∷ [])))
refresh-Trades_example =
    refresh-Trades service 50 60 (lit "old") (quiet app (some (lit "new") ∷ [])) (omega arith)
