-- ===== src/Tests/Console.antt =====
-- The login of the RM console on small data.
use astra_backend.Prelude.{
  ◌≡◌, ◌⊎◌, refl, true, none, some, [], ◌∷◌, ◌++◌, lit, text_eq, trim_space, to_lower, to_upper,
  arith,
}
use astra_backend.Store.{
  ok, err, World, quiet, ◌>>=◌, pure, read, or_raise, write, random_text, write_checked,
}
use astra_backend.Store.Laws.{Ends}
use astra_backend.Desk.{StaffUser, role_rm, status_active}
use astra_backend.Staff.{get_by_identifier}
use astra_backend.Auth.{Console, Env, latest_active_otp, insert_refresh_token, consume_otp}
use astra_backend.Login.{send_otp, verify_otp, refresh}
use astra_backend.Login.Keys.{IsSound}
use astra_backend.Login.Codes.{Attempt, Opened, Refused, verify_otp-Ends}
use astra_backend.Login.Accepts.{session, verify_otp-accepts}
use astra_backend.Login.Dispatch.{Answered, Unanswered, send_otp-Ends}
use astra_backend.Login.Replay.{Renewed, Stranded, IsDead, refresh-Ends, refresh-no_replay}
use astra_backend.Login.Sessions.{wrong_guess, IsCounted, verify_otp-IsSound, send_otp-IsSound}

abbrev asha : StaffUser
asha = record {
  id = 1;
  employee_code = lit "RM1";
  email = lit "asha@idbi.in";
  name = lit "Asha";
  phone_number = some (lit "9812345678");
  role = role_rm;
  status = status_active;
  max_portfolios = 150;
  created_at = 1;
  updated_at = 1;
}

-- A stand-in for SHA-256, and a signer that never fails.
abbrev env : Env
env = record {
  hash = λ t. lit "#" ++ t;
  sign = λ id role now. some (lit "jwt");
  otp_dev_code = [];
  hrms = some (λ code. some true);
}

-- One code in force, with two wrong guesses, and one live refresh token.
abbrev console : Console
console = record {
  staff = asha ∷ [];
  otp_codes =
      record {
        id = 5;
        rm_id = 1;
        code_hash = lit "#123456";
        expires_at = 700;
        consumed_at = none;
        attempts = 2;
        created_at = 100;
      }
      ∷ [];
  refresh_tokens =
      record { id = 4; rm_id = 1; token_hash = lit "#old"; expires_at = 9000; revoked_at = none }
      ∷ [];
  next_id = 6;
}

abbrev at_console : World Console
at_console = quiet console (some (lit "new") ∷ [])

console-IsSound : IsSound console
console-IsSound = record {
  fresh = (omega arith, tt);
  single = ((λ _. tt), tt);
  capped = (omega arith, tt);
}

-- The right code opens a session, and the refresh token is the random text that was drawn.
logs_in :
    (elim (verify_otp env 200 (lit "rm1") (lit "123456") at_console).0 [
      | ok p ↦ p.refresh_token
      | err e ↦ []
    ])
    ≡ lit "new"
unfolding verify_otp ◌>>=◌ trim_space pure read or_raise get_by_identifier text_eq to_lower to_upper
    latest_active_otp write random_text write_checked insert_refresh_token consume_otp
logs_in = refl

verify_otp-Ends_example :
    Ends
      (Opened env 200 (lit "rm1") (lit "123456") console)
      (Refused env 200 (lit "rm1") (lit "123456") console)
      (verify_otp env 200 (lit "rm1") (lit "123456") at_console)
verify_otp-Ends_example = verify_otp-Ends env 200 (lit "rm1") (lit "123456") at_console

verify_otp-IsSound_example :
    Ends
      (λ p after.
        IsSound after
        × (latest_active_otp 300 p.rm.id after ≡ none)
        × (wrong_guess env 200 (lit "rm1") (lit "123456") console ≡ none))
      (λ e after. IsSound after × IsCounted env 200 (lit "rm1") (lit "123456") console e after)
      (verify_otp env 200 (lit "rm1") (lit "123456") at_console)
verify_otp-IsSound_example =
    verify_otp-IsSound env 200 300 (lit "rm1") (lit "123456") at_console console-IsSound

send_otp-Ends_example :
    Ends
      (Answered env 200 (lit "asha@idbi.in") console)
      (Unanswered env 200 (lit "asha@idbi.in") console)
      (send_otp env 200 (lit "asha@idbi.in") at_console)
send_otp-Ends_example = send_otp-Ends env 200 (lit "asha@idbi.in") at_console

send_otp-IsSound_example :
    Ends
      (λ _ after. IsSound after)
      (λ _ after. IsSound after)
      (send_otp env 200 (lit "asha@idbi.in") at_console)
send_otp-IsSound_example = send_otp-IsSound env 200 (lit "asha@idbi.in") at_console console-IsSound

refresh-Ends_example :
    Ends
      (Renewed env 200 (lit "old") console)
      (Stranded env 200 (lit "old") console)
      (refresh env 200 (lit "old") at_console)
refresh-Ends_example = refresh-Ends env 200 (lit "old") at_console

refresh-no_replay_example :
    Ends
      (λ _ after. IsDead 300 (lit "#old") after)
      (λ _ after. (after ≡ console) ⊎ IsDead 300 (lit "#old") after)
      (refresh env 200 (lit "old") at_console)
refresh-no_replay_example = refresh-no_replay env 200 300 (lit "old") at_console (omega arith)

right_guess : Attempt 200 (lit "rm1") console
unfolding get_by_identifier trim_space to_lower to_upper text_eq latest_active_otp
right_guess = record {
  staff = asha;
  code = record {
    id = 5;
    rm_id = 1;
    code_hash = lit "#123456";
    expires_at = 700;
    consumed_at = none;
    attempts = 2;
    created_at = 100;
  };
  found = refl;
  active = refl;
  latest = refl;
  room = omega arith;
}

verify_otp-accepts_example :
    (verify_otp env 200 (lit "rm1") (lit "123456") at_console).0
    ≡ ok (session env 200 console (lit "new") (lit "jwt") [] (lit "rm1") right_guess)
unfolding trim_space text_eq right_guess
verify_otp-accepts_example =
    verify_otp-accepts env 200 console (lit "new") (lit "jwt") [] (lit "rm1") (lit "123456")
      right_guess refl refl refl refl refl refl
