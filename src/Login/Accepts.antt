-- ===== src/Login/Accepts.antt =====
-- internal/service/rmauth.go: a right code opens a session, when nothing fails.
use astra_backend.Prelude.{
  ℕ, ◌≡◌, refl, true, false, Option, none, some, List, ◌∷◌, arith, Text, text_eq, is_empty,
  trim_space, first, leb,
}
use astra_backend.Store.{
  ok, quiet, ◌>>=◌, pure, raise, read, write, write_checked, or_raise, random_text,
}
use astra_backend.Desk.{find_staff}
use astra_backend.Staff.{public_of}
use astra_backend.Auth.{Console, Env, has_hash, insert_refresh_token, consume_otp, otp_max_attempts}
use astra_backend.Login.{TokenPair, check_code, issue_token_pair, verify_otp}
use astra_backend.Login.Codes.{Attempt}

module _ (env : Env) (now : ℕ) (c : Console) (token access : Text) (rest : List (Option Text)) where
  abbrev pub session : (identifier : Text) → Attempt now identifier c → TokenPair
  session identifier a = record {
    access_token = access;
    refresh_token = token;
    role = a.staff.role;
    rm = public_of a.staff;
  }

  -- A right code opens a session when nothing fails: for an active staff member with an active code
  -- that has guesses left, with the signer and the database answering and a fresh refresh token.
  pub verify_otp-accepts :
      (identifier given : Text) (a : Attempt now identifier c)
      → is_empty (trim_space identifier) ≡ false
      → is_empty (trim_space given) ≡ false
      → text_eq (env.hash (trim_space given)) a.code.code_hash ≡ true
      → env.sign a.staff.id a.staff.role now ≡ some access
      → first (has_hash (env.hash token)) c.refresh_tokens ≡ none
      → find_staff a.staff.id c.staff ≡ some a.staff
      → (verify_otp env now identifier given (quiet c (some token ∷ rest))).0
        ≡ ok (session identifier a)
  unfolding verify_otp check_code issue_token_pair ◌>>=◌ pure raise read write write_checked
      or_raise random_text insert_refresh_token consume_otp
  verify_otp-accepts identifier given a hid hotp hit signed fresh known =
      let few : leb otp_max_attempts a.code.attempts ≡ false = ground (arith, a.room) in
      rw (hid, hotp, a.found, a.active, a.latest, few, hit, signed, fresh, known) refl
