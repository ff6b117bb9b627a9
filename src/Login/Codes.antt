-- ===== src/Login/Codes.antt =====
-- How VerifyOTP of internal/service/rmauth.go ends, on every branch.
use astra_backend.Prelude.{
  none, ◌||◌, ◌≤◌, is_empty, ℕ, ◌+◌, ◌<◌, ◌≡◌, refl, sym, ap, Bool, true, false, ◌⊎◌, inl, inr,
  some, arith, Text, text_eq, trim_space, leb, if◌then◌else◌,
}
use astra_backend.Store.{
  Error, unauthorized, validation, forbidden, store_failure, Result, World, pure, raise, ◌>>◌,
  write, signing_failure,
}
use astra_backend.Store.Laws.{Ends, read_step, write_step, write_checked_step}
use astra_backend.Store.Guards.{raise_if_step, or_raise_step, random_text_step}
use astra_backend.Desk.{StaffUser, status_active}
use astra_backend.Staff.{get_by_identifier, public_of}
use astra_backend.Auth.{
  OtpCode, Console, Env, refresh_token_ttl, otp_max_attempts, latest_active_otp,
  increment_otp_attempts, consume_otp, insert_refresh_token,
}
use astra_backend.Login.{TokenPair, issue_token_pair, check_code, verify_otp}

-- What a guess is about: an active staff member, and their newest active code, with guesses left.
pub record Attempt (now : ℕ) (identifier : Text) (before : Console) : Type 0 where
  pub staff : StaffUser
  pub code : OtpCode
  pub found : get_by_identifier (trim_space identifier) before.staff ≡ some staff
  pub active : text_eq staff.status status_active ≡ true
  pub latest : latest_active_otp now staff.id before ≡ some code
  pub room : code.attempts < otp_max_attempts

module _ (env : Env) (now : ℕ) (identifier given : Text) (before : Console) where
  abbrev pub matches : Attempt now identifier before → Bool
  matches a = text_eq (env.hash (trim_space given)) a.code.code_hash

  -- A session was opened: the guess was right, the code is consumed, and the refresh token handed
  -- out is the one stored by its hash.
  abbrev pub Opened : TokenPair → Console → Type 0
  Opened p after =
      (a : Attempt now identifier before) × (matches a ≡ true)
      × (p.rm ≡ public_of a.staff)
      × (some p.access_token ≡ env.sign a.staff.id a.staff.role now)
      × (insert_refresh_token a.staff.id (env.hash p.refresh_token) (now + refresh_token_ttl)
            (consume_otp now a.code.id before)
          ≡ some (after, tt))

  -- Neither field is blank.
  abbrev pub IsNamed : Type 0
  IsNamed = (is_empty (trim_space identifier) || is_empty (trim_space given)) ≡ false

  -- Why a guess is refused before it is looked at.
  abbrev pub Untried : Error → Type 0
  Untried e =
      ((e ≡ validation "identifier and otp are required")
        × (is_empty (trim_space identifier) || is_empty (trim_space given) ≡ true))
      ⊎ ((e ≡ unauthorized "invalid code")
          × (get_by_identifier (trim_space identifier) before.staff ≡ none))
      ⊎ ((s : StaffUser) × (get_by_identifier (trim_space identifier) before.staff ≡ some s)
          × (((e ≡ forbidden "account is inactive") × (text_eq s.status status_active ≡ false))
              ⊎ ((e ≡ unauthorized "no active code — request a new one")
                  × (latest_active_otp now s.id before ≡ none))
              ⊎ ((e ≡ unauthorized "too many attempts — request a new code")
                  × (code : OtpCode) × (latest_active_otp now s.id before ≡ some code)
                  × (otp_max_attempts ≤ code.attempts))))

  -- No session: nothing changed, since a statement failed or the guess was not to be tried; or a wrong
  -- guess was counted; or a right one used its code up and then a later step failed.
  abbrev pub Refused : Error → Console → Type 0
  Refused e after =
      ((after ≡ before) × ((e ≡ store_failure) ⊎ Untried e))
      ⊎ ((a : Attempt now identifier before) × ((matches a ≡ true)
              × (after ≡ consume_otp now a.code.id before)
            ⊎ ((matches a ≡ false)
                × (e ≡ unauthorized "invalid code")
                × IsNamed
                × (after ≡ increment_otp_attempts a.code.id before))))

  abbrev R : Result TokenPair × World Console → Type 0
  R r = Ends Opened Refused r

  issue-Ends :
      (a : Attempt now identifier before) (w : World Console)
      → matches a ≡ true
      → w.tables ≡ consume_otp now a.code.id before
      → R (issue_token_pair env now a.staff w)
  unfolding issue_token_pair pure
  issue-Ends a w hit same =
      or_raise_step R w _ signing_failure _ (λ _. inr (a, inl (hit, same)))
        λ access signed.
          random_text_step R w _ (λ _. inr (a, inl (hit, same)))
            λ token es.
              write_checked_step R (record w { entropy = es }) _ _ (λ _. inr (a, inl (hit, same)))
                λ fs t u inserted. (a, hit, refl, sym signed, rw same at inserted)

  -- A guess on the newest active code of an active staff member.
  check_code-Ends :
      (s : StaffUser) (code : OtpCode) (w : World Console)
      → get_by_identifier (trim_space identifier) before.staff ≡ some s
      → text_eq s.status status_active ≡ true
      → latest_active_otp now s.id before ≡ some code
      → w.tables ≡ before
      → IsNamed
      → R (check_code env now s (trim_space given) code w)
  unfolding check_code raise
  check_code-Ends s code w found on latest same named =
      counted (leb otp_max_attempts code.attempts) refl
    where
      guessed :
          (b : Bool) (a : Attempt now identifier before)
          → matches a ≡ b
          → R (
              (if b
                  then (write (consume_otp now a.code.id) >> issue_token_pair env now a.staff)
                  else (write (increment_otp_attempts a.code.id)
                      >> raise (unauthorized "invalid code")))
                w)
      guessed true a hit =
          write_step R w _ _ (λ _. inl (same, inl refl))
            λ fs. issue-Ends a _ hit (ap (consume_otp now a.code.id) same)
      guessed false a miss =
          write_step R w _ (raise (unauthorized "invalid code")) (λ _. inl (same, inl refl))
            λ fs. inr (a, inr (miss, refl, named, ap (increment_otp_attempts a.code.id) same))

      counted :
          (b : Bool)
          → leb otp_max_attempts code.attempts ≡ b
          → R (
              (if b
                  then raise (unauthorized "too many attempts — request a new code")
                  else (if text_eq (env.hash (trim_space given)) code.code_hash
                      then (write (consume_otp now code.id) >> issue_token_pair env now s)
                      else (write (increment_otp_attempts code.id)
                          >> raise (unauthorized "invalid code"))))
                w)
      counted true e =
          inl (same, inr (inr (inr (s, found, inr (inr (refl, code, latest, ground arith))))))
      counted false e =
          guessed _
            (record {
              staff = s;
              code = code;
              found = found;
              active = on;
              latest = latest;
              room = ground arith;
            })
            refl

-- What VerifyOTP does, on every branch. It succeeds only for an active staff member with an active
-- code that has guesses left and whose hash is that of the code given; then that code is consumed
-- and one refresh token is stored, by its hash. On an error a wrong guess was counted on such a code,
-- or a right one consumed it before a later step failed; or the tables are as before, and then a
-- statement failed, or the error says which condition does not hold: a blank field, a staff member that
-- is unknown or inactive, no active code, or no guess left.
pub verify_otp-Ends :
    (env : Env) (now : ℕ) (identifier given : Text) (w : World Console)
    → Ends
        (Opened env now identifier given w.tables)
        (Refused env now identifier given w.tables)
        (verify_otp env now identifier given w)
unfolding verify_otp
verify_otp-Ends env now identifier given w =
    let R' = R env now identifier given w.tables in
    raise_if_step R' w _ _ _ (λ blank. inl (refl, inr (inl (refl, blank))))
      λ named.
        read_step R' w _ _ (λ _. inl (refl, inl refl))
          λ fs.
            or_raise_step R' _ _ _ _ (λ missing. inl (refl, inr (inr (inl (refl, missing)))))
              λ s found.
                raise_if_step R' _ _ _ _
                  (λ off. inl (refl, inr (inr (inr (s, found, inl (refl, ground arith))))))
                  λ on.
                    read_step R' _ _ _ (λ _. inl (refl, inl refl))
                      λ fs'.
                        or_raise_step R' _ _ _ _
                          (λ gone. inl (refl, inr (inr (inr (s, found, inr (inl (refl, gone)))))))
                          λ code latest.
                            check_code-Ends env now identifier given w.tables s code
                              (record w { faults = fs' }) found (ground arith) latest refl named
