-- ===== src/Login/Dispatch.antt =====
-- How SendOTP of internal/service/rmauth.go ends, on every branch.
use astra_backend.Prelude.{
  ℕ, ◌+◌, ◌≡◌, refl, Bool, true, false, ◌⊎◌, inl, inr, Option, none, some, Text, is_empty,
  trim_space, if◌then◌else◌,
}
use astra_backend.Store.{Error, Result, World, pure, ◌>>=◌, write, random_text}
use astra_backend.Store.Laws.{Ends, read_step, write_step}
use astra_backend.Store.Guards.{raise_if_step, random_text_step, pure_step}
use astra_backend.Desk.{StaffUser}
use astra_backend.Staff.{get_by_identifier}
use astra_backend.Auth.{Console, Env, otp_ttl, create_otp, invalidate_otps}
use astra_backend.Login.{
  OtpSent, uniform_response, reachable, is_blocked, mask_phone, pick_code, dispatch_code, send_to,
  send_otp,
}

module _ (env : Env) (now : ℕ) (identifier : Text) (before : Console) where
  -- A code is owed to this staff member, at this phone.
  abbrev pub Owed : StaffUser → Text → Type 0
  Owed s phone =
      (reachable (get_by_identifier (trim_space identifier) before.staff) ≡ some (s, phone))
      × (is_blocked env s ≡ false)

  -- Nobody is to be sent a code.
  abbrev pub NobodyOwed : Type 0
  NobodyOwed =
      (reachable (get_by_identifier (trim_space identifier) before.staff) ≡ none)
      ⊎ ((s : StaffUser) × (phone : Text) × (reachable
              (get_by_identifier (trim_space identifier) before.staff)
            ≡ some (s, phone))
          × (is_blocked env s ≡ true))

  -- The tables after a new code, which takes the place of the older ones.
  abbrev pub renewed : StaffUser → Text → Console
  renewed s code =
      create_otp now s.id (env.hash code) (now + otp_ttl) (invalidate_otps now s.id before)

  abbrev pub Answered : OtpSent → Console → Type 0
  Answered r after =
      (NobodyOwed × (r ≡ uniform_response) × (after ≡ before))
      ⊎ ((s : StaffUser) × (phone : Text) × (code : Text) × Owed s phone
          × (r ≡ record { sent = true; masked_phone = mask_phone phone })
          × (after ≡ renewed s code))

  -- Nothing changed, or the older codes are out and the new one could not be stored.
  abbrev pub Unanswered : Error → Console → Type 0
  Unanswered e after =
      (after ≡ before)
      ⊎ ((s : StaffUser) × (phone : Text) × Owed s phone
          × (after ≡ invalidate_otps now s.id before))

  abbrev R : Result OtpSent × World Console → Type 0
  R r = Ends Answered Unanswered r

  stored-Ends :
      (s : StaffUser) (phone code : Text) (w : World Console)
      → Owed s phone
      → w.tables ≡ before
      → R (
          (write (invalidate_otps now s.id) >>= λ _.
          write (create_otp now s.id (env.hash code) (now + otp_ttl)) >>= λ _.
          pure (record { sent = true; masked_phone = mask_phone phone }))
            w)
  unfolding pure
  stored-Ends s phone code w owed same =
      write_step R w _
        (write (create_otp now s.id (env.hash code) (now + otp_ttl)) >>= λ _.
          pure (record { sent = true; masked_phone = mask_phone phone }))
        (λ _. inl same)
        λ fs.
          write_step R _ _ (pure (record { sent = true; masked_phone = mask_phone phone }))
            (λ _. inr (s, phone, owed, rw same refl))
            λ fs'. inr (s, phone, code, owed, refl, rw same refl)

  dispatch_code-Ends :
      (s : StaffUser) (phone : Text) (w : World Console)
      → Owed s phone
      → w.tables ≡ before
      → R (dispatch_code env now (s, phone) w)
  unfolding dispatch_code pick_code
  dispatch_code-Ends s phone w owed same = picked (is_empty env.otp_dev_code)
    where
      picked :
          (b : Bool)
          → R (
              ((if b then random_text else pure env.otp_dev_code) >>= λ code.
              write (invalidate_otps now s.id) >>= λ _.
              write (create_otp now s.id (env.hash code) (now + otp_ttl)) >>= λ _.
              pure (record { sent = true; masked_phone = mask_phone phone }))
                w)
      picked true =
          random_text_step R w _ (λ _. inl same)
            (λ code es. stored-Ends s phone code (record w { entropy = es }) owed same)
      picked false =
          pure_step R w env.otp_dev_code _ (stored-Ends s phone env.otp_dev_code w owed same)

  send_to-Ends :
      (o : Option (StaffUser × Text)) (w : World Console)
      → reachable (get_by_identifier (trim_space identifier) before.staff) ≡ o
      → w.tables ≡ before
      → R (send_to env now o w)
  unfolding send_to pure
  send_to-Ends none w e same = inl (inl e, refl, same)
  send_to-Ends (some (s, phone)) w e same = guarded (is_blocked env s) refl
    where
      guarded :
          (b : Bool)
          → is_blocked env s ≡ b
          → R ((if b then pure uniform_response else dispatch_code env now (s, phone)) w)
      guarded true stop = inl (inr (s, phone, e, stop), refl, same)
      guarded false go = dispatch_code-Ends s phone w (e, go) same

-- What SendOTP does, on every branch. An identifier that names nobody, an inactive account, a missing
-- phone and a field RM whom HRMS denies all get one and the same answer, and change nothing.
-- Otherwise the open codes of the staff member are consumed, one new code is stored by its hash, and
-- the answer shows the masked phone. On an error nothing changed, or the open codes are consumed and
-- the new one could not be stored.
pub send_otp-Ends :
    (env : Env) (now : ℕ) (identifier : Text) (w : World Console)
    → Ends
        (Answered env now identifier w.tables)
        (Unanswered env now identifier w.tables)
        (send_otp env now identifier w)
unfolding send_otp
send_otp-Ends env now identifier w =
    let R' = R env now identifier w.tables in
    raise_if_step R' w _ _ _ (λ _. inl refl)
      λ _.
        read_step R' w _ _ (λ _. inl refl)
          λ fs. send_to-Ends env now identifier w.tables _ (record w { faults = fs }) refl refl
