-- ===== src/Login.antt =====
-- internal/service/rmauth.go, the methods of RMAuthService over the tables of Auth. Logging is left
-- out; the code is sent by no provider in the source either.
pub mod Keys
pub mod Codes
pub mod Replay
pub mod Dispatch
pub mod Sessions
pub mod Accepts
use astra_backend.Prelude.{
  ℕ, ◌+◌, ◌-◌, Bool, true, false, not, ◌&&◌, ◌||◌, Option, none, some, List, [], ◌∷◌, ◌++◌, Text,
  lit, text_eq, is_empty, trim_space, to_lower, contains_byte, leb, ◌==◌, if◌then◌else◌, length,
  drop,
}
use astra_backend.Store.{
  Error, validation, unauthorized, forbidden, conflict, signing_failure, Call, pure, raise, ◌>>=◌,
  ◌>>◌, raise_if, read, write, write_checked, or_raise, random_text,
}
use astra_backend.Desk.{StaffUser, find_staff, role_rm, status_active}
use astra_backend.Staff.{
  Public, public_of, UpdateRmRequest, get_by_identifier, get_by_email, update_staff,
}
use astra_backend.Auth.{
  OtpCode, Console, Env, refresh_token_ttl, otp_ttl, otp_max_attempts, latest_active_otp,
  create_otp, increment_otp_attempts, consume_otp, invalidate_otps, insert_refresh_token,
  revoke_refresh_token, rotate_refresh_token,
}

-- rmdomain.OTPSendResponse and rmdomain.TokenPair.
pub record OtpSent : Type 0 where
  pub sent : Bool
  pub masked_phone : Text

pub record TokenPair : Type 0 where
  pub access_token : Text
  pub refresh_token : Text
  pub role : Text
  pub rm : Public

-- The bytes of "•".
abbrev bullet : Text
bullet = 0xe2 ∷ 0x80 ∷ 0xa2 ∷ []

unfoldable pub mask_phone : Text → Text
mask_phone phone =
    let p = trim_space phone in
    if leb (length p) 4
    then bullet ++ bullet ++ bullet ++ bullet
    else bullet ++ bullet ++ bullet ++ bullet ++ bullet ++ bullet ++ drop (length p - 4) p

-- The response that discloses nothing.
abbrev pub uniform_response : OtpSent
uniform_response = record { sent = true; masked_phone = [] }

-- `staff == nil || staff.Status != … || staff.PhoneNumber == nil || … == ""`: otherwise the staff
-- member and the phone.
abbrev with_phone : StaffUser → Option Text → Option (StaffUser × Text)
with_phone s none = none
with_phone s (some p) =
    if text_eq s.status status_active && not (is_empty (trim_space p)) then some (s, p) else none

unfoldable pub reachable : Option StaffUser → Option (StaffUser × Text)
reachable none = none
reachable (some s) = with_phone s s.phone_number

-- A positive "not an active employee"; no verifier or no answer does not block.
abbrev denies : Option (Text → Option Bool) → Text → Bool
denies none code = false
denies (some verify) code = elim (verify code) [ none ↦ false | some active ↦ not active ]

-- The HRMS check, which applies to field RMs.
unfoldable pub is_blocked : Env → StaffUser → Bool
is_blocked env s = text_eq s.role role_rm && denies env.hrms s.employee_code

-- The code to send: the fixed one of development, or a random one.
unfoldable pub pick_code : Env → Call Console Text
pick_code env = if is_empty env.otp_dev_code then random_text else pure env.otp_dev_code

unfoldable pub dispatch_code : Env → ℕ → StaffUser × Text → Call Console OtpSent
unfolding pick_code
dispatch_code env now (s, phone) = do
  code ← pick_code env
  write (invalidate_otps now s.id)
  write (create_otp now s.id (env.hash code) (now + otp_ttl))
  pure (record { sent = true; masked_phone = mask_phone phone })

unfoldable pub send_to : Env → ℕ → Option (StaffUser × Text) → Call Console OtpSent
unfolding dispatch_code
send_to env now none = pure uniform_response
send_to env now (some (s, phone)) =
    if is_blocked env s then pure uniform_response else dispatch_code env now (s, phone)

-- `SendOTP`
unfoldable pub send_otp : Env → ℕ → Text → Call Console OtpSent
unfolding send_to
send_otp env now identifier = do
  let id = trim_space identifier
  raise_if (is_empty id) (validation "identifier (employee code or email) is required")
  staff ← read (λ c. get_by_identifier id c.staff)
  send_to env now (reachable staff)

-- `issueTokenPair`
unfoldable pub issue_token_pair : Env → ℕ → StaffUser → Call Console TokenPair
issue_token_pair env now s = do
  access ← or_raise (env.sign s.id s.role now) signing_failure
  refresh ← random_text
  write_checked (insert_refresh_token s.id (env.hash refresh) (now + refresh_token_ttl))
  pure (record { access_token = access; refresh_token = refresh; role = s.role; rm = public_of s })

-- A wrong guess is counted before it is refused.
unfoldable pub check_code : Env → ℕ → StaffUser → Text → OtpCode → Call Console TokenPair
unfolding issue_token_pair
check_code env now s otp code =
    if leb otp_max_attempts code.attempts
    then raise (unauthorized "too many attempts — request a new code")
    else (if text_eq (env.hash otp) code.code_hash
        then (write (consume_otp now code.id) >> issue_token_pair env now s)
        else (write (increment_otp_attempts code.id) >> raise (unauthorized "invalid code")))

-- `VerifyOTP`
unfoldable pub verify_otp : Env → ℕ → Text → Text → Call Console TokenPair
unfolding check_code
verify_otp env now identifier given = do
  let id = trim_space identifier
  let otp = trim_space given
  raise_if (is_empty id || is_empty otp) (validation "identifier and otp are required")
  found ← read (λ c. get_by_identifier id c.staff)
  s ← or_raise found (unauthorized "invalid code")
  raise_if (not (text_eq s.status status_active)) (forbidden "account is inactive")
  latest ← read (latest_active_otp now s.id)
  code ← or_raise latest (unauthorized "no active code — request a new one")
  check_code env now s otp code

-- `Refresh`
unfoldable pub refresh : Env → ℕ → Text → Call Console TokenPair
refresh env now token = do
  raise_if (is_empty token) (validation "refresh_token is required")
  fresh ← random_text
  rotated ← rotate_refresh_token now (env.hash token) (env.hash fresh) (now + refresh_token_ttl)
  rm ← or_raise rotated (unauthorized "invalid or expired refresh token")
  found ← read (λ c. find_staff rm c.staff)
  s ← or_raise found (unauthorized "staff account no longer exists")
  raise_if (not (text_eq s.status status_active)) (forbidden "account is inactive")
  access ← or_raise (env.sign s.id s.role now) signing_failure
  pure (record { access_token = access; refresh_token = fresh; role = s.role; rm = public_of s })

-- `Logout`
unfoldable pub logout : Env → ℕ → Text → Call Console (Unit {0})
logout env now token =
    if is_empty token then pure tt else write (revoke_refresh_token now (env.hash token))

-- rmdomain.UpdateProfileRequest.
pub record UpdateProfileRequest : Type 0 where
  pub name : Option Text
  pub email : Option Text
  pub phone : Option Text

abbrev trimmed_name : Option Text → Call Console (Option Text)
trimmed_name none = pure none
trimmed_name (some n) =
    let t = trim_space n in
    raise_if (is_empty t) (validation "name cannot be empty") >> pure (some t)

abbrev is_other : ℕ → Option StaffUser → Bool
is_other rm none = false
is_other rm (some s) = not (s.id == rm)

abbrev checked_email : ℕ → Option Text → Call Console (Option Text)
checked_email rm none = pure none
checked_email rm (some given) =
    let e = to_lower (trim_space given) in
    raise_if (not (contains_byte b'@' e)) (validation "a valid email is required")
    >> (read (λ c. get_by_email e c.staff) >>= λ existing.
        raise_if (is_other rm existing) (conflict "that email is already in use") >> pure (some e))

abbrev trimmed_phone : Option Text → Call Console (Option Text)
trimmed_phone none = pure none
trimmed_phone (some p) =
    let t = trim_space p in
    raise_if (is_empty t) (validation "phone cannot be empty — login codes are sent there")
    >> pure (some t)

-- `s.repo.Update` on the tables of the console.
unfoldable pub update_row : ℕ → ℕ → UpdateRmRequest → Console → Option (Console × Option StaffUser)
update_row now rm req c = elim (update_staff now rm req c.staff) [
  | none ↦ none
  | some (staff, found) ↦ some (record c { staff = staff }, found)
]

-- `UpdateProfile`
unfoldable pub update_profile : ℕ → ℕ → UpdateProfileRequest → Call Console Public
unfolding update_row
update_profile now rm req = do
  name ← trimmed_name req.name
  email ← checked_email rm req.email
  phone ← trimmed_phone req.phone
  found ← write_checked (
      update_row now rm (record {
        name = name;
        email = email;
        phone = phone;
        status = none;
        max_portfolios = none;
      }))
  s ← or_raise found (unauthorized "staff account not found")
  pure (public_of s)

-- `Me`
unfoldable pub me : ℕ → Call Console Public
me rm = do
  found ← read (λ c. find_staff rm c.staff)
  s ← or_raise found (unauthorized "staff account not found")
  pure (public_of s)
