-- ===== src/App/Session.antt =====
-- internal/handler/auth.go, with internal/service/auth.go: the login of the app. A request is what its
-- JSON decodes to; an answer with status 400 is `validation`, with 401 `unauthorized`, with 500 `failure`.
-- SHA-256 and the signer of access tokens are arguments.
use astra_backend.Prelude.{
  ℕ, ◌+◌, ◌*◌, Bool, ◌||◌, Option, [], String, Text, is_empty, trim_space, ltb, if◌then◌else◌,
  length,
}
use astra_backend.Store.{
  validation, unauthorized, failure, Result, ok, err, Call, pure, raise, ◌>>=◌, ◌>>◌, raise_if,
  or_raise, attempt, random_text,
}
use astra_backend.App.{
  App, Person, find_or_create_user, update_user_name, get_by_id, get_latest_verified_pan,
  delete_user_by_phone, create_refresh_token, revoke_refresh_token, rotate_refresh_token,
}

-- `AuthService`: `GenerateToken` of a user, `none` for an error, and `HashRefreshToken`.
pub record Service : Type 0 where
  pub sign : ℕ → Option Text
  pub hash : Text → Text

-- `RefreshTokenTTL`, in seconds.
abbrev pub refresh_token_ttl : ℕ
refresh_token_ttl = 30 * 24 * 3600

-- `VerifyRequest`
pub record VerifyRequest : Type 0 where
  pub astra_user_id : Text
  pub phone_number : Text
  pub otp : Text
  pub name : Text
  pub wants_rm : Option Bool

-- The answer of `VerifyOTP`.
pub record Session : Type 0 where
  pub token : Text
  pub refresh_token : Text
  pub is_new_user : Bool
  pub name : Option Text

pub record Tokens : Type 0 where
  pub access_token : Text
  pub refresh_token : Text

-- A step whose error is answered with status 500.
unfoldable pub answering_500 : {A : Type 0} → Call App A → String → Call App A
answering_500 m message =
    attempt m >>= λ r. elim r [ ok a ↦ pure a | err e ↦ raise (failure message) ]

-- `SendOTP`: nothing is sent.
unfoldable pub send_otp : Text → Call App (Unit {0})
send_otp phone = raise_if (is_empty phone) (validation "Missing phone_number")

-- The tokens of `VerifyOTP`.
unfoldable pub open_session : Service → ℕ → Person × Bool → Call App Session
unfolding answering_500
open_session s now (user, is_new) = do
  access ← or_raise (s.sign user.id) (failure "Error generating token")
  refresh ← answering_500 random_text "Error generating refresh token"
  answering_500 (create_refresh_token user.id (s.hash refresh) (now + refresh_token_ttl))
      "Error persisting refresh token"
  pure (record { token = access; refresh_token = refresh; is_new_user = is_new; name = user.name })

-- `VerifyOTP`: any code is accepted.
unfoldable pub verify_otp : Service → ℕ → VerifyRequest → Call App Session
unfolding open_session answering_500
verify_otp s now req = do
  raise_if (is_empty req.astra_user_id || is_empty req.phone_number)
      (validation "Missing astra_user_id or phone_number")
  raise_if (is_empty req.otp) (validation "Missing otp")
  found ←
      answering_500
        (find_or_create_user now req.astra_user_id req.phone_number req.name req.wants_rm)
        "Error identifying user"
  open_session s now found

-- `Refresh`
unfoldable pub refresh : Service → ℕ → Text → Call App Tokens
unfolding answering_500
refresh s now token = do
  raise_if (is_empty token) (validation "Missing refresh_token")
  fresh ← answering_500 random_text "Error generating refresh token"
  taken ←
      answering_500
        (rotate_refresh_token now (s.hash token) (s.hash fresh) (now + refresh_token_ttl))
        "Error validating refresh token"
  user ← or_raise taken (unauthorized "Invalid or expired refresh token")
  access ← or_raise (s.sign user) (failure "Error generating token")
  pure (record { access_token = access; refresh_token = fresh })

-- `Logout`
unfoldable pub logout : Service → ℕ → Text → Call App (Unit {0})
unfolding answering_500
logout s now token = do
  raise_if (is_empty token) (validation "Missing refresh_token")
  answering_500 (revoke_refresh_token now (s.hash token)) "Error revoking refresh token"

abbrev text_or_empty : Result Text → Text
text_or_empty (ok t) = t
text_or_empty (err e) = []

-- `Me`, of the user of the access token, if there is one: the profile, and the PAN or "".
unfoldable pub me : Option ℕ → Call App (Person × Text)
me user = do
  id ← or_raise user (unauthorized "Unauthorized")
  p ← attempt (get_by_id id) >>= λ r. elim r [
    | ok p ↦ pure p
    | err e ↦ raise (unauthorized "Session is no longer valid")
  ]
  pan ← attempt (get_latest_verified_pan id)
  pure (p, text_or_empty pan)

-- `UpdateMe`
unfoldable pub update_me : Option ℕ → Text → Call App Person
unfolding answering_500
update_me user given = do
  id ← or_raise user (unauthorized "Unauthorized")
  let name = trim_space given
  raise_if (ltb (length name) 2) (validation "Name must be at least 2 characters")
  answering_500 (update_user_name id name) "Error updating profile"
  answering_500 (get_by_id id) "Error reloading profile"

-- `ResetUser`: a failure is not told.
unfoldable pub reset_user : Text → Call App (Unit {0})
reset_user phone =
    if is_empty phone then pure tt else (attempt (delete_user_by_phone phone) >> pure tt)
