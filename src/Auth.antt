-- ===== src/Auth.antt =====
-- internal/service/rmauth.go, the login of the RM console, with the tables behind it
-- (internal/repository/rm_repo.go, migrations 000017 and 000019). `now` is the time of the call.
use astra_backend.Prelude.{
  ℕ, ◌+◌, ◌*◌, Bool, true, false, not, ◌&&◌, Option, none, some, List, [], ◌∷◌, Text, text_eq, ltb,
  ◌==◌, if◌then◌else◌, first, change, select,
}
use astra_backend.Store.{
  no_rows, Result, ok, err, World, Call, pure, ◌>>=◌, ◌>>◌, write_checked, write_returning,
  or_raise, transaction,
}
use astra_backend.Desk.{StaffUser, find_staff}

-- A row of rm_otp_codes.
pub record OtpCode : Type 0 where
  pub id : ℕ
  pub rm_id : ℕ
  pub code_hash : Text
  pub expires_at : ℕ
  pub consumed_at : Option ℕ
  pub attempts : ℕ
  pub created_at : ℕ

-- A row of rm_refresh_tokens.
pub record RefreshToken : Type 0 where
  pub id : ℕ
  pub rm_id : ℕ
  pub token_hash : Text
  pub expires_at : ℕ
  pub revoked_at : Option ℕ

-- The tables that a login reads and writes. `gen_random_uuid()` is read as a counter, since only that
-- it does not repeat is used.
pub record Console : Type 0 where
  pub staff : List StaffUser
  pub otp_codes : List OtpCode
  pub refresh_tokens : List RefreshToken
  pub next_id : ℕ

-- What the service is configured with and calls: SHA-256 in hex, the signer of access tokens (`none`
-- for an error), the fixed code of development ("" if none is set), and the HRMS check (`none` if it
-- is off; it answers `none` when it cannot tell).
pub record Env : Type 0 where
  pub hash : Text → Text
  pub sign : ℕ → Text → ℕ → Option Text
  pub otp_dev_code : Text
  pub hrms : Option (Text → Option Bool)

-- Seconds: RefreshTokenTTL, rmOTPTTL; and rmOTPMaxAttempts.
abbrev pub refresh_token_ttl : ℕ
refresh_token_ttl = 30 * 24 * 3600

abbrev pub otp_ttl : ℕ
otp_ttl = 10 * 60

abbrev pub otp_max_attempts : ℕ
otp_max_attempts = 5

-- `IS NULL`
abbrev pub is_null {ℓ} : {A : Type ℓ} → Option A → Bool
is_null none = true
is_null (some _) = false

-- `rm_id = $1 AND consumed_at IS NULL`
abbrev pub is_open : ℕ → OtpCode → Bool
is_open rm c = (c.rm_id == rm) && is_null c.consumed_at

-- `is_open`, and not expired.
abbrev pub is_active : ℕ → ℕ → OtpCode → Bool
is_active now rm c = is_open rm c && ltb now c.expires_at

-- `ORDER BY created_at DESC LIMIT 1`
unfoldable pub newest : List OtpCode → Option OtpCode
newest [] = none
newest (c ∷ rest) = elim (newest rest) [
  | none ↦ some c
  | some d ↦ some (if ltb c.created_at d.created_at then d else c)
]

unfoldable pub latest_active_otp : ℕ → ℕ → Console → Option OtpCode
unfolding newest
latest_active_otp now rm c = newest (select (is_active now rm) c.otp_codes)

unfoldable pub create_otp : ℕ → ℕ → Text → ℕ → Console → Console
create_otp now rm code_hash expires_at c = record c {
  otp_codes = row ∷ c.otp_codes;
  next_id = c.next_id + 1;
}
  where
    row : OtpCode
    row = record {
      id = c.next_id;
      rm_id = rm;
      code_hash = code_hash;
      expires_at = expires_at;
      consumed_at = none;
      attempts = 0;
      created_at = now;
    }

abbrev pub tried : OtpCode → OtpCode
tried c = record c { attempts = c.attempts + 1 }

abbrev pub consumed : ℕ → OtpCode → OtpCode
consumed now c = record c { consumed_at = some now }

unfoldable pub increment_otp_attempts : ℕ → Console → Console
increment_otp_attempts id c = record c { otp_codes = change (λ o. o.id == id) tried c.otp_codes }

unfoldable pub consume_otp : ℕ → ℕ → Console → Console
consume_otp now id c = record c {
  otp_codes = change (λ o. (o.id == id) && is_null o.consumed_at) (consumed now) c.otp_codes;
}

unfoldable pub invalidate_otps : ℕ → ℕ → Console → Console
invalidate_otps now rm c = record c { otp_codes = change (is_open rm) (consumed now) c.otp_codes }

abbrev pub has_hash : Text → RefreshToken → Bool
has_hash h t = text_eq t.token_hash h

-- `INSERT INTO rm_refresh_tokens`, with UNIQUE (token_hash) and the foreign key of rm_id.
unfoldable pub insert_refresh_token : ℕ → Text → ℕ → Console → Option (Console × Unit {0})
insert_refresh_token rm token_hash expires_at c =
    if is_null (first (has_hash token_hash) c.refresh_tokens)
      && not (is_null (find_staff rm c.staff))
    then some (record c { refresh_tokens = row ∷ c.refresh_tokens; next_id = c.next_id + 1 }, tt)
    else none
  where
    row : RefreshToken
    row = record {
      id = c.next_id;
      rm_id = rm;
      token_hash = token_hash;
      expires_at = expires_at;
      revoked_at = none;
    }

abbrev pub revoked : ℕ → RefreshToken → RefreshToken
revoked now t = record t { revoked_at = some now }

abbrev pub is_live : ℕ → Text → RefreshToken → Bool
is_live now h t = text_eq t.token_hash h && is_null t.revoked_at && ltb now t.expires_at

unfoldable pub revoke_refresh_token : ℕ → Text → Console → Console
revoke_refresh_token now h c = record c {
  refresh_tokens =
      change (λ t. has_hash h t && is_null t.revoked_at) (revoked now) c.refresh_tokens;
}

-- `UPDATE … SET revoked_at = now() WHERE … RETURNING rm_id`, of the one row that there can be.
unfoldable pub take_refresh_token : ℕ → Text → Console → Console × Option ℕ
take_refresh_token now h c = (
  record c { refresh_tokens = change (is_live now h) (revoked now) c.refresh_tokens },
  elim (first (is_live now h) c.refresh_tokens) [ none ↦ none | some t ↦ some t.rm_id ],
)

-- `errors.Is(err, pgx.ErrNoRows)` after the transaction: the token was not there.
abbrev pub missing : {A : Type 0} → Result A × World Console → Result (Option A) × World Console
missing (ok a, w) = (ok (some a), w)
missing (err no_rows, w) = (ok none, w)
missing (err e, w) = (err e, w)

-- `RotateRefreshToken`
unfoldable pub rotate_refresh_token : ℕ → Text → Text → ℕ → Call Console (Option ℕ)
rotate_refresh_token now old_hash new_hash expires_at w = missing (
    transaction
      (do
        taken ← write_returning (take_refresh_token now old_hash)
        rm ← or_raise taken no_rows
        write_checked (insert_refresh_token rm new_hash expires_at)
        pure rm)
      w)
