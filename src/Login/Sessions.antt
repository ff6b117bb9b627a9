-- ===== src/Login/Sessions.antt =====
-- The invariants of Login/Keys through the requests of internal/service/rmauth.go.
use astra_backend.Prelude.{
  Option, ◌⊎◌, ◌||◌, is_empty, text_eq, trim_space, leb, ℕ, ◌+◌, ◌≡◌, refl, ap, subst, Bool, true,
  false, ◌&&◌, inl, inr, none, some, List, [], ◌∷◌, arith, Text, ◌==◌, if◌then◌else◌, All, All-Has,
  Has, change, select, Has-select, Option-cases, ◌∙◌,
}
use astra_backend.Store.{Error, World, store_failure, unauthorized}
use astra_backend.Store.Laws.{Ends, Ends-map}
use astra_backend.Desk.{StaffUser, status_active}
use astra_backend.Staff.{Public, get_by_identifier}
use astra_backend.Auth.{
  otp_max_attempts, increment_otp_attempts, OtpCode, Console, Env, is_null, is_active, newest,
  consumed, latest_active_otp, insert_refresh_token, consume_otp,
}
use astra_backend.Login.{OtpSent, TokenPair, send_otp, verify_otp}
use astra_backend.Login.Keys.{
  IsSound, IsSingle, Below, Below-mono, change-shut, consumed-OnlyShuts, increment-IsSound,
  consume-IsSound, invalidate-IsReady, create-IsSound,
}
use astra_backend.Login.Codes.{Attempt, matches, Opened, Refused, verify_otp-Ends}
use astra_backend.Login.Dispatch.{Answered, Unanswered, send_otp-Ends}

newest-Has : (codes : List OtpCode) (code : OtpCode) → newest codes ≡ some code → Has code codes
unfolding newest
newest-Has [] code e = absurd (ground arith)
newest-Has (c ∷ rest) code e = elim (Option-cases (newest rest)) [
  | inl n ↦ ground (arith, n)
  | inr (d, n) ↦ ground (arith, n, newest-Has rest d n)
]

-- The newest active code is a row of the table, and active.
pub latest_active_otp-Has :
    (now rm : ℕ) (c : Console) (code : OtpCode)
    → latest_active_otp now rm c ≡ some code
    → Has code c.otp_codes × (is_active now rm code ≡ true)
unfolding latest_active_otp
latest_active_otp-Has now rm c code e =
    Has-select (is_active now rm) code c.otp_codes (newest-Has _ code e)

insert_refresh_token-IsSound :
    (rm : ℕ) (h : Text) (expires_at : ℕ) (c after : Console) (u : Unit {0})
    → insert_refresh_token rm h expires_at c ≡ some (after, u)
    → IsSound c
    → IsSound after × (after.otp_codes ≡ c.otp_codes)
unfolding insert_refresh_token
insert_refresh_token-IsSound rm h expires_at c after u e s =
    let kept : after.otp_codes ≡ c.otp_codes = ground arith in
    let id : after.next_id ≡ c.next_id + 1 = ground arith in
    (
      record {
        fresh =
            rw (kept, id) (Below-mono c.next_id (c.next_id + 1) c.otp_codes (omega arith) s.fresh);
        single = rw kept s.single;
        capped = rw kept s.capped;
      },
      kept,
    )

-- Once its one open code is consumed, a staff member has no open code.
shut_by_consume :
    (now n : ℕ) (code : OtpCode) (codes : List OtpCode)
    → Below n codes
    → IsSingle codes
    → Has code codes
    → is_null code.consumed_at ≡ true
    → All
        (λ (d : OtpCode). d.rm_id ≡ code.rm_id → is_null d.consumed_at ≡ false)
        (change (λ (o : OtpCode). (o.id == code.id) && is_null o.consumed_at) (consumed now) codes)
shut_by_consume now n code [] b s h unspent = tt
shut_by_consume now n code (c ∷ rest) b s (inl e) unspent = (
  (λ _. ground (arith, e)),
  change-shut _ (consumed now) (consumed-OnlyShuts now) code.rm_id rest (
      subst
        (λ (o : OtpCode).
          All (λ (d : OtpCode). d.rm_id ≡ o.rm_id → is_null d.consumed_at ≡ false) rest)
        e (s.0 (ap (λ (o : OtpCode). is_null o.consumed_at) e ∙ unspent))),
)
shut_by_consume now n code (c ∷ rest) b s (inr h) unspent = (
  (λ same. spent (ground arith) (is_null c.consumed_at) refl),
  shut_by_consume now c.id code rest b.1 s.1 h unspent,
)
  where
    spent :
        c.rm_id ≡ code.rm_id
        → (v : Bool) → is_null c.consumed_at ≡ v
        → is_null
            (if (c.id == code.id) && is_null c.consumed_at then consumed now c else c).consumed_at
          ≡ false
    spent same false e = ground arith
    spent same true e = absurd (
        ground (
          arith,
          All-Has (λ (d : OtpCode). d.rm_id ≡ c.rm_id → is_null d.consumed_at ≡ false) rest code
              (s.0 e) h,
        ))

no_active :
    (now rm : ℕ) (codes : List OtpCode)
    → All (λ (d : OtpCode). d.rm_id ≡ rm → is_null d.consumed_at ≡ false) codes
    → newest (select (is_active now rm) codes) ≡ none
unfolding newest
no_active now rm [] h = refl
no_active now rm (c ∷ rest) h = ground (arith, h.0, no_active now rm rest h.1)

-- What is true of the tables before is true after, for each way a VerifyOTP ends.
module _ (env : Env) (now : ℕ) (identifier given : Text) (before : Console)
    (s : IsSound before) where
  Opened-IsSound :
      (p : TokenPair) (after : Console)
      → Opened env now identifier given before p after
      → IsSound after
  Opened-IsSound p after (a, hit, who, signed, stored) =
      (insert_refresh_token-IsSound _ _ _ _ after tt stored
        (consume-IsSound now a.code.id before s)).0

  Refused-IsSound :
      (e : Error) (after : Console)
      → Refused env now identifier given before e after
      → IsSound after
  Refused-IsSound e after (inl (same, why)) = rw same s
  Refused-IsSound e after (inr (a, inl (hit, same))) =
      rw same (consume-IsSound now a.code.id before s)
  Refused-IsSound e after (inr (a, inr (miss, why, named, same))) = rw same (
      increment-IsSound a.code before
        (latest_active_otp-Has now a.staff.id before a.code a.latest).0 a.room s)

  Opened-single_use :
      (p : TokenPair) (after : Console) (later : ℕ)
      → Opened env now identifier given before p after
      → latest_active_otp later p.rm.id after ≡ none
  unfolding latest_active_otp consume_otp
  Opened-single_use p after later (a, hit, who, signed, stored) =
      let kept =
        (insert_refresh_token-IsSound _ _ _ _ after tt stored
          (consume-IsSound now a.code.id before s)).1 in
      let row = latest_active_otp-Has now a.staff.id before a.code a.latest in
      let mine : p.rm.id ≡ a.code.rm_id = ground (arith, row.1, ap (λ (r : Public). r.id) who) in
      rw (kept, mine)
        (no_active later a.code.rm_id _ (
          shut_by_consume now before.next_id a.code before.otp_codes s.fresh s.single row.0
            (ground (arith, row.1))))

-- The code that a guess is wrong about, if the guess is one to be tried.
abbrev wrong_about : Env → Text → Option OtpCode → Option OtpCode
wrong_about env given none = none
wrong_about env given (some code) =
    if leb otp_max_attempts code.attempts || text_eq (env.hash (trim_space given)) code.code_hash
    then none
    else some code

abbrev wrong_for : Env → ℕ → Text → Console → Option StaffUser → Option OtpCode
wrong_for env now given c none = none
wrong_for env now given c (some s) =
    if text_eq s.status status_active
    then wrong_about env given (latest_active_otp now s.id c)
    else none

unfoldable pub wrong_guess : Env → ℕ → Text → Text → Console → Option OtpCode
wrong_guess env now identifier given c =
    if is_empty (trim_space identifier) || is_empty (trim_space given)
    then none
    else wrong_for env now given c (get_by_identifier (trim_space identifier) c.staff)

module _ (env : Env) (now : ℕ) (identifier given : Text) (before : Console) where
  -- A wrong guess is counted on its code, unless a statement failed and nothing changed.
  abbrev pub IsCounted : Error → Console → Type 0
  IsCounted e after =
      (wrong_guess env now identifier given before ≡ none)
      ⊎ ((e ≡ store_failure) × (after ≡ before))
      ⊎ ((code : OtpCode) × (wrong_guess env now identifier given before ≡ some code)
          × (e ≡ unauthorized "invalid code")
          × (after ≡ increment_otp_attempts code.id before))

  unheard : (b : Bool) → (let o : Option OtpCode = if b then none else none in o) ≡ none
  unheard true = refl
  unheard false = refl

  worn :
      (b c : Bool) (o : Option OtpCode)
      → c ≡ true
      → (if b then (if c then none else o) else none) ≡ none
  worn true true o h = refl
  worn false c o h = refl
  worn true false o h = cc

  wrong_for-none :
      wrong_for env now given before (get_by_identifier (trim_space identifier) before.staff) ≡ none
      → wrong_guess env now identifier given before ≡ none
  unfolding wrong_guess
  wrong_for-none h = split (is_empty (trim_space identifier) || is_empty (trim_space given))
    where
      split :
          (b : Bool)
          → (if b
              then none
              else wrong_for env now given before
                  (get_by_identifier (trim_space identifier) before.staff))
            ≡ none
      split true = refl
      split false = h

  hit-wrong_guess :
      (a : Attempt now identifier before)
      → matches env now identifier given before a ≡ true
      → wrong_guess env now identifier given before ≡ none
  hit-wrong_guess a hit = wrong_for-none (rw (a.found, a.active, a.latest) (ground (arith, hit)))

  Refused-IsCounted :
      (e : Error) (after : Console)
      → Refused env now identifier given before e after
      → IsCounted e after
  unfolding wrong_guess
  Refused-IsCounted e after (inl (same, inl failed)) = inr (inl (failed, same))
  Refused-IsCounted e after (inl (same, inr (inl (why, blank)))) = inl (rw blank refl)
  Refused-IsCounted e after (inl (same, inr (inr (inl (why, missing))))) =
      inl (wrong_for-none (rw missing refl))
  Refused-IsCounted e after (inl (same, inr (inr (inr (s, found, inl (why, off)))))) =
      inl (wrong_for-none (rw (found, off) refl))
  Refused-IsCounted e after (inl (same, inr (inr (inr (s, found, inr (inl (why, gone))))))) =
      inl (wrong_for-none (rw (found, gone) (unheard (text_eq s.status status_active))))
  Refused-IsCounted e after
        (inl (same, inr (inr (inr (s, found, inr (inr (why, code, latest, full))))))) =
      inl (
        wrong_for-none (
          rw (found, latest)
            (worn (text_eq s.status status_active)
              (leb otp_max_attempts code.attempts
                || text_eq (env.hash (trim_space given)) code.code_hash)
              (some code) (ground arith))))
  Refused-IsCounted e after (inr (a, inl (hit, same))) = inl (hit-wrong_guess a hit)
  Refused-IsCounted e after (inr (a, inr (miss, why, named, same))) = inr (
      inr
        (a.code, rw (named, a.found, a.active, a.latest) (ground (arith, miss, a.room)), why, same))

-- A code opens one session. From sound tables a VerifyOTP leaves sound tables on every branch: at most
-- one open code for each staff member, and none with more than five counted guesses. After a login the
-- staff member has no active code, at whatever time, so the code cannot be used again. It opens no session
-- on a wrong guess, and counts each on its code when it refuses it, unless a statement failed.
pub verify_otp-IsSound :
    (env : Env) (now later : ℕ) (identifier given : Text) (w : World Console)
    → IsSound w.tables
    → Ends
        (λ p after.
          IsSound after
          × (latest_active_otp later p.rm.id after ≡ none)
          × (wrong_guess env now identifier given w.tables ≡ none))
        (λ e after. IsSound after × IsCounted env now identifier given w.tables e after)
        (verify_otp env now identifier given w)
verify_otp-IsSound env now later identifier given w s =
    Ends-map
      {P' = λ p after.
        IsSound after
        × (latest_active_otp later p.rm.id after ≡ none)
        × (wrong_guess env now identifier given w.tables ≡ none)}
      {Q' = λ e after. IsSound after × IsCounted env now identifier given w.tables e after}
      (verify_otp env now identifier given w)
      (λ p t o. (
        Opened-IsSound env now identifier given w.tables s p t o,
        Opened-single_use env now identifier given w.tables s p t later o,
        hit-wrong_guess env now identifier given w.tables o.0 o.1,
      ))
      (λ e t r. (
        Refused-IsSound env now identifier given w.tables s e t r,
        Refused-IsCounted env now identifier given w.tables e t r,
      ))
      (verify_otp-Ends env now identifier given w)

-- From sound tables a SendOTP leaves sound tables on every branch, so the code that it stores is the
-- one open code of its staff member.
pub send_otp-IsSound :
    (env : Env) (now : ℕ) (identifier : Text) (w : World Console)
    → IsSound w.tables
    → Ends (λ _ after. IsSound after) (λ _ after. IsSound after) (send_otp env now identifier w)
send_otp-IsSound env now identifier w s =
    Ends-map _ (λ r t a. answered r t a) (λ e t a. unanswered e t a)
      (send_otp-Ends env now identifier w)
  where
    answered : (r : OtpSent) (t : Console) → Answered env now identifier w.tables r t → IsSound t
    answered r t (inl (nobody, same, tables)) = rw tables s
    answered r t (inr (staff, phone, code, owed, same, tables)) =
        rw tables (create-IsSound now staff.id _ _ _ (invalidate-IsReady now staff.id w.tables s))

    unanswered : (e : Error) (t : Console) → Unanswered env now identifier w.tables e t → IsSound t
    unanswered e t (inl same) = rw same s
    unanswered e t (inr (staff, phone, owed, same)) =
        rw same (invalidate-IsReady now staff.id w.tables s).sound
