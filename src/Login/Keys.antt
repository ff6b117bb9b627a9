-- ===== src/Login/Keys.antt =====
-- Invariants of the login tables (internal/service/rmauth.go): at most one open code for each staff
-- member, and no code with more wrong guesses than rmOTPMaxAttempts.
use astra_backend.Prelude.{
  ℕ, ◌≤◌, ◌<◌, ◌≡◌, refl, sym, subst, Bool, true, false, List, [], ◌∷◌, arith, Text, ◌==◌,
  if◌then◌else◌, All, All-map, All-Has, Has, inl, inr, ap, change,
}
use astra_backend.Auth.{
  OtpCode, Console, is_null, is_open, tried, consumed, otp_max_attempts, create_otp,
  increment_otp_attempts, consume_otp, invalidate_otps,
}

-- `c` is open, and no code of its staff member behind it is.
abbrev pub ShutsRest : OtpCode → List OtpCode → Type 0
ShutsRest c rest =
    is_null c.consumed_at ≡ true
    → All (λ (d : OtpCode). d.rm_id ≡ c.rm_id → is_null d.consumed_at ≡ false) rest

abbrev pub IsSingle : List OtpCode → Type 0
IsSingle [] = Unit
IsSingle (c ∷ rest) = ShutsRest c rest × IsSingle rest

abbrev pub IsCapped : List OtpCode → Type 0
IsCapped = All (λ (c : OtpCode). c.attempts ≤ otp_max_attempts)

-- The ids fall along the list and stay below the next one.
abbrev pub Below : ℕ → List OtpCode → Type 0
Below n [] = Unit
Below n (c ∷ rest) = (c.id < n) × Below c.id rest

pub record IsSound (c : Console) : Type 0 where
  pub fresh : Below c.next_id c.otp_codes
  pub single : IsSingle c.otp_codes
  pub capped : IsCapped c.otp_codes

pub Below-mono : (m n : ℕ) (codes : List OtpCode) → m ≤ n → Below m codes → Below n codes
Below-mono m n [] h b = tt
Below-mono m n (c ∷ rest) h b = (omega arith, b.1)

Below-All : (n : ℕ) (codes : List OtpCode) → Below n codes → All (λ (c : OtpCode). c.id < n) codes
Below-All n [] b = tt
Below-All n (c ∷ rest) b = (b.0, Below-All n rest (Below-mono c.id n rest (omega arith) b.1))

-- An id belongs to one row.
pub All-Below-unique :
    (n : ℕ) (codes : List OtpCode) (code : OtpCode)
    → Below n codes
    → Has code codes
    → All (λ (c : OtpCode). c.id ≡ code.id → c ≡ code) codes
All-Below-unique n [] code b h = tt
All-Below-unique n (c ∷ rest) code b (inl e) = (
  (λ _. e),
  All-map _ _ rest (λ r below same. absurd (grind (arith, ap (λ (o : OtpCode). o.id) e)))
      (Below-All c.id rest b.1),
)
All-Below-unique n (c ∷ rest) code b (inr h) = (
  (λ same. absurd (
      omega (arith, All-Has (λ (r : OtpCode). r.id < c.id) rest code (Below-All c.id rest b.1) h))),
  All-Below-unique c.id rest code b.1 h,
)

-- A change that consumes codes, or leaves them open as they are.
abbrev OnlyShuts : (OtpCode → OtpCode) → Type 0
OnlyShuts f =
    (c : OtpCode)
    → ((f c).id ≡ c.id)
      × ((f c).rm_id ≡ c.rm_id)
      × ((is_null (f c).consumed_at ≡ true) → is_null c.consumed_at ≡ true)

module _ (p : OtpCode → Bool) (f : OtpCode → OtpCode) (shuts : OnlyShuts f) where
  pub change-shut :
      (rm : ℕ) (codes : List OtpCode)
      → All (λ (d : OtpCode). d.rm_id ≡ rm → is_null d.consumed_at ≡ false) codes
      → All (λ (d : OtpCode). d.rm_id ≡ rm → is_null d.consumed_at ≡ false) (change p f codes)
  change-shut rm [] h = tt
  change-shut rm (c ∷ rest) h = (λ e. ground (arith, h.0, shuts c), change-shut rm rest h.1)

  kept : OnlyShuts (λ c. if p c then f c else c)
  kept c = ground (arith, shuts c)

  change-Below : (n : ℕ) (codes : List OtpCode) → Below n codes → Below n (change p f codes)
  change-Below n [] h = tt
  change-Below n (c ∷ rest) h = (
    omega (arith, (kept c).0, h.0),
    subst (λ (id : ℕ). Below id (change p f rest)) (sym (kept c).0) (change-Below c.id rest h.1),
  )

  change-IsSingle : (codes : List OtpCode) → IsSingle codes → IsSingle (change p f codes)
  change-IsSingle [] h = tt
  change-IsSingle (c ∷ rest) h = (
    (λ e.
        subst
          (λ (rm : ℕ).
            All (λ (d : OtpCode). d.rm_id ≡ rm → is_null d.consumed_at ≡ false) (change p f rest))
          (sym (kept c).1) (change-shut c.rm_id rest (h.0 ((kept c).2 e)))),
    change-IsSingle rest h.1,
  )

invalidated-shut :
    (now rm : ℕ) (codes : List OtpCode)
    → All
        (λ (d : OtpCode). d.rm_id ≡ rm → is_null d.consumed_at ≡ false)
        (change (is_open rm) (consumed now) codes)
invalidated-shut now rm [] = tt
invalidated-shut now rm (c ∷ rest) = (λ e. ground arith, invalidated-shut now rm rest)

change-IsCapped :
    (p : OtpCode → Bool) (now : ℕ) (codes : List OtpCode)
    → IsCapped codes
    → IsCapped (change p (consumed now) codes)
change-IsCapped p now [] h = tt
change-IsCapped p now (c ∷ rest) h = (ground (arith, h.0), change-IsCapped p now rest h.1)

pub consumed-OnlyShuts : (now : ℕ) → OnlyShuts (consumed now)
consumed-OnlyShuts now c = (refl, refl, (λ e. cc))

tried-OnlyShuts : OnlyShuts tried
tried-OnlyShuts c = (refl, refl, (λ e. e))

pub consume-IsSound : (now id : ℕ) (c : Console) → IsSound c → IsSound (consume_otp now id c)
unfolding consume_otp
consume-IsSound now id c h = record {
  fresh = change-Below _ (consumed now) (consumed-OnlyShuts now) c.next_id c.otp_codes h.fresh;
  single = change-IsSingle _ (consumed now) (consumed-OnlyShuts now) c.otp_codes h.single;
  capped = change-IsCapped _ now c.otp_codes h.capped;
}

-- What holds between the two statements of a dispatch: no code of the staff member is open.
pub record IsReady (rm : ℕ) (c : Console) : Type 0 where
  pub sound : IsSound c
  pub shut : All (λ (d : OtpCode). d.rm_id ≡ rm → is_null d.consumed_at ≡ false) c.otp_codes

pub invalidate-IsReady :
    (now rm : ℕ) (c : Console) → IsSound c → IsReady rm (invalidate_otps now rm c)
unfolding invalidate_otps
invalidate-IsReady now rm c h = record {
  sound = record {
    fresh = change-Below _ (consumed now) (consumed-OnlyShuts now) c.next_id c.otp_codes h.fresh;
    single = change-IsSingle _ (consumed now) (consumed-OnlyShuts now) c.otp_codes h.single;
    capped = change-IsCapped _ now c.otp_codes h.capped;
  };
  shut = invalidated-shut now rm c.otp_codes;
}

pub create-IsSound :
    (now rm : ℕ) (code_hash : Text) (expires_at : ℕ) (c : Console)
    → IsReady rm c
    → IsSound (create_otp now rm code_hash expires_at c)
unfolding create_otp
create-IsSound now rm code_hash expires_at c h = record {
  fresh = (omega arith, h.sound.fresh);
  single = ((λ _. h.shut), h.sound.single);
  capped = (omega arith, h.sound.capped);
}

-- A guess is counted on a code that has guesses left.
pub increment-IsSound :
    (code : OtpCode) (c : Console)
    → Has code c.otp_codes
    → code.attempts < otp_max_attempts
    → IsSound c
    → IsSound (increment_otp_attempts code.id c)
unfolding increment_otp_attempts
increment-IsSound code c at room h = record {
  fresh = change-Below _ tried tried-OnlyShuts c.next_id c.otp_codes h.fresh;
  single = change-IsSingle _ tried tried-OnlyShuts c.otp_codes h.single;
  capped = counted c.otp_codes h.capped (All-Below-unique c.next_id c.otp_codes code h.fresh at);
}
  where
    counted :
        (codes : List OtpCode)
        → IsCapped codes
        → All (λ (o : OtpCode). o.id ≡ code.id → o ≡ code) codes
        → IsCapped (change (λ o. o.id == code.id) tried codes)
    counted [] h u = tt
    counted (o ∷ rest) h u = (ground (arith, h.0, u.0), counted rest h.1 u.1)
