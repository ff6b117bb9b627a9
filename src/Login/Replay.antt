-- ===== src/Login/Replay.antt =====
-- How Refresh of internal/service/rmauth.go ends, with RotateRefreshToken of
-- internal/repository/rm_repo.go.
use astra_backend.Prelude.{
  ℕ, ◌+◌, ◌≤◌, ◌≡◌, refl, sym, true, false, ◌⊎◌, inl, inr, Option, none, some, List, [], ◌∷◌, arith,
  Text, text_eq, first, first-some, ◌==◌, change, subst, Option-cases, Bool-cases, text_eq_iff,
}
use astra_backend.Store.{
  Error, store_failure, no_rows, Result, ok, err, World, pure, ◌>>=◌, write_returning,
  write_checked, or_raise,
}
use astra_backend.Store.Laws.{
  Ends, Ends-map, bind_step, read_step, write_returning_step, write_checked_step, transaction-Ends,
}
use astra_backend.Store.Guards.{raise_if_step, or_raise_step, random_text_step}
use astra_backend.Desk.{StaffUser, find_staff, status_active}
use astra_backend.Staff.{public_of}
use astra_backend.Auth.{
  RefreshToken, Console, Env, refresh_token_ttl, is_live, has_hash, is_null, revoked,
  take_refresh_token, insert_refresh_token, missing, rotate_refresh_token,
}
use astra_backend.Login.{TokenPair, refresh}

-- One live token went out and one came in, for the same staff member.
pub record Rotated (now : ℕ) (old new : Text) (expires_at : ℕ) (before : Console) (rm : ℕ)
    (after : Console) : Type 0 where
  pub token : RefreshToken
  pub live : first (is_live now old) before.refresh_tokens ≡ some token
  pub owner : rm ≡ token.rm_id
  pub stored :
      insert_refresh_token rm new expires_at (take_refresh_token now old before).0
      ≡ some (after, tt)

taken-none :
    (now : ℕ) (h : Text) (c : Console)
    → (take_refresh_token now h c).1 ≡ none
    → first (is_live now h) c.refresh_tokens ≡ none
unfolding take_refresh_token
taken-none now h c e = elim (Option-cases (first (is_live now h) c.refresh_tokens)) [
  | inl n ↦ n
  | inr (t, n) ↦ absurd (ground (arith, n))
]

taken-some :
    (now rm : ℕ) (h : Text) (c : Console)
    → (take_refresh_token now h c).1 ≡ some rm
    → (t : RefreshToken) × (first (is_live now h) c.refresh_tokens ≡ some t) × (rm ≡ t.rm_id)
unfolding take_refresh_token
taken-some now rm h c e = elim (Option-cases (first (is_live now h) c.refresh_tokens)) [
  | inl n ↦ absurd (ground (arith, n))
  | inr (t, n) ↦ (t, n, ground (arith, n))
]

module _ (now : ℕ) (old new : Text) (expires_at : ℕ) (before : Console) where
  -- How the transaction fails: a lost connection or a constraint, or no live token.
  abbrev Failed : Error → Type 0
  Failed e =
      (e ≡ store_failure) ⊎ ((e ≡ no_rows) × (first (is_live now old) before.refresh_tokens ≡ none))

  abbrev pub Found : Option ℕ → Console → Type 0
  Found none after = (after ≡ before) × (first (is_live now old) before.refresh_tokens ≡ none)
  Found (some rm) after = Rotated now old new expires_at before rm after

  body-Ends :
      (w : World Console)
      → w.tables ≡ before
      → Ends
          (Rotated now old new expires_at before)
          (λ e _. Failed e)
          ((write_returning (take_refresh_token now old) >>= λ taken.
              or_raise taken no_rows >>= λ rm.
              write_checked (insert_refresh_token rm new expires_at) >>= λ _. pure rm)
            w)
  unfolding pure
  body-Ends w same =
      let R = Ends (Rotated now old new expires_at before) (λ e _. Failed e) in
      write_returning_step R w (take_refresh_token now old) _ (λ _. inl refl)
        λ fs.
          or_raise_step R _ _ no_rows _ (λ e. inr (refl, taken-none now old before (rw same at e)))
            λ rm e.
              write_checked_step R _ (insert_refresh_token rm new expires_at) _ (λ _. inl refl)
                λ fs' t u s.
                  let t' = taken-some now rm old before (rw same at e) in
                  record { token = t'.0; live = t'.1; owner = t'.2; stored = rw same at s }

  missing-Ends :
      (r : Result ℕ × World Console)
      → Ends (Rotated now old new expires_at before) (λ e t. Failed e × (t ≡ before)) r
      → Ends Found (λ e t. t ≡ before) (missing r)
  missing-Ends (ok rm, w) h = h
  missing-Ends (err e, w) (inl lost, same) =
      subst (λ (e : Error). Ends Found (λ e t. t ≡ before) (missing (err e, w))) (sym lost) same
  missing-Ends (err e, w) (inr (none_live, absent), same) =
      subst (λ (e : Error). Ends Found (λ e t. t ≡ before) (missing (err e, w))) (sym none_live)
        (same, absent)

-- RotateRefreshToken revokes the live token of the old hash and stores the new one for the same staff
-- member, or finds no live token, or fails; in the last two cases the tables are as before.
pub rotate_refresh_token-Ends :
    (now : ℕ) (old new : Text) (expires_at : ℕ) (w : World Console)
    → Ends
        (Found now old new expires_at w.tables)
        (λ _ after. after ≡ w.tables)
        (rotate_refresh_token now old new expires_at w)
unfolding rotate_refresh_token
rotate_refresh_token-Ends now old new expires_at w =
    missing-Ends now old new expires_at w.tables _ (
      transaction-Ends (Rotated now old new expires_at w.tables)
        (Failed now old new expires_at w.tables) _ w (inl refl)
        (λ fs. body-Ends now old new expires_at w.tables (record w { faults = fs }) refl))

find_staff-id :
    (id : ℕ) (staff : List StaffUser) (s : StaffUser) → find_staff id staff ≡ some s → s.id ≡ id
find_staff-id id staff s e =
    ground (arith, (first-some (λ (r : StaffUser). r.id == id) staff s e).1)

module _ (env : Env) (now : ℕ) (token : Text) (before : Console) where
  abbrev pub Traded : Text → ℕ → Console → Type 0
  Traded fresh rm after =
      Rotated now (env.hash token) (env.hash fresh) (now + refresh_token_ttl) before rm after

  abbrev pub Renewed : TokenPair → Console → Type 0
  Renewed p after =
      (s : StaffUser) × Traded p.refresh_token s.id after
      × (find_staff s.id after.staff ≡ some s)
      × (text_eq s.status status_active ≡ true)
      × (p.rm ≡ public_of s)
      × (some p.access_token ≡ env.sign s.id s.role now)

  -- Nothing changed, or the token was traded for one that is not given out.
  abbrev pub Stranded : Error → Console → Type 0
  Stranded e after = (after ≡ before) ⊎ ((fresh : Text) × (rm : ℕ) × Traded fresh rm after)

-- What Refresh does, on every branch. It succeeds only with a live token of an active staff member,
-- and then that token is revoked and the new one is stored, by its hash, for the same staff member.
-- On an error nothing changed, or the old token is revoked and the new one, stored in its place, is
-- not given out: the rotation is committed before the staff member is looked up and the access token
-- is signed.
pub refresh-Ends :
    (env : Env) (now : ℕ) (token : Text) (w : World Console)
    → Ends
        (Renewed env now token w.tables)
        (Stranded env now token w.tables)
        (refresh env now token w)
unfolding refresh pure
refresh-Ends env now token w =
    let R = Ends (Renewed env now token w.tables) (Stranded env now token w.tables) in
    raise_if_step R w _ _ _ (λ _. inl refl)
      λ _.
        random_text_step R w _ (λ _. inl refl)
          λ fresh es.
            bind_step
              (Found now (env.hash token) (env.hash fresh) (now + refresh_token_ttl) w.tables)
              (λ _ after. after ≡ w.tables) R _ _ (record w { entropy = es })
              (rotate_refresh_token-Ends now (env.hash token) (env.hash fresh)
                (now + refresh_token_ttl) _)
              (λ rotated w' found.
                or_raise_step R w' rotated _ _
                  (λ e.
                    inl
                      (subst
                        (λ (o : Option ℕ).
                          Found now (env.hash token) (env.hash fresh) (now + refresh_token_ttl)
                            w.tables o w'.tables)
                        e found).0)
                  λ rm e.
                    let traded : Traded env now token w.tables fresh rm w'.tables =
                      subst
                        (λ (o : Option ℕ).
                          Found now (env.hash token) (env.hash fresh) (now + refresh_token_ttl)
                            w.tables o w'.tables)
                        e found in
                    read_step R w' _ _ (λ _. inr (fresh, rm, traded))
                      λ fs.
                        or_raise_step R _ _ _ _ (λ _. inr (fresh, rm, traded))
                          λ s known.
                            raise_if_step R _ _ _ _ (λ _. inr (fresh, rm, traded))
                              λ on.
                                or_raise_step R _ _ _ _ (λ _. inr (fresh, rm, traded))
                                  λ access signed.
                                    let who = find_staff-id rm w'.tables.staff s known in
                                    (
                                      s,
                                      subst
                                          (λ (id : ℕ).
                                            Traded env now token w.tables fresh id w'.tables)
                                          (sym who) traded,
                                      subst (λ (id : ℕ). find_staff id w'.tables.staff ≡ some s)
                                          (sym who) known,
                                      ground arith,
                                      refl,
                                      sym signed,
                                    ))
              (λ e w' same. inl same)

-- No token with this hash is live at a time.
abbrev pub IsDead : ℕ → Text → Console → Type 0
IsDead later h c = first (is_live later h) c.refresh_tokens ≡ none

-- A token that was live and is revoked stays dead.
revoked-dead :
    (now later : ℕ) (h : Text) (tokens : List RefreshToken)
    → now ≤ later
    → first (is_live later h) (change (is_live now h) (revoked now) tokens) ≡ none
revoked-dead now later h [] le = refl
revoked-dead now later h (t ∷ rest) le = ground (arith, revoked-dead now later h rest le)

-- The table has one row for each hash, so the new one differs from that of the token that came in.
unknown-dead :
    (now : ℕ) (h : Text) (tokens : List RefreshToken)
    → first (has_hash h) (change (is_live now h) (revoked now) tokens) ≡ none
    → first (is_live now h) tokens ≡ none
unknown-dead now h [] absent = refl
unknown-dead now h (r ∷ rest) absent = ground (arith, unknown-dead now h rest)

new_hash-ne :
    (now : ℕ) (old new : Text) (tokens : List RefreshToken) (t : RefreshToken)
    → first (has_hash new) (change (is_live now old) (revoked now) tokens) ≡ none
    → first (is_live now old) tokens ≡ some t
    → text_eq new old ≡ false
new_hash-ne now old new tokens t absent live = elim (Bool-cases (text_eq new old)) [
  | inl e ↦
      let same : new ≡ old = (text_eq_iff new old).0 e in
      absurd (
        ground (
          arith,
          live,
          unknown-dead now old tokens (
              subst
                (λ (h : Text).
                  first (has_hash h) (change (is_live now old) (revoked now) tokens) ≡ none)
                same absent),
        ))
  | inr e ↦ e
]

first_is_null : {A : Type 0} (o : Option A) → is_null o ≡ true → o ≡ none
first_is_null none e = refl
first_is_null (some a) e = absurd (ground arith)

Rotated-dead :
    (now later : ℕ) (old new : Text) (expires_at : ℕ) (before : Console) (rm : ℕ) (after : Console)
    → now ≤ later
    → Rotated now old new expires_at before rm after
    → first (is_live later old) after.refresh_tokens ≡ none
unfolding insert_refresh_token take_refresh_token
Rotated-dead now later old new expires_at before rm after le r =
    let tokens = change (is_live now old) (revoked now) before.refresh_tokens in
    let absent : first (has_hash new) tokens ≡ none = first_is_null _ (ground (arith, r.stored)) in
    ground (
      arith,
      r.stored,
      revoked-dead now later old before.refresh_tokens le,
      new_hash-ne now old new before.refresh_tokens r.token absent r.live,
    )

-- A refresh token is used at most once. After a Refresh that gave a new pair, or that failed behind
-- the rotation, the token that came in is not live then or at any later time; on any other error
-- nothing changed.
pub refresh-no_replay :
    (env : Env) (now later : ℕ) (token : Text) (w : World Console)
    → now ≤ later
    → Ends
        (λ _ after. IsDead later (env.hash token) after)
        (λ _ after. (after ≡ w.tables) ⊎ IsDead later (env.hash token) after)
        (refresh env now token w)
refresh-no_replay env now later token w le =
    Ends-map {P' = λ _ after. IsDead later (env.hash token) after}
      {Q' = λ _ after. (after ≡ w.tables) ⊎ IsDead later (env.hash token) after} _
      (λ p t r. Rotated-dead now later _ _ _ w.tables r.0.id t le r.1) stranded
      (refresh-Ends env now token w)
  where
    stranded :
        (e : Error) (t : Console)
        → Stranded env now token w.tables e t
        → (t ≡ w.tables) ⊎ IsDead later (env.hash token) t
    stranded e t (inl same) = inl same
    stranded e t (inr (fresh, rm, traded)) =
        inr (Rotated-dead now later _ _ _ w.tables rm t le traded)
