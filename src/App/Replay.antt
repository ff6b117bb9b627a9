-- ===== src/App/Replay.antt =====
-- internal/handler/auth.go: how Refresh of the app ends, with RotateRefreshToken of
-- internal/repository/user_repo.go.
use astra_backend.Prelude.{
  String, ℕ, suc, ◌+◌, ◌≤◌, ◌≡◌, refl, sym, ap, subst, ◌∙◌, ◌⊎◌, inl, inr, Bool, true, false, not,
  ◌&&◌, Option, none, some, List, [], ◌∷◌, arith, Text, text_eq, text_eq_iff, is_empty, first,
  change, if◌then◌else◌,
}
use astra_backend.Store.{
  Error, store_failure, no_rows, failure, Result, err, World, Call, pure, raise, ◌>>=◌, or_raise,
  write_returning, write_checked, random_text, draw,
}
use astra_backend.Store.Laws.{
  Ends, bind_step, attempt_step, write_returning_step, write_checked_step, transaction-Ends,
}
use astra_backend.Store.Guards.{raise_if_step, or_raise_step}
use astra_backend.App.{
  App, AppToken, is_there, person_of, is_live, revoked, take_token, insert_token, or_absent,
  rotate_refresh_token,
}
use astra_backend.App.Session.{Service, Tokens, refresh_token_ttl, answering_500, refresh}

module _ (now : ℕ) (old : Text) (before : App) where
  -- One live token of the old hash went out, and one of the new hash came in for the same user.
  abbrev pub Rotated : Text → ℕ → ℕ → App → Type 0
  Rotated new expires_at user after =
      (token : AppToken) × (first (is_live now old) before.tokens ≡ some token)
      × (token.user_id ≡ user)
      × (insert_token user new expires_at (take_token now old before).0 ≡ some (after, tt))

  taken-user :
      (user : ℕ)
      → (take_token now old before).1 ≡ some user
      → (token : AppToken) × (first (is_live now old) before.tokens ≡ some token)
        × (token.user_id ≡ user)
  unfolding take_token
  taken-user user e = split (first (is_live now old) before.tokens) refl e
    where
      split :
          (o : Option AppToken)
          → first (is_live now old) before.tokens ≡ o
          → (elim o as (λ _. Option ℕ) [ none ↦ none | some t ↦ some t.user_id ]) ≡ some user
          → (token : AppToken) × (first (is_live now old) before.tokens ≡ some token)
            × (token.user_id ≡ user)
      split none h k = cc
      split (some t) h k = (t, h, cc)

  taken-none : (take_token now old before).1 ≡ none → first (is_live now old) before.tokens ≡ none
  unfolding take_token
  taken-none e = split (first (is_live now old) before.tokens) refl e
    where
      split :
          (o : Option AppToken)
          → first (is_live now old) before.tokens ≡ o
          → (elim o as (λ _. Option ℕ) [ none ↦ none | some t ↦ some t.user_id ]) ≡ none
          → first (is_live now old) before.tokens ≡ none
      split none h k = h
      split (some t) h k = cc

  abbrev Failed : Error → Type 0
  Failed e = (e ≡ store_failure) ⊎ ((e ≡ no_rows) × (first (is_live now old) before.tokens ≡ none))

  -- A user whose token was traded, or no live token and nothing changed.
  abbrev Taken : Text → ℕ → Option ℕ → App → Type 0
  Taken new expires_at none after =
      (after ≡ before) × (first (is_live now old) before.tokens ≡ none)
  Taken new expires_at (some user) after = Rotated new expires_at user after

  body-Ends :
      (new : Text) (expires_at : ℕ) (w : World App)
      → w.tables ≡ before
      → Ends
          (Rotated new expires_at)
          (λ e _. Failed e)
          ((write_returning (take_token now old) >>= λ taken. or_raise taken no_rows >>= λ id.
              write_checked (insert_token id new expires_at) >>= λ _. pure id)
            w)
  unfolding pure
  body-Ends new expires_at w same =
      let R = Ends (Rotated new expires_at) (λ e _. Failed e) in
      write_returning_step R w (take_token now old) _ (λ _. inl refl)
        λ fs.
          or_raise_step R _ _ no_rows _
            (λ e.
              inr (refl, taken-none (ap (λ (t : App). (take_token now old t).1) (sym same) ∙ e)))
            λ id e.
              write_checked_step R _ (insert_token id new expires_at) _ (λ _. inl refl)
                λ fs' t u s.
                  let found =
                    taken-user id (ap (λ (t : App). (take_token now old t).1) (sym same) ∙ e) in
                  (
                    found.0,
                    found.1,
                    found.2,
                    ap (λ (t : App). insert_token id new expires_at (take_token now old t).0)
                          (sym same)
                        ∙ s,
                  )

  or_absent-Ends :
      (new : Text) (expires_at : ℕ) (e : Error) (w : World App)
      → Failed e
      → w.tables ≡ before
      → Ends (Taken new expires_at) (λ _ t. t ≡ before) (or_absent (err e) w)
  unfolding pure raise
  or_absent-Ends new expires_at e w (inl lost) same =
      subst (λ (x : Error). Ends (Taken new expires_at) (λ _ t. t ≡ before) (or_absent (err x) w))
        (sym lost) same
  or_absent-Ends new expires_at e w (inr (gone, dead)) same =
      subst (λ (x : Error). Ends (Taken new expires_at) (λ _ t. t ≡ before) (or_absent (err x) w))
        (sym gone) (same, dead)

rotate-Ends :
    (now : ℕ) (old new : Text) (expires_at : ℕ) (w : World App)
    → Ends
        (Taken now old w.tables new expires_at)
        (λ _ t. t ≡ w.tables)
        (rotate_refresh_token now old new expires_at w)
unfolding rotate_refresh_token pure
rotate-Ends now old new expires_at w =
    attempt_step (Rotated now old w.tables new expires_at)
      (λ e t. Failed now old w.tables e × (t ≡ w.tables))
      (Ends (Taken now old w.tables new expires_at) (λ _ t. t ≡ w.tables)) _ or_absent w
      (transaction-Ends (Rotated now old w.tables new expires_at) (Failed now old w.tables) _ w
        (inl refl)
        (λ fs. body-Ends now old w.tables new expires_at (record w { faults = fs }) refl))
      (λ id w' h. h) (λ e w' h. or_absent-Ends now old w.tables new expires_at e w' h.0 h.1)

-- A token that was live and is revoked stays dead.
revoked-dead :
    (now at : ℕ) (h : Text) (tokens : List AppToken)
    → now ≤ at
    → first (is_live at h) (change (is_live now h) (revoked now) tokens) ≡ none
revoked-dead now at h [] le = refl
revoked-dead now at h (t ∷ rest) le = ground (arith, revoked-dead now at h rest le)

-- A hash that no row has was not that of a live token.
unknown-dead :
    (now : ℕ) (h : Text) (tokens : List AppToken)
    → first (λ (t : AppToken). text_eq t.token_hash h) (change (is_live now h) (revoked now) tokens)
      ≡ none
    → first (is_live now h) tokens ≡ none
unknown-dead now h [] absent = refl
unknown-dead now h (r ∷ rest) absent = ground (arith, unknown-dead now h rest)

Rotated-dead :
    (now at : ℕ) (old new : Text) (expires_at user : ℕ) (before after : App)
    → now ≤ at
    → Rotated now old before new expires_at user after
    → first (is_live at old) after.tokens ≡ none
unfolding insert_token take_token
Rotated-dead now at old new expires_at user before after le traded =
    split (first (λ (t : AppToken). text_eq t.token_hash new) rest) refl
      (is_there (person_of user before)) (text_eq new old) refl traded.3
  where
    rest : List AppToken
    rest = change (is_live now old) (revoked now) before.tokens

    row : AppToken
    row = record {
      id = before.next_id;
      user_id = user;
      token_hash = new;
      expires_at = expires_at;
      revoked_at = none;
    }

    dead_of : Option (App × Unit {0}) → Type 0
    dead_of none = Unit
    dead_of (some (t, u)) = first (is_live at old) t.tokens ≡ none

    split :
        (o : Option AppToken)
        → first (λ (t : AppToken). text_eq t.token_hash new) rest ≡ o
        → (b c : Bool) → text_eq new old ≡ c
        → (let made : Option (App × Unit {0}) =
              if not (is_there o) && b
              then some (record before { tokens = row ∷ rest; next_id = suc before.next_id }, tt)
              else none in
            made)
          ≡ some (after, tt)
        → first (is_live at old) after.tokens ≡ none
    split (some t) h b c eq k = cc
    split none h false c eq k = cc
    split none h true true eq k = absurd (
        clash (
          unknown-dead now old before.tokens (
            subst (λ (x : Text). first (λ (t : AppToken). text_eq t.token_hash x) rest ≡ none)
              ((text_eq_iff new old).0 eq) h)))
      where
        clash : first (is_live now old) before.tokens ≡ none → ⊥
        clash gone = cc (traded.1, gone)
    split none h true false eq k =
        subst dead_of k (ground (arith, eq, revoked-dead now at old before.tokens le))

module _ (s : Service) (now at : ℕ) (token : Text) (before : App) where
  -- The token was traded for one of the same user; from then on, such as at the time `at`, it is not live.
  abbrev pub Traded : Text → ℕ → App → Type 0
  Traded fresh user after =
      Rotated now (s.hash token) before (s.hash fresh) (now + refresh_token_ttl) user after
      × (first (is_live at (s.hash token)) after.tokens ≡ none)

  abbrev pub Renewed : Tokens → App → Type 0
  Renewed t after =
      (user : ℕ) × Traded t.refresh_token user after × (s.sign user ≡ some t.access_token)

  -- Nothing changed, or the token was traded for one that is not given out, as no access token was signed.
  abbrev pub Unrenewed : Error → App → Type 0
  Unrenewed e after =
      (after ≡ before)
      ⊎ ((fresh : Text) × (user : ℕ) × Traded fresh user after
          × (s.sign user ≡ none)
          × (e ≡ failure "Error generating token"))

draw-Ends :
    (es : List (Option Text)) (w : World App)
    → Ends (λ _ t. t ≡ w.tables) (λ _ t. t ≡ w.tables) (draw es w)
draw-Ends [] w = refl
draw-Ends (none ∷ rest) w = refl
draw-Ends (some t ∷ rest) w = refl

random_text-Ends :
    (w : World App) → Ends (λ _ t. t ≡ w.tables) (λ _ t. t ≡ w.tables) (random_text w)
unfolding random_text
random_text-Ends w = draw-Ends w.entropy w

answering_500-Ends :
    {A : Type 0} (P : A → App → Type 0) (Q : App → Type 0) (m : Call App A) (message : String)
    (w : World App)
    → Ends P (λ _ t. Q t) (m w)
    → Ends P (λ _ t. Q t) (answering_500 m message w)
unfolding answering_500 pure raise
answering_500-Ends P Q m message w h =
    attempt_step P (λ _ t. Q t) (Ends P (λ _ t. Q t)) m _ w h (λ a w' k. k) (λ e w' k. k)

-- What Refresh of the app does. It succeeds only with a live token: that token is revoked and is never
-- live again, and the new one is stored, by its hash, for the same user. On an error nothing changed,
-- or the signer failed behind the committed rotation: the old token is then gone and the new one is not
-- given out.
pub refresh-Trades :
    (s : Service) (now at : ℕ) (token : Text) (w : World App)
    → now ≤ at
    → Ends
        (Renewed s now at token w.tables)
        (Unrenewed s now at token w.tables)
        (refresh s now token w)
unfolding refresh pure
refresh-Trades s now at token w le =
    raise_if_step R w (is_empty token) _ _ (λ _. inl refl)
      λ _.
        bind_step (λ _ t. t ≡ w.tables) (λ _ t. t ≡ w.tables) R
          (answering_500 random_text "Error generating refresh token") _ w
          (answering_500-Ends (λ _ t. t ≡ w.tables) (λ t. t ≡ w.tables) random_text _ w
            (random_text-Ends w))
          (λ fresh w1 same.
            bind_step (Took fresh) (λ _ t. t ≡ w.tables) R
              (answering_500
                (rotate_refresh_token now (s.hash token) (s.hash fresh) (now + refresh_token_ttl))
                "Error validating refresh token")
              _ w1
              (answering_500-Ends (Took fresh) (λ t. t ≡ w.tables) _ _ w1
                (subst
                  (λ (b : App).
                    Ends (Taken now (s.hash token) b (s.hash fresh) (now + refresh_token_ttl))
                      (λ _ t. t ≡ b)
                      (rotate_refresh_token now (s.hash token) (s.hash fresh)
                        (now + refresh_token_ttl) w1))
                  same
                  (rotate-Ends now (s.hash token) (s.hash fresh) (now + refresh_token_ttl) w1)))
              (λ o w2 taken.
                or_raise_step R w2 o _ _
                  (λ gone. inl (subst (λ (o : Option ℕ). Took fresh o w2.tables) gone taken).0)
                  λ user there.
                    let traded =
                      trade fresh user w2.tables
                        (subst (λ (o : Option ℕ). Took fresh o w2.tables) there taken) in
                    or_raise_step R w2 (s.sign user) _ _
                      (λ unsigned. inr (fresh, user, traded, unsigned, refl))
                      λ access signed. (user, traded, signed))
              (λ e w2 lost. inl lost))
          (λ e w1 lost. inl lost)
  where
    R : Result Tokens × World App → Type 0
    R = Ends (Renewed s now at token w.tables) (Unrenewed s now at token w.tables)

    Took : Text → Option ℕ → App → Type 0
    Took fresh o t = Taken now (s.hash token) w.tables (s.hash fresh) (now + refresh_token_ttl) o t

    trade :
        (fresh : Text) (user : ℕ) (t : App)
        → Took fresh (some user) t
        → Traded s now at token w.tables fresh user t
    trade fresh user t rotated = (
      rotated,
      Rotated-dead now at (s.hash token) (s.hash fresh) (now + refresh_token_ttl) user w.tables t le
          rotated,
    )
