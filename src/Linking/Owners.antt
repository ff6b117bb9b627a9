-- ===== src/Linking/Owners.antt =====
-- internal/service/idbiaa/service.go: whose consent a call may touch, and that it touches no other.
use astra_backend.Prelude.{
  ℕ, ◌≡◌, refl, sym, ap, subst, ◌∙◌, ◌⊎◌, inl, inr, Bool, true, false, not, Option, none, some,
  List, [], ◌∷◌, arith, Text, text_eq, select, change,
}
use astra_backend.Store.{
  Error, no_consent, Result, ok, err, World, Call, pure, raise, ◌>>=◌, raise_if, read,
}
use astra_backend.Store.Laws.{Ends, Ends-map, read_step, read-Ends, bind_step, write_returning_step}
use astra_backend.Store.Guards.{raise_if_step, or_raise_step}
use astra_backend.Consent.{
  Consent, Account, Aggregator, get_consent, restate, restated, update_consent_status,
  replace_linked_accounts,
}
use astra_backend.Consent.Links.{elsewhere, Replaced, replace_linked_accounts-Ends}
use astra_backend.Linking.{
  Config, Listed, Provider, linked_to, kept_value, or_else, confirm, pick_consent, refresh,
  rejected,
}

-- The consents of the other handles.
unfoldable pub others : Text → List Consent → List Consent
others handle = select (λ (c : Consent). not (text_eq c.handle handle))

module _ (handle : Text) (before : Aggregator) where
  -- Nothing but the consent of the handle, and its linked accounts, may have changed.
  abbrev pub Within : Aggregator → Type 0
  Within after =
      (after.users ≡ before.users)
      × (others handle after.consents ≡ others handle before.consents)
      × (elsewhere handle after.accounts ≡ elsewhere handle before.accounts)

  others-restated :
      (now : ℕ) (status consent_id : Text) (approved_at : Option ℕ) (consents : List Consent)
      → others handle (
          change
            (λ (c : Consent). text_eq c.handle handle)
            (restated now status consent_id approved_at)
            consents)
        ≡ others handle consents
  unfolding others restated
  others-restated now status consent_id approved_at [] = refl
  others-restated now status consent_id approved_at (c ∷ rest) =
      ground (arith, others-restated now status consent_id approved_at rest)

  restate-Within :
      (now : ℕ) (status consent_id : Text) (approved_at : Option ℕ) (a : Aggregator)
      → Within a
      → Within (restate now handle status consent_id approved_at a).0
  unfolding restate
  restate-Within now status consent_id approved_at a (users, consents, accounts) =
      (users, others-restated now status consent_id approved_at a.consents ∙ consents, accounts)

  abbrev pub Stays : {A : Type 0} → Result A × World Aggregator → Type 0
  Stays {A} r = Ends {A = A} (λ _ t. Within t) (λ _ t. Within t) r

  pub update_consent_status-Within :
      (now : ℕ) (status consent_id : Text) (approved_at : Option ℕ) (w : World Aggregator)
      → Within w.tables
      → Stays (update_consent_status now handle status consent_id approved_at w)
  unfolding update_consent_status pure raise
  update_consent_status-Within now status consent_id approved_at w h =
      write_returning_step Stays w _ _ (λ _. h)
        λ fs.
          go (restate now handle status consent_id approved_at w.tables).1 _
            (restate-Within now status consent_id approved_at w.tables h)
    where
      go :
          (b : Bool) (w' : World Aggregator)
          → Within w'.tables
          → Stays (raise_if (not b) no_consent w')
      go true w' h' = h'
      go false w' h' = h'

  replace_linked_accounts-Within :
      (now : ℕ) (rows : List Account) (w : World Aggregator)
      → Within w.tables
      → Stays (replace_linked_accounts now handle rows w)
  replace_linked_accounts-Within now rows w (users, consents, accounts) =
      Ends-map {P' = λ _ t. Within t} {Q' = λ _ t. Within t} _
        (λ (_ : Unit {0}) (t : Aggregator) (r : Replaced handle [] w.tables rows t).
          (r.0 ∙ users, ap (others handle) r.1 ∙ consents, r.2 ∙ accounts))
        (λ (e : Error) (t : Aggregator) (x : _ × (t ≡ w.tables)).
          subst Within (sym x.1) (users, consents, accounts))
        (replace_linked_accounts-Ends now handle [] rows w)

  pub or_else-Within :
      {A : Type 0} (m : Call Aggregator A) (d : A) (w : World Aggregator)
      → Stays (m w)
      → Stays (or_else m d w)
  unfolding or_else
  or_else-Within m d w h = go (m w) h
    where
      go : (r : Result _ × World Aggregator) → Stays r → Stays (kept_value d r)
      go (ok a, w') h' = h'
      go (err e, w') h' = h'

  read-Within :
      {A : Type 0} (f : Aggregator → A) (w : World Aggregator) → Within w.tables → Stays (read f w)
  read-Within f w h =
      Ends-map {P' = λ _ t. Within t} {Q' = λ _ t. Within t} _
        (λ a (t : Aggregator) (x : _ × (t ≡ w.tables)). subst Within (sym x.1) h)
        (λ e (t : Aggregator) (x : _ × (t ≡ w.tables)). subst Within (sym x.1) h) (read-Ends w f)

  pub bind-Within :
      {A B : Type 0} (m : Call Aggregator A) (k : A → Call Aggregator B) (w : World Aggregator)
      → Stays (m w)
      → ((a : A) (w' : World Aggregator) → Within w'.tables → Stays (k a w'))
      → Stays ((m >>= k) w)
  bind-Within m k w h rest =
      bind_step (λ _ t. Within t) (λ _ t. Within t) Stays m k w h rest (λ e w' h'. h')

  pub confirm-Within :
      (prov : Provider) (now : ℕ) (row : Consent) (o : Option Listed) (w : World Aggregator)
      → Within w.tables
      → Stays (confirm prov now handle row o w)
  unfolding confirm pure
  confirm-Within prov now row none w h =
      bind-Within _ _ w (or_else-Within _ _ w (read-Within (linked_to prov.ref_before handle) w h))
        (λ linked w' h'. h')
  confirm-Within prov now row (some m) w h =
      bind-Within _ _ w (update_consent_status-Within now _ m.consent_id _ w h) λ _ w1 h1.
        bind-Within _ _ w1 (replace_linked_accounts-Within now m.accounts w1 h1) λ _ w2 h2.
          bind-Within _ _ w2 (or_else-Within _ _ w2 (read-Within (get_consent handle) w2 h2))
            λ _ w3 h3.
              bind-Within _ _ w3
                (or_else-Within _ _ w3 (read-Within (linked_to prov.ref_before handle) w3 h3))
                λ linked w4 h4. h4

  pub rejected-Within :
      (now : ℕ) (w : World Aggregator) → Within w.tables → Stays (rejected now handle w)
  unfolding pure
  rejected-Within now w h =
      bind-Within _ _ w (update_consent_status-Within now _ [] none w h) λ _ w1 h1.
        bind-Within _ _ w1 (or_else-Within _ _ w1 (read-Within (get_consent handle) w1 h1))
          λ _ w2 h2. h2

  -- The consent is there and is the user's.
  abbrev pub IsOwned : ℕ → Type 0
  IsOwned user = (row : Consent) × (get_consent handle before ≡ some row) × (row.user_id ≡ user)

  -- The user owns the consent, and nothing else may have changed.
  abbrev pub Served : ℕ → Aggregator → Type 0
  Served user after = IsOwned user × Within after

  abbrev pub Serves : {A : Type 0} → ℕ → Result A × World Aggregator → Type 0
  Serves {A} user r = Ends {A = A} (λ _ t. Served user t) (λ _ t. (t ≡ before) ⊎ Served user t) r

  pub served :
      {A : Type 0} (user : ℕ) (r : Result A × World Aggregator)
      → IsOwned user
      → Stays r
      → Serves user r
  served user r owned h =
      Ends-map {P = λ _ t. Within t} {P' = λ _ t. Served user t}
        {Q' = λ _ t. (t ≡ before) ⊎ Served user t} r (λ a t x. (owned, x)) (λ e t x. inr (owned, x))
        h

  pub refresh-Serves :
      (prov : Provider) (cfg : Config) (now user : ℕ) (w : World Aggregator)
      → w.tables ≡ before
      → Serves user (refresh prov cfg now user handle w)
  unfolding refresh
  refresh-Serves prov cfg now user w same =
      read_step (Serves user) w _ _ (λ _. inl same)
        λ fs.
          or_raise_step (Serves user) _ _ _ _ (λ _. inl same)
            λ row found.
              raise_if_step (Serves user) _ _ _ _ (λ _. inl same)
                λ mine.
                  or_raise_step (Serves user) _ _ _ _ (λ _. inl same)
                    λ list listed.
                      served user _
                        (
                          row,
                          subst (λ (a : Aggregator). get_consent handle a ≡ some row) same found,
                          ground arith,
                        )
                        (confirm-Within prov now row (pick_consent list handle)
                          (record w { faults = fs }) (subst Within (sym same) (refl, refl, refl)))
