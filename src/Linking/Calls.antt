-- ===== src/Linking/Calls.antt =====
-- internal/service/idbiaa/service.go: how Refresh, CompleteRedirect and HandleConsentNotification end.
use astra_backend.Prelude.{
  ℕ, ◌≡◌, refl, sym, subst, ◌∙◌, ◌⊎◌, inl, inr, Bool, true, false, ◌&&◌, Option, none, some, arith,
  Text, lit, text_eq, is_empty, equal_fold, if◌then◌else◌,
}
use astra_backend.Store.{Error, Result, World, pure, ◌>>=◌, read}
use astra_backend.Store.Laws.{Ends, Ends-map, read_step}
use astra_backend.Store.Guards.{raise_if_step, or_raise_step}
use astra_backend.Consent.{Consent, Aggregator, get_consent}
use astra_backend.Linking.{
  Config, Decoded, Provider, View, Notification, consent_status_from_event, or_else, refresh,
  rejected, decided, complete_redirect, notify_if, handle_consent_notification,
}
use astra_backend.Linking.Owners.{
  Within, Stays, IsOwned, Served, Serves, served, update_consent_status-Within, or_else-Within,
  bind-Within, rejected-Within, refresh-Serves,
}

-- Refresh serves the owner of a consent and nobody else, and changes nothing but that consent and its
-- linked accounts: no other consent, and no account linked to another. Anybody else gets an error that
-- changes nothing; so does an owner, or the error comes behind a change within these bounds.
pub refresh-Served :
    (prov : Provider) (cfg : Config) (now user : ℕ) (handle : Text) (w : World Aggregator)
    → Ends
        (λ _ after. Served handle w.tables user after)
        (λ _ after. (after ≡ w.tables) ⊎ Served handle w.tables user after)
        (refresh prov cfg now user handle w)
refresh-Served prov cfg now user handle w = refresh-Serves handle w.tables prov cfg now user w refl

further :
    (handle : Text) (a b c : Aggregator) → Within handle a b → Within handle b c → Within handle a c
further handle a b c x y = (y.0 ∙ x.0, y.1 ∙ x.1, y.2 ∙ x.2)

module _ (prov : Provider) (cfg : Config) (now : ℕ) where
  decided-Serves :
      (user : ℕ) (dec : Decoded) (before : Aggregator) (w : World Aggregator)
      → IsOwned dec.srcref before user
      → w.tables ≡ before
      → Serves dec.srcref before user (decided prov cfg now user dec w)
  decided-Serves user dec before w owned same =
      decide (text_eq dec.errorcode (lit "0") && equal_fold dec.status (lit "S"))
    where
      decide :
          (b : Bool)
          → Serves dec.srcref before user
              ((if b then refresh prov cfg now user dec.srcref else rejected now dec.srcref) w)
      decide true = refresh-Serves dec.srcref before prov cfg now user w same
      decide false = served dec.srcref before user _ owned (
          rejected-Within dec.srcref before now w
            (subst (Within dec.srcref before) (sym same) (refl, refl, refl)))

  notified-Within :
      (n : Notification) (before : Aggregator) (o : Option Consent) (w : World Aggregator)
      → w.tables ≡ before
      → Stays n.handle before (notify_if prov cfg now n o w)
  unfolding pure
  notified-Within n before none w same =
      subst (Within n.handle before) (sym same) (refl, refl, refl)
  notified-Within n before (some row) w same =
      bind-Within n.handle before _ _ w
        (update_consent_status-Within n.handle before now _ n.consent_id _ w
          (subst (Within n.handle before) (sym same) (refl, refl, refl)))
        λ _ w1 h1. pull (text_eq (consent_status_from_event n.event_status) (lit "ACTIVE")) w1 h1
    where
      refreshed :
          (w1 : World Aggregator)
          → Within n.handle before w1.tables
          → Stays n.handle before (refresh prov cfg now row.user_id n.handle w1)
      refreshed w1 h1 =
          Ends-map {P' = λ _ t. Within n.handle before t} {Q' = λ _ t. Within n.handle before t} _
            (λ (v : View) (t : Aggregator) (s : Served n.handle w1.tables row.user_id t).
              further n.handle before w1.tables t h1 s.1)
            (λ (e : Error) (t : Aggregator) s. still t s)
            (refresh-Serves n.handle w1.tables prov cfg now row.user_id w1 refl)
        where
          still :
              (t : Aggregator)
              → (t ≡ w1.tables) ⊎ Served n.handle w1.tables row.user_id t
              → Within n.handle before t
          still t (inl same) = subst (Within n.handle before) (sym same) h1
          still t (inr s) = further n.handle before w1.tables t h1 s.1

      pull :
          (b : Bool) (w1 : World Aggregator)
          → Within n.handle before w1.tables
          → Stays n.handle before (
              (if b
                  then or_else (refresh prov cfg now row.user_id n.handle >>= λ _. pure tt) tt
                  else pure tt)
                w1)
      pull false w1 h1 = h1
      pull true w1 h1 =
          or_else-Within n.handle before _ tt w1
            (bind-Within n.handle before _ (λ _. pure tt) w1 (refreshed w1 h1) (λ _ w2 h2. h2))

-- CompleteRedirect serves the owner of the consent that the decoded answer names, and changes nothing
-- but that consent and its linked accounts; on an error nothing changed, or within these bounds.
pub complete_redirect-Ends :
    (prov : Provider) (cfg : Config) (now user : ℕ) (ecres resdate fi : Text) (w : World Aggregator)
    → Ends
        (λ _ after.
          (dec : Decoded) × (prov.decrypt ecres resdate fi ≡ some dec)
          × Served dec.srcref w.tables user after)
        (λ _ after.
          (after ≡ w.tables)
          ⊎ ((dec : Decoded) × (prov.decrypt ecres resdate fi ≡ some dec)
              × Served dec.srcref w.tables user after))
        (complete_redirect prov cfg now user ecres resdate fi w)
unfolding complete_redirect
complete_redirect-Ends prov cfg now user ecres resdate fi w =
    or_raise_step R w _ _ _ (λ _. inl refl)
      λ dec decoded.
        raise_if_step R w _ _ _ (λ _. inl refl)
          λ _.
            read_step R w _ _ (λ _. inl refl)
              λ fs.
                or_raise_step R _ _ _ _ (λ _. inl refl)
                  λ row found.
                    raise_if_step R _ _ _ _ (λ _. inl refl)
                      λ mine.
                        Ends-map {P' = λ _ t. Done t} {Q' = λ _ t. (t ≡ w.tables) ⊎ Done t} _
                          (λ (v : View) (t : Aggregator) (s : Served dec.srcref w.tables user t).
                            (dec, decoded, s))
                          (λ (e : Error) (t : Aggregator) s. failed dec decoded t s)
                          (decided-Serves prov cfg now user dec w.tables (record w { faults = fs })
                            (row, found, ground arith) refl)
  where
    Done : Aggregator → Type 0
    Done t =
        (dec : Decoded) × (prov.decrypt ecres resdate fi ≡ some dec)
        × Served dec.srcref w.tables user t

    R : Result View × World Aggregator → Type 0
    R = Ends (λ _ t. Done t) (λ _ t. (t ≡ w.tables) ⊎ Done t)

    failed :
        (dec : Decoded)
        → prov.decrypt ecres resdate fi ≡ some dec
        → (t : Aggregator) → (t ≡ w.tables) ⊎ Served dec.srcref w.tables user t
        → (t ≡ w.tables) ⊎ Done t
    failed dec decoded t (inl same) = inl same
    failed dec decoded t (inr s) = inr (dec, decoded, s)

-- A notification, whatever it says and whatever fails, changes nothing but the consent that it names
-- and its linked accounts.
pub handle_consent_notification-Within :
    (prov : Provider) (cfg : Config) (now : ℕ) (n : Notification) (w : World Aggregator)
    → Ends
        (λ _ after. Within n.handle w.tables after)
        (λ _ after. Within n.handle w.tables after)
        (handle_consent_notification prov cfg now n w)
unfolding handle_consent_notification pure
handle_consent_notification-Within prov cfg now n w = guarded (is_empty n.handle)
  where
    guarded :
        (b : Bool)
        → Stays n.handle w.tables
            ((if b then pure tt else (read (get_consent n.handle) >>= notify_if prov cfg now n)) w)
    guarded true = (refl, refl, refl)
    guarded false =
        read_step (Stays n.handle w.tables) w _ _ (λ _. (refl, refl, refl))
          λ fs. notified-Within prov cfg now n w.tables _ (record w { faults = fs }) refl
