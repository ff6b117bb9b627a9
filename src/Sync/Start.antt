-- ===== src/Sync/Start.antt =====
-- internal/service/statementsync/service.go: the start of the period that is pulled.
use astra_backend.Prelude.{
  ℕ, ◌-◌, ◌<◌, ◌≡◌, refl, Bool, true, false, ◌&&◌, Option, none, some, List, [], ◌∷◌, arith, Text,
  text_eq, ltb, ◌==◌, if◌then◌else◌, All,
}
use astra_backend.Spend.Table.{SpendTxn, Spends, epoch, latest_of, latest_sync_of}
use astra_backend.Sync.{Config, start_of}

-- The rows stand behind Go's zero time, which UpsertSpendTransactions does not store.
abbrev pub IsDated : List SpendTxn → Type 0
IsDated = All (λ (x : SpendTxn). 0 < x.occurred_at)

latest_of-later :
    (user_id : ℕ) (source : Text) (rows : List SpendTxn) (t : ℕ)
    → IsDated rows
    → latest_of user_id source rows ≡ some t
    → 0 < t
unfolding latest_of
latest_of-later user_id source [] t h e = cc
latest_of-later user_id source (x ∷ rest) t h e =
    split (latest_of user_id source rest) (x.user_id == user_id && text_eq x.source source)
      (λ t'. latest_of-later user_id source rest t' h.1) e
  where
    split :
        (o : Option ℕ) (b : Bool)
        → ((t' : ℕ) → o ≡ some t' → 0 < t')
        → (if b
            then (elim o as (λ _. Option ℕ) [
              | none ↦ some x.occurred_at
              | some t' ↦ some (if ltb t' x.occurred_at then x.occurred_at else t')
            ])
            else o)
          ≡ some t
        → 0 < t
    split none true later k = ground (arith, h.0)
    split (some t') true later k = ground (arith, h.0, later t' refl)
    split o false later k = later t k

latest_sync_of-later :
    (user_id : ℕ) (source : Text) (t : Spends)
    → IsDated t.rows
    → 0 < latest_sync_of user_id source t
unfolding latest_sync_of
latest_sync_of-later user_id source t h = split (latest_of user_id source t.rows) refl
  where
    split :
        (o : Option ℕ)
        → latest_of user_id source t.rows ≡ o
        → 0 < (elim o as (λ _. ℕ) [ none ↦ epoch | some at ↦ at ])
    split none e = omega arith
    split (some at) e = latest_of-later user_id source t.rows at h e

-- The period that is pulled starts Overlap before what LatestSpendSync answers, which is 1970 for a user with
-- no row: it never starts Lookback before now.
pub start_of-latest_sync_of :
    (cfg : Config) (now user_id : ℕ) (source : Text) (t : Spends)
    → IsDated t.rows
    → start_of cfg now (latest_sync_of user_id source t)
      ≡ latest_sync_of user_id source t - cfg.overlap
unfolding start_of
start_of-latest_sync_of cfg now user_id source t h =
    dated (latest_sync_of user_id source t) (latest_sync_of-later user_id source t h)
  where
    dated :
        (n : ℕ) → 0 < n → (if n == 0 then now - cfg.lookback else n - cfg.overlap) ≡ n - cfg.overlap
    dated n k = ground arith
