-- ===== src/Spend/Lookup.antt =====
-- internal/repository/idbi_repo.go: UpsertSpendTransactions as a map from user, source and external id to
-- a transaction.
use astra_backend.Prelude.{
  ℕ, suc, ◌+◌, ◌≡◌, refl, sym, ap, ◌∙◌, Bool, true, false, ◌&&◌, Option, none, some, List, [], ◌∷◌,
  arith, Text, text_eq, text_eq_iff, ◌==◌, ==_iff, if◌then◌else◌, first, first-none, first-change,
  first-change_other, change, All-map, IsApart, IsApart-change,
}
use astra_backend.Spend.{SpendRow}
use astra_backend.Spend.Table.{
  Numerics, SpendTxn, Spends, is_id, keyed, txn_of, overwritten, put, is_usable,
}

-- What a transaction says, whoever it belongs to.
pub record Entry : Type 0 where
  pub amount : Option ℕ
  pub kind : Text
  pub category : Text
  pub merchant : Text
  pub occurred_at : ℕ
  pub account_ref : Option Text

abbrev pub entry_of : SpendTxn → Entry
entry_of x = record {
  amount = x.amount;
  kind = x.kind;
  category = x.category;
  merchant = x.merchant;
  occurred_at = x.occurred_at;
  account_ref = x.account_ref;
}

abbrev pub entry_if : Option SpendTxn → Option Entry
entry_if none = none
entry_if (some x) = some (entry_of x)

-- The transaction of a user and source with an external id.
unfoldable pub lookup : ℕ → Text → Text → Spends → Option Entry
lookup user_id source id t = entry_if (first (keyed user_id source id) t.rows)

-- The last of the usable rows with that id.
unfoldable pub last_given : Numerics → ℕ → Text → Text → List SpendRow → Option Entry
last_given d user_id source id [] = none
last_given d user_id source id (row ∷ rest) = elim (last_given d user_id source id rest) [
  | some e ↦ some e
  | none ↦
      if is_usable row && text_eq row.external_id id
      then some (entry_of (txn_of d user_id source row))
      else none
]

abbrev pub or_before : Option Entry → Option Entry → Option Entry
or_before none old = old
or_before (some e) old = some e

-- What the rows of one user and source say of an entry that may be another's.
abbrev pub given_for : Numerics → ℕ → Text → List SpendRow → ℕ → Text → Text → Option Entry
given_for d user_id source rows u s id =
    if user_id == u && text_eq source s then last_given d user_id source id rows else none

unfoldable pub usable_count : List SpendRow → ℕ
usable_count [] = 0
usable_count (row ∷ rest) = (if is_usable row then 1 else 0) + usable_count rest

abbrev pub same_id : Option Text → Option Text → Bool
same_id none b = false
same_id (some id) b = is_id id b

-- The unique index.
abbrev pub clash : SpendTxn → SpendTxn → Bool
clash x y =
    y.user_id == x.user_id && text_eq y.source x.source && same_id x.external_id y.external_id

entry_if-if :
    (b : Bool) (y : SpendTxn) (o : Option SpendTxn)
    → entry_if (if b then some y else o) ≡ (if b then some (entry_of y) else entry_if o)
entry_if-if true y o = refl
entry_if-if false y o = refl

both : (a b : Bool) → (a && b) ≡ true → (a ≡ true) × (b ≡ true)
both a b h = ground arith

is_id-text_eq : (id i : Text) (o : Option Text) → is_id id o ≡ true → is_id i o ≡ text_eq id i
is_id-text_eq id i none h = cc
is_id-text_eq id i (some y) h = ap (λ (z : Text). text_eq z i) ((text_eq_iff y id).0 h)

-- A row with one key has another key exactly if the keys are the same.
keyed_again :
    (user u : ℕ) (source s id i : Text) (a : SpendTxn)
    → keyed user source id a ≡ true
    → keyed u s i a ≡ ((user == u && text_eq source s) && text_eq id i)
keyed_again user u source s id i a h =
    let front = both (a.user_id == user && text_eq a.source source) (is_id id a.external_id) h in
    let pair = both (a.user_id == user) (text_eq a.source source) front.0 in
    ap (λ (b : Bool). (a.user_id == u && text_eq a.source s) && b)
      (is_id-text_eq id i a.external_id front.1)
    ∙ ap (λ (n : ℕ). (n == u && text_eq a.source s) && text_eq id i)
        ((==_iff a.user_id user).0 pair.0)
    ∙ ap (λ (z : Text). (user == u && text_eq z s) && text_eq id i)
        ((text_eq_iff a.source source).0 pair.1)

keyed_same :
    (user u : ℕ) (source s id i : Text)
    → ((user == u && text_eq source s) && text_eq id i) ≡ true
    → keyed user source id ≡ keyed u s i
keyed_same user u source s id i h =
    let front = both (user == u && text_eq source s) (text_eq id i) h in
    let pair = both (user == u) (text_eq source s) front.0 in
    ap (λ (n : ℕ). keyed n source id) ((==_iff user u).0 pair.0)
    ∙ ap (λ (z : Text). keyed u z id) ((text_eq_iff source s).0 pair.1)
    ∙ ap (keyed u s) ((text_eq_iff id i).0 front.1)

module _ (now : ℕ) (id : Text) (x : SpendTxn) (named : x.external_id ≡ some id) where
  pub put-lookup :
      (u : ℕ) (s i : Text) (t : Spends)
      → lookup u s i (put now id x t) ≡ (
          if (x.user_id == u && text_eq x.source s) && text_eq id i
          then some (entry_of x)
          else lookup u s i t)
  unfolding lookup put overwritten
  put-lookup u s i t = found (first (keyed x.user_id x.source id) t.rows) refl
    where
      found :
          (o : Option SpendTxn)
          → first (keyed x.user_id x.source id) t.rows ≡ o
          → lookup u s i (
              let t' : Spends = elim o [
                | none ↦ record t {
                  rows = record x { id = t.next_id; created_at = now } ∷ t.rows;
                  next_id = suc t.next_id;
                }
                | some old ↦ record t {
                  rows = change (keyed x.user_id x.source id) (overwritten x) t.rows;
                }
              ] in
              t')
            ≡ (if (x.user_id == u && text_eq x.source s) && text_eq id i
                then some (entry_of x)
                else lookup u s i t)
      found none e =
          ap
            (λ (o : Option Text). entry_if (
              if (x.user_id == u && text_eq x.source s) && is_id i o
              then some new
              else first (keyed u s i) t.rows))
            named
          ∙ entry_if-if ((x.user_id == u && text_eq x.source s) && text_eq id i) new
              (first (keyed u s i) t.rows)
        where
          new : SpendTxn
          new = record x { id = t.next_id; created_at = now }
      found (some old) e = split ((x.user_id == u && text_eq x.source s) && text_eq id i) refl
        where
          p : SpendTxn → Bool
          p = keyed x.user_id x.source id

          split :
              (b : Bool)
              → ((x.user_id == u && text_eq x.source s) && text_eq id i) ≡ b
              → entry_if (first (keyed u s i) (change p (overwritten x) t.rows))
                ≡ (if b then some (entry_of x) else entry_if (first (keyed u s i) t.rows))
          split true h =
              ap (λ (q : SpendTxn → Bool). entry_if (first q (change p (overwritten x) t.rows)))
                (sym (keyed_same x.user_id u x.source s id i h))
              ∙ ap entry_if (first-change p (overwritten x) t.rows old (λ a k. k) e)
          split false h = ap entry_if (
              first-change_other p (overwritten x) (keyed u s i) t.rows
                (λ a k. keyed_again x.user_id u x.source s id i a k ∙ h)
                (λ a k. keyed_again x.user_id u x.source s id i a k ∙ h))

  pub put-IsApart : (t : Spends) → IsApart clash t.rows → IsApart clash (put now id x t).rows
  unfolding put overwritten
  put-IsApart t apart = found (first (keyed x.user_id x.source id) t.rows) refl
    where
      found :
          (o : Option SpendTxn)
          → first (keyed x.user_id x.source id) t.rows ≡ o
          → (let t' : Spends = elim o [
            | none ↦ record t {
              rows = record x { id = t.next_id; created_at = now } ∷ t.rows;
              next_id = suc t.next_id;
            }
            | some old ↦ record t {
              rows = change (keyed x.user_id x.source id) (overwritten x) t.rows;
            }
          ] in
              IsApart clash t'.rows)
      found none e = (
        All-map _ _ t.rows
            (λ y (h : keyed x.user_id x.source id y ≡ false).
              ap
                (λ (o : Option Text).
                  (y.user_id == x.user_id && text_eq y.source x.source) && same_id o y.external_id)
                named
              ∙ h)
            (first-none (keyed x.user_id x.source id) t.rows e),
        apart,
      )
      found (some old) e =
          IsApart-change clash (keyed x.user_id x.source id) (overwritten x) (λ a b. refl)
            (λ a b. refl) t.rows apart
