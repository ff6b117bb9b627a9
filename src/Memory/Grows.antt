-- ===== src/Memory/Grows.antt =====
-- internal/repository/chat_memory_repo.go: what Upsert and SetSummary leave in the table.
use astra_backend.Prelude.{
  ℕ, ◌+◌, ◌≡◌, refl, ap, subst, ◌∙◌, inl, inr, Bool, true, false, Option, none, some, arith, Text,
  lit, text_eq, text_eq_iff, is_empty, if◌then◌else◌, All-map, All-Has, begins_with,
}
use astra_backend.Store.{store_failure, World}
use astra_backend.Store.Laws.{Ends, write_checked-Makes}
use astra_backend.Memory.{
  ChatMemory, Memories, summary_key_norm, keyed, put, put_checked, allowed, with_defaults,
  refreshed, upsert, set_summary, summary_row,
}
use astra_backend.Memory.Slugs.{IsKey}
use astra_backend.Memory.Words.{valid_memory_kind}
use astra_backend.Memory.Sound.{
  IsFact, IsRow, IsSound, Adds, Writes, put-Adds, put-IsSound, put-Writes,
}

-- A change of the rows of one user, to sound tables, with at most `n` rows more, where a row that was
-- not there before has the property.
abbrev pub Grows : (ChatMemory → Type 0) → ℕ → ℕ → Memories → Memories → Type 0
Grows C n user_id before after = IsSound after × Adds n user_id before after × Writes C before after

pub Grows-trans :
    (C : ChatMemory → Type 0) (n k user_id : ℕ) (a b c : Memories)
    → Grows C n user_id a b
    → Grows C k user_id b c
    → Grows C (n + k) user_id a c
Grows-trans C n k user_id a b c x y = (
  y.0,
  (y.1.0 ∙ x.1.0, omega (arith, x.1.1, y.1.1), y.1.2 ∙ x.1.2),
  All-map _ _ c.rows (λ m h. elim h [ inl h ↦ All-Has _ b.rows m x.2 h | inr clean ↦ inr clean ])
      y.2,
)

pub put_checked-put :
    (now : ℕ) (m : ChatMemory) (f : ChatMemory → ChatMemory) (t t' : Memories) (u : Unit {0})
    → put_checked now m f t ≡ some (t', u)
    → put now m f t ≡ t'
unfolding put_checked
put_checked-put now m f t t' u e = split (allowed m t) e
  where
    split :
        (b : Bool)
        → (let made : Option (Memories × Unit {0}) = if b then some (put now m f t, tt) else none in
            made)
          ≡ some (t', u)
        → put now m f t ≡ t'
    split true e = cc
    split false e = cc

with_defaults-IsFact : (m : ChatMemory) → IsFact m → IsFact (with_defaults m)
unfolding with_defaults valid_memory_kind text_eq
with_defaults-IsFact m h = (kind (is_empty m.kind), h.1, ground (arith, h.2))
  where
    kind : (b : Bool) → valid_memory_kind (if b then lit "fact" else m.kind) ≡ true
    kind true = refl
    kind false = h.0

key-not_summary : (k : Text) → IsKey k → text_eq summary_key_norm k ≡ true → ⊥
unfolding begins_with
key-not_summary k h e = cc (h.1, ap (begins_with b'_') ((text_eq_iff summary_key_norm k).0 e))

refreshed-IsRow :
    (now : ℕ) (m x : ChatMemory)
    → IsFact m
    → keyed m.user_id m.key_norm x ≡ true
    → IsRow x
    → IsRow (refreshed now m x)
unfolding refreshed
refreshed-IsRow now m x fact e (inl summary) = absurd (
    key-not_summary m.key_norm fact.1
      (subst (λ (k : Text). text_eq k m.key_norm ≡ true) summary.1 (ground arith)))
refreshed-IsRow now m x fact e (inr old) = inr (fact.0, old.1, ground (arith, fact.2, old.2))

module _ (C : ChatMemory → Type 0) (now : ℕ) (w : World Memories) (sound : IsSound w.tables) where
  pub upsert-Ends :
      (m : ChatMemory)
      → IsFact m
      → ((id : ℕ) → C (record (with_defaults m) { id = id; captured_at = now; last_seen_at = now }))
      → ((x : ChatMemory)
          → keyed m.user_id m.key_norm x ≡ true
          → C (refreshed now (with_defaults m) x))
      → Ends
          (λ _ t. Grows C 1 m.user_id w.tables t)
          (λ e t. (e ≡ store_failure) × (t ≡ w.tables))
          (upsert now m w)
  unfolding upsert refreshed with_defaults
  upsert-Ends m fact new over =
      write_checked-Makes w (λ _ t. Grows C 1 m.user_id w.tables t)
        (put_checked now m' (refreshed now m'))
        (λ u t e.
          subst (Grows C 1 m.user_id w.tables)
            (put_checked-put now m' (refreshed now m') w.tables t u e)
            (
              put-IsSound now m' (refreshed now m') (λ x. refl) (λ x. refl) w.tables
                  (λ id. inr fact') (λ x h. refreshed-IsRow now m' x fact' h) sound,
              put-Adds now m' (refreshed now m') (λ x. refl) (λ x. refl) w.tables,
              put-Writes now m' (refreshed now m') (λ x. refl) (λ x. refl) C w.tables new
                  (λ x h k. over x h),
            ))
    where
      m' : ChatMemory
      m' = with_defaults m

      fact' : IsFact m'
      fact' = with_defaults-IsFact m fact

  pub set_summary-Ends :
      (user_id : ℕ) (summary : Text)
      → ((id : ℕ)
          → C (record (summary_row user_id summary) {
            id = id;
            captured_at = now;
            last_seen_at = now;
          }))
      → ((x : ChatMemory)
          → x.kind ≡ lit "summary"
          → C (record x { content = summary; captured_at = now; last_seen_at = now }))
      → Ends
          (λ _ t. Grows C 1 user_id w.tables t)
          (λ e t. (e ≡ store_failure) × (t ≡ w.tables))
          (set_summary now user_id summary w)
  unfolding set_summary
  set_summary-Ends user_id summary new changed =
      write_checked-Makes w (λ _ t. Grows C 1 user_id w.tables t)
        (put_checked now (summary_row user_id summary) over)
        (λ u t e.
          subst (Grows C 1 user_id w.tables)
            (put_checked-put now (summary_row user_id summary) over w.tables t u e)
            (
              put-IsSound now (summary_row user_id summary) over (λ x. refl) (λ x. refl) w.tables
                  (λ id. inl (refl, refl)) (λ x h. elim [ inl s ↦ inl s | inr fact ↦ inr fact ])
                  sound,
              put-Adds now (summary_row user_id summary) over (λ x. refl) (λ x. refl) w.tables,
              put-Writes now (summary_row user_id summary) over (λ x. refl) (λ x. refl) C w.tables
                  new
                  (λ x h k.
                    changed x
                      (summary-kind x h (All-Has IsRow w.tables.rows x sound.rows_sound k))),
            ))
    where
      summary-kind :
          (x : ChatMemory)
          → keyed user_id summary_key_norm x ≡ true
          → IsRow x
          → x.kind ≡ lit "summary"
      summary-kind x e (inl row) = row.0
      summary-kind x e (inr fact) = absurd (
          key-not_summary x.key_norm fact.1 (
            subst (λ (k : Text). text_eq k x.key_norm ≡ true)
              ((text_eq_iff x.key_norm summary_key_norm).0 (ground arith))
              ((text_eq_iff x.key_norm x.key_norm).1 refl)))

      over : ChatMemory → ChatMemory
      over old = record old { content = summary; captured_at = now; last_seen_at = now }
