-- ===== src/Memory/Stored.antt =====
-- internal/repository/chat_memory_repo.go: the row that Upsert leaves under its user and key.
use astra_backend.Prelude.{
  ℕ, suc, ◌≡◌, refl, ap, subst, Bool, true, Option, none, some, ◌∷◌, arith, Text, text_eq_iff,
  ==_self, if◌then◌else◌, first, first-change, change,
}
use astra_backend.Store.{store_failure, World}
use astra_backend.Store.Laws.{Ends, write_checked-Makes}
use astra_backend.Memory.{
  ChatMemory, Memories, keyed, put, put_checked, with_defaults, refreshed, upsert,
}
use astra_backend.Memory.Grows.{put_checked-put}

pub keyed_self : (m : ChatMemory) → keyed m.user_id m.key_norm m ≡ true
keyed_self m = ground (arith, ==_self m.user_id, text_eq_iff m.key_norm m.key_norm)

-- The row of that user and key is one with the property.
abbrev pub Stores : (ChatMemory → Type 0) → ℕ → Text → Memories → Type 0
Stores D user_id key t = (x : ChatMemory) × (first (keyed user_id key) t.rows ≡ some x) × D x

module _ (D : ChatMemory → Type 0) (now : ℕ) where
  put-Stores :
      (m : ChatMemory) (f : ChatMemory → ChatMemory)
      → ((x : ChatMemory)
          → keyed m.user_id m.key_norm x ≡ true
          → keyed m.user_id m.key_norm (f x) ≡ true)
      → ((id : ℕ) → D (record m { id = id; captured_at = now; last_seen_at = now }))
      → ((x : ChatMemory) → D (f x))
      → (t : Memories) → Stores D m.user_id m.key_norm (put now m f t)
  unfolding put
  put-Stores m f keeps new over t = found (first (keyed m.user_id m.key_norm) t.rows) refl
    where
      fresh : ChatMemory
      fresh = record m { id = t.next_id; captured_at = now; last_seen_at = now }

      found :
          (o : Option ChatMemory)
          → first (keyed m.user_id m.key_norm) t.rows ≡ o
          → Stores D m.user_id m.key_norm (
              let t' : Memories = elim o [
                | none ↦ record t { rows = fresh ∷ t.rows; next_id = suc t.next_id }
                | some old ↦ record t { rows = change (keyed m.user_id m.key_norm) f t.rows }
              ] in
              t')
      found none e = (
        fresh,
        ap
            (λ (b : Bool).
              let o : Option ChatMemory =
                if b then some fresh else first (keyed m.user_id m.key_norm) t.rows in
              o)
            (keyed_self fresh),
        new t.next_id,
      )
      found (some old) e =
          (f old, first-change (keyed m.user_id m.key_norm) f t.rows old keeps e, over old)

  pub upsert-Stores :
      (m : ChatMemory)
      → ((id : ℕ) → D (record (with_defaults m) { id = id; captured_at = now; last_seen_at = now }))
      → ((x : ChatMemory) → D (refreshed now (with_defaults m) x))
      → (w : World Memories)
      → Ends
          (λ _ t. Stores D m.user_id m.key_norm t)
          (λ e t. (e ≡ store_failure) × (t ≡ w.tables))
          (upsert now m w)
  unfolding upsert with_defaults refreshed
  upsert-Stores m new over w =
      write_checked-Makes w (λ _ t. Stores D m.user_id m.key_norm t)
        (put_checked now m' (refreshed now m'))
        (λ u t e.
          subst (Stores D m.user_id m.key_norm)
            (put_checked-put now m' (refreshed now m') w.tables t u e)
            (put-Stores m' (refreshed now m') (λ x h. h) new over w.tables))
    where
      m' : ChatMemory
      m' = with_defaults m
