-- ===== src/Memory/Sound.antt =====
-- internal/repository/chat_memory_repo.go: the invariant of the table, and that its statements keep it.
use astra_backend.Prelude.{
  ℕ, suc, ◌+◌, ◌≤◌, ◌≡◌, refl, sym, ap, subst, ◌∙◌, Bool, true, false, not, ◌&&◌, Option, none,
  some, List, [], ◌∷◌, arith, Text, lit, text_eq, leb, ==_self, ◌==◌, if◌then◌else◌, first,
  first-none, ◌⊎◌, inl, inr, change, select, length, All, length-change, All-change, select-change,
  Has, Has-All,
}
use astra_backend.Memory.{ChatMemory, Memories, summary_key_norm, keyed, put}
use astra_backend.Memory.Slugs.{IsKey}
use astra_backend.Memory.Words.{valid_memory_kind}

-- The summary's row has its reserved key; a fact has a normalised key, a kind of a fact, and a salience
-- from 1 to 5.
abbrev pub IsFact : ChatMemory → Type 0
IsFact m =
    (valid_memory_kind m.kind ≡ true)
    × IsKey m.key_norm
    × (leb 1 m.salience && leb m.salience 5 ≡ true)

abbrev pub IsRow : ChatMemory → Type 0
IsRow m = ((m.kind ≡ lit "summary") × (m.key_norm ≡ summary_key_norm)) ⊎ IsFact m

-- No two rows have the same user and key.
abbrev pub IsDistinct : List ChatMemory → Type 0
IsDistinct [] = Unit
IsDistinct (m ∷ rest) = All (λ x. keyed m.user_id m.key_norm x ≡ false) rest × IsDistinct rest

pub record IsSound (t : Memories) : Type 0 where
  pub rows_sound : All IsRow t.rows
  pub distinct : IsDistinct t.rows

-- The rows of other users.
abbrev pub others : ℕ → Memories → List ChatMemory
others user_id t = select (λ (m : ChatMemory). not (m.user_id == user_id)) t.rows

-- A statement for one user: the others' rows stay, and there is at most one row more.
abbrev pub Adds : ℕ → ℕ → Memories → Memories → Type 0
Adds n user_id before after =
    (others user_id after ≡ others user_id before)
    × (length after.rows ≤ length before.rows + n)
    × (after.users ≡ before.users)

-- A row that was not there before has the property.
abbrev pub Writes : (ChatMemory → Type 0) → Memories → Memories → Type 0
Writes C before after = All (λ x. Has x before.rows ⊎ C x) after.rows

module _ (now : ℕ) (m : ChatMemory) (f : ChatMemory → ChatMemory)
    (keeps_user : (x : ChatMemory) → (f x).user_id ≡ x.user_id)
    (keeps_key : (x : ChatMemory) → (f x).key_norm ≡ x.key_norm) where
  IsDistinct-change :
      (p : ChatMemory → Bool) (rows : List ChatMemory)
      → IsDistinct rows
      → IsDistinct (change p f rows)
  IsDistinct-change p [] h = tt
  IsDistinct-change p (x ∷ rest) h = (head (p x), IsDistinct-change p rest h.1)
    where
      tail : All (λ y. keyed x.user_id x.key_norm y ≡ false) (change p f rest)
      tail =
          All-change p f _ rest
            (λ y e k.
              ap (λ (u : ℕ). u == x.user_id && text_eq (f y).key_norm x.key_norm) (keeps_user y)
              ∙ ap (λ (t : Text). y.user_id == x.user_id && text_eq t x.key_norm) (keeps_key y)
              ∙ k)
            h.0

      head :
          (b : Bool)
          → (let x' : ChatMemory = if b then f x else x in
              All (λ y. keyed x'.user_id x'.key_norm y ≡ false) (change p f rest))
      head false = tail
      head true =
          subst (λ (u : ℕ). All (λ y. keyed u (f x).key_norm y ≡ false) (change p f rest))
            (sym (keeps_user x))
            (subst (λ (k : Text). All (λ y. keyed x.user_id k y ≡ false) (change p f rest))
              (sym (keeps_key x)) tail)

  pub put-Adds : (t : Memories) → Adds 1 m.user_id t (put now m f t)
  unfolding put
  put-Adds t = found (first (keyed m.user_id m.key_norm) t.rows)
    where
      found :
          (o : Option ChatMemory)
          → Adds 1 m.user_id t (
              let t' : Memories = elim o [
                | none ↦ record t {
                  rows =
                      record m { id = t.next_id; captured_at = now; last_seen_at = now } ∷ t.rows;
                  next_id = suc t.next_id;
                }
                | some old ↦ record t { rows = change (keyed m.user_id m.key_norm) f t.rows }
              ] in
              t')
      found none = (ground (arith, ==_self m.user_id), omega arith, refl)
      found (some old) = (
        select-change (keyed m.user_id m.key_norm) f _ t.rows (λ x e. ground arith)
            (λ x e. ap (λ (u : ℕ). not (u == m.user_id)) (keeps_user x) ∙ ground arith),
        omega (arith, length-change (keyed m.user_id m.key_norm) f t.rows),
        refl,
      )

  pub put-IsSound :
      (t : Memories)
      → ((id : ℕ) → IsRow (record m { id = id; captured_at = now; last_seen_at = now }))
      → ((x : ChatMemory) → keyed m.user_id m.key_norm x ≡ true → IsRow x → IsRow (f x))
      → IsSound t
      → IsSound (put now m f t)
  unfolding put
  put-IsSound t new changed sound = found (first (keyed m.user_id m.key_norm) t.rows) refl
    where
      found :
          (o : Option ChatMemory)
          → first (keyed m.user_id m.key_norm) t.rows ≡ o
          → IsSound (
              let t' : Memories = elim o [
                | none ↦ record t {
                  rows =
                      record m { id = t.next_id; captured_at = now; last_seen_at = now } ∷ t.rows;
                  next_id = suc t.next_id;
                }
                | some old ↦ record t { rows = change (keyed m.user_id m.key_norm) f t.rows }
              ] in
              t')
      found none e = record {
        rows_sound = (new t.next_id, sound.rows_sound);
        distinct = (first-none (keyed m.user_id m.key_norm) t.rows e, sound.distinct);
      }
      found (some old) e = record {
        rows_sound = All-change (keyed m.user_id m.key_norm) f _ t.rows changed sound.rows_sound;
        distinct = IsDistinct-change (keyed m.user_id m.key_norm) t.rows sound.distinct;
      }

  pub put-Writes :
      (C : ChatMemory → Type 0) (t : Memories)
      → ((id : ℕ) → C (record m { id = id; captured_at = now; last_seen_at = now }))
      → ((x : ChatMemory) → keyed m.user_id m.key_norm x ≡ true → Has x t.rows → C (f x))
      → Writes C t (put now m f t)
  unfolding put
  put-Writes C t new changed = found (first (keyed m.user_id m.key_norm) t.rows)
    where
      stay : All (λ x. Has x t.rows ⊎ C x) t.rows
      stay = Has-All _ t.rows (λ x h. inl h)

      there : All (λ x. Has x t.rows) t.rows
      there = Has-All _ t.rows (λ x h. h)

      found :
          (o : Option ChatMemory)
          → Writes C t (
              let t' : Memories = elim o [
                | none ↦ record t {
                  rows =
                      record m { id = t.next_id; captured_at = now; last_seen_at = now } ∷ t.rows;
                  next_id = suc t.next_id;
                }
                | some old ↦ record t { rows = change (keyed m.user_id m.key_norm) f t.rows }
              ] in
              t')
      found none = (inr (new t.next_id), stay)
      found (some old) = change-Writes (keyed m.user_id m.key_norm) t.rows changed there
        where
          change-Writes :
              (p : ChatMemory → Bool) (rows : List ChatMemory)
              → ((x : ChatMemory) → p x ≡ true → Has x t.rows → C (f x))
              → All (λ x. Has x t.rows) rows
              → All (λ x. Has x t.rows ⊎ C x) (change p f rows)
          change-Writes p [] step h = tt
          change-Writes p (x ∷ rest) step h = (one (p x) refl, change-Writes p rest step h.1)
            where
              one :
                  (b : Bool)
                  → p x ≡ b
                  → (let y : ChatMemory = if b then f x else x in Has y t.rows ⊎ C y)
              one true e = inr (step x e h.0)
              one false e = inl h.0
