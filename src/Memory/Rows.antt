-- ===== src/Memory/Rows.antt =====
-- internal/service/memory.go: the rows that AddUserMemory and Observe make.
use astra_backend.Prelude.{
  Has, List, ℕ, zero, suc, ◌≤◌, ◌≡◌, refl, subst, ◌⊎◌, Bool, true, false, ◌&&◌, ◌||◌, Option, none,
  some, [], ◌∷◌, arith, Text, lit, text_eq, is_empty, trim_space, ltb, leb, if◌then◌else◌, length,
  take, take_runes, rune_count, length-take_le,
}
use astra_backend.Memory.{ChatMemory}
use astra_backend.Memory.Slugs.{normalize_key-IsKey}
use astra_backend.Memory.Words.{
  valid_memory_kind, clamp_salience, normalize_key, first_non_empty, looks_like_pii,
}
use astra_backend.Memory.Sound.{IsFact}
use astra_backend.Memory.Service.{ExtractedMemory, memory_row, kind_or_fact, pinned, observed_row}

-- A row for a memory that may be kept.
abbrev pub IsKept : ExtractedMemory → ChatMemory → Type 0
IsKept x m =
    (looks_like_pii x.key ≡ false)
    × (looks_like_pii m.content ≡ false)
    × (rune_count m.content ≤ 300)
    × (m.content ≡ trim_space x.content)
    × (m.key_norm ≡ normalize_key (first_non_empty (x.key ∷ m.content ∷ [])))

-- What the extractor may leave: a summary of at most 600 runes, or the text of one of the memories that it
-- gave, of at most 300 runes, where neither the text nor the key given looks private.
abbrev pub IsClean : List ExtractedMemory → ChatMemory → Type 0
IsClean given m =
    ((m.kind ≡ lit "summary") × (rune_count m.content ≤ 600))
    ⊎ ((x : ExtractedMemory) × Has x given × IsKept x m)

-- What a pin leaves: at most 400 bytes, marked as the user's own.
abbrev pub IsPinned : ChatMemory → Type 0
IsPinned m = (m.source ≡ lit "user") × (length m.content ≤ 400)

kind_or_fact-valid : (kind : Text) → valid_memory_kind (kind_or_fact kind) ≡ true
unfolding valid_memory_kind text_eq
kind_or_fact-valid kind = split (valid_memory_kind kind) refl
  where
    split :
        (b : Bool)
        → valid_memory_kind kind ≡ b
        → valid_memory_kind (if b then kind else lit "fact") ≡ true
    split true e = e
    split false e = refl

clamp_salience-bounds : (n : ℕ) → (leb 1 (clamp_salience n) && leb (clamp_salience n) 5) ≡ true
unfolding clamp_salience
clamp_salience-bounds n = ground arith

pub rune_count-take_runes : (n : ℕ) (s : Text) → rune_count (take_runes n s) ≤ n
unfolding rune_count take_runes
rune_count-take_runes n [] = omega arith
rune_count-take_runes zero (c ∷ s) = ground (arith, rune_count-take_runes zero s)
rune_count-take_runes (suc n) (c ∷ s) =
    ground (arith, rune_count-take_runes n s, rune_count-take_runes (suc n) s)

-- A row that `Observe` writes is a fact of that user, and clean.
pub observed_row-IsFact :
    (user_id : ℕ) (m : ExtractedMemory) (row : ChatMemory)
    → observed_row user_id m ≡ some row
    → IsFact row × (row.user_id ≡ user_id) × IsKept m row
unfolding observed_row
observed_row-IsFact user_id m row e = split _ _ refl refl e
  where
    content : Text
    content = trim_space m.content

    made : ChatMemory
    made =
        memory_row user_id (kind_or_fact m.kind) content
          (normalize_key (first_non_empty (m.key ∷ content ∷ []))) (clamp_salience m.salience)
          (lit "auto")

    fact_of : Option ChatMemory → Type 0
    fact_of none = Unit
    fact_of (some r) = IsFact r × (r.user_id ≡ user_id) × IsKept m r

    split :
        (b c : Bool)
        → (is_empty content || ltb 300 (rune_count content)) ≡ b
        → (looks_like_pii content
            || looks_like_pii m.key
            || is_empty (normalize_key (first_non_empty (m.key ∷ content ∷ []))))
          ≡ c
        → (let kept : Option ChatMemory = if b then none else (if c then none else some made) in
            kept)
          ≡ some row
        → IsFact row × (row.user_id ≡ user_id) × IsKept m row
    split true c p q h = cc
    split false true p q h = cc
    split false false p q h = subst fact_of h (
      (kind_or_fact-valid m.kind, normalize_key-IsKey _, clamp_salience-bounds m.salience),
      refl,
      (ground arith, ground arith, ground arith, refl, refl),
    )

pub pinned-IsFact : (user_id : ℕ) (content kind : Text) → IsFact (pinned user_id content kind)
unfolding pinned
pinned-IsFact user_id content kind = (kind_or_fact-valid kind, normalize_key-IsKey _, refl)

pub pinned-short :
    (user_id : ℕ) (content kind : Text) → length (pinned user_id content kind).content ≤ 400
unfolding pinned
pinned-short user_id content kind = cut 400 (ltb 400 (length content)) refl
  where
    cut :
        (n : ℕ) (b : Bool)
        → ltb n (length content) ≡ b
        → length (if b then take n content else content) ≤ n
    cut n true e = omega (arith, length-take_le n content (ground arith))
    cut n false e = ground arith
