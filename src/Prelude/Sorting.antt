-- ===== src/Prelude/Sorting.antt =====
-- `ORDER BY`: a stable insertion sort, by a number, smallest first, or by a test of two rows.
use astra_backend.Prelude.Tests.{leb, if◌then◌else◌}
use astra_backend.Prelude.Lists.{Has, length, take, All, All-map, All-Has}
use astra_backend.Prelude.Changes.{All-take}
use Prim.Native.Nat.{ℕ, zero, suc}
use mathlib.Core.Path.{◌≡◌, refl, ap}
use mathlib.Core.Logic.{◌⊎◌, inl, inr}
use mathlib.Core.Bool.{Bool, true, false}
use mathlib.Core.List.{List, [], ◌∷◌}
use native.Mathlib.Omega.{arith}

module _ {A : Type 0} (key : A → ℕ) where
  insert_by : A → List A → List A
  insert_by a [] = a ∷ []
  insert_by a (x ∷ xs) = if leb (key a) (key x) then a ∷ x ∷ xs else x ∷ insert_by a xs

  unfoldable pub order_by : List A → List A
  unfolding insert_by
  order_by [] = []
  order_by (x ∷ xs) = insert_by x (order_by xs)

  Has-insert_by : (b a : A) (xs : List A) → Has b (insert_by a xs) → (a ≡ b) ⊎ Has b xs
  unfolding insert_by
  Has-insert_by b a [] h = h
  Has-insert_by b a (x ∷ xs) h = ground (arith, Has-insert_by b a xs)

  insert_by-Has : (b a : A) (xs : List A) → (a ≡ b) ⊎ Has b xs → Has b (insert_by a xs)
  unfolding insert_by
  insert_by-Has b a [] h = h
  insert_by-Has b a (x ∷ xs) h = ground (arith, insert_by-Has b a xs)

  -- Ordering a list changes neither its elements nor its length.
  pub Has-order_by : (b : A) (xs : List A) → Has b (order_by xs) → Has b xs
  unfolding order_by
  Has-order_by b [] h = h
  Has-order_by b (x ∷ xs) h = ground (arith, Has-insert_by b x (order_by xs), Has-order_by b xs)

  pub order_by-Has : (b : A) (xs : List A) → Has b xs → Has b (order_by xs)
  unfolding order_by
  order_by-Has b [] h = h
  order_by-Has b (x ∷ xs) h = ground (arith, insert_by-Has b x (order_by xs), order_by-Has b xs)

  length-insert_by : (a : A) (xs : List A) → length (insert_by a xs) ≡ suc (length xs)
  unfolding insert_by
  length-insert_by a [] = refl
  length-insert_by a (x ∷ xs) = ground (arith, length-insert_by a xs)

  pub length-order_by : (xs : List A) → length (order_by xs) ≡ length xs
  unfolding order_by
  length-order_by [] = refl
  length-order_by (x ∷ xs) = ground (arith, length-insert_by x (order_by xs), length-order_by xs)

-- Sorting by `before`, whether one row may stand in front of another.
module _ {A : Type 0} (before : A → A → Bool) where
  insert_before : A → List A → List A
  insert_before a [] = a ∷ []
  insert_before a (x ∷ xs) =
      let rest = insert_before a xs in if before a x then a ∷ x ∷ xs else x ∷ rest

  unfoldable pub sort_before : List A → List A
  unfolding insert_before
  sort_before [] = []
  sort_before (x ∷ xs) = insert_before x (sort_before xs)

  -- No row may stand in front of the one before it.
  abbrev pub IsOrdered : List A → Type 0
  IsOrdered [] = Unit
  IsOrdered (x ∷ xs) = All (λ y. before x y ≡ true) xs × IsOrdered xs

  pub take-IsOrdered : (n : ℕ) (xs : List A) → IsOrdered xs → IsOrdered (take n xs)
  take-IsOrdered zero xs h = tt
  take-IsOrdered (suc n) [] h = tt
  take-IsOrdered (suc n) (x ∷ xs) h = (All-take _ n xs h.0, take-IsOrdered n xs h.1)

  All-insert_before :
      (P : A → Type 0) (a : A) (xs : List A) → P a → All P xs → All P (insert_before a xs)
  unfolding insert_before
  All-insert_before P a [] pa h = (pa, tt)
  All-insert_before P a (x ∷ xs) pa h = split (All-insert_before P a xs pa h.1) (before a x)
    where
      split :
          All P (insert_before a xs)
          → (b : Bool) → All P (if b then a ∷ x ∷ xs else x ∷ insert_before a xs)
      split rest true = (pa, h)
      split rest false = (h.0, rest)

  pub All-sort_before : (P : A → Type 0) (xs : List A) → All P xs → All P (sort_before xs)
  unfolding sort_before
  All-sort_before P [] h = tt
  All-sort_before P (x ∷ xs) h =
      All-insert_before P x (sort_before xs) h.0 (All-sort_before P xs h.1)

  insert_before-Has : (b a : A) (xs : List A) → (a ≡ b) ⊎ Has b xs → Has b (insert_before a xs)
  unfolding insert_before
  insert_before-Has b a [] h = h
  insert_before-Has b a (x ∷ xs) h = ground (arith, insert_before-Has b a xs)

  pub sort_before-Has : (b : A) (xs : List A) → Has b xs → Has b (sort_before xs)
  unfolding sort_before
  sort_before-Has b [] h = h
  sort_before-Has b (x ∷ xs) h =
      ground (arith, insert_before-Has b x (sort_before xs), sort_before-Has b xs)

  -- What the first rows of a list in order leave out stands behind each of them, and the rows taken
  -- are as many as were asked for.
  pub take-Has :
      (n : ℕ) (b : A) (xs : List A)
      → IsOrdered xs
      → Has b xs
      → Has b (take n xs) ⊎ ((length (take n xs) ≡ n) × All (λ x. before x b ≡ true) (take n xs))
  take-Has zero b xs o h = inr (refl, tt)
  take-Has (suc n) b [] o h = absurd h
  take-Has (suc n) b (x ∷ xs) o (inl e) = inl (inl e)
  take-Has (suc n) b (x ∷ xs) o (inr h) = elim (take-Has n b xs o.1 h) [
    | inl k ↦ inl (inr k)
    | inr k ↦ inr (ap suc k.0, (All-Has (λ y. before x y ≡ true) xs b o.0 h, k.1))
  ]

  module _ (total : (a b : A) → before a b ≡ false → before b a ≡ true)
      (trans : (a b c : A) → before a b ≡ true → before b c ≡ true → before a c ≡ true) where
    insert_before-IsOrdered : (a : A) (xs : List A) → IsOrdered xs → IsOrdered (insert_before a xs)
    unfolding insert_before
    insert_before-IsOrdered a [] h = (tt, tt)
    insert_before-IsOrdered a (x ∷ xs) h =
        split (insert_before-IsOrdered a xs h.1) (before a x) refl
      where
        split :
            IsOrdered (insert_before a xs)
            → (b : Bool) → before a x ≡ b
            → IsOrdered (if b then a ∷ x ∷ xs else x ∷ insert_before a xs)
        split rest true e = ((e, All-map _ _ xs (λ y. trans a x y e) h.0), h)
        split rest false e = (All-insert_before _ a xs (total a x e) h.0, rest)

    pub sort_before-IsOrdered : (xs : List A) → IsOrdered (sort_before xs)
    unfolding sort_before
    sort_before-IsOrdered [] = tt
    sort_before-IsOrdered (x ∷ xs) =
        insert_before-IsOrdered x (sort_before xs) (sort_before-IsOrdered xs)
