-- ===== src/Prelude/Changes.antt =====
-- What changing some of the elements of a list, or adding one, keeps.
use mathlib.Core.Path.{◌≡◌, refl, ap, ◌∙◌}
use mathlib.Core.Bool.{Bool, true, false}
use mathlib.Core.List.{List, [], ◌∷◌}
use mathlib.Core.Option.{some}
use Prim.Native.Nat.{ℕ, zero, suc, ◌≤◌}
use native.Mathlib.Omega.{arith}
use astra_backend.Prelude.Tests.{if◌then◌else◌}
use astra_backend.Prelude.Lists.{length, select, change, All, All-map, first, take}

module _ {A : Type 0} (p : A → Bool) (f : A → A) where
  pub length-change : (xs : List A) → length (change p f xs) ≡ length xs
  length-change [] = refl
  length-change (x ∷ xs) = ap suc (length-change xs)

  pub first-change :
      (xs : List A) (a : A)
      → ((b : A) → p b ≡ true → p (f b) ≡ true)
      → first p xs ≡ some a
      → first p (change p f xs) ≡ some (f a)
  first-change [] a still e = cc
  first-change (x ∷ xs) a still e = ground (arith, first-change xs a still, still x)

  -- A search for something else.
  pub first-change_other :
      (q : A → Bool) (xs : List A)
      → ((a : A) → p a ≡ true → q a ≡ false)
      → ((a : A) → p a ≡ true → q (f a) ≡ false)
      → first q (change p f xs) ≡ first q xs
  first-change_other q [] out still = refl
  first-change_other q (x ∷ xs) out still =
      ground (arith, first-change_other q xs out still, out x, still x)

  pub All-change :
      (P : A → Type 0) (xs : List A)
      → ((a : A) → p a ≡ true → P a → P (f a))
      → All P xs
      → All P (change p f xs)
  All-change P [] step h = tt
  All-change P (x ∷ xs) step h = (changed (p x) refl, All-change P xs step h.1)
    where
      changed : (b : Bool) → p x ≡ b → P (if b then f x else x)
      changed true e = step x e h.0
      changed false e = h.0

  -- What is not changed stays, if nothing that is changed passes the test before or behind it.
  pub select-change :
      (q : A → Bool) (xs : List A)
      → ((a : A) → p a ≡ true → q a ≡ false)
      → ((a : A) → p a ≡ true → q (f a) ≡ false)
      → select q (change p f xs) ≡ select q xs
  select-change q [] out still = refl
  select-change q (x ∷ xs) out still = changed (p x) refl (select-change q xs out still)
    where
      changed :
          (b : Bool)
          → p x ≡ b
          → select q (change p f xs) ≡ select q xs
          → select q ((if b then f x else x) ∷ change p f xs) ≡ select q (x ∷ xs)
      changed true e rest = ground (arith, out x e, still x e)
      changed false e rest = ap (λ (ys : List A). if q x then x ∷ ys else ys) rest

module _ {A : Type 0} where
  pub All-take : (P : A → Type 0) (n : ℕ) (xs : List A) → All P xs → All P (take n xs)
  All-take P zero xs h = tt
  All-take P (suc n) [] h = tt
  All-take P (suc n) (x ∷ xs) h = (h.0, All-take P n xs h.1)

  pub length-take_bound : (n : ℕ) (xs : List A) → length (take n xs) ≤ n
  length-take_bound zero xs = omega arith
  length-take_bound (suc n) [] = omega arith
  length-take_bound (suc n) (x ∷ xs) = omega (arith, length-take_bound n xs)

-- No two elements clash.
module _ {A : Type 0} (clash : A → A → Bool) where
  abbrev pub IsApart : List A → Type 0
  IsApart [] = Unit
  IsApart (x ∷ xs) = All (λ y. clash x y ≡ false) xs × IsApart xs

  -- A change that keeps what an element clashes with.
  module _ (p : A → Bool) (f : A → A) (left : (x y : A) → clash (f x) y ≡ clash x y)
      (right : (x y : A) → clash x (f y) ≡ clash x y) where
    pub IsApart-change : (xs : List A) → IsApart xs → IsApart (change p f xs)
    IsApart-change [] h = tt
    IsApart-change (x ∷ xs) h = (head (p x), IsApart-change xs h.1)
      where
        tail : All (λ y. clash x y ≡ false) (change p f xs)
        tail = All-change p f _ xs (λ y e k. right x y ∙ k) h.0

        head : (b : Bool) → All (λ y. clash (if b then f x else x) y ≡ false) (change p f xs)
        head false = tail
        head true = All-map _ _ (change p f xs) (λ y k. left x y ∙ k) tail
