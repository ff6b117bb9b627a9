-- ===== src/Prelude/Trims.antt =====
-- What trimming a byte off both ends leaves.
use mathlib.Core.Path.{◌≡◌, refl, sym, ap, subst, ◌∙◌}
use Prim.Native.Nat.{ℕ, zero, suc, ◌≤◌}
use mathlib.Core.Bool.{Bool, true, false}
use mathlib.Core.List.{[], ◌∷◌, ◌++◌, reverse, reverse-append, reverse-reverse}
use native.Mathlib.Omega.{arith}
use astra_backend.Prelude.Tests.{◌==◌, if◌then◌else◌}
use astra_backend.Prelude.Lists.{length, length-append, take, drop, All, All-reverse_aux}
use astra_backend.Prelude.Strings.{Text, is_space, trim_left, trim_space}
use astra_backend.Prelude.Search.{trim_left_byte, trim_byte}

-- The text does not begin with the byte.
unfoldable pub begins_with : ℕ → Text → Bool
begins_with b [] = false
begins_with b (c ∷ s) = c == b

module _ (b : ℕ) where
  trim_left_byte-begins_with : (s : Text) → begins_with b (trim_left_byte b s) ≡ false
  unfolding trim_left_byte begins_with
  trim_left_byte-begins_with [] = refl
  trim_left_byte-begins_with (c ∷ s) = ground (arith, trim_left_byte-begins_with s)

  trim_left_byte_same : (s : Text) → begins_with b s ≡ false → trim_left_byte b s ≡ s
  unfolding trim_left_byte begins_with
  trim_left_byte_same [] h = refl
  trim_left_byte_same (c ∷ s) h = ground arith

  trim_left_byte_rest : (s : Text) → (p : Text) × (p ++ trim_left_byte b s ≡ s)
  unfolding trim_left_byte
  trim_left_byte_rest [] = ([], refl)
  trim_left_byte_rest (c ∷ s) = split (c == b) (trim_left_byte_rest s)
    where
      split :
          (t : Bool)
          → (p : Text) × (p ++ trim_left_byte b s ≡ s)
          → (p : Text) × (p ++ (if t then trim_left_byte b s else c ∷ s) ≡ c ∷ s)
      split true found = (c ∷ found.0, ap (◌∷◌ c) found.1)
      split false found = ([], refl)

  begins_with-append : (s t : Text) → begins_with b (s ++ t) ≡ false → begins_with b s ≡ false
  unfolding begins_with
  begins_with-append [] t h = refl
  begins_with-append (c ∷ s) t h = h

  trim_right_rest : (t : Text) → (q : Text) × (reverse (trim_left_byte b (reverse t)) ++ q ≡ t)
  trim_right_rest t =
      let back = trim_left_byte_rest (reverse t) in
      (
        reverse back.0,
        sym (reverse-append back.0 (trim_left_byte b (reverse t)))
            ∙ ap reverse back.1
            ∙ reverse-reverse t,
      )

  -- A trimmed text is a part of the text.
  pub trim_byte_part : (s : Text) → (p q : Text) × (p ++ (trim_byte b s ++ q) ≡ s)
  unfolding trim_byte
  trim_byte_part s =
      let front = trim_left_byte_rest s in
      let back = trim_right_rest (trim_left_byte b s) in
      (front.0, back.0, ap (◌++◌ front.0) back.1 ∙ front.1)

  pub trim_byte-first : (s : Text) → begins_with b (trim_byte b s) ≡ false
  unfolding trim_byte
  trim_byte-first s =
      let back = trim_right_rest (trim_left_byte b s) in
      begins_with-append (trim_byte b s) back.0
        (subst (λ (u : Text). begins_with b u ≡ false) (sym back.1) (trim_left_byte-begins_with s))

  pub trim_byte-last : (s : Text) → begins_with b (reverse (trim_byte b s)) ≡ false
  unfolding trim_byte
  trim_byte-last s =
      subst (λ (u : Text). begins_with b u ≡ false)
        (sym (reverse-reverse (trim_left_byte b (reverse (trim_left_byte b s)))))
        (trim_left_byte-begins_with (reverse (trim_left_byte b s)))

  pub trim_byte_same :
      (s : Text) → begins_with b s ≡ false → begins_with b (reverse s) ≡ false → trim_byte b s ≡ s
  unfolding trim_byte
  trim_byte_same s h k =
      ap (λ (u : Text). reverse (trim_left_byte b (reverse u))) (trim_left_byte_same s h)
      ∙ ap reverse (trim_left_byte_same (reverse s) k)
      ∙ reverse-reverse s

  pub length-trim_byte : (s : Text) → length (trim_byte b s) ≤ length s
  length-trim_byte s =
      let part = trim_byte_part s in
      subst (λ (u : Text). length (trim_byte b s) ≤ length u) part.2
        (omega (
          arith,
          length-append part.0 (trim_byte b s ++ part.1),
          length-append (trim_byte b s) part.1,
        ))

Spaceless : Text → Type 0
Spaceless s = All (λ c. is_space c ≡ false) s

trim_left_same : (s : Text) → Spaceless s → trim_left s ≡ s
unfolding trim_left Spaceless
trim_left_same [] h = refl
trim_left_same (c ∷ s) h = ground (arith, h.0)

-- A text without spaces stays as it is.
pub trim_space_same : (s : Text) → All (λ c. is_space c ≡ false) s → trim_space s ≡ s
unfolding trim_space Spaceless
trim_space_same s h =
    ap (λ (u : Text). reverse (trim_left (reverse u))) (trim_left_same s h)
    ∙ ap reverse (trim_left_same (reverse s) (All-reverse_aux _ s [] h tt))
    ∙ reverse-reverse s

pub take-append-drop : (n : ℕ) (s : Text) → take n s ++ drop n s ≡ s
take-append-drop zero s = refl
take-append-drop (suc n) [] = refl
take-append-drop (suc n) (c ∷ s) = ap (◌∷◌ c) (take-append-drop n s)
