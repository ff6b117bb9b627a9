-- ===== src/Prelude/Finds.antt =====
-- Where searches stop, and what trimming leaves inside space.
use mathlib.Core.Path.{◌≡◌, refl, sym, ap, ◌∙◌}
use Prim.Native.Nat.{ℕ}
use mathlib.Core.Bool.{Bool, true, false}
use mathlib.Core.Option.{some}
use mathlib.Core.List.{[], ◌∷◌, ◌++◌, reverse, reverse-append, reverse-reverse, append_assoc}
use native.Mathlib.Omega.{arith}
use astra_backend.Prelude.Tests.{==_self, if◌then◌else◌}
use astra_backend.Prelude.Lists.{length, drop, drop-length_append, All, All-reverse_aux}
use astra_backend.Prelude.Strings.{Text, is_space, trim_left, trim_space, contains_byte}
use astra_backend.Prelude.Search.{has_prefix, trim_prefix, index, one_on, last_index}

pub has_prefix-append : (part s : Text) → has_prefix (part ++ s) part ≡ true
unfolding has_prefix
has_prefix-append [] s = refl
has_prefix-append (b ∷ part) s = ground (arith, has_prefix-append part s)

pub trim_prefix-append : (part s : Text) → trim_prefix (part ++ s) part ≡ s
unfolding trim_prefix
trim_prefix-append part s =
    ap (λ (b : Bool). if b then drop (length part) (part ++ s) else part ++ s)
      (has_prefix-append part s)
    ∙ drop-length_append part s

-- A search finds the first place, if the first byte of what it looks for does not come before.
pub index-append :
    (b : ℕ) (part front rest : Text)
    → contains_byte b front ≡ false
    → index (front ++ (b ∷ part ++ rest)) (b ∷ part) ≡ some (length front)
unfolding index contains_byte has_prefix
index-append b part [] rest h =
    ap (λ (t : Bool). if t then some 0 else one_on (index (part ++ rest) (b ∷ part)))
      (has_prefix-append (b ∷ part) rest)
index-append b part (c ∷ front) rest h = ground (arith, index-append b part front rest)

pub last_index-append : (b : ℕ) (s : Text) → last_index (s ++ (b ∷ [])) b ≡ some (length s)
unfolding last_index
last_index-append b [] = ground (arith, ==_self b)
last_index-append b (c ∷ s) = ground (arith, last_index-append b s)

trim_left-append :
    (spaces s : Text) → All (λ c. is_space c ≡ true) spaces → trim_left (spaces ++ s) ≡ trim_left s
unfolding trim_left
trim_left-append [] s h = refl
trim_left-append (c ∷ spaces) s h = ground (arith, h.0, trim_left-append spaces s h.1)

trim_left-cons : (c : ℕ) (s : Text) → is_space c ≡ false → trim_left (c ∷ s) ≡ c ∷ s
unfolding trim_left
trim_left-cons c s h = ground arith

-- Space around a text that begins and ends with other bytes.
pub trim_space-around :
    (front back inner : Text) (b e : ℕ)
    → All (λ c. is_space c ≡ true) front
    → All (λ c. is_space c ≡ true) back
    → is_space b ≡ false
    → is_space e ≡ false
    → trim_space (front ++ (b ∷ inner ++ (e ∷ back))) ≡ b ∷ inner ++ (e ∷ [])
unfolding trim_space
trim_space-around front back inner b e hf hb h k =
    ap (λ (u : Text). reverse (trim_left (reverse u)))
      (trim_left-append front _ hf ∙ trim_left-cons b (inner ++ (e ∷ back)) h)
    ∙ ap (λ (u : Text). reverse (trim_left (reverse u)))
        (sym (append_assoc (b ∷ inner) (e ∷ []) back))
    ∙ ap (λ (u : Text). reverse (trim_left u)) (reverse-append (b ∷ inner ++ (e ∷ [])) back)
    ∙ ap reverse (
        trim_left-append (reverse back) (reverse (b ∷ inner ++ (e ∷ [])))
          (All-reverse_aux _ back [] hb tt)
        ∙ ap trim_left (reverse-append (b ∷ inner) (e ∷ []))
        ∙ trim_left-cons e (reverse (b ∷ inner)) k
        ∙ sym (reverse-append (b ∷ inner) (e ∷ [])))
    ∙ reverse-reverse (b ∷ inner ++ (e ∷ []))
